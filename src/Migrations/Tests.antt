-- ===== src/Migrations/Tests.antt =====
-- Runs over two files, on a schema that is the list of the SQL executed.
use civitas.Prelude.{
  ◌≡◌, refl, true, false, Option, none, some, List, [], ◌∷◌, ◌++◌, String, str_eq, any, all, All,
  select, if◌then◌else◌,
}
use civitas.Prelude.Texts.{sort_texts}
use civitas.Prelude.Text.{ends_with, equals_lowered}
use civitas.Migrations.{
  stopped, read_file, claim_migration, Database, Applied, completed, failed, has,
  should_run_migrations, list_migration_files, apply_migration, error_of, run_from,
  run_sql_migrations,
}
use civitas.Migrations.Runs.{
  Refusals, no_refusals, Built, fresh, run_all, database_of, run_all-Built,
}
use civitas.Migrations.Again.{all_skipped, run_from-failed, run_sql_migrations-again}
use civitas.Migrations.Schema.{
  TableColumns, ColumnRow, schema_ok, required_operational_schema, assert_operational_schema,
}
use civitas.Migrations.Ready.{is_ready, assert_operational_schema_iff}

abbrev execute : String → List String → Option (List String)
execute m d = some (d ++ m ∷ [])

-- The SQL of the second file is wrong.
abbrev execute_first : String → List String → Option (List String)
execute_first m d = if str_eq m "0002.sql" then none else some (d ++ m ∷ [])

abbrev files : List String
files = "0001.sql" ∷ "0002.sql" ∷ []

abbrev empty_db : Database (List String)
empty_db = record { schema_migrations = []; schema = [] }

abbrev one_db : Database (List String)
one_db = record { schema_migrations = "0001.sql" ∷ []; schema = "0001.sql" ∷ [] }

abbrev two_db : Database (List String)
two_db = record { schema_migrations = files; schema = files }

machine : Unit {0}
unfolding run_sql_migrations run_from apply_migration error_of any select sort_texts
    list_migration_files should_run_migrations ends_with equals_lowered
machine = tt

enabled : should_run_migrations (some "TRUE") ≡ true
unfolding machine
enabled = refl

listed :
    list_migration_files (
      record { name = "0002.sql"; is_file = true }
      ∷ record { name = "README.md"; is_file = true }
      ∷ record { name = "0001.sql"; is_file = true }
      ∷ [])
    ≡ files
unfolding machine
listed = refl

all_applied :
    run_sql_migrations execute no_refusals files empty_db
    ≡ completed
        (record { migration = "0001.sql"; inserted = true }
          ∷ record { migration = "0002.sql"; inserted = true }
          ∷ [])
        two_db
unfolding machine
all_applied = refl

-- A plan that was migrated under its older name keeps its tables.
renamed_run :
    database_of (
      run_sql_migrations execute no_refusals
        ("0030_planning_aggregate.sql" ∷ [])
        (record { schema_migrations = "0029_planning_aggregate.sql" ∷ []; schema = [] }))
    ≡ record {
      schema_migrations = "0029_planning_aggregate.sql" ∷ "0030_planning_aggregate.sql" ∷ [];
      schema = [];
    }
unfolding machine
renamed_run = refl

second_fails :
    run_from execute_first no_refusals [] files empty_db
    ≡ failed (error_of execute_first "0002.sql" true) one_db
unfolding machine
second_fails = refl

abbrev second_missing : Refusals
second_missing migration read_file = str_eq migration "0002.sql"
second_missing migration _ = false

-- A file that cannot be read ends the run, and keeps the migrations before it.
second_unreadable :
    run_sql_migrations execute second_missing files empty_db ≡ stopped read_file one_db
unfolding machine
second_unreadable = refl

run_from-failed_example :
    (before rest : List String) × (done : List Applied) × (files ≡ before ++ "0002.sql" ∷ rest)
    × (run_from execute_first no_refusals [] before empty_db ≡ completed done one_db)
unfolding error_of
run_from-failed_example =
    run_from-failed execute_first no_refusals [] files empty_db
      (error_of execute_first "0002.sql" true) one_db second_fails

run_sql_migrations-again_example :
    All (λ m. has two_db.schema_migrations m ≡ true) files
    × (run_sql_migrations execute no_refusals files two_db ≡ completed (all_skipped files) two_db)
run_sql_migrations-again_example =
    run_sql_migrations-again execute no_refusals files empty_db _ two_db all_applied

-- The server refuses a claim in the first run.
abbrev refused_once : Refusals
refused_once migration claim_migration = str_eq migration "0002.sql"
refused_once migration _ = false

abbrev two_runs : List (Refusals × List String)
two_runs = (refused_once, files) ∷ (no_refusals, files) ∷ []

two_runs_end : run_all execute two_runs empty_db ≡ two_db
unfolding machine
two_runs_end = refl

run_all-Built_example :
    Built execute []
      (run_all execute two_runs empty_db).schema_migrations
      (run_all execute two_runs empty_db).schema
run_all-Built_example = run_all-Built execute [] two_runs empty_db fresh

rows_of_table : String → List String → List ColumnRow → List ColumnRow
rows_of_table table [] rows = rows
rows_of_table table (c ∷ cs) rows =
    record { table = table; column = c } ∷ rows_of_table table cs rows

rows_of : List TableColumns → List ColumnRow
rows_of [] = []
rows_of (t ∷ ts) = rows_of_table t.name t.columns (rows_of ts)

-- Each of the required columns.
all_rows : List ColumnRow
unfolding rows_of_table rows_of required_operational_schema
all_rows = rows_of required_operational_schema

all_rows_ready : all (is_ready all_rows) required_operational_schema ≡ true
unfolding all_rows all any required_operational_schema
all_rows_ready = refl

assert_operational_schema_iff_example : assert_operational_schema all_rows ≡ schema_ok
assert_operational_schema_iff_example = (assert_operational_schema_iff all_rows).1 all_rows_ready
