-- ===== src/Migrations.antt =====
-- backend/runtime/migrations.js: the SQL files are applied in order, each in a transaction of its own
-- that also claims its name in the table schema_migrations. What the SQL of a file does to the schema,
-- which statements the server refuses and which files cannot be read are arguments; a refused commit
-- leaves the transaction undone, as does a rollback that fails. The advisory lock keeps two runs apart, so runs follow one
-- another; the statements around it and the texts of the log are not modelled.
use civitas.Prelude.{
  ◌≡◌, refl, Bool, true, false, not, ◌&&◌, ◌||◌, Option, none, some, List, [], ◌∷◌, ◌++◌, map,
  String, str_eq, any, select, or_else, if◌then◌else◌,
}
use civitas.Prelude.Text.{is_empty, ends_with, equals_lowered}
use civitas.Prelude.Texts.{sort_texts}
pub mod Runs
pub mod Again
pub mod Schema
pub mod Ready
pub mod Tests

-- RUN_MIGRATIONS_ON_STARTUP, if it is set.
unfoldable pub should_run_migrations : Option String → Bool
unfolding equals_lowered
should_run_migrations value =
    let set = or_else value "" in equals_lowered (if is_empty set then "false" else set) "true"

pub record DirectoryEntry : Type 0 where
  pub name : String
  pub is_file : Bool

abbrev is_migration : DirectoryEntry → Bool
is_migration e = e.is_file && ends_with e.name ".sql"

abbrev name_of : DirectoryEntry → String
name_of e = e.name

-- The names of the files; the source joins each with the same directory before it sorts.
unfoldable pub list_migration_files : List DirectoryEntry → List String
unfolding sort_texts select ends_with
list_migration_files entries =
    sort_texts (map {A = DirectoryEntry} {B = String} name_of (select is_migration entries))

abbrev pub legacy_migration_name : String → Option String
legacy_migration_name migration =
    if str_eq migration "0029_documents_generation.sql"
    then some "0029_documents_generation.sql"
    else if str_eq migration "0030_planning_aggregate.sql"
    then some "0029_planning_aggregate.sql"
    else if str_eq migration "0031_planning_review_workflow.sql"
    then some "0029_planning_review_workflow.sql"
    else none

pub data SchemaExpectation : Type 0 where
  control_plane_tables lifecycle_in_status idempotent_and_compatible : SchemaExpectation

abbrev pub schema_expectation_for_migration : String → SchemaExpectation
schema_expectation_for_migration migration =
    if str_eq migration "0017_module_control_plane.sql"
    then control_plane_tables
    else if str_eq migration "0016_authorization_scope_assignments_contract.sql"
    then lifecycle_in_status
    else idempotent_and_compatible

-- What may be refused: the table schema_migrations before all files, a file's reading, and the
-- statements of its transaction, but for the SQL of the file.
pub data Statement : Type 0 where
  create_table read_file begin_transaction select_legacy claim_migration commit_transaction :
      Statement

-- The table schema_migrations, and the rest of the schema.
pub record Database {ℓ} (D : Type ℓ) : Type ℓ where
  pub schema_migrations : List String
  pub schema : D

pub data Phase : Type 0 where
  apply_phase claim_phase : Phase

-- The error DATABASE_MIGRATION_FAILED.
pub record MigrationError : Type 0 where
  pub migration : String
  pub statement_phase : Phase
  pub schema_expectation : SchemaExpectation

pub record Applied : Type 0 where
  pub migration : String
  pub inserted : Bool

pub data Attempt {ℓ} (D : Type ℓ) : Type ℓ where
  committed : Bool → Database D → Attempt D
  rolled_back : Bool → Attempt D
  unreadable : Attempt D

pub data RunResult {ℓ} (D : Type ℓ) : Type ℓ where
  completed : List Applied → Database D → RunResult D
  failed : MigrationError → Database D → RunResult D
  -- Outside the transactions, the error is thrown as it is.
  stopped : Statement → Database D → RunResult D

abbrev pub has : List String → String → Bool
has names name = any (str_eq name) names

-- Whether a migration is in the table under the name that it had before.
abbrev legacy_row : Option String → String → List String → Bool
legacy_row none migration names = false
legacy_row (some old) migration names = not (str_eq old migration) && has names old

abbrev pub is_legacy : String → List String → Bool
is_legacy migration names = legacy_row (legacy_migration_name migration) migration names

-- Whether the table is asked for the name that a migration had before.
abbrev asks_legacy : Option String → String → Bool
asks_legacy none migration = true
asks_legacy (some old) migration = not (str_eq old migration)

abbrev claimed : Bool → String → List String → List String
claimed true migration names = names ++ migration ∷ []
claimed false migration names = names

abbrev phase_of : Bool → Phase
phase_of true = apply_phase
phase_of false = claim_phase

module _ {ℓ} {D : Type ℓ} (run_sql : String → D → Option D) where
  abbrev commit_with : Bool → Bool → List String → Option D → Attempt D
  commit_with refused inserted names none = rolled_back inserted
  commit_with refused inserted names (some schema) =
      if refused
      then rolled_back inserted
      else committed inserted (record { schema_migrations = names; schema = schema })

  -- The reading of one file, and its migration's transaction.
  unfoldable pub apply_migration : (String → Statement → Bool) → String → Database D → Attempt D
  unfolding any
  apply_migration refuses migration db =
      if refuses migration read_file
      then unreadable
      else if refuses migration begin_transaction
      then rolled_back false
      else if asks_legacy (legacy_migration_name migration) migration
          && refuses migration select_legacy
      then rolled_back false
      else if refuses migration claim_migration
      then rolled_back false
      else (let inserted = not (has db.schema_migrations migration) in
          commit_with (refuses migration commit_transaction) inserted
            (claimed inserted migration db.schema_migrations)
            (if inserted && not (is_legacy migration db.schema_migrations)
              then run_sql migration db.schema
              else some db.schema))

  pub error_of : String → Bool → MigrationError
  error_of migration inserted = record {
    migration = migration;
    statement_phase = phase_of inserted;
    schema_expectation = schema_expectation_for_migration migration;
  }

  -- The loop of `runSqlMigrations`, from the migrations that it has been through.
  unfoldable pub run_from :
      (String → Statement → Bool) → List Applied → List String → Database D → RunResult D
  unfolding apply_migration error_of
  run_from refuses applied [] db = completed applied db
  run_from refuses applied (migration ∷ files) db = elim (apply_migration refuses migration db) [
    | committed inserted after ↦
        run_from refuses (applied ++ (record { migration = migration; inserted = inserted }) ∷ [])
          files after
    | rolled_back inserted ↦ failed (error_of migration inserted) db
    | unreadable ↦ stopped read_file db
  ]

  -- The table is created under its own name.
  unfoldable pub run_sql_migrations :
      (String → Statement → Bool) → List String → Database D → RunResult D
  unfolding run_from
  run_sql_migrations refuses files db =
      if refuses "schema_migrations" create_table
      then stopped create_table db
      else run_from refuses [] files db
