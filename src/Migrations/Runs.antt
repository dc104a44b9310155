-- ===== src/Migrations/Runs.antt =====
-- What runs of `runSqlMigrations` do to the table of migrations and to the schema.
use mathlib.Core.Path.{subst}
use civitas.Prelude.{
  ◌≡◌, refl, ap, Bool, true, false, not, ◌&&◌, ◌⊎◌, inl, inr, Option, none, some, or_else, List, [],
  ◌∷◌, ◌++◌, String, if◌then◌else◌, Bool-cases,
}
use civitas.Migrations.{
  Statement, create_table, read_file, begin_transaction, select_legacy, claim_migration,
  commit_transaction, Database, Applied, Attempt, committed, rolled_back, unreadable, RunResult,
  completed, failed, stopped, has, is_legacy, legacy_migration_name, asks_legacy, claimed,
  commit_with, apply_migration, error_of, run_from, run_sql_migrations,
}

abbrev pub Refusals : Type 0
Refusals = String → Statement → Bool

-- A server that refuses nothing but what the SQL of a file may be refused for.
abbrev pub no_refusals : Refusals
no_refusals migration statement = false

attempt_db {ℓ} : {D : Type ℓ} → Attempt D → Database D → Database D
attempt_db (committed i db) _ = db
attempt_db (rolled_back i) db = db
attempt_db unreadable db = db

abbrev pub database_of {ℓ} : {D : Type ℓ} → RunResult D → Database D
database_of (completed applied db) = db
database_of (failed e db) = db
database_of (stopped statement db) = db

pub Attempt-cases {ℓ} :
    {D : Type ℓ} (a : Attempt D)
    → ((i : Bool) × (after : Database D) × (a ≡ committed i after))
      ⊎ (((i : Bool) × (a ≡ rolled_back i)) ⊎ (a ≡ unreadable))
Attempt-cases (committed i after) = inl (i, after, refl)
Attempt-cases (rolled_back i) = inr (inl (i, refl))
Attempt-cases unreadable = inr (inr refl)

attempt_inserted {ℓ} : {D : Type ℓ} → Attempt D → Bool
attempt_inserted (committed i db) = i
attempt_inserted (rolled_back i) = i
attempt_inserted unreadable = false

abbrev pub noted : List Applied → String → Bool → List Applied
noted applied m i = applied ++ (record { migration = m; inserted = i }) ∷ []

past_refusals {ℓ} :
    {D : Type ℓ} (r a b c j : Bool) (x : Attempt D) (db : Database D)
    → (if r
        then unreadable
        else if a
        then rolled_back false
        else if b
        then rolled_back false
        else if c
        then rolled_back false
        else x)
      ≡ committed j db
    → x ≡ committed j db
past_refusals true a b c j x db h = cc
past_refusals false true b c j x db h = cc
past_refusals false false true c j x db h = cc
past_refusals false false false true j x db h = cc
past_refusals false false false false j x db h = h

module _ {ℓ} {D : Type ℓ} (run_sql : String → D → Option D) where
  -- What a migration that is committed makes of the schema.
  abbrev pub effect : Bool → String → Database D → Option D
  effect inserted m db =
      if inserted && not (is_legacy m db.schema_migrations)
      then run_sql m db.schema
      else some db.schema

  committed_by :
      (refused i j : Bool) (names : List String) (o : Option D) (after : Database D)
      → commit_with run_sql refused i names o ≡ committed j after
      → (i ≡ j) × (names ≡ after.schema_migrations) × (o ≡ some after.schema)
  unfolding attempt_db attempt_inserted
  committed_by refused i j names none after h = cc
  committed_by true i j names (some d) after h = cc
  committed_by false i j names (some d) after h = (
    ap attempt_inserted h,
    ap (λ a. (attempt_db a after).schema_migrations) h,
    ap (λ a. some (attempt_db a after).schema) h,
  )

  pub apply_migration-committed :
      (refuses : Refusals) (m : String) (db after : Database D) (i : Bool)
      → apply_migration run_sql refuses m db ≡ committed i after
      → (not (has db.schema_migrations m) ≡ i)
        × (claimed (not (has db.schema_migrations m)) m db.schema_migrations
            ≡ after.schema_migrations)
        × (effect (not (has db.schema_migrations m)) m db ≡ some after.schema)
  unfolding apply_migration
  apply_migration-committed refuses m db after i h =
      committed_by (refuses m commit_transaction) (not (has db.schema_migrations m)) i
        (claimed (not (has db.schema_migrations m)) m db.schema_migrations)
        (effect (not (has db.schema_migrations m)) m db) after
        (past_refusals (refuses m read_file) (refuses m begin_transaction)
          (asks_legacy (legacy_migration_name m) m && refuses m select_legacy)
          (refuses m claim_migration) i _ after h)

  -- The table and the schema that runs make of a first schema: each name is claimed once, and with
  -- the claim its SQL is executed, unless the table has the name that the migration had before.
  pub data Built (start : D) : List String → D → Type ℓ where
    fresh : Built start [] start
    renamed :
        {names : List String} {d : D} (m : String)
        → Built start names d
        → has names m ≡ false
        → is_legacy m names ≡ true
        → Built start (names ++ m ∷ []) d
    executed :
        {names : List String} {d after : D} (m : String)
        → Built start names d
        → has names m ≡ false
        → is_legacy m names ≡ false
        → run_sql m d ≡ some after
        → Built start (names ++ m ∷ []) after

  Built-moved :
      (start : D) {names names' : List String} {d d' : D}
      → names ≡ names'
      → some d ≡ some d'
      → Built start names d
      → Built start names' d'
  Built-moved start {names} {names'} {d} {d'} e f b =
      let g : d ≡ d' = ap (λ o. or_else o d) f in
      subst (λ n. Built start n d') e (subst (Built start names) g b)

  Built-claim :
      (start : D) (m : String) (db after : Database D) (present legacy : Bool)
      → has db.schema_migrations m ≡ present
      → is_legacy m db.schema_migrations ≡ legacy
      → claimed (not present) m db.schema_migrations ≡ after.schema_migrations
      → (if not present && not legacy then run_sql m db.schema else some db.schema)
        ≡ some after.schema
      → Built start db.schema_migrations db.schema
      → Built start after.schema_migrations after.schema
  Built-claim start m db after true legacy h l names schema b = Built-moved start names schema b
  Built-claim start m db after false true h l names schema b =
      Built-moved start names schema (renamed m b h l)
  Built-claim start m db after false false h l names schema b =
      subst (λ n. Built start n after.schema) names (executed m b h l schema)

  Built-apply_migration :
      (start : D) (refuses : Refusals) (m : String) (db after : Database D) (i : Bool)
      → apply_migration run_sql refuses m db ≡ committed i after
      → Built start db.schema_migrations db.schema
      → Built start after.schema_migrations after.schema
  Built-apply_migration start refuses m db after i h b =
      let (_, names, schema) = apply_migration-committed refuses m db after i h in
      Built-claim start m db after (has db.schema_migrations m) (is_legacy m db.schema_migrations)
        refl refl names schema b

  pub run_from-committed :
      (refuses : Refusals) (applied : List Applied) (m : String) (files : List String)
      (db after : Database D) (i : Bool)
      → apply_migration run_sql refuses m db ≡ committed i after
      → run_from run_sql refuses applied (m ∷ files) db
        ≡ run_from run_sql refuses (noted applied m i) files after
  unfolding run_from
  run_from-committed refuses applied m files db after i e = rw (e, run_from) refl

  pub run_from-rolled_back :
      (refuses : Refusals) (applied : List Applied) (m : String) (files : List String)
      (db : Database D) (i : Bool)
      → apply_migration run_sql refuses m db ≡ rolled_back i
      → run_from run_sql refuses applied (m ∷ files) db ≡ failed (error_of run_sql m i) db
  unfolding run_from
  run_from-rolled_back refuses applied m files db i e = rw (e, run_from) refl

  pub run_from-unreadable :
      (refuses : Refusals) (applied : List Applied) (m : String) (files : List String)
      (db : Database D)
      → apply_migration run_sql refuses m db ≡ unreadable
      → run_from run_sql refuses applied (m ∷ files) db ≡ stopped read_file db
  unfolding run_from
  run_from-unreadable refuses applied m files db e = rw (e, run_from) refl

  -- After a run on a table and schema that runs have built, whatever is refused, these are built by
  -- runs again.
  run_from-Built :
      (start : D) (refuses : Refusals) (applied : List Applied) (files : List String)
      (db : Database D)
      → Built start db.schema_migrations db.schema
      → let after = database_of (run_from run_sql refuses applied files db) in
        Built start after.schema_migrations after.schema
  unfolding run_from
  run_from-Built start refuses applied [] db b = b
  run_from-Built start refuses applied (m ∷ files) db b =
      elim (Attempt-cases (apply_migration run_sql refuses m db)) [
        | inl (i, after, e) ↦ rw (run_from-committed refuses applied m files db after i e) (
            run_from-Built start refuses (noted applied m i) files after
              (Built-apply_migration start refuses m db after i e b))
        | inr (inl (i, e)) ↦ rw (run_from-rolled_back refuses applied m files db i e) b
        | inr (inr e) ↦ rw (run_from-unreadable refuses applied m files db e) b
      ]

  run_sql_migrations-Built :
      (start : D) (refuses : Refusals) (files : List String) (db : Database D)
      → Built start db.schema_migrations db.schema
      → let after = database_of (run_sql_migrations run_sql refuses files db) in
        Built start after.schema_migrations after.schema
  unfolding run_sql_migrations
  run_sql_migrations-Built start refuses files db b =
      elim (Bool-cases (refuses "schema_migrations" create_table)) [
        | inl e ↦ rw e b
        | inr e ↦ rw e (run_from-Built start refuses [] files db b)
      ]

  -- Sequences of runs, each with the files that it finds and with what is refused to it.
  abbrev pub run_all : List (Refusals × List String) → Database D → Database D
  run_all [] db = db
  run_all ((refuses, files) ∷ runs) db =
      run_all runs (database_of (run_sql_migrations run_sql refuses files db))

  -- Whatever runs follow one another, with any files and any refusals, each migration is claimed
  -- once, in the order of the table, and the schema is what the SQL of these, each executed once
  -- but for the renamed ones, makes of the first schema.
  pub run_all-Built :
      (start : D) (runs : List (Refusals × List String)) (db : Database D)
      → Built start db.schema_migrations db.schema
      → Built start (run_all runs db).schema_migrations (run_all runs db).schema
  run_all-Built start [] db b = b
  run_all-Built start ((refuses, files) ∷ runs) db b =
      run_all-Built start runs (database_of (run_sql_migrations run_sql refuses files db))
        (run_sql_migrations-Built start refuses files db b)
