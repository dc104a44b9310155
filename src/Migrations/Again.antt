-- ===== src/Migrations/Again.antt =====
-- How a run of `runSqlMigrations` ends: a failure, and the run after a completed one.
use mathlib.Core.List.{append_assoc, append-nil}
use mathlib.Core.Path.{subst}
use civitas.Prelude.{
  ◌≡◌, refl, sym, ap, ◌∙◌, Bool, true, false, not, inl, inr, Option, List, [], ◌∷◌, ◌++◌, map,
  String, str_eq, eq_refl, any, any-append, any-snoc, arith, Bool-cases, All,
}
use civitas.Migrations.{
  Statement, create_table, stopped, Database, MigrationError, Applied, committed, RunResult,
  completed, failed, has, claimed, apply_migration, error_of, run_from, run_sql_migrations,
}
use civitas.Migrations.Runs.{
  run_from-unreadable, Refusals, no_refusals, Attempt-cases, noted, apply_migration-committed,
  run_from-committed, run_from-rolled_back,
}

error_in {ℓ} : {D : Type ℓ} → RunResult D → MigrationError → MigrationError
error_in (completed applied db) e = e
error_in (failed e db) _ = e
error_in (stopped statement db) e = e

failed_db {ℓ} : {D : Type ℓ} → RunResult D → Database D → Database D
failed_db (completed applied db) d = d
failed_db (failed e db) d = db
failed_db (stopped statement db) d = d

completed_db {ℓ} : {D : Type ℓ} → RunResult D → Database D → Database D
completed_db (completed applied db) _ = db
completed_db (failed e db) d = d
completed_db (stopped statement db) d = d

not_completed {ℓ κ} :
    {D : Type ℓ} {A : Type κ} {e : MigrationError} {d after : Database D} {done : List Applied}
    → failed e d ≡ completed done after
    → A
not_completed h = cc

not_stopped {ℓ κ} :
    {D : Type ℓ} {A : Type κ} {statement : Statement} {d after : Database D} {done : List Applied}
    → stopped statement d ≡ completed done after
    → A
not_stopped h = cc

not_failed {ℓ κ} :
    {D : Type ℓ} {A : Type κ} {statement : Statement} {d after : Database D} {e : MigrationError}
    → stopped statement d ≡ failed e after
    → A
not_failed h = cc

abbrev skipped : String → Applied
skipped m = record { migration = m; inserted = false }

abbrev pub all_skipped : List String → List Applied
all_skipped files = map {A = String} {B = Applied} skipped files

has-claimed :
    (i : Bool) (m x : String) (names : List String)
    → has names x ≡ true
    → has (claimed i m names) x ≡ true
unfolding any
has-claimed false m x names h = h
has-claimed true m x names h = any-append (str_eq x) names (m ∷ []) ∙ rw h refl

has_self-claimed :
    (m : String) (names : List String) → has (claimed (not (has names m)) m names) m ≡ true
has_self-claimed m names = elim (Bool-cases (has names m)) [
  | inl e ↦ rw e e
  | inr e ↦ rw e (any-snoc (str_eq m) names m (eq_refl m))
]

module _ {ℓ} {D : Type ℓ} (run_sql : String → D → Option D) where
  -- A run that fails leaves the database as the migrations before the failing one made it, each of
  -- them committed: what the failing one did is undone, and none after it is tried.
  pub run_from-failed :
      (refuses : Refusals) (applied : List Applied) (files : List String) (db : Database D)
      (e : MigrationError) (after : Database D)
      → run_from run_sql refuses applied files db ≡ failed e after
      → (before rest : List String) × (done : List Applied) × (files ≡ before ++ e.migration ∷ rest)
        × (run_from run_sql refuses applied before db ≡ completed done after)
  unfolding run_from error_in failed_db error_of
  run_from-failed refuses applied [] db e after h = cc
  run_from-failed refuses applied (m ∷ files) db e after h =
      elim (Attempt-cases (apply_migration run_sql refuses m db)) [
        | inl (i, next, a) ↦
            let (before, rest, done, split, ran) =
              run_from-failed refuses (noted applied m i) files next e after
                (sym (run_from-committed run_sql refuses applied m files db next i a) ∙ h) in
            (
              m ∷ before,
              rest,
              done,
              ap (λ l. m ∷ l) split,
              run_from-committed run_sql refuses applied m before db next i a ∙ ran,
            )
        | inr (inr a) ↦
            not_failed (sym (run_from-unreadable run_sql refuses applied m files db a) ∙ h)
        | inr (inl (i, a)) ↦
            let same = sym (run_from-rolled_back run_sql refuses applied m files db i a) ∙ h in
            (
              [],
              files,
              applied,
              ap (λ r. (error_in r e).migration ∷ files) same,
              ap (λ r. completed applied (failed_db r db)) same,
            )
      ]

  has_after :
      (refuses : Refusals) (m x : String) (db after : Database D) (i : Bool)
      → apply_migration run_sql refuses m db ≡ committed i after
      → has db.schema_migrations x ≡ true
      → has after.schema_migrations x ≡ true
  has_after refuses m x db after i e h =
      let (_, names, _) = apply_migration-committed run_sql refuses m db after i e in
      subst (λ n. has n x ≡ true) names
        (has-claimed (not (has db.schema_migrations m)) m x db.schema_migrations h)

  has_own :
      (refuses : Refusals) (m : String) (db after : Database D) (i : Bool)
      → apply_migration run_sql refuses m db ≡ committed i after
      → has after.schema_migrations m ≡ true
  has_own refuses m db after i e =
      let (_, names, _) = apply_migration-committed run_sql refuses m db after i e in
      subst (λ n. has n m ≡ true) names (has_self-claimed m db.schema_migrations)

  completed-keeps :
      (refuses : Refusals) (applied done : List Applied) (files : List String) (x : String)
      (db after : Database D)
      → run_from run_sql refuses applied files db ≡ completed done after
      → has db.schema_migrations x ≡ true
      → has after.schema_migrations x ≡ true
  unfolding run_from completed_db
  completed-keeps refuses applied done [] x db after h k =
      subst (λ d. has d.schema_migrations x ≡ true) (ap (λ r. completed_db r db) h) k
  completed-keeps refuses applied done (m ∷ files) x db after h k =
      elim (Attempt-cases (apply_migration run_sql refuses m db)) [
        | inl (i, next, a) ↦
            completed-keeps refuses (noted applied m i) done files x next after
              (sym (run_from-committed run_sql refuses applied m files db next i a) ∙ h)
              (has_after refuses m x db next i a k)
        | inr (inr a) ↦
            not_stopped (sym (run_from-unreadable run_sql refuses applied m files db a) ∙ h)
        | inr (inl (i, a)) ↦
            not_completed (sym (run_from-rolled_back run_sql refuses applied m files db i a) ∙ h)
      ]

  completed-has :
      (refuses : Refusals) (applied done : List Applied) (files : List String)
      (db after : Database D)
      → run_from run_sql refuses applied files db ≡ completed done after
      → All (λ m. has after.schema_migrations m ≡ true) files
  completed-has refuses applied done [] db after h = tt
  completed-has refuses applied done (m ∷ files) db after h =
      elim (Attempt-cases (apply_migration run_sql refuses m db)) [
        | inl (i, next, a) ↦
            let rest = sym (run_from-committed run_sql refuses applied m files db next i a) ∙ h in
            (
              completed-keeps refuses (noted applied m i) done files m next after rest
                  (has_own refuses m db next i a),
              completed-has refuses (noted applied m i) done files next after rest,
            )
        | inr (inr a) ↦
            not_stopped (sym (run_from-unreadable run_sql refuses applied m files db a) ∙ h)
        | inr (inl (i, a)) ↦
            not_completed (sym (run_from-rolled_back run_sql refuses applied m files db i a) ∙ h)
      ]

  -- Nothing is left to do for a file whose name is in the table.
  apply_migration-again :
      (m : String) (db : Database D)
      → has db.schema_migrations m ≡ true
      → apply_migration run_sql no_refusals m db ≡ committed false db
  unfolding apply_migration any
  apply_migration-again m db h = ground (arith, h)

  run_from-again :
      (applied : List Applied) (files : List String) (db : Database D)
      → All (λ m. has db.schema_migrations m ≡ true) files
      → run_from run_sql no_refusals applied files db ≡ completed (applied ++ all_skipped files) db
  unfolding run_from
  run_from-again applied [] db h = ap (λ l. completed l db) (sym (append-nil applied))
  run_from-again applied (m ∷ files) db h =
      run_from-committed run_sql no_refusals applied m files db db false
        (apply_migration-again m db h.0)
      ∙ run_from-again (noted applied m false) files db h.1
      ∙ ap (λ l. completed l db) (append_assoc applied (skipped m ∷ []) (all_skipped files))

  run_completed :
      (refuses : Refusals) (files : List String) (db : Database D) {done : List Applied}
      {after : Database D}
      → run_sql_migrations run_sql refuses files db ≡ completed done after
      → run_from run_sql refuses [] files db ≡ completed done after
  unfolding run_sql_migrations
  run_completed refuses files db h = elim (Bool-cases (refuses "schema_migrations" create_table)) [
    | inl e ↦
        let none_run : run_sql_migrations run_sql refuses files db ≡ stopped create_table db =
          rw e refl in
        not_stopped (sym none_run ∙ h)
    | inr e ↦
        let same : run_sql_migrations run_sql refuses files db
            ≡ run_from run_sql refuses [] files db =
          rw e refl in
        sym same ∙ h
  ]

  -- When a run has completed, the name of each of its files is in the table, and a further run on
  -- the same files that is refused nothing skips each of them and leaves the database as it is.
  pub run_sql_migrations-again :
      (refuses : Refusals) (files : List String) (db : Database D) (done : List Applied)
      (after : Database D)
      → run_sql_migrations run_sql refuses files db ≡ completed done after
      → All (λ m. has after.schema_migrations m ≡ true) files
        × (run_sql_migrations run_sql no_refusals files after ≡ completed (all_skipped files) after)
  unfolding run_sql_migrations
  run_sql_migrations-again refuses files db done after h =
      let present =
        completed-has refuses [] done files db after (run_completed refuses files db h) in
      (present, run_from-again [] files after present)
