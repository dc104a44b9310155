-- ===== src/Migrations/Ready.antt =====
-- When `assertOperationalSchema` accepts the columns of a database.
use mathlib.Core.Path.{subst}
use civitas.Prelude.{
  ◌≡◌, ◌↔◌, refl, sym, ap, ◌∙◌, Bool, true, false, ◌&&◌, ◌||◌, Option, none, some, is_some, List,
  [], ◌∷◌, map, String, str_eq, eq_iff, any, any-append, all, is_nil, is_nil-append, select, arith,
  Bool-cases, inl, inr, All,
}
use civitas.Migrations.Schema.{
  TableColumns, ColumnRow, required_operational_schema, has, table_name, columns_of, add_column,
  group_from, load_public_columns, schema_ok, lacks, missing_table, missing_columns, missing_in,
  verdict, assert_operational_schema,
}

abbrev pub is_of : String → ColumnRow → Bool
is_of name row = str_eq row.table name

abbrev pub is_row : String → String → ColumnRow → Bool
is_row name column row = str_eq row.table name && str_eq column row.column

-- Whether a database has a table, and all its columns.
abbrev pub is_ready : List ColumnRow → TableColumns → Bool
is_ready rows t = any (is_of t.name) rows && all (λ c. any (is_row t.name c) rows) t.columns

abbrev has_in : String → Option (List String) → Bool
has_in column none = false
has_in column (some columns) = has columns column

columns_of-add_column :
    (name : String) (row : ColumnRow) (ts : List TableColumns)
    → is_some (columns_of name (add_column row ts))
      ≡ (is_some (columns_of name ts) || is_of name row)
unfolding columns_of add_column
columns_of-add_column name row [] = ground arith
columns_of-add_column name row (t ∷ ts) = ground (
  arith,
  eq_iff t.name row.table,
  eq_iff t.name name,
  eq_iff row.table name,
  columns_of-add_column name row ts,
)

has_in-add_column :
    (name column : String) (row : ColumnRow) (ts : List TableColumns)
    → has_in column (columns_of name (add_column row ts))
      ≡ (has_in column (columns_of name ts) || is_row name column row)
unfolding columns_of add_column any
has_in-add_column name column row [] = ground arith
has_in-add_column name column row (t ∷ ts) = ground (
  arith,
  eq_iff t.name row.table,
  eq_iff t.name name,
  eq_iff row.table name,
  any-append (str_eq column) t.columns (row.column ∷ []),
  has_in-add_column name column row ts,
)

columns_of-group_from :
    (name : String) (ts : List TableColumns) (rows : List ColumnRow)
    → is_some (columns_of name (group_from ts rows))
      ≡ (is_some (columns_of name ts) || any (is_of name) rows)
unfolding group_from any
columns_of-group_from name ts [] = ground arith
columns_of-group_from name ts (row ∷ rows) =
    ground (
      arith,
      columns_of-group_from name (add_column row ts) rows,
      columns_of-add_column name row ts,
    )

has_in-group_from :
    (name column : String) (ts : List TableColumns) (rows : List ColumnRow)
    → has_in column (columns_of name (group_from ts rows))
      ≡ (has_in column (columns_of name ts) || any (is_row name column) rows)
unfolding group_from any
has_in-group_from name column ts [] = ground arith
has_in-group_from name column ts (row ∷ rows) = ground (
  arith,
  has_in-group_from name column (add_column row ts) rows,
  has_in-add_column name column row ts,
)

any-select_imp {ℓ} :
    {A : Type ℓ} (p q : A → Bool)
    → ((a : A) → p a ≡ true → q a ≡ true)
    → (xs : List A) → any p (select q xs) ≡ any p xs
unfolding any select
any-select_imp p q h [] = refl
any-select_imp p q h (x ∷ xs) = ground (arith, h x, any-select_imp p q h xs)

module _ (tables : List String) (rows : List ColumnRow) (t : TableColumns)
    (known : has tables t.name ≡ true) where
  of_known : (row : ColumnRow) → is_of t.name row ≡ true → has tables row.table ≡ true
  of_known row e = subst (λ n. has tables n ≡ true) (sym ((eq_iff row.table t.name).0 e)) known

  loaded_table :
      is_some (columns_of t.name (load_public_columns tables rows)) ≡ any (is_of t.name) rows
  unfolding load_public_columns columns_of
  loaded_table =
      columns_of-group_from t.name [] (select (λ row. has tables row.table) rows)
      ∙ any-select_imp (is_of t.name) (λ row. has tables row.table) of_known rows

  loaded_column :
      (column : String)
      → has_in column (columns_of t.name (load_public_columns tables rows))
        ≡ any (is_row t.name column) rows
  unfolding load_public_columns columns_of
  loaded_column column =
      has_in-group_from t.name column [] (select (λ row. has tables row.table) rows)
      ∙ any-select_imp (is_row t.name column) (λ row. has tables row.table)
          (λ row e. of_known row (ground (arith, e))) rows

abbrev nothing_missing : Option (List String) → TableColumns → Bool
nothing_missing o t = is_some o && all (λ c. has_in c o) t.columns

is_nil-select-lacks :
    (actual columns : List String)
    → is_nil (select (lacks actual) columns) ≡ all (has actual) columns
unfolding select all any
is_nil-select-lacks actual [] = refl
is_nil-select-lacks actual (c ∷ cs) = elim (Bool-cases (has actual c)) [
  | inl e ↦ rw e (is_nil-select-lacks actual cs)
  | inr e ↦ rw e refl
]

nothing_missing_lem :
    (o : Option (List String)) (t : TableColumns)
    → (is_nil (missing_table o t) && is_nil (missing_columns o t)) ≡ nothing_missing o t
unfolding select all any
nothing_missing_lem none t = refl
nothing_missing_lem (some actual) t = ground (arith, is_nil-select-lacks actual t.columns)

missing_in-all :
    (tables ts : List TableColumns)
    → (is_nil (missing_in tables ts).0 && is_nil (missing_in tables ts).1)
      ≡ all (λ t. nothing_missing (columns_of t.name tables) t) ts
unfolding missing_in all
missing_in-all tables [] = refl
missing_in-all tables (t ∷ ts) = ground (
  arith,
  is_nil-append (missing_table (columns_of t.name tables) t) (missing_in tables ts).0,
  is_nil-append (missing_columns (columns_of t.name tables) t) (missing_in tables ts).1,
  nothing_missing_lem (columns_of t.name tables) t,
  missing_in-all tables ts,
)

verdict_iff :
    (p : List String × List TableColumns)
    → (verdict p ≡ schema_ok) ↔ ((is_nil p.0 && is_nil p.1) ≡ true)
verdict_iff ([], []) = (λ _. refl, λ _. refl)
verdict_iff ([], t ∷ ts) = (λ h. cc, λ h. cc)
verdict_iff (n ∷ names, ts) = (λ h. cc, λ h. cc)

all_same {ℓ} :
    {A : Type ℓ} (p q : A → Bool) (xs : List A) → All (λ x. p x ≡ q x) xs → all p xs ≡ all q xs
unfolding all
all_same p q [] h = refl
all_same p q (x ∷ xs) h = ground (arith, h.0, all_same p q xs h.1)

All-all {ℓ} : {A : Type ℓ} (p : A → Bool) (xs : List A) → all p xs ≡ true → All (λ x. p x ≡ true) xs
unfolding all
All-all p [] h = tt
All-all p (x ∷ xs) h = (ground (arith, h), All-all p xs (ground (arith, h)))

all_pointwise {ℓ} :
    {A : Type ℓ} (p q : A → Bool) → ((x : A) → p x ≡ q x) → (xs : List A) → all p xs ≡ all q xs
unfolding all
all_pointwise p q h [] = refl
all_pointwise p q h (x ∷ xs) = ground (arith, h x, all_pointwise p q h xs)

abbrev names_of : List TableColumns → List String
names_of ts = map {A = TableColumns} {B = String} table_name ts

loaded-is_ready :
    (tables : List String) (rows : List ColumnRow) (t : TableColumns)
    → has tables t.name ≡ true
    → nothing_missing (columns_of t.name (load_public_columns tables rows)) t ≡ is_ready rows t
loaded-is_ready tables rows t known =
    ap
      (λ b.
        b && all (λ c. has_in c (columns_of t.name (load_public_columns tables rows))) t.columns)
      (loaded_table tables rows t known)
    ∙ ap (λ b. any (is_of t.name) rows && b)
        (all_pointwise _ (λ c. any (is_row t.name c) rows) (loaded_column tables rows t known)
          t.columns)

ready_all :
    (tables : List String) (rows : List ColumnRow) (ts : List TableColumns)
    → All (λ t. has tables t.name ≡ true) ts
    → all (λ t. nothing_missing (columns_of t.name (load_public_columns tables rows)) t) ts
      ≡ all (is_ready rows) ts
unfolding all
ready_all tables rows [] h = refl
ready_all tables rows (t ∷ ts) h =
    ground (arith, loaded-is_ready tables rows t h.0, ready_all tables rows ts h.1)

required_known :
    all (λ t. has (names_of required_operational_schema) t.name) required_operational_schema ≡ true
unfolding required_operational_schema all any
required_known = refl

-- The schema of a database is accepted exactly if every table that the programs rely on is there
-- with every column that they rely on, whatever other tables and columns there are.
pub assert_operational_schema_iff :
    (rows : List ColumnRow)
    → (assert_operational_schema rows ≡ schema_ok)
      ↔ (all (is_ready rows) required_operational_schema ≡ true)
unfolding assert_operational_schema
assert_operational_schema_iff rows =
    let tables = names_of required_operational_schema in
    let loaded = load_public_columns tables rows in
    let same =
      missing_in-all loaded required_operational_schema
      ∙ ready_all tables rows required_operational_schema
          (All-all _ required_operational_schema required_known) in
    let accepted = verdict_iff (missing_in loaded required_operational_schema) in
    (λ h. sym same ∙ accepted.0 h, λ h. accepted.1 (same ∙ h))
