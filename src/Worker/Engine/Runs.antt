-- ===== src/Worker/Engine/Runs.antt =====
-- Sequences of calls of `executeAction` (backend/worker/engine.js) on one store, with any actions.
use civitas.Prelude.{
  ℕ, ◌+◌, ◌≤◌, ◌≡◌, ◌⊎◌, refl, ap, ◌∙◌, true, false, List, [], ◌∷◌, ◌++◌, String, All, All-append,
  length, length-append, arith, Bool-cases, inl, inr,
}
use civitas.Prelude.Json.{Value}
use civitas.Worker.Action.{ErrorValue, Result, value, raised, Action}
use civitas.Worker.Store.{Store, lookup, get_idempotency_record}
use civitas.Worker.Store.Last.{IsNumbered}
use civitas.Worker.Engine.{is_success, execute_keyed, execute}
use civitas.Worker.Engine.Settled.{settled, answer, execute_keyed_lem}

Result-cases :
    {A : Type 0} (r : Result A) → ((a : A) × (r ≡ value a)) ⊎ ((e : ErrorValue) × (r ≡ raised e))
Result-cases (value a) = inl (a, refl)
Result-cases (raised e) = inr (e, refl)

pub record Request (W : Type 0) : Type 0 where
  pub action : Action W
  pub input : Value
  pub org_id : String
  pub now : ℕ → ℕ

module _ {W : Type 0} where
  unfoldable pub run : Request W → Store × W → Result Value × (Store × W)
  run r s = execute r.action r.input r.org_id r.now s

  unfoldable pub run_all : List (Request W) → Store × W → Store × W
  run_all [] s = s
  run_all (r ∷ rs) s = run_all rs (run r s).1

  -- What a request that gets past the lookup finds and leaves.
  record Fresh (r : Request W) (store : Store) (w : W) : Type 0 where
    input : Value
    key : String
    parsed : r.action.parse r.input ≡ value input
    keyed : r.action.idempotency_key input ≡ value key
    unrecorded : is_success (lookup key store.idempotency_records) ≡ false
    store_left : (run r (store, w)).1 ≡ (
      settled r.action input key r.org_id r.now store (answer r.action input w).0,
      (answer r.action input w).1,
    )

  unrecorded_run :
      (r : Request W) (store : Store) (w : W) (input : Value) (key : String)
      → r.action.parse r.input ≡ value input
      → r.action.idempotency_key input ≡ value key
      → is_success (lookup key store.idempotency_records) ≡ false
      → run r (store, w) ≡ execute_keyed r.action input key r.org_id r.now (store, w)
  unfolding run execute get_idempotency_record
  unrecorded_run r store w input key parsed keyed unrecorded = ground arith

  pub fresh_run :
      (r : Request W) (store : Store) (w : W) (input : Value) (key : String)
      → IsNumbered store
      → r.action.parse r.input ≡ value input
      → r.action.idempotency_key input ≡ value key
      → is_success (lookup key store.idempotency_records) ≡ false
      → run r (store, w) ≡ (
        (answer r.action input w).0,
        (
          settled r.action input key r.org_id r.now store (answer r.action input w).0,
          (answer r.action input w).1,
        ),
      )
  fresh_run r store w input key numbered parsed keyed unrecorded =
      unrecorded_run r store w input key parsed keyed unrecorded
      ∙ execute_keyed_lem r.action input key r.org_id r.now store w numbered

  unrecorded-Fresh :
      (r : Request W) (store : Store) (w : W) (input : Value) (key : String)
      → IsNumbered store
      → r.action.parse r.input ≡ value input
      → r.action.idempotency_key input ≡ value key
      → is_success (lookup key store.idempotency_records) ≡ false
      → Fresh r store w
  unrecorded-Fresh r store w input key numbered parsed keyed unrecorded = record {
    input = input;
    key = key;
    parsed = parsed;
    keyed = keyed;
    unrecorded = unrecorded;
    store_left = ap (λ s. s.1) (fresh_run r store w input key numbered parsed keyed unrecorded);
  }

  -- A request that is refused, or that is answered from a record, changes nothing.
  idle_run :
      (r : Request W) (store : Store) (w : W) (input : Value) (key : String)
      → r.action.parse r.input ≡ value input
      → r.action.idempotency_key input ≡ value key
      → is_success (lookup key store.idempotency_records) ≡ true
      → (run r (store, w)).1 ≡ (store, w)
  unfolding run execute get_idempotency_record
  idle_run r store w input key parsed keyed recorded = ground arith

  refused_run :
      (r : Request W) (store : Store) (w : W) (e : ErrorValue)
      → r.action.parse r.input ≡ raised e
      → (run r (store, w)).1 ≡ (store, w)
  unfolding run execute
  refused_run r store w e bad = ground arith

  unkeyed_run :
      (r : Request W) (store : Store) (w : W) (input : Value) (e : ErrorValue)
      → r.action.parse r.input ≡ value input
      → r.action.idempotency_key input ≡ raised e
      → (run r (store, w)).1 ≡ (store, w)
  unfolding run execute
  unkeyed_run r store w input e parsed bad = ground arith

  -- A request changes nothing at all, or it is fresh.
  run-cases :
      (r : Request W) (store : Store) (w : W)
      → IsNumbered store
      → ((run r (store, w)).1 ≡ (store, w)) ⊎ Fresh r store w
  run-cases r store w numbered = elim (Result-cases (r.action.parse r.input)) [
    | inr (e, bad) ↦ inl (refused_run r store w e bad)
    | inl (input, parsed) ↦ elim (Result-cases (r.action.idempotency_key input)) [
      | inr (e, bad) ↦ inl (unkeyed_run r store w input e parsed bad)
      | inl (key, keyed) ↦ elim (Bool-cases (is_success (lookup key store.idempotency_records))) [
        | inl recorded ↦ inl (idle_run r store w input key parsed keyed recorded)
        | inr unrecorded ↦
            inr (unrecorded-Fresh r store w input key numbered parsed keyed unrecorded)
      ]
    ]
  ]

  -- The rule for what every settled run keeps, over the stores whose entries are numbered.
  module _ {ℓ} (P : Store → Type ℓ)
      (keep : (action : Action W) (input : Value) (key org_id : String) (now : ℕ → ℕ)
          (store : Store) (answered : Result Value)
        → IsNumbered store
        → is_success (lookup key store.idempotency_records) ≡ false
        → P store
        → P (settled action input key org_id now store answered)) where
    pub run_keeps :
        (r : Request W) (store : Store) (w : W)
        → IsNumbered store
        → P store
        → P (run r (store, w)).1.0
    run_keeps r store w numbered h = elim (run-cases r store w numbered) [
      | inl same ↦ rw same h
      | inr fresh ↦ rw fresh.store_left (
          keep r.action fresh.input fresh.key r.org_id r.now store (answer r.action fresh.input w).0
            numbered fresh.unrecorded h)
    ]

All-mono {ℓ} :
    {A : Type ℓ} (f : A → ℕ) (m n : ℕ) (xs : List A)
    → All (λ x. f x ≤ m) xs
    → m ≤ n
    → All (λ x. f x ≤ n) xs
All-mono f m n [] h p = tt
All-mono f m n (x ∷ xs) (q, h) p = (omega arith, All-mono f m n xs h p)

All-numbered-snoc {ℓ} :
    {A : Type ℓ} (f : A → ℕ) (xs : List A) (x : A)
    → All (λ y. f y ≤ length xs) xs
    → f x ≡ length xs + 1
    → All (λ y. f y ≤ length (xs ++ x ∷ [])) (xs ++ x ∷ [])
All-numbered-snoc f xs x h e =
    let more = length-append xs (x ∷ []) in
    All-append (λ y. f y ≤ length (xs ++ x ∷ [])) xs (x ∷ [])
      (All-mono f (length xs) (length (xs ++ x ∷ [])) xs h (omega arith)) (omega arith, tt)

module _ {W : Type 0} where
  settled-IsNumbered :
      (action : Action W) (input : Value) (key org_id : String) (now : ℕ → ℕ) (store : Store)
      (answered : Result Value)
      → IsNumbered store
      → IsNumbered (settled action input key org_id now store answered)
  settled-IsNumbered action input key org_id now store (value v) numbered = record {
    operations_numbered =
        All-numbered-snoc (λ o. o.id) store.operations _ numbered.operations_numbered refl;
    steps_numbered = All-numbered-snoc (λ t. t.id) store.steps _ numbered.steps_numbered refl;
  }
  settled-IsNumbered action input key org_id now store (raised e) numbered = record {
    operations_numbered =
        All-numbered-snoc (λ o. o.id) store.operations _ numbered.operations_numbered refl;
    steps_numbered = All-numbered-snoc (λ t. t.id) store.steps _ numbered.steps_numbered refl;
  }

  pub run-IsNumbered :
      (r : Request W) (store : Store) (w : W) → IsNumbered store → IsNumbered (run r (store, w)).1.0
  run-IsNumbered r store w numbered =
      run_keeps IsNumbered
        (λ action input key org_id now s answered n _ _.
          settled-IsNumbered action input key org_id now s answered n)
        r store w numbered numbered

  module _ {ℓ} (P : Store → Type ℓ)
      (keep : (action : Action W) (input : Value) (key org_id : String) (now : ℕ → ℕ)
          (store : Store) (answered : Result Value)
        → IsNumbered store
        → is_success (lookup key store.idempotency_records) ≡ false
        → P store
        → P (settled action input key org_id now store answered)) where
    pub run_all_keeps :
        (rs : List (Request W)) (store : Store) (w : W)
        → IsNumbered store
        → P store
        → P (run_all rs (store, w)).0
    unfolding run_all
    run_all_keeps [] store w numbered h = h
    run_all_keeps (r ∷ rs) store w numbered h =
        run_all_keeps rs (run r (store, w)).1.0 (run r (store, w)).1.1
          (run-IsNumbered r store w numbered) (run_keeps P keep r store w numbered h)
