-- ===== src/Worker/Engine/Repeats.antt =====
-- Calls of backend/worker/engine.js that share an idempotency key: a repeated one is answered from
-- the record, and one that follows a failure starts anew.
use civitas.Prelude.{
  ℕ, ◌<◌, ◌≡◌, refl, sym, ap, ◌∙◌, true, false, some, [], ◌∷◌, ◌++◌, String, eq_refl, arith,
  Bool-cases, Option-cases, inl, inr,
}
use civitas.Prelude.Json.{Value}
use civitas.Worker.Action.{ErrorValue, value, raised, Action}
use civitas.Worker.Store.{
  OperationStatus, Operation, IdempotencyRecord, Store, new_record, lookup, get_idempotency_record,
}
use civitas.Worker.Store.Last.{IsNumbered}
use civitas.Worker.Engine.{is_retryable_error, failed_status, is_success, execute}
use civitas.Worker.Engine.Settled.{settled, answer}
use civitas.Worker.Engine.Runs.{Request, run}
use civitas.Worker.Engine.Runs.{fresh_run}
use civitas.Worker.Engine.Once.{lookup-assign}

module _ {W : Type 0} where
  recorded_answer :
      (r : Request W) (store : Store) (w : W) (input : Value) (key : String)
      (entry : IdempotencyRecord)
      → r.action.parse r.input ≡ value input
      → r.action.idempotency_key input ≡ value key
      → lookup key store.idempotency_records ≡ some entry
      → entry.status ≡ OperationStatus.success
      → run r (store, w) ≡ (value entry.result, (store, w))
  unfolding run execute get_idempotency_record
  recorded_answer r store w input key entry parsed keyed found done = ground arith

  -- The record that a settled success leaves.
  settled_entry :
      (action : Action W) (input : Value) (key org_id : String) (now : ℕ → ℕ) (store : Store)
      (v : Value)
      → lookup key (settled action input key org_id now store (value v)).idempotency_records
        ≡ some (new_record key action.action_type org_id OperationStatus.success v 86400 (now 4))
  settled_entry action input key org_id now store v =
      lookup-assign key key _ store.idempotency_records ∙ rw (eq_refl key)

  module _ (r again : Request W) (store : Store) (w w' : W) (input input' : Value) (key : String)
      (v : Value) (numbered : IsNumbered store) (parsed : r.action.parse r.input ≡ value input)
      (keyed : r.action.idempotency_key input ≡ value key)
      (parsed' : again.action.parse again.input ≡ value input')
      (keyed' : again.action.idempotency_key input' ≡ value key)
      (answered : (run r (store, w)).0 ≡ value v) where
    repeated_of_record :
        (entry : IdempotencyRecord)
        → lookup key store.idempotency_records ≡ some entry
        → entry.status ≡ OperationStatus.success
        → run again ((run r (store, w)).1.0, w') ≡ (value v, ((run r (store, w)).1.0, w'))
    repeated_of_record entry found done =
        let first = recorded_answer r store w input key entry parsed keyed found done in
        let second = recorded_answer again store w' input' key entry parsed' keyed' found done in
        cc (first, second, answered)

    repeated_of_fresh :
        is_success (lookup key store.idempotency_records) ≡ false
        → run again ((run r (store, w)).1.0, w') ≡ (value v, ((run r (store, w)).1.0, w'))
    repeated_of_fresh unrecorded =
        let e = fresh_run r store w input key numbered parsed keyed unrecorded in
        let said = sym (ap (λ s. s.0) e) ∙ answered in
        let left = ap (λ s. s.1.0) e ∙ ap (settled r.action input key r.org_id r.now store) said in
        rw left (
          recorded_answer again _ w' input' key _ parsed' keyed'
            (settled_entry r.action input key r.org_id r.now store v) refl)

    -- A request that follows one with the same idempotency key which was answered, even if the
    -- outside has changed between the two, gets the same answer, and changes neither the store nor
    -- the outside.
    pub repeated_run :
        run again ((run r (store, w)).1.0, w') ≡ (value v, ((run r (store, w)).1.0, w'))
    repeated_run = elim (Option-cases (lookup key store.idempotency_records)) [
      | inl missing ↦ repeated_of_fresh (rw missing)
      | inr (entry, found) ↦ elim (Bool-cases (is_success (some entry))) [
        | inl done ↦ repeated_of_record entry found (ground arith)
        | inr other ↦ repeated_of_fresh (rw found other)
      ]
    ]

  -- A request whose key has no success and whose run throws an error that may be retried, under a
  -- policy of more than one attempt, leaves one more operation, which waits for a retry as its first
  -- attempt: however many operations with this key have failed before.
  pub run-retry :
      (r : Request W) (store : Store) (w : W) (input : Value) (key : String) (e : ErrorValue)
      (most : ℕ)
      → IsNumbered store
      → r.action.parse r.input ≡ value input
      → r.action.idempotency_key input ≡ value key
      → is_success (lookup key store.idempotency_records) ≡ false
      → (answer r.action input w).0 ≡ raised e
      → is_retryable_error e r.action.retry_policy ≡ true
      → r.action.retry_policy.max_attempts ≡ some most
      → 1 < most
      → (o : Operation) × ((run r (store, w)).1.0.operations ≡ store.operations ++ o ∷ [])
        × (o.status ≡ OperationStatus.pending)
        × (o.attempt ≡ 1)
  run-retry r store w input key e most numbered parsed keyed unrecorded threw may limit more =
      let went = fresh_run r store w input key numbered parsed keyed unrecorded in
      let left =
        ap (λ s. s.1.0.operations) went
        ∙ ap (λ a. (settled r.action input key r.org_id r.now store a).operations) threw in
      (_, left, unfold failed_status in ground arith, refl)
