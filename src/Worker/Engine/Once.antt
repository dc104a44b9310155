-- ===== src/Worker/Engine/Once.antt =====
-- What holds of the store of backend/worker/engine.js after any sequence of calls: each operation
-- is settled, and an idempotency key has at most one success.
use civitas.Prelude.{
  ℕ, ◌+◌, ◌≤◌, ◌≡◌, ◌≢◌, ◌↔◌, refl, Bool, true, false, ◌&&◌, none, some, List, [], ◌∷◌, ◌++◌,
  String, str_eq, eq_iff, All, All-append, length, select, is_some, if◌then◌else◌, arith,
}
use civitas.Prelude.Json.{Value}
use civitas.Worker.Action.{ErrorValue, Result, value, raised, RetryPolicy, Action}
use civitas.Worker.Store.{
  OperationStatus, Operation, StepStatus, Step, IdempotencyRecord, Store, new_operation, new_record,
  assign, lookup, empty_store,
}
use civitas.Worker.Store.Last.{IsNumbered}
use civitas.Worker.Engine.{failed_status, is_success, finish_operation, fail_operation}
use civitas.Worker.Engine.Settled.{settled}
use civitas.Worker.Engine.Runs.{Request, run_all, run_all_keeps}

-- What a status says of the other fields of an operation: no operation is left in processing.
abbrev pub FitsStatus : OperationStatus → Operation → Type 0
FitsStatus OperationStatus.success o =
    (is_some o.output ≡ true) × (o.error ≡ none) × (is_some o.completed_at ≡ true)
FitsStatus OperationStatus.failed o =
    (o.output ≡ none) × (is_some o.error ≡ true) × (is_some o.completed_at ≡ true)
FitsStatus OperationStatus.pending o =
    (o.output ≡ none)
    × (is_some o.error ≡ true)
    × (is_some o.next_retry_at ≡ true)
    × (o.completed_at ≡ none)
FitsStatus _ o = ⊥

abbrev pub StepFits : StepStatus → Step → Type 0
StepFits StepStatus.success t = (is_some t.output ≡ true) × (is_some t.completed_at ≡ true)
StepFits StepStatus.failed t = (is_some t.error ≡ true) × (is_some t.completed_at ≡ true)
StepFits StepStatus.running t = ⊥

pub record IsSettled (store : Store) : Type 0 where
  pub operations_settled : All (λ o. FitsStatus o.status o) store.operations
  pub steps_settled : All (λ t. StepFits t.status t) store.steps

fail_operation-fits :
    (policy : RetryPolicy) (e : ErrorValue) (now later : ℕ) (o : Operation)
    → o.output ≡ none
    → FitsStatus
        (failed_status policy e o)
        (fail_operation policy e (failed_status policy e o) now later o)
unfolding failed_status
fail_operation-fits policy e now later o h = ground arith

failed_status-ne-success :
    (policy : RetryPolicy) (e : ErrorValue) (o : Operation)
    → failed_status policy e o ≢ OperationStatus.success
unfolding failed_status
failed_status-ne-success policy e o h = ground arith

-- The successes of a key among the operations.
abbrev succeeded : String → Operation → Bool
succeeded key o =
    str_eq o.idempotency_key key && elim o.status [ OperationStatus.success ↦ true | _ ↦ false ]

abbrev pub successes : String → Store → ℕ
successes key store = length (select (succeeded key) store.operations)

-- A key without a record of success has had none, and one with a record has had one.
abbrev Recorded : Store → Type 0
Recorded store =
    (key : String)
    → successes key store ≡ (if is_success (lookup key store.idempotency_records) then 1 else 0)

pub lookup-assign :
    (key other : String) (r : IdempotencyRecord) (entries : List (String × IdempotencyRecord))
    → lookup other (assign key r entries)
      ≡ (if str_eq key other then some r else lookup other entries)
unfolding lookup assign
lookup-assign key other r [] = refl
lookup-assign key other r ((k, v) ∷ entries) =
    ground
      (arith, eq_iff k key, eq_iff k other, eq_iff key other, lookup-assign key other r entries)

successes-snoc :
    (key : String) (os : List Operation) (o : Operation)
    → length (select (succeeded key) (os ++ o ∷ []))
      ≡ length (select (succeeded key) os) + (if succeeded key o then 1 else 0)
unfolding select
successes-snoc key [] o = ground arith
successes-snoc key (x ∷ os) o = ground (arith, successes-snoc key os o)

pub empty-IsNumbered : IsNumbered empty_store
unfolding empty_store
empty-IsNumbered = record { operations_numbered = tt; steps_numbered = tt }

module _ {W : Type 0} where
  settled-IsSettled :
      (action : Action W) (input : Value) (key org_id : String) (now : ℕ → ℕ) (store : Store)
      (answered : Result Value)
      → IsSettled store
      → IsSettled (settled action input key org_id now store answered)
  settled-IsSettled action input key org_id now store (value v) h = record {
    operations_settled =
        All-append (λ o. FitsStatus o.status o) store.operations _ h.operations_settled
          ((refl, refl, refl), tt);
    steps_settled =
        All-append (λ t. StepFits t.status t) store.steps _ h.steps_settled ((refl, refl), tt);
  }
  settled-IsSettled action input key org_id now store (raised e) h = record {
    operations_settled =
        All-append (λ o. FitsStatus o.status o) store.operations _ h.operations_settled
          (fail_operation-fits action.retry_policy e (now 3) (now 4) _ refl, tt);
    steps_settled =
        All-append (λ t. StepFits t.status t) store.steps _ h.steps_settled ((refl, refl), tt);
  }

  settled-Recorded :
      (action : Action W) (input : Value) (key org_id : String) (now : ℕ → ℕ) (store : Store)
      (answered : Result Value)
      → is_success (lookup key store.idempotency_records) ≡ false
      → Recorded store
      → Recorded (settled action input key org_id now store answered)
  settled-Recorded action input key org_id now store (value v) fresh h other = ground (
    arith,
    h other,
    successes-snoc other store.operations (
        finish_operation v (now 3) (
          new_operation store org_id action.action_type input key action.retry_policy.max_attempts
            (now 0))),
    lookup-assign key other
        (new_record key action.action_type org_id OperationStatus.success v 86400 (now 4))
        store.idempotency_records,
    eq_iff key other,
  )
  settled-Recorded action input key org_id now store (raised e) fresh h other =
      let o =
        new_operation store org_id action.action_type input key action.retry_policy.max_attempts
          (now 0) in
      ground (
        arith,
        h other,
        successes-snoc other store.operations (
            fail_operation action.retry_policy e (failed_status action.retry_policy e o) (now 3)
              (now 4) o),
        failed_status-ne-success action.retry_policy e o,
      )

  -- After any sequence of requests to a new store, with any actions and whatever these answer, every
  -- operation is settled and no step is left running: a success has its result, a failure its error
  -- and the date of its end, and an operation that waits for a retry the date of that.
  pub run_all-IsSettled :
      (rs : List (Request W)) (w : W) → IsSettled (run_all rs (empty_store, w)).0
  unfolding empty_store
  run_all-IsSettled rs w =
      run_all_keeps IsSettled
        (λ action input key org_id now s answered _ _ h.
          settled-IsSettled action input key org_id now s answered h)
        rs empty_store w empty-IsNumbered (record { operations_settled = tt; steps_settled = tt })

  run_all-Recorded : (rs : List (Request W)) (w : W) → Recorded (run_all rs (empty_store, w)).0
  unfolding empty_store lookup select
  run_all-Recorded rs w =
      run_all_keeps Recorded
        (λ action input key org_id now s answered _ fresh h.
          settled-Recorded action input key org_id now s answered fresh h)
        rs empty_store w empty-IsNumbered (λ key. refl)

  -- Exactly once: after any sequence of requests to a new store, no idempotency key has two
  -- operations that succeeded, and one has succeeded exactly for the keys with a record of success.
  pub run_all-once :
      (rs : List (Request W)) (w : W) (key : String)
      → (successes key (run_all rs (empty_store, w)).0 ≤ 1)
        × ((successes key (run_all rs (empty_store, w)).0 ≡ 1)
            ↔ (is_success (lookup key (run_all rs (empty_store, w)).0.idempotency_records) ≡ true))
  run_all-once rs w key = ground (arith, run_all-Recorded rs w key)
