-- ===== src/Worker/Engine/Settled.antt =====
-- One run of the engine of backend/worker/engine.js as one equation: what the definition's
-- functions answer decides how the new operation and its step are left.
use civitas.Prelude.{
  ℕ, ◌+◌, ◌≡◌, refl, true, false, some, String, length, if◌then◌else◌, arith, Bool-cases, inl, inr,
  inl, inr,
}
use civitas.Prelude.Json.{Value}
use civitas.Worker.Action.{ErrorValue, Result, value, raised, RetryPolicy, Precondition, Action}
use civitas.Worker.Store.{
  OperationStatus, Operation, StepStatus, Step, Store, new_operation, new_step, new_record, assign,
  create_operation, update_operation, create_step, update_step, save_idempotency_record,
}
use civitas.Worker.Store.Last.{IsNumbered, with_last, update_operation-last, update_step-last}
use civitas.Worker.Engine.{
  precondition_error, failed_status, start_operation, finish_step, finish_operation, fail_step,
  fail_operation, settle_failure, execute_keyed,
}

-- What the definition's functions answer for an input: the precondition first, then the run.
module _ {W : Type 0} where
  abbrev pub run_after : Action W → Value → Result Precondition × W → Result Value × W
  run_after action input (raised e, w) = (raised e, w)
  run_after action input (value p, w) =
      if p.ok then action.run input w else (raised (precondition_error p.reason), w)

  unfoldable pub answer : Action W → Value → W → Result Value × W
  answer action input w = run_after action input (action.precondition input w)

  -- The store after a run that has answered so.
  abbrev pub settled : Action W → Value → String → String → (ℕ → ℕ) → Store → Result Value → Store
  settled action input key org_id now store (value v) =
      let o =
        new_operation store org_id action.action_type input key action.retry_policy.max_attempts
          (now 0) in
      let t = new_step store o.id action.action_type StepStatus.running input (now 1) in
      record (with_last store (finish_operation v (now 3) o) (finish_step v (now 2) t)) {
        idempotency_records =
            assign key
              (new_record key action.action_type org_id OperationStatus.success v 86400 (now 4))
              store.idempotency_records;
      }
  settled action input key org_id now store (raised e) =
      let o =
        new_operation store org_id action.action_type input key action.retry_policy.max_attempts
          (now 0) in
      let t = new_step store o.id action.action_type StepStatus.running input (now 1) in
      with_last store
        (fail_operation action.retry_policy e (failed_status action.retry_policy e o) (now 3)
          (now 4) o)
        (fail_step e (now 2) t)

  settle_failure-last :
      (policy : RetryPolicy) (now : ℕ → ℕ) (store : Store) (w : W) (o o' : Operation) (t : Step)
      (e : ErrorValue)
      → IsNumbered store
      → o.id ≡ length store.operations + 1
      → o'.id ≡ o.id
      → t.id ≡ length store.steps + 1
      → settle_failure policy now o t e (with_last store o' t, w) ≡ (
        raised e,
        (
          with_last store
              (fail_operation policy e (failed_status policy e o) (now 3) (now 4) o')
              (fail_step e (now 2) t),
          w,
        ),
      )
  unfolding settle_failure
  settle_failure-last policy now store w o o' t e numbered last same last_step = ground (
    arith,
    update_step-last store numbered (fail_step e (now 2)) o' t t.id refl last_step,
    update_operation-last store numbered
        (fail_operation policy e (failed_status policy e o) (now 3) (now 4)) o'
        (fail_step e (now 2) t) o.id same last,
  )

  module _ (action : Action W) (input : Value) (key org_id : String) (now : ℕ → ℕ) (store : Store)
      (w : W) (numbered : IsNumbered store) where
    -- The operation and the step as they are pushed.
    abbrev opened : Operation
    opened =
        new_operation store org_id action.action_type input key action.retry_policy.max_attempts
          (now 0)

    abbrev begun : Step
    begun = new_step store opened.id action.action_type StepStatus.running input (now 1)

    failed_step :
        (o' : Operation) (e : ErrorValue) (w' : W)
        → o'.id ≡ opened.id
        → settle_failure action.retry_policy now opened begun e (with_last store o' begun, w') ≡ (
          raised e,
          (
            with_last store
                (fail_operation action.retry_policy e
                  (failed_status action.retry_policy e opened)
                  (now 3)
                  (now 4)
                  o')
                (fail_step e (now 2) begun),
            w',
          ),
        )
    failed_step o' e w' same =
        settle_failure-last action.retry_policy now store w' opened o' begun e numbered refl same
          refl

    started :
        update_operation opened.id start_operation (with_last store opened begun)
        ≡ some (with_last store (start_operation opened) begun)
    started = update_operation-last store numbered start_operation opened begun opened.id refl refl

    step_finished :
        (v : Value)
        → update_step begun.id
            (finish_step v (now 2))
            (with_last store (start_operation opened) begun)
          ≡ some (with_last store (start_operation opened) (finish_step v (now 2) begun))
    step_finished v =
        update_step-last store numbered (finish_step v (now 2)) (start_operation opened) begun
          begun.id refl refl

    operation_finished :
        (v : Value)
        → update_operation opened.id
            (finish_operation v (now 3))
            (with_last store (start_operation opened) (finish_step v (now 2) begun))
          ≡ some (
              with_last store
                (finish_operation v (now 3) (start_operation opened))
                (finish_step v (now 2) begun))
    operation_finished v =
        update_operation-last store numbered (finish_operation v (now 3)) (start_operation opened)
          (finish_step v (now 2) begun) opened.id refl refl

    -- By what the precondition and then the run answer.
    ran :
        (p : Precondition) (w₁ : W) (r : Result Value × W)
        → action.precondition input w ≡ (value p, w₁)
        → p.ok ≡ true
        → action.run input w₁ ≡ r
        → execute_keyed action input key org_id now (store, w)
          ≡ (r.0, (settled action input key org_id now store r.0, r.1))
    unfolding execute_keyed create_operation create_step save_idempotency_record
    ran p w₁ (value v, w₂) pre ok ran_to =
        ground (arith, started, step_finished v, operation_finished v)
    ran p w₁ (raised e, w₂) pre ok ran_to =
        ground (arith, started, failed_step (start_operation opened) e w₂ refl)

    not_ok :
        (p : Precondition) (w₁ : W)
        → action.precondition input w ≡ (value p, w₁)
        → p.ok ≡ false
        → execute_keyed action input key org_id now (store, w) ≡ (
          raised (precondition_error p.reason),
          (settled action input key org_id now store (raised (precondition_error p.reason)), w₁),
        )
    unfolding execute_keyed create_operation create_step
    not_ok p w₁ pre bad = ground (arith, failed_step opened (precondition_error p.reason) w₁ refl)

    precondition_raised :
        (e : ErrorValue) (w₁ : W)
        → action.precondition input w ≡ (raised e, w₁)
        → execute_keyed action input key org_id now (store, w)
          ≡ (raised e, (settled action input key org_id now store (raised e), w₁))
    unfolding execute_keyed create_operation create_step
    precondition_raised e w₁ pre = ground (arith, failed_step opened e w₁ refl)

    -- What the engine leaves, for an answer.
    abbrev left : Result Value × W → Result Value × (Store × W)
    left r = (r.0, (settled action input key org_id now store r.0, r.1))

    by_precondition :
        (q : Result Precondition × W)
        → action.precondition input w ≡ q
        → execute_keyed action input key org_id now (store, w) ≡ left (run_after action input q)
    by_precondition (raised e, w₁) pre = precondition_raised e w₁ pre
    by_precondition (value p, w₁) pre = elim (Bool-cases p.ok) [
      | inl ok ↦ rw ok (ran p w₁ (action.run input w₁) pre ok refl)
      | inr bad ↦ rw bad (not_ok p w₁ pre bad)
    ]

  -- On a store whose entries are numbered, a run that finds no record of a success pushes one
  -- operation and one step. They are left as `settled` says: with the result, and its idempotency
  -- record, if the precondition holds and the run answers; with the error, which is thrown again,
  -- if one of them throws or the precondition does not hold. The outside is as these two left it.
  pub execute_keyed_lem :
      (action : Action W) (input : Value) (key org_id : String) (now : ℕ → ℕ) (store : Store)
      (w : W)
      → IsNumbered store
      → execute_keyed action input key org_id now (store, w) ≡ (
        (answer action input w).0,
        (
          settled action input key org_id now store (answer action input w).0,
          (answer action input w).1,
        ),
      )
  unfolding answer
  execute_keyed_lem action input key org_id now store w numbered =
      by_precondition action input key org_id now store w numbered (action.precondition input w)
        refl
