-- ===== src/Worker/Engine.antt =====
-- backend/worker/engine.js: `executeAction` on a store. The state is the store with the outside
-- state `W`; an exception keeps what was changed before it. `now k` is the k-th reading of the
-- clock during the call.
pub mod Settled
pub mod Runs
pub mod Once
pub mod Repeats
pub mod Validation
mod Tests
use civitas.Prelude.{
  ℕ, suc, ◌+◌, ◌*◌, ◌<◌, Bool, true, false, not, ◌&&◌, ◌||◌, Option, none, some, List, [], ◌∷◌,
  String, str_eq, any, or_else, ltb, ◌==◌, if◌then◌else◌,
}
use civitas.Prelude.Text.{is_empty}
use civitas.Prelude.Json.{Value}
use civitas.Worker.Action.{
  ErrorValue, Result, value, raised, RetryPolicy, Precondition, RawAction, Action, Validated, valid,
  invalid, DefinitionError, validate_action_definition,
}
use civitas.Worker.Store.{
  OperationStatus, Operation, StepStatus, Step, IdempotencyRecord, Store, get_idempotency_record,
  create_operation, update_operation, create_step, update_step, save_idempotency_record,
}

abbrev plain_error : String → String → ErrorValue
plain_error name message = record { name = name; message = message; code = none; retryable = false }

-- `new ActionPreconditionError(reason)`: an empty reason gives way to the default message.
abbrev pub precondition_error : Option String → ErrorValue
precondition_error reason =
    let given = or_else reason "" in
    plain_error "ActionPreconditionError"
      (if is_empty given then "Action precondition failed" else given)

abbrev listed : Option String → List String → Bool
listed none errors = false
listed (some code) errors = any (str_eq code) errors

unfoldable pub is_retryable_error : ErrorValue → RetryPolicy → Bool
is_retryable_error error policy =
    error.retryable
    || any (str_eq error.name) policy.retryable_errors
    || listed error.code policy.retryable_errors

-- `attempt < max_attempts`, which is false where there is no maximum.
abbrev attempts_left : ℕ → Option ℕ → Bool
attempts_left attempt none = false
attempts_left attempt (some most) = ltb attempt most

-- `Number(backoff_ms || 1000)`
abbrev pub backoff : Option ℕ → ℕ
backoff none = 1000
backoff (some ms) = if ms == 0 then 1000 else ms

-- The status of an operation whose attempt has failed.
unfoldable pub failed_status : RetryPolicy → ErrorValue → Operation → OperationStatus
failed_status policy error operation =
    if is_retryable_error error policy && attempts_left operation.attempt policy.max_attempts
    then OperationStatus.pending
    else OperationStatus.failed

abbrev is_failed : OperationStatus → Bool
is_failed OperationStatus.failed = true
is_failed _ = false

abbrev pub is_success : Option IdempotencyRecord → Bool
is_success none = false
is_success (some r) = elim r.status [ OperationStatus.success ↦ true | _ ↦ false ]

-- The patches of the calls of `updateStep` and `updateOperation`.
abbrev pub start_operation : Operation → Operation
start_operation o = record o { status = OperationStatus.processing }

abbrev pub finish_step : Value → ℕ → Step → Step
finish_step result now s = record s {
  status = StepStatus.success;
  output = some result;
  completed_at = some now;
}

abbrev pub finish_operation : Value → ℕ → Operation → Operation
finish_operation result now o = record o {
  status = OperationStatus.success;
  output = some result;
  completed_at = some now;
}

abbrev pub fail_step : ErrorValue → ℕ → Step → Step
fail_step error now s = record s {
  status = StepStatus.failed;
  error = some error.message;
  completed_at = some now;
}

abbrev pub fail_operation :
    RetryPolicy → ErrorValue → OperationStatus → ℕ → ℕ → Operation → Operation
fail_operation policy error status now later o = record o {
  status = status;
  error = some error.message;
  next_retry_at =
      if is_retryable_error error policy then some (now + backoff policy.backoff_ms) else none;
  completed_at = if is_failed status then some later else none;
}

-- A part of the engine, on the store and the outside state.
abbrev pub Program : Type 0 → Type 0 → Type 0
Program W A = Store × W → Result A × (Store × W)

module _ {W : Type 0} where
  infixl 5 ◌>>=◌ ◌>>◌
  abbrev pub ◌>>=◌ : {A B : Type 0} → Program W A → (A → Program W B) → Program W B
  ◌>>=◌ m f s = let (r, t) = m s in elim r [ value a ↦ f a t | raised e ↦ (raised e, t) ]

  abbrev pub ◌>>◌ : {B : Type 0} → Program W (Unit {0}) → Program W B → Program W B
  m >> k = m >>= λ _. k

  -- `try { m } catch (error) { handler }`
  abbrev pub catch : {A : Type 0} → Program W A → (ErrorValue → Program W A) → Program W A
  catch m handler s = let (r, t) = m s in elim r [ value a ↦ (value a, t) | raised e ↦ handler e t ]

  abbrev throw : {A : Type 0} → ErrorValue → Program W A
  throw e s = (raised e, s)

  abbrev return : {A : Type 0} → A → Program W A
  return a s = (value a, s)

  -- A function of the definition that reads and changes the outside.
  abbrev outside : {A : Type 0} → (W → Result A × W) → Program W A
  outside f (store, w) = let (r, w') = f w in (r, (store, w'))

  abbrev pure_result : {A : Type 0} → Result A → Program W A
  pure_result r s = (r, s)

  abbrev create : {A : Type 0} → (Store → A × Store) → Program W A
  create f (store, w) = let (a, store') = f store in (value a, (store', w))

  -- An update that finds nothing throws.
  abbrev update : (Store → Option Store) → String → Program W (Unit {0})
  update f message (store, w) = elim (f store) [
    | none ↦ (raised (plain_error "Error" message), (store, w))
    | some store' ↦ (value tt, (store', w))
  ]

  abbrev require_ok : Precondition → Program W (Unit {0})
  require_ok p s = if p.ok then (value tt, s) else (raised (precondition_error p.reason), s)

  -- The body of the `try` block.
  unfoldable pub attempt :
      Action W → Value → String → String → (ℕ → ℕ) → Operation → Step → Program W Value
  attempt action input key org_id now operation step = do
    precondition ← outside (action.precondition input)
    require_ok precondition
    update (update_operation operation.id start_operation) "Operation not found"
    result ← outside (action.run input)
    update (update_step step.id (finish_step result (now 2))) "Step not found"
    update (update_operation operation.id (finish_operation result (now 3))) "Operation not found"
    create (λ store. (
      tt,
      save_idempotency_record key action.action_type org_id OperationStatus.success result 86400
          (now 4) store,
    ))
    return result

  -- The `catch` block.
  unfoldable pub settle_failure :
      RetryPolicy → (ℕ → ℕ) → Operation → Step → ErrorValue → Program W Value
  settle_failure policy now operation step error = do
    let status = failed_status policy error operation
    update (update_step step.id (fail_step error (now 2))) "Step not found"
    update (update_operation operation.id (fail_operation policy error status (now 3) (now 4)))
        "Operation not found"
    throw error

  -- From the lookup of the idempotency record on.
  unfoldable pub execute_keyed : Action W → Value → String → String → (ℕ → ℕ) → Program W Value
  unfolding attempt settle_failure
  execute_keyed action input key org_id now = do
    operation ← create (
        create_operation org_id action.action_type input key action.retry_policy.max_attempts
          (now 0))
    step ← create (create_step operation.id action.action_type StepStatus.running input (now 1))
    catch (attempt action input key org_id now operation step)
        (settle_failure action.retry_policy now operation step)

  abbrev pub replay_or : Option IdempotencyRecord → Program W Value → Program W Value
  replay_or none otherwise = otherwise
  replay_or (some r) otherwise = if is_success (some r) then return r.result else otherwise

  -- `executeAction` of a valid definition.
  unfoldable pub execute : Action W → Value → String → (ℕ → ℕ) → Program W Value
  execute action raw_input org_id now s =
      (do
        input ← pure_result (action.parse raw_input)
        key ← pure_result (action.idempotency_key input)
        replay_or (get_idempotency_record key s.0) (execute_keyed action input key org_id now))
        s

  -- `validateActionDefinition` throws before anything is done.
  unfoldable pub execute_action : RawAction W → Value → String → (ℕ → ℕ) → Program W Value
  unfolding execute
  execute_action raw input org_id now s = elim (validate_action_definition raw) [
    | valid action ↦ execute action input org_id now s
    | invalid e ↦ (raised (plain_error "ActionDefinitionError" "Invalid ActionDefinition"), s)
  ]
