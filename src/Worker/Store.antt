-- ===== src/Worker/Store.antt =====
-- backend/worker/foundationStore.js, and the statuses of backend/contracts/foundation.js. The
-- identifier `op-n` or `step-n` is the number n.
pub mod Last
use civitas.Prelude.{
  ℕ, suc, ◌+◌, ◌*◌, Bool, true, false, Option, none, some, List, [], ◌∷◌, ◌++◌, String, str_eq,
  length, any, select, update_first, or_else, ◌==◌, if◌then◌else◌,
}
use civitas.Prelude.Json.{Value}
unfoldable pub use civitas.Prelude.Maps.{lookup, assign}

pub data OperationStatus : Type 0 where
  pending processing success partial_success failed compensating compensated : OperationStatus

pub record Operation : Type 0 where
  pub id : ℕ
  pub org_id : String
  pub action_type : String
  pub status : OperationStatus
  pub input : Value
  pub output : Option Value
  pub error : Option String
  pub attempt : ℕ
  pub max_attempts : ℕ
  pub next_retry_at : Option ℕ
  pub idempotency_key : String
  pub created_at : ℕ
  pub completed_at : Option ℕ

pub data StepStatus : Type 0 where
  running success failed : StepStatus

pub record Step : Type 0 where
  pub id : ℕ
  pub operation_id : ℕ
  pub step_name : String
  pub status : StepStatus
  pub input : Value
  pub output : Option Value
  pub error : Option String
  pub started_at : ℕ
  pub completed_at : Option ℕ

pub record IdempotencyRecord : Type 0 where
  pub idempotency_key : String
  pub operation_type : String
  pub scope : String
  pub status : OperationStatus
  pub result : Value
  pub ttl_seconds : ℕ
  pub expires_at : ℕ
  pub created_at : ℕ

pub record Store : Type 0 where
  pub operations : List Operation
  pub steps : List Step
  pub idempotency_records : List (String × IdempotencyRecord)

unfoldable pub empty_store : Store
empty_store = record { operations = []; steps = []; idempotency_records = [] }

unfoldable pub get_idempotency_record : String → Store → Option IdempotencyRecord
get_idempotency_record key store = lookup key store.idempotency_records

-- The operation that `createOperation` pushes.
abbrev pub new_operation :
    Store → (org_id action_type : String) → Value → String → Option ℕ → ℕ → Operation
new_operation store org_id action_type input key max_attempts now = record {
  id = length store.operations + 1;
  org_id = org_id;
  action_type = action_type;
  status = OperationStatus.pending;
  input = input;
  output = none;
  error = none;
  attempt = 1;
  max_attempts = or_else max_attempts 3;
  next_retry_at = none;
  idempotency_key = key;
  created_at = now;
  completed_at = none;
}

unfoldable pub create_operation :
    (org_id action_type : String) → Value → String → Option ℕ → ℕ → Store → Operation × Store
create_operation org_id action_type input key max_attempts now store =
    let operation = new_operation store org_id action_type input key max_attempts now in
    (operation, record store { operations = store.operations ++ operation ∷ [] })

abbrev pub has_operation_id : ℕ → Operation → Bool
has_operation_id id operation = operation.id == id

-- `Object.assign` of a patch to the operation; `none` is the error that there is none.
unfoldable pub update_operation : ℕ → (Operation → Operation) → Store → Option Store
update_operation id patch store =
    if any (has_operation_id id) store.operations
    then some
        (record store { operations = update_first (has_operation_id id) patch store.operations })
    else none

abbrev pub new_step : Store → ℕ → String → StepStatus → Value → ℕ → Step
new_step store operation_id step_name status input now = record {
  id = length store.steps + 1;
  operation_id = operation_id;
  step_name = step_name;
  status = status;
  input = input;
  output = none;
  error = none;
  started_at = now;
  completed_at = none;
}

unfoldable pub create_step : ℕ → String → StepStatus → Value → ℕ → Store → Step × Store
create_step operation_id step_name status input now store =
    let step = new_step store operation_id step_name status input now in
    (step, record store { steps = store.steps ++ step ∷ [] })

abbrev pub has_step_id : ℕ → Step → Bool
has_step_id id step = step.id == id

unfoldable pub update_step : ℕ → (Step → Step) → Store → Option Store
update_step id patch store =
    if any (has_step_id id) store.steps
    then some (record store { steps = update_first (has_step_id id) patch store.steps })
    else none

abbrev pub new_record :
    (key operation_type scope : String) → OperationStatus → Value → ℕ → ℕ → IdempotencyRecord
new_record key operation_type scope status result ttl_seconds now = record {
  idempotency_key = key;
  operation_type = operation_type;
  scope = scope;
  status = status;
  result = result;
  ttl_seconds = ttl_seconds;
  expires_at = now + ttl_seconds * 1000;
  created_at = now;
}

unfoldable pub save_idempotency_record :
    (key operation_type scope : String) → OperationStatus → Value → ℕ → ℕ → Store → Store
save_idempotency_record key operation_type scope status result ttl_seconds now store =
    record store {
      idempotency_records =
          assign key (new_record key operation_type scope status result ttl_seconds now)
            store.idempotency_records;
    }

unfoldable pub count_operations_by_idempotency_key : String → Store → ℕ
count_operations_by_idempotency_key key store =
    length (select (λ operation. str_eq operation.idempotency_key key) store.operations)
