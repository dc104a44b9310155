-- ===== src/Worker/Engine/Tests.antt =====
-- Runs of the engine, and its theorems at a small action that counts its runs.
use civitas.Prelude.{
  ℕ, suc, ◌≤◌, ◌≡◌, ◌↔◌, refl, true, false, none, some, [], ◌∷◌, ◌++◌, any, select, update_first,
  arith,
}
use civitas.Prelude.Json.{null, number}
use civitas.Worker.Action.{
  value, raised, RetryPolicy, RawAction, Action, validate_action_definition, missing_fields,
}
use civitas.Worker.Store.{
  OperationStatus, Operation, lookup, assign, empty_store, create_operation, create_step,
  update_operation, update_step, get_idempotency_record, save_idempotency_record,
}
use civitas.Worker.Engine.{is_retryable_error, failed_status, is_success, execute, execute_keyed}
use civitas.Worker.Engine.Settled.{answer, settled, execute_keyed_lem}
use civitas.Worker.Engine.Runs.{Request, run, run_all}
use civitas.Worker.Engine.Once.{
  IsSettled, successes, run_all-IsSettled, run_all-once, empty-IsNumbered,
}
use civitas.Worker.Engine.Repeats.{repeated_run, run-retry}

machine : Unit {0}
unfolding run_all run execute execute_keyed answer lookup assign empty_store create_operation
    create_step update_operation update_step get_idempotency_record save_idempotency_record
    failed_status is_retryable_error any select update_first validate_action_definition
    missing_fields
machine = tt

abbrev policy : RetryPolicy
policy = record { max_attempts = some 3; backoff_ms = none; retryable_errors = "Timeout" ∷ [] }

-- The outside is the number of runs so far.
abbrev counting : Action ℕ
counting = record {
  action_type = "count";
  queue = "background_events";
  parse = λ v. value v;
  precondition = λ v n. (value (record { ok = true; reason = none }), n);
  run = λ v n. (value (number n), suc n);
  retry_policy = policy;
  idempotency_key = λ v. value "k";
}

abbrev timing_out : Action ℕ
timing_out = record counting {
  run = λ v n. (
    raised (record { name = "Timeout"; message = "late"; code = none; retryable = false }),
    suc n,
  );
}

abbrev count_request : Request ℕ
count_request = record { action = counting; input = null; org_id = "org"; now = λ k. k }

abbrev late_request : Request ℕ
late_request = record { action = timing_out; input = null; org_id = "org"; now = λ k. k }

-- A run that fails, one that succeeds, and one that is answered from the record: two runs in all.
three_requests :
    ((run_all (late_request ∷ count_request ∷ count_request ∷ []) (empty_store, 0)).1 ≡ 2)
    × (successes "k"
          (run_all (late_request ∷ count_request ∷ count_request ∷ []) (empty_store, 0)).0
        ≡ 1)
unfolding machine
three_requests = (refl, refl)

execute_keyed_lem_example : execute_keyed counting null "k" "org" (λ k. k) (empty_store, 5) ≡ (
  value (number 5),
  (settled counting null "k" "org" (λ k. k) empty_store (value (number 5)), 6),
)
unfolding answer
execute_keyed_lem_example =
    execute_keyed_lem counting null "k" "org" (λ k. k) empty_store 5 empty-IsNumbered

run_all-IsSettled_example :
    IsSettled (run_all (late_request ∷ count_request ∷ []) (empty_store, 0)).0
run_all-IsSettled_example = run_all-IsSettled (late_request ∷ count_request ∷ []) 0

run_all-once_example :
    let store = (run_all (count_request ∷ count_request ∷ []) (empty_store, 0)).0 in
    (successes "k" store ≤ 1)
    × ((successes "k" store ≡ 1) ↔ (is_success (lookup "k" store.idempotency_records) ≡ true))
run_all-once_example = run_all-once (count_request ∷ count_request ∷ []) 0 "k"

repeated_run_example :
    run count_request ((run count_request (empty_store, 0)).1.0, 9)
    ≡ (value (number 0), ((run count_request (empty_store, 0)).1.0, 9))
unfolding machine
repeated_run_example =
    repeated_run count_request count_request empty_store 0 9 null null "k" (number 0)
      empty-IsNumbered refl refl refl refl refl

run-retry_example :
    (o : Operation) × ((run late_request (empty_store, 0)).1.0.operations
      ≡ empty_store.operations ++ o ∷ [])
    × (o.status ≡ OperationStatus.pending)
    × (o.attempt ≡ 1)
unfolding machine
run-retry_example =
    run-retry late_request empty_store 0 null "k"
      (record { name = "Timeout"; message = "late"; code = none; retryable = false }) 3
      empty-IsNumbered refl refl refl refl refl refl (omega arith)

abbrev raw : RawAction ℕ
raw = record {
  action_type = "count";
  queue = "nightly";
  parse = some (λ v. value v);
  precondition = none;
  run = none;
  retry_policy = some policy;
  idempotency_key = some (λ v. value "k");
}
