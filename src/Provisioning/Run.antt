-- ===== src/Provisioning/Run.antt =====
-- The recorder of createMemoryProvisioningRecorder, whose methods never throw, and the run of
-- `runCanonicalOrganizationProvisioning` with its steps.
use civitas.Prelude.{
  Bool, true, false, Option, none, some, or_else, List, [], ◌∷◌, ◌++◌, String, if◌then◌else◌,
}
use civitas.Prelude.Maps.{lookup, assign}
use civitas.Provisioning.{
  Organization, ProvisioningInput, truthy, Output, no_output, Result, ProvisioningError,
  SerializedError, serialize_error, Outcome, returned, threw, Body,
}

pub data StepStatus : Type 0 where
  running completed failed : StepStatus

pub record Step : Type 0 where
  pub step_name : String
  pub status : StepStatus
  pub output : Output
  pub error : Option SerializedError

pub data OperationStatus : Type 0 where
  operation_running operation_completed operation_failed : OperationStatus

pub data OperationOutput : Type 0 where
  empty_output : OperationOutput
  bootstrap_result : Result → OperationOutput
  bootstrap_failure : String → Option String → Option Organization → OperationOutput

pub record Operation : Type 0 where
  pub input : Option ProvisioningInput
  pub status : OperationStatus
  pub organization_id : Option String
  pub output : OperationOutput
  pub last_error : Option SerializedError

pub record Recorder : Type 0 where
  pub steps : List Step
  pub operation : Option Operation

abbrev pub empty_recorder : Recorder
empty_recorder = record { steps = []; operation = none }

abbrev pub is_completed : StepStatus → Bool
is_completed completed = true
is_completed _ = false

-- The completed steps by their names, with those that were there before.
unfoldable pub load : List (String × Output) → List Step → List (String × Output)
unfolding assign
load entries [] = entries
load entries (step ∷ steps) =
    load (if is_completed step.status then assign step.step_name step.output entries else entries)
      steps

unfoldable pub get_completed_steps : Recorder → List (String × Output)
unfolding load
get_completed_steps recorder = load [] recorder.steps

-- The world, the recorder and the variables of one run.
pub record Run (W : Type 0) : Type 0 where
  pub world : W
  pub recorder : Recorder
  pub completed_steps : List (String × Output)
  pub organization : Option Organization
  pub organization_id : Option String

abbrev blank_operation : Operation
blank_operation = record {
  input = none;
  status = operation_running;
  organization_id = none;
  output = empty_output;
  last_error = none;
}

abbrev pub started_operation : ProvisioningInput → Option Operation → Operation
started_operation input none = record blank_operation { input = some input }
started_operation input (some operation) = record operation { status = operation_running }

unfoldable pub start_recorder : ProvisioningInput → Recorder → Recorder
start_recorder input recorder = record recorder {
  operation = some (started_operation input recorder.operation);
}

unfoldable pub complete_recorder : Result → Recorder → Recorder
complete_recorder result recorder = record recorder {
  operation = some (record (or_else recorder.operation blank_operation) {
    status = operation_completed;
    organization_id = result.organization_id;
    output = bootstrap_result result;
  });
}

abbrev pub failure_status : Option String → String
failure_status organization_id = elim (truthy organization_id) [
  | some id ↦ "bootstrap_incomplete"
  | none ↦ "bootstrap_failed"
]

unfoldable pub fail_recorder : {W : Type 0} → ProvisioningError → Run W → Recorder
fail_recorder error run = record run.recorder {
  operation = some (record (or_else run.recorder.operation blank_operation) {
    status = operation_failed;
    organization_id = run.organization_id;
    output =
        bootstrap_failure (failure_status run.organization_id) run.organization_id run.organization;
    last_error = some (serialize_error error);
  });
}

module _ {W : Type 0} where
  abbrev pub add_step : String → StepStatus → Output → Option SerializedError → Run W → Run W
  add_step name status output error run = record run {
    recorder = record run.recorder {
      steps =
          run.recorder.steps
          ++ record { step_name = name; status = status; output = output; error = error } ∷ [];
    };
  }

  abbrev pub with_world : Run W → W → Run W
  with_world run w = record run { world = w }

  -- A run in which a step's effect has returned, and one in which it has thrown.
  abbrev pub after_step : String → Output → W → Run W → Run W
  after_step name output w run =
      record (add_step name completed output none
        (with_world (add_step name running no_output none run) w)) {
          completed_steps = assign name output run.completed_steps;
        }

  abbrev pub after_failure : String → ProvisioningError → W → Run W → Run W
  after_failure name error w run =
      add_step name failed no_output (some (serialize_error error))
        (with_world (add_step name running no_output none run) w)

  abbrev pub settle : String → Outcome W Output → Run W → Outcome (Run W) (Bool × Output)
  settle name (returned output w) run = returned (false, output) (after_step name output w run)
  settle name (threw error w) run = threw error (after_failure name error w run)

  abbrev pub perform : String → Body W Output → Body (Run W) (Bool × Output)
  perform name effect run = settle name (effect run.world) run

  abbrev pub step_after :
      String → Bool → Body W Output → Option Output → Body (Run W) (Bool × Output)
  step_after name replayable effect none run = perform name effect run
  step_after name replayable effect (some previous) run =
      if replayable then perform name effect run else returned (true, previous) run

  -- `runStep`: whether the step was skipped, and its output.
  unfoldable pub run_step : String → Bool → Body W Output → Body (Run W) (Bool × Output)
  unfolding lookup assign
  run_step name replayable effect run =
      step_after name replayable effect (lookup name run.completed_steps) run
