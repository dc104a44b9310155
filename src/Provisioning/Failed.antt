-- ===== src/Provisioning/Failed.antt =====
-- What the recorder holds after a run.
use mathlib.Core.List.{append_assoc, append-nil}
use mathlib.Core.Path.{subst}
use civitas.Prelude.{◌≡◌, refl, sym, ap, ◌∙◌, Option, some, List, [], ◌∷◌, ◌++◌, String}
use civitas.Provisioning.{
  ProvisioningInput, Output, Result, ProvisioningError, serialize_error, Outcome, returned, threw,
  Body, Deps,
}
use civitas.Provisioning.Run.{
  Step, operation_failed, Operation, Recorder, Run, start_recorder, complete_recorder,
  fail_recorder,
}
use civitas.Provisioning.Bootstrap.{bootstrap, fresh_run, caught, run_provisioning}
use civitas.Provisioning.Keeps.{
  Left, SettledKeeps, Keeps-once, Keeps-replayed, AllKeep, Keeps-bootstrap,
}

module _ {W : Type 0} (deps : Deps W) (before : List Step) where
  abbrev Extends : List Step → Type 0
  Extends steps = (more : List Step) × (steps ≡ before ++ more)

  Extends-snoc : (steps : List Step) (step : Step) → Extends steps → Extends (steps ++ step ∷ [])
  Extends-snoc steps step (more, e) =
      (more ++ step ∷ [], ap (λ l. l ++ step ∷ []) e ∙ append_assoc before more (step ∷ []))

  abbrev RunExtends : Run W → Type 0
  RunExtends run = Extends run.recorder.steps

  extends-settled :
      (name : String) (effect : Body W Output) (run : Run W)
      → RunExtends run
      → SettledKeeps RunExtends name effect run
  extends-settled name effect run j = record {
    on_return = λ output w e. Extends-snoc _ _ (Extends-snoc _ _ j);
    on_throw = λ error w e. Extends-snoc _ _ (Extends-snoc _ _ j);
  }

  extends-all : AllKeep deps RunExtends
  unfolding start_recorder complete_recorder
  extends-all = record {
    started = λ input run j. j;
    organized = λ o id run j. j;
    finished = λ result run j. j;
    replayed = λ name effect r. Keeps-replayed RunExtends name effect (extends-settled name effect);
    ran = λ name effect r.
        Keeps-once RunExtends name effect (λ run j _. extends-settled name effect run j);
  }

  -- A recorder of a run that has thrown.
  pub record IsFailed (error : ProvisioningError) (recorder : Recorder) : Type 0 where
    pub kept : Extends recorder.steps
    pub noted :
        (operation : Operation) × (recorder.operation ≡ some operation)
        × (operation.status ≡ operation_failed)
        × (operation.last_error ≡ some (serialize_error error))

  abbrev FailedIfThrown : Outcome (Recorder × W) Result → Type 0
  FailedIfThrown (returned result s) = Extends s.0.steps
  FailedIfThrown (threw error s) = IsFailed error s.0

  failed-caught : (o : Outcome (Run W) Result) → Left RunExtends o → FailedIfThrown (caught deps o)
  unfolding fail_recorder
  failed-caught (returned result run) j = j
  failed-caught (threw error run) j = record { kept = j; noted = (_, refl, refl, refl) }

  pub run_provisioning-ends :
      (input : ProvisioningInput) (actor_type : Option String) (recorder : Recorder) (w : W)
      → before ≡ recorder.steps
      → FailedIfThrown (run_provisioning deps input actor_type (recorder, w))
  unfolding run_provisioning
  run_provisioning-ends input actor_type recorder w e =
      failed-caught (bootstrap deps input actor_type (fresh_run deps recorder w)) (
        Keeps-bootstrap deps RunExtends extends-all input actor_type (fresh_run deps recorder w)
          ([], sym e ∙ sym (append-nil before)))

-- A run that fails keeps every step that was recorded before it, those that are completed among
-- them, and leaves the operation failed with what is kept of the error that it throws.
pub run_provisioning-IsFailed :
    {W : Type 0} (deps : Deps W) (input : ProvisioningInput) (actor_type : Option String)
    (recorder after : Recorder) (w v : W) (error : ProvisioningError)
    → run_provisioning deps input actor_type (recorder, w) ≡ threw error (after, v)
    → IsFailed deps recorder.steps error after
run_provisioning-IsFailed deps input actor_type recorder after w v error h =
    subst (FailedIfThrown deps recorder.steps) h
      (run_provisioning-ends deps recorder.steps input actor_type recorder w refl)
