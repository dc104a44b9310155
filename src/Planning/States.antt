-- ===== src/Planning/States.antt =====
-- backend/planning/domain/stateMachine.js and errors.js. A state that is not one of the five
-- strings of the source is `unknown` with its spelling.
use civitas.Prelude.{◌≡◌, refl, Bool, true, false, List, [], ◌∷◌, String, str_eq, any, arith}

pub data PlanningState : Type 0 where
  draft in_review changes_requested approved archived : PlanningState
  unknown : String → PlanningState

-- `===` on states.
abbrev pub state_eq : PlanningState → PlanningState → Bool
state_eq draft draft = true
state_eq in_review in_review = true
state_eq changes_requested changes_requested = true
state_eq approved approved = true
state_eq archived archived = true
state_eq (unknown s) (unknown t) = str_eq s t
state_eq _ _ = false

abbrev pub transitions : PlanningState → List PlanningState
transitions draft = in_review ∷ archived ∷ []
transitions in_review = changes_requested ∷ approved ∷ []
transitions changes_requested = draft ∷ archived ∷ []
transitions approved = draft ∷ archived ∷ []
transitions archived = []
transitions (unknown s) = []

abbrev pub is_planning_state : PlanningState → Bool
is_planning_state (unknown s) = false
is_planning_state _ = true

unfoldable pub can_transition : PlanningState → PlanningState → Bool
unfolding any
can_transition from to = any (state_eq to) (transitions from)

pub data ErrorCode : Type 0 where
  invalid_argument invalid_transition approved_version_immutable version_conflict : ErrorCode
  not_found idempotency_conflict : ErrorCode

-- The diagram of the planning states.
infix 40 ◌⟶◌
pub data ◌⟶◌ : PlanningState → PlanningState → Type 0 where
  submit : draft ⟶ in_review
  discard : draft ⟶ archived
  send_back : in_review ⟶ changes_requested
  approve : in_review ⟶ approved
  reopen : changes_requested ⟶ draft
  give_up : changes_requested ⟶ archived
  restart : approved ⟶ draft
  retire : approved ⟶ archived

pub ruleset edges = (submit, discard, send_back, approve, reopen, give_up, restart, retire)

pub can_transition-⟶ : (from to : PlanningState) → can_transition from to ≡ true → from ⟶ to
unfolding can_transition
can_transition-⟶ from to h = grind (arith, edges)

pub ⟶-can_transition : {from to : PlanningState} → from ⟶ to → can_transition from to ≡ true
unfolding can_transition
⟶-can_transition submit = refl
⟶-can_transition discard = refl
⟶-can_transition send_back = refl
⟶-can_transition approve = refl
⟶-can_transition reopen = refl
⟶-can_transition give_up = refl
⟶-can_transition restart = refl
⟶-can_transition retire = refl
