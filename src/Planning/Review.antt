-- ===== src/Planning/Review.antt =====
-- backend/planning/domain/reviewWorkflow.js with reviewContracts.js: the review of a plan, kept as
-- a list of events. A text that is missing is the empty
-- one, a moment that is missing is 0. `evolve` copies the input over the
-- event that it builds, so an input may carry a type, a version and an identity of its own.
use civitas.Prelude.{
  ℕ, ◌+◌, ◌≡◌, refl, Bool, true, false, not, ◌&&◌, ◌||◌, Option, none, some, List, [], ◌∷◌, ◌++◌,
  String, str_eq, any, find, leb, ◌==◌, update_first, or_else, if◌then◌else◌,
}
use civitas.Prelude.Text.{is_empty, trim, is_sha256_hex}
use civitas.Prelude.Json.{Value}
use civitas.Planning.States.{PlanningState, draft, in_review, changes_requested, approved, state_eq}
pub mod Commands
pub mod History
pub mod Tests

pub data EventType : Type 0 where
  assigned approver_assigned submitted review_approved review_rejected draft_started : EventType
  another : String → EventType

pub record Assignment : Type 0 where
  pub assignment_id : String
  pub assignee_id : String
  pub assignment_type : String
  pub plan_version : String
  pub active : Bool
  pub expires_at : Option ℕ

pub record ReviewDecision : Type 0 where
  pub decision_id : String
  pub assignment_id : String
  pub decision : String
  pub actor_id : String
  pub plan_version : String

pub record Review : Type 0 where
  pub organization_id : String
  pub plan_id : String
  pub status : PlanningState
  pub version : ℕ
  pub assignments : List Assignment
  pub decisions : List ReviewDecision
  pub approved_version : Option String
  pub approved_snapshot : Option Value
  pub author_id : String

-- What a command hands over, and what an event keeps of it.
pub record Input : Type 0 where
  pub event_type : Option EventType
  pub aggregate_version : Option ℕ
  pub organization_id : Option String
  pub plan_id : Option String
  pub occurred_at : ℕ
  pub assignment_id : String
  pub assignee_id : String
  pub reviewer_id : String
  pub assignment_type : String
  pub plan_version : String
  pub expires_at : Option ℕ
  pub author_id : String
  pub actor_id : String
  pub decision_id : String
  pub decision : String
  pub approved_snapshot : Option Value
  pub reason : String
  pub source_hash : String
  pub source_version : Option String
  pub base_snapshot : Option Value

pub record ReviewEvent : Type 0 where
  pub event_type : EventType
  pub organization_id : String
  pub plan_id : String
  pub aggregate_version : ℕ
  pub details : Input

pub data ReviewError : Type 0 where
  plan_not_assignable plan_not_submittable active_assignment_required : ReviewError
  self_approval_denied plan_not_in_review assignment_not_active stale_assignment : ReviewError
  duplicate_decision plan_not_approved draft_provenance_required : ReviewError

pub data Evolved : Type 0 where
  evolved : ReviewEvent → Evolved
  refused : ReviewError → Evolved

unfoldable pub initial_state : String → String → Review
initial_state organization_id plan_id = record {
  organization_id = organization_id;
  plan_id = plan_id;
  status = draft;
  version = 0;
  assignments = [];
  decisions = [];
  approved_version = none;
  approved_snapshot = none;
  author_id = "";
}

abbrev pub or_text : String → String → String
or_text a b = if is_empty a then b else a

abbrev pub assignment_has : String → Assignment → Bool
assignment_has id a = str_eq a.assignment_id id

-- `Map.set` keeps the place of a key that is there.
abbrev pub set_assignment : Assignment → List Assignment → List Assignment
set_assignment a assignments =
    if any (assignment_has a.assignment_id) assignments
    then update_first (assignment_has a.assignment_id) (λ _. a) assignments
    else assignments ++ a ∷ []

abbrev pub deactivate : Assignment → Assignment
deactivate a = record a { active = false }

-- `moment || null`
abbrev moment_or_none : Option ℕ → Option ℕ
moment_or_none none = none
moment_or_none (some at) = if at == 0 then none else some at

abbrev pub add_assignment : Input → String → Review → Review
add_assignment d default_type s =
    let added : Assignment = record {
      assignment_id = d.assignment_id;
      assignee_id = or_text d.assignee_id d.reviewer_id;
      assignment_type = or_text d.assignment_type default_type;
      plan_version = d.plan_version;
      active = true;
      expires_at = moment_or_none d.expires_at;
    } in
    record s { assignments = set_assignment added s.assignments }

abbrev pub add_decision : Input → PlanningState → Review → Review
add_decision d status s =
    let made : ReviewDecision = record {
      decision_id = d.decision_id;
      assignment_id = d.assignment_id;
      decision = d.decision;
      actor_id = d.actor_id;
      plan_version = d.plan_version;
    } in
    record s {
      status = status;
      decisions = s.decisions ++ made ∷ [];
      assignments = update_first (assignment_has d.assignment_id) deactivate s.assignments;
    }

abbrev pub apply_type : EventType → Input → Review → Review
apply_type assigned d s = add_assignment d "reviewer" s
apply_type approver_assigned d s = add_assignment d "approver" s
apply_type submitted d s = record s { status = in_review; author_id = d.author_id }
apply_type review_approved d s = record (add_decision d approved s) {
  approved_version = some d.plan_version;
  approved_snapshot = d.approved_snapshot;
}
apply_type review_rejected d s = add_decision d changes_requested s
apply_type draft_started d s = record s { status = draft }
apply_type (another t) d s = s

abbrev pub same_identity : Review → ReviewEvent → Bool
same_identity s e = str_eq s.organization_id e.organization_id && str_eq s.plan_id e.plan_id

-- `none` stands for the error tenant_or_aggregate_mismatch.
unfoldable pub apply_review_event : Review → ReviewEvent → Option Review
unfolding any update_first
apply_review_event s e =
    if same_identity s e
    then some (apply_type e.event_type e.details (record s { version = e.aggregate_version }))
    else none

unfoldable pub rehydrate_from : Option Review → List ReviewEvent → Option Review
rehydrate_from none events = none
rehydrate_from (some s) [] = some s
rehydrate_from (some s) (e ∷ events) = rehydrate_from (apply_review_event s e) events

unfoldable pub rehydrate_review_workflow : List ReviewEvent → String → String → Option Review
rehydrate_review_workflow events organization_id plan_id =
    rehydrate_from (some (initial_state organization_id plan_id)) events

unfoldable pub evolve : Review → EventType → Input → ReviewEvent
evolve s type d = record {
  event_type = or_else d.event_type type;
  organization_id = or_else d.organization_id s.organization_id;
  plan_id = or_else d.plan_id s.plan_id;
  aggregate_version = or_else d.aggregate_version (s.version + 1);
  details = d;
}

-- A moment 0 is none.
abbrev expired : Option ℕ → ℕ → Bool
expired none now = false
expired (some e) now = not (e == 0) && leb e now

-- Whether an assignment is the actor's, active and not over.
abbrev pub is_held : ℕ → String → String → Assignment → Bool
is_held now actor_id assignment_type a =
    a.active
    && str_eq a.assignee_id actor_id
    && str_eq a.assignment_type assignment_type
    && not (expired a.expires_at now)

abbrev pub has_decided : String → ReviewDecision → Bool
has_decided id d = str_eq d.assignment_id id

abbrev pub assignment_error : ℕ → Review → Input → String → Option Assignment → Option ReviewError
assignment_error now s d assignment_type none = some assignment_not_active
assignment_error now s d assignment_type (some a) =
    if not (is_held now d.actor_id assignment_type a)
    then some assignment_not_active
    else if not (str_eq a.plan_version d.plan_version)
    then some stale_assignment
    else if any (has_decided d.assignment_id) s.decisions
    then some duplicate_decision
    else none

unfoldable pub assert_assignment : ℕ → Review → Input → String → Option ReviewError
unfolding any find
assert_assignment now s d assignment_type =
    assignment_error now s d assignment_type (find (assignment_has d.assignment_id) s.assignments)

abbrev pub evolved_unless : Option ReviewError → ReviewEvent → Evolved
evolved_unless none e = evolved e
evolved_unless (some error) e = refused error

unfoldable pub decide : ℕ → Review → Input → String → EventType → String → Evolved
unfolding evolve
decide now s d decision type assignment_type =
    evolved_unless (assert_assignment now s d assignment_type)
      (evolve s type (record d { decision = decision }))

-- Whether the plan is a draft or was sent back.
abbrev pub is_open : Review → Bool
is_open s = state_eq s.status draft || state_eq s.status changes_requested

unfoldable pub assign : Review → Input → Evolved
unfolding evolve
assign s d =
    let assignment_type = or_text d.assignment_type "reviewer" in
    if not (is_open s)
    then refused plan_not_assignable
    else evolved (
        evolve s (if str_eq assignment_type "approver" then approver_assigned else assigned)
          (record d {
            assignment_type = assignment_type;
            assignee_id = or_text d.assignee_id d.reviewer_id;
          }))

unfoldable pub submit : Review → Input → Evolved
unfolding any evolve
submit s d =
    if not (is_open s)
    then refused plan_not_submittable
    else if not (any (λ a. a.active && str_eq a.plan_version d.plan_version) s.assignments)
    then refused active_assignment_required
    else evolved (evolve s submitted d)

unfoldable pub approve : ℕ → Review → Input → Evolved
unfolding decide
approve now s d =
    if str_eq d.actor_id s.author_id
    then refused self_approval_denied
    else if not (state_eq s.status in_review)
    then refused plan_not_in_review
    else decide now s d "approved" review_approved "approver"

unfoldable pub reject : ℕ → Review → Input → Evolved
unfolding decide
reject now s d =
    if not (state_eq s.status in_review)
    then refused plan_not_in_review
    else decide now s d "rejected" review_rejected "reviewer"

-- The event's copies of the actor and the moment are the input's own.
unfoldable pub draft_from_approved_review : Review → Input → Evolved
unfolding evolve
draft_from_approved_review s d =
    if not (state_eq s.status approved)
    then refused plan_not_approved
    else if is_empty d.actor_id
        || leb d.occurred_at 0
        || is_empty (trim d.reason)
        || not (is_sha256_hex d.source_hash)
    then refused draft_provenance_required
    else evolved (
        evolve s draft_started
          (record d { source_version = s.approved_version; base_snapshot = s.approved_snapshot }))
