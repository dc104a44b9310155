-- ===== src/Planning/Review/Commands.antt =====
-- The commands of reviewWorkflow.js: what an accepted decision has shown, and what an assignment may forge.
use civitas.Prelude.{
  ℕ, ◌≡◌, refl, Bool, true, false, not, Option, none, some, String, str_eq, any, find,
  if◌then◌else◌, arith, sym, ap, eq_refl, eq_iff, or_else,
}
use civitas.Planning.States.{in_review, approved, state_eq}
use civitas.Planning.Review.{
  Review, Input, Assignment, ReviewEvent, EventType, ReviewError, Evolved, evolved, refused,
  review_approved, review_rejected, assignment_has, is_held, has_decided, assert_assignment,
  assignment_error, evolved_unless, decide, evolve, approve, reject, assign, submit, submitted,
  draft_started, draft_from_approved_review, plan_not_assignable, plan_not_submittable,
  active_assignment_required, plan_not_in_review, plan_not_approved, draft_provenance_required,
  is_open, same_identity, or_text, assigned, approver_assigned, apply_type, apply_review_event,
}

-- The input's assignment is there, held by the actor with this type and not over, is for the
-- input's version of the plan, and has not decided.
pub record MayDecide (now : ℕ) (s : Review) (d : Input) (assignment_type : String) : Type 0 where
  pub assignment : Assignment
  pub is_known : find (assignment_has d.assignment_id) s.assignments ≡ some assignment
  pub holds : is_held now d.actor_id assignment_type assignment ≡ true
  pub for_version : str_eq assignment.plan_version d.plan_version ≡ true
  pub undecided : any (has_decided d.assignment_id) s.decisions ≡ false

assignment_error-none :
    (now : ℕ) (s : Review) (d : Input) (type : String) (o : Option Assignment)
    → assignment_error now s d type o ≡ none
    → (a : Assignment) × (o ≡ some a)
      × (is_held now d.actor_id type a ≡ true)
      × (str_eq a.plan_version d.plan_version ≡ true)
      × (any (has_decided d.assignment_id) s.decisions ≡ false)
unfolding any
assignment_error-none now s d type none h = ground arith
assignment_error-none now s d type (some a) h =
    let found : (is_held now d.actor_id type a ≡ true)
        × (str_eq a.plan_version d.plan_version ≡ true)
        × (any (has_decided d.assignment_id) s.decisions ≡ false) =
      ground arith in
    (a, refl, found.0, found.1, found.2)

assert_assignment-MayDecide :
    (now : ℕ) (s : Review) (d : Input) (type : String)
    → assert_assignment now s d type ≡ none
    → MayDecide now s d type
unfolding assert_assignment
assert_assignment-MayDecide now s d type h =
    let (a, known, holds, version, undecided) =
      assignment_error-none now s d type (find (assignment_has d.assignment_id) s.assignments) h in
    record {
      assignment = a;
      is_known = known;
      holds = holds;
      for_version = version;
      undecided = undecided;
    }

evolved_unless-evolved :
    (o : Option ReviewError) (e f : ReviewEvent)
    → evolved_unless o e ≡ evolved f
    → (o ≡ none) × (e ≡ f)
evolved_unless-evolved none e f h = (refl, ground (arith, h))
evolved_unless-evolved (some r) e f h = ground arith

unfoldable pub decide_event : Review → Input → String → EventType → ReviewEvent
decide_event s d decision type = evolve s type (record d { decision = decision })

pub accepted-approve :
    (now : ℕ) (s : Review) (d : Input) (e : ReviewEvent)
    → approve now s d ≡ evolved e
    → (str_eq d.actor_id s.author_id ≡ false)
      × (state_eq s.status in_review ≡ true)
      × MayDecide now s d "approver"
      × (e ≡ decide_event s d "approved" review_approved)
unfolding approve decide decide_event
accepted-approve now s d e h =
    let run : (str_eq d.actor_id s.author_id ≡ false)
        × (state_eq s.status in_review ≡ true)
        × (evolved_unless (assert_assignment now s d "approver")
              (evolve s review_approved (record d { decision = "approved" }))
            ≡ evolved e) =
      ground arith in
    let (open_now, event) =
      evolved_unless-evolved (assert_assignment now s d "approver") _ e run.2 in
    (run.0, run.1, assert_assignment-MayDecide now s d "approver" open_now, sym event)

-- What an event makes of a review of its plan.
unfoldable pub next_review : Review → ReviewEvent → Review
next_review s e = apply_type e.event_type e.details (record s { version = e.aggregate_version })

pub applied :
    (s : Review) (e : ReviewEvent)
    → e.organization_id ≡ s.organization_id
    → e.plan_id ≡ s.plan_id
    → apply_review_event s e ≡ some (next_review s e)
unfolding apply_review_event next_review
applied s e org plan =
    let same : same_identity s e ≡ true =
      rw (org, plan, eq_refl s.organization_id, eq_refl s.plan_id) refl in
    rw same refl

unfoldable pub assign_event : Review → Input → ReviewEvent
assign_event s d =
    let assignment_type = or_text d.assignment_type "reviewer" in
    evolve s (if str_eq assignment_type "approver" then approver_assigned else assigned) (record d {
      assignment_type = assignment_type;
      assignee_id = or_text d.assignee_id d.reviewer_id;
    })

-- What an event has of an input's identity and of a review's.
abbrev pub is_own : Option String → String → Bool
is_own none id = true
is_own (some given) id = str_eq given id

pub or_else-own : (o : Option String) (id : String) → is_own o id ≡ true → or_else o id ≡ id
or_else-own none id h = refl
or_else-own (some given) id h = (eq_iff given id).0 h

-- An assignment whose input carries the type of an approval, and the plan's own identity or none, is
-- accepted while the plan is open, and its event approves the plan, whoever the actor is.
pub assign-forged :
    (s : Review) (d : Input)
    → is_open s ≡ true
    → d.event_type ≡ some review_approved
    → is_own d.organization_id s.organization_id ≡ true
    → is_own d.plan_id s.plan_id ≡ true
    → (e : ReviewEvent) × (after : Review) × (assign s d ≡ evolved e)
      × (apply_review_event s e ≡ some after)
      × (after.status ≡ approved)
      × (after.approved_version ≡ some d.plan_version)
unfolding assign evolve assign_event next_review
assign-forged s d open_now type org plan =
    let e = assign_event s d in
    let forged : e.event_type ≡ review_approved = rw type refl in
    (
      e,
      next_review s e,
      rw open_now refl,
      applied s e (or_else-own d.organization_id s.organization_id org)
          (or_else-own d.plan_id s.plan_id plan),
      ap (λ t. (apply_type t e.details (record s { version = e.aggregate_version })).status) forged,
      ap
          (λ t.
            (apply_type t e.details (record s { version = e.aggregate_version })).approved_version)
          forged,
    )

-- The event of an accepted command.
event_of : Evolved → ReviewEvent → ReviewEvent
event_of (evolved e) _ = e
event_of (refused r) e = e

evolved-event : {e f : ReviewEvent} → evolved e ≡ evolved f → f ≡ e
unfolding event_of
evolved-event {e} {f} h = ap (λ o. event_of o e) (sym h)

past_refusal :
    (b : Bool) (r : ReviewError) (x : Evolved) (e : ReviewEvent)
    → (if b then refused r else x) ≡ evolved e
    → (b ≡ false) × (x ≡ evolved e)
past_refusal true r x e h = ground arith
past_refusal false r x e h = (refl, h)

pub assign-event :
    (s : Review) (d : Input) (e : ReviewEvent) → assign s d ≡ evolved e → e ≡ assign_event s d
unfolding assign assign_event
assign-event s d e h = evolved-event (past_refusal (not (is_open s)) plan_not_assignable _ e h).1

pub submit-event :
    (s : Review) (d : Input) (e : ReviewEvent) → submit s d ≡ evolved e → e ≡ evolve s submitted d
unfolding submit
submit-event s d e h =
    evolved-event
      (past_refusal _ active_assignment_required _ e
        (past_refusal (not (is_open s)) plan_not_submittable _ e h).1).1

unfoldable pub draft_event : Review → Input → ReviewEvent
draft_event s d =
    evolve s draft_started
      (record d { source_version = s.approved_version; base_snapshot = s.approved_snapshot })

pub draft_from_approved_review-event :
    (s : Review) (d : Input) (e : ReviewEvent)
    → draft_from_approved_review s d ≡ evolved e
    → e ≡ draft_event s d
unfolding draft_from_approved_review draft_event
draft_from_approved_review-event s d e h =
    evolved-event
      (past_refusal _ draft_provenance_required _ e
        (past_refusal (not (state_eq s.status approved)) plan_not_approved _ e h).1).1

pub reject-event :
    (now : ℕ) (s : Review) (d : Input) (e : ReviewEvent)
    → reject now s d ≡ evolved e
    → (any (has_decided d.assignment_id) s.decisions ≡ false)
      × (e ≡ decide_event s d "rejected" review_rejected)
unfolding reject decide decide_event
reject-event now s d e h =
    let (none_wrong, event) =
      evolved_unless-evolved (assert_assignment now s d "reviewer") _ e
        (past_refusal (not (state_eq s.status in_review)) plan_not_in_review _ e h).1 in
    ((assert_assignment-MayDecide now s d "reviewer" none_wrong).undecided, sym event)
