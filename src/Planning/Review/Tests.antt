-- ===== src/Planning/Review/Tests.antt =====
-- The review of one plan: an assignment to approve, a submission, and its approval.
use civitas.Prelude.{◌≡◌, refl, none, some, [], ◌∷◌, any, find, update_first}
use civitas.Planning.States.{approved}
use civitas.Planning.Review.{
  Review, Input, EventType, review_approved, ReviewEvent, evolved, refused, assignment_not_active,
  self_approval_denied, initial_state, evolve, assign, submit, approve, reject, decide,
  assert_assignment, apply_review_event, rehydrate_review_workflow,
}
use civitas.Planning.Review.Commands.{next_review, assign_event, decide_event, assign-forged}
use civitas.Planning.Review.History.{
  assigning, submitting, approving, is_plain, Reached, not_started, one_more, IsOrderly,
  Reached-IsOrderly,
}

abbrev input : Input
input = record {
  event_type = none;
  aggregate_version = none;
  organization_id = some "o1";
  plan_id = some "p1";
  occurred_at = 5;
  assignment_id = "a1";
  assignee_id = "eve";
  reviewer_id = "";
  assignment_type = "approver";
  plan_version = "1";
  expires_at = none;
  author_id = "ana";
  actor_id = "eve";
  decision_id = "d1";
  decision = "";
  approved_snapshot = none;
  reason = "";
  source_hash = "";
  source_version = none;
  base_snapshot = none;
}

machine : Unit {0}
unfolding initial_state evolve assign submit approve reject decide assert_assignment
    apply_review_event rehydrate_review_workflow next_review assign_event decide_event any find
    update_first
machine = tt

abbrev fresh : Review
fresh = initial_state "o1" "p1"

abbrev assigned_event : ReviewEvent
assigned_event = assign_event fresh input

abbrev ready : Review
ready = next_review fresh assigned_event

abbrev submitted_event : ReviewEvent
submitted_event = evolve ready EventType.submitted input

abbrev waiting : Review
waiting = next_review ready submitted_event

abbrev approval : ReviewEvent
approval = decide_event waiting input "approved" review_approved

abbrev done : Review
done = next_review waiting approval

first_run : Reached (is_plain "o1" "p1") "o1" "p1" (assigned_event ∷ []) ready
unfolding machine
first_run = one_more (assigning input) not_started refl refl refl

second_run : Reached (is_plain "o1" "p1") "o1" "p1" (assigned_event ∷ submitted_event ∷ []) waiting
unfolding machine
second_run = one_more (submitting input) first_run refl refl refl

whole_run :
    Reached (is_plain "o1" "p1") "o1" "p1" (assigned_event ∷ submitted_event ∷ approval ∷ []) done
unfolding machine
whole_run = one_more (approving 7 input) second_run refl refl refl

approved_now : done.status ≡ approved
unfolding machine
approved_now = refl

by_the_author : approve 7 waiting (record input { actor_id = "ana" }) ≡ refused self_approval_denied
unfolding machine
by_the_author = refl

by_another : approve 7 waiting (record input { actor_id = "bob" }) ≡ refused assignment_not_active
unfolding machine
by_another = refl

accepted : approve 7 waiting input ≡ evolved approval
unfolding machine
accepted = refl

abbrev forged : Input
forged = record input { event_type = some review_approved }

assign-forged_example :
    (e : ReviewEvent) × (after : Review) × (assign (initial_state "o1" "p1") forged ≡ evolved e)
    × (apply_review_event (initial_state "o1" "p1") e ≡ some after)
    × (after.status ≡ approved)
    × (after.approved_version ≡ some "1")
unfolding initial_state
assign-forged_example = assign-forged (initial_state "o1" "p1") forged refl refl refl refl

waiting-IsOrderly : IsOrderly waiting
waiting-IsOrderly = (Reached-IsOrderly second_run).0

Reached-IsOrderly_example : IsOrderly done × (done.version ≡ 3)
Reached-IsOrderly_example = Reached-IsOrderly whole_run
