-- ===== src/Planning/Plan/Tests.antt =====
-- Runs of the planning aggregate, and its theorems at a plan with one revision.
use civitas.Prelude.{◌≡◌, refl, none, List, [], ◌∷◌, any, find, update_first}
use civitas.Prelude.Text.{trim, is_sha256_hex}
use civitas.Prelude.Json.{null, object, no_members}
use civitas.Planning.States.{
  PlanningState, draft, in_review, approved, archived, changes_requested, ErrorCode, can_transition,
}
use civitas.Planning.Numbers.{are_versions}
use civitas.Planning.Aggregate.{
  Version, Planning, returned, threw, domain, created, assert_invariant, has_shape, required_value,
}
use civitas.Planning.Invariant.{IsValid}
use civitas.Planning.Plan.{
  mark_approved, new_snapshot, create, restore, to_snapshot, transition, revise,
  draft_from_approved,
}
use civitas.Planning.Plan.Commands.{
  Command, move, edit, start_draft, after, call, calls, calls-IsValid, call_of_accepts,
  call_of_refuses,
}
use civitas.Planning.Plan.History.{
  Extends, calls-Extends, ◌⟶*◌, calls-⟶*, calls-archived, calls-same_revision,
}
use civitas.Planning.Plan.Persisted.{restore-to_snapshot-calls}

machine : Unit {0}
unfolding calls call transition revise draft_from_approved create restore to_snapshot new_snapshot
    required_value trim is_sha256_hex can_transition mark_approved assert_invariant has_shape
    are_versions any find update_first
machine = tt

abbrev first : Version
first = record {
  version = 1;
  state = draft;
  content = object no_members;
  created_by = "ann";
  created_at = 5;
  approved_by = none;
  approved_at = none;
  source = none;
}

abbrev plan_in : PlanningState → Planning
plan_in state = record {
  organization_id = "org";
  id = "plan";
  profile_id = "profile";
  name = "Budget";
  plan_type = "operational";
  state = state;
  current_version = 2;
  revision = 4;
  versions = first ∷ record first { version = 2; created_by = "bob" } ∷ [];
  created_at = 5;
  updated_at = 9;
  events = [];
}

plan_in_review-IsValid : IsValid (plan_in in_review)
unfolding machine
plan_in_review-IsValid = record { shaped = refl; numbered = refl }

plan_archived-IsValid : IsValid (plan_in archived)
unfolding machine
plan_archived-IsValid = record { shaped = refl; numbered = refl }

abbrev approval : Command
approval = move approved "carol" none 10 "e1"

abbrev second_life : List Command
second_life =
    approval
    ∷ edit (object no_members) none "ann" 11 "e2" "e3"
    ∷ move in_review "ann" none 12 "e4"
    ∷ start_draft null "aaaaaaaaaaaaaaaabbbbbbbbbbbbbbbbcccccccccccccccc0123456789abcdef" "ann"
        "new year" 13 "e5" "e6"
    ∷ []

second_life_versions :
    ((calls second_life (plan_in in_review)).current_version ≡ 3)
    × ((calls second_life (plan_in in_review)).state ≡ draft)
    × ((calls second_life (plan_in in_review)).revision ≡ 7)
unfolding machine
second_life_versions = (refl, refl, refl)

call_of_accepts_example :
    call approval (plan_in in_review) ≡ (after approval (plan_in in_review), returned tt)
unfolding machine
call_of_accepts_example = call_of_accepts approval (plan_in in_review) plan_in_review-IsValid refl

call_of_refuses_example :
    (code : ErrorCode) × (call
        (edit (object no_members) none "ann" 11 "e2" "e3")
        (plan_in in_review)
      ≡ (plan_in in_review, threw (domain code)))
unfolding machine
call_of_refuses_example =
    call_of_refuses (edit (object no_members) none "ann" 11 "e2" "e3") (plan_in in_review)
      plan_in_review-IsValid refl

calls-IsValid_example : IsValid (calls second_life (plan_in in_review))
calls-IsValid_example = calls-IsValid second_life (plan_in in_review) plan_in_review-IsValid

calls-Extends_example :
    Extends (plan_in in_review).versions (calls second_life (plan_in in_review)).versions
calls-Extends_example = calls-Extends second_life (plan_in in_review) plan_in_review-IsValid

calls-⟶*_example : in_review ⟶* (calls second_life (plan_in in_review)).state
calls-⟶*_example = calls-⟶* second_life (plan_in in_review) plan_in_review-IsValid

calls-archived_example : calls second_life (plan_in archived) ≡ plan_in archived
calls-archived_example = calls-archived second_life (plan_in archived) plan_archived-IsValid refl

abbrev refused : List Command
refused =
    edit (object no_members) none "ann" 11 "e2" "e3"
    ∷ move changes_requested "bob" none 12 "e4"
    ∷ []

calls-same_revision_example : calls refused (plan_in in_review) ≡ plan_in in_review
unfolding machine
calls-same_revision_example =
    calls-same_revision refused (plan_in in_review) plan_in_review-IsValid refl

abbrev new_plan : Planning
new_plan = record {
  organization_id = "org";
  id = "p1";
  profile_id = "profile";
  name = "Budget";
  plan_type = "tactical";
  state = draft;
  current_version = 1;
  revision = 1;
  versions = record first { created_at = 7 } ∷ [];
  created_at = 7;
  updated_at = 7;
  events = created "e0" "ann" 7 1 ∷ [];
}

restore-to_snapshot-calls_example :
    restore (to_snapshot (calls (move in_review "ann" none 8 "e1" ∷ []) new_plan))
    ≡ returned (record (calls (move in_review "ann" none 8 "e1" ∷ []) new_plan) { events = [] })
unfolding machine
restore-to_snapshot-calls_example =
    restore-to_snapshot-calls "org" "p1" " profile " "Budget " "tactical" (object no_members) "ann"
      7 "e0" (move in_review "ann" none 8 "e1" ∷ []) new_plan refl
