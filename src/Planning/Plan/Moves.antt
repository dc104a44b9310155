-- ===== src/Planning/Plan/Moves.antt =====
-- The method `transition` and its private step, as one equation on a valid aggregate
-- (backend/planning/domain/planning.js).
use civitas.Prelude.{
  ℕ, ◌+◌, ◌≡◌, refl, inl, inr, true, ◌&&◌, Option, List, [], ◌∷◌, ◌++◌, String, update_first,
  if◌then◌else◌, arith, Bool-cases,
}
use civitas.Prelude.Text.{trim, is_empty}
use civitas.Planning.States.{
  PlanningState, is_planning_state, can_transition, invalid_argument, invalid_transition,
}
use civitas.Planning.Aggregate.{
  Version, Event, moved, Planning, Outcome, returned, threw, domain, has_number, required_value,
}
use civitas.Planning.Invariant.{
  IsValid, IsValid-moved, IsValid-update_first, any_current, assert_invariant_of_IsValid,
}
use civitas.Planning.Plan.{
  is_approved, is_changes_requested, is_blank, approve_version, mark_approved, transition_step,
  transition,
}

-- The versions after a move: the current one is marked if the plan is approved.
abbrev pub moved_versions : PlanningState → String → ℕ → Planning → List Version
moved_versions to actor now p =
    if is_approved to
    then update_first (has_number p.current_version) (approve_version actor now) p.versions
    else p.versions

-- The aggregate after a move that is allowed.
abbrev pub after_move : PlanningState → String → ℕ → Option String → String → Planning → Planning
after_move to actor now reason event_id p = record p {
  state = to;
  revision = p.revision + 1;
  updated_at = now;
  versions = moved_versions to actor now p;
  events = p.events ++ moved event_id actor now p.state to p.current_version reason ∷ [];
}

is_planning_state_of_can_transition :
    (from to : PlanningState) → can_transition from to ≡ true → is_planning_state to ≡ true
unfolding can_transition
is_planning_state_of_can_transition from to h = ground arith

pub after_move-IsValid :
    (to : PlanningState) (actor : String) (now : ℕ) (reason : Option String) (event_id : String)
    (p : Planning)
    → IsValid p
    → can_transition p.state to ≡ true
    → IsValid (after_move to actor now reason event_id p)
after_move-IsValid to actor now reason event_id p v h =
    let known = is_planning_state_of_can_transition p.state to h in
    let events : List Event =
      p.events ++ moved event_id actor now p.state to p.current_version reason ∷ [] in
    elim (Bool-cases (is_approved to)) [
      | inl e ↦ rw e (
          IsValid-update_first p.current_version (approve_version actor now) (λ v. refl) p to now
            events v refl known)
      | inr e ↦ rw e (IsValid-moved p to now p.name events v known)
    ]

-- What the step does on a valid aggregate.
abbrev pub moves_to :
    PlanningState → String → ℕ → Option String → String → Planning → Planning × Outcome (Unit {0})
moves_to to actor now reason event_id p =
    if can_transition p.state to
    then if is_changes_requested to && is_blank reason
      then (p, threw (domain invalid_argument))
      else (after_move to actor now reason event_id p, returned tt)
    else (p, threw (domain invalid_transition))

pub transition_step_lem :
    (to : PlanningState) (actor : String) (now : ℕ) (reason : Option String) (event_id : String)
    (p : Planning)
    → IsValid p
    → transition_step to actor now reason event_id p ≡ moves_to to actor now reason event_id p
unfolding transition_step mark_approved
transition_step_lem to actor now reason event_id p v =
    elim (Bool-cases (can_transition p.state to)) [
      | inl e ↦ ground (
        arith,
        any_current p v,
        assert_invariant_of_IsValid _ (after_move-IsValid to actor now reason event_id p v e),
      )
      | inr e ↦ ground (arith)
    ]

-- On a valid aggregate `transition` first requires an actor, then the diagram's edge, then a reason
-- if changes are requested; a refusal leaves the aggregate as it was, and otherwise exactly the
-- state, the revision, the date, the current version's approval and the events change.
pub transition_lem :
    (to : PlanningState) (actor : String) (reason : Option String) (now : ℕ) (event_id : String)
    (p : Planning)
    → IsValid p
    → transition to actor reason now event_id p ≡ (
        if is_empty (trim actor)
        then (p, threw (domain invalid_argument))
        else moves_to to actor now reason event_id p)
unfolding transition required_value
transition_lem to actor reason now event_id p v =
    ground (arith, transition_step_lem to actor now reason event_id p v)
