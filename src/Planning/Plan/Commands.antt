-- ===== src/Planning/Plan/Commands.antt =====
-- Sequences of method calls on one aggregate of backend/planning/domain/planning.js: a call that
-- throws is caught by its caller, and the aggregate stays in use as the call has left it.
use civitas.Prelude.{
  ℕ, ◌≡◌, refl, ◌∙◌, inl, inr, Bool, true, false, not, ◌&&◌, ◌||◌, Option, List, [], ◌∷◌, String,
  if◌then◌else◌, arith, Bool-cases, or_else,
}
use civitas.Prelude.Text.{trim, is_empty, is_sha256_hex}
use civitas.Prelude.Json.{Value, is_plain_object}
use civitas.Planning.States.{
  PlanningState, ErrorCode, can_transition, invalid_argument, invalid_transition,
  approved_version_immutable,
}
use civitas.Planning.Aggregate.{Planning, Outcome, returned, threw, domain}
use civitas.Planning.Invariant.{IsValid}
use civitas.Planning.Plan.{
  is_approved, is_revisable, is_changes_requested, is_blank, transition, revise,
  draft_from_approved,
}
use civitas.Planning.Plan.Moves.{after_move-IsValid, transition_lem, moves_to, after_move}
use civitas.Planning.Plan.Drafts.{
  after_revision-IsValid, revise_lem, after_draft-IsValid, draft_from_approved_lem, revises_to,
  starts_draft, after_revision, after_draft,
}

pub data Command : Type 0 where
  move :
      (to : PlanningState) (actor : String) (reason : Option String) (now : ℕ) (event_id : String)
      → Command
  edit :
      (content : Value) (name : Option String) (actor : String) (now : ℕ)
      (moved_id revised_id : String)
      → Command
  start_draft :
      (content : Value) (source_hash actor reason : String) (now : ℕ) (moved_id started_id : String)
      → Command

unfoldable pub call : Command → Planning → Planning × Outcome (Unit {0})
call (move to actor reason now event_id) = transition to actor reason now event_id
call (edit content name actor now moved_id revised_id) =
    revise content name actor now moved_id revised_id
call (start_draft content source_hash actor reason now moved_id started_id) =
    draft_from_approved content source_hash actor reason now moved_id started_id

unfoldable pub calls : List Command → Planning → Planning
calls [] p = p
calls (c ∷ cs) p = calls cs (call c p).0

pub calls-nil : (p : Planning) → calls [] p ≡ p
unfolding calls
calls-nil p = refl

pub calls-cons :
    (c : Command) (cs : List Command) (p : Planning) → calls (c ∷ cs) p ≡ calls cs (call c p).0
unfolding calls
calls-cons c cs p = refl

-- What a call does on a valid aggregate.
abbrev expected : Command → Planning → Planning × Outcome (Unit {0})
expected (move to actor reason now event_id) p =
    if is_empty (trim actor)
    then (p, threw (domain invalid_argument))
    else moves_to to actor now reason event_id p
expected (edit content name actor now moved_id revised_id) p =
    revises_to content name actor now moved_id revised_id p
expected (start_draft content source_hash actor reason now moved_id started_id) p =
    starts_draft content source_hash actor reason now moved_id started_id p

call-expected : (c : Command) (p : Planning) → IsValid p → call c p ≡ expected c p
unfolding call
call-expected (move to actor reason now event_id) p v =
    transition_lem to actor reason now event_id p v
call-expected (edit content name actor now moved_id revised_id) p v =
    revise_lem content name actor now moved_id revised_id p v
call-expected (start_draft content source_hash actor reason now moved_id started_id) p v =
    draft_from_approved_lem content source_hash actor reason now moved_id started_id p v

-- The calls that succeed, and the aggregate after them.
abbrev pub accepts : Command → Planning → Bool
accepts (move to actor reason now event_id) p =
    not (is_empty (trim actor))
    && can_transition p.state to
    && not (is_changes_requested to && is_blank reason)
accepts (edit content name actor now moved_id revised_id) p =
    not (is_empty (trim actor))
    && is_revisable p.state
    && is_plain_object content
    && not (is_empty (trim (or_else name p.name)))
accepts (start_draft content source_hash actor reason now moved_id started_id) p =
    not (is_empty (trim actor))
    && not (is_empty (trim source_hash))
    && not (is_empty (trim reason))
    && is_sha256_hex source_hash
    && is_approved p.state

abbrev pub after : Command → Planning → Planning
after (move to actor reason now event_id) p = after_move to actor now reason event_id p
after (edit content name actor now moved_id revised_id) p =
    after_revision content (trim (or_else name p.name)) actor now moved_id revised_id p
after (start_draft content source_hash actor reason now moved_id started_id) p =
    after_draft content source_hash actor reason now moved_id started_id p

expected_of_accepts :
    (c : Command) (p : Planning) → accepts c p ≡ true → expected c p ≡ (after c p, returned tt)
expected_of_accepts (move to actor reason now event_id) p h = ground arith
expected_of_accepts (edit content name actor now moved_id revised_id) p h = ground arith
expected_of_accepts (start_draft content source_hash actor reason now moved_id started_id) p h =
    ground arith

-- The error of a call that is not accepted.
abbrev refusal : Command → Planning → ErrorCode
refusal (move to actor reason now event_id) p =
    if is_empty (trim actor) || can_transition p.state to
    then invalid_argument
    else invalid_transition
refusal (edit content name actor now moved_id revised_id) p =
    if is_empty (trim actor)
    then invalid_argument
    else if is_approved p.state
    then approved_version_immutable
    else if is_revisable p.state
    then invalid_argument
    else invalid_transition
refusal (start_draft content source_hash actor reason now moved_id started_id) p =
    if is_empty (trim actor)
      || is_empty (trim source_hash)
      || is_empty (trim reason)
      || not (is_sha256_hex source_hash)
    then invalid_argument
    else invalid_transition

expected_of_refuses :
    (c : Command) (p : Planning)
    → accepts c p ≡ false
    → (code : ErrorCode) × (expected c p ≡ (p, threw (domain code)))
expected_of_refuses (move to actor reason now event_id) p h =
    (refusal (move to actor reason now event_id) p, ground arith)
expected_of_refuses (edit content name actor now moved_id revised_id) p h =
    (refusal (edit content name actor now moved_id revised_id) p, ground arith)
expected_of_refuses (start_draft content source_hash actor reason now moved_id started_id) p h =
    (refusal (start_draft content source_hash actor reason now moved_id started_id) p, ground arith)

-- A call on a valid aggregate that is accepted succeeds with `after`.
pub call_of_accepts :
    (c : Command) (p : Planning)
    → IsValid p
    → accepts c p ≡ true
    → call c p ≡ (after c p, returned tt)
call_of_accepts c p v h = call-expected c p v ∙ expected_of_accepts c p h

-- A call on a valid aggregate that is not accepted throws an error of the domain, never a
-- TypeError, and leaves the aggregate exactly as it was, though the methods change it step by step.
pub call_of_refuses :
    (c : Command) (p : Planning)
    → IsValid p
    → accepts c p ≡ false
    → (code : ErrorCode) × (call c p ≡ (p, threw (domain code)))
call_of_refuses c p v h =
    let (code, e) = expected_of_refuses c p h in (code, call-expected c p v ∙ e)

pub after-IsValid :
    (c : Command) (p : Planning) → IsValid p → accepts c p ≡ true → IsValid (after c p)
after-IsValid (move to actor reason now event_id) p v h =
    after_move-IsValid to actor now reason event_id p v (ground arith)
after-IsValid (edit content name actor now moved_id revised_id) p v h =
    after_revision-IsValid content (trim (or_else name p.name)) actor now moved_id revised_id p v
after-IsValid (start_draft content source_hash actor reason now moved_id started_id) p v h =
    after_draft-IsValid content source_hash actor reason now moved_id started_id p v

-- The rule for what every accepted call keeps, over the valid aggregates.
module _ {ℓ} (P : Planning → Type ℓ)
    (keep : (c : Command) (p : Planning)
      → IsValid p
      → accepts c p ≡ true
      → P p
      → P (after c p)) where
  call_keeps : (c : Command) (p : Planning) → IsValid p → P p → P (call c p).0
  call_keeps c p v h = elim (Bool-cases (accepts c p)) [
    | inl e ↦ rw (call_of_accepts c p v e) (keep c p v e h)
    | inr e ↦ let (code, same) = call_of_refuses c p v e in rw same h
  ]

pub call-IsValid : (c : Command) (p : Planning) → IsValid p → IsValid (call c p).0
call-IsValid c p v = call_keeps IsValid (λ d q w e _. after-IsValid d q w e) c p v v

module _ {ℓ} (P : Planning → Type ℓ)
    (keep : (c : Command) (p : Planning)
      → IsValid p
      → accepts c p ≡ true
      → P p
      → P (after c p)) where
  pub calls_keep : (cs : List Command) (p : Planning) → IsValid p → P p → P (calls cs p)
  unfolding calls
  calls_keep [] p v h = h
  calls_keep (c ∷ cs) p v h =
      calls_keep cs (call c p).0 (call-IsValid c p v) (call_keeps P keep c p v h)

pub calls-IsValid : (cs : List Command) (p : Planning) → IsValid p → IsValid (calls cs p)
calls-IsValid cs p v = calls_keep IsValid (λ d q w e _. after-IsValid d q w e) cs p v v
