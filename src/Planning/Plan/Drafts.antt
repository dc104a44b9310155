-- ===== src/Planning/Plan/Drafts.antt =====
-- The methods `revise` and `draftFromApproved` as equations on a valid aggregate
-- (backend/planning/domain/planning.js).
use civitas.Prelude.{
  ℕ, ◌+◌, ◌≡◌, refl, inl, inr, not, ◌&&◌, ◌||◌, Option, none, some, [], ◌∷◌, ◌++◌, String, find,
  if◌then◌else◌, arith, Bool-cases, or_else, find_of_any,
}
use civitas.Prelude.Text.{trim, is_empty, is_sha256_hex}
use civitas.Prelude.Json.{Value, null, is_plain_object, is_null}
use civitas.Planning.States.{
  draft, can_transition, invalid_argument, invalid_transition, approved_version_immutable,
}
use civitas.Planning.Aggregate.{
  Source, moved, revised, draft_started, Planning, Outcome, returned, threw, domain, has_number,
  required_value,
}
use civitas.Planning.Invariant.{
  IsValid, IsValid-renamed, IsValid-pushed, any_current, assert_invariant_of_IsValid,
}
use civitas.Planning.Plan.{
  is_approved, is_revisable, is_changes_requested, revise, push_version, draft_from_approved,
}
use civitas.Planning.Plan.Moves.{transition_step_lem}

-- The aggregate after a revision: one that was sent back is a draft again first.
abbrev pub after_revision : Value → String → String → ℕ → String → String → Planning → Planning
after_revision content name actor now moved_id revised_id p =
    let sent_back = is_changes_requested p.state in
    record (push_version content actor now none p) {
      name = name;
      state = draft;
      revision = if sent_back then p.revision + 1 + 1 else p.revision + 1;
      events =
          (if sent_back
            then p.events ++ moved moved_id actor now p.state draft p.current_version none ∷ []
            else p.events)
          ++ revised revised_id actor now (p.current_version + 1) ∷ [];
    }

abbrev pub revises_to :
    Value → Option String → String → ℕ → String → String → Planning → Planning × Outcome (Unit {0})
revises_to content name actor now moved_id revised_id p =
    if is_empty (trim actor)
    then (p, threw (domain invalid_argument))
    else if is_approved p.state
    then (p, threw (domain approved_version_immutable))
    else if is_revisable p.state
    then if is_plain_object content && not (is_empty (trim (or_else name p.name)))
      then (
        after_revision content (trim (or_else name p.name)) actor now moved_id revised_id p,
        returned tt,
      )
      else (p, threw (domain invalid_argument))
    else (p, threw (domain invalid_transition))

pub after_revision-IsValid :
    (content : Value) (name actor : String) (now : ℕ) (moved_id revised_id : String) (p : Planning)
    → IsValid p
    → IsValid (after_revision content name actor now moved_id revised_id p)
after_revision-IsValid content name actor now moved_id revised_id p v =
    IsValid-pushed p _ now _ name _ v refl (ground arith)

-- On a valid aggregate `revise` makes its checks in this order, and leaves the aggregate as it was
-- when one fails; otherwise it appends one version, and changes nothing else but the name, the
-- state, the counters, the date and the events.
pub revise_lem :
    (content : Value) (name : Option String) (actor : String) (now : ℕ)
    (moved_id revised_id : String) (p : Planning)
    → IsValid p
    → revise content name actor now moved_id revised_id p
      ≡ revises_to content name actor now moved_id revised_id p
unfolding revise required_value can_transition
revise_lem content name actor now moved_id revised_id p v =
    let renamed = record p { name = trim (or_else name p.name) } in
    let kept = assert_invariant_of_IsValid _ (
      after_revision-IsValid content (trim (or_else name p.name)) actor now moved_id revised_id p
        v) in
    let step = transition_step_lem draft actor now none moved_id renamed (IsValid-renamed p _ v) in
    elim (Bool-cases (is_empty (trim actor))) [
      | inl e ↦ rw e
      | inr e ↦ rw e (elim (Bool-cases (is_empty (trim (or_else name p.name)))) [
        | inl b ↦ rw b (ground arith)
        | inr b ↦ rw b (ground (arith, kept, step))
      ])
    ]

-- The content of the current version.
abbrev pub current_content : Planning → Value
current_content p = elim (find (has_number p.current_version) p.versions) [
  | none ↦ null
  | some v ↦ v.content
]

-- The aggregate after a draft is started from its approved version.
abbrev pub after_draft :
    Value → String → String → String → ℕ → String → String → Planning → Planning
after_draft content source_hash actor reason now moved_id started_id p =
    let source : Source = record {
      source_version = p.current_version;
      source_hash = source_hash;
      source_actor = actor;
      source_at = now;
      source_reason = some reason;
    } in
    let body : Value = if is_null content then current_content p else content in
    record (push_version body actor now (some source) p) {
      state = draft;
      revision = p.revision + 1 + 1;
      events =
          (p.events ++ moved moved_id actor now p.state draft p.current_version (some reason) ∷ [])
          ++ draft_started started_id actor now (p.current_version + 1) p.current_version
              source_hash reason
            ∷ [];
    }

abbrev pub starts_draft :
    Value
    → String
    → String
    → String
    → ℕ
    → String
    → String
    → Planning
    → Planning × Outcome (Unit {0})
starts_draft content source_hash actor reason now moved_id started_id p =
    if is_empty (trim actor) || is_empty (trim source_hash) || is_empty (trim reason)
    then (p, threw (domain invalid_argument))
    else if is_sha256_hex source_hash
    then if is_approved p.state
      then (after_draft content source_hash actor reason now moved_id started_id p, returned tt)
      else (p, threw (domain invalid_transition))
    else (p, threw (domain invalid_argument))

pub after_draft-IsValid :
    (content : Value) (source_hash actor reason : String) (now : ℕ) (moved_id started_id : String)
    (p : Planning)
    → IsValid p
    → IsValid (after_draft content source_hash actor reason now moved_id started_id p)
after_draft-IsValid content source_hash actor reason now moved_id started_id p v =
    IsValid-pushed p _ now _ p.name _ v refl (omega arith)

-- On a valid aggregate `draftFromApproved` requires an actor, a digest and a reason, and an approved
-- state; it leaves the aggregate as it was when a check fails, and otherwise appends one version
-- that names its source, whose content is that of the approved version where none is given.
pub draft_from_approved_lem :
    (content : Value) (source_hash actor reason : String) (now : ℕ) (moved_id started_id : String)
    (p : Planning)
    → IsValid p
    → draft_from_approved content source_hash actor reason now moved_id started_id p
      ≡ starts_draft content source_hash actor reason now moved_id started_id p
unfolding draft_from_approved required_value can_transition
draft_from_approved_lem content source_hash actor reason now moved_id started_id p v =
    let kept =
      assert_invariant_of_IsValid _
        (after_draft-IsValid content source_hash actor reason now moved_id started_id p v) in
    let step = transition_step_lem draft actor now (some reason) moved_id p v in
    let (w, found) = find_of_any (has_number p.current_version) p.versions (any_current p v) in
    elim (Bool-cases (is_empty (trim actor))) [
      | inl e ↦ rw e
      | inr e ↦ rw e (elim (Bool-cases (is_empty (trim source_hash))) [
        | inl b ↦ rw b
        | inr b ↦ rw b (elim (Bool-cases (is_empty (trim reason))) [
          | inl c ↦ rw c
          | inr c ↦ rw c (ground (arith, kept, step, found))
        ])
      ])
    ]
