-- ===== src/Planning/Plan/History.antt =====
-- What a sequence of calls on an aggregate of backend/planning/domain/planning.js keeps: the
-- versions that are there, the diagram of the states, and the meaning of the revision.
use civitas.Prelude.{
  ℕ, ◌≤◌, ◌<◌, ◌≡◌, ◌≢◌, refl, inl, inr, Bool, true, false, List, [], ◌∷◌, ◌++◌, String,
  update_first, arith, Bool-cases,
}
use civitas.Planning.States.{
  PlanningState, draft, approved, archived, changes_requested, can_transition, ◌⟶◌,
  can_transition-⟶, reopen, restart,
}
use civitas.Planning.Aggregate.{Version, Planning, has_number}
use civitas.Planning.Invariant.{IsValid}
use civitas.Planning.Plan.{approve_version, is_approved, is_revisable}
use civitas.Planning.Plan.Commands.{
  Command, move, edit, start_draft, accepts, after, calls, calls-nil, calls-cons, after-IsValid,
  calls_keep, call_of_accepts, call_of_refuses,
}

-- All of a version but its state and its approval.
pub record Kept (v w : Version) : Type 0 where
  pub same_number : v.version ≡ w.version
  pub same_content : v.content ≡ w.content
  pub same_creator : v.created_by ≡ w.created_by
  pub same_date : v.created_at ≡ w.created_at
  pub same_source : v.source ≡ w.source

-- A list of versions that has another one's versions at its front.
abbrev pub Extends : List Version → List Version → Type 0
Extends [] ws = Unit
Extends (v ∷ vs) [] = ⊥
Extends (v ∷ vs) (w ∷ ws) = Kept v w × Extends vs ws

Kept-refl : (v : Version) → Kept v v
Kept-refl v = record {
  same_number = refl;
  same_content = refl;
  same_creator = refl;
  same_date = refl;
  same_source = refl;
}

Kept-trans : (u v w : Version) → Kept u v → Kept v w → Kept u w
Kept-trans u v w h k = ground arith

Extends-refl : (vs : List Version) → Extends vs vs
Extends-refl [] = tt
Extends-refl (v ∷ vs) = (Kept-refl v, Extends-refl vs)

Extends-trans : (us vs ws : List Version) → Extends us vs → Extends vs ws → Extends us ws
Extends-trans [] vs ws h k = tt
Extends-trans (u ∷ us) [] ws h k = absurd h
Extends-trans (u ∷ us) (v ∷ vs) [] h k = absurd k
Extends-trans (u ∷ us) (v ∷ vs) (w ∷ ws) (p, h) (q, k) =
    (Kept-trans u v w p q, Extends-trans us vs ws h k)

Extends-append : (vs ws : List Version) → Extends vs (vs ++ ws)
Extends-append [] ws = tt
Extends-append (v ∷ vs) ws = (Kept-refl v, Extends-append vs ws)

Extends-update_first :
    (test : Version → Bool) (actor : String) (now : ℕ) (vs : List Version)
    → Extends vs (update_first test (approve_version actor now) vs)
unfolding update_first
Extends-update_first test actor now [] = tt
Extends-update_first test actor now (v ∷ vs) = elim (Bool-cases (test v)) [
  | inl e ↦ rw e (
    record {
      same_number = refl;
      same_content = refl;
      same_creator = refl;
      same_date = refl;
      same_source = refl;
    },
    Extends-refl vs,
  )
  | inr e ↦ rw e (Kept-refl v, Extends-update_first test actor now vs)
]

after-Extends : (c : Command) (p : Planning) → Extends p.versions (after c p).versions
after-Extends (move to actor reason now event_id) p = elim (Bool-cases (is_approved to)) [
  | inl e ↦ rw e (Extends-update_first (has_number p.current_version) actor now p.versions)
  | inr e ↦ rw e (Extends-refl p.versions)
]
after-Extends (edit content name actor now moved_id revised_id) p = Extends-append p.versions _
after-Extends (start_draft content source_hash actor reason now moved_id started_id) p =
    Extends-append p.versions _

-- Whatever methods are called on a valid aggregate, in any order and with any arguments, the
-- versions that it has stay in their places: none is removed, and none changes its number, content,
-- creator, date of creation or source.
pub calls-Extends :
    (cs : List Command) (p : Planning) → IsValid p → Extends p.versions (calls cs p).versions
calls-Extends cs p v =
    calls_keep (λ q. Extends p.versions q.versions)
      (λ c q w e h. Extends-trans p.versions q.versions (after c q).versions h (after-Extends c q))
      cs p v (Extends-refl p.versions)

infix 40 ◌⟶*◌
pub data ◌⟶*◌ (s : PlanningState) : PlanningState → Type 0 where
  start : s ⟶* s
  then : {t u : PlanningState} → s ⟶* t → t ⟶ u → s ⟶* u

reopened : (s t : PlanningState) → is_revisable t ≡ true → s ⟶* t → s ⟶* draft
reopened s draft e h = h
reopened s changes_requested e h = then h reopen
reopened s _ e h = cc

restarted : (s t : PlanningState) → is_approved t ≡ true → s ⟶* t → s ⟶* draft
restarted s approved e h = then h restart
restarted s _ e h = cc

after-⟶* :
    (s : PlanningState) (c : Command) (p : Planning)
    → accepts c p ≡ true
    → s ⟶* p.state
    → s ⟶* (after c p).state
after-⟶* s (move to actor reason now event_id) p e h =
    then h (can_transition-⟶ p.state to (ground arith))
after-⟶* s (edit content name actor now moved_id revised_id) p e h =
    reopened s p.state (ground arith) h
after-⟶* s (start_draft content source_hash actor reason now moved_id started_id) p e h =
    restarted s p.state (ground arith) h

-- Whatever methods are called on a valid aggregate, its state has moved along edges of the diagram
-- of stateMachine.js only.
pub calls-⟶* : (cs : List Command) (p : Planning) → IsValid p → p.state ⟶* (calls cs p).state
calls-⟶* cs p v =
    calls_keep (λ q. p.state ⟶* q.state) (λ c q w e h. after-⟶* p.state c q e h) cs p v start

archived_refuses : (c : Command) (p : Planning) → p.state ≡ archived → accepts c p ≡ false
unfolding can_transition
archived_refuses (move to actor reason now event_id) p e = ground arith
archived_refuses (edit content name actor now moved_id revised_id) p e = ground arith
archived_refuses (start_draft content source_hash actor reason now moved_id started_id) p e =
    ground arith

-- An archived plan is final: no sequence of calls changes anything of it.
pub calls-archived :
    (cs : List Command) (p : Planning) → IsValid p → p.state ≡ archived → calls cs p ≡ p
calls-archived [] p v e = calls-nil p
calls-archived (c ∷ cs) p v e =
    let (code, same) = call_of_refuses c p v (archived_refuses c p e) in
    rw (calls-cons c cs p, same) (calls-archived cs p v e)

after_revision-lt : (c : Command) (p : Planning) → p.revision < (after c p).revision
after_revision-lt (move to actor reason now event_id) p = omega arith
after_revision-lt (edit content name actor now moved_id revised_id) p = ground arith
after_revision-lt (start_draft content source_hash actor reason now moved_id started_id) p =
    omega arith

calls-revision_le :
    (cs : List Command) (p : Planning) → IsValid p → p.revision ≤ (calls cs p).revision
calls-revision_le cs p v =
    calls_keep (λ q. p.revision ≤ q.revision) (λ c q w e h. omega (arith, after_revision-lt c q)) cs
      p v (omega arith)

revision_moved :
    (c : Command) (cs : List Command) (p : Planning)
    → IsValid p
    → accepts c p ≡ true
    → (calls (c ∷ cs) p).revision ≢ p.revision
revision_moved c cs p v accepted e =
    let same = call_of_accepts c p v accepted in
    let e' = rw (calls-cons c cs p, same) at e in
    omega (
      arith,
      e',
      after_revision-lt c p,
      calls-revision_le cs (after c p) (after-IsValid c p v accepted),
    )

-- The revision tells the contents of the aggregate apart, as optimistic locking takes for granted:
-- if it is the same after a sequence of calls on a valid aggregate, the aggregate is the same.
pub calls-same_revision :
    (cs : List Command) (p : Planning)
    → IsValid p
    → (calls cs p).revision ≡ p.revision
    → calls cs p ≡ p
calls-same_revision [] p v e = calls-nil p
calls-same_revision (c ∷ cs) p v e = elim (Bool-cases (accepts c p)) [
  | inl accepted ↦ absurd (revision_moved c cs p v accepted e)
  | inr refused ↦
      let (code, same) = call_of_refuses c p v refused in
      rw (calls-cons c cs p, same) (calls-same_revision cs p v (rw (calls-cons c cs p, same) at e))
]
