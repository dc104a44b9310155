-- ===== src/Planning/Plan/Persisted.antt =====
-- Creating an aggregate, and storing it and reading it back (backend/planning/domain/planning.js).
use civitas.Prelude.{
  ℕ, ◌≡◌, refl, ◌⊎◌, inl, inr, true, false, List, [], ◌∷◌, String, arith, or_else,
}
use civitas.Prelude.Text.{trim, trim_idem, is_empty}
use civitas.Prelude.Json.{Value}
use civitas.Planning.Aggregate.{
  Planning, Failure, record_event, created, Outcome, returned, threw, required_value,
}
use civitas.Planning.Invariant.{
  IsValid, IsValid-events, assert_invariant-IsValid, assert_invariant_of_IsValid,
}
use civitas.Planning.Plan.{
  and_then, result, first_version, new_snapshot, Snapshot, restore, to_snapshot, create,
}
use civitas.Planning.Plan.Commands.{
  Command, move, edit, start_draft, accepts, after, calls, calls_keep, calls-IsValid,
}

-- The text fields hold what `required` gives back for them.
pub record IsTrimmed (p : Planning) : Type 0 where
  pub organization_kept : required_value p.organization_id ≡ returned p.organization_id
  pub id_kept : required_value p.id ≡ returned p.id
  pub profile_kept : required_value p.profile_id ≡ returned p.profile_id
  pub name_kept : required_value p.name ≡ returned p.name
  pub type_kept : required_value p.plan_type ≡ returned p.plan_type

-- What `required` returns it returns again.
required_value_idem : (s t : String) → required_value s ≡ returned t → required_value t ≡ returned t
unfolding required_value
required_value_idem s t h = ground (arith, trim_idem s)

required_value-trim :
    (s : String) → is_empty (trim s) ≡ false → required_value (trim s) ≡ returned (trim s)
unfolding required_value
required_value-trim s h = ground (arith, trim_idem s)

after-IsTrimmed :
    (c : Command) (p : Planning) → accepts c p ≡ true → IsTrimmed p → IsTrimmed (after c p)
after-IsTrimmed (move to actor reason now event_id) p e t = ground arith
after-IsTrimmed (edit content name actor now moved_id revised_id) p e t =
    ground (arith, required_value-trim (or_else name p.name))
after-IsTrimmed (start_draft content source_hash actor reason now moved_id started_id) p e t =
    ground arith

restore-to_snapshot :
    (p : Planning)
    → IsValid p
    → IsTrimmed p
    → restore (to_snapshot p) ≡ returned (record p { events = [] })
unfolding restore to_snapshot
restore-to_snapshot p v t =
    rw (t.organization_kept, t.id_kept, t.profile_kept, t.name_kept, t.type_kept)
      (rw (assert_invariant_of_IsValid _ (IsValid-events p [] v)))

and_then-eq-returned :
    {A B : Type 0} (m : Outcome A) (f : A → Outcome B) {b : B}
    → and_then m f ≡ returned b
    → (a : A) × (m ≡ returned a) × (f a ≡ returned b)
and_then-eq-returned (returned a) f h = (a, refl, h)
and_then-eq-returned (threw e) f h = cc

result-eq-returned :
    (s : Planning × Outcome (Unit {0})) {p : Planning}
    → result s ≡ returned p
    → s ≡ (p, returned tt)
result-eq-returned (q, returned _) h = ground arith
result-eq-returned (q, threw e) h = cc

-- What the constructor accepts meets the invariant, has trimmed fields and no events.
restore-IsValid :
    (s : Snapshot) (p : Planning)
    → restore s ≡ returned p
    → IsValid p × IsTrimmed p × (p.events ≡ []) × (p.versions ≡ s.versions)
unfolding restore
restore-IsValid s p h =
    let (organization_id, e₁, h₁) = and_then-eq-returned _ _ h in
    let (id, e₂, h₂) = and_then-eq-returned _ _ h₁ in
    let (profile_id, e₃, h₃) = and_then-eq-returned _ _ h₂ in
    let (name, e₄, h₄) = and_then-eq-returned _ _ h₃ in
    let (plan_type, e₅, h₅) = and_then-eq-returned _ _ h₄ in
    let (v, same) = assert_invariant-IsValid _ _ (result-eq-returned _ h₅) in
    rw same (
      v,
      record {
        organization_kept = required_value_idem s.organization_id organization_id e₁;
        id_kept = required_value_idem s.id id e₂;
        profile_kept = required_value_idem s.profile_id profile_id e₃;
        name_kept = required_value_idem s.name name e₄;
        type_kept = required_value_idem s.plan_type plan_type e₅;
      },
      refl,
      refl,
    )

Outcome-cases :
    {A : Type 0} (o : Outcome A) → ((a : A) × (o ≡ returned a)) ⊎ ((e : Failure) × (o ≡ threw e))
Outcome-cases (returned a) = inl (a, refl)
Outcome-cases (threw e) = inr (e, refl)

module _ (organization_id id profile_id name plan_type : String) (content : Value) (actor : String)
    (now : ℕ) (event_id : String) where
  create-eq-returned :
      (p : Planning)
      → create organization_id id profile_id name plan_type content actor now event_id ≡ returned p
      → (q : Planning) × (restore
            (new_snapshot organization_id id profile_id name plan_type content actor now)
          ≡ returned q)
        × (p ≡ record_event (created event_id actor q.updated_at 1) q)
  unfolding create
  create-eq-returned p h =
      elim (Outcome-cases
        (restore (new_snapshot organization_id id profile_id name plan_type content actor now))) [
          | inl (q, e) ↦ (q, e, ground arith)
          | inr (x, e) ↦ absurd (ground arith)
        ]

  -- What `create` returns meets the invariant, its text fields are trimmed, and it has one version,
  -- with the content and the creator that were given.
  pub create-IsValid :
      (p : Planning)
      → create organization_id id profile_id name plan_type content actor now event_id ≡ returned p
      → IsValid p × IsTrimmed p × (p.versions ≡ first_version content actor now ∷ [])
  unfolding new_snapshot
  create-IsValid p h =
      let (q, made, same) = create-eq-returned p h in
      let (v, t, _, versions) = restore-IsValid _ q made in
      rw same (
        IsValid-events q _ v,
        record {
          organization_kept = t.organization_kept;
          id_kept = t.id_kept;
          profile_kept = t.profile_kept;
          name_kept = t.name_kept;
          type_kept = t.type_kept;
        },
        versions,
      )

-- A plan that `create` made, after any calls of its methods, is read back from its snapshot as it
-- was, less the events that were not pulled.
pub restore-to_snapshot-calls :
    (organization_id id profile_id name plan_type : String) (content : Value) (actor : String)
    (now : ℕ) (event_id : String) (cs : List Command) (p : Planning)
    → create organization_id id profile_id name plan_type content actor now event_id ≡ returned p
    → restore (to_snapshot (calls cs p)) ≡ returned (record (calls cs p) { events = [] })
restore-to_snapshot-calls organization_id id profile_id name plan_type content actor now event_id cs
      p h =
    let (v, t, _) =
      create-IsValid organization_id id profile_id name plan_type content actor now event_id p h in
    restore-to_snapshot (calls cs p) (calls-IsValid cs p v)
      (calls_keep IsTrimmed (λ c q w e k. after-IsTrimmed c q e k) cs p v t)
