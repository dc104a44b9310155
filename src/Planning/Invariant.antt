-- ===== src/Planning/Invariant.antt =====
-- The invariant that `#assertInvariant` of backend/planning/domain/planning.js tests, and the
-- changes of an aggregate that keep it.
use civitas.Prelude.{
  ℕ, ◌+◌, ◌≤◌, ◌≡◌, refl, ap, true, List, [], ◌∷◌, ◌++◌, String, length-append, length-update_first,
  any, update_first, arith,
}
use civitas.Planning.States.{PlanningState, draft, is_planning_state}
use civitas.Planning.Numbers.{are_versions, are_versions-snoc}
use civitas.Planning.Aggregate.{
  Version, Event, Planning, returned, has_number, numbers, has_shape, assert_invariant,
}

pub record IsValid (p : Planning) : Type 0 where
  pub shaped : has_shape p ≡ true
  pub numbered : are_versions p.current_version (numbers p.versions) ≡ true

pub assert_invariant_of_IsValid : (p : Planning) → IsValid p → assert_invariant p ≡ (p, returned tt)
unfolding assert_invariant
assert_invariant_of_IsValid p v = ground arith

pub assert_invariant-IsValid :
    (p q : Planning) → assert_invariant p ≡ (q, returned tt) → IsValid p × (q ≡ p)
unfolding assert_invariant
assert_invariant-IsValid p q h = ground arith

-- A change of the fields of a version that keeps its number.
module _ (n : ℕ) (f : Version → Version) (same : (v : Version) → (f v).version ≡ v.version) where
  numbers-update_first :
      (vs : List Version) → numbers (update_first (has_number n) f vs) ≡ numbers vs
  unfolding update_first
  numbers-update_first [] = refl
  numbers-update_first (v ∷ vs) = ground (arith, same v, numbers-update_first vs)

  any-update_first :
      (vs : List Version)
      → any (has_number n) (update_first (has_number n) f vs) ≡ any (has_number n) vs
  unfolding update_first any
  any-update_first [] = refl
  any-update_first (v ∷ vs) = ground (arith, same v, any-update_first vs)

  -- A version is changed, and the state is another known one.
  pub IsValid-update_first :
      (p : Planning) (to : PlanningState) (now : ℕ) (events : List Event)
      → IsValid p
      → p.current_version ≡ n
      → is_planning_state to ≡ true
      → IsValid (record p {
        state = to;
        revision = p.revision + 1;
        updated_at = now;
        versions = update_first (has_number n) f p.versions;
        events = events;
      })
  unfolding has_shape
  IsValid-update_first p to now events v e known = record {
    shaped = ground (
      arith,
      v.shaped,
      length-update_first (has_number n) f p.versions,
      any-update_first p.versions,
    );
    numbered = rw (numbers-update_first p.versions) v.numbered;
  }

-- Only the state and what the checks do not read are changed.
pub IsValid-moved :
    (p : Planning) (to : PlanningState) (now : ℕ) (name : String) (events : List Event)
    → IsValid p
    → is_planning_state to ≡ true
    → IsValid (record p {
      name = name;
      state = to;
      revision = p.revision + 1;
      updated_at = now;
      events = events;
    })
unfolding has_shape
IsValid-moved p to now name events v known = record {
  shaped = ground (arith, v.shaped);
  numbered = v.numbered;
}

numbers-append : (vs ws : List Version) → numbers (vs ++ ws) ≡ numbers vs ++ numbers ws
numbers-append [] ws = refl
numbers-append (v ∷ vs) ws = ap (λ xs. v.version ∷ xs) (numbers-append vs ws)

any-push :
    (n : ℕ) (vs : List Version) (v : Version)
    → v.version ≡ n
    → any (has_number n) (vs ++ v ∷ []) ≡ true
unfolding any
any-push n [] v e = ground arith
any-push n (w ∷ vs) v e = ground (arith, any-push n vs v e)

-- A version with the next number is pushed.
pub IsValid-pushed :
    (p : Planning) (v : Version) (now revision : ℕ) (name : String) (events : List Event)
    → IsValid p
    → v.version ≡ p.current_version + 1
    → 1 ≤ revision
    → IsValid (record p {
      name = name;
      state = draft;
      current_version = p.current_version + 1;
      revision = revision;
      updated_at = now;
      versions = p.versions ++ v ∷ [];
      events = events;
    })
unfolding has_shape
IsValid-pushed p v now revision name events valid e positive = record {
  shaped = ground (
    arith,
    valid.shaped,
    positive,
    length-append p.versions (v ∷ []),
    any-push (p.current_version + 1) p.versions v e,
  );
  numbered =
      rw (numbers-append p.versions (v ∷ []), e)
        (are_versions-snoc p.current_version (numbers p.versions) valid.numbered);
}

-- The versions of a valid aggregate, and the current one among them.
pub any_current : (p : Planning) → IsValid p → any (has_number p.current_version) p.versions ≡ true
unfolding has_shape
any_current p v = ground (arith, v.shaped)

pub IsValid-renamed :
    (p : Planning) (name : String) → IsValid p → IsValid (record p { name = name })
unfolding has_shape
IsValid-renamed p name v = record { shaped = v.shaped; numbered = v.numbered }

pub IsValid-events :
    (p : Planning) (events : List Event) → IsValid p → IsValid (record p { events = events })
unfolding has_shape
IsValid-events p events v = record { shaped = v.shaped; numbered = v.numbered }
