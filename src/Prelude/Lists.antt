-- ===== src/Prelude/Lists.antt =====
-- Lists measured by native numbers, and the array methods that the source calls.
use Prim.Native.Nat.{ℕ, suc, ◌+◌, ◌≤◌}
use mathlib.Core.Path.{◌≡◌, refl, sym, ap, ◌∙◌, subst}
use mathlib.Core.Bool.{Bool, true, false, not, ◌&&◌, ◌||◌}
use mathlib.Core.Logic.{◌⊎◌, inl, inr}
use mathlib.Core.List.{List, [], ◌∷◌, ◌++◌}
use mathlib.Core.Option.{Option, none, some}
use native.Mathlib.Omega.{arith}
use civitas.Prelude.Tests.{if◌then◌else◌, Bool-cases}

module _ {ℓ} {A : Type ℓ} where
  abbrev pub length : List A → ℕ
  length [] = 0
  length (x ∷ xs) = suc (length xs)

  pub length-append : (xs ys : List A) → length (xs ++ ys) ≡ length xs + length ys
  length-append [] ys = omega arith
  length-append (x ∷ xs) ys = omega (arith, length-append xs ys)

  -- Array.prototype.some, every, find and filter.
  unfoldable pub any : (A → Bool) → List A → Bool
  any p [] = false
  any p (x ∷ xs) = p x || any p xs

  unfoldable pub all : (A → Bool) → List A → Bool
  all p [] = true
  all p (x ∷ xs) = p x && all p xs

  unfoldable pub find : (A → Bool) → List A → Option A
  find p [] = none
  find p (x ∷ xs) = if p x then some x else find p xs

  unfoldable pub select : (A → Bool) → List A → List A
  select p [] = []
  select p (x ∷ xs) = let rest = select p xs in if p x then x ∷ rest else rest

  -- A change of the first element that passes the test, as through the reference that `find` gives.
  unfoldable pub update_first : (A → Bool) → (A → A) → List A → List A
  update_first p f [] = []
  update_first p f (x ∷ xs) = if p x then f x ∷ xs else x ∷ update_first p f xs

  abbrev pub is_nil : List A → Bool
  is_nil [] = true
  is_nil (x ∷ xs) = false

  pub is_nil-append : (xs ys : List A) → is_nil (xs ++ ys) ≡ (is_nil xs && is_nil ys)
  is_nil-append [] ys = refl
  is_nil-append (x ∷ xs) ys = refl

  pub is_nil-select : (p : A → Bool) (xs : List A) → is_nil (select p xs) ≡ not (any p xs)
  unfolding select any
  is_nil-select p [] = refl
  is_nil-select p (x ∷ xs) = elim (Bool-cases (p x)) [
    | inl e ↦ rw e refl
    | inr e ↦ rw e (is_nil-select p xs)
  ]

  pub any-append : (p : A → Bool) (xs ys : List A) → any p (xs ++ ys) ≡ (any p xs || any p ys)
  unfolding any
  any-append p [] ys = refl
  any-append p (x ∷ xs) ys = ground (arith, any-append p xs ys)

  pub select-append :
      (p : A → Bool) (xs ys : List A) → select p (xs ++ ys) ≡ select p xs ++ select p ys
  unfolding select
  select-append p [] ys = refl
  select-append p (x ∷ xs) ys = ground (arith, select-append p xs ys)

  pub length-select-le : (p : A → Bool) (xs : List A) → length (select p xs) ≤ length xs
  unfolding select
  length-select-le p [] = omega arith
  length-select-le p (x ∷ xs) = ground (arith, length-select-le p xs)

  -- A change of a last element that alone passes the test.
  pub update_first-snoc :
      (p : A → Bool) (f : A → A) (xs : List A) (x : A)
      → any p xs ≡ false
      → p x ≡ true
      → update_first p f (xs ++ x ∷ []) ≡ xs ++ f x ∷ []
  unfolding update_first any
  update_first-snoc p f [] x h e = rw e
  update_first-snoc p f (y ∷ xs) x h e = ground (arith, update_first-snoc p f xs x)

  pub any-snoc : (p : A → Bool) (xs : List A) (x : A) → p x ≡ true → any p (xs ++ x ∷ []) ≡ true
  unfolding any
  any-snoc p [] x e = rw e
  any-snoc p (y ∷ xs) x e = ground (arith, any-snoc p xs x e)

  pub length-update_first :
      (p : A → Bool) (f : A → A) (xs : List A) → length (update_first p f xs) ≡ length xs
  unfolding update_first
  length-update_first p f [] = refl
  length-update_first p f (x ∷ xs) = ground (arith, length-update_first p f xs)

module _ {ℓ} {A : Type ℓ} where
  pub find_of_any : (p : A → Bool) (xs : List A) → any p xs ≡ true → (x : A) × (find p xs ≡ some x)
  unfolding any find
  find_of_any p [] h = cc
  find_of_any p (x ∷ xs) h = elim (Bool-cases (p x)) [
    | inl e ↦ (x, rw e)
    | inr e ↦ rw e (find_of_any p xs (ground arith))
  ]

-- A predicate on every element, by recursion, so that the tactics read its parts.
abbrev pub All {ℓ κ} : {A : Type ℓ} → (A → Type κ) → List A → Type κ
All P [] = Unit
All P (x ∷ xs) = P x × All P xs

pub All-append {ℓ κ} :
    {A : Type ℓ} (P : A → Type κ) (xs ys : List A) → All P xs → All P ys → All P (xs ++ ys)
All-append P [] ys h k = k
All-append P (x ∷ xs) ys (p, h) k = (p, All-append P xs ys h k)

abbrev pub of_option : {B : Type 0} → Option B → List B
of_option none = []
of_option (some b) = b ∷ []

-- `flatMap`, and a loop that pushes at most one element for each.
module _ {A B : Type 0} where
  unfoldable pub flat_map : (A → List B) → List A → List B
  flat_map f [] = []
  flat_map f (x ∷ xs) = f x ++ flat_map f xs

  unfoldable pub collect : (A → Option B) → List A → List B
  collect f [] = []
  collect f (x ∷ xs) = of_option (f x) ++ collect f xs

  pub All-flat_map :
      (P : B → Type 0) (f : A → List B) (xs : List A)
      → ((x : A) → All P (f x))
      → All P (flat_map f xs)
  unfolding flat_map
  All-flat_map P f [] h = tt
  All-flat_map P f (x ∷ xs) h = All-append P (f x) (flat_map f xs) (h x) (All-flat_map P f xs h)

  pub All-collect :
      (P : B → Type 0) (f : A → Option B) (xs : List A)
      → ((x : A) → All P (of_option (f x)))
      → All P (collect f xs)
  unfolding collect
  All-collect P f [] h = tt
  All-collect P f (x ∷ xs) h =
      All-append P (of_option (f x)) (collect f xs) (h x) (All-collect P f xs h)

-- A stable sort by a comparison.
module _ {A : Type 0} (le : A → A → Bool) where
  unfoldable pub insert_by : A → List A → List A
  insert_by x [] = x ∷ []
  insert_by x (y ∷ ys) = let rest = insert_by x ys in if le x y then x ∷ y ∷ ys else y ∷ rest

  unfoldable pub sort_by : List A → List A
  unfolding insert_by
  sort_by [] = []
  sort_by (x ∷ xs) = insert_by x (sort_by xs)

  All-insert_by : (P : A → Type 0) (x : A) (ys : List A) → P x → All P ys → All P (insert_by x ys)
  unfolding insert_by
  All-insert_by P x [] p h = (p, tt)
  All-insert_by P x (y ∷ ys) p (q, h) = elim (Bool-cases (le x y)) [
    | inl e ↦ rw e (p, (q, h))
    | inr e ↦ rw e (q, All-insert_by P x ys p h)
  ]

  pub All-sort_by : (P : A → Type 0) (xs : List A) → All P xs → All P (sort_by xs)
  unfolding sort_by
  All-sort_by P [] h = tt
  All-sort_by P (x ∷ xs) (p, h) = All-insert_by P x (sort_by xs) p (All-sort_by P xs h)

-- To be one of a list's elements.
abbrev pub Among : {A : Type 0} → A → List A → Type 0
Among a [] = ⊥
Among a (x ∷ xs) = (x ≡ a) ⊎ Among a xs

module _ {A : Type 0} where
  pub Among-left : (a : A) (xs ys : List A) → Among a xs → Among a (xs ++ ys)
  Among-left a [] ys h = elim h [ ]
  Among-left a (x ∷ xs) ys (inl e) = inl e
  Among-left a (x ∷ xs) ys (inr h) = inr (Among-left a xs ys h)

  pub Among-right : (a : A) (xs ys : List A) → Among a ys → Among a (xs ++ ys)
  Among-right a [] ys h = h
  Among-right a (x ∷ xs) ys h = inr (Among-right a xs ys h)

  pub Among-insert_by :
      (le : A → A → Bool) (a x : A) (ys : List A)
      → (x ≡ a) ⊎ Among a ys
      → Among a (insert_by le x ys)
  unfolding insert_by
  Among-insert_by le a x [] h = h
  Among-insert_by le a x (y ∷ ys) h = elim (Bool-cases (le x y)) [
    | inl e ↦ rw e h
    | inr e ↦ rw e (elim h [
      | inl same ↦ inr (Among-insert_by le a x ys (inl same))
      | inr (inl same) ↦ inl same
      | inr (inr there) ↦ inr (Among-insert_by le a x ys (inr there))
    ])
  ]

  pub Among-sort_by :
      (le : A → A → Bool) (a : A) (xs : List A) → Among a xs → Among a (sort_by le xs)
  unfolding sort_by
  Among-sort_by le a [] h = elim h [ ]
  Among-sort_by le a (x ∷ xs) (inl e) = Among-insert_by le a x (sort_by le xs) (inl e)
  Among-sort_by le a (x ∷ xs) (inr h) =
      Among-insert_by le a x (sort_by le xs) (inr (Among-sort_by le a xs h))

module _ {A B : Type 0} where
  pub Among-flat_map :
      (f : A → List B) (b : B) (x : A) (xs : List A)
      → Among x xs
      → Among b (f x)
      → Among b (flat_map f xs)
  unfolding flat_map
  Among-flat_map f b x [] h k = elim h [ ]
  Among-flat_map f b x (y ∷ ys) (inl e) k =
      Among-left b (f y) (flat_map f ys) (subst (λ z. Among b (f z)) (sym e) k)
  Among-flat_map f b x (y ∷ ys) (inr h) k =
      Among-right b (f y) (flat_map f ys) (Among-flat_map f b x ys h k)

  pub Among-collect :
      (f : A → Option B) (b : B) (x : A) (xs : List A)
      → Among x xs
      → f x ≡ some b
      → Among b (collect f xs)
  unfolding collect
  Among-collect f b x [] h k = elim h [ ]
  Among-collect f b x (y ∷ ys) (inl e) k = rw (ap f e ∙ k) (inl refl)
  Among-collect f b x (y ∷ ys) (inr h) k =
      Among-right b (of_option (f y)) (collect f ys) (Among-collect f b x ys h k)
