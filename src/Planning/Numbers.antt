-- ===== src/Planning/Numbers.antt =====
-- The checks of `#assertInvariant` on the version numbers (backend/planning/domain/planning.js):
-- unique, contiguous from 1, and the current version is the last.
use civitas.Prelude.{
  ℕ, suc, ◌+◌, ◌≤◌, ◌<◌, max, ◌≡◌, refl, ◌∙◌, Bool, true, false, not, ◌&&◌, ◌||◌, List, [], ◌∷◌,
  ◌++◌, length, length-append, All, leb, ◌==◌, if◌then◌else◌, arith,
}

-- `new Set(numbers)`, as the list of its members in the order of insertion.
contains : List ℕ → ℕ → Bool
contains [] x = false
contains (y ∷ ys) x = y == x || contains ys x

set_add : List ℕ → ℕ → List ℕ
unfolding contains
set_add members x = if contains members x then members else members ++ x ∷ []

set_from : List ℕ → List ℕ → List ℕ
unfolding set_add
set_from members [] = members
set_from members (x ∷ xs) = set_from (set_add members x) xs

-- `Math.max(...numbers)` of numbers that are not negative.
maximum : List ℕ → ℕ
maximum [] = 0
maximum (x ∷ xs) = max x (maximum xs)

-- `[...numbers].sort((a, b) => a - b)`
insert : ℕ → List ℕ → List ℕ
insert x [] = x ∷ []
insert x (y ∷ ys) = if leb x y then x ∷ y ∷ ys else y ∷ insert x ys

sort : List ℕ → List ℕ
sort [] = []
sort (x ∷ xs) = insert x (sort xs)

-- `.some((number, index) => number !== index + 1)`, from an index on.
has_gap : ℕ → List ℕ → Bool
has_gap i [] = false
has_gap i (x ∷ xs) = not (x == i + 1) || has_gap (i + 1) xs

unfoldable pub are_versions : ℕ → List ℕ → Bool
unfolding set_from maximum insert sort has_gap
are_versions current numbers =
    length (set_from [] numbers) == length numbers
    && maximum numbers == current
    && not (has_gap 0 (sort numbers))

-- A number above all others goes to the end of the sorted list.
insert-snoc : (x y : ℕ) (xs : List ℕ) → x ≤ y → insert x (xs ++ y ∷ []) ≡ insert x xs ++ y ∷ []
unfolding insert
insert-snoc x y [] h = ground arith
insert-snoc x y (z ∷ xs) h = ground (arith, insert-snoc x y xs h)

sort-snoc : (y : ℕ) (xs : List ℕ) → All (λ x. x ≤ y) xs → sort (xs ++ y ∷ []) ≡ sort xs ++ y ∷ []
unfolding sort insert
sort-snoc y [] h = refl
sort-snoc y (x ∷ xs) (p, h) = rw (sort-snoc y xs h) (insert-snoc x y (sort xs) p)

length-insert : (x : ℕ) (xs : List ℕ) → length (insert x xs) ≡ suc (length xs)
unfolding insert
length-insert x [] = refl
length-insert x (y ∷ ys) = ground (arith, length-insert x ys)

length-sort : (xs : List ℕ) → length (sort xs) ≡ length xs
unfolding sort
length-sort [] = refl
length-sort (x ∷ xs) = omega (arith, length-insert x (sort xs), length-sort xs)

maximum-insert : (x : ℕ) (xs : List ℕ) → maximum (insert x xs) ≡ max x (maximum xs)
unfolding insert maximum
maximum-insert x [] = refl
maximum-insert x (y ∷ ys) = ground (arith, maximum-insert x ys)

maximum-sort : (xs : List ℕ) → maximum (sort xs) ≡ maximum xs
unfolding sort maximum
maximum-sort [] = refl
maximum-sort (x ∷ xs) = omega (arith, maximum-insert x (sort xs), maximum-sort xs)

maximum-snoc : (y : ℕ) (xs : List ℕ) → maximum (xs ++ y ∷ []) ≡ max (maximum xs) y
unfolding maximum
maximum-snoc y [] = omega arith
maximum-snoc y (x ∷ xs) = omega (arith, maximum-snoc y xs)

le-maximum : (xs : List ℕ) (c : ℕ) → maximum xs ≤ c → All (λ x. x ≤ c) xs
unfolding maximum
le-maximum [] c h = tt
le-maximum (x ∷ xs) c h = (omega arith, le-maximum xs c (omega arith))

-- With no gap the numbers are as many as the last one says.
maximum_of_no_gap :
    (i : ℕ) (x : ℕ) (xs : List ℕ)
    → has_gap i (x ∷ xs) ≡ false
    → maximum (x ∷ xs) ≡ i + suc (length xs)
unfolding has_gap maximum
maximum_of_no_gap i x [] h = ground arith
maximum_of_no_gap i x (y ∷ ys) h = ground (arith, maximum_of_no_gap (i + 1) y ys)

length_of_no_gap : (xs : List ℕ) → has_gap 0 xs ≡ false → maximum xs ≡ length xs
length_of_no_gap [] h = unfold maximum in refl
length_of_no_gap (x ∷ xs) h = omega (arith, maximum_of_no_gap 0 x xs h)

has_gap-snoc :
    (i : ℕ) (xs : List ℕ) (y : ℕ) → y ≡ i + length xs + 1 → has_gap i (xs ++ y ∷ []) ≡ has_gap i xs
unfolding has_gap
has_gap-snoc i [] y h = ground arith
has_gap-snoc i (x ∷ xs) y h = ground (arith, has_gap-snoc (i + 1) xs y)

contains-append :
    (xs ys : List ℕ) (x : ℕ) → contains (xs ++ ys) x ≡ (contains xs x || contains ys x)
unfolding contains
contains-append [] ys x = refl
contains-append (y ∷ xs) ys x = ground (arith, contains-append xs ys x)

set_from-append :
    (members xs ys : List ℕ) → set_from members (xs ++ ys) ≡ set_from (set_from members xs) ys
unfolding set_from
set_from-append members [] ys = refl
set_from-append members (x ∷ xs) ys = set_from-append (set_add members x) xs ys

abbrev Below : ℕ → List ℕ → Type 0
Below c xs = All (λ x. x ≤ c) xs

Below-snoc : (c x : ℕ) (xs : List ℕ) → Below c xs → x ≤ c → Below c (xs ++ x ∷ [])
Below-snoc c x [] h p = (p, tt)
Below-snoc c x (y ∷ xs) (q, h) p = (q, Below-snoc c x xs h p)

set_add-Below : (c x : ℕ) (members : List ℕ) → Below c members → x ≤ c → Below c (set_add members x)
unfolding set_add
set_add-Below c x members h p = ground (arith, Below-snoc c x members)

set_from-Below :
    (c : ℕ) (members xs : List ℕ) → Below c members → Below c xs → Below c (set_from members xs)
unfolding set_from
set_from-Below c members [] h k = h
set_from-Below c members (x ∷ xs) h (p, k) =
    set_from-Below c (set_add members x) xs (set_add-Below c x members h p) k

not-contains_above :
    (c y : ℕ) (members : List ℕ) → Below c members → c < y → contains members y ≡ false
unfolding contains
not-contains_above c y [] h p = refl
not-contains_above c y (x ∷ xs) (q, h) p = ground (arith, not-contains_above c y xs h p)

length-set_from-snoc :
    (c y : ℕ) (xs : List ℕ)
    → Below c xs
    → c < y
    → length (set_from [] (xs ++ y ∷ [])) ≡ suc (length (set_from [] xs))
unfolding set_add
length-set_from-snoc c y xs h p =
    let fresh = not-contains_above c y (set_from [] xs) (set_from-Below c [] xs tt h) p in
    rw (set_from-append [] xs (y ∷ []))
      (unfold set_from in rw fresh (omega (arith, length-append (set_from [] xs) (y ∷ []))))

-- What the three checks together say.
record Checked (current : ℕ) (numbers : List ℕ) : Type 0 where
  distinct : length (set_from [] numbers) ≡ length numbers
  last : maximum numbers ≡ current
  contiguous : has_gap 0 (sort numbers) ≡ false

are_versions-Checked :
    (current : ℕ) (numbers : List ℕ) → are_versions current numbers ≡ true → Checked current numbers
unfolding are_versions
are_versions-Checked c xs h = ground arith

Checked-are_versions :
    (current : ℕ) (numbers : List ℕ) → Checked current numbers → are_versions current numbers ≡ true
unfolding are_versions
Checked-are_versions c xs h = ground arith

-- There are as many versions as the current number says.
pub length_of_are_versions :
    (current : ℕ) (numbers : List ℕ)
    → are_versions current numbers ≡ true
    → length numbers ≡ current
length_of_are_versions c xs h =
    let checked = are_versions-Checked c xs h in
    omega (
      arith,
      length_of_no_gap (sort xs) checked.contiguous,
      maximum-sort xs,
      length-sort xs,
      checked.last,
    )

-- The next number keeps the checks.
pub are_versions-snoc :
    (current : ℕ) (numbers : List ℕ)
    → are_versions current numbers ≡ true
    → are_versions (current + 1) (numbers ++ (current + 1) ∷ []) ≡ true
are_versions-snoc c xs h =
    let checked = are_versions-Checked c xs h in
    let below = le-maximum xs c (omega (arith, checked.last)) in
    let above = le-maximum xs (c + 1) (omega (arith, checked.last)) in
    let many = length_of_are_versions c xs h in
    Checked-are_versions (c + 1) (xs ++ (c + 1) ∷ []) (record {
      distinct = omega (
        arith,
        length-set_from-snoc c (c + 1) xs below (omega arith),
        length-append xs ((c + 1) ∷ []),
        checked.distinct,
      );
      last = omega (arith, maximum-snoc (c + 1) xs, checked.last);
      contiguous = rw (sort-snoc (c + 1) xs above) (
          has_gap-snoc 0 (sort xs) (c + 1) (omega (arith, length-sort xs, many))
          ∙ checked.contiguous);
    })
