-- ===== src/Prelude/Maps.antt =====
-- Maps from strings, as lists of their entries in the order of insertion.
use Prim.Native.String.{String}
use mathlib.Core.Path.{◌≡◌, refl, sym, subst}
use mathlib.Core.List.{List, [], ◌∷◌}
use mathlib.Core.Option.{Option, none, some}
use mathlib.Core.Bool.{false}
use mathlib.Core.Logic.{inl, inr}
use text.Mathlib.TextEquality.{eq_iff}
use text.Mathlib.TextPositions.{eq_refl}
use text.Mathlib.Text.{◌==◌ as str_eq}
use civitas.Prelude.Tests.{if◌then◌else◌, Bool-cases}

-- Map.prototype.get and set.
unfoldable pub lookup {ℓ} : {V : Type ℓ} → String → List (String × V) → Option V
lookup key [] = none
lookup key ((k, v) ∷ entries) = if str_eq k key then some v else lookup key entries

unfoldable pub assign {ℓ} : {V : Type ℓ} → String → V → List (String × V) → List (String × V)
assign key v [] = (key, v) ∷ []
assign key v ((k, w) ∷ entries) =
    if str_eq k key then (k, v) ∷ entries else (k, w) ∷ assign key v entries

-- `new Map(entries)`: a later entry of a key takes the place of an earlier one.
abbrev map_from {ℓ} : {V : Type ℓ} → List (String × V) → List (String × V) → List (String × V)
map_from entries [] = entries
map_from entries ((k, v) ∷ rest) = map_from (assign k v entries) rest

unfoldable pub map_of {ℓ} : {V : Type ℓ} → List (String × V) → List (String × V)
unfolding assign
map_of entries = map_from [] entries

module _ {ℓ} {V : Type ℓ} where
  pub lookup-assign :
      (key : String) (v : V) (entries : List (String × V))
      → lookup key (assign key v entries) ≡ some v
  unfolding lookup assign
  lookup-assign key v [] = rw (eq_refl key) refl
  lookup-assign key v ((k, w) ∷ entries) = elim (Bool-cases (str_eq k key)) [
    | inl e ↦ rw (e, e) refl
    | inr e ↦ rw (e, e) (lookup-assign key v entries)
  ]

  pub lookup-assign_other :
      (other key : String) (v : V) (entries : List (String × V))
      → str_eq other key ≡ false
      → lookup key (assign other v entries) ≡ lookup key entries
  unfolding lookup assign
  lookup-assign_other other key v [] h = rw h refl
  lookup-assign_other other key v ((k, w) ∷ entries) h = elim (Bool-cases (str_eq k other)) [
    | inl e ↦
        let same = (eq_iff k other).0 e in
        let differs = subst (λ t. str_eq t key ≡ false) (sym same) h in rw (e, differs) refl
    | inr e ↦ rw e (elim (Bool-cases (str_eq k key)) [
      | inl d ↦ rw d refl
      | inr d ↦ rw d (lookup-assign_other other key v entries h)
    ])
  ]
