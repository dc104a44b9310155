-- ===== src/Taxonomy/Ancestors.antt =====
-- The loop of `ancestorsOf` ends, also where the parents go round in a circle.
use mathlib.Core.Path.{subst}
use civitas.Prelude.{
  ==_iff, ℕ, zero, suc, ◌+◌, ◌≤◌, ◌<◌, ◌≡◌, refl, sym, ap, ◌∙◌, true, false, Option, none, some,
  List, [], ◌∷◌, length, any, find, ◌==◌, if◌then◌else◌, inl, inr, Bool-cases, Option-cases, arith,
}
use civitas.Taxonomy.{
  TaxonomyValue, get_value_by_id, ℕ_in, go_up, cons_found, ancestors_from, ancestors_of,
}

-- How many values have an identifier that has not been seen.
unseen : List ℕ → List TaxonomyValue → ℕ
unseen seen [] = 0
unseen seen (v ∷ vs) = (if ℕ_in v.id seen then 0 else 1) + unseen seen vs

unseen-le :
    (seen : List ℕ) (p : ℕ) (vs : List TaxonomyValue) → unseen (p ∷ seen) vs ≤ unseen seen vs
unfolding unseen any
unseen-le seen p [] = omega arith
unseen-le seen p (v ∷ vs) = ground (arith, unseen-le seen p vs)

unseen-length : (seen : List ℕ) (vs : List TaxonomyValue) → unseen seen vs ≤ length vs
unfolding unseen
unseen-length seen [] = omega arith
unseen-length seen (v ∷ vs) = ground (arith, unseen-length seen vs)

-- A new identifier of a value leaves one less.
unseen-lt :
    (seen : List ℕ) (p : ℕ) (vs : List TaxonomyValue) (v : TaxonomyValue)
    → ℕ_in p seen ≡ false
    → get_value_by_id p vs ≡ some v
    → unseen (p ∷ seen) vs < unseen seen vs
unfolding unseen any find
unseen-lt seen p [] v fresh found = cc
unseen-lt seen p (w ∷ vs) v fresh found = elim (Bool-cases (w.id == p)) [
  | inl e ↦
      let same : w.id ≡ p = (==_iff w.id p).0 e in
      let unseen_id : ℕ_in w.id seen ≡ false = subst (λ n. ℕ_in n seen ≡ false) (sym same) fresh in
      ground (arith, unseen-le seen p vs)
  | inr e ↦ ground (arith, unseen-lt seen p vs v fresh)
]

cons_found-some :
    (v : TaxonomyValue) (o : Option (List TaxonomyValue)) (r : List TaxonomyValue)
    → o ≡ some r
    → cons_found v o ≡ some (v ∷ r)
cons_found-some v o r e = ap (cons_found v) e

go_up-seen :
    (p : ℕ) (seen : List ℕ) (values : List TaxonomyValue)
    (continue : List ℕ → TaxonomyValue → Option (List TaxonomyValue))
    → ℕ_in p seen ≡ true
    → go_up (some p) seen values continue ≡ some []
go_up-seen p seen values continue s = rw s refl

go_up-missing :
    (p : ℕ) (seen : List ℕ) (values : List TaxonomyValue)
    (continue : List ℕ → TaxonomyValue → Option (List TaxonomyValue))
    → ℕ_in p seen ≡ false
    → get_value_by_id p values ≡ none
    → go_up (some p) seen values continue ≡ some []
go_up-missing p seen values continue s m = rw s (rw m refl)

go_up-found :
    (p : ℕ) (seen : List ℕ) (values : List TaxonomyValue)
    (continue : List ℕ → TaxonomyValue → Option (List TaxonomyValue)) (v : TaxonomyValue)
    → ℕ_in p seen ≡ false
    → get_value_by_id p values ≡ some v
    → go_up (some p) seen values continue ≡ cons_found v (continue (p ∷ seen) v)
go_up-found p seen values continue v s m = rw s (rw m refl)

ancestors_from-ends :
    (fuel : ℕ) (values : List TaxonomyValue) (seen : List ℕ) (current : TaxonomyValue)
    → unseen seen values < fuel
    → (r : List TaxonomyValue) × (ancestors_from fuel values seen current ≡ some r)
unfolding ancestors_from
ancestors_from-ends zero values seen current h = elim h [ ]
ancestors_from-ends (suc fuel) values seen current h =
    let next : List ℕ → TaxonomyValue → Option (List TaxonomyValue) =
      λ ids v. ancestors_from fuel values ids v in
    elim (Option-cases current.parent_value_id) [
      | inl e ↦ ([], ap (λ o. go_up o seen values next) e)
      | inr (p, e) ↦
          let up = ap (λ o. go_up o seen values next) e in
          elim (Bool-cases (ℕ_in p seen)) [
            | inl s ↦ ([], up ∙ go_up-seen p seen values next s)
            | inr s ↦ elim (Option-cases (get_value_by_id p values)) [
              | inl m ↦ ([], up ∙ go_up-missing p seen values next s m)
              | inr (v, m) ↦
                  let (r, t) =
                    ancestors_from-ends fuel values (p ∷ seen) v
                      (omega (arith, unseen-lt seen p values v s m, h)) in
                  (
                    v ∷ r,
                    up
                        ∙ go_up-found p seen values next v s m
                        ∙ cons_found-some v (next (p ∷ seen) v) r t,
                  )
            ]
          ]
    ]

-- The walk from a value to its ancestors ends within one round more than there are values, whatever
-- the parents are, a circle of them included.
pub ancestors_of-ends :
    (id : ℕ) (values : List TaxonomyValue)
    → (r : List TaxonomyValue) × (ancestors_of (suc (length values)) id values ≡ some r)
unfolding ancestors_of
ancestors_of-ends id values = elim (Option-cases (get_value_by_id id values)) [
  | inl e ↦ ([], rw e refl)
  | inr (v, e) ↦
      let (r, t) =
        ancestors_from-ends (suc (length values)) values [] v
          (omega (arith, unseen-length [] values)) in
      (r, rw e t)
]
