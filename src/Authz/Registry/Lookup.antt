-- ===== src/Authz/Registry/Lookup.antt =====
-- What registry.js finds again.
use civitas.Prelude.{
  ◌≡◌, refl, ap, sym, ◌∙◌, Bool, true, false, Option, none, some, List, [], ◌∷◌, ◌++◌, String,
  eq_refl, any, find, if◌then◌else◌, arith, Bool-cases, inl, inr,
}
use civitas.Authz.Registry.{
  Policy, Registry, ConfigurationError, Registered, registered, refused, has_id, register_valid,
  definition_error, get_policy, register_policy, registry_frozen,
}

find-snoc {ℓ} :
    {A : Type ℓ} (p : A → Bool) (xs : List A) (x : A)
    → any p xs ≡ false
    → p x ≡ true
    → find p (xs ++ x ∷ []) ≡ some x
unfolding find any
find-snoc p [] x h e = rw e refl
find-snoc p (y ∷ xs) x h e =
    let no : p y ≡ false = ground (arith, h) in rw no (find-snoc p xs x (ground (arith, h)) e)

find-kept {ℓ} :
    {A : Type ℓ} (p : A → Bool) (xs ys : List A) (x : A)
    → find p xs ≡ some x
    → find p (xs ++ ys) ≡ some x
unfolding find
find-kept p [] ys x h = ground (arith, h)
find-kept p (y ∷ xs) ys x h = elim (Bool-cases (p y)) [
  | inl e ↦ rw e (rw e at h)
  | inr e ↦ rw e (find-kept p xs ys x (rw e at h))
]

registry_of : Registered → Registry → Registry
registry_of (registered r) _ = r
registry_of (refused e) r = r

past_error :
    (b : Bool) (e : ConfigurationError) (x : Registered) (after : Registry)
    → (if b then refused e else x) ≡ registered after
    → x ≡ registered after
past_error true e x after h = ground (arith, h)
past_error false e x after h = h

registered_valid :
    (o : Option ConfigurationError) (p : Policy) (r after : Registry)
    → register_valid o p r ≡ registered after
    → (any (has_id p.id) r.definitions ≡ false)
      × (record r { definitions = r.definitions ++ p ∷ [] } ≡ after)
unfolding any registry_of
registered_valid (some e) p r after h = ground (arith, h)
registered_valid none p r after h = elim (Bool-cases (any (has_id p.id) r.definitions)) [
  | inl e ↦ ground (arith, e, h)
  | inr e ↦ (e, ap (λ o. registry_of o after) (rw e at h))
]

registered_policy :
    (p : Policy) (r after : Registry)
    → register_policy p r ≡ registered after
    → (any (has_id p.id) r.definitions ≡ false)
      × (record r { definitions = r.definitions ++ p ∷ [] } ≡ after)
unfolding register_policy
registered_policy p r after h =
    registered_valid (definition_error p) p r after
      (past_error r.frozen registry_frozen (register_valid (definition_error p) p r) after h)

-- A policy that was registered is found under its id, and each policy that was found under an id
-- before is found there still.
pub get_policy-register_policy :
    (p : Policy) (r after : Registry)
    → register_policy p r ≡ registered after
    → (get_policy p.id after ≡ some p)
      × ((id : String) (q : Policy) → get_policy id r ≡ some q → get_policy id after ≡ some q)
unfolding get_policy
get_policy-register_policy p r after h =
    let (fresh, same) = registered_policy p r after h in
    (
      ap (λ s. get_policy p.id s) (sym same)
          ∙ find-snoc (has_id p.id) r.definitions p fresh (eq_refl p.id),
      λ id q found.
          ap (λ s. get_policy id s) (sym same)
          ∙ find-kept (has_id id) r.definitions (p ∷ []) q found,
    )
