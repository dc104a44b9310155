-- ===== src/Taxonomy/Resolve.antt =====
-- backend/taxonomy/taxonomyService.js, `resolvePublishedDimensionValue`: the value that an authorization may
-- stand on, and why another may not.
use mathlib.Core.Path.{subst}
use civitas.Prelude.{
  ◌||◌, ℕ, ◌≡◌, refl, ap, Bool, true, false, not, ◌&&◌, Option, none, some, List, String, str_eq,
  find, any, if◌then◌else◌,
}
use civitas.Prelude.Text.{is_empty}
use civitas.Prelude.Maps.{lookup}
use civitas.Taxonomy.{
  ReasonCode, value_not_found, value_wrong_organization, value_wrong_dimension,
  capability_not_supported, ValueStatus, draft, active, deprecating, archived, other_status,
  Definition, TaxonomyValue, Store, get_value_by_id,
}
use civitas.Taxonomy.Checks.{Fault, validate_dimension_key, usable_fault}

pub data Resolution : Type 0 where
  resolved : TaxonomyValue → Option Definition → Resolution
  unresolved : String → ReasonCode → Resolution
  unusable : ValueStatus → ReasonCode → Resolution
  invalid_dimension : ReasonCode → Resolution

abbrev supports : List Definition → String → Option String → Bool
supports known key none = true
supports known key (some capability) =
    is_empty capability
    || any (λ d. str_eq d.dimension_key key && any (λ c. str_eq c capability) d.capabilities) known

abbrev usable : TaxonomyValue → Option Definition → Fault → Resolution
usable v definition none = resolved v definition
usable v definition (some code) = unusable v.status code

abbrev resolve_found :
    List Definition
    → String
    → String
    → Option String
    → Option Definition
    → TaxonomyValue
    → Resolution
resolve_found known organization_id key capability definition v =
    if not (str_eq v.logto_organization_id organization_id)
    then unresolved "wrong_organization" value_wrong_organization
    else if not (str_eq v.dimension_key_cache key)
    then unresolved "wrong_dimension" value_wrong_dimension
    else if not (supports known key capability)
    then unresolved "capability_not_supported" capability_not_supported
    else usable v definition (usable_fault v.status)

abbrev resolve_any :
    List Definition
    → String
    → String
    → Option String
    → Option Definition
    → Option TaxonomyValue
    → Resolution
resolve_any known organization_id key capability definition none =
    unresolved "not_found" value_not_found
resolve_any known organization_id key capability definition (some v) =
    resolve_found known organization_id key capability definition v

abbrev resolve_valid :
    {W : Type 0}
    → List Definition
    → String
    → String
    → ℕ
    → Option String
    → Store W
    → Fault
    → Resolution
resolve_valid known organization_id key id capability s (some code) = invalid_dimension code
resolve_valid known organization_id key id capability s none =
    resolve_any known organization_id key capability (lookup key s.definitions)
      (get_value_by_id id s.values)

unfoldable pub resolve_published_dimension_value :
    {W : Type 0} → List Definition → String → String → ℕ → Option String → Store W → Resolution
unfolding validate_dimension_key any find lookup
resolve_published_dimension_value known organization_id key id capability s =
    resolve_valid known organization_id key id capability s (validate_dimension_key known key)

-- The value is there, active, of the organization and of the dimension, which supports the capability.
pub record IsUsable {W : Type 0} (known : List Definition) (organization_id key : String) (id : ℕ)
    (capability : Option String) (s : Store W) (v : TaxonomyValue) : Type 0 where
  pub is_valid : validate_dimension_key known key ≡ none
  pub is_there : get_value_by_id id s.values ≡ some v
  pub organization : str_eq v.logto_organization_id organization_id ≡ true
  pub dimension : str_eq v.dimension_key_cache key ≡ true
  pub is_supported : supports known key capability ≡ true
  pub is_active : v.status ≡ active

abbrev value_in : Resolution → Option TaxonomyValue
value_in (resolved v d) = some v
value_in _ = none

usable-value :
    (v0 v : TaxonomyValue) (o : ValueStatus) (definition : Option Definition)
    → v0.status ≡ o
    → value_in (usable v0 definition (usable_fault o)) ≡ some v
    → (v0 ≡ v) × (o ≡ active)
usable-value v0 v active definition s e = (cc, refl)
usable-value v0 v draft definition s e = cc
usable-value v0 v deprecating definition s e = cc
usable-value v0 v archived definition s e = cc
usable-value v0 v (other_status t) definition s e = cc

-- The three tests before the status.
passed_all :
    (organization dimension supported : Bool) (r1 r2 r3 : ReasonCode) (r : Resolution)
    (v : TaxonomyValue)
    → value_in (
        if not organization
        then unresolved "wrong_organization" r1
        else if not dimension
        then unresolved "wrong_dimension" r2
        else if not supported
        then unresolved "capability_not_supported" r3
        else r)
      ≡ some v
    → (value_in r ≡ some v) × (organization ≡ true) × (dimension ≡ true) × (supported ≡ true)
passed_all false _ _ r1 r2 r3 r v e = cc
passed_all true false _ r1 r2 r3 r v e = cc
passed_all true true false r1 r2 r3 r v e = cc
passed_all true true true r1 r2 r3 r v e = (e, refl, refl, refl)

module _ {W : Type 0} (known : List Definition) (organization_id key : String) (id : ℕ)
    (capability : Option String) (s : Store W) (v : TaxonomyValue) (d : Option Definition) where
  found_value :
      (fault : Fault) (definition : Option Definition) (found : Option TaxonomyValue)
      → value_in (elim fault [
        | some code ↦ invalid_dimension code
        | none ↦ resolve_any known organization_id key capability definition found
      ])
        ≡ some v
      → (fault ≡ none)
        × (w : TaxonomyValue) × (found ≡ some w)
        × (value_in (resolve_found known organization_id key capability definition w) ≡ some v)
  found_value (some code) definition found e = cc
  found_value none definition none e = cc
  found_value none definition (some w) e = (refl, w, refl, e)

  -- A reference resolves to a value exactly if the value is there, active, of the organization and of
  -- the dimension, and the dimension is valid and supports the capability that is asked for.
  pub resolve_published_dimension_value_iff :
      (resolve_published_dimension_value known organization_id key id capability s ≡ resolved v d
        → IsUsable known organization_id key id capability s v)
      × (IsUsable known organization_id key id capability s v
          → resolve_published_dimension_value known organization_id key id capability s
            ≡ resolved v (lookup key s.definitions))
  unfolding resolve_published_dimension_value
  resolve_published_dimension_value_iff = (
    λ e.
        let (valid, w, there, e2) =
          found_value (validate_dimension_key known key) (lookup key s.definitions)
            (get_value_by_id id s.values) (ap value_in e) in
        let (e3, organization, dimension, supported) =
          passed_all (str_eq w.logto_organization_id organization_id)
            (str_eq w.dimension_key_cache key) (supports known key capability)
            value_wrong_organization value_wrong_dimension capability_not_supported
            (usable w (lookup key s.definitions) (usable_fault w.status)) v e2 in
        let (same, is_active) = usable-value w v w.status (lookup key s.definitions) refl e3 in
        subst (IsUsable known organization_id key id capability s) same (record {
          is_valid = valid;
          is_there = there;
          organization = organization;
          dimension = dimension;
          is_supported = supported;
          is_active = is_active;
        }),
    λ u. rw u.is_valid (
        rw u.is_there
          (rw u.organization (rw u.dimension (rw u.is_supported (rw u.is_active refl))))),
  )
