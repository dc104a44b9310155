-- ===== src/Authz/Authorize/Canonical.antt =====
-- The policies that authorize.js asks whatever the caller names.
use civitas.Prelude.Text.{is_empty}
use civitas.Prelude.{
  or_else, ◌≡◌, refl, sym, ap, ◌∙◌, Bool, true, false, none, some, List, [], ◌∷◌, ◌++◌, String, any,
  arith, Bool-cases, inl, inr,
}
use mathlib.Core.Path.{subst}
use mathlib.Core.List.{append_assoc, append-nil}
use civitas.Authz.Context.{
  Surface, owner, organization, tenant, self, elsewhere, PolicyResult, Context, has,
}
use civitas.Authz.Policies.{
  organization_of, same_organization, evaluate_same_organization, is_other,
}
use civitas.Authz.Registry.{Policy, Registry, get_policy}
use civitas.Authz.Authorize.{
  Catalog, Resolver, supports, result_failure, canonical_policies, distinct_from,
  derive_authorization_plan, authorize_context, validate_role_potential,
}
use civitas.Authz.Authorize.Plan.{Passed, then_plan}
use civitas.Authz.Authorize.Soundness.{before_plan, authorize_iff}

distinct_from-extends :
    (xs seen : List String) → (more : List String) × (distinct_from seen xs ≡ seen ++ more)
unfolding distinct_from any
distinct_from-extends [] seen = ([], sym (append-nil seen))
distinct_from-extends (x ∷ xs) seen = elim (Bool-cases (has seen x)) [
  | inl e ↦ let (more, p) = distinct_from-extends xs seen in (more, rw e p)
  | inr e ↦
      let (more, p) = distinct_from-extends xs (seen ++ x ∷ []) in
      (x ∷ more, rw e (p ∙ append_assoc seen (x ∷ []) more))
]

plan_from :
    (surface : Surface) (named : List String)
    → (more : List String) × (distinct_from [] (canonical_policies surface ++ named)
        ≡ canonical_policies surface ++ more)
unfolding distinct_from any
plan_from owner named = distinct_from-extends named (canonical_policies owner)
plan_from organization named = distinct_from-extends named (canonical_policies organization)
plan_from tenant named = distinct_from-extends named (canonical_policies tenant)
plan_from self named = distinct_from-extends named (canonical_policies self)
plan_from (elsewhere s) named = distinct_from-extends named []

-- The plan of a request begins with the canonical policies of its surface, whatever policies the
-- caller names.
pub derive_authorization_plan-canonical :
    (c : Context)
    → (more : List String) × (derive_authorization_plan c ≡ canonical_policies c.surface ++ more)
unfolding derive_authorization_plan
derive_authorization_plan-canonical c = plan_from c.surface c.required_policies

-- The first policy of a plan that a context passes, if the registry knows it.
FirstPasses : Policy → Context → Type 0
FirstPasses policy c =
    (result : PolicyResult) × (c₁ : Context) × (supports policy c.surface ≡ true)
    × (policy.evaluate c ≡ (some result, c₁))
    × (result_failure policy result ≡ none)

first_policy :
    {registry : Registry} {id : String} {ids : List String} {c after : Context} (policy : Policy)
    → get_policy id registry ≡ some policy
    → Passed registry (id ∷ ids) c after
    → FirstPasses policy c
unfolding FirstPasses
first_policy {c = c} policy e (then_plan {policy = found} known supported answer lets passed) =
    let same : found ≡ policy = ap (λ o. or_else o policy) (sym known ∙ e) in
    subst (λ p. FirstPasses p c) same (_, _, supported, answer, lets)

-- What the first decision on the paths leaves as it was.
before_plan-keeps :
    (catalog : Catalog) (c : Context)
    → ((before_plan catalog c).surface ≡ c.surface)
      × ((before_plan catalog c).principal ≡ c.principal)
      × ((before_plan catalog c).route_organization_id ≡ c.route_organization_id)
      × ((before_plan catalog c).target ≡ c.target)
      × ((before_plan catalog c).resource ≡ c.resource)
unfolding validate_role_potential any
before_plan-keeps catalog c = ground arith

-- The surfaces on which a request stays within the organization of the caller.
abbrev pub is_in_organization : Surface → Bool
is_in_organization organization = true
is_in_organization tenant = true
is_in_organization _ = false

canonical-starts :
    (surface : Surface) (more : List String)
    → is_in_organization surface ≡ true
    → (ids : List String) × (canonical_policies surface ++ more ≡ "same-organization" ∷ ids)
canonical-starts organization more h = (_, refl)
canonical-starts tenant more h = (_, refl)
canonical-starts owner more h = ground arith
canonical-starts self more h = ground arith
canonical-starts (elsewhere s) more h = ground arith

same_organization-allows :
    (c : Context)
    → FirstPasses same_organization c
    → (supports same_organization c.surface ≡ true)
      × (result_failure same_organization (evaluate_same_organization c) ≡ none)
unfolding FirstPasses same_organization
same_organization-allows c (result, c₁, supported, answer, lets) =
    let same : result ≡ evaluate_same_organization c =
      ap (λ o. or_else (o.0) (evaluate_same_organization c)) (sym answer) in
    (supported, subst (λ r. result_failure same_organization r ≡ none) same lets)

same_organization-agrees :
    (c : Context)
    → result_failure same_organization (evaluate_same_organization c) ≡ none
    → (is_empty c.principal.organization_id ≡ false)
      × (is_other c.route_organization_id c.principal.organization_id ≡ false)
      × (is_other (organization_of c.target) c.principal.organization_id ≡ false)
      × (is_other (organization_of c.resource) c.principal.organization_id ≡ false)
unfolding same_organization
same_organization-agrees c h = ground arith

supports-organization : (s : Surface) → supports same_organization s ≡ true → s ≡ organization
unfolding same_organization any
supports-organization s h = ground arith

same_organization-first :
    (catalog : Catalog) (registry : Registry) (resolver : Resolver) (required : String)
    (c : Context)
    → is_in_organization c.surface ≡ true
    → get_policy "same-organization" registry ≡ some same_organization
    → (authorize_context catalog registry resolver required c).allowed ≡ true
    → FirstPasses same_organization (before_plan catalog c)
same_organization-first catalog registry resolver required c inside known h =
    let j = (authorize_iff catalog registry resolver required c).0 h in
    let start = before_plan catalog c in
    let (more, plan) = derive_authorization_plan-canonical start in
    let inside_still : is_in_organization start.surface ≡ true =
      ap is_in_organization (before_plan-keeps catalog c).0 ∙ inside in
    let (ids, first) = canonical-starts start.surface more inside_still in
    first_policy same_organization known
      (subst (λ ids. Passed registry ids start j.after) (plan ∙ first) j.by_policies)

-- Where the registry has the policy of the same organization, a request on the surface of an
-- organization or of a tenant is allowed only if its surface is the organization's, so none on a
-- tenant's is, and only if the principal has an organization, and the route, the target and the
-- resource name no other.
pub authorize-same_organization :
    (catalog : Catalog) (registry : Registry) (resolver : Resolver) (required : String)
    (c : Context)
    → is_in_organization c.surface ≡ true
    → get_policy "same-organization" registry ≡ some same_organization
    → (authorize_context catalog registry resolver required c).allowed ≡ true
    → (c.surface ≡ organization)
      × (is_empty c.principal.organization_id ≡ false)
      × (is_other c.route_organization_id c.principal.organization_id ≡ false)
      × (is_other (organization_of c.target) c.principal.organization_id ≡ false)
      × (is_other (organization_of c.resource) c.principal.organization_id ≡ false)
authorize-same_organization catalog registry resolver required c inside known h =
    let (supported, lets) =
      same_organization-allows (before_plan catalog c)
        (same_organization-first catalog registry resolver required c inside known h) in
    let (own, route, target, resource) = same_organization-agrees (before_plan catalog c) lets in
    let (surfaces, principals, routes, targets, resources) = before_plan-keeps catalog c in
    (
      sym surfaces ∙ supports-organization (before_plan catalog c).surface supported,
      rw principals at own,
      rw (principals, routes) at route,
      rw (principals, targets) at target,
      rw (principals, resources) at resource,
    )
