-- ===== src/Authz/Authorize/Membership.antt =====
-- What the second canonical policy of authorize.js adds: the membership of the principal.
use civitas.Prelude.{
  ◌≡◌, refl, sym, ap, ◌∙◌, Option, none, some, List, any, ◌++◌, ◌∷◌, String, true, or_else, arith,
}
use mathlib.Core.Path.{subst}
use civitas.Authz.Context.{organization, PolicyResult, Context}
use civitas.Authz.Policies.{same_organization, deny_result}
use civitas.Authz.Reasons.{ReasonCode, policy_provider_missing}
use civitas.Authz.Policies.Facts.{
  MembershipStatus, is_active, MembershipProvider, membership_question, membership_required,
  membership_result, from_provider, ask_membership,
}
use civitas.Authz.Registry.{Policy, Registry, get_policy}
use civitas.Authz.Authorize.{
  Catalog, Resolver, result_failure, add_results, derive_authorization_plan, canonical_policies,
  authorize_context, validate_role_potential,
}
use civitas.Authz.Authorize.Plan.{Passed, then_plan}
use civitas.Authz.Authorize.Soundness.{before_plan, authorize_iff}
use civitas.Authz.Authorize.Canonical.{derive_authorization_plan-canonical}

-- The first policy of a plan that a context passes, if the registry knows it, and the rest.
FirstThen : Registry → List String → Context → Policy → Context → Type 0
FirstThen registry ids after policy c =
    (result : PolicyResult) × (c₁ : Context) × (policy.evaluate c ≡ (some result, c₁))
    × (result_failure policy result ≡ none)
    × Passed registry ids (add_results result c₁) after

first_then :
    {registry : Registry} {id : String} {ids : List String} {c after : Context} (policy : Policy)
    → get_policy id registry ≡ some policy
    → Passed registry (id ∷ ids) c after
    → FirstThen registry ids after policy c
unfolding FirstThen
first_then {registry = registry} {ids = ids} {c = c} {after = after} policy e
      (then_plan {policy = found} known supported answer lets passed) =
    let same : found ≡ policy = ap (λ o. or_else o policy) (sym known ∙ e) in
    subst (λ p. FirstThen registry ids after p c) same (_, _, answer, lets, passed)

-- The policy of the same organization leaves the context as it is.
after_same_organization :
    {registry : Registry} {ids : List String} {c after : Context}
    → get_policy "same-organization" registry ≡ some same_organization
    → Passed registry ("same-organization" ∷ ids) c after
    → (result : PolicyResult) × Passed registry ids (add_results result c) after
unfolding FirstThen same_organization
after_same_organization {registry = registry} {ids = ids} {c = c} {after = after} known passed =
    let (result, c₁, answer, lets, rest) = first_then same_organization known passed in
    (
      result,
      subst (λ d. Passed registry ids (add_results result d) after) (ap (λ a. a.1) (sym answer))
          rest,
    )

active_result :
    (policy : Policy) (status : MembershipStatus)
    → result_failure policy (membership_result status) ≡ none
    → status ≡ is_active
active_result policy status h = ground arith

denied_result :
    (policy : Policy) (reason : ReasonCode)
    → result_failure policy (deny_result "membership-required" reason) ≡ none
    → some (some is_active) ≡ none
denied_result policy reason h = ground arith

from_provider-active :
    (policy : Policy) (o : Option (Option MembershipStatus)) (result : PolicyResult)
    → from_provider "membership-required" o membership_result ≡ some result
    → result_failure policy result ≡ none
    → o ≡ some (some is_active)
from_provider-active policy none result h lets =
    let same : deny_result "membership-required" policy_provider_missing ≡ result =
      ap (λ o. or_else o result) h in
    sym (
      denied_result policy policy_provider_missing
        (subst (λ r. result_failure policy r ≡ none) (sym same) lets))
from_provider-active policy (some none) result h lets = ground (arith, h)
from_provider-active policy (some (some status)) result h lets =
    let same : membership_result status ≡ result = ap (λ o. or_else o result) h in
    ap (λ s. some (some s))
      (active_result policy status (subst (λ r. result_failure policy r ≡ none) (sym same) lets))

membership-active :
    (provider : MembershipProvider) (registry : Registry) (ids : List String) (c after : Context)
    → FirstThen registry ids after (membership_required provider) c
    → ask_membership provider c ≡ some (some is_active)
unfolding FirstThen membership_required
membership-active provider registry ids c after (result, c₁, answer, lets, rest) =
    from_provider-active (membership_required provider) (ask_membership provider c) result
      (ap (λ a. a.0) answer) lets

same_question :
    (provider : MembershipProvider) (b c : Context)
    → b.principal ≡ c.principal
    → b.policy_version ≡ c.policy_version
    → ask_membership provider c ≡ ask_membership provider b
same_question none b c p v = refl
same_question (some provider) b c p v =
    ap (λ q. some (provider (membership_question q c.policy_version))) (sym p)
    ∙ ap (λ w. some (provider (membership_question b.principal w))) (sym v)

same_after :
    (provider : MembershipProvider) (result : PolicyResult) (c : Context)
    → ask_membership provider c ≡ ask_membership provider (add_results result c)
same_after none result c = refl
same_after (some provider) result c = refl

kept_by_potential :
    (catalog : Catalog) (c : Context)
    → ((before_plan catalog c).surface ≡ c.surface)
      × ((before_plan catalog c).principal ≡ c.principal)
      × ((before_plan catalog c).policy_version ≡ c.policy_version)
unfolding validate_role_potential any
kept_by_potential catalog c = ground arith

plan_of_organization :
    (c : Context)
    → c.surface ≡ organization
    → (ids : List String) × (derive_authorization_plan c
        ≡ "same-organization" ∷ "membership-required" ∷ ids)
plan_of_organization c e =
    let (more, plan) = derive_authorization_plan-canonical c in
    (_, plan ∙ ap (λ s. canonical_policies s ++ more) e)

-- Where the registry has the policies of the same organization and of the membership, a request on
-- the surface of an organization is allowed only if there is a provider of memberships and it answers
-- that the membership of the request's principal is active.
pub authorize-membership :
    (catalog : Catalog) (registry : Registry) (resolver : Resolver) (required : String)
    (c : Context) (provider : MembershipProvider)
    → c.surface ≡ organization
    → get_policy "same-organization" registry ≡ some same_organization
    → get_policy "membership-required" registry ≡ some (membership_required provider)
    → (authorize_context catalog registry resolver required c).allowed ≡ true
    → ask_membership provider c ≡ some (some is_active)
authorize-membership catalog registry resolver required c provider inside same member h =
    let j = (authorize_iff catalog registry resolver required c).0 h in
    let start = before_plan catalog c in
    let (surfaces, principals, versions) = kept_by_potential catalog c in
    let (ids, plan) = plan_of_organization start (surfaces ∙ inside) in
    let (result, rest) =
      after_same_organization same
        (subst (λ p. Passed registry p start j.after) plan j.by_policies) in
    let asked =
      membership-active provider registry ids (add_results result start) j.after
        (first_then (membership_required provider) member rest) in
    same_question provider start c principals versions ∙ same_after provider result start ∙ asked
