-- ===== src/Authz/Policies/Facts.antt =====
-- backend/authorization/policies: core/membershipRequired.js, and of extensions,
-- entitlement/authorizationSnapshotCurrent.js, data-scope/authorizationDataScopeValid.js and
-- data-scope/authorizationResourceInScope.js. A provider may be missing, and it may throw (`none`).
use civitas.Prelude.{ℕ, Bool, true, false, Option, none, some, List, [], ◌∷◌, String}
use civitas.Authz.Reasons.{
  ReasonCode, policy_provider_missing, membership_revoked, membership_stale, membership_unavailable,
  authorization_snapshot_stale, resource_not_found_or_not_accessible,
}
use civitas.Authz.Context.{owner, organization, self, Surface, Principal, PolicyResult, Context}
use civitas.Authz.Registry.{Policy}
use civitas.Authz.Policies.{allow_result, deny_result}

-- The statuses that the providers answer.
pub data MembershipStatus : Type 0 where
  is_active is_revoked is_stale is_unavailable is_other : MembershipStatus

pub data ScopeStatus : Type 0 where
  scope_valid scope_stale scope_other : ScopeStatus

abbrev pub membership_result : MembershipStatus → PolicyResult
membership_result is_active = allow_result "membership-required"
membership_result is_revoked = deny_result "membership-required" membership_revoked
membership_result is_stale = deny_result "membership-required" membership_stale
membership_result is_unavailable = deny_result "membership-required" membership_unavailable
membership_result is_other = deny_result "membership-required" ReasonCode.membership_required

abbrev snapshot_result : Bool → PolicyResult
snapshot_result true = allow_result "authorization-snapshot-current"
snapshot_result false = deny_result "authorization-snapshot-current" authorization_snapshot_stale

-- `allowed === true || status === "valid"`, then the status.
abbrev scope_result : Bool → ScopeStatus → PolicyResult
scope_result true status = allow_result "authorization-data-scope-valid"
scope_result false scope_valid = allow_result "authorization-data-scope-valid"
scope_result false scope_stale =
    deny_result "authorization-data-scope-valid" authorization_snapshot_stale
scope_result false scope_other =
    deny_result "authorization-data-scope-valid" resource_not_found_or_not_accessible

abbrev resource_result : Bool → PolicyResult
resource_result true = allow_result "authorization-resource-in-scope"
resource_result false =
    deny_result "authorization-resource-in-scope" resource_not_found_or_not_accessible

-- A provider's answer, read by the policy.
abbrev pub from_provider :
    {A : Type 0} → String → Option (Option A) → (A → PolicyResult) → Option PolicyResult
from_provider id none read = some (deny_result id policy_provider_missing)
from_provider id (some none) read = none
from_provider id (some (some a)) read = some (read a)

abbrev ask : {A : Type 0} → Option (Context → Option A) → Context → Option (Option A)
ask none c = none
ask (some provider) c = some (provider c)

abbrev policy_of : String → List Surface → (Context → Option PolicyResult) → Policy
policy_of id surfaces evaluate = record {
  id = id;
  version = "2026-07-v1";
  supported_surfaces = surfaces;
  allow_not_applicable = false;
  evaluate = λ c. (evaluate c, c);
}

-- What `evaluateMembership` is asked.
pub record MembershipQuestion : Type 0 where
  pub subject : String
  pub organization_id : String
  pub token_issued_at : Option ℕ
  pub policy_version : String

abbrev pub membership_question : Principal → String → MembershipQuestion
membership_question principal version = record {
  subject = principal.subject;
  organization_id = principal.organization_id;
  token_issued_at = principal.token_issued_at;
  policy_version = version;
}

abbrev pub MembershipProvider : Type 0
MembershipProvider = Option (MembershipQuestion → Option MembershipStatus)

abbrev pub ask_membership : MembershipProvider → Context → Option (Option MembershipStatus)
ask_membership none c = none
ask_membership (some provider) c =
    some (provider (membership_question c.principal c.policy_version))

unfoldable pub membership_required : MembershipProvider → Policy
membership_required provider =
    policy_of "membership-required" (organization ∷ [])
      (λ c. from_provider "membership-required" (ask_membership provider c) membership_result)

unfoldable pub authorization_snapshot_current : Option (Context → Option Bool) → Policy
authorization_snapshot_current provider =
    policy_of "authorization-snapshot-current" (owner ∷ organization ∷ self ∷ [])
      (λ c. from_provider "authorization-snapshot-current" (ask provider c) snapshot_result)

unfoldable pub authorization_data_scope_valid :
    Option (Context → Option (Bool × ScopeStatus)) → Policy
authorization_data_scope_valid provider =
    policy_of "authorization-data-scope-valid" (organization ∷ []) (λ c.
      from_provider "authorization-data-scope-valid" (ask provider c)
        (λ answer. scope_result answer.0 answer.1))

-- The provider's answer is whether the resource is in the scope.
unfoldable pub authorization_resource_in_scope : Option (Context → Option Bool) → Policy
authorization_resource_in_scope provider =
    policy_of "authorization-resource-in-scope" (organization ∷ [])
      (λ c. from_provider "authorization-resource-in-scope" (ask provider c) resource_result)
