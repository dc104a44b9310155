-- ===== src/Authz/Policies.antt =====
-- backend/authorization/policies/core/sameOrganization.js. Four policies that
-- ask a provider are in Facts; the others are arguments, as members of the registry.
use civitas.Prelude.{
  Bool, false, not, ◌&&◌, Option, none, some, [], ◌∷◌, String, str_eq, if◌then◌else◌,
}
use civitas.Prelude.Text.{is_empty}
use civitas.Authz.Reasons.{
  ReasonCode, authorization_allowed, organization_context_missing, organization_route_mismatch,
  resource_organization_mismatch,
}
use civitas.Authz.Context.{organization, allow, deny, PolicyResult, Target, Context}
use civitas.Authz.Registry.{Policy}
pub mod Facts

-- `allow` and `deny` of policyResult.js, without metadata.
abbrev pub allow_result : String → PolicyResult
allow_result id = record {
  policy_id = id;
  outcome = allow;
  reason_code = authorization_allowed;
  role_path_id = none;
  matched_grantor_role_id = "";
}

abbrev pub deny_result : String → ReasonCode → PolicyResult
deny_result id reason = record {
  policy_id = id;
  outcome = deny;
  reason_code = reason;
  role_path_id = none;
  matched_grantor_role_id = "";
}

abbrev pub organization_of : Option Target → String
organization_of none = ""
organization_of (some t) = t.organization_id

-- Whether an organization is named, and is another than the principal's.
abbrev pub is_other : String → String → Bool
is_other named own = not (is_empty named) && not (str_eq named own)

abbrev pub evaluate_same_organization : Context → PolicyResult
evaluate_same_organization c =
    let own = c.principal.organization_id in
    if is_empty own
    then deny_result "same-organization" organization_context_missing
    else if is_other c.route_organization_id own
    then deny_result "same-organization" organization_route_mismatch
    else if is_other (organization_of c.target) own
    then deny_result "same-organization" resource_organization_mismatch
    else if is_other (organization_of c.resource) own
    then deny_result "same-organization" resource_organization_mismatch
    else allow_result "same-organization"

unfoldable pub same_organization : Policy
same_organization = record {
  id = "same-organization";
  version = "2026-07-v1";
  supported_surfaces = organization ∷ [];
  allow_not_applicable = false;
  evaluate = λ c. (some (evaluate_same_organization c), c);
}
