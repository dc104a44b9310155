-- ===== src/Authz/Authorize/Tests.antt =====
-- One request on the surface of an organization, and one policy after the first.
use civitas.Prelude.Text.{is_empty}
use civitas.Prelude.{◌≡◌, refl, true, false, none, some, any, find, List, [], ◌∷◌, String, zero}
use civitas.Authz.Reasons.{policy_unknown, policy_evaluation_failed, surface_mismatch}
use civitas.Authz.Context.{Surface, owner, organization, tenant, self, RolePath, Context}
use civitas.Authz.Policies.{allow_result, same_organization, is_other}
use civitas.Authz.Policies.Facts.{
  is_active, scope_valid, MembershipProvider, ask_membership, membership_required,
  authorization_snapshot_current, authorization_data_scope_valid,
}
use civitas.Authz.Authorize.Membership.{authorize-membership}
use civitas.Authz.Registry.{
  create_policy_registry, register_policy, registered, Policy, Registry, get_policy,
}
use civitas.Authz.Authorize.{
  Catalog, derive_authorization_plan, authorize_context, run_plan, resolve_module_availability,
  validate_role_potential, allow_decision, deny_decision,
}
use civitas.Authz.Authorize.Soundness.{Justified, authorize_iff}
use civitas.Authz.Authorize.Canonical.{authorize-same_organization}

abbrev passes : String → List Surface → Policy
passes id surfaces = record {
  id = id;
  version = "1";
  supported_surfaces = surfaces;
  allow_not_applicable = false;
  evaluate = λ c. (some (allow_result id), c);
}

abbrev throws : Policy
throws = record (passes "broken" (organization ∷ [])) { evaluate = λ c. (none, c) }

abbrev registry : Registry
registry = record {
  definitions =
      same_organization
      ∷ passes "membership-required" (organization ∷ [])
      ∷ passes "org-role-entitlement-enabled" (organization ∷ [])
      ∷ passes "authorization-snapshot-current" (owner ∷ organization ∷ self ∷ [])
      ∷ passes "authorization-data-scope-valid" (organization ∷ [])
      ∷ throws
      ∷ [];
  frozen = true;
}

abbrev catalog : Catalog
catalog = record {
  catalog_hash = "h";
  permissions_by_name =
      λ name. some (record { name = name; surface = "organization"; status = "active" });
  global_role_permissions = λ role. none;
  organization_role_permissions = λ role. some ("plans.read" ∷ []);
}

abbrev path : RolePath
path = record {
  role_path_id = record { index = zero; role = "editor" };
  logto_role_id = "editor";
  token_scope_present = true;
  role_potential_decision = none;
  delegation_decision = none;
  entitlement_decision = none;
  policy_results = [];
}

abbrev request : Surface → List String → Context
request surface policies = record {
  decision_id = "d";
  principal = record {
    subject = "ana";
    token_type = "organization";
    organization_id = "o1";
    scopes = "plans.read" ∷ [];
    global_role_ids = [];
    organization_role_ids = "editor" ∷ [];
    actor_subject = "";
    effective_subject = "ana";
    token_issued_at = some 5;
  };
  surface = surface;
  operation = "read";
  route_organization_id = "o1";
  permission = "plans.read";
  action_id = "";
  required_policies = policies;
  policy_version = "v";
  snapshot_version = "";
  target = none;
  resource = none;
  role_paths = path ∷ [];
  delegation_allowed = none;
}

machine : Unit {0}
unfolding authorize_context run_plan get_policy derive_authorization_plan same_organization
    resolve_module_availability validate_role_potential allow_decision deny_decision any find
machine = tt

inside : (authorize_context catalog registry none "h" (request organization [])).allowed ≡ true
unfolding machine
inside = refl

on_tenant :
    (authorize_context catalog registry none "h" (request tenant [])).reason_code ≡ surface_mismatch
unfolding machine
on_tenant = refl

undeclared :
    (authorize_context catalog registry none "h" (request organization ("x" ∷ []))).reason_code
    ≡ policy_unknown
unfolding machine
undeclared = refl

thrown :
    (authorize_context catalog registry none "h" (request organization ("broken" ∷ []))).reason_code
    ≡ policy_evaluation_failed
unfolding machine
thrown = refl

authorize_iff_example : Justified catalog registry none "h" (request organization [])
authorize_iff_example = (authorize_iff catalog registry none "h" (request organization [])).0 inside

only_read :
    (run_plan registry ("membership-required" ∷ []) (request organization []) none).allowed ≡ true
unfolding machine
only_read = refl

registered_here : get_policy "same-organization" registry ≡ some same_organization
unfolding machine
registered_here = refl

authorize-same_organization_example :
    (organization ≡ organization)
    × (is_empty "o1" ≡ false)
    × (is_other "o1" "o1" ≡ false)
    × (is_other "" "o1" ≡ false)
    × (is_other "" "o1" ≡ false)
authorize-same_organization_example =
    authorize-same_organization catalog registry none "h" (request organization []) refl
      registered_here inside

abbrev empty_registry : Registry
empty_registry = create_policy_registry

abbrev with_same : Registry
with_same = record empty_registry { definitions = same_organization ∷ [] }

same_registered : register_policy same_organization empty_registry ≡ registered with_same
unfolding create_policy_registry register_policy same_organization any
same_registered = refl

abbrev members : MembershipProvider
members = some (λ question. some is_active)

abbrev member_registry : Registry
member_registry = record {
  definitions =
      same_organization
      ∷ membership_required members
      ∷ passes "org-role-entitlement-enabled" (organization ∷ [])
      ∷ authorization_snapshot_current (some (λ c. some true))
      ∷ authorization_data_scope_valid (some (λ c. some (false, scope_valid)))
      ∷ [];
  frozen = true;
}

member_allowed :
    (authorize_context catalog member_registry none "h" (request organization [])).allowed ≡ true
unfolding machine membership_required authorization_snapshot_current authorization_data_scope_valid
member_allowed = refl

members_known :
    get_policy "membership-required" member_registry ≡ some (membership_required members)
unfolding machine membership_required authorization_snapshot_current authorization_data_scope_valid
members_known = refl

same_known : get_policy "same-organization" member_registry ≡ some same_organization
unfolding machine membership_required
same_known = refl

authorize-membership_example :
    ask_membership members (request organization []) ≡ some (some is_active)
authorize-membership_example =
    authorize-membership catalog member_registry none "h" (request organization []) members refl
      same_known members_known member_allowed
