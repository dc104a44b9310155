-- ===== src/RoleGuard/Tests.antt =====
-- A mapping to a sensitive role, with its review and without its reason.
use civitas.Prelude.{◌≡◌, refl, true, false, none, some, List, [], ◌∷◌, String, any, find}
use civitas.Prelude.Text.{starts_with}
use civitas.Prelude.Json.{text}
use civitas.Prelude.Maps.{lookup}
use civitas.RoleGuard.{
  provisioning_sensitive_role_requires_owner_policy, federation_sensitive_mapping_reason_required,
  provisioning_binding_unverified, provisioning_claim_forbidden, allowed, refused, ApprovalPolicy,
  is_automatic_first_login, assert_provisioned_role_allowed, Mapping,
  assert_federation_role_mapping_allowed, sanitize_external_provisioning_claims,
  assert_verified_tenant_provisioning_binding,
}
use civitas.RoleGuard.Mapped.{IsMapped, assert_federation_role_mapping_allowed-IsMapped}

machine : Unit {0}
unfolding assert_federation_role_mapping_allowed assert_provisioned_role_allowed
    is_automatic_first_login sanitize_external_provisioning_claims
    assert_verified_tenant_provisioning_binding any find lookup starts_with
machine = tt

abbrev roles : List String
roles = "organization_teacher" ∷ "organization_admin" ∷ []

abbrev owner_policy : ApprovalPolicy
owner_policy = record {
  owner_approved = false;
  explicit_owner_policy = false;
  approved_by = some "owner";
  policy_owner = none;
}

abbrev reviewed_mapping : Mapping
reviewed_mapping = record {
  actor = some "ana";
  reason = some "new director";
  policy_version = some "3";
  mapping_version = some "7";
  approval_policy = some owner_policy;
}

mapped :
    assert_federation_role_mapping_allowed roles (some "organization_admin") reviewed_mapping true
    ≡ allowed true
unfolding machine
mapped = refl

unreasoned :
    assert_federation_role_mapping_allowed roles
      (some "organization_admin")
      (record reviewed_mapping { reason = none })
      true
    ≡ refused federation_sensitive_mapping_reason_required
unfolding machine
unreasoned = refl

-- A first login gives no sensitive role by itself.
automatic_refused :
    assert_provisioned_role_allowed roles (some "organization_admin") (record {
      source = "provisioning";
      auto_provisioning_mode = some "jit";
      first_login = true;
      approval_policy = none;
    })
    ≡ refused provisioning_sensitive_role_requires_owner_policy
unfolding machine
automatic_refused = refl

claims_refused :
    sanitize_external_provisioning_claims (("sub", text "u") ∷ ("scope", text "all") ∷ [])
    ≡ refused (provisioning_claim_forbidden "scope")
unfolding machine
claims_refused = refl

binding_refused :
    assert_verified_tenant_provisioning_binding (some "org-1") false
    ≡ refused provisioning_binding_unverified
unfolding machine
binding_refused = refl

assert_federation_role_mapping_allowed-IsMapped_example :
    IsMapped roles "organization_admin" reviewed_mapping
assert_federation_role_mapping_allowed-IsMapped_example =
    assert_federation_role_mapping_allowed-IsMapped roles "organization_admin" reviewed_mapping true
      true mapped
