-- ===== src/RoleGuard.antt =====
-- backend/authorization/provisioningGuard.js: which organization roles provisioning may give. The
-- roles that there are come from generated data and are the argument `organization_roles`; a value
-- that is missing is `none`.
use civitas.Prelude.{
  Bool, true, false, not, ◌&&◌, ◌||◌, Option, none, some, List, [], ◌∷◌, String, str_eq, any, find,
  if◌then◌else◌, ◌==◌,
}
use civitas.Prelude.Text.{is_empty, starts_with}
use civitas.Prelude.Json.{is_truthy, Value, object, array, text, boolean, number, null}
use civitas.Prelude.Maps.{lookup}
pub mod Mapped
pub mod Tests

abbrev pub sensitive_organization_roles : List String
sensitive_organization_roles =
    "organization_admin" ∷ "organization_director" ∷ "organization_accountant"
    ∷ "organization_billing" ∷ "organization_payroll" ∷ "organization_headdirector" ∷ []

abbrev automatic_provisioning_sources : List String
automatic_provisioning_sources = "jit_default_roles" ∷ "federated_jit" ∷ []

abbrev automatic_modes : List String
automatic_modes = "automatic" ∷ "auto" ∷ "jit" ∷ "federated_jit" ∷ []

pub data ErrorCode : Type 0 where
  provisioning_role_not_canonical provisioning_owner_role_forbidden
        provisioning_sensitive_role_requires_owner_policy
        federation_sensitive_mapping_actor_required federation_sensitive_mapping_reason_required
        federation_sensitive_mapping_policy_version_required
        federation_sensitive_mapping_version_required provisioning_binding_unverified :
      ErrorCode
  provisioning_claim_forbidden : String → ErrorCode

pub data Guarded {ℓ} (A : Type ℓ) : Type ℓ where
  allowed : A → Guarded A
  refused : ErrorCode → Guarded A

pub record ApprovalPolicy : Type 0 where
  pub owner_approved : Bool
  pub explicit_owner_policy : Bool
  pub approved_by : Option String
  pub policy_owner : Option String

abbrev pub is_text : Option String → String → Bool
is_text none t = false
is_text (some s) t = str_eq s t

abbrev pub lists : List String → String → Bool
lists names name = any (str_eq name) names

abbrev pub has_explicit_owner_policy : Option ApprovalPolicy → Bool
has_explicit_owner_policy none = false
has_explicit_owner_policy (some p) =
    p.owner_approved
    || p.explicit_owner_policy
    || is_text p.approved_by "owner"
    || is_text p.policy_owner "owner"

abbrev lists_mode : Option String → Bool
lists_mode none = false
lists_mode (some mode) = lists automatic_modes mode

unfoldable pub is_automatic_first_login : String → Option String → Bool → Bool
unfolding any
is_automatic_first_login source mode first_login =
    lists automatic_provisioning_sources source || first_login && lists_mode mode

-- The request of `assertProvisionedRoleAllowed`, but for the name of the role.
pub record Provisioned : Type 0 where
  pub source : String
  pub auto_provisioning_mode : Option String
  pub first_login : Bool
  pub approval_policy : Option ApprovalPolicy

abbrev pub is_owner_role : String → Bool
is_owner_role name = str_eq name "owner_global" || starts_with name "owner_"

module _ (organization_roles : List String) where
  -- The checks of a role's name that is a string other than the empty one.
  abbrev check_named : String → Provisioned → Guarded (Unit {0})
  check_named name p =
      if is_owner_role name
      then refused provisioning_owner_role_forbidden
      else if not (lists organization_roles name)
      then refused provisioning_role_not_canonical
      else if lists sensitive_organization_roles name
          && (is_automatic_first_login p.source p.auto_provisioning_mode p.first_login
              && not (has_explicit_owner_policy p.approval_policy))
      then refused provisioning_sensitive_role_requires_owner_policy
      else allowed tt

  abbrev check_name : Option String → Provisioned → Guarded (Unit {0})
  check_name none p = refused provisioning_role_not_canonical
  check_name (some name) p =
      if is_empty name then refused provisioning_role_not_canonical else check_named name p

  unfoldable pub assert_provisioned_role_allowed : Option String → Provisioned → Guarded (Unit {0})
  unfolding any starts_with is_automatic_first_login
  assert_provisioned_role_allowed role_name p = check_name role_name p

abbrev pub is_set : Option String → Bool
is_set none = false
is_set (some s) = not (is_empty s)

-- The request of `assertFederationRoleMappingAllowed`, but for the role and its recorder.
pub record Mapping : Type 0 where
  pub actor : Option String
  pub reason : Option String
  pub policy_version : Option String
  pub mapping_version : Option String
  pub approval_policy : Option ApprovalPolicy

abbrev pub and_then {ℓ κ} : {A : Type ℓ} {B : Type κ} → Guarded A → (A → Guarded B) → Guarded B
and_then (allowed a) f = f a
and_then (refused e) f = refused e

abbrev pub unless : Bool → ErrorCode → Guarded (Unit {0})
unless true e = allowed tt
unless false e = refused e

abbrev is_sensitive : Option String → Bool
is_sensitive none = false
is_sensitive (some name) = lists sensitive_organization_roles name

-- The answer is whether the review of a sensitive mapping is recorded, where there is a recorder.
abbrev pub check_sensitive : Mapping → Bool → Guarded Bool
check_sensitive m has_audit =
    and_then (unless (is_set m.actor) federation_sensitive_mapping_actor_required) λ _.
      and_then (unless (is_set m.reason) federation_sensitive_mapping_reason_required) λ _.
        and_then
          (unless (is_set m.policy_version) federation_sensitive_mapping_policy_version_required)
          λ _.
            and_then
              (unless (is_set m.mapping_version) federation_sensitive_mapping_version_required)
              λ _. allowed has_audit

abbrev pub federated : Option ApprovalPolicy → Provisioned
federated policy = record {
  source = "federated_jit";
  auto_provisioning_mode = none;
  first_login = false;
  approval_policy = policy;
}

unfoldable pub assert_federation_role_mapping_allowed :
    List String → Option String → Mapping → Bool → Guarded Bool
unfolding assert_provisioned_role_allowed any
assert_federation_role_mapping_allowed organization_roles role_name m has_audit =
    and_then
      (assert_provisioned_role_allowed organization_roles role_name (federated m.approval_policy))
      λ _. if is_sensitive role_name then check_sensitive m has_audit else allowed false

abbrev pub forbidden_keys : List String
forbidden_keys =
    "permissions" ∷ "permission" ∷ "scopes" ∷ "scope" ∷ "actionIds" ∷ "action_ids" ∷ "ownerCeilings"
    ∷ "owner_ceilings" ∷ "tenantActivations" ∷ "tenant_activations" ∷ "dataScopes" ∷ "data_scopes"
    ∷ "owner_global" ∷ "tenantId" ∷ "tenant_id" ∷ "organizationId" ∷ []

abbrev or_value : Option Value → Value → Value
or_value none next = next
or_value (some v) next = if is_truthy v then v else next

pub record SafeClaims : Type 0 where
  pub subject : Value
  pub email : Value

abbrev claim_key : String × Value → String
claim_key (key, value) = key

abbrev pub has_key : List (String × Value) → String → Bool
has_key claims key = any (λ c. str_eq (claim_key c) key) claims

abbrev safe_unless : Option String → List (String × Value) → Guarded SafeClaims
safe_unless (some key) claims = refused (provisioning_claim_forbidden key)
safe_unless none claims = allowed (record {
  subject = or_value (lookup "sub" claims) (or_value (lookup "subject" claims) null);
  email = or_value (lookup "email" claims) null;
})

unfoldable pub sanitize_external_provisioning_claims : List (String × Value) → Guarded SafeClaims
unfolding any find lookup
sanitize_external_provisioning_claims claims =
    safe_unless (find (has_key claims) forbidden_keys) claims

unfoldable pub assert_verified_tenant_provisioning_binding :
    Option String → Bool → Guarded (Unit {0})
assert_verified_tenant_provisioning_binding organization_id verified =
    if is_set organization_id && verified
    then allowed tt
    else refused provisioning_binding_unverified
