-- ===== src/Authz/Reasons.antt =====
-- The reason codes of backend/authorization/policies/reasonCodes.js. `other` is a code that a
-- provider answers with and that is none of these.
use Prim.Native.String.{String}

pub data ReasonCode : Type 0 where
  authorization_allowed permission_missing permission_inactive : ReasonCode
  permission_unknown registry_catalog_mismatch consumer_surface_mismatch : ReasonCode
  surface_mismatch role_path_missing organization_context_missing : ReasonCode
  organization_route_mismatch resource_organization_mismatch membership_required : ReasonCode
  membership_revoked membership_stale membership_unavailable : ReasonCode
  delegation_rule_missing delegation_operation_denied delegation_tenant_restricted : ReasonCode
  target_role_not_delegable self_privilege_change_forbidden owner_global_modification_forbidden :
      ReasonCode
  privilege_escalation_detected target_role_exceeds_owner_ceiling target_role_unknown : ReasonCode
  privilege_comparison_unavailable resource_not_found_or_not_accessible
        resource_ownership_unavailable :
      ReasonCode
  policy_unknown policy_provider_missing policy_evaluation_failed : ReasonCode
  authorization_snapshot_stale token_scope_missing organization_role_unknown : ReasonCode
  role_permission_missing owner_ceiling_missing owner_ceiling_denied : ReasonCode
  tenant_activation_missing tenant_activation_denied tenant_activation_exceeds_owner_ceiling :
      ReasonCode
  tenant_activation_locked authorization_policy_unavailable authorization_policy_version_conflict :
      ReasonCode
  module_not_installed module_disabled module_suspended : ReasonCode
  capability_unavailable runtime_incompatible runtime_unavailable : ReasonCode
  critical_operation_reason_required critical_operation_idempotency_required audit_intent_missing :
      ReasonCode
  audit_sink_unavailable connector_disabled connector_state_unknown : ReasonCode
  connector_state_unavailable seat_unavailable seat_state_unknown : ReasonCode
  seat_provider_unavailable feature_disabled feature_state_unknown : ReasonCode
  feature_provider_unavailable impersonation_not_allowed impersonation_target_ineligible :
      ReasonCode
  impersonation_chaining_forbidden impersonation_expired critical_action_restricted : ReasonCode
  other : String → ReasonCode
