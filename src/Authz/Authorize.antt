-- ===== src/Authz/Authorize.antt =====
-- backend/authorization/policies/authorize.js: the checks of an authorization request, in order.
-- The catalogs of core/authz, the registry of policies and the availability of modules are
-- arguments. A decision's copies of versions and hashes for the audit are not modelled.
use civitas.Prelude.{
  ℕ, ◌≡◌, refl, Bool, true, false, not, ◌&&◌, ◌||◌, Option, none, some, List, [], ◌∷◌, ◌++◌, map,
  String, str_eq, any, find, or_else, if◌then◌else◌,
}
use text.Mathlib.Text.{starts_with}
use civitas.Prelude.Text.{is_empty}
use civitas.Authz.Reasons.{
  ReasonCode, authorization_allowed, surface_mismatch, registry_catalog_mismatch,
  permission_unknown, permission_inactive, consumer_surface_mismatch, permission_missing,
  role_path_missing, organization_role_unknown, role_permission_missing, target_role_unknown,
  policy_unknown, policy_evaluation_failed, capability_unavailable,
}
use civitas.Authz.Context.{
  Surface, owner, organization, tenant, self, elsewhere, surface_eq, RolePathId, PolicyOutcome,
  allow, deny, not_applicable, other_outcome, PolicyResult, PathDecision, RolePath, Principal,
  Context, Input, build_policy_context, has, or_text,
}
use civitas.Authz.Registry.{Policy, Registry, get_policy}
pub mod Plan
pub mod Soundness
pub mod Canonical
pub mod Membership
pub mod Tests

pub record Permission : Type 0 where
  pub name : String
  pub surface : String
  pub status : String

-- The generated catalogs of core/authz.
pub record Catalog : Type 0 where
  pub catalog_hash : String
  pub permissions_by_name : String → Option Permission
  pub global_role_permissions : String → Option (List String)
  pub organization_role_permissions : String → Option (List String)

pub record Decision : Type 0 where
  pub allowed : Bool
  pub decision_id : String
  pub permission : String
  pub action_id : String
  pub surface : Surface
  pub organization_id : String
  pub matched_role_path_id : Option RolePathId
  pub evaluated_role_paths : List RolePath
  pub policy_version : String
  pub authorization_snapshot_version : String
  pub reason_code : ReasonCode

abbrev pub canonical_policies : Surface → List String
canonical_policies owner = "authorization-snapshot-current" ∷ []
canonical_policies organization =
    "same-organization" ∷ "membership-required" ∷ "org-role-entitlement-enabled"
    ∷ "authorization-snapshot-current" ∷ "authorization-data-scope-valid" ∷ []
canonical_policies tenant =
    "same-organization" ∷ "membership-required" ∷ "org-role-entitlement-enabled"
    ∷ "authorization-snapshot-current" ∷ "authorization-data-scope-valid" ∷ []
canonical_policies self = "authorization-snapshot-current" ∷ []
canonical_policies (elsewhere s) = []

-- `[...new Set(values)]`
unfoldable pub distinct_from : List String → List String → List String
unfolding any
distinct_from seen [] = seen
distinct_from seen (x ∷ xs) = distinct_from (if has seen x then seen else seen ++ x ∷ []) xs

unfoldable pub derive_authorization_plan : Context → List String
unfolding distinct_from
derive_authorization_plan c = distinct_from [] (canonical_policies c.surface ++ c.required_policies)

abbrev pub is_self : Surface → Bool
is_self self = true
is_self _ = false

abbrev pub is_owner : Surface → Bool
is_owner owner = true
is_owner _ = false

abbrev pub surface_matches : Context → Bool
surface_matches c = elim c.surface [
  | owner ↦ str_eq c.principal.token_type "global" && is_empty c.principal.organization_id
  | organization ↦
      str_eq c.principal.token_type "organization" && not (is_empty c.principal.organization_id)
  | _ ↦ not (is_empty c.principal.subject)
]

abbrev organization_permission : Permission → Bool
organization_permission p = str_eq p.surface "organization" && not (starts_with p.name "owner.")

abbrev pub permission_surface_matches : Permission → Surface → Bool
permission_surface_matches p owner = str_eq p.surface "owner" || str_eq p.surface "global"
permission_surface_matches p organization = organization_permission p
permission_surface_matches p tenant = organization_permission p
permission_surface_matches p self = str_eq p.surface "self" || str_eq p.surface "account"
permission_surface_matches p (elsewhere s) = false

-- The role's permissions and the request's permission.
abbrev pub role_potential : Option (List String) → String → PathDecision
role_potential none permission = record { allowed = false; reason_code = organization_role_unknown }
role_potential (some permissions) permission =
    if has permissions permission
    then record { allowed = true; reason_code = authorization_allowed }
    else record { allowed = false; reason_code = role_permission_missing }

abbrev pub is_known : Option (List String) → Bool
is_known none = false
is_known (some _) = true

abbrev pub grants : Option (List String) → String → Bool
grants none permission = false
grants (some permissions) permission = has permissions permission

abbrev pub is_potential : RolePath → Bool
is_potential path = elim path.role_potential_decision [ none ↦ false | some d ↦ d.allowed ]

abbrev no_paths : List RolePath → Bool
no_paths [] = true
no_paths (_ ∷ _) = false

abbrev pub add_result : PolicyResult → RolePath → RolePath
add_result result path = record path { policy_results = path.policy_results ++ result ∷ [] }

abbrev pub path_id : Option RolePath → Option RolePathId
path_id none = none
path_id (some path) = some path.role_path_id

abbrev first_of_paths : List RolePath → Option RolePath
first_of_paths [] = none
first_of_paths (path ∷ _) = some path

-- `a || b` on what may be missing.
abbrev or_some : {A : Type 0} → Option A → Option A → Option A
or_some none b = b
or_some (some a) b = some a

-- The path on which the permission rests before any policy is asked.
abbrev pub first_match : List RolePath → Option RolePathId
first_match paths = or_some (path_id (find is_potential paths)) (path_id (first_of_paths paths))

-- What a result's metadata make of the matched path.
abbrev matched_after : PolicyResult → List RolePath → Option RolePathId → Option RolePathId
matched_after result paths matched =
    let named = or_some result.role_path_id matched in
    if is_empty result.matched_grantor_role_id
    then named
    else or_some
        (path_id (find (λ path. str_eq path.logto_role_id result.matched_grantor_role_id) paths))
        named

-- The metadata do not reach the decision.
abbrev sanitize_result : PolicyResult → PolicyResult
sanitize_result r = record r { role_path_id = none; matched_grantor_role_id = "" }

abbrev sanitize_results : List PolicyResult → List PolicyResult
sanitize_results results = map {A = PolicyResult} {B = PolicyResult} sanitize_result results

abbrev sanitize_path : RolePath → RolePath
sanitize_path path = record path { policy_results = sanitize_results path.policy_results }

unfoldable pub sanitize_role_paths : List RolePath → List RolePath
sanitize_role_paths paths = map {A = RolePath} {B = RolePath} sanitize_path paths

unfoldable pub deny_decision : Context → ReasonCode → Decision
unfolding sanitize_role_paths
deny_decision c reason = record {
  allowed = false;
  decision_id = c.decision_id;
  permission = c.permission;
  action_id = c.action_id;
  surface = c.surface;
  organization_id = c.principal.organization_id;
  matched_role_path_id = none;
  evaluated_role_paths = sanitize_role_paths c.role_paths;
  policy_version = c.policy_version;
  authorization_snapshot_version =
      or_text c.snapshot_version (or_text c.policy_version "unspecified");
  reason_code = reason;
}

unfoldable pub allow_decision : Context → Option RolePathId → Decision
unfolding deny_decision
allow_decision c matched = record (deny_decision c authorization_allowed) {
  allowed = true;
  matched_role_path_id = matched;
}

-- The permissions of each role, by the surface of the request.
abbrev pub role_potential_for_surface : Catalog → Surface → String → Option (List String)
role_potential_for_surface catalog owner = catalog.global_role_permissions
role_potential_for_surface catalog _ = catalog.organization_role_permissions

abbrev with_potential : (String → Option (List String)) → String → RolePath → RolePath
with_potential potentials permission path = record path {
  role_potential_decision = some (role_potential (potentials path.logto_role_id) permission);
}

abbrev decide_paths : (String → Option (List String)) → String → List RolePath → List RolePath
decide_paths potentials permission paths =
    map {A = RolePath} {B = RolePath} (with_potential potentials permission) paths

-- A path whose role the catalog knows, and one whose role grants the permission.
abbrev pub path_known : (String → Option (List String)) → RolePath → Bool
path_known potentials path = is_known (potentials path.logto_role_id)

abbrev pub path_grants : (String → Option (List String)) → String → RolePath → Bool
path_grants potentials permission path = grants (potentials path.logto_role_id) permission

abbrev potential_failure : (String → Option (List String)) → Context → Option ReasonCode
potential_failure potentials c =
    if not (any (path_known potentials) c.role_paths)
    then some (if is_owner c.surface then target_role_unknown else organization_role_unknown)
    else if not (any (path_grants potentials c.permission) c.role_paths)
    then some role_permission_missing
    else none

-- The reason to refuse, and the context with the decision on each path.
unfoldable pub validate_role_potential : Catalog → Context → Option ReasonCode × Context
unfolding any
validate_role_potential catalog c =
    let potentials = role_potential_for_surface catalog c.surface in
    if is_self c.surface
    then (none, c)
    else if no_paths c.role_paths
    then (some role_path_missing, c)
    else (
      potential_failure potentials c,
      record c { role_paths = decide_paths potentials c.permission c.role_paths },
    )

-- What the resolver of module availability answers; `is_active` is its status.
pub record Availability : Type 0 where
  pub executable : Option Bool
  pub is_active : Bool
  pub reason : Option ReasonCode

abbrev availability_reason : Option ReasonCode → ReasonCode
availability_reason none = capability_unavailable
availability_reason (some r) = r

abbrev availability_failure : Option Availability → Option ReasonCode
availability_failure none = none
availability_failure (some a) = elim a.executable [
  | some true ↦ none
  | some false ↦ some (availability_reason a.reason)
  | none ↦ if a.is_active then none else some (availability_reason a.reason)
]

abbrev pub Resolver : Type 0
Resolver = Option (Context → Permission → Option Availability)

unfoldable pub resolve_module_availability : Resolver → Context → Permission → Option ReasonCode
resolve_module_availability none c p = none
resolve_module_availability (some resolve) c p = availability_failure (resolve c p)

-- A result stops the request unless the policy's answer lets it go on.
abbrev pub result_failure : Policy → PolicyResult → Option ReasonCode
result_failure policy result = elim result.outcome [
  | allow ↦ none
  | deny ↦ some result.reason_code
  | not_applicable ↦ if policy.allow_not_applicable then none else some result.reason_code
  | other_outcome ↦ none
]

abbrev pub add_results : PolicyResult → Context → Context
add_results result c = record c {
  role_paths = map {A = RolePath} {B = RolePath} (add_result result) c.role_paths;
}

abbrev pub has_scope : RolePath → Bool
has_scope path = path.token_scope_present

-- The end of the request, when each policy of the plan has answered.
abbrev pub conclude : Context → Option RolePathId → Decision
conclude c matched =
    if not (no_paths c.role_paths) && not (any has_scope c.role_paths)
    then deny_decision c permission_missing
    else allow_decision c matched

-- What follows in the plan.
abbrev Next : Type 0
Next = Context → Option RolePathId → Decision

abbrev pub after_result : Option ReasonCode → PolicyResult → Next → Next
after_result (some reason) result next c matched = deny_decision c reason
after_result none result next c matched = next c (matched_after result c.role_paths matched)

-- The context is the one that the policy has left.
abbrev pub after_evaluation :
    Policy → Next → Option PolicyResult × Context → Option RolePathId → Decision
after_evaluation policy next (none, c) matched = deny_decision c policy_evaluation_failed
after_evaluation policy next (some result, c) matched =
    after_result (result_failure policy result) result next (add_results result c) matched

abbrev pub supports : Policy → Surface → Bool
supports policy surface = any (surface_eq surface) policy.supported_surfaces

abbrev pub run_policy : Option Policy → Next → Next
run_policy none next c matched = deny_decision c policy_unknown
run_policy (some policy) next c matched =
    if not (supports policy c.surface)
    then deny_decision c surface_mismatch
    else after_evaluation policy next (policy.evaluate c) matched

-- The loop over the plan.
unfoldable pub run_plan : Registry → List String → Context → Option RolePathId → Decision
unfolding any find
run_plan registry [] c matched = conclude c matched
run_plan registry (id ∷ ids) c matched =
    run_policy (get_policy id registry) (run_plan registry ids) c matched

abbrev pub after_potential : Registry → Option ReasonCode × Context → Decision
after_potential registry (some reason, c) = deny_decision c reason
after_potential registry (none, c) =
    run_plan registry (derive_authorization_plan c) c (first_match c.role_paths)

abbrev pub after_availability :
    Catalog → Registry → Permission → Option ReasonCode → Context → Decision
after_availability catalog registry p (some reason) c = deny_decision c reason
after_availability catalog registry p none c =
    if not (str_eq p.status "active")
    then deny_decision c permission_inactive
    else if not (permission_surface_matches p c.surface)
    then deny_decision c consumer_surface_mismatch
    else if not (surface_matches c)
    then deny_decision c surface_mismatch
    else if not (has c.principal.scopes c.permission)
    then deny_decision c permission_missing
    else after_potential registry (validate_role_potential catalog c)

abbrev pub with_permission : Catalog → Registry → Resolver → Option Permission → Context → Decision
with_permission catalog registry resolver none c = deny_decision c permission_unknown
with_permission catalog registry resolver (some p) c =
    after_availability catalog registry p (resolve_module_availability resolver c p) c

-- `required` is the hash of the catalog on which the caller insists, if any.
unfoldable pub authorize_context : Catalog → Registry → Resolver → String → Context → Decision
unfolding any
authorize_context catalog registry resolver required c =
    if is_empty c.principal.subject
    then deny_decision c surface_mismatch
    else if not (is_empty required) && not (str_eq required catalog.catalog_hash)
    then deny_decision c registry_catalog_mismatch
    else with_permission catalog registry resolver (catalog.permissions_by_name c.permission) c

unfoldable pub authorize : Catalog → Registry → Resolver → String → Input → Decision
unfolding build_policy_context
authorize catalog registry resolver fresh_id input =
    authorize_context catalog registry resolver input.required_catalog_hash
      (build_policy_context fresh_id input)
