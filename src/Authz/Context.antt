-- ===== src/Authz/Context.antt =====
-- backend/authorization/policies/policyContext.js and policyResult.js: what a policy reads and
-- answers. The source tests these texts for being there, so one that is missing is the empty text.
-- `role_path_i_r` is the pair of i and r.
use civitas.Prelude.{
  ℕ, ◌+◌, Bool, true, false, not, ◌&&◌, Option, none, some, List, [], ◌∷◌, String, str_eq, any,
  select, or_else, ◌==◌, if◌then◌else◌,
}
use civitas.Prelude.Text.{is_empty}
use civitas.Authz.Reasons.{ReasonCode}

pub data Surface : Type 0 where
  owner organization tenant self : Surface
  elsewhere : String → Surface

abbrev pub surface_eq : Surface → Surface → Bool
surface_eq owner owner = true
surface_eq organization organization = true
surface_eq tenant tenant = true
surface_eq self self = true
surface_eq (elsewhere s) (elsewhere t) = str_eq s t
surface_eq _ _ = false

pub record RolePathId : Type 0 where
  pub index : ℕ
  pub role : String

abbrev pub path_id_eq : RolePathId → RolePathId → Bool
path_id_eq a b = a.index == b.index && str_eq a.role b.role

pub data PolicyOutcome : Type 0 where
  allow deny not_applicable other_outcome : PolicyOutcome

-- A policy's result; of its metadata, the two entries that the decision reads.
pub record PolicyResult : Type 0 where
  pub policy_id : String
  pub outcome : PolicyOutcome
  pub reason_code : ReasonCode
  pub role_path_id : Option RolePathId
  pub matched_grantor_role_id : String

pub record PathDecision : Type 0 where
  pub allowed : Bool
  pub reason_code : ReasonCode

pub record RolePath : Type 0 where
  pub role_path_id : RolePathId
  pub logto_role_id : String
  pub token_scope_present : Bool
  pub role_potential_decision : Option PathDecision
  pub delegation_decision : Option PathDecision
  pub entitlement_decision : Option PathDecision
  pub policy_results : List PolicyResult

pub record Principal : Type 0 where
  pub subject : String
  pub token_type : String
  pub organization_id : String
  pub scopes : List String
  pub global_role_ids : List String
  pub organization_role_ids : List String
  pub actor_subject : String
  pub effective_subject : String
  pub token_issued_at : Option ℕ

-- `context.target` or `context.resource`, as far as the policies read them.
pub record Target : Type 0 where
  pub organization_id : String
  pub role_id : String
  pub role_ids : List String
  pub user_id : String

pub record Context : Type 0 where
  pub decision_id : String
  pub principal : Principal
  pub surface : Surface
  pub operation : String
  pub route_organization_id : String
  pub permission : String
  pub action_id : String
  pub required_policies : List String
  pub policy_version : String
  pub snapshot_version : String
  pub target : Option Target
  pub resource : Option Target
  pub role_paths : List RolePath
  pub delegation_allowed : Option Bool

-- `asArray`: what is falsy is left out.
abbrev pub as_array : List String → List String
as_array values = select (λ s. not (is_empty s)) values

abbrev pub has : List String → String → Bool
has values s = any (str_eq s) values

paths_from : ℕ → List String → Bool → List RolePath
paths_from index [] present = []
paths_from index (role ∷ roles) present =
    record {
      role_path_id = record { index = index; role = role };
      logto_role_id = role;
      token_scope_present = present;
      role_potential_decision = none;
      delegation_decision = none;
      entitlement_decision = none;
      policy_results = [];
    }
    ∷ paths_from (index + 1) roles present

unfoldable pub build_role_paths : Principal → String → List RolePath
unfolding paths_from any select
build_role_paths principal permission =
    paths_from 0
      (as_array (
        if str_eq principal.token_type "global"
        then principal.global_role_ids
        else principal.organization_role_ids))
      (has principal.scopes permission)

-- The principal that a request hands over.
pub record RawPrincipal : Type 0 where
  pub subject : String
  pub sub : String
  pub token_type : String
  pub organization_id : String
  pub scopes : List String
  pub global_role_ids : Option (List String)
  pub global_roles : List String
  pub organization_role_ids : Option (List String)
  pub organization_roles : List String
  pub actor_subject : String
  pub effective_subject : String
  pub token_issued_at : Option ℕ
  pub issued_at : Option ℕ

-- `a || b` on texts.
abbrev pub or_text : String → String → String
or_text a b = if is_empty a then b else a

-- `a || b` on moments, of which 0 is false.
abbrev pub or_moment : Option ℕ → Option ℕ → Option ℕ
or_moment none b = b
or_moment (some n) b = if n == 0 then b else some n

unfoldable pub normalize_principal : RawPrincipal → Principal
unfolding select
normalize_principal p = record {
  subject = or_text p.subject p.sub;
  token_type = p.token_type;
  organization_id = p.organization_id;
  scopes = as_array p.scopes;
  global_role_ids = as_array (or_else p.global_role_ids p.global_roles);
  organization_role_ids = as_array (or_else p.organization_role_ids p.organization_roles);
  actor_subject = p.actor_subject;
  effective_subject = or_text p.effective_subject (or_text p.subject p.sub);
  token_issued_at = or_moment p.token_issued_at p.issued_at;
}

-- What a request hands over; `organization_id` and `route_organization_id` are the two names under
-- which the source looks for the organization of the route.
pub record Input : Type 0 where
  pub principal : RawPrincipal
  pub decision_id : String
  pub surface : Surface
  pub operation : String
  pub organization_id : String
  pub route_organization_id : String
  pub permission : String
  pub action_id : String
  pub policies : List String
  pub policy_version : String
  pub snapshot_version : String
  pub target : Option Target
  pub resource : Option Target
  pub delegation_allowed : Option Bool
  pub required_catalog_hash : String

-- `fresh_id` is what `createDecisionId` gives.
unfoldable pub build_policy_context : String → Input → Context
unfolding build_role_paths normalize_principal
build_policy_context fresh_id input =
    let principal = normalize_principal input.principal in
    record {
      decision_id = or_text input.decision_id fresh_id;
      principal = principal;
      surface = input.surface;
      operation = input.operation;
      route_organization_id = or_text input.organization_id input.route_organization_id;
      permission = input.permission;
      action_id = input.action_id;
      required_policies = input.policies;
      policy_version = input.policy_version;
      snapshot_version = input.snapshot_version;
      target = input.target;
      resource = input.resource;
      role_paths = build_role_paths principal input.permission;
      delegation_allowed = input.delegation_allowed;
    }
