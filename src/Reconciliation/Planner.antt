-- ===== src/Reconciliation/Planner.antt =====
-- backend/scim/reconciliation/actions.js, and of planner.js the actions and what is computed before the
-- loops. The argument `fingerprint` stands for the sixteen characters of the hash of an action, and
-- `hash_plan` for the hash of a plan.
use civitas.Prelude.{
  ℕ, Bool, true, false, not, Option, none, some, or_else, List, [], ◌∷◌, map, String, append_text,
  str_eq, any, select, flat_map, collect, sort_by,
}
use civitas.Prelude.Text.{is_empty}
use civitas.Prelude.Maps.{lookup, map_of}
use civitas.Reconciliation.{
  DesiredUser, UserLink, LogtoUser, Membership, ManagedRole, Inputs, truthy, or_text, or_list,
  is_false, normalize_desired_user, logto_id, role_name, shown, pair_key, role_entry, key,
  desired_key, logto_key, link_key,
}

pub data ActionType : Type 0 where
  create_user link_user activate_user suspend_user add_organization_membership
        remove_organization_membership add_managed_role remove_managed_role block_by_ceiling
        require_approval noop :
      ActionType

abbrev type_name : ActionType → String
type_name create_user = "CREATE_USER"
type_name link_user = "LINK_USER"
type_name activate_user = "ACTIVATE_USER"
type_name suspend_user = "SUSPEND_USER"
type_name add_organization_membership = "ADD_ORGANIZATION_MEMBERSHIP"
type_name remove_organization_membership = "REMOVE_ORGANIZATION_MEMBERSHIP"
type_name add_managed_role = "ADD_MANAGED_ROLE"
type_name remove_managed_role = "REMOVE_MANAGED_ROLE"
type_name block_by_ceiling = "BLOCK_BY_CEILING"
type_name require_approval = "REQUIRE_APPROVAL"
type_name noop = "NOOP"

abbrev pub is_mutating : ActionType → Bool
is_mutating block_by_ceiling = false
is_mutating require_approval = false
is_mutating noop = false
is_mutating _ = true

pub record Target : Type 0 where
  pub external_id : Option String
  pub email : Option String
  pub logto_user_id : Option String
  pub organization_id : Option String
  pub organization_ids : Option (List String)
  pub role : Option String

pub record Action : Type 0 where
  pub id : String
  pub mutates : Bool
  pub type : ActionType
  pub target : Target
  pub reason : String
  pub role_key : Option String

pub record Plan : Type 0 where
  pub action_count : ℕ
  pub mutation_count : ℕ
  pub actions : List Action
  pub plan_hash : String

-- The functions that the planner calls.
pub record Tools : Type 0 where
  pub lower : String → String
  pub le : String → String → Bool
  pub fingerprint : ActionType → Target → String → Option String → String
  pub hash_plan : Inputs → List Action → String

-- What is computed from the inputs before the loops.
pub record Facts : Type 0 where
  pub desired_users : List DesiredUser
  pub links : List (String × UserLink)
  pub users_by_external : List (String × LogtoUser)
  pub users_by_id : List (String × LogtoUser)
  pub members : List (String × Membership)
  pub roles : List (String × ManagedRole)
  pub ceiling : List String
  pub protected : List String
  pub needs_approval : Bool

abbrev pub has : String → List String → Bool
has s ss = any (λ t. str_eq t s) ss

abbrev named : (String → String) → LogtoUser → List (String × LogtoUser)
named lower u =
    (logto_key lower u, u)
    ∷ (key lower (or_text u.email u.primary_email), u)
    ∷ (key lower (or_text u.user_name u.username), u)
    ∷ []

abbrev with_id : LogtoUser → Option (String × LogtoUser)
with_id u = elim (logto_id u) [ none ↦ none | some id ↦ some (id, u) ]

module _ (tools : Tools) where
  unfoldable pub facts_of : Inputs → Facts
  unfolding map_of flat_map collect sort_by select normalize_desired_user
  facts_of inputs = record {
    desired_users =
        sort_by (λ a b. tools.le (desired_key tools.lower a) (desired_key tools.lower b))
          (map normalize_desired_user inputs.desired_state);
    links = map_of (
        map (λ l. (link_key tools.lower l, l))
          (or_else
            (or_list inputs.civitas_state.user_links
              (or_list inputs.civitas_state.sources inputs.civitas_state.provenance))
            []));
    users_by_external = map_of (
        select (λ entry. not (is_empty entry.0))
          (flat_map (named tools.lower) inputs.logto_state.users));
    users_by_id = map_of (collect with_id inputs.logto_state.users);
    members = map_of (
        map (λ m. (pair_key m.organization_id m.user_id, m))
          inputs.logto_state.organization_memberships);
    roles = map_of (
        map (λ r. (role_entry r.organization_id r.user_id (shown (role_name r)), r))
          (or_else (or_list inputs.logto_state.managed_roles inputs.logto_state.organization_roles)
            []));
    ceiling = or_else (or_list inputs.policy.allowed_managed_roles inputs.policy.ceiling_roles) [];
    protected = inputs.policy.protected_organization_ids;
    needs_approval = not (is_false inputs.policy.destructive_requires_approval);
  }

  abbrev pub action : ActionType → Target → String → Option String → Action
  action type target reason role = record {
    id = append_text (type_name type) (append_text ":" (tools.fingerprint type target reason role));
    mutates = is_mutating type;
    type = type;
    target = target;
    reason = reason;
    role_key = role;
  }

  module _ (facts : Facts) where
    abbrev pub linked_id : DesiredUser → Option String
    linked_id d = elim (lookup (desired_key tools.lower d) facts.links) [
      | none ↦ none
      | some link ↦ truthy link.logto_user_id
    ]

    abbrev pub user_named : DesiredUser → Option LogtoUser
    user_named d = or_list (lookup (desired_key tools.lower d) facts.users_by_external) (
        or_list (lookup (key tools.lower d.email) facts.users_by_external)
          (lookup (key tools.lower d.user_name) facts.users_by_external))

    abbrev pub actual_of : DesiredUser → Option LogtoUser
    actual_of d = elim (linked_id d) [ some id ↦ lookup id facts.users_by_id | none ↦ user_named d ]

    abbrev pub user_id_of : DesiredUser → Option String
    user_id_of d = elim (actual_of d) [ some u ↦ logto_id u | none ↦ linked_id d ]
