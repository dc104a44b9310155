-- ===== src/Reconciliation/Loops.antt =====
-- backend/scim/reconciliation/planner.js, the loops of `planScimReconciliation` and the plan.
use civitas.Prelude.{
  Bool, true, false, not, ◌&&◌, ◌||◌, Option, none, some, is_some, or_else, List, [], ◌∷◌, ◌++◌,
  map, String, str_eq, length, any, find, is_nil, select, of_option, flat_map, collect, sort_by,
  if◌then◌else◌,
}
use civitas.Prelude.Maps.{lookup}
use civitas.Reconciliation.{
  DesiredUser, LogtoUser, Membership, ManagedRole, Inputs, truthy, or_text, logto_id, is_active,
  role_name, pair_key, role_entry, id_of,
}
use civitas.Reconciliation.Planner.{
  ActionType, create_user, link_user, activate_user, suspend_user, add_organization_membership,
  remove_organization_membership, add_managed_role, remove_managed_role, block_by_ceiling,
  require_approval, noop, Target, Action, Plan, Tools, Facts, has, facts_of, action, linked_id,
  user_named, actual_of, user_id_of,
}

abbrev pub user_target : Option String → Option String → Target
user_target logto_user_id external_id = record {
  external_id = external_id;
  email = none;
  logto_user_id = logto_user_id;
  organization_id = none;
  organization_ids = none;
  role = none;
}

abbrev pub member_target : Option String → String → Target
member_target organization_id user_id = record {
  external_id = none;
  email = none;
  logto_user_id = some user_id;
  organization_id = organization_id;
  organization_ids = none;
  role = none;
}

-- The type of an action that takes something away.
abbrev pub destructive : Bool → ActionType → ActionType
destructive true type = require_approval
destructive false type = type

abbrev pub wants_role : Option DesiredUser → Option String → Bool
wants_role (some d) (some role) = has role d.managed_roles
wants_role _ _ = false

module _ (tools : Tools) (facts : Facts) where
  abbrev pub link_action : DesiredUser → Option String → Option LogtoUser → Option Action
  link_action d none none = some (
      action tools create_user (record (user_target none d.external_id) { email = d.email })
        "desired_scim_user_missing_in_logto" none)
  link_action d none (some u) = some (
      action tools link_user (user_target (logto_id u) d.external_id)
        "actual_logto_user_missing_civitas_source_link" none)
  link_action d (some id) actual = none

  abbrev pub activate_action : DesiredUser → Option LogtoUser → Option Action
  activate_action d none = none
  activate_action d (some u) =
      if d.active && not (is_active u)
      then some (
          action tools activate_user (user_target (logto_id u) d.external_id)
            "desired_scim_user_active" none)
      else none

  abbrev pub suspend_action : DesiredUser → Option LogtoUser → Option Action
  suspend_action d none = none
  suspend_action d (some u) =
      if not d.active && is_active u
      then some (
          action tools (destructive facts.needs_approval suspend_user)
            (user_target (logto_id u) d.external_id) "desired_scim_user_inactive" none)
      else none

  abbrev pub join_action : Option String → String → Option Action
  join_action none organization_id = none
  join_action (some user_id) organization_id =
      if is_some (lookup (pair_key organization_id user_id) facts.members)
      then none
      else some (
          action tools add_organization_membership (member_target (some organization_id) user_id)
            "desired_scim_membership_missing" none)

  abbrev pub add_role_action : DesiredUser → Option String → String → Option Action
  add_role_action d none role = none
  add_role_action d (some user_id) role =
      if any
        (λ organization_id.
          is_some (lookup (role_entry (some organization_id) user_id role) facts.roles))
        d.organization_ids
      then none
      else some (
          action tools add_managed_role
            (record (member_target none user_id) {
              organization_ids = some d.organization_ids;
              role = some role;
            })
            "desired_scim_managed_role_missing" none)

  abbrev pub role_action : DesiredUser → Option String → String → Option Action
  role_action d user_id role =
      if not (is_nil facts.ceiling) && not (has role facts.ceiling)
      then some (
          action tools block_by_ceiling
            (record (user_target user_id d.external_id) { role = some role })
            "managed_role_not_allowed_by_owner_ceiling" none)
      else add_role_action d user_id role

  abbrev pub actions_for : DesiredUser → List Action
  actions_for d =
      let actual : Option LogtoUser = actual_of tools facts d in
      let user_id : Option String = user_id_of tools facts d in
      of_option (link_action d (linked_id tools facts d) actual)
      ++ of_option (activate_action d actual)
      ++ of_option (suspend_action d actual)
      ++ collect (join_action user_id) d.organization_ids
      ++ collect (role_action d user_id) d.managed_roles

  -- The set `desiredActualIds`.
  abbrev pub desired_ids : List String
  desired_ids = collect (user_id_of tools facts) facts.desired_users

  -- The identifier that the loops over what is there compare with.
  abbrev pub compared_id : DesiredUser → Option String
  compared_id d = or_text (linked_id tools facts d) (id_of (user_named tools facts d))

  abbrev pub membership_keys : DesiredUser → List String
  membership_keys d =
      map (λ organization_id. pair_key organization_id (or_else (compared_id d) "null"))
        d.organization_ids

  abbrev pub leave_action : List String → String × Membership → Option Action
  leave_action keys (k, m) =
      if not (has m.user_id desired_ids) || (has k keys || has m.organization_id facts.protected)
      then none
      else some (
          action tools (destructive facts.needs_approval remove_organization_membership)
            (member_target (some m.organization_id) m.user_id)
            "actual_membership_absent_from_scim_desired_state" none)

  abbrev pub is_user : String → DesiredUser → Bool
  is_user user_id d = elim (compared_id d) [ none ↦ false | some id ↦ str_eq id user_id ]

  abbrev pub drop_role_action : String × ManagedRole → Option Action
  drop_role_action (k, r) =
      if not (has r.user_id desired_ids)
        || wants_role (find (is_user r.user_id) facts.desired_users) (role_name r)
      then none
      else some (
          action tools (destructive facts.needs_approval remove_managed_role)
            (record (member_target (truthy r.organization_id) r.user_id) { role = role_name r })
            "actual_managed_role_absent_from_scim_desired_state" (some k))

  -- The target of this action names no user: it is the scope, a constant.
  abbrev pub noop_action : Action
  noop_action =
      action tools noop (user_target none none) "desired_civitas_and_logto_states_already_converged"
        none

  abbrev pub or_noop : List Action → List Action
  or_noop [] = noop_action ∷ []
  or_noop (a ∷ more) = a ∷ more

  unfoldable pub actions_of : List Action
  unfolding flat_map collect lookup find any select
  actions_of =
      flat_map actions_for facts.desired_users
      ++ collect (leave_action (flat_map membership_keys facts.desired_users)) facts.members
      ++ collect drop_role_action facts.roles

unfoldable pub plan_scim_reconciliation : Tools → Inputs → Plan
unfolding facts_of actions_of sort_by select
plan_scim_reconciliation tools inputs =
    let actions : List Action =
      sort_by (λ a b. tools.le a.id b.id)
        (or_noop tools (facts_of tools inputs) (actions_of tools (facts_of tools inputs))) in
    record {
      action_count = length actions;
      mutation_count = length (select (λ a. a.mutates) actions);
      actions = actions;
      plan_hash = tools.hash_plan inputs actions;
    }
