-- ===== src/Reconciliation/Complete.antt =====
-- What a plan of backend/scim/reconciliation does for a user who is desired.
use civitas.Prelude.{
  true, false, Option, none, some, List, [], ◌∷◌, ◌++◌, String, of_option, collect, ◌≡◌, refl, inl,
  Among, Among-left, Among-right, Among-sort_by, Among-flat_map, Among-collect,
}
use civitas.Prelude.Maps.{lookup}
use civitas.Reconciliation.{DesiredUser, LogtoUser, Inputs, logto_id, is_active, pair_key}
use civitas.Reconciliation.Planner.{
  suspend_user, add_organization_membership, Action, Tools, Facts, facts_of, action, linked_id,
  actual_of, user_id_of,
}
use civitas.Reconciliation.Loops.{
  user_target, member_target, destructive, link_action, activate_action, suspend_action,
  join_action, role_action, actions_for, or_noop, actions_of, plan_scim_reconciliation,
}

module _ (tools : Tools) (facts : Facts) where
  Among-or_noop :
      (a : Action) (actions : List Action) → Among a actions → Among a (or_noop tools facts actions)
  Among-or_noop a [] h = elim h [ ]
  Among-or_noop a (x ∷ xs) h = h

  Among-actions_of :
      (a : Action) (d : DesiredUser)
      → Among d facts.desired_users
      → Among a (actions_for tools facts d)
      → Among a (actions_of tools facts)
  unfolding actions_of
  Among-actions_of a d h k =
      Among-left a _ _
        (Among-left a _ _ (Among-flat_map (actions_for tools facts) a d facts.desired_users h k))

  -- The actions on the user's own state.
  abbrev own_actions : DesiredUser → List Action
  own_actions d =
      let actual : Option LogtoUser = actual_of tools facts d in
      of_option (link_action tools facts d (linked_id tools facts d) actual)
      ++ of_option (activate_action tools facts d actual)
      ++ of_option (suspend_action tools facts d actual)

  -- The action for a desired membership.
  abbrev pub join_of : String → String → Action
  join_of organization_id user_id =
      action tools add_organization_membership (member_target (some organization_id) user_id)
        "desired_scim_membership_missing" none

  Among-join :
      (d : DesiredUser) (user_id organization_id : String)
      → user_id_of tools facts d ≡ some user_id
      → Among organization_id d.organization_ids
      → lookup (pair_key organization_id user_id) facts.members ≡ none
      → Among (join_of organization_id user_id) (actions_for tools facts d)
  Among-join d user_id organization_id e h missing =
      let a : Action = join_of organization_id user_id in
      let id : Option String = user_id_of tools facts d in
      let joins : List Action = collect (join_action tools facts id) d.organization_ids in
      Among-left a (own_actions d ++ joins) (collect (role_action tools facts d id) d.managed_roles)
        (Among-right a (own_actions d) joins (
          Among-collect (join_action tools facts id) a organization_id d.organization_ids h
            (rw (e, missing) refl)))

  abbrev pub suspension_of : DesiredUser → LogtoUser → Action
  suspension_of d u =
      action tools (destructive facts.needs_approval suspend_user)
        (user_target (logto_id u) d.external_id) "desired_scim_user_inactive" none

  Among-suspension :
      (d : DesiredUser) (u : LogtoUser)
      → actual_of tools facts d ≡ some u
      → d.active ≡ false
      → is_active u ≡ true
      → Among (suspension_of d u) (actions_for tools facts d)
  Among-suspension d u e inactive is_on =
      let a : Action = suspension_of d u in
      let id : Option String = user_id_of tools facts d in
      let actual : Option LogtoUser = actual_of tools facts d in
      let joins : List Action = collect (join_action tools facts id) d.organization_ids in
      let suspended : Among a (of_option (suspend_action tools facts d actual)) =
        rw e (rw (inactive, is_on) (inl refl)) in
      Among-left a (own_actions d ++ joins) (collect (role_action tools facts d id) d.managed_roles)
        (Among-left a (own_actions d) joins (
          Among-right a
            (of_option (link_action tools facts d (linked_id tools facts d) actual)
              ++ of_option (activate_action tools facts d actual))
            (of_option (suspend_action tools facts d actual)) suspended))

module _ (tools : Tools) (inputs : Inputs) (d : DesiredUser) where
  -- A desired user whose identifier in Logto is known is put into every desired organization of which
  -- there is no membership; and if the user is found in Logto and active, but is not to be, the plan
  -- suspends the user or, where the policy says so, asks for approval.
  pub plan_scim_reconciliation_complete :
      (user_id : String)
      → Among d (facts_of tools inputs).desired_users
      → user_id_of tools (facts_of tools inputs) d ≡ some user_id
      → ((organization_id : String)
          → Among organization_id d.organization_ids
          → lookup (pair_key organization_id user_id) (facts_of tools inputs).members ≡ none
          → Among
              (join_of tools (facts_of tools inputs) organization_id user_id)
              (plan_scim_reconciliation tools inputs).actions)
        × ((u : LogtoUser)
            → actual_of tools (facts_of tools inputs) d ≡ some u
            → d.active ≡ false
            → is_active u ≡ true
            → Among
                (suspension_of tools (facts_of tools inputs) d u)
                (plan_scim_reconciliation tools inputs).actions)
  unfolding plan_scim_reconciliation
  plan_scim_reconciliation_complete user_id h e =
      let facts : Facts = facts_of tools inputs in
      let into_plan = λ (a : Action). λ (k : Among a (actions_for tools facts d)).
        Among-sort_by (λ a b. tools.le a.id b.id) a _
          (Among-or_noop tools facts a (actions_of tools facts)
            (Among-actions_of tools facts a d h k)) in
      (
        λ organization_id wanted missing.
            into_plan (join_of tools facts organization_id user_id)
              (Among-join tools facts d user_id organization_id e wanted missing),
        λ u found inactive is_on.
            into_plan (suspension_of tools facts d u)
              (Among-suspension tools facts d u found inactive is_on),
      )
