-- ===== src/Reconciliation/Allowed.antt =====
-- What a plan of backend/scim/reconciliation may take away, and which roles it may give.
use civitas.Prelude.{
  Bool, true, false, not, ◌&&◌, ◌||◌, Option, none, some, is_some, List, [], ◌∷◌, String, any, find,
  is_nil, of_option, flat_map, if◌then◌else◌, ◌≡◌, refl, ◌⊎◌, inl, inr, All, All-append,
  All-flat_map, All-collect, All-sort_by,
}
use civitas.Prelude.Maps.{lookup}
use civitas.Reconciliation.{
  DesiredUser, LogtoUser, Membership, ManagedRole, Inputs, truthy, logto_id, is_active, role_name,
  pair_key, role_entry,
}
use civitas.Reconciliation.Planner.{
  ActionType, suspend_user, remove_organization_membership, add_managed_role, remove_managed_role,
  Target, Action, Tools, Facts, has, facts_of, linked_id, actual_of, user_id_of,
}
use civitas.Reconciliation.Loops.{
  user_target, member_target, destructive, wants_role, link_action, activate_action, suspend_action,
  join_action, add_role_action, role_action, actions_for, desired_ids, membership_keys,
  leave_action, is_user, drop_role_action, or_noop, actions_of, plan_scim_reconciliation,
}

module _ {A : Type 0} (P : A → Type 0) where
  when : (b : Bool) (a : A) → (b ≡ true → P a) → All P (of_option (if b then some a else none))
  when true a h = (h refl, tt)
  when false a h = tt

  unless : (b : Bool) (a : A) → (b ≡ false → P a) → All P (of_option (if b then none else some a))
  unless true a h = tt
  unless false a h = (h refl, tt)

second : (a b : Bool) → (a || b) ≡ false → b ≡ false
second true b e = cc
second false b e = e

passed : (desired kept : Bool) → (not desired || kept) ≡ false → (desired ≡ true) × (kept ≡ false)
passed true false e = (refl, refl)
passed true true e = cc
passed false _ e = cc

module _ (tools : Tools) (facts : Facts) where
  -- The user of an action is one of the desired users.
  abbrev pub IsDesired : Target → Type 0
  IsDesired t =
      (id : String) × (t.logto_user_id ≡ some id) × (has id (desired_ids tools facts) ≡ true)

  abbrev pub IsAllowed : ActionType → Target → Type 0
  IsAllowed suspend_user t = facts.needs_approval ≡ false
  IsAllowed remove_organization_membership t =
      (facts.needs_approval ≡ false)
      × IsDesired t
      × (organization_id : String) × (t.organization_id ≡ some organization_id)
      × (has organization_id facts.protected ≡ false)
  IsAllowed remove_managed_role t = (facts.needs_approval ≡ false) × IsDesired t
  IsAllowed add_managed_role t =
      (role : String) × (t.role ≡ some role)
      × ((is_nil facts.ceiling ≡ true) ⊎ (has role facts.ceiling ≡ true))
  IsAllowed _ t = Unit

  abbrev pub Allows : Action → Type 0
  Allows a = IsAllowed a.type a.target

  destructive-Allows :
      (needs : Bool) (type : ActionType) (target : Target)
      → facts.needs_approval ≡ needs
      → (facts.needs_approval ≡ false → IsAllowed type target)
      → IsAllowed (destructive needs type) target
  destructive-Allows true type target e h = tt
  destructive-Allows false type target e h = h e

  link_action-Allows :
      (d : DesiredUser) (linked : Option String) (actual : Option LogtoUser)
      → All Allows (of_option (link_action tools facts d linked actual))
  link_action-Allows d none none = (tt, tt)
  link_action-Allows d none (some u) = (tt, tt)
  link_action-Allows d (some id) actual = tt

  activate_action-Allows :
      (d : DesiredUser) (actual : Option LogtoUser)
      → All Allows (of_option (activate_action tools facts d actual))
  activate_action-Allows d none = tt
  activate_action-Allows d (some u) = when Allows (d.active && not (is_active u)) _ (λ _. tt)

  suspend_action-Allows :
      (d : DesiredUser) (actual : Option LogtoUser)
      → All Allows (of_option (suspend_action tools facts d actual))
  suspend_action-Allows d none = tt
  suspend_action-Allows d (some u) = when Allows (not d.active && is_active u) _ (λ _.
      destructive-Allows facts.needs_approval suspend_user (user_target (logto_id u) d.external_id)
        refl (λ n. n))

  join_action-Allows :
      (user_id : Option String) (organization_id : String)
      → All Allows (of_option (join_action tools facts user_id organization_id))
  join_action-Allows none organization_id = tt
  join_action-Allows (some id) organization_id =
      unless Allows (is_some (lookup (pair_key organization_id id) facts.members)) _ (λ _. tt)

  add_role_action-Allows :
      (d : DesiredUser) (user_id : Option String) (role : String)
      → (is_nil facts.ceiling ≡ true) ⊎ (has role facts.ceiling ≡ true)
      → All Allows (of_option (add_role_action tools facts d user_id role))
  add_role_action-Allows d none role h = tt
  add_role_action-Allows d (some id) role h =
      unless Allows
        (any
          (λ organization_id.
            is_some (lookup (role_entry (some organization_id) id role) facts.roles))
          d.organization_ids)
        _ (λ _. (role, refl, h))

  ceiling-cases :
      (empty inside : Bool) (blocked : Action) (given : Option Action)
      → Allows blocked
      → ((empty ≡ true) ⊎ (inside ≡ true) → All Allows (of_option given))
      → All Allows (of_option (if not empty && not inside then some blocked else given))
  ceiling-cases true inside blocked given h k = k (inl refl)
  ceiling-cases false true blocked given h k = k (inr refl)
  ceiling-cases false false blocked given h k = (h, tt)

  role_action-Allows :
      (d : DesiredUser) (user_id : Option String) (role : String)
      → All Allows (of_option (role_action tools facts d user_id role))
  role_action-Allows d user_id role =
      ceiling-cases (is_nil facts.ceiling) (has role facts.ceiling) _
        (add_role_action tools facts d user_id role) tt (add_role_action-Allows d user_id role)

  leave_action-Allows :
      (keys : List String) (entry : String × Membership)
      → All Allows (of_option (leave_action tools facts keys entry))
  leave_action-Allows keys (k, m) =
      let user : Bool = has m.user_id (desired_ids tools facts) in
      let target : Target = member_target (some m.organization_id) m.user_id in
      unless Allows (not user || (has k keys || has m.organization_id facts.protected)) _ (λ e.
        let (desired, kept) = passed user (has k keys || has m.organization_id facts.protected) e in
        destructive-Allows facts.needs_approval remove_organization_membership target refl (λ n. (
          n,
          (m.user_id, refl, desired),
          m.organization_id,
          refl,
          second (has k keys) (has m.organization_id facts.protected) kept,
        )))

  drop_role_action-Allows :
      (entry : String × ManagedRole) → All Allows (of_option (drop_role_action tools facts entry))
  drop_role_action-Allows (k, r) =
      let user : Bool = has r.user_id (desired_ids tools facts) in
      let wanted : Bool =
        wants_role (find (is_user tools facts r.user_id) facts.desired_users) (role_name r) in
      unless Allows (not user || wanted) _ (λ e.
        destructive-Allows facts.needs_approval remove_managed_role
          (record (member_target (truthy r.organization_id) r.user_id) { role = role_name r }) refl
          (λ n. (n, (r.user_id, refl, (passed user wanted e).0))))

  actions_for-Allows : (d : DesiredUser) → All Allows (actions_for tools facts d)
  actions_for-Allows d =
      let actual : Option LogtoUser = actual_of tools facts d in
      let user_id : Option String = user_id_of tools facts d in
      All-append Allows _ _
        (All-append Allows _ _
          (All-append Allows _ _
            (All-append Allows _ _ (link_action-Allows d (linked_id tools facts d) actual)
              (activate_action-Allows d actual))
            (suspend_action-Allows d actual))
          (All-collect Allows (join_action tools facts user_id) d.organization_ids
            (join_action-Allows user_id)))
        (All-collect Allows (role_action tools facts d user_id) d.managed_roles
          (role_action-Allows d user_id))

  actions_of-Allows : All Allows (actions_of tools facts)
  unfolding actions_of
  actions_of-Allows =
      All-append Allows _ _
        (All-append Allows _ _
          (All-flat_map Allows (actions_for tools facts) facts.desired_users actions_for-Allows)
          (All-collect Allows
            (leave_action tools facts (flat_map (membership_keys tools facts) facts.desired_users))
            facts.members
            (leave_action-Allows (flat_map (membership_keys tools facts) facts.desired_users))))
        (All-collect Allows (drop_role_action tools facts) facts.roles drop_role_action-Allows)

  or_noop-Allows :
      (actions : List Action) → All Allows actions → All Allows (or_noop tools facts actions)
  or_noop-Allows [] h = (tt, tt)
  or_noop-Allows (a ∷ more) h = h

module _ (tools : Tools) (inputs : Inputs) where
  -- Every action of a plan keeps the policy: a user is suspended, and a membership or a role taken away,
  -- only if such actions need no approval; a membership or a role is taken away only from a user
  -- who is desired, and no membership of an organization that is protected; and a role is given only
  -- if it is within the ceiling, or the ceiling is empty.
  pub plan_scim_reconciliation-Allows :
      All (Allows tools (facts_of tools inputs)) (plan_scim_reconciliation tools inputs).actions
  unfolding plan_scim_reconciliation
  plan_scim_reconciliation-Allows =
      let facts : Facts = facts_of tools inputs in
      All-sort_by (λ a b. tools.le a.id b.id) (Allows tools facts) _
        (or_noop-Allows tools facts (actions_of tools facts) (actions_of-Allows tools facts))
