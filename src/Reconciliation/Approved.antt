-- ===== src/Reconciliation/Approved.antt =====
-- backend/scim/reconciliation: planner and service together, where the policy wants approval.
use mathlib.Core.Path.{subst}
use civitas.Prelude.{
  ◌≡◌, refl, sym, ap, Bool, true, false, not, Option, none, some, List, [], ◌∷◌, String, inl, inr,
  Bool-cases, if◌then◌else◌, All,
}
use civitas.Prelude.Maps.{lookup}
use civitas.Prelude.Bodies.{Outcome, returned, threw}
use civitas.Reconciliation.{Inputs, truthy, is_false, key}
use civitas.Reconciliation.Planner.{
  ActionType, create_user, link_user, activate_user, suspend_user, add_organization_membership,
  remove_organization_membership, add_managed_role, remove_managed_role, block_by_ceiling,
  require_approval, noop, ActionType, Target, Action, Plan, Tools, Facts, facts_of,
}
use civitas.Reconciliation.Loops.{plan_scim_reconciliation}
use civitas.Reconciliation.Allowed.{IsAllowed, Allows, plan_scim_reconciliation-Allows}
use civitas.Reconciliation.Service.{
  Client, Result, Run, RequestBody, Repository, ExecuteError, with_body, apply_action, apply_all,
  is_stale_plan, planned, execute,
}

-- The types of the actions that take something away.
abbrev pub takes_away : ActionType → Bool
takes_away suspend_user = true
takes_away remove_organization_membership = true
takes_away remove_managed_role = true
takes_away _ = false

abbrev Gives : ActionType → Type 0
Gives type = takes_away type ≡ false

IsAllowed-Gives :
    (tools : Tools) (facts : Facts) (type : ActionType) (target : Target)
    → facts.needs_approval ≡ true
    → IsAllowed tools facts type target
    → Gives type
IsAllowed-Gives tools facts suspend_user target e h = cc
IsAllowed-Gives tools facts remove_organization_membership target e h =
    let off : facts.needs_approval ≡ false = h.0 in cc
IsAllowed-Gives tools facts remove_managed_role target e h =
    let off : facts.needs_approval ≡ false = h.0 in cc
IsAllowed-Gives tools facts create_user target e h = refl
IsAllowed-Gives tools facts link_user target e h = refl
IsAllowed-Gives tools facts activate_user target e h = refl
IsAllowed-Gives tools facts add_organization_membership target e h = refl
IsAllowed-Gives tools facts add_managed_role target e h = refl
IsAllowed-Gives tools facts block_by_ceiling target e h = refl
IsAllowed-Gives tools facts require_approval target e h = refl
IsAllowed-Gives tools facts noop target e h = refl

All-Gives :
    (tools : Tools) (facts : Facts) (actions : List Action)
    → facts.needs_approval ≡ true
    → All (Allows tools facts) actions
    → All (λ a. Gives a.type) actions
All-Gives tools facts [] e h = tt
All-Gives tools facts (a ∷ more) e (h, k) =
    (IsAllowed-Gives tools facts a.type a.target e h, All-Gives tools facts more e k)

module _ {W : Type 0} (client : Client W) (organization_id : String) where
  type_either :
      (b : Bool) (type : ActionType) (r q : Result × W)
      → r.0.type ≡ type
      → q.0.type ≡ type
      → (if b then r else q).0.type ≡ type
  type_either true type r q h k = h
  type_either false type r q h k = k

  type-apply_action :
      (a : Action) (w : W) → (apply_action client organization_id a w).0.type ≡ a.type
  type-apply_action a w = type_either a.mutates a.type _ _ refl refl

  Gives-apply_all :
      (actions : List Action) (w : W)
      → All (λ a. Gives a.type) actions
      → All (λ r. Gives r.type) (apply_all client organization_id actions w).0
  unfolding apply_all
  Gives-apply_all [] w h = tt
  Gives-apply_all (a ∷ more) w (h, k) = (
    subst Gives (sym (type-apply_action a w)) h,
    Gives-apply_all more (apply_action client organization_id a w).1 k,
  )

abbrev Given : {W : Type 0} → Outcome ExecuteError (Repository W) Run → Type 0
Given (returned run t) = All (λ r. Gives r.type) run.results
Given (threw e t) = Unit

module _ {W : Type 0} (tools : Tools) (client : Client W) (s : Repository W) where
  Given-planned :
      (organization_id actor_id id : String) (body : RequestBody) (plan : Plan)
      → All (λ a. Gives a.type) plan.actions
      → Given (planned tools client organization_id actor_id id body plan s)
  Given-planned organization_id actor_id id body plan h =
      elim (Bool-cases (is_stale_plan tools client body.expected_plan_hash plan)) [
        | inl e ↦ rw e tt
        | inr e ↦ rw e (Gives-apply_all client organization_id plan.actions s.outside h)
      ]

  Given-execute :
      (organization_id actor_id : String) (key : Option String) (body : RequestBody) (id : String)
      → truthy key ≡ some id
      → lookup id s.runs ≡ none
      → is_false (with_body s.inputs body).policy.destructive_requires_approval ≡ false
      → Given (execute tools client organization_id actor_id key body s)
  unfolding execute facts_of
  Given-execute organization_id actor_id key body id e new wants =
      let inputs : Inputs = with_body s.inputs body in
      rw (e, new)
        (Given-planned organization_id actor_id id body (plan_scim_reconciliation tools inputs) (
          All-Gives tools (facts_of tools inputs) (plan_scim_reconciliation tools inputs).actions
            (ap not wants) (plan_scim_reconciliation-Allows tools inputs)))

  -- Where the policy in force wants approval, which it does unless it says otherwise, a new run neither
  -- suspends a user nor takes a membership or a role away: none of its results is of such an action.
  pub execute-approved :
      (organization_id actor_id : String) (key : Option String) (body : RequestBody) (id : String)
      (run : Run) (t : Repository W)
      → truthy key ≡ some id
      → lookup id s.runs ≡ none
      → is_false (with_body s.inputs body).policy.destructive_requires_approval ≡ false
      → execute tools client organization_id actor_id key body s ≡ returned run t
      → All (λ r. takes_away r.type ≡ false) run.results
  execute-approved organization_id actor_id key body id run t e new wants answered =
      subst Given answered (Given-execute organization_id actor_id key body id e new wants)
