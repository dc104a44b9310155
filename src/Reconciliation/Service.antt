-- ===== src/Reconciliation/Service.antt =====
-- backend/scim/reconciliation/service.js. The client of Logto is an argument, whose functions may throw and
-- change the outside.
use civitas.Prelude.{
  ℕ, Bool, true, false, not, ◌&&◌, Option, none, some, or_else, List, [], ◌∷◌, String, str_eq, any,
  if◌then◌else◌,
}
use civitas.Prelude.Text.{is_empty}
use civitas.Prelude.Maps.{lookup, assign}
use civitas.Prelude.Bodies.{Outcome, returned, threw, Body, throw, for_each}
use civitas.Reconciliation.{ScimUser, Policy, CivitasState, LogtoState, Inputs, truthy}
use civitas.Reconciliation.Planner.{
  ActionType, create_user, link_user, activate_user, suspend_user, add_organization_membership,
  remove_organization_membership, add_managed_role, remove_managed_role, Target, Action, Plan,
  Tools,
}
use civitas.Reconciliation.Loops.{plan_scim_reconciliation}

abbrev pub ClientCall : Type 0 → Type 0
ClientCall W = Body String W (Unit {0})

pub data CustomData : Type 0 where
  scim_external_id : Option String → CustomData
  scim_lifecycle : ActionType → CustomData

-- Two functions of the client may be missing.
pub record Client (W : Type 0) : Type 0 where
  pub create_logto_user : Option String → Option String → ClientCall W
  pub update_logto_user : Option (Option String → CustomData → ClientCall W)
  pub add_user_to_organization : String → Option String → ClientCall W
  pub remove_user_from_organization : String → Option String → ClientCall W
  pub assign_organization_role_to_user : String → Option String → Option String → ClientCall W
  pub remove_managed_role_from_user : Option (String → Option String → Option String → ClientCall W)

pub data ResultStatus : Type 0 where
  skipped applied : ResultStatus
  failed : String → ResultStatus

pub record Result : Type 0 where
  pub action_id : String
  pub type : ActionType
  pub status : ResultStatus

pub record Run : Type 0 where
  pub id : String
  pub organization_id : String
  pub actor_id : String
  pub plan_hash : String
  pub has_failed : Bool
  pub action_count : ℕ
  pub mutation_count : ℕ
  pub results : List Result

-- What the caller of `execute` may send along. Its states and its policy go before those of the repository.
pub record RequestBody : Type 0 where
  pub expected_plan_hash : Option String
  pub desired_state : Option (List ScimUser)
  pub civitas_state : Option CivitasState
  pub logto_state : Option LogtoState
  pub policy : Option Policy

pub record Repository (W : Type 0) : Type 0 where
  pub inputs : Inputs
  pub runs : List (String × Run)
  pub outside : W

pub data ExecuteError : Type 0 where
  idempotency_key_required : ExecuteError
  stale_plan_hash : String → ExecuteError

abbrev pub with_body : Inputs → RequestBody → Inputs
with_body inputs body = record {
  desired_state = or_else body.desired_state inputs.desired_state;
  civitas_state = or_else body.civitas_state inputs.civitas_state;
  logto_state = or_else body.logto_state inputs.logto_state;
  policy = or_else body.policy inputs.policy;
}

abbrev result_of : Action → ResultStatus → Result
result_of a status = record { action_id = a.id; type = a.type; status = status }

abbrev is_failed : Result → Bool
is_failed r = elim r.status [ failed e ↦ true | _ ↦ false ]

module _ {W : Type 0} (client : Client W) (organization_id : String) where
  abbrev organization_of : Target → String
  organization_of t = or_else (truthy t.organization_id) organization_id

  -- A call of a function that is missing throws.
  abbrev lifecycle_call : ActionType → Target → ClientCall W
  lifecycle_call type t = elim client.update_logto_user [
    | none ↦ throw "logtoClient.updateLogtoUser is not a function"
    | some update ↦ update t.logto_user_id (scim_lifecycle type)
  ]

  -- The call that an action stands for, if there is one.
  abbrev pub call_of : ActionType → Target → Option (ClientCall W)
  call_of create_user t = some (client.create_logto_user t.email t.external_id)
  call_of link_user t = elim client.update_logto_user [
    | none ↦ none
    | some update ↦ some (update t.logto_user_id (scim_external_id t.external_id))
  ]
  call_of activate_user t = some (lifecycle_call activate_user t)
  call_of suspend_user t = some (lifecycle_call suspend_user t)
  call_of add_organization_membership t =
      some (client.add_user_to_organization (organization_of t) t.logto_user_id)
  call_of remove_organization_membership t =
      some (client.remove_user_from_organization (organization_of t) t.logto_user_id)
  call_of add_managed_role t = some (
      for_each (or_else t.organization_ids (organization_id ∷ []))
        (λ id. client.assign_organization_role_to_user id t.logto_user_id t.role))
  call_of remove_managed_role t = elim client.remove_managed_role_from_user [
    | none ↦ none
    | some remove ↦ some (remove (organization_of t) t.logto_user_id t.role)
  ]
  call_of _ t = none

  abbrev caught : Outcome String W (Unit {0}) → ResultStatus × W
  caught (returned u w) = (applied, w)
  caught (threw e w) = (failed e, w)

  abbrev called : Option (ClientCall W) → W → ResultStatus × W
  called none w = (skipped, w)
  called (some call) w = caught (call w)

  abbrev pub apply_action : Action → W → Result × W
  apply_action a w =
      if a.mutates
      then (let (status, v) = called (call_of a.type a.target) w in (result_of a status, v))
      else (result_of a skipped, w)

  unfoldable pub apply_all : List Action → W → List Result × W
  apply_all [] w = ([], w)
  apply_all (a ∷ more) w =
      let (r, v) = apply_action a w in let (rs, u) = apply_all more v in (r ∷ rs, u)

module _ {W : Type 0} (tools : Tools) (client : Client W) where
  abbrev pub is_stale_plan : Option String → Plan → Bool
  is_stale_plan none plan = false
  is_stale_plan (some expected) plan =
      not (is_empty expected) && not (str_eq expected plan.plan_hash)

  abbrev pub run_of : String → String → String → Plan → List Result → Run
  run_of id organization_id actor_id plan results = record {
    id = id;
    organization_id = organization_id;
    actor_id = actor_id;
    plan_hash = plan.plan_hash;
    has_failed = any is_failed results;
    action_count = plan.action_count;
    mutation_count = plan.mutation_count;
    results = results;
  }

  abbrev pub carried_out :
      String → String → String → Plan → Repository W → Outcome ExecuteError (Repository W) Run
  carried_out organization_id actor_id id plan s =
      let (results, w) = apply_all client organization_id plan.actions s.outside in
      let run : Run = run_of id organization_id actor_id plan results in
      returned run (record s { runs = assign id run s.runs; outside = w })

  abbrev pub planned :
      String → String → String → RequestBody → Plan → Body ExecuteError (Repository W) Run
  planned organization_id actor_id id body plan s =
      if is_stale_plan body.expected_plan_hash plan
      then threw (stale_plan_hash plan.plan_hash) s
      else carried_out organization_id actor_id id plan s

  abbrev pub run_or :
      Option Run → Body ExecuteError (Repository W) Run → Body ExecuteError (Repository W) Run
  run_or (some previous) next s = returned previous s
  run_or none next s = next s

  abbrev pub with_key :
      Option String
      → (String → Body ExecuteError (Repository W) Run)
      → Body ExecuteError (Repository W) Run
  with_key none next s = threw idempotency_key_required s
  with_key (some id) next s = next id s

  unfoldable pub execute :
      String → String → Option String → RequestBody → Body ExecuteError (Repository W) Run
  unfolding lookup assign plan_scim_reconciliation apply_all
  execute organization_id actor_id idempotency_key body = with_key (truthy idempotency_key) (λ id s.
      run_or (lookup id s.runs)
        (planned organization_id actor_id id body
          (plan_scim_reconciliation tools (with_body s.inputs body)))
        s)
