-- ===== src/Reconciliation/Tests.antt =====
-- Two users of whom one has left the directory, and a run that is asked for twice.
use civitas.Prelude.{
  ◌≡◌, refl, ℕ, ◌+◌, inl, inr, Bool, true, false, none, some, List, [], ◌∷◌, String, any, find,
  select, All, Among, flat_map, collect, sort_by, insert_by, map,
}
use civitas.Prelude.Text.{trim}
use civitas.Prelude.Texts.{sort_texts, distinct}
use civitas.Prelude.Maps.{lookup, assign, map_of}
use civitas.Prelude.Bodies.{Outcome, returned, threw, throw}
use civitas.Reconciliation.{
  ScimUser, DesiredUser, UserLink, LogtoUser, Inputs, uniq, normalize_desired_user, is_active,
  shown, pair_key,
}
use civitas.Reconciliation.Planner.{
  suspend_user, add_organization_membership, remove_organization_membership, block_by_ceiling, Plan,
  Tools, facts_of, actual_of, user_id_of,
}
use civitas.Reconciliation.Loops.{actions_of, plan_scim_reconciliation}
use civitas.Reconciliation.Allowed.{Allows, plan_scim_reconciliation-Allows}
use civitas.Reconciliation.Complete.{join_of, suspension_of, plan_scim_reconciliation_complete}
use civitas.Reconciliation.Service.{
  ClientCall, Client, Run, RequestBody, Repository, ExecuteError, stale_plan_hash, apply_all,
  run_of, execute,
}
use civitas.Reconciliation.Approved.{takes_away, execute-approved}
use civitas.Reconciliation.Repeats.{Request, perform_all, execute-threw, execute-again}

machine : Unit {0}
unfolding execute apply_all plan_scim_reconciliation facts_of actions_of perform_all
    normalize_desired_user uniq flat_map collect sort_by insert_by lookup assign map_of any find
    select trim sort_texts distinct
machine = tt

-- The hash is the user's identifier; the order is the one in which actions are planned.
abbrev tools : Tools
tools = record {
  lower = λ s. s;
  le = λ s t. true;
  fingerprint = λ type target reason role. shown target.logto_user_id;
  hash_plan = λ inputs actions. "plan";
}

abbrev scim_user : String → Bool → List String → ScimUser
scim_user id active organizations = record {
  id = none;
  external_id = some id;
  user_name = none;
  email = none;
  primary_email = none;
  display_name = none;
  name = none;
  active = some active;
  organization_ids = some organizations;
  organizations = none;
  groups = none;
  managed_roles = some ("organization_member" ∷ []);
  roles = none;
  requires_approval = none;
}

abbrev link : String → String → UserLink
link external_id logto_user_id = record {
  external_id = some external_id;
  scim_external_id = none;
  user_name = none;
  email = none;
  logto_user_id = some logto_user_id;
}

abbrev logto_user : String → LogtoUser
logto_user id = record {
  id = some id;
  logto_user_id = none;
  user_id = none;
  external_id = none;
  user_name = none;
  username = none;
  email = none;
  primary_email = none;
  active = none;
  suspended = none;
  is_suspended = none;
}

abbrev inputs : Inputs
inputs = record {
  desired_state =
      scim_user "e1" true ("org-a" ∷ "org-b" ∷ "org-a" ∷ [])
      ∷ scim_user "e2" false ("org-b" ∷ [])
      ∷ [];
  civitas_state = record {
    user_links = some (link "e1" "u1" ∷ link "e2" "u2" ∷ []);
    sources = none;
    provenance = none;
  };
  logto_state = record {
    users = logto_user "u1" ∷ logto_user "u2" ∷ [];
    organization_memberships =
        record { organization_id = "org-a"; user_id = "u1" }
        ∷ record { organization_id = "org-c"; user_id = "u2" }
        ∷ [];
    managed_roles = none;
    organization_roles = none;
  };
  policy = record {
    allowed_managed_roles = some ("organization_admin" ∷ []);
    ceiling_roles = none;
    protected_organization_ids = [];
    destructive_requires_approval = some false;
  };
}

-- The second user is suspended, put into one organization and taken out of another; the role is above the ceiling.
types_of_plan :
    map (λ a. a.type) (plan_scim_reconciliation tools inputs).actions
    ≡ add_organization_membership ∷ block_by_ceiling ∷ suspend_user ∷ add_organization_membership
      ∷ block_by_ceiling ∷ remove_organization_membership ∷ []
unfolding machine
types_of_plan = refl

plan_scim_reconciliation-Allows_example :
    All (Allows tools (facts_of tools inputs)) (plan_scim_reconciliation tools inputs).actions
plan_scim_reconciliation-Allows_example = plan_scim_reconciliation-Allows tools inputs

abbrev second_desired : DesiredUser
second_desired = record {
  external_id = some "e2";
  user_name = none;
  email = none;
  display_name = none;
  active = false;
  organization_ids = "org-b" ∷ [];
  managed_roles = "organization_member" ∷ [];
  requires_approval = false;
}

second_desired-Among : Among second_desired (facts_of tools inputs).desired_users
unfolding machine
second_desired-Among = inr (inl refl)

second_desired_id : user_id_of tools (facts_of tools inputs) second_desired ≡ some "u2"
unfolding machine
second_desired_id = refl

plan_scim_reconciliation_complete_example :
    ((organization_id : String)
      → Among organization_id second_desired.organization_ids
      → lookup (pair_key organization_id "u2") (facts_of tools inputs).members ≡ none
      → Among
          (join_of tools (facts_of tools inputs) organization_id "u2")
          (plan_scim_reconciliation tools inputs).actions)
    × ((u : LogtoUser)
        → actual_of tools (facts_of tools inputs) second_desired ≡ some u
        → second_desired.active ≡ false
        → is_active u ≡ true
        → Among
            (suspension_of tools (facts_of tools inputs) second_desired u)
            (plan_scim_reconciliation tools inputs).actions)
plan_scim_reconciliation_complete_example =
    plan_scim_reconciliation_complete tools inputs second_desired "u2" second_desired-Among
      second_desired_id

-- A client that counts its calls, and has none for taking a role away.
abbrev counting : ClientCall ℕ
counting n = returned tt (n + 1)

abbrev client : Client ℕ
client = record {
  create_logto_user = λ email id. counting;
  update_logto_user = some (λ user custom. counting);
  add_user_to_organization = λ organization user. counting;
  remove_user_from_organization = λ organization user. throw "not_found";
  assign_organization_role_to_user = λ organization user role. counting;
  remove_managed_role_from_user = none;
}

abbrev repository : Repository ℕ
repository = record { inputs = inputs; runs = []; outside = 0 }

abbrev no_body : RequestBody
no_body = record {
  expected_plan_hash = none;
  desired_state = none;
  civitas_state = none;
  logto_state = none;
  policy = none;
}

abbrev request : String → Request ℕ
request organization_id = record {
  organization_id = organization_id;
  actor_id = "tester";
  idempotency_key = some "run-1";
  body = no_body;
  inputs = inputs;
  outside = 5;
}

abbrev answer : Outcome ExecuteError (Repository ℕ) Run
answer = execute tools client "org-a" "tester" (some "run-1") no_body repository

abbrev plan : Plan
plan = plan_scim_reconciliation tools inputs

abbrev run : Run
run = run_of tools client "run-1" "org-a" "tester" plan (apply_all client "org-a" plan.actions 0).0

-- Three calls have been made, and one has failed.
answered : answer ≡ returned run (record repository { runs = ("run-1", run) ∷ []; outside = 3 })
unfolding machine
answered = refl

abbrev after : Repository ℕ
after = record repository { runs = ("run-1", run) ∷ []; outside = 3 }

execute-again_example :
    execute tools client "org-b" "tester"
      (some "run-1")
      no_body
      (perform_all tools client (request "org-b" ∷ []) after)
    ≡ returned run (perform_all tools client (request "org-b" ∷ []) after)
execute-again_example =
    execute-again tools client (request "org-a") "run-1" run repository after (request "org-b" ∷ [])
      (request "org-b") refl answered refl

abbrev other_plan : RequestBody
other_plan = record no_body { expected_plan_hash = some "other" }

refused :
    execute tools client "org-a" "tester" (some "run-2") other_plan after
    ≡ threw (stale_plan_hash "plan") after
unfolding machine
refused = refl

execute-threw_example : after ≡ after
execute-threw_example =
    execute-threw tools client "org-a" "tester" (some "run-2") other_plan (stale_plan_hash "plan")
      after after refused

-- The same states under a policy that says nothing about approval.
abbrev cautious : Repository ℕ
cautious = record repository {
  inputs = record inputs { policy = record inputs.policy { destructive_requires_approval = none } };
}

abbrev cautious_run : Run
cautious_run =
    run_of tools client "run-1" "org-a" "tester" (plan_scim_reconciliation tools cautious.inputs)
      (apply_all client "org-a" (plan_scim_reconciliation tools cautious.inputs).actions 0).0

cautious_answer :
    execute tools client "org-a" "tester" (some "run-1") no_body cautious
    ≡ returned cautious_run (record cautious { runs = ("run-1", cautious_run) ∷ []; outside = 2 })
unfolding machine
cautious_answer = refl

cautious_new : lookup "run-1" cautious.runs ≡ none
unfolding machine
cautious_new = refl

execute-approved_example : All (λ r. takes_away r.type ≡ false) cautious_run.results
execute-approved_example =
    execute-approved tools client cautious "org-a" "tester" (some "run-1") no_body "run-1"
      cautious_run (record cautious { runs = ("run-1", cautious_run) ∷ []; outside = 2 }) refl
      cautious_new refl cautious_answer
