-- ===== src/Reconciliation/Repeats.antt =====
-- backend/scim/reconciliation/service.js: `execute` again with the same key, and `execute` when it throws.
use mathlib.Core.Path.{subst}
use text.Mathlib.TextEquality.{eq_iff}
use civitas.Prelude.{
  ◌≡◌, refl, sym, ◌∙◌, Option, none, some, List, [], ◌∷◌, String, str_eq, inl, inr, Bool-cases,
  Option-cases,
}
use civitas.Prelude.Maps.{lookup, assign, lookup-assign, lookup-assign_other}
use civitas.Prelude.Bodies.{Outcome, returned, threw, Body, state_of}
use civitas.Reconciliation.{Inputs, truthy, key}
use civitas.Reconciliation.Planner.{Plan, Tools}
use civitas.Reconciliation.Loops.{plan_scim_reconciliation}
use civitas.Reconciliation.Service.{
  Client, Run, RequestBody, Repository, ExecuteError, with_body, is_stale_plan, planned, run_or,
  execute,
}

-- A request for `execute`, and what the repository and Logto have come to when it arrives.
pub record Request (W : Type 0) : Type 0 where
  pub organization_id : String
  pub actor_id : String
  pub idempotency_key : Option String
  pub body : RequestBody
  pub inputs : Inputs
  pub outside : W

module _ {W : Type 0} (tools : Tools) (client : Client W) where
  abbrev pub perform : Request W → Repository W → Repository W
  perform r s = state_of (
      execute tools client r.organization_id r.actor_id r.idempotency_key r.body
        (record s { inputs = r.inputs; outside = r.outside }))

  unfoldable pub perform_all : List (Request W) → Repository W → Repository W
  unfolding execute
  perform_all [] s = s
  perform_all (r ∷ rs) s = perform_all rs (perform r s)

  -- The saved run of a key.
  abbrev pub IsSaved : String → Run → Repository W → Type 0
  IsSaved id run s = lookup id s.runs ≡ some run

  IsSaved-assign :
      (id other : String) (run new : Run) (runs : List (String × Run))
      → lookup id runs ≡ some run
      → lookup other runs ≡ none
      → lookup id (assign other new runs) ≡ some run
  IsSaved-assign id other run new runs h fresh = elim (Bool-cases (str_eq other id)) [
    | inl e ↦
        let same : other ≡ id = (eq_iff other id).0 e in
        let there : lookup other runs ≡ some run =
          subst (λ k. lookup k runs ≡ some run) (sym same) h in
        cc
    | inr e ↦ lookup-assign_other other id new runs e ∙ h
  ]

  planned-IsSaved :
      (organization_id actor_id id other : String) (body : RequestBody) (plan : Plan) (run : Run)
      (s : Repository W)
      → IsSaved id run s
      → lookup other s.runs ≡ none
      → IsSaved id run (state_of (planned tools client organization_id actor_id other body plan s))
  planned-IsSaved organization_id actor_id id other body plan run s h fresh =
      elim (Bool-cases (is_stale_plan tools client body.expected_plan_hash plan)) [
        | inl e ↦ rw e h
        | inr e ↦ rw e (IsSaved-assign id other run _ s.runs h fresh)
      ]

  run_or-IsSaved :
      (organization_id actor_id id other : String) (body : RequestBody) (plan : Plan) (run : Run)
      (s : Repository W) (o : Option Run)
      → lookup other s.runs ≡ o
      → IsSaved id run s
      → IsSaved id run (
          state_of (
            run_or tools client o
              (planned tools client organization_id actor_id other body plan)
              s))
  run_or-IsSaved organization_id actor_id id other body plan run s (some previous) e h = h
  run_or-IsSaved organization_id actor_id id other body plan run s none e h =
      planned-IsSaved organization_id actor_id id other body plan run s h e

  execute-IsSaved :
      (organization_id actor_id : String) (key : Option String) (body : RequestBody) (id : String)
      (run : Run) (s : Repository W)
      → IsSaved id run s
      → IsSaved id run (state_of (execute tools client organization_id actor_id key body s))
  unfolding execute
  execute-IsSaved organization_id actor_id key body id run s h = elim (Option-cases (truthy key)) [
    | inl e ↦ rw e h
    | inr (other, e) ↦ rw e (
        run_or-IsSaved organization_id actor_id id other body
          (plan_scim_reconciliation tools (with_body s.inputs body)) run s (lookup other s.runs)
          refl h)
  ]

  perform_all-IsSaved :
      (rs : List (Request W)) (id : String) (run : Run) (s : Repository W)
      → IsSaved id run s
      → IsSaved id run (perform_all rs s)
  unfolding perform_all
  perform_all-IsSaved [] id run s h = h
  perform_all-IsSaved (r ∷ rs) id run s h = perform_all-IsSaved rs id run (perform r s) (
      execute-IsSaved r.organization_id r.actor_id r.idempotency_key r.body id run
        (record s { inputs = r.inputs; outside = r.outside }) h)

  -- What a run that has returned has saved.
  abbrev Saves : String → Outcome ExecuteError (Repository W) Run → Type 0
  Saves id (returned run t) = IsSaved id run t
  Saves id (threw e t) = Unit

  planned-Saves :
      (organization_id actor_id id : String) (body : RequestBody) (plan : Plan) (s : Repository W)
      → Saves id (planned tools client organization_id actor_id id body plan s)
  planned-Saves organization_id actor_id id body plan s =
      elim (Bool-cases (is_stale_plan tools client body.expected_plan_hash plan)) [
        | inl e ↦ rw e tt
        | inr e ↦ rw e (lookup-assign id _ s.runs)
      ]

  run_or-Saves :
      (id : String) (s : Repository W) (o : Option Run)
      (next : Body ExecuteError (Repository W) Run)
      → lookup id s.runs ≡ o
      → Saves id (next s)
      → Saves id (run_or tools client o next s)
  run_or-Saves id s (some previous) next e h = e
  run_or-Saves id s none next e h = h

  execute-Saves :
      (organization_id actor_id : String) (key : Option String) (body : RequestBody) (id : String)
      (s : Repository W)
      → truthy key ≡ some id
      → Saves id (execute tools client organization_id actor_id key body s)
  unfolding execute
  execute-Saves organization_id actor_id key body id s e = rw e (
      run_or-Saves id s (lookup id s.runs) _ refl (
        planned-Saves organization_id actor_id id body
          (plan_scim_reconciliation tools (with_body s.inputs body)) s))

  saved_run :
      (organization_id actor_id : String) (key : Option String) (body : RequestBody) (id : String)
      (run : Run) (s : Repository W)
      → truthy key ≡ some id
      → IsSaved id run s
      → execute tools client organization_id actor_id key body s ≡ returned run s
  unfolding execute
  saved_run organization_id actor_id key body id run s e h = rw (e, h) refl

  -- A request with a key that is not empty, which was answered with a run, is answered with that run
  -- ever after, whatever requests came between, with whatever states and outside they met; and
  -- nothing is changed and no function of the client called, even for another organization.
  pub execute-again :
      (first : Request W) (id : String) (run : Run) (s t : Repository W) (rs : List (Request W))
      (again : Request W)
      → truthy first.idempotency_key ≡ some id
      → execute tools client first.organization_id first.actor_id first.idempotency_key first.body s
        ≡ returned run t
      → truthy again.idempotency_key ≡ some id
      → execute tools client again.organization_id again.actor_id again.idempotency_key again.body
          (perform_all rs t)
        ≡ returned run (perform_all rs t)
  execute-again first id run s t rs again e answered e2 =
      let saves =
        execute-Saves first.organization_id first.actor_id first.idempotency_key first.body id s
          e in
      saved_run again.organization_id again.actor_id again.idempotency_key again.body id run
        (perform_all rs t) e2 (perform_all-IsSaved rs id run t (subst (Saves id) answered saves))

  abbrev Unchanged : Repository W → Outcome ExecuteError (Repository W) Run → Type 0
  Unchanged s (returned run t) = Unit
  Unchanged s (threw e t) = t ≡ s

  planned-Unchanged :
      (organization_id actor_id id : String) (body : RequestBody) (plan : Plan) (s : Repository W)
      → Unchanged s (planned tools client organization_id actor_id id body plan s)
  planned-Unchanged organization_id actor_id id body plan s =
      elim (Bool-cases (is_stale_plan tools client body.expected_plan_hash plan)) [
        | inl e ↦ rw e refl
        | inr e ↦ rw e tt
      ]

  execute-Unchanged :
      (organization_id actor_id : String) (key : Option String) (body : RequestBody)
      (s : Repository W)
      → Unchanged s (execute tools client organization_id actor_id key body s)
  unfolding execute
  execute-Unchanged organization_id actor_id key body s = elim (Option-cases (truthy key)) [
    | inl e ↦ rw e refl
    | inr (id, e) ↦ elim (Option-cases (lookup id s.runs)) [
      | inl h ↦
          rw (e, h)
            (planned-Unchanged organization_id actor_id id body
              (plan_scim_reconciliation tools (with_body s.inputs body)) s)
      | inr (previous, h) ↦ rw (e, h) tt
    ]
  ]

  -- A request that throws, for want of a key or since its plan is another than expected, has changed
  -- neither the repository nor, through the client, the outside.
  pub execute-threw :
      (organization_id actor_id : String) (key : Option String) (body : RequestBody)
      (e : ExecuteError) (s t : Repository W)
      → execute tools client organization_id actor_id key body s ≡ threw e t
      → t ≡ s
  execute-threw organization_id actor_id key body e s t h =
      subst (Unchanged s) h (execute-Unchanged organization_id actor_id key body s)
