-- ===== src/Authz/Authorize/Plan.antt =====
-- The loop of authorize.js over the policies of the plan.
use civitas.Prelude.{
  ◌≡◌, ◌↔◌, refl, Bool, true, false, not, ◌||◌, Option, none, some, List, [], ◌∷◌, String, any,
  if◌then◌else◌, arith,
}
use civitas.Authz.Context.{RolePathId, PolicyResult, Context}
use civitas.Authz.Registry.{Policy, Registry, get_policy}
use civitas.Authz.Authorize.{
  Decision, deny_decision, allow_decision, run_plan, run_policy, after_evaluation, after_result,
  supports, result_failure, add_results, conclude, no_paths, Next, has_scope, matched_after,
}
use civitas.Authz.Reasons.{ReasonCode, surface_mismatch, policy_unknown, policy_evaluation_failed}

-- Each policy of a plan is registered, supports the surface of the context that it reads, answers,
-- and its answer lets the request go on. The second context is what the policies make of the first.
pub data Passed (registry : Registry) : List String → Context → Context → Type 0 where
  end_of_plan : {c : Context} → Passed registry [] c c
  then_plan :
      {id : String} {ids : List String} {policy : Policy} {result : PolicyResult}
      {c c₁ c₂ : Context}
      → get_policy id registry ≡ some policy
      → supports policy c.surface ≡ true
      → policy.evaluate c ≡ (some result, c₁)
      → result_failure policy result ≡ none
      → Passed registry ids (add_results result c₁) c₂
      → Passed registry (id ∷ ids) c c₂

-- Some path has the token's scope, if there are paths.
abbrev pub scope_on_paths : Context → Bool
scope_on_paths c = no_paths c.role_paths || any has_scope c.role_paths

deny-allowed : (c : Context) (r : ReasonCode) → (deny_decision c r).allowed ≡ false
unfolding deny_decision
deny-allowed c r = refl

pub past :
    (b : Bool) (d e : Decision)
    → d.allowed ≡ false
    → (if b then d else e).allowed ≡ true
    → (b ≡ false) × (e.allowed ≡ true)
past true d e refused h = ground arith
past false d e refused h = (refl, h)

-- A check of authorize.js that the request has passed.
pub past_check :
    (b : Bool) (c : Context) (r : ReasonCode) (e : Decision)
    → (if b then deny_decision c r else e).allowed ≡ true
    → (b ≡ false) × (e.allowed ≡ true)
past_check b c r e h = past b (deny_decision c r) e (deny-allowed c r) h

pub deny-absurd {ℓ} :
    {A : Type ℓ} (c : Context) (r : ReasonCode) → (deny_decision c r).allowed ≡ true → A
unfolding deny_decision
deny-absurd c r h = ground arith

run_policy-allowed :
    (o : Option Policy) (next : Next) (c : Context) (m : Option RolePathId)
    → (run_policy o next c m).allowed ≡ true
    → (policy : Policy) × (o ≡ some policy)
      × (supports policy c.surface ≡ true)
      × ((after_evaluation policy next (policy.evaluate c) m).allowed ≡ true)
run_policy-allowed none next c m h = deny-absurd c policy_unknown h
run_policy-allowed (some policy) next c m h =
    let (supported, rest) =
      past_check (not (supports policy c.surface)) c surface_mismatch
        (after_evaluation policy next (policy.evaluate c) m) h in
    (policy, refl, ground (arith, supported), rest)

after_result-allowed :
    (o : Option ReasonCode) (result : PolicyResult) (next : Next) (c : Context)
    (m : Option RolePathId)
    → (after_result o result next c m).allowed ≡ true
    → (o ≡ none) × ((next c (matched_after result c.role_paths m)).allowed ≡ true)
after_result-allowed none result next c m h = (refl, h)
after_result-allowed (some r) result next c m h = deny-absurd c r h

after_evaluation-allowed :
    (policy : Policy) (next : Next) (answer : Option PolicyResult × Context) (m : Option RolePathId)
    → (after_evaluation policy next answer m).allowed ≡ true
    → (result : PolicyResult) × (c₁ : Context) × (m₁ : Option RolePathId) × (answer
        ≡ (some result, c₁))
      × (result_failure policy result ≡ none)
      × ((next (add_results result c₁) m₁).allowed ≡ true)
after_evaluation-allowed policy next (none, c) m h = deny-absurd c policy_evaluation_failed h
after_evaluation-allowed policy next (some result, c) m h =
    let (lets, rest) =
      after_result-allowed (result_failure policy result) result next (add_results result c) m h in
    (result, c, _, refl, lets, rest)

conclude-allowed :
    (c : Context) (m : Option RolePathId)
    → ((conclude c m).allowed ≡ true) ↔ (scope_on_paths c ≡ true)
unfolding deny_decision allow_decision any
conclude-allowed c m = ground arith

run_plan-Passed :
    (registry : Registry) (plan : List String) (c : Context) (m : Option RolePathId)
    → (run_plan registry plan c m).allowed ≡ true
    → (c₁ : Context) × Passed registry plan c c₁ × (scope_on_paths c₁ ≡ true)
unfolding run_plan
run_plan-Passed registry [] c m h = (c, end_of_plan, (conclude-allowed c m).0 h)
run_plan-Passed registry (id ∷ ids) c m h =
    let (policy, known, supported, answered) =
      run_policy-allowed (get_policy id registry) (run_plan registry ids) c m h in
    let (result, c₁, m₁, answer, lets, rest) =
      after_evaluation-allowed policy (run_plan registry ids) (policy.evaluate c) m answered in
    let (c₂, passed, scope) = run_plan-Passed registry ids (add_results result c₁) m₁ rest in
    (c₂, then_plan known supported answer lets passed, scope)

run_policy-passes :
    (policy : Policy) (next : Next) (c : Context) (m : Option RolePathId) (result : PolicyResult)
    (c₁ : Context)
    → supports policy c.surface ≡ true
    → policy.evaluate c ≡ (some result, c₁)
    → result_failure policy result ≡ none
    → ((m₁ : Option RolePathId) → (next (add_results result c₁) m₁).allowed ≡ true)
    → (run_policy (some policy) next c m).allowed ≡ true
run_policy-passes policy next c m result c₁ supported answer lets rest =
    rw (supported, answer, lets) (rest _)

Passed-run_plan :
    (registry : Registry) (plan : List String) (c c₁ : Context) (m : Option RolePathId)
    → Passed registry plan c c₁
    → scope_on_paths c₁ ≡ true
    → (run_plan registry plan c m).allowed ≡ true
unfolding run_plan
Passed-run_plan registry [] c _ m end_of_plan scope = (conclude-allowed c m).1 scope
Passed-run_plan registry (id ∷ ids) c c₂ m
      (then_plan {policy = policy} {result = result} {c₁ = c₁} known supported answer lets passed)
      scope =
    rw known (
      run_policy-passes policy (run_plan registry ids) c m result c₁ supported answer lets
        (λ m₁. Passed-run_plan registry ids _ c₂ m₁ passed scope))

-- The loop over the plan allows a request exactly if the request's context passes through the whole
-- plan, and the context that the policies leave has the token's scope on a path or no paths.
pub run_plan_allowed_iff :
    (registry : Registry) (plan : List String) (c : Context) (m : Option RolePathId)
    → ((run_plan registry plan c m).allowed ≡ true)
      ↔ ((c₁ : Context) × Passed registry plan c c₁ × (scope_on_paths c₁ ≡ true))
run_plan_allowed_iff registry plan c m = (
  run_plan-Passed registry plan c m,
  λ found. Passed-run_plan registry plan c found.0 m found.1 found.2,
)
