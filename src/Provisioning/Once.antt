-- ===== src/Provisioning/Once.antt =====
-- How often an organization is created over runs that share a recorder.
use civitas.Prelude.{
  refl, ◌==◌, if◌then◌else◌, ℕ, ◌+◌, ◌≤◌, ◌≡◌, Option, List, [], ◌∷◌, String, arith,
}
use civitas.Prelude.Maps.{lookup}
use civitas.Provisioning.{
  ProvisioningInput, Result, Outcome, returned, threw, Deps, Body, Organization,
}
use civitas.Provisioning.Run.{Recorder, empty_recorder, get_completed_steps, Run, fail_recorder}
use civitas.Provisioning.Bootstrap.{bootstrap, fresh_run, caught, run_provisioning}
use civitas.Provisioning.Keeps.{Left, Keeps, Keeps-bootstrap}
use civitas.Provisioning.Counted.{
  OneMore, creations, lookup-load, IsCount, IsCounted, IsCounted-all,
}

module _ {W : Type 0} (deps : Deps W) (created : W → ℕ) where
  -- What holds between runs.
  abbrev pub Counted : ℕ → Recorder × W → Type 0
  Counted base (recorder, world) =
      (created world ≡ base + creations recorder.steps) × (creations recorder.steps ≤ 1)

  fresh_run-Counted :
      (base : ℕ) (recorder : Recorder) (world : W)
      → Counted base (recorder, world)
      → IsCounted deps created base (fresh_run deps recorder world)
  unfolding get_completed_steps lookup
  fresh_run-Counted base recorder world (made, once) = record {
    made = made;
    known = rw (lookup-load [] recorder.steps) (ground (arith, once));
  }

  caught-Counted :
      (base : ℕ) (o : Outcome (Run W) Result)
      → Left (IsCounted deps created base) o
      → Left (Counted base) (caught deps o)
  unfolding fail_recorder
  caught-Counted base (returned result run) j = (j.made, ground (arith, j.known))
  caught-Counted base (threw error run) j = (j.made, ground (arith, j.known))

  run_provisioning-Counted :
      (base : ℕ)
      → IsCount deps created base
      → (input : ProvisioningInput) (actor_type : Option String)
      → Keeps (Counted base) (run_provisioning deps input actor_type)
  unfolding run_provisioning
  run_provisioning-Counted base count input actor_type (recorder, world) j =
      caught-Counted base (bootstrap deps input actor_type (fresh_run deps recorder world)) (
        Keeps-bootstrap deps (IsCounted deps created base) (IsCounted-all deps created base count)
          input actor_type (fresh_run deps recorder world)
          (fresh_run-Counted base recorder world j))

  -- Runs that follow one another with one recorder, each with its input and its actor.
  abbrev pub state_after : Outcome (Recorder × W) Result → Recorder × W
  state_after (returned result s) = s
  state_after (threw error s) = s

  abbrev pub run_calls : List (ProvisioningInput × Option String) → Recorder × W → Recorder × W
  run_calls [] s = s
  run_calls ((input, actor_type) ∷ calls) s =
      run_calls calls (state_after (run_provisioning deps input actor_type s))

  Left-state_after :
      (base : ℕ) (o : Outcome (Recorder × W) Result)
      → Left (Counted base) o
      → Counted base (state_after o)
  Left-state_after base (returned result s) h = h
  Left-state_after base (threw error s) h = h

  run_calls-Counted :
      (base : ℕ)
      → IsCount deps created base
      → (calls : List (ProvisioningInput × Option String)) (s : Recorder × W) → Counted base s
      → Counted base (run_calls calls s)
  run_calls-Counted base count [] s h = h
  run_calls-Counted base count ((input, actor_type) ∷ calls) s h =
      run_calls-Counted base count calls _ (
        Left-state_after base (run_provisioning deps input actor_type s)
          (run_provisioning-Counted base count input actor_type s h))

-- The calls of Logto, with a number beside the world. The first call of `createOrganization` that
-- returns makes it 1, and each call after that adds one, whether it returns or throws.
module _ {W : Type 0} where
  abbrev beside : {A : Type 0} → Body W A → Body (W × ℕ) A
  beside m (w, n) = elim (m w) [ returned a v ↦ returned a (v, n) | threw e v ↦ threw e (v, n) ]

  abbrev after_creation : {A : Type 0} → ℕ → Outcome W A → Outcome (W × ℕ) A
  after_creation n (returned a w) = returned a (w, n + 1)
  after_creation n (threw e w) = threw e (w, if n == 0 then 0 else n + 1)

  abbrev pub watched : Deps W → Deps (W × ℕ)
  watched deps = record {
    list_organization_roles = beside deps.list_organization_roles;
    ensure_organization_template = λ names. beside (deps.ensure_organization_template names);
    create_organization = λ input (w, n). after_creation n (deps.create_organization input w);
    replace_email_domains = λ id domains. beside (deps.replace_email_domains id domains);
    replace_default_roles = λ id ids. beside (deps.replace_default_roles id ids);
    create_or_resolve_user = λ contact. beside (deps.create_or_resolve_user contact);
    add_user_to_organization = λ id user. beside (deps.add_user_to_organization id user);
    assign_organization_role =
        λ id user role name. beside (deps.assign_organization_role id user role name);
  }

  abbrev pub watched_number : W × ℕ → ℕ
  watched_number (w, n) = n

  beside-number :
      {A : Type 0} (o : Outcome W A) (n k : ℕ)
      → k ≡ n
      → Left
          (λ s. watched_number s ≡ n)
          (elim o as (λ _. Outcome (W × ℕ) A) [
            | returned a v ↦ returned a (v, k)
            | threw e v ↦ threw e (v, k)
          ])
  beside-number (returned a v) n k h = h
  beside-number (threw e v) n k h = h

  beside-Unmoved :
      {A : Type 0} (m : Body W A) (n : ℕ) → Keeps (λ s. watched_number s ≡ n) (beside m)
  beside-Unmoved m n (w, k) h = beside-number (m w) n k h

  after_creation-OneMore :
      (deps : Deps W) (n : ℕ) (o : Outcome W Organization)
      → n ≡ 0
      → OneMore (watched deps) watched_number 0 (after_creation n o)
  after_creation-OneMore deps n (returned a w) h = omega (arith, h)
  after_creation-OneMore deps n (threw e w) h = rw h refl

  watched-IsCount : (deps : Deps W) → IsCount (watched deps) watched_number 0
  watched-IsCount deps = record {
    creates = λ input (w, n) h. after_creation-OneMore deps n (deps.create_organization input w) h;
    lists = beside-Unmoved deps.list_organization_roles;
    validates = λ names. beside-Unmoved (deps.ensure_organization_template names);
    replaces_domains = λ id domains. beside-Unmoved (deps.replace_email_domains id domains);
    replaces_roles = λ id ids. beside-Unmoved (deps.replace_default_roles id ids);
    resolves = λ contact. beside-Unmoved (deps.create_or_resolve_user contact);
    adds_user = λ id user. beside-Unmoved (deps.add_user_to_organization id user);
    assigns = λ id user role name. beside-Unmoved (deps.assign_organization_role id user role name);
  }

module _ {W : Type 0} (deps : Deps W) where
  -- In any number of runs with one recorder, each with any input, and whatever the calls of Logto
  -- return, throw or change, `createOrganization` returns at most once, and is not called again after it
  -- has returned.
  pub run_calls-once :
      (calls : List (ProvisioningInput × Option String)) (w : W)
      → (run_calls (watched deps) watched_number calls (empty_recorder, (w, 0))).1.1 ≤ 1
  unfolding creations
  run_calls-once calls w =
      let (made, once) =
        run_calls-Counted (watched deps) watched_number 0 (watched-IsCount deps) calls
          (empty_recorder, (w, 0)) (omega arith, omega arith) in
      omega (arith, made, once)
