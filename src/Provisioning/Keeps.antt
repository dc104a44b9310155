-- ===== src/Provisioning/Keeps.antt =====
-- What a body keeps of its state, whether it returns or throws, follows from its parts.
use civitas.Prelude.{
  ◌≡◌, ◌⊎◌, refl, Bool, true, false, Option, none, some, List, [], ◌∷◌, String, inl, inr,
  Option-cases,
}
use civitas.Prelude.Maps.{lookup}
use civitas.Provisioning.{
  Role, Organization, Contact, ProvisioningInput, truthy, get_role_id, Output, bootstrap_started,
  output_roles, Template, output_template, Result, ProvisioningError, Outcome, returned, threw,
  Body, ◌>>=◌, pure, or_throw, Deps, role_named, require_role,
}
use civitas.Provisioning.Run.{Run, after_step, after_failure, settle, run_step}
use civitas.Provisioning.Bootstrap.{
  required_role_names, assign_step, actor_label, list_step, template_step, started_step,
  domains_step, default_roles_step, create_step, created_organization, created_id, require_all,
  role_id_for, jit_role_ids, list_effect, template_effect, create_effect, domains_effect,
  default_roles_effect, assign_effect, assign_contacts, replace_domains, set_organization,
  start_operation, complete_operation, assign_all, create_and_assign, bootstrap,
}

-- The steps that a run repeats, and those that it runs once, with their effects.
pub data IsReplayed {W : Type 0} (deps : Deps W) : String → Body W Output → Type 0 where
  list_replayed : IsReplayed deps list_step (list_effect deps)
  template_replayed :
      (names : List String) → IsReplayed deps template_step (template_effect deps names)

pub data IsOnce {W : Type 0} (deps : Deps W) : String → Body W Output → Type 0 where
  started_once : (actor : String) → IsOnce deps started_step (pure (bootstrap_started actor))
  create_once : (input : ProvisioningInput) → IsOnce deps create_step (create_effect deps input)
  domains_once :
      (id : Option String) (domain : String)
      → IsOnce deps domains_step (domains_effect deps id domain)
  default_roles_once :
      (id : Option String) (names ids : List String)
      → IsOnce deps default_roles_step (default_roles_effect deps id names ids)
  assign_once :
      (roles : List Role) (id : Option String) (contacts : List Contact) (contact : Contact)
      → IsOnce deps (assign_step contact.key) (assign_effect deps roles id contacts contact)

module _ {S : Type 0} (J : S → Type 0) where
  abbrev pub Left : {A : Type 0} → Outcome S A → Type 0
  Left (returned a s) = J s
  Left (threw e s) = J s

  abbrev pub Keeps : {A : Type 0} → Body S A → Type 0
  Keeps m = (s : S) → J s → Left (m s)

  Left-bind :
      {A B : Type 0} (o : Outcome S A) (f : A → Body S B)
      → Left o
      → ((a : A) → Keeps (f a))
      → Left (elim o [ returned a t ↦ f a t | threw e t ↦ threw e t ])
  Left-bind (returned a t) f h k = k a t h
  Left-bind (threw e t) f h k = h

  pub Keeps-bind :
      {A B : Type 0} (m : Body S A) (f : A → Body S B)
      → Keeps m
      → ((a : A) → Keeps (f a))
      → Keeps (m >>= f)
  Keeps-bind m f h k s j = Left-bind (m s) f (h s j) k

  pub Keeps-or_throw :
      {A : Type 0} (o : Option A) (e : ProvisioningError) → Keeps {A = A} (or_throw o e)
  Keeps-or_throw none e s j = j
  Keeps-or_throw (some a) e s j = j

  pub Keeps-require_role :
      (roles : List Role) (name : Option String) → Keeps (require_role roles name)
  unfolding require_role
  Keeps-require_role roles name = Keeps-or_throw (role_named roles name) _

  pub Keeps-require_all :
      (roles : List Role) (names : List String) → Keeps (require_all roles names)
  Keeps-require_all roles [] = λ s j. j
  Keeps-require_all roles (name ∷ names) =
      Keeps-bind (require_role roles (some name)) _ (Keeps-require_role roles (some name))
        (λ _. Keeps-require_all roles names)

  pub Keeps-role_id_for :
      (roles : List Role) (name : Option String) → Keeps (role_id_for roles name)
  Keeps-role_id_for roles name =
      Keeps-bind (require_role roles name) _ (Keeps-require_role roles name)
        (λ role. Keeps-or_throw (get_role_id role) _)

  pub Keeps-jit_role_ids :
      (roles : List Role) (names : List String) → Keeps (jit_role_ids roles names)
  Keeps-jit_role_ids roles [] = λ s j. j
  Keeps-jit_role_ids roles (name ∷ names) =
      Keeps-bind (role_id_for roles (some name)) _ (Keeps-role_id_for roles (some name)) (λ id.
        Keeps-bind (jit_role_ids roles names) _ (Keeps-jit_role_ids roles names) (λ ids s j. j))

pub Outcome-cases :
    {S A : Type 0} (o : Outcome S A)
    → ((a : A) × (s : S) × (o ≡ returned a s))
      ⊎ ((e : ProvisioningError) × (s : S) × (o ≡ threw e s))
Outcome-cases (returned a s) = inl (a, s, refl)
Outcome-cases (threw e s) = inr (e, s, refl)

module _ {W : Type 0} (J : Run W → Type 0) (name : String) (effect : Body W Output) where
  -- What a step has to keep where its effect returns, and where it throws.
  pub record SettledKeeps (run : Run W) : Type 0 where
    pub on_return :
        (output : Output) (w : W)
        → effect run.world ≡ returned output w
        → J (after_step name output w run)
    pub on_throw :
        (error : ProvisioningError) (w : W)
        → effect run.world ≡ threw error w
        → J (after_failure name error w run)

  Left-settle : (run : Run W) → SettledKeeps run → Left J (settle name (effect run.world) run)
  Left-settle run h = elim (Outcome-cases (effect run.world)) [
    | inl (output, w, e) ↦ rw e (h.on_return output w e)
    | inr (error, w, e) ↦ rw e (h.on_throw error w e)
  ]

  pub Keeps-once :
      ((run : Run W) → J run → lookup name run.completed_steps ≡ none → SettledKeeps run)
      → Keeps J (run_step name false effect)
  unfolding run_step
  Keeps-once h run j = elim (Option-cases (lookup name run.completed_steps)) [
    | inl e ↦ rw e (Left-settle run (h run j e))
    | inr (previous, e) ↦ rw e j
  ]

  pub Keeps-replayed :
      ((run : Run W) → J run → SettledKeeps run) → Keeps J (run_step name true effect)
  unfolding run_step
  Keeps-replayed h run j = elim (Option-cases (lookup name run.completed_steps)) [
    | inl e ↦ rw e (Left-settle run (h run j))
    | inr (previous, e) ↦ rw e (Left-settle run (h run j))
  ]

module _ {W : Type 0} (deps : Deps W) (J : Run W → Type 0) where
  abbrev pub StepKeeps : String → Bool → Body W Output → Type 0
  StepKeeps name replayable effect = Keeps J (run_step name replayable effect)

  -- Each part of a run keeps J.
  pub record AllKeep : Type 0 where
    pub started : (input : ProvisioningInput) → Keeps J (start_operation deps input)
    pub organized : (o : Organization) (id : Option String) → Keeps J (set_organization deps o id)
    pub finished : (result : Result) → Keeps J (complete_operation deps result)
    pub replayed :
        (name : String) (effect : Body W Output)
        → IsReplayed deps name effect
        → StepKeeps name true effect
    pub ran :
        (name : String) (effect : Body W Output)
        → IsOnce deps name effect
        → StepKeeps name false effect

  module _ (keep : AllKeep) where
    Keeps-replace_domains : (id domain : Option String) → Keeps J (replace_domains deps id domain)
    Keeps-replace_domains id none = λ run j. j
    Keeps-replace_domains id (some domain) =
        Keeps-bind J _ _ (keep.ran _ _ (domains_once id domain)) (λ _ run j. j)

    Keeps-assign_contacts :
        (roles : List Role) (id : Option String) (contacts rest : List Contact)
        → Keeps J (assign_contacts deps roles id contacts rest)
    Keeps-assign_contacts roles id contacts [] = λ run j. j
    Keeps-assign_contacts roles id contacts (contact ∷ rest) =
        Keeps-bind J _ _ (keep.ran _ _ (assign_once roles id contacts contact))
          (λ step. Keeps-bind J _ _ (Keeps-assign_contacts roles id contacts rest) (λ _ run j. j))

    Keeps-assign_all :
        (input : ProvisioningInput) (roles : List Role) (t : Template) (o : Organization)
        (id : Option String)
        → Keeps J (assign_all deps input roles t o id)
    Keeps-assign_all input roles t o id =
        Keeps-bind J _ _ (Keeps-jit_role_ids J roles input.default_role_names) λ ids.
          Keeps-bind J _ _ (Keeps-replace_domains id (truthy input.domain)) λ _.
            Keeps-bind J _ _ (keep.ran _ _ (default_roles_once id input.default_role_names ids))
              λ _.
                Keeps-bind J _ _
                  (Keeps-assign_contacts roles id input.administrative_contacts
                    input.administrative_contacts)
                  λ assignments run j. keep.finished _ run j

    Keeps-create_and_assign :
        (input : ProvisioningInput) (roles : List Role)
        → Keeps J (create_and_assign deps input roles)
    Keeps-create_and_assign input roles =
        Keeps-bind J _ _ (Keeps-require_all J roles (required_role_names input)) λ _.
          Keeps-bind J _ _ (keep.replayed _ _ (template_replayed (required_role_names input)))
            λ checked. Keeps-bind J _ _ (keep.ran _ _ (create_once input)) λ created run j.
              Keeps-assign_all input roles (output_template checked.1)
                (created_organization input created.1) (created_id input created.1) _
                (keep.organized (created_organization input created.1) (created_id input created.1)
                  run j)

    pub Keeps-bootstrap :
        (input : ProvisioningInput) (actor_type : Option String)
        → Keeps J (bootstrap deps input actor_type)
    Keeps-bootstrap input actor_type =
        Keeps-bind J (start_operation deps input) _ (keep.started input) λ _.
          Keeps-bind J (run_step started_step false _) _
            (keep.ran _ _ (started_once (actor_label actor_type)))
            λ _.
              Keeps-bind J (run_step list_step true (list_effect deps)) _
                (keep.replayed _ _ list_replayed)
                λ listed. Keeps-create_and_assign input (output_roles listed.1)
