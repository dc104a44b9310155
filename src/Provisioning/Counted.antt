-- ===== src/Provisioning/Counted.antt =====
-- How often an organization is created during a run.
use mathlib.Core.Path.{subst}
use civitas.Prelude.{
  eq_iff, ℕ, suc, ◌+◌, ◌≡◌, refl, sym, ap, ◌∙◌, Bool, true, false, not, ◌&&◌, ◌||◌, ◌==◌, Option,
  none, some, is_some, List, [], ◌∷◌, ◌++◌, String, str_eq, if◌then◌else◌, inl, inr, Bool-cases,
  arith,
}
use civitas.Prelude.Text.{starts_with, append-differs}
use civitas.Prelude.Maps.{lookup, assign, lookup-assign, lookup-assign_other}
use civitas.Provisioning.{
  Role, Organization, Contact, ProvisioningInput, get_user_id, Output, no_output,
  organization_created, ProvisioningError, serialize_error, Outcome, returned, threw, Body,
  or_throw, Deps,
}
use civitas.Provisioning.Run.{
  running, completed, failed, Step, is_completed, load, Run, start_recorder, complete_recorder,
  add_step, after_step, after_failure, run_step,
}
use civitas.Provisioning.Bootstrap.{create_step, role_id_for, create_effect, assign_effect}
use civitas.Provisioning.Keeps.{
  IsReplayed, list_replayed, template_replayed, IsOnce, started_once, create_once, domains_once,
  default_roles_once, assign_once, Left, Keeps, Keeps-bind, Keeps-or_throw, Keeps-role_id_for,
  SettledKeeps, Keeps-once, Keeps-replayed, AllKeep,
}

abbrev pub is_creation : Step → Bool
is_creation step = is_completed step.status && str_eq step.step_name create_step

-- How many records of a completed creation there are.
unfoldable pub creations : List Step → ℕ
creations [] = 0
creations (step ∷ steps) = if is_creation step then suc (creations steps) else creations steps

creations-snoc :
    (steps : List Step) (step : Step)
    → creations (steps ++ step ∷ []) ≡ creations steps + (if is_creation step then 1 else 0)
unfolding creations
creations-snoc [] step = ground arith
creations-snoc (s ∷ steps) step = ground (arith, creations-snoc steps step)

found-assign :
    (name key : String) (output : Output) (entries : List (String × Output))
    → str_eq name key ≡ true
    → is_some (lookup key (assign name output entries)) ≡ true
found-assign name key output entries e =
    subst (λ n. is_some (lookup n (assign name output entries)) ≡ true) ((eq_iff name key).0 e)
      (rw (lookup-assign name output entries) refl)

pub lookup-load :
    (entries : List (String × Output)) (steps : List Step)
    → is_some (lookup create_step (load entries steps))
      ≡ (is_some (lookup create_step entries) || not (creations steps == 0))
unfolding load creations
lookup-load entries [] = ground arith
lookup-load entries (step ∷ steps) = elim (Bool-cases (is_completed step.status)) [
  | inl c ↦ rw c (elim (Bool-cases (str_eq step.step_name create_step)) [
    | inl e ↦ rw e (
        lookup-load (assign step.step_name step.output entries) steps
        ∙ ground (arith, found-assign step.step_name create_step step.output entries e))
    | inr e ↦ rw e (
        lookup-load (assign step.step_name step.output entries) steps
        ∙ rw (lookup-assign_other step.step_name create_step step.output entries e) refl)
  ])
  | inr c ↦ rw c (lookup-load entries steps)
]

module _ {W : Type 0} (deps : Deps W) (created : W → ℕ) where
  abbrev pub Unmoved : {A : Type 0} → Body W A → Type 0
  Unmoved m = (n : ℕ) → Keeps (λ w. created w ≡ n) m

  abbrev pub OneMore : {A : Type 0} → ℕ → Outcome W A → Type 0
  OneMore n (returned a after) = created after ≡ n + 1
  OneMore n (threw e after) = created after ≡ n

  -- From the number `base`, a creation that returns adds one and one that throws adds none; the other
  -- calls leave the number as it is.
  pub record IsCount (base : ℕ) : Type 0 where
    pub creates :
        (input : ProvisioningInput) (w : W)
        → created w ≡ base
        → OneMore base (deps.create_organization input w)
    pub lists : Unmoved deps.list_organization_roles
    pub validates : (names : List String) → Unmoved (deps.ensure_organization_template names)
    pub replaces_domains :
        (id : Option String) (domains : List String)
        → Unmoved (deps.replace_email_domains id domains)
    pub replaces_roles :
        (id : Option String) (ids : List String) → Unmoved (deps.replace_default_roles id ids)
    pub resolves : (contact : Contact) → Unmoved (deps.create_or_resolve_user contact)
    pub adds_user :
        (id : Option String) (user : String) → Unmoved (deps.add_user_to_organization id user)
    pub assigns :
        (id : Option String) (user role : String) (name : Option String)
        → Unmoved (deps.assign_organization_role id user role name)

  -- What holds during a run: a creation that is recorded is known, and there is at most one.
  pub record IsCounted (base : ℕ) (run : Run W) : Type 0 where
    pub made : created run.world ≡ base + creations run.recorder.steps
    pub known :
        creations run.recorder.steps
        ≡ (if is_some (lookup create_step run.completed_steps) then 1 else 0)

  creations-after_step :
      (name : String) (output : Output) (w : W) (run : Run W)
      → creations (after_step name output w run).recorder.steps
        ≡ creations run.recorder.steps + (if str_eq name create_step then 1 else 0)
  creations-after_step name output w run = omega (
    arith,
    creations-snoc (add_step name running no_output none run).recorder.steps
        (record { step_name = name; status = completed; output = output; error = none }),
    creations-snoc run.recorder.steps
        (record { step_name = name; status = running; output = no_output; error = none }),
  )

  creations-after_failure :
      (name : String) (error : ProvisioningError) (w : W) (run : Run W)
      → creations (after_failure name error w run).recorder.steps ≡ creations run.recorder.steps
  creations-after_failure name error w run = omega (
    arith,
    creations-snoc (add_step name running no_output none run).recorder.steps (record {
      step_name = name;
      status = failed;
      output = no_output;
      error = some (serialize_error error);
    }),
    creations-snoc run.recorder.steps
        (record { step_name = name; status = running; output = no_output; error = none }),
  )

  module _ (base : ℕ) (count : IsCount base) where
    -- A step that fails without having created an organization.
    IsCounted-failure :
        (name : String) (error : ProvisioningError) (w : W) (run : Run W)
        → created w ≡ created run.world
        → IsCounted base run
        → IsCounted base (after_failure name error w run)
    IsCounted-failure name error w run same j = record {
      made = same ∙ j.made ∙ ap (λ n. base + n) (sym (creations-after_failure name error w run));
      known = creations-after_failure name error w run ∙ j.known;
    }

    more-created :
        (n : ℕ) (o : Outcome W Organization)
        → OneMore n o
        → OneMore n (elim o as (λ _. Outcome W Output) [
          | returned a t ↦ returned (organization_created a a.id) t
          | threw e t ↦ threw e t
        ])
    more-created n (returned a t) h = h
    more-created n (threw e t) h = h

    more-effect :
        (input : ProvisioningInput) (w : W)
        → created w ≡ base
        → OneMore base (create_effect deps input w)
    more-effect input w h =
        more-created base (deps.create_organization input w) (count.creates input w h)

    SettledKeeps-creation :
        (input : ProvisioningInput) (run : Run W)
        → IsCounted base run
        → lookup create_step run.completed_steps ≡ none
        → SettledKeeps (IsCounted base) create_step (create_effect deps input) run
    SettledKeeps-creation input run j fresh =
        let none_yet : creations run.recorder.steps ≡ 0 = j.known ∙ rw fresh refl in
        let at_base : created run.world ≡ base = omega (arith, j.made, none_yet) in
        record {
          on_return = λ output w e.
              let one : creations (after_step create_step output w run).recorder.steps ≡ 1 =
                omega (arith, creations-after_step create_step output w run, none_yet) in
              record {
                made =
                    omega
                      (arith, one, subst (OneMore base) e (more-effect input run.world at_base));
                known = one ∙ rw (lookup-assign create_step output run.completed_steps) refl;
              };
          on_throw = λ error w e.
              IsCounted-failure create_step error w run
                (omega
                  (arith, at_base, subst (OneMore base) e (more-effect input run.world at_base)))
                j;
        }

    -- An effect that creates nothing, under a name that is not that of the creation.
    SettledKeeps-other :
        (name : String) (effect : Body W Output)
        → str_eq name create_step ≡ false
        → Unmoved effect
        → (run : Run W) → IsCounted base run
        → SettledKeeps (IsCounted base) name effect run
    SettledKeeps-other name effect other unmoved run j = record {
      on_return = λ output w e. record {
        made =
            (subst (Left (λ v. created v ≡ created run.world)) e
              (unmoved (created run.world) run.world refl))
            ∙ j.made
            ∙ ap (λ n. base + n) (sym (plain output w));
        known =
            plain output w
            ∙ j.known
            ∙ rw (lookup-assign_other name create_step output run.completed_steps other) refl;
      };
      on_throw = λ error w e.
          IsCounted-failure name error w run
            (subst (Left (λ v. created v ≡ created run.world)) e
              (unmoved (created run.world) run.world refl))
            j;
    }
      where
        plain :
            (output : Output) (w : W)
            → creations (after_step name output w run).recorder.steps ≡ creations run.recorder.steps
        plain output w = creations-after_step name output w run ∙ rw other (omega arith)

    other-replayed :
        (name : String) (effect : Body W Output)
        → IsReplayed deps name effect
        → (str_eq name create_step ≡ false) × Unmoved effect
    other-replayed name effect list_replayed = (
      refl,
      λ n.
          Keeps-bind (λ w. created w ≡ n) deps.list_organization_roles _ (count.lists n)
            (λ roles w h. h),
    )
    other-replayed name effect (template_replayed names) = (
      refl,
      λ n.
          Keeps-bind (λ w. created w ≡ n) (deps.ensure_organization_template names) _
            (count.validates names n) (λ t w h. h),
    )

    assign_effect-Unmoved :
        (roles : List Role) (id : Option String) (contacts : List Contact) (contact : Contact)
        → Unmoved (assign_effect deps roles id contacts contact)
    assign_effect-Unmoved roles id contacts contact n =
        let J : W → Type 0 = λ w. created w ≡ n in
        Keeps-bind J (deps.create_or_resolve_user contact) _ (count.resolves contact n) λ resolved.
          Keeps-bind J (or_throw (get_user_id resolved.user) _) _
            (Keeps-or_throw J (get_user_id resolved.user) _)
            λ user_id.
              Keeps-bind J (role_id_for roles contact.organization_role_name) _
                (Keeps-role_id_for J roles contact.organization_role_name)
                λ role_id.
                  Keeps-bind J (deps.add_user_to_organization id user_id) _
                    (count.adds_user id user_id n)
                    λ _.
                      Keeps-bind J
                        (deps.assign_organization_role id user_id role_id
                          contact.organization_role_name)
                        _ (count.assigns id user_id role_id contact.organization_role_name n)
                        (λ _ w h. h)

    IsCounted-once :
        (name : String) (effect : Body W Output)
        → IsOnce deps name effect
        → Keeps (IsCounted base) (run_step name false effect)
    unfolding starts_with
    IsCounted-once name effect (create_once input) =
        Keeps-once (IsCounted base) name effect (SettledKeeps-creation input)
    IsCounted-once name effect (started_once actor) =
        Keeps-once (IsCounted base) name effect
          (λ run j _. SettledKeeps-other name effect refl (λ n w h. h) run j)
    IsCounted-once name effect (domains_once id domain) =
        Keeps-once (IsCounted base) name effect (λ run j _.
          SettledKeeps-other name effect refl
            (λ n.
              Keeps-bind (λ w. created w ≡ n) (deps.replace_email_domains id (domain ∷ [])) _
                (count.replaces_domains id (domain ∷ []) n) (λ _ w h. h))
            run j)
    IsCounted-once name effect (default_roles_once id names ids) =
        Keeps-once (IsCounted base) name effect (λ run j _.
          SettledKeeps-other name effect refl
            (λ n.
              Keeps-bind (λ w. created w ≡ n) (deps.replace_default_roles id ids) _
                (count.replaces_roles id ids n) (λ _ w h. h))
            run j)
    IsCounted-once name effect (assign_once roles id contacts contact) =
        Keeps-once (IsCounted base) name effect (λ run j _.
          SettledKeeps-other name effect
            (append-differs "logto.organization_user.assign_role:" contact.key create_step refl)
            (assign_effect-Unmoved roles id contacts contact) run j)

    pub IsCounted-all : AllKeep deps (IsCounted base)
    unfolding start_recorder complete_recorder
    IsCounted-all = record {
      started = λ input run j. record { made = j.made; known = j.known };
      organized = λ o id run j. record { made = j.made; known = j.known };
      finished = λ result run j. record { made = j.made; known = j.known };
      replayed = λ name effect r.
          let (other, unmoved) = other-replayed name effect r in
          Keeps-replayed (IsCounted base) name effect
            (SettledKeeps-other name effect other unmoved);
      ran = IsCounted-once;
    }
