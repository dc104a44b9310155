-- ===== src/Taxonomy/Sure.antt =====
-- Bodies of backend/taxonomy that return, over a port whose functions are there and return, and the version
-- of the catalog that they leave.
use mathlib.Core.Path.{subst}
use civitas.Prelude.{
  ℕ, ◌+◌, ◌≡◌, sym, ap, ◌∙◌, Bool, true, false, not, Option, some, or_else, List, [], ◌∷◌, String,
}
use civitas.Prelude.Maps.{lookup-assign}
use civitas.Prelude.Bodies.{Outcome, returned, threw, Body, ◌>>=◌, pure, throw_if, for_each}
use civitas.Taxonomy.{
  provider_unavailable, Failure, taxonomy_error, CatalogState, EventType, ChangeClass,
  presentation_only, taxonomy_semantic, authorization_affecting, Event, Store, first_state,
  state_in,
}
use civitas.Taxonomy.Calls.{
  Port, is_presentation, next_state, event_of, moved, outside_call, incremented, has_port,
  policy_version_for, save_state, sent, send, audited, audit_event, send_unless, bump,
}

-- A body that returns from each state of J, and leaves one of K.
abbrev pub Returns : {E S A : Type 0} → (S → Type 0) → Outcome E S A → Type 0
Returns K (returned a s) = K s
Returns K (threw e s) = ⊥

abbrev pub Sure : {E S A : Type 0} → (S → Type 0) → (S → Type 0) → Body E S A → Type 0
Sure {S} J K m = (s : S) → J s → Returns K (m s)

pub Returns-bind :
    {E S A B : Type 0} (J K : S → Type 0) (o : Outcome E S A) (f : A → Body E S B)
    → Returns J o
    → ((a : A) → Sure J K (f a))
    → Returns K (elim o [ returned a t ↦ f a t | threw e t ↦ threw e t ])
Returns-bind J K (returned a t) f h k = k a t h
Returns-bind J K (threw e t) f h k = elim h [ ]

pub Sure-bind :
    {E S A B : Type 0} {I : S → Type 0} (J K : S → Type 0) (m : Body E S A) (f : A → Body E S B)
    → Sure I J m
    → ((a : A) → Sure J K (f a))
    → Sure I K (m >>= f)
Sure-bind J K m f h k s i = Returns-bind J K (m s) f (h s i) k

pub Sure-for_each :
    {E S A : Type 0} (J : S → Type 0) (xs : List A) (f : A → Body E S (Unit {0}))
    → ((a : A) → Sure J J (f a))
    → Sure J J (for_each xs f)
Sure-for_each J [] f h s j = j
Sure-for_each J (x ∷ xs) f h s j =
    Sure-bind J J (f x) (λ _. for_each xs f) (h x) (λ _. Sure-for_each J xs f h) s j

abbrev pub Always : {E S A : Type 0} → Body E S A → Type 0
Always {S} m = (s : S) → Returns (λ _. Unit {0}) (m s)

module _ {W : Type 0} (port : Port W) where
  -- Every function of the port is there, and returns.
  pub record IsReliable : Type 0 where
    pub increments :
        (f : String → Option String → EventType → Body Failure W ℕ) × (port.increment_policy_version
          ≡ some f)
        × ((organization_id : String) (actor : Option String) (type : EventType)
            → Always (f organization_id actor type))
    pub enqueues :
        (f : Event → Body Failure W (Unit {0})) × (port.enqueue_outbox ≡ some f)
        × ((event : Event) → Always (f event))
    pub audits :
        (f : Event → Body Failure W (Unit {0})) × (port.audit ≡ some f)
        × ((event : Event) → Always (f event))

module _ {W : Type 0} (organization_id : String) where
  abbrev pub version_of : Store W → ℕ
  version_of s = (state_in organization_id s.states).taxonomy_catalog_version

  abbrev pub VersionIs : ℕ → Store W → Type 0
  VersionIs n s = version_of s ≡ n

  pub Sure-moved :
      {A : Type 0} (n : ℕ) (s : Store W) (o : Outcome Failure W A)
      → VersionIs n s
      → Returns (λ _. Unit {0}) o
      → Returns (VersionIs n) (moved s o)
  Sure-moved n s (returned a w) e h = e
  Sure-moved n s (threw f w) e h = elim h [ ]

  pub Sure-outside_call :
      {A : Type 0} (n : ℕ) (call : Body Failure W A)
      → Always call
      → Sure (VersionIs n) (VersionIs n) (outside_call call)
  Sure-outside_call n call h s e = Sure-moved n s (call s.outside) e (h s.outside)

  module _ (port : Port W) (reliable : IsReliable port) where
    pub Sure-send : (n : ℕ) (event : Event) → Sure (VersionIs n) (VersionIs n) (send port event)
    Sure-send n event =
        let (f, there, h) = reliable.enqueues in
        subst (λ o. Sure (VersionIs n) (VersionIs n) (sent o event)) (sym there)
          (Sure-outside_call n (f event) (h event))

    pub Sure-audit_event :
        (n : ℕ) (event : Event) → Sure (VersionIs n) (VersionIs n) (audit_event port event)
    Sure-audit_event n event =
        let (f, there, h) = reliable.audits in
        subst (λ o. Sure (VersionIs n) (VersionIs n) (audited o event)) (sym there)
          (Sure-outside_call n (f event) (h event))

    pub Sure-send_unless :
        (n : ℕ) (quiet : Bool) (event : Event)
        → Sure (VersionIs n) (VersionIs n) (send_unless quiet port event)
    Sure-send_unless n true event = λ s e. e
    Sure-send_unless n false event = Sure-send n event

    pub Sure-policy_version_for :
        (n : ℕ) (change : ChangeClass) (actor : Option String) (type : EventType)
        → Sure
            (VersionIs n)
            (VersionIs n)
            (policy_version_for port change organization_id actor type)
    Sure-policy_version_for n presentation_only actor type = λ s e. e
    Sure-policy_version_for n taxonomy_semantic actor type = λ s e. e
    Sure-policy_version_for n authorization_affecting actor type =
        let (f, there, h) = reliable.increments in
        let (g, enqueue_there, _) = reliable.enqueues in
        let (a, audit_there, _) = reliable.audits in
        Sure-bind (VersionIs n) (VersionIs n)
          (throw_if (not (has_port port)) (taxonomy_error provider_unavailable))
          (λ _. incremented port.increment_policy_version organization_id actor type)
          (λ s e. rw there (rw enqueue_there (rw audit_there e)))
          (λ _.
            subst (λ o. Sure (VersionIs n) (VersionIs n) (incremented o organization_id actor type))
              (sym there)
              (Sure-bind (VersionIs n) (VersionIs n) (outside_call (f organization_id actor type))
                (λ version. pure (some version))
                (Sure-outside_call n (f organization_id actor type) (h organization_id actor type))
                (λ version s e. e)))

    pub Sure-save_state :
        (n m : ℕ) (state : CatalogState)
        → state.taxonomy_catalog_version ≡ m
        → Sure (VersionIs n) (VersionIs m) (save_state organization_id state)
    Sure-save_state n m state e s _ =
        ap (λ o. (or_else o first_state).taxonomy_catalog_version)
          (lookup-assign organization_id state s.states)
        ∙ e

    -- `bump` returns, and the version is then one more.
    pub Sure-bump :
        (now : ℕ) (actor : Option String) (type : EventType) (change : ChangeClass) (key : String)
        (id n : ℕ)
        → Sure
            (VersionIs n)
            (VersionIs (n + 1))
            (bump port now organization_id actor type change key id)
    unfolding bump
    Sure-bump now actor type change key id n s e =
        let state = state_in organization_id s.states in
        let J : Store W → Type 0 = VersionIs n in
        let K : Store W → Type 0 = VersionIs (n + 1) in
        Sure-bind J K (policy_version_for port change organization_id actor type) _
          (Sure-policy_version_for n change actor type)
          (λ policy.
            Sure-bind K K (save_state organization_id (next_state now state)) _
              (Sure-save_state n (n + 1) (next_state now state) (ap (λ k. k + 1) e))
              (λ _.
                let event : Event =
                  event_of type organization_id (state.taxonomy_catalog_version + 1) policy change
                    key id in
                Sure-bind K K (send_unless (is_presentation change) port event)
                  (λ _. audit_event port event)
                  (Sure-send_unless (n + 1) (is_presentation change) event)
                  (λ _. Sure-audit_event (n + 1) event)))
          s e
