-- ===== src/Provisioning/Total.antt =====
-- Bodies that return from every state.
use civitas.Prelude.{
  ◌≡◌, refl, ap, ◌∙◌, Bool, true, false, Option, none, some, List, [], ◌∷◌, map, String, select,
  inl, inr, Bool-cases, Option-cases, All, All-append,
}
use civitas.Prelude.Text.{is_empty}
use civitas.Prelude.Maps.{lookup}
use civitas.Provisioning.{
  Role, ProvisioningInput, get_role_id, Output, ProvisioningError, returned, threw, Body, ◌>>=◌,
  or_throw, role_named, require_role,
}
use civitas.Provisioning.Run.{after_step, perform, run_step}
use civitas.Provisioning.Bootstrap.{
  differs, distinct, truthy_names, contact_role, required_role_names, require_all, role_id_for,
  jit_role_ids,
}

abbrev pub Total : {S A : Type 0} → Body S A → Type 0
Total {S = S} {A = A} m = (s : S) → (a : A) × (t : S) × (m s ≡ returned a t)

pub bind-returned :
    {S A B : Type 0} (m : Body S A) (f : A → Body S B) (s t : S) (a : A)
    → m s ≡ returned a t
    → (m >>= f) s ≡ f a t
bind-returned m f s t a e =
    ap (λ o. elim o [ returned b u ↦ f b u | threw error u ↦ threw error u ]) e

pub or_throw-some :
    {S A : Type 0} (o : Option A) (e : ProvisioningError) (a : A) (s : S)
    → o ≡ some a
    → or_throw o e s ≡ returned a s
or_throw-some o e a s h = ap (λ x. or_throw x e s) h

pub Total-bind :
    {S A B : Type 0} (m : Body S A) (f : A → Body S B)
    → Total m
    → ((a : A) → Total (f a))
    → Total (m >>= f)
Total-bind m f h k s =
    let (a, t, e) = h s in let (b, u, d) = k a t in (b, u, bind-returned m f s t a e ∙ d)

-- A role of that name is there, and has an identifier.
abbrev pub HasRole : List Role → Option String → Type 0
HasRole roles name =
    (role : Role) × (id : String) × (role_named roles name ≡ some role)
    × (get_role_id role ≡ some id)

pub require_role-Total :
    {S : Type 0} (roles : List Role) (name : Option String)
    → HasRole roles name
    → Total {S = S} {A = Role} (require_role roles name)
unfolding require_role
require_role-Total roles name (role, id, found, has) s = (role, s, rw found refl)

pub role_id_for-Total :
    {S : Type 0} (roles : List Role) (name : Option String)
    → HasRole roles name
    → Total {S = S} {A = String} (role_id_for roles name)
unfolding require_role
role_id_for-Total roles name (role, id, found, has) s = (id, s, rw found (rw has refl))

pub jit_role_ids-Total :
    {S : Type 0} (roles : List Role) (names : List String)
    → All (λ n. HasRole roles (some n)) names
    → Total {S = S} {A = List String} (jit_role_ids roles names)
jit_role_ids-Total roles [] h = λ s. ([], s, refl)
jit_role_ids-Total roles (name ∷ names) (h, hs) =
    Total-bind (role_id_for roles (some name)) _ (role_id_for-Total roles (some name) h) λ id.
      Total-bind (jit_role_ids roles names) _ (jit_role_ids-Total roles names hs)
        λ ids s. (id ∷ ids, s, refl)

pub require_all-Total :
    {S : Type 0} (roles : List Role) (names : List String)
    → All (λ n. HasRole roles (some n)) names
    → Total {S = S} {A = Unit {0}} (require_all roles names)
require_all-Total roles [] h = λ s. (tt, s, refl)
require_all-Total roles (name ∷ names) (h, hs) =
    Total-bind (require_role roles (some name)) _ (require_role-Total roles (some name) h)
      λ _. require_all-Total roles names hs

All-select {ℓ κ} :
    {A : Type ℓ} (P : A → Type κ) (p : A → Bool) (xs : List A) → All P xs → All P (select p xs)
unfolding select
All-select P p [] h = tt
All-select P p (x ∷ xs) (h, hs) = elim (Bool-cases (p x)) [
  | inl e ↦ rw e (h, All-select P p xs hs)
  | inr e ↦ rw e (All-select P p xs hs)
]

All-distinct : (P : String → Type 0) (names : List String) → All P names → All P (distinct names)
unfolding distinct
All-distinct P [] h = tt
All-distinct P (name ∷ names) (h, hs) =
    (h, All-select P (differs name) (distinct names) (All-distinct P names hs))

All-truthy_names :
    (P : Option String → Type 0) (names : List (Option String))
    → All P names
    → All (λ n. P (some n)) (truthy_names names)
All-truthy_names P [] h = tt
All-truthy_names P (none ∷ names) (h, hs) = All-truthy_names P names hs
All-truthy_names P (some name ∷ names) (h, hs) = elim (Bool-cases (is_empty name)) [
  | inl e ↦ rw e (All-truthy_names P names hs)
  | inr e ↦ rw e (h, All-truthy_names P names hs)
]

All-map {ℓ κ} :
    {A B : Type ℓ} (P : B → Type κ) (f : A → B) (xs : List A)
    → All (λ x. P (f x)) xs
    → All P (map f xs)
All-map P f [] h = tt
All-map P f (x ∷ xs) (h, hs) = (h, All-map P f xs hs)

-- The roles that an input asks for are there.
pub record HasRoles (roles : List Role) (input : ProvisioningInput) : Type 0 where
  pub defaults : All (λ n. HasRole roles (some n)) input.default_role_names
  pub contacts : All (λ c. HasRole roles (contact_role c)) input.administrative_contacts

pub required-HasRoles :
    (roles : List Role) (input : ProvisioningInput)
    → HasRoles roles input
    → All (λ n. HasRole roles (some n)) (required_role_names input)
unfolding required_role_names
required-HasRoles roles input h =
    All-distinct (λ n. HasRole roles (some n)) _
      (All-truthy_names (HasRole roles) _ (
        All-append (HasRole roles) _ _
          (All-map (HasRole roles) some input.default_role_names h.defaults)
          (All-map (HasRole roles) contact_role input.administrative_contacts h.contacts)))

module _ {W : Type 0} where
  perform-Total :
      (name : String) (effect : Body W Output) → Total effect → Total (perform name effect)
  perform-Total name effect h run =
      let (output, w, e) = h run.world in ((false, output), after_step name output w run, rw e refl)

  pub run_step-Total :
      (name : String) (replayable : Bool) (effect : Body W Output)
      → Total effect
      → Total (run_step name replayable effect)
  unfolding run_step
  run_step-Total name replayable effect h run =
      elim (Option-cases (lookup name run.completed_steps)) [
        | inl e ↦ rw e (perform-Total name effect h run)
        | inr (previous, e) ↦ rw e (elim (Bool-cases replayable) [
          | inl r ↦ rw r (perform-Total name effect h run)
          | inr r ↦ rw r ((true, previous), run, refl)
        ])
      ]
