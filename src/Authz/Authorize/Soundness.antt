-- ===== src/Authz/Authorize/Soundness.antt =====
-- What a request that authorize.js allows has shown.
use civitas.Prelude.{
  ◌≡◌, ◌↔◌, refl, Bool, true, false, not, ◌&&◌, ◌||◌, Option, none, some, List, [], ◌∷◌, String,
  str_eq, any, arith, Bool-cases, inl, inr,
}
use civitas.Prelude.Text.{is_empty}
use civitas.Authz.Reasons.{
  ReasonCode, surface_mismatch, registry_catalog_mismatch, permission_unknown, permission_inactive,
  consumer_surface_mismatch, permission_missing,
}
use civitas.Authz.Context.{RolePath, Context, has}
use civitas.Authz.Registry.{Registry}
use civitas.Authz.Authorize.{
  Permission, Catalog, Resolver, derive_authorization_plan, no_paths, is_self, is_known, grants,
  surface_matches, permission_surface_matches, role_potential_for_surface, path_known, path_grants,
  validate_role_potential, resolve_module_availability, first_match, after_potential,
  after_availability, with_permission, authorize_context,
}
use civitas.Authz.Authorize.Plan.{
  Passed, scope_on_paths, past_check, deny-absurd, run_plan_allowed_iff,
}

-- The request is of the caller's own surface, or the catalog grants the permission to the role of
-- one of its paths.
abbrev pub has_potential : Catalog → Context → Bool
has_potential catalog c =
    is_self c.surface
    || any (path_grants (role_potential_for_surface catalog c.surface) c.permission) c.role_paths

-- The context with which the plan begins.
abbrev pub before_plan : Catalog → Context → Context
before_plan catalog c = (validate_role_potential catalog c).1

-- What the catalog, the resolver and the registry have to say for a request to be allowed.
pub record Justified (catalog : Catalog) (registry : Registry) (resolver : Resolver)
    (required : String) (c : Context) : Type 0 where
  pub has_subject : is_empty c.principal.subject ≡ false
  pub same_catalog : (is_empty required || str_eq required catalog.catalog_hash) ≡ true
  pub permission : Permission
  pub is_declared : catalog.permissions_by_name c.permission ≡ some permission
  pub is_available : resolve_module_availability resolver c permission ≡ none
  pub is_active : str_eq permission.status "active" ≡ true
  pub is_for_surface : permission_surface_matches permission c.surface ≡ true
  pub is_on_surface : surface_matches c ≡ true
  pub in_token : has c.principal.scopes c.permission ≡ true
  pub by_role : has_potential catalog c ≡ true
  pub after : Context
  pub by_policies :
      Passed registry
        (derive_authorization_plan (before_plan catalog c))
        (before_plan catalog c)
        after
  pub scope_left : scope_on_paths after ≡ true

grants-is_known :
    (o : Option (List String)) (permission : String)
    → grants o permission ≡ true
    → is_known o ≡ true
unfolding any
grants-is_known none permission h = h
grants-is_known (some permissions) permission h = refl

known_of_grants :
    (potentials : String → Option (List String)) (permission : String) (paths : List RolePath)
    → any (path_grants potentials permission) paths ≡ true
    → (any (path_known potentials) paths ≡ true) × (no_paths paths ≡ false)
unfolding any
known_of_grants potentials permission [] h = ground arith
known_of_grants potentials permission (path ∷ paths) h =
    elim (Bool-cases (path_grants potentials permission path)) [
      | inl e ↦ (rw (grants-is_known (potentials path.logto_role_id) permission e) refl, refl)
      | inr e ↦ (rest (known_of_grants potentials permission paths (ground (arith, e, h))).0, refl)
    ]
  where
    rest :
        any (path_known potentials) paths ≡ true → any (path_known potentials) (path ∷ paths) ≡ true
    rest k = ground arith

pub validate_role_potential_iff :
    (catalog : Catalog) (c : Context)
    → ((validate_role_potential catalog c).0 ≡ none) ↔ (has_potential catalog c ≡ true)
unfolding validate_role_potential any
validate_role_potential_iff catalog c =
    let known =
      known_of_grants (role_potential_for_surface catalog c.surface) c.permission c.role_paths in
    elim (Bool-cases (
      any (path_grants (role_potential_for_surface catalog c.surface) c.permission) c.role_paths)) [
        | inl e ↦ let (k, n) = known e in ground (arith, e, k, n)
        | inr e ↦ ground (arith, e)
      ]

after_potential-allowed :
    (registry : Registry) (o : Option ReasonCode × Context)
    → (after_potential registry o).allowed ≡ true
    → (o.0 ≡ none)
      × (after : Context) × Passed registry (derive_authorization_plan o.1) o.1 after
      × (scope_on_paths after ≡ true)
after_potential-allowed registry (none, c) h =
    let (after, passed, scope) =
      (run_plan_allowed_iff registry (derive_authorization_plan c) c (first_match c.role_paths)).0
        h in
    (refl, after, passed, scope)
after_potential-allowed registry (some r, c) h = deny-absurd c r h

not-flip : {b : Bool} → not b ≡ false → b ≡ true
not-flip {b} h = ground arith

-- What is left to show when the subject and the catalog have been checked.
Granted : Catalog → Registry → Resolver → Context → Permission → Type 0
Granted catalog registry resolver c p =
    (resolve_module_availability resolver c p ≡ none)
    × (str_eq p.status "active" ≡ true)
    × (permission_surface_matches p c.surface ≡ true)
    × (surface_matches c ≡ true)
    × (has c.principal.scopes c.permission ≡ true)
    × (has_potential catalog c ≡ true)
    × (after : Context) × Passed registry (derive_authorization_plan (before_plan catalog c))
        (before_plan catalog c) after
    × (scope_on_paths after ≡ true)

after_availability-Granted :
    (catalog : Catalog) (registry : Registry) (resolver : Resolver) (p : Permission) (c : Context)
    (o : Option ReasonCode)
    → resolve_module_availability resolver c p ≡ o
    → (after_availability catalog registry p o c).allowed ≡ true
    → Granted catalog registry resolver c p
unfolding Granted
after_availability-Granted catalog registry resolver p c (some r) e h = deny-absurd c r h
after_availability-Granted catalog registry resolver p c none e h =
    let (active, h₁) = past_check (not (str_eq p.status "active")) c permission_inactive _ h in
    let (meant, h₂) =
      past_check (not (permission_surface_matches p c.surface)) c consumer_surface_mismatch _ h₁ in
    let (on, h₃) = past_check (not (surface_matches c)) c surface_mismatch _ h₂ in
    let (held, h₄) =
      past_check (not (has c.principal.scopes c.permission)) c permission_missing _ h₃ in
    let (potential, after, passed, scope) =
      after_potential-allowed registry (validate_role_potential catalog c) h₄ in
    (
      e,
      not-flip active,
      not-flip meant,
      not-flip on,
      not-flip held,
      (validate_role_potential_iff catalog c).0 potential,
      after,
      passed,
      scope,
    )

with_permission-Granted :
    (catalog : Catalog) (registry : Registry) (resolver : Resolver) (c : Context)
    (o : Option Permission)
    → (with_permission catalog registry resolver o c).allowed ≡ true
    → (p : Permission) × (o ≡ some p) × Granted catalog registry resolver c p
with_permission-Granted catalog registry resolver c none h = deny-absurd c permission_unknown h
with_permission-Granted catalog registry resolver c (some p) h =
    (p, refl, after_availability-Granted catalog registry resolver p c _ refl h)

authorize-Justified :
    (catalog : Catalog) (registry : Registry) (resolver : Resolver) (required : String)
    (c : Context)
    → (authorize_context catalog registry resolver required c).allowed ≡ true
    → Justified catalog registry resolver required c
unfolding authorize_context Granted
authorize-Justified catalog registry resolver required c h =
    let (subject, h₁) = past_check (is_empty c.principal.subject) c surface_mismatch _ h in
    let (hash, h₂) =
      past_check (not (is_empty required) && not (str_eq required catalog.catalog_hash)) c
        registry_catalog_mismatch _ h₁ in
    let (p, declared, granted) =
      with_permission-Granted catalog registry resolver c (catalog.permissions_by_name c.permission)
        h₂ in
    let (available, active, meant, on, held, potential, after, passed, scope) = granted in
    record {
      has_subject = subject;
      same_catalog = ground (arith, hash);
      permission = p;
      is_declared = declared;
      is_available = available;
      is_active = active;
      is_for_surface = meant;
      is_on_surface = on;
      in_token = held;
      by_role = potential;
      after = after;
      by_policies = passed;
      scope_left = scope;
    }

after_potential-passes :
    (registry : Registry) (o : Option ReasonCode × Context) (after : Context)
    → o.0 ≡ none
    → Passed registry (derive_authorization_plan o.1) o.1 after
    → scope_on_paths after ≡ true
    → (after_potential registry o).allowed ≡ true
after_potential-passes registry (none, c) after e passed scope =
    (run_plan_allowed_iff registry (derive_authorization_plan c) c (first_match c.role_paths)).1
      (after, passed, scope)
after_potential-passes registry (some r, c) after e passed scope = ground arith

Justified-authorize :
    (catalog : Catalog) (registry : Registry) (resolver : Resolver) (required : String)
    (c : Context)
    → Justified catalog registry resolver required c
    → (authorize_context catalog registry resolver required c).allowed ≡ true
unfolding authorize_context
Justified-authorize catalog registry resolver required c j =
    let potential = (validate_role_potential_iff catalog c).1 j.by_role in
    let hash : (not (is_empty required) && not (str_eq required catalog.catalog_hash)) ≡ false =
      ground (arith, j.same_catalog) in
    let policies =
      after_potential-passes registry (validate_role_potential catalog c) j.after potential
        j.by_policies j.scope_left in
    rw
      (
        j.has_subject, hash, j.is_declared, j.is_available, j.is_active, j.is_for_surface,
        j.is_on_surface, j.in_token,
      )
      policies

-- A request is allowed exactly if it is justified: it has a subject, insists on no other catalog,
-- its permission is declared, available, active and meant for the request's surface, the principal
-- stands on that surface and has the permission in the token, a role of a path grants it (or the
-- surface is the caller's own), every policy of the plan is registered, supports the surface,
-- answers and lets the request go on, and the policies leave the token's scope on a path or no paths.
pub authorize_iff :
    (catalog : Catalog) (registry : Registry) (resolver : Resolver) (required : String)
    (c : Context)
    → ((authorize_context catalog registry resolver required c).allowed ≡ true)
      ↔ Justified catalog registry resolver required c
authorize_iff catalog registry resolver required c = (
  authorize-Justified catalog registry resolver required c,
  Justified-authorize catalog registry resolver required c,
)
