-- ===== src/Provisioning.antt =====
-- backend/services/organizationProvisioningCore.js, `runCanonicalOrganizationProvisioning`, over the
-- recorder of `createMemoryProvisioningRecorder` in organizationProvisioningRecorder.js. The
-- functions that call Logto are the argument `deps`, as in the source; each changes the world W and
-- may throw. What the function keeps in variables that its `catch` reads is part of the state.
use civitas.Prelude.{
  ℕ, ◌==◌, append_text, Bool, true, false, not, ◌&&◌, Option, none, some, or_else, List, [], ◌∷◌,
  ◌++◌, map, String, str_eq, select, any, is_nil, if◌then◌else◌,
}
use civitas.Prelude.Text.{is_empty}
use civitas.Prelude.Json.{Value, is_truthy}
pub mod Run
pub mod Bootstrap
pub mod Keeps
pub mod Counted
pub mod Once
pub mod Failed
pub mod Total
pub mod Completes
pub mod Contacts
pub mod Tests

-- A role, a user and an organization as Logto gives them: every field may be missing.
pub record Role : Type 0 where
  pub id : Option String
  pub organization_role_id : Option String
  pub role_id : Option String
  pub name : Option String
  pub name_cache : Option String
  pub key : Option String

pub record User : Type 0 where
  pub id : Option String
  pub user_id : Option String
  pub logto_user_id : Option String

pub record ResolvedUser : Type 0 where
  pub user : User
  pub created : Bool
  pub source : Option String

pub record Organization : Type 0 where
  pub id : Option String
  pub name : String
  pub description : Option String

pub record Contact : Type 0 where
  pub key : String
  pub email : Option String
  pub organization_role_name : Option String
  pub details : Value

-- `input`: its canonical part, and the rest of it.
pub record ProvisioningInput : Type 0 where
  pub name : String
  pub description : Option String
  pub administrative_contacts : List Contact
  pub domain : Option String
  pub default_role_names : List String
  pub settings : Value

-- What `a || b || null` gives, a missing string and an empty one being false.
abbrev pub or_next : Option String → Option String → Option String
or_next none next = next
or_next (some s) next = if is_empty s then next else some s

abbrev pub truthy : Option String → Option String
truthy o = or_next o none

abbrev pub get_role_name : Role → Option String
get_role_name role = or_next role.name (or_next role.name_cache (truthy role.key))

abbrev pub get_role_id : Role → Option String
get_role_id role = or_next role.id (or_next role.organization_role_id (truthy role.role_id))

abbrev pub get_user_id : User → Option String
get_user_id user = or_next user.id (or_next user.user_id (truthy user.logto_user_id))

-- What a step keeps as its output.
pub record Assignment : Type 0 where
  pub key : String
  pub email : Option String
  pub organization_id : Option String
  pub user_id : String
  pub role_name : Option String
  pub user_created : Bool
  pub user_source : Option String
  pub membership_added : Bool
  pub role_assigned : Bool
  pub primary_operational_contact : Bool

pub data Output : Type 0 where
  no_output : Output
  bootstrap_started : String → Output
  roles_listed : List Role → List String → Output
  template_validated : Value → List String → Output
  organization_created : Organization → Option String → Output
  email_domains_replaced : Option String → List String → Output
  default_roles_replaced : Option String → List String → List String → Output
  user_assigned : Assignment → Output

abbrev pub output_roles : Output → List Role
output_roles (roles_listed roles available) = roles
output_roles _ = []

abbrev pub output_organization : Output → Option Organization
output_organization (organization_created organization id) = some organization
output_organization _ = none

abbrev pub output_organization_id : Output → Option String
output_organization_id (organization_created organization id) = id
output_organization_id (email_domains_replaced id domains) = id
output_organization_id (default_roles_replaced id names ids) = id
output_organization_id (user_assigned a) = a.organization_id
output_organization_id _ = none

-- `templateStep.output.template || templateStep.output`.
pub data Template : Type 0 where
  template : Value → Template
  whole_output : Output → Template

abbrev pub output_template : Output → Template
output_template (template_validated t names) =
    if is_truthy t then template t else whole_output (template_validated t names)
output_template output = whole_output output

-- An entry of `administrativeContactAssignments`.
pub record ContactAssignment : Type 0 where
  pub key : String
  pub email : Option String
  pub logto_user_id : Option String
  pub role_name : Option String
  pub user_created : Bool
  pub user_source : Option String
  pub membership_added : Bool
  pub role_assigned : Bool
  pub primary_operational_contact : Bool
  pub skipped : Bool

pub record Result : Type 0 where
  pub organization : Organization
  pub organization_id : Option String
  pub template : Template
  pub available_organization_roles : List String
  pub domain : Option String
  pub default_role_names : List String
  pub default_role_ids : List String
  pub administrative_contact_assignments : List ContactAssignment
  pub idempotent : Bool

-- What a call of Logto throws, as far as it is read; `as_text` is what `String` gives of it.
pub record LogtoError : Type 0 where
  pub name : Option String
  pub message : Option String
  pub code : Option String
  pub status : Option ℕ
  pub as_text : String

pub data ProvisioningError : Type 0 where
  invalid_initial_organization_role : Option String → List String → ProvisioningError
  role_without_id : Option String → ProvisioningError
  user_without_id : Option String → ProvisioningError
  logto_error : LogtoError → ProvisioningError

-- What the recorder keeps of an error.
pub record SerializedError : Type 0 where
  pub name : String
  pub message : String
  pub code : Option String
  pub status : Option ℕ

abbrev plain_error : String → SerializedError
plain_error message = record { name = "Error"; message = message; code = none; status = none }

-- A missing value in a template.
abbrev shown : Option String → String
shown o = or_else o "undefined"

abbrev nonzero : Option ℕ → Option ℕ
nonzero none = none
nonzero (some n) = if n == 0 then none else some n

abbrev pub serialize_error : ProvisioningError → SerializedError
serialize_error (invalid_initial_organization_role requested available) = record {
  name = "InvalidInitialOrganizationRoleError";
  message = "El rol solicitado no existe en Logto para organizaciones.";
  code = some "INVALID_INITIAL_ORGANIZATION_ROLE";
  status = some 422;
}
serialize_error (role_without_id name) = plain_error (
    append_text "Logto organization role "
      (append_text (shown name) " exists but no role id was returned"))
serialize_error (user_without_id email) = plain_error (
    append_text "Administrative contact "
      (append_text (shown email) " did not resolve a Logto user id"))
serialize_error (logto_error e) = record {
  name = or_else (truthy e.name) "Error";
  message = or_else (truthy e.message) e.as_text;
  code = truthy e.code;
  status = nonzero e.status;
}

-- A body that reads and changes a state, and what it changed stays when it throws.
pub data Outcome (S A : Type 0) : Type 0 where
  returned : A → S → Outcome S A
  threw : ProvisioningError → S → Outcome S A

abbrev pub Body : Type 0 → Type 0 → Type 0
Body S A = S → Outcome S A

module _ {S : Type 0} where
  infixl 5 ◌>>=◌ ◌>>◌
  abbrev pub ◌>>=◌ : {A B : Type 0} → Body S A → (A → Body S B) → Body S B
  ◌>>=◌ m f s = elim (m s) [ returned a t ↦ f a t | threw e t ↦ threw e t ]

  abbrev pub ◌>>◌ : {A B : Type 0} → Body S A → Body S B → Body S B
  m >> k = m >>= λ _. k

  abbrev pub pure : {A : Type 0} → A → Body S A
  pure a s = returned a s

  abbrev pub or_throw : {A : Type 0} → Option A → ProvisioningError → Body S A
  or_throw none e s = threw e s
  or_throw (some a) e s = returned a s

pub record Deps (W : Type 0) : Type 0 where
  pub list_organization_roles : Body W (List Role)
  pub ensure_organization_template : List String → Body W Value
  pub create_organization : ProvisioningInput → Body W Organization
  pub replace_email_domains : Option String → List String → Body W (Unit {0})
  pub replace_default_roles : Option String → List String → Body W (Unit {0})
  pub create_or_resolve_user : Contact → Body W ResolvedUser
  pub add_user_to_organization : Option String → String → Body W (Unit {0})
  pub assign_organization_role : Option String → String → String → Option String → Body W (Unit {0})

-- `createRoleResolver`: the named roles, of which a later one hides an earlier one of its name.
abbrev with_name : Role → List (String × Role) → List (String × Role)
with_name role rest = elim (get_role_name role) [
  | none ↦ rest
  | some name ↦ (name, record role { id = get_role_id role; name = some name }) ∷ rest
]

unfoldable pub normalized_roles : List Role → List (String × Role)
normalized_roles [] = []
normalized_roles (role ∷ roles) = with_name role (normalized_roles roles)

abbrev role_key : String × Role → String
role_key (name, role) = name

unfoldable pub available_roles : List Role → List String
unfolding normalized_roles
available_roles roles = map {A = String × Role} {B = String} role_key (normalized_roles roles)

unfoldable pub last_role : String → List (String × Role) → Option Role
last_role name [] = none
last_role name ((key, role) ∷ roles) = elim (last_role name roles) [
  | some later ↦ some later
  | none ↦ if str_eq key name then some role else none
]

abbrev pub role_named : List Role → Option String → Option Role
role_named roles none = none
role_named roles (some name) = last_role name (normalized_roles roles)

unfoldable pub require_role : {S : Type 0} → List Role → Option String → Body S Role
unfolding normalized_roles last_role available_roles
require_role roles name =
    or_throw (role_named roles name)
      (invalid_initial_organization_role name (available_roles roles))
