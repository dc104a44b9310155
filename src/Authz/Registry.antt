-- ===== src/Authz/Registry.antt =====
-- backend/authorization/policies/registry.js. A definition's evaluation is the policy's own code: it
-- answers a result, or throws (`none`), and leaves the context as it has changed it.
use civitas.Prelude.{
  Bool, true, false, Option, none, some, List, [], ◌∷◌, ◌++◌, String, str_eq, any, find,
  if◌then◌else◌,
}
use civitas.Prelude.Text.{is_empty}
use civitas.Authz.Context.{Surface, PolicyResult, Context}
pub mod Lookup

pub record Policy : Type 0 where
  pub id : String
  pub version : String
  pub supported_surfaces : List Surface
  pub allow_not_applicable : Bool
  pub evaluate : Context → Option PolicyResult × Context

pub record Registry : Type 0 where
  pub definitions : List Policy
  pub frozen : Bool

-- The PolicyConfigurationError that is thrown.
pub data ConfigurationError : Type 0 where
  registry_frozen id_required version_required surfaces_required duplicate_id : ConfigurationError

pub data Registered : Type 0 where
  registered : Registry → Registered
  refused : ConfigurationError → Registered

abbrev pub has_id : String → Policy → Bool
has_id id policy = str_eq policy.id id

unfoldable pub create_policy_registry : Registry
create_policy_registry = record { definitions = []; frozen = false }

unfoldable pub get_policy : String → Registry → Option Policy
unfolding find
get_policy id registry = find (has_id id) registry.definitions

abbrev is_none : List Surface → Bool
is_none [] = true
is_none (_ ∷ _) = false

-- `validateDefinition`, as far as a definition can fail here; the field types hold by construction.
abbrev pub definition_error : Policy → Option ConfigurationError
definition_error policy =
    if is_empty policy.id
    then some id_required
    else if is_empty policy.version
    then some version_required
    else if is_none policy.supported_surfaces
    then some surfaces_required
    else none

abbrev pub register_valid : Option ConfigurationError → Policy → Registry → Registered
register_valid (some e) policy registry = refused e
register_valid none policy registry =
    if any (has_id policy.id) registry.definitions
    then refused duplicate_id
    else registered (record registry { definitions = registry.definitions ++ policy ∷ [] })

unfoldable pub register_policy : Policy → Registry → Registered
unfolding any
register_policy policy registry =
    if registry.frozen
    then refused registry_frozen
    else register_valid (definition_error policy) policy registry

unfoldable pub freeze_registry : Registry → Registry
freeze_registry registry = record registry { frozen = true }
