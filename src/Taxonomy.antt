-- ===== src/Taxonomy.antt =====
-- backend/taxonomy: the values of an organization's dimensions. The repository is the one in memory of
-- taxonomyRepository.js, in which the identifier `value_n` is the number n, and whose transaction
-- undoes nothing. `new Date()` is the argument `now`.
use civitas.Prelude.{
  ℕ, zero, suc, ◌+◌, Bool, true, false, not, ◌&&◌, ◌||◌, Option, none, some, or_else, List, [], ◌∷◌,
  ◌++◌, String, str_eq, length, any, find, select, ◌==◌, if◌then◌else◌,
}
use civitas.Prelude.Json.{Value}
use civitas.Prelude.Maps.{lookup, assign}
pub mod Checks
pub mod Patches
pub mod Calls
pub mod Service
pub mod Publication
pub mod Ancestors
pub mod Sure
pub mod Ends
pub mod Resolve
pub mod Steps
pub mod Versions
pub mod Tests

pub data ReasonCode : Type 0 where
  dimension_unknown dimension_disabled value_not_found value_wrong_organization
        value_wrong_dimension value_not_published value_deprecating value_archived parent_invalid
        parent_cross_tenant parent_wrong_dimension hierarchy_not_allowed cycle_detected
        stable_key_invalid stable_key_immutable external_ref_invalid archive_requires_migration
        archive_blocked impact_unknown catalog_version_conflict publish_validation_failed
        provider_unavailable metadata_invalid metadata_secret_or_permission
        capability_not_supported :
      ReasonCode

-- `port_error` is what a function of the runtime's port throws.
pub data Failure : Type 0 where
  taxonomy_error : ReasonCode → Failure
  port_error : String → Failure

-- A patch may bring a status that is none of the four.
pub data ValueStatus : Type 0 where
  draft active deprecating archived : ValueStatus
  other_status : String → ValueStatus

pub record Definition : Type 0 where
  pub id : String
  pub dimension_key : String
  pub hierarchy_allowed : Bool
  pub capabilities : List String
  pub is_active : Bool

pub record TaxonomyValue : Type 0 where
  pub id : ℕ
  pub logto_organization_id : String
  pub dimension_definition_id : String
  pub dimension_key_cache : String
  pub stable_key : String
  pub display_name : Option String
  pub description : Option String
  pub sort_order : ℕ
  pub parent_value_id : Option ℕ
  pub external_ref : Option String
  pub metadata : Value
  pub status : ValueStatus
  pub created_by : Option String
  pub updated_by : Option String
  pub published_at : Option ℕ
  pub published_by : Option String
  pub deprecated_at : Option ℕ
  pub deprecated_until : Option ℕ
  pub archived_at : Option ℕ
  pub archived_by : Option String

pub record CatalogState : Type 0 where
  pub taxonomy_catalog_version : ℕ
  pub published_version : ℕ
  pub is_published : Bool
  pub updated_at : Option ℕ
  pub last_published_at : Option ℕ
  pub last_published_by : Option String

pub data EventType : Type 0 where
  value_created value_renamed value_updated deprecation archival catalog_published : EventType

pub data ChangeClass : Type 0 where
  presentation_only taxonomy_semantic authorization_affecting : ChangeClass

pub record Event : Type 0 where
  pub event_type : EventType
  pub organization_id : String
  pub taxonomy_catalog_version : ℕ
  pub policy_version : Option ℕ
  pub change_class : ChangeClass
  pub dimension_key : Option String
  pub value_id : Option ℕ

-- The repository, with the outside that the functions of the runtime's port read and change.
pub record Store (W : Type 0) : Type 0 where
  pub definitions : List (String × Definition)
  pub values : List TaxonomyValue
  pub states : List (String × CatalogState)
  pub outbox : List Event
  pub audits : List Event
  pub outside : W

abbrev pub has_id : ℕ → TaxonomyValue → Bool
has_id id v = v.id == id

abbrev pub get_value_by_id : ℕ → List TaxonomyValue → Option TaxonomyValue
get_value_by_id id values = find (has_id id) values

abbrev pub first_state : CatalogState
first_state = record {
  taxonomy_catalog_version = 0;
  published_version = 0;
  is_published = false;
  updated_at = none;
  last_published_at = none;
  last_published_by = none;
}

abbrev pub state_in : String → List (String × CatalogState) → CatalogState
state_in organization_id states = or_else (lookup organization_id states) first_state

abbrev is_key_of : String → String → String → TaxonomyValue → Bool
is_key_of organization_id definition_id key v =
    str_eq v.logto_organization_id organization_id
    && (str_eq v.dimension_definition_id definition_id && str_eq v.stable_key key)

unfoldable pub find_value_by_stable_key :
    String → String → String → List TaxonomyValue → Option TaxonomyValue
unfolding find
find_value_by_stable_key organization_id definition_id key values =
    find (is_key_of organization_id definition_id key) values

-- Known dimensions are written over what is there for their keys.
abbrev upsert : Definition → List (String × Definition) → List (String × Definition)
upsert d definitions = assign d.dimension_key d definitions

unfoldable pub ensure_definitions :
    List Definition → List (String × Definition) → List (String × Definition)
unfolding assign
ensure_definitions [] definitions = definitions
ensure_definitions (d ∷ ds) definitions =
    ensure_definitions ds (upsert (record d { is_active = true }) definitions)

abbrev pub ℕ_in : ℕ → List ℕ → Bool
ℕ_in n ns = any (λ m. m == n) ns

-- The loop of `ancestorsOf`, from the identifiers seen and the current value; `none` is a loop that
-- has run out of fuel.
abbrev cons_found : TaxonomyValue → Option (List TaxonomyValue) → Option (List TaxonomyValue)
cons_found v none = none
cons_found v (some vs) = some (v ∷ vs)

abbrev go_up :
    Option ℕ
    → List ℕ
    → List TaxonomyValue
    → (List ℕ → TaxonomyValue → Option (List TaxonomyValue))
    → Option (List TaxonomyValue)
go_up none seen values continue = some []
go_up (some parent) seen values continue =
    if ℕ_in parent seen then some [] else elim (get_value_by_id parent values) [
      | none ↦ some []
      | some v ↦ cons_found v (continue (parent ∷ seen) v)
    ]

unfoldable pub ancestors_from :
    ℕ → List TaxonomyValue → List ℕ → TaxonomyValue → Option (List TaxonomyValue)
unfolding find any
ancestors_from zero values seen current = none
ancestors_from (suc fuel) values seen current =
    go_up current.parent_value_id seen values λ ids v. ancestors_from fuel values ids v

abbrev ancestors_of_found :
    ℕ → List TaxonomyValue → Option TaxonomyValue → Option (List TaxonomyValue)
ancestors_of_found fuel values none = some []
ancestors_of_found fuel values (some v) = ancestors_from fuel values [] v

unfoldable pub ancestors_of : ℕ → ℕ → List TaxonomyValue → Option (List TaxonomyValue)
unfolding ancestors_from
ancestors_of fuel id values = ancestors_of_found fuel values (get_value_by_id id values)
