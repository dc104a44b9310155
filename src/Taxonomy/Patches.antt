-- ===== src/Taxonomy/Patches.antt =====
-- backend/taxonomy/taxonomyService.js, the checks of a patch, and taxonomyImpactService.js. A patch that
-- sets an identifier or a time is not modelled.
use civitas.Prelude.{
  ℕ, Bool, true, false, ◌&&◌, ◌||◌, Option, none, some, or_else, List, String, str_eq, any, is_nil,
  if◌then◌else◌,
}
use civitas.Prelude.Text.{is_empty}
use civitas.Prelude.Json.{is_truthy, Value}
use civitas.Taxonomy.{
  archive_requires_migration, archive_blocked, impact_unknown, ValueStatus, draft, TaxonomyValue,
}
use civitas.Taxonomy.Checks.{
  Fault, validate_stable_key, validate_metadata, validate_external_ref, same_status,
  stable_key_fault,
}

pub record Patch : Type 0 where
  pub logto_organization_id : Option String
  pub dimension_definition_id : Option String
  pub dimension_key_cache : Option String
  pub stable_key : Option String
  pub display_name : Option String
  pub description : Option String
  pub sort_order : Option ℕ
  pub parent_value_id : Option (Option ℕ)
  pub external_ref : Option (Option String)
  pub metadata : Option Value
  pub status : Option ValueStatus

abbrev pub or_old : Option String → Option String → Option String
or_old none old = old
or_old (some s) old = some s

unfoldable pub patched : Patch → Option String → TaxonomyValue → TaxonomyValue
patched patch actor v = record v {
  logto_organization_id = or_else patch.logto_organization_id v.logto_organization_id;
  dimension_definition_id = or_else patch.dimension_definition_id v.dimension_definition_id;
  dimension_key_cache = or_else patch.dimension_key_cache v.dimension_key_cache;
  stable_key = or_else patch.stable_key v.stable_key;
  display_name = or_old patch.display_name v.display_name;
  description = or_old patch.description v.description;
  sort_order = or_else patch.sort_order v.sort_order;
  parent_value_id = or_else patch.parent_value_id v.parent_value_id;
  external_ref = or_else patch.external_ref v.external_ref;
  metadata = or_else patch.metadata v.metadata;
  status = or_else patch.status v.status;
  updated_by = actor;
}

-- A key that is missing or empty is not checked.
abbrev pub key_fault : TaxonomyValue → Option String → Fault
key_fault v none = none
key_fault v (some key) =
    if is_empty key
    then none
    else elim (validate_stable_key key) [ some code ↦ some code | none ↦ stable_key_fault v key ]

-- A fault that counts only if the test holds.
abbrev fault_where : Bool → Fault → Fault
fault_where true fault = fault
fault_where false fault = none

abbrev pub metadata_fault : (Value → String) → Option Value → Fault
metadata_fault blob_of none = none
metadata_fault blob_of (some metadata) =
    fault_where (is_truthy metadata) (validate_metadata blob_of metadata)

abbrev pub reference_fault : Option (Option String) → Fault
reference_fault none = none
reference_fault (some ref) = validate_external_ref ref

pub data ImpactStatus : Type 0 where
  impact_safe impact_blocked impact_requires_migration impact_is_unknown : ImpactStatus
  other_impact : String → ImpactStatus

abbrev pub is_blocked : ImpactStatus → Bool
is_blocked impact_blocked = true
is_blocked _ = false

abbrev pub is_migration : ImpactStatus → Bool
is_migration impact_requires_migration = true
is_migration _ = false

abbrev pub is_unknown : ImpactStatus → Bool
is_unknown impact_is_unknown = true
is_unknown _ = false

-- `impactPreview`, from what its providers answer.
unfoldable pub impact_preview : List ImpactStatus → ImpactStatus
unfolding any
impact_preview checks =
    if any is_blocked checks
    then impact_blocked
    else if any is_migration checks
    then impact_requires_migration
    else if any is_unknown checks || is_nil checks
    then impact_is_unknown
    else impact_safe

-- Without an impact service nothing is known.
abbrev pub impact_fault : Option (List ImpactStatus) → Fault
impact_fault none = some impact_unknown
impact_fault (some checks) = elim (impact_preview checks) [
  | impact_is_unknown ↦ some impact_unknown
  | impact_requires_migration ↦ some archive_requires_migration
  | impact_blocked ↦ some archive_blocked
  | _ ↦ none
]

abbrev pub is_draft_of : String → TaxonomyValue → Bool
is_draft_of organization_id v =
    str_eq v.logto_organization_id organization_id && same_status v.status draft

abbrev pub lacks_name : Option String → Bool
lacks_name none = true
lacks_name (some name) = is_empty name

abbrev pub is_incomplete : TaxonomyValue → Bool
is_incomplete v =
    is_empty v.stable_key || (lacks_name v.display_name || is_empty v.dimension_definition_id)
