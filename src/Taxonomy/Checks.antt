-- ===== src/Taxonomy/Checks.antt =====
-- backend/taxonomy/taxonomyValidation.js, taxonomyLifecycle.js and taxonomyHierarchy.js. The known
-- dimensions come from a contract file and are the argument `known`; the serialized metadata,
-- `JSON.stringify(metadata).toLowerCase()`, is the argument `blob_of`.
use civitas.Prelude.{
  ℕ, Bool, true, false, not, ◌&&◌, ◌||◌, Option, none, some, List, [], ◌∷◌, String, str_eq, any,
  ◌==◌, if◌then◌else◌,
}
use civitas.Prelude.Text.{includes, includes_lowered, is_slug, is_dotted_key}
use civitas.Prelude.Json.{Value, is_plain_object}
use civitas.Taxonomy.{
  ReasonCode, dimension_unknown, value_not_found, value_not_published, value_deprecating,
  value_archived, parent_invalid, parent_cross_tenant, parent_wrong_dimension,
  hierarchy_not_allowed, cycle_detected, stable_key_invalid, stable_key_immutable,
  external_ref_invalid, metadata_invalid, metadata_secret_or_permission, ValueStatus, draft, active,
  deprecating, archived, other_status, Definition, TaxonomyValue, ChangeClass, presentation_only,
  taxonomy_semantic, authorization_affecting,
}

-- What a check finds wrong.
abbrev pub Fault : Type 0
Fault = Option ReasonCode

abbrev pub fault_if : Bool → ReasonCode → Fault → Fault
fault_if true code next = some code
fault_if false code next = next

abbrev pub is_known : List Definition → String → Bool
is_known known key = any (λ d. str_eq d.dimension_key key) known

abbrev foreign_words : List String
foreign_words = "scope" ∷ "role" ∷ "permission" ∷ "moodle" ∷ "buddyboss" ∷ "stripe" ∷ "logto" ∷ []

unfoldable pub validate_dimension_key : List Definition → String → Fault
unfolding any includes is_dotted_key
validate_dimension_key known key =
    fault_if (not (is_known known key)) dimension_unknown (
      fault_if (not (is_dotted_key key) || any (includes key) foreign_words) dimension_unknown none)

unfoldable pub validate_stable_key : String → Fault
unfolding is_slug
validate_stable_key key = fault_if (not (is_slug key)) stable_key_invalid none

abbrev secret_words : List String
secret_words =
    "access_token" ∷ "access-token" ∷ "accesstoken" ∷ "refresh_token" ∷ "refresh-token"
    ∷ "refreshtoken" ∷ "password" ∷ "secret" ∷ "jwt" ∷ "permission" ∷ "scope" ∷ []

unfoldable pub validate_metadata : (Value → String) → Value → Fault
unfolding any includes
validate_metadata blob_of metadata =
    fault_if (not (is_plain_object metadata)) metadata_invalid
      (fault_if (any (includes (blob_of metadata)) secret_words) metadata_secret_or_permission none)

abbrev reference_words : List String
reference_words = "token" ∷ "secret" ∷ "password" ∷ "jwt" ∷ "refresh" ∷ []

unfoldable pub validate_external_ref : Option String → Fault
unfolding any includes_lowered
validate_external_ref none = none
validate_external_ref (some ref) =
    fault_if (any (includes_lowered ref) reference_words) external_ref_invalid none

-- `assertCanUseForDataScope` of a value that is there.
abbrev pub usable_fault : ValueStatus → Fault
usable_fault active = none
usable_fault draft = some value_not_published
usable_fault deprecating = some value_deprecating
usable_fault archived = some value_archived
usable_fault (other_status s) = some value_not_found

abbrev pub same_status : ValueStatus → ValueStatus → Bool
same_status draft draft = true
same_status active active = true
same_status deprecating deprecating = true
same_status archived archived = true
same_status (other_status s) (other_status t) = str_eq s t
same_status _ _ = false

abbrev same_text : Option String → Option String → Bool
same_text none none = true
same_text (some s) (some t) = str_eq s t
same_text _ _ = false

abbrev same_number : Option ℕ → Option ℕ → Bool
same_number none none = true
same_number (some m) (some n) = m == n
same_number _ _ = false

unfoldable pub classify_value_change : TaxonomyValue → TaxonomyValue → ChangeClass
classify_value_change before after =
    if not (same_status before.status after.status)
      || not (same_number before.parent_value_id after.parent_value_id)
    then authorization_affecting
    else if not (str_eq before.stable_key after.stable_key)
        || not (str_eq before.dimension_definition_id after.dimension_definition_id)
    then authorization_affecting
    else if not (same_text before.display_name after.display_name)
        || (not (same_text before.description after.description)
            || not (before.sort_order == after.sort_order))
    then presentation_only
    else taxonomy_semantic

abbrev is_draft : ValueStatus → Bool
is_draft draft = true
is_draft _ = false

unfoldable pub stable_key_fault : TaxonomyValue → String → Fault
stable_key_fault value next =
    fault_if (not (is_draft value.status) && not (str_eq value.stable_key next))
      stable_key_immutable none

abbrev pub is_archived : ValueStatus → Bool
is_archived archived = true
is_archived _ = false

abbrev is_child : Option ℕ → TaxonomyValue → Bool
is_child none ancestor = false
is_child (some id) ancestor = ancestor.id == id

abbrev is_same_id : Option ℕ → ℕ → Bool
is_same_id none id = false
is_same_id (some child) id = child == id

-- `assertParentAllowed` of a parent that is there. A child that is pending has no number.
unfoldable pub assert_parent_allowed :
    Definition → Option ℕ → String → String → TaxonomyValue → List TaxonomyValue → Fault
unfolding any
assert_parent_allowed definition child organization_id definition_id parent ancestors =
    fault_if (not definition.hierarchy_allowed) hierarchy_not_allowed (
      fault_if (is_same_id child parent.id) parent_invalid (
        fault_if (not (str_eq organization_id parent.logto_organization_id)) parent_cross_tenant (
          fault_if (not (str_eq definition_id parent.dimension_definition_id))
            parent_wrong_dimension
            (fault_if (is_archived parent.status) parent_invalid
              (fault_if (any (is_child child) ancestors) cycle_detected none)))))
