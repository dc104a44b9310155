-- ===== src/Taxonomy/Service.antt =====
-- backend/taxonomy/taxonomyService.js, the operations that change a value.
use civitas.Prelude.{
  ℕ, suc, ◌+◌, Bool, false, not, ◌&&◌, Option, none, some, or_else, List, [], ◌∷◌, ◌++◌, String,
  str_eq, length, find, update_first, ◌==◌, if◌then◌else◌,
}
use civitas.Prelude.Json.{Value}
use civitas.Prelude.Maps.{lookup}
use civitas.Prelude.Bodies.{◌>>=◌, pure, gets, modify, throw_if, or_throw}
use civitas.Taxonomy.{
  dimension_disabled, value_not_found, value_wrong_organization, value_wrong_dimension,
  catalog_version_conflict, taxonomy_error, draft, deprecating, archived, Definition, TaxonomyValue,
  CatalogState, EventType, value_created, value_renamed, value_updated, deprecation, archival,
  ChangeClass, presentation_only, taxonomy_semantic, authorization_affecting, has_id,
  get_value_by_id, find_value_by_stable_key, ensure_definitions, ancestors_of,
}
use civitas.Taxonomy.Checks.{
  Fault, validate_dimension_key, validate_stable_key, validate_metadata, validate_external_ref,
  classify_value_change, stable_key_fault, assert_parent_allowed,
}
use civitas.Taxonomy.Patches.{
  Patch, patched, key_fault, metadata_fault, reference_fault, ImpactStatus, impact_preview,
  impact_fault,
}
use civitas.Taxonomy.Calls.{Port, Call, check, get_state, bump}

-- What `createValue` is given.
pub record NewValue : Type 0 where
  pub dimension_key : String
  pub stable_key : String
  pub display_name : Option String
  pub parent_value_id : Option ℕ
  pub metadata : Value
  pub external_ref : Option String

abbrev pub inserted : String → Definition → NewValue → Option String → ℕ → TaxonomyValue
inserted organization_id definition new actor id = record {
  id = id;
  logto_organization_id = organization_id;
  dimension_definition_id = definition.id;
  dimension_key_cache = new.dimension_key;
  stable_key = new.stable_key;
  display_name = new.display_name;
  description = none;
  sort_order = 0;
  parent_value_id = new.parent_value_id;
  external_ref = new.external_ref;
  metadata = new.metadata;
  status = draft;
  created_by = actor;
  updated_by = actor;
  published_at = none;
  published_by = none;
  deprecated_at = none;
  deprecated_until = none;
  archived_at = none;
  archived_by = none;
}

abbrev pub is_stale : Option ℕ → CatalogState → Bool
is_stale none state = false
is_stale (some expected) state = not (expected == state.taxonomy_catalog_version)

abbrev pub parent_fault : Definition → String → Option TaxonomyValue → List TaxonomyValue → Fault
parent_fault definition organization_id none values = none
parent_fault definition organization_id (some parent) values =
    assert_parent_allowed definition none organization_id definition.id parent
      (or_else (ancestors_of (suc (length values)) parent.id values) [])

abbrev pub found_parent : Option ℕ → List TaxonomyValue → Option TaxonomyValue
found_parent none values = none
found_parent (some id) values = get_value_by_id id values

abbrev pub active_only : Option Definition → Option Definition
active_only none = none
active_only (some d) = if d.is_active then some d else none

module _ {W : Type 0} where
  abbrev pub check_version : Option ℕ → String → Call W CatalogState
  check_version expected organization_id = do
    state ← get_state organization_id
    _ ← throw_if (is_stale expected state) (taxonomy_error catalog_version_conflict)
    pure state

  abbrev pub get_value : ℕ → Call W TaxonomyValue
  get_value id = do
    found ← gets (λ s. get_value_by_id id s.values)
    or_throw found (taxonomy_error value_not_found)

  -- `updateValue` of a value that is there.
  abbrev pub update_stored : ℕ → (TaxonomyValue → TaxonomyValue) → Call W (Unit {0})
  update_stored id f = modify (λ s. record s { values = update_first (has_id id) f s.values })

module _ {W : Type 0} (port : Port W) (now : ℕ) where
  abbrev pub insert_new :
      String → Definition → NewValue → Option String → Option TaxonomyValue → Call W TaxonomyValue
  insert_new organization_id definition new actor (some existing) = pure existing
  insert_new organization_id definition new actor none = do
    values ← gets (λ s. s.values)
    _ ←
        check
          (parent_fault definition organization_id (found_parent new.parent_value_id values) values)
    _ ← modify (λ s. record s {
      values = s.values ++ inserted organization_id definition new actor (length values + 1) ∷ [];
    })
    _ ←
        bump port now organization_id actor value_created taxonomy_semantic new.dimension_key
          (length values + 1)
    pure (inserted organization_id definition new actor (length values + 1))

  module _ (known : List Definition) (blob_of : Value → String) where
    unfoldable pub create_value :
        String → NewValue → Option String → Option ℕ → Call W TaxonomyValue
    unfolding bump validate_dimension_key validate_stable_key validate_metadata
        validate_external_ref ensure_definitions lookup find_value_by_stable_key
        assert_parent_allowed ancestors_of
    create_value organization_id new actor expected = do
      _ ← check (validate_dimension_key known new.dimension_key)
      _ ← check (validate_stable_key new.stable_key)
      _ ← check (validate_metadata blob_of new.metadata)
      _ ← check (validate_external_ref new.external_ref)
      _ ← modify (λ s. record s { definitions = ensure_definitions known s.definitions })
      found ← gets (λ s. active_only (lookup new.dimension_key s.definitions))
      definition ← or_throw found (taxonomy_error dimension_disabled)
      _ ← check_version expected organization_id
      existing ←
          gets (λ s. find_value_by_stable_key organization_id definition.id new.stable_key s.values)
      insert_new organization_id definition new actor existing

  abbrev pub update_type : ChangeClass → EventType
  update_type presentation_only = value_renamed
  update_type _ = value_updated

  unfoldable pub update_value :
      (Value → String) → String → String → ℕ → Patch → Option String → Call W TaxonomyValue
  unfolding bump patched validate_stable_key stable_key_fault validate_metadata
      validate_external_ref classify_value_change update_first find
  update_value blob_of organization_id dimension_key id patch actor = do
    value ← get_value id
    _ ←
        throw_if (not (str_eq value.logto_organization_id organization_id))
          (taxonomy_error value_wrong_organization)
    _ ←
        throw_if (not (str_eq value.dimension_key_cache dimension_key))
          (taxonomy_error value_wrong_dimension)
    _ ← check (key_fault value patch.stable_key)
    _ ← check (metadata_fault blob_of patch.metadata)
    _ ← check (reference_fault patch.external_ref)
    _ ← update_stored id (λ v. patched patch actor value)
    _ ←
        bump port now organization_id actor
          (update_type (classify_value_change value (patched patch actor value)))
          (classify_value_change value (patched patch actor value)) dimension_key id
    pure (patched patch actor value)

  -- The value of that identifier, if it is the organization's and of the dimension.
  abbrev pub owned : String → String → Option TaxonomyValue → Option TaxonomyValue
  owned organization_id dimension_key none = none
  owned organization_id dimension_key (some v) =
      if str_eq v.logto_organization_id organization_id
        && str_eq v.dimension_key_cache dimension_key
      then some v
      else none

  abbrev pub get_owned : String → String → ℕ → Call W TaxonomyValue
  get_owned organization_id dimension_key id = do
    found ← gets (λ s. owned organization_id dimension_key (get_value_by_id id s.values))
    or_throw found (taxonomy_error value_not_found)

  abbrev pub deprecated : Option ℕ → Option String → TaxonomyValue → TaxonomyValue
  deprecated until actor v = record v {
    status = deprecating;
    deprecated_at = some now;
    deprecated_until = until;
    updated_by = actor;
  }

  unfoldable pub deprecate_value :
      String → String → ℕ → Option String → Option ℕ → Call W TaxonomyValue
  unfolding bump update_first find
  deprecate_value organization_id dimension_key id actor until = do
    value ← get_owned organization_id dimension_key id
    _ ← update_stored id (deprecated until actor)
    _ ← bump port now organization_id actor deprecation authorization_affecting dimension_key id
    pure (deprecated until actor value)

  abbrev pub archive : Option String → TaxonomyValue → TaxonomyValue
  archive actor v = record v {
    status = archived;
    archived_at = some now;
    archived_by = actor;
    updated_by = actor;
  }

  unfoldable pub archive_value :
      Option (List ImpactStatus) → String → String → ℕ → Option String → Call W TaxonomyValue
  unfolding bump update_first find impact_preview
  archive_value impact organization_id dimension_key id actor = do
    _ ← check (impact_fault impact)
    value ← get_owned organization_id dimension_key id
    _ ← update_stored id (archive actor)
    _ ← bump port now organization_id actor archival authorization_affecting dimension_key id
    pure (archive actor value)
