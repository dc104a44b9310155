-- ===== src/Taxonomy/Publication.antt =====
-- backend/taxonomy/taxonomyPublicationService.js, `publish`.
use civitas.Prelude.{
  ℕ, ◌+◌, true, Option, none, some, List, [], ◌∷◌, String, length, any, select, update_first,
  is_nil, if◌then◌else◌,
}
use civitas.Prelude.Maps.{lookup, assign}
use civitas.Prelude.Bodies.{Body, ◌>>=◌, pure, gets, throw_if, for_each}
use civitas.Taxonomy.{
  publish_validation_failed, Failure, taxonomy_error, active, TaxonomyValue, CatalogState,
  EventType, catalog_published, taxonomy_semantic, authorization_affecting, Event,
}
use civitas.Taxonomy.Patches.{is_draft_of, is_incomplete}
use civitas.Taxonomy.Calls.{Port, Call, outside_call, save_state, send, audit_event}
use civitas.Taxonomy.Service.{check_version, update_stored}

module _ {W : Type 0} (port : Port W) (now : ℕ) where
  abbrev pub publish_one : Option String → TaxonomyValue → TaxonomyValue
  publish_one actor v = record v {
    status = active;
    published_at = some now;
    published_by = actor;
    updated_by = actor;
  }

  abbrev pub increment_if :
      List TaxonomyValue
      → String
      → Option String
      → Option (String → Option String → EventType → Body Failure W ℕ)
      → Call W (Option ℕ)
  increment_if [] organization_id actor f = pure none
  increment_if (d ∷ ds) organization_id actor none = pure none
  increment_if (d ∷ ds) organization_id actor (some f) = do
    version ← outside_call (f organization_id actor catalog_published)
    pure (some version)

  abbrev pub published_state : Option String → CatalogState → CatalogState
  published_state actor state = record state {
    taxonomy_catalog_version = state.taxonomy_catalog_version + 1;
    published_version = state.taxonomy_catalog_version + 1;
    is_published = true;
    last_published_at = some now;
    last_published_by = actor;
  }

  abbrev pub published_event : String → ℕ → Option ℕ → List TaxonomyValue → Event
  published_event organization_id version policy drafts = record {
    event_type = catalog_published;
    organization_id = organization_id;
    taxonomy_catalog_version = version;
    policy_version = policy;
    change_class = if is_nil drafts then taxonomy_semantic else authorization_affecting;
    dimension_key = none;
    value_id = none;
  }

  -- `publish`: how many drafts it has published, and the version.
  unfoldable pub publish : String → Option String → Option ℕ → Call W (ℕ × ℕ)
  unfolding lookup assign update_first select any
  publish organization_id actor expected = do
    state ← check_version expected organization_id
    drafts ← gets (λ s. select (is_draft_of organization_id) s.values)
    _ ← throw_if (any is_incomplete drafts) (taxonomy_error publish_validation_failed)
    policy ← increment_if drafts organization_id actor port.increment_policy_version
    _ ← for_each drafts (λ d. update_stored d.id (publish_one actor))
    _ ← save_state organization_id (published_state actor state)
    _ ←
        send port
          (published_event organization_id (state.taxonomy_catalog_version + 1) policy drafts)
    _ ←
        audit_event port
          (published_event organization_id (state.taxonomy_catalog_version + 1) policy drafts)
    pure (length drafts, state.taxonomy_catalog_version + 1)
