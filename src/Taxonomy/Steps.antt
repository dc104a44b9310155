-- ===== src/Taxonomy/Steps.antt =====
-- What each operation of backend/taxonomy/taxonomyService.js and taxonomyPublicationService.js leaves of the
-- values and of the version.
use civitas.Prelude.{
  ℕ, ◌+◌, ◌≡◌, ap, Bool, true, false, not, Option, none, some, List, [], ◌∷◌, ◌++◌, String, str_eq,
  length, select, update_first, any, inl,
}
use civitas.Prelude.Json.{Value}
use civitas.Prelude.Maps.{lookup}
use civitas.Prelude.Bodies.{Body, ◌>>=◌, pure, modify, throw_if, for_each, Keeps, Keeps-bind}
use civitas.Taxonomy.{
  dimension_disabled, value_not_found, value_wrong_organization, value_wrong_dimension,
  catalog_version_conflict, publish_validation_failed, Failure, taxonomy_error, Definition,
  TaxonomyValue, CatalogState, EventType, value_created, deprecation, archival, catalog_published,
  ChangeClass, taxonomy_semantic, authorization_affecting, Event, Store, has_id, get_value_by_id,
  state_in, find_value_by_stable_key, ensure_definitions,
}
use civitas.Taxonomy.Checks.{
  validate_dimension_key, validate_stable_key, validate_metadata, validate_external_ref,
}
use civitas.Taxonomy.Patches.{
  Patch, patched, key_fault, metadata_fault, reference_fault, ImpactStatus, impact_fault,
  is_draft_of, is_incomplete,
}
use civitas.Taxonomy.Calls.{Port, Call, outside_call, save_state, send, audit_event, bump}
use civitas.Taxonomy.Service.{
  NewValue, inserted, is_stale, parent_fault, found_parent, active_only, check_version,
  update_stored, insert_new, create_value, update_value, owned, deprecated, deprecate_value,
  archive, archive_value,
}
use civitas.Taxonomy.Publication.{
  publish_one, increment_if, published_state, published_event, publish,
}
use civitas.Taxonomy.Sure.{
  Sure, Sure-bind, Sure-for_each, IsReliable, version_of, VersionIs, Sure-send, Sure-audit_event,
  Sure-save_state, Sure-bump,
}
use civitas.Taxonomy.Ends.{
  Same, Ends, Left-moved, Ends-bind, Ends-pure, Ends-gets, Ends-modify, Ends-check, Ends-throw_if,
  Ends-or_throw, Ends-found, Ends-Sure,
}

module _ {W : Type 0} (port : Port W) (organization_id : String) (actor : Option String) where
  module _ (reliable : IsReliable port) (now : ℕ) (first : Store W) where
    abbrev n : ℕ
    n = version_of organization_id first

    -- The end of an operation: values are changed, and then the version goes up.
    Ends-commit :
        {A : Type 0} (change : List TaxonomyValue → List TaxonomyValue) (type : EventType)
        (class : ChangeClass) (key : String) (id : ℕ) (a : A)
        → Ends organization_id first (
            modify (λ s. record s { values = change s.values }) >>= λ _.
            bump port now organization_id actor type class key id >>= λ _. pure a)
    Ends-commit change type class key id a =
        let J : Store W → Type 0 = VersionIs organization_id n in
        let K : Store W → Type 0 = VersionIs organization_id (n + 1) in
        Ends-Sure organization_id first _ (
          Sure-bind J K (modify (λ s. record s { values = change s.values })) _ (λ s e. e)
            (λ _.
              Sure-bind K K (bump port now organization_id actor type class key id) (λ _. pure a)
                (Sure-bump organization_id port reliable now actor type class key id n)
                (λ _ s e. e)))

    Ends-insert_new :
        (definition : Definition) (new : NewValue) (existing : Option TaxonomyValue)
        → Ends organization_id first
            (insert_new port now organization_id definition new actor existing)
    Ends-insert_new definition new (some existing) = Ends-pure organization_id first existing
    Ends-insert_new definition new none =
        Ends-gets organization_id first (λ s. s.values) _
          (λ values.
            let value : TaxonomyValue =
              inserted organization_id definition new actor (length values + 1) in
            let parent : Option TaxonomyValue = found_parent new.parent_value_id values in
            Ends-check organization_id first (parent_fault definition organization_id parent values)
              _
              (λ _.
                Ends-commit (λ vs. vs ++ value ∷ []) value_created taxonomy_semantic
                  new.dimension_key (length values + 1) value))

    Ends-stale :
        {B : Type 0} (test : Bool) (state : CatalogState) (f : CatalogState → Call W B)
        → Ends organization_id first (f state)
        → Ends organization_id first
            ((throw_if test (taxonomy_error catalog_version_conflict) >>= λ _. pure state) >>= f)
    unfolding Ends
    Ends-stale true state f k s j = inl j
    Ends-stale false state f k s j = k s j

    Ends-check_version :
        {B : Type 0} (expected : Option ℕ) (f : CatalogState → Call W B)
        → ((state : CatalogState)
            → state.taxonomy_catalog_version ≡ n
            → Ends organization_id first (f state))
        → Ends organization_id first (check_version expected organization_id >>= f)
    unfolding Ends
    Ends-check_version expected f k s (values, version) =
        let state = state_in organization_id s.states in
        Ends-stale (is_stale expected state) state f (k state version) s (values, version)

    pub Ends-create_value :
        (known : List Definition) (blob_of : Value → String) (new : NewValue) (expected : Option ℕ)
        → Ends organization_id first
            (create_value port now known blob_of organization_id new actor expected)
    unfolding create_value
    Ends-create_value known blob_of new expected =
        Ends-check organization_id first (validate_dimension_key known new.dimension_key) _ λ _.
          Ends-check organization_id first (validate_stable_key new.stable_key) _ λ _.
            Ends-check organization_id first (validate_metadata blob_of new.metadata) _ λ _.
              Ends-check organization_id first (validate_external_ref new.external_ref) _ λ _.
                Ends-modify organization_id first (ensure_definitions known) _ λ _.
                  Ends-gets organization_id first
                    (λ s. active_only (lookup new.dimension_key s.definitions)) _
                    λ found.
                      Ends-or_throw organization_id first found (taxonomy_error dimension_disabled)
                        _
                        λ definition. Ends-check_version expected _ λ state _.
                          Ends-gets organization_id first
                            (λ s.
                              find_value_by_stable_key organization_id definition.id new.stable_key
                                s.values)
                            _ λ existing. Ends-insert_new definition new existing

    pub Ends-update_value :
        (blob_of : Value → String) (key : String) (id : ℕ) (patch : Patch)
        → Ends organization_id first
            (update_value port now blob_of organization_id key id patch actor)
    unfolding update_value
    Ends-update_value blob_of key id patch =
        Ends-found organization_id first (λ s. get_value_by_id id s.values)
          (taxonomy_error value_not_found) _
          λ value.
            Ends-throw_if organization_id first
              (not (str_eq value.logto_organization_id organization_id))
              (taxonomy_error value_wrong_organization) _
              λ _.
                Ends-throw_if organization_id first (not (str_eq value.dimension_key_cache key))
                  (taxonomy_error value_wrong_dimension) _
                  λ _. Ends-check organization_id first (key_fault value patch.stable_key) _ λ _.
                    Ends-check organization_id first (metadata_fault blob_of patch.metadata) _ λ _.
                      Ends-check organization_id first (reference_fault patch.external_ref) _ λ _.
                        Ends-commit (update_first (has_id id) (λ v. patched patch actor value)) _ _
                          key id _

    pub Ends-deprecate_value :
        (key : String) (id : ℕ) (until : Option ℕ)
        → Ends organization_id first (deprecate_value port now organization_id key id actor until)
    unfolding deprecate_value
    Ends-deprecate_value key id until =
        Ends-found organization_id first
          (λ s. owned port now organization_id key (get_value_by_id id s.values))
          (taxonomy_error value_not_found) _
          λ value.
            Ends-commit (update_first (has_id id) (deprecated port now until actor)) deprecation
              authorization_affecting key id (deprecated port now until actor value)

    pub Ends-archive_value :
        (impact : Option (List ImpactStatus)) (key : String) (id : ℕ)
        → Ends organization_id first (archive_value port now impact organization_id key id actor)
    unfolding archive_value
    Ends-archive_value impact key id = Ends-check organization_id first (impact_fault impact) _ λ _.
        Ends-found organization_id first
          (λ s. owned port now organization_id key (get_value_by_id id s.values))
          (taxonomy_error value_not_found) _
          λ value.
            Ends-commit (update_first (has_id id) (archive port now actor)) archival
              authorization_affecting key id (archive port now actor value)

    Keeps-increment_if :
        (drafts : List TaxonomyValue)
        (f : Option (String → Option String → EventType → Body Failure W ℕ))
        → Keeps (Same organization_id first) (increment_if port now drafts organization_id actor f)
    Keeps-increment_if [] f s j = j
    Keeps-increment_if (d ∷ ds) none s j = j
    Keeps-increment_if (d ∷ ds) (some f) s j =
        Keeps-bind (Same organization_id first)
          (outside_call (f organization_id actor catalog_published))
          (λ version. pure (some version))
          (λ t.
            Left-moved organization_id first t
              (f organization_id actor catalog_published t.outside))
          (λ version t k. k) s j

    -- From the first value published to the end.
    Sure-published :
        (state : CatalogState) (drafts : List TaxonomyValue) (policy : Option ℕ)
        → state.taxonomy_catalog_version ≡ n
        → Sure {A = ℕ × ℕ} (VersionIs organization_id n) (VersionIs organization_id (n + 1)) (
            for_each drafts (λ d. update_stored d.id (publish_one port now actor)) >>= λ _.
            save_state organization_id (published_state port now actor state) >>= λ _.
            send port (
              published_event port now organization_id
                (state.taxonomy_catalog_version + 1)
                policy
                drafts)
            >>= λ _.
                audit_event port (
                  published_event port now organization_id
                    (state.taxonomy_catalog_version + 1)
                    policy
                    drafts)
                >>= λ _. pure (length drafts, state.taxonomy_catalog_version + 1))
    Sure-published state drafts policy e =
        let J : Store W → Type 0 = VersionIs organization_id n in
        let K : Store W → Type 0 = VersionIs organization_id (n + 1) in
        let event : Event =
          published_event port now organization_id (state.taxonomy_catalog_version + 1) policy
            drafts in
        Sure-bind J K (for_each drafts (λ d. update_stored d.id (publish_one port now actor))) _
          (Sure-for_each J drafts _ (λ d s j. j))
          λ _.
            Sure-bind K K (save_state organization_id (published_state port now actor state)) _
              (Sure-save_state organization_id port reliable n (n + 1)
                (published_state port now actor state) (ap (λ k. k + 1) e))
              λ _.
                Sure-bind K K (send port event) _
                  (Sure-send organization_id port reliable (n + 1) event)
                  λ _.
                    Sure-bind K K (audit_event port event)
                      (λ _. pure (length drafts, state.taxonomy_catalog_version + 1))
                      (Sure-audit_event organization_id port reliable (n + 1) event) λ _ s j. j

    pub Ends-publish :
        (expected : Option ℕ)
        → Ends organization_id first (publish port now organization_id actor expected)
    unfolding publish
    Ends-publish expected = Ends-check_version expected _ λ state e.
        Ends-gets organization_id first (λ s. select (is_draft_of organization_id) s.values) _
          λ drafts.
            Ends-throw_if organization_id first (any is_incomplete drafts)
              (taxonomy_error publish_validation_failed) _
              λ _.
                Ends-bind organization_id first
                  (increment_if port now drafts organization_id actor port.increment_policy_version)
                  _ (Keeps-increment_if drafts port.increment_policy_version)
                  λ policy. Ends-Sure organization_id first _ (Sure-published state drafts policy e)
