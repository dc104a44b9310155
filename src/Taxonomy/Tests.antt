-- ===== src/Taxonomy/Tests.antt =====
-- Two values of which each is the other's parent, and a catalog that is changed and published.
use civitas.Prelude.{
  ◌≡◌, refl, ℕ, suc, ◌+◌, ◌≤◌, true, Option, none, some, List, [], ◌∷◌, String, length, any, find,
  select, update_first,
}
use civitas.Prelude.Text.{includes, includes_lowered, is_slug, is_dotted_key}
use civitas.Prelude.Json.{object, no_members, null}
use civitas.Prelude.Maps.{lookup, assign}
use civitas.Prelude.Bodies.{returned, Body}
use civitas.Taxonomy.{
  Failure, ValueStatus, draft, active, Definition, TaxonomyValue, EventType, Event, Store,
  find_value_by_stable_key, ensure_definitions, ancestors_from, ancestors_of,
}
use civitas.Taxonomy.Checks.{
  validate_dimension_key, validate_stable_key, validate_metadata, validate_external_ref,
  classify_value_change, stable_key_fault, assert_parent_allowed,
}
use civitas.Taxonomy.Patches.{patched, impact_preview}
use civitas.Taxonomy.Calls.{Port, bump}
use civitas.Taxonomy.Service.{NewValue, create_value, update_value, deprecate_value, archive_value}
use civitas.Taxonomy.Publication.{publish}
use civitas.Taxonomy.Ancestors.{ancestors_of-ends}
use civitas.Taxonomy.Resolve.{
  resolved, resolve_published_dimension_value, IsUsable, resolve_published_dimension_value_iff,
}
use civitas.Taxonomy.Sure.{IsReliable, version_of}
use civitas.Taxonomy.Versions.{
  Request, create_request, deprecate_request, publish_request, run_all, run_all-versions,
}

machine : Unit {0}
unfolding create_value update_value deprecate_value archive_value publish run_all bump patched
    validate_dimension_key validate_stable_key validate_metadata validate_external_ref
    stable_key_fault classify_value_change ensure_definitions find_value_by_stable_key
    assert_parent_allowed ancestors_from ancestors_of impact_preview
    resolve_published_dimension_value lookup assign update_first find select any includes
    includes_lowered is_slug is_dotted_key
machine = tt

abbrev region : Definition
region = record {
  id = "geo.region";
  dimension_key = "geo.region";
  hierarchy_allowed = true;
  capabilities = "authorization" ∷ [];
  is_active = true;
}

abbrev value_of : ℕ → String → Option ℕ → ValueStatus → TaxonomyValue
value_of id key parent status = record {
  id = id;
  logto_organization_id = "o1";
  dimension_definition_id = "geo.region";
  dimension_key_cache = "geo.region";
  stable_key = key;
  display_name = some key;
  description = none;
  sort_order = 0;
  parent_value_id = parent;
  external_ref = none;
  metadata = null;
  status = status;
  created_by = none;
  updated_by = none;
  published_at = none;
  published_by = none;
  deprecated_at = none;
  deprecated_until = none;
  archived_at = none;
  archived_by = none;
}

abbrev circle : List TaxonomyValue
circle = value_of 1 "north" (some 2) active ∷ value_of 2 "south" (some 1) draft ∷ []

-- The walk passes the other value and comes back to the first.
circle_ancestors :
    ancestors_of 3 1 circle
    ≡ some (value_of 2 "south" (some 1) draft ∷ value_of 1 "north" (some 2) active ∷ [])
unfolding machine
circle_ancestors = refl

ancestors_of-ends_example :
    (r : List TaxonomyValue) × (ancestors_of (suc (length circle)) 1 circle ≡ some r)
ancestors_of-ends_example = ancestors_of-ends 1 circle

abbrev store : Store ℕ
store = record {
  definitions = ("geo.region", region) ∷ [];
  values = circle;
  states = [];
  outbox = [];
  audits = [];
  outside = 0;
}

abbrev north : TaxonomyValue
north = value_of 1 "north" (some 2) active

resolve_north :
    resolve_published_dimension_value (region ∷ []) "o1" "geo.region" 1 (some "authorization") store
    ≡ resolved north (some region)
unfolding machine
resolve_north = refl

resolve_published_dimension_value_iff_example :
    (resolve_published_dimension_value
          (region ∷ [])
          "o1"
          "geo.region"
          1
          (some "authorization")
          store
        ≡ resolved north (some region)
      → IsUsable (region ∷ []) "o1" "geo.region" 1 (some "authorization") store north)
    × (IsUsable (region ∷ []) "o1" "geo.region" 1 (some "authorization") store north
        → resolve_published_dimension_value
            (region ∷ [])
            "o1"
            "geo.region"
            1
            (some "authorization")
            store
          ≡ resolved north (lookup "geo.region" store.definitions))
resolve_published_dimension_value_iff_example =
    resolve_published_dimension_value_iff (region ∷ []) "o1" "geo.region" 1 (some "authorization")
      store north (some region)

-- The policy's version is the world, and each event counts.
abbrev counting : Event → Body Failure ℕ (Unit {0})
counting event w = returned tt (w + 1)

abbrev next_policy : String → Option String → EventType → Body Failure ℕ ℕ
next_policy organization_id actor type w = returned (w + 1) (w + 1)

abbrev port : Port ℕ
port = record {
  increment_policy_version = some next_policy;
  enqueue_outbox = some counting;
  audit = some counting;
}

port-IsReliable : IsReliable port
port-IsReliable = record {
  increments = (next_policy, refl, λ organization_id actor type s. tt);
  enqueues = (counting, refl, λ event s. tt);
  audits = (counting, refl, λ event s. tt);
}

abbrev east : NewValue
east = record {
  dimension_key = "geo.region";
  stable_key = "east";
  display_name = some "East";
  parent_value_id = none;
  metadata = object no_members;
  external_ref = none;
}

abbrev requests : List (ℕ × Request)
requests =
    (10, create_request east (some 0))
    ∷ (11, deprecate_request "geo.region" 1 none)
    ∷ (12, publish_request (some 7))
    ∷ (13, publish_request (some 2))
    ∷ []

abbrev ended : Store ℕ
ended = run_all port "o1" (some "u1") (region ∷ []) (λ v. "{}") requests store

-- The request with a version that is not the catalog's changes nothing.
ended_version : version_of "o1" ended ≡ 3
unfolding machine
ended_version = refl

run_all-versions_example :
    (version_of "o1" store ≤ version_of "o1" ended)
    × (version_of "o1" ended ≤ version_of "o1" store + length requests)
    × (version_of "o1" ended ≡ version_of "o1" store → ended.values ≡ store.values)
run_all-versions_example =
    run_all-versions port "o1" (some "u1") (region ∷ []) (λ v. "{}") port-IsReliable requests store
