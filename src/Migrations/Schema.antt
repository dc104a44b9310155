-- ===== src/Migrations/Schema.antt =====
-- backend/runtime/migrations.js: the tables and columns that the programs rely on. A row of
-- information_schema.columns is a table of the public schema with one of its columns.
use civitas.Prelude.{
  Bool, not, Option, none, some, List, [], ◌∷◌, ◌++◌, map, String, str_eq, any, select,
  if◌then◌else◌,
}

pub record TableColumns : Type 0 where
  pub name : String
  pub columns : List String

pub record ColumnRow : Type 0 where
  pub table : String
  pub column : String

unfoldable pub required_operational_schema : List TableColumns
required_operational_schema =
    record {
      name = "operational_operations";
      columns =
          "id" ∷ "logto_organization_id" ∷ "operation_type" ∷ "entity_type" ∷ "entity_id" ∷ "status"
          ∷ "priority" ∷ "input_json" ∷ "output_json" ∷ "last_error_json" ∷ "attempts"
          ∷ "max_attempts" ∷ "next_retry_at" ∷ "claimed_by" ∷ "claimed_at" ∷ "queue_name" ∷ "job_id"
          ∷ "idempotency_key" ∷ "completed_at" ∷ "created_at" ∷ "updated_at" ∷ [];
    }
    ∷ record {
      name = "operational_operation_steps";
      columns =
          "id" ∷ "operation_id" ∷ "step_name" ∷ "status" ∷ "queue_name" ∷ "job_id" ∷ "input_json"
          ∷ "output_json" ∷ "last_error_json" ∷ "started_at" ∷ "completed_at" ∷ "created_at"
          ∷ "updated_at" ∷ [];
    }
    ∷ record {
      name = "organization_provisioning_drafts";
      columns =
          "idempotency_key" ∷ "current_stage" ∷ "stage_payloads" ∷ "consolidated_payload"
          ∷ "actor_json" ∷ "status" ∷ "submit_status" ∷ "logto_organization_id" ∷ "last_error_json"
          ∷ "submitted_at" ∷ "created_at" ∷ "updated_at" ∷ [];
    }
    ∷ record {
      name = "audit_logs";
      columns =
          "id" ∷ "logto_organization_id" ∷ "actor_type" ∷ "action" ∷ "target_type" ∷ "target_id"
          ∷ "result" ∷ "metadata" ∷ "created_at" ∷ [];
    }
    ∷ record {
      name = "module_catalog";
      columns =
          "module_id" ∷ "kind" ∷ "business_owner" ∷ "catalog_status" ∷ "catalog_version"
          ∷ "catalog_hash" ∷ "provenance" ∷ "created_at" ∷ "updated_at" ∷ [];
    }
    ∷ record {
      name = "module_versions";
      columns =
          "id" ∷ "module_id" ∷ "semantic_version" ∷ "manifest_schema_version" ∷ "manifest_hash"
          ∷ "deployment_mode" ∷ "contract_status" ∷ "data_ownership" ∷ "contract_refs"
          ∷ "compatibility_policy" ∷ "manifest_snapshot" ∷ "provenance" ∷ "published_at"
          ∷ "created_at" ∷ "updated_at" ∷ [];
    }
    ∷ record {
      name = "organization_modules";
      columns =
          "id" ∷ "logto_organization_id" ∷ "module_id" ∷ "module_version_id" ∷ "lifecycle"
          ∷ "version" ∷ "actor_logto_user_id" ∷ "reason" ∷ "correlation_id"
          ∷ "operational_provenance" ∷ "installed_at" ∷ "lifecycle_updated_at" ∷ "created_at"
          ∷ "updated_at" ∷ [];
    }
    ∷ record {
      name = "module_runtime_catalog";
      columns =
          "id" ∷ "runtime_id" ∷ "module_id" ∷ "module_owner" ∷ "deployment_mode" ∷ "service_ref"
          ∷ "runtime_contract_version" ∷ "expected_audience" ∷ "service_identity_required"
          ∷ "health_policy" ∷ "secrets_ref" ∷ "compatibility_metadata" ∷ "runtime_status"
          ∷ "provenance" ∷ "version" ∷ "created_at" ∷ "updated_at" ∷ [];
    }
    ∷ record {
      name = "module_contract_compatibility";
      columns =
          "id" ∷ "module_version_id" ∷ "runtime_id" ∷ "host_contract_version"
          ∷ "runtime_contract_version" ∷ "ui_contract_version" ∷ "compatibility_status"
          ∷ "compatibility_range" ∷ "policy" ∷ "evidence" ∷ "provenance" ∷ "created_at"
          ∷ "updated_at" ∷ [];
    }
    ∷ record {
      name = "organization_module_runtime_bindings";
      columns =
          "id" ∷ "logto_organization_id" ∷ "organization_module_id" ∷ "runtime_id" ∷ "module_id"
          ∷ "selected_contract_version" ∷ "expected_contract_version" ∷ "status" ∷ "is_executable"
          ∷ "version" ∷ "actor_logto_user_id" ∷ "reason" ∷ "correlation_id" ∷ "operational_config"
          ∷ "provenance" ∷ "created_at" ∷ "updated_at" ∷ [];
    }
    ∷ record {
      name = "module_health_snapshots";
      columns =
          "id" ∷ "logto_organization_id" ∷ "target_type" ∷ "target_binding_id" ∷ "module_id"
          ∷ "capability_id" ∷ "observed_state" ∷ "observed_at" ∷ "expires_at" ∷ "version"
          ∷ "sanitized_reason" ∷ "provenance" ∷ "created_at" ∷ [];
    }
    ∷ record {
      name = "module_circuit_states";
      columns =
          "id" ∷ "logto_organization_id" ∷ "target_type" ∷ "target_binding_id" ∷ "module_id"
          ∷ "capability_id" ∷ "state" ∷ "version" ∷ "provenance" ∷ "created_at" ∷ "updated_at" ∷ [];
    }
    ∷ record {
      name = "integration_event_schema_registry";
      columns =
          "event_type" ∷ "schema_version" ∷ "owning_module_id" ∷ "owning_capability_id"
          ∷ "lifecycle" ∷ "sensitivity" ∷ "payload_schema" ∷ "allowed_consumers"
          ∷ "compatibility_status" ∷ "retention_class" ∷ "max_payload_bytes" ∷ "redaction_policy"
          ∷ "producer_contract" ∷ "created_at" ∷ "updated_at" ∷ [];
    }
    ∷ record {
      name = "integration_outbox_events";
      columns =
          "id" ∷ "event_id" ∷ "event_type" ∷ "schema_version" ∷ "logto_organization_id"
          ∷ "aggregate_type" ∷ "aggregate_id" ∷ "actor_json" ∷ "correlation_id" ∷ "causation_id"
          ∷ "source_json" ∷ "sensitivity" ∷ "payload" ∷ "state" ∷ "attempt_count" ∷ "max_attempts"
          ∷ "next_attempt_at" ∷ "lease_owner" ∷ "lease_expires_at" ∷ "last_error_class"
          ∷ "published_at" ∷ "dead_lettered_at" ∷ "version" ∷ "created_at" ∷ "updated_at" ∷ [];
    }
    ∷ record {
      name = "integration_inbox_receipts";
      columns =
          "id" ∷ "consumer_id" ∷ "event_id" ∷ "event_type" ∷ "schema_version"
          ∷ "logto_organization_id" ∷ "state" ∷ "attempt_count" ∷ "lease_owner" ∷ "lease_expires_at"
          ∷ "first_received_at" ∷ "last_received_at" ∷ "processed_at" ∷ "result_digest"
          ∷ "result_reference" ∷ "error_class" ∷ "correlation_id" ∷ "causation_id" ∷ "version" ∷ [];
    }
    ∷ record {
      name = "integration_dead_letters";
      columns =
          "id" ∷ "source_kind" ∷ "source_id" ∷ "event_id" ∷ "event_type" ∷ "schema_version"
          ∷ "logto_organization_id" ∷ "consumer_id" ∷ "attempt_count" ∷ "terminal_reason_code"
          ∷ "failure_json" ∷ "correlation_id" ∷ "reconciliation_status" ∷ "version" ∷ "created_at"
          ∷ "updated_at" ∷ [];
    }
    ∷ []

abbrev pub has : List String → String → Bool
has names name = any (str_eq name) names

abbrev pub table_name : TableColumns → String
table_name t = t.name

-- The columns of a table in a map by tables, in the order in which the tables came.
unfoldable pub columns_of : String → List TableColumns → Option (List String)
columns_of name [] = none
columns_of name (t ∷ ts) = if str_eq t.name name then some t.columns else columns_of name ts

abbrev pub with_column : String → TableColumns → TableColumns
with_column column t = record t { columns = t.columns ++ column ∷ [] }

unfoldable pub add_column : ColumnRow → List TableColumns → List TableColumns
add_column row [] = record { name = row.table; columns = row.column ∷ [] } ∷ []
add_column row (t ∷ ts) =
    if str_eq t.name row.table then with_column row.column t ∷ ts else t ∷ add_column row ts

unfoldable pub group_from : List TableColumns → List ColumnRow → List TableColumns
unfolding add_column
group_from tables [] = tables
group_from tables (row ∷ rows) = group_from (add_column row tables) rows

-- The query's rows are those of the tables that it names.
unfoldable pub load_public_columns : List String → List ColumnRow → List TableColumns
unfolding group_from select any
load_public_columns tables rows = group_from [] (select (λ row. has tables row.table) rows)

pub data SchemaCheck : Type 0 where
  schema_ok : SchemaCheck
  schema_invalid : List String → List TableColumns → SchemaCheck

abbrev pub lacks : List String → String → Bool
lacks actual column = not (has actual column)

-- What the loop adds for a table: its name if it is missing, or the columns that it lacks.
abbrev pub missing_table : Option (List String) → TableColumns → List String
missing_table none t = t.name ∷ []
missing_table (some actual) t = []

abbrev if_any : TableColumns → List TableColumns
if_any t = elim t.columns [ [] ↦ [] | c ∷ cs ↦ t ∷ [] ]

abbrev pub missing_columns : Option (List String) → TableColumns → List TableColumns
missing_columns none t = []
missing_columns (some actual) t =
    if_any (record { name = t.name; columns = select (lacks actual) t.columns })

unfoldable pub missing_in : List TableColumns → List TableColumns → List String × List TableColumns
unfolding columns_of select any
missing_in tables [] = ([], [])
missing_in tables (t ∷ ts) =
    let (names, columns) = missing_in tables ts in
    (
      missing_table (columns_of t.name tables) t ++ names,
      missing_columns (columns_of t.name tables) t ++ columns,
    )

abbrev pub verdict : List String × List TableColumns → SchemaCheck
verdict ([], []) = schema_ok
verdict (names, columns) = schema_invalid names columns

unfoldable pub assert_operational_schema : List ColumnRow → SchemaCheck
unfolding load_public_columns missing_in required_operational_schema
assert_operational_schema rows = verdict (
    missing_in
      (load_public_columns
        (map {A = TableColumns} {B = String} table_name required_operational_schema) rows)
      required_operational_schema)
