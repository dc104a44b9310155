-- ===== src/Deployment/Services.antt =====
-- core/deployment/deployment-kernel.cjs, the configurations of the three services and
-- `validateDeploymentConfig`.
use Prim.Native.Nat.{ℕ}
use civitas.Prelude.{List, [], Bool, Option, String, str_eq, if◌then◌else◌}
use civitas.Prelude.Text.{is_empty}
use civitas.Prelude.Json.{Value}
use civitas.Prelude.Maps.{lookup}
use civitas.Deployment.{
  frontend, backend, worker, config_invalid_format, config_contract_mismatch,
  config_resource_collision, runtime_env_drift, management_resource_matches_civitas_api_resource,
  missing_service, unknown_service, config_error, Checked, accepted, rejected, and_check, ◌>>=◌,
  Environment, or_text, as_int, as_bool, require_value, Url, assert_http_url, assert_no_oidc_path,
}
use civitas.Deployment.Strict.{Ignored, assert_strict_service_contract}

pub record Contract : Type 0 where
  pub public_url : String
  pub issuer : String
  pub api_resource : String
  pub organization_audience_prefix : String
  pub auth : Value

-- What a configuration passes on of the contract.
pub record PublicContract : Type 0 where
  pub api_resource : String
  pub api_url : String
  pub organization_audience_prefix : String
  pub auth : Value

abbrev pub public_contract : Contract → PublicContract
public_contract contract = record {
  api_resource = contract.api_resource;
  api_url = contract.public_url;
  organization_audience_prefix = contract.organization_audience_prefix;
  auth = contract.auth;
}

pub record FrontendConfig : Type 0 where
  pub ignored : Ignored
  pub api_url : String
  pub logto_endpoint : String
  pub logto_app_id : String
  pub logto_resource : String

pub record DatabaseConfig : Type 0 where
  pub database_url : String
  pub redis_url : String
  pub bullmq_prefix : String
  pub run_migrations_on_startup : Bool
  pub database_wait_timeout_ms : ℕ
  pub database_wait_interval_ms : ℕ
  pub database_connect_timeout_ms : ℕ

pub record BackendConfig : Type 0 where
  pub ignored : Ignored
  pub ignored_contract_drift : List String
  pub node_env : String
  pub api_url : String
  pub database : DatabaseConfig
  pub logto_resource : String
  pub m2m_client_id : String
  pub m2m_client_secret : String
  pub logto_endpoint : String
  pub logto_management_api : String
  pub contract : PublicContract

pub record WorkerConfig : Type 0 where
  pub ignored : Ignored
  pub node_env : String
  pub database : DatabaseConfig
  pub worker_concurrency : ℕ
  pub enable_queue_reconciler : Bool
  pub enable_db_poll_execution : Bool
  pub worker_job_attempts : ℕ
  pub worker_job_backoff_ms : ℕ
  pub worker_remove_on_complete : ℕ
  pub worker_remove_on_fail : ℕ
  pub contract : PublicContract

pub data ServiceConfig : Type 0 where
  frontend_config : FrontendConfig → ServiceConfig
  backend_config : BackendConfig → ServiceConfig
  worker_config : WorkerConfig → ServiceConfig

unfoldable pub assert_matches_contract : String → String → String → Checked String
assert_matches_contract value expected variable =
    if str_eq value expected
    then accepted value
    else rejected (config_error config_contract_mismatch runtime_env_drift variable)

abbrev pub variable_or : Environment → String → String → String
variable_or env variable fallback = or_text (lookup variable env) fallback

abbrev int_or : Environment → String → String → Checked ℕ
int_or env variable fallback = as_int (variable_or env variable fallback) variable

abbrev bool_or : Environment → String → String → Checked Bool
bool_or env variable fallback = as_bool (variable_or env variable fallback) variable

abbrev pub assert_separate : String → String → Checked (Unit {0})
assert_separate management resource =
    if str_eq management resource
    then rejected (
        config_error config_resource_collision management_resource_matches_civitas_api_resource
          "LOGTO_MANAGEMENT_API_RESOURCE")
    else accepted tt

module _ (parse_url : String → Option Url) (env : Environment) (contract : Contract)
    (enforce : Bool) where
  abbrev pub required_url : String → Checked String
  required_url variable = do
    value ← require_value env variable
    assert_http_url parse_url value variable

  abbrev pub resolve_backend_logto_resource : Checked String
  resolve_backend_logto_resource = do
    value ← required_url "LOGTO_API_RESOURCE"
    assert_matches_contract value contract.api_resource "LOGTO_API_RESOURCE"

  abbrev pub matching_endpoint : Checked String
  matching_endpoint = do
    value ← require_value env "VITE_LOGTO_ENDPOINT"
    origin ← assert_no_oidc_path parse_url value "VITE_LOGTO_ENDPOINT"
    assert_matches_contract origin contract.issuer "VITE_LOGTO_ENDPOINT"

  abbrev pub matching_api_url : String → Checked String
  matching_api_url variable = do
    value ← required_url variable
    assert_matches_contract value contract.public_url variable

  unfoldable pub validate_frontend : Checked FrontendConfig
  unfolding require_value assert_http_url assert_no_oidc_path assert_matches_contract
      assert_strict_service_contract
  validate_frontend = do
    ignored ← assert_strict_service_contract env frontend enforce
    api_url ← matching_api_url "VITE_API_URL"
    logto_endpoint ← matching_endpoint
    logto_app_id ← require_value env "VITE_LOGTO_APP_ID"
    logto_resource ←
        assert_http_url parse_url contract.api_resource "CivitasSharedContract.logto.apiResource"
    accepted (record {
      ignored = ignored;
      api_url = api_url;
      logto_endpoint = logto_endpoint;
      logto_app_id = logto_app_id;
      logto_resource = logto_resource;
    })

  -- The settings of the database that follow the identifiers of the backend and the switches of the
  -- worker.
  abbrev pub database_config : String → String → Checked DatabaseConfig
  database_config database_url redis_url = do
    run_migrations ← bool_or env "RUN_MIGRATIONS_ON_STARTUP" "false"
    wait_timeout ← int_or env "DATABASE_WAIT_TIMEOUT_MS" "60000"
    wait_interval ← int_or env "DATABASE_WAIT_INTERVAL_MS" "2000"
    connect_timeout ← int_or env "DATABASE_CONNECT_TIMEOUT_MS" "5000"
    accepted (record {
      database_url = database_url;
      redis_url = redis_url;
      bullmq_prefix = variable_or env "BULLMQ_PREFIX" "civitas";
      run_migrations_on_startup = run_migrations;
      database_wait_timeout_ms = wait_timeout;
      database_wait_interval_ms = wait_interval;
      database_connect_timeout_ms = connect_timeout;
    })

  unfoldable pub validate_backend : Checked BackendConfig
  unfolding require_value lookup as_int as_bool assert_http_url assert_matches_contract
      assert_strict_service_contract
  validate_backend = do
    ignored ← assert_strict_service_contract env backend enforce
    logto_resource ← resolve_backend_logto_resource
    management ← required_url "LOGTO_MANAGEMENT_API_RESOURCE"
    _ ← assert_separate management logto_resource
    api_url ← matching_api_url "API_URL"
    database_url ← require_value env "DATABASE_URL"
    redis_url ← require_value env "REDIS_URL"
    client_id ← require_value env "LOGTO_M2M_CLIENT_ID"
    client_secret ← require_value env "LOGTO_M2M_CLIENT_SECRET"
    database ← database_config database_url redis_url
    accepted (record {
      ignored = ignored;
      ignored_contract_drift = [];
      node_env = variable_or env "NODE_ENV" "production";
      api_url = api_url;
      database = database;
      logto_resource = logto_resource;
      m2m_client_id = client_id;
      m2m_client_secret = client_secret;
      logto_endpoint = contract.issuer;
      logto_management_api = management;
      contract = public_contract contract;
    })

  unfoldable pub validate_worker : Checked WorkerConfig
  unfolding require_value lookup as_int as_bool assert_strict_service_contract
  validate_worker = do
    ignored ← assert_strict_service_contract env worker enforce
    database_url ← require_value env "DATABASE_URL"
    redis_url ← require_value env "REDIS_URL"
    concurrency ← int_or env "WORKER_CONCURRENCY" "1"
    reconciler ← bool_or env "ENABLE_QUEUE_RECONCILER" "true"
    poll ← bool_or env "ENABLE_DB_POLL_EXECUTION" "false"
    database ← database_config database_url redis_url
    attempts ← int_or env "WORKER_JOB_ATTEMPTS" "3"
    backoff ← int_or env "WORKER_JOB_BACKOFF_MS" "5000"
    on_complete ← int_or env "WORKER_REMOVE_ON_COMPLETE" "1000"
    on_fail ← int_or env "WORKER_REMOVE_ON_FAIL" "5000"
    accepted (record {
      ignored = ignored;
      node_env = variable_or env "NODE_ENV" "production";
      database = database;
      worker_concurrency = concurrency;
      enable_queue_reconciler = reconciler;
      enable_db_poll_execution = poll;
      worker_job_attempts = attempts;
      worker_job_backoff_ms = backoff;
      worker_remove_on_complete = on_complete;
      worker_remove_on_fail = on_fail;
      contract = public_contract contract;
    })

  -- `validateDeploymentConfig`; the service may be missing.
  unfoldable pub validate_deployment_config : Option String → Checked ServiceConfig
  unfolding validate_frontend validate_backend validate_worker
  validate_deployment_config service =
      let name = or_text service "" in
      if is_empty name
      then rejected (config_error config_invalid_format missing_service "service")
      else if str_eq name "frontend"
      then and_check validate_frontend (λ c. accepted (frontend_config c))
      else if str_eq name "backend"
      then and_check validate_backend (λ c. accepted (backend_config c))
      else if str_eq name "worker"
      then and_check validate_worker (λ c. accepted (worker_config c))
      else rejected (config_error config_invalid_format unknown_service "service")
