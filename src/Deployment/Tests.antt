-- ===== src/Deployment/Tests.antt =====
-- The environment of a worker and that of a backend, and the first offence of another.
use civitas.Prelude.{◌≡◌, refl, true, false, Option, some, [], ◌∷◌, String, any, find, select}
use civitas.Prelude.Text.{
  trim, starts_with, includes, strip_slashes, is_digits, digits_value, capital_rest,
}
use civitas.Prelude.Texts.{sort_texts}
use civitas.Prelude.Json.{null}
use civitas.Prelude.Maps.{lookup}
use civitas.Deployment.{
  config_cross_service_pollution, cross_service_variable, Failure, config_error, accepted, rejected,
  Environment, as_int, as_bool, require_value, Url, assert_http_url, assert_no_oidc_path,
  is_cross_service_variable, is_platform_metadata_variable, is_civitas_variable,
}
use civitas.Deployment.Strict.{
  classify_deployment_variable, verdict_on, strict_from, assert_strict_service_contract,
}
use civitas.Deployment.Services.{
  Contract, public_contract, ServiceConfig, backend_config, assert_matches_contract,
  validate_frontend, validate_backend, validate_worker, validate_deployment_config,
}
use civitas.Deployment.Accepted.{IsSafe, validate_deployment_config-IsSafe}

-- A parser that knows the URLs of the tests.
abbrev parse_url : String → Option Url
parse_url value =
    some (record { protocol = "https:"; pathname = "/"; origin = "https://civitas.test" })

abbrev contract : Contract
contract = record {
  public_url = "https://api.civitas.test";
  issuer = "https://civitas.test";
  api_resource = "https://api.civitas.test/v1";
  organization_audience_prefix = "urn:logto:organization:";
  auth = null;
}

abbrev backend_env : Environment
backend_env =
    ("API_URL", "https://api.civitas.test/")
    ∷ ("COOLIFY_URL", "x")
    ∷ ("DATABASE_URL", "postgres://db")
    ∷ ("REDIS_URL", "redis://queue")
    ∷ ("LOGTO_API_RESOURCE", "https://api.civitas.test/v1")
    ∷ ("LOGTO_MANAGEMENT_API_RESOURCE", "https://default.logto.app/api")
    ∷ ("LOGTO_M2M_CLIENT_ID", "id")
    ∷ ("LOGTO_M2M_CLIENT_SECRET", "secret")
    ∷ ("WORKER_CONCURRENCY", "2")
    ∷ []

machine : Unit {0}
unfolding validate_deployment_config validate_frontend validate_backend validate_worker
    require_value lookup trim as_int as_bool assert_http_url assert_no_oidc_path
    assert_matches_contract assert_strict_service_contract strict_from verdict_on
    classify_deployment_variable is_platform_metadata_variable is_cross_service_variable
    is_civitas_variable includes starts_with strip_slashes is_digits digits_value capital_rest any
    sort_texts find select
machine = tt

abbrev backend_of : ServiceConfig
backend_of = backend_config (record {
  ignored = record {
    ignored_platform_metadata = "COOLIFY_URL" ∷ [];
    ignored_cross_service_pollution = "WORKER_CONCURRENCY" ∷ [];
  };
  ignored_contract_drift = [];
  node_env = "production";
  api_url = "https://api.civitas.test";
  database = record {
    database_url = "postgres://db";
    redis_url = "redis://queue";
    bullmq_prefix = "civitas";
    run_migrations_on_startup = false;
    database_wait_timeout_ms = 60000;
    database_wait_interval_ms = 2000;
    database_connect_timeout_ms = 5000;
  };
  logto_resource = "https://api.civitas.test/v1";
  m2m_client_id = "id";
  m2m_client_secret = "secret";
  logto_endpoint = "https://civitas.test";
  logto_management_api = "https://default.logto.app/api";
  contract = public_contract contract;
})

backend_accepted :
    validate_deployment_config parse_url backend_env contract false (some "backend")
    ≡ accepted backend_of
unfolding machine
backend_accepted = refl

validate_deployment_config-IsSafe_example : IsSafe parse_url backend_env contract false backend_of
validate_deployment_config-IsSafe_example =
    validate_deployment_config-IsSafe parse_url backend_env contract false (some "backend")
      backend_of backend_accepted

abbrev pollution : Failure
pollution = config_error config_cross_service_pollution cross_service_variable "WORKER_CONCURRENCY"

-- What is let pass above is refused where it is enforced.
backend_refused :
    validate_deployment_config parse_url backend_env contract true (some "backend")
    ≡ rejected pollution
unfolding machine
backend_refused = refl
