-- ===== src/Deployment.antt =====
-- core/deployment/deployment-kernel.cjs, the check of a service's environment against the deployment
-- contract. The environment is the list of its variables in the order of `Object.keys`, all of them
-- strings. `new URL` is the argument `parse_url`. A number is a natural number of any size.
use Prim.Native.Nat.{ℕ, ◌+◌, ◌*◌, ◌-◌}
use civitas.Prelude.{
  Bool, true, false, not, ◌&&◌, ◌||◌, Option, none, some, or_else, List, [], ◌∷◌, ◌++◌, map, String,
  str_eq, any, is_nil, if◌then◌else◌,
}
use civitas.Prelude.Text.{
  is_empty, trim, starts_with, includes, strip_slashes, is_digits, digits_value, capital_rest,
}
use civitas.Prelude.Texts.{sort_texts}
use civitas.Prelude.Json.{Value}
use civitas.Prelude.Maps.{lookup}
pub mod Strict
pub mod Services
pub mod Names
pub mod Accepted
pub mod Tests

pub data Service : Type 0 where
  frontend backend worker : Service

pub data ErrorCode : Type 0 where
  config_invalid_format config_missing config_forbidden_drift config_cross_service_pollution
        config_outside_contract config_contract_mismatch config_resource_collision :
      ErrorCode

pub data ErrorCause : Type 0 where
  expected_integer expected_boolean missing_required_variable expected_http_url
        endpoint_must_be_base_url removed_domain_detected forbidden_civitas_drift_variable
        cross_service_variable variable_outside_service_contract runtime_env_drift
        management_resource_matches_civitas_api_resource missing_service unknown_service :
      ErrorCause

-- `type_error` is what `new URL` throws outside a `try`.
pub data Failure : Type 0 where
  config_error : ErrorCode → ErrorCause → String → Failure
  type_error : Failure

pub data Checked {ℓ} (A : Type ℓ) : Type ℓ where
  accepted : A → Checked A
  rejected : Failure → Checked A

abbrev pub and_check {ℓ κ} : {A : Type ℓ} {B : Type κ} → Checked A → (A → Checked B) → Checked B
and_check (accepted a) f = f a
and_check (rejected e) f = rejected e

infixl 5 ◌>>=◌ ◌>>◌
abbrev pub ◌>>=◌ : {A B : Type 0} → Checked A → (A → Checked B) → Checked B
m >>= f = and_check m f

abbrev pub ◌>>◌ : {A B : Type 0} → Checked A → Checked B → Checked B
m >> k = and_check m λ _. k

abbrev pub Environment : Type 0
Environment = List (String × String)

-- `value || fallback`.
abbrev pub or_text : Option String → String → String
or_text none fallback = fallback
or_text (some value) fallback = if is_empty value then fallback else value

unfoldable pub as_int : String → String → Checked ℕ
unfolding is_digits digits_value
as_int value variable =
    if is_digits value
    then accepted (digits_value value)
    else rejected (config_error config_invalid_format expected_integer variable)

unfoldable pub as_bool : String → String → Checked Bool
as_bool value variable =
    if str_eq value "true"
    then accepted true
    else if str_eq value "false"
    then accepted false
    else rejected (config_error config_invalid_format expected_boolean variable)

abbrev trimmed_value : Option String → Option String
trimmed_value none = none
trimmed_value (some value) = let text = trim value in if is_empty text then none else some text

abbrev missing_or : Option String → String → Checked String
missing_or none variable = rejected (config_error config_missing missing_required_variable variable)
missing_or (some text) variable = accepted text

unfoldable pub require_value : Environment → String → Checked String
unfolding lookup trim
require_value env variable = missing_or (trimmed_value (lookup variable env)) variable

-- What the source reads of a URL.
pub record Url : Type 0 where
  pub protocol : String
  pub pathname : String
  pub origin : String

abbrev is_http : Option Url → Bool
is_http none = false
is_http (some url) = str_eq url.protocol "http:" || str_eq url.protocol "https:"

abbrev base_origin : Option Url → String → Checked String
base_origin none variable = rejected type_error
base_origin (some url) variable =
    if str_eq (strip_slashes url.pathname) "/oidc"
    then rejected (config_error config_invalid_format endpoint_must_be_base_url variable)
    else accepted url.origin

module _ (parse_url : String → Option Url) where
  unfoldable pub assert_http_url : String → String → Checked String
  unfolding strip_slashes
  assert_http_url value variable =
      if is_http (parse_url value)
      then accepted (strip_slashes value)
      else rejected (config_error config_invalid_format expected_http_url variable)

  unfoldable pub assert_no_oidc_path : String → String → Checked String
  unfolding assert_http_url
  assert_no_oidc_path value variable = do
    url ← assert_http_url value variable
    base_origin (parse_url url) variable

abbrev pub service_allowed_variables : Service → List String
service_allowed_variables frontend =
    "VITE_API_URL" ∷ "VITE_LOGTO_ENDPOINT" ∷ "VITE_LOGTO_APP_ID" ∷ []
service_allowed_variables backend =
    "NODE_ENV" ∷ "API_URL" ∷ "DATABASE_URL" ∷ "REDIS_URL" ∷ "LOGTO_API_RESOURCE"
    ∷ "LOGTO_MANAGEMENT_API_RESOURCE" ∷ "LOGTO_M2M_CLIENT_ID" ∷ "LOGTO_M2M_CLIENT_SECRET"
    ∷ "BULLMQ_PREFIX" ∷ "RUN_MIGRATIONS_ON_STARTUP" ∷ "DATABASE_WAIT_TIMEOUT_MS"
    ∷ "DATABASE_WAIT_INTERVAL_MS" ∷ "DATABASE_CONNECT_TIMEOUT_MS" ∷ []
service_allowed_variables worker =
    "NODE_ENV" ∷ "DATABASE_URL" ∷ "REDIS_URL" ∷ "BULLMQ_PREFIX" ∷ "WORKER_CONCURRENCY"
    ∷ "ENABLE_QUEUE_RECONCILER" ∷ "ENABLE_DB_POLL_EXECUTION" ∷ "RUN_MIGRATIONS_ON_STARTUP"
    ∷ "DATABASE_WAIT_TIMEOUT_MS" ∷ "DATABASE_WAIT_INTERVAL_MS" ∷ "DATABASE_CONNECT_TIMEOUT_MS"
    ∷ "WORKER_JOB_ATTEMPTS" ∷ "WORKER_JOB_BACKOFF_MS" ∷ "WORKER_REMOVE_ON_COMPLETE"
    ∷ "WORKER_REMOVE_ON_FAIL" ∷ []

abbrev pub lists : List String → String → Bool
lists names key = any (str_eq key) names

-- `isCrossServiceVariable`: another service owns the variable, and this one does not.
unfoldable pub is_cross_service_variable : String → Service → Bool
unfolding any
is_cross_service_variable key service =
    any (λ s. lists (service_allowed_variables s) key) (frontend ∷ backend ∷ worker ∷ [])
    && not (lists (service_allowed_variables service) key)

-- /^SERVICE_[A-Z0-9_]+$/ and /^COOLIFY_[A-Z0-9_]+$/.
unfoldable pub is_platform_metadata_variable : String → Bool
unfolding capital_rest
is_platform_metadata_variable key = capital_rest "SERVICE_" key || capital_rest "COOLIFY_" key

abbrev pub forbidden_civitas_variables : List String
forbidden_civitas_variables =
    "LOGTO_CLIENT_ID" ∷ "LOGTO_CLIENT_SECRET" ∷ "LOGTO_ENDPOINT"
    ∷ "LOGTO_MANAGEMENT_API_TOKEN_ENDPOINT" ∷ "LOGTO_MANAGEMENT_API_APPLICATION_ID"
    ∷ "LOGTO_MANAGEMENT_API_APPLICATION_SECRET" ∷ "VITE_APP_REDIRECT_URI"
    ∷ "VITE_APP_SIGNOUT_REDIRECT_URI" ∷ "VITE_API_RESOURCE_INDICATOR" ∷ "VITE_API_BASE_URL"
    ∷ "VITE_API_RESOURCE" ∷ "VITE_LOGTO_API_RESOURCE" ∷ []

abbrev civitas_names : List String
civitas_names =
    "DATABASE_URL" ∷ "REDIS_URL" ∷ "API_URL" ∷ "BULLMQ_PREFIX" ∷ "WORKER_CONCURRENCY"
    ∷ "ENABLE_QUEUE_RECONCILER" ∷ "ENABLE_DB_POLL_EXECUTION" ∷ "RUN_MIGRATIONS_ON_STARTUP"
    ∷ "DATABASE_WAIT_TIMEOUT_MS" ∷ "DATABASE_WAIT_INTERVAL_MS" ∷ "DATABASE_CONNECT_TIMEOUT_MS"
    ∷ "WORKER_JOB_ATTEMPTS" ∷ "WORKER_JOB_BACKOFF_MS" ∷ "WORKER_REMOVE_ON_COMPLETE"
    ∷ "WORKER_REMOVE_ON_FAIL" ∷ "API_BASE_URL" ∷ []

unfoldable pub is_civitas_variable : String → Bool
unfolding starts_with any
is_civitas_variable key =
    starts_with key "VITE_" || starts_with key "LOGTO_" || lists civitas_names key
