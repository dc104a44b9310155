-- ===== src/Deployment/Accepted.antt =====
-- What an accepted configuration says of the environment.
use mathlib.Core.Path.{subst}
use civitas.Prelude.{
  ◌≡◌, refl, ◌∙◌, Bool, false, Option, none, some, List, [], ◌∷◌, String, str_eq, eq_iff, any, find,
  inl, inr, Bool-cases, Option-cases, All,
}
use civitas.Deployment.Names.{IsFit, none_offends-All}
use civitas.Prelude.Text.{is_empty}
use civitas.Deployment.{
  Service, frontend, backend, worker, Checked, accepted, rejected, and_check, Environment, or_text,
  require_value, Url, assert_http_url, assert_no_oidc_path,
}
use civitas.Deployment.Strict.{
  assert_strict_service_contract, offends, assert_strict_service_contract_lem,
}
use civitas.Deployment.Services.{
  Contract, FrontendConfig, BackendConfig, ServiceConfig, frontend_config, backend_config,
  worker_config, assert_matches_contract, assert_separate, required_url,
  resolve_backend_logto_resource, matching_endpoint, matching_api_url, validate_frontend,
  database_config, validate_backend, validate_worker, validate_deployment_config,
}

abbrev pub Ensures : {A : Type 0} → (A → Type 0) → Checked A → Type 0
Ensures P (accepted a) = P a
Ensures P (rejected e) = Unit

Ensures-bind :
    {A B : Type 0} {Q : A → Type 0} (P : B → Type 0) (m : Checked A) (f : A → Checked B)
    → Ensures Q m
    → ((a : A) → Q a → Ensures P (f a))
    → Ensures P (and_check m f)
Ensures-bind P (accepted a) f h k = k a h
Ensures-bind P (rejected e) f h k = tt

Ensures-any :
    {A B : Type 0} (P : B → Type 0) (m : Checked A) (f : A → Checked B)
    → ((a : A) → Ensures P (f a))
    → Ensures P (and_check m f)
Ensures-any P (accepted a) f k = k a
Ensures-any P (rejected e) f k = tt

Ensures-always : {A : Type 0} (P : A → Type 0) → ((a : A) → P a) → (m : Checked A) → Ensures P m
Ensures-always P h (accepted a) = h a
Ensures-always P h (rejected e) = tt

none_found {ℓ} : {A : Type ℓ} (p : A → Bool) (xs : List A) → find p xs ≡ none → any p xs ≡ false
unfolding find any
none_found p [] h = refl
none_found p (x ∷ xs) h = elim (Bool-cases (p x)) [
  | inl e ↦ let found : some x ≡ none = (rw e refl) ∙ h in cc
  | inr e ↦ rw e (none_found p xs ((rw e refl) ∙ h))
]

-- Every variable of the environment is one that the service may have.
abbrev pub IsClean : Environment → Service → Bool → Type 0
IsClean env service enforce = All (IsFit service enforce) env

Ensures-strict :
    (env : Environment) (service : Service) (enforce : Bool)
    → Ensures
        (λ _. IsClean env service enforce)
        (assert_strict_service_contract env service enforce)
Ensures-strict env service enforce =
    rw (assert_strict_service_contract_lem service enforce env)
      (elim (Option-cases (find (offends service enforce) env)) [
        | inl e ↦
            rw e (none_offends-All service enforce env (none_found (offends service enforce) env e))
        | inr (variable, e) ↦ rw e tt
      ])

Ensures-match :
    (value expected variable : String)
    → Ensures (λ v. v ≡ expected) (assert_matches_contract value expected variable)
unfolding assert_matches_contract
Ensures-match value expected variable = elim (Bool-cases (str_eq value expected)) [
  | inl e ↦ rw e ((eq_iff value expected).0 e)
  | inr e ↦ rw e tt
]

module _ (parse_url : String → Option Url) (env : Environment) (contract : Contract)
    (enforce : Bool) where
  -- What each accepted configuration ensures.
  abbrev pub IsSafe : ServiceConfig → Type 0
  IsSafe (frontend_config c) =
      IsClean env frontend enforce
      × (c.api_url ≡ contract.public_url)
      × (c.logto_endpoint ≡ contract.issuer)
  IsSafe (backend_config c) =
      IsClean env backend enforce
      × (c.api_url ≡ contract.public_url)
      × (c.logto_resource ≡ contract.api_resource)
      × (str_eq c.logto_management_api contract.api_resource ≡ false)
  IsSafe (worker_config c) = IsClean env worker enforce

  Ensures-matching_api_url :
      (variable : String)
      → Ensures
          (λ v. v ≡ contract.public_url)
          (matching_api_url parse_url env contract enforce variable)
  Ensures-matching_api_url variable =
      Ensures-any (λ v. v ≡ contract.public_url)
        (required_url parse_url env contract enforce variable)
        (λ value. assert_matches_contract value contract.public_url variable)
        (λ value. Ensures-match value contract.public_url variable)

  Ensures-resolve_backend_logto_resource :
      Ensures
        (λ v. v ≡ contract.api_resource)
        (resolve_backend_logto_resource parse_url env contract enforce)
  Ensures-resolve_backend_logto_resource =
      Ensures-any (λ v. v ≡ contract.api_resource)
        (required_url parse_url env contract enforce "LOGTO_API_RESOURCE")
        (λ value. assert_matches_contract value contract.api_resource "LOGTO_API_RESOURCE")
        (λ value. Ensures-match value contract.api_resource "LOGTO_API_RESOURCE")

  Ensures-matching_endpoint :
      Ensures (λ v. v ≡ contract.issuer) (matching_endpoint parse_url env contract enforce)
  Ensures-matching_endpoint =
      let P : String → Type 0 = λ v. v ≡ contract.issuer in
      Ensures-any P (require_value env "VITE_LOGTO_ENDPOINT") _ λ value.
        Ensures-any P (assert_no_oidc_path parse_url value "VITE_LOGTO_ENDPOINT") _
          λ origin. Ensures-match origin contract.issuer "VITE_LOGTO_ENDPOINT"

  Ensures-assert_separate :
      (management resource : String)
      → Ensures (λ _. str_eq management resource ≡ false) (assert_separate management resource)
  Ensures-assert_separate management resource = elim (Bool-cases (str_eq management resource)) [
    | inl e ↦ rw e tt
    | inr e ↦ rw e refl
  ]

  IsSafe-frontend :
      Ensures (λ c. IsSafe (frontend_config c)) (validate_frontend parse_url env contract enforce)
  unfolding validate_frontend
  IsSafe-frontend =
      let P : FrontendConfig → Type 0 = λ c. IsSafe (frontend_config c) in
      Ensures-bind P (assert_strict_service_contract env frontend enforce) _
        (Ensures-strict env frontend enforce)
        λ ignored clean.
          Ensures-bind P (matching_api_url parse_url env contract enforce "VITE_API_URL") _
            (Ensures-matching_api_url "VITE_API_URL")
            λ api_url same.
              Ensures-bind P (matching_endpoint parse_url env contract enforce) _
                Ensures-matching_endpoint
                λ endpoint issuer. Ensures-any P (require_value env "VITE_LOGTO_APP_ID") _ λ app_id.
                  Ensures-any P
                    (assert_http_url parse_url contract.api_resource
                      "CivitasSharedContract.logto.apiResource")
                    _ λ resource. (clean, same, issuer)

  IsSafe-backend :
      Ensures (λ c. IsSafe (backend_config c)) (validate_backend parse_url env contract enforce)
  unfolding validate_backend
  IsSafe-backend =
      let P : BackendConfig → Type 0 = λ c. IsSafe (backend_config c) in
      Ensures-bind P (assert_strict_service_contract env backend enforce) _
        (Ensures-strict env backend enforce)
        λ ignored clean.
          Ensures-bind P (resolve_backend_logto_resource parse_url env contract enforce) _
            Ensures-resolve_backend_logto_resource
            λ resource known.
              Ensures-any P
                (required_url parse_url env contract enforce "LOGTO_MANAGEMENT_API_RESOURCE") _
                λ management.
                  Ensures-bind P (assert_separate management resource) _
                    (Ensures-assert_separate management resource)
                    λ _ apart.
                      Ensures-bind P (matching_api_url parse_url env contract enforce "API_URL") _
                        (Ensures-matching_api_url "API_URL")
                        λ api_url same.
                          Ensures-any P (require_value env "DATABASE_URL") _ λ database_url.
                            Ensures-any P (require_value env "REDIS_URL") _ λ redis_url.
                              Ensures-any P (require_value env "LOGTO_M2M_CLIENT_ID") _ λ id.
                                Ensures-any P (require_value env "LOGTO_M2M_CLIENT_SECRET") _
                                  λ secret.
                                    Ensures-any P
                                      (database_config parse_url env contract enforce database_url
                                        redis_url)
                                      _
                                      λ database. (
                                        clean,
                                        same,
                                        known,
                                        subst (λ r. str_eq management r ≡ false) known apart,
                                      )

  IsSafe-worker :
      Ensures (λ c. IsSafe (worker_config c)) (validate_worker parse_url env contract enforce)
  unfolding validate_worker
  IsSafe-worker =
      Ensures-bind (λ c. IsSafe (worker_config c))
        (assert_strict_service_contract env worker enforce) _ (Ensures-strict env worker enforce)
        λ ignored clean. Ensures-always (λ c. IsSafe (worker_config c)) (λ c. clean) _

  IsSafe-validated :
      (service : Option String)
      → Ensures IsSafe (validate_deployment_config parse_url env contract enforce service)
  unfolding validate_deployment_config
  IsSafe-validated service = elim (Bool-cases (is_empty (or_text service ""))) [
    | inl e ↦ rw e tt
    | inr e ↦ rw e (elim (Bool-cases (str_eq (or_text service "") "frontend")) [
      | inl f ↦ rw f (
          Ensures-bind IsSafe (validate_frontend parse_url env contract enforce)
            (λ c. accepted (frontend_config c)) IsSafe-frontend (λ c safe. safe))
      | inr f ↦ rw f (elim (Bool-cases (str_eq (or_text service "") "backend")) [
        | inl g ↦ rw g (
            Ensures-bind IsSafe (validate_backend parse_url env contract enforce)
              (λ c. accepted (backend_config c)) IsSafe-backend (λ c safe. safe))
        | inr g ↦ rw g (elim (Bool-cases (str_eq (or_text service "") "worker")) [
          | inl h ↦ rw h (
              Ensures-bind IsSafe (validate_worker parse_url env contract enforce)
                (λ c. accepted (worker_config c)) IsSafe-worker (λ c safe. safe))
          | inr h ↦ rw h tt
        ])
      ])
    ])
  ]

  -- Where the configuration of a service is accepted, no variable's value names the removed domain,
  -- and no variable has a name of a removed configuration; each name of Civitas is in the service's
  -- contract, is the platform's or, where the contracts are not enforced, is in another service's
  -- contract; where they are enforced, no name is in another service's contract only. A front end has
  -- the API and the issuer of the shared contract, and a backend its API and its resource, with a
  -- management resource that is another.
  pub validate_deployment_config-IsSafe :
      (service : Option String) (config : ServiceConfig)
      → validate_deployment_config parse_url env contract enforce service ≡ accepted config
      → IsSafe config
  validate_deployment_config-IsSafe service config e =
      subst (Ensures IsSafe) e (IsSafe-validated service)
