-- ===== src/Deployment/Strict.antt =====
-- core/deployment/deployment-kernel.cjs, `classifyDeploymentVariable` and
-- `assertStrictServiceContract`, whose loop is a recursion over the variables.
use mathlib.Core.List.{append_assoc, append-nil}
use civitas.Prelude.{
  ◌≡◌, ◌⊎◌, refl, sym, ap, ◌∙◌, Bool, true, false, Option, none, some, List, [], ◌∷◌, ◌++◌, map,
  String, any, find, select, if◌then◌else◌, inl, inr,
}
use civitas.Prelude.Text.{includes}
use civitas.Prelude.Texts.{sort_texts}
use civitas.Deployment.{
  Service, config_forbidden_drift, config_cross_service_pollution, config_outside_contract,
  removed_domain_detected, forbidden_civitas_drift_variable, cross_service_variable,
  variable_outside_service_contract, Failure, config_error, type_error, Checked, accepted, rejected,
  Environment, service_allowed_variables, lists, is_cross_service_variable,
  is_platform_metadata_variable, forbidden_civitas_variables, is_civitas_variable,
}

pub data Classification : Type 0 where
  in_contract platform_metadata forbidden_civitas_drift cross_service_pollution
        civitas_outside_service_contract external_runtime :
      Classification

unfoldable pub classify_deployment_variable : String → Service → Classification
unfolding any is_platform_metadata_variable is_cross_service_variable is_civitas_variable
classify_deployment_variable key service =
    if lists (service_allowed_variables service) key
    then in_contract
    else if is_platform_metadata_variable key
    then platform_metadata
    else if lists forbidden_civitas_variables key
    then forbidden_civitas_drift
    else if is_cross_service_variable key service
    then cross_service_pollution
    else if is_civitas_variable key
    then civitas_outside_service_contract
    else external_runtime

pub record Ignored : Type 0 where
  pub ignored_platform_metadata : List String
  pub ignored_cross_service_pollution : List String

-- What the loop's body does with a variable: it goes on, notes it, or throws.
pub data Verdict : Type 0 where
  passes notes_metadata notes_pollution : Verdict
  throws : Failure → Verdict

abbrev pub verdict_of : Classification → Bool → String → Verdict
verdict_of platform_metadata enforce key = notes_metadata
verdict_of forbidden_civitas_drift enforce key =
    throws (config_error config_forbidden_drift forbidden_civitas_drift_variable key)
verdict_of cross_service_pollution enforce key =
    if enforce
    then throws (config_error config_cross_service_pollution cross_service_variable key)
    else notes_pollution
verdict_of civitas_outside_service_contract enforce key =
    throws (config_error config_outside_contract variable_outside_service_contract key)
verdict_of _ enforce key = passes

unfoldable pub verdict_on : Service → Bool → String × String → Verdict
unfolding classify_deployment_variable includes
verdict_on service enforce (key, value) =
    if includes value "socialstudies.cloud"
    then throws (config_error config_forbidden_drift removed_domain_detected key)
    else verdict_of (classify_deployment_variable key service) enforce key

abbrev go_on :
    Verdict
    → String
    → List String
    → List String
    → (List String → List String → Checked Ignored)
    → Checked Ignored
go_on passes key metadata pollution continue = continue metadata pollution
go_on notes_metadata key metadata pollution continue = continue (metadata ++ key ∷ []) pollution
go_on notes_pollution key metadata pollution continue = continue metadata (pollution ++ key ∷ [])
go_on (throws e) key metadata pollution continue = rejected e

unfoldable pub strict_from :
    Service → Bool → List String → List String → Environment → Checked Ignored
unfolding verdict_on sort_texts
strict_from service enforce metadata pollution [] = accepted (record {
  ignored_platform_metadata = sort_texts metadata;
  ignored_cross_service_pollution = sort_texts pollution;
})
strict_from service enforce metadata pollution ((key, value) ∷ env) =
    go_on (verdict_on service enforce (key, value)) key metadata pollution
      λ ms ps. strict_from service enforce ms ps env

unfoldable pub assert_strict_service_contract : Environment → Service → Bool → Checked Ignored
unfolding strict_from
assert_strict_service_contract env service enforce = strict_from service enforce [] [] env

-- The reference: the first variable that throws decides, and if none does the keys of those that
-- are noted are sorted.
abbrev pub is_throw : Verdict → Bool
is_throw (throws e) = true
is_throw _ = false

abbrev is_metadata : Verdict → Bool
is_metadata notes_metadata = true
is_metadata _ = false

abbrev is_pollution : Verdict → Bool
is_pollution notes_pollution = true
is_pollution _ = false

abbrev pub key_of : String × String → String
key_of (key, value) = key

module _ (service : Service) (enforce : Bool) where
  abbrev pub offends : String × String → Bool
  offends variable = is_throw (verdict_on service enforce variable)

  abbrev pub is_noted_metadata : String × String → Bool
  is_noted_metadata variable = is_metadata (verdict_on service enforce variable)

  abbrev pub is_noted_pollution : String × String → Bool
  is_noted_pollution variable = is_pollution (verdict_on service enforce variable)

  abbrev pub failure_of : Verdict → Failure
  failure_of (throws e) = e
  failure_of _ = type_error

  abbrev pub keys_of : (String × String → Bool) → Environment → List String
  keys_of p env = map {A = String × String} {B = String} key_of (select p env)

  abbrev pub judged : Option (String × String) → Ignored → Checked Ignored
  judged none ignored = accepted ignored
  judged (some variable) ignored = rejected (failure_of (verdict_on service enforce variable))

  Verdict-cases :
      (v : Verdict)
      → (v ≡ passes)
        ⊎ (v ≡ notes_metadata)
        ⊎ (v ≡ notes_pollution)
        ⊎ ((e : Failure) × (v ≡ throws e))
  Verdict-cases passes = inl refl
  Verdict-cases notes_metadata = inr (inl refl)
  Verdict-cases notes_pollution = inr (inr (inl refl))
  Verdict-cases (throws e) = inr (inr (inr (e, refl)))

  abbrev pub noted : List String → List String → Ignored
  noted metadata pollution = record {
    ignored_platform_metadata = sort_texts metadata;
    ignored_cross_service_pollution = sort_texts pollution;
  }

  strict_from_lem :
      (metadata pollution : List String) (env : Environment)
      → strict_from service enforce metadata pollution env
        ≡ judged (find offends env) (
            noted
              (metadata ++ keys_of is_noted_metadata env)
              (pollution ++ keys_of is_noted_pollution env))
  unfolding strict_from find select
  strict_from_lem metadata pollution [] = rw (append-nil metadata, append-nil pollution) refl
  strict_from_lem metadata pollution ((key, value) ∷ env) =
      let ms = keys_of is_noted_metadata env in
      let ps = keys_of is_noted_pollution env in
      elim (Verdict-cases (verdict_on service enforce (key, value))) [
        | inl e ↦ rw e (strict_from_lem metadata pollution env)
        | inr (inl e) ↦ rw e (
            strict_from_lem (metadata ++ key ∷ []) pollution env
            ∙ ap (λ l. judged (find offends env) (noted l (pollution ++ ps)))
                (append_assoc metadata (key ∷ []) ms))
        | inr (inr (inl e)) ↦ rw e (
            strict_from_lem metadata (pollution ++ key ∷ []) env
            ∙ ap (λ l. judged (find offends env) (noted (metadata ++ ms) l))
                (append_assoc pollution (key ∷ []) ps))
        | inr (inr (inr (failure, e))) ↦ rw e (ap (λ v. rejected (failure_of v)) (sym e))
      ]

  -- The environment is judged by its first variable that is not to be there; if there is none, it
  -- is accepted with the sorted names of the platform's variables and, where these are let pass, of
  -- those of other services.
  pub assert_strict_service_contract_lem :
      (env : Environment)
      → assert_strict_service_contract env service enforce
        ≡ judged
            (find offends env)
            (noted (keys_of is_noted_metadata env) (keys_of is_noted_pollution env))
  unfolding assert_strict_service_contract
  assert_strict_service_contract_lem env = strict_from_lem [] [] env
