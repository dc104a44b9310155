-- ===== src/Deployment/Names.antt =====
-- core/deployment/deployment-kernel.cjs: which variables a service's environment has once it is accepted,
-- in terms of the lists of names.
use mathlib.Core.Path.{subst}
use civitas.Prelude.{
  ◌≡◌, refl, sym, ◌∙◌, Bool, true, false, not, ◌&&◌, ◌||◌, List, [], ◌∷◌, String, str_eq, eq_iff,
  any, all, inl, inr, Bool-cases, if◌then◌else◌, All, arith,
}
use civitas.Prelude.Text.{includes, starts_with, capital_rest}
use civitas.Deployment.{
  Service, frontend, backend, worker, Environment, service_allowed_variables, lists,
  is_cross_service_variable, is_platform_metadata_variable, forbidden_civitas_variables,
  is_civitas_variable,
}
use civitas.Deployment.Strict.{
  Classification, in_contract, platform_metadata, forbidden_civitas_drift, cross_service_pollution,
  civitas_outside_service_contract, external_runtime, Classification, classify_deployment_variable,
  verdict_of, verdict_on, is_throw, offends,
}

-- A variable that an accepted environment may have: its value does not name the removed domain; its name
-- is none of those of a removed configuration; a name of Civitas is in the service's contract or is the
-- platform's or, where that is let pass, is in the contract of another service; and where it is not
-- let pass, no name is another service's.
pub record IsFit (service : Service) (enforce : Bool) (variable : String × String) : Type 0 where
  pub domain : includes variable.1 "socialstudies.cloud" ≡ false
  pub present : lists forbidden_civitas_variables variable.0 ≡ false
  pub placed :
      (not (is_civitas_variable variable.0)
        || (lists (service_allowed_variables service) variable.0
            || (is_platform_metadata_variable variable.0
                || (not enforce && is_cross_service_variable variable.0 service))))
      ≡ true
  pub own : (enforce && is_cross_service_variable variable.0 service) ≡ false

lists_all :
    (p : String → Bool) (names : List String) (key : String)
    → lists names key ≡ true
    → all p names ≡ true
    → p key ≡ true
unfolding any all
lists_all p [] key h k = cc
lists_all p (name ∷ names) key h k = elim (Bool-cases (str_eq key name)) [
  | inl e ↦
      let here : p name ≡ true = ground (arith, k) in
      subst (λ n. p n ≡ true) (sym ((eq_iff key name).0 e)) here
  | inr e ↦ lists_all p names key (ground (arith, h, e)) (ground (arith, k))
]

-- No service's contract has a name of the platform.
contract-not_platform :
    (s : Service) (key : String)
    → lists (service_allowed_variables s) key ≡ true
    → not (is_platform_metadata_variable key) ≡ true
unfolding all any is_platform_metadata_variable starts_with capital_rest
contract-not_platform frontend key h =
    lists_all (λ n. not (is_platform_metadata_variable n)) (service_allowed_variables frontend) key
      h refl
contract-not_platform backend key h =
    lists_all (λ n. not (is_platform_metadata_variable n)) (service_allowed_variables backend) key h
      refl
contract-not_platform worker key h =
    lists_all (λ n. not (is_platform_metadata_variable n)) (service_allowed_variables worker) key h
      refl

three_lists :
    (a b c : Bool) (own : Bool)
    → ((a || (b || (c || false))) && not own) ≡ true
    → (own ≡ false) × ((a || (b || c)) ≡ true)
three_lists a b c own h = ground (arith, h)

one_of :
    (a b c platform : Bool)
    → (a ≡ true → not platform ≡ true)
    → (b ≡ true → not platform ≡ true)
    → (c ≡ true → not platform ≡ true)
    → (a || (b || c)) ≡ true
    → platform ≡ false
one_of a b c false f g h e = refl
one_of true b c true f g h e = let wrong : false ≡ true = f refl in cc
one_of false true c true f g h e = let wrong : false ≡ true = g refl in cc
one_of false false true true f g h e = let wrong : false ≡ true = h refl in cc
one_of false false false true f g h e = cc

absent : (x own : Bool) → own ≡ true → (x && not own) ≡ false
absent x true e = ground (arith)
absent x false e = cc

-- A variable of the platform's is no other service's.
platform-not_cross :
    (key : String) (service : Service)
    → is_platform_metadata_variable key ≡ true
    → is_cross_service_variable key service ≡ false
unfolding is_cross_service_variable any
platform-not_cross key service h = elim (Bool-cases (is_cross_service_variable key service)) [
  | inr e ↦ e
  | inl e ↦
      let (_, listed) =
        three_lists (lists (service_allowed_variables frontend) key)
          (lists (service_allowed_variables backend) key)
          (lists (service_allowed_variables worker) key)
          (lists (service_allowed_variables service) key) e in
      let one =
        one_of _ _ _ (is_platform_metadata_variable key) (contract-not_platform frontend key)
          (contract-not_platform backend key) (contract-not_platform worker key) listed in
      let wrong : true ≡ false = sym h ∙ one in cc
]

is_forbidden : Classification → Bool
is_forbidden forbidden_civitas_drift = true
is_forbidden _ = false

-- Each forbidden name is classified as such, in whichever service.
forbidden-classified :
    (service : Service) (key : String)
    → lists forbidden_civitas_variables key ≡ true
    → is_forbidden (classify_deployment_variable key service) ≡ true
unfolding all any is_forbidden classify_deployment_variable is_platform_metadata_variable
    is_cross_service_variable starts_with capital_rest
forbidden-classified frontend key h =
    lists_all (λ n. is_forbidden (classify_deployment_variable n frontend))
      forbidden_civitas_variables key h refl
forbidden-classified backend key h =
    lists_all (λ n. is_forbidden (classify_deployment_variable n backend))
      forbidden_civitas_variables key h refl
forbidden-classified worker key h =
    lists_all (λ n. is_forbidden (classify_deployment_variable n worker))
      forbidden_civitas_variables key h refl

forbidden-thrown :
    (c : Classification) (enforce : Bool) (key : String)
    → is_forbidden c ≡ true
    → is_throw (verdict_of c enforce key) ≡ true
unfolding is_forbidden
forbidden-thrown forbidden_civitas_drift enforce key h = refl
forbidden-thrown in_contract enforce key h = cc
forbidden-thrown platform_metadata enforce key h = cc
forbidden-thrown cross_service_pollution enforce key h = cc
forbidden-thrown civitas_outside_service_contract enforce key h = cc
forbidden-thrown external_runtime enforce key h = cc

-- The classification, from what is known of a name.
classified :
    (allowed platform forbidden cross civitas enforce : Bool) (key : String)
    → is_throw (
        verdict_of
          (if allowed
            then in_contract
            else if platform
            then platform_metadata
            else if forbidden
            then forbidden_civitas_drift
            else if cross
            then cross_service_pollution
            else if civitas
            then civitas_outside_service_contract
            else external_runtime)
          enforce
          key)
      ≡ false
    → ((not civitas || (allowed || (platform || (not enforce && cross)))) ≡ true)
      × ((allowed || (platform || not (enforce && cross))) ≡ true)
classified true p f x v e key h = ground (arith, h)
classified false true f x v e key h = ground (arith, h)
classified false false true x v e key h = cc
classified false false false true v true key h = cc
classified false false false true v false key h = ground (arith, h)
classified false false false false true e key h = cc
classified false false false false false e key h = ground (arith, h)

module _ (service : Service) (enforce : Bool) where
  not_own :
      (key : String)
      → lists (service_allowed_variables service) key ≡ true
      → is_cross_service_variable key service ≡ false
  unfolding is_cross_service_variable any
  not_own key h = absent _ (lists (service_allowed_variables service) key) h

  own_names :
      (key : String)
      → (lists (service_allowed_variables service) key
          || (is_platform_metadata_variable key
              || not (enforce && is_cross_service_variable key service)))
        ≡ true
      → (enforce && is_cross_service_variable key service) ≡ false
  own_names key h = elim (Bool-cases (lists (service_allowed_variables service) key)) [
    | inl e ↦ ground (arith, not_own key e)
    | inr e ↦ elim (Bool-cases (is_platform_metadata_variable key)) [
      | inl p ↦ ground (arith, platform-not_cross key service p)
      | inr p ↦ ground (arith, h, e, p)
    ]
  ]

  not_thrown-IsFit :
      (key value : String)
      → includes value "socialstudies.cloud" ≡ false
      → is_throw (verdict_of (classify_deployment_variable key service) enforce key) ≡ false
      → IsFit service enforce (key, value)
  unfolding classify_deployment_variable
  not_thrown-IsFit key value domain h =
      let (placed, own) =
        classified (lists (service_allowed_variables service) key)
          (is_platform_metadata_variable key) (lists forbidden_civitas_variables key)
          (is_cross_service_variable key service) (is_civitas_variable key) enforce key h in
      record {
        domain = domain;
        present = elim (Bool-cases (lists forbidden_civitas_variables key)) [
          | inr e ↦ e
          | inl e ↦
              let thrown =
                forbidden-thrown (classify_deployment_variable key service) enforce key
                  (forbidden-classified service key e) in
              let wrong : true ≡ false = sym thrown ∙ h in cc
        ];
        placed = placed;
        own = own_names key own;
      }

  offends-IsFit :
      (variable : String × String)
      → offends service enforce variable ≡ false
      → IsFit service enforce variable
  unfolding verdict_on
  offends-IsFit (key, value) h = elim (Bool-cases (includes value "socialstudies.cloud")) [
    | inl e ↦ let wrong : true ≡ false = sym (rw e refl) ∙ h in cc
    | inr e ↦ not_thrown-IsFit key value e (sym (rw e refl) ∙ h)
  ]

  pub none_offends-All :
      (env : Environment)
      → any (offends service enforce) env ≡ false
      → All (IsFit service enforce) env
  unfolding any
  none_offends-All [] h = tt
  none_offends-All (variable ∷ env) h =
      let (here, there) = neither (offends service enforce variable) _ h in
      (offends-IsFit variable here, none_offends-All env there)
    where
      neither : (a b : Bool) → (a || b) ≡ false → (a ≡ false) × (b ≡ false)
      neither a b e = ground (arith, e)
