-- ===== src/Taxonomy/Versions.antt =====
-- backend/taxonomy: the version of an organization's catalog over its requests.
use civitas.Prelude.{
  ℕ, ◌+◌, ◌≤◌, ◌≡◌, refl, sym, ◌∙◌, Option, List, [], ◌∷◌, String, length, inl, inr, arith,
}
use civitas.Prelude.Json.{Value}
use civitas.Prelude.Bodies.{state_of, Left-state_of}
use civitas.Taxonomy.{Definition, Store}
use civitas.Taxonomy.Patches.{Patch, ImpactStatus}
use civitas.Taxonomy.Calls.{Port, Call}
use civitas.Taxonomy.Service.{NewValue, create_value, update_value, deprecate_value, archive_value}
use civitas.Taxonomy.Publication.{publish}
use civitas.Taxonomy.Sure.{IsReliable, version_of}
use civitas.Taxonomy.Ends.{Fine, Ends}
use civitas.Taxonomy.Steps.{
  Ends-create_value, Ends-update_value, Ends-deprecate_value, Ends-archive_value, Ends-publish,
}

-- What a request asks of the service, for one organization.
pub data Request : Type 0 where
  create_request : NewValue → Option ℕ → Request
  update_request : String → ℕ → Patch → Request
  deprecate_request : String → ℕ → Option ℕ → Request
  archive_request : Option (List ImpactStatus) → String → ℕ → Request
  publish_request : Option ℕ → Request

module _ {W : Type 0} (port : Port W) (organization_id : String) (actor : Option String) where
  module _ (known : List Definition) (blob_of : Value → String) where
    -- What a request leaves of the repository, however its operation ends.
    abbrev pub run : ℕ → Request → Store W → Store W
    run now (create_request new expected) s =
        state_of (create_value port now known blob_of organization_id new actor expected s)
    run now (update_request key id patch) s =
        state_of (update_value port now blob_of organization_id key id patch actor s)
    run now (deprecate_request key id until) s =
        state_of (deprecate_value port now organization_id key id actor until s)
    run now (archive_request impact key id) s =
        state_of (archive_value port now impact organization_id key id actor s)
    run now (publish_request expected) s =
        state_of (publish port now organization_id actor expected s)

    unfoldable pub run_all : List (ℕ × Request) → Store W → Store W
    unfolding create_value update_value deprecate_value archive_value publish
    run_all [] s = s
    run_all ((now, r) ∷ rs) s = run_all rs (run now r s)

    module _ (reliable : IsReliable port) where
      Fine-ended :
          {A : Type 0} (s : Store W) (m : Call W A)
          → Ends organization_id s m
          → Fine organization_id s (state_of (m s))
      unfolding Ends
      Fine-ended s m h = Left-state_of (Fine organization_id s) (m s) (h s (refl, refl))

      Fine-run : (now : ℕ) (r : Request) (s : Store W) → Fine organization_id s (run now r s)
      Fine-run now (create_request new expected) s =
          Fine-ended s _
            (Ends-create_value port organization_id actor reliable now s known blob_of new expected)
      Fine-run now (update_request key id patch) s =
          Fine-ended s _
            (Ends-update_value port organization_id actor reliable now s blob_of key id patch)
      Fine-run now (deprecate_request key id until) s =
          Fine-ended s _
            (Ends-deprecate_value port organization_id actor reliable now s key id until)
      Fine-run now (archive_request impact key id) s =
          Fine-ended s _
            (Ends-archive_value port organization_id actor reliable now s impact key id)
      Fine-run now (publish_request expected) s =
          Fine-ended s _ (Ends-publish port organization_id actor reliable now s expected)

      -- Over requests for one organization, with a port whose functions are there and return, the version
      -- of the organization's catalog never goes down, goes up by at most one for each request, and is
      -- raised whenever a value is changed: where it is the same after, all values are the same.
      pub run_all-versions :
          (requests : List (ℕ × Request)) (s : Store W)
          → (version_of organization_id s ≤ version_of organization_id (run_all requests s))
            × (version_of organization_id (run_all requests s)
                ≤ version_of organization_id s + length requests)
            × (version_of organization_id (run_all requests s) ≡ version_of organization_id s
                → (run_all requests s).values ≡ s.values)
      unfolding run_all
      run_all-versions [] s = (omega arith, omega arith, λ _. refl)
      run_all-versions ((now, r) ∷ rs) s =
          let t : Store W = run now r s in
          let (low, high, same) = run_all-versions rs t in
          elim (Fine-run now r s) [
            | inl (values, version) ↦
                (omega arith, omega arith, λ e. same (e ∙ sym version) ∙ values)
            | inr version ↦
                (omega arith, omega arith, λ e. let wrong : ⊥ = omega arith in elim wrong [ ])
          ]
