-- ===== src/Taxonomy/Calls.antt =====
-- backend/taxonomy/taxonomyService.js, `bump`: the version of the catalog goes up by one, and the change is
-- told. The runtime's port is an argument, whose functions may be missing and may throw.
use civitas.Prelude.{
  ℕ, ◌+◌, Bool, true, false, not, ◌&&◌, Option, none, some, is_some, [], ◌∷◌, ◌++◌, String,
}
use civitas.Prelude.Maps.{lookup, assign}
use civitas.Prelude.Bodies.{
  Outcome, returned, threw, Body, ◌>>=◌, pure, throw, gets, modify, throw_if,
}
use civitas.Taxonomy.{
  provider_unavailable, Failure, taxonomy_error, CatalogState, EventType, ChangeClass,
  presentation_only, authorization_affecting, Event, Store, state_in,
}
use civitas.Taxonomy.Checks.{Fault}

pub record Port (W : Type 0) : Type 0 where
  pub increment_policy_version : Option (String → Option String → EventType → Body Failure W ℕ)
  pub enqueue_outbox : Option (Event → Body Failure W (Unit {0}))
  pub audit : Option (Event → Body Failure W (Unit {0}))

abbrev pub Call : Type 0 → Type 0 → Type 0
Call W A = Body Failure (Store W) A

abbrev pub is_presentation : ChangeClass → Bool
is_presentation presentation_only = true
is_presentation _ = false

abbrev pub next_state : ℕ → CatalogState → CatalogState
next_state now state = record state {
  taxonomy_catalog_version = state.taxonomy_catalog_version + 1;
  updated_at = some now;
}

abbrev pub event_of : EventType → String → ℕ → Option ℕ → ChangeClass → String → ℕ → Event
event_of type organization_id version policy change dimension_key value_id = record {
  event_type = type;
  organization_id = organization_id;
  taxonomy_catalog_version = version;
  policy_version = policy;
  change_class = change;
  dimension_key = some dimension_key;
  value_id = some value_id;
}

module _ {W : Type 0} where
  abbrev pub check : Fault → Call W (Unit {0})
  check none = pure tt
  check (some code) = throw (taxonomy_error code)

  abbrev pub moved : {A : Type 0} → Store W → Outcome Failure W A → Outcome Failure (Store W) A
  moved s (returned a w) = returned a (record s { outside = w })
  moved s (threw e w) = threw e (record s { outside = w })

  abbrev pub outside_call : {A : Type 0} → Body Failure W A → Call W A
  outside_call call s = moved s (call s.outside)

  abbrev pub incremented :
      Option (String → Option String → EventType → Body Failure W ℕ)
      → String
      → Option String
      → EventType
      → Call W (Option ℕ)
  incremented none organization_id actor type = throw (taxonomy_error provider_unavailable)
  incremented (some f) organization_id actor type = do
    version ← outside_call (f organization_id actor type)
    pure (some version)

  abbrev pub has_port : Port W → Bool
  has_port port =
      is_some port.increment_policy_version && (is_some port.enqueue_outbox && is_some port.audit)

  abbrev pub policy_version_for :
      Port W → ChangeClass → String → Option String → EventType → Call W (Option ℕ)
  policy_version_for port authorization_affecting organization_id actor type = do
    _ ← throw_if (not (has_port port)) (taxonomy_error provider_unavailable)
    incremented port.increment_policy_version organization_id actor type
  policy_version_for port _ organization_id actor type = pure none

  abbrev pub save_state : String → CatalogState → Call W (Unit {0})
  save_state organization_id state =
      modify (λ s. record s { states = assign organization_id state s.states })

  abbrev pub sent : Option (Event → Body Failure W (Unit {0})) → Event → Call W (Unit {0})
  sent none event = modify (λ s. record s { outbox = s.outbox ++ event ∷ [] })
  sent (some f) event = outside_call (f event)

  abbrev pub send : Port W → Event → Call W (Unit {0})
  send port event = sent port.enqueue_outbox event

  abbrev pub audited : Option (Event → Body Failure W (Unit {0})) → Event → Call W (Unit {0})
  audited none event = modify (λ s. record s { audits = s.audits ++ event ∷ [] })
  audited (some f) event = outside_call (f event)

  abbrev pub audit_event : Port W → Event → Call W (Unit {0})
  audit_event port event = audited port.audit event

  abbrev pub get_state : String → Call W CatalogState
  get_state organization_id = gets (λ s. state_in organization_id s.states)

  abbrev pub send_unless : Bool → Port W → Event → Call W (Unit {0})
  send_unless true port event = pure tt
  send_unless false port event = send port event

  -- `bump`.
  unfoldable pub bump :
      Port W → ℕ → String → Option String → EventType → ChangeClass → String → ℕ → Call W (Unit {0})
  unfolding lookup assign
  bump port now organization_id actor type change dimension_key value_id = do
    state ← get_state organization_id
    policy ← policy_version_for port change organization_id actor type
    _ ← save_state organization_id (next_state now state)
    _ ← send_unless (is_presentation change) port (
        event_of type organization_id (state.taxonomy_catalog_version + 1) policy change
          dimension_key value_id)
    audit_event port (
        event_of type organization_id (state.taxonomy_catalog_version + 1) policy change
          dimension_key value_id)
