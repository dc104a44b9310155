-- ===== src/Worker/Engine/Validation.antt =====
-- What backend/worker/actionDefinition.js accepts.
use civitas.Prelude.{
  ◌≡◌, ◌↔◌, refl, true, [], any, str_eq, some, arith, String, is_some, ◌&&◌, Option,
}
use civitas.Prelude.Json.{Value}
use civitas.Worker.Action.{
  assemble, Precondition, RetryPolicy, RawAction, Action, Result, valid, missing_fields,
  action_queues, validate_action_definition,
}

module _ {W : Type 0} where
  assemble-valid :
      (raw : RawAction W) (parse : Option (Value → Result Value))
      (precondition : Option (Value → W → Result Precondition × W))
      (run : Option (Value → W → Result Value × W)) (policy : Option RetryPolicy)
      (key : Option (Value → Result String))
      → (is_some parse && is_some precondition && is_some run && is_some policy && is_some key)
        ≡ true
      → (a : Action W) × (assemble raw parse precondition run policy key ≡ valid a)
  assemble-valid raw (some parse) (some precondition) (some run) (some policy) (some key) h =
      (_, refl)
  assemble-valid raw _ _ _ _ _ h = cc

  all_present :
      (raw : RawAction W)
      → missing_fields raw ≡ []
      → (is_some raw.parse
          && is_some raw.precondition
          && is_some raw.run
          && is_some raw.retry_policy
          && is_some raw.idempotency_key)
        ≡ true
  unfolding missing_fields
  all_present raw h = ground arith

  valid-accepted :
      (raw : RawAction W) (a : Action W)
      → validate_action_definition raw ≡ valid a
      → (missing_fields raw ≡ []) × (any (str_eq raw.queue) action_queues ≡ true)
  unfolding validate_action_definition
  valid-accepted raw a h = ground arith

  accepted-valid :
      (raw : RawAction W)
      → missing_fields raw ≡ []
      → any (str_eq raw.queue) action_queues ≡ true
      → (a : Action W) × (validate_action_definition raw ≡ valid a)
  unfolding validate_action_definition
  accepted-valid raw none_missing allowed =
      let (a, e) =
        assemble-valid raw raw.parse raw.precondition raw.run raw.retry_policy raw.idempotency_key
          (all_present raw none_missing) in
      (a, rw (none_missing, allowed) e)

  -- A definition is accepted exactly if none of its fields is missing and its queue is one of the
  -- two of the contract.
  pub validate_action_definition_iff :
      (raw : RawAction W)
      → ((a : Action W) × (validate_action_definition raw ≡ valid a))
        ↔ ((missing_fields raw ≡ []) × (any (str_eq raw.queue) action_queues ≡ true))
  validate_action_definition_iff raw =
      (λ found. valid-accepted raw found.0 found.1, λ h. accepted-valid raw h.0 h.1)
