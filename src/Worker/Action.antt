-- ===== src/Worker/Action.antt =====
-- backend/worker/actionDefinition.js, and the queues of backend/contracts/foundation.js. The
-- functions of a definition are the caller's: `W` is whatever state of the outside (the connectors,
-- the database) they read and change.
use civitas.Prelude.{
  ℕ, Bool, true, false, not, Option, some, List, [], ◌∷◌, String, str_eq, any, is_some,
  if◌then◌else◌,
}
use civitas.Prelude.Text.{is_empty}
use civitas.Prelude.Json.{Value}

-- What the engine reads of a thrown error.
pub record ErrorValue : Type 0 where
  pub name : String
  pub message : String
  pub code : Option String
  pub retryable : Bool

pub data Result {ℓ} (A : Type ℓ) : Type ℓ where
  value : A → Result A
  raised : ErrorValue → Result A

pub record RetryPolicy : Type 0 where
  pub max_attempts : Option ℕ
  pub backoff_ms : Option ℕ
  pub retryable_errors : List String

pub record Precondition : Type 0 where
  pub ok : Bool
  pub reason : Option String

-- An action definition as it is handed over: a field may be missing.
pub record RawAction (W : Type 0) : Type 0 where
  pub action_type : String
  pub queue : String
  pub parse : Option (Value → Result Value)
  pub precondition : Option (Value → W → Result Precondition × W)
  pub run : Option (Value → W → Result Value × W)
  pub retry_policy : Option RetryPolicy
  pub idempotency_key : Option (Value → Result String)

-- A definition that has passed the validation.
pub record Action (W : Type 0) : Type 0 where
  pub action_type : String
  pub queue : String
  pub parse : Value → Result Value
  pub precondition : Value → W → Result Precondition × W
  pub run : Value → W → Result Value × W
  pub retry_policy : RetryPolicy
  pub idempotency_key : Value → Result String

pub data DefinitionError : Type 0 where
  missing : List String → DefinitionError
  invalid_queue : String → DefinitionError

pub data Validated (W : Type 0) : Type 0 where
  valid : Action W → Validated W
  invalid : DefinitionError → Validated W

abbrev pub action_queues : List String
action_queues = "priority_commands" ∷ "background_events" ∷ []

-- `if (!present) missing.push(name)`
abbrev lacks : Bool → String → List String → List String
lacks present name names = if present then names else name ∷ names

abbrev has_none : List String → Bool
has_none [] = true
has_none (_ ∷ _) = false

module _ {W : Type 0} where
  -- The names in the order in which the source pushes them.
  unfoldable pub missing_fields : RawAction W → List String
  missing_fields raw = lacks (not (is_empty raw.action_type)) "action_type" (
      lacks (not (is_empty raw.queue)) "queue" (
        lacks (is_some raw.parse) "inputSchema.parse" (
          lacks (is_some raw.precondition) "precondition" (
            lacks (is_some raw.run) "run" (
              lacks (is_some raw.retry_policy) "retryPolicy"
                (lacks (is_some raw.idempotency_key) "idempotencyKey" []))))))

  -- The definition, if each field is there.
  abbrev pub assemble :
      RawAction W
      → Option (Value → Result Value)
      → Option (Value → W → Result Precondition × W)
      → Option (Value → W → Result Value × W)
      → Option RetryPolicy
      → Option (Value → Result String)
      → Validated W
  assemble raw (some parse) (some precondition) (some run) (some policy) (some key) =
      valid (record {
        action_type = raw.action_type;
        queue = raw.queue;
        parse = parse;
        precondition = precondition;
        run = run;
        retry_policy = policy;
        idempotency_key = key;
      })
  assemble raw _ _ _ _ _ = invalid (missing (missing_fields raw))

  unfoldable pub validate_action_definition : RawAction W → Validated W
  unfolding missing_fields
  validate_action_definition raw =
      if has_none (missing_fields raw)
      then if any (str_eq raw.queue) action_queues
        then assemble raw raw.parse raw.precondition raw.run raw.retry_policy raw.idempotency_key
        else invalid (invalid_queue raw.queue)
      else invalid (missing (missing_fields raw))
