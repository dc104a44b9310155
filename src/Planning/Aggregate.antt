-- ===== src/Planning/Aggregate.antt =====
-- backend/planning/domain/planning.js: the aggregate `Planning`, its
-- fields and the checks of its constructor. Its methods change the aggregate
-- and may throw half way: each returns the aggregate as it is left, with the outcome. A value that
-- is not a string fares at `required` as the empty string does, so such fields are strings; a
-- number is a natural number; what `randomUUID` and the clock give are arguments.

use civitas.Prelude.{
  ℕ, Bool, true, false, ◌&&◌, Option, List, [], ◌∷◌, ◌++◌, map, String, str_eq, length, any, leb,
  ◌==◌, if◌then◌else◌,
}
use civitas.Prelude.Text.{trim, is_empty}
use civitas.Prelude.Json.{Value}
use civitas.Planning.States.{PlanningState, is_planning_state, ErrorCode, invalid_argument}
use civitas.Planning.Numbers.{are_versions}

abbrev pub plan_types : List String
plan_types = "strategic" ∷ "tactical" ∷ "operational" ∷ "project" ∷ "curriculum" ∷ []

-- What a draft that starts from an approved version keeps of it.
pub record Source : Type 0 where
  pub source_version : ℕ
  pub source_hash : String
  pub source_actor : String
  pub source_at : ℕ
  pub source_reason : Option String

pub record Version : Type 0 where
  pub version : ℕ
  pub state : PlanningState
  pub content : Value
  pub created_by : String
  pub created_at : ℕ
  pub approved_by : Option String
  pub approved_at : Option ℕ
  pub source : Option Source

pub data Event : Type 0 where
  created : (event_id actor_id : String) (occurred_at version : ℕ) → Event
  revised : (event_id actor_id : String) (occurred_at version : ℕ) → Event
  moved :
      (event_id actor_id : String) (occurred_at : ℕ) (from to : PlanningState) (version : ℕ)
      (reason : Option String)
      → Event
  draft_started :
      (event_id actor_id : String) (occurred_at version source_version : ℕ)
      (source_hash reason : String)
      → Event

pub record Planning : Type 0 where
  pub organization_id : String
  pub id : String
  pub profile_id : String
  pub name : String
  pub plan_type : String
  pub state : PlanningState
  pub current_version : ℕ
  pub revision : ℕ
  pub versions : List Version
  pub created_at : ℕ
  pub updated_at : ℕ
  pub events : List Event

-- `domain` is a PlanningDomainError, `type_error` the TypeError of a property of `undefined`.
pub data Failure : Type 0 where
  domain : ErrorCode → Failure
  type_error : Failure

pub data Outcome {ℓ} (A : Type ℓ) : Type ℓ where
  returned : A → Outcome A
  threw : Failure → Outcome A

-- A method's body: it reads and changes the aggregate, and what it changed stays when it throws.
abbrev pub Method : Type 0 → Type 0
Method A = Planning → Planning × Outcome A

infixl 5 ◌>>=◌ ◌>>◌
abbrev pub ◌>>=◌ : {A B : Type 0} → Method A → (A → Method B) → Method B
◌>>=◌ m f p = let (q, out) = m p in elim out [ returned a ↦ f a q | threw e ↦ (q, threw e) ]

abbrev pub ◌>>◌ : {B : Type 0} → Method (Unit {0}) → Method B → Method B
m >> k = m >>= λ _. k

abbrev pub done : Method (Unit {0})
done p = (p, returned tt)

abbrev pub throw : {A : Type 0} → Failure → Method A
throw e p = (p, threw e)

abbrev pub modify : (Planning → Planning) → Method (Unit {0})
modify f p = (f p, returned tt)

-- `if (!test) throw new PlanningDomainError(code)`
abbrev pub guard : Bool → ErrorCode → Method (Unit {0})
guard true code p = (p, returned tt)
guard false code p = (p, threw (domain code))

abbrev pub lift : {A : Type 0} → Outcome A → Method A
lift out p = (p, out)

-- The module's `required`, on a string.
unfoldable pub required_value : String → Outcome String
required_value value =
    if is_empty (trim value) then threw (domain invalid_argument) else returned (trim value)

abbrev pub required : String → Method String
required value = lift (required_value value)

abbrev pub numbers : List Version → List ℕ
numbers versions = map (λ v. v.version) versions

abbrev pub has_number : ℕ → Version → Bool
has_number n v = v.version == n

-- The first test of `#assertInvariant`; `Number.isInteger` holds of every natural number.
unfoldable pub has_shape : Planning → Bool
has_shape p =
    is_planning_state p.state
    && any (str_eq p.plan_type) plan_types
    && leb 1 p.current_version
    && leb 1 p.revision
    && leb 1 (length p.versions)
    && any (has_number p.current_version) p.versions

unfoldable pub assert_invariant : Method (Unit {0})
assert_invariant p =
    (do
      guard (has_shape p) invalid_argument
      guard (are_versions p.current_version (numbers p.versions)) invalid_argument)
      p

abbrev pub record_event : Event → Planning → Planning
record_event e p = record p { events = p.events ++ e ∷ [] }
