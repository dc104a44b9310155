-- ===== src/Planning/Plan.antt =====
-- The methods of the aggregate `Planning` (backend/planning/domain/planning.js).
pub mod Moves
pub mod Drafts
pub mod Commands
pub mod History
pub mod Persisted
mod Tests
use civitas.Prelude.{
  ℕ, ◌+◌, Bool, true, false, not, ◌&&◌, Option, none, some, List, [], ◌∷◌, ◌++◌, String, or_else,
  any, find, update_first, if◌then◌else◌,
}
use civitas.Prelude.Text.{trim, is_empty, is_sha256_hex}
use civitas.Prelude.Json.{Value, is_plain_object, is_null}
use civitas.Planning.States.{
  PlanningState, draft, changes_requested, approved, can_transition, invalid_argument,
  invalid_transition, approved_version_immutable,
}
use civitas.Planning.Aggregate.{
  Source, Version, Event, created, moved, revised, draft_started, Planning, domain, type_error,
  Outcome, returned, threw, Method, ◌>>=◌, ◌>>◌, done, modify, guard, required_value, required,
  has_number, assert_invariant, record_event,
}

-- The record that the constructor reads and that `toSnapshot` writes.
pub record Snapshot : Type 0 where
  pub organization_id : String
  pub id : String
  pub profile_id : String
  pub name : String
  pub plan_type : String
  pub state : PlanningState
  pub current_version : ℕ
  pub revision : ℕ
  pub versions : List Version
  pub created_at : ℕ
  pub updated_at : ℕ

abbrev and_then : {A B : Type 0} → Outcome A → (A → Outcome B) → Outcome B
and_then (returned a) f = f a
and_then (threw e) f = threw e

-- The value of a method that ended well is the aggregate.
abbrev pub result : Planning × Outcome (Unit {0}) → Outcome Planning
result (p, returned _) = returned p
result (p, threw e) = threw e

-- The constructor, which is `Planning.restore` too.
unfoldable pub restore : Snapshot → Outcome Planning
restore s = and_then (required_value s.organization_id) λ organization_id.
    and_then (required_value s.id) λ id. and_then (required_value s.profile_id) λ profile_id.
      and_then (required_value s.name) λ name. and_then (required_value s.plan_type) λ plan_type.
        result (
          assert_invariant (record {
            organization_id = organization_id;
            id = id;
            profile_id = profile_id;
            name = name;
            plan_type = plan_type;
            state = s.state;
            current_version = s.current_version;
            revision = s.revision;
            versions = s.versions;
            created_at = s.created_at;
            updated_at = s.updated_at;
            events = [];
          }))

unfoldable pub to_snapshot : Planning → Snapshot
to_snapshot p = record {
  organization_id = p.organization_id;
  id = p.id;
  profile_id = p.profile_id;
  name = p.name;
  plan_type = p.plan_type;
  state = p.state;
  current_version = p.current_version;
  revision = p.revision;
  versions = p.versions;
  created_at = p.created_at;
  updated_at = p.updated_at;
}

unfoldable pub pull_events : Planning → Planning × List Event
pull_events p = (record p { events = [] }, p.events)

abbrev first_version : Value → String → ℕ → Version
first_version content actor now = record {
  version = 1;
  state = draft;
  content = content;
  created_by = actor;
  created_at = now;
  approved_by = none;
  approved_at = none;
  source = none;
}

-- What `Planning.create` hands to the constructor.
unfoldable pub new_snapshot :
    (organization_id id profile_id name plan_type : String) → Value → String → ℕ → Snapshot
new_snapshot organization_id id profile_id name plan_type content actor now = record {
  organization_id = organization_id;
  id = id;
  profile_id = profile_id;
  name = name;
  plan_type = plan_type;
  state = draft;
  current_version = 1;
  revision = 1;
  versions = first_version content actor now ∷ [];
  created_at = now;
  updated_at = now;
}

-- `Planning.create`.
unfoldable pub create :
    (organization_id id profile_id name plan_type : String)
    → Value
    → String
    → ℕ
    → String
    → Outcome Planning
create organization_id id profile_id name plan_type content actor now event_id =
    and_then (required_value actor) λ _.
      if is_plain_object content
      then and_then
          (restore (new_snapshot organization_id id profile_id name plan_type content actor now))
          (λ p. returned (record_event (created event_id actor p.updated_at 1) p))
      else threw (domain invalid_argument)

abbrev is_approved : PlanningState → Bool
is_approved approved = true
is_approved _ = false

abbrev is_changes_requested : PlanningState → Bool
is_changes_requested changes_requested = true
is_changes_requested _ = false

abbrev is_revisable : PlanningState → Bool
is_revisable draft = true
is_revisable changes_requested = true
is_revisable _ = false

abbrev is_blank : Option String → Bool
is_blank reason = is_empty (trim (or_else reason ""))

-- The current version, as `find` gives it, is marked as approved.
abbrev pub approve_version : String → ℕ → Version → Version
approve_version actor now v = record v {
  state = approved;
  approved_by = some actor;
  approved_at = some now;
}

-- `version.state = APPROVED` on the version that `find` gives, a TypeError where it gives none.
unfoldable pub mark_approved : String → ℕ → Method (Unit {0})
mark_approved actor now p =
    if any (has_number p.current_version) p.versions
    then done (record p {
      versions = update_first (has_number p.current_version) (approve_version actor now) p.versions;
    })
    else (p, threw type_error)

-- The private method `#transition`.
unfoldable pub transition_step :
    PlanningState → String → ℕ → Option String → String → Method (Unit {0})
transition_step to actor now reason event_id p =
    (do
      guard (can_transition p.state to) invalid_transition
      guard (not (is_changes_requested to && is_blank reason)) invalid_argument
      modify (λ q. record q { state = to; revision = q.revision + 1; updated_at = now })
      if is_approved to then mark_approved actor now else done
      modify (λ q.
          record_event (moved event_id actor q.updated_at p.state to q.current_version reason) q)
      assert_invariant)
      p

unfoldable pub transition : PlanningState → String → Option String → ℕ → String → Method (Unit {0})
unfolding transition_step
transition to actor reason now event_id = do
  _ ← required actor
  transition_step to actor now reason event_id

-- `versions.push` of a new version, its number and the dates.
abbrev pub push_version : Value → String → ℕ → Option Source → Planning → Planning
push_version content actor now source p = record p {
  current_version = p.current_version + 1;
  revision = p.revision + 1;
  updated_at = now;
  versions =
      p.versions
      ++ record {
        version = p.current_version + 1;
        state = draft;
        content = content;
        created_by = actor;
        created_at = now;
        approved_by = none;
        approved_at = none;
        source = source;
      }
        ∷ [];
}

-- `name` is `none` where the caller leaves it out. The two identifiers are those of the events for
-- the transition, if one is made, and for the revision.
unfoldable pub revise : Value → Option String → String → ℕ → String → String → Method (Unit {0})
unfolding transition_step
revise content name actor now moved_id revised_id p =
    (do
      _ ← required actor
      guard (not (is_approved p.state)) approved_version_immutable
      guard (is_revisable p.state) invalid_transition
      guard (is_plain_object content) invalid_argument
      new_name ← required (or_else name p.name)
      modify (λ q. record q { name = new_name })
      if is_changes_requested p.state then transition_step draft actor now none moved_id else done
      modify (push_version content actor now none)
      modify (λ q. record_event (revised revised_id actor q.updated_at q.current_version) q)
      assert_invariant)
      p

-- `content ?? source.content`; reading a property of a missing version is a TypeError.
abbrev pub draft_content : Value → Option Version → Option Value
draft_content content none = if is_null content then none else some content
draft_content content (some v) = some (if is_null content then v.content else content)

abbrev pub push_draft : Option Value → String → ℕ → Source → Method (Unit {0})
push_draft none actor now source p = (
  record p { current_version = p.current_version + 1; revision = p.revision + 1; updated_at = now },
  threw type_error,
)
push_draft (some content) actor now source p =
    (push_version content actor now (some source) p, returned tt)

unfoldable pub draft_from_approved :
    Value → String → String → String → ℕ → String → String → Method (Unit {0})
unfolding transition_step
draft_from_approved content source_hash actor reason now moved_id started_id p =
    (do
      _ ← required actor
      _ ← required source_hash
      _ ← required reason
      guard (is_sha256_hex source_hash) invalid_argument
      guard (is_approved p.state) invalid_transition
      transition_step draft actor now (some reason) moved_id
      push_draft (draft_content content (find (has_number p.current_version) p.versions)) actor now
          (record {
            source_version = p.current_version;
            source_hash = source_hash;
            source_actor = actor;
            source_at = now;
            source_reason = some reason;
          })
      modify (λ q.
          record_event
            (draft_started started_id actor q.updated_at q.current_version p.current_version
              source_hash reason)
            q)
      assert_invariant)
      p
