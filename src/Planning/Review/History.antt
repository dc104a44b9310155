-- ===== src/Planning/Review/History.antt =====
-- Sequences of commands of reviewWorkflow.js, with the events that they leave.
use civitas.Prelude.{
  ℕ, ◌+◌, ◌≡◌, refl, sym, ap, ◌∙◌, Bool, true, false, not, ◌&&◌, Option, none, some, List, [], ◌∷◌,
  ◌++◌, String, str_eq, eq_refl, any, any-append, length, length-append, is_some, or_else,
  if◌then◌else◌, arith,
}
use mathlib.Core.Path.{subst}
use civitas.Planning.States.{approved, state_eq}
use civitas.Planning.Review.{
  Review, or_text, Input, ReviewDecision, ReviewEvent, EventType, assigned, approver_assigned,
  submitted, review_approved, review_rejected, draft_started, another, Evolved, evolved,
  initial_state, has_decided, evolve, assign, submit, approve, reject, draft_from_approved_review,
  apply_type, apply_review_event,
}
use civitas.Planning.Review.Commands.{
  is_own, or_else-own, next_review, applied, accepted-approve, assign_event, decide_event,
  draft_event, assign-event, submit-event, draft_from_approved_review-event, reject-event,
}

pub data Command : Type 0 where
  assigning submitting starting_draft : Input → Command
  approving rejecting : ℕ → Input → Command

abbrev pub handle : Command → Review → Evolved
handle (assigning d) s = assign s d
handle (submitting d) s = submit s d
handle (starting_draft d) s = draft_from_approved_review s d
handle (approving now d) s = approve now s d
handle (rejecting now d) s = reject now s d

abbrev pub input_of : Command → Input
input_of (assigning d) = d
input_of (submitting d) = d
input_of (starting_draft d) = d
input_of (approving now d) = d
input_of (rejecting now d) = d

-- Whether an input leaves the type and the version of its event alone, and carries the plan's own
-- identity or none.
abbrev pub is_plain : String → String → Command → Bool
is_plain organization_id plan_id c =
    let d = input_of c in
    not (is_some d.event_type)
    && not (is_some d.aggregate_version)
    && is_own d.organization_id organization_id
    && is_own d.plan_id plan_id

-- The events and the review that commands leave which `allowed` accepts.
pub data Reached (allowed : Command → Bool) (organization_id plan_id : String)
    : List ReviewEvent → Review → Type 0 where
  not_started : Reached allowed organization_id plan_id [] (initial_state organization_id plan_id)
  one_more :
      {events : List ReviewEvent} {s after : Review} {e : ReviewEvent} (c : Command)
      → Reached allowed organization_id plan_id events s
      → allowed c ≡ true
      → handle c s ≡ evolved e
      → apply_review_event s e ≡ some after
      → Reached allowed organization_id plan_id (events ++ e ∷ []) after

-- No assignment has made two of the decisions.
pub data OnePer : List ReviewDecision → Type 0 where
  none_made : OnePer []
  made :
      {decisions : List ReviewDecision} (d : ReviewDecision)
      → OnePer decisions
      → any (has_decided d.assignment_id) decisions ≡ false
      → OnePer (decisions ++ d ∷ [])

-- Whether a decision approves a version of the plan.
abbrev pub approves : String → ReviewDecision → Bool
approves version d = str_eq d.decision "approved" && str_eq d.plan_version version

abbrev pub is_backed : Option String → List ReviewDecision → Bool
is_backed none decisions = true
is_backed (some version) decisions = any (approves version) decisions

pub record IsOrderly (s : Review) : Type 0 where
  pub one_per_assignment : OnePer s.decisions
  pub backed : is_backed s.approved_version s.decisions ≡ true
  pub has_version : state_eq s.status approved ≡ true → is_some s.approved_version ≡ true

-- What an accepted command says of its event.
Fits : Review → EventType → Input → Type 0
Fits s review_approved d =
    (any (has_decided d.assignment_id) s.decisions ≡ false) × (str_eq d.decision "approved" ≡ true)
Fits s review_rejected d = (any (has_decided d.assignment_id) s.decisions ≡ false) × (true ≡ true)
Fits s (another t) d = true ≡ false
Fits s t d = true ≡ true

backed-more :
    (version : Option String) (decisions : List ReviewDecision) (d : ReviewDecision)
    → is_backed version decisions ≡ true
    → is_backed version (decisions ++ d ∷ []) ≡ true
unfolding any
backed-more none decisions d h = refl
backed-more (some v) decisions d h = any-append (approves v) decisions (d ∷ []) ∙ rw h refl

apply_type-IsOrderly :
    (s : Review) (v : ℕ) (t : EventType) (d : Input)
    → IsOrderly s
    → Fits s t d
    → IsOrderly (apply_type t d (record s { version = v }))
unfolding Fits any
apply_type-IsOrderly s v assigned d o fits = record {
  one_per_assignment = o.one_per_assignment;
  backed = o.backed;
  has_version = o.has_version;
}
apply_type-IsOrderly s v approver_assigned d o fits = record {
  one_per_assignment = o.one_per_assignment;
  backed = o.backed;
  has_version = o.has_version;
}
apply_type-IsOrderly s v submitted d o fits = record {
  one_per_assignment = o.one_per_assignment;
  backed = o.backed;
  has_version = λ h. ground (arith, h);
}
apply_type-IsOrderly s v draft_started d o fits = record {
  one_per_assignment = o.one_per_assignment;
  backed = o.backed;
  has_version = λ h. ground (arith, h);
}
apply_type-IsOrderly s v review_rejected d o fits = record {
  one_per_assignment = made _ o.one_per_assignment fits.0;
  backed = backed-more s.approved_version s.decisions _ o.backed;
  has_version = λ h. ground (arith, h);
}
apply_type-IsOrderly s v review_approved d o fits = record {
  one_per_assignment = made _ o.one_per_assignment fits.0;
  backed =
      any-append (approves d.plan_version) s.decisions (_ ∷ [])
      ∙ ground (arith, fits.1, eq_refl d.plan_version);
  has_version = λ h. refl;
}
apply_type-IsOrderly s v (another t) d o fits = ground (arith, fits)

-- The event is the review's next one, and fits.
FollowsUp : Review → ReviewEvent → Type 0
FollowsUp s e =
    (e.organization_id ≡ s.organization_id)
    × (e.plan_id ≡ s.plan_id)
    × (e.aggregate_version ≡ s.version + 1)
    × Fits s e.event_type e.details

evolve-FollowsUp :
    (s : Review) (t : EventType) (d : Input)
    → is_plain s.organization_id s.plan_id (assigning d) ≡ true
    → Fits s t d
    → FollowsUp s (evolve s t d)
unfolding evolve FollowsUp
evolve-FollowsUp s t d plain fits =
    let alone : (d.event_type ≡ none)
        × (d.aggregate_version ≡ none)
        × (is_own d.organization_id s.organization_id ≡ true)
        × (is_own d.plan_id s.plan_id ≡ true) =
      ground (arith, plain) in
    (
      or_else-own d.organization_id s.organization_id alone.2,
      or_else-own d.plan_id s.plan_id alone.3,
      ap (λ o. or_else o (s.version + 1)) alone.1,
      subst (λ u. Fits s u d) (sym (ap (λ o. or_else o t) alone.0)) fits,
    )

assigned-FollowsUp :
    (b : Bool) (s : Review) (d : Input)
    → is_plain s.organization_id s.plan_id (assigning d) ≡ true
    → FollowsUp s (evolve s (if b then approver_assigned else assigned) d)
unfolding Fits
assigned-FollowsUp true s d plain = evolve-FollowsUp s approver_assigned d plain refl
assigned-FollowsUp false s d plain = evolve-FollowsUp s assigned d plain refl

handle-FollowsUp :
    (c : Command) (s : Review) (e : ReviewEvent)
    → is_plain s.organization_id s.plan_id c ≡ true
    → handle c s ≡ evolved e
    → FollowsUp s e
unfolding Fits assign_event decide_event draft_event
handle-FollowsUp (assigning d) s e plain h =
    subst (FollowsUp s) (sym (assign-event s d e h))
      (assigned-FollowsUp (str_eq (or_text d.assignment_type "reviewer") "approver") s _ plain)
handle-FollowsUp (submitting d) s e plain h =
    subst (FollowsUp s) (sym (submit-event s d e h)) (evolve-FollowsUp s submitted d plain refl)
handle-FollowsUp (starting_draft d) s e plain h =
    subst (FollowsUp s) (sym (draft_from_approved_review-event s d e h))
      (evolve-FollowsUp s draft_started _ plain refl)
handle-FollowsUp (approving now d) s e plain h =
    let (author, reviewing, may, event) = accepted-approve now s d e h in
    subst (FollowsUp s) (sym event)
      (evolve-FollowsUp s review_approved _ plain (may.undecided, refl))
handle-FollowsUp (rejecting now d) s e plain h =
    let (undecided, event) = reject-event now s d e h in
    subst (FollowsUp s) (sym event) (evolve-FollowsUp s review_rejected _ plain (undecided, refl))

initial-IsOrderly :
    (organization_id plan_id : String) → IsOrderly (initial_state organization_id plan_id)
unfolding initial_state
initial-IsOrderly organization_id plan_id = record {
  one_per_assignment = none_made;
  backed = refl;
  has_version = λ h. ground (arith, h);
}

some_review : (s t : Review) → some s ≡ some t → s ≡ t
some_review s t h = ap (λ o. or_else o s) h

apply_type-version :
    (t : EventType) (d : Input) (s : Review) → (apply_type t d s).version ≡ s.version
apply_type-version assigned d s = refl
apply_type-version approver_assigned d s = refl
apply_type-version submitted d s = refl
apply_type-version review_approved d s = refl
apply_type-version review_rejected d s = refl
apply_type-version draft_started d s = refl
apply_type-version (another t) d s = refl

apply_type-identity :
    (t : EventType) (d : Input) (s : Review)
    → ((apply_type t d s).organization_id ≡ s.organization_id)
      × ((apply_type t d s).plan_id ≡ s.plan_id)
apply_type-identity assigned d s = (refl, refl)
apply_type-identity approver_assigned d s = (refl, refl)
apply_type-identity submitted d s = (refl, refl)
apply_type-identity review_approved d s = (refl, refl)
apply_type-identity review_rejected d s = (refl, refl)
apply_type-identity draft_started d s = (refl, refl)
apply_type-identity (another t) d s = (refl, refl)

-- A command whose input leaves the event's type and version alone, and carries the review's own
-- identity or none, accepted on an orderly review, gives an event that applies, and leaves an orderly
-- review with the next version and the same identity.
pub handle-IsOrderly :
    (c : Command) (s : Review) (e : ReviewEvent)
    → is_plain s.organization_id s.plan_id c ≡ true
    → IsOrderly s
    → handle c s ≡ evolved e
    → (after : Review) × (apply_review_event s e ≡ some after)
      × IsOrderly after
      × (after.version ≡ s.version + 1)
      × (after.organization_id ≡ s.organization_id)
      × (after.plan_id ≡ s.plan_id)
unfolding FollowsUp next_review
handle-IsOrderly c s e plain orderly h =
    let (org, plan, version, fits) = handle-FollowsUp c s e plain h in
    (
      next_review s e,
      applied s e org plan,
      apply_type-IsOrderly s e.aggregate_version e.event_type e.details orderly fits,
      apply_type-version e.event_type e.details (record s { version = e.aggregate_version })
          ∙ version,
      (apply_type-identity e.event_type e.details (record s { version = e.aggregate_version })).0,
      (apply_type-identity e.event_type e.details (record s { version = e.aggregate_version })).1,
    )

Reached-own :
    {organization_id plan_id : String} {events : List ReviewEvent} {s : Review}
    → Reached (is_plain organization_id plan_id) organization_id plan_id events s
    → IsOrderly s
      × (s.version ≡ length events)
      × (s.organization_id ≡ organization_id)
      × (s.plan_id ≡ plan_id)
unfolding initial_state
Reached-own {organization_id = o} {plan_id = p} not_started =
    (initial-IsOrderly o p, refl, refl, refl)
Reached-own {organization_id = o} {plan_id = p} {s = t}
      (one_more {events = events} {s = s} {e = e} c before plain accepted after) =
    let (orderly, counted, org, plan) = Reached-own before in
    let own : is_plain s.organization_id s.plan_id c ≡ true = rw (org, plan) plain in
    let (next, applies, kept, more, next_org, next_plan) =
      handle-IsOrderly c s e own orderly accepted in
    let same : next ≡ t = some_review next t (sym applies ∙ after) in
    (
      subst IsOrderly same kept,
      sym (ap (λ r. r.version) same)
          ∙ more
          ∙ ap (λ n. n + 1) counted
          ∙ sym (length-append events (e ∷ [])),
      sym (ap (λ r. r.organization_id) same) ∙ next_org ∙ org,
      sym (ap (λ r. r.plan_id) same) ∙ next_plan ∙ plan,
    )

-- Whatever commands are given whose inputs leave the event's type and version alone, and carry the
-- plan's own identity or none, no assignment makes two decisions, the approved version is backed by a
-- decision that approves it, an approved plan has one, and the version is the number of events.
pub Reached-IsOrderly :
    {organization_id plan_id : String} {events : List ReviewEvent} {s : Review}
    → Reached (is_plain organization_id plan_id) organization_id plan_id events s
    → IsOrderly s × (s.version ≡ length events)
Reached-IsOrderly reached = let (orderly, counted, _, _) = Reached-own reached in (orderly, counted)
