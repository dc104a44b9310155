-- ===== src/Deprovision.antt =====
-- backend/identity-federation/massDeprovisionGuard.js: the guard that holds back a plan which removes
-- too much. Counts, totals and moments are whole numbers, limits and shares are doubles, and a limit
-- that is missing or invalid is `none`; a text that is missing is empty.
use civitas.Prelude.{
  is_nil, ℕ, ◌+◌, ◌-◌, ◌*◌, ◌≡◌, refl, Bool, true, false, not, ◌&&◌, ◌||◌, Option, none, some, List,
  [], ◌∷◌, ◌++◌, map, String, str_eq, any, select, ltb, leb, ◌==◌, or_else, length, if◌then◌else◌,
}
use civitas.Prelude.Text.{is_empty}
use civitas.Prelude.Doubles.{Double, of_ℕ, nearest_double, divided, times, exceeds}
pub mod Limits
pub mod Tests

pub data OperationType : Type 0 where
  user_delete group_delete user_active_false membership_remove : OperationType
  membership_replace reconciliation_apply : OperationType
  another : String → OperationType

pub record Item : Type 0 where
  pub operation_type : Option OperationType
  pub user_id : String
  pub group_id : String
  pub subject_id : String
  pub id : String
  pub membership_id : String
  pub reactivated_at : Option ℕ

pub record DeprovisionPlan : Type 0 where
  pub user_deletes : List Item
  pub group_deletes : List Item
  pub active_false_users : List Item
  pub membership_removes : List Item
  pub removes : List Item
  pub membership_replace_removes : List Item
  pub active_users_total : ℕ
  pub memberships_total : ℕ

pub record RawConfig : Type 0 where
  pub max_absolute_removals : Option Double
  pub max_active_users_affected_percent : Option Double
  pub max_memberships_affected_percent : Option Double
  pub manual_approval_threshold : Option Double
  pub reactivation_cooldown_minutes : Option Double

pub record GuardConfig : Type 0 where
  pub max_absolute_removals : Double
  pub max_active_users_affected_percent : Double
  pub max_memberships_affected_percent : Double
  pub manual_approval_threshold : Double
  pub reactivation_cooldown_minutes : Double

abbrev pub normalize_guard_config : RawConfig → GuardConfig
normalize_guard_config c = record {
  max_absolute_removals = or_else c.max_absolute_removals (of_ℕ 25);
  max_active_users_affected_percent = or_else c.max_active_users_affected_percent (of_ℕ 10);
  max_memberships_affected_percent = or_else c.max_memberships_affected_percent (of_ℕ 10);
  manual_approval_threshold = or_else c.manual_approval_threshold (of_ℕ 10);
  reactivation_cooldown_minutes = or_else c.reactivation_cooldown_minutes (of_ℕ 60);
}

-- A destructive operation: the item and its type.
pub record Destructive : Type 0 where
  pub item : Item
  pub kind : OperationType

abbrev with_kind : OperationType → Item → Destructive
with_kind kind item = record { item = item; kind = kind }

abbrev with_own_kind : Item → Destructive
with_own_kind item = record { item = item; kind = or_else item.operation_type membership_remove }

abbrev as_kind : OperationType → List Item → List Destructive
as_kind kind items = map {A = Item} {B = Destructive} (with_kind kind) items

abbrev is_destructive : Destructive → Bool
is_destructive d = elim d.kind [ another s ↦ false | _ ↦ true ]

unfoldable pub destructive_items : DeprovisionPlan → List Destructive
unfolding select
destructive_items p = select is_destructive (
    as_kind user_delete p.user_deletes
    ++ as_kind group_delete p.group_deletes
    ++ as_kind user_active_false p.active_false_users
    ++ as_kind membership_remove p.membership_removes
    ++ map {A = Item} {B = Destructive} with_own_kind p.removes
    ++ as_kind membership_replace p.membership_replace_removes)

-- `uniq` on the users that the items name.
unfoldable pub affected_users : List String → List Destructive → List String
unfolding any
affected_users seen [] = seen
affected_users seen (d ∷ ds) =
    affected_users
      (if is_empty d.item.user_id || any (str_eq d.item.user_id) seen
        then seen
        else seen ++ d.item.user_id ∷ [])
      ds

abbrev pub affects_membership : Destructive → Bool
affects_membership d = elim d.kind [
  | membership_remove ↦ true
  | membership_replace ↦ true
  | _ ↦ false
]

-- `a || b` on numbers.
abbrev or_number : ℕ → ℕ → ℕ
or_number a b = if a == 0 then b else a

pub record Metrics : Type 0 where
  pub absolute_removals : ℕ
  pub affected_active_users : ℕ
  pub active_users_total : ℕ
  pub active_users_percent : Double
  pub affected_memberships : ℕ
  pub memberships_total : ℕ
  pub memberships_percent : Double

pub record CurrentState : Type 0 where
  pub active_users_total : ℕ
  pub memberships_total : ℕ

unfoldable pub percent : ℕ → ℕ → Double
unfolding nearest_double
percent count total = if ltb 0 total then times (divided count total) 100 else of_ℕ 0

unfoldable pub metrics_of : DeprovisionPlan → CurrentState → Metrics
unfolding destructive_items affected_users select percent
metrics_of p s =
    let destructive = destructive_items p in
    let users = length (affected_users [] destructive) in
    let memberships = length (select affects_membership destructive) in
    let users_total = or_number s.active_users_total p.active_users_total in
    let memberships_total = or_number s.memberships_total p.memberships_total in
    record {
      absolute_removals = length destructive;
      affected_active_users = users;
      active_users_total = users_total;
      active_users_percent = percent users users_total;
      affected_memberships = memberships;
      memberships_total = memberships_total;
      memberships_percent = percent memberships memberships_total;
    }

pub data Guard : Type 0 where
  max_absolute_removals max_active_users_affected_percent : Guard
  max_memberships_affected_percent manual_approval_threshold : Guard

-- What `violations.push` adds.
abbrev pub push_if : Bool → Guard → List Guard
push_if true g = g ∷ []
push_if false g = []

pub record Approval : Type 0 where
  pub manual_approval : Bool
  pub emergency_fail_closed : Bool

abbrev pub requires_approval : GuardConfig → Metrics → Bool
requires_approval config m =
    not (exceeds config.manual_approval_threshold (of_ℕ m.absolute_removals))

unfoldable pub violations_of : GuardConfig → Metrics → Approval → List Guard
violations_of config m approval =
    push_if (exceeds (of_ℕ m.absolute_removals) config.max_absolute_removals) max_absolute_removals
    ++ push_if (exceeds m.active_users_percent config.max_active_users_affected_percent)
        max_active_users_affected_percent
    ++ push_if (exceeds m.memberships_percent config.max_memberships_affected_percent)
        max_memberships_affected_percent
    ++ push_if (requires_approval config m && not approval.manual_approval)
        manual_approval_threshold

-- A moment that is still to come is before the end of any time, and 0 is taken for none.
unfoldable is_cooling : ℕ → Double → Option ℕ → Bool
unfolding nearest_double
is_cooling now minutes none = false
is_cooling now minutes (some at) =
    not (at == 0) && (ltb now at || exceeds (times (times minutes 60) 1000) (of_ℕ (now - at)))

-- Whether an item was reactivated too short a while ago.
unfoldable pub is_cooling_down : ℕ → GuardConfig → Destructive → Bool
unfolding is_cooling
is_cooling_down now config d =
    is_cooling now config.reactivation_cooldown_minutes d.item.reactivated_at

pub record DryRunPlan : Type 0 where
  pub blocked : Bool
  pub requires_manual_approval : Bool
  pub destructive : List Destructive
  pub metrics : Metrics
  pub violations : List Guard
  pub cooldown_blocks : List Destructive

unfoldable pub build_dry_run_plan :
    List Destructive → Metrics → List Guard → Bool → List Destructive → DryRunPlan
build_dry_run_plan destructive metrics violations requires_manual_approval cooldown_blocks =
    record {
      blocked = not (is_nil violations) || not (is_nil cooldown_blocks);
      requires_manual_approval = requires_manual_approval;
      destructive = destructive;
      metrics = metrics;
      violations = violations;
      cooldown_blocks = cooldown_blocks;
    }

pub record Verdict : Type 0 where
  pub allowed : Bool
  pub preserve_existing_access : Bool
  pub emergency_fail_closed_approved : Bool
  pub has_event : Bool
  pub dry_run_plan : DryRunPlan

unfoldable pub evaluate_mass_deprovision_guard :
    DeprovisionPlan → RawConfig → CurrentState → Approval → ℕ → Verdict
unfolding metrics_of violations_of build_dry_run_plan destructive_items select is_cooling_down
evaluate_mass_deprovision_guard plan raw state approval now =
    let config = normalize_guard_config raw in
    let metrics = metrics_of plan state in
    let violations = violations_of config metrics approval in
    let blocks = select (is_cooling_down now config) (destructive_items plan) in
    let emergency = approval.emergency_fail_closed && approval.manual_approval in
    record {
      allowed = (is_nil violations && is_nil blocks) || emergency;
      preserve_existing_access = not (is_nil violations) && not emergency;
      emergency_fail_closed_approved = emergency;
      has_event = not (is_nil violations) || not (is_nil blocks);
      dry_run_plan =
          build_dry_run_plan (destructive_items plan) metrics violations
            (requires_approval config metrics) blocks;
    }
