-- ===== src/Deprovision/Tests.antt =====
-- Two plans of one removal each, with and without a reactivation.
use civitas.Prelude.{◌≡◌, ◌⊎◌, refl, true, false, none, some, [], ◌∷◌, any, select}
use civitas.Prelude.Doubles.{of_ℕ, nearest_double, exceeds}
use civitas.Deprovision.{
  percent, Item, DeprovisionPlan, RawConfig, CurrentState, Approval, Verdict,
  normalize_guard_config, destructive_items, affected_users, metrics_of, violations_of,
  build_dry_run_plan, is_cooling_down, evaluate_mass_deprovision_guard,
}
use civitas.Deprovision.Limits.{
  is_nil-violations-WithinLimits, WithinLimits, evaluate_mass_deprovision_guard_iff,
  evaluate_mass_deprovision_guard-cooling,
}

abbrev item : Item
item = record {
  operation_type = none;
  user_id = "u1";
  group_id = "";
  subject_id = "";
  id = "";
  membership_id = "m1";
  reactivated_at = none;
}

abbrev removing : Item → DeprovisionPlan
removing i = record {
  user_deletes = [];
  group_deletes = [];
  active_false_users = [];
  membership_removes = i ∷ [];
  removes = i ∷ [];
  membership_replace_removes = [];
  active_users_total = 100;
  memberships_total = 100;
}

abbrev plan : DeprovisionPlan
plan = removing item

abbrev hasty : DeprovisionPlan
hasty = removing (record item { reactivated_at = some 1000 })

abbrev defaults : RawConfig
defaults = record {
  max_absolute_removals = none;
  max_active_users_affected_percent = none;
  max_memberships_affected_percent = none;
  manual_approval_threshold = none;
  reactivation_cooldown_minutes = none;
}

abbrev state : CurrentState
state = record { active_users_total = 0; memberships_total = 0 }

abbrev ordinary : Approval
ordinary = record { manual_approval = false; emergency_fail_closed = false }

machine : Unit {0}
unfolding evaluate_mass_deprovision_guard metrics_of violations_of build_dry_run_plan
    destructive_items affected_users any select percent nearest_double is_cooling_down
machine = tt

passes : (evaluate_mass_deprovision_guard plan defaults state ordinary 5000).allowed ≡ true
unfolding machine
passes = refl

small : (metrics_of plan state).active_users_total ≡ 100
unfolding machine
small = refl

evaluate_mass_deprovision_guard_iff_example :
    (WithinLimits (normalize_guard_config defaults) (metrics_of plan state) ordinary
      × (any (is_cooling_down 5000 (normalize_guard_config defaults)) (destructive_items plan)
          ≡ false))
    ⊎ ((false ≡ true) × (false ≡ true))
evaluate_mass_deprovision_guard_iff_example =
    (evaluate_mass_deprovision_guard_iff plan defaults state ordinary 5000).0 passes

hasty-WithinLimits :
    WithinLimits (normalize_guard_config defaults) (metrics_of hasty state) ordinary
unfolding machine
hasty-WithinLimits =
    (is_nil-violations-WithinLimits (normalize_guard_config defaults) (metrics_of hasty state)
        ordinary).0
      refl

hasty_cooling :
    any (is_cooling_down 5000 (normalize_guard_config defaults)) (destructive_items hasty) ≡ true
unfolding machine
hasty_cooling = refl

evaluate_mass_deprovision_guard-cooling_example :
    (v : Verdict) × (evaluate_mass_deprovision_guard hasty defaults state ordinary 5000 ≡ v)
    × (v.allowed ≡ false)
    × (v.dry_run_plan.blocked ≡ true)
    × (v.has_event ≡ true)
    × (v.preserve_existing_access ≡ false)
evaluate_mass_deprovision_guard-cooling_example =
    evaluate_mass_deprovision_guard-cooling hasty defaults state ordinary 5000 hasty-WithinLimits
      hasty_cooling refl

-- In doubles 7 of 100 are more than 7 percent, and 10 of 100 are not more than 10.
seven_of_hundred : exceeds (percent 7 100) (of_ℕ 7) ≡ true
unfolding machine
seven_of_hundred = refl

ten_of_hundred : exceeds (percent 10 100) (of_ℕ 10) ≡ false
unfolding machine
ten_of_hundred = refl
