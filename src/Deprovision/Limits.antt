-- ===== src/Deprovision/Limits.antt =====
-- What massDeprovisionGuard.js lets through.
use civitas.Prelude.{
  is_nil-select, is_nil, ℕ, ◌+◌, ◌≤◌, ◌≡◌, ◌↔◌, ◌⊎◌, inl, inr, refl, sym, ◌∙◌, Bool, true, false,
  not, ◌&&◌, ◌||◌, List, [], ◌∷◌, ◌++◌, String, str_eq, any, select, length, length-append,
  length-select-le, arith, Bool-cases,
}
use civitas.Prelude.Text.{is_empty}
use civitas.Prelude.Doubles.{of_ℕ, exceeds, IsAtMost, IsBelow, exceeds-IsAtMost, exceeds-IsBelow}
use civitas.Deprovision.{
  DeprovisionPlan, RawConfig, GuardConfig, Destructive, Metrics, CurrentState, Guard, Approval,
  max_absolute_removals, max_active_users_affected_percent, max_memberships_affected_percent,
  manual_approval_threshold, Verdict, normalize_guard_config, destructive_items, affected_users,
  affects_membership, metrics_of, push_if, requires_approval, violations_of, is_cooling_down,
  build_dry_run_plan, evaluate_mass_deprovision_guard,
}

-- The limits that a plan keeps.
pub record WithinLimits (config : GuardConfig) (m : Metrics) (approval : Approval) : Type 0 where
  pub removals : IsAtMost (of_ℕ m.absolute_removals) config.max_absolute_removals
  pub users : IsAtMost m.active_users_percent config.max_active_users_affected_percent
  pub memberships : IsAtMost m.memberships_percent config.max_memberships_affected_percent
  pub approved :
      IsBelow (of_ℕ m.absolute_removals) config.manual_approval_threshold
      ⊎ (approval.manual_approval ≡ true)

is_nil-push :
    (b : Bool) (g : Guard) (rest : List Guard)
    → is_nil (push_if b g ++ rest) ≡ (not b && is_nil rest)
is_nil-push true g rest = refl
is_nil-push false g rest = refl

four_pushes :
    (a b c d : Bool)
    → is_nil (
        push_if a max_absolute_removals
        ++ push_if b max_active_users_affected_percent
        ++ push_if c max_memberships_affected_percent
        ++ push_if d manual_approval_threshold)
      ≡ (not a && not b && not c && not d)
four_pushes a b c d = ground arith

is_nil-violations :
    (config : GuardConfig) (m : Metrics) (approval : Approval)
    → is_nil (violations_of config m approval) ≡ (
        not (exceeds (of_ℕ m.absolute_removals) config.max_absolute_removals)
        && not (exceeds m.active_users_percent config.max_active_users_affected_percent)
        && not (exceeds m.memberships_percent config.max_memberships_affected_percent)
        && not (requires_approval config m && not approval.manual_approval))
unfolding violations_of
is_nil-violations config m approval =
    four_pushes (exceeds (of_ℕ m.absolute_removals) config.max_absolute_removals)
      (exceeds m.active_users_percent config.max_active_users_affected_percent)
      (exceeds m.memberships_percent config.max_memberships_affected_percent)
      (requires_approval config m && not approval.manual_approval)

pub affected_users-le :
    (seen : List String) (ds : List Destructive)
    → length (affected_users seen ds) ≤ length seen + length ds
unfolding affected_users any
affected_users-le seen [] = omega arith
affected_users-le seen (d ∷ ds) =
    elim (Bool-cases (is_empty d.item.user_id || any (str_eq d.item.user_id) seen)) [
      | inl e ↦ rw e (omega (arith, affected_users-le seen ds))
      | inr e ↦ rw e (
          omega (
            arith,
            affected_users-le (seen ++ d.item.user_id ∷ []) ds,
            length-append seen (d.item.user_id ∷ []),
          ))
    ]

-- No plan affects more users, or more memberships, than it has destructive operations.
pub metrics_of-le :
    (plan : DeprovisionPlan) (state : CurrentState)
    → ((metrics_of plan state).affected_active_users ≤ (metrics_of plan state).absolute_removals)
      × ((metrics_of plan state).affected_memberships ≤ (metrics_of plan state).absolute_removals)
unfolding metrics_of
metrics_of-le plan state = (
  omega (arith, affected_users-le [] (destructive_items plan)),
  length-select-le affects_membership (destructive_items plan),
)

all_four :
    (a b c d : Bool) → (a && b && c && d) ≡ true → (a ≡ true) × (b ≡ true) × (c ≡ true) × (d ≡ true)
all_four a b c d h = ground (arith, h)

allowed_cases :
    {kept cooling emergency manual blocks : Bool} {Within : Type 0}
    → (kept ≡ true) ↔ Within
    → blocks ≡ not cooling
    → (((kept && blocks) || (emergency && manual)) ≡ true)
      ↔ ((Within × (cooling ≡ false)) ⊎ ((emergency ≡ true) × (manual ≡ true)))
allowed_cases {kept} {cooling} {emergency} {manual} {blocks} w b = (
  (λ h. elim (Bool-cases (kept && blocks)) [
    | inl e ↦ inl (w.0 (ground (arith, e)), ground (arith, e, b))
    | inr e ↦ inr (ground (arith, e, h), ground (arith, e, h))
  ]),
  (λ h. elim h [
    | inl found ↦ let k = w.1 found.0 in ground (arith, k, found.1, b)
    | inr both ↦ ground (arith, both.0, both.1)
  ]),
)

either_flag :
    (below manual : Bool)
    → (not (not below && not manual) ≡ true) ↔ ((below ≡ true) ⊎ (manual ≡ true))
either_flag true manual = (λ _. inl refl, λ _. refl)
either_flag false true = (λ _. inr refl, λ _. refl)
either_flag false false = (λ h. cc, λ h. elim h [ inl e ↦ cc | inr e ↦ cc ])

approval-cases :
    (config : GuardConfig) (m : Metrics) (manual : Bool)
    → (not (requires_approval config m && not manual) ≡ true)
      ↔ (IsBelow (of_ℕ m.absolute_removals) config.manual_approval_threshold ⊎ (manual ≡ true))
approval-cases config m manual =
    let flag =
      either_flag (exceeds config.manual_approval_threshold (of_ℕ m.absolute_removals)) manual in
    let less = exceeds-IsBelow (of_ℕ m.absolute_removals) config.manual_approval_threshold in
    (
      λ h. elim (flag.0 h) [ inl e ↦ inl (less.0 e) | inr e ↦ inr e ],
      λ h. elim h [ inl e ↦ flag.1 (inl (less.1 e)) | inr e ↦ flag.1 (inr e) ],
    )

pub is_nil-violations-WithinLimits :
    (config : GuardConfig) (m : Metrics) (approval : Approval)
    → (is_nil (violations_of config m approval) ≡ true) ↔ WithinLimits config m approval
is_nil-violations-WithinLimits config m approval =
    let few = exceeds-IsAtMost (of_ℕ m.absolute_removals) config.max_absolute_removals in
    let users = exceeds-IsAtMost m.active_users_percent config.max_active_users_affected_percent in
    let memberships =
      exceeds-IsAtMost m.memberships_percent config.max_memberships_affected_percent in
    let approved = approval-cases config m approval.manual_approval in
    (
      λ h.
          let each =
            all_four (not (exceeds (of_ℕ m.absolute_removals) config.max_absolute_removals))
              (not (exceeds m.active_users_percent config.max_active_users_affected_percent))
              (not (exceeds m.memberships_percent config.max_memberships_affected_percent))
              (not (requires_approval config m && not approval.manual_approval))
              (sym (is_nil-violations config m approval) ∙ h) in
          record {
            removals = few.0 each.0;
            users = users.0 each.1;
            memberships = memberships.0 each.2;
            approved = approved.0 each.3;
          },
      λ w.
          is_nil-violations config m approval
          ∙ rw
              (
                few.1 w.removals,
                users.1 w.users,
                memberships.1 w.memberships,
                approved.1 w.approved,
              )
              refl,
    )

-- A plan is allowed exactly if it keeps the limits (or defaults) and touches nothing that was
-- reactivated too short a while ago, or if both the emergency and the manual approval are given.
pub evaluate_mass_deprovision_guard_iff :
    (plan : DeprovisionPlan) (raw : RawConfig) (state : CurrentState) (approval : Approval)
    (now : ℕ)
    → ((evaluate_mass_deprovision_guard plan raw state approval now).allowed ≡ true) ↔ (
        (WithinLimits (normalize_guard_config raw) (metrics_of plan state) approval
          × (any (is_cooling_down now (normalize_guard_config raw)) (destructive_items plan)
              ≡ false))
        ⊎ ((approval.emergency_fail_closed ≡ true) × (approval.manual_approval ≡ true)))
unfolding evaluate_mass_deprovision_guard
evaluate_mass_deprovision_guard_iff plan raw state approval now =
    let config = normalize_guard_config raw in
    let m = metrics_of plan state in
    allowed_cases (is_nil-violations-WithinLimits config m approval)
      (is_nil-select (is_cooling_down now config) (destructive_items plan))

-- A plan that is stopped only since an item was reactivated too short a while ago, with every limit
-- kept, is not allowed, is blocked and gives an event, yet does not ask to preserve the access.
pub evaluate_mass_deprovision_guard-cooling :
    (plan : DeprovisionPlan) (raw : RawConfig) (state : CurrentState) (approval : Approval)
    (now : ℕ)
    → WithinLimits (normalize_guard_config raw) (metrics_of plan state) approval
    → any (is_cooling_down now (normalize_guard_config raw)) (destructive_items plan) ≡ true
    → approval.emergency_fail_closed ≡ false
    → (v : Verdict) × (evaluate_mass_deprovision_guard plan raw state approval now ≡ v)
      × (v.allowed ≡ false)
      × (v.dry_run_plan.blocked ≡ true)
      × (v.has_event ≡ true)
      × (v.preserve_existing_access ≡ false)
unfolding evaluate_mass_deprovision_guard build_dry_run_plan
evaluate_mass_deprovision_guard-cooling plan raw state approval now within cooling ordinary =
    let kept =
      (is_nil-violations-WithinLimits (normalize_guard_config raw) (metrics_of plan state)
          approval).1
        within in
    let blocks : is_nil
          (select (is_cooling_down now (normalize_guard_config raw)) (destructive_items plan))
        ≡ false =
      is_nil-select (is_cooling_down now (normalize_guard_config raw)) (destructive_items plan)
      ∙ rw cooling refl in
    (
      evaluate_mass_deprovision_guard plan raw state approval now,
      refl,
      rw (kept, blocks, ordinary) refl,
      rw (kept, blocks) refl,
      rw (kept, blocks) refl,
      rw kept refl,
    )
