-- ===== src/RoleGuard/Mapped.antt =====
-- What an allowed mapping of a federated role says of it.
use mathlib.Core.Path.{subst}
use civitas.Prelude.{◌≡◌, Bool, true, false, some, List, String, inl, inr, Bool-cases}
use civitas.Prelude.Text.{is_empty}
use civitas.RoleGuard.{
  sensitive_organization_roles, Guarded, allowed, refused, lists, has_explicit_owner_policy,
  is_automatic_first_login, is_owner_role, assert_provisioned_role_allowed, is_set, Mapping,
  check_sensitive, assert_federation_role_mapping_allowed,
}

abbrev Ensures {ℓ} : {A : Type ℓ} → Type 0 → Guarded A → Type 0
Ensures P (allowed a) = P
Ensures P (refused e) = Unit

-- Each of the four that a sensitive mapping has to name.
pub record IsReviewed (m : Mapping) : Type 0 where
  pub owned : has_explicit_owner_policy m.approval_policy ≡ true
  pub actor_set : is_set m.actor ≡ true
  pub reason_set : is_set m.reason ≡ true
  pub policy_version_set : is_set m.policy_version ≡ true
  pub mapping_version_set : is_set m.mapping_version ≡ true

pub record IsMapped (organization_roles : List String) (name : String) (m : Mapping) : Type 0 where
  pub canonical : lists organization_roles name ≡ true
  pub not_owner : is_owner_role name ≡ false
  pub reviewed : lists sensitive_organization_roles name ≡ true → IsReviewed m

Ensures-imp {ℓ} : {A : Type ℓ} {P Q : Type 0} (g : Guarded A) → (P → Q) → Ensures P g → Ensures Q g
Ensures-imp (allowed a) f h = f h
Ensures-imp (refused e) f h = tt

Ensures-sensitive :
    (m : Mapping) (has_audit : Bool)
    → has_explicit_owner_policy m.approval_policy ≡ true
    → Ensures (IsReviewed m) (check_sensitive m has_audit)
Ensures-sensitive m has_audit owned = elim (Bool-cases (is_set m.actor)) [
  | inr e ↦ rw e tt
  | inl a ↦ rw a (elim (Bool-cases (is_set m.reason)) [
    | inr e ↦ rw e tt
    | inl b ↦ rw b (elim (Bool-cases (is_set m.policy_version)) [
      | inr e ↦ rw e tt
      | inl c ↦ rw c (elim (Bool-cases (is_set m.mapping_version)) [
        | inr e ↦ rw e tt
        | inl d ↦ rw d (record {
          owned = owned;
          actor_set = a;
          reason_set = b;
          policy_version_set = c;
          mapping_version_set = d;
        })
      ])
    ])
  ])
]

IsMapped-allowed :
    (organization_roles : List String) (name : String) (m : Mapping) (has_audit : Bool)
    → Ensures
        (IsMapped organization_roles name m)
        (assert_federation_role_mapping_allowed organization_roles (some name) m has_audit)
unfolding assert_federation_role_mapping_allowed assert_provisioned_role_allowed
    is_automatic_first_login
IsMapped-allowed organization_roles name m has_audit = elim (Bool-cases (is_empty name)) [
  | inl e ↦ rw e tt
  | inr e ↦ rw e (elim (Bool-cases (is_owner_role name)) [
    | inl o ↦ rw o tt
    | inr o ↦ rw o (elim (Bool-cases (lists organization_roles name)) [
      | inr c ↦ rw c tt
      | inl c ↦ rw c (elim (Bool-cases (lists sensitive_organization_roles name)) [
        | inr s ↦ rw s (record { canonical = c; not_owner = o; reviewed = λ t. cc })
        | inl s ↦ rw s (elim (Bool-cases (has_explicit_owner_policy m.approval_policy)) [
          | inr p ↦ rw p tt
          | inl p ↦ rw p (
              Ensures-imp (check_sensitive m has_audit)
                (λ reviewed. record { canonical = c; not_owner = o; reviewed = λ t. reviewed })
                (Ensures-sensitive m has_audit p))
        ])
      ])
    ])
  ])
]

-- A federated mapping is allowed only to a role that there is and that is not an owner's, and to a
-- sensitive one only with a policy of the owner and with its actor, its reason and both versions.
pub assert_federation_role_mapping_allowed-IsMapped :
    (organization_roles : List String) (name : String) (m : Mapping) (has_audit audited : Bool)
    → assert_federation_role_mapping_allowed organization_roles (some name) m has_audit
      ≡ allowed audited
    → IsMapped organization_roles name m
assert_federation_role_mapping_allowed-IsMapped organization_roles name m has_audit audited e =
    subst (Ensures (IsMapped organization_roles name m)) e
      (IsMapped-allowed organization_roles name m has_audit)
