-- ===== src/Reconciliation.antt =====
-- backend/scim/reconciliation: what the planner is given, and the keys by which it finds users. The
-- texts are made lower-case by the argument `lower`, and users are sorted by the argument `le`.
use civitas.Prelude.{
  ℕ, Bool, true, false, not, ◌&&◌, ◌||◌, Option, none, some, or_else, List, [], ◌∷◌, ◌++◌, map,
  String, append_text, str_eq, select, flat_map, collect, sort_by,
}
use civitas.Prelude.Text.{trim, is_empty}
use civitas.Prelude.Texts.{distinct, sort_texts}
use civitas.Prelude.Maps.{lookup, map_of}
pub mod Planner
pub mod Loops
pub mod Allowed
pub mod Complete
pub mod Service
pub mod Approved
pub mod Repeats
pub mod Tests

pub record ScimUser : Type 0 where
  pub id : Option String
  pub external_id : Option String
  pub user_name : Option String
  pub email : Option String
  pub primary_email : Option String
  pub display_name : Option String
  pub name : Option String
  pub active : Option Bool
  pub organization_ids : Option (List String)
  pub organizations : Option (List String)
  pub groups : Option (List String)
  pub managed_roles : Option (List String)
  pub roles : Option (List String)
  pub requires_approval : Option Bool

pub record DesiredUser : Type 0 where
  pub external_id : Option String
  pub user_name : Option String
  pub email : Option String
  pub display_name : Option String
  pub active : Bool
  pub organization_ids : List String
  pub managed_roles : List String
  pub requires_approval : Bool

pub record UserLink : Type 0 where
  pub external_id : Option String
  pub scim_external_id : Option String
  pub user_name : Option String
  pub email : Option String
  pub logto_user_id : Option String

pub record LogtoUser : Type 0 where
  pub id : Option String
  pub logto_user_id : Option String
  pub user_id : Option String
  pub external_id : Option String
  pub user_name : Option String
  pub username : Option String
  pub email : Option String
  pub primary_email : Option String
  pub active : Option Bool
  pub suspended : Option Bool
  pub is_suspended : Option Bool

pub record Membership : Type 0 where
  pub organization_id : String
  pub user_id : String

pub record ManagedRole : Type 0 where
  pub organization_id : Option String
  pub user_id : String
  pub name : Option String
  pub key : Option String
  pub id : Option String

pub record Policy : Type 0 where
  pub allowed_managed_roles : Option (List String)
  pub ceiling_roles : Option (List String)
  pub protected_organization_ids : List String
  pub destructive_requires_approval : Option Bool

pub record CivitasState : Type 0 where
  pub user_links : Option (List UserLink)
  pub sources : Option (List UserLink)
  pub provenance : Option (List UserLink)

pub record LogtoState : Type 0 where
  pub users : List LogtoUser
  pub organization_memberships : List Membership
  pub managed_roles : Option (List ManagedRole)
  pub organization_roles : Option (List ManagedRole)

pub record Inputs : Type 0 where
  pub desired_state : List ScimUser
  pub civitas_state : CivitasState
  pub logto_state : LogtoState
  pub policy : Policy

-- A text that is there and not empty.
abbrev pub truthy : Option String → Option String
truthy none = none
truthy (some s) = elim (is_empty s) [ true ↦ none | false ↦ some s ]

-- `a || b`, of texts and of arrays.
abbrev pub or_text : Option String → Option String → Option String
or_text a b = elim (truthy a) [ none ↦ b | some s ↦ some s ]

abbrev pub or_list : {A : Type 0} → Option A → Option A → Option A
or_list none b = b
or_list (some a) b = some a

abbrev is_true : Option Bool → Bool
is_true (some true) = true
is_true _ = false

abbrev pub is_false : Option Bool → Bool
is_false (some false) = true
is_false _ = false

unfoldable pub uniq : Option (List String) → List String
unfolding distinct select sort_texts
uniq texts = sort_texts (distinct (select (λ s. not (is_empty s)) (or_else texts [])))

unfoldable pub normalize_desired_user : ScimUser → DesiredUser
unfolding uniq
normalize_desired_user u = record {
  external_id = truthy (or_text u.external_id (or_text u.id (or_text u.user_name u.email)));
  user_name = truthy (or_text u.user_name (or_text u.email u.primary_email));
  email = truthy (or_text u.email u.primary_email);
  display_name = truthy (or_text u.display_name u.name);
  active = not (is_false u.active);
  organization_ids = uniq (or_list u.organization_ids (or_list u.organizations u.groups));
  managed_roles = uniq (or_list u.managed_roles u.roles);
  requires_approval = is_true u.requires_approval;
}

abbrev pub logto_id : LogtoUser → Option String
logto_id u = truthy (or_text u.logto_user_id (or_text u.id u.user_id))

abbrev pub is_active : LogtoUser → Bool
is_active u = not (is_false u.active) && (not (is_true u.suspended) && not (is_true u.is_suspended))

-- The name of a role that is an object.
abbrev pub role_name : ManagedRole → Option String
role_name r = or_text r.name (or_text r.key r.id)

-- A text in a template.
abbrev pub shown : Option String → String
shown none = "undefined"
shown (some s) = s

abbrev pub pair_key : String → String → String
pair_key a b = append_text a (append_text ":" b)

abbrev pub role_entry : Option String → String → String → String
role_entry organization_id user_id role =
    pair_key (or_else (truthy organization_id) "") (pair_key user_id role)

module _ (lower : String → String) where
  abbrev pub key : Option String → String
  key value = lower (trim (or_else value ""))

  abbrev pub desired_key : DesiredUser → String
  desired_key d = key (or_text d.external_id (or_text d.user_name d.email))

  abbrev pub logto_key : LogtoUser → String
  logto_key u =
      key (
        or_text u.external_id
          (or_text u.user_name (or_text u.email (or_text u.primary_email u.id))))

  abbrev pub link_key : UserLink → String
  link_key l =
      key (or_text l.external_id (or_text l.scim_external_id (or_text l.user_name l.email)))

abbrev pub id_of : Option LogtoUser → Option String
id_of none = none
id_of (some u) = logto_id u
