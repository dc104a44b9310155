-- ===== src/Provisioning/Bootstrap.antt =====
-- The steps of `runCanonicalOrganizationProvisioning` in their order, and the run around them.
use civitas.Prelude.{
  Bool, true, false, not, Option, none, some, or_else, append_text, List, [], ◌∷◌, ◌++◌, map,
  String, str_eq, select, is_nil, if◌then◌else◌,
}
use civitas.Prelude.Text.{is_empty}
use civitas.Provisioning.{
  Role, ResolvedUser, Organization, Contact, ProvisioningInput, or_next, truthy, get_role_id,
  get_user_id, Assignment, Output, bootstrap_started, roles_listed, template_validated,
  organization_created, email_domains_replaced, default_roles_replaced, user_assigned, output_roles,
  output_organization, output_organization_id, Template, output_template, ContactAssignment, Result,
  role_without_id, user_without_id, Outcome, returned, threw, Body, ◌>>=◌, pure, or_throw, Deps,
  available_roles, require_role,
}
use civitas.Provisioning.Run.{
  Recorder, get_completed_steps, Run, start_recorder, complete_recorder, fail_recorder, run_step,
}

-- `Array.from(new Set(names.filter(Boolean)))`.
abbrev pub differs : String → String → Bool
differs a b = not (str_eq a b)

unfoldable pub distinct : List String → List String
unfolding select
distinct [] = []
distinct (name ∷ names) = name ∷ select (differs name) (distinct names)

abbrev pub truthy_names : List (Option String) → List String
truthy_names [] = []
truthy_names (none ∷ names) = truthy_names names
truthy_names (some name ∷ names) =
    if is_empty name then truthy_names names else name ∷ truthy_names names

abbrev pub contact_role : Contact → Option String
contact_role contact = contact.organization_role_name

unfoldable pub required_role_names : ProvisioningInput → List String
unfolding distinct
required_role_names input = distinct (
    truthy_names (
      map {A = String} {B = Option String} some input.default_role_names
      ++ map {A = Contact} {B = Option String} contact_role input.administrative_contacts))

-- The entry of a contact, from the output of its step.
abbrev pub contact_assignment : Contact → Bool × Output → ContactAssignment
contact_assignment contact (skipped, user_assigned a) = record {
  key = contact.key;
  email = contact.email;
  logto_user_id = some a.user_id;
  role_name = a.role_name;
  user_created = a.user_created;
  user_source = a.user_source;
  membership_added = a.membership_added;
  role_assigned = a.role_assigned;
  primary_operational_contact = a.primary_operational_contact;
  skipped = skipped;
}
contact_assignment contact (skipped, _) = record {
  key = contact.key;
  email = contact.email;
  logto_user_id = none;
  role_name = none;
  user_created = false;
  user_source = none;
  membership_added = false;
  role_assigned = false;
  primary_operational_contact = false;
  skipped = skipped;
}

abbrev pub is_primary : List Contact → String → Bool
is_primary [] key = false
is_primary (first ∷ contacts) key = str_eq key first.key

abbrev pub assign_step : String → String
assign_step key = append_text "logto.organization_user.assign_role:" key

-- The names of the steps; `assign_step` is that of a contact.
abbrev pub list_step : String
list_step = "logto.organization_roles.list"

abbrev pub template_step : String
template_step = "logto.organization_template.validate"

abbrev pub started_step : String
started_step = "organization.bootstrap.started"

abbrev pub domains_step : String
domains_step = "logto.organization_jit.email_domains.replace"

abbrev pub default_roles_step : String
default_roles_step = "logto.organization_jit.default_roles.replace"

abbrev pub create_step : String
create_step = "logto.organization.create"

abbrev pub actor_label : Option String → String
actor_label actor_type = or_else (truthy actor_type) "owner_global"

-- The organization and its identifier, from the output of the step that creates it.
abbrev pub created_organization : ProvisioningInput → Output → Organization
created_organization input output = or_else (output_organization output) (record {
  id = output_organization_id output;
  name = input.name;
  description = truthy input.description;
})

abbrev pub created_id : ProvisioningInput → Output → Option String
created_id input output =
    or_next (output_organization_id output) (created_organization input output).id

module _ {S : Type 0} where
  abbrev pub require_all : List Role → List String → Body S (Unit {0})
  require_all roles [] = pure tt
  require_all roles (name ∷ names) = do _ ← require_role roles (some name); require_all roles names

  abbrev pub role_id_for : List Role → Option String → Body S String
  role_id_for roles name = do
    role ← require_role roles name
    or_throw (get_role_id role) (role_without_id name)

  abbrev pub jit_role_ids : List Role → List String → Body S (List String)
  jit_role_ids roles [] = pure []
  jit_role_ids roles (name ∷ names) = do
    id ← role_id_for roles (some name)
    ids ← jit_role_ids roles names
    pure (id ∷ ids)

module _ {W : Type 0} (deps : Deps W) where
  abbrev pub list_effect : Body W Output
  list_effect = do
    roles ← deps.list_organization_roles
    pure (roles_listed roles (available_roles roles))

  abbrev pub template_effect : List String → Body W Output
  template_effect names = do
    t ← deps.ensure_organization_template names
    pure (template_validated t names)

  abbrev pub create_effect : ProvisioningInput → Body W Output
  create_effect input = do
    created ← deps.create_organization input
    pure (organization_created created created.id)

  abbrev pub domains_effect : Option String → String → Body W Output
  domains_effect id domain = do
    _ ← deps.replace_email_domains id (domain ∷ [])
    pure (email_domains_replaced id (domain ∷ []))

  abbrev pub default_roles_effect : Option String → List String → List String → Body W Output
  default_roles_effect id names ids = do
    _ ← deps.replace_default_roles id ids
    pure (default_roles_replaced id names ids)

  abbrev pub assigned : Option String → List Contact → Contact → ResolvedUser → String → Assignment
  assigned id contacts contact resolved user_id = record {
    key = contact.key;
    email = contact.email;
    organization_id = id;
    user_id = user_id;
    role_name = contact.organization_role_name;
    user_created = resolved.created;
    user_source = resolved.source;
    membership_added = true;
    role_assigned = true;
    primary_operational_contact = is_primary contacts contact.key;
  }

  abbrev pub assign_role :
      List Role → Option String → List Contact → Contact → ResolvedUser → String → Body W Output
  assign_role roles id contacts contact resolved user_id = do
    role_id ← role_id_for roles contact.organization_role_name
    _ ← deps.add_user_to_organization id user_id
    _ ← deps.assign_organization_role id user_id role_id contact.organization_role_name
    pure (user_assigned (assigned id contacts contact resolved user_id))

  abbrev pub assign_resolved :
      List Role → Option String → List Contact → Contact → ResolvedUser → Body W Output
  assign_resolved roles id contacts contact resolved = do
    user_id ← or_throw (get_user_id resolved.user) (user_without_id contact.email)
    assign_role roles id contacts contact resolved user_id

  abbrev pub assign_effect : List Role → Option String → List Contact → Contact → Body W Output
  assign_effect roles id contacts contact = do
    resolved ← deps.create_or_resolve_user contact
    assign_resolved roles id contacts contact resolved

  abbrev pub assign_contacts :
      List Role
      → Option String
      → List Contact
      → List Contact
      → Body (Run W) (List ContactAssignment)
  assign_contacts roles id contacts [] = pure []
  assign_contacts roles id contacts (contact ∷ rest) = do
    step ← run_step (assign_step contact.key) false (assign_effect roles id contacts contact)
    assignments ← assign_contacts roles id contacts rest
    pure (contact_assignment contact step ∷ assignments)

  abbrev pub replace_domains : Option String → Option String → Body (Run W) (Unit {0})
  replace_domains id none = pure tt
  replace_domains id (some domain) = do
    _ ← run_step domains_step false (domains_effect id domain)
    pure tt

  abbrev pub set_organization : Organization → Option String → Body (Run W) (Unit {0})
  set_organization organization id run =
      returned tt (record run { organization = some organization; organization_id = id })

  abbrev pub start_operation : ProvisioningInput → Body (Run W) (Unit {0})
  start_operation input run =
      returned tt (record run { recorder = start_recorder input run.recorder })

  abbrev pub is_resumed : Body (Run W) Bool
  is_resumed run = returned (not (is_nil run.completed_steps)) run

  abbrev pub complete_operation : Result → Body (Run W) Result
  complete_operation result run =
      returned result (record run { recorder = complete_recorder result run.recorder })

  -- The steps after the roles are known, and those after the organization is there.
  abbrev pub assign_all :
      ProvisioningInput → List Role → Template → Organization → Option String → Body (Run W) Result
  assign_all input roles validated organization id = do
    ids ← jit_role_ids roles input.default_role_names
    _ ← replace_domains id (truthy input.domain)
    _ ← run_step default_roles_step false (default_roles_effect id input.default_role_names ids)
    assignments ←
        assign_contacts roles id input.administrative_contacts input.administrative_contacts
    resumed ← is_resumed
    complete_operation (record {
      organization = organization;
      organization_id = id;
      template = validated;
      available_organization_roles = available_roles roles;
      domain = input.domain;
      default_role_names = input.default_role_names;
      default_role_ids = ids;
      administrative_contact_assignments = assignments;
      idempotent = resumed;
    })

  abbrev pub create_and_assign : ProvisioningInput → List Role → Body (Run W) Result
  create_and_assign input roles = do
    _ ← require_all roles (required_role_names input)
    checked ← run_step template_step true (template_effect (required_role_names input))
    created ← run_step create_step false (create_effect input)
    _ ← set_organization (created_organization input created.1) (created_id input created.1)
    assign_all input roles (output_template checked.1) (created_organization input created.1)
        (created_id input created.1)

  -- The body of the `try`.
  abbrev pub bootstrap : ProvisioningInput → Option String → Body (Run W) Result
  bootstrap input actor_type = do
    _ ← start_operation input
    _ ← run_step started_step false (pure (bootstrap_started (actor_label actor_type)))
    listed ← run_step list_step true list_effect
    create_and_assign input (output_roles listed.1)

  abbrev pub fresh_run : Recorder → W → Run W
  fresh_run recorder world = record {
    world = world;
    recorder = recorder;
    completed_steps = get_completed_steps recorder;
    organization = none;
    organization_id = none;
  }

  abbrev pub caught : Outcome (Run W) Result → Outcome (Recorder × W) Result
  caught (returned result run) = returned result (run.recorder, run.world)
  caught (threw error run) = threw error (fail_recorder error run, run.world)

  unfoldable pub run_provisioning : ProvisioningInput → Option String → Body (Recorder × W) Result
  unfolding run_step require_role available_roles required_role_names start_recorder
      complete_recorder fail_recorder get_completed_steps
  run_provisioning input actor_type (recorder, world) =
      caught (bootstrap input actor_type (fresh_run recorder world))
