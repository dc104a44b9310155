-- ===== src/Provisioning/Tests.antt =====
-- Runs against a Logto that has one role, and whose first assignment of it fails.
use civitas.Prelude.{
  any, is_nil, ℕ, ◌+◌, ◌≤◌, ◌≡◌, refl, true, Option, none, some, List, [], ◌∷◌, String, select,
  ◌==◌, if◌then◌else◌,
}
use civitas.Prelude.Json.{null}
use civitas.Prelude.Maps.{lookup, assign}
use civitas.Provisioning.{
  Contact, Role, ProvisioningInput, Result, ProvisioningError, logto_error, Outcome, returned,
  threw, Deps, normalized_roles, available_roles, last_role, require_role,
}
use civitas.Provisioning.Run.{
  Recorder, empty_recorder, load, get_completed_steps, start_recorder, complete_recorder,
  fail_recorder, run_step,
}
use civitas.Provisioning.Bootstrap.{distinct, required_role_names, run_provisioning}
use civitas.Provisioning.Counted.{creations}
use civitas.Provisioning.Once.{watched, watched_number, state_after, run_calls, run_calls-once}
use civitas.Provisioning.Contacts.{
  get_administrative_contact_uniqueness_errors, emails_of, are_distinct,
  get_administrative_contact_uniqueness_errors_iff,
}
use civitas.Provisioning.Failed.{IsFailed, run_provisioning-IsFailed}

-- The organizations that there are, and the assignments that have been tried.
record World : Type 0 where
  organizations : ℕ
  tries : ℕ

abbrev admin : Role
admin = record {
  id = some "role-1";
  organization_role_id = none;
  role_id = none;
  name = some "organization_admin";
  name_cache = none;
  key = none;
}

abbrev timeout : ProvisioningError
timeout = logto_error (record {
  name = some "AbortError";
  message = some "timeout";
  code = none;
  status = none;
  as_text = "AbortError: timeout";
})

abbrev first_assignment : World → Outcome World (Unit {0})
first_assignment w = if w.tries == 0 then threw timeout (record w { tries = 1 }) else returned tt w

abbrev test_deps : Deps World
test_deps = record {
  list_organization_roles = λ w. returned (admin ∷ []) w;
  ensure_organization_template = λ names w. returned null w;
  create_organization = λ input w.
      returned (record { id = some "org-1"; name = input.name; description = none })
        (record w { organizations = w.organizations + 1 });
  replace_email_domains = λ id domains w. returned tt w;
  replace_default_roles = λ id ids w. returned tt w;
  create_or_resolve_user = λ contact w.
      returned
        (record {
          user = record { id = some "user-1"; user_id = none; logto_user_id = none };
          created = true;
          source = none;
        })
        w;
  add_user_to_organization = λ id user w. returned tt w;
  assign_organization_role = λ id user role name w. first_assignment w;
}

abbrev test_input : ProvisioningInput
test_input = record {
  name = "School";
  description = none;
  administrative_contacts =
      record {
        key = "administrative_contact_1";
        email = some "ana@school.test";
        organization_role_name = some "organization_admin";
        details = null;
      }
      ∷ [];
  domain = some "school.test";
  default_role_names = "organization_admin" ∷ [];
  settings = null;
}

abbrev start_world : World
start_world = record { organizations = 0; tries = 0 }

abbrev two_runs : List (ProvisioningInput × Option String)
two_runs = (test_input, none) ∷ (test_input, none) ∷ []

machine : Unit {0}
unfolding run_provisioning run_step require_role normalized_roles last_role available_roles
    required_role_names distinct select start_recorder complete_recorder fail_recorder
    get_completed_steps load lookup assign creations
machine = tt

abbrev message : Outcome (Recorder × World) Result → Option ProvisioningError
message (returned result s) = none
message (threw error s) = some error

abbrev organizations_of : World → ℕ
organizations_of w = w.organizations

first_run_fails :
    message (run_provisioning test_deps test_input none (empty_recorder, start_world))
    ≡ some timeout
unfolding machine
first_run_fails = refl

abbrev after_first : Recorder × World
after_first =
    state_after test_deps organizations_of
      (run_provisioning test_deps test_input none (empty_recorder, start_world))

first_run :
    run_provisioning test_deps test_input none (empty_recorder, start_world)
    ≡ threw timeout (after_first.0, after_first.1)
unfolding machine
first_run = refl

second_run_resumes : message (run_provisioning test_deps test_input none after_first) ≡ none
unfolding machine
second_run_resumes = refl

run_calls-once_example :
    (run_calls (watched test_deps) watched_number two_runs (empty_recorder, (start_world, 0))).1.1
    ≤ 1
run_calls-once_example = run_calls-once test_deps two_runs start_world

-- The two runs do create one.
created_once :
    (run_calls (watched test_deps) watched_number two_runs (empty_recorder, (start_world, 0))).1.1
    ≡ 1
unfolding machine
created_once = refl

run_provisioning-IsFailed_example : IsFailed test_deps [] timeout after_first.0
run_provisioning-IsFailed_example =
    run_provisioning-IsFailed test_deps test_input none empty_recorder after_first.0 start_world
      after_first.1 timeout first_run

-- A Logto in which no call fails.
abbrev steady_deps : Deps World
steady_deps = record test_deps { assign_organization_role = λ id user role name w. returned tt w }

abbrev contact_of : String → Contact
contact_of email = record {
  key = email;
  email = some email;
  organization_role_name = none;
  details = null;
}

abbrev two_contacts : List Contact
two_contacts = contact_of "ana@school.test" ∷ contact_of "eva@school.test" ∷ []

repeated_email :
    get_administrative_contact_uniqueness_errors (contact_of "eva@school.test" ∷ two_contacts)
    ≡ record { contact_index = 2; email = "eva@school.test" } ∷ []
unfolding get_administrative_contact_uniqueness_errors any
repeated_email = refl

get_administrative_contact_uniqueness_errors_iff_example :
    is_nil (get_administrative_contact_uniqueness_errors two_contacts)
    ≡ are_distinct (emails_of two_contacts)
get_administrative_contact_uniqueness_errors_iff_example =
    get_administrative_contact_uniqueness_errors_iff two_contacts
