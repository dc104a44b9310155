-- ===== src/Lib.antt =====
-- Civitas is a multi-tenant control plane for organizations. This library models the core logic of
-- its backend (JavaScript, under backend/) and proves what makes it correct.
--
-- Prelude holds what the parts share: tests and conditionals, the array methods that the source
-- calls, JSON values, doubles, `String.prototype.trim`. A JavaScript string is a text, a number that
-- the source keeps non-negative is a natural number, and a moment is its number of milliseconds.
--
-- Planning models the planning aggregate of backend/planning/domain. States is stateMachine.js and
-- the error codes of errors.js; Aggregate holds the fields of the class `Planning` of planning.js,
-- its constructor's checks and a monad in which a method keeps what it has changed when it throws;
-- Numbers holds the checks on version numbers; Plan holds the methods `create`, `restore`,
-- `toSnapshot`, `pullEvents`, `transition`, `revise` and `draftFromApproved`. What `randomUUID` and
-- `new Date` give are arguments of the methods. Plan/Moves and Plan/Drafts give each method as one
-- equation, Plan/Commands puts the methods together into sequences of calls, and what such sequences
-- keep stands in Plan/History and Plan/Persisted.
--
-- Worker models the engine of backend/worker, which runs an action once for an idempotency key.
-- Action is actionDefinition.js: a definition whose functions belong to the caller, so they are
-- arguments, and `W` is the state of the outside that they read and change. Store is
-- foundationStore.js: the methods of `InMemoryFoundationStore`, with `op-n` and `step-n` as the
-- number n. Engine is engine.js: `executeAction` with its `try` and `catch`, where an exception
-- keeps the changes made before it, and `now k` is the k-th reading of the clock. The functions of
-- an action are also handed the store (`db`): that they write to it, and that two requests
-- interleave where the source awaits, is not modelled. Engine/Settled gives a run as one equation,
-- Engine/Runs has the rule for sequences of runs, Engine/Once and Engine/Repeats hold what follows.
-- The store of the database that may take the place of the one in memory is not modelled.
--
-- Authz models the decision of an authorization request in backend/authorization/policies. Reasons
-- is reasonCodes.js, Context is policyContext.js with the records that a policy reads and answers,
-- Registry is registry.js, Policies is core/sameOrganization.js, Policies/Facts four policies that
-- ask a provider (which may be missing or throw), and Authorize is authorize.js: each check of
-- `authorize` in its order, with the loop over the plan. The catalogs of core/authz, the resolver of
-- module availability and the evaluation of the other policies are arguments; a policy may throw
-- (`none`) and may change the context that it is given. A decision's metadata and its copies of
-- versions for the audit are not modelled. Authorize/Plan describes the loop, Authorize/Soundness
-- what an allowed request has shown, Authorize/Canonical the policies that no caller can leave out,
-- Authorize/Membership what the second of these adds.
--
-- Planning/Review models backend/planning/domain/reviewWorkflow.js, the review of a plan as a list
-- of events: `initialState`, `applyReviewEvent`, `rehydrateReviewWorkflow`, `evolve` and the five
-- commands of `workflow`. `evolve` copies the input over the event, as the source does, so the
-- input's own type, version and identity are options of the record Input. `new Date()` is the
-- argument `now`. Review/Commands says what an accepted command has shown, Review/History what
-- sequences of commands keep.
--
-- Deprovision models backend/identity-federation/massDeprovisionGuard.js, the guard that holds back
-- a plan of SCIM which removes too much: the destructive operations, the metrics, the violations,
-- the cooldown and the dry run. Counts, totals and moments are whole numbers, limits and shares the
-- doubles of Prelude/Doubles, and the fields that only label the report are left out.
-- Deprovision/Limits says which plans pass.
--
-- Migrations models backend/runtime/migrations.js. `runSqlMigrations` is run_sql_migrations, a
-- recursion over the files in which each migration is one transaction (apply_migration) that is
-- committed or rolled back; what the SQL of a file does, which statements the server refuses and
-- which files cannot be read are arguments. Migrations/Schema is the check `assertOperationalSchema`
-- of the tables and columns that the programs rely on. Migrations/Runs and Migrations/Again say what
-- sequences of runs do to the database.
--
-- Provisioning models `runCanonicalOrganizationProvisioning` of
-- backend/services/organizationProvisioningCore.js over the recorder of
-- `createMemoryProvisioningRecorder` (backend/services/organizationProvisioningRecorder.js). The
-- calls of Logto are the record Deps, the source's argument `logto`; each may throw, and changes a
-- world that is an argument. Provisioning/Contacts is `getAdministrativeContactUniquenessErrors`,
-- Provisioning/Run has the recorder and `runStep`, and Provisioning/Bootstrap the steps in their
-- order and the `try` around them. Provisioning/Keeps and Provisioning/Total say what a run keeps
-- and when it returns, from its parts; the invariant of the creation stands in Provisioning/Counted,
-- and Provisioning/Once puts a counter around the calls of Logto. A body that throws keeps what it
-- has changed. The recorder over SQL and the other checks of the input are not modelled.
--
-- Deployment models core/deployment/deployment-kernel.cjs, the check of the environment that a
-- service is started with. Deployment holds the readers of single variables and the lists of names,
-- Deployment/Strict `classifyDeploymentVariable` and `assertStrictServiceContract`, and
-- Deployment/Services the three configurations and `validateDeploymentConfig`. Deployment/Names is
-- about the names of an accepted environment, and Deployment/Accepted about the whole configuration.
-- `new URL` is the argument parse_url. The texts of the errors, and the contract's file and its
-- loader, are not modelled.
--
-- RoleGuard models backend/authorization/provisioningGuard.js: which roles provisioning and
-- federation may give, and the checks of external claims and of a tenant's binding. The roles that
-- there are, which come from generated data, are an argument; what the recorder is told of a mapping
-- is the answer whether it is told. RoleGuard/Mapped says what an allowed mapping implies.
--
-- Taxonomy models backend/taxonomy over the repository in memory of taxonomyRepository.js, whose
-- transaction undoes nothing: Taxonomy holds the data and the repository, Taxonomy/Checks is
-- taxonomyValidation.js, taxonomyLifecycle.js and taxonomyHierarchy.js, Taxonomy/Patches the checks
-- of a patch and taxonomyImpactService.js, Taxonomy/Calls the runtime's port and `bump`,
-- Taxonomy/Service the operations of taxonomyService.js that change a value, Taxonomy/Publication
-- taxonomyPublicationService.js, and Taxonomy/Resolve `resolvePublishedDimensionValue`. An
-- identifier `value_n` is the number n. The functions of the port may be missing, may throw, and
-- change a world that is an argument, but not the repository. The known dimensions, which a contract
-- file gives, are an argument, and `ancestorsOf` is a loop on fuel, of which one round more than
-- there are values is enough. Not modelled are patches of an identifier or a time, the registry of
-- dimensions, the presets and the migration of the second version.
--
-- Reconciliation models backend/scim/reconciliation, which brings the users, memberships and roles
-- of Logto to what a directory asks for. Reconciliation holds the inputs and the keys of users,
-- Reconciliation/Planner actions.js and what planner.js computes before its loops,
-- Reconciliation/Loops the loops and `planScimReconciliation`, and Reconciliation/Service `execute`
-- and `applyAction` of service.js, with the client of Logto as an argument whose functions may
-- throw. The hash of an action and that of a plan, `toLowerCase` and `localeCompare` are arguments.
-- Reconciliation/Allowed is about what a plan may hold, Reconciliation/Complete about what it has
-- to, Reconciliation/Approved takes planner and service together, and Reconciliation/Repeats is
-- about requests with one key. Roles are objects; the time at which a plan is made, its fingerprints
-- and its mode are not modelled.
--
-- Not modelled elsewhere in the repository: the user interface (frontend), the routes and the server
-- (backend/index.js, backend/routes), the repositories over SQL and the schema of the database
-- (backend/db), the calls of Logto's management interface (backend/services/logtoManagement.js), the
-- queues, and the generated catalogs of core/authz, which are input and output, wiring or data; and
-- the remaining services of backend, among them the policies that no file above names, the protocol,
-- users and groups of backend/scim, the adapters of backend/identity-federation, and the mapping
-- engine of backend/organization-mapping.
pub mod Authz
pub mod Deployment
pub mod Deprovision
pub mod Migrations
pub mod Planning
pub mod Prelude
pub mod Provisioning
pub mod Reconciliation
pub mod RoleGuard
pub mod Taxonomy
pub mod Worker
