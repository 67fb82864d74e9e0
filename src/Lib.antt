-- ===== src/Lib.antt =====
-- Verification of DSH AI Coding. Of the plugin: the telemetry collector, the context ledger, the
-- evidence, the records and the installer of skills, the loops on knowledge and memory, and the
-- deployment declaration. Of the platform service that it talks to: the account store. Of the admin
-- console: what its pages compute.
--
-- The collector captures records of a session, projects them to structured facts, keeps these in a
-- durable queue and delivers them in batches of one project:
--   Telemetry/Event       src/types.ts: the events and their details.
--   Telemetry/Settings    src/telemetry/settings.ts: `resolveTelemetrySettings`.
--   Telemetry/Queue       src/telemetry/queue.ts. Table has the rows of `telemetry_events` and the SQL
--     statements, Store the class with `enqueue`, `enqueueGap`, `enforceCapacity` and `recordGap`, Claims
--     `pendingBatch` (Batching) and `acknowledge`, `releaseClaim` and `reportFailure` (Answering), Upkeep
--     the revocations, clears, expiries and totals, Commands the methods as one step function.
--   Telemetry/Projection  src/telemetry/projection.ts: Steps has the turns, steps and tool calls, Ledger
--     the approvals, the compactions and `project`.
--   Telemetry/Reporter    src/telemetry/reporter.ts: Pipeline has the state and `recoverBatch`, Drain
--     `acknowledgeBatch`, Loop `runDrain`, Control the status, the pause and the drain in flight.
--   Telemetry/Collector   src/telemetry/backend.ts: Capture has the bindings and `emit`, Control
--     `clearPending`.
--   Context               src/context-ledger.ts: `buildContextLedger`.
--   Installs              src/install-stages.ts and src/installation-store.ts; Artifact and Installer
--     src/installer.ts, the checks of an archive and the changes of the scope root.
--   Loops                 src/loop-utils.ts; Knowledge src/knowledge-loop.ts, Memory src/memory-loop.ts:
--     the searches before a step of the agent and the capture of its turns.
--   Deployment            src/deployment-contract.ts.
-- The account store, dev/team-skill-service/src/account-store.ts, keeps the identities, organizations,
-- projects, sessions and audits that the routes of the service ask for:
--   Accounts/Records       the records, with the audit log in Audits; Accounts/Views what callers see.
--   Accounts/Sessions      `authenticate`, `login`, `refresh`, `logout`, `changePassword`.
--   Accounts/Organizations `createOrganization`, `updateOrganization` and the reads.
--   Accounts/Users         `listUsers` and the guards; Changes `createUser`, `updateUser`,
--     `setMembership`, `removeMembership`.
--   Accounts/Projects      `authorizeProject` and the reads; Changes `createProject`, `updateProject`,
--     `activateProject`, `archiveProject`. Accounts/Members: the members of a project.
--   Accounts/Assets        the relations of projects to assets and their reads; Changes their changes.
--   Accounts/Directory     `accessSummary` and `listAudits`; People the directory and small reads.
--   Accounts/Commands      every method that may change the store, as one step function.
-- The admin console, dev/team-skill-admin/src/lib, computes what its pages show:
--   Console/Assets         asset-health.ts. Console/Workspaces: workspace-ops.ts.
--   Console/Governance     project-governance.ts and the batch of permission-chain.ts.
--   Console/Observability  observability.ts.
-- The other modules below these prove what their names say; Examples runs the definitions.
--
-- A table is the list of its rows in the order of their rowid, an instant a number of milliseconds, and
-- `x <= now - t` is written `x + t ≤ now`. A transaction is given whether SQLite raises before its
-- commit, and then leaves the tables. `randomUUID` draws from a sequence, which theorems that need it
-- assume to repeat no value. The reporter is given the answers of the clock, the storage, the account
-- service and the sender, and for each awaited send what other callers do to the queue meanwhile.
-- A JSON number is a natural number or not finite. Maps are association lists.
--
-- A method of the account store reads one instant, `now`. Its maps keep the order in which keys were
-- put, its answer is the store that it leaves and a view or a failure of a status and a code; the
-- texts of failures are left out. An object that a map holds is changed under its key. `randomUUID`
-- draws from a sequence that the store counts, the ids of new accounts and projects are the first
-- eight characters of a draw, and `toLocaleLowerCase`, `localeCompare` and the removal of dashes
-- are parameters.
--
-- An installation works on the directories of its scope root, which lie beside one another: a function
-- from their names to the regular files below them, and whether the root is made. Which calls of `fs`
-- raise, and the random names, are arguments; ZIP, YAML, SHA-256, the decoding of bytes,
-- `localeCompare`, `toLowerCase` and the resolution of paths are parameters. A listener of the loops is
-- given the answers of the agent, of the services and of the rest of the waterfall, and
-- `createUserMessage`; a capture is a part before its wait and a part after it, so that others may come
-- between them.
--
-- The loop of `enforceCapacity` runs on fuel, the number of regular rows: each round drops at least one
-- and adds none, so it is enough. The drain loop runs on fuel that the caller gives, since other
-- callers may enqueue events for as long as it runs.
--
-- Not modelled: the redaction of summaries by regular expressions (src/telemetry/sanitize.ts, a parameter),
-- the file lock and the files of the installation store, special files and permissions on the disk of the
-- installer, the host, the gateways, the HTTP clients, the workspace host and the browser client, since
-- they are wiring of services, files, HTTP and views; the seed data and the fixed role and permission
-- lists of the account store, the routes and fixtures of its service, and the pages, the HTTP
-- client and the event stream of the admin console.
pub mod Accounts
pub mod Console
pub mod Base
pub mod Context
pub mod Deployment
pub mod Examples
pub mod Installs
pub mod Loops
pub mod Telemetry
