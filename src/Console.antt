-- ===== src/Console.antt =====
-- dev/team-skill-admin/src/lib: what the admin console computes from the data that it reads.
pub mod Assets
pub mod Workspaces
pub mod Governance
pub mod Observability
pub mod Proposals
pub mod Merging
