-- ===== src/Accounts.antt =====
-- dev/team-skill-service/src/account-store.ts: identities, organizations, projects and sessions.
pub mod Records
pub mod Views
pub mod Sessions
pub mod Organizations
pub mod Users
pub mod Projects
pub mod Members
pub mod Assets
pub mod Directory
pub mod Commands
pub mod Cases
pub mod Admins
pub mod Reading
pub mod Lifecycle
pub mod Forward
pub mod Writers
pub mod Owners
pub mod Relating
pub mod History
pub mod Trail
pub mod Tokens
pub mod Access
pub mod Moving
pub mod Remaining
pub mod Rotation
