-- ===== src/Installs.antt =====
-- The installation of Team Skills: src/install-stages.ts,
-- src/installation-store.ts and src/installer.ts.
pub mod Stages
pub mod Evidence
pub mod Store
pub mod Records
pub mod Artifact
pub mod Installer
pub mod Renaming
pub mod Replacing
pub mod Contained
pub mod Checked
