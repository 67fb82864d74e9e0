-- ===== src/Examples.antt =====
-- Runs of the definitions on concrete inputs.
mod Data
mod Queue
mod Reporter
mod Capture
mod Others
mod Loops
mod Installer
mod Accounts
mod Console
