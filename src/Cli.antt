-- ===== src/Cli.antt =====
-- crates/tb-cli: the commands of `tbctl`.
pub mod Doctor
pub mod Checked
pub mod Commands
pub mod Granting
pub mod Importing
pub mod Reporting
pub mod Layout
