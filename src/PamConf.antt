-- ===== src/PamConf.antt =====
-- crates/tb-cli/src/pamconf.rs: the editing of /etc/pam.d.
pub mod Lines
pub mod Block
pub mod Directory
pub mod Dropping
pub mod Placing
pub mod Roundtrip
pub mod First
pub mod Switching
pub mod Backups
