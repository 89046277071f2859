-- ===== src/Pam.antt =====
-- The check at login and unlock: the protocol of crates/tb-proto, the daemon's side of it in
-- crates/tb-daemon/src/pamserver.rs, and the module of crates/tb-pam that asks.
pub mod Protocol
pub mod Texts
pub mod Server
pub mod Module
pub mod Options
pub mod Login
pub mod Agreement
