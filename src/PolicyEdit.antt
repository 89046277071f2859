-- ===== src/PolicyEdit.antt =====
-- crates/tb-cli/src/policyedit.rs: what `tbctl policy set` changes in a policy.
pub mod Parsing
pub mod Edit
pub mod Days
pub mod Accepted
pub mod Clock
