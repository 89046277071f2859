-- ===== src/AgentServer.antt =====
-- crates/tb-daemon/src/agentserver.rs: what the daemon does with a report, and what it answers.
pub mod Messages
pub mod Outlook
pub mod Receiver
pub mod Requests
pub mod Grants
pub mod Verdicts
