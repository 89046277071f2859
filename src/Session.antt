-- ===== src/Session.antt =====
-- crates/tb-agent: the agent of a session, which tells the child how it stands.
pub mod AgentState
pub mod Focusing
pub mod Sets
pub mod Countdown
pub mod Refusals
pub mod Round
pub mod Bus
pub mod Notices
