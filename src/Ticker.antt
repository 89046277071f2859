-- ===== src/Ticker.antt =====
-- crates/tb-daemon/src/tick.rs: the enforcement loop, one user at a time. What the loop asks of the
-- login manager, the notifier and the store is a list of effects, in their order; what these answer
-- in one tick is the record `Answers`.
pub mod State
pub mod Effects
pub mod Enforce
pub mod Warnings
pub mod Decide
pub mod Observe
pub mod User
pub mod Loop
