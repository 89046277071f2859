-- ===== src/Store.antt =====
-- crates/tb-daemon/src/store.rs and policystore.rs: what the daemon keeps on disk.
pub mod Tables
pub mod Usage
pub mod Bonus
pub mod Permuted
pub mod Arrival
pub mod Order
pub mod Files
pub mod Queries
pub mod Versions
pub mod Adoption
