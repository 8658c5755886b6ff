-- ===== src/EventOps.antt =====
-- contracts/events/src/event_ops.rs: the handlers of the event lifecycle.
pub mod Create
pub mod Manager
pub mod Contributors
pub mod Funds
pub mod Cancel
pub mod Select
pub mod Claim
pub mod Reads
pub mod Rows
pub mod Handlers
pub mod Solvency
