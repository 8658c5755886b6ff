-- ===== src/Grant.antt =====
-- contracts/events/src/grant.rs: what a milestone of an award pays, and the two ways to settle one.
pub mod Shares
pub mod Settle
