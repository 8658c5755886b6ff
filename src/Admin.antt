-- ===== src/Admin.antt =====
-- contracts/events/src/admin.rs and token_whitelist.rs: the configuration of the contract, the
-- two-step rotations, the pause, the timelocked upgrade and the migration.
pub mod Guards
pub mod Rotation
pub mod Pause
pub mod Upgrade
pub mod Migrate
pub mod Setup
pub mod Reads
