-- ===== src/Storage.antt =====
-- contracts/events/src/storage.rs: the reads and writes of the storage, one for each function there.
pub mod Config
pub mod Tokens
pub mod Event
pub mod People
