-- ===== src/Tests.antt =====
-- Concrete events, calls on them, and the theorems at those calls.
pub mod Samples
mod Prizes
mod Cancelling
mod Settings
mod Shares
mod Users
pub mod Accounts
mod Calls
mod Refunds
mod Keys
