-- ===== src/ProfileContract.antt =====
-- contracts/profile: the contract that keeps a reputation and the earnings of each user.
pub mod Data
pub mod Store
pub mod Admin
pub mod Upgrade
pub mod Scores
pub mod Requests
pub mod Views
