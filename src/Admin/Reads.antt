-- ===== src/Admin/Reads.antt =====
-- contracts/events/src/admin.rs: the reads of the configuration.
use boundless_contract.Base.{ℕ, Bool, Option}
use boundless_contract.Types.{Address, Text, PendingUpgrade, not_initialized}
use boundless_contract.Chain.{Call, ok_or, ◌>>=◌}
use boundless_contract.Storage.Config

abbrev pub get_admin : Call Address
get_admin = Config.get_admin

abbrev pub get_fee_bps : Call ℕ
get_fee_bps = Config.get_fee_bps

abbrev pub get_fee_account : Call Address
get_fee_account = Config.get_fee_account

abbrev pub get_profile_contract : Call Address
get_profile_contract = Config.get_profile_contract

abbrev pub is_paused : Call Bool
is_paused = Config.is_paused

abbrev pub get_version : Call Text
get_version = do ok_or (← Config.get_version) not_initialized

abbrev pub get_pending_upgrade : Call (Option PendingUpgrade)
get_pending_upgrade = Config.get_pending_upgrade

abbrev pub get_migrated_to_version : Call (Option Text)
get_migrated_to_version = Config.get_migrated_to_version
