-- ===== src/Storage/Config.antt =====
-- contracts/events/src/storage.rs: the instance entries and the idempotency flags.
use boundless_contract.Base.{⊤, ℕ, Bool, false, Option, none, some, unwrap_or}
use boundless_contract.Base.Maps.{update}
use boundless_contract.Types.{Address, OpId, Text, PendingRotation, PendingUpgrade, not_initialized}
use boundless_contract.Chain.{
  Call, lives, live_until, asks, gets, ok_or, modify, modify_config, ◌>>=◌,
}

abbrev pub get_admin : Call Address
get_admin = do ok_or (← gets (λ s. s.config.admin)) not_initialized

abbrev pub set_admin : Address → Call ⊤
set_admin a = modify_config (λ c. record c { admin = some a })

abbrev pub get_pending_admin : Call (Option PendingRotation)
get_pending_admin = gets (λ s. s.config.pending_admin)

abbrev pub set_pending_admin : PendingRotation → Call ⊤
set_pending_admin p = modify_config (λ c. record c { pending_admin = some p })

abbrev pub clear_pending_admin : Call ⊤
clear_pending_admin = modify_config (λ c. record c { pending_admin = none })

abbrev pub get_fee_account : Call Address
get_fee_account = do ok_or (← gets (λ s. s.config.fee_account)) not_initialized

abbrev pub set_fee_account : Address → Call ⊤
set_fee_account a = modify_config (λ c. record c { fee_account = some a })

abbrev pub get_fee_bps : Call ℕ
get_fee_bps = do ok_or (← gets (λ s. s.config.fee_bps)) not_initialized

abbrev pub set_fee_bps : ℕ → Call ⊤
set_fee_bps n = modify_config (λ c. record c { fee_bps = some n })

abbrev pub get_profile_contract : Call Address
get_profile_contract = do ok_or (← gets (λ s. s.config.profile_contract)) not_initialized

abbrev pub set_profile_contract : Address → Call ⊤
set_profile_contract a = modify_config (λ c. record c { profile_contract = some a })

abbrev pub is_paused : Call Bool
is_paused = gets (λ s. unwrap_or s.config.paused false)

abbrev pub set_paused : Bool → Call ⊤
set_paused b = modify_config (λ c. record c { paused = some b })

abbrev pub get_release_validator : Call (Option Address)
get_release_validator = gets (λ s. s.config.release_validator)

abbrev pub set_release_validator : Option Address → Call ⊤
set_release_validator v = modify_config (λ c. record c { release_validator = v })

abbrev pub get_pending_release_validator : Call (Option PendingRotation)
get_pending_release_validator = gets (λ s. s.config.pending_release_validator)

abbrev pub set_pending_release_validator : PendingRotation → Call ⊤
set_pending_release_validator p =
    modify_config (λ c. record c { pending_release_validator = some p })

abbrev pub clear_pending_release_validator : Call ⊤
clear_pending_release_validator = modify_config (λ c. record c { pending_release_validator = none })

abbrev pub get_paused_at : Call (Option ℕ)
get_paused_at = gets (λ s. s.config.paused_at)

abbrev pub set_paused_at : Option ℕ → Call ⊤
set_paused_at t = modify_config (λ c. record c { paused_at = t })

abbrev pub get_paused_seconds : Call ℕ
get_paused_seconds = gets (λ s. unwrap_or s.config.paused_seconds 0)

abbrev pub set_paused_seconds : ℕ → Call ⊤
set_paused_seconds n = modify_config (λ c. record c { paused_seconds = some n })

abbrev pub get_deployment_seq : Call ℕ
get_deployment_seq = gets (λ s. unwrap_or s.config.deployment_seq 0)

abbrev pub set_deployment_seq : ℕ → Call ⊤
set_deployment_seq n = modify_config (λ c. record c { deployment_seq = some n })

abbrev pub get_version : Call (Option Text)
get_version = gets (λ s. s.config.version)

abbrev pub set_version : Text → Call ⊤
set_version v = modify_config (λ c. record c { version = some v })

abbrev pub get_pending_upgrade : Call (Option PendingUpgrade)
get_pending_upgrade = gets (λ s. s.config.pending_upgrade)

abbrev pub set_pending_upgrade : PendingUpgrade → Call ⊤
set_pending_upgrade p = modify_config (λ c. record c { pending_upgrade = some p })

abbrev pub clear_pending_upgrade : Call ⊤
clear_pending_upgrade = modify_config (λ c. record c { pending_upgrade = none })

abbrev pub get_migration_cursor : Call (Option ℕ)
get_migration_cursor = gets (λ s. s.config.migration_cursor)

abbrev pub set_migration_cursor : ℕ → Call ⊤
set_migration_cursor id = modify_config (λ c. record c { migration_cursor = some id })

abbrev pub get_migrated_to_version : Call (Option Text)
get_migrated_to_version = gets (λ s. s.config.migrated_to_version)

abbrev pub set_migrated_to_version : Text → Call ⊤
set_migrated_to_version v = modify_config (λ c. record c { migrated_to_version = some v })

abbrev pub get_next_event_id : ℕ → Call ℕ
get_next_event_id fallback = gets (λ s. unwrap_or s.config.next_event_id fallback)

abbrev pub set_next_event_id : ℕ → Call ⊤
set_next_event_id id = modify_config (λ c. record c { next_event_id = some id })

-- A temporary entry is there until its last ledger. It is written where it is not, by handlers that have
-- called `require_unseen`; the host then gives it the minimum lifetime.
abbrev pub is_op_seen : Address → OpId → Call Bool
is_op_seen domain op = do entry ← gets (λ s. s.op_seen domain op); asks (λ e. lives e entry)

abbrev pub mark_op_seen : Address → OpId → Call ⊤
mark_op_seen domain op = do
  last ← asks live_until
  modify (λ s. record s {
    op_seen = update s.op_seen domain (update (s.op_seen domain) op (some last));
  })
