-- ===== src/ProfileContract/Upgrade.antt =====
-- contracts/profile/src/admin.rs: the timelocked upgrade, for the mainnet build, and the stamp of a
-- migration.
use boundless_contract.Base.{⊤, ℕ, not, is_some, unwrap_or, ltb, length, ◌==◌}
use boundless_contract.Base.Word.{saturating_add32}
use boundless_contract.Types.{Text, WasmHash}
use boundless_contract.Chain.{ok_or, fail_if, ◌>>=◌, ◌>>◌}
use boundless_contract.Admin.Migrate.{is_version, no_version}
use boundless_contract.ProfileContract.Data.{
  Request, admin_cannot_be_zero, not_initialized, upgrade_not_proposed,
  upgrade_timelock_not_elapsed, upgrade_proposal_expired, migration_already_applied, upgraded,
  pending_upgrade_proposed, pending_upgrade_cancelled, upgrade_applied, migrated,
}
use boundless_contract.ProfileContract.Store.{
  require_admin, sequence, get_pending_upgrade, set_pending_upgrade, clear_pending_upgrade,
  get_version, set_version, get_migrated_to_version, set_migrated_to_version,
  update_current_contract, publish,
}

abbrev pub upgrade_timelock_ledgers : ℕ
upgrade_timelock_ledgers = 17280

abbrev pub pending_upgrade_ttl_ledgers : ℕ
pending_upgrade_ttl_ledgers = 518400

unfoldable pub propose_upgrade : WasmHash → Text → Request ⊤
propose_upgrade new_wasm_hash new_version = do
  require_admin
  fail_if (length new_version == 0) admin_cannot_be_zero
  now ← sequence
  let available_at = saturating_add32 now upgrade_timelock_ledgers
  let expires_at = saturating_add32 now pending_upgrade_ttl_ledgers
  set_pending_upgrade (record {
    wasm_hash = new_wasm_hash;
    new_version = new_version;
    proposed_at_ledger = now;
    available_at_ledger = available_at;
    expires_at_ledger = expires_at;
  })
  publish (pending_upgrade_proposed new_wasm_hash new_version available_at expires_at)

unfoldable pub apply_upgrade : Request ⊤
apply_upgrade = do
  require_admin
  pending ← ok_or (← get_pending_upgrade) upgrade_not_proposed
  now ← sequence
  fail_if (ltb pending.expires_at_ledger now) upgrade_proposal_expired
  fail_if (ltb now pending.available_at_ledger) upgrade_timelock_not_elapsed
  update_current_contract pending.wasm_hash
  set_version pending.new_version
  clear_pending_upgrade
  publish (upgrade_applied pending.wasm_hash pending.new_version)
  publish (upgraded pending.wasm_hash)

unfoldable pub cancel_pending_upgrade : Request ⊤
cancel_pending_upgrade = do
  require_admin
  pending ← get_pending_upgrade
  fail_if (not (is_some pending)) upgrade_not_proposed
  clear_pending_upgrade
  now ← sequence
  publish (pending_upgrade_cancelled now)

unfoldable pub migrate : Request ⊤
migrate = do
  require_admin
  current ← ok_or (← get_version) not_initialized
  already ← get_migrated_to_version
  fail_if (is_version already current) migration_already_applied
  set_migrated_to_version current
  publish (migrated (unwrap_or already no_version) current)
