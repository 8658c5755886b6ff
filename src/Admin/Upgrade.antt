-- ===== src/Admin/Upgrade.antt =====
-- contracts/events/src/admin.rs: the timelocked upgrade. The model is that of the mainnet build, whose
-- timelock is 17,280 ledgers; the `testnet` feature sets it to 0.
pub mod Timelock
use boundless_contract.Base.{⊤, ℕ, not, is_some, ltb, ◌==◌, length}
use boundless_contract.Base.Word.{saturating_add32}
use boundless_contract.Types.{
  WasmHash, Text, invalid_pillar, upgrade_not_proposed, upgrade_timelock_not_elapsed,
  upgrade_proposal_expired,
}
use boundless_contract.Notices.{
  upgraded, pending_upgrade_proposed, pending_upgrade_cancelled, upgrade_applied,
}
use boundless_contract.Chain.{Call, asks, ok_or, fail_if, modify, publish, ◌>>=◌, ◌>>◌}
use boundless_contract.Storage.Config.{
  get_pending_upgrade, set_pending_upgrade, clear_pending_upgrade, set_version,
}
use boundless_contract.Admin.Guards.{require_admin}

abbrev pub upgrade_timelock_ledgers : ℕ
upgrade_timelock_ledgers = 17280

abbrev pub pending_upgrade_ttl_ledgers : ℕ
pending_upgrade_ttl_ledgers = 518400

unfoldable pub propose_upgrade : WasmHash → Text → Call ⊤
propose_upgrade new_wasm_hash new_version = do
  require_admin
  fail_if (length new_version == 0) invalid_pillar
  now ← asks (λ e. e.sequence)
  let available_at = saturating_add32 now upgrade_timelock_ledgers
  let expires_at = saturating_add32 now pending_upgrade_ttl_ledgers
  set_pending_upgrade (record {
    wasm_hash = new_wasm_hash;
    new_version = new_version;
    proposed_at_ledger = now;
    available_at_ledger = available_at;
    expires_at_ledger = expires_at;
  })
  publish (pending_upgrade_proposed new_wasm_hash new_version available_at expires_at)

-- `deployer().update_current_contract`
abbrev pub update_current_contract : WasmHash → Call ⊤
update_current_contract h = modify (λ s. record s { executable = h })

unfoldable pub apply_upgrade : Call ⊤
apply_upgrade = do
  require_admin
  pending ← ok_or (← get_pending_upgrade) upgrade_not_proposed
  now ← asks (λ e. e.sequence)
  fail_if (ltb pending.expires_at_ledger now) upgrade_proposal_expired
  fail_if (ltb now pending.available_at_ledger) upgrade_timelock_not_elapsed
  update_current_contract pending.wasm_hash
  set_version pending.new_version
  clear_pending_upgrade
  publish (upgrade_applied pending.wasm_hash pending.new_version)
  publish (upgraded pending.wasm_hash)

unfoldable pub cancel_pending_upgrade : Call ⊤
cancel_pending_upgrade = do
  require_admin
  pending ← get_pending_upgrade
  fail_if (not (is_some pending)) upgrade_not_proposed
  clear_pending_upgrade
  now ← asks (λ e. e.sequence)
  publish (pending_upgrade_cancelled now)
