-- ===== src/Notices.antt =====
-- contracts/events/src/events.rs: the contract events that the handlers publish.
use boundless_contract.Base.{ℕ, Option}
use boundless_contract.Base.Int.{ℤ}
use boundless_contract.Types.{Address, WasmHash, Text, Pillar, CancellationBranch}

pub data Notice : Type 0 where
  -- id, pillar, owner, token, total_budget, content_uri, title
  event_created : ℕ → Pillar → Address → Address → ℤ → Text → Text → Notice
  event_cancelled : ℕ → Notice
  -- event_id, target, expires_at_ledger
  manager_proposed : ℕ → Address → ℕ → Notice
  manager_changed : ℕ → Address → Notice
  pending_manager_cancelled : ℕ → Notice
  -- event_id, contributor, amount, new_remaining
  funds_added : ℕ → Address → ℤ → ℤ → Notice
  contributor_refunded : ℕ → Address → ℤ → Notice
  -- event_id, recipient, position, amount
  winner_awarded : ℕ → Address → ℕ → ℤ → Notice
  -- event_id, branch, remaining, non_owner_total
  cancellation_started : ℕ → CancellationBranch → ℤ → ℤ → Notice
  -- event_id, recipient, milestone, and a fee or an amount
  milestone_fee_charged milestone_forfeited milestone_claimed : ℕ → Address → ℕ → ℤ → Notice
  refund_deferred owner_residual_refunded : ℕ → Address → ℤ → Notice
  winners_selected : ℕ → ℕ → Notice
  -- event_id, recipient, position, amount, milestone
  winner_paid : ℕ → Address → ℕ → ℤ → Option ℕ → Notice
  token_registered token_deregistered : Address → Notice
  admin_updated pending_admin_set fee_account_updated : Address → Notice
  release_validator_proposed : Address → ℕ → Notice
  validator_proposal_cancelled : Notice
  release_validator_updated : Option Address → Notice
  management_reclaimed : ℕ → Address → Notice
  fee_bps_updated : ℕ → Notice
  profile_contract_updated : Address → Notice
  contract_paused contract_unpaused : Notice
  upgraded : WasmHash → Notice
  -- wasm_hash, new_version, available_at_ledger, expires_at_ledger
  pending_upgrade_proposed : WasmHash → Text → ℕ → ℕ → Notice
  pending_upgrade_cancelled : ℕ → Notice
  upgrade_applied : WasmHash → Text → Notice
  migrated : Text → Text → Notice
