-- ===== src/Profile.antt =====
-- contracts/events/src/profile_client.rs and the end of `claim_prize` and `claim_milestone`: the three
-- best-effort calls of the profile contract, whose results the source drops.
use boundless_contract.Base.{⊤, ℕ}
use boundless_contract.Base.Int.{ℤ}
use boundless_contract.Types.{Address, OpId, Text}
use boundless_contract.Chain.{
  Call, call_profile, bootstrap, bump_reputation, register_earnings, ◌>>=◌, ◌>>◌,
}
use boundless_contract.Storage.Config.{get_profile_contract}
use boundless_contract.Idempotency.{
  derive_child, bootstrap_tag, bump_rep_tag, register_earnings_tag,
}

-- `domain` signed the payout; the calls are for `recipient`.
unfoldable pub report : Address → OpId → Address → ℕ → Text → Address → ℤ → Call ⊤
report domain op_id recipient bump reason token amount = do
  profile ← get_profile_contract
  bootstrap_op ← derive_child domain op_id bootstrap_tag
  call_profile profile (bootstrap recipient bootstrap_op)
  rep_op ← derive_child domain op_id bump_rep_tag
  call_profile profile (bump_reputation recipient bump reason rep_op)
  earnings_op ← derive_child domain op_id register_earnings_tag
  call_profile profile (register_earnings recipient token amount earnings_op)
