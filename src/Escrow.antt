-- ===== src/Escrow.antt =====
-- contracts/events/src/escrow.rs: the platform fee, deposits into the contract and releases from it.
pub mod Fees
use boundless_contract.Base.{⊤, ℕ, Bool, Option, none, some}
use boundless_contract.Base.Int.{
  ℤ, pos, ltb_ℤ, saturating_add, saturating_sub, saturating_mul, quot,
}
use boundless_contract.Types.{Address}
use boundless_contract.Chain.{Call, pure, asks, when, transfer, try_transfer, ◌>>=◌, ◌>>◌}
use boundless_contract.Storage.Config.{get_fee_bps, get_fee_account}

abbrev pub effective_fee_bps : Option ℕ → Call ℕ
effective_fee_bps (some bps) = pure bps
effective_fee_bps none = get_fee_bps

unfoldable pub compute_fee_at : ℤ → ℕ → ℤ
compute_fee_at amount bps = quot (saturating_mul amount (pos bps)) 10000

abbrev pub current_contract_address : Call Address
current_contract_address = asks (λ e. e.current_contract_address)

unfoldable pub deposit_with_fee_at : Address → Address → ℤ → ℕ → Call ℤ
deposit_with_fee_at token from amount bps = do
  let fee = compute_fee_at amount bps
  let total = saturating_add amount fee
  contract ← current_contract_address
  fee_account ← get_fee_account
  transfer token from contract total
  when (ltb_ℤ (pos 0) fee) (transfer token contract fee_account fee)
  pure amount

unfoldable pub release : Address → Address → ℤ → Call ⊤
release token recipient amount = do
  contract ← current_contract_address
  transfer token contract recipient amount

unfoldable pub try_release : Address → Address → ℤ → Call Bool
try_release token recipient amount = do
  contract ← current_contract_address
  try_transfer token contract recipient amount

unfoldable pub deposit_no_fee : Address → Address → ℤ → Call ℤ
deposit_no_fee token from amount = do
  contract ← current_contract_address
  transfer token from contract amount
  pure amount

unfoldable pub release_with_fee_at : Address → Address → ℤ → ℕ → Call ⊤
release_with_fee_at token recipient amount bps = do
  let fee = compute_fee_at amount bps
  let net = saturating_sub amount fee
  contract ← current_contract_address
  when (ltb_ℤ (pos 0) net) (transfer token contract recipient net)
  when (ltb_ℤ (pos 0) fee)
      (do fee_account ← get_fee_account; transfer token contract fee_account fee)
