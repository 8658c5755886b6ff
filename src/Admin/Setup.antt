-- ===== src/Admin/Setup.antt =====
-- contracts/events/src/admin.rs and token_whitelist.rs: initialization, the fee configuration, the
-- profile binding and the token whitelist.
use boundless_contract.Base.{⊤, ℕ, true, false, not, is_some, [], ◌∷◌, ltb}
use boundless_contract.Types.{
  Address, Text, already_initialized, invalid_fee_bps, token_not_supported,
}
use boundless_contract.Notices.{
  admin_updated, fee_account_updated, fee_bps_updated, profile_contract_updated, token_registered,
  token_deregistered,
}
use boundless_contract.Chain.{Call, gets, asks, fail_if, modify_tokens, publish, ◌>>=◌, ◌>>◌}
use boundless_contract.Storage.Config
use boundless_contract.Storage.Tokens.{
  is_token_supported, set_token_supported, append_supported_token, remove_supported_token,
}
use boundless_contract.Admin.Guards.{require_admin}

abbrev pub max_fee_bps : ℕ
max_fee_bps = 1000

-- "2.1.0"
abbrev pub initial_version : Text
initial_version = b'2' ∷ b'.' ∷ b'1' ∷ b'.' ∷ b'0' ∷ []

unfoldable pub initialize : Address → Address → ℕ → Address → Call ⊤
initialize admin fee_account fee_bps profile_contract = do
  initialized ← gets (λ s. is_some s.config.admin)
  fail_if initialized already_initialized
  fail_if (ltb max_fee_bps fee_bps) invalid_fee_bps
  Config.set_admin admin
  Config.set_fee_account fee_account
  Config.set_fee_bps fee_bps
  Config.set_profile_contract profile_contract
  now ← asks (λ e. e.sequence)
  Config.set_deployment_seq now
  Config.set_paused false
  Config.set_version initial_version
  publish (admin_updated admin)
  publish (fee_account_updated fee_account)
  publish (fee_bps_updated fee_bps)
  publish (profile_contract_updated profile_contract)

unfoldable pub set_fee_bps : ℕ → Call ⊤
set_fee_bps new_bps = do
  require_admin
  fail_if (ltb max_fee_bps new_bps) invalid_fee_bps
  Config.set_fee_bps new_bps
  publish (fee_bps_updated new_bps)

unfoldable pub set_fee_account : Address → Call ⊤
set_fee_account new_account = do
  require_admin
  Config.set_fee_account new_account
  publish (fee_account_updated new_account)

unfoldable pub set_profile_contract : Address → Call ⊤
set_profile_contract new_addr = do
  require_admin
  Config.set_profile_contract new_addr
  publish (profile_contract_updated new_addr)

unfoldable pub register : Address → Call ⊤
register token = do
  require_admin
  set_token_supported token true
  modify_tokens (append_supported_token token)
  publish (token_registered token)

unfoldable pub deregister : Address → Call ⊤
deregister token = do
  require_admin
  set_token_supported token false
  modify_tokens (remove_supported_token token)
  publish (token_deregistered token)

abbrev pub require_supported : Address → Call ⊤
require_supported token = do fail_if (not (← is_token_supported token)) token_not_supported
