-- ===== src/ProfileContract/Requests.antt =====
-- contracts/profile/src/lib.rs: the calls that change the profile contract, and runs of them.
pub mod Book
pub mod Authority
pub mod Binding
use boundless_contract.Base.{⊤, ℕ, List, [], ◌∷◌}
use boundless_contract.Base.Int.{ℤ}
use boundless_contract.Types.{Address, OpId, Text, WasmHash}
use boundless_contract.Host.{Result, ok}
use boundless_contract.Chain.{Env}
use boundless_contract.ProfileContract.Data.{Request, ProfileState, ProfileError}
use boundless_contract.ProfileContract.Admin.{
  initialize, set_admin, accept_admin, set_events_contract, propose_events_contract,
  accept_events_contract, cancel_pending_events_contract, pause, unpause,
}
use boundless_contract.ProfileContract.Upgrade.{
  propose_upgrade, apply_upgrade, cancel_pending_upgrade, migrate,
}
use boundless_contract.ProfileContract.Scores.{
  bootstrap, bootstrap_self, bump, admin_slash, register,
}

pub data ProfileRequest : Type 0 where
  constructor_request set_admin_request set_events_contract_request : Address → ProfileRequest
  accept_admin_request accept_events_contract_request : ProfileRequest
  propose_events_contract_request : Address → ProfileRequest
  cancel_pending_events_contract_request pause_request unpause_request : ProfileRequest
  propose_upgrade_request : WasmHash → Text → ProfileRequest
  apply_upgrade_request cancel_pending_upgrade_request migrate_request : ProfileRequest
  bootstrap_request bootstrap_self_request : Address → OpId → ProfileRequest
  bump_reputation_request : Address → ℕ → Text → OpId → ProfileRequest
  register_earnings_request : Address → Address → ℤ → OpId → ProfileRequest
  admin_slash_reputation_request : Address → ℕ → Text → OpId → ProfileRequest

unfoldable pub serve : ProfileRequest → Request ⊤
serve (constructor_request a) = initialize a
serve (set_admin_request a) = set_admin a
serve (set_events_contract_request a) = set_events_contract a
serve accept_admin_request = accept_admin
serve accept_events_contract_request = accept_events_contract
serve (propose_events_contract_request a) = propose_events_contract a
serve cancel_pending_events_contract_request = cancel_pending_events_contract
serve pause_request = pause
serve unpause_request = unpause
serve (propose_upgrade_request h v) = propose_upgrade h v
serve apply_upgrade_request = apply_upgrade
serve cancel_pending_upgrade_request = cancel_pending_upgrade
serve migrate_request = migrate
serve (bootstrap_request u op) = bootstrap u op
serve (bootstrap_self_request u op) = bootstrap_self u op
serve (bump_reputation_request u d why op) = bump u d why op
serve (register_earnings_request u t a op) = register u t a op
serve (admin_slash_reputation_request u d why op) = admin_slash u d why op

-- A call that fails leaves the state as it was.
abbrev kept : ProfileState → Result ProfileError (⊤ × ProfileState) → ProfileState
kept s (ok (_, s')) = s'
kept s _ = s

unfoldable pub attempt : Env → ProfileRequest → ProfileState → ProfileState
attempt e r s = kept s (serve r e s)

-- One call after another, each with the environment that it meets.
unfoldable pub run : List (Env × ProfileRequest) → ProfileState → ProfileState
run [] s = s
run ((e, r) ∷ rest) s = run rest (attempt e r s)
