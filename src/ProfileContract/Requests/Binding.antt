-- ===== src/ProfileContract/Requests/Binding.antt =====
-- contracts/profile: the events contract that the profile contract obeys is replaced only after the
-- timelock.
use boundless_contract.Base.{◌+◌, ◌≤◌, ◌<◌, ◌≡◌, ◌≢◌, true, some, arith, inl, inr, Option-cases}
use boundless_contract.Base.Word.{u32_max}
use boundless_contract.Types.{Address}
use boundless_contract.Chain.{Env, ok}
use boundless_contract.ProfileContract.Data.{ProfileState, PendingEventsContract}
use boundless_contract.ProfileContract.Admin.{
  initialize, set_admin, accept_admin, set_events_contract, propose_events_contract,
  accept_events_contract, cancel_pending_events_contract, pause, unpause,
}
use boundless_contract.ProfileContract.Upgrade.{
  propose_upgrade, apply_upgrade, cancel_pending_upgrade, migrate,
}
use boundless_contract.ProfileContract.Scores.{
  bootstrap, bootstrap_self, bump, admin_slash, register,
}
use boundless_contract.ProfileContract.Requests.{ProfileRequest, serve}
use boundless_contract.ProfileContract.Requests.Authority.{signed_by}

-- Once an events contract is bound, a call that binds another carries the admin's signature and carries
-- out a stored proposal of that address that is at least 17,280 ledgers old and has not expired. The
-- premise on the ledger number is that it is below the greatest `u32`.
pub events_contract-serve :
    (r : ProfileRequest) (e : Env) (s : ProfileState) (a b : Address) {s' : ProfileState}
    → serve r e s ≡ ok (tt, s')
    → s.events_contract ≡ some a
    → s'.events_contract ≡ some b
    → b ≢ a
    → e.sequence < u32_max
    → (p : PendingEventsContract) × (s.pending_events_contract ≡ some p)
      × (p.target ≡ b)
      × (p.proposed_at_ledger + 17280 ≤ e.sequence)
      × (e.sequence ≤ p.expires_at_ledger)
      × (signed_by e s.admin ≡ true)
unfolding serve initialize set_admin accept_admin set_events_contract propose_events_contract
    accept_events_contract cancel_pending_events_contract pause unpause propose_upgrade
    apply_upgrade cancel_pending_upgrade migrate bootstrap bootstrap_self bump admin_slash register
events_contract-serve r e s a b h ha hb other fits = elim (Option-cases s.pending_events_contract) [
  | inl none_ ↦ absurd (ground arith)
  | inr (p, stored) ↦ (p, stored, ground arith, ground arith, ground arith, ground arith)
]
