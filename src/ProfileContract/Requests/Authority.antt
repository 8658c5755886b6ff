-- ===== src/ProfileContract/Requests/Authority.antt =====
-- contracts/profile: who can change a reputation or an entry of earnings, and by how much.
use boundless_contract.Base.{
  ◌≡◌, ◌≢◌, Bool, true, false, Option, none, some, unwrap_or, arith, inl, inr, Option-cases,
}
use boundless_contract.Base.Int.{ℤ, pos, ◌<ℤ◌, checked_add, checked_add_sum, +ℤ_parts}
use boundless_contract.Types.{Address, OpId}
use boundless_contract.Chain.{Env, ok}
use boundless_contract.ProfileContract.Data.{ProfileState, UserProfile}
use boundless_contract.ProfileContract.Admin.{
  initialize, set_admin, accept_admin, set_events_contract, propose_events_contract,
  accept_events_contract, cancel_pending_events_contract, pause, unpause,
}
use boundless_contract.ProfileContract.Upgrade.{
  propose_upgrade, apply_upgrade, cancel_pending_upgrade, migrate,
}
use boundless_contract.ProfileContract.Scores.{
  bootstrap, bootstrap_self, bump, admin_slash, register,
}
use boundless_contract.ProfileContract.Requests.{
  ProfileRequest, serve, constructor_request, set_admin_request, set_events_contract_request,
  accept_admin_request, accept_events_contract_request, propose_events_contract_request,
  cancel_pending_events_contract_request, pause_request, unpause_request, propose_upgrade_request,
  apply_upgrade_request, cancel_pending_upgrade_request, migrate_request, bootstrap_request,
  bootstrap_self_request, bump_reputation_request, register_earnings_request,
  admin_slash_reputation_request,
}

-- A stored address is there and has signed.
abbrev pub signed_by : Env → Option Address → Bool
signed_by e none = false
signed_by e (some a) = e.authorized a

-- No call removes a profile or changes when it was made.
pub bootstrapped_at-serve :
    (u : Address) (r : ProfileRequest) (e : Env) (s : ProfileState) (p : UserProfile)
    {s' : ProfileState}
    → serve r e s ≡ ok (tt, s')
    → s.profile u ≡ some p
    → (p' : UserProfile) × (s'.profile u ≡ some p') × (p'.bootstrapped_at ≡ p.bootstrapped_at)
unfolding serve initialize set_admin accept_admin set_events_contract propose_events_contract
    accept_events_contract cancel_pending_events_contract pause unpause propose_upgrade
    apply_upgrade cancel_pending_upgrade migrate bootstrap bootstrap_self bump admin_slash register
bootstrapped_at-serve u r e s p {s'} h k = elim (Option-cases (s'.profile u)) [
  | inl gone ↦ absurd (ground arith)
  | inr (p', there) ↦ (p', there, ground arith)
]

register-grows :
    (x y u t : Address) (a : ℤ) (op : OpId) (e : Env) (s : ProfileState) {s' : ProfileState}
    → register x y a op e s ≡ ok (tt, s')
    → unwrap_or (s'.earnings_by_token u t) (pos 0) ≢ unwrap_or (s.earnings_by_token u t) (pos 0)
    → (signed_by e s.events_contract ≡ true)
      × (unwrap_or (s.earnings_by_token u t) (pos 0)
          <ℤ unwrap_or (s'.earnings_by_token u t) (pos 0))
unfolding register
register-grows x y u t a op e s h moved =
    let before = unwrap_or (s.earnings_by_token x y) (pos 0) in
    elim (Option-cases (checked_add before a)) [
      | inl over ↦ absurd (ground arith)
      | inr (c, sum) ↦
          let total = checked_add_sum before a c sum in
          let parts = +ℤ_parts before a in (ground arith, ground (arith, total, parts))
    ]

-- A call that moves an entry of earnings is signed by the events contract and raises it.
pub earnings-serve :
    (u t : Address) (r : ProfileRequest) (e : Env) (s : ProfileState) {s' : ProfileState}
    → serve r e s ≡ ok (tt, s')
    → unwrap_or (s'.earnings_by_token u t) (pos 0) ≢ unwrap_or (s.earnings_by_token u t) (pos 0)
    → (signed_by e s.events_contract ≡ true)
      × (unwrap_or (s.earnings_by_token u t) (pos 0)
          <ℤ unwrap_or (s'.earnings_by_token u t) (pos 0))
unfolding serve initialize set_admin accept_admin set_events_contract propose_events_contract
    accept_events_contract cancel_pending_events_contract pause unpause propose_upgrade
    apply_upgrade cancel_pending_upgrade migrate bootstrap bootstrap_self bump admin_slash
earnings-serve u t (constructor_request a) e s h moved = absurd (ground arith)
earnings-serve u t (set_admin_request a) e s h moved = absurd (ground arith)
earnings-serve u t (set_events_contract_request a) e s h moved = absurd (ground arith)
earnings-serve u t accept_admin_request e s h moved = absurd (ground arith)
earnings-serve u t accept_events_contract_request e s h moved = absurd (ground arith)
earnings-serve u t (propose_events_contract_request a) e s h moved = absurd (ground arith)
earnings-serve u t cancel_pending_events_contract_request e s h moved = absurd (ground arith)
earnings-serve u t pause_request e s h moved = absurd (ground arith)
earnings-serve u t unpause_request e s h moved = absurd (ground arith)
earnings-serve u t (propose_upgrade_request w v) e s h moved = absurd (ground arith)
earnings-serve u t apply_upgrade_request e s h moved = absurd (ground arith)
earnings-serve u t cancel_pending_upgrade_request e s h moved = absurd (ground arith)
earnings-serve u t migrate_request e s h moved = absurd (ground arith)
earnings-serve u t (bootstrap_request x op) e s h moved = absurd (ground arith)
earnings-serve u t (bootstrap_self_request x op) e s h moved = absurd (ground arith)
earnings-serve u t (bump_reputation_request x d why op) e s h moved = absurd (ground arith)
earnings-serve u t (register_earnings_request x y a op) e s h moved =
    register-grows x y u t a op e s h moved
earnings-serve u t (admin_slash_reputation_request x d why op) e s h moved = absurd (ground arith)
