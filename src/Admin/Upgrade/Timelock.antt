-- ===== src/Admin/Upgrade/Timelock.antt =====
-- contracts/events/src/admin.rs: the window in which a proposed upgrade can be applied.
use boundless_contract.Base.{◌+◌, ◌≤◌, ◌≡◌, some, none, true, arith}
use boundless_contract.Base.Word.{u32_max}
use boundless_contract.Types.{Address, WasmHash, Text, PendingUpgrade}
use boundless_contract.Chain.{Env, State, ok}
use boundless_contract.Admin.Upgrade.{propose_upgrade, apply_upgrade}

-- An upgrade that is applied while the proposal is still the stored one was proposed at least 17,280
-- ledgers and at most 518,400 ledgers before, and it installs exactly the wasm and the version that
-- were proposed and clears the proposal. The premise on the ledger numbers is that the window ends
-- within a `u32`.
pub apply_upgrade-propose_upgrade :
    (e1 e2 : Env) (s t : State) (h : WasmHash) (v : Text) {s' t' : State}
    → propose_upgrade h v e1 s ≡ ok (tt, s')
    → t.config.pending_upgrade ≡ s'.config.pending_upgrade
    → e1.sequence + 518400 ≤ u32_max
    → apply_upgrade e2 t ≡ ok (tt, t')
    → (e1.sequence + 17280 ≤ e2.sequence)
      × (e2.sequence ≤ e1.sequence + 518400)
      × (t'.executable ≡ h)
      × (t'.config.version ≡ some v)
      × (t'.config.pending_upgrade ≡ none)
unfolding propose_upgrade apply_upgrade
apply_upgrade-propose_upgrade e1 e2 s t h v p same fits a = ground arith

-- What an applied upgrade needs whatever came before: a stored proposal whose window is open, and the
-- admin's signature.
pub apply_upgrade_window :
    (e : Env) (s : State) (admin : Address) (p : PendingUpgrade) {s' : State}
    → s.config.admin ≡ some admin
    → s.config.pending_upgrade ≡ some p
    → apply_upgrade e s ≡ ok (tt, s')
    → (e.authorized admin ≡ true)
      × (p.available_at_ledger ≤ e.sequence)
      × (e.sequence ≤ p.expires_at_ledger)
unfolding apply_upgrade
apply_upgrade_window e s admin p ha hp h = ground arith
