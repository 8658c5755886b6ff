-- ===== src/ProfileContract/Admin.antt =====
-- contracts/profile/src/admin.rs: initialisation, the rotation of the admin, the binding of the events
-- contract and the pause.
use boundless_contract.Base.{⊤, ℕ, true, false, not, is_some, ltb, ◌∷◌, []}
use boundless_contract.Base.Word.{saturating_add32}
use boundless_contract.Types.{Address, Text}
use boundless_contract.Chain.{gets, ok_or, fail_if, when, raise, require_auth, ◌>>=◌, ◌>>◌}
use boundless_contract.ProfileContract.Data.{
  Request, already_initialized, pending_admin_mismatch, pending_admin_expired,
  events_contract_already_configured, pending_events_contract_mismatch,
  pending_events_contract_expired, pending_events_contract_timelock, admin_updated,
  pending_admin_set, events_contract_updated, pending_events_contract_set,
  events_rotation_cancelled, contract_paused, contract_unpaused,
}
use boundless_contract.ProfileContract.Store

abbrev pub pending_ttl_ledgers : ℕ
pending_ttl_ledgers = 120960

-- "1.2.1"
abbrev pub initial_version : Text
initial_version = b'1' ∷ b'.' ∷ b'2' ∷ b'.' ∷ b'1' ∷ []

abbrev pub events_contract_timelock_ledgers : ℕ
events_contract_timelock_ledgers = 17280

abbrev pub pending_events_contract_ttl_ledgers : ℕ
pending_events_contract_ttl_ledgers = 120960

unfoldable pub initialize : Address → Request ⊤
initialize admin = do
  before ← gets (λ s. s.admin)
  fail_if (is_some before) already_initialized
  Store.set_admin admin
  Store.set_paused false
  Store.set_version initial_version
  Store.publish (admin_updated admin)

unfoldable pub set_admin : Address → Request ⊤
set_admin new_admin = do
  Store.require_admin
  now ← Store.sequence
  Store.set_pending_admin
      (record { target = new_admin; expires_at_ledger = saturating_add32 now pending_ttl_ledgers })
  Store.publish (pending_admin_set new_admin)

unfoldable pub accept_admin : Request ⊤
accept_admin = do
  pending ← ok_or (← Store.get_pending_admin) pending_admin_mismatch
  now ← Store.sequence
  when (ltb pending.expires_at_ledger now)
      (do Store.clear_pending_admin; raise pending_admin_expired)
  require_auth pending.target
  Store.set_admin pending.target
  Store.clear_pending_admin
  Store.publish (admin_updated pending.target)

unfoldable pub set_events_contract : Address → Request ⊤
set_events_contract new_addr = do
  Store.require_admin
  bound ← Store.get_events_contract
  fail_if (is_some bound) events_contract_already_configured
  Store.set_events_contract new_addr
  Store.publish (events_contract_updated new_addr)

unfoldable pub propose_events_contract : Address → Request ⊤
propose_events_contract new_addr = do
  Store.require_admin
  proposed_at ← Store.sequence
  let expires_at = saturating_add32 proposed_at pending_events_contract_ttl_ledgers
  Store.set_pending_events_contract (record {
    target = new_addr;
    proposed_at_ledger = proposed_at;
    expires_at_ledger = expires_at;
  })
  Store.publish (pending_events_contract_set new_addr proposed_at expires_at)

unfoldable pub accept_events_contract : Request ⊤
accept_events_contract = do
  Store.require_admin
  pending ← ok_or (← Store.get_pending_events_contract) pending_events_contract_mismatch
  now ← Store.sequence
  fail_if (ltb pending.expires_at_ledger now) pending_events_contract_expired
  let earliest = saturating_add32 pending.proposed_at_ledger events_contract_timelock_ledgers
  fail_if (ltb now earliest) pending_events_contract_timelock
  Store.set_events_contract pending.target
  Store.clear_pending_events_contract
  Store.publish (events_contract_updated pending.target)

unfoldable pub cancel_pending_events_contract : Request ⊤
cancel_pending_events_contract = do
  Store.require_admin
  pending ← Store.get_pending_events_contract
  fail_if (not (is_some pending)) pending_events_contract_mismatch
  Store.clear_pending_events_contract
  now ← Store.sequence
  Store.publish (events_rotation_cancelled now)

unfoldable pub pause : Request ⊤
pause = do Store.require_admin; Store.set_paused true; Store.publish contract_paused

unfoldable pub unpause : Request ⊤
unpause = do Store.require_admin; Store.set_paused false; Store.publish contract_unpaused
