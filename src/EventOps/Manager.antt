-- ===== src/EventOps/Manager.antt =====
-- contracts/events/src/event_ops.rs: who manages an event, and the two-step change of its manager.
use boundless_contract.Base.{⊤, ℕ, not, ◌&&◌, Option, unwrap_or, is_some, ltb}
use boundless_contract.Base.Word.{saturating_add32}
use boundless_contract.Types.{
  Address, PendingRotation, is_active, is_crowdfunding, event_not_found, event_not_active,
  pending_rotation_mismatch, pending_rotation_expired, winners_already_selected,
}
use boundless_contract.Notices.{
  manager_proposed, manager_changed, pending_manager_cancelled, management_reclaimed,
}
use boundless_contract.Chain.{
  Call, focus, pure, raise, asks, ok_or, fail_if, when, require_auth, publish, ◌>>=◌, ◌>>◌,
}
use boundless_contract.Storage.Event
use boundless_contract.Storage.Event.{
  get_event, get_event_manager, set_event_manager, clear_event_manager, set_pending_manager,
  clear_pending_manager, winner_count,
}
use boundless_contract.Admin.Guards.{require_not_paused}

abbrev pub pending_manager_ttl_ledgers : ℕ
pending_manager_ttl_ledgers = 17280

abbrev pub resolve_manager : Address → Call Address
resolve_manager owner = do m ← get_event_manager; pure (unwrap_or m owner)

-- The proposal that `create_event` and `propose_manager` write.
unfoldable pub write_proposal : ℕ → Address → Call ⊤
write_proposal event_id target = do
  now ← asks (λ e. e.sequence)
  let expires_at = saturating_add32 now pending_manager_ttl_ledgers
  set_pending_manager (record { target = target; expires_at_ledger = expires_at })
  publish (manager_proposed event_id target expires_at)

unfoldable pub propose_manager : ℕ → Address → Call ⊤
unfolding write_proposal
propose_manager event_id new_manager = focus event_id do
  require_not_paused
  event ← ok_or (← get_event) event_not_found
  manager ← resolve_manager event.owner
  require_auth manager
  earlier ← Event.get_pending_manager
  when (is_some earlier) (publish (pending_manager_cancelled event_id))
  write_proposal event_id new_manager

unfoldable pub accept_manager : ℕ → Call ⊤
accept_manager event_id = focus event_id do
  require_not_paused
  ok_or (← get_event) event_not_found
  pending ← ok_or (← Event.get_pending_manager) pending_rotation_mismatch
  now ← asks (λ e. e.sequence)
  when (ltb pending.expires_at_ledger now)
      (do clear_pending_manager; raise pending_rotation_expired)
  require_auth pending.target
  set_event_manager pending.target
  clear_pending_manager
  publish (manager_changed event_id pending.target)

unfoldable pub cancel_pending_manager : ℕ → Call ⊤
cancel_pending_manager event_id = focus event_id do
  require_not_paused
  event ← ok_or (← get_event) event_not_found
  manager ← resolve_manager event.owner
  require_auth manager
  pending ← Event.get_pending_manager
  fail_if (not (is_some pending)) pending_rotation_mismatch
  clear_pending_manager
  publish (pending_manager_cancelled event_id)

unfoldable pub reclaim_management : ℕ → Call ⊤
reclaim_management event_id = focus event_id do
  require_not_paused
  event ← ok_or (← get_event) event_not_found
  fail_if (not (is_active event.status)) event_not_active
  require_auth event.owner
  count ← winner_count
  fail_if (not (is_crowdfunding event.pillar) && ltb 0 count) winners_already_selected
  clear_event_manager
  pending ← Event.get_pending_manager
  when (is_some pending) (do clear_pending_manager; publish (pending_manager_cancelled event_id))
  publish (management_reclaimed event_id event.owner)

unfoldable pub get_manager : ℕ → Call Address
get_manager event_id =
    focus event_id do event ← ok_or (← get_event) event_not_found; resolve_manager event.owner

unfoldable pub get_pending_manager : ℕ → Call (Option PendingRotation)
get_pending_manager event_id =
    focus event_id do ok_or (← get_event) event_not_found; Event.get_pending_manager
