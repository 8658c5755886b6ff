-- ===== src/EventOps/Funds.antt =====
-- contracts/events/src/event_ops.rs: `add_funds`, and the total of what others than the owner gave.
use boundless_contract.Base.{⊤, ℕ, not, ◌&&◌, Option, none, some, ◌==◌, if◌then◌else◌}
use boundless_contract.Base.Int.{ℤ, pos, ltb_ℤ, leb_ℤ, eqb_ℤ, saturating_add}
use boundless_contract.Types.{
  Address, OpId, EventRecord, is_active, is_crowdfunding, invalid_contribution_amount,
  below_minimum_contribution, event_not_found, event_not_active, cancellation_total_missing,
}
use boundless_contract.Notices.{funds_added}
use boundless_contract.Chain.{
  Call, focus, pure, raise, ok_or, fail_if, when, require_auth, publish, ◌>>=◌, ◌>>◌,
}
use boundless_contract.Storage.Event.{get_event, set_event}
use boundless_contract.Storage.People.{
  get_contributor_amount, set_contributor_amount, get_non_owner_contribution_total,
  set_non_owner_contribution_total, contributor_count, append_contributor,
}
use boundless_contract.Escrow.{effective_fee_bps, deposit_with_fee_at, deposit_no_fee}
use boundless_contract.Idempotency.{require_unseen, mark_seen}
use boundless_contract.Admin.Guards.{require_not_paused}

-- 10 units of a token with seven decimals.
abbrev pub min_contribution_stroops : ℤ
min_contribution_stroops = pos 100000000

abbrev total_or_init : Option ℤ → Call ℤ
total_or_init (some total) = pure total
total_or_init none = do
  count ← contributor_count
  if count == 0
      then (do set_non_owner_contribution_total (pos 0); pure (pos 0))
      else raise cancellation_total_missing

unfoldable pub get_or_init_non_owner_total : Call ℤ
get_or_init_non_owner_total = do total_or_init (← get_non_owner_contribution_total)

-- The deposit: a campaign is charged when it releases, every other event now.
unfoldable pub deposit : EventRecord → Address → ℤ → Call ℤ
unfolding deposit_no_fee deposit_with_fee_at
deposit event from amount =
    if is_crowdfunding event.pillar then deposit_no_fee event.token from amount else (do
      effective_bps ← effective_fee_bps event.fee_bps_override
      deposit_with_fee_at event.token from amount effective_bps)

-- `event.remaining_escrow = event.remaining_escrow.saturating_add(credited)`
abbrev pub credit : EventRecord → ℤ → EventRecord
credit event credited = record event {
  remaining_escrow = saturating_add event.remaining_escrow credited;
}

-- The deposit of a contribution and what is recorded of it: the contributor's share and the total of
-- what others than the owner gave.
unfoldable pub take_contribution : EventRecord → Address → ℤ → Call ℤ
take_contribution event from amount = do
  let is_non_owner = not (from == event.owner)
  prior ← if is_non_owner then get_contributor_amount from else pure (pos 0)
  total_before ← if is_non_owner then get_or_init_non_owner_total else pure (pos 0)
  when (is_non_owner && eqb_ℤ prior (pos 0)) (do append_contributor from; pure tt)
  credited ← deposit event from amount
  when is_non_owner (do
    set_contributor_amount from (saturating_add prior credited)
    set_non_owner_contribution_total (saturating_add total_before credited))
  pure credited

unfoldable pub add_funds : ℕ → Address → ℤ → OpId → Call ⊤
add_funds event_id from amount op_id = focus event_id do
  require_not_paused
  fail_if (leb_ℤ amount (pos 0)) invalid_contribution_amount
  fail_if (ltb_ℤ amount min_contribution_stroops) below_minimum_contribution
  event ← ok_or (← get_event) event_not_found
  fail_if (not (is_active event.status)) event_not_active
  require_auth from
  require_unseen from op_id
  credited ← take_contribution event from amount
  let event' = credit event credited
  set_event event'
  publish (funds_added event_id from credited event'.remaining_escrow)
  mark_seen from op_id
