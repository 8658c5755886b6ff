-- ===== src/EventOps/Cancel.antt =====
-- contracts/events/src/event_ops.rs: the paged cancellation, `start_cancel`, `process_cancel_batch`,
-- `finalize_cancel`, and the refunds held for `claim_refund`.
pub mod Batches
pub mod Payouts
pub mod ProRata
pub mod Refunds
pub mod Window
use boundless_contract.Base.{
  ⊤, ℕ, zero, suc, ◌-◌, Bool, true, false, not, ◌&&◌, Option, none, some, unwrap_or, is_some, ltb,
  leb, ◌==◌, if◌then◌else◌,
}
use boundless_contract.Base.Int.{
  ℤ, pos, ltb_ℤ, leb_ℤ, eqb_ℤ, saturating_add, saturating_sub, saturating_mul, quot_ℤ,
}
use boundless_contract.Base.Word.{saturating_add32}
use boundless_contract.Types.{
  Address, OpId, EventRecord, CancellationState, CancellationBranch, owner_only,
  full_partner_then_residual, pro_rata_partners, cancelled, cancelling, is_active, is_cancelling,
  is_single, is_grant, event_not_found, event_not_active, cancellation_already_started,
  winners_already_selected, awards_outstanding, invalid_batch_size, cancellation_not_started,
  cancellation_not_finished, no_refund_owed,
}
use boundless_contract.Notices.{
  cancellation_started, owner_residual_refunded, event_cancelled, contributor_refunded,
  refund_deferred,
}
use boundless_contract.Chain.{
  Call, focus, pure, abort, ok_or, fail_if, when, require_auth, publish, ◌>>=◌, ◌>>◌,
}
use boundless_contract.Storage.Event.{
  get_event, set_event, unclaimed_prize_count, owed_total, set_owed_total, get_prize_claim_expiry,
  get_cancellation_state, set_cancellation_state, clear_cancellation_state,
}
use boundless_contract.Storage.People.{
  get_contributor_amount, set_contributor_amount, set_non_owner_contribution_total,
  contributor_count, contributor_at, unclaimed_refund, set_unclaimed_refund,
}
use boundless_contract.Escrow.{release, try_release, current_contract_address}
use boundless_contract.Idempotency.{require_unseen, mark_seen}
use boundless_contract.Admin.Guards.{require_not_paused, open_time}
use boundless_contract.EventOps.Manager.{resolve_manager}
use boundless_contract.EventOps.Funds.{get_or_init_non_owner_total}

abbrev pub max_refunds_per_batch : ℕ
max_refunds_per_batch = 15

unfoldable pub choose_branch : ℤ → ℤ → CancellationBranch
choose_branch non_owner_total remaining =
    if leb_ℤ non_owner_total (pos 0)
    then owner_only
    else if leb_ℤ non_owner_total remaining
    then full_partner_then_residual
    else pro_rata_partners

abbrev pub is_owner_only : CancellationBranch → Bool
is_owner_only owner_only = true
is_owner_only _ = false

abbrev pub closed : EventRecord → EventRecord
closed event = record event { remaining_escrow = pos 0; status = cancelled }

-- What a positive remainder does at the end: it goes to the owner.
unfoldable pub refund_owner : ℕ → EventRecord → ℤ → Call ⊤
unfolding release
refund_owner event_id event amount = when (ltb_ℤ (pos 0) amount) (do
  release event.token event.owner amount
  publish (owner_residual_refunded event_id event.owner amount))

-- An unclaimed prize blocks a cancellation until its window has closed, and an owed grant always.
unfoldable pub require_cancellable : EventRecord → Call ⊤
unfolding open_time
require_cancellable event = do
  fail_if (not (is_active event.status)) event_not_active
  state ← get_cancellation_state
  fail_if (is_some state) cancellation_already_started
  unclaimed ← unclaimed_prize_count
  when (is_single event.release_kind && ltb 0 unclaimed) (do
    expiry ← get_prize_claim_expiry
    now ← open_time
    fail_if (leb now (unwrap_or expiry 0)) winners_already_selected)
  owed ← owed_total
  fail_if (is_grant event.pillar && ltb_ℤ (pos 0) owed) awards_outstanding

unfoldable pub cancel_for_owner : ℕ → EventRecord → Call ⊤
unfolding refund_owner
cancel_for_owner event_id event = do
  refund_owner event_id event event.remaining_escrow
  set_event (closed event)
  set_non_owner_contribution_total (pos 0)
  publish (event_cancelled event_id)

unfoldable pub cancel_in_pages : EventRecord → ℤ → ℕ → CancellationBranch → Call ⊤
cancel_in_pages event non_owner_total count branch = do
  set_cancellation_state (record {
    non_owner_total = non_owner_total;
    remaining_at_start = event.remaining_escrow;
    count_at_start = count;
    next_idx = 0;
    branch = branch;
  })
  set_event (record event { status = cancelling })

unfoldable pub start_cancel : ℕ → OpId → Call ⊤
start_cancel event_id op_id = focus event_id do
  require_not_paused
  event ← ok_or (← get_event) event_not_found
  require_cancellable event
  manager ← resolve_manager event.owner
  require_auth manager
  require_unseen manager op_id
  set_owed_total (pos 0)
  let remaining = event.remaining_escrow
  count ← contributor_count
  non_owner_total ← get_or_init_non_owner_total
  let branch = choose_branch non_owner_total remaining
  publish (cancellation_started event_id branch remaining non_owner_total)
  if is_owner_only branch
      then cancel_for_owner event_id event
      else cancel_in_pages event non_owner_total count branch
  mark_seen manager op_id

-- A pro-rata share, rounded down; a division by zero aborts.
unfoldable pub pro_rata : CancellationState → ℤ → Call ℤ
pro_rata state amt =
    if eqb_ℤ state.non_owner_total (pos 0)
    then abort
    else pure (quot_ℤ (saturating_mul amt state.remaining_at_start) state.non_owner_total)

abbrev pub payout_by : CancellationBranch → CancellationState → ℤ → Call ℤ
payout_by full_partner_then_residual state amt = pure amt
payout_by pro_rata_partners state amt = pro_rata state amt
payout_by owner_only state amt = pure (pos 0)

unfoldable pub refund : ℕ → EventRecord → Address → ℤ → Call ⊤
unfolding try_release
refund event_id event c payout =
    if leb_ℤ payout (pos 0) then publish (contributor_refunded event_id c (pos 0)) else (do
      sent ← try_release event.token c payout
      if sent then publish (contributor_refunded event_id c payout) else (do
        before ← unclaimed_refund c
        set_unclaimed_refund c (saturating_add before payout)
        publish (refund_deferred event_id c payout)))

-- The body of the loop, after its two counters.
unfoldable pub refund_contributor : ℕ → EventRecord → CancellationState → Option Address → Call ⊤
unfolding pro_rata
refund_contributor event_id event state none = pure tt
refund_contributor event_id event state (some c) = do
  amt ← get_contributor_amount c
  if leb_ℤ amt (pos 0) then pure tt else (do
    payout ← payout_by state.branch state amt
    set_contributor_amount c (pos 0)
    refund event_id event c payout)

abbrev pub advance : CancellationState → CancellationState
advance state = record state { next_idx = saturating_add32 state.next_idx 1 }

-- `while processed < cap && state.next_idx < state.count_at_start`, by the rounds that `cap` leaves.
unfoldable pub refund_batch : ℕ → ℕ → EventRecord → CancellationState → Call CancellationState
refund_batch zero event_id event state = pure state
refund_batch (suc left) event_id event state =
    let round = (do
      c ← contributor_at state.next_idx
      refund_contributor event_id event state c
      refund_batch left event_id event (advance state)) in
    if ltb state.next_idx state.count_at_start then round else pure state

unfoldable pub process_cancel_batch : ℕ → ℕ → OpId → Call ℕ
process_cancel_batch event_id max_refunds op_id = focus event_id do
  require_not_paused
  fail_if (max_refunds == 0) invalid_batch_size
  domain ← current_contract_address
  require_unseen domain op_id
  event ← ok_or (← get_event) event_not_found
  fail_if (not (is_cancelling event.status)) cancellation_not_started
  let cap = if ltb max_refunds_per_batch max_refunds then max_refunds_per_batch else max_refunds
  started ← ok_or (← get_cancellation_state) cancellation_not_started
  state ← refund_batch cap event_id event started
  set_cancellation_state state
  mark_seen domain op_id
  pure (state.count_at_start - state.next_idx)

-- What is left for the owner once every contributor has been paid in full.
unfoldable pub owner_residual : CancellationBranch → CancellationState → ℤ
owner_residual full_partner_then_residual state =
    saturating_sub state.remaining_at_start state.non_owner_total
owner_residual _ state = pos 0

unfoldable pub finalize_cancel : ℕ → OpId → Call ⊤
finalize_cancel event_id op_id = focus event_id do
  require_not_paused
  domain ← current_contract_address
  require_unseen domain op_id
  event ← ok_or (← get_event) event_not_found
  fail_if (not (is_cancelling event.status)) cancellation_not_started
  state ← ok_or (← get_cancellation_state) cancellation_not_started
  fail_if (ltb state.next_idx state.count_at_start) cancellation_not_finished
  refund_owner event_id event (owner_residual state.branch state)
  set_event (closed event)
  clear_cancellation_state
  set_non_owner_contribution_total (pos 0)
  publish (event_cancelled event_id)
  mark_seen domain op_id

unfoldable pub claim_refund : ℕ → Address → OpId → Call ⊤
unfolding release
claim_refund event_id contributor op_id = focus event_id do
  require_not_paused
  event ← ok_or (← get_event) event_not_found
  require_auth contributor
  require_unseen contributor op_id
  amount ← unclaimed_refund contributor
  fail_if (leb_ℤ amount (pos 0)) no_refund_owed
  set_unclaimed_refund contributor (pos 0)
  mark_seen contributor op_id
  release event.token contributor amount
  publish (contributor_refunded event_id contributor amount)

unfoldable pub get_unclaimed_refund : ℕ → Address → Call ℤ
get_unclaimed_refund event_id contributor =
    focus event_id do ok_or (← get_event) event_not_found; unclaimed_refund contributor
