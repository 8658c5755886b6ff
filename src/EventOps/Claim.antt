-- ===== src/EventOps/Claim.antt =====
-- contracts/events/src/event_ops.rs: `claim_prize`.
pub mod Settled
pub mod Money
use boundless_contract.Base.{⊤, ℕ, ◌-◌, not, ◌||◌, none, some, is_some, [], ◌∷◌, ◌==◌}
use boundless_contract.Base.Int.{pos, ltb_ℤ, leb_ℤ}
use boundless_contract.Types.{
  OpId, Text, is_active, is_single, event_not_found, event_not_active, invalid_release_kind,
  invalid_winner_position, prize_already_claimed, invalid_distribution, insufficient_escrow,
}
use boundless_contract.Notices.{winner_paid}
use boundless_contract.Chain.{Call, focus, asks, ok_or, fail_if, require_auth, publish, ◌>>=◌, ◌>>◌}
use boundless_contract.Storage.Event.{
  get_event, set_event, winner_at, set_winner_at, get_prize_award, unclaimed_prize_count,
  set_unclaimed_prize_count,
}
use boundless_contract.Escrow.{release}
use boundless_contract.Idempotency.{require_unseen, mark_seen}
use boundless_contract.Profile.{report}
use boundless_contract.Admin.Guards.{require_not_paused}
use boundless_contract.Grant.Shares.{release_owed}
use boundless_contract.Grant.Settle.{paid_out}

-- "win"
abbrev pub win_reason : Text
win_reason = b'w' ∷ b'i' ∷ b'n' ∷ []

-- The release of the owed amount is `release_owed`, which the source writes out once more here.
unfoldable pub claim_prize : ℕ → ℕ → OpId → Call ⊤
unfolding release_owed
claim_prize event_id position op_id = focus event_id do
  require_not_paused
  event ← ok_or (← get_event) event_not_found
  fail_if (not (is_active event.status)) event_not_active
  fail_if (not (is_single event.release_kind)) invalid_release_kind
  award ← ok_or (← get_prize_award position) invalid_winner_position
  require_auth award.recipient
  require_unseen award.recipient op_id
  anchor ← ok_or (← winner_at award.anchor_idx) invalid_winner_position
  fail_if (not (anchor.recipient == award.recipient) || not (anchor.position == position))
      invalid_winner_position
  fail_if (is_some anchor.paid_at) prize_already_claimed
  let a = anchor.amount
  fail_if (leb_ℤ a (pos 0)) invalid_distribution
  fail_if (ltb_ℤ event.remaining_escrow a) insufficient_escrow
  now ← asks (λ e. e.timestamp)
  set_winner_at award.anchor_idx (record {
    recipient = anchor.recipient;
    position = position;
    amount = a;
    milestone = none;
    paid_at = some now;
  })
  unclaimed ← unclaimed_prize_count
  set_unclaimed_prize_count (unclaimed - 1)
  release_owed a
  set_event (paid_out event a)
  mark_seen award.recipient op_id
  release event.token award.recipient a
  publish (winner_paid event_id award.recipient position a none)
  report award.recipient op_id award.recipient award.reputation_bump win_reason event.token a
