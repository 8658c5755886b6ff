-- ===== src/Grant/Settle.antt =====
-- contracts/events/src/grant.rs: `claim_milestone` and `forfeit_milestone`.
use boundless_contract.Base.{
  ⊤, ℕ, ◌-◌, not, Option, none, some, [], ◌∷◌, ltb, leb, ◌==◌, if◌then◌else◌,
}
use boundless_contract.Base.Int.{ℤ, pos, ltb_ℤ, leb_ℤ, eqb_ℤ, saturating_sub, quot}
use boundless_contract.Base.Word.{saturating_add32}
use boundless_contract.Types.{
  Address, OpId, Text, EventRecord, completed, is_active, is_crowdfunding, is_grant, milestones,
  reputation_bump_too_large, event_not_found, event_not_active, invalid_release_kind,
  invalid_milestone, milestone_already_claimed, no_submissions, insufficient_escrow,
  invalid_distribution, invalid_pillar,
}
use boundless_contract.Notices.{milestone_claimed, milestone_fee_charged, milestone_forfeited}
use boundless_contract.Chain.{
  Call, focus, pure, raise, asks, ok_or, fail_if, when, require_auth, publish, ◌>>=◌, ◌>>◌,
}
use boundless_contract.Storage.Event.{get_event, set_event, append_winner}
use boundless_contract.Storage.People.{
  is_milestone_claimed, mark_milestone_claimed, get_crowdfunding_milestones_claimed,
  set_crowdfunding_milestones_claimed,
}
use boundless_contract.Escrow.{effective_fee_bps, compute_fee_at, release, release_with_fee_at}
use boundless_contract.Idempotency.{require_unseen, mark_seen}
use boundless_contract.Admin.Guards.{require_not_paused, release_cosigner}
use boundless_contract.Profile.{report}
use boundless_contract.Grant.Shares.{
  Standing, lift, standing, share, record_settlement, release_owed,
}

abbrev pub max_reputation_bump : ℕ
max_reputation_bump = 100

-- `match event.release_kind.milestones() { Some(n) if n > 0 => n, … }`
abbrev pub some_milestones : Option ℕ → Call ℕ
some_milestones none = raise invalid_release_kind
some_milestones (some n) = if ltb 0 n then pure n else raise invalid_release_kind

-- A campaign pays its owner and has no standing.
unfoldable pub standing_of : EventRecord → Address → Call (Option Standing)
standing_of event recipient =
    if is_crowdfunding event.pillar
    then (do fail_if (not (recipient == event.owner)) no_submissions; pure none)
    else (do st ← standing recipient; pure (some st))

-- An even part of what is left of a campaign, and all of it at the last milestone.
abbrev pub campaign_amount : EventRecord → ℕ → ℕ → Call ℤ
campaign_amount event total claimed_count = do
  let remaining_milestones = total - claimed_count
  fail_if (remaining_milestones == 0) invalid_milestone
  fail_if (leb_ℤ event.remaining_escrow (pos 0)) insufficient_escrow
  pure (
      if remaining_milestones == 1
      then event.remaining_escrow
      else quot event.remaining_escrow remaining_milestones)

unfoldable pub amount_of : EventRecord → ℕ → ℕ → Option Standing → Call ℤ
amount_of event total milestone (some st) = lift (share st event.release_kind total milestone)
amount_of event total milestone none = do
  claimed_count ← get_crowdfunding_milestones_claimed
  campaign_amount event total claimed_count

-- Crowdfunding never reserves, since it has no winner selection.
abbrev settle : Address → ℤ → Option Standing → Call ⊤
settle recipient a (some st) = do release_owed a; record_settlement recipient st a
settle recipient a none = do
  claimed ← get_crowdfunding_milestones_claimed
  set_crowdfunding_milestones_claimed (saturating_add32 claimed 1)

abbrev position_of : Option Standing → ℕ
position_of none = 1
position_of (some st) = st.position

-- The payment at the end of `claim_milestone`, and the fee that it withheld.
abbrev pay : EventRecord → Address → ℤ → Call ℤ
pay event recipient a =
    if is_crowdfunding event.pillar
    then (do
      bps ← effective_fee_bps event.fee_bps_override
      release_with_fee_at event.token recipient a bps
      pure (compute_fee_at a bps))
    else (do release event.token recipient a; pure (pos 0))

-- The event after a payment: completed once its escrow is empty.
unfoldable pub paid_out : EventRecord → ℤ → EventRecord
paid_out event a =
    let left = saturating_sub event.remaining_escrow a in
    record event {
      remaining_escrow = left;
      status = if eqb_ℤ left (pos 0) then completed else event.status;
    }

-- "milestone"
abbrev milestone_reason : Text
milestone_reason = b'm' ∷ b'i' ∷ b'l' ∷ b'e' ∷ b's' ∷ b't' ∷ b'o' ∷ b'n' ∷ b'e' ∷ []

-- What `claim_milestone` writes for a release of `a`.
unfoldable pub record_release : EventRecord → Address → ℕ → ℤ → Option Standing → Call ⊤
record_release event recipient milestone a st = do
  mark_milestone_claimed recipient milestone
  settle recipient a st
  now ← asks (λ e. e.timestamp)
  append_winner (record {
    recipient = recipient;
    position = position_of st;
    amount = a;
    milestone = some milestone;
    paid_at = some now;
  })
  set_event (paid_out event a)

-- What `claim_milestone` does once its state is written: it pays, publishes and reports.
unfoldable pub disburse : ℕ → EventRecord → Address → ℕ → ℤ → ℕ → OpId → Call ⊤
disburse event_id event recipient milestone a reputation_bump op_id = do
  mark_seen event.owner op_id
  fee ← pay event recipient a
  publish (milestone_claimed event_id recipient milestone a)
  when (ltb_ℤ (pos 0) fee) (publish (milestone_fee_charged event_id recipient milestone fee))
  report event.owner op_id recipient reputation_bump milestone_reason event.token a

-- The checks of `claim_milestone` on the event that it found, and the number of its milestones.
unfoldable pub require_claimable : EventRecord → Address → ℕ → OpId → Call ℕ
require_claimable event recipient milestone op_id = do
  fail_if (not (is_active event.status)) event_not_active
  total ← some_milestones (milestones event.release_kind)
  fail_if (leb total milestone) invalid_milestone
  require_auth event.owner
  require_unseen event.owner op_id
  when (is_crowdfunding event.pillar) (do cosigner ← release_cosigner; require_auth cosigner)
  claimed ← is_milestone_claimed recipient milestone
  fail_if claimed milestone_already_claimed
  pure total

-- The standing of the recipient, and the amount that the escrow covers.
unfoldable pub milestone_due : EventRecord → Address → ℕ → ℕ → Call (Option Standing × ℤ)
milestone_due event recipient milestone total = do
  st ← standing_of event recipient
  a ← amount_of event total milestone st
  fail_if (leb_ℤ a (pos 0)) invalid_distribution
  fail_if (ltb_ℤ event.remaining_escrow a) insufficient_escrow
  pure (st, a)

unfoldable pub claim_milestone : ℕ → Address → ℕ → ℕ → OpId → Call ⊤
claim_milestone event_id recipient milestone reputation_bump op_id = focus event_id do
  require_not_paused
  fail_if (ltb max_reputation_bump reputation_bump) reputation_bump_too_large
  event ← ok_or (← get_event) event_not_found
  total ← require_claimable event recipient milestone op_id
  (st, a) ← milestone_due event recipient milestone total
  record_release event recipient milestone a st
  disburse event_id event recipient milestone a reputation_bump op_id

unfoldable pub forfeit_milestone : ℕ → Address → ℕ → OpId → Call ⊤
forfeit_milestone event_id recipient milestone op_id = focus event_id do
  require_not_paused
  event ← ok_or (← get_event) event_not_found
  fail_if (not (is_active event.status)) event_not_active
  fail_if (not (is_grant event.pillar)) invalid_pillar
  total ← some_milestones (milestones event.release_kind)
  fail_if (leb total milestone) invalid_milestone
  require_auth event.owner
  require_unseen event.owner op_id
  claimed ← is_milestone_claimed recipient milestone
  fail_if claimed milestone_already_claimed
  st ← standing recipient
  a ← lift (share st event.release_kind total milestone)
  fail_if (leb_ℤ a (pos 0)) invalid_distribution
  release_owed a
  mark_milestone_claimed recipient milestone
  record_settlement recipient st a
  mark_seen event.owner op_id
  publish (milestone_forfeited event_id recipient milestone a)
