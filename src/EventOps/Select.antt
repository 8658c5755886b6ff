-- ===== src/EventOps/Select.antt =====
-- contracts/events/src/event_ops.rs: `select_winners`, for prizes that are claimed (`single`) and for
-- grants that are paid by milestones.
pub mod Awards
pub mod Prizes
use boundless_contract.Base.{
  ◌==◌, ⊤, ℕ, ◌+◌, ◌*◌, Bool, false, not, ◌&&◌, ◌||◌, Option, none, some, unwrap_or, is_some, List,
  [], ◌∷◌, length, ltb,
}
use boundless_contract.Base.Int.{ℤ, pos, ltb_ℤ, leb_ℤ, checked_add}
use boundless_contract.Base.Word.{saturating_add32, saturating_add64, checked_add32}
use boundless_contract.Base.Maps.{Map, lookup, contains_key, insert}
use boundless_contract.Types.{
  OpId, EventRecord, Winner, WinnerSpec, GrantAward, ReleaseKind, single, is_active,
  is_crowdfunding, is_single, event_not_found, event_not_active, invalid_pillar,
  winners_already_selected, no_submissions, invalid_winner_position, reputation_bump_too_large,
  duplicate_winner_position, invalid_distribution, insufficient_escrow, duplicate_recipient,
}
use boundless_contract.Notices.{winner_awarded, winners_selected}
use boundless_contract.Chain.{
  Call, focus, pure, ok_or, fail_if, when, require_auth, publish, ◌>>=◌, ◌>>◌,
}
use boundless_contract.Storage.Event.{
  get_event, set_event, winner_count, append_winner, get_prize_award, set_prize_award,
  unclaimed_prize_count, set_unclaimed_prize_count, owed_total, set_owed_total,
  get_prize_claim_expiry, set_prize_claim_expiry,
}
use boundless_contract.Storage.People.{set_grant_roster}
use boundless_contract.Idempotency.{require_unseen, mark_seen}
use boundless_contract.Admin.Guards.{require_not_paused, open_time}
use boundless_contract.Grant.Shares.{every_milestone_pays}
use boundless_contract.Grant.Settle.{max_reputation_bump}
use boundless_contract.EventOps.Manager.{resolve_manager}

abbrev pub max_awards_per_select : ℕ
max_awards_per_select = 20

abbrev pub max_grant_awards : ℕ
max_grant_awards = 40

abbrev pub prize_claim_window_secs : ℕ
prize_claim_window_secs = 90 * 24 * 60 * 60

abbrev pub award_cap : ReleaseKind → ℕ
award_cap single = max_awards_per_select
award_cap _ = max_grant_awards

unfoldable pub check_bumps : List WinnerSpec → Call ⊤
check_bumps [] = pure tt
check_bumps (spec ∷ rest) = do
  fail_if (ltb max_reputation_bump spec.reputation_bump) reputation_bump_too_large
  check_bumps rest

abbrev pub member : ℕ → List ℕ → Bool
member x [] = false
member x (y ∷ ys) = y == x || member x ys

-- `seen` holds the positions read so far. The source appends; only membership is read.
unfoldable pub check_positions : List ℕ → List WinnerSpec → Call ⊤
check_positions seen [] = pure tt
check_positions seen (spec ∷ rest) = do
  fail_if (member spec.position seen) duplicate_winner_position
  check_positions (spec.position ∷ seen) rest

abbrev pub below_floor : Option ℤ → ℤ → Bool
below_floor none a = false
below_floor (some floor) a = ltb_ℤ a floor

-- The first loop of the `Single` branch: the total of the batch.
unfoldable pub single_total : Map ℤ → ℤ → List WinnerSpec → Call ℤ
single_total floors total [] = pure total
single_total floors total (spec ∷ rest) = do
  award ← get_prize_award spec.position
  fail_if (is_some award) duplicate_winner_position
  fail_if (leb_ℤ spec.amount (pos 0)) invalid_distribution
  fail_if (below_floor (lookup spec.position floors) spec.amount) invalid_distribution
  next ← ok_or (checked_add total spec.amount) insufficient_escrow
  single_total floors next rest

-- The batch and what is owed already must be covered by the escrow.
unfoldable pub reserve : EventRecord → ℤ → ℤ → Call ⊤
reserve event batch_total owed_before = do
  committed ← ok_or (checked_add batch_total owed_before) insufficient_escrow
  fail_if (ltb_ℤ event.remaining_escrow committed) insufficient_escrow
  set_owed_total committed

abbrev pub winner_row : WinnerSpec → Winner
winner_row spec = record {
  recipient = spec.recipient;
  position = spec.position;
  amount = spec.amount;
  milestone = none;
  paid_at = none;
}

-- The second loop of the `Single` branch, from the `idx`-th winner.
unfoldable pub award_prizes : ℕ → ℕ → List WinnerSpec → Call ⊤
award_prizes existing_count idx [] = pure tt
award_prizes existing_count idx (spec ∷ rest) = do
  anchor_idx ← ok_or (checked_add32 existing_count idx) invalid_winner_position
  append_winner (winner_row spec)
  set_prize_award spec.position (record {
    recipient = spec.recipient;
    anchor_idx = anchor_idx;
    reputation_bump = spec.reputation_bump;
  })
  award_prizes existing_count (idx + 1) rest

unfoldable pub extend_window : ℕ → Call ⊤
extend_window now = do
  let expiry = saturating_add64 now prize_claim_window_secs
  cur ← get_prize_claim_expiry
  when (ltb (unwrap_or cur 0) expiry) (set_prize_claim_expiry expiry)

-- The `Single` branch after the reservation.
unfoldable pub record_prizes : List WinnerSpec → ℕ → ℕ → Call ⊤
record_prizes winners existing_count now = do
  award_prizes existing_count 0 winners
  unclaimed ← unclaimed_prize_count
  set_unclaimed_prize_count (saturating_add32 unclaimed (length winners))
  extend_window now

unfoldable pub select_single : EventRecord → List WinnerSpec → ℕ → ℕ → Call ⊤
select_single event winners existing_count now = do
  owed_before ← owed_total
  batch_total ← single_total event.prize_floors (pos 0) winners
  reserve event batch_total owed_before
  record_prizes winners existing_count now

-- The first loop of the other branch: the roster, and the total of the batch.
unfoldable pub grant_total :
    EventRecord → Map GrantAward → ℤ → List WinnerSpec → Call (Map GrantAward × ℤ)
grant_total event roster total [] = pure (roster, total)
grant_total event roster total (spec ∷ rest) = do
  fail_if (not (every_milestone_pays event.release_kind spec.amount)) invalid_distribution
  fail_if (contains_key spec.recipient roster) duplicate_recipient
  let roster' =
      insert spec.recipient (record { position = spec.position; amount = spec.amount }) roster
  fail_if (below_floor (lookup spec.position event.prize_floors) spec.amount) invalid_distribution
  next ← ok_or (checked_add total spec.amount) insufficient_escrow
  grant_total event roster' next rest

unfoldable pub append_awards : List WinnerSpec → Call ⊤
append_awards [] = pure tt
append_awards (spec ∷ rest) = do append_winner (winner_row spec); append_awards rest

unfoldable pub select_grant : EventRecord → List WinnerSpec → Call ⊤
select_grant event winners = do
  owed_before ← owed_total
  (roster, batch_total) ← grant_total event [] (pos 0) winners
  reserve event batch_total owed_before
  set_grant_roster roster
  append_awards winners

unfoldable pub publish_awards : ℕ → List WinnerSpec → Call ⊤
publish_awards event_id [] = pure tt
publish_awards event_id (spec ∷ rest) = do
  publish (winner_awarded event_id spec.recipient spec.position spec.amount)
  publish_awards event_id rest

abbrev pub select_by : ReleaseKind → EventRecord → List WinnerSpec → ℕ → ℕ → Call ⊤
select_by single event winners existing_count now = select_single event winners existing_count now
select_by _ event winners existing_count now = select_grant event winners

unfoldable pub select_winners : ℕ → List WinnerSpec → OpId → Call ⊤
select_winners event_id winners op_id = focus event_id do
  require_not_paused
  event ← ok_or (← get_event) event_not_found
  fail_if (not (is_active event.status)) event_not_active
  fail_if (is_crowdfunding event.pillar) invalid_pillar
  manager ← resolve_manager event.owner
  require_auth manager
  require_unseen manager op_id
  existing_count ← winner_count
  fail_if (not (is_single event.release_kind) && ltb 0 existing_count) winners_already_selected
  fail_if (length winners == 0) no_submissions
  fail_if (ltb (award_cap event.release_kind) (length winners)) invalid_winner_position
  check_bumps winners
  check_positions [] winners
  now ← open_time
  select_by event.release_kind event winners existing_count now
  set_event event
  publish_awards event_id winners
  publish (winners_selected event_id (length winners))
  mark_seen manager op_id
