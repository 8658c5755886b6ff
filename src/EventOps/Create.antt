-- ===== src/EventOps/Create.antt =====
-- contracts/events/src/event_ops.rs: `create_event` and the checks of its parameters.
pub mod Split
use boundless_contract.Base.{
  ⊤, ℕ, Bool, true, false, not, ◌||◌, Option, none, some, List, [], ◌∷◌, length, ltb, leb, ◌==◌,
  if◌then◌else◌,
}
use boundless_contract.Base.Int.{ℤ, pos, ltb_ℤ, leb_ℤ, checked_add}
use boundless_contract.Base.Word.{checked_add32}
use boundless_contract.Base.Maps.{Map}
use boundless_contract.Types.{
  Address, OpId, Pillar, ReleaseKind, EventRecord, CreateEventParams, hackathon, bounty, grant,
  crowdfunding, single, multi, split, active, is_crowdfunding, title_too_long, invalid_budget,
  invalid_distribution, distribution_mismatch, invalid_fee_bps, invalid_release_kind,
  invalid_milestone_split,
}
use boundless_contract.Notices.{event_created}
use boundless_contract.Chain.{
  Call, focus, pure, asks, ok_or, fail_if, when, require_auth, publish, ◌>>=◌, ◌>>◌,
}
use boundless_contract.Storage.Event.{set_event, append_winner}
use boundless_contract.Storage.People.{set_non_owner_contribution_total}
use boundless_contract.Escrow.{effective_fee_bps, deposit_with_fee_at}
use boundless_contract.Idempotency.{require_unseen, mark_seen, next_event_id}
use boundless_contract.Admin.Guards.{require_not_paused}
use boundless_contract.Admin.Setup.{require_supported, max_fee_bps}
use boundless_contract.EventOps.Manager.{write_proposal}
use boundless_contract.Grant.Shares.{split_bps_total}

abbrev pub max_title_len : ℕ
max_title_len = 120

abbrev pub max_split_milestones : ℕ
max_split_milestones = 20

-- The loop of `split_is_valid`, from the total so far: `none` where the source returns early.
unfoldable pub split_total : ℕ → List ℕ → Option ℕ
split_total total [] = some total
split_total total (share ∷ rest) =
    if share == 0
    then none
    else elim (checked_add32 total share) [ none ↦ none | some t ↦ split_total t rest ]

unfoldable pub split_is_valid : List ℕ → Bool
unfolding split_total
split_is_valid shares =
    if length shares == 0 || ltb max_split_milestones (length shares)
    then false
    else elim (split_total 0 shares) [ none ↦ false | some t ↦ t == split_bps_total ]

-- The loop over `prize_floors`: the sum of the floors.
unfoldable pub sum_floors : ℤ → Map ℤ → Call ℤ
sum_floors floor_sum [] = pure floor_sum
sum_floors floor_sum ((_, floor) ∷ rest) = do
  fail_if (leb_ℤ floor (pos 0)) invalid_distribution
  next ← ok_or (checked_add floor_sum floor) distribution_mismatch
  sum_floors next rest

abbrev fee_bps_is_valid : Option ℕ → Bool
fee_bps_is_valid none = true
fee_bps_is_valid (some bps) = leb bps max_fee_bps

abbrev is_multi : ReleaseKind → Bool
is_multi (multi n) = ltb 0 n
is_multi _ = false

abbrev pub release_kind_fits : Pillar → ReleaseKind → Bool
release_kind_fits hackathon single = true
release_kind_fits hackathon _ = false
release_kind_fits bounty single = true
release_kind_fits bounty _ = false
release_kind_fits grant (split shares) = true
release_kind_fits grant kind = is_multi kind
release_kind_fits crowdfunding kind = is_multi kind

abbrev pub milestones_are_valid : ReleaseKind → Bool
milestones_are_valid (split shares) = split_is_valid shares
milestones_are_valid _ = true

-- The record that is stored: `provisional` with the id that was drawn.
abbrev pub new_record : CreateEventParams → ℕ → ℕ → EventRecord
new_record params now id = record {
  id = id;
  pillar = params.pillar;
  owner = params.owner;
  token = params.token;
  total_budget = params.total_budget;
  remaining_escrow = if is_crowdfunding params.pillar then pos 0 else params.total_budget;
  release_kind = params.release_kind;
  status = active;
  content_uri = params.content_uri;
  title = params.title;
  created_at = now;
  deadline = params.deadline;
  prize_floors = params.prize_floors;
  fee_bps_override = params.fee_bps_override;
}

abbrev propose_first_manager : ℕ → Option Address → Call ⊤
propose_first_manager id none = pure tt
propose_first_manager id (some manager) = write_proposal id manager

-- The checks of `create_event`, which change nothing, and the fee that it will charge.
unfoldable pub check_params : CreateEventParams → Call ℕ
unfolding sum_floors split_is_valid
check_params params = do
  require_supported params.token
  fail_if (ltb max_title_len (length params.title)) title_too_long
  fail_if (leb_ℤ params.total_budget (pos 0)) invalid_budget
  fail_if (length params.prize_floors == 0) invalid_distribution
  floor_sum ← sum_floors (pos 0) params.prize_floors
  fail_if (ltb_ℤ params.total_budget floor_sum) distribution_mismatch
  fail_if (not (fee_bps_is_valid params.fee_bps_override)) invalid_fee_bps
  effective_bps ← effective_fee_bps params.fee_bps_override
  fail_if (not (release_kind_fits params.pillar params.release_kind)) invalid_release_kind
  fail_if (not (milestones_are_valid params.release_kind)) invalid_milestone_split
  pure effective_bps

-- What `create_event` stores and publishes under the new id.
unfoldable pub enter : ℕ → CreateEventParams → EventRecord → Call ⊤
unfolding write_proposal
enter id params event = do
  set_event event
  set_non_owner_contribution_total (pos 0)
  when (is_crowdfunding params.pillar) (
      append_winner (record {
        recipient = params.owner;
        position = 1;
        amount = pos 0;
        milestone = none;
        paid_at = none;
      }))
  publish (
      event_created id event.pillar event.owner event.token event.total_budget event.content_uri
        event.title)
  propose_first_manager id params.manager

-- The deposit of the budget, with its fee; a campaign starts with an empty escrow.
unfoldable pub take_budget : CreateEventParams → ℕ → Call ⊤
unfolding deposit_with_fee_at
take_budget params effective_bps =
    when (not (is_crowdfunding params.pillar))
      (do deposit_with_fee_at params.token params.owner params.total_budget effective_bps; pure tt)

-- The id that is drawn, and the record that is stored under it.
unfoldable pub open_event : CreateEventParams → ℕ → Call ℕ
unfolding next_event_id enter focus
open_event params now = do
  id ← next_event_id
  focus id (enter id params (new_record params now id))
  pure id

unfoldable pub create_event : CreateEventParams → OpId → Call ℕ
unfolding check_params take_budget open_event
create_event params op_id = do
  require_not_paused
  require_auth params.owner
  require_unseen params.owner op_id
  effective_bps ← check_params params
  now ← asks (λ e. e.timestamp)
  take_budget params effective_bps
  id ← open_event params now
  mark_seen params.owner op_id
  pure id
