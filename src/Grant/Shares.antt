-- ===== src/Grant/Shares.antt =====
-- contracts/events/src/grant.rs: a milestone's share of an award, and a recipient's standing.
pub mod Payout
pub mod Award
pub mod Sums
use boundless_contract.Base.{
  length, ⊤, ℕ, zero, suc, ◌+◌, Bool, true, false, ◌&&◌, Option, none, some, get_elem?, ltb, ◌==◌,
  if◌then◌else◌,
}
use boundless_contract.Base.Int.{
  ℤ, pos, ltb_ℤ, leb_ℤ, checked_sub, checked_mul, saturating_add, quot,
}
use boundless_contract.Base.Word.{saturating_add32}
use boundless_contract.Base.Maps.{lookup}
use boundless_contract.Types.{
  Address, Error, ReleaseKind, GrantProgress, single, multi, split, invalid_milestone,
  invalid_distribution, invalid_release_kind, no_submissions, insufficient_escrow,
}
use boundless_contract.Chain.{Call, pure, raise, ok_or, fail_if, ◌>>=◌, ◌>>◌}
use boundless_contract.Storage.Event.{owed_total, set_owed_total}
use boundless_contract.Storage.People.{get_grant_roster, get_grant_progress, set_grant_progress}

abbrev pub split_bps_total : ℕ
split_bps_total = 10000

-- A pure `Result<i128, Error>`.
pub data Amount : Type 0 where
  amount : ℤ → Amount
  fault : Error → Amount

abbrev pub amount_or : Option ℤ → Error → Amount
amount_or none x = fault x
amount_or (some a) x = amount a

abbrev pub lift : Amount → Call ℤ
lift (amount a) = pure a
lift (fault x) = raise x

abbrev scale : ℤ → ℕ → Option ℤ
scale award bps = elim (checked_mul award (pos bps)) [
  | none ↦ none
  | some v ↦ some (quot v split_bps_total)
]

abbrev split_share : ℤ → Option ℕ → Amount
split_share award none = fault invalid_milestone
split_share award (some bps) = amount_or (scale award bps) invalid_distribution

unfoldable pub milestone_share : ReleaseKind → ℤ → ℕ → Amount
milestone_share single award milestone = fault invalid_release_kind
milestone_share (multi n) award milestone =
    if ltb 0 n then amount (quot award n) else fault invalid_release_kind
milestone_share (split shares) award milestone = split_share award (get_elem? shares milestone)

abbrev pub is_positive : Amount → Bool
is_positive (amount a) = ltb_ℤ (pos 0) a
is_positive (fault x) = false

-- `(m..m + left).all(…)`
unfoldable pub all_pay : ReleaseKind → ℤ → ℕ → ℕ → Bool
all_pay kind award m zero = true
all_pay kind award m (suc left) =
    is_positive (milestone_share kind award m) && all_pay kind award (m + 1) left

unfoldable pub every_milestone_pays : ReleaseKind → ℤ → Bool
unfolding all_pay milestone_share
every_milestone_pays single award = false
every_milestone_pays (multi n) award = ltb 0 n && leb_ℤ (pos n) award
every_milestone_pays (split shares) award = all_pay (split shares) award 0 (length shares)

pub record Standing : Type 0 where
  pub position : ℕ
  pub award : ℤ
  pub settled : ℕ
  pub settled_amount : ℤ

unfoldable pub standing : Address → Call Standing
standing recipient = do
  roster ← ok_or (← get_grant_roster) no_submissions
  award ← ok_or (lookup recipient roster) no_submissions
  progress ← get_grant_progress recipient
  pure (record {
    position = award.position;
    award = award.amount;
    settled = progress.settled;
    settled_amount = progress.settled_amount;
  })

unfoldable pub share : Standing → ReleaseKind → ℕ → ℕ → Amount
share standing kind total_milestones milestone =
    if saturating_add32 standing.settled 1 == total_milestones
    then amount_or (checked_sub standing.award standing.settled_amount) invalid_distribution
    else milestone_share kind standing.award milestone

-- The progress that `record_settlement` writes.
unfoldable pub progress_after : Standing → ℤ → GrantProgress
progress_after standing a = record {
  settled = saturating_add32 standing.settled 1;
  settled_amount = saturating_add standing.settled_amount a;
}

abbrev pub record_settlement : Address → Standing → ℤ → Call ⊤
record_settlement recipient standing a = set_grant_progress recipient (progress_after standing a)

unfoldable pub release_owed : ℤ → Call ⊤
release_owed a = do
  owed ← owed_total
  owed_after ← ok_or (checked_sub owed a) insufficient_escrow
  fail_if (ltb_ℤ owed_after (pos 0)) insufficient_escrow
  set_owed_total owed_after
