-- ===== src/EventOps/Solvency.antt =====
-- contracts/events/src: what is owed to winners never exceeds the escrow of their event. This is the
-- invariant that lets every award be paid.
pub mod Awarding
pub mod Calls
pub mod Creating
pub mod Funding
pub mod History
pub mod Keeping
pub mod Milestones
pub mod Paying
pub mod Releases
pub mod Selecting
pub mod Upkeep
pub mod Refunding
use boundless_contract.Base.{
  ℕ, ◌≡◌, Bool, true, ◌||◌, Option, none, some, unwrap_or, length, ltb, if◌then◌else◌,
}
use boundless_contract.Base.Int.{ℤ, pos, ◌≤ℤ◌, i128_max}
use boundless_contract.Types.{
  Pillar, EventStatus, ReleaseKind, single, multi, split, is_crowdfunding, is_cancelling,
}
use boundless_contract.Chain.{EventData, EventRow, current, legacy}

abbrev pub escrow_of : Option EventRow → ℤ
escrow_of none = pos 0
escrow_of (some (current r)) = r.remaining_escrow
escrow_of (some (legacy r)) = r.remaining_escrow

-- A campaign reserves nothing, and an event whose cancellation has begun no longer does.
abbrev pub closed_to_awards : Pillar → EventStatus → Bool
closed_to_awards pillar status = is_crowdfunding pillar || is_cancelling status

abbrev pub reservable : Option EventRow → ℤ
reservable none = pos 0
reservable (some (current r)) =
    if closed_to_awards r.pillar r.status then pos 0 else r.remaining_escrow
reservable (some (legacy r)) =
    if closed_to_awards r.pillar r.status then pos 0 else r.remaining_escrow

-- A split has shares.
abbrev pub has_shares : ReleaseKind → Bool
has_shares (split shares) = ltb 0 (length shares)
has_shares _ = true

abbrev pub kind_is_valid : Option EventRow → Bool
kind_is_valid none = true
kind_is_valid (some (current r)) = has_shares r.release_kind
kind_is_valid (some (legacy r)) = has_shares r.release_kind

abbrev pub owed_of : EventData → ℤ
owed_of d = unwrap_or d.owed_total (pos 0)

pub record IsCovered (d : EventData) : Type 0 where
  pub owed : pos 0 ≤ℤ owed_of d
  pub within : owed_of d ≤ℤ reservable d.event
  pub escrow : pos 0 ≤ℤ escrow_of d.event
  pub fits : escrow_of d.event ≤ℤ pos i128_max
  pub kind : kind_is_valid d.event ≡ true
