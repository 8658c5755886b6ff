-- ===== src/EventOps/Cancel/Payouts.antt =====
-- contracts/events/src/event_ops.rs, the money of a cancellation: what its batches still have to pay, and
-- what they leave.
pub mod Batch
pub mod Promise
pub mod Rounds
pub mod Steps
pub mod Whole
use boundless_contract.Base.{ℕ, ◌+◌, ◌-◌, ◌≤◌, ◌≡◌, Option, none, some, List}
use boundless_contract.Base.Int.{ℤ, pos, ◌-ℤ◌, quot_ℤ, saturating_mul}
use boundless_contract.Types.{
  Address, CancellationState, CancellationBranch, owner_only, full_partner_then_residual,
  pro_rata_partners,
}
use boundless_contract.Chain.{EventData, State}
use boundless_contract.Custody.{balance}
use boundless_contract.EventOps.Contributors.{units, given_by, held_for, listed, count_of}
use boundless_contract.EventOps.Contributors.Sums.{sum_range}
use boundless_contract.EventOps.Cancel.{owner_residual}

-- The payout for a contribution, by the branch.
abbrev pub payout : CancellationBranch → CancellationState → ℤ → ℕ
payout full_partner_then_residual st a = units a
payout pro_rata_partners st a =
    units (quot_ℤ (saturating_mul a st.remaining_at_start) st.non_owner_total)
payout owner_only st a = 0

abbrev pub due : CancellationState → EventData → ℕ → ℕ
due st d i = elim (d.contributor_at i) [ none ↦ 0 | some c ↦ payout st.branch st (given_by d c) ]

-- What the contributors from the index on are still to get.
abbrev pub outstanding : CancellationState → EventData → ℕ
outstanding st d = sum_range (due st d) st.next_idx (st.count_at_start - st.next_idx)

-- The refunds that are held for the contributors.
abbrev pub held : EventData → ℕ
held d = listed (held_for d) d 0 (count_of d)

-- The balance less the refunds that are held.
abbrev pub owned : Address → Address → State → EventData → ℤ
owned token contract s d = balance token contract s.transfers -ℤ pos (held d)

-- What the contract has of a token beside what a cancellation is still to pay.
abbrev pub free : Address → Address → CancellationState → State → EventData → ℤ
free token contract st s d =
    owned token contract s d -ℤ pos (outstanding st d + units (owner_residual st.branch st))
