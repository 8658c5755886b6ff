-- ===== src/EventOps/Cancel/Payouts/Promise.antt =====
-- contracts/events/src/event_ops.rs: what a cancellation in pages will pay, as it begins.
use native.Mathlib.Nat.{
  add-mul, div-mul-le_self, le_of_mul-le-mul_right, mul-le-mul_right, mul_comm, le_trans,
}
use boundless_contract.Base.{
  ℕ, zero, suc, ◌+◌, ◌-◌, ◌*◌, ◌≤◌, ◌<◌, ◌≡◌, ◌⊎◌, some, arith, inl, inr, Bool-cases, min, refl,
  Option-cases,
}
use boundless_contract.Base.Int.{
  ℤ, pos, ◌≤ℤ◌, ◌<ℤ◌, i128_max, saturating_mul-pos, saturating_sub-pos, leb_ℤ,
}
use boundless_contract.Types.{
  Address, EventRecord, CancellationState, owner_only, full_partner_then_residual,
  pro_rata_partners,
}
use boundless_contract.Chain.{EventData}
use boundless_contract.EventOps.Contributors.{units, count_of, total_of, given_by, entry, IsFunded}
use boundless_contract.EventOps.Contributors.Sums.{sum_range, sum_range-le}
use boundless_contract.EventOps.Contributors.Adding.{natural}
use boundless_contract.EventOps.Cancel.{choose_branch, owner_residual}
use boundless_contract.EventOps.Cancel.Payouts.{payout, due, outstanding}

-- What `start_cancel` stores for a cancellation in pages.
abbrev pub opened : EventRecord → EventData → CancellationState
opened r d = record {
  non_owner_total = total_of d;
  remaining_at_start = r.remaining_escrow;
  count_at_start = count_of d;
  next_idx = 0;
  branch = choose_branch (total_of d) r.remaining_escrow;
}

sum_range-scaled :
    (f g : ℕ → ℕ) (r t start n : ℕ)
    → ((i : ℕ) → g i * t ≤ f i * r)
    → sum_range g start n * t ≤ sum_range f start n * r
unfolding sum_range
sum_range-scaled f g r t start zero h = omega arith
sum_range-scaled f g r t start (suc n) h = omega (
  arith,
  add-mul (g start) (sum_range g (start + 1) n) t,
  add-mul (f start) (sum_range f (start + 1) n) r,
  h start,
  sum_range-scaled f g r t (start + 1) n h,
)

sum_range-zero : (f : ℕ → ℕ) (start n : ℕ) → ((i : ℕ) → f i ≡ 0) → sum_range f start n ≡ 0
unfolding sum_range
sum_range-zero f start zero h = refl
sum_range-zero f start (suc n) h = ground (arith, h start, sum_range-zero f (start + 1) n h)

choose_branch-cases :
    (t r : ℤ)
    → (choose_branch t r ≡ owner_only)
      ⊎ (((choose_branch t r ≡ full_partner_then_residual) × (t ≤ℤ r))
          ⊎ ((choose_branch t r ≡ pro_rata_partners) × (pos 0 <ℤ t)))
unfolding choose_branch
choose_branch-cases t r = elim (Bool-cases (leb_ℤ t (pos 0))) [
  | inl none_ ↦ inl (ground arith)
  | inr some_ ↦ elim (Bool-cases (leb_ℤ t r)) [
    | inl covered ↦ inr (inl (ground arith, ground arith))
    | inr short ↦ inr (inr (ground arith, ground arith))
  ]
]

due_at :
    (st : CancellationState) (d : EventData) (i : ℕ) (c : Address) (a : ℕ)
    → d.contributor_at i ≡ some c
    → given_by d c ≡ pos a
    → due st d i ≡ payout st.branch st (pos a)
due_at st d i c a there given = rw (due, there, given) refl

shared_payout :
    (st : CancellationState) (a n t : ℕ)
    → st.branch ≡ pro_rata_partners
    → st.remaining_at_start ≡ pos n
    → st.non_owner_total ≡ pos t
    → payout st.branch st (pos a) * t ≤ a * n
shared_payout st a n t branch remaining total =
    rw (branch, remaining, total, saturating_mul-pos a n)
      (le_trans (div-mul-le_self (min (a * n) i128_max) t) (omega arith))

module _ (r : EventRecord) (d : EventData) (f : IsFunded d) (n : ℕ)
    (escrow : r.remaining_escrow ≡ pos n) where
  -- The three branches.
  nothing_due :
      choose_branch (total_of d) r.remaining_escrow ≡ owner_only
      → (i : ℕ) → due (opened r d) d i ≡ 0
  nothing_due branch i = elim (Option-cases (d.contributor_at i)) [
    | inl missing ↦ ground arith
    | inr (c, there) ↦ ground arith
  ]

  due_full :
      choose_branch (total_of d) r.remaining_escrow ≡ full_partner_then_residual
      → (i : ℕ) → due (opened r d) d i ≤ entry (given_by d) (d.contributor_at i)
  due_full branch i = elim (Option-cases (d.contributor_at i)) [
    | inl missing ↦ ground arith
    | inr (c, there) ↦ ground arith
  ]

  due_shared :
      choose_branch (total_of d) r.remaining_escrow ≡ pro_rata_partners
      → (i : ℕ)
      → due (opened r d) d i * units (total_of d) ≤ entry (given_by d) (d.contributor_at i) * n
  due_shared branch i = elim (Option-cases (d.contributor_at i)) [
    | inl missing ↦ ground arith
    | inr (c, there) ↦
        let share =
          shared_payout (opened r d) (units (given_by d c)) n (units (total_of d)) branch escrow
            (natural (total_of d) f.total) in
        let owed =
          due_at (opened r d) d i c (units (given_by d c)) there
            (natural (given_by d c) (f.given c)) in
        rw (owed, there) share
  ]

  due_sum : outstanding (opened r d) d ≡ sum_range (due (opened r d) d) 0 (count_of d)
  due_sum = let all : count_of d - 0 ≡ count_of d = omega arith in rw all refl

  paid_full :
      choose_branch (total_of d) r.remaining_escrow ≡ full_partner_then_residual
      → outstanding (opened r d) d ≤ units (total_of d)
  paid_full branch = le_trans (omega (arith, due_sum)) (
      le_trans
        (sum_range-le (due (opened r d) d) (λ i. entry (given_by d) (d.contributor_at i)) 0
          (count_of d) (λ i lo hi. due_full branch i))
        f.covers)

  paid_shares :
      choose_branch (total_of d) r.remaining_escrow ≡ pro_rata_partners
      → 0 < units (total_of d)
      → outstanding (opened r d) d ≤ n
  paid_shares branch positive = le_trans (omega (arith, due_sum)) (
      le_of_mul-le-mul_right {k = units (total_of d)}
        (le_trans
          (sum_range-scaled (λ i. entry (given_by d) (d.contributor_at i)) (due (opened r d) d) n
            (units (total_of d)) 0 (count_of d) (due_shared branch))
          (rw (mul_comm n (units (total_of d))) (mul-le-mul_right n f.covers)))
        positive)

  -- All payouts together, and what the owner gets.
  pub promised :
      n ≤ i128_max
      → outstanding (opened r d) d + units (owner_residual (opened r d).branch (opened r d)) ≤ n
  unfolding owner_residual
  promised fits = elim (choose_branch-cases (total_of d) r.remaining_escrow) [
    | inl alone ↦
        let nothing = sum_range-zero (due (opened r d) d) 0 (count_of d) (nothing_due alone) in
        ground (arith, nothing, due_sum, alone)
    | inr (inl (full, covered)) ↦
        let paid = paid_full full in
        let total = natural (total_of d) f.total in
        let rest = saturating_sub-pos n (units (total_of d)) (ground (arith, total, escrow)) fits in
        ground (arith, paid, total, rest, full, escrow)
    | inr (inr (shared, positive)) ↦
        let total = natural (total_of d) f.total in
        let paid = paid_shares shared (ground (arith, total)) in ground (arith, paid, shared)
  ]
