-- ===== src/Grant/Shares/Payout.antt =====
-- contracts/events/src/grant.rs, `share` and `record_settlement`: a recipient's milestones settled in any
-- order pay the award exactly.
use boundless_contract.Base.{
  All, ℕ, ◌+◌, ◌-◌, ◌≤◌, ◌<◌, ◌≡◌, refl, Option, some, none, List, [], ◌∷◌, arith, length, map,
}
use boundless_contract.Base.Int.{ℤ, pos, i128_max, checked_sub-pos, saturating_add-pos}
use boundless_contract.Base.Word.{u32_max}
use boundless_contract.EventOps.Create.Split.{sum, AllPositive}
use boundless_contract.Grant.Shares.Sums.{sum_of}
use boundless_contract.Types.{ReleaseKind}
use boundless_contract.Grant.Shares.{
  Standing, amount, fault, share, milestone_share, progress_after,
}

-- The settlements of one recipient, one milestone after another: the standing that is stored after
-- each, and the amounts. `none` is a settlement that fails or that would pay nothing.
abbrev resume : Standing → ℤ → Standing
resume st a =
    let p = progress_after st a in
    record st { settled = p.settled; settled_amount = p.settled_amount }

unfoldable pub settle_all : ReleaseKind → ℕ → Standing → List ℕ → Option (List ℤ)
settle_all kind total st [] = some []
settle_all kind total st (m ∷ rest) = elim (share st kind total m) [
  | fault x ↦ none
  | amount a ↦ elim (settle_all kind total (resume st a) rest) [
    | none ↦ none
    | some paid ↦ some (a ∷ paid)
  ]
]

abbrev pub at_progress : ℕ → ℕ → ℕ → ℕ → Standing
at_progress position award settled paid = record {
  position = position;
  award = pos award;
  settled = settled;
  settled_amount = pos paid;
}

resume-at_progress :
    (q a k p x : ℕ)
    → k + 1 ≤ u32_max
    → p + x ≤ i128_max
    → resume (at_progress q a k p) (pos x) ≡ at_progress q a (k + 1) (p + x)
unfolding progress_after
resume-at_progress q a k p x small fits = ground (arith, saturating_add-pos p x)

-- What the milestones of a list pay when they are settled in its order: each its own share, and the
-- last all that is left.
abbrev pub payouts : (ℕ → ℕ) → ℕ → List ℕ → List ℕ
payouts f left [] = []
payouts f left (m ∷ []) = left ∷ []
payouts f left (m ∷ m' ∷ rest) = f m ∷ payouts f (left - f m) (m' ∷ rest)

-- The share of a milestone that is not the last to be settled, known to be positive.
abbrev pub Pays : ReleaseKind → ℕ → (ℕ → ℕ) → ℕ → Type 0
Pays kind a f m = (milestone_share kind (pos a) m ≡ amount (pos (f m))) × (0 < f m)

pub settle_all-payouts :
    (kind : ReleaseKind) (f : ℕ → ℕ) (q a k p : ℕ) (ms : List ℕ)
    → k + length ms ≤ u32_max
    → a ≤ i128_max
    → All (Pays kind a f) ms
    → p + sum_of f ms ≤ a
    → settle_all kind (k + length ms) (at_progress q a k p) ms
      ≡ some (map pos (payouts f (a - p) ms))
unfolding settle_all share
settle_all-payouts kind f q a k p [] small fits ps room = refl
settle_all-payouts kind f q a k p (m ∷ []) small fits ps room = ground (arith, checked_sub-pos a p)
settle_all-payouts kind f q a k p (m ∷ m' ∷ rest) small fits ps room = ground (
  arith,
  resume-at_progress q a k p (f m),
  settle_all-payouts kind f q a (k + 1) (p + f m) (m' ∷ rest),
)

-- The payments are positive and add up to what was left.
pub payouts-sum :
    (f : ℕ → ℕ) (left : ℕ) (m : ℕ) (ms : List ℕ)
    → sum_of f (m ∷ ms) ≤ left
    → sum (payouts f left (m ∷ ms)) ≡ left
payouts-sum f left m [] h = omega arith
payouts-sum f left m (m' ∷ rest) h = omega (arith, payouts-sum f (left - f m) m' rest)

pub payouts-positive :
    (kind : ReleaseKind) (a : ℕ) (f : ℕ → ℕ) (left : ℕ) (m : ℕ) (ms : List ℕ)
    → All (Pays kind a f) (m ∷ ms)
    → sum_of f (m ∷ ms) ≤ left
    → AllPositive (payouts f left (m ∷ ms))
payouts-positive kind a f left m [] ps h = omega arith
payouts-positive kind a f left m (m' ∷ rest) ps h =
    (ps.0.1, payouts-positive kind a f (left - f m) m' rest ps.1 (omega arith))
