-- ===== src/Grant/Shares/Award.antt =====
-- contracts/events/src/grant.rs: an award that `select_winners` accepts is paid out in full, in whatever
-- order its milestones are settled.
use mathlib.Core.List.{Permᴰ}
use boundless_contract.Base.{
  All, ℕ, zero, suc, ◌+◌, ◌-◌, ◌*◌, ◌/◌, ◌≤◌, ◌<◌, ◌≡◌, some, true, List, [], ◌∷◌, map, arith,
  length, Option-cases, inl, inr, get_elem?,
}
use boundless_contract.Base.Int.{pos, i128_max, checked_mul, ◌*ℤ◌}
use boundless_contract.Base.Word.{u32_max}
use boundless_contract.Types.{ReleaseKind, multi, split}
use boundless_contract.EventOps.Create.{split_is_valid}
use boundless_contract.EventOps.Create.Split.{sum, AllPositive, split_is_valid_iff}
use boundless_contract.Grant.Shares.{every_milestone_pays, milestone_share, is_positive, all_pay}
use boundless_contract.Grant.Shares.Sums.{
  sum_of, indices, bps_of, sum_of-perm, length-perm, length-indices, All-perm, even_shares-le,
  split_shares-le,
}
use boundless_contract.Grant.Shares.Payout.{
  settle_all, at_progress, Pays, payouts, settle_all-payouts, payouts-sum, payouts-positive,
}

multi-Pays :
    (n a m : ℕ) → every_milestone_pays (multi n) (pos a) ≡ true → Pays (multi n) a (λ _. a / n) m
unfolding every_milestone_pays milestone_share
multi-Pays n a m h = grind arith

All-multi-Pays :
    (n a m left : ℕ)
    → every_milestone_pays (multi n) (pos a) ≡ true
    → All (Pays (multi n) a (λ _. a / n)) (indices m left)
All-multi-Pays n a m zero h = tt
All-multi-Pays n a m (suc left) h = (multi-Pays n a m h, All-multi-Pays n a (m + 1) left h)

split-Pays :
    (shares : List ℕ) (a m : ℕ)
    → is_positive (milestone_share (split shares) (pos a) m) ≡ true
    → Pays (split shares) a (λ i. a * bps_of shares i / 10000) m
unfolding milestone_share checked_mul ◌*ℤ◌
split-Pays shares a m h = elim (Option-cases (get_elem? shares m)) [
  | inl e ↦ absurd (ground arith)
  | inr (bps, e) ↦ ground arith
]

All-split-Pays :
    (shares : List ℕ) (a m left : ℕ)
    → all_pay (split shares) (pos a) m left ≡ true
    → All (Pays (split shares) a (λ i. a * bps_of shares i / 10000)) (indices m left)
unfolding all_pay
All-split-Pays shares a m zero h = tt
All-split-Pays shares a m (suc left) h =
    (split-Pays shares a m (ground arith), All-split-Pays shares a (m + 1) left (ground arith))

-- A sequence of settlements pays `a` in positive parts.
abbrev pub PaysInFull : ReleaseKind → ℕ → ℕ → ℕ → List ℕ → Type 0
PaysInFull kind n q a ms =
    (amounts : List ℕ) × (settle_all kind n (at_progress q a 0 0) ms ≡ some (map pos amounts))
    × (sum amounts ≡ a)
    × AllPositive amounts

PaysInFull_lem :
    (kind : ReleaseKind) (f : ℕ → ℕ) (n q a : ℕ) (ms : List ℕ)
    → 0 < n
    → n ≤ u32_max
    → a ≤ i128_max
    → All (Pays kind a f) (indices 0 n)
    → sum_of f (indices 0 n) ≤ a
    → Permᴰ ms (indices 0 n)
    → PaysInFull kind n q a ms
PaysInFull_lem kind f n q a [] some_ small fits ps room order =
    absurd (omega (arith, length-perm order, length-indices 0 n))
PaysInFull_lem kind f n q a (m ∷ ms) some_ small fits ps room order =
    let all : All (Pays kind a f) (m ∷ ms) = All-perm (Pays kind a f) order ps in
    let enough : sum_of f (m ∷ ms) ≤ a = omega (arith, sum_of-perm f order) in
    let count : 0 + length (m ∷ ms) ≡ n = omega (arith, length-perm order, length-indices 0 n) in
    let whole : a - 0 ≡ a = omega arith in
    (
      payouts f a (m ∷ ms),
      rw (← count) (
          rw whole at
            (settle_all-payouts kind f q a 0 0 (m ∷ ms) (omega arith) fits all (omega arith))),
      payouts-sum f a m ms enough,
      payouts-positive kind a f a m ms all enough,
    )

-- A grant of `n` equal milestones, `n` a `u32`: an award that passes the selection's check and fits
-- an `i128` pays itself out exactly, in positive amounts and with no settlement failing, whatever
-- the order of its milestones.
pub multi-PaysInFull :
    (n q a : ℕ) (ms : List ℕ)
    → n ≤ u32_max
    → a ≤ i128_max
    → every_milestone_pays (multi n) (pos a) ≡ true
    → Permᴰ ms (indices 0 n)
    → PaysInFull (multi n) n q a ms
unfolding every_milestone_pays
multi-PaysInFull n q a ms small fits pays order =
    PaysInFull_lem (multi n) (λ _. a / n) n q a ms (ground arith) small fits
      (All-multi-Pays n a 0 n pays) (even_shares-le a n) order

whole_le : (x a y : ℕ) → x ≤ a * y / 10000 → y ≡ 10000 → x ≤ a
whole_le x a y h e = let k : x ≤ a * 10000 / 10000 = rw e at h in omega arith

-- A grant with a split of basis points that `create_event` accepts: an award that passes the
-- selection's check and fits an `i128` pays itself out exactly, in positive amounts and with no
-- settlement failing, whatever the order of its milestones.
pub split-PaysInFull :
    (shares : List ℕ) (q a : ℕ) (ms : List ℕ)
    → a ≤ i128_max
    → split_is_valid shares ≡ true
    → every_milestone_pays (split shares) (pos a) ≡ true
    → Permᴰ ms (indices 0 (length shares))
    → PaysInFull (split shares) (length shares) q a ms
unfolding every_milestone_pays
split-PaysInFull shares q a ms fits valid pays order =
    let (nonempty, short, _, total) = (split_is_valid_iff shares).0 valid in
    PaysInFull_lem (split shares) (λ m. a * bps_of shares m / 10000) (length shares) q a ms nonempty
      (omega arith) fits (All-split-Pays shares a 0 (length shares) pays)
      (whole_le _ a (sum shares) (split_shares-le a shares) total) order
