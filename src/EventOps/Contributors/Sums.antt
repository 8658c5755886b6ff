-- ===== src/EventOps/Contributors/Sums.antt =====
-- Sums over a range of indices.
use boundless_contract.Base.{
  ℕ, zero, suc, ◌+◌, ◌≤◌, ◌<◌, ◌≡◌, ◌≢◌, arith, inl, inr, Bool-cases, ◌==◌,
}

unfoldable pub sum_range : (ℕ → ℕ) → ℕ → ℕ → ℕ
sum_range f start zero = 0
sum_range f start (suc n) = f start + sum_range f (start + 1) n

-- Term by term.
pub sum_range-le :
    (f g : ℕ → ℕ) (start n : ℕ)
    → ((i : ℕ) → start ≤ i → i < start + n → f i ≤ g i)
    → sum_range f start n ≤ sum_range g start n
unfolding sum_range
sum_range-le f g start zero h = omega arith
sum_range-le f g start (suc n) h = omega (
  arith,
  h start (omega arith) (omega arith),
  sum_range-le f g (start + 1) n (λ i lo hi. h i (omega arith) (omega arith)),
)

-- One term may grow by `x`, if the others do not.
pub sum_range-raise :
    (f g : ℕ → ℕ) (k x start n : ℕ)
    → ((i : ℕ) → i ≢ k → i < start + n → g i ≤ f i)
    → g k ≤ f k + x
    → sum_range g start n ≤ sum_range f start n + x
unfolding sum_range
sum_range-raise f g k x start zero h hk = omega arith
sum_range-raise f g k x start (suc n) h hk = elim (Bool-cases (start == k)) [
  | inl here ↦
      let at : start ≡ k = ground arith in
      omega (
        arith,
        rw (← at) at hk,
        sum_range-le g f (start + 1) n (λ i lo hi. h i (ground arith) (omega arith)),
      )
  | inr there ↦ omega (
    arith,
    h start (ground arith) (omega arith),
    sum_range-raise f g k x (start + 1) n (λ i apart hi. h i apart (omega arith)) hk,
  )
]

pub sum_range-snoc :
    (f : ℕ → ℕ) (start n : ℕ) → sum_range f start (suc n) ≡ sum_range f start n + f (start + n)
unfolding sum_range
sum_range-snoc f start zero = ground arith
sum_range-snoc f start (suc n) = ground (arith, sum_range-snoc f (start + 1) n)
