-- ===== src/EventOps/Create/Split.antt =====
-- contracts/events/src/event_ops.rs, `split_is_valid`: what the loop with its checked additions decides.
use boundless_contract.Base.{
  ⊤, ℕ, ◌+◌, ◌≤◌, ◌<◌, ◌≡◌, ◌↔◌, true, some, List, [], ◌∷◌, length, arith, inl, inr, Option-cases,
}
use boundless_contract.Base.Word.{u32_max}
use boundless_contract.EventOps.Create.{split_is_valid, split_total}

abbrev pub sum : List ℕ → ℕ
sum [] = 0
sum (x ∷ xs) = x + sum xs

abbrev pub AllPositive : List ℕ → Type 0
AllPositive [] = ⊤
AllPositive (x ∷ xs) = (0 < x) × AllPositive xs

-- The loop ends with a total exactly where no share is 0 and the sum fits a `u32`.
split_total-some :
    (total : ℕ) (shares : List ℕ)
    → AllPositive shares
    → total + sum shares ≤ u32_max
    → split_total total shares ≡ some (total + sum shares)
unfolding split_total
split_total-some total [] p h = ground arith
split_total-some total (x ∷ xs) p h = ground (arith, split_total-some (total + x) xs p.1)

split_total_sound :
    (total : ℕ) (shares : List ℕ) (t : ℕ)
    → split_total total shares ≡ some t
    → AllPositive shares × (t ≡ total + sum shares)
unfolding split_total
split_total_sound total [] t h = ground arith
split_total_sound total (x ∷ xs) t h = ground (arith, split_total_sound (total + x) xs t)

-- `split_is_valid` accepts exactly the lists of one to twenty shares that are all positive and add up
-- to 10,000 basis points.
pub split_is_valid_iff :
    (shares : List ℕ)
    → (split_is_valid shares ≡ true)
      ↔ ((0 < length shares) × (length shares ≤ 20) × AllPositive shares × (sum shares ≡ 10000))
unfolding split_is_valid
split_is_valid_iff shares = (
  λ h. elim (Option-cases (split_total 0 shares)) [
    | inl e ↦ absurd (ground arith)
    | inr (t, e) ↦ ground (arith, split_total_sound 0 shares t e)
  ],
  λ h. ground (arith, split_total-some 0 shares h.2),
)
