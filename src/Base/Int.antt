-- ===== src/Base/Int.antt =====
-- Signed integers over the native numbers, and the `i128` arithmetic of the source on them:
-- checked and saturating operations, and division towards zero.
use boundless_contract.Base.{
  zero, refl, true, ◌⊎◌, inl, inr, ℕ, suc, ◌+◌, ◌-◌, ◌*◌, ◌/◌, ◌^◌, ◌≤◌, min, ◌≡◌, Bool, ◌&&◌,
  Option, some, none, arith, ltb, leb, if◌then◌else◌,
}

-- `negsuc n` is -(n + 1).
pub data ℤ : Type 0 where
  pos : ℕ → ℤ
  negsuc : ℕ → ℤ

abbrev pub pos_part : ℤ → ℕ
pos_part (pos n) = n
pos_part (negsuc n) = 0

abbrev pub neg_part : ℤ → ℕ
neg_part (pos n) = 0
neg_part (negsuc n) = suc n

-- a - b, as an integer.
abbrev pub sub_ℕ : ℕ → ℕ → ℤ
sub_ℕ a b = if leb b a then pos (a - b) else negsuc (b - a - 1)

infixl 65 ◌+ℤ◌ ◌-ℤ◌
infixl 70 ◌*ℤ◌
infix 50 ◌≤ℤ◌ ◌<ℤ◌
unfoldable pub ◌+ℤ◌ : ℤ → ℤ → ℤ
a +ℤ b = sub_ℕ (pos_part a + pos_part b) (neg_part a + neg_part b)

unfoldable pub ◌-ℤ◌ : ℤ → ℤ → ℤ
a -ℤ b = sub_ℕ (pos_part a + neg_part b) (neg_part a + pos_part b)

unfoldable pub ◌*ℤ◌ : ℤ → ℤ → ℤ
a *ℤ b =
    sub_ℕ (pos_part a * pos_part b + neg_part a * neg_part b)
      (pos_part a * neg_part b + neg_part a * pos_part b)

abbrev pub ◌≤ℤ◌ : ℤ → ℤ → Type 0
a ≤ℤ b = pos_part a + neg_part b ≤ pos_part b + neg_part a

abbrev pub ◌<ℤ◌ : ℤ → ℤ → Type 0
a <ℤ b = suc (pos_part a + neg_part b) ≤ pos_part b + neg_part a

abbrev pub ltb_ℤ : ℤ → ℤ → Bool
ltb_ℤ a b = ltb (pos_part a + neg_part b) (pos_part b + neg_part a)

abbrev pub leb_ℤ : ℤ → ℤ → Bool
leb_ℤ a b = leb (pos_part a + neg_part b) (pos_part b + neg_part a)

abbrev pub eqb_ℤ : ℤ → ℤ → Bool
eqb_ℤ a b = leb_ℤ a b && leb_ℤ b a

-- `i128::MAX`; `i128::MIN` is `negsuc i128_max`.
abbrev pub i128_max : ℕ
i128_max = 2 ^ 127 - 1

-- Clamp to the range of `i128`.
abbrev pub saturate : ℤ → ℤ
saturate (pos n) = pos (min n i128_max)
saturate (negsuc n) = negsuc (min n i128_max)

-- `none` outside the range of `i128`.
abbrev pub check : ℤ → Option ℤ
check (pos n) = if leb n i128_max then some (pos n) else none
check (negsuc n) = if leb n i128_max then some (negsuc n) else none

unfoldable pub checked_add : ℤ → ℤ → Option ℤ
unfolding ◌+ℤ◌
checked_add a b = check (a +ℤ b)

unfoldable pub checked_sub : ℤ → ℤ → Option ℤ
unfolding ◌-ℤ◌
checked_sub a b = check (a -ℤ b)

unfoldable pub checked_mul : ℤ → ℤ → Option ℤ
unfolding ◌*ℤ◌
checked_mul a b = check (a *ℤ b)

unfoldable pub saturating_add : ℤ → ℤ → ℤ
unfolding ◌+ℤ◌
saturating_add a b = saturate (a +ℤ b)

unfoldable pub saturating_sub : ℤ → ℤ → ℤ
unfolding ◌-ℤ◌
saturating_sub a b = saturate (a -ℤ b)

unfoldable pub saturating_mul : ℤ → ℤ → ℤ
unfolding ◌*ℤ◌
saturating_mul a b = saturate (a *ℤ b)

-- `a / n` for a positive `n`: towards zero.
abbrev pub quot : ℤ → ℕ → ℤ
quot (pos a) n = pos (a / n)
quot (negsuc a) n = sub_ℕ 0 (suc a / n)

-- `a / b` for `b` that is not 0: towards zero.
abbrev pub quot_ℤ : ℤ → ℤ → ℤ
quot_ℤ a (pos b) = quot a b
quot_ℤ (pos a) (negsuc b) = sub_ℕ 0 (a / suc b)
quot_ℤ (negsuc a) (negsuc b) = pos (suc a / suc b)

-- With these lemmas the operations can stay shut.
pub +ℤ_parts :
    (a b : ℤ)
    → pos_part (a +ℤ b) + neg_part a + neg_part b ≡ neg_part (a +ℤ b) + pos_part a + pos_part b
unfolding ◌+ℤ◌
+ℤ_parts a b = ground arith

pub -ℤ_parts :
    (a b : ℤ)
    → pos_part (a -ℤ b) + neg_part a + pos_part b ≡ neg_part (a -ℤ b) + pos_part a + neg_part b
unfolding ◌-ℤ◌
-ℤ_parts a b = ground arith

pub eq_of_parts : (a b : ℤ) → pos_part a + neg_part b ≡ pos_part b + neg_part a → a ≡ b
eq_of_parts a b h = ground arith

pub ruleset int_laws = (arith, +ℤ_parts, -ℤ_parts, eq_of_parts)

-- The arithmetic of amounts that are not negative.
pub checked_add-pos :
    (a b : ℕ) → a + b ≤ i128_max → checked_add (pos a) (pos b) ≡ some (pos (a + b))
unfolding checked_add
checked_add-pos a b h = ground arith

pub checked_sub-pos :
    (a b : ℕ) → b ≤ a → a ≤ i128_max → checked_sub (pos a) (pos b) ≡ some (pos (a - b))
unfolding checked_sub
checked_sub-pos a b h k = ground arith

pub saturating_add-pos : (a b : ℕ) → saturating_add (pos a) (pos b) ≡ pos (min (a + b) i128_max)
unfolding saturating_add
saturating_add-pos a b = ground arith

pub saturating_sub-pos :
    (a b : ℕ) → b ≤ a → a ≤ i128_max → saturating_sub (pos a) (pos b) ≡ pos (a - b)
unfolding saturating_sub
saturating_sub-pos a b h k = ground arith

pub saturating_mul-pos : (a b : ℕ) → saturating_mul (pos a) (pos b) ≡ pos (min (a * b) i128_max)
unfolding saturating_mul
saturating_mul-pos a b = ground arith

pub checked_mul-pos :
    (a b : ℕ) → a * b ≤ i128_max → checked_mul (pos a) (pos b) ≡ some (pos (a * b))
unfolding checked_mul
checked_mul-pos a b h = ground arith

-- A checked difference that is not negative is the truncated one, and nothing was cut off.
pub checked_sub-nonneg :
    (a b : ℕ) (c : ℤ)
    → checked_sub (pos a) (pos b) ≡ some c
    → pos 0 ≤ℤ c
    → (b ≤ a) × (c ≡ pos (a - b))
unfolding checked_sub
checked_sub-nonneg a b c h k = ground arith

pub checked_add-some : (a b : ℕ) (c : ℤ) → checked_add (pos a) (pos b) ≡ some c → c ≡ pos (a + b)
unfolding checked_add
checked_add-some a b c h = ground arith

-- An amount is positive, or the source's test `amount <= 0` holds.
pub positive-cases : (a : ℤ) → ((n : ℕ) × (a ≡ pos (suc n))) ⊎ (leb_ℤ a (pos 0) ≡ true)
positive-cases (pos zero) = inr refl
positive-cases (pos (suc n)) = inl (n, refl)
positive-cases (negsuc n) = inr (ground arith)

-- A checked sum that is there is the sum.
pub checked_add_sum : (a b c : ℤ) → checked_add a b ≡ some c → c ≡ a +ℤ b
unfolding checked_add ◌+ℤ◌
checked_add_sum a b c h = ground arith
