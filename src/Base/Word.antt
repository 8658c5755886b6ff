-- ===== src/Base/Word.antt =====
-- Unsigned machine integers as natural numbers: the operations of `u32` and `u64` that can meet the
-- upper bound. `saturating_sub` is the subtraction of ℕ, which stops at 0.
use boundless_contract.Base.{ℕ, ◌+◌, ◌-◌, ◌^◌, min, Option, some, none, leb, if◌then◌else◌}

abbrev pub u32_max : ℕ
u32_max = 2 ^ 32 - 1

abbrev pub u64_max : ℕ
u64_max = 2 ^ 64 - 1

abbrev pub saturating_add32 : ℕ → ℕ → ℕ
saturating_add32 a b = min (a + b) u32_max

abbrev pub saturating_add64 : ℕ → ℕ → ℕ
saturating_add64 a b = min (a + b) u64_max

abbrev pub checked_add32 : ℕ → ℕ → Option ℕ
checked_add32 a b = if leb (a + b) u32_max then some (a + b) else none

abbrev pub checked_add64 : ℕ → ℕ → Option ℕ
checked_add64 a b = if leb (a + b) u64_max then some (a + b) else none
