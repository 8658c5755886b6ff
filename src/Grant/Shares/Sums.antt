-- ===== src/Grant/Shares/Sums.antt =====
-- Sums over the milestones of an award, and the fact that its rounded shares never exceed it.
use mathlib.Core.List.{Permᴰ}
use native.Mathlib.Nat.{div-add-mod}
use boundless_contract.Base.{
  ℕ, zero, suc, ◌+◌, ◌*◌, ◌/◌, ◌≤◌, ◌≡◌, refl, ap, ◌∙◌, List, [], ◌∷◌, arith, length, All,
  get_elem?, unwrap_or,
}
use boundless_contract.EventOps.Create.Split.{sum}

abbrev pub sum_of : (ℕ → ℕ) → List ℕ → ℕ
sum_of f [] = 0
sum_of f (m ∷ ms) = f m + sum_of f ms

-- The milestones from `m` on, `left` of them.
abbrev pub indices : ℕ → ℕ → List ℕ
indices m zero = []
indices m (suc left) = m ∷ indices (m + 1) left

pub sum_of-perm : (f : ℕ → ℕ) {ms ns : List ℕ} → Permᴰ ms ns → sum_of f ms ≡ sum_of f ns
sum_of-perm f Permᴰ.nil = refl
sum_of-perm f (Permᴰ.cons e p) = ground (arith, e, sum_of-perm f p)
sum_of-perm f (Permᴰ.swap e d) = ground (arith, e, d)
sum_of-perm f (Permᴰ.trans p q) = sum_of-perm f p ∙ sum_of-perm f q

pub length-perm : {ms ns : List ℕ} → Permᴰ ms ns → length ms ≡ length ns
length-perm Permᴰ.nil = refl
length-perm (Permᴰ.cons e p) = ap suc (length-perm p)
length-perm (Permᴰ.swap e d) = refl
length-perm (Permᴰ.trans p q) = length-perm p ∙ length-perm q

pub length-indices : (m left : ℕ) → length (indices m left) ≡ left
length-indices m zero = refl
length-indices m (suc left) = ap suc (length-indices (m + 1) left)

-- A pointwise fact about the milestones in order holds for them in any order.
pub All-perm : (P : ℕ → Type 0) {ms ns : List ℕ} → Permᴰ ms ns → All P ns → All P ms
All-perm P Permᴰ.nil h = h
All-perm P (Permᴰ.cons e p) h = (rw e h.0, All-perm P p h.1)
All-perm P (Permᴰ.swap e d) h = (rw e h.1.0, (rw d h.0, h.1.1))
All-perm P (Permᴰ.trans p q) h = All-perm P p (All-perm P q h)

sum_of-shift :
    (f : ℕ → ℕ) (m left : ℕ)
    → sum_of f (indices (suc m) left) ≡ sum_of (λ i. f (suc i)) (indices m left)
sum_of-shift f m zero = refl
sum_of-shift f m (suc left) =
    let e : suc m + 1 ≡ suc (m + 1) = omega arith in
    rw e (ap (λ t. f (suc m) + t) (sum_of-shift f (m + 1) left))

sum_of-const : (c m left : ℕ) → sum_of (λ _. c) (indices m left) ≡ left * c
sum_of-const c m zero = omega arith
sum_of-const c m (suc left) = omega (arith, sum_of-const c (m + 1) left)

pub even_shares-le : (a n : ℕ) → sum_of (λ _. a / n) (indices 0 n) ≤ a
even_shares-le a n = rw (sum_of-const (a / n) 0 n) (omega (arith, div-add-mod a n))

-- The basis points of a milestone, 0 beyond the last.
abbrev pub bps_of : List ℕ → ℕ → ℕ
bps_of shares m = unwrap_or (get_elem? shares m) 0

pub split_shares-le :
    (a : ℕ) (shares : List ℕ)
    → sum_of (λ m. a * bps_of shares m / 10000) (indices 0 (length shares)) ≤ a * sum shares / 10000
split_shares-le a [] = omega arith
split_shares-le a (x ∷ xs) =
    let shifted = sum_of-shift (λ m. a * bps_of (x ∷ xs) m / 10000) 0 (length xs) in
    rw shifted (omega (arith, split_shares-le a xs))
