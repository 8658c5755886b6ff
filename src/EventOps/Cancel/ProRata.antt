-- ===== src/EventOps/Cancel/ProRata.antt =====
-- contracts/events/src/event_ops.rs, the shares of `process_cancel_batch` where the escrow does not
-- cover all contributions: together they stay within it.
use native.Mathlib.Nat.{
  add-mul, div-mul-le_self, le_of_mul-le-mul_right, mul-le-mul_right, mul_comm, le_trans,
}
use boundless_contract.Base.{min, ℕ, ◌*◌, ◌/◌, ◌≤◌, ◌<◌, ◌≡◌, refl, List, [], ◌∷◌, map, arith, All}
use boundless_contract.Base.Int.{ℤ, pos, i128_max, saturating_mul-pos}
use boundless_contract.Types.{CancellationState}
use boundless_contract.Chain.{Call, State, Env, ok, pure, ◌>>=◌}
use boundless_contract.EventOps.Create.Split.{sum}
use boundless_contract.EventOps.Cancel.{pro_rata}

-- The shares of the contributions of a list, one after the other.
unfoldable pub shares_of : CancellationState → List ℤ → Call (List ℤ)
shares_of st [] = pure []
shares_of st (a ∷ rest) = do x ← pro_rata st a; xs ← shares_of st rest; pure (x ∷ xs)

abbrev pub parts : ℕ → ℕ → List ℕ → List ℕ
parts r t [] = []
parts r t (a ∷ rest) = a * r / t ∷ parts r t rest

parts-le : (r t : ℕ) (amts : List ℕ) → 0 < t → sum (parts r t amts) * t ≤ sum amts * r
parts-le r t [] h = omega arith
parts-le r t (a ∷ rest) h = omega (
  arith,
  add-mul (a * r / t) (sum (parts r t rest)) t,
  add-mul a (sum rest) r,
  div-mul-le_self (a * r) t,
  parts-le r t rest h,
)

pro_rata-pos :
    (st : CancellationState) (a r t : ℕ) (e : Env) (s : State)
    → st.non_owner_total ≡ pos t
    → st.remaining_at_start ≡ pos r
    → 0 < t
    → a * r ≤ i128_max
    → pro_rata st (pos a) e s ≡ ok (pos (a * r / t), s)
unfolding pro_rata
pro_rata-pos st a r t e s ht hr h fits =
    let whole : min (a * r) i128_max ≡ a * r = omega arith in
    rw (ht, hr, saturating_mul-pos a r, whole) (ground arith)

shares_of-parts :
    (st : CancellationState) (r t : ℕ) (amts : List ℕ) (e : Env) (s : State)
    → st.non_owner_total ≡ pos t
    → st.remaining_at_start ≡ pos r
    → 0 < t
    → All (λ a. a * r ≤ i128_max) amts
    → shares_of st (map pos amts) e s ≡ ok (map pos (parts r t amts), s)
unfolding shares_of
shares_of-parts st r t [] e s ht hr h fits = refl
shares_of-parts st r t (a ∷ rest) e s ht hr h fits = ground (
  arith,
  pro_rata-pos st a r t e s ht hr h fits.0,
  shares_of-parts st r t rest e s ht hr h fits.1,
)

-- The refunds of a cancellation that shares the escrow among its contributors: for contributions
-- that add up to at most the total, with products that fit an `i128`, none of the shares fails and
-- their sum is at most the escrow at the start.
pub shares_of-le :
    (st : CancellationState) (r t : ℕ) (amts : List ℕ) (e : Env) (s : State)
    → st.non_owner_total ≡ pos t
    → st.remaining_at_start ≡ pos r
    → 0 < t
    → sum amts ≤ t
    → All (λ a. a * r ≤ i128_max) amts
    → (xs : List ℕ) × (shares_of st (map pos amts) e s ≡ ok (map pos xs, s)) × (sum xs ≤ r)
shares_of-le st r t amts e s ht hr h total fits =
    (parts r t amts, shares_of-parts st r t amts e s ht hr h fits, within)
  where
    within : sum (parts r t amts) ≤ r
    within =
        le_of_mul-le-mul_right {k = t}
          (le_trans (parts-le r t amts h) (rw (mul_comm r t) (mul-le-mul_right r total))) h
