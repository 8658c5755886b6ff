-- ===== src/Storage/Event/Pages.antt =====
-- contracts/events/src/storage.rs: what a page of a snapshot lists.
use boundless_contract.Base.{
  ℕ, zero, suc, ◌+◌, ◌-◌, ◌≤◌, ◌<◌, ◌≡◌, refl, ltb, ◌&&◌, min, Option, some, none, List, ◌∷◌,
  get_elem?, arith, if◌then◌else◌,
}
use boundless_contract.Base.Word.{u32_max, saturating_add32}
use boundless_contract.Storage.Event.{collect, page, push_some}

push_some-some {ℓ} :
    {A : Type ℓ} (o : Option A) (x : A) (xs : List A) → o ≡ some x → push_some o xs ≡ x ∷ xs
push_some-some o x xs h = rw h refl

get_elem?-collect {ℓ} :
    {A : Type ℓ} (at : ℕ → Option A) (f : ℕ → A) (i n k : ℕ)
    → ((j : ℕ) → i ≤ j → j < i + n → at j ≡ some (f j))
    → get_elem? (collect at i n) k ≡ (if ltb k n then some (f (i + k)) else none)
unfolding collect
get_elem?-collect at f i zero k full = ground arith
get_elem?-collect at f i (suc n) zero full =
    let here =
      push_some-some (at i) (f i) (collect at (i + 1) n) (full i (omega arith) (omega arith)) in
    let zero_more : i + 0 ≡ i = omega arith in rw (here, zero_more) (ground arith)
get_elem?-collect at f i (suc n) (suc k) full =
    let here =
      push_some-some (at i) (f i) (collect at (i + 1) n) (full i (omega arith) (omega arith)) in
    let rest =
      get_elem?-collect at f (i + 1) n k
        (λ j lo hi. full j (omega (arith, lo)) (omega (arith, hi))) in
    let step : i + 1 + k ≡ i + suc k = omega arith in
    let bound : ltb (suc k) (suc n) ≡ ltb k n = ground arith in rw (here, bound) (rw step at rest)

-- A page lists the rows from `start` on in their order: its `k`-th entry is the row `start + k` while
-- that stays below the count and `k` below the limit, and it has no other entries. The premises are that
-- every index below the count has a row, and that the count and the end of the page fit a `u32`.
pub get_elem?-page {ℓ} :
    {A : Type ℓ} (at : ℕ → Option A) (row : ℕ → A) (count start limit k : ℕ)
    → ((j : ℕ) → j < count → at j ≡ some (row j))
    → count ≤ u32_max
    → start + limit ≤ u32_max
    → get_elem? (page at count start limit) k
      ≡ (if ltb k limit && ltb (start + k) count then some (row (start + k)) else none)
unfolding page
get_elem?-page at row count start limit k full words fits =
    let n = min (saturating_add32 start limit) count - start in
    let listed = get_elem?-collect at row start n k (λ j lo hi. full j (omega (arith, lo, hi))) in
    let bound : ltb k n ≡ ltb k limit && ltb (start + k) count = ground arith in rw bound at listed
