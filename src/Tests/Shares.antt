-- ===== src/Tests/Shares.antt =====
-- Milestones and splits.
use mathlib.Core.List.{Permᴰ}
use boundless_contract.Base.{
  ℕ, ◌<◌, ◌≤◌, ◌≡◌, ◌↔◌, refl, true, some, Option, List, [], ◌∷◌, arith, length, get_elem?,
}
use boundless_contract.Base.Int.{pos, checked_mul, ◌*ℤ◌}
use boundless_contract.Types.{multi, split}
use boundless_contract.EventOps.Create.{split_is_valid, split_total}
use boundless_contract.EventOps.Create.Split.{split_is_valid_iff, sum, AllPositive}
use boundless_contract.Grant.Shares.{every_milestone_pays, all_pay, milestone_share}
use boundless_contract.Grant.Shares.Sums.{indices}
use boundless_contract.Grant.Shares.Award.{PaysInFull, multi-PaysInFull, split-PaysInFull}
use boundless_contract.Storage.Event.{page}
use boundless_contract.Storage.Event.Pages.{get_elem?-page}

abbrev thirds : List ℕ
thirds = 3333 ∷ 3333 ∷ 3334 ∷ []

thirds_are_valid : split_is_valid thirds ≡ true
unfolding split_is_valid split_total
thirds_are_valid = refl

split_is_valid_iff_example :
    (split_is_valid thirds ≡ true)
    ↔ ((0 < length thirds) × (length thirds ≤ 20) × AllPositive thirds × (sum thirds ≡ 10000))
split_is_valid_iff_example = split_is_valid_iff thirds

-- The middle milestone first.
middle_first : Permᴰ (1 ∷ 0 ∷ 2 ∷ []) (indices 0 3)
middle_first = Permᴰ.swap refl refl

thousand_pays : every_milestone_pays (multi 3) (pos 1000) ≡ true
unfolding every_milestone_pays
thousand_pays = refl

thousand_splits : every_milestone_pays (split thirds) (pos 1000) ≡ true
unfolding every_milestone_pays all_pay milestone_share checked_mul ◌*ℤ◌
thousand_splits = refl

multi-PaysInFull_example : PaysInFull (multi 3) 3 1 1000 (1 ∷ 0 ∷ 2 ∷ [])
multi-PaysInFull_example =
    multi-PaysInFull 3 1 1000 (1 ∷ 0 ∷ 2 ∷ []) (omega arith) (omega arith) thousand_pays
      middle_first

split-PaysInFull_example : PaysInFull (split thirds) (length thirds) 1 1000 (1 ∷ 0 ∷ 2 ∷ [])
split-PaysInFull_example =
    split-PaysInFull thirds 1 1000 (1 ∷ 0 ∷ 2 ∷ []) (omega arith) thirds_are_valid thousand_splits
      middle_first

-- Each row holds its index.
abbrev rows : ℕ → Option ℕ
rows i = some i

get_elem?-page_example : get_elem? (page rows 5 1 10) 3 ≡ some 4
get_elem?-page_example =
    get_elem?-page rows (λ i. i) 5 1 10 3 (λ j below. refl) (omega arith) (omega arith)
