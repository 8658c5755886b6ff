-- ===== src/EventOps/Rows.antt =====
-- contracts/events/src/event_ops.rs and grant.rs: the winners' rows of an event and the awards that lead to
-- them, which no handler takes back.
pub mod Handling
pub mod Selecting
pub mod Simple
use boundless_contract.Base.{
  ℕ, ◌+◌, ◌≤◌, ◌<◌, ◌≡◌, ◌⊎◌, inl, inr, true, some, unwrap_or, is_some, arith, refl, ◌∙◌,
}
use boundless_contract.Base.Word.{u32_max}
use boundless_contract.Types.{Winner, PrizeAward}
use boundless_contract.Chain.{EventData}

abbrev pub rows : EventData → ℕ
rows d = unwrap_or d.winner_count 0

-- From `d` to `d'`: a row stays or is a paid one, an award stays, and a new one leads below the count,
-- which grows by at most `n`.
pub record IsKept (n : ℕ) (d d' : EventData) : Type 0 where
  pub grows : rows d ≤ rows d'
  pub bound : rows d' ≤ rows d + n
  pub row :
      (i : ℕ)
      → i < rows d
      → (d'.winner_at i ≡ d.winner_at i)
        ⊎ ((w : Winner) × (d'.winner_at i ≡ some w) × (is_some w.paid_at ≡ true))
  pub award : (q : ℕ) (a : PrizeAward) → d.prize_award q ≡ some a → d'.prize_award q ≡ some a
  pub fresh :
      (q : ℕ) (a : PrizeAward)
      → d'.prize_award q ≡ some a
      → (d.prize_award q ≡ some a) ⊎ (a.anchor_idx < rows d')

-- Every award leads to a row.
abbrev pub IsAnchored : EventData → Type 0
IsAnchored d = (q : ℕ) (a : PrizeAward) → d.prize_award q ≡ some a → a.anchor_idx < rows d

-- The award at `p` leads to a paid row.
pub record IsPaid (p : ℕ) (d : EventData) : Type 0 where
  pub award : PrizeAward
  pub row : Winner
  pub there : d.prize_award p ≡ some award
  pub at : d.winner_at award.anchor_idx ≡ some row
  pub paid : is_some row.paid_at ≡ true

pub IsAnchored-IsKept : {n : ℕ} {d d' : EventData} → IsKept n d d' → IsAnchored d → IsAnchored d'
IsAnchored-IsKept k anchored q a there = elim (k.fresh q a there) [
  | inl before ↦ let low = anchored q a before in omega (arith, low, k.grows)
  | inr low ↦ low
]

pub IsPaid-IsKept :
    {n p : ℕ} {d d' : EventData} → IsKept n d d' → IsAnchored d → IsPaid p d → IsPaid p d'
IsPaid-IsKept {n} {p} k anchored paid =
    elim (k.row paid.award.anchor_idx (anchored p paid.award paid.there)) [
      | inl same ↦ record {
        award = paid.award;
        row = paid.row;
        there = k.award p paid.award paid.there;
        at = same ∙ paid.at;
        paid = paid.paid;
      }
      | inr (w, at, done) ↦ record {
        award = paid.award;
        row = w;
        there = k.award p paid.award paid.there;
        at = at;
        paid = done;
      }
    ]

pub IsKept-trans :
    {m n : ℕ} {d d' d'' : EventData} → IsKept m d d' → IsKept n d' d'' → IsKept (m + n) d d''
IsKept-trans {m} {n} j k = record {
  grows = omega (arith, j.grows, k.grows);
  bound = omega (arith, j.bound, k.bound);
  row = λ i below. elim (k.row i (omega (arith, below, j.grows))) [
    | inr done ↦ inr done
    | inl same ↦ elim (j.row i below) [
      | inl before ↦ inl (same ∙ before)
      | inr (w, at, paid) ↦ inr (w, same ∙ at, paid)
    ]
  ];
  award = λ q a there. k.award q a (j.award q a there);
  fresh = λ q a there. elim (k.fresh q a there) [
    | inr low ↦ inr low
    | inl before ↦ elim (j.fresh q a before) [
      | inl first ↦ inl first
      | inr low ↦ inr (omega (arith, low, k.grows))
    ]
  ];
}

pub IsKept-le : {m n : ℕ} {d d' : EventData} → m ≤ n → IsKept m d d' → IsKept n d d'
IsKept-le le k = record {
  grows = k.grows;
  bound = omega (arith, k.bound);
  row = k.row;
  award = k.award;
  fresh = k.fresh;
}

abbrev pub SameRows : EventData → EventData → Type 0
SameRows d d' =
    (d'.winner_count ≡ d.winner_count)
    × (d'.winner_at ≡ d.winner_at)
    × (d'.prize_award ≡ d.prize_award)

pub IsKept-SameRows : (n : ℕ) (d d' : EventData) → SameRows d d' → IsKept n d d'
IsKept-SameRows n d d' same = record {
  grows = ground (arith, same);
  bound = ground (arith, same);
  row = λ i below. inl (ground (arith, same));
  award = λ q a there. ground (arith, same);
  fresh = λ q a there. inl (ground (arith, same));
}
