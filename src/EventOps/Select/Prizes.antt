-- ===== src/EventOps/Select/Prizes.antt =====
-- contracts/events/src/event_ops.rs, the `Single` branch of `select_winners`: what the batch must
-- satisfy, what it reserves and what it records.
use boundless_contract.Base.{
  ⊤, Option, ℕ, suc, ◌+◌, ◌≤◌, ◌<◌, ◌≡◌, ap, ◌∙◌, false, some, none, List, [], ◌∷◌, length, All,
  arith, unwrap_or, Option-cases, inl, inr, is_some,
}
use boundless_contract.Base.Int.{ℤ, pos, ◌≤ℤ◌, checked_add, checked_add-some, positive-cases}
use boundless_contract.Base.Word.{u32_max}
use boundless_contract.Base.Maps.{Map, lookup}
use boundless_contract.Types.{EventRecord, WinnerSpec}
use boundless_contract.Chain.{State, Env, EventData, ok}
use boundless_contract.Host.{Result-cases}
use boundless_contract.EventOps.Select.Awards.{
  IsDistinct, AreAwarded, award_prizes-Keeps, award_prizes-AreAwarded,
}
use boundless_contract.EventOps.Select.{
  single_total, reserve, award_prizes, extend_window, select_single, below_floor, record_prizes,
}

-- The amount of a spec as a number; a batch that is accepted has no other.
abbrev pub units : ℤ → ℕ
units (pos n) = n
units _ = 0

abbrev pub batch_units : List WinnerSpec → ℕ
batch_units [] = 0
batch_units (w ∷ ws) = units w.amount + batch_units ws

-- A published floor binds the amount; with none the amount is free.
abbrev IsAtLeast : Option ℤ → ℤ → Type 0
IsAtLeast none a = ⊤
IsAtLeast (some floor) a = floor ≤ℤ a

IsAtLeast-below_floor : (f : Option ℤ) (a : ℤ) → below_floor f a ≡ false → IsAtLeast f a
IsAtLeast-below_floor none a h = tt
IsAtLeast-below_floor (some floor) a h = ground arith

-- What the first loop asks of a spec.
pub record IsPayable (d : EventData) (floors : Map ℤ) (w : WinnerSpec) : Type 0 where
  pub fresh : d.prize_award w.position ≡ none
  pub positive : 0 < units w.amount
  pub at_floor : IsAtLeast (lookup w.position floors) w.amount

payable :
    (d : EventData) (floors : Map ℤ) (w : WinnerSpec)
    → is_some (d.prize_award w.position) ≡ false
    → (n : ℕ) → w.amount ≡ pos (suc n)
    → below_floor (lookup w.position floors) w.amount ≡ false
    → IsPayable d floors w
payable d floors w f n e b = record {
  fresh = ground arith;
  positive = ground arith;
  at_floor = IsAtLeast-below_floor (lookup w.position floors) w.amount b;
}

pub single_total-ok :
    (floors : Map ℤ) (t : ℕ) (winners : List WinnerSpec) (e : Env) (s : State) (total : ℤ)
    {s' : State}
    → single_total floors (pos t) winners e s ≡ ok (total, s')
    → (s' ≡ s) × (total ≡ pos (t + batch_units winners)) × All (IsPayable s.here floors) winners
unfolding single_total
single_total-ok floors t [] e s total h = (ground arith, ground arith, tt)
single_total-ok floors t (w ∷ ws) e s total h = elim (positive-cases w.amount) [
  | inr none_ ↦ absurd (ground arith)
  | inl (n, amount) ↦ elim (Option-cases (checked_add (pos t) w.amount)) [
    | inl over ↦ absurd (ground arith)
    | inr (c, sum) ↦
        let next : c ≡ pos (t + suc n) = checked_add-some t (suc n) c (rw amount at sum) in
        let (same, eq, all) = single_total-ok floors (t + suc n) ws e s total (ground arith) in
        (
          same,
          eq ∙ ap pos (ground arith),
          (payable s.here floors w (ground arith) n amount (ground arith), all),
        )
  ]
]

-- The state after the reservation of a batch that is worth `c`.
abbrev reserved : ℤ → State → State
reserved c s = record s { here = record s.here { owed_total = some c } }

reserve-ok :
    (event : EventRecord) (t o n : ℕ) (e : Env) (s : State) {s' : State}
    → event.remaining_escrow ≡ pos n
    → reserve event (pos t) (pos o) e s ≡ ok (tt, s')
    → (t + o ≤ n) × (s' ≡ reserved (pos (t + o)) s)
unfolding reserve
reserve-ok event t o n e s hn h = elim (Option-cases (checked_add (pos t) (pos o))) [
  | inl over ↦ absurd (ground arith)
  | inr (c, sum) ↦
      let eq : c ≡ pos (t + o) = checked_add-some t o c sum in (ground arith, ground arith)
]

AreAwarded-same :
    (i : ℕ) (ws : List WinnerSpec) (d d' : EventData)
    → d'.winner_at ≡ d.winner_at
    → d'.prize_award ≡ d.prize_award
    → AreAwarded i ws d
    → AreAwarded i ws d'
AreAwarded-same i [] d d' p q h = tt
AreAwarded-same i (w ∷ ws) d d' p q h =
    (rw p h.0, rw q h.1, AreAwarded-same (i + 1) ws d d' p q h.2)

module _ (winners : List WinnerSpec) (count now : ℕ) (e : Env) (s t : State) {s' : State}
    (run : award_prizes count 0 winners e s ≡ ok (tt, t))
    (h : record_prizes winners count now e s ≡ ok (tt, s')) where
  after_owed : s'.here.owed_total ≡ t.here.owed_total
  unfolding record_prizes extend_window
  after_owed = ground arith

  after_rows : s'.here.winner_at ≡ t.here.winner_at
  unfolding record_prizes extend_window
  after_rows = ground arith

  after_awards : s'.here.prize_award ≡ t.here.prize_award
  unfolding record_prizes extend_window
  after_awards = ground arith

  after_transfers : s'.transfers ≡ t.transfers
  unfolding record_prizes extend_window
  after_transfers = ground arith

-- What follows the reservation keeps it, and records the awards.
record_prizes-AreAwarded :
    (winners : List WinnerSpec) (count now : ℕ) (e : Env) (s : State) {s' : State}
    → unwrap_or s.here.winner_count 0 ≡ count
    → count + length winners ≤ u32_max
    → IsDistinct winners
    → record_prizes winners count now e s ≡ ok (tt, s')
    → (s'.here.owed_total ≡ s.here.owed_total)
      × AreAwarded count winners s'.here
      × (s'.transfers ≡ s.transfers)
unfolding record_prizes extend_window
record_prizes-AreAwarded winners count now e s {s'} hc room distinct h =
    elim (Result-cases (award_prizes count 0 winners e s)) [
      | inr (inl (x, r)) ↦ absurd (ground arith)
      | inr (inr r) ↦ absurd (ground arith)
      | inl ((_, t), r) ↦
          let k = award_prizes-Keeps count 0 winners e s r in
          let whole : count + 0 ≡ count = omega arith in
          let awards : AreAwarded count winners t.here = rw whole at (
            award_prizes-AreAwarded count 0 winners e s r (rw whole hc) (rw whole room) distinct) in
          (
            after_owed winners count now e s t r h ∙ k.owed_total,
            AreAwarded-same count winners t.here s'.here (after_rows winners count now e s t r h)
                (after_awards winners count now e s t r h) awards,
            after_transfers winners count now e s t r h ∙ k.transfers,
          )
    ]

-- The `Single` branch accepts a batch only if every spec is payable, its positions carrying no award
-- yet, its amounts positive and at least the published floors; it raises the owed total by the sum of
-- the batch, which with what was owed stays within the escrow, gives every spec its row and the award
-- that leads to it, and moves no money. The premises are the amounts that are stored, the number of
-- rows, room for the new ones, and that no position is named twice.
pub select_single-reserves :
    (event : EventRecord) (winners : List WinnerSpec) (count now o n : ℕ) (e : Env) (s : State)
    {s' : State}
    → unwrap_or s.here.owed_total (pos 0) ≡ pos o
    → event.remaining_escrow ≡ pos n
    → unwrap_or s.here.winner_count 0 ≡ count
    → count + length winners ≤ u32_max
    → IsDistinct winners
    → select_single event winners count now e s ≡ ok (tt, s')
    → All (IsPayable s.here event.prize_floors) winners
      × (s'.here.owed_total ≡ some (pos (batch_units winners + o)))
      × (batch_units winners + o ≤ n)
      × AreAwarded count winners s'.here
      × (s'.transfers ≡ s.transfers)
unfolding select_single
select_single-reserves event winners count now o n e s {s'} ho hn hc room distinct h =
    elim (Result-cases (single_total event.prize_floors (pos 0) winners e s)) [
      | inr (inl (x, r1)) ↦ absurd (ground arith)
      | inr (inr r1) ↦ absurd (ground arith)
      | inl ((t, s1), r1) ↦
          let (same, total, payable_all) = single_total-ok event.prize_floors 0 winners e s t r1 in
          let total' : t ≡ pos (batch_units winners) = total ∙ ap pos (omega arith) in
          elim (Result-cases (reserve event (pos (batch_units winners)) (pos o) e s)) [
            | inr (inl (x, r2)) ↦ absurd (ground arith)
            | inr (inr r2) ↦ absurd (ground arith)
            | inl ((_, s2), r2) ↦
                let (covered, out) = reserve-ok event (batch_units winners) o n e s hn r2 in
                let run : record_prizes winners count now e
                      (reserved (pos (batch_units winners + o)) s)
                    ≡ ok (tt, s') =
                  ground arith in
                let (owed, awards, money) =
                  record_prizes-AreAwarded winners count now e
                    (reserved (pos (batch_units winners + o)) s) hc room distinct run in
                (payable_all, owed, covered, awards, money)
          ]
    ]
