-- ===== src/EventOps/Select/Awards.antt =====
-- contracts/events/src/event_ops.rs, the second loop of the `Single` branch of `select_winners`: the
-- rows and awards that it writes, so that each award leads to its own row.
use boundless_contract.Chain.Steady.{IsSteady}
use boundless_contract.Base.{
  ⊤, ℕ, ◌+◌, ◌≤◌, ◌<◌, ◌≡◌, refl, ◌∙◌, false, some, List, [], ◌∷◌, length, All, arith, unwrap_or,
}
use boundless_contract.Base.Word.{u32_max}
use boundless_contract.Base.Maps.{update}
use boundless_contract.Types.{WinnerSpec, PrizeAward}
use boundless_contract.Chain.{State, Env, EventData, ok}
use boundless_contract.Storage.Event.{push_winner}
use boundless_contract.EventOps.Select.{award_prizes, check_positions, winner_row, member}

-- The award of a spec whose row stands at `anchor`.
abbrev pub award_at : ℕ → WinnerSpec → PrizeAward
award_at anchor w = record {
  recipient = w.recipient;
  anchor_idx = anchor;
  reputation_bump = w.reputation_bump;
}

-- The entries after one round.
abbrev pub awarded : ℕ → WinnerSpec → EventData → EventData
awarded anchor w d =
    let d' = push_winner (winner_row w) d in
    record d' { prize_award = update d.prize_award w.position (some (award_at anchor w)) }

pub award_prizes-step :
    (count idx : ℕ) (w : WinnerSpec) (ws : List WinnerSpec) (e : Env) (s : State) {s' : State}
    → award_prizes count idx (w ∷ ws) e s ≡ ok (tt, s')
    → (count + idx ≤ u32_max)
      × (award_prizes count (idx + 1) ws e (record s { here = awarded (count + idx) w s.here })
          ≡ ok (tt, s'))
unfolding award_prizes
award_prizes-step count idx w ws e s h = ground arith

-- What the loop leaves alone, as long as the rows end where it begins to write.
pub record Keeps (ws : List WinnerSpec) (s s' : State) : Type 0 where
  pub event : s'.here.event ≡ s.here.event
  pub owed_total : s'.here.owed_total ≡ s.here.owed_total
  pub unclaimed : s'.here.unclaimed_prizes ≡ s.here.unclaimed_prizes
  pub expiry : s'.here.prize_claim_expiry ≡ s.here.prize_claim_expiry
  pub transfers : s'.transfers ≡ s.transfers
  pub steady : IsSteady s s'

pub award_prizes-Keeps :
    (count idx : ℕ) (ws : List WinnerSpec) (e : Env) (s : State) {s' : State}
    → award_prizes count idx ws e s ≡ ok (tt, s')
    → Keeps ws s s'
unfolding award_prizes
award_prizes-Keeps count idx [] e s h = ground arith
award_prizes-Keeps count idx (w ∷ ws) e s h =
    let (_, rest) = award_prizes-step count idx w ws e s h in
    let k = award_prizes-Keeps count (idx + 1) ws e _ rest in
    record {
      event = k.event;
      owed_total = k.owed_total;
      unclaimed = k.unclaimed;
      expiry = k.expiry;
      transfers = k.transfers;
      steady = ground (arith, k.steady);
    }

abbrev pub positions : List WinnerSpec → List ℕ
positions [] = []
positions (w ∷ ws) = w.position ∷ positions ws

-- A position that no spec names keeps its award.
pub prize_award-award_prizes :
    (count idx q : ℕ) (ws : List WinnerSpec) (e : Env) (s : State) {s' : State}
    → award_prizes count idx ws e s ≡ ok (tt, s')
    → member q (positions ws) ≡ false
    → s'.here.prize_award q ≡ s.here.prize_award q
unfolding award_prizes
prize_award-award_prizes count idx q [] e s h out = ground arith
prize_award-award_prizes count idx q (w ∷ ws) e s h out =
    let (_, rest) = award_prizes-step count idx w ws e s h in
    prize_award-award_prizes count (idx + 1) q ws e _ rest (ground arith) ∙ ground arith

-- A row below those that are there stays.
winner_at-award_prizes :
    (count idx i : ℕ) (ws : List WinnerSpec) (e : Env) (s : State) {s' : State}
    → award_prizes count idx ws e s ≡ ok (tt, s')
    → unwrap_or s.here.winner_count 0 ≡ count + idx
    → i < count + idx
    → count + idx + length ws ≤ u32_max
    → s'.here.winner_at i ≡ s.here.winner_at i
unfolding award_prizes
winner_at-award_prizes count idx i [] e s h at below room = ground arith
winner_at-award_prizes count idx i (w ∷ ws) e s h at below room =
    let (_, rest) = award_prizes-step count idx w ws e s h in
    winner_at-award_prizes count (idx + 1) i ws e _ rest (ground arith) (omega arith) (omega arith)
    ∙ ground arith

-- No position is named twice.
abbrev pub IsDistinct : List WinnerSpec → Type 0
IsDistinct [] = ⊤
IsDistinct (w ∷ ws) = (member w.position (positions ws) ≡ false) × IsDistinct ws

-- From row `i` on, each spec has its row, and its position the award that leads there.
abbrev pub AreAwarded : ℕ → List WinnerSpec → EventData → Type 0
AreAwarded i [] d = ⊤
AreAwarded i (w ∷ ws) d =
    (d.winner_at i ≡ some (winner_row w))
    × (d.prize_award w.position ≡ some (award_at i w))
    × AreAwarded (i + 1) ws d

-- With distinct positions every spec of the batch gets its own row after those that are there, and an
-- award that leads to that row.
pub award_prizes-AreAwarded :
    (count idx : ℕ) (ws : List WinnerSpec) (e : Env) (s : State) {s' : State}
    → award_prizes count idx ws e s ≡ ok (tt, s')
    → unwrap_or s.here.winner_count 0 ≡ count + idx
    → count + idx + length ws ≤ u32_max
    → IsDistinct ws
    → AreAwarded (count + idx) ws s'.here
unfolding award_prizes
award_prizes-AreAwarded count idx [] e s h at room distinct = tt
award_prizes-AreAwarded count idx (w ∷ ws) e s h at room distinct =
    let (_, rest) = award_prizes-step count idx w ws e s h in
    let t : State = record s { here = awarded (count + idx) w s.here } in
    let next : unwrap_or t.here.winner_count 0 ≡ count + (idx + 1) = ground arith in
    let assoc : count + (idx + 1) ≡ count + idx + 1 = omega arith in
    (
      winner_at-award_prizes count (idx + 1) (count + idx) ws e t rest next (omega arith)
            (omega arith)
          ∙ ground arith,
      prize_award-award_prizes count (idx + 1) w.position ws e t rest distinct.0 ∙ ground arith,
      rw assoc at
          (award_prizes-AreAwarded count (idx + 1) ws e t rest next (omega arith) distinct.1),
    )

abbrev Avoids : List ℕ → List WinnerSpec → Type 0
Avoids seen ws = All (λ w. member w.position seen ≡ false) ws

Avoids-fresh :
    (p : ℕ) (seen : List ℕ) (ws : List WinnerSpec)
    → Avoids (p ∷ seen) ws
    → member p (positions ws) ≡ false
Avoids-fresh p seen [] h = refl
Avoids-fresh p seen (w ∷ ws) h = ground (arith, h.0, Avoids-fresh p seen ws h.1)

Avoids-drop : (p : ℕ) (seen : List ℕ) (ws : List WinnerSpec) → Avoids (p ∷ seen) ws → Avoids seen ws
Avoids-drop p seen [] h = tt
Avoids-drop p seen (w ∷ ws) h = (ground (arith, h.0), Avoids-drop p seen ws h.1)

check_positions-Avoids :
    (seen : List ℕ) (ws : List WinnerSpec) (e : Env) (s : State) {s' : State}
    → check_positions seen ws e s ≡ ok (tt, s')
    → Avoids seen ws × IsDistinct ws
unfolding check_positions
check_positions-Avoids seen [] e s h = (tt, tt)
check_positions-Avoids seen (w ∷ ws) e s {s'} h =
    let (avoid, distinct) =
      check_positions-Avoids (w.position ∷ seen) ws e s {s' = s'} (ground arith) in
    (
      (ground arith, Avoids-drop w.position seen ws avoid),
      (Avoids-fresh w.position seen ws avoid, distinct),
    )

-- A batch that passes the check of its positions names none twice.
pub check_positions-IsDistinct :
    (ws : List WinnerSpec) (e : Env) (s : State) {s' : State}
    → check_positions [] ws e s ≡ ok (tt, s')
    → IsDistinct ws
check_positions-IsDistinct ws e s h = (check_positions-Avoids [] ws e s h).1
