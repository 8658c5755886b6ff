-- ===== src/EventOps/Rows/Selecting.antt =====
-- A selection appends rows, and gives awards to positions that have none.
use boundless_contract.Base.{
  ⊤, ℕ, ◌+◌, ◌≤◌, ◌<◌, ◌≡◌, ◌==◌, none, some, false, true, List, [], ◌∷◌, length, All, arith, inl,
  inr, Bool-cases, Option-cases, unwrap_or,
}
use boundless_contract.Base.Int.{ℤ, pos, checked_add}
use boundless_contract.Base.Word.{u32_max}
use boundless_contract.Base.Maps.{Map}
use boundless_contract.Types.{OpId, EventRecord, WinnerSpec, ReleaseKind, single, multi, split}
use boundless_contract.Host.{Result-cases, ok}
use boundless_contract.Chain.{State, Env, EventData, load}
use boundless_contract.Storage.Event.{push_winner}
use boundless_contract.EventOps.Select.{
  select_winners, select_by, select_single, select_grant, single_total, grant_total, reserve,
  award_prizes, record_prizes, extend_window, append_awards, member, winner_row,
}
use boundless_contract.EventOps.Select.Awards.{IsDistinct, positions, awarded, award_prizes-step}
use boundless_contract.EventOps.Select.Prizes.{single_total-ok, IsPayable}
use boundless_contract.EventOps.Solvency.{has_shares, IsCovered}
use boundless_contract.EventOps.Solvency.Awarding.{grant_total-nonneg}
use boundless_contract.EventOps.Solvency.Selecting.{
  select_winners-row, select_winners-runs, select_winners-length, select_winners-IsDistinct,
}
use boundless_contract.EventOps.Rows.{
  rows, IsKept, SameRows, IsKept-SameRows, IsKept-trans, IsKept-le,
}

-- The positions of a batch carry no award.
abbrev AreFree : EventData → List WinnerSpec → Type 0
AreFree d [] = ⊤
AreFree d (w ∷ ws) = (d.prize_award w.position ≡ none) × AreFree d ws

AreFree-awarded :
    (anchor : ℕ) (w : WinnerSpec) (ws : List WinnerSpec) (d : EventData)
    → member w.position (positions ws) ≡ false
    → AreFree d ws
    → AreFree (awarded anchor w d) ws
AreFree-awarded anchor w [] d apart free = tt
AreFree-awarded anchor w (v ∷ ws) d apart free =
    (ground (arith, free.0), AreFree-awarded anchor w ws d (ground arith) free.1)

AreFree-IsPayable :
    (d : EventData) (floors : Map ℤ) (ws : List WinnerSpec)
    → All (IsPayable d floors) ws
    → AreFree d ws
AreFree-IsPayable d floors [] all = tt
AreFree-IsPayable d floors (w ∷ ws) all = (all.0.fresh, AreFree-IsPayable d floors ws all.1)

awarded-IsKept :
    (w : WinnerSpec) (k : ℕ) (d : EventData)
    → rows d ≡ k
    → k < u32_max
    → d.prize_award w.position ≡ none
    → IsKept 1 d (awarded k w d)
awarded-IsKept w k d at room free = record {
  grows = ground arith;
  bound = ground arith;
  row = λ i below. inl (ground arith);
  award = λ q a there. ground arith;
  fresh = λ q a there. elim (Bool-cases (q == w.position)) [
    | inl own ↦ inr (ground arith)
    | inr other ↦ inl (ground arith)
  ];
}

award_prizes-IsKept :
    (count idx : ℕ) (ws : List WinnerSpec) (e : Env) (s : State) {s' : State}
    → award_prizes count idx ws e s ≡ ok (tt, s')
    → rows s.here ≡ count + idx
    → count + idx + length ws ≤ u32_max
    → IsDistinct ws
    → AreFree s.here ws
    → IsKept (length ws) s.here s'.here
unfolding award_prizes
award_prizes-IsKept count idx [] e s {s'} h at room distinct free =
    IsKept-SameRows 0 s.here s'.here (ground arith)
award_prizes-IsKept count idx (w ∷ ws) e s {s'} h at room distinct free =
    let (_, rest) = award_prizes-step count idx w ws e s h in
    let t : State = record s { here = awarded (count + idx) w s.here } in
    let first : IsKept 1 s.here t.here =
      awarded-IsKept w (count + idx) s.here at (omega (arith, room)) free.0 in
    let later =
      award_prizes-IsKept count (idx + 1) ws e t rest (ground (arith, at)) (omega (arith, room))
        distinct.1 (AreFree-awarded (count + idx) w ws s.here distinct.0 free.1) in
    IsKept-le (omega arith) (IsKept-trans first later)

append_awards-IsKept :
    (ws : List WinnerSpec) (e : Env) (s : State) {s' : State}
    → append_awards ws e s ≡ ok (tt, s')
    → rows s.here + length ws ≤ u32_max
    → IsKept (length ws) s.here s'.here
unfolding append_awards
append_awards-IsKept [] e s {s'} h room = IsKept-SameRows 0 s.here s'.here (ground arith)
append_awards-IsKept (w ∷ ws) e s {s'} h room =
    let t : State = record s { here = push_winner (winner_row w) s.here } in
    let run : append_awards ws e t ≡ ok (tt, s') = ground arith in
    let first : IsKept 1 s.here t.here = record {
      grows = ground arith;
      bound = ground arith;
      row = λ i below. inl (ground arith);
      award = λ q a there. ground arith;
      fresh = λ q a there. inl (ground arith);
    } in
    let later = append_awards-IsKept ws e t run (omega (arith, room, first.bound)) in
    IsKept-le (omega arith) (IsKept-trans first later)

reserve-SameRows :
    (r : EventRecord) (b o : ℤ) (e : Env) (s : State) {s' : State}
    → reserve r b o e s ≡ ok (tt, s')
    → SameRows s.here s'.here
unfolding reserve
reserve-SameRows r b o e s h = elim (Option-cases (checked_add b o)) [
  | inl over ↦ absurd (ground arith)
  | inr (c, sum) ↦ ground arith
]

AreFree-SameRows :
    (d d' : EventData) (ws : List WinnerSpec) → SameRows d d' → AreFree d ws → AreFree d' ws
AreFree-SameRows d d' [] same free = tt
AreFree-SameRows d d' (w ∷ ws) same free =
    (ground (arith, same, free.0), AreFree-SameRows d d' ws same free.1)

record_prizes-IsKept :
    (ws : List WinnerSpec) (now : ℕ) (e : Env) (s : State) {s' : State}
    → record_prizes ws (rows s.here) now e s ≡ ok (tt, s')
    → rows s.here + length ws ≤ u32_max
    → IsDistinct ws
    → AreFree s.here ws
    → IsKept (length ws) s.here s'.here
unfolding record_prizes extend_window
record_prizes-IsKept ws now e s {s'} h room distinct free =
    elim (Result-cases (award_prizes (rows s.here) 0 ws e s)) [
      | inr (inl (x, k)) ↦ absurd (ground arith)
      | inr (inr k) ↦ absurd (ground arith)
      | inl ((_, t), k) ↦
          let awards =
            award_prizes-IsKept (rows s.here) 0 ws e s k (omega arith) (omega (arith, room))
              distinct free in
          let same : SameRows t.here s'.here = ground arith in
          IsKept-le (omega arith) (IsKept-trans awards (IsKept-SameRows 0 t.here s'.here same))
    ]

module _ (r : EventRecord) (ws : List WinnerSpec) (e : Env) (s : State) {s' : State}
    (room : rows s.here + length ws ≤ u32_max) (distinct : IsDistinct ws) where
  select_single-IsKept :
      (now : ℕ)
      → select_single r ws (rows s.here) now e s ≡ ok (tt, s')
      → IsKept (length ws) s.here s'.here
  unfolding select_single
  select_single-IsKept now h = elim (Result-cases (single_total r.prize_floors (pos 0) ws e s)) [
    | inr (inl (x, k)) ↦ absurd (ground arith)
    | inr (inr k) ↦ absurd (ground arith)
    | inl ((b, t), k) ↦
        let (same, _, all) = single_total-ok r.prize_floors 0 ws e s b k in
        let o = unwrap_or s.here.owed_total (pos 0) in
        elim (Result-cases (reserve r b o e s)) [
          | inr (inl (x, k1)) ↦ absurd (ground (arith, same))
          | inr (inr k1) ↦ absurd (ground (arith, same))
          | inl ((_, u), k1) ↦
              let equal = reserve-SameRows r b o e s k1 in
              let count : rows u.here ≡ rows s.here = ground (arith, equal) in
              let run : record_prizes ws (rows u.here) now e u ≡ ok (tt, s') =
                ground (arith, same, count) in
              let free =
                AreFree-SameRows s.here u.here ws equal
                  (AreFree-IsPayable s.here r.prize_floors ws all) in
              let later =
                record_prizes-IsKept ws now e u run (omega (arith, room, count)) distinct free in
              IsKept-le (omega arith) (IsKept-trans (IsKept-SameRows 0 s.here u.here equal) later)
        ]
  ]

  select_grant-IsKept :
      has_shares r.release_kind ≡ true
      → select_grant r ws e s ≡ ok (tt, s')
      → IsKept (length ws) s.here s'.here
  unfolding select_grant
  select_grant-IsKept shares h = elim (Result-cases (grant_total r [] (pos 0) ws e s)) [
    | inr (inl (x, k)) ↦ absurd (ground arith)
    | inr (inr k) ↦ absurd (ground arith)
    | inl (((roster, b), t), k) ↦
        let (_, same) = grant_total-nonneg r [] 0 ws e s shares k in
        let o = unwrap_or s.here.owed_total (pos 0) in
        elim (Result-cases (reserve r b o e s)) [
          | inr (inl (x, k1)) ↦ absurd (ground (arith, same))
          | inr (inr k1) ↦ absurd (ground (arith, same))
          | inl ((_, u), k1) ↦
              let equal = reserve-SameRows r b o e s k1 in
              let v : State = record u { here = record u.here { grant_roster = some roster } } in
              let run : append_awards ws e v ≡ ok (tt, s') = ground (arith, same) in
              let later = append_awards-IsKept ws e v run (ground (arith, room, equal)) in
              IsKept-le (omega arith) (IsKept-trans (IsKept-SameRows 0 s.here v.here equal) later)
        ]
  ]

  select_by-IsKept :
      (kind : ReleaseKind) (now : ℕ)
      → has_shares r.release_kind ≡ true
      → select_by kind r ws (rows s.here) now e s ≡ ok (tt, s')
      → IsKept (length ws) s.here s'.here
  select_by-IsKept single now shares h = select_single-IsKept now h
  select_by-IsKept (multi n) now shares h = select_grant-IsKept shares h
  select_by-IsKept (split l) now shares h = select_grant-IsKept shares h

pub select_winners-IsKept :
    (id : ℕ) (ws : List WinnerSpec) (op : OpId) (e : Env) (s : State) {s' : State}
    → IsCovered (s.events id)
    → rows (s.events id) + 40 ≤ u32_max
    → select_winners id ws op e s ≡ ok (tt, s')
    → IsKept 40 (s.events id) (s'.events id)
select_winners-IsKept id ws op e s {s'} c room h =
    let (r, e0) = select_winners-row id ws op e s h in
    let (count, now, t, _, _, run, _, after, _) = select_winners-runs id ws op e s h r e0 in
    let short = select_winners-length id ws op e s h r e0 in
    let distinct = select_winners-IsDistinct id ws op e s h r e0 in
    let kept =
      select_by-IsKept r ws e (load id s) (omega (arith, room, short)) distinct r.release_kind now
        (ground (arith, e0, c.kind)) (rw after.2 at run) in
    IsKept-le (omega (arith, short))
      (IsKept-trans kept (IsKept-SameRows 0 t.here (s'.events id) after.1))
