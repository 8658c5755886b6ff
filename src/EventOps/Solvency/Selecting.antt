-- ===== src/EventOps/Solvency/Selecting.antt =====
-- The selection of winners keeps what is owed within the escrow.
use boundless_contract.Chain.Steady.{IsMarked}
use boundless_contract.EventOps.Handlers.Replay.{manager_of}
use boundless_contract.Notices.{winner_awarded}
use boundless_contract.EventOps.Select.Awards.{IsDistinct, check_positions-IsDistinct}
use boundless_contract.EventOps.Rows.{SameRows}
use boundless_contract.Base.{
  ◌≤◌, length, ltb, refl, ℕ, ◌≡◌, List, [], ◌∷◌, some, arith, inl, inr, Option-cases, unwrap_or,
  true, false,
}
use boundless_contract.Base.Int.{pos}
use boundless_contract.Types.{
  ReleaseKind, single, multi, split, OpId, EventRecord, WinnerSpec, is_active, is_crowdfunding,
}
use boundless_contract.Host.{Result-cases, ok}
use boundless_contract.Chain.{EventData, State, Env, focus, load, current, legacy}
use boundless_contract.Admin.Guards.{open_time}
use boundless_contract.EventOps.Select.{
  award_cap, select_winners, select_by, publish_awards, check_bumps, check_positions,
}
use boundless_contract.EventOps.Solvency.{IsCovered}
use boundless_contract.EventOps.Solvency.Paying.{amounts}
use boundless_contract.EventOps.Solvency.Awarding.{select_by-Reserved, publish_awards-same}

check_bumps-same :
    (ws : List WinnerSpec) (e : Env) (s : State) {s' : State}
    → check_bumps ws e s ≡ ok (tt, s')
    → s' ≡ s
unfolding check_bumps
check_bumps-same [] e s h = ground arith
check_bumps-same (w ∷ ws) e s {s'} h =
    let run : check_bumps ws e s ≡ ok (tt, s') = ground arith in check_bumps-same ws e s run

check_positions-same :
    (seen : List ℕ) (ws : List WinnerSpec) (e : Env) (s : State) {s' : State}
    → check_positions seen ws e s ≡ ok (tt, s')
    → s' ≡ s
unfolding check_positions
check_positions-same seen [] e s h = ground arith
check_positions-same seen (w ∷ ws) e s {s'} h =
    let run : check_positions (w.position ∷ seen) ws e s ≡ ok (tt, s') = ground arith in
    check_positions-same (w.position ∷ seen) ws e s run

open_time-same :
    (e : Env) (s : State) {now : ℕ} {s' : State} → open_time e s ≡ ok (now, s') → s' ≡ s
unfolding open_time
open_time-same e s h = ground arith

publish_awards-here :
    (id : ℕ) (ws : List WinnerSpec) (e : Env) (s : State) {s' : State}
    → publish_awards id ws e s ≡ ok (tt, s')
    → s'.here ≡ s.here
unfolding publish_awards
publish_awards-here id [] e s h = ground arith
publish_awards-here id (w ∷ ws) e s {s'} h =
    let note = winner_awarded id w.recipient w.position w.amount in
    let t : State = record s { published = note ∷ s.published } in
    let run : publish_awards id ws e t ≡ ok (tt, s') = ground arith in
    publish_awards-here id ws e t run

same_rows : (d u v : EventData) → u ≡ d → v ≡ u → SameRows d v
same_rows d u v p q = ground (arith, p, q)

award_cap-le : (kind : ReleaseKind) (n : ℕ) → ltb (award_cap kind) n ≡ false → n ≤ 40
award_cap-le single n h = ground arith
award_cap-le (multi m) n h = ground arith
award_cap-le (split l) n h = ground arith

module _ (id : ℕ) (ws : List WinnerSpec) (op : OpId) (e : Env) (s : State) {s' : State}
    (h : select_winners id ws op e s ≡ ok (tt, s')) where
  pub select_winners-row : (r : EventRecord) × ((s.events id).event ≡ some (current r))
  unfolding select_winners focus
  select_winners-row = elim (Option-cases (s.events id).event) [
    | inl e0 ↦ absurd (ground arith)
    | inr (legacy _, e0) ↦ absurd (ground arith)
    | inr (current r, e0) ↦ (r, e0)
  ]

  pub select_winners-length :
      (r : EventRecord) → (s.events id).event ≡ some (current r) → length ws ≤ 40
  unfolding select_winners focus
  select_winners-length r e0 = award_cap-le r.release_kind (length ws) (ground arith)

  pub select_winners-IsDistinct :
      (r : EventRecord) → (s.events id).event ≡ some (current r) → IsDistinct ws
  unfolding select_winners focus
  select_winners-IsDistinct r e0 = elim (Result-cases (check_bumps ws e (load id s))) [
    | inr (inl (x, k)) ↦ absurd (ground arith)
    | inr (inr k) ↦ absurd (ground arith)
    | inl ((_, t1), k) ↦
        let same1 = check_bumps-same ws e (load id s) k in
        elim (Result-cases (check_positions [] ws e (load id s))) [
          | inr (inl (x, k1)) ↦ absurd (ground arith)
          | inr (inr k1) ↦ absurd (ground arith)
          | inl ((_, t2), k1) ↦ check_positions-IsDistinct ws e (load id s) k1
        ]
  ]

  -- The branch that ran, on an event that is open to awards, and what the rest of the handler leaves.
  pub select_winners-runs :
      (r : EventRecord)
      → (s.events id).event ≡ some (current r)
      → (count : ℕ) × (now : ℕ) × (t : State) × (is_active r.status ≡ true)
        × (is_crowdfunding r.pillar ≡ false)
        × (select_by r.release_kind r ws count now e (load id s) ≡ ok (tt, t))
        × ((s'.events id).event ≡ some (current r))
        × (((s'.events id).owed_total ≡ t.here.owed_total)
            × SameRows t.here (s'.events id)
            × (count ≡ unwrap_or (s.events id).winner_count 0))
        × IsMarked e (manager_of (s.events id)) (some op) t s'
  unfolding select_winners focus
  select_winners-runs r e0 = elim (Result-cases (check_bumps ws e (load id s))) [
    | inr (inl (x, k)) ↦ absurd (ground arith)
    | inr (inr k) ↦ absurd (ground arith)
    | inl ((_, t1), k) ↦
        let same1 = check_bumps-same ws e (load id s) k in
        elim (Result-cases (check_positions [] ws e (load id s))) [
          | inr (inl (x, k1)) ↦ absurd (ground arith)
          | inr (inr k1) ↦ absurd (ground arith)
          | inl ((_, t2), k1) ↦
              let same2 = check_positions-same [] ws e (load id s) k1 in
              elim (Result-cases (open_time e (load id s))) [
                | inr (inl (x, k2)) ↦ absurd (ground arith)
                | inr (inr k2) ↦ absurd (ground arith)
                | inl ((now, t3), k2) ↦
                    let same3 = open_time-same e (load id s) k2 in
                    let count = unwrap_or (s.events id).winner_count 0 in
                    elim (Result-cases (select_by r.release_kind r ws count now e (load id s))) [
                      | inr (inl (x, k3)) ↦ absurd (ground arith)
                      | inr (inr k3) ↦ absurd (ground arith)
                      | inl ((_, t), k3) ↦
                          let u : State = record t {
                            here = record t.here { event = some (current r) };
                          } in
                          elim (Result-cases (publish_awards id ws e u)) [
                            | inr (inl (x, k4)) ↦ absurd (ground arith)
                            | inr (inr k4) ↦ absurd (ground arith)
                            | inl ((_, v), k4) ↦
                                let kept = publish_awards-same id ws e u k4 in
                                let here = publish_awards-here id ws e u k4 in
                                (
                                  count,
                                  now,
                                  t,
                                  ground arith,
                                  ground arith,
                                  k3,
                                  ground (arith, kept),
                                  (ground (arith, kept), ground (arith, here), refl),
                                  ground (arith, kept),
                                )
                          ]
                    ]
              ]
        ]
  ]

  pub select_winners-IsCovered : IsCovered (s.events id) → IsCovered (s'.events id)
  select_winners-IsCovered c =
      let (r, e0) = select_winners-row in
      let (count, now, t, is_open, has_prizes, run, event_after, owed_after, _) =
        select_winners-runs r e0 in
      let (n, o, w) = amounts (s.events id) r e0 c in
      let (total, v) =
        select_by-Reserved r ws o e (load id s) w.owed r.release_kind count now
          (ground (arith, c.kind)) run in
      let owed : unwrap_or (s'.events id).owed_total (pos 0) ≡ total =
        ground (arith, owed_after.0, v.owed_after) in
      record {
        owed = ground (arith, owed, v.nonneg);
        within = ground (arith, event_after, owed, v.covered);
        escrow = ground (arith, event_after, w.escrow);
        fits = ground (arith, event_after, w.escrow, w.fits);
        kind = ground (arith, event_after, e0, c.kind);
      }

  pub select_winners-IsMarked :
      IsCovered (s.events id) → IsMarked e (manager_of (s.events id)) (some op) s s'
  select_winners-IsMarked c =
      let (r, e0) = select_winners-row in
      let (count, now, t, is_open, has_prizes, run, event_after, owed_after, rest) =
        select_winners-runs r e0 in
      let (n, o, w) = amounts (s.events id) r e0 c in
      let (total, v) =
        select_by-Reserved r ws o e (load id s) w.owed r.release_kind count now
          (ground (arith, c.kind)) run in
      record {
        config = ground (arith, rest.config, v.steady.config);
        tokens = ground (arith, rest.tokens, v.steady.tokens);
        op_seen = ground (arith, rest.op_seen, v.steady.op_seen);
      }
