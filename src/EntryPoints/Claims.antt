-- ===== src/EntryPoints/Claims.antt =====
-- contracts/events/src/event_ops.rs, `claim_prize` over all entry points: a prize is paid once.
use boundless_contract.Base.{
  none, ⊤, ℕ, ◌+◌, ◌*◌, ◌≤◌, ◌≡◌, ◌≢◌, refl, sym, List, [], ◌∷◌, All, length, some, arith, inl, inr,
  Bool-cases, ◌==◌,
}
use boundless_contract.Base.Word.{u32_max}
use boundless_contract.Types.{OpId, Error}
use boundless_contract.Host.{Result, ok, err, trap, Result-cases}
use boundless_contract.Chain.{State, Env}
use boundless_contract.Admin.Migrate.{migrate_events}
use boundless_contract.EventOps.Create.{create_event}
use boundless_contract.EventOps.Claim.{claim_prize}
use boundless_contract.EventOps.Claim.Settled.{claim_prize-Claimed}
use boundless_contract.EventOps.Handlers.{handle, handle-events, claim_prize_call}
use boundless_contract.EventOps.Rows.{
  rows, IsKept, IsAnchored, IsPaid, IsKept-SameRows, IsAnchored-IsKept, IsPaid-IsKept,
}
use boundless_contract.EventOps.Rows.Simple.{claim_prize-IsKept}
use boundless_contract.EventOps.Rows.Handling.{handle-IsKept}
use boundless_contract.EventOps.Solvency.Creating.{create_event-Opened}
use boundless_contract.EventOps.Solvency.Upkeep.{IsSolvent, migrate_events-SameRows}
use boundless_contract.EventOps.Solvency.History.{HasWordBudget, perform-IsSolvent, kept-IsSolvent}
use boundless_contract.EntryPoints.{
  ContractCall, admin_call, migrate_events_call, create_call, event_call, perform, kept, history,
}
use boundless_contract.EntryPoints.Quiet.{administer-IsQuiet}

perform-IsKept :
    (c : ContractCall) (e : Env) (s : State) (j : ℕ) {t : State}
    → IsSolvent s
    → rows (s.events j) + 40 ≤ u32_max
    → perform c e s ≡ ok (tt, t)
    → IsKept 40 (s.events j) (t.events j)
unfolding perform
perform-IsKept (admin_call c) e s j {t} solvent room h =
    IsKept-SameRows 40 (s.events j) (t.events j)
      (ground (arith, (administer-IsQuiet c e s h).events))
perform-IsKept (migrate_events_call n) e s j {t} solvent room h =
    elim (Result-cases (migrate_events n e s)) [
      | inr (inl (x, k)) ↦ absurd (ground arith)
      | inr (inr k) ↦ absurd (ground arith)
      | inl ((left, u), k) ↦
          let out : u ≡ t = ground arith in
          let same = migrate_events-SameRows n e s j k in
          rw out at (IsKept-SameRows 40 (s.events j) (u.events j) same)
    ]
perform-IsKept (event_call id c) e s j {t} solvent room h = elim (Bool-cases (j == id)) [
  | inl own ↦
      let at : id ≡ j = ground arith in
      rw at at (handle-IsKept id c e s (solvent.covered id) (rw (sym at) at room) h)
  | inr other ↦
      let same = handle-events id j c e s h (ground arith) in
      IsKept-SameRows 40 (s.events j) (t.events j) (ground (arith, same))
]
perform-IsKept (create_call p op) e s j {t} solvent room h =
    elim (Result-cases (create_event p op e s)) [
      | inr (inl (x, k)) ↦ absurd (ground arith)
      | inr (inr k) ↦ absurd (ground arith)
      | inl ((id, u), k) ↦
          let (_, _, o, _, _) = create_event-Opened p op e s k in
          let out : u ≡ t = ground arith in
          let below : rows (s.events j) ≤ u32_max = omega (arith, room) in
          let after : IsKept 40 (s.events j) (u.events j) = elim (Bool-cases (j == id)) [
            | inl own ↦
                let at : id ≡ j = ground arith in
                let fits : rows (s.events id) ≤ u32_max = rw (sym at) at below in
                rw at at (o.kept fits)
            | inr other ↦
                let apart = o.others j (ground arith) in
                IsKept-SameRows 40 (s.events j) (u.events j) (ground (arith, apart))
          ] in
          rw out at after
    ]

kept-IsKept :
    (s : State) (j : ℕ) (r : Result Error (⊤ × State))
    → ((t : State) → r ≡ ok (tt, t) → IsKept 40 (s.events j) (t.events j))
    → IsKept 40 (s.events j) ((kept s r).events j)
kept-IsKept s j (ok (_, t)) step = step t refl
kept-IsKept s j (err x) step = IsKept-SameRows 40 _ _ (refl, refl, refl)
kept-IsKept s j trap step = IsKept-SameRows 40 _ _ (refl, refl, refl)

history-IsPaid :
    (calls : List (Env × ContractCall)) (s : State) (id p : ℕ)
    → All HasWordBudget calls
    → IsSolvent s
    → rows (s.events id) + 40 * length calls ≤ u32_max
    → IsAnchored (s.events id)
    → IsPaid p (s.events id)
    → IsPaid p ((history calls s).events id)
unfolding history
history-IsPaid [] s id p words solvent room anchored paid = paid
history-IsPaid ((e, c) ∷ rest) s id p words solvent room anchored paid =
    let k =
      kept-IsKept s id (perform c e s)
        (λ t h. perform-IsKept c e s id solvent (omega (arith, room)) h) in
    history-IsPaid rest (kept s (perform c e s)) id p words.1
      (kept-IsSolvent s (perform c e s) solvent (λ t h. perform-IsSolvent c e s words.0 solvent h))
      (omega (arith, room, k.bound)) (IsAnchored-IsKept k anchored) (IsPaid-IsKept k anchored paid)

claim_prize-IsPaid :
    (id p : ℕ) (op : OpId) (e : Env) (s : State) {t : State}
    → claim_prize id p op e s ≡ ok (tt, t)
    → IsPaid p (t.events id)
claim_prize-IsPaid id p op e s h =
    let (r, a, w, left, c) = claim_prize-Claimed id p op e s h in
    record {
      award = a;
      row = record w { milestone = none; paid_at = some e.timestamp };
      there = c.award_after;
      at = c.row_after;
      paid = refl;
    }

claim_as_call :
    (id p : ℕ) (op : OpId) (e : Env) (s : State) {t : State}
    → claim_prize id p op e s ≡ ok (tt, t)
    → perform (event_call id (claim_prize_call p op)) e s ≡ ok (tt, t)
unfolding perform handle
claim_as_call id p op e s h = h

-- A prize is paid at most once: after a claim that succeeds, and any history of calls of the entry points,
-- no claim of the same position of the event succeeds, whatever the operation id, the signatures and
-- the ledger then. The premises are the invariant of the events, that each budget is an `i128`, that the
-- awards of the event lead to its rows, and that its list has room for 40 rows with each call.
pub claim_prize_once :
    (id p : ℕ) (op op2 : OpId) (e e2 : Env) (s : State) (calls : List (Env × ContractCall))
    {t u : State}
    → IsSolvent s
    → All HasWordBudget calls
    → IsAnchored (s.events id)
    → rows (s.events id) + 40 * (1 + length calls) ≤ u32_max
    → claim_prize id p op e s ≡ ok (tt, t)
    → claim_prize id p op2 e2 (history calls t) ≢ ok (tt, u)
claim_prize_once id p op op2 e e2 s calls {t} {u} solvent words anchored room h h2 =
    let k = claim_prize-IsKept id e s 40 p op h in
    let solvent' =
      perform-IsSolvent (event_call id (claim_prize_call p op)) e s tt solvent
        (claim_as_call id p op e s h) in
    let paid =
      history-IsPaid calls t id p words solvent' (omega (arith, room, k.bound))
        (IsAnchored-IsKept k anchored) (claim_prize-IsPaid id p op e s h) in
    let (r2, a2, w2, left2, c2) = claim_prize-Claimed id p op2 e2 (history calls t) h2 in
    ground (arith, paid.there, paid.at, paid.paid, c2.award, c2.row, c2.unpaid)
