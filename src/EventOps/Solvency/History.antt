-- ===== src/EventOps/Solvency/History.antt =====
-- contracts/events/src/lib.rs: a history of calls of the entry points. Through all of
-- it no event owes more than its escrow holds.
use boundless_contract.Base.{
  ⊤, ◌⊎◌, ℕ, ◌+◌, ◌≡◌, ◌≢◌, ◌==◌, refl, sym, ap, ◌∙◌, true, Bool-cases, List, [], ◌∷◌, All, arith,
  inl, inr,
}
use boundless_contract.Base.Int.{pos, ◌≤ℤ◌, ◌<ℤ◌, i128_max}
use boundless_contract.Types.{OpId, CreateEventParams, Error}
use boundless_contract.Host.{Result, ok, err, trap, Result-cases}
use boundless_contract.Chain.{State, Env, EventData}
use boundless_contract.EventOps.Create.{create_event}
use boundless_contract.Admin.Migrate.{migrate_events}
use boundless_contract.EntryPoints.{
  ContractCall, admin_call, migrate_events_call, create_call, event_call, perform, kept, history,
}
use boundless_contract.EventOps.Handlers.{EventCall, handle, handle-events}
use boundless_contract.EventOps.Solvency.{IsCovered, has_shares}
use boundless_contract.EventOps.Solvency.Creating.{first_id, Opened, create_event-Opened}
use boundless_contract.EventOps.Solvency.Calls.{handle-IsCovered, handle-IsMarked, handle_unborn}
use boundless_contract.EventOps.Solvency.Upkeep.{
  IsSolvent, administer-IsSolvent, migrate_events-IsSolvent,
}

same_id : (j id : ℕ) → (j ≡ id) ⊎ (j ≢ id)
same_id j id = elim (Bool-cases (j == id)) [
  | inl yes_ ↦ inl (ground arith)
  | inr no_ ↦ inr (ground arith)
]

-- The budget of a creation is an `i128`.
abbrev pub HasWordBudget : Env × ContractCall → Type 0
HasWordBudget (_, create_call params op) = params.total_budget ≤ℤ pos i128_max
HasWordBudget _ = ⊤

Opened-IsCovered :
    (p : CreateEventParams) (now id : ℕ) (s t : State)
    → IsSolvent s
    → p.total_budget ≤ℤ pos i128_max
    → pos 0 <ℤ p.total_budget
    → has_shares p.release_kind ≡ true
    → Opened p now id s t
    → IsCovered (t.events id)
Opened-IsCovered p now id s t solvent word positive kind o =
    let blank = solvent.unborn id (ground (arith, o.drawn)) in
    let c = solvent.covered id in
    record {
      owed = ground (arith, o.owed_after, c.owed);
      within = ground (arith, o.owed_after, o.event_after, blank, c.within);
      escrow = ground (arith, o.event_after);
      fits = ground (arith, o.event_after);
      kind = ground (arith, o.event_after);
    }

create_event-IsSolvent :
    (p : CreateEventParams) (op : OpId) (e : Env) (s : State) {id : ℕ} {t : State}
    → p.total_budget ≤ℤ pos i128_max
    → IsSolvent s
    → create_event p op e s ≡ ok (id, t)
    → IsSolvent t
create_event-IsSolvent p op e s {id} {t} word solvent h =
    let (positive, kind, o, _, _) = create_event-Opened p op e s h in
    let next : first_id t ≡ id + 1 = ground (arith, o.next) in
    record {
      covered = λ j. elim (same_id j id) [
        | inl same ↦
            rw (sym same) at (Opened-IsCovered p e.timestamp id s t solvent word positive kind o)
        | inr apart ↦ rw (sym (o.others j apart)) at (solvent.covered j)
      ];
      unborn = λ j above.
          ap (λ (d : EventData). d.event) (o.others j (ground (arith, next)))
          ∙ solvent.unborn j (ground (arith, next, o.drawn));
      range = λ h'. ground (arith, o.admin, o.seq, solvent.range (ground (arith, o.admin)));
    }

handle-IsSolvent :
    (id : ℕ) (c : EventCall) (e : Env) (s : State) {t : State}
    → IsSolvent s
    → handle id c e s ≡ ok (tt, t)
    → IsSolvent t
handle-IsSolvent id c e s {t} solvent h =
    let config = (handle-IsMarked id c e s (solvent.covered id) h).config in
    let next : first_id t ≡ first_id s = ground (arith, config) in
    record {
      covered = λ j. elim (same_id j id) [
        | inl same ↦ rw (sym same) at (handle-IsCovered id c e s (solvent.covered id) h)
        | inr apart ↦ rw (sym (handle-events id j c e s h apart)) at (solvent.covered j)
      ];
      unborn = λ j above. elim (same_id j id) [
        | inl same ↦
            let blank = solvent.unborn id (ground (arith, next, same, above)) in
            let failed = handle_unborn id c e s blank in absurd (ground (arith, failed, h))
        | inr apart ↦
            ap (λ (d : EventData). d.event) (handle-events id j c e s h apart)
            ∙ solvent.unborn j (ground (arith, next, above))
      ];
      range = λ h'. ground (arith, config, solvent.range (ground (arith, config)));
    }

pub perform-IsSolvent :
    (c : ContractCall) (e : Env) (s : State) {t : State}
    → HasWordBudget (e, c)
    → IsSolvent s
    → perform c e s ≡ ok (tt, t)
    → IsSolvent t
unfolding perform
perform-IsSolvent (event_call id c) e s word solvent h = handle-IsSolvent id c e s solvent h
perform-IsSolvent (create_call p op) e s {t} word solvent h =
    elim (Result-cases (create_event p op e s)) [
      | inr (inl (x, k)) ↦ absurd (ground arith)
      | inr (inr k) ↦ absurd (ground arith)
      | inl ((id, u), k) ↦
          let out : u ≡ t = ground arith in
          rw out at (create_event-IsSolvent p op e s word solvent k)
    ]
perform-IsSolvent (admin_call c) e s word solvent h = administer-IsSolvent c e s solvent h
perform-IsSolvent (migrate_events_call n) e s {t} word solvent h =
    elim (Result-cases (migrate_events n e s)) [
      | inr (inl (x, k)) ↦ absurd (ground arith)
      | inr (inr k) ↦ absurd (ground arith)
      | inl ((left, u), k) ↦
          let out : u ≡ t = ground arith in rw out at (migrate_events-IsSolvent n e s solvent k)
    ]

pub kept-IsSolvent :
    (s : State) (r : Result Error (⊤ × State))
    → IsSolvent s
    → ((t : State) → r ≡ ok (tt, t) → IsSolvent t)
    → IsSolvent (kept s r)
kept-IsSolvent s (ok (_, t)) c step = step t refl
kept-IsSolvent s (err x) c step = c
kept-IsSolvent s trap c step = c

-- From a state in which every event is covered and there is none from the next id on, every history of
-- calls of the entry points, each in any environment and the failed ones included, leads to such a
-- state: what is owed to winners never exceeds what the escrow of their event holds. The budget of each
-- creation is an `i128`.
pub history-IsSolvent :
    (calls : List (Env × ContractCall)) (s : State)
    → All HasWordBudget calls
    → IsSolvent s
    → IsSolvent (history calls s)
unfolding history
history-IsSolvent [] s words solvent = solvent
history-IsSolvent ((e, c) ∷ rest) s words solvent =
    history-IsSolvent rest (kept s (perform c e s)) words.1
      (kept-IsSolvent s (perform c e s) solvent (λ t h. perform-IsSolvent c e s words.0 solvent h))
