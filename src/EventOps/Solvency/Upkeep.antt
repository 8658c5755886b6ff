-- ===== src/EventOps/Solvency/Upkeep.antt =====
-- The invariant over all events, and the calls of the administrator: its settings touch no event, and
-- the migration converts rows without touching the amounts.
use boundless_contract.EventOps.Rows.{SameRows}
use boundless_contract.Base.{
  some, unwrap_or, ◌||◌, ◌*◌, ◌^◌, max, if◌then◌else◌, zero, suc, Option-cases, ltb, ℕ, ◌≤◌, ◌≡◌,
  ◌==◌, sym, ap, ◌∙◌, Bool-cases, none, arith, inl, inr,
}
use boundless_contract.Host.{ok, Result-cases}
use boundless_contract.Base.Word.{saturating_add64}
use boundless_contract.Base.Maps.{update}
use boundless_contract.Chain.{focus, current, legacy, State, Env, EventData}
use boundless_contract.EntryPoints.Quiet.{administer-IsQuiet}
use boundless_contract.Admin.Migrate.{
  migrate_from, migrate_events, convert, convert_row, max_per_call,
}
use boundless_contract.EntryPoints.{AdminCall, administer}
use boundless_contract.EventOps.Solvency.{IsCovered}
use boundless_contract.EventOps.Solvency.Creating.{first_id}

-- Every event is covered, and from the next id on there is none. Only the constructor, which runs once,
-- sets the range of the ids.
pub record IsSolvent (s : State) : Type 0 where
  pub covered : (id : ℕ) → IsCovered (s.events id)
  pub unborn : (id : ℕ) → first_id s ≤ id → (s.events id).event ≡ none
  pub range : s.config.admin ≡ none → s.config.deployment_seq ≡ none

pub administer-IsSolvent :
    (c : AdminCall) (e : Env) (s : State) {t : State}
    → IsSolvent s
    → administer c e s ≡ ok (tt, t)
    → IsSolvent t
administer-IsSolvent c e s {t} solvent h =
    let q = administer-IsQuiet c e s h in
    let grows : first_id s ≤ first_id t = elim q.range [
      | inl same ↦ ground (arith, same, q.next)
      | inr fresh ↦ ground (arith, q.next, solvent.range fresh)
    ] in
    record {
      covered = λ j. rw (sym q.events) at (solvent.covered j);
      unborn = λ j above.
          ap (λ (f : ℕ → EventData). (f j).event) q.events
          ∙ solvent.unborn j (omega (arith, grows, above));
      range = λ h'. let (before, same) = q.admin h' in same ∙ solvent.range before;
    }

convert-IsCovered :
    (d : EventData) → IsCovered d → IsCovered (record d { event = convert_row d.event })
unfolding convert
convert-IsCovered d c = elim (Option-cases d.event) [
  | inl e0 ↦ ground arith
  | inr (current r, e0) ↦ ground arith
  | inr (legacy r, e0) ↦ ground arith
]

-- The state after the row at `id` is converted.
abbrev convert_at : ℕ → State → State
convert_at id s =
    let d = s.events id in
    record s { events = update s.events id (record d { event = convert_row d.event }) }

convert_at-IsSolvent : (id : ℕ) (s : State) → IsSolvent s → IsSolvent (convert_at id s)
convert_at-IsSolvent id s solvent = record {
  covered = λ j. elim (Bool-cases (j == id)) [
    | inl at ↦
        let d = s.events id in
        let same : record d { event = convert_row d.event } ≡ (convert_at id s).events j =
          ground arith in
        rw same at (convert-IsCovered d (solvent.covered id))
    | inr apart ↦
        let same : s.events j ≡ (convert_at id s).events j = ground arith in
        rw same at (solvent.covered j)
  ];
  unborn = λ j above. ground (arith, solvent.unborn j above);
  range = solvent.range;
}

migrate_from-IsSolvent :
    (left next cursor : ℕ) (e : Env) (s : State) {k : ℕ} {t : State}
    → IsSolvent s
    → migrate_from left next cursor e s ≡ ok (k, t)
    → IsSolvent t
unfolding migrate_from focus
migrate_from-IsSolvent zero next cursor e s {k} {t} solvent h =
    let out : t ≡ s = ground arith in rw (sym out) at solvent
migrate_from-IsSolvent (suc left) next cursor e s {k} {t} solvent h =
    elim (Bool-cases (ltb cursor next)) [
      | inr done ↦ let out : t ≡ s = ground arith in rw (sym out) at solvent
      | inl more ↦
          let run : migrate_from left next (saturating_add64 cursor 1) e (convert_at cursor s)
              ≡ ok (k, t) =
            ground arith in
          migrate_from-IsSolvent left next (saturating_add64 cursor 1) e (convert_at cursor s)
            (convert_at-IsSolvent cursor s solvent) run
    ]

-- The loop that a page runs, and the cursor that it stores.
migrate_events-runs :
    (n : ℕ) (e : Env) (s : State) {k : ℕ} {t : State}
    → migrate_events n e s ≡ ok (k, t)
    → (budget : ℕ) × (next : ℕ) × (start : ℕ) × (cursor : ℕ) × (u : State) × (migrate_from budget
          next start e s
        ≡ ok (cursor, u))
      × (record u { config = record u.config { migration_cursor = some cursor } } ≡ t)
unfolding migrate_events
migrate_events-runs n e s {k} {t} h =
    let budget = if n == 0 || ltb max_per_call n then max_per_call else n in
    let first = saturating_add64 (unwrap_or s.config.deployment_seq 0 * 2 ^ 32) 1 in
    let next = unwrap_or s.config.next_event_id first in
    let start = max (unwrap_or s.config.migration_cursor first) first in
    elim (Result-cases (migrate_from budget next start e s)) [
      | inr (inl (x, r)) ↦ absurd (ground arith)
      | inr (inr r) ↦ absurd (ground arith)
      | inl ((cursor, u), r) ↦ (budget, next, start, cursor, u, r, ground arith)
    ]

migrate_from-same :
    (left next cursor : ℕ) (e : Env) (s : State) {k : ℕ} {t : State}
    → migrate_from left next cursor e s ≡ ok (k, t)
    → (t.tokens ≡ s.tokens) × (t.op_seen ≡ s.op_seen)
unfolding migrate_from focus
migrate_from-same zero next cursor e s h = ground arith
migrate_from-same (suc left) next cursor e s {k} {t} h = elim (Bool-cases (ltb cursor next)) [
  | inr done ↦ ground arith
  | inl more ↦
      let after = saturating_add64 cursor 1 in
      let u = convert_at cursor s in
      let run : migrate_from left next after e u ≡ ok (k, t) = ground arith in
      migrate_from-same left next after e u run
]

pub migrate_events-same :
    (n : ℕ) (e : Env) (s : State) {k : ℕ} {t : State}
    → migrate_events n e s ≡ ok (k, t)
    → (t.tokens ≡ s.tokens) × (t.op_seen ≡ s.op_seen)
migrate_events-same n e s h =
    let (budget, next, start, cursor, u, run, out) = migrate_events-runs n e s h in
    ground (arith, out, migrate_from-same budget next start e s run)

migrate_from-SameRows :
    (left next cursor : ℕ) (e : Env) (s : State) (j : ℕ) {k : ℕ} {t : State}
    → migrate_from left next cursor e s ≡ ok (k, t)
    → SameRows (s.events j) (t.events j)
unfolding migrate_from focus
migrate_from-SameRows zero next cursor e s j h = ground arith
migrate_from-SameRows (suc left) next cursor e s j {k} {t} h = elim (Bool-cases (ltb cursor next)) [
  | inr done ↦ ground arith
  | inl more ↦
      let after = saturating_add64 cursor 1 in
      let u = convert_at cursor s in
      let run : migrate_from left next after e u ≡ ok (k, t) = ground arith in
      let rest = migrate_from-SameRows left next after e u j run in
      let first : SameRows (s.events j) (u.events j) = ground arith in
      (rest.0 ∙ first.0, rest.1 ∙ first.1, rest.2 ∙ first.2)
]

pub migrate_events-SameRows :
    (n : ℕ) (e : Env) (s : State) (j : ℕ) {k : ℕ} {t : State}
    → migrate_events n e s ≡ ok (k, t)
    → SameRows (s.events j) (t.events j)
migrate_events-SameRows n e s j h =
    let (budget, next, start, cursor, u, run, out) = migrate_events-runs n e s h in
    ground (arith, out, migrate_from-SameRows budget next start e s j run)

migrate_from-config :
    (left next cursor : ℕ) (e : Env) (s : State) {k : ℕ} {t : State}
    → migrate_from left next cursor e s ≡ ok (k, t)
    → t.config ≡ s.config
unfolding migrate_from focus
migrate_from-config zero next cursor e s h = ground arith
migrate_from-config (suc left) next cursor e s {k} {t} h = elim (Bool-cases (ltb cursor next)) [
  | inr done ↦ ground arith
  | inl more ↦
      let after = saturating_add64 cursor 1 in
      let u = convert_at cursor s in
      let run : migrate_from left next after e u ≡ ok (k, t) = ground arith in
      migrate_from-config left next after e u run
]

pub migrate_events-config :
    (n : ℕ) (e : Env) (s : State) {k : ℕ} {t : State}
    → migrate_events n e s ≡ ok (k, t)
    → t.config ≡ record s.config { migration_cursor = t.config.migration_cursor }
migrate_events-config n e s h =
    let (budget, next, start, cursor, u, run, out) = migrate_events-runs n e s h in
    ground (arith, out, migrate_from-config budget next start e s run)

pub migrate_events-IsSolvent :
    (n : ℕ) (e : Env) (s : State) {k : ℕ} {t : State}
    → IsSolvent s
    → migrate_events n e s ≡ ok (k, t)
    → IsSolvent t
migrate_events-IsSolvent n e s {k} {t} solvent h =
    let (budget, next, start, cursor, u, run, stamped) = migrate_events-runs n e s h in
    let after = migrate_from-IsSolvent budget next start e s solvent run in
    let kept : IsSolvent
        (record u { config = record u.config { migration_cursor = some cursor } }) =
      record { covered = after.covered; unborn = after.unborn; range = after.range } in
    rw stamped at kept
