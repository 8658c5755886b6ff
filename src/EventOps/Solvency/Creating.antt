-- ===== src/EventOps/Solvency/Creating.antt =====
-- A new event is covered: it owes nothing, and holds what was deposited for it.
use boundless_contract.Chain.Steady.{IsSteady, marked}
use boundless_contract.EventOps.Rows.{IsKept, rows}
use boundless_contract.Base.{
  ◌≤◌, ℕ, ◌+◌, ◌*◌, ◌^◌, ◌≡◌, ◌≢◌, ◌∙◌, refl, List, [], ◌∷◌, some, arith, inl, inr, Option-cases,
  unwrap_or, true,
}
use boundless_contract.Base.Int.{ℤ, checked_add, pos, ◌<ℤ◌}
use boundless_contract.Base.Word.{u32_max}
use boundless_contract.Base.Maps.{Map}
use boundless_contract.Types.{
  OpId, EventRecord, CreateEventParams, ReleaseKind, single, multi, split,
}
use boundless_contract.Host.{Result-cases, ok}
use boundless_contract.Chain.{State, Env, focus, load, store, current}
use boundless_contract.Escrow.{deposit_with_fee_at}
use boundless_contract.Idempotency.{next_event_id}
use boundless_contract.Idempotency.Ids.{next_event_id_lem}
use boundless_contract.EventOps.Manager.{write_proposal}
use boundless_contract.EventOps.Create.{
  take_budget, open_event, create_event, check_params, enter, new_record, sum_floors,
  split_is_valid, milestones_are_valid,
}
use boundless_contract.EventOps.Solvency.{has_shares}

split_has_shares :
    (shares : List ℕ) → split_is_valid shares ≡ true → has_shares (split shares) ≡ true
unfolding split_is_valid
split_has_shares [] h = absurd (ground arith)
split_has_shares (x ∷ xs) h = ground arith

valid_kind : (kind : ReleaseKind) → milestones_are_valid kind ≡ true → has_shares kind ≡ true
valid_kind single h = refl
valid_kind (multi n) h = refl
valid_kind (split shares) h = split_has_shares shares h

sum_floors-same :
    (sum : ℤ) (floors : Map ℤ) (e : Env) (s : State) {total : ℤ} {t : State}
    → sum_floors sum floors e s ≡ ok (total, t)
    → t ≡ s
unfolding sum_floors
sum_floors-same sum [] e s h = ground arith
sum_floors-same sum ((k, floor) ∷ rest) e s {total} {t} h =
    elim (Option-cases (checked_add sum floor)) [
      | inl over ↦ absurd (ground arith)
      | inr (next, eq) ↦
          let run : sum_floors next rest e s ≡ ok (total, t) = ground arith in
          sum_floors-same next rest e s run
    ]

-- Parameters that pass: the budget is positive, and a split has shares.
record Checked (p : CreateEventParams) (s t : State) : Type 0 where
  pub unchanged : t ≡ s
  pub positive : pos 0 <ℤ p.total_budget
  pub kind : has_shares p.release_kind ≡ true

check_params-Checked :
    (p : CreateEventParams) (e : Env) (s : State) {bps : ℕ} {t : State}
    → check_params p e s ≡ ok (bps, t)
    → Checked p s t
unfolding check_params
check_params-Checked p e s h = elim (Result-cases (sum_floors (pos 0) p.prize_floors e s)) [
  | inr (inl (x, k)) ↦ absurd (ground arith)
  | inr (inr k) ↦ absurd (ground arith)
  | inl ((sum, u), k) ↦
      let same = sum_floors-same (pos 0) p.prize_floors e s k in
      record {
        unchanged = ground arith;
        positive = ground arith;
        kind = valid_kind p.release_kind (ground arith);
      }
]

enter-entered :
    (id : ℕ) (p : CreateEventParams) (r : EventRecord) (e : Env) (s : State) {t : State}
    → enter id p r e s ≡ ok (tt, t)
    → (t.here.event ≡ some (current r)) × (t.here.owed_total ≡ s.here.owed_total) × IsSteady s t
unfolding enter write_proposal
enter-entered id p r e s h = ground arith

enter-IsKept :
    (id : ℕ) (p : CreateEventParams) (r : EventRecord) (e : Env) (s : State) {t : State}
    → enter id p r e s ≡ ok (tt, t)
    → rows s.here ≤ u32_max
    → IsKept 40 s.here t.here
unfolding enter write_proposal
enter-IsKept id p r e s h room = record {
  grows = ground arith;
  bound = ground arith;
  row = λ i below. inl (ground arith);
  award = λ q a there. ground arith;
  fresh = λ q a there. inl (ground arith);
}

-- The id that the next creation draws.
abbrev pub first_id : State → ℕ
first_id s = unwrap_or s.config.next_event_id (unwrap_or s.config.deployment_seq 0 * 2 ^ 32 + 1)

take_budget-quiet :
    (p : CreateEventParams) (bps : ℕ) (e : Env) (s : State) {t : State}
    → take_budget p bps e s ≡ ok (tt, t)
    → (t.events ≡ s.events) × IsSteady s t
unfolding take_budget deposit_with_fee_at
take_budget-quiet p bps e s h = ground arith

-- What a creation writes: the entries of the new event, and the next id.
pub record Opened (p : CreateEventParams) (now id : ℕ) (s t : State) : Type 0 where
  pub drawn : id ≡ first_id s
  pub next : t.config.next_event_id ≡ some (id + 1)
  pub config : t.config ≡ record s.config { next_event_id = t.config.next_event_id }
  pub admin : t.config.admin ≡ s.config.admin
  pub seq : t.config.deployment_seq ≡ s.config.deployment_seq
  pub event_after : (t.events id).event ≡ some (current (new_record p now id))
  pub owed_after : (t.events id).owed_total ≡ (s.events id).owed_total
  pub kept : rows (s.events id) ≤ u32_max → IsKept 40 (s.events id) (t.events id)
  pub others : (j : ℕ) → j ≢ id → t.events j ≡ s.events j

open_event-Opened :
    (p : CreateEventParams) (now : ℕ) (e : Env) (s : State) {id : ℕ} {t : State}
    → open_event p now e s ≡ ok (id, t)
    → Opened p now id s t × (t.tokens ≡ s.tokens) × (t.op_seen ≡ s.op_seen)
unfolding open_event focus
open_event-Opened p now e s {id} {t} h = elim (Result-cases (next_event_id e s)) [
  | inr (inl (x, k)) ↦ absurd (ground arith)
  | inr (inr k) ↦ absurd (ground arith)
  | inl ((id', s1), k) ↦
      let (drawn, small, same) = next_event_id_lem e s id' k in
      let row = new_record p now id' in
      elim (Result-cases (enter id' p row e (load id' s1))) [
        | inr (inl (x, k1)) ↦ absurd (ground arith)
        | inr (inr k1) ↦ absurd (ground arith)
        | inl ((_, u), k1) ↦
            let kept = enter-entered id' p row e (load id' s1) k1 in
            let out : (id ≡ id') × (t ≡ store id' s1 u) = ground arith in
            let opened : Opened p now id s t = record {
              drawn = ground (arith, out, drawn);
              next = ground (arith, out, kept, same);
              config = ground (arith, out, kept, same);
              admin = ground (arith, out, kept, same);
              seq = ground (arith, out, kept, same);
              event_after = ground (arith, out, kept);
              owed_after = ground (arith, out, kept, same);
              kept = λ room.
                  let at : u.here ≡ t.events id = ground (arith, out) in
                  let from : s1.events id' ≡ s.events id = ground (arith, out, same) in
                  rw at at (
                    rw from at
                      (enter-IsKept id' p row e (load id' s1) k1 (ground (arith, room, from))));
              others = λ j apart. ground (arith, out, same);
            } in
            (opened, ground (arith, out, kept, same), ground (arith, out, kept, same))
      ]
]

Opened-after :
    (p : CreateEventParams) (now : ℕ) (s s1 u t : State) {id' id : ℕ}
    → id' ≡ id
    → s1.events ≡ s.events
    → s1.config ≡ s.config
    → t.events ≡ u.events
    → t.config ≡ u.config
    → Opened p now id' s1 u
    → Opened p now id s t
Opened-after p now s s1 u t {id'} {id} same before before_config after after_config o = record {
  drawn = ground (arith, o.drawn);
  next = ground (arith, o.next);
  config = ground (arith, o.config);
  admin = ground (arith, o.admin);
  seq = ground (arith, o.seq);
  event_after = ground (arith, o.event_after);
  owed_after = ground (arith, o.owed_after);
  kept = λ room.
      let from : s1.events id' ≡ s.events id = ground arith in
      let to : u.events id' ≡ t.events id = ground arith in
      rw to at (rw from at (o.kept (ground (arith, room, from))));
  others = λ j apart. ground (arith, o.others j (λ q. apart (q ∙ same)));
}

pub create_event-Opened :
    (p : CreateEventParams) (op : OpId) (e : Env) (s : State) {id : ℕ} {t : State}
    → create_event p op e s ≡ ok (id, t)
    → (pos 0 <ℤ p.total_budget)
      × (has_shares p.release_kind ≡ true)
      × Opened p e.timestamp id s t
      × (t.tokens ≡ s.tokens)
      × (t.op_seen ≡ marked e (some p.owner) (some op) s.op_seen)
unfolding create_event
create_event-Opened p op e s {id} {t} h = elim (Result-cases (check_params p e s)) [
  | inr (inl (x, k)) ↦ absurd (ground arith)
  | inr (inr k) ↦ absurd (ground arith)
  | inl ((bps, s1), k) ↦
      let checked = check_params-Checked p e s k in
      let k' : check_params p e s ≡ ok (bps, s) = rw checked.unchanged at k in
      elim (Result-cases (take_budget p bps e s)) [
        | inr (inl (x, k1)) ↦ absurd (ground arith)
        | inr (inr k1) ↦ absurd (ground arith)
        | inl ((_, s2), k1) ↦ elim (Result-cases (open_event p e.timestamp e s2)) [
          | inr (inl (x, k2)) ↦ absurd (ground arith)
          | inr (inr k2) ↦ absurd (ground arith)
          | inl ((id', u), k2) ↦
              let out : (id' ≡ id)
                  × (t.events ≡ u.events)
                  × (t.config ≡ u.config)
                  × (t.tokens ≡ u.tokens)
                  × (t.op_seen ≡ marked e (some p.owner) (some op) u.op_seen) =
                ground arith in
              let quiet = take_budget-quiet p bps e s k1 in
              let (o, tokens, seen) = open_event-Opened p e.timestamp e s2 k2 in
              (
                checked.positive,
                checked.kind,
                Opened-after p e.timestamp s s2 u t out.0 quiet.0 quiet.1.config out.1 out.2 o,
                ground (arith, out.3, tokens, quiet.1.tokens),
                ground (arith, out.4, seen, quiet.1.op_seen),
              )
        ]
      ]
]
