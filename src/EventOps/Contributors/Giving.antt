-- ===== src/EventOps/Contributors/Giving.antt =====
-- contracts/events/src/event_ops.rs: `add_funds` and the contributors of its event.
use boundless_contract.Base.{
  ℕ, ◌⊎◌, ◌+◌, ◌≤◌, ◌≡◌, Option, some, true, false, ◌==◌, arith, Bool-cases, inl, inr,
  if◌then◌else◌,
}
use boundless_contract.Base.Int.{ℤ, pos, eqb_ℤ, i128_max}
use boundless_contract.Types.{Address, OpId, EventRecord}
use boundless_contract.Host.{ok, Result-cases}
use boundless_contract.Chain.{State, Env, EventData, EventRow, current, load, focus}
use boundless_contract.Storage.People.{append_contributor}
use boundless_contract.EventOps.Funds.{
  add_funds, take_contribution, deposit, get_or_init_non_owner_total, credit,
}
use boundless_contract.EventOps.Solvency.Funding.{add_funds-row, add_funds-positive}
use boundless_contract.EventOps.Contributors.{units, slot_of, given_by, total_of, IsFunded}
use boundless_contract.EventOps.Contributors.Adding.{
  contributed, joined, natural, contributed-IsFunded, joined-IsFunded,
}

deposit-here :
    (r : EventRecord) (from : Address) (a : ℤ) (e : Env) (s : State) {c : ℤ} {t : State}
    → deposit r from a e s ≡ ok (c, t)
    → (c ≡ a) × (t.here ≡ s.here)
unfolding deposit
deposit-here r from a e s h = ground arith

get_or_init_non_owner_total-here :
    (e : Env) (s : State) {c : ℤ} {t : State}
    → get_or_init_non_owner_total e s ≡ ok (c, t)
    → (c ≡ total_of s.here)
      × (t.here ≡ record s.here { non_owner_contribution_total = some (total_of s.here) })
unfolding get_or_init_non_owner_total
get_or_init_non_owner_total-here e s h = ground arith

append_contributor-here :
    (from : Address) (e : Env) (s : State) {k : ℕ} {t : State}
    → append_contributor from e s ≡ ok (k, t)
    → t.here ≡ (if slot_of s.here from == 0 then joined from s.here else s.here)
unfolding append_contributor
append_contributor-here from e s h = ground arith

-- The entries of an event after a contribution of `a` from someone other than the owner.
abbrev given_to : Address → ℤ → EventData → EventData
given_to from a d =
    if slot_of d from == 0 then contributed from a (joined from d) else contributed from a d

module _ (r : EventRecord) (from : Address) (a : ℤ) (e : Env) (s : State) {c : ℤ} {t : State}
    (h : take_contribution r from a e s ≡ ok (c, t)) where
  owner_gives : (from == r.owner) ≡ true → (c ≡ a) × (t.here ≡ s.here)
  unfolding take_contribution
  owner_gives owner = elim (Result-cases (deposit r from a e s)) [
    | inr (inl (x, k)) ↦ absurd (ground arith)
    | inr (inr k) ↦ absurd (ground arith)
    | inl ((c', v), k) ↦ let paid = deposit-here r from a e s k in ground (arith, paid)
  ]

  other_gives :
      (from == r.owner) ≡ false → IsFunded s.here → (c ≡ a) × (t.here ≡ given_to from a s.here)
  unfolding take_contribution
  other_gives other f = elim (Result-cases (get_or_init_non_owner_total e s)) [
    | inr (inl (x, k)) ↦ absurd (ground arith)
    | inr (inr k) ↦ absurd (ground arith)
    | inl ((before, u), k) ↦
        let (total, here) = get_or_init_non_owner_total-here e s k in
        elim (Bool-cases (eqb_ℤ (given_by s.here from) (pos 0))) [
          | inr known ↦ elim (Result-cases (deposit r from a e u)) [
            | inr (inl (x, k1)) ↦ absurd (ground arith)
            | inr (inr k1) ↦ absurd (ground arith)
            | inl ((c', v), k1) ↦
                let paid = deposit-here r from a e u k1 in
                let stands = f.strangers from in ground (arith, paid, stands, total, here)
          ]
          | inl new ↦ elim (Result-cases (append_contributor from e u)) [
            | inr (inl (x, k1)) ↦ absurd (ground arith)
            | inr (inr k1) ↦ absurd (ground arith)
            | inl ((slot, u'), k1) ↦
                let appended = append_contributor-here from e u k1 in
                elim (Result-cases (deposit r from a e u')) [
                  | inr (inl (x, k2)) ↦ absurd (ground arith)
                  | inr (inr k2) ↦ absurd (ground arith)
                  | inl ((c', v), k2) ↦
                      let paid = deposit-here r from a e u' k2 in
                      ground (arith, paid, appended, total, here)
                ]
          ]
        ]
  ]

given_to-IsFunded :
    (from : Address) (a : ℕ) (d : EventData)
    → IsFunded d
    → units (total_of d) + a ≤ i128_max
    → IsFunded (given_to from (pos a) d)
given_to-IsFunded from a d f room = elim (Bool-cases (slot_of d from == 0)) [
  | inl new ↦ rw new (joined-IsFunded from a d f room (ground arith))
  | inr known ↦ rw known (contributed-IsFunded from a d f room (ground arith))
]

-- The record of an event is not among the entries of its contributors.
row-IsFunded :
    (d : EventData) (row : Option EventRow) → IsFunded d → IsFunded (record d { event = row })
row-IsFunded d row f = record {
  register = record { entries = f.register.entries; slots = f.register.slots };
  given = f.given;
  strangers = f.strangers;
  total = f.total;
  covers = f.covers;
}

-- What a contribution leaves in its event, whoever pays it.
module _ (id : ℕ) (from : Address) (a : ℤ) (op : OpId) (e : Env) (s : State) {s' : State}
    (h : add_funds id from a op e s ≡ ok (tt, s')) (f : IsFunded (s.events id)) where
  add_funds-entries :
      (r : EventRecord)
      → (s.events id).event ≡ some (current r)
      → (d : EventData) × ((d ≡ s.events id) ⊎ (d ≡ given_to from a (s.events id)))
        × (s'.events id ≡ record d { event = some (current (credit r a)) })
  unfolding add_funds focus
  add_funds-entries r e0 = elim (Result-cases (take_contribution r from a e (load id s))) [
    | inr (inl (x, k)) ↦ absurd (ground arith)
    | inr (inr k) ↦ absurd (ground arith)
    | inl ((c, t), k) ↦ elim (Bool-cases (from == r.owner)) [
      | inl owner ↦
          let (same, here) = owner_gives r from a e (load id s) k owner in
          (t.here, inl here, ground arith)
      | inr other ↦
          let (same, here) = other_gives r from a e (load id s) k other f in
          (t.here, inr here, ground arith)
    ]
  ]

  contribution-IsFunded :
      units (total_of (s.events id)) + units a ≤ i128_max → IsFunded (s'.events id)
  contribution-IsFunded room =
      let (r, e0) = add_funds-row id from a op e s h in
      let (d, cases, after) = add_funds-entries r e0 in
      let whole : a ≡ pos (units a) = natural a (add_funds-positive id from a op e s h) in
      let funded : IsFunded d = elim cases [
        | inl same ↦ rw same f
        | inr given ↦ rw (given, whole) (given_to-IsFunded from (units a) (s.events id) f room)
      ] in
      rw after (row-IsFunded d (some (current (credit r a))) funded)

-- The contributors of an event stay in order through every contribution: each stands once in the list,
-- only they gave something, and the stored total, which a cancellation divides, covers what they gave
-- together. The premises are that this holds before, and that the total and the contribution together
-- fit an `i128`.
pub add_funds-IsFunded :
    (id : ℕ) (from : Address) (a : ℤ) (op : OpId) (e : Env) (s : State) {s' : State}
    → add_funds id from a op e s ≡ ok (tt, s')
    → IsFunded (s.events id)
    → units (total_of (s.events id)) + units a ≤ i128_max
    → IsFunded (s'.events id)
add_funds-IsFunded id from a op e s h f room = contribution-IsFunded id from a op e s h f room
