-- ===== src/EventOps/Solvency/Funding.antt =====
-- What is added to an escrow keeps what is owed within it.
use boundless_contract.Base.{
  ℕ, ◌≡◌, some, arith, inl, inr, Option-cases, Bool-cases, unwrap_or, true, false, ◌==◌, ◌+◌, min,
}
use boundless_contract.Base.Int.{ℤ, eqb_ℤ, pos, ◌<ℤ◌, ◌≤ℤ◌, saturating_add-pos, i128_max}
use boundless_contract.Storage.People.{append_contributor}
use boundless_contract.Types.{Address, OpId, EventRecord, is_active}
use boundless_contract.Host.{Result-cases, ok}
use boundless_contract.Chain.{State, Env, EventData, focus, load, current, legacy}
use boundless_contract.EventOps.Funds.{
  add_funds, deposit, take_contribution, credit, get_or_init_non_owner_total,
}
use boundless_contract.EventOps.Solvency.{IsCovered}
use boundless_contract.EventOps.Solvency.Keeping.{Kept}
use boundless_contract.EventOps.Solvency.Paying.{as_pos, amounts}

deposit-same :
    (r : EventRecord) (from : Address) (a : ℤ) (e : Env) (s : State) {c : ℤ} {t : State}
    → deposit r from a e s ≡ ok (c, t)
    → (c ≡ a) × Kept s t
unfolding deposit
deposit-same r from a e s h = ground arith

pub get_or_init_non_owner_total-same :
    (e : Env) (s : State) {c : ℤ} {t : State}
    → get_or_init_non_owner_total e s ≡ ok (c, t)
    → Kept s t
unfolding get_or_init_non_owner_total
get_or_init_non_owner_total-same e s h = ground arith

append_contributor-same :
    (from : Address) (e : Env) (s : State) {k : ℕ} {t : State}
    → append_contributor from e s ≡ ok (k, t)
    → Kept s t
unfolding append_contributor
append_contributor-same from e s h = ground arith

module _ (r : EventRecord) (from : Address) (a : ℤ) (e : Env) (s : State) {c : ℤ} {t : State}
    (h : take_contribution r from a e s ≡ ok (c, t)) where
  owner_pays : (from == r.owner) ≡ true → (c ≡ a) × Kept s t
  unfolding take_contribution
  owner_pays owner = elim (Result-cases (deposit r from a e s)) [
    | inr (inl (x, k)) ↦ absurd (ground arith)
    | inr (inr k) ↦ absurd (ground arith)
    | inl ((c', v), k) ↦ let paid = deposit-same r from a e s k in ground (arith, paid)
  ]

  -- What a contributor who is not the owner runs: the deposit, in a state whose event is as before.
  other_pays :
      (from == r.owner) ≡ false
      → (u : State) × (v : State) × Kept s u × (deposit r from a e u ≡ ok (c, v)) × Kept v t
  unfolding take_contribution
  other_pays other = elim (Result-cases (get_or_init_non_owner_total e s)) [
    | inr (inl (x, k)) ↦ absurd (ground arith)
    | inr (inr k) ↦ absurd (ground arith)
    | inl ((before, u), k) ↦
        let same = get_or_init_non_owner_total-same e s k in
        elim (Bool-cases (eqb_ℤ (unwrap_or (s.here.contributor_amount from) (pos 0)) (pos 0))) [
          | inr known ↦ elim (Result-cases (deposit r from a e u)) [
            | inr (inl (x, k1)) ↦ absurd (ground arith)
            | inr (inr k1) ↦ absurd (ground arith)
            | inl ((c', v), k1) ↦ (u, v, same, ground arith, ground arith)
          ]
          | inl new ↦ elim (Result-cases (append_contributor from e u)) [
            | inr (inl (x, k1)) ↦ absurd (ground arith)
            | inr (inr k1) ↦ absurd (ground arith)
            | inl ((slot, u'), k1) ↦
                let same' = append_contributor-same from e u k1 in
                elim (Result-cases (deposit r from a e u')) [
                  | inr (inl (x, k2)) ↦ absurd (ground arith)
                  | inr (inr k2) ↦ absurd (ground arith)
                  | inl ((c', v), k2) ↦
                      (u', v, ground (arith, same, same'), ground arith, ground arith)
                ]
          ]
        ]
  ]

  pub take_contribution-same : (c ≡ a) × Kept s t
  take_contribution-same = elim (Bool-cases (from == r.owner)) [
    | inl owner ↦ owner_pays owner
    | inr other ↦
        let (u, v, before, run, after) = other_pays other in
        let paid = deposit-same r from a e u run in ground (arith, before, paid, after)
  ]

-- A contribution to an active event: the row before and after.
record Funded (d d' : EventData) (r : EventRecord) (a : ℤ) : Type 0 where
  pub event : d.event ≡ some (current r)
  pub positive : pos 0 <ℤ a
  pub active : is_active r.status ≡ true
  pub event_after : d'.event ≡ some (current (credit r a))
  pub owed_after : d'.owed_total ≡ d.owed_total

module _ (id : ℕ) (from : Address) (a : ℤ) (op : OpId) (e : Env) (s : State) {s' : State}
    (h : add_funds id from a op e s ≡ ok (tt, s')) where
  pub add_funds-row : (r : EventRecord) × ((s.events id).event ≡ some (current r))
  unfolding add_funds focus
  add_funds-row = elim (Option-cases (s.events id).event) [
    | inl e0 ↦ absurd (ground arith)
    | inr (legacy _, e0) ↦ absurd (ground arith)
    | inr (current r, e0) ↦ (r, e0)
  ]

  pub add_funds-positive : pos 0 ≤ℤ a
  unfolding add_funds focus
  add_funds-positive = ground arith

  add_funds-Funded :
      (r : EventRecord)
      → (s.events id).event ≡ some (current r)
      → Funded (s.events id) (s'.events id) r a
  unfolding add_funds focus
  add_funds-Funded r e0 = elim (Result-cases (take_contribution r from a e (load id s))) [
    | inr (inl (x, k)) ↦ absurd (ground arith)
    | inr (inr k) ↦ absurd (ground arith)
    | inl ((c, t), k) ↦
        let kept = take_contribution-same r from a e (load id s) k in
        record {
          event = e0;
          positive = ground arith;
          active = ground arith;
          event_after = ground (arith, kept);
          owed_after = ground (arith, kept);
        }
  ]

  pub add_funds-IsCovered : IsCovered (s.events id) → IsCovered (s'.events id)
  add_funds-IsCovered c =
      let (r, e0) = add_funds-row in
      let f = add_funds-Funded r e0 in
      let (n, o, w) = amounts (s.events id) r e0 c in
      let (x, ex) = as_pos a (omega (arith, f.positive)) in
      let row : credit r (pos x) ≡ record r { remaining_escrow = pos (min (n + x) i128_max) } =
        rw (w.escrow, saturating_add-pos n x) in
      record {
        owed = ground (arith, f.owed_after, c.owed);
        within =
            ground (arith, f.owed_after, f.event_after, row, c.within, w.escrow, w.owed, w.fits);
        escrow = ground (arith, f.event_after, row);
        fits = ground (arith, f.event_after, row);
        kind = ground (arith, f.event_after, row, e0, c.kind);
      }
