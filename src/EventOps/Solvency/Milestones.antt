-- ===== src/EventOps/Solvency/Milestones.antt =====
-- The handlers of milestones keep what is owed within the escrow.
use boundless_contract.Base.{ℕ, ◌≡◌, refl, ◌⊎◌, some, arith, inl, inr, Option-cases, unwrap_or}
use boundless_contract.Base.Int.{ℤ, pos, ◌≤ℤ◌, ◌<ℤ◌, checked_sub, checked_sub-nonneg}
use boundless_contract.Types.{Address, OpId, Error, EventRecord, milestones}
use boundless_contract.Host.{Result-cases, ok}
use boundless_contract.Chain.{State, Env, EventData, focus, load, current, legacy}
use boundless_contract.Grant.Shares.{Amount, amount, fault, Standing, standing, share, release_owed}
use boundless_contract.Grant.Settle.{forfeit_milestone}
use boundless_contract.EventOps.Solvency.{IsCovered}
use boundless_contract.EventOps.Solvency.Paying.{as_pos, amounts}

pub Amount-cases : (x : Amount) → ((a : ℤ) × (x ≡ amount a)) ⊎ ((f : Error) × (x ≡ fault f))
Amount-cases (amount a) = inl (a, refl)
Amount-cases (fault f) = inr (f, refl)

pub standing-same :
    (who : Address) (e : Env) (s : State) {st : Standing} {s' : State}
    → standing who e s ≡ ok (st, s')
    → s' ≡ s
unfolding standing
standing-same who e s h = ground arith

-- A forfeit: the row that it found, and the amount and the owed total that it wrote.
record Forfeited (d d' : EventData) (r : EventRecord) (a left : ℤ) : Type 0 where
  pub event : d.event ≡ some (current r)
  pub positive : pos 0 <ℤ a
  pub owed : checked_sub (unwrap_or d.owed_total (pos 0)) a ≡ some left
  pub owed_covers : pos 0 ≤ℤ left
  pub event_after : d'.event ≡ d.event
  pub owed_after : d'.owed_total ≡ some left

module _ (id : ℕ) (who : Address) (m : ℕ) (op : OpId) (e : Env) (s : State) {s' : State}
    (h : forfeit_milestone id who m op e s ≡ ok (tt, s')) where
  forfeit_milestone-at :
      (r : EventRecord) (total : ℕ) (st : Standing) (a left : ℤ)
      → (s.events id).event ≡ some (current r)
      → milestones r.release_kind ≡ some total
      → standing who e (load id s) ≡ ok (st, load id s)
      → share st r.release_kind total m ≡ amount a
      → checked_sub (unwrap_or (s.events id).owed_total (pos 0)) a ≡ some left
      → Forfeited (s.events id) (s'.events id) r a left
  unfolding forfeit_milestone focus release_owed
  forfeit_milestone-at r total st a left e0 e1 e2 e3 e4 = record {
    event = e0;
    positive = ground arith;
    owed = e4;
    owed_covers = ground arith;
    event_after = ground arith;
    owed_after = ground arith;
  }

  forfeit_milestone-Forfeited :
      (r : EventRecord) × (a : ℤ) × (left : ℤ) × Forfeited (s.events id) (s'.events id) r a left
  unfolding forfeit_milestone focus release_owed
  forfeit_milestone-Forfeited = elim (Option-cases (s.events id).event) [
    | inl e0 ↦ absurd (ground arith)
    | inr (legacy _, e0) ↦ absurd (ground arith)
    | inr (current r, e0) ↦ elim (Option-cases (milestones r.release_kind)) [
      | inl e1 ↦ absurd (ground arith)
      | inr (total, e1) ↦ elim (Result-cases (standing who e (load id s))) [
        | inr (inl (x, e2)) ↦ absurd (ground arith)
        | inr (inr e2) ↦ absurd (ground arith)
        | inl ((st, t), e2) ↦
            let same = standing-same who e (load id s) e2 in
            let e2' : standing who e (load id s) ≡ ok (st, load id s) = rw same at e2 in
            elim (Amount-cases (share st r.release_kind total m)) [
              | inr (f, e3) ↦ absurd (ground arith)
              | inl (a, e3) ↦
                  elim (Option-cases (checked_sub (unwrap_or (s.events id).owed_total (pos 0)) a)) [
                    | inl e4 ↦ absurd (ground arith)
                    | inr (left, e4) ↦
                        (r, a, left, forfeit_milestone-at r total st a left e0 e1 e2' e3 e4)
                  ]
            ]
      ]
    ]
  ]

  pub forfeit_milestone-IsCovered : IsCovered (s.events id) → IsCovered (s'.events id)
  forfeit_milestone-IsCovered c =
      let (r, a, left, f) = forfeit_milestone-Forfeited in
      let (n, o, t) = amounts (s.events id) r f.event c in
      let (x, ex) = as_pos a (omega (arith, f.positive)) in
      let diff : checked_sub (pos o) (pos x) ≡ some left = ground (arith, f.owed, t.owed) in
      let (le, eq) = checked_sub-nonneg o x left diff f.owed_covers in
      ground (arith, f.event_after, f.owed_after, eq, t.owed)
