-- ===== src/EventOps/Solvency/Paying.antt =====
-- The handlers that pay or forfeit an award, and those that add to an escrow.
use boundless_contract.Base.{
  ℕ, ◌≡◌, refl, ◌-◌, ◌≤◌, ◌<◌, some, arith, unwrap_or, false, if◌then◌else◌,
}
use boundless_contract.Base.Int.{
  ℤ, eqb_ℤ, pos, negsuc, ◌≤ℤ◌, i128_max, checked_sub, checked_sub-nonneg, saturating_sub-pos,
}
use boundless_contract.Types.{OpId, EventRecord, completed}
use boundless_contract.Chain.{State, Env, EventData, ok, current}
use boundless_contract.Grant.Settle.{paid_out}
use boundless_contract.EventOps.Claim.{claim_prize}
use boundless_contract.EventOps.Claim.Settled.{claim_prize-Claimed, paid_out_lem}
use boundless_contract.EventOps.Solvency.{IsCovered, closed_to_awards}

pub as_pos : (a : ℤ) → pos 0 ≤ℤ a → (n : ℕ) × (a ≡ pos n)
as_pos (pos n) h = (n, refl)
as_pos (negsuc n) h = absurd (omega arith)

-- The amounts of a covered event as numbers.
pub record Amounts (d : EventData) (r : EventRecord) (n o : ℕ) : Type 0 where
  pub escrow : r.remaining_escrow ≡ pos n
  pub owed : unwrap_or d.owed_total (pos 0) ≡ pos o
  pub fits : n ≤ i128_max

pub amounts :
    (d : EventData) (r : EventRecord)
    → d.event ≡ some (current r)
    → IsCovered d
    → (n : ℕ) × (o : ℕ) × Amounts d r n o
amounts d r h c =
    let (n, en) = as_pos r.remaining_escrow (ground (arith, c.escrow)) in
    let (o, eo) = as_pos (unwrap_or d.owed_total (pos 0)) c.owed in
    (n, o, record { escrow = en; owed = eo; fits = ground (arith, c.fits) })

-- The row after a payment of no more than its escrow.
pub paid_row :
    (r : EventRecord) (n x : ℕ)
    → r.remaining_escrow ≡ pos n
    → x ≤ n
    → n ≤ i128_max
    → paid_out r (pos x) ≡ record r {
      remaining_escrow = pos (n - x);
      status = if eqb_ℤ (pos (n - x)) (pos 0) then completed else r.status;
    }
unfolding paid_out
paid_row r n x a le fits = rw (a, saturating_sub-pos n x le fits)

-- A payment of `x` out of the owed amount and the escrow.
pub paid-IsCovered :
    (d d' : EventData) (r : EventRecord) (n o x : ℕ)
    → d.event ≡ some (current r)
    → Amounts d r n o
    → 0 < x
    → x ≤ o
    → d'.event ≡ some (current (paid_out r (pos x)))
    → d'.owed_total ≡ some (pos (o - x))
    → IsCovered d
    → IsCovered d'
paid-IsCovered d d' r n o x h a positive le e' o' c =
    let room : (o ≤ n) × (closed_to_awards r.pillar r.status ≡ false) =
      ground (arith, a.escrow, a.owed, c.within) in
    let row = paid_row r n x a.escrow (omega arith) a.fits in
    record {
      owed = ground (arith, o');
      within = ground (arith, o', e', row, room);
      escrow = ground (arith, e', row);
      fits = ground (arith, e', row, a.fits);
      kind = ground (arith, e', row, h, c.kind);
    }

pub claim_prize-IsCovered :
    (id p : ℕ) (op : OpId) (e : Env) (s : State) {s' : State}
    → IsCovered (s.events id)
    → claim_prize id p op e s ≡ ok (tt, s')
    → IsCovered (s'.events id)
claim_prize-IsCovered id p op e s {s'} c h =
    let (r, a, w, left, k) = claim_prize-Claimed id p op e s h in
    let (n, o, m) = amounts (s.events id) r k.event c in
    let (x, ex) = as_pos w.amount (omega (arith, k.positive)) in
    let diff : checked_sub (pos o) (pos x) ≡ some left = ground (arith, k.owed, m.owed) in
    let (le, eq) = checked_sub-nonneg o x left diff k.owed_covers in
    paid-IsCovered (s.events id) (s'.events id) r n o x k.event m (ground (arith, k.positive)) le
      (ground (arith, k.event_after, paid_out_lem r w.amount k.is_active))
      (ground (arith, k.owed_after)) c
