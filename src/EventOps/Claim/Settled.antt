-- ===== src/EventOps/Claim/Settled.antt =====
-- contracts/events/src/event_ops.rs, `claim_prize`: what a successful claim found and left.
use boundless_contract.Base.{
  ℕ, ◌-◌, ◌≡◌, true, false, some, none, ◌∷◌, inl, inr, arith, unwrap_or, if◌then◌else◌,
  Option-cases,
}
use boundless_contract.Base.Int.{ℤ, pos, ◌≤ℤ◌, ◌<ℤ◌, checked_sub, saturating_sub, eqb_ℤ}
use boundless_contract.Types.{OpId, EventRecord, Winner, PrizeAward, active, completed, single}
use boundless_contract.Chain.{lives, live_until, State, Env, ok, focus, current, legacy}
use boundless_contract.Custody.{leg}
use boundless_contract.Escrow.{release}
use boundless_contract.Idempotency.{derive_child}
use boundless_contract.Profile.{report}
use boundless_contract.Grant.Shares.{release_owed}
use boundless_contract.Grant.Settle.{paid_out}
use boundless_contract.EventOps.Claim.{claim_prize}

pub paid_out_lem :
    (r : EventRecord) (a : ℤ)
    → r.status ≡ active
    → paid_out r a ≡ record r {
      remaining_escrow = saturating_sub r.remaining_escrow a;
      status = if eqb_ℤ (saturating_sub r.remaining_escrow a) (pos 0) then completed else active;
    }
unfolding paid_out
paid_out_lem r a h = ground arith

-- A claim of the prize at `p` of the event `id`, from `s` to `s'`: the event `r`, its award `a` and the
-- winner's row `w` that it found, and the owed total `left` that it wrote.
pub record Claimed (id p : ℕ) (op : OpId) (e : Env) (s s' : State) (r : EventRecord)
    (a : PrizeAward) (w : Winner) (left : ℤ) : Type 0 where
  pub event : (s.events id).event ≡ some (current r)
  pub is_active : r.status ≡ active
  pub is_single : r.release_kind ≡ single
  pub award : (s.events id).prize_award p ≡ some a
  pub row : (s.events id).winner_at a.anchor_idx ≡ some w
  pub recipient : w.recipient ≡ a.recipient
  pub position : w.position ≡ p
  pub unpaid : w.paid_at ≡ none
  pub positive : pos 0 <ℤ w.amount
  pub covered : w.amount ≤ℤ r.remaining_escrow
  pub signed : e.authorized a.recipient ≡ true
  pub unseen : lives e (s.op_seen a.recipient op) ≡ false
  pub owed : checked_sub (unwrap_or (s.events id).owed_total (pos 0)) w.amount ≡ some left
  pub owed_covers : pos 0 ≤ℤ left
  pub event_after :
      (s'.events id).event
      ≡ some (
          current (record r {
            remaining_escrow = saturating_sub r.remaining_escrow w.amount;
            status =
                if eqb_ℤ (saturating_sub r.remaining_escrow w.amount) (pos 0)
                then completed
                else active;
          }))
  pub owed_after : (s'.events id).owed_total ≡ some left
  pub row_after :
      (s'.events id).winner_at a.anchor_idx
      ≡ some (record w { milestone = none; paid_at = some e.timestamp })
  pub award_after : (s'.events id).prize_award p ≡ some a
  pub unclaimed_after :
      (s'.events id).unclaimed_prizes ≡ some (unwrap_or (s.events id).unclaimed_prizes 0 - 1)
  pub transfers_after :
      s'.transfers ≡ leg r.token e.current_contract_address a.recipient w.amount ∷ s.transfers
  pub seen_after : s'.op_seen a.recipient op ≡ some (live_until e)

-- The same with the rows that it found given.
claim_prize-Claimed_at :
    (id p : ℕ) (op : OpId) (e : Env) (s : State) (r : EventRecord) (a : PrizeAward) (w : Winner)
    (left : ℤ) {s' : State}
    → (s.events id).event ≡ some (current r)
    → (s.events id).prize_award p ≡ some a
    → (s.events id).winner_at a.anchor_idx ≡ some w
    → checked_sub (unwrap_or (s.events id).owed_total (pos 0)) w.amount ≡ some left
    → claim_prize id p op e s ≡ ok (tt, s')
    → Claimed id p op e s s' r a w left
unfolding claim_prize focus release release_owed report derive_child paid_out
claim_prize-Claimed_at id p op e s r a w left he ha hw ho h = ground arith

pub claim_prize-Claimed_found :
    (id p : ℕ) (op : OpId) (e : Env) (s : State) (r : EventRecord) (a : PrizeAward) (w : Winner)
    {s' : State}
    → (s.events id).event ≡ some (current r)
    → (s.events id).prize_award p ≡ some a
    → (s.events id).winner_at a.anchor_idx ≡ some w
    → claim_prize id p op e s ≡ ok (tt, s')
    → (left : ℤ) × Claimed id p op e s s' r a w left
unfolding claim_prize focus release_owed
claim_prize-Claimed_found id p op e s r a w he ha hw h =
    elim (Option-cases (checked_sub (unwrap_or (s.events id).owed_total (pos 0)) w.amount)) [
      | inl e3 ↦ absurd (ground arith)
      | inr (left, e3) ↦ (left, claim_prize-Claimed_at id p op e s r a w left he ha hw e3 h)
    ]

-- A claim that succeeds was for an active single-release event, by the signature of the recipient of
-- an award at that position whose row is unpaid and positive, with the escrow and the owed total both
-- covering it, and with an operation id not seen before; it takes the amount off both, completes the
-- event when nothing is left, marks the row paid, keeps the award, counts one unclaimed prize less, makes that one transfer and marks the
-- operation id seen.
pub claim_prize-Claimed :
    (id p : ℕ) (op : OpId) (e : Env) (s : State) {s' : State}
    → claim_prize id p op e s ≡ ok (tt, s')
    → (r : EventRecord) × (a : PrizeAward) × (w : Winner) × (left : ℤ) × Claimed id p op e s s' r a
        w left
unfolding claim_prize focus release_owed
claim_prize-Claimed id p op e s h = elim (Option-cases (s.events id).event) [
  | inl e0 ↦ absurd (ground arith)
  | inr (legacy _, e0) ↦ absurd (ground arith)
  | inr (current r, e0) ↦ elim (Option-cases ((s.events id).prize_award p)) [
    | inl e1 ↦ absurd (ground arith)
    | inr (a, e1) ↦ elim (Option-cases ((s.events id).winner_at a.anchor_idx)) [
      | inl e2 ↦ absurd (ground arith)
      | inr (w, e2) ↦
          let (left, c) = claim_prize-Claimed_found id p op e s r a w e0 e1 e2 h in
          (r, a, w, left, c)
    ]
  ]
]
