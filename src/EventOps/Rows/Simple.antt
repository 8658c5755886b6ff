-- ===== src/EventOps/Rows/Simple.antt =====
-- The handlers that touch no row, and the one that pays a row.
use boundless_contract.Base.{
  ℕ, zero, suc, ◌≡◌, ◌∙◌, none, refl, some, ltb, ◌==◌, arith, inl, inr, Option, Option-cases,
  Bool-cases, unwrap_or, if◌then◌else◌,
}
use boundless_contract.Base.Int.{ℤ, pos, eqb_ℤ}
use boundless_contract.Types.{Address, OpId, EventRecord, CancellationState}
use boundless_contract.Host.{Result-cases, ok}
use boundless_contract.Chain.{State, Env, focus, load, current, legacy}
use boundless_contract.Escrow.{release, try_release}
use boundless_contract.Profile.{report}
use boundless_contract.Idempotency.{derive_child}
use boundless_contract.Admin.Guards.{open_time}
use boundless_contract.Storage.People.{append_contributor}
use boundless_contract.EventOps.Manager.{
  propose_manager, accept_manager, cancel_pending_manager, reclaim_management, write_proposal,
}
use boundless_contract.EventOps.Funds.{
  add_funds, take_contribution, deposit, get_or_init_non_owner_total,
}
use boundless_contract.EventOps.Cancel.{
  start_cancel, finalize_cancel, claim_refund, require_cancellable, cancel_for_owner,
  cancel_in_pages, refund_owner, process_cancel_batch, refund_batch, refund_contributor, refund,
  pro_rata, advance, max_refunds_per_batch,
}
use boundless_contract.EventOps.Claim.{claim_prize}
use boundless_contract.EventOps.Claim.Settled.{claim_prize-Claimed}
use boundless_contract.Grant.Shares.{standing, release_owed}
use boundless_contract.Grant.Settle.{forfeit_milestone}
use boundless_contract.EventOps.Rows.{SameRows, IsKept}

deposit-SameRows :
    (r : EventRecord) (from : Address) (a : ℤ) (e : Env) (s : State) {c : ℤ} {t : State}
    → deposit r from a e s ≡ ok (c, t)
    → t.here ≡ s.here
unfolding deposit
deposit-SameRows r from a e s h = ground arith

get_or_init_non_owner_total-SameRows :
    (e : Env) (s : State) {c : ℤ} {t : State}
    → get_or_init_non_owner_total e s ≡ ok (c, t)
    → SameRows s.here t.here
unfolding get_or_init_non_owner_total
get_or_init_non_owner_total-SameRows e s h = ground arith

append_contributor-SameRows :
    (from : Address) (e : Env) (s : State) {k : ℕ} {t : State}
    → append_contributor from e s ≡ ok (k, t)
    → SameRows s.here t.here
unfolding append_contributor
append_contributor-SameRows from e s h = ground arith

take_contribution-SameRows :
    (r : EventRecord) (from : Address) (a : ℤ) (e : Env) (s : State) {c : ℤ} {t : State}
    → take_contribution r from a e s ≡ ok (c, t)
    → SameRows s.here t.here
unfolding take_contribution
take_contribution-SameRows r from a e s h = elim (Bool-cases (from == r.owner)) [
  | inl owner ↦ elim (Result-cases (deposit r from a e s)) [
    | inr (inl (x, k)) ↦ absurd (ground arith)
    | inr (inr k) ↦ absurd (ground arith)
    | inl ((c', v), k) ↦ let paid = deposit-SameRows r from a e s k in ground (arith, paid)
  ]
  | inr other ↦ elim (Result-cases (get_or_init_non_owner_total e s)) [
    | inr (inl (x, k)) ↦ absurd (ground arith)
    | inr (inr k) ↦ absurd (ground arith)
    | inl ((before, u), k) ↦
        let same = get_or_init_non_owner_total-SameRows e s k in
        elim (Bool-cases (eqb_ℤ (unwrap_or (s.here.contributor_amount from) (pos 0)) (pos 0))) [
          | inr known ↦ elim (Result-cases (deposit r from a e u)) [
            | inr (inl (x, k1)) ↦ absurd (ground arith)
            | inr (inr k1) ↦ absurd (ground arith)
            | inl ((c', v), k1) ↦
                let paid = deposit-SameRows r from a e u k1 in ground (arith, same, paid)
          ]
          | inl new ↦ elim (Result-cases (append_contributor from e u)) [
            | inr (inl (x, k1)) ↦ absurd (ground arith)
            | inr (inr k1) ↦ absurd (ground arith)
            | inl ((slot, u'), k1) ↦
                let same' = append_contributor-SameRows from e u k1 in
                elim (Result-cases (deposit r from a e u')) [
                  | inr (inl (x, k2)) ↦ absurd (ground arith)
                  | inr (inr k2) ↦ absurd (ground arith)
                  | inl ((c', v), k2) ↦
                      let paid = deposit-SameRows r from a e u' k2 in
                      ground (arith, same, same', paid)
                ]
          ]
        ]
  ]
]

refund_contributor-SameRows :
    (id : ℕ) (r : EventRecord) (st : CancellationState) (c : Option Address) (e : Env) (s : State)
    {s' : State}
    → refund_contributor id r st c e s ≡ ok (tt, s')
    → SameRows s.here s'.here
unfolding refund_contributor refund try_release pro_rata
refund_contributor-SameRows id r st c e s h = ground arith

refund_batch-SameRows :
    (left id : ℕ) (r : EventRecord) (st : CancellationState) (e : Env) (s : State)
    {st' : CancellationState} {s' : State}
    → refund_batch left id r st e s ≡ ok (st', s')
    → SameRows s.here s'.here
unfolding refund_batch
refund_batch-SameRows zero id r st e s h = ground arith
refund_batch-SameRows (suc left) id r st e s {st'} {s'} h =
    elim (Bool-cases (ltb st.next_idx st.count_at_start)) [
      | inr done ↦ ground arith
      | inl more ↦
          elim (Result-cases (refund_contributor id r st (s.here.contributor_at st.next_idx) e s)) [
            | inr (inl (x, k)) ↦ absurd (ground arith)
            | inr (inr k) ↦ absurd (ground arith)
            | inl ((_, t), k) ↦
                let one =
                  refund_contributor-SameRows id r st (s.here.contributor_at st.next_idx) e s k in
                let run : refund_batch left id r (advance st) e t ≡ ok (st', s') = ground arith in
                let rest = refund_batch-SameRows left id r (advance st) e t run in
                (rest.0 ∙ one.0, rest.1 ∙ one.1, rest.2 ∙ one.2)
          ]
    ]

module _ (id : ℕ) (e : Env) (s : State) {s' : State} where
  pub manager-SameRows :
      (m : Address) → propose_manager id m e s ≡ ok (tt, s') → SameRows (s.events id) (s'.events id)
  unfolding propose_manager write_proposal focus
  manager-SameRows m h = ground arith

  pub accept_manager-SameRows :
      accept_manager id e s ≡ ok (tt, s') → SameRows (s.events id) (s'.events id)
  unfolding accept_manager focus
  accept_manager-SameRows h = ground arith

  pub cancel_pending_manager-SameRows :
      cancel_pending_manager id e s ≡ ok (tt, s') → SameRows (s.events id) (s'.events id)
  unfolding cancel_pending_manager focus
  cancel_pending_manager-SameRows h = ground arith

  pub reclaim_management-SameRows :
      reclaim_management id e s ≡ ok (tt, s') → SameRows (s.events id) (s'.events id)
  unfolding reclaim_management focus
  reclaim_management-SameRows h = ground arith

  pub claim_refund-SameRows :
      (who : Address) (op : OpId)
      → claim_refund id who op e s ≡ ok (tt, s')
      → SameRows (s.events id) (s'.events id)
  unfolding claim_refund focus release
  claim_refund-SameRows who op h = ground arith

  pub finalize_cancel-SameRows :
      (op : OpId) → finalize_cancel id op e s ≡ ok (tt, s') → SameRows (s.events id) (s'.events id)
  unfolding finalize_cancel focus release refund_owner
  finalize_cancel-SameRows op h = ground arith

  pub start_cancel-SameRows :
      (op : OpId) → start_cancel id op e s ≡ ok (tt, s') → SameRows (s.events id) (s'.events id)
  unfolding start_cancel focus release require_cancellable open_time get_or_init_non_owner_total
      cancel_for_owner cancel_in_pages refund_owner
  start_cancel-SameRows op h = ground arith

  pub forfeit_milestone-SameRows :
      (who : Address) (m : ℕ) (op : OpId)
      → forfeit_milestone id who m op e s ≡ ok (tt, s')
      → SameRows (s.events id) (s'.events id)
  unfolding forfeit_milestone focus release_owed standing
  forfeit_milestone-SameRows who m op h = ground arith

  pub add_funds-SameRows :
      (from : Address) (a : ℤ) (op : OpId)
      → add_funds id from a op e s ≡ ok (tt, s')
      → SameRows (s.events id) (s'.events id)
  unfolding add_funds focus
  add_funds-SameRows from a op h = elim (Option-cases (s.events id).event) [
    | inl e0 ↦ absurd (ground arith)
    | inr (legacy _, e0) ↦ absurd (ground arith)
    | inr (current r, e0) ↦ elim (Result-cases (take_contribution r from a e (load id s))) [
      | inr (inl (x, k)) ↦ absurd (ground arith)
      | inr (inr k) ↦ absurd (ground arith)
      | inl ((c, t), k) ↦
          let kept = take_contribution-SameRows r from a e (load id s) k in ground (arith, kept)
    ]
  ]

  pub process_cancel_batch-SameRows :
      (n : ℕ) (op : OpId) {left : ℕ}
      → process_cancel_batch id n op e s ≡ ok (left, s')
      → SameRows (s.events id) (s'.events id)
  unfolding process_cancel_batch focus
  process_cancel_batch-SameRows n op h = elim (Option-cases (s.events id).event) [
    | inl e0 ↦ absurd (ground arith)
    | inr (legacy _, e0) ↦ absurd (ground arith)
    | inr (current r, e0) ↦ elim (Option-cases (s.events id).cancellation_state) [
      | inl e1 ↦ absurd (ground arith)
      | inr (st, e1) ↦
          let cap = if ltb max_refunds_per_batch n then max_refunds_per_batch else n in
          elim (Result-cases (refund_batch cap id r st e (load id s))) [
            | inr (inl (x, k)) ↦ absurd (ground arith)
            | inr (inr k) ↦ absurd (ground arith)
            | inl ((st', t), k) ↦
                let kept = refund_batch-SameRows cap id r st e (load id s) k in ground (arith, kept)
          ]
    ]
  ]

  -- A claim pays one row.
  pub claim_prize-IsKept :
      (n p : ℕ) (op : OpId)
      → claim_prize id p op e s ≡ ok (tt, s')
      → IsKept n (s.events id) (s'.events id)
  unfolding claim_prize focus release_owed report derive_child release
  claim_prize-IsKept n p op h = record {
    grows = ground arith;
    bound = ground arith;
    row = λ i below.
        let (r, a, w, left, c) = claim_prize-Claimed id p op e s h in
        elim (Bool-cases (i == a.anchor_idx)) [
          | inl here ↦ inr (
            record w { milestone = none; paid_at = some e.timestamp },
            ground (arith, c.row_after),
            refl,
          )
          | inr apart ↦ inl (ground (arith, c.award))
        ];
    award = λ q a there. ground arith;
    fresh = λ q a there. inl (ground arith);
  }
