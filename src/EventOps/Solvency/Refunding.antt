-- ===== src/EventOps/Solvency/Refunding.antt =====
-- Batches of refunds leave the award accounting alone.
use boundless_contract.Chain.Steady.{IsSteady-trans, IsMarked}
use boundless_contract.Base.{
  some, ℕ, zero, suc, ◌≡◌, Option, arith, ltb, ◌∙◌, inl, inr, Bool-cases, Option-cases,
  if◌then◌else◌,
}
use boundless_contract.Types.{Address, OpId, EventRecord, CancellationState}
use boundless_contract.Host.{Result-cases, ok}
use boundless_contract.Chain.{State, Env, focus, load, current, legacy}
use boundless_contract.Escrow.{try_release}
use boundless_contract.EventOps.Cancel.{
  process_cancel_batch, refund_batch, refund_contributor, refund, pro_rata, advance,
  max_refunds_per_batch,
}
use boundless_contract.EventOps.Solvency.Keeping.{Kept, Same}

refund_contributor-same :
    (id : ℕ) (r : EventRecord) (st : CancellationState) (c : Option Address) (e : Env) (s : State)
    {s' : State}
    → refund_contributor id r st c e s ≡ ok (tt, s')
    → Kept s s'
unfolding refund_contributor refund try_release pro_rata
refund_contributor-same id r st c e s h = ground arith

refund_batch-same :
    (left id : ℕ) (r : EventRecord) (st : CancellationState) (e : Env) (s : State)
    {st' : CancellationState} {s' : State}
    → refund_batch left id r st e s ≡ ok (st', s')
    → Kept s s'
unfolding refund_batch
refund_batch-same zero id r st e s h = ground arith
refund_batch-same (suc left) id r st e s {st'} {s'} h =
    elim (Bool-cases (ltb st.next_idx st.count_at_start)) [
      | inr done ↦ ground arith
      | inl more ↦
          elim (Result-cases (refund_contributor id r st (s.here.contributor_at st.next_idx) e s)) [
            | inr (inl (x, k)) ↦ absurd (ground arith)
            | inr (inr k) ↦ absurd (ground arith)
            | inl ((_, t), k) ↦
                let one =
                  refund_contributor-same id r st (s.here.contributor_at st.next_idx) e s k in
                let run : refund_batch left id r (advance st) e t ≡ ok (st', s') = ground arith in
                let rest = refund_batch-same left id r (advance st) e t run in
                (rest.0 ∙ one.0, rest.1 ∙ one.1, IsSteady-trans one.2 rest.2)
          ]
    ]

pub process_cancel_batch-Same :
    (id n : ℕ) (op : OpId) (e : Env) (s : State) {left : ℕ} {s' : State}
    → process_cancel_batch id n op e s ≡ ok (left, s')
    → Same (s.events id) (s'.events id)
      × IsMarked e (some e.current_contract_address) (some op) s s'
unfolding process_cancel_batch focus
process_cancel_batch-Same id n op e s {left} {s'} h = elim (Option-cases (s.events id).event) [
  | inl e0 ↦ absurd (ground arith)
  | inr (legacy _, e0) ↦ absurd (ground arith)
  | inr (current r, e0) ↦ elim (Option-cases (s.events id).cancellation_state) [
    | inl e1 ↦ absurd (ground arith)
    | inr (st, e1) ↦
        let cap = if ltb max_refunds_per_batch n then max_refunds_per_batch else n in
        elim (Result-cases (refund_batch cap id r st e (load id s))) [
          | inr (inl (x, k)) ↦ absurd (ground arith)
          | inr (inr k) ↦ absurd (ground arith)
          | inl ((st', t), k) ↦
              let kept = refund_batch-same cap id r st e (load id s) k in
              ((ground (arith, kept), ground (arith, kept)), ground (arith, kept))
        ]
  ]
]
