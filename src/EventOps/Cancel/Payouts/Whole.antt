-- ===== src/EventOps/Cancel/Payouts/Whole.antt =====
-- contracts/events/src/event_ops.rs: a paged cancellation from `start_cancel` over its batches to
-- `finalize_cancel`.
use boundless_contract.Base.{ℕ, ◌≤◌, ◌≡◌, some, arith}
use boundless_contract.Base.Int.{pos, i128_max, ◌-ℤ◌, ◌≤ℤ◌}
use boundless_contract.Base.Word.{u32_max}
use boundless_contract.Types.{Address, EventRecord, CancellationState, OpId, cancelling}
use boundless_contract.Host.{ok}
use boundless_contract.Chain.{State, Env, current}
use boundless_contract.EventOps.Contributors.{count_of, IsFunded}
use boundless_contract.EventOps.Cancel.{start_cancel, process_cancel_batch, finalize_cancel}
use boundless_contract.EventOps.Cancel.Payouts.{owned, free}
use boundless_contract.EventOps.Cancel.Payouts.Promise.{opened}
use boundless_contract.EventOps.Cancel.Payouts.Batch.{≤ℤ_trans}
use boundless_contract.EventOps.Cancel.Payouts.Steps.{
  IsUnderway, start_cancel-free, process_cancel_batch-free, finalize_cancel-owned,
}

-- The batches between, each with the environment that it meets.
pub data IsRun (id : ℕ) (contract : Address) : State → State → Type 0 where
  no_batch : {s : State} → IsRun id contract s s
  batch :
      (e : Env) (size k : ℕ) (op : OpId) {s : State} (t : State) {u : State}
      → e.current_contract_address ≡ contract
      → process_cancel_batch id size op e s ≡ ok (k, t)
      → IsRun id contract t u
      → IsRun id contract s u

run-free :
    {id : ℕ} {contract : Address} {s u : State} (r : EventRecord) (st : CancellationState)
    → IsRun id contract s u
    → IsUnderway r st (s.events id)
    → (st' : CancellationState) × IsUnderway r st' (u.events id)
      × (free r.token contract st s (s.events id) ≤ℤ free r.token contract st' u (u.events id))
run-free r st no_batch w = (st, w, omega arith)
run-free {id} {contract} {s} {u} r st (batch e size k op t here h rest) w =
    let (st1, w1, first) = process_cancel_batch-free id size op e s r st h w in
    let (st2, w2, others) = run-free r st1 rest w1 in
    (
      st2,
      w2,
      ≤ℤ_trans (free r.token contract st s (s.events id))
          (free r.token contract st1 t (t.events id)) (free r.token contract st2 u (u.events id))
          (rw here at first) others,
    )

-- A cancellation in pages costs the contract at most the escrow of its event: from the start, over any
-- batches, whatever the token answers, to the end, the balance in the event's token, less the refunds that
-- are held for the event's contributors, falls by no more than the remaining escrow at the start. The
-- premises are that the contributors are in order, that the calls succeed, and the ranges of the types.
pub cancel_within_escrow :
    (id : ℕ) (op op' : OpId) (e e' : Env) (s s1 s2 s3 : State) (r : EventRecord)
    (st : CancellationState) (n : ℕ)
    → IsFunded (s.events id)
    → (s.events id).event ≡ some (current r)
    → r.remaining_escrow ≡ pos n
    → n ≤ i128_max
    → count_of (s.events id) ≤ u32_max
    → start_cancel id op e s ≡ ok (tt, s1)
    → (s1.events id).cancellation_state ≡ some st
    → IsRun id e.current_contract_address s1 s2
    → e'.current_contract_address ≡ e.current_contract_address
    → finalize_cancel id op' e' s2 ≡ ok (tt, s3)
    → owned r.token e.current_contract_address s (s.events id) -ℤ pos n
      ≤ℤ owned r.token e.current_contract_address s3 (s3.events id)
cancel_within_escrow id op op' e e' s s1 s2 s3 r st n f e0 escrow fits words h paged run here h' =
    let (w, first) = start_cancel-free id op e s r st h e0 paged n f escrow fits words in
    let r' : EventRecord = record r { status = cancelling } in
    let (st', w', batches) = run-free r' (opened r (s.events id)) run w in
    let last = rw here at (finalize_cancel-owned id op' e' s2 r' st' h' w') in
    omega (arith, first, batches, last)
