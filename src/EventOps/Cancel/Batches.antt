-- ===== src/EventOps/Cancel/Batches.antt =====
-- contracts/events/src/event_ops.rs, the loop of `process_cancel_batch`: it cannot fail, it does the
-- rounds that it is given, and pages of it reach the end.
use boundless_contract.Base.{
  ℕ, zero, suc, ◌+◌, ◌≤◌, ◌<◌, ◌≡◌, ltb, min, Option, some, false, arith, unwrap_or, if◌then◌else◌,
  ◌-◌, inl, inr, Bool-cases,
}
use boundless_contract.Base.Int.{pos, eqb_ℤ}
use boundless_contract.Base.Word.{u32_max}
use boundless_contract.Types.{Address, EventRecord, CancellationState, OpId, cancelling}
use boundless_contract.Chain.{lives, load, focus, current, State, Env, ok}
use boundless_contract.Host.{Result-cases}
use boundless_contract.Escrow.{try_release}
use boundless_contract.EventOps.Cancel.{
  process_cancel_batch, refund, refund_contributor, refund_batch, pro_rata, advance,
}

-- The refund of one contributor always succeeds: a transfer that the token refuses is deferred.
refund_contributor_total :
    (id : ℕ) (r : EventRecord) (st : CancellationState) (c : Option Address) (e : Env) (s : State)
    → eqb_ℤ st.non_owner_total (pos 0) ≡ false
    → (s' : State) × (refund_contributor id r st c e s ≡ ok (tt, s'))
unfolding refund_contributor pro_rata refund try_release
refund_contributor_total id r st c e s h = elim (Result-cases (refund_contributor id r st c e s)) [
  | inl ((_, s'), run) ↦ (s', run)
  | inr (inl (x, run)) ↦ absurd (ground arith)
  | inr (inr run) ↦ absurd (ground arith)
]

-- The state of a cancellation after the rounds that `left` allows.
abbrev pub advanced : ℕ → CancellationState → CancellationState
advanced left st = record st { next_idx = min (st.next_idx + left) st.count_at_start }

-- The loop succeeds whatever the token contract answers, and has then passed as many contributors as
-- it was given rounds, or all that were left. The premises are that the total it divides by is not 0 and
-- that the index, which stays at most the count, fits a `u32`.
pub refund_batch-advanced :
    (left id : ℕ) (r : EventRecord) (st : CancellationState) (e : Env) (s : State)
    → eqb_ℤ st.non_owner_total (pos 0) ≡ false
    → st.next_idx ≤ st.count_at_start
    → st.count_at_start ≤ u32_max
    → (s' : State) × (refund_batch left id r st e s ≡ ok (advanced left st, s'))
unfolding refund_batch
refund_batch-advanced zero id r st e s h le fits = (s, ground arith)
refund_batch-advanced (suc left) id r st e s h le fits =
    elim (Bool-cases (ltb st.next_idx st.count_at_start)) [
      | inr done ↦ (s, ground arith)
      | inl more ↦
          let (t, round) =
            refund_contributor_total id r st (s.here.contributor_at st.next_idx) e s h in
          let (s', rest) = refund_batch-advanced left id r (advance st) e t h (ground arith) fits in
          (s', ground (arith, round, rest))
    ]

-- The rounds of one call: at most 15.
abbrev pub rounds : ℕ → ℕ
rounds max_refunds = min max_refunds 15

-- A batch of an event that is being cancelled goes through whatever the token contract answers: anyone
-- may call it with an unused operation id and a size that is not 0 while the contract is open; it
-- passes as many contributors as the size, 15 and the count allow, stores where it got to and answers
-- how many are left. The premises are those facts, and that the stored total is not 0 and the stored
-- index at most the count, which fits a `u32`.
pub process_cancel_batch-advanced :
    (id size : ℕ) (op : OpId) (e : Env) (s : State) (r : EventRecord) (st : CancellationState)
    → unwrap_or s.config.paused false ≡ false
    → 0 < size
    → lives e (s.op_seen e.current_contract_address op) ≡ false
    → (s.events id).event ≡ some (current r)
    → r.status ≡ cancelling
    → (s.events id).cancellation_state ≡ some st
    → eqb_ℤ st.non_owner_total (pos 0) ≡ false
    → st.next_idx ≤ st.count_at_start
    → st.count_at_start ≤ u32_max
    → (s' : State) × (process_cancel_batch id size op e s
        ≡ ok (st.count_at_start - min (st.next_idx + rounds size) st.count_at_start, s'))
      × ((s'.events id).cancellation_state ≡ some (advanced (rounds size) st))
unfolding process_cancel_batch focus
process_cancel_batch-advanced id size op e s r st h1 h2 h3 h4 h5 h6 h7 h8 h9 =
    let (t, run) = refund_batch-advanced (rounds size) id r st e (load id s) h7 h8 h9 in
    let cap : (if ltb 15 size then 15 else size) ≡ rounds size = ground arith in
    elim (Result-cases (process_cancel_batch id size op e s)) [
      | inl ((k, s'), h) ↦ (s', ground (arith, run, cap), ground (arith, run, cap))
      | inr (inl (x, h)) ↦ absurd (ground (arith, run, cap))
      | inr (inr h) ↦ absurd (ground (arith, run, cap))
    ]
