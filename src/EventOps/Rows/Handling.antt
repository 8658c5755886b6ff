-- ===== src/EventOps/Rows/Handling.antt =====
-- No handler takes a row or an award back.
use boundless_contract.Base.{
  ℕ, ◌+◌, ◌≤◌, ◌≡◌, none, some, arith, inl, inr, Bool-cases, Option, unwrap_or,
}
use boundless_contract.Base.Int.{ℤ}
use boundless_contract.Base.Word.{u32_max}
use boundless_contract.Types.{Address, OpId, EventRecord, is_crowdfunding}
use boundless_contract.Host.{Result-cases, ok}
use boundless_contract.Chain.{State, Env, live_until, load}
use boundless_contract.Base.Maps.{update}
use boundless_contract.Escrow.{release, release_with_fee_at}
use boundless_contract.Profile.{report}
use boundless_contract.Idempotency.{derive_child}
use boundless_contract.Grant.Shares.{Standing, release_owed}
use boundless_contract.Grant.Settle.{claim_milestone, record_release, disburse}
use boundless_contract.EventOps.Cancel.{process_cancel_batch}
use boundless_contract.EventOps.Handlers.{
  EventCall, handle, propose_manager_call, accept_manager_call, cancel_pending_manager_call,
  reclaim_management_call, add_funds_call, start_cancel_call, process_cancel_batch_call,
  finalize_cancel_call, claim_refund_call, select_winners_call, claim_prize_call,
  claim_milestone_call, forfeit_milestone_call,
}
use boundless_contract.EventOps.Solvency.{IsCovered}
use boundless_contract.EventOps.Solvency.Releases.{claim_milestone-runs, milestone_due-Due}
use boundless_contract.EventOps.Rows.{
  rows, IsKept, SameRows, IsKept-SameRows, IsKept-le, IsKept-trans,
}
use boundless_contract.EventOps.Rows.Selecting.{select_winners-IsKept}
use boundless_contract.EventOps.Rows.Simple.{
  manager-SameRows, accept_manager-SameRows, cancel_pending_manager-SameRows,
  reclaim_management-SameRows, claim_refund-SameRows, finalize_cancel-SameRows,
  start_cancel-SameRows, forfeit_milestone-SameRows, add_funds-SameRows,
  process_cancel_batch-SameRows, claim_prize-IsKept,
}

release_with_fee_at-here :
    (token who : Address) (a : ℤ) (bps : ℕ) (e : Env) (s : State) {s' : State}
    → release_with_fee_at token who a bps e s ≡ ok (tt, s')
    → s'.here ≡ s.here
unfolding release_with_fee_at
release_with_fee_at-here token who a bps e s h = ground arith

disburse-SameRows :
    (id : ℕ) (r : EventRecord) (who : Address) (m : ℕ) (a : ℤ) (bump : ℕ) (op : OpId) (e : Env)
    (s : State) {s' : State}
    → disburse id r who m a bump op e s ≡ ok (tt, s')
    → SameRows s.here s'.here
unfolding disburse report derive_child release
disburse-SameRows id r who m a bump op e s h = elim (Bool-cases (is_crowdfunding r.pillar)) [
  | inr award ↦ ground arith
  | inl campaign ↦
      let rate = unwrap_or r.fee_bps_override (unwrap_or s.config.fee_bps 0) in
      let marked = record s {
        op_seen = update s.op_seen r.owner (update (s.op_seen r.owner) op (some (live_until e)));
      } in
      elim (Result-cases (release_with_fee_at r.token who a rate e marked)) [
        | inr (inl (x, k)) ↦ absurd (ground arith)
        | inr (inr k) ↦ absurd (ground arith)
        | inl ((_, t), k) ↦ ground (arith, release_with_fee_at-here r.token who a rate e marked k)
      ]
]

record_release-IsKept :
    (r : EventRecord) (who : Address) (m : ℕ) (a : ℤ) (st : Option Standing) (e : Env) (s : State)
    {s' : State}
    → record_release r who m a st e s ≡ ok (tt, s')
    → rows s.here ≤ u32_max
    → IsKept 1 s.here s'.here
unfolding record_release release_owed
record_release-IsKept r who m a none e s h room = record {
  grows = ground arith;
  bound = ground arith;
  row = λ i below. inl (ground arith);
  award = λ q b there. ground arith;
  fresh = λ q b there. inl (ground arith);
}
record_release-IsKept r who m a (some st) e s h room = record {
  grows = ground arith;
  bound = ground arith;
  row = λ i below. inl (ground arith);
  award = λ q b there. ground arith;
  fresh = λ q b there. inl (ground arith);
}

claim_milestone-IsKept :
    (id : ℕ) (who : Address) (m bump : ℕ) (op : OpId) (e : Env) (s : State) {s' : State}
    → claim_milestone id who m bump op e s ≡ ok (tt, s')
    → rows (s.events id) ≤ u32_max
    → IsKept 40 (s.events id) (s'.events id)
claim_milestone-IsKept id who m bump op e s {s'} h room =
    let (r, total, st, a, t, u, v, e0, k, k1, k2, kept, _) =
      claim_milestone-runs id who m bump op e s h in
    let due = milestone_due-Due r who m total e (load id s) k in
    let one =
      rw due.unchanged at
        (record_release-IsKept r who m a st e t k1 (ground (arith, due.unchanged))) in
    let two = disburse-SameRows id r who m a bump op e u k2 in
    let last : SameRows u.here (s'.events id) = ground (arith, two, kept) in
    IsKept-le (omega arith) (IsKept-trans one (IsKept-SameRows 0 u.here (s'.events id) last))

-- With room for 40 rows no call on an event takes a row or an award back.
pub handle-IsKept :
    (id : ℕ) (c : EventCall) (e : Env) (s : State) {s' : State}
    → IsCovered (s.events id)
    → rows (s.events id) + 40 ≤ u32_max
    → handle id c e s ≡ ok (tt, s')
    → IsKept 40 (s.events id) (s'.events id)
unfolding handle
handle-IsKept id (propose_manager_call m) e s c room h =
    IsKept-SameRows 40 _ _ (manager-SameRows id e s m h)
handle-IsKept id accept_manager_call e s c room h =
    IsKept-SameRows 40 _ _ (accept_manager-SameRows id e s h)
handle-IsKept id cancel_pending_manager_call e s c room h =
    IsKept-SameRows 40 _ _ (cancel_pending_manager-SameRows id e s h)
handle-IsKept id reclaim_management_call e s c room h =
    IsKept-SameRows 40 _ _ (reclaim_management-SameRows id e s h)
handle-IsKept id (add_funds_call from a op) e s c room h =
    IsKept-SameRows 40 _ _ (add_funds-SameRows id e s from a op h)
handle-IsKept id (start_cancel_call op) e s c room h =
    IsKept-SameRows 40 _ _ (start_cancel-SameRows id e s op h)
handle-IsKept id (process_cancel_batch_call n op) e s {s'} c room h =
    elim (Result-cases (process_cancel_batch id n op e s)) [
      | inr (inl (x, r)) ↦ absurd (ground arith)
      | inr (inr r) ↦ absurd (ground arith)
      | inl ((left, t), r) ↦
          let out : t ≡ s' = ground arith in
          let same = process_cancel_batch-SameRows id e s n op r in
          rw out at (IsKept-SameRows 40 (s.events id) (t.events id) same)
    ]
handle-IsKept id (finalize_cancel_call op) e s c room h =
    IsKept-SameRows 40 _ _ (finalize_cancel-SameRows id e s op h)
handle-IsKept id (claim_refund_call who op) e s c room h =
    IsKept-SameRows 40 _ _ (claim_refund-SameRows id e s who op h)
handle-IsKept id (select_winners_call ws op) e s c room h =
    select_winners-IsKept id ws op e s c room h
handle-IsKept id (claim_prize_call p op) e s c room h = claim_prize-IsKept id e s 40 p op h
handle-IsKept id (claim_milestone_call who m bump op) e s c room h =
    claim_milestone-IsKept id who m bump op e s h (omega (arith, room))
handle-IsKept id (forfeit_milestone_call who m op) e s c room h =
    IsKept-SameRows 40 _ _ (forfeit_milestone-SameRows id e s who m op h)
