-- ===== src/EventOps/Solvency/Calls.antt =====
-- The calls that change an event keep what is owed within its escrow, in any sequence.
use boundless_contract.Chain.Steady.{IsMarked, IsMarked-none}
use boundless_contract.EventOps.Handlers.Replay.{op_of, domain_of}
use boundless_contract.Base.{ℕ, ◌≡◌, arith, inl, inr, none, false}
use boundless_contract.Host.{ok, Result-cases, is_ok}
use boundless_contract.Chain.{State, Env, focus}
use boundless_contract.EventOps.Cancel.{
  start_cancel, process_cancel_batch, finalize_cancel, claim_refund,
}
use boundless_contract.EventOps.Manager.{
  propose_manager, accept_manager, cancel_pending_manager, reclaim_management,
}
use boundless_contract.EventOps.Funds.{add_funds}
use boundless_contract.EventOps.Select.{select_winners}
use boundless_contract.EventOps.Claim.{claim_prize}
use boundless_contract.Grant.Settle.{claim_milestone, forfeit_milestone}
use boundless_contract.EventOps.Handlers.Steady.{
  propose_manager-IsSteady, accept_manager-IsSteady, cancel_pending_manager-IsSteady,
  reclaim_management-IsSteady, claim_refund-IsMarked, finalize_cancel-IsMarked,
  start_cancel-IsMarked, forfeit_milestone-IsMarked, claim_prize-IsMarked, add_funds-IsMarked,
}
use boundless_contract.EventOps.Handlers.{
  EventCall, handle, propose_manager_call, accept_manager_call, cancel_pending_manager_call,
  reclaim_management_call, add_funds_call, start_cancel_call, process_cancel_batch_call,
  finalize_cancel_call, claim_refund_call, select_winners_call, claim_prize_call,
  claim_milestone_call, forfeit_milestone_call,
}
use boundless_contract.EventOps.Solvency.{IsCovered}
use boundless_contract.EventOps.Solvency.Keeping.{
  IsCovered-Same, start_cancel-IsCovered, finalize_cancel-IsCovered, claim_refund-IsCovered,
  propose_manager-Same, accept_manager-Same, cancel_pending_manager-Same, reclaim_management-Same,
}
use boundless_contract.EventOps.Solvency.Refunding.{process_cancel_batch-Same}
use boundless_contract.EventOps.Solvency.Funding.{add_funds-IsCovered}
use boundless_contract.EventOps.Solvency.Selecting.{
  select_winners-IsMarked, select_winners-IsCovered,
}
use boundless_contract.EventOps.Solvency.Paying.{claim_prize-IsCovered}
use boundless_contract.EventOps.Solvency.Milestones.{forfeit_milestone-IsCovered}
use boundless_contract.EventOps.Solvency.Releases.{
  claim_milestone-IsMarked, claim_milestone-IsCovered,
}

-- Every call that changes an event keeps what it owes to winners within its escrow: if the owed total
-- is at most what may be reserved before the call, it is so after it.
pub handle-IsCovered :
    (id : ℕ) (c : EventCall) (e : Env) (s : State) {s' : State}
    → IsCovered (s.events id)
    → handle id c e s ≡ ok (tt, s')
    → IsCovered (s'.events id)
unfolding handle
handle-IsCovered id (propose_manager_call m) e s {s'} c h =
    IsCovered-Same (s.events id) (s'.events id) (propose_manager-Same id e s m h) c
handle-IsCovered id accept_manager_call e s {s'} c h =
    IsCovered-Same (s.events id) (s'.events id) (accept_manager-Same id e s h) c
handle-IsCovered id cancel_pending_manager_call e s {s'} c h =
    IsCovered-Same (s.events id) (s'.events id) (cancel_pending_manager-Same id e s h) c
handle-IsCovered id reclaim_management_call e s {s'} c h =
    IsCovered-Same (s.events id) (s'.events id) (reclaim_management-Same id e s h) c
handle-IsCovered id (add_funds_call from a op) e s c h = add_funds-IsCovered id from a op e s h c
handle-IsCovered id (start_cancel_call op) e s c h = start_cancel-IsCovered id op e s c h
handle-IsCovered id (process_cancel_batch_call n op) e s {s'} c h =
    elim (Result-cases (process_cancel_batch id n op e s)) [
      | inr (inl (x, r)) ↦ absurd (ground arith)
      | inr (inr r) ↦ absurd (ground arith)
      | inl ((left, t), r) ↦
          let (same, _) = process_cancel_batch-Same id n op e s r in
          let out : t ≡ s' = ground arith in
          rw out at (IsCovered-Same (s.events id) (t.events id) same c)
    ]
handle-IsCovered id (finalize_cancel_call op) e s c h = finalize_cancel-IsCovered id op e s c h
handle-IsCovered id (claim_refund_call who op) e s c h = claim_refund-IsCovered id op e s who c h
handle-IsCovered id (select_winners_call ws op) e s c h = select_winners-IsCovered id ws op e s h c
handle-IsCovered id (claim_prize_call p op) e s c h = claim_prize-IsCovered id p op e s c h
handle-IsCovered id (claim_milestone_call who m bump op) e s c h =
    claim_milestone-IsCovered id who m bump op e s h c
handle-IsCovered id (forfeit_milestone_call who m op) e s c h =
    forfeit_milestone-IsCovered id who m op e s h c

-- A call leaves the configuration and the token list as they were, and marks its operation id under the
-- address that it is counted under, if it has one, and no other.
pub handle-IsMarked :
    (id : ℕ) (c : EventCall) (e : Env) (s : State) {s' : State}
    → IsCovered (s.events id)
    → handle id c e s ≡ ok (tt, s')
    → IsMarked e (domain_of e (s.events id) c) (op_of c) s s'
unfolding handle
handle-IsMarked id (propose_manager_call m) e s c h =
    IsMarked-none (propose_manager-IsSteady id e s m h)
handle-IsMarked id accept_manager_call e s c h = IsMarked-none (accept_manager-IsSteady id e s h)
handle-IsMarked id cancel_pending_manager_call e s c h =
    IsMarked-none (cancel_pending_manager-IsSteady id e s h)
handle-IsMarked id reclaim_management_call e s c h =
    IsMarked-none (reclaim_management-IsSteady id e s h)
handle-IsMarked id (add_funds_call from a op) e s c h = add_funds-IsMarked id e s from a op h
handle-IsMarked id (start_cancel_call op) e s c h = start_cancel-IsMarked id e s op h
handle-IsMarked id (process_cancel_batch_call n op) e s {s'} c h =
    elim (Result-cases (process_cancel_batch id n op e s)) [
      | inr (inl (x, r)) ↦ absurd (ground arith)
      | inr (inr r) ↦ absurd (ground arith)
      | inl ((left, t), r) ↦
          let (_, marks) = process_cancel_batch-Same id n op e s r in
          let out : t ≡ s' = ground arith in rw out at marks
    ]
handle-IsMarked id (finalize_cancel_call op) e s c h = finalize_cancel-IsMarked id e s op h
handle-IsMarked id (claim_refund_call who op) e s c h = claim_refund-IsMarked id e s who op h
handle-IsMarked id (select_winners_call ws op) e s c h = select_winners-IsMarked id ws op e s h c
handle-IsMarked id (claim_prize_call p op) e s c h = claim_prize-IsMarked id e s p op h
handle-IsMarked id (claim_milestone_call who m bump op) e s c h =
    claim_milestone-IsMarked id who m bump op e s h
handle-IsMarked id (forfeit_milestone_call who m op) e s c h =
    forfeit_milestone-IsMarked id e s who m op h

-- No call works on an event that was not created.
pub handle_unborn :
    (id : ℕ) (c : EventCall) (e : Env) (s : State)
    → (s.events id).event ≡ none
    → is_ok (handle id c e s) ≡ false
unfolding handle propose_manager accept_manager cancel_pending_manager reclaim_management add_funds
    start_cancel process_cancel_batch finalize_cancel claim_refund select_winners claim_prize
    claim_milestone forfeit_milestone focus
handle_unborn id c e s h = ground arith
