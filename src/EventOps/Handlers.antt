-- ===== src/EventOps/Handlers.antt =====
-- contracts/events/src/lib.rs: the calls that change one event, and what all of them respect.
pub mod Replay
pub mod Steady
use boundless_contract.Base.{⊤, ℕ, ◌≡◌, ◌≢◌, inl, inr, true, List, arith, unwrap_or, false}
use boundless_contract.Base.Int.{ℤ}
use boundless_contract.Types.{Address, OpId, WinnerSpec, paused}
use boundless_contract.Chain.{Call, State, Env, ok, err, focus, pure, ◌>>◌}
use boundless_contract.Chain.Focus.{focus-events}
use boundless_contract.Host.{Result-cases}
use boundless_contract.EventOps.Manager.{
  propose_manager, accept_manager, cancel_pending_manager, reclaim_management,
}
use boundless_contract.EventOps.Funds.{add_funds}
use boundless_contract.EventOps.Cancel.{
  start_cancel, process_cancel_batch, finalize_cancel, claim_refund,
}
use boundless_contract.EventOps.Select.{select_winners}
use boundless_contract.EventOps.Claim.{claim_prize}
use boundless_contract.Grant.Settle.{claim_milestone, forfeit_milestone}

pub data EventCall : Type 0 where
  propose_manager_call : Address → EventCall
  accept_manager_call cancel_pending_manager_call reclaim_management_call : EventCall
  add_funds_call : Address → ℤ → OpId → EventCall
  start_cancel_call : OpId → EventCall
  process_cancel_batch_call : ℕ → OpId → EventCall
  finalize_cancel_call : OpId → EventCall
  claim_refund_call : Address → OpId → EventCall
  select_winners_call : List WinnerSpec → OpId → EventCall
  claim_prize_call : ℕ → OpId → EventCall
  claim_milestone_call : Address → ℕ → ℕ → OpId → EventCall
  forfeit_milestone_call : Address → ℕ → OpId → EventCall

-- The handler of a call on the event `id`, its result dropped.
unfoldable pub handle : ℕ → EventCall → Call ⊤
handle id (propose_manager_call m) = propose_manager id m
handle id accept_manager_call = accept_manager id
handle id cancel_pending_manager_call = cancel_pending_manager id
handle id reclaim_management_call = reclaim_management id
handle id (add_funds_call from a op) = add_funds id from a op
handle id (start_cancel_call op) = start_cancel id op
handle id (process_cancel_batch_call n op) = process_cancel_batch id n op >> pure tt
handle id (finalize_cancel_call op) = finalize_cancel id op
handle id (claim_refund_call c op) = claim_refund id c op
handle id (select_winners_call ws op) = select_winners id ws op
handle id (claim_prize_call p op) = claim_prize id p op
handle id (claim_milestone_call who m bump op) = claim_milestone id who m bump op
handle id (forfeit_milestone_call who m op) = forfeit_milestone id who m op

-- While the contract is paused every call on an event is refused with the error `paused`.
pub handle_paused :
    (id : ℕ) (c : EventCall) (e : Env) (s : State)
    → unwrap_or s.config.paused false ≡ true
    → handle id c e s ≡ err paused
unfolding handle propose_manager accept_manager cancel_pending_manager reclaim_management add_funds
    start_cancel process_cancel_batch finalize_cancel claim_refund select_winners claim_prize
    claim_milestone forfeit_milestone focus
handle_paused id c e s h = ground arith

-- A call on one event leaves the entries of every other event as they were.
pub handle-events :
    (id j : ℕ) (c : EventCall) (e : Env) (s : State) {s' : State}
    → handle id c e s ≡ ok (tt, s')
    → j ≢ id
    → s'.events j ≡ s.events j
unfolding handle propose_manager accept_manager cancel_pending_manager reclaim_management add_funds
    start_cancel process_cancel_batch finalize_cancel claim_refund select_winners claim_prize
    claim_milestone forfeit_milestone
handle-events id j (propose_manager_call m) e s h apart = focus-events id j _ e s h apart
handle-events id j accept_manager_call e s h apart = focus-events id j _ e s h apart
handle-events id j cancel_pending_manager_call e s h apart = focus-events id j _ e s h apart
handle-events id j reclaim_management_call e s h apart = focus-events id j _ e s h apart
handle-events id j (add_funds_call from a op) e s h apart = focus-events id j _ e s h apart
handle-events id j (start_cancel_call op) e s h apart = focus-events id j _ e s h apart
handle-events id j (process_cancel_batch_call n op) e s h apart =
    elim (Result-cases (process_cancel_batch id n op e s)) [
      | inl ((k, t), r) ↦ ground (arith, focus-events id j _ e s r apart)
      | inr (inl (x, r)) ↦ absurd (ground arith)
      | inr (inr r) ↦ absurd (ground arith)
    ]
handle-events id j (finalize_cancel_call op) e s h apart = focus-events id j _ e s h apart
handle-events id j (claim_refund_call c op) e s h apart = focus-events id j _ e s h apart
handle-events id j (select_winners_call ws op) e s h apart = focus-events id j _ e s h apart
handle-events id j (claim_prize_call p op) e s h apart = focus-events id j _ e s h apart
handle-events id j (claim_milestone_call who m bump op) e s h apart =
    focus-events id j _ e s h apart
handle-events id j (forfeit_milestone_call who m op) e s h apart = focus-events id j _ e s h apart
