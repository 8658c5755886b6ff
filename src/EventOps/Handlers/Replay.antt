-- ===== src/EventOps/Handlers/Replay.antt =====
-- contracts/events/src/idempotency.rs in the handlers of an event: an operation id works once for the
-- address that it is counted under.
use boundless_contract.Base.{ℕ, ◌≡◌, true, false, Option, none, some, arith}
use boundless_contract.Types.{Address, OpId, PrizeAward}
use boundless_contract.Chain.{lives, State, Env, EventData, EventRow, current, is_ok, focus}
use boundless_contract.Admin.Guards.{open_time}
use boundless_contract.EventOps.Funds.{add_funds}
use boundless_contract.EventOps.Cancel.{
  require_cancellable, start_cancel, process_cancel_batch, finalize_cancel, claim_refund,
}
use boundless_contract.EventOps.Select.{select_winners}
use boundless_contract.EventOps.Claim.{claim_prize}
use boundless_contract.Grant.Settle.{claim_milestone, require_claimable, forfeit_milestone}
use boundless_contract.EventOps.Handlers.{
  EventCall, handle, propose_manager_call, accept_manager_call, cancel_pending_manager_call,
  reclaim_management_call, add_funds_call, start_cancel_call, process_cancel_batch_call,
  finalize_cancel_call, claim_refund_call, select_winners_call, claim_prize_call,
  claim_milestone_call, forfeit_milestone_call,
}

abbrev pub owner_of : Option EventRow → Option Address
owner_of (some (current r)) = some r.owner
owner_of _ = none

abbrev pub manager_of : EventData → Option Address
manager_of d = elim d.manager [ none ↦ owner_of d.event | some m ↦ some m ]

abbrev pub awardee_of : Option PrizeAward → Option Address
awardee_of none = none
awardee_of (some a) = some a.recipient

-- The operation id of a call, and the address that it is counted under.
abbrev pub op_of : EventCall → Option OpId
op_of (add_funds_call from a op) = some op
op_of (start_cancel_call op) = some op
op_of (process_cancel_batch_call n op) = some op
op_of (finalize_cancel_call op) = some op
op_of (claim_refund_call c op) = some op
op_of (select_winners_call ws op) = some op
op_of (claim_prize_call p op) = some op
op_of (claim_milestone_call who m bump op) = some op
op_of (forfeit_milestone_call who m op) = some op
op_of _ = none

abbrev pub domain_of : Env → EventData → EventCall → Option Address
domain_of e d (add_funds_call from a op) = some from
domain_of e d (start_cancel_call op) = manager_of d
domain_of e d (process_cancel_batch_call n op) = some e.current_contract_address
domain_of e d (finalize_cancel_call op) = some e.current_contract_address
domain_of e d (claim_refund_call c op) = some c
domain_of e d (select_winners_call ws op) = manager_of d
domain_of e d (claim_prize_call p op) = awardee_of (d.prize_award p)
domain_of e d (claim_milestone_call who m bump op) = owner_of d.event
domain_of e d (forfeit_milestone_call who m op) = owner_of d.event
domain_of e d _ = none

-- A call with an operation id that is seen under its address never succeeds.
pub handle_replayed :
    (id : ℕ) (c : EventCall) (e : Env) (s : State) (who : Address) (op : OpId)
    → op_of c ≡ some op
    → domain_of e (s.events id) c ≡ some who
    → lives e (s.op_seen who op) ≡ true
    → is_ok (handle id c e s) ≡ false
unfolding handle add_funds start_cancel require_cancellable open_time process_cancel_batch
    finalize_cancel claim_refund select_winners claim_prize claim_milestone require_claimable
    forfeit_milestone focus
handle_replayed id (propose_manager_call m) e s who op h k seen = ground arith
handle_replayed id accept_manager_call e s who op h k seen = ground arith
handle_replayed id cancel_pending_manager_call e s who op h k seen = ground arith
handle_replayed id reclaim_management_call e s who op h k seen = ground arith
handle_replayed id (add_funds_call from a op') e s who op h k seen = ground arith
handle_replayed id (start_cancel_call op') e s who op h k seen = ground arith
handle_replayed id (process_cancel_batch_call n op') e s who op h k seen = ground arith
handle_replayed id (finalize_cancel_call op') e s who op h k seen = ground arith
handle_replayed id (claim_refund_call c op') e s who op h k seen = ground arith
handle_replayed id (select_winners_call ws op') e s who op h k seen = ground arith
handle_replayed id (claim_prize_call p op') e s who op h k seen = ground arith
handle_replayed id (claim_milestone_call r m bump op') e s who op h k seen = ground arith
handle_replayed id (forfeit_milestone_call r m op') e s who op h k seen = ground arith
