-- ===== src/Tests/Refunds.antt =====
-- A contribution, and a cancellation in pages of an event with two contributors.
use boundless_contract.Base.{
  ⊤, ◌≡◌, refl, none, some, ◌==◌, if◌then◌else◌, arith, inl, inr, Bool-cases,
}
use boundless_contract.Base.Int.{pos, ◌-ℤ◌, ◌≤ℤ◌, saturating_mul}
use boundless_contract.Types.{CancellationState, pro_rata_partners}
use boundless_contract.Host.{ok}
use boundless_contract.Chain.{Call, State, EventData, focus, current}
use boundless_contract.Escrow.{release, try_release, deposit_with_fee_at, compute_fee_at}
use boundless_contract.Admin.Guards.{open_time}
use boundless_contract.Storage.People.{append_contributor}
use boundless_contract.EventOps.Funds.{
  add_funds, take_contribution, deposit, get_or_init_non_owner_total,
}
use boundless_contract.EventOps.Cancel.{
  start_cancel, process_cancel_batch, finalize_cancel, require_cancellable, choose_branch,
  cancel_in_pages, refund_batch, refund_contributor, refund, refund_owner, pro_rata, owner_residual,
}
use boundless_contract.EventOps.Cancel.Payouts.{owned}
use boundless_contract.EventOps.Cancel.Payouts.Whole.{no_batch, batch, cancel_within_escrow}
use boundless_contract.EventOps.Contributors.{IsFunded}
use boundless_contract.EventOps.Contributors.Sums.{sum_range}
use boundless_contract.EventOps.Contributors.Giving.{add_funds-IsFunded}
use boundless_contract.Tests.Samples.{
  host_at, ledger, after, blank, bounty_event, token_address, contract_address,
}

-- 1,000 units are left of contributions of 500 and 1,000.
abbrev funded : EventData
funded = record blank {
  event = some (current bounty_event);
  contributor_count = some 2;
  contributor_at = λ i. if i == 0 then some 5 else if i == 1 then some 6 else none;
  contributor_slot = λ a. if a == 5 then some 1 else if a == 6 then some 2 else none;
  contributor_amount =
      λ a. if a == 5 then some (pos 500) else if a == 6 then some (pos 1000) else none;
  non_owner_contribution_total = some (pos 1500);
}

funded-IsFunded : IsFunded funded
unfolding sum_range
funded-IsFunded = record {
  register = record {
    entries = λ i below. elim (Bool-cases (i == 0)) [
      | inl first ↦ (5, ground arith, ground arith)
      | inr second ↦ (6, ground (arith, below), ground (arith, below))
    ];
    slots = λ a there. ground (arith, there);
  };
  given = λ a. ground arith;
  strangers = λ a new. ground (arith, new);
  total = omega arith;
  covers = omega arith;
}

abbrev funded_ledger : State
funded_ledger = record ledger { events = λ id. if id == 7 then funded else blank }

abbrev give : Call ⊤
give = add_funds 7 8 (pos 200000000) 77

give-ok : give (host_at 100 10) funded_ledger ≡ ok (tt, after give (host_at 100 10) funded_ledger)
unfolding add_funds take_contribution deposit get_or_init_non_owner_total append_contributor focus
    deposit_with_fee_at compute_fee_at saturating_mul
give-ok = refl

add_funds-IsFunded_example : IsFunded ((after give (host_at 100 10) funded_ledger).events 7)
add_funds-IsFunded_example =
    add_funds-IsFunded 7 8 (pos 200000000) 77 (host_at 100 10) funded_ledger give-ok funded-IsFunded
      (omega arith)

abbrev started : State
started = after (start_cancel 7 77) (host_at 100 10) funded_ledger

abbrev refunded : State
refunded = after (process_cancel_batch 7 15 78) (host_at 200 20) started

abbrev finished : State
finished = after (finalize_cancel 7 79) (host_at 300 30) refunded

start-ok : start_cancel 7 77 (host_at 100 10) funded_ledger ≡ ok (tt, started)
unfolding start_cancel require_cancellable open_time focus choose_branch get_or_init_non_owner_total
    cancel_in_pages
start-ok = refl

batch-ok : process_cancel_batch 7 15 78 (host_at 200 20) started ≡ ok (0, refunded)
unfolding start_cancel require_cancellable open_time focus choose_branch get_or_init_non_owner_total
    cancel_in_pages process_cancel_batch refund_batch refund_contributor refund try_release pro_rata
    saturating_mul
batch-ok = refl

finish-ok : finalize_cancel 7 79 (host_at 300 30) refunded ≡ ok (tt, finished)
unfolding start_cancel require_cancellable open_time focus choose_branch get_or_init_non_owner_total
    cancel_in_pages process_cancel_batch refund_batch refund_contributor refund try_release pro_rata
    saturating_mul finalize_cancel refund_owner owner_residual release
finish-ok = refl

abbrev progress : CancellationState
progress = record {
  non_owner_total = pos 1500;
  remaining_at_start = pos 1000;
  count_at_start = 2;
  next_idx = 0;
  branch = pro_rata_partners;
}

progress-stored : (started.events 7).cancellation_state ≡ some progress
unfolding start_cancel require_cancellable open_time focus choose_branch get_or_init_non_owner_total
    cancel_in_pages
progress-stored = refl

cancel_within_escrow_example :
    owned token_address contract_address funded_ledger funded -ℤ pos 1000
    ≤ℤ owned token_address contract_address finished (finished.events 7)
cancel_within_escrow_example =
    cancel_within_escrow 7 77 79 (host_at 100 10) (host_at 300 30) funded_ledger started refunded
      finished bounty_event progress 1000 funded-IsFunded refl refl (omega arith) (omega arith)
      start-ok progress-stored (batch (host_at 200 20) 15 0 78 refunded refl batch-ok no_batch) refl
      finish-ok
