-- ===== src/Tests/Cancelling.antt =====
-- Calls on one event among others, and an event that is being cancelled with two contributors.
use boundless_contract.Base.{
  ⊤, ℕ, ◌+◌, ◌-◌, ◌≤◌, ◌≡◌, refl, min, true, unwrap_or, ◌<◌, false, some, List, [], ◌∷◌, ◌==◌,
  if◌then◌else◌, arith, map,
}
use boundless_contract.Base.Int.{pos, ◌-ℤ◌}
use boundless_contract.Types.{CancellationState, cancelling, pro_rata_partners, paused}
use boundless_contract.Chain.{Call, Env, State, EventData, ok, is_ok, err, focus, current}
use boundless_contract.Escrow.{release}
use boundless_contract.EventOps.Cancel.{
  process_cancel_batch, claim_refund, start_cancel, require_cancellable, choose_branch,
  cancel_for_owner, refund_owner,
}
use boundless_contract.EventOps.Funds.{get_or_init_non_owner_total}
use boundless_contract.Admin.Guards.{open_time}
use boundless_contract.EventOps.Cancel.Window.{start_cancel_window}
use boundless_contract.EventOps.Cancel.Refunds.{claim_refund-balance}
use boundless_contract.Custody.{balance}
use boundless_contract.EventOps.Cancel.Batches.{process_cancel_batch-advanced, advanced, rounds}
use boundless_contract.EventOps.Cancel.ProRata.{shares_of, shares_of-le}
use boundless_contract.EventOps.Create.Split.{sum}
use boundless_contract.EventOps.Handlers.{handle, claim_prize_call, add_funds_call, handle_paused}
use boundless_contract.EventOps.Handlers.Replay.{handle_replayed}
use boundless_contract.Tests.Samples.{
  token_address, contract_address, host_at, ledger, after, settings, awarded_bounty, blank,
  bounty_event,
}

abbrev host : Env
host = host_at 1000 500

abbrev closed_ledger : State
closed_ledger = record ledger { config = record settings { paused = some true } }

handle_paused_example :
    handle 7 (add_funds_call 5 (pos 200000000) 77) host closed_ledger ≡ err paused
handle_paused_example =
    handle_paused 7 (add_funds_call 5 (pos 200000000) 77) host closed_ledger refl

-- 900 units are left of contributions of 500 and 1,000.
abbrev progress : CancellationState
progress = record {
  non_owner_total = pos 1500;
  remaining_at_start = pos 900;
  count_at_start = 2;
  next_idx = 0;
  branch = pro_rata_partners;
}

abbrev cancelling_event : EventData
cancelling_event = record awarded_bounty {
  event = some (current (record bounty_event { status = cancelling; remaining_escrow = pos 900 }));
  contributor_count = some 2;
  contributor_at = λ i. some (5 + i);
  contributor_amount = λ c. if c == 5 then some (pos 500) else some (pos 1000);
  non_owner_contribution_total = some (pos 1500);
  cancellation_state = some progress;
}

abbrev cancelling_ledger : State
cancelling_ledger = record ledger { events = λ id. if id == 7 then cancelling_event else blank }

process_cancel_batch-advanced_example :
    (s' : State) × (process_cancel_batch 7 1 77 host cancelling_ledger
      ≡ ok (2 - min (0 + rounds 1) 2, s'))
    × ((s'.events 7).cancellation_state ≡ some (advanced (rounds 1) progress))
process_cancel_batch-advanced_example =
    process_cancel_batch-advanced 7 1 77 host cancelling_ledger
      (record bounty_event { status = cancelling; remaining_escrow = pos 900 }) progress refl
      (omega arith) refl refl refl refl refl (omega arith) (omega arith)

shares_of-le_example :
    (xs : List ℕ) × (shares_of progress (map pos (500 ∷ 1000 ∷ [])) host ledger
      ≡ ok (map pos xs, ledger))
    × (sum xs ≤ 900)
shares_of-le_example =
    shares_of-le progress 900 1500 (500 ∷ 1000 ∷ []) host ledger refl refl (omega arith)
      (omega arith) (omega arith, (omega arith, tt))

abbrev used_ledger : State
used_ledger = record ledger { op_seen = λ _ _. some 600 }

-- The id 77 is seen for the winner, whose address is 4.
handle_replayed_example : is_ok (handle 7 (claim_prize_call 1 77) host used_ledger) ≡ false
handle_replayed_example =
    handle_replayed 7 (claim_prize_call 1 77) host used_ledger 4 77 refl refl refl

abbrev deferred_ledger : State
deferred_ledger = record ledger {
  events = λ id.
      if id == 7 then record cancelling_event { unclaimed_refund = λ _. some (pos 40) } else blank;
}

abbrev refund_claim : Call ⊤
refund_claim = claim_refund 7 5 77

abbrev refunded : State
refunded = after refund_claim host deferred_ledger

refund_claim-ok : refund_claim host deferred_ledger ≡ ok (tt, refunded)
unfolding claim_refund release focus
refund_claim-ok = refl

claim_refund-balance_example :
    (balance token_address contract_address refunded.transfers
      ≡ balance token_address contract_address [] -ℤ pos 40)
    × (unwrap_or ((refunded.events 7).unclaimed_refund 5) (pos 0) ≡ pos 0)
    × (0 < 40)
    × (host.authorized 5 ≡ true)
claim_refund-balance_example =
    claim_refund-balance 7 5 77 host deferred_ledger
      (record bounty_event { status = cancelling; remaining_escrow = pos 900 }) 40 refund_claim-ok
      refl refl (ground arith)

abbrev late : Env
late = host_at 9000 700

abbrev expired_ledger : State
expired_ledger = record ledger {
  events =
      λ id. if id == 7 then record awarded_bounty { prize_claim_expiry = some 5000 } else blank;
}

start-ok :
    start_cancel 7 77 late expired_ledger ≡ ok (tt, after (start_cancel 7 77) late expired_ledger)
unfolding start_cancel require_cancellable open_time focus choose_branch get_or_init_non_owner_total
    cancel_for_owner refund_owner release
start-ok = refl

late-clock : open_time late expired_ledger ≡ ok (8990, expired_ledger)
unfolding open_time
late-clock = refl

start_cancel_window_example : 5000 < 8990
start_cancel_window_example =
    start_cancel_window 7 77 late expired_ledger bounty_event 1 8990 start-ok refl refl refl
      (omega arith) late-clock
