-- ===== src/Tests/Calls.antt =====
-- Calls on the whole contract: a claim that is repeated, a read, and tokens that come and go.
use boundless_contract.Base.{◌≢◌, ◌+◌, ◌^◌, ◌≡◌, refl, false, some, List, [], ◌∷◌, arith}
use boundless_contract.Types.{EventRecord}
use boundless_contract.Host.{ok, is_ok}
use boundless_contract.Chain.{State, Env, focus}
use boundless_contract.Escrow.{release, compute_fee_at}
use boundless_contract.Idempotency.{derive_child, derive_child_indexed}
use boundless_contract.Profile.{report}
use boundless_contract.Base.Int.{checked_add, saturating_mul, checked_sub, ◌-ℤ◌}
use boundless_contract.Grant.Shares.{release_owed}
use boundless_contract.Storage.Tokens.{append_supported_token, remove_supported_token, move_last}
use boundless_contract.Admin.Setup
use boundless_contract.Storage.Tokens.Listed.{IsListed, registered}
use boundless_contract.EventOps.Create.{create_event}
use boundless_contract.EventOps.Reads.Created.{IsOf, create_event-get_event}
use boundless_contract.EventOps.Claim.{claim_prize}
use boundless_contract.EventOps.Handlers.{handle, claim_prize_call}
use boundless_contract.EventOps.Reads as Event
use boundless_contract.EntryPoints.{
  ContractCall, admin_call, create_call, event_call, register_supported_token_call,
  deregister_supported_token_call, administer, perform, kept, history,
}
use boundless_contract.EventOps.Rows.{IsAnchored}
use boundless_contract.EntryPoints.Claims.{claim_prize_once}
use boundless_contract.EntryPoints.Once.{charged_to, perform_once}
use boundless_contract.EntryPoints.Tokens.{history-IsListed}
use boundless_contract.Tests.Samples.{after, host_at, ledger, token_address}
use boundless_contract.Tests.Accounts.{new_grant, ledger-IsSolvent}

abbrev claim : ContractCall
claim = event_call 7 (claim_prize_call 1 4)

abbrev claimed : State
claimed = kept ledger (perform claim (host_at 400 40) ledger)

claim-ok : perform claim (host_at 400 40) ledger ≡ ok (tt, claimed)
unfolding perform handle claim_prize focus release release_owed report derive_child
    derive_child_indexed checked_sub ◌-ℤ◌
claim-ok = refl

abbrev between : List (Env × ContractCall)
between =
    (host_at 430 43, admin_call (register_supported_token_call token_address))
    ∷ (host_at 450 45, create_call new_grant 1)
    ∷ []

-- The claim of position 1, two other calls, and the claim once more.
again-charged : charged_to (host_at 500 50) (history between claimed) claim ≡ some 4
unfolding history perform administer handle claim_prize create_event Setup.register
    append_supported_token focus release release_owed report derive_child derive_child_indexed
    checked_sub ◌-ℤ◌ checked_add compute_fee_at saturating_mul
again-charged = refl

perform_once_example : is_ok (perform claim (host_at 500 50) (history between claimed)) ≡ false
perform_once_example =
    perform_once claim claim between (host_at 400 40) (host_at 500 50) ledger 4 4 ledger-IsSolvent
      tt (tt, (omega arith, tt)) refl refl claim-ok (omega arith) refl again-charged

-- Two tokens are listed, and the first leaves.
abbrev tokens : List (Env × ContractCall)
tokens =
    (host_at 100 10, admin_call (register_supported_token_call token_address))
    ∷ (host_at 200 20, admin_call (register_supported_token_call 51))
    ∷ (host_at 300 30, admin_call (deregister_supported_token_call token_address))
    ∷ []

empty-IsListed : IsListed ledger.tokens
empty-IsListed = record {
  entries = λ i below. absurd (omega (arith, below));
  slots = λ t there. absurd (there refl);
  flags = λ t. refl;
}

history-IsListed_example : IsListed (history tokens ledger).tokens
history-IsListed_example =
    history-IsListed tokens ledger (tt, (tt, (tt, tt))) ledger-IsSolvent (ground arith)
      empty-IsListed

-- What it comes to: the second token stands at the first place.
history_tokens : (history tokens ledger).tokens.at 0 ≡ some 51
unfolding history perform administer Setup.register Setup.deregister append_supported_token
    remove_supported_token move_last
history_tokens = refl

abbrev open_ledger : State
open_ledger = record ledger { tokens = registered token_address ledger.tokens }

create-ok :
    create_event new_grant 1 (host_at 100 10) open_ledger
    ≡ ok (2 ^ 32 + 1, after (create_event new_grant 1) (host_at 100 10) open_ledger)
unfolding create_event append_supported_token focus checked_add compute_fee_at saturating_mul
create-ok = refl

create_event-get_event_example :
    (r : EventRecord) × (u : State) × (Event.get_event
        (2 ^ 32 + 1)
        (host_at 200 20)
        (after (create_event new_grant 1) (host_at 100 10) open_ledger)
      ≡ ok (r, u))
    × IsOf new_grant 100 (2 ^ 32 + 1) r
create_event-get_event_example =
    create_event-get_event new_grant 1 (host_at 100 10) (host_at 200 20) open_ledger create-ok

claim_prize-ok : claim_prize 7 1 4 (host_at 400 40) ledger ≡ ok (tt, claimed)
unfolding perform handle claim_prize focus release release_owed report derive_child
    derive_child_indexed checked_sub ◌-ℤ◌
claim_prize-ok = refl

ledger-IsAnchored : IsAnchored (ledger.events 7)
ledger-IsAnchored q a there = ground (arith, there)

claim_prize_once_example :
    claim_prize 7 1 5 (host_at 500 50) (history between claimed) ≢ ok (tt, ledger)
claim_prize_once_example =
    claim_prize_once 7 1 4 5 (host_at 400 40) (host_at 500 50) ledger between ledger-IsSolvent
      (tt, (omega arith, tt)) ledger-IsAnchored (omega arith) claim_prize-ok
