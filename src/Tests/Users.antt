-- ===== src/Tests/Users.antt =====
-- A profile contract with one user, and calls on it.
use boundless_contract.Base.{
  ℕ, ◌+◌, ◌≤◌, ◌≡◌, refl, true, none, some, unwrap_or, List, [], ◌∷◌, ◌==◌, if◌then◌else◌, arith,
}
use boundless_contract.Base.Int.{pos, ◌<ℤ◌, checked_sub, checked_add, ◌+ℤ◌}
use boundless_contract.Types.{OpId}
use boundless_contract.Chain.{Env, State, ok}
use boundless_contract.EventOps.Claim.{claim_prize}
use boundless_contract.ProfileContract.Data.{ProfileState, UserProfile, PendingEventsContract}
use boundless_contract.Chain.{focus}
use boundless_contract.Escrow.{release}
use boundless_contract.Grant.Shares.{release_owed}
use boundless_contract.Profile.{report}
use boundless_contract.Idempotency.{derive_child, derive_child_indexed}
use boundless_contract.ProfileContract.Admin.{accept_events_contract}
use boundless_contract.ProfileContract.Scores.{bump, register}
use boundless_contract.ProfileContract.Requests.{
  ProfileRequest, run, serve, bootstrap_request, bump_reputation_request, register_earnings_request,
  accept_events_contract_request, pause_request,
}
use boundless_contract.ProfileContract.Requests.Book.{
  score, earned, IsBooked, run-IsBooked, reputation_of,
}
use boundless_contract.ProfileContract.Requests.Authority.{
  signed_by, bootstrapped_at-serve, earnings-serve,
}
use boundless_contract.ProfileContract.Requests.Binding.{events_contract-serve}
use boundless_contract.ProfileLink.{deliver_all, claim_prize-credits}
use boundless_contract.Tests.Samples.{
  contract_address, admin_address, winner_address, token_address, host_at, ledger, after,
  bounty_event, prize, prize_row,
}

abbrev first_byte : List ℕ → OpId
first_byte [] = 0
first_byte (b ∷ bytes) = b

-- A host whose hash keeps the three calls of a payout apart.
abbrev host : Env
host = record (host_at 200 30000) { sha256 = first_byte }

abbrev newcomer : UserProfile
newcomer = record { bootstrapped_at = 10; reputation = 0 }

abbrev rotation : PendingEventsContract
rotation = record { target = 101; proposed_at_ledger = 5; expires_at_ledger = 150000 }

-- No user yet, and the events contract is bound.
abbrev no_users : ProfileState
no_users = record {
  admin = some admin_address;
  pending_admin = none;
  events_contract = some contract_address;
  pending_events_contract = some rotation;
  paused = none;
  profile = λ _. none;
  earnings_by_token = λ _ _. none;
  version = none;
  pending_upgrade = none;
  migrated_to_version = none;
  op_seen = λ _ _. none;
  executable = 0;
  published = [];
}

abbrev users : ProfileState
users = record no_users { profile = λ u. if u == winner_address then some newcomer else none }

abbrev reached : ProfileRequest → ProfileState
reached r = elim (serve r host users) [ ok (_, s) ↦ s | _ ↦ users ]

abbrev praise : ProfileRequest
praise = bump_reputation_request winner_address 40 [] 8

abbrev income : ProfileRequest
income = register_earnings_request winner_address token_address (pos 70) 9

abbrev calls : List (Env × ProfileRequest)
calls =
    (host, bootstrap_request winner_address 7)
    ∷ (host, praise)
    ∷ (host, income)
    ∷ (host, income)
    ∷ (host, pause_request)
    ∷ []

run-IsBooked_example : IsBooked winner_address token_address (run calls no_users)
unfolding score earned
run-IsBooked_example =
    run-IsBooked winner_address token_address calls no_users
      (record { reputation = refl; earnings = refl })

bootstrapped_at-serve_example :
    (p' : UserProfile) × ((reached praise).profile winner_address ≡ some p')
    × (p'.bootstrapped_at ≡ newcomer.bootstrapped_at)
unfolding serve bump
bootstrapped_at-serve_example =
    bootstrapped_at-serve winner_address praise host users newcomer {s' = reached praise} refl refl

earnings-serve_example : (signed_by host users.events_contract ≡ true) × (pos 0 <ℤ pos 70)
unfolding serve register checked_add ◌+ℤ◌
earnings-serve_example =
    earnings-serve winner_address token_address income host users {s' = reached income} refl
      (ground arith)

events_contract-serve_example :
    (p : PendingEventsContract) × (some rotation ≡ some p)
    × (p.target ≡ 101)
    × (p.proposed_at_ledger + 17280 ≤ 30000)
    × (30000 ≤ p.expires_at_ledger)
    × (signed_by host users.admin ≡ true)
unfolding serve accept_events_contract
events_contract-serve_example =
    events_contract-serve accept_events_contract_request host users contract_address 101
      {s' = reached accept_events_contract_request} refl refl refl (ground arith) (omega arith)

abbrev claimed : State
claimed = after (claim_prize 7 1 9) host ledger

claim_prize-credits_example :
    (reputation_of ((deliver_all host claimed.profile_calls no_users).profile winner_address)
      ≡ some 5)
    × (unwrap_or
          ((deliver_all host claimed.profile_calls no_users).earnings_by_token winner_address
            token_address)
          (pos 0)
        ≡ pos 100)
unfolding claim_prize focus release release_owed report derive_child derive_child_indexed
    checked_sub
claim_prize-credits_example =
    claim_prize-credits 7 1 9 host ledger bounty_event prize prize_row 60 100 0 no_users
      {s' = claimed} refl refl refl refl refl (omega arith) refl refl
      (record {
        bound = refl;
        unpaused = refl;
        fresh_i = refl;
        fresh_j = refl;
        fresh_k = refl;
        apart_ij = ground arith;
        apart_ik = ground arith;
        apart_jk = ground arith;
      })
      refl (omega arith)
