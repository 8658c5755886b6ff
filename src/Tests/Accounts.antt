-- ===== src/Tests/Accounts.antt =====
-- A history of calls on the events contract.
use boundless_contract.Base.{ℕ, ◌≡◌, refl, none, List, [], ◌∷◌, ◌==◌, arith, inl, inr, Bool-cases}
use boundless_contract.Base.Int.{pos}
use boundless_contract.Types.{CreateEventParams, grant, multi}
use boundless_contract.Chain.{Env}
use boundless_contract.EventOps.Handlers.{add_funds_call, claim_prize_call, select_winners_call}
use boundless_contract.EventOps.Solvency.{IsCovered}
use boundless_contract.EventOps.Solvency.History.{history-IsSolvent}
use boundless_contract.EventOps.Solvency.Upkeep.{IsSolvent}
use boundless_contract.EntryPoints.{ContractCall, create_call, event_call, history}
use boundless_contract.Tests.Samples.{
  host_at, ledger, blank, awarded_bounty, more_winners, owner_address, token_address,
}

blank-IsCovered : IsCovered blank
blank-IsCovered = record {
  owed = omega arith;
  within = omega arith;
  escrow = omega arith;
  fits = omega arith;
  kind = refl;
}

awarded_bounty-IsCovered : IsCovered awarded_bounty
awarded_bounty-IsCovered = record {
  owed = omega arith;
  within = omega arith;
  escrow = omega arith;
  fits = omega arith;
  kind = refl;
}

ledger-IsCovered : (id : ℕ) → IsCovered (ledger.events id)
ledger-IsCovered id = elim (Bool-cases (id == 7)) [
  | inl held ↦
      let same : awarded_bounty ≡ ledger.events id = ground arith in
      rw same at awarded_bounty-IsCovered
  | inr other ↦ let same : blank ≡ ledger.events id = ground arith in rw same at blank-IsCovered
]

pub ledger-IsSolvent : IsSolvent ledger
ledger-IsSolvent = record {
  covered = ledger-IsCovered;
  unborn = λ id above. ground arith;
  range = λ h. ground (arith, h);
}

abbrev pub new_grant : CreateEventParams
new_grant = record {
  owner = owner_address;
  manager = none;
  pillar = grant;
  token = token_address;
  total_budget = pos 5000;
  release_kind = multi 3;
  content_uri = [];
  title = [];
  deadline = none;
  prize_floors = (1, pos 100) ∷ [];
  fee_bps_override = none;
}

-- A creation, a contribution, a selection, a claim, and the claim once more.
abbrev calls : List (Env × ContractCall)
calls =
    (host_at 100 10, create_call new_grant 1)
    ∷ (host_at 200 20, event_call 7 (add_funds_call 8 (pos 200000000) 2))
    ∷ (host_at 300 30, event_call 7 (select_winners_call more_winners 3))
    ∷ (host_at 400 40, event_call 7 (claim_prize_call 1 4))
    ∷ (host_at 500 50, event_call 7 (claim_prize_call 1 5))
    ∷ []

history-IsSolvent_example : IsSolvent (history calls ledger)
history-IsSolvent_example =
    history-IsSolvent calls ledger (omega arith, (tt, (tt, (tt, (tt, tt))))) ledger-IsSolvent
