-- ===== src/Tests/Prizes.antt =====
-- Prizes that are claimed, and a batch that is selected.
use boundless_contract.Base.{⊤, ◌-◌, ◌+◌, ◌≤◌, ◌≡◌, refl, true, some, List, [], arith, All}
use boundless_contract.Base.Int.{ℤ, pos, negsuc, ◌-ℤ◌, ◌+ℤ◌, checked_add, checked_sub}
use boundless_contract.Types.{EventRecord, Winner, WinnerSpec, PrizeAward}
use boundless_contract.Chain.{Call, Env, State, ok, is_ok, focus, current, load}
use boundless_contract.Custody.{balance}
use boundless_contract.Escrow.{release}
use boundless_contract.Idempotency.{derive_child, derive_child_indexed}
use boundless_contract.Profile.{report}
use boundless_contract.Grant.Shares.{release_owed}
use boundless_contract.Grant.Settle.{paid_out}
use boundless_contract.EventOps.Claim.{claim_prize}
use boundless_contract.EventOps.Claim.Settled.{Claimed, claim_prize-Claimed}
use boundless_contract.EventOps.Claim.Money.{claim_prize-balance, claim_prize-succeeds}
use boundless_contract.EventOps.Select.{
  select_single, single_total, reserve, record_prizes, award_prizes, extend_window, check_positions,
}
use boundless_contract.EventOps.Select.Awards.{IsDistinct, AreAwarded, check_positions-IsDistinct}
use boundless_contract.EventOps.Select.Prizes.{IsPayable, select_single-reserves}
use boundless_contract.Tests.Samples.{
  host_at, ledger, after, prize_row, prize, bounty_event, contract_address, token_address,
  awarded_bounty, more_winners,
}

abbrev host : Env
host = host_at 1000 500

abbrev claim : Call ⊤
claim = claim_prize 7 1 77

abbrev paid : State
paid = after claim host ledger

claim-ok : claim host ledger ≡ ok (tt, paid)
unfolding claim_prize focus release release_owed report derive_child derive_child_indexed
    checked_sub ◌-ℤ◌
claim-ok = refl

paid-transfers : balance token_address contract_address paid.transfers ≡ negsuc 99
unfolding claim_prize focus release release_owed report derive_child derive_child_indexed
    checked_sub ◌-ℤ◌ ◌+ℤ◌ balance
paid-transfers = refl

claim_prize-Claimed_example :
    (r : EventRecord) × (a : PrizeAward) × (w : Winner) × (left : ℤ) × Claimed 7 1 77 host ledger
      paid r a w left
claim_prize-Claimed_example = claim_prize-Claimed 7 1 77 host ledger claim-ok

claim_prize-balance_example :
    (balance token_address contract_address paid.transfers
      ≡ balance token_address contract_address [] -ℤ pos 100)
    × ((paid_out bounty_event (pos 100)).remaining_escrow ≡ pos (1000 - 100))
    × ((paid.events 7).event ≡ some (current (paid_out bounty_event (pos 100))))
    × ((paid.events 7).owed_total ≡ some (pos (100 - 100)))
    × (100 - 100 ≤ 1000 - 100)
claim_prize-balance_example =
    claim_prize-balance 7 1 77 host ledger bounty_event prize prize_row 1000 100 100 claim-ok refl
      refl refl refl (omega arith) refl (omega arith) refl (ground arith)

claim_prize-succeeds_example : is_ok (claim_prize 7 1 77 host ledger) ≡ true
claim_prize-succeeds_example =
    claim_prize-succeeds 7 1 77 host ledger bounty_event prize prize_row 60 1000 100 100 refl refl
      refl refl refl refl refl refl refl refl refl (omega arith) refl (omega arith) refl
      (omega arith) (omega arith) refl refl refl

abbrev batch : List WinnerSpec
batch = more_winners

abbrev here : State
here = load 7 ledger

abbrev selection : Call ⊤
selection = select_single bounty_event batch 1 1000

selection-ok : selection host here ≡ ok (tt, after selection host here)
unfolding select_single single_total reserve record_prizes award_prizes extend_window checked_add
    ◌+ℤ◌
selection-ok = refl

select_single-reserves_example :
    All (IsPayable awarded_bounty bounty_event.prize_floors) batch
    × ((after selection host here).here.owed_total ≡ some (pos (250 + 100)))
    × (250 + 100 ≤ 1000)
    × AreAwarded 1 batch (after selection host here).here
    × ((after selection host here).transfers ≡ [])
select_single-reserves_example =
    select_single-reserves bounty_event batch 1 1000 100 1000 host here refl refl refl (omega arith)
      (refl, (refl, tt)) selection-ok

positions-ok : check_positions [] batch host here ≡ ok (tt, here)
unfolding check_positions
positions-ok = refl

check_positions-IsDistinct_example : IsDistinct batch
check_positions-IsDistinct_example = check_positions-IsDistinct batch host here positions-ok
