-- ===== src/Tests/Settings.antt =====
-- Event ids, pauses, upgrades and rotations.
use boundless_contract.Base.{⊤, ℕ, ◌-◌, ◌+◌, ◌≤◌, ◌<◌, ◌≡◌, refl, some, none, [], ◌∷◌, arith}
use boundless_contract.Base.Int.{ℤ, pos, ◌-ℤ◌, ◌+ℤ◌, saturating_sub, saturating_mul}
use boundless_contract.Chain.{Call, Env, State, ok}
use boundless_contract.Custody.{balance}
use boundless_contract.Escrow.{compute_fee_at, deposit_with_fee_at, release_with_fee_at}
use boundless_contract.Escrow.Fees.{
  release_with_fee_at-balance, deposit_with_fee_at-balance, compute_fee_at_bounds,
}
use boundless_contract.Idempotency.{next_event_id}
use boundless_contract.Idempotency.Ids.{next_event_id_fresh}
use boundless_contract.Admin.Guards.{open_time}
use boundless_contract.Admin.Pause.{pause, unpause}
use boundless_contract.Admin.Pause.Clock.{open_time-pause, open_time_frozen}
use boundless_contract.Admin.Upgrade.{propose_upgrade, apply_upgrade}
use boundless_contract.Admin.Upgrade.Timelock.{apply_upgrade-propose_upgrade}
use boundless_contract.Tests.Samples.{
  host_at, ledger, after, contract_address, token_address, fee_address, owner_address,
  winner_address,
}

abbrev first : Env
first = host_at 1000 500

abbrev second : Env
second = host_at 1400 20000

abbrev third : Env
third = host_at 1500 20001

draw-ok : next_event_id first ledger ≡ ok (4294967297, after next_event_id first ledger)
unfolding next_event_id
draw-ok = refl

draw2-ok :
    next_event_id second (after next_event_id first ledger)
    ≡ ok (4294967298, after next_event_id second (after next_event_id first ledger))
unfolding next_event_id
draw2-ok = refl

stored-next : (after next_event_id first ledger).config.next_event_id ≡ some 4294967298
unfolding next_event_id
stored-next = refl

next_event_id_fresh_example : 4294967297 < 4294967298
next_event_id_fresh_example =
    next_event_id_fresh first second ledger (after next_event_id first ledger) 4294967297 4294967298
      4294967298 draw-ok stored-next (rw stored-next (omega arith)) draw2-ok

abbrev closed : State
closed = after pause first ledger

abbrev reopened : State
reopened = after unpause second closed

pause-ok : pause first ledger ≡ ok (tt, closed)
unfolding pause
pause-ok = refl

unpause-ok : unpause second closed ≡ ok (tt, reopened)
unfolding pause unpause
unpause-ok = refl

open_time-pause_example : open_time third reopened ≡ ok (1000 - 10 + (1500 - 1400), reopened)
open_time-pause_example =
    open_time-pause first second third ledger 10 refl refl (omega arith) (omega arith) (omega arith)
      (omega arith) pause-ok unpause-ok

open_time_frozen_example : open_time second closed ≡ ok (1000 - 10, closed)
open_time_frozen_example =
    open_time_frozen first second ledger 10 refl refl (omega arith) (omega arith) (omega arith)
      pause-ok

abbrev proposal : Call ⊤
proposal = propose_upgrade 9 (50 ∷ [])

abbrev proposed : State
proposed = after proposal first ledger

abbrev upgraded_ledger : State
upgraded_ledger = after apply_upgrade second proposed

proposal-ok : proposal first ledger ≡ ok (tt, proposed)
unfolding propose_upgrade
proposal-ok = refl

upgrade-ok : apply_upgrade second proposed ≡ ok (tt, upgraded_ledger)
unfolding propose_upgrade apply_upgrade
upgrade-ok = refl

apply_upgrade-propose_upgrade_example :
    (500 + 17280 ≤ 20000)
    × (20000 ≤ 500 + 518400)
    × (upgraded_ledger.executable ≡ 9)
    × (upgraded_ledger.config.version ≡ some (50 ∷ []))
    × (upgraded_ledger.config.pending_upgrade ≡ none)
apply_upgrade-propose_upgrade_example =
    apply_upgrade-propose_upgrade first second ledger proposed 9 (50 ∷ []) proposal-ok refl
      (omega arith) upgrade-ok

compute_fee_at_bounds_example : (f : ℕ) × (compute_fee_at (pos 1999) 250 ≡ pos f) × (f ≤ 1999)
compute_fee_at_bounds_example = compute_fee_at_bounds 1999 250 (omega arith)

abbrev deposit : Call ℤ
deposit = deposit_with_fee_at token_address owner_address (pos 1999) 250

deposit-ok : deposit first ledger ≡ ok (pos 1999, after deposit first ledger)
unfolding deposit_with_fee_at compute_fee_at saturating_mul
deposit-ok = refl

deposit_with_fee_at-balance_example :
    (balance token_address contract_address (after deposit first ledger).transfers
      ≡ balance token_address contract_address [] +ℤ pos 1999)
    × (pos 1999 ≡ pos 1999)
    × (after deposit first ledger
        ≡ record ledger { transfers = (after deposit first ledger).transfers })
deposit_with_fee_at-balance_example =
    deposit_with_fee_at-balance first ledger token_address owner_address fee_address 1999 250
      (omega arith) (omega arith) refl (ground arith) (ground arith) deposit-ok

abbrev payment : Call ⊤
payment = release_with_fee_at token_address winner_address (pos 1999) 250

payment-ok : payment first ledger ≡ ok (tt, after payment first ledger)
unfolding release_with_fee_at compute_fee_at saturating_mul saturating_sub
payment-ok = refl

release_with_fee_at-balance_example :
    (balance token_address contract_address (after payment first ledger).transfers
      ≡ balance token_address contract_address [] -ℤ pos 1999)
    × (after payment first ledger
        ≡ record ledger { transfers = (after payment first ledger).transfers })
release_with_fee_at-balance_example =
    release_with_fee_at-balance first ledger token_address winner_address fee_address 1999 250
      (omega arith) (omega arith) refl (ground arith) (ground arith) payment-ok
