-- ===== src/Tests/Keys.antt =====
-- Two rotations, of the admin and of the release validator, as calls on the whole contract.
use boundless_contract.Base.{◌≡◌, refl, some}
use boundless_contract.Host.{ok}
use boundless_contract.Chain.{State, Env}
use boundless_contract.Admin.Rotation.{
  set_admin, accept_admin, propose_release_validator, accept_release_validator,
}
use boundless_contract.EventOps.Solvency.Upkeep.{IsSolvent}
use boundless_contract.EntryPoints.{
  ContractCall, admin_call, set_admin_call, accept_admin_call, propose_release_validator_call,
  accept_release_validator_call, administer, perform, kept,
}
use boundless_contract.EntryPoints.Keys.{
  AdminStep, ProposalStep, ValidatorStep, perform-admin, perform-release_validator,
}
use boundless_contract.Tests.Samples.{host_at, ledger, admin_address}
use boundless_contract.Tests.Accounts.{ledger-IsSolvent}

abbrev second : Env
second = host_at 2000 20000

abbrev done : ContractCall → Env → State → State
done c e s = kept s (perform c e s)

-- The admin proposes 9, who accepts; and 8 as the validator, who accepts.
abbrev nominated : State
nominated = done (admin_call (set_admin_call 9)) (host_at 1000 500) ledger

abbrev validator_proposed : State
validator_proposed = done (admin_call (propose_release_validator_call 8)) (host_at 1000 500) ledger

nominated-IsSolvent : IsSolvent nominated
unfolding perform administer set_admin
nominated-IsSolvent = record {
  covered = ledger-IsSolvent.covered;
  unborn = ledger-IsSolvent.unborn;
  range = ledger-IsSolvent.range;
}

validator_proposed-IsSolvent : IsSolvent validator_proposed
unfolding perform administer propose_release_validator
validator_proposed-IsSolvent = record {
  covered = ledger-IsSolvent.covered;
  unborn = ledger-IsSolvent.unborn;
  range = ledger-IsSolvent.range;
}

acceptance-ok :
    perform (admin_call accept_admin_call) second nominated
    ≡ ok (tt, done (admin_call accept_admin_call) second nominated)
unfolding perform administer set_admin accept_admin
acceptance-ok = refl

nominated_admin : nominated.config.admin ≡ some admin_address
unfolding perform administer set_admin
nominated_admin = refl

perform-admin_example :
    AdminStep second nominated admin_address (done (admin_call accept_admin_call) second nominated)
    × ProposalStep second nominated nominated.config.pending_admin
        (done (admin_call accept_admin_call) second nominated).config.pending_admin
perform-admin_example =
    perform-admin (admin_call accept_admin_call) second nominated admin_address nominated-IsSolvent
      nominated_admin acceptance-ok

validation-ok :
    perform (admin_call accept_release_validator_call) second validator_proposed
    ≡ ok (tt, done (admin_call accept_release_validator_call) second validator_proposed)
unfolding perform administer propose_release_validator accept_release_validator
validation-ok = refl

proposed_admin : validator_proposed.config.admin ≡ some admin_address
unfolding perform administer propose_release_validator
proposed_admin = refl

perform-release_validator_example :
    ValidatorStep second validator_proposed admin_address
      (done (admin_call accept_release_validator_call) second validator_proposed)
    × ProposalStep second validator_proposed validator_proposed.config.pending_release_validator
        (done
          (admin_call accept_release_validator_call)
          second
          validator_proposed).config.pending_release_validator
perform-release_validator_example =
    perform-release_validator (admin_call accept_release_validator_call) second validator_proposed
      admin_address validator_proposed-IsSolvent proposed_admin validation-ok
