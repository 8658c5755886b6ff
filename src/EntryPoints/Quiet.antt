-- ===== src/EntryPoints/Quiet.antt =====
-- What the calls of the administrator leave alone: the events, and the ids that they draw.
use boundless_contract.Base.{◌≡◌, ◌⊎◌, inl, inr, none, arith}
use boundless_contract.Host.{ok}
use boundless_contract.Chain.{State, Env}
use boundless_contract.Admin.Setup.{
  initialize, set_fee_account, set_profile_contract, set_fee_bps, register, deregister,
}
use boundless_contract.Admin.Rotation.{
  set_admin, accept_admin, propose_release_validator, accept_release_validator,
  cancel_pending_release_validator, clear_release_validator,
}
use boundless_contract.Admin.Pause.{pause, unpause}
use boundless_contract.Admin.Upgrade.{propose_upgrade, apply_upgrade, cancel_pending_upgrade}
use boundless_contract.Admin.Migrate.{migrate}
use boundless_contract.EntryPoints.{AdminCall, administer, constructor_call}

pub record IsQuiet (s t : State) : Type 0 where
  pub events : t.events ≡ s.events
  pub op_seen : t.op_seen ≡ s.op_seen
  pub transfers : t.transfers ≡ s.transfers
  pub next : t.config.next_event_id ≡ s.config.next_event_id
  pub range : (t.config.deployment_seq ≡ s.config.deployment_seq) ⊎ (s.config.admin ≡ none)
  pub admin :
      t.config.admin ≡ none
      → (s.config.admin ≡ none) × (t.config.deployment_seq ≡ s.config.deployment_seq)

pub administer-IsQuiet :
    (c : AdminCall) (e : Env) (s : State) {t : State} → administer c e s ≡ ok (tt, t) → IsQuiet s t
unfolding administer initialize set_fee_account set_profile_contract set_fee_bps register deregister
    set_admin accept_admin propose_release_validator accept_release_validator
    cancel_pending_release_validator clear_release_validator pause unpause propose_upgrade
    apply_upgrade cancel_pending_upgrade migrate
administer-IsQuiet (constructor_call admin fee_account fee_bps profile) e s h = record {
  events = ground arith;
  op_seen = ground arith;
  transfers = ground arith;
  next = ground arith;
  range = inr (ground arith);
  admin = ground arith;
}
administer-IsQuiet c e s h = record {
  events = ground arith;
  op_seen = ground arith;
  transfers = ground arith;
  next = ground arith;
  range = inl (ground arith);
  admin = ground arith;
}
