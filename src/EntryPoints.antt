-- ===== src/EntryPoints.antt =====
-- contracts/events/src/lib.rs: the entry points that change the state, as one type, and histories of
-- calls on them. The entry points that only read are in `Views`.
pub mod Claims
pub mod Keys
pub mod Once
pub mod Quiet
pub mod Tokens
pub mod Views
use boundless_contract.Base.{⊤, ℕ, List, [], ◌∷◌}
use boundless_contract.Types.{Address, OpId, Text, WasmHash, CreateEventParams, Error}
use boundless_contract.Host.{Result, ok}
use boundless_contract.Chain.{Call, State, Env, pure, ◌>>◌}
use boundless_contract.Admin.Setup
use boundless_contract.Admin.Rotation
use boundless_contract.Admin.Pause.{pause, unpause}
use boundless_contract.Admin.Upgrade.{propose_upgrade, apply_upgrade, cancel_pending_upgrade}
use boundless_contract.Admin.Migrate.{migrate, migrate_events}
use boundless_contract.EventOps.Create.{create_event}
use boundless_contract.EventOps.Handlers.{EventCall, handle}

-- The constructor, the settings of the administrator and the token whitelist.
pub data AdminCall : Type 0 where
  constructor_call : Address → Address → ℕ → Address → AdminCall
  set_admin_call set_fee_account_call set_profile_contract_call : Address → AdminCall
  propose_release_validator_call : Address → AdminCall
  set_fee_bps_call : ℕ → AdminCall
  accept_admin_call accept_release_validator_call : AdminCall
  cancel_pending_release_validator_call clear_release_validator_call : AdminCall
  pause_call unpause_call : AdminCall
  propose_upgrade_call : WasmHash → Text → AdminCall
  apply_upgrade_call cancel_pending_upgrade_call migrate_call : AdminCall
  register_supported_token_call deregister_supported_token_call : Address → AdminCall

unfoldable pub administer : AdminCall → Call ⊤
administer (constructor_call admin fee_account fee_bps profile) =
    Setup.initialize admin fee_account fee_bps profile
administer (set_admin_call a) = Rotation.set_admin a
administer (set_fee_account_call a) = Setup.set_fee_account a
administer (set_profile_contract_call a) = Setup.set_profile_contract a
administer (propose_release_validator_call a) = Rotation.propose_release_validator a
administer (set_fee_bps_call bps) = Setup.set_fee_bps bps
administer accept_admin_call = Rotation.accept_admin
administer accept_release_validator_call = Rotation.accept_release_validator
administer cancel_pending_release_validator_call = Rotation.cancel_pending_release_validator
administer clear_release_validator_call = Rotation.clear_release_validator
administer pause_call = pause
administer unpause_call = unpause
administer (propose_upgrade_call hash version) = propose_upgrade hash version
administer apply_upgrade_call = apply_upgrade
administer cancel_pending_upgrade_call = cancel_pending_upgrade
administer migrate_call = migrate
administer (register_supported_token_call token) = Setup.register token
administer (deregister_supported_token_call token) = Setup.deregister token

-- Every entry point that changes the state.
pub data ContractCall : Type 0 where
  admin_call : AdminCall → ContractCall
  migrate_events_call : ℕ → ContractCall
  create_call : CreateEventParams → OpId → ContractCall
  event_call : ℕ → EventCall → ContractCall

-- The entry point, its result dropped.
unfoldable pub perform : ContractCall → Call ⊤
perform (admin_call c) = administer c
perform (migrate_events_call max_events) = migrate_events max_events >> pure tt
perform (create_call params op) = create_event params op >> pure tt
perform (event_call id c) = handle id c

-- A call that fails leaves the state as it was.
abbrev pub kept : State → Result Error (⊤ × State) → State
kept s (ok (_, s')) = s'
kept s _ = s

-- One call after another, each with the environment that it meets.
unfoldable pub history : List (Env × ContractCall) → State → State
history [] s = s
history ((e, c) ∷ rest) s = history rest (kept s (perform c e s))
