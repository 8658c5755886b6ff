-- ===== src/ProfileContract/Data.antt =====
-- contracts/profile/src/types.rs, errors.rs and events.rs: the data of the profile contract. Its storage
-- is a record with a field for each key of `DataKey`; a key that is not set is `none`.
use boundless_contract.Base.{ℕ, Bool, Option, List}
use boundless_contract.Base.Int.{ℤ}
use boundless_contract.Types.{Address, OpId, WasmHash, Text}
use boundless_contract.Host.{HostCall}
use boundless_contract.Chain.{Env}

pub record UserProfile : Type 0 where
  pub bootstrapped_at : ℕ
  pub reputation : ℕ

pub record PendingAdmin : Type 0 where
  pub target : Address
  pub expires_at_ledger : ℕ

pub record PendingEventsContract : Type 0 where
  pub target : Address
  pub proposed_at_ledger : ℕ
  pub expires_at_ledger : ℕ

pub record PendingUpgrade : Type 0 where
  pub wasm_hash : WasmHash
  pub new_version : Text
  pub proposed_at_ledger : ℕ
  pub available_at_ledger : ℕ
  pub expires_at_ledger : ℕ

pub data ProfileError : Type 0 where
  already_initialized admin_cannot_be_zero events_contract_not_configured : ProfileError
  pending_admin_mismatch pending_admin_expired not_initialized : ProfileError
  events_contract_already_configured pending_events_contract_mismatch : ProfileError
  pending_events_contract_expired pending_events_contract_timelock : ProfileError
  profile_not_found delta_too_large invalid_amount reason_required : ProfileError
  op_already_seen earnings_overflow paused : ProfileError
  upgrade_not_proposed upgrade_timelock_not_elapsed upgrade_proposal_expired : ProfileError
  migration_already_applied : ProfileError

-- Each with its fields in the order of the source.
pub data ProfileNotice : Type 0 where
  profile_bootstrapped : Address → ProfileNotice
  reputation_bumped : Address → ℕ → Text → ProfileNotice
  earnings_registered : Address → Address → ℤ → ProfileNotice
  admin_reputation_slashed : Address → ℕ → Text → ProfileNotice
  admin_updated pending_admin_set events_contract_updated : Address → ProfileNotice
  pending_events_contract_set : Address → ℕ → ℕ → ProfileNotice
  events_rotation_cancelled : ℕ → ProfileNotice
  contract_paused contract_unpaused : ProfileNotice
  upgraded : WasmHash → ProfileNotice
  pending_upgrade_proposed : WasmHash → Text → ℕ → ℕ → ProfileNotice
  pending_upgrade_cancelled : ℕ → ProfileNotice
  upgrade_applied : WasmHash → Text → ProfileNotice
  migrated : Text → Text → ProfileNotice

pub record ProfileState : Type 0 where
  pub admin : Option Address
  pub pending_admin : Option PendingAdmin
  pub events_contract : Option Address
  pub pending_events_contract : Option PendingEventsContract
  pub paused : Option Bool
  pub profile : Address → Option UserProfile
  pub earnings_by_token : Address → Address → Option ℤ
  pub version : Option Text
  pub pending_upgrade : Option PendingUpgrade
  pub migrated_to_version : Option Text
  pub op_seen : Address → OpId → Option ℕ
  pub executable : WasmHash
  pub published : List ProfileNotice

abbrev pub Request : Type 0 → Type 0
Request A = HostCall Env ProfileState ProfileError A
