-- ===== src/ProfileContract/Store.antt =====
-- contracts/profile/src/storage.rs and idempotency.rs, and the guards at the end of admin.rs.
use boundless_contract.Base.{⊤, ℕ, Bool, false, Option, none, some, unwrap_or, ◌∷◌}
use boundless_contract.Base.Int.{ℤ, pos}
use boundless_contract.Base.Maps.{update}
use boundless_contract.Types.{Address, OpId, Text, WasmHash}
use boundless_contract.Chain.{
  lives, live_until, asks, gets, modify, ok_or, fail_if, require_auth, ◌>>=◌,
}
use boundless_contract.ProfileContract.Data.{
  ProfileNotice, PendingAdmin, PendingEventsContract, PendingUpgrade, UserProfile, Request,
  not_initialized, events_contract_not_configured, op_already_seen, paused,
}

abbrev pub get_admin : Request Address
get_admin = do ok_or (← gets (λ s. s.admin)) not_initialized

abbrev pub set_admin : Address → Request ⊤
set_admin a = modify (λ s. record s { admin = some a })

abbrev pub get_pending_admin : Request (Option PendingAdmin)
get_pending_admin = gets (λ s. s.pending_admin)

abbrev pub set_pending_admin : PendingAdmin → Request ⊤
set_pending_admin p = modify (λ s. record s { pending_admin = some p })

abbrev pub clear_pending_admin : Request ⊤
clear_pending_admin = modify (λ s. record s { pending_admin = none })

abbrev pub get_events_contract : Request (Option Address)
get_events_contract = gets (λ s. s.events_contract)

abbrev pub set_events_contract : Address → Request ⊤
set_events_contract a = modify (λ s. record s { events_contract = some a })

abbrev pub get_pending_events_contract : Request (Option PendingEventsContract)
get_pending_events_contract = gets (λ s. s.pending_events_contract)

abbrev pub set_pending_events_contract : PendingEventsContract → Request ⊤
set_pending_events_contract p = modify (λ s. record s { pending_events_contract = some p })

abbrev pub clear_pending_events_contract : Request ⊤
clear_pending_events_contract = modify (λ s. record s { pending_events_contract = none })

abbrev pub is_paused : Request Bool
is_paused = gets (λ s. unwrap_or s.paused false)

abbrev pub set_paused : Bool → Request ⊤
set_paused b = modify (λ s. record s { paused = some b })

abbrev pub get_version : Request (Option Text)
get_version = gets (λ s. s.version)

abbrev pub set_version : Text → Request ⊤
set_version v = modify (λ s. record s { version = some v })

abbrev pub get_pending_upgrade : Request (Option PendingUpgrade)
get_pending_upgrade = gets (λ s. s.pending_upgrade)

abbrev pub set_pending_upgrade : PendingUpgrade → Request ⊤
set_pending_upgrade p = modify (λ s. record s { pending_upgrade = some p })

abbrev pub clear_pending_upgrade : Request ⊤
clear_pending_upgrade = modify (λ s. record s { pending_upgrade = none })

abbrev pub get_migrated_to_version : Request (Option Text)
get_migrated_to_version = gets (λ s. s.migrated_to_version)

abbrev pub set_migrated_to_version : Text → Request ⊤
set_migrated_to_version v = modify (λ s. record s { migrated_to_version = some v })

abbrev pub get_profile : Address → Request (Option UserProfile)
get_profile user = gets (λ s. s.profile user)

abbrev pub set_profile : Address → UserProfile → Request ⊤
set_profile user p = modify (λ s. record s { profile = update s.profile user (some p) })

abbrev pub get_earnings : Address → Address → Request ℤ
get_earnings user token = gets (λ s. unwrap_or (s.earnings_by_token user token) (pos 0))

abbrev pub set_earnings : Address → Address → ℤ → Request ⊤
set_earnings user token a = modify (λ s. record s {
  earnings_by_token =
      update s.earnings_by_token user (update (s.earnings_by_token user) token (some a));
})

-- A temporary entry, as in the events contract.
abbrev pub is_op_seen : Address → OpId → Request Bool
is_op_seen domain op = do entry ← gets (λ s. s.op_seen domain op); asks (λ e. lives e entry)

abbrev pub mark_op_seen : Address → OpId → Request ⊤
mark_op_seen domain op = do
  last ← asks live_until
  modify (λ s. record s {
    op_seen = update s.op_seen domain (update (s.op_seen domain) op (some last));
  })

abbrev pub require_unseen : Address → OpId → Request ⊤
require_unseen domain op = do fail_if (← is_op_seen domain op) op_already_seen

abbrev pub mark_seen : Address → OpId → Request ⊤
mark_seen domain op = mark_op_seen domain op

abbrev pub events_domain : Request Address
events_domain = do ok_or (← get_events_contract) events_contract_not_configured

abbrev pub require_admin : Request ⊤
require_admin = do admin ← get_admin; require_auth admin

abbrev pub require_events_contract : Request ⊤
require_events_contract = do events ← events_domain; require_auth events

abbrev pub require_not_paused : Request ⊤
require_not_paused = do fail_if (← is_paused) paused

abbrev pub publish : ProfileNotice → Request ⊤
publish n = modify (λ s. record s { published = n ∷ s.published })

-- `deployer().update_current_contract`
abbrev pub update_current_contract : WasmHash → Request ⊤
update_current_contract h = modify (λ s. record s { executable = h })

abbrev pub sequence : Request ℕ
sequence = asks (λ e. e.sequence)
