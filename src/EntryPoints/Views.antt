-- ===== src/EntryPoints/Views.antt =====
-- contracts/events/src/lib.rs: the entry points that only read. The
-- lifetimes that some of them extend are not modelled.
use boundless_contract.Base.{ℕ, Bool, Option, List}
use boundless_contract.Base.Int.{ℤ}
use boundless_contract.Types.{Address, Text, EventRecord, Winner, PendingRotation, PendingUpgrade}
use boundless_contract.Chain.{Call, gets, pure, ◌>>=◌}
use boundless_contract.Storage.Config.{get_release_validator, get_pending_release_validator}
use boundless_contract.Storage.Tokens.{
  is_token_supported, supported_token_count, supported_token_at,
}
use boundless_contract.Idempotency.{id_base}
use boundless_contract.Admin.Reads
use boundless_contract.EventOps.Reads as Event
use boundless_contract.EventOps.Manager.{get_manager, get_pending_manager}
use boundless_contract.EventOps.Cancel.{get_unclaimed_refund}

-- A read of an event names the event first.
pub data View : Type 0 where
  get_admin_view get_fee_bps_view get_fee_account_view get_profile_contract_view : View
  get_release_validator_view get_pending_release_validator_view : View
  is_paused_view version_view get_pending_upgrade_view get_migrated_to_version_view : View
  id_base_view supported_token_count_view : View
  is_supported_token_view : Address → View
  supported_token_at_view : ℕ → View
  get_event_view get_winners_view get_winner_count_view : ℕ → View
  get_contributors_view get_contributor_count_view get_manager_view : ℕ → View
  get_pending_manager_view : ℕ → View
  get_winners_page_view get_contributors_page_view : ℕ → ℕ → ℕ → View
  get_winner_at_view get_contributor_at_view : ℕ → ℕ → View
  get_contributor_amount_view get_unclaimed_refund_view : ℕ → Address → View

-- What they return.
pub data Answer : Type 0 where
  number : ℕ → Answer
  amount : ℤ → Answer
  flag : Bool → Answer
  text : Text → Answer
  address : Address → Answer
  maybe_address : Option Address → Answer
  maybe_text : Option Text → Answer
  maybe_rotation : Option PendingRotation → Answer
  maybe_upgrade : Option PendingUpgrade → Answer
  maybe_winner : Option Winner → Answer
  event : EventRecord → Answer
  winners : List Winner → Answer
  addresses : List Address → Answer

abbrev answer : {A : Type 0} → (A → Answer) → Call A → Call Answer
answer f m = do a ← m; pure (f a)

unfoldable pub view : View → Call Answer
view get_admin_view = answer address Reads.get_admin
view get_fee_bps_view = answer number Reads.get_fee_bps
view get_fee_account_view = answer address Reads.get_fee_account
view get_profile_contract_view = answer address Reads.get_profile_contract
view get_release_validator_view = answer maybe_address get_release_validator
view get_pending_release_validator_view = answer maybe_rotation get_pending_release_validator
view is_paused_view = answer flag Reads.is_paused
view version_view = answer text Reads.get_version
view get_pending_upgrade_view = answer maybe_upgrade Reads.get_pending_upgrade
view get_migrated_to_version_view = answer maybe_text Reads.get_migrated_to_version
view id_base_view = answer number id_base
view supported_token_count_view = gets (λ s. number (supported_token_count s.tokens))
view (is_supported_token_view token) = answer flag (is_token_supported token)
view (supported_token_at_view i) = gets (λ s. maybe_address (supported_token_at s.tokens i))
view (get_event_view id) = answer event (Event.get_event id)
view (get_winners_view id) = answer winners (Event.get_winners id)
view (get_winner_count_view id) = answer number (Event.get_winner_count id)
view (get_contributors_view id) = answer addresses (Event.get_contributors id)
view (get_contributor_count_view id) = answer number (Event.get_contributor_count id)
view (get_manager_view id) = answer address (get_manager id)
view (get_pending_manager_view id) = answer maybe_rotation (get_pending_manager id)
view (get_winners_page_view id start limit) = answer winners (Event.get_winners_page id start limit)
view (get_contributors_page_view id start limit) =
    answer addresses (Event.get_contributors_page id start limit)
view (get_winner_at_view id i) = answer maybe_winner (Event.get_winner_at id i)
view (get_contributor_at_view id i) = answer maybe_address (Event.get_contributor_at id i)
view (get_contributor_amount_view id who) = answer amount (Event.get_contributor_amount id who)
view (get_unclaimed_refund_view id who) = answer amount (get_unclaimed_refund id who)
