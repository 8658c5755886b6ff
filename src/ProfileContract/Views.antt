-- ===== src/ProfileContract/Views.antt =====
-- contracts/profile/src/lib.rs and the reads of admin.rs: the entry points of the profile contract that
-- only read. The lifetimes that they extend are not modelled.
use boundless_contract.Base.{Bool, Option}
use boundless_contract.Base.Int.{ℤ}
use boundless_contract.Types.{Address, Text}
use boundless_contract.Chain.{ok_or, pure, ◌>>=◌}
use boundless_contract.ProfileContract.Data.{
  Request, UserProfile, PendingEventsContract, PendingUpgrade, not_initialized,
}
use boundless_contract.ProfileContract.Store

pub data ProfileView : Type 0 where
  get_profile_view : Address → ProfileView
  get_earnings_view : Address → Address → ProfileView
  get_admin_view get_events_contract_view get_pending_events_contract_view : ProfileView
  is_paused_view version_view get_pending_upgrade_view get_migrated_to_version_view : ProfileView

-- What they return.
pub data ProfileAnswer : Type 0 where
  profile_answer : Option UserProfile → ProfileAnswer
  amount_answer : ℤ → ProfileAnswer
  address_answer : Address → ProfileAnswer
  maybe_address_answer : Option Address → ProfileAnswer
  pending_contract_answer : Option PendingEventsContract → ProfileAnswer
  flag_answer : Bool → ProfileAnswer
  text_answer : Text → ProfileAnswer
  maybe_text_answer : Option Text → ProfileAnswer
  pending_upgrade_answer : Option PendingUpgrade → ProfileAnswer

abbrev reply : {A : Type 0} → (A → ProfileAnswer) → Request A → Request ProfileAnswer
reply f m = do a ← m; pure (f a)

abbrev stored_version : Request Text
stored_version = do ok_or (← Store.get_version) not_initialized

unfoldable pub look_up : ProfileView → Request ProfileAnswer
look_up (get_profile_view user) = reply profile_answer (Store.get_profile user)
look_up (get_earnings_view user token) = reply amount_answer (Store.get_earnings user token)
look_up get_admin_view = reply address_answer Store.get_admin
look_up get_events_contract_view = reply maybe_address_answer Store.get_events_contract
look_up get_pending_events_contract_view =
    reply pending_contract_answer Store.get_pending_events_contract
look_up is_paused_view = reply flag_answer Store.is_paused
look_up version_view = reply text_answer stored_version
look_up get_pending_upgrade_view = reply pending_upgrade_answer Store.get_pending_upgrade
look_up get_migrated_to_version_view = reply maybe_text_answer Store.get_migrated_to_version
