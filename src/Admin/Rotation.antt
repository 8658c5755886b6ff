-- ===== src/Admin/Rotation.antt =====
-- contracts/events/src/admin.rs: the two-step rotations of the admin and of the release validator.
use boundless_contract.Base.{⊤, ℕ, none, some, not, is_some, ltb}
use boundless_contract.Base.Word.{saturating_add32}
use boundless_contract.Types.{Address, pending_rotation_mismatch, pending_rotation_expired}
use boundless_contract.Notices.{
  admin_updated, pending_admin_set, release_validator_proposed, release_validator_updated,
  validator_proposal_cancelled,
}
use boundless_contract.Chain.{
  Call, asks, ok_or, fail_if, when, raise, require_auth, publish, ◌>>=◌, ◌>>◌,
}
use boundless_contract.Storage.Config
use boundless_contract.Admin.Guards.{require_admin}

abbrev pub pending_admin_ttl_ledgers : ℕ
pending_admin_ttl_ledgers = 120960

abbrev pub sequence : Call ℕ
sequence = asks (λ e. e.sequence)

unfoldable pub set_admin : Address → Call ⊤
set_admin new_admin = do
  require_admin
  now ← sequence
  Config.set_pending_admin (record {
    target = new_admin;
    expires_at_ledger = saturating_add32 now pending_admin_ttl_ledgers;
  })
  publish (pending_admin_set new_admin)

unfoldable pub accept_admin : Call ⊤
accept_admin = do
  pending ← ok_or (← Config.get_pending_admin) pending_rotation_mismatch
  now ← sequence
  when (ltb pending.expires_at_ledger now)
      (do Config.clear_pending_admin; raise pending_rotation_expired)
  require_auth pending.target
  Config.set_admin pending.target
  Config.clear_pending_admin
  publish (admin_updated pending.target)

unfoldable pub propose_release_validator : Address → Call ⊤
propose_release_validator target = do
  require_admin
  earlier ← Config.get_pending_release_validator
  when (is_some earlier) (publish validator_proposal_cancelled)
  now ← sequence
  let expires_at = saturating_add32 now pending_admin_ttl_ledgers
  Config.set_pending_release_validator (record { target = target; expires_at_ledger = expires_at })
  publish (release_validator_proposed target expires_at)

unfoldable pub accept_release_validator : Call ⊤
accept_release_validator = do
  pending ← ok_or (← Config.get_pending_release_validator) pending_rotation_mismatch
  now ← sequence
  fail_if (ltb pending.expires_at_ledger now) pending_rotation_expired
  require_auth pending.target
  Config.set_release_validator (some pending.target)
  Config.clear_pending_release_validator
  publish (release_validator_updated (some pending.target))

unfoldable pub cancel_pending_release_validator : Call ⊤
cancel_pending_release_validator = do
  require_admin
  pending ← Config.get_pending_release_validator
  fail_if (not (is_some pending)) pending_rotation_mismatch
  Config.clear_pending_release_validator
  publish validator_proposal_cancelled

unfoldable pub clear_release_validator : Call ⊤
clear_release_validator = do
  require_admin
  Config.set_release_validator none
  pending ← Config.get_pending_release_validator
  when (is_some pending)
      (do Config.clear_pending_release_validator; publish validator_proposal_cancelled)
  publish (release_validator_updated none)
