-- ===== src/ProfileContract/Scores.antt =====
-- contracts/profile/src/bootstrap.rs, reputation.rs and earnings.rs.
use boundless_contract.Base.{⊤, ℕ, ◌-◌, Option, none, some, ltb, length, ◌==◌}
use boundless_contract.Base.Int.{ℤ, pos, leb_ℤ, checked_add}
use boundless_contract.Base.Word.{saturating_add64}
use boundless_contract.Types.{Address, OpId, Text}
use boundless_contract.Chain.{asks, ok_or, fail_if, pure, require_auth, ◌>>=◌, ◌>>◌}
use boundless_contract.ProfileContract.Data.{
  Request, UserProfile, profile_bootstrapped, reputation_bumped, earnings_registered,
  admin_reputation_slashed, profile_not_found, delta_too_large, invalid_amount, reason_required,
  earnings_overflow,
}
use boundless_contract.ProfileContract.Store.{
  get_admin, get_profile, set_profile, get_earnings, set_earnings, require_unseen, mark_seen,
  events_domain, require_admin, require_events_contract, require_not_paused, publish,
}

-- `Profile::new`
abbrev pub new_profile : ℕ → UserProfile
new_profile now = record { bootstrapped_at = now; reputation = 0 }

-- The profile is created where there is none.
abbrev create_missing : Address → Option UserProfile → Request ⊤
create_missing user (some p) = pure tt
create_missing user none = do
  now ← asks (λ e. e.timestamp)
  set_profile user (new_profile now)
  publish (profile_bootstrapped user)

unfoldable pub bootstrap : Address → OpId → Request ⊤
bootstrap user op_id = do
  require_events_contract
  require_not_paused
  domain ← events_domain
  require_unseen domain op_id
  create_missing user (← get_profile user)
  mark_seen domain op_id

unfoldable pub bootstrap_self : Address → OpId → Request ⊤
bootstrap_self user op_id = do
  require_auth user
  require_not_paused
  require_unseen user op_id
  create_missing user (← get_profile user)
  mark_seen user op_id

abbrev pub max_delta_per_call : ℕ
max_delta_per_call = 100

unfoldable pub bump : Address → ℕ → Text → OpId → Request ⊤
bump user delta reason op_id = do
  require_events_contract
  require_not_paused
  fail_if (ltb max_delta_per_call delta) delta_too_large
  domain ← events_domain
  require_unseen domain op_id
  profile ← ok_or (← get_profile user) profile_not_found
  set_profile user (record profile { reputation = saturating_add64 profile.reputation delta })
  publish (reputation_bumped user delta reason)
  mark_seen domain op_id

unfoldable pub admin_slash : Address → ℕ → Text → OpId → Request ⊤
admin_slash user delta reason op_id = do
  require_admin
  require_not_paused
  domain ← get_admin
  require_unseen domain op_id
  fail_if (length reason == 0) reason_required
  profile ← ok_or (← get_profile user) profile_not_found
  set_profile user (record profile { reputation = profile.reputation - delta })
  publish (admin_reputation_slashed user delta reason)
  mark_seen domain op_id

unfoldable pub register : Address → Address → ℤ → OpId → Request ⊤
register user token amount op_id = do
  require_events_contract
  require_not_paused
  domain ← events_domain
  require_unseen domain op_id
  fail_if (leb_ℤ amount (pos 0)) invalid_amount
  current ← get_earnings user token
  new ← ok_or (checked_add current amount) earnings_overflow
  set_earnings user token new
  publish (earnings_registered user token amount)
  mark_seen domain op_id
