-- ===== src/Admin/Guards.antt =====
-- contracts/events/src/admin.rs: the guards that the handlers begin with, and the clock of the claim
-- windows.
use boundless_contract.Base.{⊤, ℕ, ◌-◌, Option, none, some}
use boundless_contract.Base.Word.{saturating_add64}
use boundless_contract.Types.{Address, paused}
use boundless_contract.Chain.{Call, pure, asks, fail_if, require_auth, ◌>>=◌}
use boundless_contract.Storage.Config.{
  get_admin, is_paused, get_paused_at, get_paused_seconds, get_release_validator,
}

abbrev pub require_admin : Call ⊤
require_admin = do admin ← get_admin; require_auth admin

abbrev pub require_not_paused : Call ⊤
require_not_paused = do fail_if (← is_paused) paused

-- The seconds spent paused so far, a pause that still runs included.
abbrev pub paused_so_far : ℕ → ℕ → Option ℕ → ℕ
paused_so_far now total none = total
paused_so_far now total (some at) = saturating_add64 total (now - at)

unfoldable pub open_time : Call ℕ
open_time = do
  now ← asks (λ e. e.timestamp)
  total ← get_paused_seconds
  at ← get_paused_at
  pure (now - paused_so_far now total at)

abbrev cosigner : Option Address → Call Address
cosigner (some validator) = pure validator
cosigner none = get_admin

unfoldable pub release_cosigner : Call Address
release_cosigner = do cosigner (← get_release_validator)
