-- ===== src/Admin/Pause.antt =====
-- contracts/events/src/admin.rs: pausing, and what a pause adds to the seconds spent paused.
pub mod Clock
use boundless_contract.Base.{⊤, ℕ, ◌-◌, true, false, not, is_some, Option, none, some}
use boundless_contract.Base.Word.{saturating_add64}
use boundless_contract.Notices.{contract_paused, contract_unpaused}
use boundless_contract.Chain.{Call, asks, when, pure, publish, ◌>>=◌, ◌>>◌}
use boundless_contract.Storage.Config.{
  get_paused_at, set_paused_at, get_paused_seconds, set_paused_seconds, set_paused,
}
use boundless_contract.Admin.Guards.{require_admin}

unfoldable pub pause : Call ⊤
pause = do
  require_admin
  since ← get_paused_at
  when (not (is_some since)) (do now ← asks (λ e. e.timestamp); set_paused_at (some now))
  set_paused true
  publish contract_paused

abbrev pub close_pause : Option ℕ → Call ⊤
close_pause none = pure tt
close_pause (some at) = do
  now ← asks (λ e. e.timestamp)
  before ← get_paused_seconds
  set_paused_seconds (saturating_add64 before (now - at))
  set_paused_at none

unfoldable pub unpause : Call ⊤
unpause = do
  require_admin
  close_pause (← get_paused_at)
  set_paused false
  publish contract_unpaused
