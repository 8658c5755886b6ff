-- ===== src/Admin/Pause/Clock.antt =====
-- contracts/events/src/admin.rs: the clock of the claim windows stands still while the contract is
-- paused.
use boundless_contract.Base.{ℕ, ◌+◌, ◌-◌, ◌≤◌, ◌≡◌, none, arith, unwrap_or}
use boundless_contract.Base.Word.{u64_max}
use boundless_contract.Chain.{Env, State, ok}
use boundless_contract.Admin.Guards.{open_time}
use boundless_contract.Admin.Pause.{pause, unpause}

-- Pausing and unpausing later leave the clock where it was when the pause began: at any time from the
-- end of the pause on it has advanced only by what has passed since that end. The premises are that
-- no pause was running, that ledger time does not run backwards, and that the seconds spent paused
-- did not exceed the time then and stay within a `u64`.
pub open_time-pause :
    (e1 e2 e3 : Env) (s : State) (total : ℕ) {s1 s2 : State}
    → s.config.paused_at ≡ none
    → unwrap_or s.config.paused_seconds 0 ≡ total
    → total ≤ e1.timestamp
    → e1.timestamp ≤ e2.timestamp
    → e2.timestamp ≤ e3.timestamp
    → e3.timestamp ≤ u64_max
    → pause e1 s ≡ ok (tt, s1)
    → unpause e2 s1 ≡ ok (tt, s2)
    → open_time e3 s2 ≡ ok (e1.timestamp - total + (e3.timestamp - e2.timestamp), s2)
unfolding open_time pause unpause
open_time-pause e1 e2 e3 s total none_running spent h1 h2 h3 fits p u = ground arith

-- While a pause runs the clock stays at its start, at any later ledger time. The premises are that
-- no pause was running before, and that the seconds spent paused did not exceed the time then and
-- the time stays within a `u64`.
pub open_time_frozen :
    (e1 e2 : Env) (s : State) (total : ℕ) {s1 : State}
    → s.config.paused_at ≡ none
    → unwrap_or s.config.paused_seconds 0 ≡ total
    → total ≤ e1.timestamp
    → e1.timestamp ≤ e2.timestamp
    → e2.timestamp ≤ u64_max
    → pause e1 s ≡ ok (tt, s1)
    → open_time e2 s1 ≡ ok (e1.timestamp - total, s1)
unfolding open_time pause
open_time_frozen e1 e2 s total none_running spent h1 h2 fits p = ground arith
