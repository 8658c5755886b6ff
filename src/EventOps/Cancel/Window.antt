-- ===== src/EventOps/Cancel/Window.antt =====
-- contracts/events/src/event_ops.rs, the checks of `start_cancel`: what it protects.
use boundless_contract.Base.{ℕ, ◌<◌, ◌≡◌, some, arith, unwrap_or}
use boundless_contract.Types.{OpId, EventRecord, single}
use boundless_contract.Chain.{State, Env, ok, focus, current}
use boundless_contract.Admin.Guards.{open_time}
use boundless_contract.EventOps.Cancel.{start_cancel, require_cancellable}

-- A cancellation of a single-release event does not begin while an awarded prize is unclaimed and
-- its claim window is open on the clock that stands still in a pause: where it begins with prizes
-- unclaimed, the expiry is past on that clock.
pub start_cancel_window :
    (id : ℕ) (op : OpId) (e : Env) (s : State) (r : EventRecord) (n now : ℕ) {s' : State}
    → start_cancel id op e s ≡ ok (tt, s')
    → (s.events id).event ≡ some (current r)
    → r.release_kind ≡ single
    → (s.events id).unclaimed_prizes ≡ some n
    → 0 < n
    → open_time e s ≡ ok (now, s)
    → unwrap_or (s.events id).prize_claim_expiry 0 < now
unfolding start_cancel require_cancellable open_time focus
start_cancel_window id op e s r n now h he hk hn some_ clock = ground arith
