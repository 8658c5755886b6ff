-- ===== src/Idempotency/Ids.antt =====
-- contracts/events/src/idempotency.rs: event ids do not repeat.
use boundless_contract.Base.{ℕ, ◌+◌, ◌*◌, ◌^◌, ◌≤◌, ◌<◌, ◌≡◌, some, arith, unwrap_or}
use boundless_contract.Base.Word.{u64_max}
use boundless_contract.Chain.{Env, State, ok}
use boundless_contract.Idempotency.{next_event_id}

-- An id that is drawn is the stored next id, or the first of the deployment's range; the next one that
-- is stored is its successor, within a `u64`; nothing else of the configuration moves.
pub next_event_id_lem :
    (e : Env) (s : State) (id : ℕ) {s' : State}
    → next_event_id e s ≡ ok (id, s')
    → (id ≡ unwrap_or s.config.next_event_id (unwrap_or s.config.deployment_seq 0 * 2 ^ 32 + 1))
      × (id < u64_max)
      × (s' ≡ record s { config = record s.config { next_event_id = some (id + 1) } })
unfolding next_event_id
next_event_id_lem e s id h = ground arith

-- Of two ids drawn one after the other, with any calls between them that do not lower the stored next
-- id, the later one is greater.
pub next_event_id_fresh :
    (e1 e2 : Env) (s t : State) (a b n : ℕ) {s' t' : State}
    → next_event_id e1 s ≡ ok (a, s')
    → t.config.next_event_id ≡ some n
    → unwrap_or s'.config.next_event_id 0 ≤ n
    → next_event_id e2 t ≡ ok (b, t')
    → a < b
unfolding next_event_id
next_event_id_fresh e1 e2 s t a b n p stored grows q = ground arith
