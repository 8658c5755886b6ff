-- ===== src/EventOps/Cancel/Refunds.antt =====
-- contracts/events/src/event_ops.rs, `claim_refund`: a deferred refund is paid out once.
use boundless_contract.Base.{ℕ, ◌<◌, ◌≡◌, ◌≢◌, ◌∷◌, some, true, arith, unwrap_or}
use boundless_contract.Base.Int.{pos, ◌-ℤ◌}
use boundless_contract.Types.{Address, OpId, EventRecord}
use boundless_contract.Chain.{State, Env, ok, focus, current}
use boundless_contract.Custody.{balance, balance-out, leg}
use boundless_contract.Escrow.{release}
use boundless_contract.EventOps.Cancel.{claim_refund}

paid_refund :
    (id : ℕ) (c : Address) (op : OpId) (e : Env) (s : State) (r : EventRecord) (x : ℕ) {s' : State}
    → claim_refund id c op e s ≡ ok (tt, s')
    → (s.events id).event ≡ some (current r)
    → (s.events id).unclaimed_refund c ≡ some (pos x)
    → (s'.transfers ≡ leg r.token e.current_contract_address c (pos x) ∷ s.transfers)
      × (unwrap_or ((s'.events id).unclaimed_refund c) (pos 0) ≡ pos 0)
      × (0 < x)
      × (e.authorized c ≡ true)
unfolding claim_refund release focus
paid_refund id c op e s r x h he hx = ground arith

-- A claim of a refund that succeeds carries the contributor's signature, takes exactly the positive
-- amount that was held for them from the contract's balance, and leaves nothing held. The premise on the
-- addresses is that the contributor is not the contract.
pub claim_refund-balance :
    (id : ℕ) (c : Address) (op : OpId) (e : Env) (s : State) (r : EventRecord) (x : ℕ) {s' : State}
    → claim_refund id c op e s ≡ ok (tt, s')
    → (s.events id).event ≡ some (current r)
    → (s.events id).unclaimed_refund c ≡ some (pos x)
    → c ≢ e.current_contract_address
    → (balance r.token e.current_contract_address s'.transfers
        ≡ balance r.token e.current_contract_address s.transfers -ℤ pos x)
      × (unwrap_or ((s'.events id).unclaimed_refund c) (pos 0) ≡ pos 0)
      × (0 < x)
      × (e.authorized c ≡ true)
claim_refund-balance id c op e s r x h he hx outside =
    let (log, cleared, positive, signed) = paid_refund id c op e s r x h he hx in
    (
      rw log (balance-out r.token e.current_contract_address c (pos x) s.transfers outside),
      cleared,
      positive,
      signed,
    )
