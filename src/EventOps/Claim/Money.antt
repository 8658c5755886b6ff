-- ===== src/EventOps/Claim/Money.antt =====
-- contracts/events/src/event_ops.rs, `claim_prize`: the escrow accounting against the money that moves,
-- and that an awarded prize can be claimed.
use boundless_contract.Base.{
  ℕ, ◌-◌, ◌≤◌, ◌<◌, ◌≡◌, ◌≢◌, ap, sym, ◌∙◌, true, false, some, none, arith, unwrap_or,
}
use boundless_contract.Base.Int.{
  pos, ◌-ℤ◌, i128_max, checked_sub, checked_sub-pos, checked_sub-nonneg, saturating_sub-pos,
}
use boundless_contract.Types.{Address, OpId, EventRecord, Winner, PrizeAward, active, single}
use boundless_contract.Chain.{lives, State, Env, ok, is_ok, focus, current}
use boundless_contract.Custody.{balance, balance-out}
use boundless_contract.Escrow.{release}
use boundless_contract.Idempotency.{derive_child}
use boundless_contract.Profile.{report}
use boundless_contract.Grant.Shares.{release_owed}
use boundless_contract.Grant.Settle.{paid_out}
use boundless_contract.EventOps.Claim.{claim_prize}
use boundless_contract.EventOps.Claim.Settled.{claim_prize-Claimed_found, paid_out_lem}

paid_out-pos :
    (r : EventRecord) (n a : ℕ)
    → r.remaining_escrow ≡ pos n
    → a ≤ n
    → n ≤ i128_max
    → (paid_out r (pos a)).remaining_escrow ≡ pos (n - a)
unfolding paid_out
paid_out-pos r n a h le fits = rw h (saturating_sub-pos n a le fits)

-- A successful claim takes from the contract's token balance exactly what it takes off the event's
-- escrow and off its owed total, so an owed total that the escrow covers stays covered. The
-- premises are the event, award and row that are stored, their amounts, that the escrow covers the
-- owed total, and that the recipient is not the contract.
pub claim_prize-balance :
    (id p : ℕ) (op : OpId) (e : Env) (s : State) (r : EventRecord) (a : PrizeAward) (w : Winner)
    (n o x : ℕ) {s' : State}
    → claim_prize id p op e s ≡ ok (tt, s')
    → (s.events id).event ≡ some (current r)
    → (s.events id).prize_award p ≡ some a
    → (s.events id).winner_at a.anchor_idx ≡ some w
    → r.remaining_escrow ≡ pos n
    → n ≤ i128_max
    → (s.events id).owed_total ≡ some (pos o)
    → o ≤ n
    → w.amount ≡ pos x
    → a.recipient ≢ e.current_contract_address
    → (balance r.token e.current_contract_address s'.transfers
        ≡ balance r.token e.current_contract_address s.transfers -ℤ pos x)
      × ((paid_out r w.amount).remaining_escrow ≡ pos (n - x))
      × ((s'.events id).event ≡ some (current (paid_out r w.amount)))
      × ((s'.events id).owed_total ≡ some (pos (o - x)))
      × (o - x ≤ n - x)
claim_prize-balance id p op e s r a w n o x h he ha hw hn fits ho covered hx outside =
    let (left, c) = claim_prize-Claimed_found id p op e s r a w he ha hw h in
    let owed : checked_sub (pos o) (pos x) ≡ some left = ground (arith, c.owed) in
    let (le, eq) = checked_sub-nonneg o x left owed c.owed_covers in
    (
      rw (c.transfers_after, hx)
          (balance-out r.token e.current_contract_address a.recipient (pos x) s.transfers outside),
      rw hx (paid_out-pos r n x hn (omega arith) fits),
      c.event_after ∙ ap (λ x. some (current x)) (sym (paid_out_lem r w.amount (c.is_active))),
      c.owed_after ∙ ap some eq,
      omega arith,
    )

-- An awarded prize can be claimed: with the event active, its award and unpaid row in place, the owed
-- total covering the amount and the escrow the owed total, a claim signed by the recipient with an
-- unused operation id succeeds while the contract is open, bound to a profile contract, and the token
-- accepts the transfer.
pub claim_prize-succeeds :
    (id p : ℕ) (op : OpId) (e : Env) (s : State) (r : EventRecord) (a : PrizeAward) (w : Winner)
    (profile : Address) (n o x : ℕ)
    → unwrap_or s.config.paused false ≡ false
    → s.config.profile_contract ≡ some profile
    → (s.events id).event ≡ some (current r)
    → r.status ≡ active
    → r.release_kind ≡ single
    → (s.events id).prize_award p ≡ some a
    → (s.events id).winner_at a.anchor_idx ≡ some w
    → w.recipient ≡ a.recipient
    → w.position ≡ p
    → w.paid_at ≡ none
    → w.amount ≡ pos x
    → 0 < x
    → (s.events id).owed_total ≡ some (pos o)
    → x ≤ o
    → r.remaining_escrow ≡ pos n
    → o ≤ n
    → n ≤ i128_max
    → e.authorized a.recipient ≡ true
    → lives e (s.op_seen a.recipient op) ≡ false
    → e.accepts s.transfers (record {
      token = r.token;
      from = e.current_contract_address;
      to = a.recipient;
      amount = w.amount;
    })
      ≡ true
    → is_ok (claim_prize id p op e s) ≡ true
unfolding claim_prize focus release release_owed report derive_child
claim_prize-succeeds id p op e s r a w profile n o x h1 h2 h3 h4 h5 h6 h7 h8 h9 h10 h11 h12 h13 h14
      h15 h16 h17 h18 h19 h20 =
    ground (arith, checked_sub-pos o x)
