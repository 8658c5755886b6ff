-- ===== src/EventOps/Cancel/Payouts/Batch.antt =====
-- contracts/events/src/event_ops.rs: what a call of `process_cancel_batch` costs the contract.
use boundless_contract.Base.{
  ap, ℕ, zero, suc, ◌+◌, ◌-◌, ◌≤◌, ◌<◌, ◌≡◌, inl, inr, arith, Bool-cases, ltb, refl, Option-cases,
  Option, unwrap_or, ◌∙◌,
}
use boundless_contract.Base.Int.{ℤ, pos, ◌-ℤ◌, ◌+ℤ◌, ◌≤ℤ◌, +ℤ_parts, -ℤ_parts}
use boundless_contract.Base.Word.{u32_max, saturating_add32}
use boundless_contract.Types.{Address, EventRecord, CancellationState, Error}
use boundless_contract.Host.{Result, ok, Result-cases}
use boundless_contract.Chain.{State, Env}
use boundless_contract.EventOps.Contributors.{count_of, IsRegister}
use boundless_contract.EventOps.Contributors.Sums.{sum_range-le, sum_range}
use boundless_contract.EventOps.Cancel.{refund_contributor, advance, refund_batch}
use boundless_contract.EventOps.Cancel.Payouts.{due, outstanding, owned}
use boundless_contract.EventOps.Cancel.Payouts.Rounds.{IsRound, entry-IsRound, payout_none}

-- What the contract keeps beside what the loop is still to pay.
abbrev pub left_over : Address → Address → CancellationState → State → ℤ
left_over token contract st s = owned token contract s s.here -ℤ pos (outstanding st s.here)

pub record IsBatch (token contract : Address) (st st' : CancellationState) (s t : State)
    : Type 0 where
  pub event : t.here.event ≡ s.here.event
  pub register : IsRegister t.here
  pub count : count_of t.here ≡ count_of s.here
  pub kept : st' ≡ record st { next_idx = st'.next_idx }
  pub money : left_over token contract st s ≤ℤ left_over token contract st' t

-- A contributor who has been refunded is owed nothing more.
due-le :
    (token contract : Address) (x : ℕ) (st : CancellationState) (s t : State)
    → IsRound token contract x s t
    → (n i : ℕ) → due (record st { next_idx = n }) t.here i ≤ due st s.here i
due-le token contract x st s t round n i = elim (Option-cases (s.here.contributor_at i)) [
  | inl missing ↦ ground (arith, round.at)
  | inr (c, there) ↦ elim (round.given c) [
    | inl same ↦ ground (arith, round.at, same)
    | inr nothing ↦ ground (arith, round.at, nothing, payout_none st.branch st)
  ]
]

outstanding-advance :
    (token contract : Address) (st : CancellationState) (s t : State)
    → IsRound token contract (due st s.here st.next_idx) s t
    → st.next_idx < st.count_at_start
    → st.count_at_start ≤ u32_max
    → outstanding (advance st) t.here + due st s.here st.next_idx ≤ outstanding st s.here
unfolding sum_range
outstanding-advance token contract st s t round more fits =
    let d = due st s.here in
    let below : outstanding (advance st) t.here
        ≤ sum_range d (st.next_idx + 1) (st.count_at_start - (st.next_idx + 1)) =
      rw next (
        sum_range-le (due (record st { next_idx = st.next_idx + 1 }) t.here) d (st.next_idx + 1)
          (st.count_at_start - (st.next_idx + 1))
          (λ i lo hi. due-le token contract (d st.next_idx) st s t round (st.next_idx + 1) i)) in
    let whole : outstanding st s.here
        ≡ d st.next_idx + sum_range d (st.next_idx + 1) (st.count_at_start - (st.next_idx + 1)) =
      rw rest refl in
    omega (arith, below, whole)
  where
    next : saturating_add32 st.next_idx 1 ≡ st.next_idx + 1
    next = omega arith

    rest : st.count_at_start - st.next_idx ≡ suc (st.count_at_start - (st.next_idx + 1))
    rest = omega arith

step-money : (b b' : ℤ) (x k k' : ℕ) → b ≤ℤ b' +ℤ pos x → k' + x ≤ k → b -ℤ pos k ≤ℤ b' -ℤ pos k'
step-money b b' x k k' cost less =
    omega (arith, cost, less, +ℤ_parts b' (pos x), -ℤ_parts b (pos k), -ℤ_parts b' (pos k'))

pub ≤ℤ_trans : (a b c : ℤ) → a ≤ℤ b → b ≤ℤ c → a ≤ℤ c
≤ℤ_trans a b c h k = omega (arith, h, k)

advance-IsBatch :
    (token contract : Address) (st st' : CancellationState) (s t u : State)
    → IsRound token contract (due st s.here st.next_idx) s t
    → st.next_idx < st.count_at_start
    → st.count_at_start ≤ u32_max
    → IsBatch token contract (advance st) st' t u
    → IsBatch token contract st st' s u
advance-IsBatch token contract st st' s t u round more fits b = record {
  event = b.event ∙ round.event;
  register = b.register;
  count = b.count ∙ ap (λ (o : Option ℕ). unwrap_or o 0) round.count;
  kept = b.kept;
  money =
      let less = outstanding-advance token contract st s t round more fits in
      ≤ℤ_trans (left_over token contract st s) (left_over token contract (advance st) t)
        (left_over token contract st' u)
        (step-money _ _ (due st s.here st.next_idx) _ _ round.cost less) b.money;
}

IsRound-IsRegister :
    (token contract : Address) (x : ℕ) (s t : State)
    → IsRound token contract x s t
    → IsRegister s.here
    → IsRegister t.here
IsRound-IsRegister token contract x s t round g = record {
  entries = λ i below.
      let (b, there, slot) = g.entries i (ground (arith, round.count, below)) in
      (b, ground (arith, round.at), ground (arith, round.slot));
  slots = λ b there. ground (arith, round.at, round.slot, round.count, g.slots b);
}

done-IsBatch :
    (token contract : Address) (st : CancellationState) (s : State)
    → IsRegister s.here
    → IsBatch token contract st st s s
done-IsBatch token contract st s g = record {
  event = refl;
  register = g;
  count = refl;
  kept = refl;
  money = omega arith;
}

ended :
    (st st' : CancellationState) (s u : State)
    → ◌≡◌ {A = Result Error (CancellationState × State)} (ok (st, s)) (ok (st', u))
    → (st' ≡ st) × (u ≡ s)
ended st st' s u h = (ground arith, ground arith)

pub refund_batch-IsBatch :
    (left id : ℕ) (r : EventRecord) (st : CancellationState) (e : Env) (s : State)
    {st' : CancellationState} {u : State}
    → refund_batch left id r st e s ≡ ok (st', u)
    → IsRegister s.here
    → st.count_at_start ≤ count_of s.here
    → st.count_at_start ≤ u32_max
    → IsBatch r.token e.current_contract_address st st' s u
unfolding refund_batch
refund_batch-IsBatch zero id r st e s {st'} {u} h g listed fits =
    let (st_same, s_same) = ended st st' s u h in
    rw (st_same, s_same) (done-IsBatch r.token e.current_contract_address st s g)
refund_batch-IsBatch (suc left) id r st e s {st'} {u} h g listed fits =
    elim (Bool-cases (ltb st.next_idx st.count_at_start)) [
      | inr done ↦
          let (st_same, s_same) = ended st st' s u (ground arith) in
          rw (st_same, s_same) (done-IsBatch r.token e.current_contract_address st s g)
      | inl more ↦
          elim (Result-cases (refund_contributor id r st (s.here.contributor_at st.next_idx) e s)) [
            | inr (inl (x, k)) ↦ absurd (ground arith)
            | inr (inr k) ↦ absurd (ground arith)
            | inl ((_, t), k) ↦
                let below : st.next_idx < count_of s.here = ground arith in
                let round = entry-IsRound id r st st.next_idx e s k g below in
                let rest : refund_batch left id r (advance st) e t ≡ ok (st', u) = ground arith in
                let g' =
                  IsRound-IsRegister r.token e.current_contract_address (due st s.here st.next_idx)
                    s t round g in
                advance-IsBatch r.token e.current_contract_address st st' s t u round (ground arith)
                  fits
                  (refund_batch-IsBatch left id r (advance st) e t rest g'
                    (ground (arith, round.count)) fits)
          ]
    ]
