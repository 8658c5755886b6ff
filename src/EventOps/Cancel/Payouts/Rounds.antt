-- ===== src/EventOps/Cancel/Payouts/Rounds.antt =====
-- contracts/events/src/event_ops.rs, one round of `process_cancel_batch`: it costs at most the payout.
use boundless_contract.Base.{
  ℕ, ◌+◌, ◌-◌, ◌≤◌, ◌<◌, ◌≡◌, ◌≢◌, ◌⊎◌, inl, inr, none, some, ◌==◌, arith, Bool-cases, ◌∷◌, refl,
  if◌then◌else◌,
}
use boundless_contract.Base.Int.{
  ℤ, pos, negsuc, ◌-ℤ◌, ◌+ℤ◌, ◌≤ℤ◌, int_laws, -ℤ_parts, +ℤ_parts, saturating_add, leb_ℤ, ltb_ℤ,
  saturating_mul, ◌*ℤ◌,
}
use boundless_contract.Base.Maps.{update}
use boundless_contract.Types.{
  Address, EventRecord, CancellationState, CancellationBranch, owner_only,
  full_partner_then_residual, pro_rata_partners,
}
use boundless_contract.Host.{ok, Result-cases}
use boundless_contract.Chain.{State, Env, EventData}
use boundless_contract.Custody.{balance, leg}
use boundless_contract.Escrow.{try_release}
use boundless_contract.EventOps.Contributors.{
  units, slot_of, count_of, given_by, held_for, entry, IsRegister,
}
use boundless_contract.EventOps.Contributors.Sums.{sum_range-raise}
use boundless_contract.EventOps.Cancel.{refund, refund_contributor, payout_by, pro_rata}
use boundless_contract.EventOps.Cancel.Payouts.{payout, due, held, owned}

-- The refund that is held for `c` grows by `p`; one that is not positive has no entry.
abbrev deferred : Address → ℤ → EventData → EventData
deferred c p d =
    let sum = saturating_add (held_for d c) p in
    record d {
      unclaimed_refund = update d.unclaimed_refund c (if ltb_ℤ (pos 0) sum then some sum else none);
    }

refund-cases :
    (id : ℕ) (r : EventRecord) (c : Address) (p : ℤ) (e : Env) (s : State) {t : State}
    → refund id r c p e s ≡ ok (tt, t)
    → ((t.here ≡ s.here) × (t.transfers ≡ s.transfers))
      ⊎ (((t.here ≡ s.here)
            × (t.transfers ≡ leg r.token e.current_contract_address c p ∷ s.transfers))
          ⊎ ((t.here ≡ deferred c p s.here) × (t.transfers ≡ s.transfers)))
unfolding refund try_release
refund-cases id r c p e s h = elim (Bool-cases (leb_ℤ p (pos 0))) [
  | inl nothing ↦ inl (ground arith)
  | inr some_ ↦
      elim (Bool-cases (e.accepts s.transfers (leg r.token e.current_contract_address c p))) [
        | inl sent ↦ inr (inl (ground arith))
        | inr refused ↦ inr (inr (ground arith))
      ]
]

deferred-held :
    (c : Address) (p : ℤ) (d : EventData)
    → IsRegister d
    → slot_of d c ≢ 0
    → held (deferred c p d) ≤ held d + units p
unfolding saturating_add
deferred-held c p d g known =
    let (low, at) = g.slots c known in
    sum_range-raise (λ i. entry (held_for d) (d.contributor_at i))
      (λ i. entry (held_for (deferred c p d)) (d.contributor_at i)) (slot_of d c - 1) (units p) 0
      (count_of d)
      (λ i apart below.
        let inside : i < count_of d = omega (arith, below) in
        let (b, there, slot) = g.entries i inside in ground arith)
      (ground arith)

pub leg-cost :
    (token contract c : Address) (p : ℤ) (s t : State)
    → t.transfers ≡ leg token contract c p ∷ s.transfers
    → balance token contract s.transfers ≤ℤ balance token contract t.transfers +ℤ pos (units p)
unfolding balance
leg-cost token contract c (pos n) s t h = rw h (grind int_laws)
leg-cost token contract c (negsuc n) s t h = rw h (grind int_laws)

pub payout_none : (b : CancellationBranch) (st : CancellationState) → payout b st (pos 0) ≡ 0
unfolding saturating_mul ◌*ℤ◌
payout_none full_partner_then_residual st = refl
payout_none pro_rata_partners st = ground arith
payout_none owner_only st = refl

-- What a step from `s` to `t` costs the contract in `token`: at most `x`.
abbrev pub Costs : Address → Address → ℕ → State → State → Type 0
Costs token contract x s t = owned token contract s s.here ≤ℤ owned token contract t t.here +ℤ pos x

-- Either the balance falls by at most `x`, or what is held grows by at most `x`.
pub spent-cost : (b b' : ℤ) (k x : ℕ) → b ≤ℤ b' +ℤ pos x → b -ℤ pos k ≤ℤ b' -ℤ pos k +ℤ pos x
spent-cost b b' k x h = omega (
  arith,
  h,
  +ℤ_parts b' (pos x),
  -ℤ_parts b (pos k),
  -ℤ_parts b' (pos k),
  +ℤ_parts (b' -ℤ pos k) (pos x),
)

held-cost : (b : ℤ) (k k' x : ℕ) → k' ≤ k + x → b -ℤ pos k ≤ℤ b -ℤ pos k' +ℤ pos x
held-cost b k k' x h =
    omega (arith, h, -ℤ_parts b (pos k), -ℤ_parts b (pos k'), +ℤ_parts (b -ℤ pos k') (pos x))

refund-Costs :
    (id : ℕ) (r : EventRecord) (c : Address) (p : ℤ) (e : Env) (s : State) {t : State}
    → refund id r c p e s ≡ ok (tt, t)
    → IsRegister s.here
    → slot_of s.here c ≢ 0
    → Costs r.token e.current_contract_address (units p) s t
refund-Costs id r c p e s {t} h g known =
    let contract = e.current_contract_address in
    elim (refund-cases id r c p e s h) [
      | inl (here, log) ↦ rw (here, log) (held-cost _ _ _ _ (omega arith))
      | inr (inl (here, log)) ↦
          let paid = leg-cost r.token contract c p s t log in rw here (spent-cost _ _ _ _ paid)
      | inr (inr (here, log)) ↦
          let grown = deferred-held c p s.here g known in rw (here, log) (held-cost _ _ _ _ grown)
    ]

payout_by-payout :
    (b : CancellationBranch) (st : CancellationState) (a : ℤ) (e : Env) (s : State) {p : ℤ}
    {t : State}
    → payout_by b st a e s ≡ ok (p, t)
    → (t ≡ s) × (units p ≡ payout b st a)
unfolding pro_rata
payout_by-payout full_partner_then_residual st a e s h = ground arith
payout_by-payout pro_rata_partners st a e s h = ground arith
payout_by-payout owner_only st a e s h = ground arith

-- One round: the list stays, what the contributors gave stays or is set to 0.
pub record IsRound (token contract : Address) (x : ℕ) (s t : State) : Type 0 where
  pub event : t.here.event ≡ s.here.event
  pub count : t.here.contributor_count ≡ s.here.contributor_count
  pub at : t.here.contributor_at ≡ s.here.contributor_at
  pub slot : t.here.contributor_slot ≡ s.here.contributor_slot
  pub given : (b : Address) → (given_by t.here b ≡ given_by s.here b) ⊎ (given_by t.here b ≡ pos 0)
  pub cost : Costs token contract x s t

refund-same :
    (id : ℕ) (r : EventRecord) (c : Address) (p : ℤ) (e : Env) (s : State) {t : State}
    → refund id r c p e s ≡ ok (tt, t)
    → (t.here.event ≡ s.here.event)
      × (t.here.contributor_count ≡ s.here.contributor_count)
      × (t.here.contributor_at ≡ s.here.contributor_at)
      × (t.here.contributor_slot ≡ s.here.contributor_slot)
      × (t.here.contributor_amount ≡ s.here.contributor_amount)
unfolding refund try_release
refund-same id r c p e s h = ground arith

no-IsRound : (token contract : Address) (x : ℕ) (s : State) → IsRound token contract x s s
no-IsRound token contract x s = record {
  event = refl;
  count = refl;
  at = refl;
  slot = refl;
  given = λ b. inl refl;
  cost = held-cost _ _ _ _ (omega arith);
}

refund_contributor-IsRound :
    (id : ℕ) (r : EventRecord) (st : CancellationState) (c : Address) (e : Env) (s : State)
    {t : State}
    → refund_contributor id r st (some c) e s ≡ ok (tt, t)
    → IsRegister s.here
    → slot_of s.here c ≢ 0
    → IsRound r.token e.current_contract_address (payout st.branch st (given_by s.here c)) s t
unfolding refund_contributor
refund_contributor-IsRound id r st c e s {t} h g known =
    elim (Bool-cases (leb_ℤ (given_by s.here c) (pos 0))) [
      | inl nothing ↦
          let same : t ≡ s = ground arith in
          rw same (
            no-IsRound r.token e.current_contract_address (payout st.branch st (given_by s.here c))
              s)
      | inr some_ ↦ elim (Result-cases (payout_by st.branch st (given_by s.here c) e s)) [
        | inr (inl (x, k)) ↦ absurd (ground arith)
        | inr (inr k) ↦ absurd (ground arith)
        | inl ((p, u), k) ↦
            let (back, amount) = payout_by-payout st.branch st (given_by s.here c) e s k in
            let paid : State = record s {
              here = record s.here {
                contributor_amount = update s.here.contributor_amount c (some (pos 0));
              };
            } in
            let run : refund id r c p e paid ≡ ok (tt, t) = ground (arith, back) in
            let (event, count, at, slot, given) = refund-same id r c p e paid run in
            record {
              event = event;
              count = count;
              at = at;
              slot = slot;
              given = λ b. elim (Bool-cases (b == c)) [
                | inl own ↦ inr (ground (arith, given))
                | inr other ↦ inl (ground (arith, given))
              ];
              cost = rw (← amount) (
                  refund-Costs id r c p e paid run (record { entries = g.entries; slots = g.slots })
                    known);
            }
      ]
    ]

-- The round of an index: an entry that is missing is passed.
pub entry-IsRound :
    (id : ℕ) (r : EventRecord) (st : CancellationState) (i : ℕ) (e : Env) (s : State) {t : State}
    → refund_contributor id r st (s.here.contributor_at i) e s ≡ ok (tt, t)
    → IsRegister s.here
    → i < count_of s.here
    → IsRound r.token e.current_contract_address (due st s.here i) s t
entry-IsRound id r st i e s h g below =
    let (c, at, slot) = g.entries i below in
    rw (due, at) (refund_contributor-IsRound id r st c e s (rw at at h) g (ground arith))
