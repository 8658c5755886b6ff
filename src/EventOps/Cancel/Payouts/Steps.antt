-- ===== src/EventOps/Cancel/Payouts/Steps.antt =====
-- contracts/events/src/event_ops.rs: what the three steps of a paged cancellation cost the contract,
-- `start_cancel`, `process_cancel_batch` and `finalize_cancel`.
use boundless_contract.Base.{
  ◌⊎◌, ◌∷◌, ap, refl, ◌∙◌, ℕ, ◌+◌, ◌≤◌, ◌≡◌, none, some, arith, inl, inr, Bool-cases, ltb,
  if◌then◌else◌,
}
use boundless_contract.Base.Int.{ℤ, pos, i128_max, ltb_ℤ, ◌-ℤ◌, ◌≤ℤ◌, -ℤ_parts, ◌+ℤ◌, +ℤ_parts}
use boundless_contract.Base.Word.{u32_max}
use boundless_contract.Types.{
  EventRecord, CancellationState, OpId, CancellationBranch, owner_only, full_partner_then_residual,
  pro_rata_partners, cancelling,
}
use boundless_contract.Host.{ok, Result-cases}
use boundless_contract.Custody.{balance, leg}
use boundless_contract.Escrow.{release}
use boundless_contract.Admin.Guards.{open_time}
use boundless_contract.EventOps.Funds.{get_or_init_non_owner_total}
use boundless_contract.Chain.{State, Env, EventData, focus, load, current}
use boundless_contract.EventOps.Contributors.{units, count_of, total_of, IsRegister, IsFunded}
use boundless_contract.EventOps.Cancel.{
  start_cancel, process_cancel_batch, finalize_cancel, refund_batch, closed, owner_residual,
  cancel_for_owner, cancel_in_pages, refund_owner, require_cancellable,
}
use boundless_contract.EventOps.Cancel.Payouts.{outstanding, owned, free, held}
use boundless_contract.EventOps.Cancel.Payouts.Promise.{opened, promised}
use boundless_contract.EventOps.Cancel.Payouts.Rounds.{leg-cost, spent-cost}
use boundless_contract.EventOps.Cancel.Payouts.Batch.{refund_batch-IsBatch}

-- An event whose cancellation has come as far as `st`.
pub record IsUnderway (r : EventRecord) (st : CancellationState) (d : EventData) : Type 0 where
  pub event : d.event ≡ some (current r)
  pub state : d.cancellation_state ≡ some st
  pub register : IsRegister d
  pub listed : st.count_at_start ≤ count_of d
  pub fits : st.count_at_start ≤ u32_max

with_residual :
    (b b' : ℤ) (k k' x : ℕ) → b -ℤ pos k ≤ℤ b' -ℤ pos k' → b -ℤ pos (k + x) ≤ℤ b' -ℤ pos (k' + x)
with_residual b b' k k' x h = omega (
  arith,
  h,
  -ℤ_parts b (pos k),
  -ℤ_parts b' (pos k'),
  -ℤ_parts b (pos (k + x)),
  -ℤ_parts b' (pos (k' + x)),
)

less_promised : (b : ℤ) (k n : ℕ) → k ≤ n → b -ℤ pos n ≤ℤ b -ℤ pos k
less_promised b k n h = omega (arith, h, -ℤ_parts b (pos k), -ℤ_parts b (pos n))

no_cost : (b : ℤ) (x : ℕ) → b ≤ℤ b +ℤ pos x
no_cost b x = omega (arith, +ℤ_parts b (pos x))

last_cost : (b b' : ℤ) (k x : ℕ) → b ≤ℤ b' +ℤ pos x → b -ℤ pos (k + x) ≤ℤ b'
last_cost b b' k x h = omega (arith, h, +ℤ_parts b' (pos x), -ℤ_parts b (pos (k + x)))

-- The residual does not depend on the index.
next_residual :
    (b : CancellationBranch) (st : CancellationState) (i : ℕ)
    → owner_residual b (record st { next_idx = i }) ≡ owner_residual b st
unfolding owner_residual
next_residual full_partner_then_residual st i = refl
next_residual pro_rata_partners st i = refl
next_residual owner_only st i = refl

same_residual :
    (st st' : CancellationState)
    → st' ≡ record st { next_idx = st'.next_idx }
    → owner_residual st'.branch st' ≡ owner_residual st.branch st
same_residual st st' kept =
    ap (λ (x : CancellationState). owner_residual x.branch x) kept
    ∙ next_residual st.branch st st'.next_idx

-- What a successful batch ran.
module _ (id size : ℕ) (op : OpId) (e : Env) (s : State) (r : EventRecord) (st : CancellationState)
    {k : ℕ} {s' : State} (h : process_cancel_batch id size op e s ≡ ok (k, s'))
    (w : IsUnderway r st (s.events id)) where
  batch_run :
      (left : ℕ) × (st' : CancellationState) × (t : State) × (refund_batch left id r st e
          (load id s)
        ≡ ok (st', t))
      × (s'.transfers ≡ t.transfers)
      × (s'.events id ≡ record t.here { cancellation_state = some st' })
  unfolding process_cancel_batch focus
  batch_run =
      let left = if ltb 15 size then 15 else size in
      elim (Result-cases (refund_batch left id r st e (load id s))) [
        | inr (inl (x, run)) ↦ absurd (ground (arith, w.event, w.state))
        | inr (inr run) ↦ absurd (ground (arith, w.event, w.state))
        | inl ((st', t), run) ↦
            (left, st', t, run, ground (arith, w.event, w.state), ground (arith, w.event, w.state))
      ]

  pub process_cancel_batch-free :
      (st' : CancellationState) × IsUnderway r st' (s'.events id)
      × (free r.token e.current_contract_address st s (s.events id)
          ≤ℤ free r.token e.current_contract_address st' s' (s'.events id))
  process_cancel_batch-free =
      let (left, st', t, run, log, entries) = batch_run in
      let b = refund_batch-IsBatch left id r st e (load id s) run w.register w.listed w.fits in
      let same = same_residual st st' b.kept in
      let count : st'.count_at_start ≡ st.count_at_start =
        ap (λ (x : CancellationState). x.count_at_start) b.kept in
      (
        st',
        rw entries (record {
          event = b.event ∙ w.event;
          state = refl;
          register = record { entries = b.register.entries; slots = b.register.slots };
          listed = omega (arith, count, b.count, w.listed);
          fits = omega (arith, count, w.fits);
        }),
        rw (log, entries, same) (with_residual _ _ _ _ _ b.money),
      )

abbrev paged_entries : EventRecord → EventData → EventData
paged_entries r d = record d {
  event = some (current (record r { status = cancelling }));
  owed_total = some (pos 0);
  non_owner_contribution_total = some (total_of d);
  cancellation_state = some (opened r d);
}

module _ (id : ℕ) (op : OpId) (e : Env) (s : State) (r : EventRecord) (st : CancellationState)
    {s' : State} (h : start_cancel id op e s ≡ ok (tt, s'))
    (e0 : (s.events id).event ≡ some (current r))
    (paged : (s'.events id).cancellation_state ≡ some st) where
  start_cancel-log : s'.transfers ≡ s.transfers
  unfolding start_cancel require_cancellable open_time get_or_init_non_owner_total cancel_for_owner
      cancel_in_pages focus release refund_owner
  start_cancel-log = ground arith

  start_cancel-entries : s'.events id ≡ paged_entries r (s.events id)
  unfolding start_cancel require_cancellable open_time get_or_init_non_owner_total cancel_for_owner
      cancel_in_pages focus release refund_owner
  start_cancel-entries = ground arith

  pub start_cancel-free :
      (n : ℕ)
      → IsFunded (s.events id)
      → r.remaining_escrow ≡ pos n
      → n ≤ i128_max
      → count_of (s.events id) ≤ u32_max
      → IsUnderway (record r { status = cancelling }) (opened r (s.events id)) (s'.events id)
        × (owned r.token e.current_contract_address s (s.events id) -ℤ pos n
            ≤ℤ free r.token e.current_contract_address (opened r (s.events id)) s' (s'.events id))
  start_cancel-free n f escrow fits words =
      let enough = promised r (s.events id) f n escrow fits in
      (
        rw start_cancel-entries (record {
          event = refl;
          state = refl;
          register = record { entries = f.register.entries; slots = f.register.slots };
          listed = omega arith;
          fits = words;
        }),
        rw (start_cancel-log, start_cancel-entries) (less_promised _ _ _ enough),
      )

-- What `finalize_cancel` pays.
module _ (id : ℕ) (op : OpId) (e : Env) (s : State) (r : EventRecord) (st : CancellationState)
    {s' : State} (h : finalize_cancel id op e s ≡ ok (tt, s'))
    (w : IsUnderway r st (s.events id)) where
  finalize_cancel-log :
      (s'.transfers ≡ s.transfers)
      ⊎ (s'.transfers
          ≡ leg r.token e.current_contract_address r.owner (owner_residual st.branch st)
            ∷ s.transfers)
  unfolding finalize_cancel focus refund_owner release
  finalize_cancel-log = elim (Bool-cases (ltb_ℤ (pos 0) (owner_residual st.branch st))) [
    | inl some_ ↦ inr (ground (arith, w.event, w.state))
    | inr nothing ↦ inl (ground (arith, w.event, w.state))
  ]

  finalize_cancel-entries : s'.events id ≡ record (s.events id) {
    event = some (current (closed r));
    cancellation_state = none;
    non_owner_contribution_total = some (pos 0);
  }
  unfolding finalize_cancel focus refund_owner release
  finalize_cancel-entries = ground (arith, w.event, w.state)

  finalize_cancel-held : held (s'.events id) ≡ held (s.events id)
  finalize_cancel-held = rw finalize_cancel-entries refl

  finalize_cancel-balance :
      balance r.token e.current_contract_address s.transfers
      ≤ℤ balance r.token e.current_contract_address s'.transfers
        +ℤ pos (units (owner_residual st.branch st))
  finalize_cancel-balance = elim finalize_cancel-log [
    | inl same ↦ rw same (no_cost _ _)
    | inr paid ↦
        leg-cost r.token e.current_contract_address r.owner (owner_residual st.branch st) s s' paid
  ]

  pub finalize_cancel-owned :
      free r.token e.current_contract_address st s (s.events id)
      ≤ℤ owned r.token e.current_contract_address s' (s'.events id)
  finalize_cancel-owned = rw finalize_cancel-held (
      last_cost _ _ (outstanding st (s.events id)) (units (owner_residual st.branch st))
        (spent-cost _ _ (held (s.events id)) _ finalize_cancel-balance))
