-- ===== src/EventOps/Solvency/Keeping.antt =====
-- The handlers that leave the award accounting alone or close it.
use boundless_contract.Chain.Steady.{IsSteady}
use boundless_contract.Base.{
  ℕ, ◌≡◌, some, arith, ◌⊎◌, inl, inr, Option-cases, Bool-cases, unwrap_or,
}
use boundless_contract.Base.Int.{leb_ℤ, pos}
use boundless_contract.Types.{Address, OpId, EventRecord, cancelling}
use boundless_contract.Chain.{EventData, State, Env, ok, focus, current, legacy}
use boundless_contract.Escrow.{release}
use boundless_contract.Admin.Guards.{open_time}
use boundless_contract.EventOps.Manager.{
  propose_manager, accept_manager, cancel_pending_manager, reclaim_management, write_proposal,
}
use boundless_contract.EventOps.Funds.{get_or_init_non_owner_total}
use boundless_contract.EventOps.Cancel.{
  start_cancel, finalize_cancel, claim_refund, require_cancellable, cancel_for_owner,
  cancel_in_pages, refund_owner, choose_branch, closed,
}
use boundless_contract.EventOps.Solvency.{IsCovered}

-- The entries that the invariant is about are as before.
abbrev pub Same : EventData → EventData → Type 0
Same d d' = (d'.event ≡ d.event) × (d'.owed_total ≡ d.owed_total)

-- A part of a handler that leaves them alone, and what no event holds.
abbrev pub Kept : State → State → Type 0
Kept s t = (t.here.event ≡ s.here.event) × (t.here.owed_total ≡ s.here.owed_total) × IsSteady s t

pub IsCovered-Same : (d d' : EventData) → Same d d' → IsCovered d → IsCovered d'
IsCovered-Same d d' same c = ground (arith, same)

-- The row of an event that is closed, and of one whose cancellation begins.
IsCovered-closed :
    (d d' : EventData) (r : EventRecord)
    → d.event ≡ some (current r)
    → d'.event ≡ some (current (closed r))
    → unwrap_or d'.owed_total (pos 0) ≡ pos 0
    → IsCovered d
    → IsCovered d'
IsCovered-closed d d' r h p q c = ground (arith, p, q)

IsCovered-cancelling :
    (d d' : EventData) (r : EventRecord)
    → d.event ≡ some (current r)
    → d'.event ≡ some (current (record r { status = cancelling }))
    → unwrap_or d'.owed_total (pos 0) ≡ pos 0
    → IsCovered d
    → IsCovered d'
IsCovered-cancelling d d' r h p q c = ground (arith, p, q)

-- An event that is being cancelled owes nothing.
cancelling_owes_nothing :
    (d : EventData) (r : EventRecord)
    → d.event ≡ some (current r)
    → r.status ≡ cancelling
    → IsCovered d
    → unwrap_or d.owed_total (pos 0) ≡ pos 0
cancelling_owes_nothing d r h k c = ground arith

module _ (id : ℕ) (e : Env) (s : State) {s' : State} where
  claim_refund-event :
      (who : Address) (op : OpId)
      → claim_refund id who op e s ≡ ok (tt, s')
      → (s'.events id).event ≡ (s.events id).event
  unfolding claim_refund focus release
  claim_refund-event who op h = ground arith

  claim_refund-owed :
      (who : Address) (op : OpId)
      → claim_refund id who op e s ≡ ok (tt, s')
      → (s'.events id).owed_total ≡ (s.events id).owed_total
  unfolding claim_refund focus release
  claim_refund-owed who op h = ground arith

  finalize_cancel-event :
      (op : OpId) (r : EventRecord)
      → (s.events id).event ≡ some (current r)
      → finalize_cancel id op e s ≡ ok (tt, s')
      → (r.status ≡ cancelling) × ((s'.events id).event ≡ some (current (closed r)))
  unfolding finalize_cancel focus release refund_owner
  finalize_cancel-event op r hr h = ground arith

  finalize_cancel-owed :
      (op : OpId)
      → finalize_cancel id op e s ≡ ok (tt, s')
      → (s'.events id).owed_total ≡ (s.events id).owed_total
  unfolding finalize_cancel focus release refund_owner
  finalize_cancel-owed op h = ground arith

  start_cancel-owed :
      (op : OpId) → start_cancel id op e s ≡ ok (tt, s') → (s'.events id).owed_total ≡ some (pos 0)
  unfolding start_cancel focus release require_cancellable open_time get_or_init_non_owner_total
      cancel_for_owner cancel_in_pages refund_owner
  start_cancel-owed op h = ground arith

  start_cancel-event :
      (op : OpId) (r : EventRecord)
      → (s.events id).event ≡ some (current r)
      → start_cancel id op e s ≡ ok (tt, s')
      → ((s'.events id).event ≡ some (current (closed r)))
        ⊎ ((s'.events id).event ≡ some (current (record r { status = cancelling })))
  unfolding start_cancel focus release require_cancellable open_time get_or_init_non_owner_total
      cancel_for_owner cancel_in_pages refund_owner choose_branch
  start_cancel-event op r hr h =
      elim (Bool-cases
        (leb_ℤ (unwrap_or (s.events id).non_owner_contribution_total (pos 0)) (pos 0))) [
          | inl alone ↦ inl (ground arith)
          | inr shared ↦ inr (ground arith)
        ]

module _ (id : ℕ) (op : OpId) (e : Env) (s : State) {s' : State} where
  start_cancel-row :
      start_cancel id op e s ≡ ok (tt, s')
      → (r : EventRecord) × ((s.events id).event ≡ some (current r))
  unfolding start_cancel focus
  start_cancel-row h = elim (Option-cases (s.events id).event) [
    | inl e0 ↦ absurd (ground arith)
    | inr (legacy _, e0) ↦ absurd (ground arith)
    | inr (current r, e0) ↦ (r, e0)
  ]

  finalize_cancel-row :
      finalize_cancel id op e s ≡ ok (tt, s')
      → (r : EventRecord) × ((s.events id).event ≡ some (current r))
  unfolding finalize_cancel focus
  finalize_cancel-row h = elim (Option-cases (s.events id).event) [
    | inl e0 ↦ absurd (ground arith)
    | inr (legacy _, e0) ↦ absurd (ground arith)
    | inr (current r, e0) ↦ (r, e0)
  ]

  pub start_cancel-IsCovered :
      IsCovered (s.events id) → start_cancel id op e s ≡ ok (tt, s') → IsCovered (s'.events id)
  start_cancel-IsCovered c h =
      let (r, row) = start_cancel-row h in
      let none_owed : unwrap_or (s'.events id).owed_total (pos 0) ≡ pos 0 =
        ground (arith, start_cancel-owed id e s op h) in
      elim (start_cancel-event id e s op r row h) [
        | inl done ↦ IsCovered-closed (s.events id) (s'.events id) r row done none_owed c
        | inr begun ↦ IsCovered-cancelling (s.events id) (s'.events id) r row begun none_owed c
      ]

  pub finalize_cancel-IsCovered :
      IsCovered (s.events id) → finalize_cancel id op e s ≡ ok (tt, s') → IsCovered (s'.events id)
  finalize_cancel-IsCovered c h =
      let (r, row) = finalize_cancel-row h in
      let (begun, done) = finalize_cancel-event id e s op r row h in
      let none_before = cancelling_owes_nothing (s.events id) r row begun c in
      let none_owed : unwrap_or (s'.events id).owed_total (pos 0) ≡ pos 0 =
        ground (arith, finalize_cancel-owed id e s op h) in
      IsCovered-closed (s.events id) (s'.events id) r row done none_owed c

  pub claim_refund-IsCovered :
      (who : Address)
      → IsCovered (s.events id)
      → claim_refund id who op e s ≡ ok (tt, s')
      → IsCovered (s'.events id)
  claim_refund-IsCovered who c h =
      IsCovered-Same (s.events id) (s'.events id)
        (claim_refund-event id e s who op h, claim_refund-owed id e s who op h) c

module _ (id : ℕ) (e : Env) (s : State) {s' : State} where
  pub propose_manager-Same :
      (m : Address) → propose_manager id m e s ≡ ok (tt, s') → Same (s.events id) (s'.events id)
  unfolding propose_manager write_proposal focus
  propose_manager-Same m h = ground arith

  pub accept_manager-Same : accept_manager id e s ≡ ok (tt, s') → Same (s.events id) (s'.events id)
  unfolding accept_manager focus
  accept_manager-Same h = ground arith

  pub cancel_pending_manager-Same :
      cancel_pending_manager id e s ≡ ok (tt, s') → Same (s.events id) (s'.events id)
  unfolding cancel_pending_manager focus
  cancel_pending_manager-Same h = ground arith

  pub reclaim_management-Same :
      reclaim_management id e s ≡ ok (tt, s') → Same (s.events id) (s'.events id)
  unfolding reclaim_management focus
  reclaim_management-Same h = ground arith
