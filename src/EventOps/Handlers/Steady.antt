-- ===== src/EventOps/Handlers/Steady.antt =====
-- The calls on an event leave the configuration and the token list as they were, and mark their
-- operation id and no other.
use boundless_contract.Chain.Steady.{IsSteady, IsMarked}
use boundless_contract.EventOps.Handlers.Replay.{owner_of, manager_of, awardee_of}
use boundless_contract.Base.{
  ℕ, ◌≡◌, ◌∷◌, some, arith, inl, inr, Option-cases, Bool-cases, unwrap_or,
}
use boundless_contract.Base.Int.{ℤ, pos}
use boundless_contract.Types.{Address, OpId, EventRecord, CancellationBranch}
use boundless_contract.Host.{Result-cases, ok}
use boundless_contract.Chain.{State, Env, focus, load, current, legacy}
use boundless_contract.Notices.{cancellation_started}
use boundless_contract.EventOps.Solvency.Funding.{
  get_or_init_non_owner_total-same, take_contribution-same,
}
use boundless_contract.Escrow.{release}
use boundless_contract.Profile.{report}
use boundless_contract.Idempotency.{derive_child}
use boundless_contract.EventOps.Manager.{
  propose_manager, accept_manager, cancel_pending_manager, reclaim_management, write_proposal,
}
use boundless_contract.EventOps.Funds.{add_funds, take_contribution, get_or_init_non_owner_total}
use boundless_contract.EventOps.Cancel.{
  start_cancel, finalize_cancel, claim_refund, require_cancellable, cancel_for_owner,
  cancel_in_pages, refund_owner, choose_branch, is_owner_only,
}
use boundless_contract.EventOps.Claim.{claim_prize}
use boundless_contract.Grant.Shares.{standing, release_owed}
use boundless_contract.Grant.Settle.{forfeit_milestone}

require_cancellable-same :
    (r : EventRecord) (e : Env) (s : State) {s' : State}
    → require_cancellable r e s ≡ ok (tt, s')
    → s' ≡ s
unfolding require_cancellable
require_cancellable-same r e s h = ground arith

cancel_for_owner-IsSteady :
    (id : ℕ) (r : EventRecord) (e : Env) (s : State) {s' : State}
    → cancel_for_owner id r e s ≡ ok (tt, s')
    → IsSteady s s'
unfolding cancel_for_owner refund_owner release
cancel_for_owner-IsSteady id r e s h = ground arith

cancel_in_pages-IsSteady :
    (r : EventRecord) (total : ℤ) (count : ℕ) (b : CancellationBranch) (e : Env) (s : State)
    {s' : State}
    → cancel_in_pages r total count b e s ≡ ok (tt, s')
    → IsSteady s s'
unfolding cancel_in_pages
cancel_in_pages-IsSteady r total count b e s h = ground arith

module _ (id : ℕ) (e : Env) (s : State) {s' : State} where
  pub propose_manager-IsSteady :
      (m : Address) → propose_manager id m e s ≡ ok (tt, s') → IsSteady s s'
  unfolding propose_manager write_proposal focus
  propose_manager-IsSteady m h = ground arith

  pub accept_manager-IsSteady : accept_manager id e s ≡ ok (tt, s') → IsSteady s s'
  unfolding accept_manager focus
  accept_manager-IsSteady h = ground arith

  pub cancel_pending_manager-IsSteady : cancel_pending_manager id e s ≡ ok (tt, s') → IsSteady s s'
  unfolding cancel_pending_manager focus
  cancel_pending_manager-IsSteady h = ground arith

  pub reclaim_management-IsSteady : reclaim_management id e s ≡ ok (tt, s') → IsSteady s s'
  unfolding reclaim_management focus
  reclaim_management-IsSteady h = ground arith

  pub claim_refund-IsMarked :
      (who : Address) (op : OpId)
      → claim_refund id who op e s ≡ ok (tt, s')
      → IsMarked e (some who) (some op) s s'
  unfolding claim_refund focus release
  claim_refund-IsMarked who op h = ground arith

  pub finalize_cancel-IsMarked :
      (op : OpId)
      → finalize_cancel id op e s ≡ ok (tt, s')
      → IsMarked e (some e.current_contract_address) (some op) s s'
  unfolding finalize_cancel focus release refund_owner
  finalize_cancel-IsMarked op h = ground arith

  pub start_cancel-IsMarked :
      (op : OpId)
      → start_cancel id op e s ≡ ok (tt, s')
      → IsMarked e (manager_of (s.events id)) (some op) s s'
  unfolding start_cancel focus
  start_cancel-IsMarked op h = elim (Option-cases (s.events id).event) [
    | inl e0 ↦ absurd (ground arith)
    | inr (legacy _, e0) ↦ absurd (ground arith)
    | inr (current r, e0) ↦ elim (Result-cases (require_cancellable r e (load id s))) [
      | inr (inl (x, k)) ↦ absurd (ground arith)
      | inr (inr k) ↦ absurd (ground arith)
      | inl ((_, s1), k) ↦
          let same = require_cancellable-same r e (load id s) k in
          let s2 : State = record (load id s) {
            here = record (s.events id) { owed_total = some (pos 0) };
          } in
          elim (Result-cases (get_or_init_non_owner_total e s2)) [
            | inr (inl (x, k1)) ↦ absurd (ground arith)
            | inr (inr k1) ↦ absurd (ground arith)
            | inl ((total, s3), k1) ↦
                let kept = get_or_init_non_owner_total-same e s2 k1 in
                let count = unwrap_or (s.events id).contributor_count 0 in
                let branch = choose_branch total r.remaining_escrow in
                let note = cancellation_started id branch r.remaining_escrow total in
                let s4 : State = record s3 { published = note ∷ s3.published } in
                elim (Bool-cases (is_owner_only branch)) [
                  | inl alone ↦ elim (Result-cases (cancel_for_owner id r e s4)) [
                    | inr (inl (x, k2)) ↦ absurd (ground arith)
                    | inr (inr k2) ↦ absurd (ground arith)
                    | inl ((_, s5), k2) ↦
                        ground (arith, kept, cancel_for_owner-IsSteady id r e s4 k2)
                  ]
                  | inr shared ↦ elim (Result-cases (cancel_in_pages r total count branch e s4)) [
                    | inr (inl (x, k2)) ↦ absurd (ground arith)
                    | inr (inr k2) ↦ absurd (ground arith)
                    | inl ((_, s5), k2) ↦
                        ground (arith, kept, cancel_in_pages-IsSteady r total count branch e s4 k2)
                  ]
                ]
          ]
    ]
  ]

  pub forfeit_milestone-IsMarked :
      (who : Address) (m : ℕ) (op : OpId)
      → forfeit_milestone id who m op e s ≡ ok (tt, s')
      → IsMarked e (owner_of (s.events id).event) (some op) s s'
  unfolding forfeit_milestone focus release_owed standing
  forfeit_milestone-IsMarked who m op h = ground arith

  pub claim_prize-IsMarked :
      (p : ℕ) (op : OpId)
      → claim_prize id p op e s ≡ ok (tt, s')
      → IsMarked e (awardee_of ((s.events id).prize_award p)) (some op) s s'
  unfolding claim_prize focus release_owed report derive_child release
  claim_prize-IsMarked p op h = ground arith

  pub add_funds-IsMarked :
      (from : Address) (a : ℤ) (op : OpId)
      → add_funds id from a op e s ≡ ok (tt, s')
      → IsMarked e (some from) (some op) s s'
  unfolding add_funds focus
  add_funds-IsMarked from a op h = elim (Option-cases (s.events id).event) [
    | inl e0 ↦ absurd (ground arith)
    | inr (legacy _, e0) ↦ absurd (ground arith)
    | inr (current r, e0) ↦ elim (Result-cases (take_contribution r from a e (load id s))) [
      | inr (inl (x, k)) ↦ absurd (ground arith)
      | inr (inr k) ↦ absurd (ground arith)
      | inl ((c, t), k) ↦
          let kept = take_contribution-same r from a e (load id s) k in ground (arith, kept)
    ]
  ]
