-- ===== src/EventOps/Solvency/Releases.antt =====
-- The release of a milestone keeps what is owed within the escrow, for grants and for campaigns.
use boundless_contract.Chain.Steady.{IsSteady, IsMarked}
use boundless_contract.EventOps.Handlers.Replay.{owner_of}
use boundless_contract.Base.{
  ℕ, ◌≡◌, ◌≤◌, Option, none, some, arith, inl, inr, Option-cases, Bool-cases, unwrap_or, true,
}
use boundless_contract.Base.Int.{ℤ, pos, ◌≤ℤ◌, ◌<ℤ◌, checked_sub, checked_sub-nonneg}
use boundless_contract.Base.Maps.{update}
use boundless_contract.Types.{Address, OpId, EventRecord, is_crowdfunding}
use boundless_contract.Host.{Result-cases, ok}
use boundless_contract.Chain.{live_until, State, Env, EventData, focus, load, current, legacy}
use boundless_contract.Escrow.{release, release_with_fee_at}
use boundless_contract.Profile.{report}
use boundless_contract.Idempotency.{derive_child}
use boundless_contract.Admin.Guards.{release_cosigner}
use boundless_contract.Grant.Shares.{Standing, standing, share, release_owed}
use boundless_contract.Grant.Settle.{
  paid_out, claim_milestone, require_claimable, milestone_due, disburse, record_release,
  standing_of, amount_of,
}
use boundless_contract.EventOps.Solvency.{IsCovered}
use boundless_contract.EventOps.Solvency.Keeping.{Kept}
use boundless_contract.EventOps.Solvency.Milestones.{Amount-cases}
use boundless_contract.EventOps.Solvency.Paying.{as_pos, Amounts, amounts, paid-IsCovered, paid_row}

release_with_fee_at-same :
    (token who : Address) (a : ℤ) (bps : ℕ) (e : Env) (s : State) {s' : State}
    → release_with_fee_at token who a bps e s ≡ ok (tt, s')
    → Kept s s'
unfolding release_with_fee_at
release_with_fee_at-same token who a bps e s h = ground arith

module _ (id : ℕ) (r : EventRecord) (who : Address) (m : ℕ) (a : ℤ) (bump : ℕ) (op : OpId) (e : Env)
    (s : State) {s' : State} where
  pub disburse-same :
      disburse id r who m a bump op e s ≡ ok (tt, s')
      → (s'.here.event ≡ s.here.event)
        × (s'.here.owed_total ≡ s.here.owed_total)
        × IsMarked e (some r.owner) (some op) s s'
  unfolding disburse report derive_child release
  disburse-same h = elim (Bool-cases (is_crowdfunding r.pillar)) [
    | inr award ↦ ground arith
    | inl campaign ↦
        let rate = unwrap_or r.fee_bps_override (unwrap_or s.config.fee_bps 0) in
        let marked = record s {
          op_seen = update s.op_seen r.owner (update (s.op_seen r.owner) op (some (live_until e)));
        } in
        elim (Result-cases (release_with_fee_at r.token who a rate e marked)) [
          | inr (inl (x, k)) ↦ absurd (ground arith)
          | inr (inr k) ↦ absurd (ground arith)
          | inl ((_, t), k) ↦ ground (arith, release_with_fee_at-same r.token who a rate e marked k)
        ]
  ]

-- A release out of an award: what it takes off both amounts.
record FromAward (d d' : EventData) (r : EventRecord) (a left : ℤ) : Type 0 where
  pub event_after : d'.event ≡ some (current (paid_out r a))
  pub owed : checked_sub (unwrap_or d.owed_total (pos 0)) a ≡ some left
  pub owed_covers : pos 0 ≤ℤ left
  pub owed_after : d'.owed_total ≡ some left

record_release-FromAward :
    (r : EventRecord) (who : Address) (m : ℕ) (a : ℤ) (st : Standing) (e : Env) (s : State)
    {s' : State}
    → record_release r who m a (some st) e s ≡ ok (tt, s')
    → (left : ℤ) × FromAward s.here s'.here r a left
unfolding record_release release_owed
record_release-FromAward r who m a st e s h =
    elim (Option-cases (checked_sub (unwrap_or s.here.owed_total (pos 0)) a)) [
      | inl e4 ↦ absurd (ground arith)
      | inr (left, e4) ↦ (
        left,
        record {
          event_after = ground arith;
          owed = e4;
          owed_covers = ground arith;
          owed_after = ground arith;
        },
      )
    ]

record_release-campaign :
    (r : EventRecord) (who : Address) (m : ℕ) (a : ℤ) (e : Env) (s : State) {s' : State}
    → record_release r who m a none e s ≡ ok (tt, s')
    → (s'.here.event ≡ some (current (paid_out r a))) × (s'.here.owed_total ≡ s.here.owed_total)
unfolding record_release
record_release-campaign r who m a e s h = ground arith

-- What `milestone_due` allows: the state is as before, the amount fits, and only a campaign pays
-- without a standing.
pub record Due (s t : State) (r : EventRecord) (st : Option Standing) (a : ℤ) : Type 0 where
  pub unchanged : t ≡ s
  pub positive : pos 0 <ℤ a
  pub covered : a ≤ℤ r.remaining_escrow
  pub campaign : st ≡ none → is_crowdfunding r.pillar ≡ true

standing_of-same :
    (r : EventRecord) (who : Address) (e : Env) (s : State) {st : Option Standing} {t : State}
    → standing_of r who e s ≡ ok (st, t)
    → (t ≡ s) × (st ≡ none → is_crowdfunding r.pillar ≡ true)
unfolding standing_of standing
standing_of-same r who e s h = ground arith

amount_of-same :
    (r : EventRecord) (total m : ℕ) (st : Option Standing) (e : Env) (s : State) {a : ℤ} {t : State}
    → amount_of r total m st e s ≡ ok (a, t)
    → t ≡ s
unfolding amount_of
amount_of-same r total m (some st) e s h = elim (Amount-cases (share st r.release_kind total m)) [
  | inl (a, k) ↦ ground arith
  | inr (f, k) ↦ ground arith
]
amount_of-same r total m none e s h = ground arith

require_claimable-same :
    (r : EventRecord) (who : Address) (m : ℕ) (op : OpId) (e : Env) (s : State) {total : ℕ}
    {t : State}
    → require_claimable r who m op e s ≡ ok (total, t)
    → t ≡ s
unfolding require_claimable release_cosigner
require_claimable-same r who m op e s h = elim (Bool-cases (is_crowdfunding r.pillar)) [
  | inl c ↦ ground arith
  | inr c ↦ ground arith
]

pub milestone_due-Due :
    (r : EventRecord) (who : Address) (m total : ℕ) (e : Env) (s : State) {st : Option Standing}
    {a : ℤ} {t : State}
    → milestone_due r who m total e s ≡ ok ((st, a), t)
    → Due s t r st a
unfolding milestone_due
milestone_due-Due r who m total e s h = elim (Result-cases (standing_of r who e s)) [
  | inr (inl (x, e2)) ↦ absurd (ground arith)
  | inr (inr e2) ↦ absurd (ground arith)
  | inl ((st', u), e2) ↦
      let (same, campaign) = standing_of-same r who e s e2 in
      let e2' : standing_of r who e s ≡ ok (st', s) = rw same at e2 in
      elim (Result-cases (amount_of r total m st' e s)) [
        | inr (inl (x, e3)) ↦ absurd (ground arith)
        | inr (inr e3) ↦ absurd (ground arith)
        | inl ((a', v), e3) ↦
            let same' = amount_of-same r total m st' e s e3 in
            record {
              unchanged = ground arith;
              positive = ground arith;
              covered = ground arith;
              campaign = ground arith;
            }
      ]
]

record_release-IsSteady :
    (r : EventRecord) (who : Address) (m : ℕ) (a : ℤ) (st : Option Standing) (e : Env) (s : State)
    {s' : State}
    → record_release r who m a st e s ≡ ok (tt, s')
    → IsSteady s s'
unfolding record_release release_owed
record_release-IsSteady r who m a none e s h = ground arith
record_release-IsSteady r who m a (some st) e s h = ground arith

-- A campaign owes nothing, whatever it pays.
campaign_paid-IsCovered :
    (d d' : EventData) (r : EventRecord) (n o x : ℕ)
    → d.event ≡ some (current r)
    → Amounts d r n o
    → x ≤ n
    → is_crowdfunding r.pillar ≡ true
    → d'.event ≡ some (current (paid_out r (pos x)))
    → d'.owed_total ≡ d.owed_total
    → IsCovered d
    → IsCovered d'
unfolding paid_out
campaign_paid-IsCovered d d' r n o x h a le campaign e' o' c =
    let row = paid_row r n x a.escrow le a.fits in
    record {
      owed = ground (arith, o', c.owed);
      within = ground (arith, o', e', row, campaign, c.within);
      escrow = ground (arith, e', row);
      fits = ground (arith, e', row, a.fits);
      kind = ground (arith, e', row, h, c.kind);
    }

module _ (id : ℕ) (who : Address) (m bump : ℕ) (op : OpId) (e : Env) (s : State) {s' : State}
    (h : claim_milestone id who m bump op e s ≡ ok (tt, s')) where
  -- The checks, the two calls after them, and what the last leaves.
  pub claim_milestone-runs :
      (r : EventRecord) × (total : ℕ) × (st : Option Standing) × (a : ℤ) × (t : State) × (u : State)
      × (v : State) × ((s.events id).event ≡ some (current r))
      × (milestone_due r who m total e (load id s) ≡ ok ((st, a), t))
      × (record_release r who m a st e t ≡ ok (tt, u))
      × (disburse id r who m a bump op e u ≡ ok (tt, v))
      × (s'.events id ≡ v.here)
      × IsSteady v s'
  unfolding claim_milestone focus
  claim_milestone-runs = elim (Option-cases (s.events id).event) [
    | inl e0 ↦ absurd (ground arith)
    | inr (legacy _, e0) ↦ absurd (ground arith)
    | inr (current r, e0) ↦ elim (Result-cases (require_claimable r who m op e (load id s))) [
      | inr (inl (x, k0)) ↦ absurd (ground arith)
      | inr (inr k0) ↦ absurd (ground arith)
      | inl ((total, t0), k0) ↦
          let same0 = require_claimable-same r who m op e (load id s) k0 in
          elim (Result-cases (milestone_due r who m total e (load id s))) [
            | inr (inl (x, k)) ↦ absurd (ground arith)
            | inr (inr k) ↦ absurd (ground arith)
            | inl (((st, a), t), k) ↦ elim (Result-cases (record_release r who m a st e t)) [
              | inr (inl (x, k1)) ↦ absurd (ground arith)
              | inr (inr k1) ↦ absurd (ground arith)
              | inl ((_, u), k1) ↦ elim (Result-cases (disburse id r who m a bump op e u)) [
                | inr (inl (x, k2)) ↦ absurd (ground arith)
                | inr (inr k2) ↦ absurd (ground arith)
                | inl ((_, v), k2) ↦
                    (r, total, st, a, t, u, v, e0, k, k1, k2, ground arith, ground arith)
              ]
            ]
          ]
    ]
  ]

  pub claim_milestone-IsCovered : IsCovered (s.events id) → IsCovered (s'.events id)
  unfolding paid_out
  claim_milestone-IsCovered c =
      let (r, total, st, a, t, u, v, e0, k, k1, k2, kept, _) = claim_milestone-runs in
      let due = milestone_due-Due r who m total e (load id s) k in
      let same = disburse-same id r who m a bump op e u k2 in
      let (n, o, w) = amounts (s.events id) r e0 c in
      let (x, ex) = as_pos a (omega (arith, due.positive)) in
      elim (Option-cases st) [
        | inr (award, es) ↦
            let (left, f) = record_release-FromAward r who m a award e t (rw es at k1) in
            let diff : checked_sub (pos o) (pos x) ≡ some left =
              ground (arith, f.owed, w.owed, due.unchanged) in
            let (le, eq) = checked_sub-nonneg o x left diff f.owed_covers in
            paid-IsCovered (s.events id) (s'.events id) r n o x e0 w (ground (arith, due.positive))
              le (ground (arith, f.event_after, same, kept))
              (ground (arith, f.owed_after, eq, same, kept)) c
        | inl es ↦
            let (row, owed) = record_release-campaign r who m a e t (rw es at k1) in
            campaign_paid-IsCovered (s.events id) (s'.events id) r n o x e0 w
              (ground (arith, due.covered, w.escrow)) (due.campaign es)
              (ground (arith, row, same, kept)) (ground (arith, owed, due.unchanged, same, kept)) c
      ]

  pub claim_milestone-IsMarked : IsMarked e (owner_of (s.events id).event) (some op) s s'
  claim_milestone-IsMarked =
      let (r, total, st, a, t, u, v, e0, k, k1, k2, kept, after) = claim_milestone-runs in
      let due = milestone_due-Due r who m total e (load id s) k in
      let same = disburse-same id r who m a bump op e u k2 in
      let written = record_release-IsSteady r who m a st e t k1 in
      record {
        config = ground (arith, after.config, same.2, written.config, due.unchanged);
        tokens = ground (arith, after.tokens, same.2, written.tokens, due.unchanged);
        op_seen = ground (arith, after.op_seen, same.2, written.op_seen, due.unchanged, e0);
      }
