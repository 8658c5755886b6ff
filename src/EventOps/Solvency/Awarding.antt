-- ===== src/EventOps/Solvency/Awarding.antt =====
-- The branches of `select_winners`: what they reserve, which the escrow covers.
use boundless_contract.Chain.Steady.{IsSteady}
use boundless_contract.Base.{
  ℕ, zero, suc, ◌+◌, ◌≡◌, ◌∙◌, List, [], ◌∷◌, length, some, arith, inl, inr, Option-cases,
  Bool-cases, unwrap_or, true,
}
use boundless_contract.Base.Int.{
  ℤ, pos, negsuc, ◌≤ℤ◌, ◌<ℤ◌, checked_add, checked_add-some, checked_mul, ◌*ℤ◌,
}
use boundless_contract.Base.Maps.{Map, insert}
use boundless_contract.Types.{
  EventRecord, WinnerSpec, GrantAward, ReleaseKind, single, multi, split,
}
use boundless_contract.Host.{Result-cases, ok}
use boundless_contract.Chain.{State, Env}
use boundless_contract.Grant.Shares.{every_milestone_pays, all_pay, milestone_share}
use boundless_contract.Notices.{winner_awarded}
use boundless_contract.Storage.Event.{push_winner}
use boundless_contract.EventOps.Select.{
  select_by, select_single, select_grant, single_total, grant_total, reserve, record_prizes,
  award_prizes, append_awards, publish_awards, extend_window, winner_row,
}
use boundless_contract.EventOps.Select.Awards.{award_prizes-Keeps}
use boundless_contract.EventOps.Select.Prizes.{single_total-ok, batch_units}
use boundless_contract.EventOps.Solvency.{has_shares}
use boundless_contract.EventOps.Solvency.Keeping.{Kept}
use boundless_contract.EventOps.Solvency.Paying.{as_pos}

-- An award of which every milestone pays something is positive.
split_pays :
    (a : ℤ) (b : ℕ) (rest : List ℕ)
    → all_pay (split (b ∷ rest)) a 0 (length (b ∷ rest)) ≡ true
    → pos 0 <ℤ a
unfolding all_pay milestone_share checked_mul ◌*ℤ◌
split_pays (pos zero) b rest h = absurd (ground arith)
split_pays (pos (suc n)) b rest h = omega arith
split_pays (negsuc n) b rest h = absurd (ground arith)

every_milestone_pays-positive :
    (kind : ReleaseKind) (a : ℤ)
    → has_shares kind ≡ true
    → every_milestone_pays kind a ≡ true
    → pos 0 <ℤ a
unfolding every_milestone_pays
every_milestone_pays-positive single a k h = absurd (ground arith)
every_milestone_pays-positive (multi n) a k h = ground arith
every_milestone_pays-positive (split []) a k h = absurd (ground arith)
every_milestone_pays-positive (split (b ∷ rest)) a k h = split_pays a b rest h

pub grant_total-nonneg :
    (r : EventRecord) (roster : Map GrantAward) (t : ℕ) (ws : List WinnerSpec) (e : Env) (s : State)
    {roster' : Map GrantAward} {total : ℤ} {s' : State}
    → has_shares r.release_kind ≡ true
    → grant_total r roster (pos t) ws e s ≡ ok ((roster', total), s')
    → (pos 0 ≤ℤ total) × (s' ≡ s)
unfolding grant_total
grant_total-nonneg r roster t [] e s k h = ground arith
grant_total-nonneg r roster t (w ∷ ws) e s {roster'} {total} {s'} k h =
    elim (Bool-cases (every_milestone_pays r.release_kind w.amount)) [
      | inr none_pays ↦ absurd (ground arith)
      | inl pays ↦
          let (n, en) =
            as_pos w.amount
              (omega (arith, every_milestone_pays-positive r.release_kind w.amount k pays)) in
          elim (Option-cases (checked_add (pos t) w.amount)) [
            | inl over ↦ absurd (ground arith)
            | inr (c, sum) ↦
                let next : c ≡ pos (t + n) = checked_add-some t n c (rw en at sum) in
                let roster1 =
                  insert w.recipient (record { position = w.position; amount = w.amount }) roster in
                let run : grant_total r roster1 (pos (t + n)) ws e s ≡ ok ((roster', total), s') =
                  ground arith in
                grant_total-nonneg r roster1 (t + n) ws e s k run
          ]
    ]

append_awards-same :
    (ws : List WinnerSpec) (e : Env) (s : State) {s' : State}
    → append_awards ws e s ≡ ok (tt, s')
    → Kept s s'
unfolding append_awards
append_awards-same [] e s h = ground arith
append_awards-same (w ∷ ws) e s {s'} h =
    let t : State = record s { here = push_winner (winner_row w) s.here } in
    let run : append_awards ws e t ≡ ok (tt, s') = ground arith in
    let kept = append_awards-same ws e t run in
    (
      kept.0,
      kept.1,
      record { config = kept.2.config; tokens = kept.2.tokens; op_seen = kept.2.op_seen },
    )

pub publish_awards-same :
    (id : ℕ) (ws : List WinnerSpec) (e : Env) (s : State) {s' : State}
    → publish_awards id ws e s ≡ ok (tt, s')
    → Kept s s'
unfolding publish_awards
publish_awards-same id [] e s h = ground arith
publish_awards-same id (w ∷ ws) e s {s'} h =
    let note = winner_awarded id w.recipient w.position w.amount in
    let t : State = record s { published = note ∷ s.published } in
    let run : publish_awards id ws e t ≡ ok (tt, s') = ground arith in
    let kept = publish_awards-same id ws e t run in
    (
      kept.0,
      kept.1,
      record { config = kept.2.config; tokens = kept.2.tokens; op_seen = kept.2.op_seen },
    )

-- A reservation: the amount that is owed after it, which the escrow covers.
pub record Reserved (s s' : State) (r : EventRecord) (c : ℤ) : Type 0 where
  pub nonneg : pos 0 ≤ℤ c
  pub covered : c ≤ℤ r.remaining_escrow
  pub owed_after : s'.here.owed_total ≡ some c
  pub steady : IsSteady s s'

reserve-Reserved :
    (r : EventRecord) (b o : ℕ) (e : Env) (s : State) {s' : State}
    → reserve r (pos b) (pos o) e s ≡ ok (tt, s')
    → (c : ℤ) × Reserved s s' r c
unfolding reserve
reserve-Reserved r b o e s h = elim (Option-cases (checked_add (pos b) (pos o))) [
  | inl over ↦ absurd (ground arith)
  | inr (c, sum) ↦
      let eq = checked_add-some b o c sum in
      (
        c,
        record {
          nonneg = ground arith;
          covered = ground arith;
          owed_after = ground arith;
          steady = ground arith;
        },
      )
]

record_prizes-owed :
    (ws : List WinnerSpec) (count now : ℕ) (e : Env) (s : State) {s' : State}
    → record_prizes ws count now e s ≡ ok (tt, s')
    → (s'.here.owed_total ≡ s.here.owed_total) × IsSteady s s'
unfolding record_prizes extend_window
record_prizes-owed ws count now e s h = elim (Result-cases (award_prizes count 0 ws e s)) [
  | inr (inl (x, r)) ↦ absurd (ground arith)
  | inr (inr r) ↦ absurd (ground arith)
  | inl ((_, t), r) ↦
      let k = award_prizes-Keeps count 0 ws e s r in
      (ground (arith, k.owed_total), ground (arith, k.steady))
]

module _ (r : EventRecord) (ws : List WinnerSpec) (o : ℕ) (e : Env) (s : State) {s' : State}
    (owed : unwrap_or s.here.owed_total (pos 0) ≡ pos o) where
  select_single-Reserved :
      (count now : ℕ) → select_single r ws count now e s ≡ ok (tt, s') → (c : ℤ) × Reserved s s' r c
  unfolding select_single
  select_single-Reserved count now h =
      elim (Result-cases (single_total r.prize_floors (pos 0) ws e s)) [
        | inr (inl (x, k)) ↦ absurd (ground arith)
        | inr (inr k) ↦ absurd (ground arith)
        | inl ((b, t), k) ↦
            let (same, total, _) = single_total-ok r.prize_floors 0 ws e s b k in
            elim (Result-cases (reserve r (pos (batch_units ws)) (pos o) e s)) [
              | inr (inl (x, k1)) ↦ absurd (ground arith)
              | inr (inr k1) ↦ absurd (ground arith)
              | inl ((_, u), k1) ↦
                  let (c, v) = reserve-Reserved r (batch_units ws) o e s k1 in
                  let run : record_prizes ws count now e u ≡ ok (tt, s') = ground arith in
                  let kept = record_prizes-owed ws count now e u run in
                  (
                    c,
                    record {
                      nonneg = v.nonneg;
                      covered = v.covered;
                      owed_after = kept.0 ∙ v.owed_after;
                      steady = ground (arith, kept.1, v.steady, same);
                    },
                  )
            ]
      ]

  select_grant-Reserved :
      has_shares r.release_kind ≡ true
      → select_grant r ws e s ≡ ok (tt, s')
      → (c : ℤ) × Reserved s s' r c
  unfolding select_grant
  select_grant-Reserved shares h = elim (Result-cases (grant_total r [] (pos 0) ws e s)) [
    | inr (inl (x, k)) ↦ absurd (ground arith)
    | inr (inr k) ↦ absurd (ground arith)
    | inl (((roster, b), t), k) ↦
        let (nonneg, same) = grant_total-nonneg r [] 0 ws e s shares k in
        let (n, en) = as_pos b nonneg in
        elim (Result-cases (reserve r (pos n) (pos o) e s)) [
          | inr (inl (x, k1)) ↦ absurd (ground arith)
          | inr (inr k1) ↦ absurd (ground arith)
          | inl ((_, u), k1) ↦
              let (c, v) = reserve-Reserved r n o e s k1 in
              let w : State = record u { here = record u.here { grant_roster = some roster } } in
              let run : append_awards ws e w ≡ ok (tt, s') = ground arith in
              let kept = append_awards-same ws e w run in
              (
                c,
                record {
                  nonneg = v.nonneg;
                  covered = v.covered;
                  owed_after = kept.1 ∙ v.owed_after;
                  steady = ground (arith, kept.2, v.steady, same);
                },
              )
        ]
  ]

  pub select_by-Reserved :
      (kind : ReleaseKind) (count now : ℕ)
      → has_shares r.release_kind ≡ true
      → select_by kind r ws count now e s ≡ ok (tt, s')
      → (c : ℤ) × Reserved s s' r c
  select_by-Reserved single count now shares h = select_single-Reserved count now h
  select_by-Reserved (multi n) count now shares h = select_grant-Reserved shares h
  select_by-Reserved (split l) count now shares h = select_grant-Reserved shares h
