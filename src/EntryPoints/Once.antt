-- ===== src/EntryPoints/Once.antt =====
-- contracts/events/src/idempotency.rs over all entry points: an operation id is used up for good.
use boundless_contract.Base.{
  ℕ, ◌+◌, ◌<◌, Bool-cases, refl, Option-cases, ⊤, ◌≡◌, true, false, List, [], ◌∷◌, All, Option,
  none, some, arith, inl, inr,
}
use boundless_contract.Types.{Address, OpId, Error}
use boundless_contract.Host.{Result, ok, err, trap, Result-cases, is_ok}
use boundless_contract.Chain.{State, Env, life, lives}
use boundless_contract.Chain.Steady.{marked}
use boundless_contract.Admin.Migrate.{migrate_events}
use boundless_contract.EventOps.Create.{create_event}
use boundless_contract.EventOps.Handlers.Replay.{op_of, domain_of, handle_replayed}
use boundless_contract.EventOps.Solvency.Creating.{create_event-Opened}
use boundless_contract.EventOps.Solvency.Calls.{handle-IsMarked}
use boundless_contract.EventOps.Solvency.Upkeep.{IsSolvent, migrate_events-same}
use boundless_contract.EventOps.Solvency.History.{HasWordBudget, perform-IsSolvent, kept-IsSolvent}
use boundless_contract.EntryPoints.{
  ContractCall, admin_call, migrate_events_call, create_call, event_call, perform, kept, history,
}
use boundless_contract.EntryPoints.Quiet.{administer-IsQuiet}

-- The operation id of a call.
abbrev pub op_id_of : ContractCall → Option OpId
op_id_of (create_call params op) = some op
op_id_of (event_call id c) = op_of c
op_id_of _ = none

-- The address that it is counted under.
abbrev pub charged_to : Env → State → ContractCall → Option Address
charged_to e s (create_call params op) = some params.owner
charged_to e s (event_call id c) = domain_of e (s.events id) c
charged_to e s _ = none

abbrev pub IsSeen : ℕ → Address → OpId → State → Type 0
IsSeen k who op s = k < life (s.op_seen who op)

-- What a call does to the marks.
perform-op_seen :
    (c : ContractCall) (e : Env) (s : State) {t : State}
    → IsSolvent s
    → perform c e s ≡ ok (tt, t)
    → t.op_seen ≡ marked e (charged_to e s c) (op_id_of c) s.op_seen
unfolding perform
perform-op_seen (admin_call c) e s solvent h = (administer-IsQuiet c e s h).op_seen
perform-op_seen (migrate_events_call n) e s {t} solvent h =
    elim (Result-cases (migrate_events n e s)) [
      | inr (inl (x, k)) ↦ absurd (ground arith)
      | inr (inr k) ↦ absurd (ground arith)
      | inl ((left, u), k) ↦
          let out : u ≡ t = ground arith in
          let (_, seen) = migrate_events-same n e s k in ground (arith, out, seen)
    ]
perform-op_seen (event_call id c) e s solvent h =
    (handle-IsMarked id c e s (solvent.covered id) h).op_seen
perform-op_seen (create_call p op) e s {t} solvent h = elim (Result-cases (create_event p op e s)) [
  | inr (inl (x, k)) ↦ absurd (ground arith)
  | inr (inr k) ↦ absurd (ground arith)
  | inl ((id, u), k) ↦
      let (_, _, _, _, seen) = create_event-Opened p op e s k in
      let out : u ≡ t = ground arith in ground (arith, out, seen)
]

perform_replayed :
    (c : ContractCall) (e : Env) (s : State) (who : Address) (op : OpId)
    → op_id_of c ≡ some op
    → charged_to e s c ≡ some who
    → lives e (s.op_seen who op) ≡ true
    → is_ok (perform c e s) ≡ false
unfolding perform create_event
perform_replayed (admin_call c) e s who op h k seen = absurd (ground arith)
perform_replayed (migrate_events_call n) e s who op h k seen = absurd (ground arith)
perform_replayed (event_call id c) e s who op h k seen = handle_replayed id c e s who op h k seen
perform_replayed (create_call p op') e s who op h k seen = ground arith

-- A mark that lasts beyond the ledger `k` does so after every call: one that lapses is written anew only
-- later.
perform-IsSeen :
    (k : ℕ) (c : ContractCall) (e : Env) (s : State) (who : Address) (op : OpId) {t : State}
    → IsSolvent s
    → IsSeen k who op s
    → perform c e s ≡ ok (tt, t)
    → IsSeen k who op t
perform-IsSeen k c e s who op solvent seen h =
    let marks = perform-op_seen c e s solvent h in
    elim (Option-cases (charged_to e s c)) [
      | inl free ↦ ground (arith, marks, free)
      | inr (w, charged) ↦ elim (Option-cases (op_id_of c)) [
        | inl free ↦ ground (arith, marks, charged, free)
        | inr (o, given) ↦ elim (Bool-cases (lives e (s.op_seen w o))) [
          | inl alive ↦
              let failed = perform_replayed c e s w o given charged alive in
              absurd (ground (arith, failed, h))
          | inr lapsed ↦ ground (arith, marks, charged, given, lapsed)
        ]
      ]
    ]

kept-IsSeen :
    (k : ℕ) (who : Address) (op : OpId) (s : State) (r : Result Error (⊤ × State))
    → IsSeen k who op s
    → ((t : State) → r ≡ ok (tt, t) → IsSeen k who op t)
    → IsSeen k who op (kept s r)
kept-IsSeen k who op s (ok (_, t)) seen step = step t refl
kept-IsSeen k who op s (err x) seen step = seen
kept-IsSeen k who op s trap seen step = seen

history-IsSeen :
    (k : ℕ) (calls : List (Env × ContractCall)) (s : State) (who : Address) (op : OpId)
    → All HasWordBudget calls
    → IsSolvent s
    → IsSeen k who op s
    → IsSeen k who op (history calls s)
unfolding history
history-IsSeen k [] s who op words solvent seen = seen
history-IsSeen k ((e, c) ∷ rest) s who op words solvent seen =
    history-IsSeen k rest (kept s (perform c e s)) who op words.1
      (kept-IsSolvent s (perform c e s) solvent (λ t h. perform-IsSolvent c e s words.0 solvent h))
      (kept-IsSeen k who op s (perform c e s) seen
        (λ t h. perform-IsSeen k c e s who op solvent seen h))

-- An operation id works once for an address while its mark lives: after a call that succeeds with it, and
-- any history of calls, no call with the same id that is counted under the same address succeeds at a
-- ledger before the end of the mark's lifetime, which is the network's minimum from the first call on.
-- The premises are the invariant of the events and that each budget is an `i128`.
pub perform_once :
    (c c' : ContractCall) (calls : List (Env × ContractCall)) (e e' : Env) (s : State)
    (who : Address) (op : OpId) {t : State}
    → IsSolvent s
    → HasWordBudget (e, c)
    → All HasWordBudget calls
    → op_id_of c ≡ some op
    → charged_to e s c ≡ some who
    → perform c e s ≡ ok (tt, t)
    → e'.sequence < e.sequence + e.min_temporary_ttl
    → op_id_of c' ≡ some op
    → charged_to e' (history calls t) c' ≡ some who
    → is_ok (perform c' e' (history calls t)) ≡ false
perform_once c c' calls e e' s who op {t} solvent word words given charged h soon given' charged' =
    let marks = perform-op_seen c e s solvent h in
    let seen : IsSeen e'.sequence who op t = ground (arith, marks, charged, given) in
    let solvent' = perform-IsSolvent c e s word solvent h in
    let kept = history-IsSeen e'.sequence calls t who op words solvent' seen in
    perform_replayed c' e' (history calls t) who op given' charged' (ground arith)
