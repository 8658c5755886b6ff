-- ===== src/EntryPoints/Keys.antt =====
-- contracts/events/src/admin.rs over all entry points: who can change the admin and the release validator.
use boundless_contract.Base.{
  ◌+◌, ◌≤◌, ◌≡◌, ◌⊎◌, ◌∙◌, true, Option, none, some, arith, inl, inr, Option-cases, min, refl, Bool,
  false,
}
use boundless_contract.Base.Word.{u32_max}
use boundless_contract.Types.{Address, PendingRotation}
use boundless_contract.Host.{ok, Result-cases}
use boundless_contract.Chain.{State, Env, Config}
use boundless_contract.Admin.Setup.{
  initialize, set_fee_account, set_profile_contract, set_fee_bps, register, deregister,
}
use boundless_contract.Admin.Rotation.{
  set_admin, accept_admin, propose_release_validator, accept_release_validator,
  cancel_pending_release_validator, clear_release_validator,
}
use boundless_contract.Admin.Pause.{pause, unpause}
use boundless_contract.Admin.Upgrade.{propose_upgrade, apply_upgrade, cancel_pending_upgrade}
use boundless_contract.Admin.Migrate.{migrate, migrate_events}
use boundless_contract.EventOps.Create.{create_event}
use boundless_contract.EventOps.Solvency.Creating.{create_event-Opened}
use boundless_contract.EventOps.Solvency.Calls.{handle-IsMarked}
use boundless_contract.EventOps.Solvency.Upkeep.{IsSolvent, migrate_events-config}
use boundless_contract.EntryPoints.{
  AdminCall, accept_admin_call, cancel_pending_release_validator_call, set_admin_call,
  accept_release_validator_call, propose_release_validator_call, clear_release_validator_call,
  administer, ContractCall, admin_call, migrate_events_call, create_call, event_call, perform,
}

-- The keys of a configuration.
record IsKept (c d : Config) : Type 0 where
  pub admin : d.admin ≡ c.admin
  pub pending_admin : d.pending_admin ≡ c.pending_admin
  pub validator : d.release_validator ≡ c.release_validator
  pub pending_validator : d.pending_release_validator ≡ c.pending_release_validator

IsKept-refl : (c : Config) → IsKept c c
IsKept-refl c = record {
  admin = refl;
  pending_admin = refl;
  validator = refl;
  pending_validator = refl;
}

abbrev is_admin_call : ContractCall → Bool
is_admin_call (admin_call c) = true
is_admin_call _ = false

-- A stored proposal: by the admin at the ledger `now`, for 120,960 ledgers.
pub record IsProposed (e : Env) (s : State) (p : PendingRotation) : Type 0 where
  pub admin : Address
  pub stored : s.config.admin ≡ some admin
  pub signed : e.authorized admin ≡ true
  pub deadline : e.sequence + 120960 ≤ u32_max → p.expires_at_ledger ≡ e.sequence + 120960

-- An acceptance: of the stored proposal, signed by its target, before its deadline.
pub record IsAccepted (e : Env) (stored : Option PendingRotation) (a : Address) : Type 0 where
  pub proposal : PendingRotation
  pub there : stored ≡ some proposal
  pub target : proposal.target ≡ a
  pub signed : e.authorized a ≡ true
  pub in_time : e.sequence ≤ proposal.expires_at_ledger

-- The admin `a` after a call from `s` to `t`: it stays, or the target of the stored proposal accepts.
abbrev pub AdminStep : Env → State → Address → State → Type 0
AdminStep e s a t =
    (t.config.admin ≡ some a)
    ⊎ ((b : Address) × (t.config.admin ≡ some b) × IsAccepted e s.config.pending_admin b)

-- A stored proposal after a call: it stays, goes, or the admin makes it.
abbrev pub ProposalStep : Env → State → Option PendingRotation → Option PendingRotation → Type 0
ProposalStep e s before after =
    (after ≡ before)
    ⊎ ((after ≡ none) ⊎ ((p : PendingRotation) × (after ≡ some p) × IsProposed e s p))

-- The release validator after a call: it stays, the admin clears it, or the target of the stored proposal
-- accepts.
abbrev pub ValidatorStep : Env → State → Address → State → Type 0
ValidatorStep e s a t =
    (t.config.release_validator ≡ s.config.release_validator)
    ⊎ (((t.config.release_validator ≡ none) × (e.authorized a ≡ true))
        ⊎ ((b : Address) × (t.config.release_validator ≡ some b)
            × IsAccepted e s.config.pending_release_validator b))

accepted :
    (e : Env) (stored : Option PendingRotation) (p : PendingRotation)
    → stored ≡ some p
    → e.authorized p.target ≡ true
    → e.sequence ≤ p.expires_at_ledger
    → IsAccepted e stored p.target
accepted e stored p there signed in_time = record {
  proposal = p;
  there = there;
  target = refl;
  signed = signed;
  in_time = in_time;
}

administer-admin :
    (c : AdminCall) (e : Env) (s : State) (a : Address) {t : State}
    → s.config.admin ≡ some a
    → administer c e s ≡ ok (tt, t)
    → AdminStep e s a t
unfolding administer initialize set_fee_account set_profile_contract set_fee_bps register deregister
    set_admin accept_admin propose_release_validator accept_release_validator
    cancel_pending_release_validator clear_release_validator pause unpause propose_upgrade
    apply_upgrade cancel_pending_upgrade migrate
administer-admin accept_admin_call e s a k h = elim (Option-cases s.config.pending_admin) [
  | inl none_ ↦ absurd (ground arith)
  | inr (p, there) ↦ inr (
    p.target,
    ground arith,
    accepted e s.config.pending_admin p there (ground arith) (ground arith),
  )
]
administer-admin c e s a k h = inl (ground arith)

administer-pending_admin :
    (c : AdminCall) (e : Env) (s : State) (a : Address) {t : State}
    → s.config.admin ≡ some a
    → administer c e s ≡ ok (tt, t)
    → ProposalStep e s s.config.pending_admin t.config.pending_admin
unfolding administer initialize set_fee_account set_profile_contract set_fee_bps register deregister
    set_admin accept_admin propose_release_validator accept_release_validator
    cancel_pending_release_validator clear_release_validator pause unpause propose_upgrade
    apply_upgrade cancel_pending_upgrade migrate
administer-pending_admin (set_admin_call b) e s a k h = inr (
    inr (
      record { target = b; expires_at_ledger = min (e.sequence + 120960) u32_max },
      ground arith,
      record { admin = a; stored = k; signed = ground arith; deadline = λ fits. ground arith },
    ))
administer-pending_admin accept_admin_call e s a k h = inr (inl (ground arith))
administer-pending_admin c e s a k h = inl (ground arith)

administer-validator :
    (c : AdminCall) (e : Env) (s : State) (a : Address) {t : State}
    → s.config.admin ≡ some a
    → administer c e s ≡ ok (tt, t)
    → ValidatorStep e s a t
unfolding administer initialize set_fee_account set_profile_contract set_fee_bps register deregister
    set_admin accept_admin propose_release_validator accept_release_validator
    cancel_pending_release_validator clear_release_validator pause unpause propose_upgrade
    apply_upgrade cancel_pending_upgrade migrate
administer-validator accept_release_validator_call e s a k h =
    elim (Option-cases s.config.pending_release_validator) [
      | inl none_ ↦ absurd (ground arith)
      | inr (p, there) ↦ inr (
          inr (
            p.target,
            ground arith,
            accepted e s.config.pending_release_validator p there (ground arith) (ground arith),
          ))
    ]
administer-validator clear_release_validator_call e s a k h = inr (inl (ground arith, ground arith))
administer-validator c e s a k h = inl (ground arith)

administer-pending_validator :
    (c : AdminCall) (e : Env) (s : State) (a : Address) {t : State}
    → s.config.admin ≡ some a
    → administer c e s ≡ ok (tt, t)
    → ProposalStep e s s.config.pending_release_validator t.config.pending_release_validator
unfolding administer initialize set_fee_account set_profile_contract set_fee_bps register deregister
    set_admin accept_admin propose_release_validator accept_release_validator
    cancel_pending_release_validator clear_release_validator pause unpause propose_upgrade
    apply_upgrade cancel_pending_upgrade migrate
administer-pending_validator (propose_release_validator_call b) e s a k h = inr (
    inr (
      record { target = b; expires_at_ledger = min (e.sequence + 120960) u32_max },
      ground arith,
      record { admin = a; stored = k; signed = ground arith; deadline = λ fits. ground arith },
    ))
administer-pending_validator accept_release_validator_call e s a k h = inr (inl (ground arith))
administer-pending_validator cancel_pending_release_validator_call e s a k h =
    inr (inl (ground arith))
administer-pending_validator clear_release_validator_call e s a k h = inr (inl (ground arith))
administer-pending_validator c e s a k h = inl (ground arith)

-- The other calls touch no key.
other-IsKept :
    (c : ContractCall) (e : Env) (s : State) {t : State}
    → IsSolvent s
    → is_admin_call c ≡ false
    → perform c e s ≡ ok (tt, t)
    → IsKept s.config t.config
unfolding perform
other-IsKept (admin_call c) e s solvent other h = absurd (ground arith)
other-IsKept (event_call id c) e s {t} solvent other h =
    let same = (handle-IsMarked id c e s (solvent.covered id) h).config in
    rw same (IsKept-refl s.config)
other-IsKept (migrate_events_call n) e s {t} solvent other h =
    elim (Result-cases (migrate_events n e s)) [
      | inr (inl (x, k)) ↦ absurd (ground arith)
      | inr (inr k) ↦ absurd (ground arith)
      | inl ((left, u), k) ↦
          let out : u ≡ t = ground arith in
          let same = migrate_events-config n e s k in ground (arith, out, same)
    ]
other-IsKept (create_call p op) e s {t} solvent other h =
    elim (Result-cases (create_event p op e s)) [
      | inr (inl (x, k)) ↦ absurd (ground arith)
      | inr (inr k) ↦ absurd (ground arith)
      | inl ((id, u), k) ↦
          let (_, _, opened, _, _) = create_event-Opened p op e s k in
          let out : u ≡ t = ground arith in ground (arith, out, opened.config)
    ]

-- The admin of a contract changes only by both keys, whatever entry point is called: it stays, or the call
-- carries the signature of the new admin, who is the target of the stored proposal, by its deadline; and a
-- proposal is stored only by a call with the admin's signature, for 120,960 ledgers. The premises are
-- that there is an admin, and the invariant of the events.
pub perform-admin :
    (c : ContractCall) (e : Env) (s : State) (a : Address) {t : State}
    → IsSolvent s
    → s.config.admin ≡ some a
    → perform c e s ≡ ok (tt, t)
    → AdminStep e s a t × ProposalStep e s s.config.pending_admin t.config.pending_admin
unfolding perform
perform-admin (admin_call c) e s a solvent k h =
    (administer-admin c e s a k h, administer-pending_admin c e s a k h)
perform-admin c e s a solvent k h =
    let same = other-IsKept c e s solvent refl h in (inl (same.admin ∙ k), inl same.pending_admin)

-- The release validator changes only by both keys, whatever entry point is called: it stays, or the admin
-- signs the call that clears it, or the call carries the signature of the new validator, who is the target
-- of the stored proposal, by its deadline; and a proposal is stored only by a call with the admin's
-- signature, for 120,960 ledgers. The premises are that there is an admin, and the invariant of the events.
pub perform-release_validator :
    (c : ContractCall) (e : Env) (s : State) (a : Address) {t : State}
    → IsSolvent s
    → s.config.admin ≡ some a
    → perform c e s ≡ ok (tt, t)
    → ValidatorStep e s a t
      × ProposalStep e s s.config.pending_release_validator t.config.pending_release_validator
unfolding perform
perform-release_validator (admin_call c) e s a solvent k h =
    (administer-validator c e s a k h, administer-pending_validator c e s a k h)
perform-release_validator c e s a solvent k h =
    let same = other-IsKept c e s solvent refl h in (inl same.validator, inl same.pending_validator)
