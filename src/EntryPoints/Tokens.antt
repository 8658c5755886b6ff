-- ===== src/EntryPoints/Tokens.antt =====
-- contracts/events/src/token_whitelist.rs over all entry points: the token list stays in step with the
-- flags.
use boundless_contract.Base.{◌+◌, ◌≤◌, ◌<◌, ◌≡◌, List, [], ◌∷◌, length, All, arith, inl, inr}
use boundless_contract.Base.Word.{u32_max}
use boundless_contract.Host.{ok, Result-cases}
use boundless_contract.Chain.{State, Env, Whitelist}
use boundless_contract.Storage.Tokens.{supported_token_count}
use boundless_contract.Storage.Tokens.Listed.{
  IsListed, registered, deregistered, registered-IsListed, deregistered-IsListed, registered_count,
  deregistered_count,
}
use boundless_contract.Admin.Setup.{
  initialize, set_fee_account, set_profile_contract, set_fee_bps, register, deregister,
}
use boundless_contract.Admin.Rotation.{
  set_admin, accept_admin, propose_release_validator, accept_release_validator,
  cancel_pending_release_validator, clear_release_validator,
}
use boundless_contract.Admin.Pause.{pause, unpause}
use boundless_contract.Admin.Upgrade.{propose_upgrade, apply_upgrade, cancel_pending_upgrade}
use boundless_contract.Admin.Migrate.{migrate, migrate_events}
use boundless_contract.EventOps.Create.{create_event}
use boundless_contract.EventOps.Solvency.Creating.{create_event-Opened}
use boundless_contract.EventOps.Solvency.Calls.{handle-IsMarked}
use boundless_contract.EventOps.Solvency.Upkeep.{IsSolvent, migrate_events-same}
use boundless_contract.EventOps.Solvency.History.{HasWordBudget, perform-IsSolvent, kept-IsSolvent}
use boundless_contract.EntryPoints.{
  AdminCall, administer, register_supported_token_call, deregister_supported_token_call,
  ContractCall, admin_call, migrate_events_call, create_call, event_call, perform, kept, history,
}

-- What a call does to the token list.
abbrev admin_effect : AdminCall → Whitelist → Whitelist
admin_effect (register_supported_token_call t) w = registered t w
admin_effect (deregister_supported_token_call t) w = deregistered t w
admin_effect _ w = w

abbrev token_effect : ContractCall → Whitelist → Whitelist
token_effect (admin_call c) w = admin_effect c w
token_effect _ w = w

administer-tokens :
    (c : AdminCall) (e : Env) (s : State) {t : State}
    → administer c e s ≡ ok (tt, t)
    → t.tokens ≡ admin_effect c s.tokens
unfolding administer initialize set_fee_account set_profile_contract set_fee_bps register deregister
    set_admin accept_admin propose_release_validator accept_release_validator
    cancel_pending_release_validator clear_release_validator pause unpause propose_upgrade
    apply_upgrade cancel_pending_upgrade migrate
administer-tokens (register_supported_token_call tok) e s h = ground arith
administer-tokens (deregister_supported_token_call tok) e s h = ground arith
administer-tokens c e s h = ground arith

perform-tokens :
    (c : ContractCall) (e : Env) (s : State) {t : State}
    → IsSolvent s
    → perform c e s ≡ ok (tt, t)
    → t.tokens ≡ token_effect c s.tokens
unfolding perform
perform-tokens (admin_call c) e s solvent h = administer-tokens c e s h
perform-tokens (migrate_events_call n) e s {t} solvent h =
    elim (Result-cases (migrate_events n e s)) [
      | inr (inl (x, k)) ↦ absurd (ground arith)
      | inr (inr k) ↦ absurd (ground arith)
      | inl ((left, u), k) ↦
          let out : u ≡ t = ground arith in
          let (tokens, _) = migrate_events-same n e s k in ground (arith, out, tokens)
    ]
perform-tokens (event_call id c) e s solvent h =
    (handle-IsMarked id c e s (solvent.covered id) h).tokens
perform-tokens (create_call p op) e s {t} solvent h = elim (Result-cases (create_event p op e s)) [
  | inr (inl (x, k)) ↦ absurd (ground arith)
  | inr (inr k) ↦ absurd (ground arith)
  | inl ((id, u), k) ↦
      let (_, _, _, same, _) = create_event-Opened p op e s k in
      let out : u ≡ t = ground arith in ground (arith, out, same)
]

admin_effect-IsListed :
    (c : AdminCall) (w : Whitelist)
    → supported_token_count w < u32_max
    → IsListed w
    → IsListed (admin_effect c w)
      × (supported_token_count (admin_effect c w) ≤ supported_token_count w + 1)
admin_effect-IsListed (register_supported_token_call t) w room l =
    (registered-IsListed t w l room, registered_count t w)
admin_effect-IsListed (deregister_supported_token_call t) w room l =
    (deregistered-IsListed t w l, omega (arith, deregistered_count t w))
admin_effect-IsListed c w room l = (l, omega arith)

token_effect-IsListed :
    (c : ContractCall) (w : Whitelist)
    → supported_token_count w < u32_max
    → IsListed w
    → IsListed (token_effect c w)
      × (supported_token_count (token_effect c w) ≤ supported_token_count w + 1)
token_effect-IsListed (admin_call c) w room l = admin_effect-IsListed c w room l
token_effect-IsListed c w room l = (l, omega arith)

perform-IsListed :
    (c : ContractCall) (e : Env) (s : State)
    → IsSolvent s
    → supported_token_count s.tokens < u32_max
    → IsListed s.tokens
    → IsListed (kept s (perform c e s)).tokens
      × (supported_token_count (kept s (perform c e s)).tokens ≤ supported_token_count s.tokens + 1)
perform-IsListed c e s solvent room l = elim (Result-cases (perform c e s)) [
  | inr (inl (x, k)) ↦ rw k (l, omega arith)
  | inr (inr k) ↦ rw k (l, omega arith)
  | inl ((_, t), k) ↦
      let effect = perform-tokens c e s solvent k in
      rw (k, effect) (token_effect-IsListed c s.tokens room l)
]

-- In every history of calls the token list stays in step with the flags: `supported_token_at` lists
-- each token that `is_supported_token` accepts once, below the count, and no other. The premises are the
-- invariant of the events, that each budget is an `i128`, and that the list has room for a token with
-- each call.
pub history-IsListed :
    (calls : List (Env × ContractCall)) (s : State)
    → All HasWordBudget calls
    → IsSolvent s
    → supported_token_count s.tokens + length calls ≤ u32_max
    → IsListed s.tokens
    → IsListed (history calls s).tokens
unfolding history
history-IsListed [] s words solvent room l = l
history-IsListed ((e, c) ∷ rest) s words solvent room l =
    let (l', grows) = perform-IsListed c e s solvent (omega arith) l in
    history-IsListed rest (kept s (perform c e s)) words.1
      (kept-IsSolvent s (perform c e s) solvent (λ t h. perform-IsSolvent c e s words.0 solvent h))
      (omega (arith, grows)) l'
