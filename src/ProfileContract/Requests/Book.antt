-- ===== src/ProfileContract/Requests/Book.antt =====
-- contracts/profile: what the contract stores is what the calls that went through add up to.
use boundless_contract.Base.{
  ℕ, ◌-◌, ◌≡◌, ◌&&◌, Option, none, some, unwrap_or, List, [], ◌∷◌, ◌==◌, if◌then◌else◌, arith, inl,
  inr, ◌⊎◌, Option-cases,
}
use boundless_contract.Base.Int.{ℤ, pos, ◌+ℤ◌, checked_add_sum, checked_add}
use boundless_contract.Base.Word.{saturating_add64}
use boundless_contract.Types.{Address, OpId, Text}
use boundless_contract.Host.{Result-cases}
use boundless_contract.Chain.{Env, ok}
use boundless_contract.ProfileContract.Data.{
  ProfileState, ProfileNotice, UserProfile, profile_bootstrapped, reputation_bumped,
  earnings_registered, admin_reputation_slashed,
}
use boundless_contract.ProfileContract.Admin.{
  initialize, set_admin, accept_admin, set_events_contract, propose_events_contract,
  accept_events_contract, cancel_pending_events_contract, pause, unpause,
}
use boundless_contract.ProfileContract.Upgrade.{
  propose_upgrade, apply_upgrade, cancel_pending_upgrade, migrate,
}
use boundless_contract.ProfileContract.Scores.{
  bootstrap, bootstrap_self, bump, admin_slash, register,
}
use boundless_contract.ProfileContract.Requests.{
  ProfileRequest, serve, attempt, run, constructor_request, set_admin_request,
  set_events_contract_request, accept_admin_request, accept_events_contract_request,
  propose_events_contract_request, cancel_pending_events_contract_request, pause_request,
  unpause_request, propose_upgrade_request, apply_upgrade_request, cancel_pending_upgrade_request,
  migrate_request, bootstrap_request, bootstrap_self_request, bump_reputation_request,
  register_earnings_request, admin_slash_reputation_request,
}

-- What the notices of a log, newest first, say that a user has earned in a token.
unfoldable pub earned : Address → Address → List ProfileNotice → ℤ
earned u t [] = pos 0
earned u t (earnings_registered x y a ∷ log) =
    if x == u && y == t then earned u t log +ℤ a else earned u t log
earned u t (_ ∷ log) = earned u t log

abbrev on_score : (ℕ → ℕ) → Option ℕ → Option ℕ
on_score f none = none
on_score f (some n) = some (f n)

-- And the reputation that they give the user: none before there is a profile.
unfoldable pub score : Address → List ProfileNotice → Option ℕ
score u [] = none
score u (profile_bootstrapped x ∷ log) = if x == u then some 0 else score u log
score u (reputation_bumped x d _ ∷ log) =
    if x == u then on_score (λ n. saturating_add64 n d) (score u log) else score u log
score u (admin_reputation_slashed x d _ ∷ log) =
    if x == u then on_score (λ n. n - d) (score u log) else score u log
score u (_ ∷ log) = score u log

abbrev pub reputation_of : Option UserProfile → Option ℕ
reputation_of none = none
reputation_of (some p) = some p.reputation

pub record IsBooked (u t : Address) (s : ProfileState) : Type 0 where
  pub reputation : reputation_of (s.profile u) ≡ score u s.published
  pub earnings : unwrap_or (s.earnings_by_token u t) (pos 0) ≡ earned u t s.published

module _ (u t : Address) (e : Env) (s : ProfileState) {s' : ProfileState} (b : IsBooked u t s) where
  scores-IsBooked :
      (x : Address) (d : ℕ) (why : Text) (op : OpId)
      → (bump x d why op e s ≡ ok (tt, s')) ⊎ (admin_slash x d why op e s ≡ ok (tt, s'))
      → IsBooked u t s'
  unfolding bump admin_slash score earned
  scores-IsBooked x d why op (inl h) = ground arith
  scores-IsBooked x d why op (inr h) = ground arith

  profiles-IsBooked :
      (x : Address) (op : OpId)
      → (bootstrap x op e s ≡ ok (tt, s')) ⊎ (bootstrap_self x op e s ≡ ok (tt, s'))
      → IsBooked u t s'
  unfolding bootstrap bootstrap_self score earned
  profiles-IsBooked x op (inl h) = ground arith
  profiles-IsBooked x op (inr h) = ground arith

  register-IsBooked :
      (x y : Address) (a : ℤ) (op : OpId) → register x y a op e s ≡ ok (tt, s') → IsBooked u t s'
  unfolding register score earned
  register-IsBooked x y a op h =
      elim (Option-cases (checked_add (unwrap_or (s.earnings_by_token x y) (pos 0)) a)) [
        | inl over ↦ absurd (ground arith)
        | inr (c, sum) ↦
            let total = checked_add_sum (unwrap_or (s.earnings_by_token x y) (pos 0)) a c sum in
            ground (arith, total)
      ]

-- A call that goes through keeps the books.
serve-IsBooked :
    (u t : Address) (r : ProfileRequest) (e : Env) (s : ProfileState) {s' : ProfileState}
    → IsBooked u t s
    → serve r e s ≡ ok (tt, s')
    → IsBooked u t s'
unfolding serve initialize set_admin accept_admin set_events_contract propose_events_contract
    accept_events_contract cancel_pending_events_contract pause unpause propose_upgrade
    apply_upgrade cancel_pending_upgrade migrate score earned
serve-IsBooked u t (constructor_request a) e s b h = ground arith
serve-IsBooked u t (set_admin_request a) e s b h = ground arith
serve-IsBooked u t (set_events_contract_request a) e s b h = ground arith
serve-IsBooked u t accept_admin_request e s b h = ground arith
serve-IsBooked u t accept_events_contract_request e s b h = ground arith
serve-IsBooked u t (propose_events_contract_request a) e s b h = ground arith
serve-IsBooked u t cancel_pending_events_contract_request e s b h = ground arith
serve-IsBooked u t pause_request e s b h = ground arith
serve-IsBooked u t unpause_request e s b h = ground arith
serve-IsBooked u t (propose_upgrade_request w v) e s b h = ground arith
serve-IsBooked u t apply_upgrade_request e s b h = ground arith
serve-IsBooked u t cancel_pending_upgrade_request e s b h = ground arith
serve-IsBooked u t migrate_request e s b h = ground arith
serve-IsBooked u t (bootstrap_request x op) e s b h = profiles-IsBooked u t e s b x op (inl h)
serve-IsBooked u t (bootstrap_self_request x op) e s b h = profiles-IsBooked u t e s b x op (inr h)
serve-IsBooked u t (bump_reputation_request x d why op) e s b h =
    scores-IsBooked u t e s b x d why op (inl h)
serve-IsBooked u t (register_earnings_request x y a op) e s b h =
    register-IsBooked u t e s b x y a op h
serve-IsBooked u t (admin_slash_reputation_request x d why op) e s b h =
    scores-IsBooked u t e s b x d why op (inr h)

attempt-IsBooked :
    (u t : Address) (e : Env) (r : ProfileRequest) (s : ProfileState)
    → IsBooked u t s
    → IsBooked u t (attempt e r s)
unfolding attempt
attempt-IsBooked u t e r s b = elim (Result-cases (serve r e s)) [
  | inl ((_, s'), h) ↦ rw h (serve-IsBooked u t r e s b h)
  | inr (inl (x, h)) ↦ rw h b
  | inr (inr h) ↦ rw h b
]

-- Whatever calls are made of a contract whose books are right, whoever makes them and whichever fail:
-- afterwards each user's reputation and earnings are what the published notices add up to.
pub run-IsBooked :
    (u t : Address) (calls : List (Env × ProfileRequest)) (s : ProfileState)
    → IsBooked u t s
    → IsBooked u t (run calls s)
unfolding run
run-IsBooked u t [] s b = b
run-IsBooked u t ((e, r) ∷ rest) s b =
    run-IsBooked u t rest (attempt e r s) (attempt-IsBooked u t e r s b)
