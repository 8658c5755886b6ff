-- ===== src/Chain/Focus.antt =====
-- A call on one event leaves every other event alone.
use boundless_contract.Base.{ℕ, ◌≡◌, ◌≢◌, ap, sym, ◌∙◌, arith}
use boundless_contract.Types.{Error}
use boundless_contract.Host.{Result, map_ok-ok, ok}
use boundless_contract.Chain.Data.{Env, State}
use boundless_contract.Chain.Calls.{Call, focus, load, store}

stored : {A : Type 0} → ℕ → State → A × State → A × State
stored id s p = (p.0, store id s p.1)

success : {A : Type 0} → A → State → Result Error (A × State)
success a t = ok (a, t)

-- A successful call in focus is a successful run on the event's entries, whose result is stored.
pub focus-ok :
    {A : Type 0} (id : ℕ) (m : Call A) (e : Env) (s : State) {a : A} {s' : State}
    → focus id m e s ≡ ok (a, s')
    → (t : State) × (m e (load id s) ≡ ok (a, t)) × (s' ≡ store id s t)
unfolding focus stored success
focus-ok {A} id m e s {a} {s'} h =
    let (p, run, out) = map_ok-ok (stored id s) (m e (load id s)) {b = (a, s')} h in
    (
      p.1,
      run ∙ ap (λ (x : A). success x p.1) (ap (λ (q : A × State). q.0) out),
      sym (ap (λ (q : A × State). q.1) out),
    )

other_event : (id j : ℕ) (s t : State) → j ≢ id → (store id s t).events j ≡ s.events j
other_event id j s t apart = ground arith

pub focus-events :
    {A : Type 0} (id j : ℕ) (m : Call A) (e : Env) (s : State) {a : A} {s' : State}
    → focus id m e s ≡ ok (a, s')
    → j ≢ id
    → s'.events j ≡ s.events j
focus-events id j m e s h apart =
    let (t, run, out) = focus-ok id m e s h in
    ap (λ (u : State). u.events j) out ∙ other_event id j s t apart
