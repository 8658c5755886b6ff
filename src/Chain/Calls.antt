-- ===== src/Chain/Calls.antt =====
-- The calls of the events contract, and what they ask of the host.
use boundless_contract.Base.{⊤, ℕ, Bool, true, false, ◌∷◌, if◌then◌else◌}
use boundless_contract.Base.Int.{ℤ}
use boundless_contract.Base.Maps.{update}
use boundless_contract.Types.{Address, Error}
use boundless_contract.Notices.{Notice}
use boundless_contract.Host.{HostCall, ok, err, trap, pure, abort, modify, ◌>>=◌}
use boundless_contract.Chain.Data.{Env, State, Config, Whitelist, EventData, Transfer, ProfileCall}

abbrev pub Call : Type 0 → Type 0
Call A = HostCall Env State Error A

abbrev pub modify_config : (Config → Config) → Call ⊤
modify_config f = modify (λ s. record s { config = f s.config })

abbrev pub modify_tokens : (Whitelist → Whitelist) → Call ⊤
modify_tokens f = modify (λ s. record s { tokens = f s.tokens })

-- An access to the entries of the event in focus.
abbrev pub modify_here : (EventData → EventData) → Call ⊤
modify_here f = modify (λ s. record s { here = f s.here })

abbrev pub load : ℕ → State → State
load id s = record s { here = s.events id }

-- The entries written back, after a call that led from `load id s` to `t`.
abbrev pub store : ℕ → State → State → State
store id s t = record t { events = update s.events id t.here; here = s.here }

-- The accesses of a call to the entries whose keys have the event id `id`.
unfoldable pub focus : {A : Type 0} → ℕ → Call A → Call A
focus id m e s = elim (m e (load id s)) [
  | ok (a, t) ↦ ok (a, store id s t)
  | err x ↦ err x
  | trap ↦ trap
]

-- `a.require_auth()`
abbrev pub require_auth : {S E : Type 0} → Address → HostCall Env S E ⊤
require_auth a e s = if e.authorized a then ok (tt, s) else trap

abbrev pub publish : Notice → Call ⊤
publish n = modify (λ s. record s { published = n ∷ s.published })

-- `try_transfer` of the token client, and `transfer`, which aborts where the former reports.
abbrev pub try_transfer : Address → Address → Address → ℤ → Call Bool
try_transfer token from to amount e s =
    let t : Transfer = record { token = token; from = from; to = to; amount = amount } in
    if e.accepts s.transfers t
    then ok (true, record s { transfers = t ∷ s.transfers })
    else ok (false, s)

abbrev pub transfer : Address → Address → Address → ℤ → Call ⊤
transfer token from to amount = do
  done ← try_transfer token from to amount
  if done then pure tt else abort

-- A call of the profile contract at an address, its result ignored.
abbrev pub call_profile : Address → ProfileCall → Call ⊤
call_profile at c = modify (λ s. record s { profile_calls = (at, c) ∷ s.profile_calls })
