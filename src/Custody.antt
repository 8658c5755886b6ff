-- ===== src/Custody.antt =====
-- What the transfers of a call did to a holder's balance of a token: the independent view of the money
-- that the escrow accounting is held against.
use boundless_contract.Base.{◌≡◌, ◌≢◌, ◌&&◌, List, [], ◌∷◌, ◌==◌, if◌then◌else◌}
use boundless_contract.Base.Int.{ℤ, pos, ◌+ℤ◌, ◌-ℤ◌, int_laws}
use boundless_contract.Types.{Address}
use boundless_contract.Chain.{Transfer}

abbrev pub leg : Address → Address → Address → ℤ → Transfer
leg token from to amount = record { token = token; from = from; to = to; amount = amount }

-- What one transfer brings to `who`, in `token`, and what it takes.
abbrev pub received : Address → Address → Transfer → ℤ
received token who t = if t.token == token && t.to == who then t.amount else pos 0

abbrev pub spent : Address → Address → Transfer → ℤ
spent token who t = if t.token == token && t.from == who then t.amount else pos 0

-- The sum over a log.
unfoldable pub balance : Address → Address → List Transfer → ℤ
balance token who [] = pos 0
balance token who (t ∷ log) = balance token who log +ℤ received token who t -ℤ spent token who t

module _ (token who other : Address) (a : ℤ) (log : List Transfer) (apart : other ≢ who) where
  pub balance-out : balance token who (leg token who other a ∷ log) ≡ balance token who log -ℤ a
  unfolding balance
  balance-out = grind int_laws

  pub balance-in : balance token who (leg token other who a ∷ log) ≡ balance token who log +ℤ a
  unfolding balance
  balance-in = grind int_laws
