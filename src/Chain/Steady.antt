-- ===== src/Chain/Steady.antt =====
-- What a part of a handler leaves alone beside the entries of its event, and the mark of an operation
-- id that a whole handler leaves.
use boundless_contract.Base.{◌≡◌, ◌∙◌, ℕ, Option, none, some}
use boundless_contract.Base.Maps.{update}
use boundless_contract.Types.{Address, OpId}
use boundless_contract.Chain.Data.{State, Env, live_until}

pub record IsSteady (s t : State) : Type 0 where
  pub config : t.config ≡ s.config
  pub tokens : t.tokens ≡ s.tokens
  pub op_seen : t.op_seen ≡ s.op_seen

pub IsSteady-trans : {s t u : State} → IsSteady s t → IsSteady t u → IsSteady s u
IsSteady-trans a b = record {
  config = b.config ∙ a.config;
  tokens = b.tokens ∙ a.tokens;
  op_seen = b.op_seen ∙ a.op_seen;
}

-- The marks after the operation id is marked under an address: a mark lives for a while.
abbrev pub marked :
    Env → Option Address → Option OpId → (Address → OpId → Option ℕ) → Address → OpId → Option ℕ
marked e (some who) (some op) seen = update seen who (update (seen who) op (some (live_until e)))
marked e _ _ seen = seen

pub record IsMarked (e : Env) (who : Option Address) (op : Option OpId) (s t : State) : Type 0 where
  pub config : t.config ≡ s.config
  pub tokens : t.tokens ≡ s.tokens
  pub op_seen : t.op_seen ≡ marked e who op s.op_seen

pub IsMarked-none : {e : Env} {s t : State} → IsSteady s t → IsMarked e none none s t
IsMarked-none a = record { config = a.config; tokens = a.tokens; op_seen = a.op_seen }
