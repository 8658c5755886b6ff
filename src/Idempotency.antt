-- ===== src/Idempotency.antt =====
-- contracts/events/src/idempotency.rs: operation ids, event ids and the child ids for the profile
-- contract.
pub mod Ids
use boundless_contract.Base.{⊤, ℕ, ◌*◌, ◌^◌, ◌∷◌, ◌++◌}
use boundless_contract.Base.Word.{checked_add64}
use boundless_contract.Types.{Address, OpId, op_already_seen, event_id_overflow}
use boundless_contract.Chain.{Call, pure, asks, ok_or, fail_if, ◌>>=◌, ◌>>◌}
use boundless_contract.Storage.Config.{
  is_op_seen, mark_op_seen, get_deployment_seq, get_next_event_id, set_next_event_id,
  get_profile_contract,
}

abbrev pub require_unseen : Address → OpId → Call ⊤
require_unseen domain op = do fail_if (← is_op_seen domain op) op_already_seen

abbrev pub mark_seen : Address → OpId → Call ⊤
mark_seen domain op = mark_op_seen domain op

-- `(seq as u64) << 32`, which does not overflow for a `u32`.
abbrev pub id_base : Call ℕ
id_base = do seq ← get_deployment_seq; pure (seq * 2 ^ 32)

unfoldable pub next_event_id : Call ℕ
next_event_id = do
  base ← id_base
  fallback ← ok_or (checked_add64 base 1) event_id_overflow
  id ← get_next_event_id fallback
  next ← ok_or (checked_add64 id 1) event_id_overflow
  set_next_event_id next
  pure id

abbrev pub bootstrap_tag : ℕ
bootstrap_tag = 0xB0

abbrev pub bump_rep_tag : ℕ
bump_rep_tag = 0xD1

abbrev pub register_earnings_tag : ℕ
register_earnings_tag = 0xE1

unfoldable pub derive_child_indexed : Address → OpId → ℕ → ℕ → Call OpId
derive_child_indexed domain parent op_tag sub_idx = do
  callee ← get_profile_contract
  asks (λ e. e.sha256 (e.to_array parent ++ op_tag ∷ sub_idx ∷ e.to_xdr callee ++ e.to_xdr domain))

unfoldable pub derive_child : Address → OpId → ℕ → Call OpId
unfolding derive_child_indexed
derive_child domain parent op_tag = derive_child_indexed domain parent op_tag 0
