-- ===== src/Storage/Tokens.antt =====
-- contracts/events/src/storage.rs: the token whitelist, a flag for each token beside an enumeration
-- that removes by moving the last entry. A slot is an index plus one; 0 means that there is none.
pub mod Listed
use boundless_contract.Base.{
  ⊤, ℕ, ◌-◌, Bool, false, not, Option, none, some, unwrap_or, ◌==◌, if◌then◌else◌,
}
use boundless_contract.Base.Word.{saturating_add32}
use boundless_contract.Base.Maps.{update}
use boundless_contract.Types.{Address}
use boundless_contract.Chain.{Call, Whitelist, gets, modify_tokens}

abbrev pub is_token_supported : Address → Call Bool
is_token_supported token = gets (λ s. unwrap_or (s.tokens.supported token) false)

abbrev pub set_token_supported : Address → Bool → Call ⊤
set_token_supported token b =
    modify_tokens (λ w. record w { supported = update w.supported token (some b) })

abbrev pub supported_token_count : Whitelist → ℕ
supported_token_count w = unwrap_or w.count 0

abbrev pub supported_token_at : Whitelist → ℕ → Option Address
supported_token_at w idx = w.at idx

abbrev pub supported_token_slot : Whitelist → Address → ℕ
supported_token_slot w token = unwrap_or (w.slot token) 0

unfoldable pub append_supported_token : Address → Whitelist → Whitelist
append_supported_token token w =
    let cur = supported_token_count w in
    let slot = saturating_add32 cur 1 in
    if not (supported_token_slot w token == 0) then w else record w {
      at = update w.at cur (some token);
      slot = update w.slot token (some slot);
      count = some slot;
    }

-- The last entry takes the place of the one that goes.
unfoldable pub move_last : ℕ → ℕ → ℕ → Whitelist → Whitelist
move_last idx last_idx slot w =
    if idx == last_idx then w else elim (supported_token_at w last_idx) [
      | none ↦ w
      | some last ↦ record w {
        at = update w.at idx (some last);
        slot = update w.slot last (some slot);
      }
    ]

unfoldable pub remove_supported_token : Address → Whitelist → Whitelist
unfolding move_last
remove_supported_token token w =
    let slot = supported_token_slot w token in
    let count = supported_token_count w in
    let last_idx = count - 1 in
    let moved = move_last (slot - 1) last_idx slot w in
    let new_count = count - 1 in
    if slot == 0 then w else record moved {
      at = update moved.at last_idx none;
      slot = update moved.slot token none;
      count = if new_count == 0 then none else some new_count;
    }
