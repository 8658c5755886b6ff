-- ===== src/Storage/Tokens/Listed.antt =====
-- contracts/events/src/storage.rs: the enumeration of the supported tokens lists each of them once.
use boundless_contract.Base.{
  ℕ, ◌+◌, ◌-◌, ◌≤◌, ◌<◌, ◌≡◌, ◌≢◌, not, true, false, some, unwrap_or, ◌==◌, arith, Bool-cases, inl,
  inr,
}
use boundless_contract.Base.Word.{u32_max}
use boundless_contract.Base.Maps.{update}
use boundless_contract.Types.{Address}
use boundless_contract.Chain.{Whitelist}
use boundless_contract.Storage.Tokens.{
  supported_token_count, supported_token_at, supported_token_slot, append_supported_token,
  remove_supported_token, move_last,
}

-- Every index below the count holds a token whose slot leads back to it, every token with a slot stands
-- there, and these are the tokens whose flag is set.
pub record IsListed (w : Whitelist) : Type 0 where
  pub entries :
      (i : ℕ)
      → i < supported_token_count w
      → (t : Address) × (supported_token_at w i ≡ some t) × (supported_token_slot w t ≡ i + 1)
  pub slots :
      (t : Address)
      → supported_token_slot w t ≢ 0
      → (supported_token_slot w t ≤ supported_token_count w)
        × (supported_token_at w (supported_token_slot w t - 1) ≡ some t)
  pub flags : (t : Address) → unwrap_or (w.supported t) false ≡ not (supported_token_slot w t == 0)

-- The token list after `register`, and after `deregister`.
abbrev pub registered : Address → Whitelist → Whitelist
registered t w =
    append_supported_token t (record w { supported = update w.supported t (some true) })

abbrev pub deregistered : Address → Whitelist → Whitelist
deregistered t w =
    remove_supported_token t (record w { supported = update w.supported t (some false) })

module _ (t : Address) (w : Whitelist) (l : IsListed w) where
  registered-known : supported_token_slot w t ≢ 0 → IsListed (registered t w)
  unfolding append_supported_token
  registered-known known = record {
    entries = λ i below.
        let (u, at, slot) = l.entries i (ground arith) in (u, ground arith, ground arith);
    slots = λ u there. ground (arith, l.slots u);
    flags = λ u. ground (arith, l.flags u);
  }

  registered-new :
      supported_token_count w < u32_max → supported_token_slot w t ≡ 0 → IsListed (registered t w)
  unfolding append_supported_token
  registered-new room new = record {
    entries = λ i below. elim (Bool-cases (i == supported_token_count w)) [
      | inl last ↦ (t, ground arith, ground arith)
      | inr earlier ↦
          let (u, at, slot) = l.entries i (ground arith) in (u, ground arith, ground arith)
    ];
    slots = λ u there. ground (arith, l.slots u);
    flags = λ u. ground (arith, l.flags u);
  }

  deregistered-unknown : supported_token_slot w t ≡ 0 → IsListed (deregistered t w)
  unfolding remove_supported_token
  deregistered-unknown new = record {
    entries = λ i below.
        let (u, at, slot) = l.entries i (ground arith) in (u, ground arith, ground arith);
    slots = λ u there. ground (arith, l.slots u);
    flags = λ u. ground (arith, l.flags u);
  }

  -- The token that goes stands last.
  deregistered-last :
      0 < supported_token_slot w t
      → supported_token_slot w t ≡ supported_token_count w
      → IsListed (deregistered t w)
  unfolding remove_supported_token move_last
  deregistered-last there last =
      let (below, own) = l.slots t (ground arith) in
      record {
        entries = λ i below.
            let (u, at, slot) = l.entries i (ground arith) in (u, ground arith, ground arith);
        slots = λ u held. let (low, at) = l.slots u (ground arith) in ground arith;
        flags = λ u. ground (arith, l.flags u);
      }

  -- Another token stands last, and takes its place.
  deregistered-inner :
      (last : Address)
      → 0 < supported_token_slot w t
      → supported_token_slot w t < supported_token_count w
      → supported_token_at w (supported_token_count w - 1) ≡ some last
      → supported_token_slot w last ≡ supported_token_count w
      → IsListed (deregistered t w)
  unfolding remove_supported_token move_last
  deregistered-inner last there inner at_end end =
      let (below, own) = l.slots t (ground arith) in
      record {
        entries = λ i below. elim (Bool-cases (i == supported_token_slot w t - 1)) [
          | inl here ↦ (last, ground arith, ground arith)
          | inr apart ↦
              let (u, at, slot) = l.entries i (ground arith) in (u, ground arith, ground arith)
        ];
        slots = λ u held. elim (Bool-cases (u == last)) [
          | inl moved ↦ ground arith
          | inr other ↦ let (low, at) = l.slots u (ground arith) in ground arith
        ];
        flags = λ u. ground (arith, l.flags u);
      }

  pub registered-IsListed : supported_token_count w < u32_max → IsListed (registered t w)
  registered-IsListed room = elim (Bool-cases (supported_token_slot w t == 0)) [
    | inl new ↦ registered-new room (ground arith)
    | inr known ↦ registered-known (ground arith)
  ]

  pub deregistered-IsListed : IsListed (deregistered t w)
  deregistered-IsListed = elim (Bool-cases (supported_token_slot w t == 0)) [
    | inl new ↦ deregistered-unknown (ground arith)
    | inr known ↦
        let (low, own) = l.slots t (ground arith) in
        elim (Bool-cases (supported_token_slot w t == supported_token_count w)) [
          | inl last ↦ deregistered-last (ground arith) (ground arith)
          | inr inner ↦
              let (last, at_end, end) = l.entries (supported_token_count w - 1) (ground arith) in
              deregistered-inner last (ground arith) (ground arith) at_end (ground arith)
        ]
  ]

pub registered_count :
    (t : Address) (w : Whitelist)
    → supported_token_count (registered t w) ≤ supported_token_count w + 1
unfolding append_supported_token
registered_count t w = ground arith

pub deregistered_count :
    (t : Address) (w : Whitelist)
    → supported_token_count (deregistered t w) ≤ supported_token_count w
unfolding remove_supported_token move_last
deregistered_count t w = ground arith
