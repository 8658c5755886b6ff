-- ===== src/Base/Maps.antt =====
-- Ledger storage as functions, and Soroban's `Map` as an association list.
use boundless_contract.Base.{
  ℕ, Bool, Option, none, some, List, [], ◌∷◌, ◌==◌, is_some, if◌then◌else◌,
}

abbrev pub update {ℓ} : {V : Type ℓ} → (ℕ → V) → ℕ → V → ℕ → V
update f k v j = if k == j then v else f j

-- A map with numbers for keys. The host keeps a map sorted by key and iterates in that order: a map
-- that the source iterates over is given in it. `insert` keeps the place of a key that is there and
-- appends one that is new, which no read by key can tell from sorting.
abbrev pub Map {ℓ} : Type ℓ → Type ℓ
Map V = List (ℕ × V)

module _ {ℓ} {V : Type ℓ} where
  abbrev pub lookup : ℕ → Map V → Option V
  lookup k [] = none
  lookup k ((j, v) ∷ m) = if j == k then some v else lookup k m

  abbrev pub contains_key : ℕ → Map V → Bool
  contains_key k m = is_some (lookup k m)

  abbrev pub insert : ℕ → V → Map V → Map V
  insert k v [] = (k, v) ∷ []
  insert k v ((j, w) ∷ m) = if j == k then (k, v) ∷ m else (j, w) ∷ insert k v m
