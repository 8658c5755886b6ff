-- ===== src/EventOps/Contributors.antt =====
-- contracts/events/src/storage.rs and event_ops.rs: the contributors of an event, what each of them
-- gave, and the total that a cancellation divides.
pub mod Sums
pub mod Adding
pub mod Giving
use boundless_contract.Base.{ℕ, ◌+◌, ◌-◌, ◌≤◌, ◌<◌, ◌≡◌, ◌≢◌, Option, none, some, unwrap_or}
use boundless_contract.Base.Int.{ℤ, pos, negsuc, ◌≤ℤ◌}
use boundless_contract.Types.{Address}
use boundless_contract.Chain.{EventData}
use boundless_contract.EventOps.Contributors.Sums.{sum_range}

-- An amount as a number; a stored one is not negative.
abbrev pub units : ℤ → ℕ
units (pos n) = n
units (negsuc n) = 0

abbrev pub slot_of : EventData → Address → ℕ
slot_of d a = unwrap_or (d.contributor_slot a) 0

abbrev pub count_of : EventData → ℕ
count_of d = unwrap_or d.contributor_count 0

abbrev pub given_by : EventData → Address → ℤ
given_by d a = unwrap_or (d.contributor_amount a) (pos 0)

abbrev pub held_for : EventData → Address → ℤ
held_for d a = unwrap_or (d.unclaimed_refund a) (pos 0)

abbrev pub entry : (Address → ℤ) → Option Address → ℕ
entry f none = 0
entry f (some a) = units (f a)

-- What the list from `start` on adds up to.
abbrev pub listed : (Address → ℤ) → EventData → ℕ → ℕ → ℕ
listed f d start n = sum_range (λ i. entry f (d.contributor_at i)) start n

abbrev pub total_of : EventData → ℤ
total_of d = unwrap_or d.non_owner_contribution_total (pos 0)

-- Each contributor stands once in the list.
pub record IsRegister (d : EventData) : Type 0 where
  pub entries :
      (i : ℕ)
      → i < count_of d
      → (a : Address) × (d.contributor_at i ≡ some a) × (slot_of d a ≡ i + 1)
  pub slots :
      (a : Address)
      → slot_of d a ≢ 0
      → (slot_of d a ≤ count_of d) × (d.contributor_at (slot_of d a - 1) ≡ some a)

-- Only contributors of the list gave something, and the total covers what they gave.
pub record IsFunded (d : EventData) : Type 0 where
  pub register : IsRegister d
  pub given : (a : Address) → pos 0 ≤ℤ given_by d a
  pub strangers : (a : Address) → slot_of d a ≡ 0 → given_by d a ≡ pos 0
  pub total : pos 0 ≤ℤ total_of d
  pub covers : listed (given_by d) d 0 (count_of d) ≤ units (total_of d)
