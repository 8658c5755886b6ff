-- ===== src/EventOps/Contributors/Adding.antt =====
-- contracts/events/src/event_ops.rs: what `add_funds` records of a contribution keeps the contributors
-- of its event in order.
use boundless_contract.Base.{
  ℕ, suc, ◌+◌, ◌-◌, ◌≤◌, ◌<◌, ◌≡◌, ◌≢◌, min, some, ◌==◌, arith, Bool-cases, inl, inr,
}
use boundless_contract.Base.Int.{ℤ, pos, negsuc, ◌≤ℤ◌, i128_max, saturating_add, saturating_add-pos}
use boundless_contract.Base.Maps.{update}
use boundless_contract.Types.{Address}
use boundless_contract.Chain.{EventData}
use boundless_contract.Storage.People.{push_contributor}
use boundless_contract.EventOps.Contributors.{
  units, slot_of, count_of, given_by, listed, entry, total_of, IsRegister, IsFunded,
}
use boundless_contract.EventOps.Contributors.Sums.{sum_range-le, sum_range-raise, sum_range-snoc}

-- The entries after a contribution of `a`.
abbrev pub contributed : Address → ℤ → EventData → EventData
contributed from a d = record d {
  contributor_amount = update d.contributor_amount from (some (saturating_add (given_by d from) a));
  non_owner_contribution_total = some (saturating_add (total_of d) a);
}

abbrev pub joined : Address → EventData → EventData
joined from d = push_contributor from (count_of d) (count_of d + 1) d

pub natural : (a : ℤ) → pos 0 ≤ℤ a → a ≡ pos (units a)
natural (pos n) h = ground arith
natural (negsuc n) h = absurd (omega arith)

module _ (from : Address) (a : ℕ) (d : EventData) (f : IsFunded d)
    (room : units (total_of d) + a ≤ i128_max) where
  gift : saturating_add (given_by d from) (pos a) ≡ pos (min (units (given_by d from) + a) i128_max)
  gift =
      let p = natural (given_by d from) (f.given from) in
      rw p (saturating_add-pos (units (given_by d from)) a)

  grown : saturating_add (total_of d) (pos a) ≡ pos (units (total_of d) + a)
  grown =
      let t = natural (total_of d) f.total in
      let sum = saturating_add-pos (units (total_of d)) a in ground (arith, sum)

  -- A known contributor gives again.
  contributed-covers :
      slot_of d from ≢ 0
      → listed (given_by (contributed from (pos a) d)) d 0 (count_of d)
        ≤ listed (given_by d) d 0 (count_of d) + a
  contributed-covers known =
      let (low, at) = f.register.slots from known in
      sum_range-raise (λ i. entry (given_by d) (d.contributor_at i))
        (λ i. entry (given_by (contributed from (pos a) d)) (d.contributor_at i))
        (slot_of d from - 1) a 0 (count_of d)
        (λ i apart below.
          let inside : i < count_of d = omega (arith, below) in
          let (b, held, slot) = f.register.entries i inside in ground arith)
        (ground (arith, gift))

  pub contributed-IsFunded : slot_of d from ≢ 0 → IsFunded (contributed from (pos a) d)
  contributed-IsFunded known = record {
    register = record { entries = f.register.entries; slots = f.register.slots };
    given = λ b. ground (arith, gift, f.given b);
    strangers = λ b none_. ground (arith, f.strangers b none_);
    total = ground (arith, grown);
    covers = ground (arith, grown, contributed-covers known, f.covers);
  }

  -- A new contributor stands at the end.
  joined-covers :
      slot_of d from ≡ 0
      → listed
          (given_by (contributed from (pos a) (joined from d)))
          (joined from d)
          0
          (count_of d + 1)
        ≤ listed (given_by d) d 0 (count_of d) + a
  joined-covers new =
      let d' = contributed from (pos a) (joined from d) in
      let before =
        sum_range-le (λ i. entry (given_by d') (d'.contributor_at i))
          (λ i. entry (given_by d) (d.contributor_at i)) 0 (count_of d)
          (λ i lo below.
            let inside : i < count_of d = omega (arith, below) in
            let (b, held, slot) = f.register.entries i inside in ground arith) in
      let last = sum_range-snoc (λ i. entry (given_by d') (d'.contributor_at i)) 0 (count_of d) in
      let own : entry (given_by d') (d'.contributor_at (0 + count_of d)) ≤ a =
        ground (arith, gift, f.strangers from new) in
      let count : count_of d + 1 ≡ suc (count_of d) = omega arith in
      rw count (omega (arith, before, last, own))

  joined-IsRegister : slot_of d from ≡ 0 → IsRegister (joined from d)
  joined-IsRegister new = record {
    entries = λ i below. elim (Bool-cases (i == count_of d)) [
      | inl last ↦ (from, ground arith, ground arith)
      | inr earlier ↦
          let (b, held, slot) = f.register.entries i (ground arith) in
          (b, ground arith, ground arith)
    ];
    slots = λ b there. ground (arith, f.register.slots b);
  }

  pub joined-IsFunded : slot_of d from ≡ 0 → IsFunded (contributed from (pos a) (joined from d))
  joined-IsFunded new =
      let r = joined-IsRegister new in
      record {
        register = record { entries = r.entries; slots = r.slots };
        given = λ b. ground (arith, gift, f.given b);
        strangers = λ b none_. ground (arith, f.strangers b);
        total = ground (arith, grown);
        covers = ground (arith, grown, joined-covers new, f.covers);
      }
