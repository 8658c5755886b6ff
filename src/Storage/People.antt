-- ===== src/Storage/People.antt =====
-- contracts/events/src/storage.rs: what an event keeps for each contributor and recipient, for the event in
-- focus.
use boundless_contract.Base.{
  ⊤, ℕ, Bool, true, false, not, Option, none, some, unwrap_or, List, ◌==◌, if◌then◌else◌,
}
use boundless_contract.Base.Int.{ℤ, pos, ltb_ℤ}
use boundless_contract.Base.Word.{checked_add32}
use boundless_contract.Base.Maps.{Map, update}
use boundless_contract.Types.{Address, GrantAward, GrantProgress, too_many_contributors}
use boundless_contract.Chain.{Call, EventData, pure, gets, ok_or, modify_here, ◌>>=◌, ◌>>◌}
use boundless_contract.Storage.Event.{page}

abbrev pub get_contributor_amount : Address → Call ℤ
get_contributor_amount c = gets (λ s. unwrap_or (s.here.contributor_amount c) (pos 0))

abbrev pub set_contributor_amount : Address → ℤ → Call ⊤
set_contributor_amount c amount =
    modify_here (λ d. record d { contributor_amount = update d.contributor_amount c (some amount) })

abbrev pub get_non_owner_contribution_total : Call (Option ℤ)
get_non_owner_contribution_total = gets (λ s. s.here.non_owner_contribution_total)

abbrev pub set_non_owner_contribution_total : ℤ → Call ⊤
set_non_owner_contribution_total total =
    modify_here (λ d. record d { non_owner_contribution_total = some total })

abbrev pub contributor_count : Call ℕ
contributor_count = gets (λ s. unwrap_or s.here.contributor_count 0)

abbrev pub contributor_at : ℕ → Call (Option Address)
contributor_at idx = gets (λ s. s.here.contributor_at idx)

abbrev pub contributor_slot : Address → Call ℕ
contributor_slot a = gets (λ s. unwrap_or (s.here.contributor_slot a) 0)

abbrev pub push_contributor : Address → ℕ → ℕ → EventData → EventData
push_contributor a cur slot d = record d {
  contributor_count = some slot;
  contributor_at = update d.contributor_at cur (some a);
  contributor_slot = update d.contributor_slot a (some slot);
}

unfoldable pub append_contributor : Address → Call ℕ
append_contributor a = do
  present ← contributor_slot a
  cur ← contributor_count
  if not (present == 0) then pure 0 else do
    slot ← ok_or (checked_add32 cur 1) too_many_contributors
    modify_here (push_contributor a cur slot)
    pure slot

abbrev pub contributors_snapshot : ℕ → ℕ → Call (List Address)
contributors_snapshot start limit =
    gets (λ s. page s.here.contributor_at (unwrap_or s.here.contributor_count 0) start limit)

abbrev pub is_milestone_claimed : Address → ℕ → Call Bool
is_milestone_claimed a m = gets (λ s. unwrap_or (s.here.milestone_claimed a m) false)

abbrev pub mark_milestone_claimed : Address → ℕ → Call ⊤
mark_milestone_claimed a m = modify_here (λ d. record d {
  milestone_claimed = update d.milestone_claimed a (update (d.milestone_claimed a) m (some true));
})

abbrev pub get_grant_roster : Call (Option (Map GrantAward))
get_grant_roster = gets (λ s. s.here.grant_roster)

abbrev pub set_grant_roster : Map GrantAward → Call ⊤
set_grant_roster roster = modify_here (λ d. record d { grant_roster = some roster })

-- `GrantProgress::default()`
abbrev pub no_progress : GrantProgress
no_progress = record { settled = 0; settled_amount = pos 0 }

abbrev pub get_grant_progress : Address → Call GrantProgress
get_grant_progress a = gets (λ s. unwrap_or (s.here.grant_progress a) no_progress)

abbrev pub set_grant_progress : Address → GrantProgress → Call ⊤
set_grant_progress a p =
    modify_here (λ d. record d { grant_progress = update d.grant_progress a (some p) })

abbrev pub unclaimed_refund : Address → Call ℤ
unclaimed_refund a = gets (λ s. unwrap_or (s.here.unclaimed_refund a) (pos 0))

-- An amount that is not positive removes the entry.
abbrev pub set_unclaimed_refund : Address → ℤ → Call ⊤
set_unclaimed_refund a amount = modify_here (λ d. record d {
  unclaimed_refund =
      update d.unclaimed_refund a (if ltb_ℤ (pos 0) amount then some amount else none);
})

abbrev pub get_crowdfunding_milestones_claimed : Call ℕ
get_crowdfunding_milestones_claimed = gets (λ s. unwrap_or s.here.crowdfunding_milestones_claimed 0)

abbrev pub set_crowdfunding_milestones_claimed : ℕ → Call ⊤
set_crowdfunding_milestones_claimed n =
    modify_here (λ d. record d { crowdfunding_milestones_claimed = some n })
