-- ===== src/Storage/Event.antt =====
-- contracts/events/src/storage.rs: the event row, its manager, the winner rows, the prize awards and
-- the cancellation state, for the event in focus.
pub mod Pages
use boundless_contract.Base.{
  ⊤, ℕ, zero, suc, ◌+◌, ◌-◌, min, Option, none, some, unwrap_or, List, [], ◌∷◌,
}
use boundless_contract.Base.Int.{ℤ, pos}
use boundless_contract.Base.Word.{saturating_add32}
use boundless_contract.Base.Maps.{update}
use boundless_contract.Types.{
  Address, EventRecord, Winner, PrizeAward, PendingRotation, CancellationState,
}
use boundless_contract.Chain.{
  Call, EventRow, EventData, current, legacy, pure, abort, gets, modify_here, ◌>>=◌,
}

-- A row in the older layout does not decode.
abbrev pub decode : Option EventRow → Call (Option EventRecord)
decode none = pure none
decode (some (current r)) = pure (some r)
decode (some (legacy _)) = abort

abbrev pub get_event : Call (Option EventRecord)
get_event = do decode (← gets (λ s. s.here.event))

abbrev pub set_event : EventRecord → Call ⊤
set_event r = modify_here (λ d. record d { event = some (current r) })

abbrev pub get_event_manager : Call (Option Address)
get_event_manager = gets (λ s. s.here.manager)

abbrev pub set_event_manager : Address → Call ⊤
set_event_manager m = modify_here (λ d. record d { manager = some m })

abbrev pub clear_event_manager : Call ⊤
clear_event_manager = modify_here (λ d. record d { manager = none })

abbrev pub get_pending_manager : Call (Option PendingRotation)
get_pending_manager = gets (λ s. s.here.pending_manager)

abbrev pub set_pending_manager : PendingRotation → Call ⊤
set_pending_manager p = modify_here (λ d. record d { pending_manager = some p })

abbrev pub clear_pending_manager : Call ⊤
clear_pending_manager = modify_here (λ d. record d { pending_manager = none })

abbrev pub winner_count : Call ℕ
winner_count = gets (λ s. unwrap_or s.here.winner_count 0)

abbrev pub winner_at : ℕ → Call (Option Winner)
winner_at idx = gets (λ s. s.here.winner_at idx)

-- `append_winner`, on the rows of one event.
abbrev pub push_winner : Winner → EventData → EventData
push_winner w d =
    let cur = unwrap_or d.winner_count 0 in
    record d {
      winner_at = update d.winner_at cur (some w);
      winner_count = some (saturating_add32 cur 1);
    }

abbrev pub append_winner : Winner → Call ⊤
append_winner w = modify_here (push_winner w)

abbrev pub set_winner_at : ℕ → Winner → Call ⊤
set_winner_at idx w = modify_here (λ d. record d { winner_at = update d.winner_at idx (some w) })

abbrev pub get_prize_award : ℕ → Call (Option PrizeAward)
get_prize_award position = gets (λ s. s.here.prize_award position)

abbrev pub set_prize_award : ℕ → PrizeAward → Call ⊤
set_prize_award position a =
    modify_here (λ d. record d { prize_award = update d.prize_award position (some a) })

abbrev pub unclaimed_prize_count : Call ℕ
unclaimed_prize_count = gets (λ s. unwrap_or s.here.unclaimed_prizes 0)

abbrev pub set_unclaimed_prize_count : ℕ → Call ⊤
set_unclaimed_prize_count n = modify_here (λ d. record d { unclaimed_prizes = some n })

abbrev pub owed_total : Call ℤ
owed_total = gets (λ s. unwrap_or s.here.owed_total (pos 0))

abbrev pub set_owed_total : ℤ → Call ⊤
set_owed_total owed = modify_here (λ d. record d { owed_total = some owed })

abbrev pub get_prize_claim_expiry : Call (Option ℕ)
get_prize_claim_expiry = gets (λ s. s.here.prize_claim_expiry)

abbrev pub set_prize_claim_expiry : ℕ → Call ⊤
set_prize_claim_expiry t = modify_here (λ d. record d { prize_claim_expiry = some t })

abbrev pub get_cancellation_state : Call (Option CancellationState)
get_cancellation_state = gets (λ s. s.here.cancellation_state)

abbrev pub set_cancellation_state : CancellationState → Call ⊤
set_cancellation_state c = modify_here (λ d. record d { cancellation_state = some c })

abbrev pub clear_cancellation_state : Call ⊤
clear_cancellation_state = modify_here (λ d. record d { cancellation_state = none })

-- The rows that are there among the `n` from `idx` on: the loop of the two snapshots.
abbrev push_some {ℓ} : {A : Type ℓ} → Option A → List A → List A
push_some none xs = xs
push_some (some x) xs = x ∷ xs

unfoldable pub collect {ℓ} : {A : Type ℓ} → (ℕ → Option A) → ℕ → ℕ → List A
collect at idx zero = []
collect at idx (suc n) = push_some (at idx) (collect at (idx + 1) n)

-- A page: from `start` to `start + limit` or the count, whichever comes first.
unfoldable pub page {ℓ} : {A : Type ℓ} → (ℕ → Option A) → ℕ → ℕ → ℕ → List A
unfolding collect
page at count start limit = collect at start (min (saturating_add32 start limit) count - start)

abbrev pub winners_snapshot : ℕ → ℕ → Call (List Winner)
winners_snapshot start limit =
    gets (λ s. page s.here.winner_at (unwrap_or s.here.winner_count 0) start limit)
