-- ===== src/EventOps/Reads.antt =====
-- contracts/events/src/event_ops.rs: the reads of an event, and their pages.
pub mod Created
use boundless_contract.Base.{ℕ, min, Option, List}
use boundless_contract.Base.Int.{ℤ}
use boundless_contract.Types.{Address, EventRecord, Winner, event_not_found}
use boundless_contract.Chain.{Call, focus, ok_or, ◌>>=◌, ◌>>◌}
use boundless_contract.Storage.Event
use boundless_contract.Storage.People

abbrev pub view_page_limit : ℕ
view_page_limit = 90

-- Every read fails where there is no event.
abbrev found : Call EventRecord
found = do ok_or (← Event.get_event) event_not_found

unfoldable pub get_event : ℕ → Call EventRecord
unfolding focus
get_event event_id = focus event_id found

unfoldable pub get_winners_page : ℕ → ℕ → ℕ → Call (List Winner)
unfolding focus
get_winners_page event_id start limit =
    focus event_id do found; Event.winners_snapshot start (min limit view_page_limit)

unfoldable pub get_winners : ℕ → Call (List Winner)
unfolding get_winners_page
get_winners event_id = get_winners_page event_id 0 view_page_limit

unfoldable pub get_winner_count : ℕ → Call ℕ
unfolding focus
get_winner_count event_id = focus event_id do found; Event.winner_count

unfoldable pub get_winner_at : ℕ → ℕ → Call (Option Winner)
unfolding focus
get_winner_at event_id idx = focus event_id do found; Event.winner_at idx

unfoldable pub get_contributors_page : ℕ → ℕ → ℕ → Call (List Address)
unfolding focus
get_contributors_page event_id start limit =
    focus event_id do found; People.contributors_snapshot start (min limit view_page_limit)

unfoldable pub get_contributors : ℕ → Call (List Address)
unfolding get_contributors_page
get_contributors event_id = get_contributors_page event_id 0 view_page_limit

unfoldable pub get_contributor_count : ℕ → Call ℕ
unfolding focus
get_contributor_count event_id = focus event_id do found; People.contributor_count

unfoldable pub get_contributor_at : ℕ → ℕ → Call (Option Address)
unfolding focus
get_contributor_at event_id idx = focus event_id do found; People.contributor_at idx

unfoldable pub get_contributor_amount : ℕ → Address → Call ℤ
unfolding focus
get_contributor_amount event_id contributor =
    focus event_id do found; People.get_contributor_amount contributor
