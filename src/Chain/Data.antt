-- ===== src/Chain/Data.antt =====
-- The storage of the events contract, by the keys of `DataKey` (contracts/events/src/types.rs): a key
-- with no argument is a field of `Config`, a key of the token list one of `Whitelist`, and a key whose
-- first argument is an event id a field of `EventData`, which `State.events` holds for each id. A key
-- that is not set is `none`. A call on one event works on a copy of its data, `State.here`, which the
-- call takes from `State.events` when it begins and writes back when it ends (`focus`). Entry lifetimes
-- (`extend_ttl`) are not modelled: a persistent or instance entry that is archived is restored before it
-- is read, and a read that extends one leaves what is stored. A mark of an operation id is a temporary
-- entry, which lapses: `State.op_seen` holds the last ledger at which it is there.
use boundless_contract.Base.{ℕ, ◌+◌, ◌-◌, Bool, Option, none, some, ltb, List}
use boundless_contract.Base.Int.{ℤ}
use boundless_contract.Base.Maps.{Map}
use boundless_contract.Types.{
  Address, OpId, WasmHash, Text, Pillar, ReleaseKind, EventStatus, EventRecord, CancellationState,
  Winner, GrantAward, GrantProgress, PrizeAward, PendingRotation, PendingUpgrade,
}
use boundless_contract.Notices.{Notice}

pub record Config : Type 0 where
  pub admin : Option Address
  pub pending_admin : Option PendingRotation
  pub fee_account : Option Address
  pub fee_bps : Option ℕ
  pub paused : Option Bool
  pub deployment_seq : Option ℕ
  pub profile_contract : Option Address
  pub next_event_id : Option ℕ
  pub version : Option Text
  pub pending_upgrade : Option PendingUpgrade
  pub migrated_to_version : Option Text
  pub migration_cursor : Option ℕ
  pub paused_at : Option ℕ
  pub paused_seconds : Option ℕ
  pub release_validator : Option Address
  pub pending_release_validator : Option PendingRotation

pub record Whitelist : Type 0 where
  pub supported : Address → Option Bool
  pub count : Option ℕ
  pub at : ℕ → Option Address
  pub slot : Address → Option ℕ

-- The layout of an event before 1.7.0, with a percentage for each position.
pub record LegacyEventRecord : Type 0 where
  pub id : ℕ
  pub pillar : Pillar
  pub owner : Address
  pub token : Address
  pub total_budget : ℤ
  pub remaining_escrow : ℤ
  pub release_kind : ReleaseKind
  pub status : EventStatus
  pub content_uri : Text
  pub title : Text
  pub created_at : ℕ
  pub deadline : Option ℕ
  pub winner_distribution : Map ℕ
  pub fee_bps_override : Option ℕ

-- What the key `Event(id)` holds: a row in the current layout, or in the older one.
pub data EventRow : Type 0 where
  current : EventRecord → EventRow
  legacy : LegacyEventRecord → EventRow

pub record EventData : Type 0 where
  pub event : Option EventRow
  pub manager : Option Address
  pub pending_manager : Option PendingRotation
  pub winner_count : Option ℕ
  pub winner_at : ℕ → Option Winner
  pub prize_award : ℕ → Option PrizeAward
  pub unclaimed_prizes : Option ℕ
  pub owed_total : Option ℤ
  pub prize_claim_expiry : Option ℕ
  pub contributor_amount : Address → Option ℤ
  pub contributor_count : Option ℕ
  pub contributor_at : ℕ → Option Address
  pub contributor_slot : Address → Option ℕ
  pub non_owner_contribution_total : Option ℤ
  pub milestone_claimed : Address → ℕ → Option Bool
  pub grant_roster : Option (Map GrantAward)
  pub grant_progress : Address → Option GrantProgress
  pub unclaimed_refund : Address → Option ℤ
  pub crowdfunding_milestones_claimed : Option ℕ
  pub cancellation_state : Option CancellationState

-- A call of a token contract that went through.
pub record Transfer : Type 0 where
  pub token : Address
  pub from : Address
  pub to : Address
  pub amount : ℤ

-- A call of the profile contract, whose failure the source ignores. `reason` is its symbol's bytes.
pub data ProfileCall : Type 0 where
  -- user, op_id
  bootstrap : Address → OpId → ProfileCall
  -- user, delta, reason, op_id
  bump_reputation : Address → ℕ → Text → OpId → ProfileCall
  -- user, token, amount, op_id
  register_earnings : Address → Address → ℤ → OpId → ProfileCall

pub record State : Type 0 where
  pub config : Config
  pub tokens : Whitelist
  pub events : ℕ → EventData
  pub here : EventData
  pub op_seen : Address → OpId → Option ℕ
  pub executable : WasmHash
  pub transfers : List Transfer
  pub profile_calls : List (Address × ProfileCall)
  pub published : List Notice

-- What the host supplies to a call. `authorized a` says whether the call carries a valid signature of
-- `a`; `accepts log t` whether the token contract carries out `t` after the transfers of `log`;
-- `min_temporary_ttl` the ledgers for which the network keeps a temporary entry; `sha256`, `to_array` and `to_xdr` are the host's hash and its byte encodings.
pub record Env : Type 0 where
  pub timestamp : ℕ
  pub sequence : ℕ
  pub min_temporary_ttl : ℕ
  pub current_contract_address : Address
  pub authorized : Address → Bool
  pub accepts : List Transfer → Transfer → Bool
  pub sha256 : List ℕ → OpId
  pub to_array : OpId → List ℕ
  pub to_xdr : Address → List ℕ

-- A temporary entry that is written at a ledger lives for the network's minimum, that ledger included.
abbrev pub live_until : Env → ℕ
live_until e = e.sequence + e.min_temporary_ttl - 1

-- One more than the last ledger of an entry, 0 for none.
abbrev pub life : Option ℕ → ℕ
life none = 0
life (some last) = last + 1

abbrev pub lives : Env → Option ℕ → Bool
lives e entry = ltb e.sequence (life entry)
