-- ===== src/Types.antt =====
-- contracts/events/src/types.rs and errors.rs: the data of the events contract.
-- Addresses, operation ids (`BytesN<32>`), wasm hashes and symbols are numbers, since the source only
-- compares them; a string is the list of its bytes. Amounts (`i128`) are `ℤ`; `u32` and `u64` are ℕ.
use boundless_contract.Base.{ℕ, Bool, true, false, Option, none, some, List, length}
use boundless_contract.Base.Int.{ℤ}
use boundless_contract.Base.Maps.{Map}

abbrev pub Address : Type 0
Address = ℕ

abbrev pub OpId : Type 0
OpId = ℕ

abbrev pub WasmHash : Type 0
WasmHash = ℕ

abbrev pub Text : Type 0
Text = List ℕ

pub data Pillar : Type 0 where
  hackathon bounty grant crowdfunding : Pillar

abbrev pub is_crowdfunding : Pillar → Bool
is_crowdfunding crowdfunding = true
is_crowdfunding _ = false

abbrev pub is_grant : Pillar → Bool
is_grant grant = true
is_grant _ = false

pub data EventStatus : Type 0 where
  active cancelled completed cancelling : EventStatus

abbrev pub is_active : EventStatus → Bool
is_active active = true
is_active _ = false

abbrev pub is_cancelling : EventStatus → Bool
is_cancelling cancelling = true
is_cancelling _ = false

pub data CancellationBranch : Type 0 where
  owner_only full_partner_then_residual pro_rata_partners : CancellationBranch

pub record CancellationState : Type 0 where
  pub non_owner_total : ℤ
  pub remaining_at_start : ℤ
  pub count_at_start : ℕ
  pub next_idx : ℕ
  pub branch : CancellationBranch

pub data ReleaseKind : Type 0 where
  single : ReleaseKind
  multi : ℕ → ReleaseKind
  split : List ℕ → ReleaseKind

abbrev pub is_single : ReleaseKind → Bool
is_single single = true
is_single _ = false

-- `ReleaseKind::milestones`: how many milestones a multi-release event pays across.
abbrev pub milestones : ReleaseKind → Option ℕ
milestones single = none
milestones (multi n) = some n
milestones (split shares) = some (length shares)

pub record EventRecord : Type 0 where
  pub id : ℕ
  pub pillar : Pillar
  pub owner : Address
  pub token : Address
  pub total_budget : ℤ
  pub remaining_escrow : ℤ
  pub release_kind : ReleaseKind
  pub status : EventStatus
  pub content_uri : Text
  pub title : Text
  pub created_at : ℕ
  pub deadline : Option ℕ
  pub prize_floors : Map ℤ
  pub fee_bps_override : Option ℕ

pub record CreateEventParams : Type 0 where
  pub pillar : Pillar
  pub owner : Address
  pub token : Address
  pub total_budget : ℤ
  pub release_kind : ReleaseKind
  pub content_uri : Text
  pub title : Text
  pub deadline : Option ℕ
  pub prize_floors : Map ℤ
  pub fee_bps_override : Option ℕ
  pub manager : Option Address

pub record Winner : Type 0 where
  pub recipient : Address
  pub position : ℕ
  pub amount : ℤ
  pub milestone : Option ℕ
  pub paid_at : Option ℕ

pub record WinnerSpec : Type 0 where
  pub recipient : Address
  pub position : ℕ
  pub amount : ℤ
  pub reputation_bump : ℕ

pub record GrantAward : Type 0 where
  pub position : ℕ
  pub amount : ℤ

pub record GrantProgress : Type 0 where
  pub settled : ℕ
  pub settled_amount : ℤ

pub record PrizeAward : Type 0 where
  pub recipient : Address
  pub anchor_idx : ℕ
  pub reputation_bump : ℕ

-- `PendingAdmin`, `PendingValidator` and `PendingManager` have the same two fields.
pub record PendingRotation : Type 0 where
  pub target : Address
  pub expires_at_ledger : ℕ

pub record PendingUpgrade : Type 0 where
  pub wasm_hash : WasmHash
  pub new_version : Text
  pub proposed_at_ledger : ℕ
  pub available_at_ledger : ℕ
  pub expires_at_ledger : ℕ

pub data Error : Type 0 where
  already_initialized invalid_fee_bps not_initialized : Error
  pending_rotation_mismatch pending_rotation_expired : Error
  token_not_supported : Error
  event_not_found event_not_active invalid_pillar invalid_release_kind : Error
  invalid_distribution invalid_budget title_too_long : Error
  no_submissions invalid_winner_position duplicate_winner_position distribution_mismatch : Error
  milestone_already_claimed invalid_milestone insufficient_escrow winners_already_selected : Error
  below_minimum_contribution invalid_contribution_amount : Error
  op_already_seen too_many_contributors : Error
  cancellation_not_started cancellation_already_started cancellation_not_finished : Error
  cancellation_total_missing : Error
  upgrade_not_proposed upgrade_timelock_not_elapsed upgrade_proposal_expired : Error
  migration_already_applied paused event_id_overflow : Error
  prize_already_claimed duplicate_recipient reputation_bump_too_large invalid_batch_size : Error
  no_refund_owed awards_outstanding migration_incomplete invalid_milestone_split : Error
