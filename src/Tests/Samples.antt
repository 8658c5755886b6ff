-- ===== src/Tests/Samples.antt =====
-- A ledger with one event: a bounty of 1,000 units with 100 owed for the prize at position 1.
use boundless_contract.Base.{ℕ, true, none, some, List, [], ◌∷◌, ◌==◌, if◌then◌else◌}
use boundless_contract.Base.Int.{pos}
use boundless_contract.Types.{EventRecord, Winner, PrizeAward, WinnerSpec, bounty, single, active}
use boundless_contract.Chain.{Call, Config, EventData, State, Env, ok, current}

abbrev pub contract_address : ℕ
contract_address = 100

abbrev pub admin_address : ℕ
admin_address = 1

abbrev pub fee_address : ℕ
fee_address = 2

abbrev pub owner_address : ℕ
owner_address = 3

abbrev pub winner_address : ℕ
winner_address = 4

abbrev pub token_address : ℕ
token_address = 50

-- Every signature is there, and the token accepts every transfer.
abbrev pub host_at : ℕ → ℕ → Env
host_at time ledger = record {
  timestamp = time;
  sequence = ledger;
  min_temporary_ttl = 17280;
  current_contract_address = contract_address;
  authorized = λ _. true;
  accepts = λ _ _. true;
  sha256 = λ _. 7;
  to_array = λ _. [];
  to_xdr = λ _. [];
}

abbrev pub settings : Config
settings = record {
  admin = some admin_address;
  pending_admin = none;
  fee_account = some fee_address;
  fee_bps = some 250;
  paused = none;
  deployment_seq = some 1;
  profile_contract = some 60;
  next_event_id = none;
  version = none;
  pending_upgrade = none;
  migrated_to_version = none;
  migration_cursor = none;
  paused_at = none;
  paused_seconds = some 10;
  release_validator = none;
  pending_release_validator = none;
}

abbrev pub blank : EventData
blank = record {
  event = none;
  manager = none;
  pending_manager = none;
  winner_count = none;
  winner_at = λ _. none;
  prize_award = λ _. none;
  unclaimed_prizes = none;
  owed_total = none;
  prize_claim_expiry = none;
  contributor_amount = λ _. none;
  contributor_count = none;
  contributor_at = λ _. none;
  contributor_slot = λ _. none;
  non_owner_contribution_total = none;
  milestone_claimed = λ _ _. none;
  grant_roster = none;
  grant_progress = λ _. none;
  unclaimed_refund = λ _. none;
  crowdfunding_milestones_claimed = none;
  cancellation_state = none;
}

abbrev pub bounty_event : EventRecord
bounty_event = record {
  id = 7;
  pillar = bounty;
  owner = owner_address;
  token = token_address;
  total_budget = pos 1000;
  remaining_escrow = pos 1000;
  release_kind = single;
  status = active;
  content_uri = [];
  title = [];
  created_at = 0;
  deadline = none;
  prize_floors = (2, pos 150) ∷ [];
  fee_bps_override = none;
}

abbrev pub prize_row : Winner
prize_row = record {
  recipient = winner_address;
  position = 1;
  amount = pos 100;
  milestone = none;
  paid_at = none;
}

abbrev pub prize : PrizeAward
prize = record { recipient = winner_address; anchor_idx = 0; reputation_bump = 5 }

abbrev pub awarded_bounty : EventData
awarded_bounty = record blank {
  event = some (current bounty_event);
  winner_count = some 1;
  winner_at = λ i. if i == 0 then some prize_row else none;
  prize_award = λ p. if p == 1 then some prize else none;
  unclaimed_prizes = some 1;
  owed_total = some (pos 100);
}

abbrev pub ledger : State
ledger = record {
  config = settings;
  tokens = record { supported = λ _. none; count = none; at = λ _. none; slot = λ _. none };
  events = λ id. if id == 7 then awarded_bounty else blank;
  here = blank;
  op_seen = λ _ _. none;
  executable = 0;
  transfers = [];
  profile_calls = [];
  published = [];
}

-- The state after a call that succeeds.
abbrev pub after : {A : Type 0} → Call A → Env → State → State
after m e s = elim (m e s) [ ok (_, t) ↦ t | _ ↦ s ]

abbrev pub more_winners : List WinnerSpec
more_winners =
    (record { recipient = 5; position = 2; amount = pos 200; reputation_bump = 3 })
    ∷ (record { recipient = 4; position = 3; amount = pos 50; reputation_bump = 0 })
    ∷ []
