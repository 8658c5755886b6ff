-- ===== src/Admin/Migrate.antt =====
-- contracts/events/src/admin.rs: the paged conversion of events from the layout before 1.7.0, and the
-- stamp that ends it.
use boundless_contract.Base.{
  ⊤, ℕ, zero, suc, ◌-◌, max, Bool, true, false, ◌||◌, Option, none, some, unwrap_or, [], ◌∷◌, ltb,
  ◌==◌, ◌&&◌, if◌then◌else◌,
}
use boundless_contract.Base.Int.{ℤ, pos, ltb_ℤ, saturating_mul, quot}
use boundless_contract.Base.Word.{saturating_add64}
use boundless_contract.Base.Maps.{Map, insert}
use boundless_contract.Types.{
  Text, EventRecord, not_initialized, migration_already_applied, migration_incomplete,
}
use boundless_contract.Notices.{migrated}
use boundless_contract.Chain.{
  Call, EventRow, LegacyEventRecord, current, legacy, pure, ok_or, fail_if, modify_here, focus,
  publish, ◌>>=◌, ◌>>◌,
}
use boundless_contract.Storage.Config.{
  get_version, get_migrated_to_version, set_migrated_to_version, get_next_event_id,
  get_migration_cursor, set_migration_cursor,
}
use boundless_contract.Idempotency.{id_base}
use boundless_contract.Admin.Guards.{require_admin}

-- The loop over `winner_distribution`: a floor for each position whose share is above 0.
unfoldable pub floors_of : ℤ → Map ℕ → Map ℤ → Map ℤ
floors_of total_budget [] floors = floors
floors_of total_budget ((position, percent) ∷ rest) floors =
    let floor = quot (saturating_mul total_budget (pos percent)) 100 in
    floors_of total_budget rest
      (if ltb_ℤ (pos 0) floor then insert position floor floors else floors)

unfoldable pub convert : LegacyEventRecord → EventRecord
unfolding floors_of
convert old = record {
  id = old.id;
  pillar = old.pillar;
  owner = old.owner;
  token = old.token;
  total_budget = old.total_budget;
  remaining_escrow = old.remaining_escrow;
  release_kind = old.release_kind;
  status = old.status;
  content_uri = old.content_uri;
  title = old.title;
  created_at = old.created_at;
  deadline = old.deadline;
  prize_floors = floors_of old.total_budget old.winner_distribution [];
  fee_bps_override = old.fee_bps_override;
}

abbrev pub convert_row : Option EventRow → Option EventRow
convert_row (some (legacy old)) = some (current (convert old))
convert_row row = row

abbrev pub migrate_one_event : ℕ → Call ⊤
migrate_one_event id = focus id (modify_here (λ d. record d { event = convert_row d.event }))

abbrev pub max_per_call : ℕ
max_per_call = 8

-- `while cursor < next && done < budget`, by the rounds that the budget leaves.
unfoldable pub migrate_from : ℕ → ℕ → ℕ → Call ℕ
migrate_from zero next cursor = pure cursor
migrate_from (suc left) next cursor =
    let round = migrate_one_event cursor >> migrate_from left next (saturating_add64 cursor 1) in
    if ltb cursor next then round else pure cursor

unfoldable pub migrate_events : ℕ → Call ℕ
migrate_events max_events = do
  require_admin
  let budget = if max_events == 0 || ltb max_per_call max_events then max_per_call else max_events
  base ← id_base
  let first = saturating_add64 base 1
  next ← get_next_event_id first
  stored ← get_migration_cursor
  cursor ← migrate_from budget next (max (unwrap_or stored first) first)
  set_migration_cursor cursor
  pure (next - cursor)

unfoldable pub migration_remaining : Call ℕ
migration_remaining = do
  base ← id_base
  let first = saturating_add64 base 1
  next ← get_next_event_id first
  cursor ← get_migration_cursor
  pure (next - max (unwrap_or cursor first) first)

abbrev pub text_eq : Text → Text → Bool
text_eq [] [] = true
text_eq (a ∷ x) (b ∷ y) = (a == b) && text_eq x y
text_eq _ _ = false

abbrev pub is_version : Option Text → Text → Bool
is_version none v = false
is_version (some m) v = text_eq m v

-- "0.0.0"
abbrev pub no_version : Text
no_version = b'0' ∷ b'.' ∷ b'0' ∷ b'.' ∷ b'0' ∷ []

unfoldable pub migrate : Call ⊤
unfolding migration_remaining
migrate = do
  require_admin
  version ← ok_or (← get_version) not_initialized
  already ← get_migrated_to_version
  fail_if (is_version already version) migration_already_applied
  remaining ← migration_remaining
  fail_if (ltb 0 remaining) migration_incomplete
  set_migrated_to_version version
  publish (migrated (unwrap_or already no_version) version)
