-- ===== src/Lib.antt =====
-- The events contract of boundless-contract: escrowed events (hackathons, bounties, grants and
-- crowdfunding campaigns) on Soroban, and the profile contract, which keeps the reputation and the
-- earnings of users, modelled as functions and proved correct.
--
-- A call (Host.HostCall) is a function from what the host supplies (Chain.Data.Env: time, ledger number, signatures,
-- the token contract's answers, the hash) and the contract's state to a result: a value with the new
-- state, an error code, or a trap. A call that fails carries no state, since the host discards all that
-- it did. The state is a record with a field for each storage key. The entries of one event are a record
-- of their own, and a handler works on them in focus (Chain.Calls.focus), so that its storage accesses
-- need no event id; they are stored back when it succeeds. Transfers, calls of the profile contract and
-- published events are logs, newest first.
--
-- The parts of the program, by their paths under contracts/events/src:
--   types.rs, errors.rs           Types, and Chain/Data for the storage keys
--   events.rs                     Notices
--   storage.rs                    Storage: Config, Tokens, Event, People
--   escrow.rs                     Escrow, and Escrow/Fees for what fees do to the balance
--   idempotency.rs                Idempotency, and Idempotency/Ids
--   profile_client.rs             Profile: the calls after a payout
--   admin.rs, token_whitelist.rs  Admin: Guards, Setup, Reads, Rotation, Pause, Upgrade,
--                                 Migrate
--   grant.rs                      Grant: Shares (how an award is divided), Settle (its two handlers)
--   event_ops.rs                  EventOps: Create, Manager, Funds, Cancel, Select, Claim, Reads, and
--                                 Handlers for the calls of lib.rs that change one event; Solvency
--                                 holds what an event owes against its escrow, handler by handler,
--                                 Contributors what each contributor gave, Rows
--                                 the winners' rows through every handler, and Cancel/Payouts what a
--                                 cancellation pays
--   lib.rs                        EntryPoints: every call that changes the state, and histories of
--                                 them; Views: every read; Once, Tokens, Keys and Claims: what all
--                                 calls do to the operation ids, the token list, the keys and the prizes
-- By their paths under contracts/profile/src:
--   types.rs, errors.rs,
--     events.rs                   ProfileContract/Data
--   storage.rs, idempotency.rs,
--     the guards of admin.rs      ProfileContract/Store
--   admin.rs                      ProfileContract/Admin and ProfileContract/Upgrade
--   bootstrap.rs, reputation.rs,
--     earnings.rs                 ProfileContract/Scores
--   lib.rs, the reads of admin.rs ProfileContract/Requests, and ProfileContract/Views for the reads
-- The events contract calls the profile contract best effort and ignores its failures. In the model of
-- the former these calls are a log; ProfileLink delivers the log to the model of the latter.
-- A definition has its source's name. Where a handler is long, a helper stands for a loop or a branch of
-- it and its comment says which. Custody, which models no code, adds the transfers up to balances: the
-- escrow accounting is held against it. Base has the integers and the lemmas that all share. Tests has
-- concrete events and runs.
--
-- Numbers: an i128 is an integer with the checked and the saturating operations of the source written
-- out, a u32 or u64 a natural number with its upper bound where an operation can meet it. Two loops run
-- by rounds: process_cancel_batch and migrate_events do at most as many as the cap or the budget that
-- the source computes, which is where the source's own loops stop.
--
-- Not modelled: the lifetimes of persistent and instance entries, which reads and writes extend and the
-- host restores, so that here a read leaves the state as it was; the compatibility check, the tests and
-- the scripts. A mark of an operation id is a temporary entry and lapses after the network's minimum,
-- Chain.Data.Env.min_temporary_ttl. That a handler stores back the entries of its own event only is part
-- of the model: each storage call of the source names the event id of the call. The token contracts and
-- the host are parameters. The upgrades are those of the mainnet build, whose timelock is not 0.
pub mod Base
pub mod Types
pub mod Notices
pub mod Host
pub mod Chain
pub mod Storage
pub mod Escrow
pub mod Idempotency
pub mod Admin
pub mod Profile
pub mod ProfileContract
pub mod ProfileLink
pub mod Grant
pub mod EventOps
pub mod EntryPoints
pub mod Custody
pub mod Tests
