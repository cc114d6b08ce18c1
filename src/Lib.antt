-- ===== src/Lib.antt =====
-- A model of the trading core of this repository, src/asset_management: what it knows of the
-- orders that it sent, what they filled, which tax lots a sale takes, who may send one, and how
-- one is sent at most once. The parts meet as they do in the code: the risk governor issues the
-- approval of a target, the submission journal hands an order to the transport once, the
-- observation service takes what the broker reports to the order repository, the execution
-- repository, the ledgers and the tax lots, and the paper broker stands in for a real one.
--
-- - Orders: src/asset_management/account/orders.py with the states of
--   src/asset_management/domain/enums.py. Orders.antt has the states, the broker's words, the
--   table of transitions and its guard; Orders/Repository.antt has `latest`, `append`,
--   `append_broker_state` and `require_terminal`. Orders/Journal, Orders/Final, Orders/Replay and
--   Orders/Newest hold the proofs.
-- - Executions: src/asset_management/account/executions.py. Executions.antt has the rows, the
--   checks and the queries, Executions/Repository.antt `append` as `append_report`;
--   Executions/Totals, Executions/Replays and Executions/Grows hold the proofs.
-- - Governor: src/asset_management/decisions/governor.py and reason_codes.py beside it.
--   Governor.antt has the inputs with their checks and the two tables of conditions,
--   Governor/Policy.antt the policy, Governor/Decide.antt the branches of `decide`,
--   Governor/Calls.antt `_build`, `decide`, `authorize` and `evaluate`, Governor/Target.antt the
--   weights that are bound to an approval; Governor/Least, Governor/Clear and Governor/Authority
--   hold the proofs.
-- - Submission: src/asset_management/execution/submission.py. Submission.antt has the two tables,
--   Submission/Calls.antt `submit_once` and `mark_ambiguous`, Submission/Recovery.antt
--   `_authority_verified`, Submission/Recover.antt `recover`; Submission/Kept, Submission/Once,
--   Submission/Agreed and Submission/Proven hold the proofs.
-- - Lots: src/asset_management/ledger/tax_lots.py. Lots.antt has the tables and the lots as of a
--   time, Lots/Acquire.antt `acquire`, Lots/Dispose.antt `dispose_fifo`; Lots/Fifo and
--   Lots/Conserved hold the proofs.
-- - Ledger: src/asset_management/ledger/cash.py and positions.py beside it. Ledger.antt has the
--   errors, the evidence and the broker's constraint, Ledger/Reservations.antt what both ledgers
--   do to reserve for an order, Ledger/Cash.antt the cash tables and `record_opening`,
--   Ledger/CashEvents.antt `append_event` as `append_cash_event`, Ledger/CashOrders.antt
--   `reserve_open_order`, Ledger/CashState.antt `state` as `cash_state`, Ledger/Positions.antt
--   and Ledger/PositionState.antt the same for positions, which hold the tax lots of Lots; the
--   other files hold the proofs.
-- - Posting: src/asset_management/ledger/posting.py and settlement.py beside it, with `verified`
--   of src/asset_management/data/raw_store.py. Posting.antt has the tables,
--   Posting/Settlement.antt the evidence of a settlement day as `resolve_settlement`, `persist`
--   and `require_evidence`, Posting/Context.antt the context and the functions from outside,
--   Posting/Write.antt the writes of `post`, Posting/Post.antt `post`; it writes to the tables of
--   Ledger and of Lots, and the other files hold the proofs.
-- - Observe: src/asset_management/execution/fills.py. Observe.antt has the errors and all tables
--   of an observation, Observe/Calls.antt `observe`, Observe/Release.antt
--   `_release_reservations`, Observe/Recover.antt `recover_submission_timeout`; it calls
--   `append_broker_state` of Orders, `append_report` of Executions and `post` of Posting, and
--   Observe/Released, Observe/Terminal, Observe/Rollback and Observe/Recovered hold the proofs.
-- - Overrides: src/asset_management/decisions/overrides.py. Overrides.antt has the event and its
--   checks, Overrides/Journal.antt the text of the file, its lines and `resolve`;
--   Overrides/Lines, Overrides/Roundtrip and Overrides/Resolved hold the proofs.
-- - Limits: src/asset_management/broker/rate_limit.py. Limits.antt has the token bucket and the
--   order of reads, Limits/Spent and Limits/Granted the proofs.
-- - Events: src/asset_management/replay/event_store.py and ordering.py beside it. Events.antt has
--   the envelope, the store's `append` as `append_envelope` and `order_events`; Events/Stored
--   holds the proof.
-- - Schedule: src/asset_management/execution/scheduling.py. Schedule.antt has the policy, the
--   rule and the inputs, Schedule/Allocate.antt the division of lots, window and price,
--   Schedule/Plan.antt `plan_schedule`; the other files hold the proofs.
-- - Paper: src/asset_management/execution/paper.py. Paper.antt has the stored account and what
--   its open orders reserve, Paper/Calls.antt the calls, Paper/Initialize.antt the first one; the
--   other files hold the proofs.
-- - Prelude: the library names that the parts share, Boolean tests, integers, results and dicts.
--
-- Names, ids, hashes and other texts are numbers, since the code only compares them; 0 is a blank
-- text. The file of the overrides is the list of its code points. Decimals are counted in
-- smallest units, as natural numbers where the code has refused the others, and as integers where
-- a sign matters; products and sums are exact, so the rounding of a decimal context after 28
-- digits is not modelled. A time is a number of microseconds of UTC, or naive. A table is a list
-- or a dict of its rows; a query is a function on it. An error is a value, and a transaction that
-- is rolled back returns the tables as they were. The ids of uuid4 are arguments, as are SHA-256,
-- the printing and the reading of JSON, the sort of the governor's evidence ids, the transport
-- and the lookup at the broker. Every function is structurally recursive, so no fuel is needed;
-- the waiting loop of the token bucket runs over the readings of the clock.
--
-- Not modelled: reconciliation, the planning of orders, the reading of stored events, the threads
-- that wait for a token bucket, the broker's network access, market data, portfolio optimisation
-- and statistics; locks and the failure of a disk.
pub mod Events
pub mod Executions
pub mod Governor
pub mod Ledger
pub mod Limits
pub mod Lots
pub mod Observe
pub mod Orders
pub mod Overrides
pub mod Paper
pub mod Posting
pub mod Prelude
pub mod Schedule
pub mod Submission
