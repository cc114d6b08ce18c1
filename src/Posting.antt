-- ===== src/Posting.antt =====
-- The posting of executions to the ledgers, asset_management/ledger/posting.py and settlement.py
-- beside it: the rows that they read and write. The hash of a JSON value or a text, the ids of uuid5
-- and the division of decimals are parameters.
pub mod Settlement
pub mod Settled
pub mod Context
pub mod Write
pub mod Post
pub mod Sums
pub mod Booked
pub mod Repeats
pub mod Again
mod Tests
use toss_trading_core.Prelude.{Bool, List, Option, ℕ}
use toss_trading_core.Executions.{ExecutionDelta, ExecutionSnapshot}
use toss_trading_core.Ledger.Cash.{CashTables}
use toss_trading_core.Ledger.Positions.{PositionTables}
use toss_trading_core.Prelude.Dict.{Dict}

-- A JSON value. A string is the day that it writes in the form YYYY-MM-DD, or no such day; a key is
-- a number, with whether it is `settlementdate` once it is in lower case without other signs.
mutual
  pub data Json : Type 0 where
    json_text : Option ℕ → Json
    json_other : Json
    json_list : Elements → Json
    json_object : Members → Json

  pub data Elements : Type 0 where
    no_elements : Elements
    element : Json → Elements → Elements

  pub data Members : Type 0 where
    no_members : Members
    member : ℕ → Bool → Json → Members → Members

pub data PostError : Type 0 where
  settlement_lineage_missing raw_evidence_unverified not_authoritative : PostError
  settlement_malformed settlement_absent settlement_ambiguous settlement_conflict : PostError
  settlement_evidence_absent settlement_evidence_mismatch : PostError
  unsupported_side context_incomplete fx_or_policy_required naive_posting : PostError
  delta_not_stored delta_conflict order_incomplete context_conflict opening_currency : PostError
  replayed_context_conflict row_exists lots_refused fx_invalid unsupported_policy : PostError

-- A row of `am_raw_api_response`, of which the code here reads the source, the status, the body with
-- its stored hash, and the account.
pub record RawApiResponse : Type 0 where
  pub raw_response_id : ℕ
  pub from_toss : Bool
  pub account_id : ℕ
  pub status_code : ℕ
  pub body : Json
  pub response_hash : ℕ

pub data Side : Type 0 where
  buy sell : Side

-- What an order's payload says; a text that is missing or blank is 0, and a side is none when it is
-- missing, else whether it is one of the two.
pub record OrderRow : Type 0 where
  pub account_id : ℕ
  pub instrument : ℕ
  pub side : Option (Option Side)
  pub currency : ℕ

-- A row of `am_execution_settlement_evidence`; `SettlementEvidence` has the same fields but the hash.
pub record SettlementEvidence : Type 0 where
  pub execution_delta_id : ℕ
  pub execution_snapshot_id : ℕ
  pub source_response_id : ℕ
  pub settlement_date : ℕ
  pub extraction_paths : List (List ℕ)
  pub response_hash : ℕ

pub record EvidenceRow : Type 0 where
  pub evidence : SettlementEvidence
  pub evidence_hash : ℕ

-- A row of `am_execution_posting_context`, of which the hash is read.
pub record ContextRow : Type 0 where
  pub execution_delta_id : ℕ
  pub context_hash : ℕ

-- What a cash event of a posting is for, and a row of `am_execution_cash_component`.
pub data Component : Type 0 where
  principal commission_part tax_part : Component

pub record ComponentRow : Type 0 where
  pub execution_delta_id : ℕ
  pub component : Component
  pub cash_event_id : ℕ

-- A row of `am_execution_posting`.
pub record PostingRow : Type 0 where
  pub execution_delta_id : ℕ
  pub cash_event_id : Option ℕ
  pub position_event_id : Option ℕ
  pub posted_at_utc : ℕ

-- All tables that a posting reads or writes.
pub record Books : Type 0 where
  pub orders : Dict OrderRow
  pub snapshots : List ExecutionSnapshot
  pub deltas : List ExecutionDelta
  pub responses : List RawApiResponse
  pub evidence : List EvidenceRow
  pub contexts : List ContextRow
  pub components : List ComponentRow
  pub postings : List PostingRow
  pub cash : CashTables
  pub shares : PositionTables
