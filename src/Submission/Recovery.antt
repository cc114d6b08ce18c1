-- ===== src/Submission/Recovery.antt =====
-- `_authority_verified` and `recover` of asset_management/execution/submission.py. The rows that the
-- ledger's database returns are arguments.
use toss_trading_core.Prelude.{
  Bool, Option, false, if◌then◌else◌, leb, max, none, not, some, true, ℕ, ◌&&◌, ◌==◌,
}
use toss_trading_core.Submission.{
  Codec, Reason, Row, SubmissionState, broker_evidence_conflict_or_incomplete,
  broker_evidence_conflict_or_stale, broker_state_reconciled, fill_ledger_reconciliation_required,
  filled, is_unresolved, partially_filled, recovery_authority_unavailable,
  recovery_authority_unavailable_or_invalid, state_code,
}

-- What the lookup is asked.
pub record Query : Type 0 where
  pub client_order_id : ℕ
  pub account : ℕ
  pub instrument_id : ℕ
  pub quantity : ℕ
  pub side : ℕ
  pub started_at : ℕ
  pub expires_at : ℕ

-- What the lookup returns: the ids (0 if absent or blank), the query again, and a status (none for
-- a word that is no state of a submission).
pub record Found : Type 0 where
  pub broker_order_id : ℕ
  pub snapshot_id : ℕ
  pub reconciliation_id : ℕ
  pub source_response_id : ℕ
  pub echo : Query
  pub status : Option SubmissionState

pub record StateRow : Type 0 where
  pub state : SubmissionState
  pub source_response_id : ℕ
  pub observed_at : ℕ

pub record ReconciliationRow : Type 0 where
  pub account_snapshot_id : ℕ
  pub account_id : ℕ
  pub matches : Bool
  pub completed_at : ℕ

pub record SnapshotRow : Type 0 where
  pub account_id : ℕ
  pub observed_at : ℕ

pub record RawResponse : Type 0 where
  pub requested_at : ℕ
  pub received_at : ℕ
  pub account_id : Option ℕ

-- The results of the ten queries and of the raw store; `posted` is the one of the last query, none
-- if it fails.
pub record Authority : Type 0 where
  pub client_row : Option ℕ
  pub link_row : Option ℕ
  pub broker_row : Option ℕ
  pub state_row : Option StateRow
  pub recon_row : Option ReconciliationRow
  pub newest_recon : Option ℕ
  pub snapshot_row : Option SnapshotRow
  pub raw_link : Bool
  pub bad_item : Bool
  pub open_issue : Bool
  pub raw : RawResponse
  pub posted : Option Bool

abbrev pub echoes : Query → Query → Bool
echoes a b =
    a.client_order_id == b.client_order_id
    && a.account == b.account
    && a.instrument_id == b.instrument_id
    && a.quantity == b.quantity
    && a.side == b.side
    && a.started_at == b.started_at
    && a.expires_at == b.expires_at

abbrev pub is_row : Option ℕ → ℕ → Bool
is_row none n = false
is_row (some m) n = m == n

abbrev pub none_or_row : Option ℕ → ℕ → Bool
none_or_row none n = true
none_or_row (some m) n = m == n

abbrev pub same_state : SubmissionState → SubmissionState → Bool
same_state a b = state_code a == state_code b

-- The long condition of `_authority_verified`, negated, for rows that were found.
unfoldable pub consistent_rows :
    Query
    → Found
    → SubmissionState
    → ℕ
    → Authority
    → Option StateRow
    → Option ReconciliationRow
    → Option SnapshotRow
    → Bool
consistent_rows q f status cutoff a (some s) (some r) (some p) =
    same_state s.state status
    && s.source_response_id == f.source_response_id
    && r.account_snapshot_id == f.snapshot_id
    && r.account_id == q.account
    && r.matches
    && p.account_id == q.account
    && leb cutoff a.raw.requested_at
    && leb a.raw.requested_at a.raw.received_at
    && leb cutoff s.observed_at
    && leb cutoff p.observed_at
    && leb (max (max cutoff a.raw.received_at) (max s.observed_at p.observed_at)) r.completed_at
consistent_rows q f status cutoff a none r p = false
consistent_rows q f status cutoff a (some s) none p = false
consistent_rows q f status cutoff a (some s) (some r) none = false

unfoldable pub consistent : Query → Found → SubmissionState → ℕ → ℕ → Authority → Bool
unfolding consistent_rows
consistent q f status intent cutoff a =
    is_row a.client_row intent
    && is_row a.link_row f.broker_order_id
    && is_row a.broker_row q.account
    && is_row a.newest_recon f.reconciliation_id
    && a.raw_link
    && not a.bad_item
    && not a.open_issue
    && none_or_row a.raw.account_id q.account
    && consistent_rows q f status cutoff a a.state_row a.recon_row a.snapshot_row

-- A fill counts only if it is posted to the ledger.
abbrev pub needs_posting : SubmissionState → Bool
needs_posting partially_filled = true
needs_posting filled = true
needs_posting _ = false

abbrev pub is_posted : Option Bool → Bool
is_posted none = false
is_posted (some b) = b

abbrev pub complete_ids : Found → Bool
complete_ids f =
    not (f.broker_order_id == 0)
    && not (f.snapshot_id == 0)
    && not (f.reconciliation_id == 0)
    && not (f.source_response_id == 0)

abbrev pub judge : Query → Found → SubmissionState → ℕ → ℕ → Option Authority → Bool × Reason
judge q f status intent cutoff none = (false, recovery_authority_unavailable_or_invalid)
judge q f status intent cutoff (some a) =
    if not (consistent q f status intent cutoff a)
    then (false, broker_evidence_conflict_or_stale)
    else if needs_posting status && not (is_posted a.posted)
    then (false, fill_ledger_reconciliation_required)
    else (true, broker_state_reconciled)

abbrev pub judge_status :
    Query → Found → Option SubmissionState → ℕ → ℕ → (Found → Option Authority) → Bool × Reason
judge_status q f none intent cutoff authority = (false, broker_evidence_conflict_or_incomplete)
judge_status q f (some status) intent cutoff authority =
    if is_unresolved status
    then (false, broker_evidence_conflict_or_incomplete)
    else judge q f status intent cutoff (authority f)

-- `_authority_verified`; an authority that answers none has a query that fails.
unfoldable pub authority_verified :
    Option (Found → Option Authority) → Query → Found → ℕ → ℕ → Bool × Reason
unfolding consistent
authority_verified none q f intent cutoff = (false, recovery_authority_unavailable)
authority_verified (some authority) q f intent cutoff =
    if not (complete_ids f && echoes f.echo q)
    then (false, broker_evidence_conflict_or_incomplete)
    else judge_status q f f.status intent cutoff authority

abbrev pub query_of : Codec → ℕ → Row → Query
query_of codec client r = record {
  client_order_id = client;
  account = r.account;
  instrument_id = (codec.decode r.payload).instrument_id;
  quantity = (codec.decode r.payload).quantity;
  side = (codec.decode r.payload).side;
  started_at = r.started;
  expires_at = r.expires;
}

-- What `recover` has read before it looks up: the row, its audit generation and its cutoff.
pub record Pending : Type 0 where
  pub row : Row
  pub generation : ℕ
  pub cutoff : ℕ
