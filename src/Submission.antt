-- ===== src/Submission.antt =====
-- `SubmissionJournal` of asset_management/execution/submission.py: its two tables and the checks on
-- them. Ids and texts are numbers, 0 for a blank one; the table `submission` is a dict from its
-- primary key.
pub mod Calls
pub mod Recovery
pub mod Recover
pub mod Kept
pub mod Once
pub mod Agreed
pub mod Proven
mod Tests
use toss_trading_core.Prelude.{
  Bool, List, Option, Result, [], err, false, if◌then◌else◌, ltb, max, none, ok, some, true, ℕ,
  ◌&&◌, ◌+◌, ◌==◌, ◌||◌, ◌∷◌,
}
use toss_trading_core.Prelude.Dict.{Dict, get, put}

-- The states of a submission: unresolved ones, and those that recovery may record.
pub data SubmissionState : Type 0 where
  submitting unknown_broker_state : SubmissionState
  acknowledged open_at_broker partially_filled filled canceled rejected : SubmissionState

abbrev pub state_code : SubmissionState → ℕ
state_code submitting = 0
state_code unknown_broker_state = 1
state_code acknowledged = 2
state_code open_at_broker = 3
state_code partially_filled = 4
state_code filled = 5
state_code canceled = 6
state_code rejected = 7

pub data Reason : Type 0 where
  already_recorded_no_resend durable_before_submit reconciliation_required : Reason
  cancel_reconciliation_required replace_reconciliation_required : Reason
  boot_recovery_reconciliation_required already_reconciled recovery_state_changed_requery : Reason
  broker_lookup_unavailable_or_unproven recovery_authority_unavailable : Reason
  broker_evidence_conflict_or_incomplete recovery_authority_unavailable_or_invalid : Reason
  broker_evidence_conflict_or_stale fill_ledger_reconciliation_required : Reason
  broker_state_reconciled : Reason

pub data SubmissionError : Type 0 where
  naive_time submission_not_found submission_payload_corrupt submission_input_invalid :
      SubmissionError
  economic_order_conflict account_submission_unresolved recovery_operation_time_invalid :
      SubmissionError

-- A row of `submission`.
pub record Row : Type 0 where
  pub client : ℕ
  pub economic_key : ℕ
  pub account : ℕ
  pub payload : ℕ
  pub payload_hash : ℕ
  pub started : ℕ
  pub expires : ℕ
  pub state : SubmissionState

-- What an audit row keeps as evidence; `ambiguous_at` is the one key that the code reads again.
pub data Evidence : Type 0 where
  claimed_at : ℕ → Evidence
  response : Option ℕ → Evidence
  ambiguous_at : ℕ → Evidence
  recovered : ℕ → Evidence

pub record Audit : Type 0 where
  pub sequence : ℕ
  pub client : ℕ
  pub state : SubmissionState
  pub reason : Reason
  pub evidence : Evidence

-- Both tables; a new audit row is consed.
pub record Journal : Type 0 where
  pub rows : Dict Row
  pub audits : List Audit

pub record SubmissionReceipt : Type 0 where
  pub client_order_id : ℕ
  pub state : SubmissionState
  pub reason : Reason

-- What the journal reads of a `PlannedOrderIntent`.
pub record Intent : Type 0 where
  pub client_order_id : ℕ
  pub order_intent_id : ℕ
  pub run_id : ℕ
  pub portfolio_target_id : ℕ
  pub instrument_id : ℕ
  pub side : ℕ
  pub quantity : ℕ

-- The canonical text of account and intent, the hash of its economic identity, and SHA-256; and
-- the intent that is read back from a text.
pub record Codec : Type 0 where
  pub encode : ℕ → Intent → ℕ
  pub economic : ℕ → ℕ → ℕ → ℕ → ℕ → ℕ
  pub digest : ℕ → ℕ
  pub decode : ℕ → Intent

-- AUTOINCREMENT
unfoldable pub last_sequence : List Audit → ℕ
last_sequence [] = 0
last_sequence (a ∷ audits) = max a.sequence (last_sequence audits)

unfoldable pub set_state : ℕ → SubmissionState → Dict Row → Dict Row
unfolding get put
set_state client s rows = elim (get client rows) [
  | none ↦ rows
  | some r ↦ put client (record r { state = s }) rows
]

-- `_record`
unfoldable pub record_state :
    ℕ → SubmissionState → Reason → Evidence → Journal → SubmissionReceipt × Journal
unfolding set_state last_sequence
record_state client s reason evidence j = (
  record { client_order_id = client; state = s; reason = reason },
  record {
    rows = set_state client s j.rows;
    audits =
        record {
          sequence = last_sequence j.audits + 1;
          client = client;
          state = s;
          reason = reason;
          evidence = evidence;
        }
        ∷ j.audits;
  },
)

-- `_row`
unfoldable pub row_of : Codec → ℕ → Dict Row → Result SubmissionError Row
unfolding get
row_of codec client rows = elim (get client rows) [
  | none ↦ err submission_not_found
  | some r ↦
      if codec.digest r.payload == r.payload_hash then ok r else err submission_payload_corrupt
]

-- SELECT client FROM submission WHERE client=? OR economic_key=?
unfoldable pub find_taken : ℕ → ℕ → Dict Row → Option Row
find_taken client economic [] = none
find_taken client economic ((k, r) ∷ rows) =
    let rest = find_taken client economic rows in
    if k == client || r.economic_key == economic then some r else rest

abbrev pub is_unresolved : SubmissionState → Bool
is_unresolved submitting = true
is_unresolved unknown_broker_state = true
is_unresolved _ = false

-- Whether the account has a row that is not resolved.
unfoldable pub has_unresolved : ℕ → Dict Row → Bool
has_unresolved account [] = false
has_unresolved account ((k, r) ∷ rows) =
    (r.account == account && is_unresolved r.state) || has_unresolved account rows

-- `_audit_sequence`
unfoldable pub audit_sequence : ℕ → List Audit → ℕ
audit_sequence client [] = 0
audit_sequence client (a ∷ audits) =
    let rest = audit_sequence client audits in
    if a.client == client then max a.sequence rest else rest

abbrev pub later_marker : ℕ → Evidence → ℕ
later_marker cutoff (ambiguous_at t) = if ltb cutoff t then t else cutoff
later_marker cutoff _ = cutoff

-- The loop of `_recovery_cutoff`.
unfoldable pub cutoff_from : ℕ → ℕ → List Audit → ℕ
cutoff_from client cutoff [] = cutoff
cutoff_from client cutoff (a ∷ audits) =
    cutoff_from client (if a.client == client then later_marker cutoff a.evidence else cutoff)
      audits

-- `_recovery_cutoff`
unfoldable pub recovery_cutoff : ℕ → Row → List Audit → ℕ
unfolding cutoff_from
recovery_cutoff client r audits = cutoff_from client r.started audits
