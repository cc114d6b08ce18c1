-- ===== src/Submission/Calls.antt =====
-- `submit_once` and `mark_ambiguous` of asset_management/execution/submission.py.
use toss_trading_core.Prelude.{
  Datetime, Option, Result, aware, err, if◌then◌else◌, leb, ltb, naive, none, not, ok, some, ℕ,
  ◌==◌, ◌||◌,
}
use toss_trading_core.Prelude.Dict.{put}
use toss_trading_core.Submission.{
  Codec, Evidence, Intent, Journal, Reason, Row, SubmissionError, SubmissionReceipt,
  account_submission_unresolved, already_recorded_no_resend, ambiguous_at,
  boot_recovery_reconciliation_required, cancel_reconciliation_required, claimed_at,
  durable_before_submit, economic_order_conflict, find_taken, has_unresolved, naive_time,
  reconciliation_required, record_state, recovery_cutoff, recovery_operation_time_invalid,
  replace_reconciliation_required, response, row_of, submission_input_invalid, submitting,
  unknown_broker_state,
}

-- What the transport answers: it fails, or a response with this hash.
pub data Reply : Type 0 where
  failed : Reply
  replied : ℕ → Reply

-- The first transaction of `submit_once`: an error, a receipt of what is stored already, or a row
-- that may be sent now.
pub data Claim : Type 0 where
  refused : SubmissionError → Claim
  recorded : SubmissionReceipt → Claim
  claimed : Row → Claim

abbrev pub economic_of : Codec → ℕ → Intent → ℕ
economic_of codec account i =
    codec.economic account i.run_id i.portfolio_target_id i.instrument_id i.side

abbrev pub new_row : Codec → ℕ → Intent → ℕ → ℕ → Row
new_row codec account i at expires = record {
  client = i.client_order_id;
  economic_key = economic_of codec account i;
  account = account;
  payload = codec.encode account i;
  payload_hash = codec.digest (codec.encode account i);
  started = at;
  expires = expires;
  state = submitting;
}

-- A row with the same client or the same economic key answers only for the same order.
abbrev pub repeat : Codec → ℕ → Intent → Result SubmissionError Row → Claim
repeat codec account i (err e) = refused e
repeat codec account i (ok r) =
    if not (r.client == i.client_order_id) || not (r.payload == codec.encode account i)
    then refused economic_order_conflict
    else recorded (record {
      client_order_id = i.client_order_id;
      state = r.state;
      reason = already_recorded_no_resend;
    })

unfoldable pub insert_row : Row → ℕ → Journal → Journal
unfolding record_state put
insert_row r at j =
    (record_state r.client submitting durable_before_submit (claimed_at at)
      (record j { rows = put r.client r j.rows })).1

-- The transaction; an error leaves the tables as they were.
unfoldable pub claim_new : Row → ℕ → Journal → Claim × Journal
unfolding has_unresolved insert_row
claim_new r at j =
    if has_unresolved r.account j.rows
    then (refused account_submission_unresolved, j)
    else (claimed r, insert_row r at j)

unfoldable pub claim : Codec → ℕ → Intent → ℕ → ℕ → Journal → Claim × Journal
unfolding find_taken row_of claim_new
claim codec account i at expires j =
    elim (find_taken i.client_order_id (economic_of codec account i) j.rows) [
      | some r ↦ (repeat codec account i (row_of codec r.client j.rows), j)
      | none ↦ claim_new (new_row codec account i at expires) at j
    ]

-- The checks of the arguments come first.
unfoldable pub claim_checked : Codec → ℕ → Intent → Datetime → Datetime → Journal → Claim × Journal
unfolding claim
claim_checked codec account i naive expires j = (refused naive_time, j)
claim_checked codec account i (aware at) naive j = (refused naive_time, j)
claim_checked codec account i (aware at) (aware expires) j =
    if account == 0 || leb expires at
    then (refused submission_input_invalid, j)
    else claim codec account i at expires j

abbrev pub evidence_of : Reply → Evidence
evidence_of failed = response none
evidence_of (replied h) = response (some h)

-- What follows the call of the transport.
unfoldable pub record_reply : ℕ → Reply → Journal → SubmissionReceipt × Journal
unfolding record_state
record_reply client reply j =
    record_state client unknown_broker_state reconciliation_required (evidence_of reply) j

-- After the claim: a claimed row is sent. No reply at all is a process that stops in the call.
unfoldable pub send :
    Claim
    → Option Reply
    → Journal
    → Option (Result SubmissionError SubmissionReceipt) × Journal × Option Row
unfolding record_reply
send (refused e) reply j = (some (err e), j, none)
send (recorded r) reply j = (some (ok r), j, none)
send (claimed r) none j = (none, j, some r)
send (claimed r) (some reply) j =
    let (receipt, j') = record_reply r.client reply j in (some (ok receipt), j', some r)

-- `submit_once`: its outcome, the tables, and the row whose payload went to the transport.
unfoldable pub submit_once :
    Codec
    → ℕ
    → Intent
    → Datetime
    → Datetime
    → Option Reply
    → Journal
    → Option (Result SubmissionError SubmissionReceipt) × Journal × Option Row
unfolding claim_checked send
submit_once codec account i at expires reply j =
    let (c, j') = claim_checked codec account i at expires j in send c reply j'

-- The operations that `mark_ambiguous` accepts.
pub data Operation : Type 0 where
  cancel replace boot_recovery : Operation

abbrev pub reason_of : Operation → Reason
reason_of cancel = cancel_reconciliation_required
reason_of replace = replace_reconciliation_required
reason_of boot_recovery = boot_recovery_reconciliation_required

abbrev pub mark_row :
    ℕ
    → Operation
    → ℕ
    → Result SubmissionError Row
    → Journal
    → Result SubmissionError SubmissionReceipt × Journal
mark_row client operation at (err e) j = (err e, j)
mark_row client operation at (ok r) j =
    if ltb at (recovery_cutoff client r j.audits)
    then (err recovery_operation_time_invalid, j)
    else let (receipt, j') =
        record_state client unknown_broker_state (reason_of operation) (ambiguous_at at) j in
      (ok receipt, j')

-- `mark_ambiguous`
unfoldable pub mark_ambiguous :
    Codec → ℕ → Operation → Datetime → Journal → Result SubmissionError SubmissionReceipt × Journal
unfolding row_of recovery_cutoff record_state
mark_ambiguous codec client operation naive j = (err naive_time, j)
mark_ambiguous codec client operation (aware at) j =
    mark_row client operation at (row_of codec client j.rows) j
