-- ===== src/Submission/Recover.antt =====
-- `recover` of asset_management/execution/submission.py, in the two parts between which other calls
-- may come.
use toss_trading_core.Prelude.{
  Bool, Option, Result, err, false, if◌then◌else◌, none, not, ok, some, true, ℕ, ◌==◌, ◌||◌,
}
use toss_trading_core.Submission.{
  Codec, Journal, Reason, Row, SubmissionError, SubmissionReceipt, SubmissionState,
  already_reconciled, audit_sequence, broker_lookup_unavailable_or_unproven, is_unresolved,
  record_state, recovered, recovery_cutoff, recovery_state_changed_requery, row_of,
  unknown_broker_state,
}
use toss_trading_core.Submission.Recovery.{
  Authority, Found, Pending, Query, authority_verified, query_of, same_state,
}

unfoldable pub recovered_state : Bool → Option SubmissionState → SubmissionState
recovered_state true (some s) = s
recovered_state true none = unknown_broker_state
recovered_state false s = unknown_broker_state

-- The state and the reason that `recover` will record.
unfoldable pub outcome :
    Codec
    → Option (Found → Option Authority)
    → ℕ
    → Pending
    → Option Found
    → SubmissionState × Reason
unfolding authority_verified recovered_state
outcome codec authority client p none =
    (unknown_broker_state, broker_lookup_unavailable_or_unproven)
outcome codec authority client p (some f) =
    let (verified, reason) =
      authority_verified authority (query_of codec client p.row) f
        (codec.decode p.row.payload).order_intent_id p.cutoff in
    (recovered_state verified f.status, reason)

abbrev pub is_changed : Row → Row → ℕ → ℕ → Bool
is_changed now before generation generation' =
    not (same_state now.state before.state) || not (generation == generation')

-- The last transaction of `recover`, on the tables as they are by then.
abbrev pub settle_row :
    ℕ
    → Pending
    → SubmissionState × Reason
    → Result SubmissionError Row
    → Journal
    → Result SubmissionError SubmissionReceipt × Journal
settle_row client p (s, reason) (err e) j = (err e, j)
settle_row client p (s, reason) (ok now) j =
    if is_changed now p.row (audit_sequence client j.audits) p.generation
    then (
      ok (record {
        client_order_id = client;
        state = now.state;
        reason = recovery_state_changed_requery;
      }),
      j,
    )
    else let (receipt, j') = record_state client s reason (recovered p.cutoff) j in (ok receipt, j')

unfoldable pub settle :
    Codec
    → ℕ
    → Pending
    → SubmissionState × Reason
    → Journal
    → Result SubmissionError SubmissionReceipt × Journal
unfolding row_of record_state audit_sequence
settle codec client p o j = settle_row client p o (row_of codec client j.rows) j

-- What the first part of `recover` finds: an error, a receipt, or a row to look up.
pub data Opening : Type 0 where
  rejected_call : SubmissionError → Opening
  done_already : SubmissionReceipt → Opening
  pending : Pending → Opening

abbrev pub begin_row : ℕ → Journal → Result SubmissionError Row → Opening
begin_row client j (err e) = rejected_call e
begin_row client j (ok r) =
    if is_unresolved r.state
    then pending (record {
      row = r;
      generation = audit_sequence client j.audits;
      cutoff = recovery_cutoff client r j.audits;
    })
    else done_already
        (record { client_order_id = client; state = r.state; reason = already_reconciled })

unfoldable pub begin_recovery : Codec → ℕ → Journal → Opening
unfolding row_of audit_sequence recovery_cutoff
begin_recovery codec client j = begin_row client j (row_of codec client j.rows)

abbrev pub finish_recovery :
    Codec
    → Option (Found → Option Authority)
    → (Query → Option Found)
    → ℕ
    → Opening
    → Journal
    → Result SubmissionError SubmissionReceipt × Journal
finish_recovery codec authority lookup client (rejected_call e) j = (err e, j)
finish_recovery codec authority lookup client (done_already r) j = (ok r, j)
finish_recovery codec authority lookup client (pending p) j =
    settle codec client p (outcome codec authority client p (lookup (query_of codec client p.row)))
      j

-- `recover`; `between` is what other calls make of the tables during the lookup.
unfoldable pub recover :
    Codec
    → Option (Found → Option Authority)
    → (Query → Option Found)
    → ℕ
    → (Journal → Journal)
    → Journal
    → Result SubmissionError SubmissionReceipt × Journal
unfolding begin_recovery outcome settle
recover codec authority lookup client between j =
    finish_recovery codec authority lookup client (begin_recovery codec client j) (between j)
