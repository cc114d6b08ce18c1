-- ===== src/Submission/Tests.antt =====
-- Runs of the submission journal, and each theorem at an input that meets its hypotheses. The texts
-- here are small sums.
use toss_trading_core.Prelude.{
  Option, [], aware, false, none, ok, refl, some, true, ℕ, ◌%◌, ◌*◌, ◌+◌, ◌∷◌, ◌≡◌,
}
use toss_trading_core.Prelude.Dict.{get, put}
use toss_trading_core.Submission.{
  Codec, Intent, Journal, Row, acknowledged, already_recorded_no_resend, audit_sequence,
  broker_state_reconciled, claimed_at, cutoff_from, durable_before_submit, find_taken,
  has_unresolved, last_sequence, reconciliation_required, record_state, recovery_cutoff,
  recovery_state_changed_requery, response, row_of, set_state, submitting, unknown_broker_state,
}
use toss_trading_core.Submission.Calls.{
  boot_recovery, cancel, claim, claim_checked, claim_new, failed, insert_row, mark_ambiguous,
  record_reply, replied, send, submit_once,
}
use toss_trading_core.Submission.Once.{
  AllOnce, marking, run_steps, run_steps-AllOnce, settling, submission,
}
use toss_trading_core.Submission.Proven.{submit_once-unresolved}
use toss_trading_core.Submission.Recover.{begin_recovery, outcome, recover, recovered_state, settle}
use toss_trading_core.Submission.Recovery.{
  Authority, Found, Pending, authority_verified, consistent, consistent_rows,
}

abbrev order : ℕ → Intent
order client = record {
  client_order_id = client;
  order_intent_id = 21;
  run_id = client;
  portfolio_target_id = 4;
  instrument_id = 5;
  side = 1;
  quantity = 10;
}

abbrev codec : Codec
codec = record {
  encode = λ account i. account * 1000 + i.client_order_id;
  economic = λ account run target instrument side. run * 100 + instrument;
  digest = λ text. text + 1;
  decode = λ text. order (text % 1000);
}

abbrev nothing : Journal
nothing = record { rows = []; audits = [] }

abbrev sent_row : Row
sent_row = record {
  client = 7;
  economic_key = 705;
  account = 3;
  payload = 3007;
  payload_hash = 3008;
  started = 100;
  expires = 200;
  state = unknown_broker_state;
}

abbrev sent_journal : Journal
sent_journal = record {
  rows = (7, sent_row) ∷ [];
  audits =
      record {
        sequence = 2;
        client = 7;
        state = unknown_broker_state;
        reason = reconciliation_required;
        evidence = response (some 9);
      }
      ∷ record {
        sequence = 1;
        client = 7;
        state = submitting;
        reason = durable_before_submit;
        evidence = claimed_at 100;
      }
      ∷ [];
}

first_send : submit_once codec 3 (order 7) (aware 100) (aware 200) (some (replied 9)) nothing ≡ (
  some (
      ok (record {
        client_order_id = 7;
        state = unknown_broker_state;
        reason = reconciliation_required;
      })),
  sent_journal,
  some (record sent_row { state = submitting }),
)
unfolding submit_once claim_checked claim claim_new insert_row send record_reply record_state
    set_state last_sequence find_taken row_of has_unresolved get put
first_send = refl

-- A retry returns the state and sends nothing.
retry : submit_once codec 3 (order 7) (aware 150) (aware 200) (some (replied 9)) sent_journal ≡ (
  some (
      ok (record {
        client_order_id = 7;
        state = unknown_broker_state;
        reason = already_recorded_no_resend;
      })),
  sent_journal,
  none,
)
unfolding submit_once claim_checked claim claim_new insert_row send record_reply record_state
    set_state last_sequence find_taken row_of has_unresolved get put
retry = refl

abbrev waiting : Pending
waiting = record { row = sent_row; generation = 2; cutoff = 100 }

abbrev candidate : Found
candidate = record {
  broker_order_id = 70;
  snapshot_id = 71;
  reconciliation_id = 72;
  source_response_id = 73;
  echo = record {
    client_order_id = 7;
    account = 3;
    instrument_id = 5;
    quantity = 10;
    side = 1;
    started_at = 100;
    expires_at = 200;
  };
  status = some acknowledged;
}

abbrev ledger_rows : Authority
ledger_rows = record {
  client_row = some 21;
  link_row = some 70;
  broker_row = some 3;
  state_row = some (record { state = acknowledged; source_response_id = 73; observed_at = 130 });
  recon_row =
      some
        (record { account_snapshot_id = 71; account_id = 3; matches = true; completed_at = 140 });
  newest_recon = some 72;
  snapshot_row = some (record { account_id = 3; observed_at = 131 });
  raw_link = true;
  bad_item = false;
  open_issue = false;
  raw = record { requested_at = 110; received_at = 120; account_id = some 3 };
  posted = none;
}

abbrev ledger : Option (Found → Option Authority)
ledger = some (λ f. some ledger_rows)

recovers :
    (recover codec ledger (λ q. some candidate) 7 (λ j. j) sent_journal).0
    ≡ ok (record { client_order_id = 7; state = acknowledged; reason = broker_state_reconciled })
unfolding recover begin_recovery outcome authority_verified consistent consistent_rows
    recovered_state settle row_of audit_sequence recovery_cutoff cutoff_from record_state set_state
    last_sequence get put
recovers = refl

-- A cancellation that comes between lookup and record makes the recovery start again.
interrupted :
    (recover codec ledger
      (λ q. some candidate)
      7
      (λ j. (mark_ambiguous codec 7 cancel (aware 150) j).1)
      sent_journal).0
    ≡ ok (record {
      client_order_id = 7;
      state = unknown_broker_state;
      reason = recovery_state_changed_requery;
    })
unfolding recover begin_recovery outcome authority_verified consistent consistent_rows
    recovered_state settle row_of audit_sequence recovery_cutoff cutoff_from record_state set_state
    last_sequence get put mark_ambiguous
interrupted = refl

run_steps-AllOnce_example :
    AllOnce
      (run_steps codec
        (submission 3 (order 7) (aware 100) (aware 200) none
          ∷ marking 7 boot_recovery (aware 150)
          ∷ settling 7 waiting (acknowledged, broker_state_reconciled)
          ∷ submission 3 (order 8) (aware 160) (aware 200) (some failed)
          ∷ [])
        nothing).1
run_steps-AllOnce_example =
    run_steps-AllOnce codec
      (submission 3 (order 7) (aware 100) (aware 200) none
        ∷ marking 7 boot_recovery (aware 150)
        ∷ settling 7 waiting (acknowledged, broker_state_reconciled)
        ∷ submission 3 (order 8) (aware 160) (aware 200) (some failed)
        ∷ [])
      nothing

submit_once-unresolved_example :
    ((submit_once codec 3 (order 8) (aware 160) (aware 200) none sent_journal).1 ≡ sent_journal)
    × ((submit_once codec 3 (order 8) (aware 160) (aware 200) none sent_journal).2 ≡ none)
submit_once-unresolved_example =
    submit_once-unresolved codec 3 (order 8) (aware 160) (aware 200) none sent_journal
      (unfold has_unresolved in refl)
