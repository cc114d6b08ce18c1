-- ===== src/Events/Tests.antt =====
-- Runs of the event store, and the theorem at an input that meets its hypotheses.
use toss_trading_core.Prelude.{[], aware, err, ok, refl, some, ℕ, ◌*◌, ◌+◌, ◌∷◌, ◌≡◌}
use toss_trading_core.Events.{
  EventEnvelope, EventRow, any_event, any_pair, append_envelope, find_sequence, insert_event,
  insert_or_ignore, is_taken, key_before, make_envelope, order_events, sequence_conflict,
  sort_events,
}
use toss_trading_core.Events.Stored.{append_envelope-kept}
use toss_trading_core.Prelude.Dict.{get}
use toss_trading_core.Prelude.Int.{pos}

abbrev event : ℕ → ℕ → ℕ → ℕ → EventEnvelope
event source sequence at payload = record {
  event_type = 1;
  source = source;
  sequence_number = sequence;
  event_time = at;
  received_at = at;
  available_at = at;
  payload = payload;
}

abbrev small_name : EventEnvelope → ℕ
small_name e = e.source * 10000 + e.sequence_number * 100 + e.payload

abbrev stored_row : EventRow
stored_row = record { event_id = 20307; body = event 2 3 50 7 }

accepted : make_envelope 1 2 (pos 3) (aware 50) (aware 50) (aware 50) (some 7) ≡ ok (event 2 3 50 7)
unfolding make_envelope
accepted = refl

stored_first : append_envelope small_name (event 2 3 50 7) [] ≡ (ok 20307, stored_row ∷ [])
unfolding append_envelope insert_or_ignore is_taken find_sequence
stored_first = refl

-- Another payload under the same sequence number is refused.
conflicting :
    append_envelope small_name (event 2 3 50 8) (stored_row ∷ [])
    ≡ (err sequence_conflict, stored_row ∷ [])
unfolding append_envelope insert_or_ignore is_taken find_sequence
conflicting = refl

-- At the same time the source of the lower number comes first.
replayed :
    order_events ((2, 1) ∷ (5, 0) ∷ []) (event 2 3 50 7 ∷ event 5 1 50 8 ∷ event 2 2 40 9 ∷ [])
    ≡ ok (event 2 2 40 9 ∷ event 5 1 50 8 ∷ event 2 3 50 7 ∷ [])
unfolding order_events sort_events insert_event key_before any_pair any_event get
replayed = refl

append_envelope-kept_example :
    find_sequence 2 3 (append_envelope small_name (event 2 3 50 8) (stored_row ∷ [])).1
    ≡ some stored_row
append_envelope-kept_example =
    append_envelope-kept small_name (event 2 3 50 8) (stored_row ∷ []) 2 3 stored_row
      (unfold find_sequence in refl)
