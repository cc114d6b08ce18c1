-- ===== src/Orders/Tests.antt =====
-- Runs of the order repository on small tables, and each theorem at an input that meets its
-- hypotheses.
use toss_trading_core.Prelude.{
  List, Option, [], arith, aware, err, false, none, ok, refl, some, ℕ, ◌∷◌, ◌≡◌,
}
use toss_trading_core.Orders.{
  OrderState, assert_order_transition, canceled, filled, live, other_word, submitting,
  unknown_broker_state,
}
use toss_trading_core.Orders.Final.{Continues, append_all, append_all-Continues}
use toss_trading_core.Orders.Journal.{IsJournal, append-IsJournal}
use toss_trading_core.Orders.Replay.{
  AdmitsUnknown, KeepsUnknown, append_again, append_broker_state-unknown,
  require_terminal-append_all,
}
use toss_trading_core.Orders.Repository.{
  Observation, OrderStateEvent, Table, append, append_broker_state, check_new, find_source, latest,
  max_sequence, require_terminal,
}

abbrev seen : OrderState → ℕ → ℕ → Observation
seen s at source = record {
  broker_order_id = 7;
  state = s;
  observed_at_utc = aware at;
  source_response_id = some source;
  reason = none;
  external_initial = false;
}

abbrev calls : List (Observation × ℕ)
calls =
    (seen submitting 10 100, 1)
    ∷ (seen live 20 101, 2)
    ∷ (seen submitting 30 102, 3)
    ∷ (seen filled 40 103, 4)
    ∷ (seen canceled 50 104, 5)
    ∷ []

abbrev row : ℕ → ℕ → Option OrderState → OrderState → ℕ → ℕ → OrderStateEvent
row id n previous s at source = record {
  order_state_event_id = id;
  broker_order_id = 7;
  sequence_no = n;
  previous_state = previous;
  state = s;
  observed_at_utc = at;
  source_response_id = some source;
  reason = none;
}

abbrev sent : Table
sent = row 1 1 none submitting 10 100 ∷ []

abbrev done : Table
done =
    row 4 3 (some live) filled 40 103
    ∷ row 2 2 (some submitting) live 20 101
    ∷ row 1 1 none submitting 10 100
    ∷ []

-- The third and the fifth call are refused.
run-calls : append_all calls [] ≡ done
unfolding append_all append latest max_sequence find_source check_new
run-calls = refl

sent-IsJournal : IsJournal sent
unfolding latest
sent-IsJournal = ((refl, refl), tt)

append-IsJournal_example : IsJournal (append (seen live 20 101) 2 sent).1
append-IsJournal_example = append-IsJournal (seen live 20 101) 2 sent sent-IsJournal

append_all-Continues_example : Continues (latest 7 sent) (latest 7 (append_all calls sent))
append_all-Continues_example = append_all-Continues 7 calls sent sent-IsJournal

append_again_example :
    append (seen live 20 101) 9 (append (seen live 20 101) 2 sent).1
    ≡ (ok (row 2 2 (some submitting) live 20 101), (append (seen live 20 101) 2 sent).1)
unfolding append latest max_sequence find_source check_new
append_again_example = append_again (seen live 20 101) 101 2 9 sent refl refl

new_evidence : find_source 7 (some 101) sent ≡ none
unfolding find_source
new_evidence = refl

sent-AdmitsUnknown : AdmitsUnknown 20 (latest 7 sent)
unfolding latest
sent-AdmitsUnknown = (omega arith, refl)

append_broker_state-unknown_example :
    ((append_broker_state 7 (other_word 5) (aware 20) 101 2 sent).0 ≡ err unknown_broker_state)
    × KeepsUnknown 7 20 101 sent (append_broker_state 7 (other_word 5) (aware 20) 101 2 sent).1
append_broker_state-unknown_example =
    append_broker_state-unknown 7 5 20 101 2 sent new_evidence sent-AdmitsUnknown

done-IsJournal : IsJournal done
unfolding latest assert_order_transition
done-IsJournal =
    ((refl, refl, omega arith, refl), ((refl, refl, omega arith, refl), ((refl, refl), tt)))

require_terminal-append_all_example :
    (e' : OrderStateEvent) × (require_terminal 7 (append_all calls done) ≡ ok e')
    × (e'.state ≡ filled)
unfolding require_terminal latest
require_terminal-append_all_example = require_terminal-append_all 7 calls done done-IsJournal refl
