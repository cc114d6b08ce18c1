-- ===== src/Events.antt =====
-- Event envelopes and their store, asset_management/replay/event_store.py, and the order of a replay,
-- asset_management/replay/ordering.py. Texts are numbers, 0 for a blank one; `name` stands for the
-- SHA-256 of an event's body.
pub mod Stored
mod Tests
use toss_trading_core.Prelude.{
  Bool, Datetime, List, Option, Result, [], aware, err, false, if◌then◌else◌, is_some, leb, ltb,
  naive, none, not, ok, require, some, true, ℕ, ◌&&◌, ◌==◌, ◌>>=◌, ◌>>◌, ◌||◌, ◌∷◌,
}
use toss_trading_core.Prelude.Dict.{Dict, get}
use toss_trading_core.Prelude.Int.{negsuc, pos, ℤ}

pub data EventError : Type 0 where
  identity_invalid time_invalid time_order_invalid payload_invalid sequence_conflict : EventError
  priority_invalid duplicate_sequence priority_missing order_ambiguous : EventError

-- `EventEnvelope` after its checks, with its normalized payload.
pub record EventEnvelope : Type 0 where
  pub event_type : ℕ
  pub source : ℕ
  pub sequence_number : ℕ
  pub event_time : ℕ
  pub received_at : ℕ
  pub available_at : ℕ
  pub payload : ℕ

abbrev pub largest_sequence : ℕ
largest_sequence = 9223372036854775807

abbrev pub sequence_of : ℤ → Result EventError ℕ
sequence_of (pos n) = if leb n largest_sequence then ok n else err identity_invalid
sequence_of (negsuc n) = err identity_invalid

-- `utc_stamp`
abbrev pub utc_stamp : Datetime → Result EventError ℕ
utc_stamp naive = err time_invalid
utc_stamp (aware t) = ok t

-- A payload is a JSON object that is not empty and repeats no key, or nothing.
abbrev pub payload_of : Option ℕ → Result EventError ℕ
payload_of none = err payload_invalid
payload_of (some p) = ok p

-- `EventEnvelope.__post_init__`
unfoldable pub make_envelope :
    ℕ → ℕ → ℤ → Datetime → Datetime → Datetime → Option ℕ → Result EventError EventEnvelope
make_envelope type source sequence event received available payload = do
  require (not (source == 0)) identity_invalid
  n ← sequence_of sequence
  e ← utc_stamp event
  r ← utc_stamp received
  a ← utc_stamp available
  require (leb e r && leb r a) time_order_invalid
  p ← payload_of payload
  ok (record {
    event_type = type;
    source = source;
    sequence_number = n;
    event_time = e;
    received_at = r;
    available_at = a;
    payload = p;
  })

-- A row of `replay_event`; the body is the text of the event.
pub record EventRow : Type 0 where
  pub event_id : ℕ
  pub body : EventEnvelope

abbrev pub same_key : ℕ → ℕ → EventEnvelope → Bool
same_key source sequence e = e.source == source && e.sequence_number == sequence

unfoldable pub find_sequence : ℕ → ℕ → List EventRow → Option EventRow
find_sequence source sequence [] = none
find_sequence source sequence (r ∷ rows) =
    let rest = find_sequence source sequence rows in
    if same_key source sequence r.body then some r else rest

-- Whether the primary key or the unique pair is taken.
unfoldable pub is_taken : ℕ → ℕ → ℕ → List EventRow → Bool
is_taken id source sequence [] = false
is_taken id source sequence (r ∷ rows) =
    (r.event_id == id || same_key source sequence r.body) || is_taken id source sequence rows

-- INSERT OR IGNORE
unfoldable pub insert_or_ignore : ℕ → EventEnvelope → List EventRow → List EventRow
unfolding is_taken
insert_or_ignore id e rows =
    if is_taken id e.source e.sequence_number rows
    then rows
    else record { event_id = id; body = e } ∷ rows

abbrev pub same_body : EventEnvelope → EventEnvelope → Bool
same_body a b =
    a.event_type == b.event_type
    && a.source == b.source
    && a.sequence_number == b.sequence_number
    && a.event_time == b.event_time
    && a.received_at == b.received_at
    && a.available_at == b.available_at
    && a.payload == b.payload

-- The row that is read back must be the event; else the insert is rolled back.
abbrev pub confirm :
    ℕ
    → EventEnvelope
    → Option EventRow
    → List EventRow
    → List EventRow
    → Result EventError ℕ × List EventRow
confirm id e none old new = (err sequence_conflict, old)
confirm id e (some r) old new =
    if r.event_id == id && same_body r.body e then (ok id, new) else (err sequence_conflict, old)

-- `EventStore.append`
unfoldable pub append_envelope :
    (EventEnvelope → ℕ) → EventEnvelope → List EventRow → Result EventError ℕ × List EventRow
unfolding insert_or_ignore find_sequence
append_envelope name e rows =
    let new = insert_or_ignore (name e) e rows in
    confirm (name e) e (find_sequence e.source e.sequence_number new) rows new

-- The key of a replay: availability, receipt, priority of the source, sequence.
abbrev pub key_of : Dict ℕ → EventEnvelope → List ℕ
key_of priorities e =
    e.available_at
    ∷ e.received_at
    ∷ (elim (get e.source priorities) [ none ↦ 0 | some p ↦ p ])
    ∷ e.sequence_number
    ∷ []

-- The order of two tuples.
unfoldable pub key_before : List ℕ → List ℕ → Bool
key_before [] ys = false
key_before (x ∷ xs) [] = false
key_before (x ∷ xs) (y ∷ ys) = let rest = key_before xs ys in ltb x y || (x == y && rest)

unfoldable pub insert_event : Dict ℕ → EventEnvelope → List EventEnvelope → List EventEnvelope
unfolding key_before
insert_event priorities e [] = e ∷ []
insert_event priorities e (f ∷ events) =
    let rest = insert_event priorities e events in
    if key_before (key_of priorities f) (key_of priorities e) then f ∷ rest else e ∷ f ∷ events

unfoldable pub sort_events : Dict ℕ → List EventEnvelope → List EventEnvelope
unfolding insert_event
sort_events priorities [] = []
sort_events priorities (e ∷ events) = insert_event priorities e (sort_events priorities events)

unfoldable pub any_event : (EventEnvelope → Bool) → List EventEnvelope → Bool
any_event test [] = false
any_event test (e ∷ events) = test e || any_event test events

-- Whether a test holds of two of the events.
unfoldable pub any_pair : (EventEnvelope → EventEnvelope → Bool) → List EventEnvelope → Bool
unfolding any_event
any_pair test [] = false
any_pair test (e ∷ events) = any_event (test e) events || any_pair test events

abbrev pub list_eq : List ℕ → List ℕ → Bool
list_eq [] [] = true
list_eq [] (y ∷ ys) = false
list_eq (x ∷ xs) [] = false
list_eq (x ∷ xs) (y ∷ ys) = x == y && list_eq xs ys

abbrev pub bad_priorities : Dict ℕ → Bool
bad_priorities [] = true
bad_priorities (p ∷ ps) = is_some (get 0 (p ∷ ps))

-- `order_events`
unfoldable pub order_events : Dict ℕ → List EventEnvelope → Result EventError (List EventEnvelope)
unfolding sort_events any_pair any_event get
order_events priorities events = do
  require (not (bad_priorities priorities)) priority_invalid
  require (not (any_pair (λ a b. same_key a.source a.sequence_number b) events)) duplicate_sequence
  require (not (any_event (λ e. not (is_some (get e.source priorities))) events)) priority_missing
  require (not (any_pair (λ a b. list_eq (key_of priorities a) (key_of priorities b)) events))
      order_ambiguous
  ok (sort_events priorities events)
