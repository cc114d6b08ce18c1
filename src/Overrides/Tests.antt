-- ===== src/Overrides/Tests.antt =====
-- Runs of the override journal, and the theorems at inputs that meet their hypotheses. The name of a
-- body here is a small sum.
use toss_trading_core.Prelude.{
  Datetime, List, Option, [], aware, err, if◌then◌else◌, naive, none, ok, refl, some, true, ℕ, ◌*◌,
  ◌++◌, ◌+◌, ◌==◌, ◌∷◌, ◌≡◌,
}
use toss_trading_core.Overrides.{
  Body, DecisionAction, ManualOverride, ManualOverrideAction, Request, action_code, active_at,
  allow, block_manually, make_override, override_code, record_invalid,
}
use toss_trading_core.Overrides.Journal.{
  Json, ManualInterventionState, RawRecord, Text, active_events, append_event, event_of, find_event,
  is_boundary, load, load_lines, manual_override_word, original, overridden, override_payload,
  parse_line, resolve, same_event, split_lines,
}
use toss_trading_core.Overrides.Lines.{ends_line, is_one_line}
use toss_trading_core.Overrides.Resolved.{Resolved, resolve-Resolved}
use toss_trading_core.Overrides.Roundtrip.{IsComplete, append_event-load, append_event-unreadable}

abbrev small_name : Body → ℕ
small_name b = b.decision_id * 100 + b.reason + b.created_at

-- A small language for the records that `payload` makes, with the numbers of its fields as its
-- characters.
abbrev time_code : Option Datetime → ℕ
time_code none = 0
time_code (some naive) = 0
time_code (some (aware t)) = t

abbrev small_dumps : RawRecord → Text
small_dumps r =
    123
    ∷ r.decision_id
    ∷ (elim r.original_action [ none ↦ 9 | some a ↦ action_code a ])
    ∷ (elim r.override_action [ none ↦ 9 | some a ↦ override_code a ])
    ∷ r.reason
    ∷ r.requested_by
    ∷ r.approved_by
    ∷ time_code r.created_at
    ∷ time_code r.expires_at
    ∷ (elim r.override_id [ none ↦ 0 | some i ↦ i ])
    ∷ 125
    ∷ []

abbrev word_action : ℕ → Option DecisionAction
word_action n = if n == 0 then some allow else none

abbrev word_override : ℕ → Option ManualOverrideAction
word_override n = if n == 2 then some block_manually else none

abbrev small_loads : Text → Option RawRecord
small_loads (o ∷ d ∷ a ∷ b ∷ r ∷ q ∷ p ∷ c ∷ x ∷ i ∷ z ∷ []) = some (record {
  has_expected_keys = true;
  event_type = manual_override_word;
  event_version = 1;
  decision_id = d;
  original_action = word_action a;
  override_action = word_override b;
  reason = r;
  requested_by = q;
  approved_by = p;
  created_at = some (aware c);
  expires_at = some (aware x);
  override_id = some i;
})
small_loads _ = none

abbrev small_json : Json
small_json = record { dumps = small_dumps; loads = small_loads }

abbrev request : Request
request = record {
  decision_id = 3;
  original_action = allow;
  override_action = block_manually;
  reason = 8;
  requested_by = 5;
  approved_by = 6;
  created_at = aware 1000;
  expires_at = none;
  override_id = none;
}

abbrev event : ManualOverride
event = record {
  body = record {
    decision_id = 3;
    original_action = allow;
    override_action = block_manually;
    reason = 8;
    requested_by = 5;
    approved_by = 6;
    created_at = 1000;
    expires_at = 86400001000;
  };
  override_id = 1308;
}

made : make_override small_name request ≡ ok event
unfolding make_override
made = refl

blocked :
    resolve small_json small_name 3 allow
      (aware 2000)
      (append_event small_json small_name event none).1
    ≡ ok (record {
      decision_id = 3;
      original_action = allow;
      effective_action = overridden block_manually;
      override_id = some 1308;
      reason = some 8;
      evaluated_at = 2000;
    })
unfolding resolve append_event load load_lines parse_line make_override event_of override_payload
    find_event split_lines is_boundary active_events active_at
blocked = refl

-- After a day the decision's own action is back.
expired :
    resolve small_json small_name 3 allow
      (aware 86400001000)
      (append_event small_json small_name event none).1
    ≡ ok (record {
      decision_id = 3;
      original_action = allow;
      effective_action = original allow;
      override_id = none;
      reason = none;
      evaluated_at = 86400001000;
    })
unfolding resolve append_event load load_lines parse_line make_override event_of override_payload
    find_event split_lines is_boundary active_events active_at
expired = refl

repeated :
    append_event small_json small_name event (append_event small_json small_name event none).1
    ≡ (ok tt, (append_event small_json small_name event none).1)
unfolding append_event load load_lines parse_line make_override event_of override_payload find_event
    same_event split_lines is_boundary
repeated = refl

event-read_back : small_loads (small_dumps (override_payload event)) ≡ some (override_payload event)
unfolding override_payload
event-read_back = refl

event-one_line : is_one_line (small_dumps (override_payload event)) ≡ true
unfolding override_payload is_one_line is_boundary
event-one_line = refl

append_event-load_example :
    ((append_event small_json small_name event none).0 ≡ ok tt)
    × (load small_json small_name (append_event small_json small_name event none).1
        ≡ ok (event ∷ []))
    × IsComplete (append_event small_json small_name event none).1
append_event-load_example =
    append_event-load small_json small_name request event none [] made event-read_back
      event-one_line (unfold ends_line in refl) (unfold load in refl) (unfold find_event in refl)

-- A reason of the one character U+2028.
abbrev separated : ManualOverride
separated = record { body = record event.body { reason = 8232 }; override_id = 9532 }

separated-made : make_override small_name (record request { reason = 8232 }) ≡ ok separated
unfolding make_override
separated-made = refl

separated-text :
    small_dumps (override_payload separated)
    ≡ (123 ∷ 3 ∷ 0 ∷ 2 ∷ []) ++ 8232 ∷ 5 ∷ 6 ∷ 1000 ∷ 86400001000 ∷ 9532 ∷ 125 ∷ []
unfolding override_payload
separated-text = refl

start-one_line : is_one_line (123 ∷ 3 ∷ 0 ∷ 2 ∷ []) ≡ true
unfolding is_one_line is_boundary
start-one_line = refl

append_event-unreadable_example :
    ((append_event small_json small_name separated none).0 ≡ ok tt)
    × (load small_json small_name (append_event small_json small_name separated none).1
        ≡ err record_invalid)
append_event-unreadable_example =
    append_event-unreadable small_json small_name separated none [] (123 ∷ 3 ∷ 0 ∷ 2 ∷ []) 8232
      (5 ∷ 6 ∷ 1000 ∷ 86400001000 ∷ 9532 ∷ 125 ∷ []) separated-text start-one_line
      (unfold is_boundary in refl) refl refl (unfold ends_line in refl) (unfold load in refl)
      (unfold find_event in refl)

abbrev blocked_state : ManualInterventionState
blocked_state = record {
  decision_id = 3;
  original_action = allow;
  effective_action = overridden block_manually;
  override_id = some 1308;
  reason = some 8;
  evaluated_at = 2000;
}

resolve-Resolved_example :
    (events : List ManualOverride) × (load small_json small_name
        (append_event small_json small_name event none).1
      ≡ ok events)
    × Resolved 3 allow 2000 events blocked_state
resolve-Resolved_example =
    resolve-Resolved small_json small_name 3 allow 2000
      (append_event small_json small_name event none).1 blocked_state blocked
