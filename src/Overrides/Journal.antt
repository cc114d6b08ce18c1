-- ===== src/Overrides/Journal.antt =====
-- `ManualOverrideJournal` of asset_management/decisions/overrides.py. The file is a text; `Json` stands
-- for the printing and the reading of one JSON value.
use toss_trading_core.Prelude.{
  Bool, Datetime, List, Option, Result, [], aware, err, false, if◌then◌else◌, leb, none, not, ok,
  require, some, true, ℕ, ◌&&◌, ◌++◌, ◌==◌, ◌>>=◌, ◌>>◌, ◌||◌, ◌∷◌,
}
use toss_trading_core.Overrides.{
  Body, DecisionAction, ManualOverride, ManualOverrideAction, OverrideError, action_code, active_at,
  decision_invalid, duplicate_event, id_conflict, make_override, original_action_mismatch,
  override_code, override_conflict, record_invalid, utc,
}

-- A text is its list of code points.
abbrev pub Text : Type 0
Text = List ℕ

-- The value of a line of JSON: whether it is an object with just the expected keys, and what these
-- hold. A word that is no action, and a text that is no time, are none.
pub record RawRecord : Type 0 where
  pub has_expected_keys : Bool
  pub event_type : ℕ
  pub event_version : ℕ
  pub decision_id : ℕ
  pub original_action : Option DecisionAction
  pub override_action : Option ManualOverrideAction
  pub reason : ℕ
  pub requested_by : ℕ
  pub approved_by : ℕ
  pub created_at : Option Datetime
  pub expires_at : Option Datetime
  pub override_id : Option ℕ

-- `json.dumps` with the arguments of `append`, and `json.loads`; none where it raises.
pub record Json : Type 0 where
  pub dumps : RawRecord → Text
  pub loads : Text → Option RawRecord

-- The number of the word MANUAL_OVERRIDE.
abbrev pub manual_override_word : ℕ
manual_override_word = 1

-- `payload`, with times in UTC.
unfoldable pub override_payload : ManualOverride → RawRecord
override_payload e = record {
  has_expected_keys = true;
  event_type = manual_override_word;
  event_version = 1;
  decision_id = e.body.decision_id;
  original_action = some e.body.original_action;
  override_action = some e.body.override_action;
  reason = e.body.reason;
  requested_by = e.body.requested_by;
  approved_by = e.body.approved_by;
  created_at = some (aware e.body.created_at);
  expires_at = some (aware e.body.expires_at);
  override_id = some e.override_id;
}

-- Any error of a record is the same one.
abbrev pub as_record : Result OverrideError ManualOverride → Result OverrideError ManualOverride
as_record (err e) = err record_invalid
as_record (ok e) = ok e

abbrev pub field_of : {A : Type 0} → Option A → Result OverrideError A
field_of none = err record_invalid
field_of (some a) = ok a

-- The event of a record.
unfoldable pub event_of : (Body → ℕ) → RawRecord → Result OverrideError ManualOverride
unfolding make_override
event_of name r = do
  require (r.has_expected_keys && r.event_type == manual_override_word && r.event_version == 1)
      record_invalid
  original ← field_of r.original_action
  override ← field_of r.override_action
  created ← field_of r.created_at
  expires ← field_of r.expires_at
  as_record (
      make_override name (record {
        decision_id = r.decision_id;
        original_action = original;
        override_action = override;
        reason = r.reason;
        requested_by = r.requested_by;
        approved_by = r.approved_by;
        created_at = created;
        expires_at = some expires;
        override_id = r.override_id;
      }))

-- `_parse`
unfoldable pub parse_line : Json → (Body → ℕ) → Text → Result OverrideError ManualOverride
unfolding event_of
parse_line json name line = elim (json.loads line) [
  | none ↦ err record_invalid
  | some r ↦ event_of name r
]

-- The characters at which `str.splitlines` cuts; the file is read with any newline as one of them.
unfoldable pub is_boundary : ℕ → Bool
is_boundary c =
    (leb 10 c && leb c 13) || (leb 28 c && leb c 30) || c == 133 || c == 8232 || c == 8233

abbrev pub starts_newline : Text → Bool
starts_newline [] = false
starts_newline (c ∷ t) = c == 10

abbrev pub extend_first : ℕ → List Text → List Text
extend_first c [] = (c ∷ []) ∷ []
extend_first c (l ∷ lines) = (c ∷ l) ∷ lines

-- `str.splitlines`; a carriage return with a newline after it is one cut.
unfoldable pub split_lines : Text → List Text
unfolding is_boundary
split_lines [] = []
split_lines (c ∷ t) =
    let lines = split_lines t in
    if is_boundary c
    then (if c == 13 && starts_newline t then lines else [] ∷ lines)
    else extend_first c lines

abbrev pub member : ℕ → List ℕ → Bool
member a [] = false
member a (x ∷ xs) = x == a || member a xs

abbrev pub fresh_event : List ℕ → ManualOverride → Result OverrideError ManualOverride
fresh_event seen e = if member e.override_id seen then err duplicate_event else ok e

-- The loop of `load`, with the ids that were seen.
unfoldable pub load_lines :
    Json → (Body → ℕ) → List ℕ → List Text → Result OverrideError (List ManualOverride)
unfolding parse_line
load_lines json name seen [] = ok []
load_lines json name seen (l ∷ lines) = parse_line json name l >>= λ e. fresh_event seen e >>= λ _.
    load_lines json name (e.override_id ∷ seen) lines >>= λ events. ok (e ∷ events)

-- `load`; no file is an empty journal.
unfoldable pub load : Json → (Body → ℕ) → Option Text → Result OverrideError (List ManualOverride)
unfolding load_lines split_lines
load json name none = ok []
load json name (some text) = load_lines json name [] (split_lines text)

unfoldable pub find_event : ℕ → List ManualOverride → Option ManualOverride
find_event i [] = none
find_event i (e ∷ events) =
    let rest = find_event i events in if e.override_id == i then some e else rest

-- `==` of two events.
unfoldable pub same_event : ManualOverride → ManualOverride → Bool
same_event a b =
    a.body.decision_id == b.body.decision_id
    && action_code a.body.original_action == action_code b.body.original_action
    && override_code a.body.override_action == override_code b.body.override_action
    && a.body.reason == b.body.reason
    && a.body.requested_by == b.body.requested_by
    && a.body.approved_by == b.body.approved_by
    && a.body.created_at == b.body.created_at
    && a.body.expires_at == b.body.expires_at
    && a.override_id == b.override_id

abbrev pub text_of : Option Text → Text
text_of none = []
text_of (some text) = text

-- The line that is written, with its newline.
abbrev pub line_of : Json → ManualOverride → Text
line_of json e = json.dumps (override_payload e) ++ 10 ∷ []

abbrev pub append_to :
    Json
    → ManualOverride
    → Option ManualOverride
    → Option Text
    → Result OverrideError (Unit {0}) × Option Text
append_to json e none file = (ok tt, some (text_of file ++ line_of json e))
append_to json e (some p) file = (if same_event p e then ok tt else err id_conflict, file)

-- `append`
unfoldable pub append_event :
    Json → (Body → ℕ) → ManualOverride → Option Text → Result OverrideError (Unit {0}) × Option Text
unfolding load find_event same_event override_payload
append_event json name e file = elim (load json name file) [
  | err x ↦ (err x, file)
  | ok events ↦ append_to json e (find_event e.override_id events) file
]

-- The events of a decision that are active at a time.
unfoldable pub active_events : ℕ → ℕ → List ManualOverride → List ManualOverride
unfolding active_at
active_events decision instant [] = []
active_events decision instant (e ∷ events) =
    let rest = active_events decision instant events in
    if e.body.decision_id == decision && active_at instant e then e ∷ rest else rest

-- What is done: the decision's own action, or the override's.
pub data Effect : Type 0 where
  original : DecisionAction → Effect
  overridden : ManualOverrideAction → Effect

-- `ManualInterventionState`
pub record ManualInterventionState : Type 0 where
  pub decision_id : ℕ
  pub original_action : DecisionAction
  pub effective_action : Effect
  pub override_id : Option ℕ
  pub reason : Option ℕ
  pub evaluated_at : ℕ

abbrev pub state_of :
    ℕ → DecisionAction → ℕ → List ManualOverride → Result OverrideError ManualInterventionState
state_of decision action instant [] = ok (record {
  decision_id = decision;
  original_action = action;
  effective_action = original action;
  override_id = none;
  reason = none;
  evaluated_at = instant;
})
state_of decision action instant (e ∷ []) =
    if not (action_code e.body.original_action == action_code action)
    then err original_action_mismatch
    else ok (record {
      decision_id = decision;
      original_action = action;
      effective_action = overridden e.body.override_action;
      override_id = some e.override_id;
      reason = some e.body.reason;
      evaluated_at = instant;
    })
state_of decision action instant (e ∷ e' ∷ events) = err override_conflict

-- `resolve`
unfoldable pub resolve :
    Json
    → (Body → ℕ)
    → ℕ
    → DecisionAction
    → Datetime
    → Option Text
    → Result OverrideError ManualInterventionState
unfolding load active_events
resolve json name decision action at file = do
  require (not (decision == 0)) decision_invalid
  instant ← utc at
  events ← load json name file
  state_of decision action instant (active_events decision instant events)
