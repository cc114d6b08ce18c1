-- ===== src/Overrides.antt =====
-- Manual overrides of asset_management/decisions/overrides.py: the event and its checks, the journal
-- file and the resolution. Texts are numbers, 0 for a blank one; times are microseconds of UTC.
-- `name` stands for the SHA-256 that names an event by its body.
pub mod Journal
pub mod Lines
pub mod Roundtrip
pub mod Resolved
mod Tests
use toss_trading_core.Prelude.{
  Bool, Datetime, Option, Result, aware, err, if◌then◌else◌, leb, ltb, naive, none, not, ok,
  require, some, true, ℕ, ◌&&◌, ◌+◌, ◌==◌, ◌>>=◌, ◌>>◌, ◌||◌,
}

-- `DecisionAction` of asset_management/domain/enums.py.
pub data DecisionAction : Type 0 where
  allow reduce block abstain defer : DecisionAction

-- `ManualOverrideAction`
pub data ManualOverrideAction : Type 0 where
  block_manually defer_manually liquidity_reserve emergency_liquidation : ManualOverrideAction

abbrev pub action_code : DecisionAction → ℕ
action_code allow = 0
action_code reduce = 1
action_code block = 2
action_code abstain = 3
action_code defer = 4

-- The code of the same word, where a decision has it.
abbrev pub override_code : ManualOverrideAction → ℕ
override_code block_manually = 2
override_code defer_manually = 4
override_code liquidity_reserve = 5
override_code emergency_liquidation = 6

pub data OverrideError : Type 0 where
  field_invalid no_effect time_invalid expiry_invalid id_invalid id_conflict : OverrideError
  duplicate_event decision_invalid override_conflict original_action_mismatch : OverrideError
  record_invalid : OverrideError

-- `_body` of a `ManualOverride`.
pub record Body : Type 0 where
  pub decision_id : ℕ
  pub original_action : DecisionAction
  pub override_action : ManualOverrideAction
  pub reason : ℕ
  pub requested_by : ℕ
  pub approved_by : ℕ
  pub created_at : ℕ
  pub expires_at : ℕ

-- A `ManualOverride` that has passed its checks.
pub record ManualOverride : Type 0 where
  pub body : Body
  pub override_id : ℕ

-- The arguments of the constructor.
pub record Request : Type 0 where
  pub decision_id : ℕ
  pub original_action : DecisionAction
  pub override_action : ManualOverrideAction
  pub reason : ℕ
  pub requested_by : ℕ
  pub approved_by : ℕ
  pub created_at : Datetime
  pub expires_at : Option Datetime
  pub override_id : Option ℕ

-- `DEFAULT_OVERRIDE_TTL`: a day.
abbrev pub default_override_ttl : ℕ
default_override_ttl = 86400000000

abbrev pub utc : Datetime → Result OverrideError ℕ
utc naive = err time_invalid
utc (aware t) = ok t

abbrev pub expiry_of : ℕ → Option Datetime → Result OverrideError ℕ
expiry_of created none = ok (created + default_override_ttl)
expiry_of created (some t) = utc t

-- An id that is given must be the calculated one, which is a hash.
abbrev pub id_agrees : Option ℕ → ℕ → Bool
id_agrees none calculated = true
id_agrees (some i) calculated = i == calculated

abbrev pub named : (Body → ℕ) → Option ℕ → Body → Result OverrideError ManualOverride
named name given b =
    if id_agrees given (name b)
    then ok (record { body = b; override_id = name b })
    else err id_invalid

abbrev pub blank_field : Request → Bool
blank_field r = r.decision_id == 0 || r.reason == 0 || r.requested_by == 0 || r.approved_by == 0

abbrev pub same_word : Request → Bool
same_word r = action_code r.original_action == override_code r.override_action

abbrev pub body_of : Request → ℕ → ℕ → Body
body_of r created expires = record {
  decision_id = r.decision_id;
  original_action = r.original_action;
  override_action = r.override_action;
  reason = r.reason;
  requested_by = r.requested_by;
  approved_by = r.approved_by;
  created_at = created;
  expires_at = expires;
}

-- The checks once both times are known, and once the first is.
abbrev pub within : (Body → ℕ) → Request → ℕ → ℕ → Result OverrideError ManualOverride
within name r created expires =
    require (ltb created expires) expiry_invalid
    >> named name r.override_id (body_of r created expires)

abbrev pub expiring : (Body → ℕ) → Request → ℕ → Result OverrideError ManualOverride
expiring name r created =
    expiry_of created r.expires_at >>= λ expires. within name r created expires

-- `ManualOverride.__post_init__`
unfoldable pub make_override : (Body → ℕ) → Request → Result OverrideError ManualOverride
make_override name r = do
  require (not (blank_field r)) field_invalid
  require (not (same_word r)) no_effect
  created ← utc r.created_at
  expiring name r created

-- `active_at`
unfoldable pub active_at : ℕ → ManualOverride → Bool
active_at instant e = leb e.body.created_at instant && ltb instant e.body.expires_at
