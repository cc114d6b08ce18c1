-- ===== src/Orders.antt =====
-- The order states of asset_management/domain/enums.py and the state machine of
-- asset_management/account/orders.py: states, broker words, transition table and guard.
pub mod Repository
pub mod Journal
pub mod Final
pub mod Replay
pub mod Newest
mod Tests
use toss_trading_core.Prelude.{
  Bool, List, Option, Result, [], ap, err, false, if◌then◌else◌, none, ok, refl, some, sym, ℕ, ◌==◌,
  ◌||◌, ◌∙◌, ◌∷◌, ◌≡◌,
}

-- `OrderState`, in the order of the enumeration.
pub data OrderState : Type 0 where
  planned submitting submitted acknowledged live partially_filled filled : OrderState
  cancel_pending canceled replace_pending replaced rejected unknown review_required : OrderState

-- The place of a state in the enumeration; states are compared by it.
abbrev pub index : OrderState → ℕ
index planned = 0
index submitting = 1
index submitted = 2
index acknowledged = 3
index live = 4
index partially_filled = 5
index filled = 6
index cancel_pending = 7
index canceled = 8
index replace_pending = 9
index replaced = 10
index rejected = 11
index unknown = 12
index review_required = 13

abbrev pub state_eq : OrderState → OrderState → Bool
state_eq a b = index a == index b

abbrev pub contains : List OrderState → OrderState → Bool
contains [] s = false
contains (x ∷ xs) s = state_eq x s || contains xs s

-- `TERMINAL_ORDER_STATES`
abbrev pub terminal_order_states : List OrderState
terminal_order_states = filled ∷ canceled ∷ replaced ∷ rejected ∷ []

-- `REVIEW_ORDER_STATES`
abbrev pub review_order_states : List OrderState
review_order_states = unknown ∷ review_required ∷ []

-- The keys of `_BROKER_STATE_MAP`, and any other word that the broker sends, after
-- `strip().upper()`; the number stands for the text itself.
pub data BrokerWord : Type 0 where
  pending acknowledged_word open_word partial_filled partially_filled_word filled_word : BrokerWord
  pending_cancel cancel_pending_word canceled_word cancelled_word : BrokerWord
  pending_replace replace_pending_word replaced_word rejected_word : BrokerWord
  cancel_rejected replace_rejected : BrokerWord
  other_word : ℕ → BrokerWord

-- `normalize_broker_order_state`: a word outside the map is UNKNOWN.
unfoldable pub normalize_broker_order_state : BrokerWord → OrderState
normalize_broker_order_state pending = acknowledged
normalize_broker_order_state acknowledged_word = acknowledged
normalize_broker_order_state open_word = live
normalize_broker_order_state partial_filled = partially_filled
normalize_broker_order_state partially_filled_word = partially_filled
normalize_broker_order_state filled_word = filled
normalize_broker_order_state pending_cancel = cancel_pending
normalize_broker_order_state cancel_pending_word = cancel_pending
normalize_broker_order_state canceled_word = canceled
normalize_broker_order_state cancelled_word = canceled
normalize_broker_order_state pending_replace = replace_pending
normalize_broker_order_state replace_pending_word = replace_pending
normalize_broker_order_state replaced_word = replaced
normalize_broker_order_state rejected_word = rejected
normalize_broker_order_state cancel_rejected = review_required
normalize_broker_order_state replace_rejected = review_required
normalize_broker_order_state (other_word text) = unknown

-- `_ALLOWED_TRANSITIONS`; a state that is no key of the table allows nothing.
unfoldable pub allowed_transitions : OrderState → List OrderState
allowed_transitions planned = submitting ∷ []
allowed_transitions submitting =
    submitted ∷ acknowledged ∷ live ∷ partially_filled ∷ filled ∷ rejected ∷ review_required
    ∷ unknown ∷ []
allowed_transitions submitted =
    acknowledged ∷ live ∷ partially_filled ∷ filled ∷ cancel_pending ∷ rejected ∷ review_required
    ∷ unknown ∷ []
allowed_transitions acknowledged =
    live ∷ partially_filled ∷ filled ∷ cancel_pending ∷ canceled ∷ rejected ∷ review_required
    ∷ unknown ∷ []
allowed_transitions live =
    partially_filled ∷ filled ∷ cancel_pending ∷ canceled ∷ replace_pending ∷ rejected
    ∷ review_required ∷ unknown ∷ []
allowed_transitions partially_filled =
    filled ∷ cancel_pending ∷ canceled ∷ replace_pending ∷ review_required ∷ unknown ∷ []
allowed_transitions cancel_pending =
    canceled ∷ partially_filled ∷ filled ∷ review_required ∷ unknown ∷ []
allowed_transitions replace_pending =
    replaced ∷ partially_filled ∷ filled ∷ review_required ∷ unknown ∷ []
allowed_transitions review_required =
    acknowledged ∷ live ∷ partially_filled ∷ filled ∷ cancel_pending ∷ canceled ∷ replace_pending
    ∷ replaced ∷ rejected ∷ unknown ∷ []
allowed_transitions unknown = review_required ∷ []
allowed_transitions filled = []
allowed_transitions canceled = []
allowed_transitions replaced = []
allowed_transitions rejected = []

-- The reasons of the errors that this file raises.
pub data OrderError : Type 0 where
  terminal_order invalid_transition naive_timestamp evidence_conflict evidence_not_latest :
      OrderError
  internal_start time_backwards state_missing final_state_not_proven unknown_broker_state :
      OrderError

-- `assert_order_transition`
unfoldable pub assert_order_transition :
    Option OrderState → OrderState → Result OrderError (Unit {0})
unfolding allowed_transitions
assert_order_transition none current = ok tt
assert_order_transition (some previous) current =
    if state_eq previous current
    then ok tt
    else if contains terminal_order_states previous
    then err terminal_order
    else if contains (allowed_transitions previous) current
    then ok tt
    else err invalid_transition

of_index : ℕ → OrderState
of_index n =
    if n == 0
    then planned
    else if n == 1
    then submitting
    else if n == 2
    then submitted
    else if n == 3
    then acknowledged
    else if n == 4
    then live
    else if n == 5
    then partially_filled
    else if n == 6
    then filled
    else if n == 7
    then cancel_pending
    else if n == 8
    then canceled
    else if n == 9
    then replace_pending
    else if n == 10
    then replaced
    else if n == 11
    then rejected
    else if n == 12
    then unknown
    else review_required

of_index-index : (s : OrderState) → of_index (index s) ≡ s
unfolding of_index
of_index-index planned = refl
of_index-index _ = refl

pub index_injective : (a b : OrderState) → index a ≡ index b → a ≡ b
index_injective a b e = sym (of_index-index a) ∙ ap of_index e ∙ of_index-index b
