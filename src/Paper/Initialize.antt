-- ===== src/Paper/Initialize.antt =====
-- `PersistentPaperBroker.initialize` of asset_management/execution/paper.py, and the soundness of
-- the account that it stores. `text` stands for the text of the initial state, `named` for the test
-- that the currency is three capital letters.
use toss_trading_core.Prelude.{
  Bool, Bool-cases, List, Option, Result, [], arith, err, false, if◌then◌else◌, inl, inr, none, not,
  ok, refl, require, some, true, ℕ, ◌&&◌, ◌==◌, ◌>>=◌, ◌>>◌, ◌∷◌, ◌≡◌, ◌≢◌,
}
use toss_trading_core.Paper.{
  Account, Given, PaperError, currency_required, initialization_conflict, invalid_positions, number,
  or_zero, position, reserved_cash, reserved_position,
}
use toss_trading_core.Paper.Sound.{IsSound}
use toss_trading_core.Prelude.Dict.{Dict, get}
use toss_trading_core.Prelude.Int.{pos, ℤ, ◌≤ℤ◌}

abbrev named_positions : List (ℕ × Given) → Bool
named_positions [] = true
named_positions ((k, v) ∷ ps) = not (k == 0) && named_positions ps

-- {k: str(_number(v)) for k, v in positions.items()}
numbers : List (ℕ × Given) → Result PaperError (Dict ℤ)
unfolding number
numbers [] = ok []
numbers ((k, v) ∷ ps) = do n ← number false v; rest ← numbers ps; ok ((k, pos n) ∷ rest)

abbrev first_state : ℕ → ℕ → ℕ → Dict ℤ → Account
first_state text currency cash positions = record {
  initial = text;
  currency = currency;
  cash = pos cash;
  positions = positions;
  orders = [];
  fills = [];
}

-- The transaction: a stored account stays, if it began from the same text.
store_initial : Account → Option Account → Result PaperError (Unit {0}) × Option Account
store_initial fresh none = (ok tt, some fresh)
store_initial fresh (some a) =
    (if a.initial == fresh.initial then ok tt else err initialization_conflict, some a)

pub check_initial : ℕ → Bool → ℕ → Given → List (ℕ × Given) → Result PaperError Account
unfolding number numbers
check_initial text named currency cash positions = do
  require named currency_required
  require (named_positions positions) invalid_positions
  c ← number false cash
  ps ← numbers positions
  ok (first_state text currency c ps)

pub initialize :
    ℕ
    → Bool
    → ℕ
    → Given
    → List (ℕ × Given)
    → Option Account
    → Result PaperError (Unit {0}) × Option Account
unfolding store_initial
initialize text named currency cash positions stored =
    elim (check_initial text named currency cash positions) [
      | err e ↦ (err e, stored)
      | ok fresh ↦ store_initial fresh stored
    ]

-- What was read holds no negative position.
abbrev Nonneg : Result PaperError (Dict ℤ) → Type 0
Nonneg (err e) = Unit
Nonneg (ok d) = (i : ℕ) → pos 0 ≤ℤ or_zero (get i d)

get-nonneg : (i k n : ℕ) (d : Dict ℤ) → Nonneg (ok d) → pos 0 ≤ℤ or_zero (get i ((k, pos n) ∷ d))
unfolding get
get-nonneg i k n d h = elim (Bool-cases (k == i)) [
  | inl e ↦ rw e (omega arith)
  | inr e ↦ rw e (h i)
]

cons-Nonneg :
    (k : ℕ) (n : Result PaperError ℕ) (r : Result PaperError (Dict ℤ))
    → Nonneg r
    → Nonneg (n >>= λ m. r >>= λ d. ok ((k, pos m) ∷ d))
cons-Nonneg k (err e) r h = tt
cons-Nonneg k (ok n) (err e) h = tt
cons-Nonneg k (ok n) (ok d) h = λ i. get-nonneg i k n d h

numbers-Nonneg : (ps : List (ℕ × Given)) → Nonneg (numbers ps)
unfolding numbers
numbers-Nonneg [] = λ i. unfold get in omega arith
numbers-Nonneg ((k, v) ∷ ps) = cons-Nonneg k (number false v) (numbers ps) (numbers-Nonneg ps)

-- An account without orders is sound if nothing in it is negative.
first_state-IsSound :
    (text currency cash : ℕ) (d : Dict ℤ)
    → Nonneg (ok d)
    → IsSound (first_state text currency cash d)
unfolding reserved_cash reserved_position position
first_state-IsSound text currency cash d h = record {
  orders_sound = tt;
  funded = omega arith;
  covered = h;
}

abbrev pub SoundResult : Result PaperError Account → Type 0
SoundResult (err e) = Unit
SoundResult (ok a) = IsSound a

abbrev pub SoundStored : Option Account → Type 0
SoundStored none = Unit
SoundStored (some a) = IsSound a

check_initial-SoundResult :
    (text : ℕ) (named : Bool) (currency : ℕ) (cash : Given) (positions : List (ℕ × Given))
    → SoundResult (check_initial text named currency cash positions)
unfolding check_initial
check_initial-SoundResult text named currency cash positions =
    go (require named currency_required) (require (named_positions positions) invalid_positions)
      (number false cash) (numbers positions) (numbers-Nonneg positions)
  where
    go :
        (m n : Result PaperError (Unit {0})) (c : Result PaperError ℕ)
        (r : Result PaperError (Dict ℤ))
        → Nonneg r
        → SoundResult (m >> (n >> (c >>= λ k. r >>= λ d. ok (first_state text currency k d))))
    go (err e) n c r h = tt
    go (ok u) (err e) c r h = tt
    go (ok u) (ok v) (err e) r h = tt
    go (ok u) (ok v) (ok k) (err e) h = tt
    go (ok u) (ok v) (ok k) (ok d) h = first_state-IsSound text currency k d h

store_initial-SoundStored :
    (fresh : Account) (stored : Option Account)
    → IsSound fresh
    → SoundStored stored
    → SoundStored (store_initial fresh stored).1
unfolding store_initial
store_initial-SoundStored fresh none f s = f
store_initial-SoundStored fresh (some a) f s = s

store_initial-some :
    (fresh : Account) (stored : Option Account) → (store_initial fresh stored).1 ≢ none
unfolding store_initial
store_initial-some fresh none h = cc
store_initial-some fresh (some a) h = cc

-- Whatever `initialize` is given, a new account that it stores is sound, and one that is stored
-- already stays sound; an account is stored whenever the call returns.
pub initialize-SoundStored :
    (text : ℕ) (named : Bool) (currency : ℕ) (cash : Given) (positions : List (ℕ × Given))
    (stored : Option Account)
    → SoundStored stored
    → SoundStored (initialize text named currency cash positions stored).1
      × ((initialize text named currency cash positions stored).0 ≡ ok tt
          → (initialize text named currency cash positions stored).1 ≢ none)
initialize-SoundStored text named currency cash positions stored s =
    go (check_initial text named currency cash positions) refl
      (check_initial-SoundResult text named currency cash positions)
  where
    go :
        (c : Result PaperError Account)
        → check_initial text named currency cash positions ≡ c
        → SoundResult c
        → SoundStored (initialize text named currency cash positions stored).1
          × ((initialize text named currency cash positions stored).0 ≡ ok tt
              → (initialize text named currency cash positions stored).1 ≢ none)
    go (err e) h f = unfold initialize in rw (h, initialize) (s, λ p. cc)
    go (ok fresh) h f =
        unfold initialize in
        rw (h, initialize)
          (store_initial-SoundStored fresh stored f s, λ p. store_initial-some fresh stored)
