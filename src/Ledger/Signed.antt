-- ===== src/Ledger/Signed.antt =====
-- What `append_event` keeps of the cash table, and what a repeated call does.
use toss_trading_core.Prelude.{
  ==_refl, All, Bool-cases, List, Option, Result, [], ap, bind_ok, err, inl, inr, none, ok, ok_inj,
  option_eq, refl, require_ok, some, subst, true, ℕ, ◌∙◌, ◌∷◌, ◌≡◌,
}
use toss_trading_core.Ledger.{
  LedgerError, adjustment_unapproved, finite_decimal, instant_of, wrong_sign,
}
use toss_trading_core.Ledger.Cash.{CashRow, CashTables, MetadataRow, has_sign, is_manual, sign_of}
use toss_trading_core.Ledger.CashEvents.{
  CashEvent, append_cash_event, append_checked, append_unless_known, can_insert, cash_row,
  check_event, find_key, join_event, same_cash_event, with_event,
}
use toss_trading_core.Ledger.CashState.{find_authorization, find_metadata, is_authorized}
use toss_trading_core.Ledger.PointInTime.{
  IsOther, can_insert-free, find_cash_event-IsOther, is_authorized-other,
}
use toss_trading_core.Prelude.Int.{ℤ}

-- The amount has the sign of its type, and a manual adjustment is authorized.
pub record IsProper (t : CashTables) (r : CashRow) : Type 0 where
  pub signed : has_sign (sign_of r.event_type) r.amount ≡ true
  pub authorized : is_authorized t r ≡ true

abbrev pub IsSoundCash : CashTables → Type 0
IsSoundCash t = All (IsProper t) t.ledger

check_event-signed :
    (e : CashEvent) (b : ℕ) (x : ℤ)
    → check_event e ≡ ok (b, x)
    → has_sign (sign_of e.event_type) x ≡ true
unfolding check_event
check_event-signed e b x h =
    let (t, i, r1) = bind_ok (instant_of e.created_at_utc) _ (b, x) h in
    let (_, r2) = require_ok _ adjustment_unapproved _ (b, x) r1 in
    let (y, _, r3) = bind_ok (finite_decimal e.amount) _ (b, x) r2 in
    let (s, r4) = require_ok _ wrong_sign _ (b, x) r3 in
    subst (λ z. has_sign (sign_of e.event_type) z ≡ true) (ap (λ p. p.1) (ok_inj r4)) s

pub option_eq_refl : (o : Option ℕ) → option_eq o o ≡ true
option_eq_refl none = refl
option_eq_refl (some x) = ==_refl x

-- The row of a new event is authorized by what is stored with it.
with_event-authorized :
    (fresh : ℕ) (e : CashEvent) (at : ℕ) (x : ℤ) (t : CashTables)
    → is_authorized (with_event fresh e at x t) (cash_row fresh e at x) ≡ true
unfolding is_authorized find_metadata find_authorization
with_event-authorized fresh e at x t = elim (Bool-cases (is_manual e.event_type)) [
  | inr n ↦ rw n refl
  | inl y ↦ rw (y, ==_refl fresh, option_eq_refl e.reason, option_eq_refl e.approved_by) refl
]

-- The rows of other events stay proper.
kept_rows :
    (fresh : ℕ) (e : CashEvent) (at : ℕ) (x : ℤ) (t : CashTables) (rows : List CashRow)
    → All (IsOther fresh) rows
    → All (IsProper t) rows
    → All (IsProper (with_event fresh e at x t)) rows
kept_rows fresh e at x t [] a p = tt
kept_rows fresh e at x t (r ∷ rows) a p = (
  record {
    signed = p.0.signed;
    authorized = is_authorized-other fresh e at x t r a.0 ∙ p.0.authorized;
  },
  kept_rows fresh e at x t rows a.1 p.1,
)

-- Every call keeps every stored amount of the sign of its type, and every stored manual adjustment
-- with an authorization that repeats its metadata.
pub append_cash_event-IsSoundCash :
    (fresh : ℕ) (e : CashEvent) (t : CashTables)
    → IsSoundCash t
    → IsSoundCash (append_cash_event fresh e t).1
unfolding append_cash_event
append_cash_event-IsSoundCash fresh e t s = go (check_event e) refl
  where
    inserted :
        (b : ℕ) (x : ℤ)
        → has_sign (sign_of e.event_type) x ≡ true
        → IsSoundCash (append_unless_known fresh e b x none t).1
    inserted b x sign = elim (Bool-cases (can_insert fresh e t)) [
      | inr n ↦ rw n s
      | inl y ↦ rw y (
        record { signed = sign; authorized = with_event-authorized fresh e b x t },
        kept_rows fresh e b x t t.ledger
            (find_cash_event-IsOther fresh t.ledger (can_insert-free fresh e t y)) s,
      )
    ]

    looked :
        (b : ℕ) (x : ℤ)
        → has_sign (sign_of e.event_type) x ≡ true
        → (o : Option (MetadataRow × CashRow)) → IsSoundCash (append_unless_known fresh e b x o t).1
    looked b x sign none = inserted b x sign
    looked b x sign (some (m, r)) = elim (Bool-cases (same_cash_event e b x m r)) [
      | inl y ↦ rw y s
      | inr n ↦ rw n s
    ]

    go :
        (k : Result LedgerError (ℕ × ℤ))
        → check_event e ≡ k
        → IsSoundCash (append_checked fresh e k t).1
    go (err z) h = s
    go (ok (b, x)) h =
        looked b x (check_event-signed e b x h)
          (join_event (find_key e.idempotency_key t.metadata) t.ledger)
