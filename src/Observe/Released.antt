-- ===== src/Observe/Released.antt =====
-- After a release nothing is reserved for the order.
use toss_trading_core.Prelude.{
  ==_eq, All, Bool, Bool-cases, List, [], ap, arith, bind_ok, false, if◌then◌else◌, inl, inr,
  is_some, leb, leb_le, ltb, none, not, ok, ok_inj, refl, require_ok, some, some_inj, subst, sym,
  true, ℕ, ◌&&◌, ◌+◌, ◌==◌, ◌>>=◌, ◌||◌, ◌∙◌, ◌∷◌, ◌≡◌, ◌≤◌, ◌⊎◌,
}
use toss_trading_core.Ledger.{Evidence}
use toss_trading_core.Ledger.Reservations.{
  ReservationRow, ReservationStatus, can_reserve, find_reservation, latest_of, released_status,
  reserved_status,
}
use toss_trading_core.Ledger.Reserved.{
  IsSequenced, Precedes, UpTo, latest_of-All, latest_of-UpTo, latest_of-head, latest_of-other,
}
use toss_trading_core.Observe.{release_conflict, release_integrity}
use toss_trading_core.Observe.Release.{
  is_last, is_reserved, must_release, release, release_all, release_of, release_one, release_row,
  same_group,
}

-- The latest event of an order, if it has one, is a release.
abbrev pub IsReleased : ℕ → List ReservationRow → Type 0
IsReleased order rows =
    (r : ReservationRow) → latest_of order rows ≡ some r → r.body.status ≡ released_status

-- No last row of the group of `x` has a smaller number.
abbrev Bounds : List ReservationRow → ReservationRow → Type 0
Bounds all x =
    (s : ReservationRow)
    → is_last s all ≡ true
    → same_group x s ≡ true
    → x.sequence_no ≤ s.sequence_no

is_last-cases :
    (s x : ReservationRow) (rows : List ReservationRow)
    → is_last s (x ∷ rows) ≡ true
    → (same_group x s ≡ true → x.sequence_no ≤ s.sequence_no) × (is_last s rows ≡ true)
unfolding is_last
is_last-cases s x rows h =
    go (same_group x s) (leb x.sequence_no s.sequence_no) (is_last s rows) (leb_le _ _) h
  where
    go :
        (a b c : Bool)
        → (b ≡ true → x.sequence_no ≤ s.sequence_no)
        → ((not a || b) && c) ≡ true
        → (a ≡ true → x.sequence_no ≤ s.sequence_no) × (c ≡ true)
    go true true c f h = ((λ _. f refl), h)
    go true false c f h = cc h
    go false b c f h = ((λ e. cc e), h)

All-Bounds :
    (all rows : List ReservationRow)
    → ((s : ReservationRow) → is_last s all ≡ true → is_last s rows ≡ true)
    → All (Bounds all) rows
All-Bounds all [] f = tt
All-Bounds all (x ∷ rows) f = (
  (λ s h g. (is_last-cases s x rows (f s h)).0 g),
  All-Bounds all rows (λ s h. (is_last-cases s x rows (f s h)).1),
)

-- A row of the order that is not the last of its group.
abbrev NotLast : ℕ → List ReservationRow → ReservationRow → Type 0
NotLast order all s = must_release order all s ≡ false

-- In a sequence the rows after the first one of the order are not last.
older-NotLast :
    (order : ℕ) (all : List ReservationRow) (x : ReservationRow) (rows : List ReservationRow)
    → x.body.broker_order_id ≡ order
    → Bounds all x
    → All (Precedes x) rows
    → All (NotLast order all) rows
older-NotLast order all x [] e b p = tt
older-NotLast order all x (s ∷ rows) e b p = (head, older-NotLast order all x rows e b p.1)
  where
    same : s.body.broker_order_id ≡ order → same_group x s ≡ true
    same h =
        let (_, _, account, subject) = p.0 (h ∙ sym e) in ground (arith, e, h, account, subject)

    head : NotLast order all s
    head = elim (Bool-cases (s.body.broker_order_id == order)) [
      | inr n ↦ rw n refl
      | inl y ↦ elim (Bool-cases (is_last s all)) [
        | inr n ↦ rw (y, n) refl
        | inl l ↦
            let h = ==_eq _ order y in
            let less = (p.0 (h ∙ sym e)).0 in
            let more = b s l (same h) in let c : ⊥ = omega (arith, less, more) in elim c [ ]
      ]
    ]

-- Rows that are not last are passed over.
release_all-none :
    (fresh : ℕ → ℕ) (known : Evidence) (order source at : ℕ) (all todo rows : List ReservationRow)
    → All (NotLast order all) todo
    → release_all fresh known order source at all todo rows ≡ ok rows
unfolding release_all
release_all-none fresh known order source at all [] rows a = refl
release_all-none fresh known order source at all (s ∷ todo) rows a =
    rw (a.0) (release_all-none fresh known order source at all todo rows a.1)

release_one-row :
    (fresh : ℕ → ℕ) (known : Evidence) (source at : ℕ) (x : ReservationRow)
    (rows rows' : List ReservationRow)
    → release_one fresh known source at x rows ≡ ok rows'
    → rows' ≡ release_row fresh x source at ∷ rows
unfolding release_one
release_one-row fresh known source at x rows rows' h =
    let (_, r) =
      require_ok (not (is_some (find_reservation x.body.broker_order_id source rows)))
        release_conflict _ rows' h in
    let (_, q) =
      require_ok (can_reserve (fresh x.reservation_event_id) (release_of x source at) known rows)
        release_integrity _ rows' r in
    sym (ok_inj q)

-- The released row is the latest one.
released-latest :
    (fresh : ℕ → ℕ) (order source at : ℕ) (x : ReservationRow) (rows : List ReservationRow)
    → (x.body.broker_order_id == order) ≡ true
    → latest_of order rows ≡ some x
    → latest_of order (release_row fresh x source at ∷ rows) ≡ some (release_row fresh x source at)
unfolding latest_of
released-latest fresh order source at x rows y h =
    let l : ltb x.sequence_no (x.sequence_no + 1) ≡ true = ground arith in rw (y, h, l) refl

-- The latest row of a sequence is the last of its group.
is_last-UpTo :
    (order : ℕ) (x : ReservationRow) (rows : List ReservationRow)
    → x.body.broker_order_id ≡ order
    → All (UpTo order (some x)) rows
    → is_last x rows ≡ true
unfolding is_last
is_last-UpTo order x [] e a = refl
is_last-UpTo order x (s ∷ rows) e a = elim (Bool-cases (same_group s x)) [
  | inr n ↦ rw n (is_last-UpTo order x rows e a.1)
  | inl y ↦
      let o : s.body.broker_order_id ≡ x.body.broker_order_id = ground (arith, y) in
      let l = (a.0 (o ∙ e)).0 in
      let b : leb s.sequence_no x.sequence_no ≡ true = ground (arith, l) in
      rw (y, b) (is_last-UpTo order x rows e a.1)
]

latest-is_last :
    (order : ℕ) (x : ReservationRow) (rows : List ReservationRow)
    → IsSequenced rows
    → latest_of order rows ≡ some x
    → is_last x rows ≡ true
latest-is_last order x rows s h =
    let up = latest_of-UpTo order rows s in
    let (_, e) = latest_of-All (UpTo order (latest_of order rows)) order rows x up h in
    is_last-UpTo order x rows e (subst (λ o. All (UpTo order o) rows) h up)

released_status-or : (s : ReservationStatus) → (is_reserved s ≡ true) ⊎ (s ≡ released_status)
released_status-or reserved_status = inl refl
released_status-or released_status = inr refl

IsReleased-by :
    (order : ℕ) (x : ReservationRow) (rows : List ReservationRow)
    → latest_of order rows ≡ some x
    → x.body.status ≡ released_status
    → IsReleased order rows
IsReleased-by order x rows h s r k =
    subst (λ z. z.body.status ≡ released_status) (some_inj (sym h ∙ k)) s

release_all-IsReleased :
    (fresh : ℕ → ℕ) (known : Evidence) (order source at : ℕ)
    (all todo rows rows' : List ReservationRow)
    → IsSequenced todo
    → All (Bounds all) todo
    → latest_of order rows ≡ latest_of order todo
    → ((x : ReservationRow) → latest_of order todo ≡ some x → is_last x all ≡ true)
    → release_all fresh known order source at all todo rows ≡ ok rows'
    → IsReleased order rows'
unfolding release_all latest_of
release_all-IsReleased fresh known order source at all [] rows rows' s b e f h =
    λ r k. let c : none ≡ some r = sym e ∙ ap (latest_of order) (ok_inj h) ∙ k in cc c
release_all-IsReleased fresh known order source at all (x ∷ todo) rows rows' s b e f h =
    elim (Bool-cases (x.body.broker_order_id == order)) [
      | inr n ↦
          let other = latest_of-other order x todo n in
          release_all-IsReleased fresh known order source at all todo rows rows' s.2 b.1 (e ∙ other)
            (λ y k. f y (other ∙ k)) (passed (not_due n) h)
      | inl y ↦
          let head = latest_of-head order x todo s y in
          let last = f x head in
          let older = older-NotLast order all x todo (==_eq _ order y) b.0 s.1 in
          elim (released_status-or x.body.status) [
            | inr q ↦
                let skip : must_release order all x ≡ false = rw (y, last, q) refl in
                let same : rows ≡ rows' = ok_inj (
                  sym (release_all-none fresh known order source at all todo rows older)
                  ∙ passed skip h) in
                subst (IsReleased order) same (IsReleased-by order x rows (e ∙ head) q)
            | inl q ↦
                let due : must_release order all x ≡ true = rw (y, last, q) refl in
                let (rows1, one, rest) =
                  bind_ok (release_one fresh known source at x rows)
                    (release_all fresh known order source at all todo) rows' (taken due h) in
                let same : rows1 ≡ rows' = ok_inj (
                  sym (release_all-none fresh known order source at all todo rows1 older) ∙ rest) in
                let new = release_one-row fresh known source at x rows rows1 one in
                subst (IsReleased order) (sym new ∙ same) (
                  IsReleased-by order (release_row fresh x source at)
                    (release_row fresh x source at ∷ rows)
                    (released-latest fresh order source at x rows y (e ∙ head)) refl)
          ]
    ]
  where
    not_due : (x.body.broker_order_id == order) ≡ false → must_release order all x ≡ false
    not_due n = rw n refl

    Step : Bool → Type 0
    Step d =
        ((if d then release_one fresh known source at x rows else ok rows)
          >>= release_all fresh known order source at all todo)
        ≡ ok rows'

    passed : must_release order all x ≡ false → Step (must_release order all x) → Step false
    passed n h = subst Step n h

    taken : must_release order all x ≡ true → Step (must_release order all x) → Step true
    taken y h = subst Step y h

-- A release that returns leaves the order without a reservation: its latest event, if it has one, is
-- a release, provided the table was in sequence.
pub release-IsReleased :
    (fresh : ℕ → ℕ) (known : Evidence) (order source at : ℕ) (rows rows' : List ReservationRow)
    → IsSequenced rows
    → release fresh known order source at rows ≡ ok rows'
    → IsReleased order rows'
unfolding release
release-IsReleased fresh known order source at rows rows' s h =
    release_all-IsReleased fresh known order source at rows rows rows rows' s
      (All-Bounds rows rows (λ r l. l)) refl (λ x k. latest-is_last order x rows s k) h
