-- ===== src/Posting/Booked.antt =====
-- A posting books its delta in the cash, in the position and in the tax lots.
use toss_trading_core.Prelude.{
  ==_refl, Datetime, Result, ap, aware, bind_ok, err, inl, inr, none, not, ok, ok_inj, refl,
  require_ok, some, subst, sym, true, ℕ, ◌∙◌, ◌≡◌, ◌≢◌, ◌⊎◌,
}
use toss_trading_core.Executions.{ExecutionDelta}
use toss_trading_core.Ledger.{day_of}
use toss_trading_core.Lots.{LotError, Tables}
use toss_trading_core.Lots.Acquire.{acquire}
use toss_trading_core.Lots.Acquired.{HasLot, acquire-HasLot}
use toss_trading_core.Lots.Conserved.{dispose_fifo-Leaves}
use toss_trading_core.Lots.Dispose.{dispose_fifo, disposed_by}
use toss_trading_core.Posting.{
  Books, PostError, PostingRow, SettlementEvidence, Side, buy, commission_part, principal,
  row_exists, sell, tax_part,
}
use toss_trading_core.Posting.Context.{Outside, PostingContext}
use toss_trading_core.Posting.Post.{
  ExecutionPosting, check_posting, find_posting, post, post_checked, post_unless_known,
  post_written, posting_of,
}
use toss_trading_core.Posting.Settlement.{persist}
use toss_trading_core.Posting.Sums.{
  Adds, LotsWritten, cash_in, cash_total, share_total, shares_in, write_cash-Adds,
  write_position-Adds, write_position-cases, zero_add,
}
use toss_trading_core.Posting.Write.{
  acquisition_of, cash_id, given, has_context, lots_written, position_id, posting_row,
  posting_taken, quantity_of, signed_amount, write_all, write_cash, write_evidence, write_lots,
  write_position, write_posting,
}
use toss_trading_core.Prelude.Int.{int_laws, pos, ℤ, ◌+ℤ◌, ◌-ℤ◌}

-- The lots hold the quantity under the delta: as a lot that was bought, or as what was disposed of.
abbrev pub Follows : Side → ExecutionDelta → Tables → Type 0
Follows buy d t = HasLot d.execution_delta_id d.values.quantity t
Follows sell d t = disposed_by d.execution_delta_id t.disposals ≡ d.values.quantity

lots_written-ok :
    {A : Type 0} (p : Result LotError A × Tables) (t : Tables)
    → lots_written p ≡ ok t
    → (a : A) × (p.0 ≡ ok a) × (p.1 ≡ t)
lots_written-ok (err e, t') t h = cc h
lots_written-ok (ok a, t') t h = (a, refl, ok_inj h)

write_lots-Follows :
    (out : Outside) (s : Side) (ctx : PostingContext) (d : ExecutionDelta) (at : ℕ) (t t' : Tables)
    → write_lots out s ctx d at t ≡ ok t'
    → Follows s d t'
unfolding write_lots
write_lots-Follows out buy ctx d at t t' h =
    let (id, a, b) = lots_written-ok (acquire out.lot_name (acquisition_of out ctx d at) t) t' h in
    subst (HasLot d.execution_delta_id d.values.quantity) b (
      acquire-HasLot out.lot_name (acquisition_of out ctx d at)
        (record { value = d.values.quantity; places = 0 }) t id refl a)
write_lots-Follows out sell ctx d at t t' h =
    let (ids, a, b) =
      lots_written-ok
        (dispose_fifo out.disposal_name d.execution_delta_id ctx.account_id ctx.instrument_id
          (given d.values.quantity) (day_of at) (aware at) true t)
        t' h in
    subst (λ x. disposed_by d.execution_delta_id x.disposals ≡ d.values.quantity) b
      (dispose_fifo-Leaves out.disposal_name d.execution_delta_id ctx.account_id ctx.instrument_id
        (record { value = d.values.quantity; places = 0 }) (day_of at) (aware at) true t ids a)

-- What the writes leave: the cash and the shares that the delta stands for, and its lots.
pub record IsBooked (ctx : PostingContext) (d : ExecutionDelta) (p : ExecutionPosting)
    (b b' : Books) : Type 0 where
  pub cash_booked : cash_total ctx b' ≡ p.cash_delta +ℤ cash_total ctx b
  pub shares_booked : share_total ctx b' ≡ p.quantity_delta +ℤ share_total ctx b
  pub lots_booked : (d.values.quantity ≢ 0) → Follows ctx.side d b'.shares.lot_tables
  pub recorded : (r : PostingRow) × (find_posting d.execution_delta_id b'.postings ≡ some r)

write_evidence-Adds :
    (out : Outside) (hash : PostingContext → ℕ) (e : SettlementEvidence) (ctx : PostingContext)
    (delta : ℕ) (b b' : Books)
    → write_evidence out hash e ctx delta b ≡ ok b'
    → Adds ctx b b' (pos 0) (pos 0)
unfolding write_evidence
write_evidence-Adds out hash e ctx delta b b' h =
    let (rows, _, r1) = bind_ok (persist out.hash_evidence e b.evidence) _ b' h in
    let (_, r2) = require_ok (not (has_context delta b.contexts)) row_exists _ b' r1 in
    subst (λ x. Adds ctx b x (pos 0) (pos 0)) (ok_inj r2)
      (record {
        cash_added = zero_add (cash_total ctx b);
        shares_added = zero_add (share_total ctx b);
      })

-- The last write keeps the ledgers, and its row is found.
abbrev KeepsLedgers : ℕ → Books → Books → Type 0
KeepsLedgers delta b b' =
    (b'.cash ≡ b.cash)
    × (b'.shares ≡ b.shares)
    × ((r : PostingRow) × (find_posting delta b'.postings ≡ some r))

write_posting-KeepsLedgers :
    (out : Outside) (d : ExecutionDelta) (at : ℕ) (b b' : Books)
    → write_posting out d at b ≡ ok b'
    → KeepsLedgers d.execution_delta_id b b'
unfolding write_posting find_posting
write_posting-KeepsLedgers out d at b b' h =
    let (_, r) =
      require_ok
        (not (posting_taken d.execution_delta_id (cash_id out d) (position_id out d) b.postings))
        row_exists _ b' h in
    subst (KeepsLedgers d.execution_delta_id b) (ok_inj r)
      (refl, refl, (posting_row out d at, rw (==_refl d.execution_delta_id) refl))

-- The sum of what the steps add.
sum_of_steps :
    (x p c t x1 x2 x3 x4 x5 : ℤ)
    → x1 ≡ pos 0 +ℤ x
    → x2 ≡ p +ℤ x1
    → x3 ≡ (pos 0 -ℤ c) +ℤ x2
    → x4 ≡ (pos 0 -ℤ t) +ℤ x3
    → x5 ≡ pos 0 +ℤ x4
    → x5 ≡ p -ℤ c -ℤ t +ℤ x
sum_of_steps x p c t x1 x2 x3 x4 x5 a b d e f =
    let y2 = b ∙ ap (λ z. p +ℤ z) a in
    let y3 = d ∙ ap (λ z. (pos 0 -ℤ c) +ℤ z) y2 in
    let y4 = e ∙ ap (λ z. (pos 0 -ℤ t) +ℤ z) y3 in f ∙ ap (λ z. pos 0 +ℤ z) y4 ∙ omega int_laws

sum_of_zeros :
    (x q x1 x2 x3 x4 x5 : ℤ)
    → x1 ≡ pos 0 +ℤ x
    → x2 ≡ pos 0 +ℤ x1
    → x3 ≡ pos 0 +ℤ x2
    → x4 ≡ pos 0 +ℤ x3
    → x5 ≡ q +ℤ x4
    → x5 ≡ q +ℤ x
sum_of_zeros x q x1 x2 x3 x4 x5 a b c d e =
    let y2 = b ∙ sym (zero_add x1) ∙ a ∙ sym (zero_add x) in
    let y4 = d ∙ sym (zero_add x3) ∙ c ∙ sym (zero_add x2) ∙ y2 in e ∙ ap (λ z. q +ℤ z) y4

write_all-IsBooked :
    (out : Outside) (hash : PostingContext → ℕ) (e : SettlementEvidence) (ctx : PostingContext)
    (d : ExecutionDelta) (at : ℕ) (b b' : Books)
    → write_all out hash e ctx d at b ≡ ok b'
    → IsBooked ctx d (posting_of d ctx (cash_id out d) (position_id out d)) b b'
unfolding write_all
write_all-IsBooked out hash e ctx d at b b' h =
    let id = d.execution_delta_id in
    let v = d.values in
    let (b1, w1, h1) = bind_ok (write_evidence out hash e ctx id b) _ b' h in
    let (b2, w2, h2) = bind_ok (write_cash out principal ctx id v.amount at b1) _ b' h1 in
    let (b3, w3, h3) = bind_ok (write_cash out commission_part ctx id v.commission at b2) _ b' h2 in
    let (b4, w4, h4) = bind_ok (write_cash out tax_part ctx id v.tax at b3) _ b' h3 in
    let (b5, w5, h5) = bind_ok (write_position out ctx d at b4) (write_posting out d at) b' h4 in
    let (same_cash, same_shares, row) = write_posting-KeepsLedgers out d at b5 b' h5 in
    let a1 = write_evidence-Adds out hash e ctx id b b1 w1 in
    let a2 = write_cash-Adds out principal ctx id v.amount at b1 b2 w2 in
    let a3 = write_cash-Adds out commission_part ctx id v.commission at b2 b3 w3 in
    let a4 = write_cash-Adds out tax_part ctx id v.tax at b3 b4 w4 in
    let a5 = write_position-Adds out ctx d at b4 b5 w5 in
    record {
      cash_booked =
          ap (cash_in ctx) same_cash
          ∙ sum_of_steps (cash_total ctx b) (signed_amount principal ctx.side v.amount)
              (pos v.commission) (pos v.tax) (cash_total ctx b1) (cash_total ctx b2)
              (cash_total ctx b3) (cash_total ctx b4) (cash_total ctx b5) a1.cash_added
              a2.cash_added a3.cash_added a4.cash_added a5.cash_added;
      shares_booked =
          ap (shares_in ctx) same_shares
          ∙ sum_of_zeros (share_total ctx b) (quantity_of ctx.side v.quantity) (share_total ctx b1)
              (share_total ctx b2) (share_total ctx b3) (share_total ctx b4) (share_total ctx b5)
              a1.shares_added a2.shares_added a3.shares_added a4.shares_added a5.shares_added;
      lots_booked = λ n.
          subst (λ s. Follows ctx.side d s.lot_tables) (sym same_shares)
            (followed b4 b5 n (write_position-cases out ctx d at b4 b5 w5));
      recorded = row;
    }
  where
    followed :
        (x y : Books)
        → d.values.quantity ≢ 0
        → ((d.values.quantity ≡ 0) × (y ≡ x)) ⊎ LotsWritten out ctx d at x y
        → Follows ctx.side d y.shares.lot_tables
    followed x y n (inl (z, _)) = elim (n z) [ ]
    followed x y n (inr w) =
        subst (λ z. Follows ctx.side d z.shares.lot_tables) (sym w.stored)
          (write_lots-Follows out ctx.side ctx d at x.shares.lot_tables w.lots w.written)

-- A delta that is posted for the first time, by a call that returns, adds just its cash delta to the
-- cash rows of its account and currency and just its quantity to the position rows of its account
-- and instrument; its tax lots hold the quantity, as a lot that was bought or as what was disposed
-- of, unless it is zero; and the posting is recorded.
pub post-IsBooked :
    (out : Outside) (hash : PostingContext → ℕ) (d : ExecutionDelta) (ctx : PostingContext)
    (at : Datetime) (b : Books) (p : ExecutionPosting)
    → find_posting d.execution_delta_id b.postings ≡ none
    → (post out hash d ctx at b).0 ≡ ok p
    → IsBooked ctx d p b (post out hash d ctx at b).1
unfolding post
post-IsBooked out hash d ctx at b p new = go (check_posting out ctx d at b)
  where
    Booked : Result PostError ExecutionPosting × Books → Type 0
    Booked r = r.0 ≡ ok p → IsBooked ctx d p b r.1

    written :
        (e : SettlementEvidence) (t : ℕ) (w : Result PostError Books)
        → write_all out hash e ctx d t b ≡ w
        → Booked (post_written out ctx d w b)
    written e t (err x) k = λ h. cc h
    written e t (ok b') k = λ h.
        subst (λ q. IsBooked ctx d q b b') (ok_inj h) (write_all-IsBooked out hash e ctx d t b b' k)

    go : (c : Result PostError (ℕ × SettlementEvidence)) → Booked (post_checked out hash ctx d c b)
    go (err x) = λ h. cc h
    go (ok (t, e)) =
        subst (λ o. Booked (post_unless_known out hash ctx d (t, e) o b)) (sym new)
          (written e t (write_all out hash e ctx d t b) refl)
