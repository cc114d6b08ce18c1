-- ===== src/Schedule/Allocate.antt =====
-- How `plan_schedule` divides the lots and the window.
use toss_trading_core.Prelude.{
  Bool, List, Result, [], if◌then◌else◌, leb, ltb, max, min, ok, require, suc, true, zero, ℕ, ◌%◌,
  ◌&&◌, ◌*◌, ◌+◌, ◌-◌, ◌/◌, ◌==◌, ◌>>=◌, ◌>>◌, ◌∷◌,
}
use toss_trading_core.Schedule.{
  ChildOrder, InstrumentOrderRule, IntentSide, Reason, ScheduleMode, buy_side,
  capacity_insufficient, child_below_minimum, child_window_invalid, event_defer, immediate, one,
  open_close_aware, passive_limit, pov_lite, sell_side, twap_lite,
}

-- `1 - urgency / 2`, in parts of 1 / (2 * one).
abbrev pub time_fraction : ℕ → ℕ
time_fraction urgency = 2 * one - urgency

-- The whole lots that the participation allows in a window.
abbrev pub capacity_of : ℕ → ℕ → ℕ → ℕ → ℕ
capacity_of urgency participation lot v =
    v * time_fraction urgency * participation / (2 * one * one * lot)

-- POV_LITE: each window takes what it can; the rest is what is left.
unfoldable pub pov_allocate : ℕ → List ℕ → List ℕ × ℕ
pov_allocate lots [] = ([], lots)
pov_allocate lots (room ∷ caps) =
    let (rest, left) = pov_allocate (lots - min room lots) caps in (min room lots ∷ rest, left)

abbrev pub extra_lot : ℕ → ℕ → ℕ
extra_lot i r = if ltb i r then 1 else 0

-- The other modes: equal parts, and one lot more for the first ones; `k` windows from number `i` on.
unfoldable pub even_from : ℕ → ℕ → ℕ → ℕ → List ℕ
even_from q r i zero = []
even_from q r i (suc k) = (q + extra_lot i r) ∷ even_from q r (suc i) k

unfoldable pub within_capacity : List ℕ → List ℕ → Bool
within_capacity [] caps = true
within_capacity (a ∷ xs) [] = true
within_capacity (a ∷ xs) (c ∷ caps) = leb a c && within_capacity xs caps

abbrev pub fitting : List ℕ → List ℕ → Result Reason (List ℕ)
fitting caps xs = require (within_capacity xs caps) capacity_insufficient >> ok xs

abbrev pub pov_result : List ℕ × ℕ → List ℕ → Result Reason (List ℕ)
pov_result (xs, left) caps = require (left == 0) capacity_insufficient >> fitting caps xs

unfoldable pub allocate : ScheduleMode → ℕ → ℕ → List ℕ → Result Reason (List ℕ)
unfolding pov_allocate even_from within_capacity
allocate pov_lite lots count caps = pov_result (pov_allocate lots caps) caps
allocate immediate lots count caps = fitting caps (even_from (lots / count) (lots % count) 0 count)
allocate passive_limit lots count caps =
    fitting caps (even_from (lots / count) (lots % count) 0 count)
allocate twap_lite lots count caps = fitting caps (even_from (lots / count) (lots % count) 0 count)
allocate open_close_aware lots count caps =
    fitting caps (even_from (lots / count) (lots % count) 0 count)
allocate event_defer lots count caps =
    fitting caps (even_from (lots / count) (lots % count) 0 count)

-- A duration divided by a number, rounded half to even.
abbrev pub divide_duration : ℕ → ℕ → ℕ
divide_duration a n =
    let q = a / n in
    let r = 2 * (a % n) in if ltb r n then q else if ltb n r then q + 1 else q + q % 2

-- The price of the children: never worse than the parent's limit, on the tick.
abbrev pub child_price : IntentSide → ℕ → ℕ → ℕ → ℕ
child_price buy_side reference limit tick = min reference limit / tick * tick
child_price sell_side reference limit tick = (max reference limit + (tick - 1)) / tick * tick

-- What all children of a plan share: the number of windows, the time from start to end, the price
-- and the rule.
pub record Frame : Type 0 where
  pub count : ℕ
  pub start : ℕ
  pub end : ℕ
  pub price : ℕ
  pub rule : InstrumentOrderRule
  pub fraction : ℕ

abbrev pub left_of : Frame → ℕ → ℕ
left_of f i = f.start + divide_duration ((f.end - f.start) * i) f.count

abbrev pub child_of : Frame → ℕ → ℕ → ℕ → ChildOrder
child_of f i a v = record {
  sequence = i + 1;
  quantity = a * f.rule.lot_size;
  limit_price = f.price;
  not_before = left_of f i;
  expires_at = left_of f (i + 1);
  volume_cap = v * f.fraction;
}

abbrev pub check_child : Frame → ChildOrder → Result Reason (Unit {0})
check_child f c = do
  require
      (leb f.rule.minimum_quantity c.quantity
        && leb f.rule.minimum_notional (c.quantity * c.limit_price))
      child_below_minimum
  require (ltb c.not_before c.expires_at) child_window_invalid

-- The children of the windows from number `i` on; a window without lots has none.
unfoldable pub make_children : Frame → ℕ → List ℕ → List ℕ → Result Reason (List ChildOrder)
make_children f i [] volumes = ok []
make_children f i (a ∷ xs) [] = ok []
make_children f i (a ∷ xs) (v ∷ volumes) =
    let rest = make_children f (suc i) xs volumes in
    if a == 0
    then rest
    else check_child f (child_of f i a v) >> (rest >>= λ cs. ok (child_of f i a v ∷ cs))
