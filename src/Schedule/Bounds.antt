-- ===== src/Schedule/Bounds.antt =====
-- A plan keeps to its parent, its policy and its window.
use native.Mathlib.Nat.{
  div-add-mod', div-le_of_le-mul, div-mul-le_self, mod-lt, mul-le-mul_left, mul_comm,
}
use toss_trading_core.Prelude.{
  ==_eq, All, All-map, Bool, Bool-cases, List, Result, [], ap, arith, bind_ok, err, inl, inr,
  length, ltb, map, max, min, none, not, ok, refl, require_ok, some, some_inj, subst, suc, sym,
  true, ℕ, ◌%◌, ◌&&◌, ◌*◌, ◌+◌, ◌-◌, ◌/◌, ◌<◌, ◌==◌, ◌||◌, ◌∙◌, ◌∷◌, ◌≡◌, ◌≤◌,
}
use toss_trading_core.Schedule.{
  ChildOrder, ExecutionSchedule, InstrumentOrderRule, IntentSide, Market, Parent, Reason, Request,
  SchedulingPolicy, buy_side, child_price_invalid, event_defer, event_deferred, is_policy, is_rule,
  one, open_close_aware, parent_lot_conflict, pov_lite, sell_side, twap_lite, window_unavailable,
  window_volume_missing,
}
use toss_trading_core.Schedule.Allocate.{
  allocate, capacity_of, child_price, make_children, time_fraction,
}
use toss_trading_core.Schedule.Plan.{
  any_event_near, capacities, count_of, frame_of, is_mode, is_request, market_usable,
  plan_allocated, plan_children, plan_lots, plan_schedule, plan_session, plan_window, price_of,
  reference_of, schedule_of, session_time, shortened, window_end, window_start, within_order_limits,
}
use toss_trading_core.Schedule.Planned.{
  IsChild, Windows-numbered, make_children-Children, quantity_sum, volume_at,
}
use toss_trading_core.Schedule.Shares.{IsAllocation, allocate-IsAllocation}

-- A buy is not above the parent's limit, a sale not below it.
abbrev pub WithinLimit : IntentSide → ℕ → ℕ → Type 0
WithinLimit buy_side limit price = price ≤ limit
WithinLimit sell_side limit price = limit ≤ price

-- A child keeps to the volume that was forecast for its own window, the one of its number: counted
-- in parts of 1 / (2 * one), it caps itself to the part 1 - urgency / 2 of that, and takes at most
-- the largest participation of it.
pub record Participates (p : SchedulingPolicy) (r : Request) (c : ChildOrder) : Type 0 where
  pub window : ℕ
  pub volume : ℕ
  pub numbered : c.sequence ≡ window + 1
  pub forecast : volume_at window r.window_volumes ≡ some volume
  pub capped : c.volume_cap ≡ volume * (2 * one - r.urgency)
  pub participates :
      c.quantity * (2 * one * one) ≤ volume * (2 * one - r.urgency) * p.max_participation

-- A child that keeps to the parent's limit, the participation in the volume of its window, the rule,
-- and the time of the request.
pub record Keeps (p : SchedulingPolicy) (rule : InstrumentOrderRule) (parent : Parent) (r : Request)
    (c : ChildOrder) : Type 0 where
  pub limited : WithinLimit parent.side parent.limit_price c.limit_price
  pub participates : Participates p r c
  pub large_enough : rule.minimum_quantity ≤ c.quantity
  pub not_early : r.evaluated_at ≤ c.not_before
  pub in_order : c.not_before < c.expires_at
  pub not_late : (c.expires_at ≤ r.valid_until) × (c.expires_at ≤ r.forecast_valid_until)

-- The forecast volume of a window.
abbrev Forecast : Request → ℕ → ℕ → Type 0
Forecast r n v = volume_at n r.window_volumes ≡ some v

child_price-WithinLimit :
    (side : IntentSide) (reference limit tick : ℕ)
    → 1 ≤ tick
    → WithinLimit side limit (child_price side reference limit tick)
child_price-WithinLimit buy_side reference limit tick l =
    let d = div-mul-le_self (min reference limit) tick in omega (arith, d)
child_price-WithinLimit sell_side reference limit tick l =
    let x = max reference limit + (tick - 1) in
    let d = div-add-mod' x tick in
    let m = mod-lt x {m = tick} (omega (arith, l)) in omega (arith, d, m, l)

-- The end that the urgency shortens is between the start and the end before.
shortened-between :
    (urgency start end : ℕ)
    → start ≤ end
    → (start ≤ shortened urgency start end) × (shortened urgency start end ≤ end)
shortened-between urgency start end l =
    let f : time_fraction urgency ≤ 2 * one = omega arith in
    let m = mul-le-mul_left (end - start) f in
    let c = mul_comm (end - start) (2 * one) in
    let k : (end - start) * time_fraction urgency ≤ 2 * one * (end - start) = omega (arith, m, c) in
    let d = div-le_of_le-mul (2 * one) k in (omega arith, omega (arith, d, l))

window_start-after :
    (p : SchedulingPolicy) (r : Request) (opened : ℕ) → r.evaluated_at ≤ window_start p r opened
window_start-after p r opened = elim (Bool-cases (is_mode p.mode open_close_aware)) [
  | inl y ↦ rw y (omega arith)
  | inr n ↦ rw n (omega arith)
]

window_end-before :
    (p : SchedulingPolicy) (r : Request) (closed : ℕ)
    → (window_end p r closed ≤ r.valid_until) × (window_end p r closed ≤ r.forecast_valid_until)
window_end-before p r closed = elim (Bool-cases (is_mode p.mode open_close_aware)) [
  | inl y ↦ rw y (omega arith)
  | inr n ↦ rw n (omega arith)
]

length-map : (f : ℕ → ℕ) (xs : List ℕ) → length (map f xs) ≡ length xs
length-map f [] = refl
length-map f (x ∷ xs) = ap suc (length-map f xs)

count_of-positive : (p : SchedulingPolicy) → 1 ≤ p.child_count → 1 ≤ count_of p
count_of-positive p l =
    elim (Bool-cases
      (is_mode p.mode twap_lite || is_mode p.mode pov_lite || is_mode p.mode open_close_aware)) [
        | inl y ↦ rw y l
        | inr n ↦ rw n (omega arith)
      ]

-- The plan of the lots has the parent's quantity.
plan_lots-Children :
    (p : SchedulingPolicy) (rule : InstrumentOrderRule) (parent : Parent) (m : Market) (r : Request)
    (start end : ℕ) (cs : List ChildOrder)
    → 1 ≤ p.child_count
    → start ≤ end
    → plan_lots p rule parent m r start end ≡ ok cs
    → (quantity_sum cs ≡ parent.quantity)
      × All (IsChild (frame_of p rule parent m r start end) p.max_participation (Forecast r)) cs
unfolding plan_lots plan_allocated
plan_lots-Children p rule parent m r start end cs l window h =
    let (volumes, r1) =
      require_ok (length r.window_volumes == count_of p) window_volume_missing _ cs h in
    let (whole, r2) =
      require_ok (parent.quantity % rule.lot_size == 0) parent_lot_conflict _ cs r1 in
    let (xs, allocated, r3) =
      bind_ok (allocate p.mode (parent.quantity / rule.lot_size) (count_of p) (capacities p rule r))
        (plan_allocated p rule parent m r start end) cs r2 in
    let (_, made) =
      require_ok (not (price_of p rule parent m == 0)) child_price_invalid
        (make_children (frame_of p rule parent m r start end) 0 xs r.window_volumes) cs r3 in
    let n = ==_eq (length r.window_volumes) (count_of p) volumes in
    let k = length-map (capacity_of r.urgency p.max_participation rule.lot_size) r.window_volumes in
    let a : IsAllocation (parent.quantity / rule.lot_size) (count_of p) (capacities p rule r) xs =
      allocate-IsAllocation p.mode (parent.quantity / rule.lot_size) (count_of p)
        (capacities p rule r) xs (count_of-positive p l) (k ∙ n) allocated in
    let shares : length xs ≡ count_of p = a.shares in
    let (s, all) =
      make_children-Children (frame_of p rule parent m r start end) p.max_participation (Forecast r)
        0 xs r.window_volumes cs
        (Windows-numbered (Forecast r) 0 r.window_volumes
          (λ n v h. subst (λ k. Forecast r k v) (omega arith) h))
        window (omega (arith, shares)) (shares ∙ sym n) a.fits made in
    let z = ==_eq (parent.quantity % rule.lot_size) 0 whole in
    let d = div-add-mod' parent.quantity rule.lot_size in
    (s ∙ ap (λ x. x * rule.lot_size) a.total ∙ omega (arith, z, d), all)

abbrev pub Kept :
    SchedulingPolicy → InstrumentOrderRule → Parent → Request → List ChildOrder → Type 0
Kept p rule parent r cs = (quantity_sum cs ≡ parent.quantity) × All (Keeps p rule parent r) cs

plan_session-Kept :
    (p : SchedulingPolicy) (rule : InstrumentOrderRule) (parent : Parent) (m : Market) (r : Request)
    (opened closed : ℕ) (cs : List ChildOrder)
    → 1 ≤ p.child_count
    → 1 ≤ rule.price_tick
    → plan_session p rule parent m r opened closed ≡ ok cs
    → Kept p rule parent r cs
unfolding plan_session plan_window
plan_session-Kept p rule parent m r opened closed cs l t h =
    let s = window_start p r opened in
    let e = window_end p r closed in
    let (window, r1) = require_ok (ltb s e && m.session_matches) window_unavailable _ cs h in
    let s_e : s ≤ e = before s e m.session_matches window in
    let (a, b) = shortened-between r.urgency s e s_e in
    let (_, r2) =
      require_ok
        (not (
          is_mode p.mode event_defer
          || any_event_near p.event_buffer s (shortened r.urgency s e) r.event_times))
        event_deferred _ cs r1 in
    let (_, _, r3) =
      bind_ok (within_order_limits p parent r)
        (λ _. plan_lots p rule parent m r s (shortened r.urgency s e)) cs r2 in
    let (q, all) = plan_lots-Children p rule parent m r s (shortened r.urgency s e) cs l a r3 in
    (
      q,
      All-map
          (IsChild (frame_of p rule parent m r s (shortened r.urgency s e)) p.max_participation
            (Forecast r))
          (Keeps p rule parent r) (keep a b) cs all,
    )
  where
    end_of : ℕ
    end_of = shortened r.urgency (window_start p r opened) (window_end p r closed)

    before : (s e : ℕ) (b : Bool) → (ltb s e && b) ≡ true → s ≤ e
    before s e b h = ground (arith, h)

    keep :
        window_start p r opened ≤ end_of
        → end_of ≤ window_end p r closed
        → (c : ChildOrder)
        → IsChild
            (frame_of p rule parent m r (window_start p r opened) end_of)
            p.max_participation
            (Forecast r)
            c
        → Keeps p rule parent r c
    keep a b c k =
        let x = window_start-after p r opened in
        let (y, z) = window_end-before p r closed in
        let early = k.not_early in
        let late = k.not_late in
        record {
          limited = subst (WithinLimit parent.side parent.limit_price) (sym k.at_price) (
              child_price-WithinLimit parent.side (reference_of p parent m) parent.limit_price
                rule.price_tick t);
          participates = record {
            window = k.window;
            volume = k.volume;
            numbered = k.numbered;
            forecast = k.has_volume;
            capped = k.capped;
            participates = k.participates;
          };
          large_enough = k.large_enough;
          not_early = omega (arith, x, early);
          in_order = k.in_order;
          not_late = (omega (arith, y, late, b), omega (arith, z, late, b));
        }

is_policy-count : (p : SchedulingPolicy) → is_policy p ≡ true → 1 ≤ p.child_count
unfolding is_policy
is_policy-count p h = ground (arith, h)

is_rule-tick : (rule : InstrumentOrderRule) → is_rule rule ≡ true → 1 ≤ rule.price_tick
unfolding is_rule
is_rule-tick rule h = ground (arith, h)

-- With a policy and a rule that pass their checks, a schedule that is planned divides the parent:
-- the quantities of its children sum to the parent's, and each child has a price no worse than the
-- parent's limit, a quantity not below the minimum, and a time that is not empty, does not begin
-- before the evaluation and does not end after the validity of the plan or of the forecast. Of the
-- volume that was forecast for the window of its number, its cap is the part 1 - urgency / 2, and its
-- quantity is at most the largest participation of that cap.
pub plan_schedule-Kept :
    (fingerprint : ℕ) (p : SchedulingPolicy) (rule : InstrumentOrderRule) (parent : Parent)
    (m : Market) (r : Request) (s : ExecutionSchedule)
    → is_policy p ≡ true
    → is_rule rule ≡ true
    → plan_schedule fingerprint p rule parent m r ≡ some s
    → s.is_planned ≡ true
    → Kept p rule parent r s.children
unfolding plan_schedule plan_children
plan_schedule-Kept fingerprint p rule parent m r s policy tick h planned =
    elim (Bool-cases (is_request r)) [
      | inr n ↦ let c : none ≡ some s = rw n at h in cc c
      | inl y ↦
          let e : schedule_of p parent fingerprint (plan_children p rule parent m r) ≡ s =
            some_inj (rw y at h) in
          subst (λ x. x.is_planned ≡ true → Kept p rule parent r x.children) e
            (go (plan_children p rule parent m r) refl) planned
    ]
  where
    go :
        (c : Result Reason (List ChildOrder))
        → plan_children p rule parent m r ≡ c
        → (schedule_of p parent fingerprint c).is_planned ≡ true
        → Kept p rule parent r (schedule_of p parent fingerprint c).children
    go (err x) k = λ z. cc z
    go (ok cs) k = λ z.
        let (_, _, r1) = bind_ok (market_usable parent m r) _ cs k in
        let (opened, _, r2) = bind_ok (session_time m.regular_open_at) _ cs r1 in
        let (closed, _, r3) =
          bind_ok (session_time m.regular_close_at) (plan_session p rule parent m r opened) cs r2 in
        plan_session-Kept p rule parent m r opened closed cs (is_policy-count p policy)
          (is_rule-tick rule tick) r3
