-- ===== src/Engine/Replay.antt =====
-- The L0 replay of core/eodengine.py: one order against one symbol's sampled prices, and the loops
-- of `settle_account` over symbols and orders.
pub mod Keeps
pub mod Traded
pub mod Invariants
use ai_agent_stock_trading_s.Prelude.{
  ℕ, suc, ◌+◌, ◌*◌, ◌≤◌, max, Bool, true, false, not, ◌&&◌, ◌||◌, Option, none, some, List, [], ◌∷◌,
  ℤ, pos, neg_part, pos_part, ltb_ℤ, ltb, leb, ◌==◌, if◌then◌else◌,
}
use ai_agent_stock_trading_s.Engine.Result.{
  Result, ok, err, gap, engine, decimal, below_zero, ◌>>=◌,
}
use ai_agent_stock_trading_s.Engine.Money.{Side, buy, sell, Limits, limit_px, Board}
use ai_agent_stock_trading_s.Engine.Order.{Order, OrderType, Op, le, ge, Status, active, hhmm}
use ai_agent_stock_trading_s.Engine.Tier.{
  Final, waiting, filled, invalid, Run, after_fill, start_run, Entry, replay_tier,
}
use ai_agent_stock_trading_s.Engine.Trigger.{
  Rule, always, static, cost, trail, Plan, open_board, timed, ruled, plan_of,
}
use ai_agent_stock_trading_s.Engine.Book.{
  Book, Day, Lot, is_sellable, sellable, Outcome, done, insufficient, sell_fill, buy_fill,
}

pub record Sample : Type 0 where
  pub ts : ℕ
  pub price : ℕ

-- `lock_limits`
abbrev limits_by : Option ℕ → Option Board → Option Limits
limits_by (some prev) (some board) = some (limit_px prev board)
limits_by _ _ = none

unfoldable pub lock_limits : Day → ℕ → Option Limits
lock_limits d s = limits_by (d.prev_close s) (d.board s)

-- `cost_basis`: Σ buy_price × remaining over the sellable lots; Σ remaining is `sellable`.
unfoldable pub cost_weight : ℕ → ℕ → List Lot → ℕ
cost_weight s date [] = 0
cost_weight s date (l ∷ ls) =
    (if is_sellable s date l then l.buy_price * l.remaining else 0) + cost_weight s date ls

-- A price against `cost_trigger_price`, w / t × (100 + pct) / 100, multiplied out.
unfoldable pub cost_touched : Op → ℤ → ℕ → ℕ → ℕ → Bool
cost_touched le pct w t p = leb (p * t * 10000 + w * neg_part pct) (w * (10000 + pos_part pct))
cost_touched ge pct w t p = leb (w * (10000 + pos_part pct)) (p * t * 10000 + w * neg_part pct)

unfoldable pub price_touched : Op → ℤ → ℕ → Bool
price_touched le trig p = not (ltb_ℤ trig (pos p))
price_touched ge trig p = not (ltb_ℤ (pos p) trig)

-- The side of the board that `not_limit` looks at.
unfoldable pub sealed_for : Op → Option Limits → ℕ → Bool
sealed_for op none p = false
sealed_for le (some lim) p = p == lim.down
sealed_for ge (some lim) p = p == lim.up

-- `ref_high = max(ref_high, p)`
unfoldable pub advance : Rule → ℕ → Rule
advance (trail drop ref_high) p = trail drop (max ref_high p)
advance r p = r

-- Whether a sample's price touches the rule; a `trail` has been advanced to the sample.
unfoldable pub touched : Day → ℕ → Option Limits → List Lot → ℕ → Rule → Bool
touched d s lim lots p always = true
touched d s lim lots p (static op trig not_limit) =
    price_touched op trig p && not (not_limit && sealed_for op lim p)
touched d s lim lots p (cost op pct) =
    ltb 0 (cost_weight s d.date lots)
    && ltb 0 (sellable s d.date lots)
    && cost_touched op pct (cost_weight s d.date lots) (sellable s d.date lots) p
touched d s lim lots p (trail drop ref_high) =
    ltb 0 ref_high && leb (p * 10000 + ref_high * drop) (ref_high * 10000)

abbrev pub is_buy_type : OrderType → Bool
is_buy_type OrderType.buy = true
is_buy_type _ = false

-- A purchase does not fill at the upper limit, a sale not at the lower one.
unfoldable pub locked : OrderType → Option Limits → ℕ → Bool
locked t none p = false
locked t (some lim) p = p == (if is_buy_type t then lim.up else lim.down)

abbrev pub stopping : Run × Bool → Result (Run × Bool)
stopping (r, _) = ok (r, true)

abbrev pub fill_as : Bool → Day → Order → ℕ → ℕ → Book → Result (Outcome × Book)
fill_as true d o price ts b = buy_fill d o o.qty price ts b
fill_as false d o price ts b = sell_fill d o o.qty price ts b

abbrev pub is_buy_side : Side → Bool
is_buy_side buy = true
is_buy_side sell = false

abbrev pub is_after : Option ℕ → ℕ → Bool
is_after none ts = true
is_after (some created) ts = ltb created ts

-- One sample of the loop `for ts, pv in ser`, by the order's plan.
unfoldable pub visit_open : Day → Order → Option Limits → Sample → Run → Result (Run × Bool)
visit_open d o none x r = ok (r, false)
visit_open d o (some lim) x r =
    if x.price == lim.up
    then ok (record r { pinned = true }, false)
    else if not r.pinned || ltb lim.up x.price
    then ok (r, false)
    else (sell_fill d o o.qty x.price x.ts r.book >>= after_fill r)

unfoldable pub visit_timed : Day → Order → ℕ → Sample → Run → Result (Run × Bool)
visit_timed d o at x r =
    if ltb (hhmm x.ts) at
    then ok (r, false)
    else (fill_as (is_buy_side o.direction) d o x.price x.ts r.book >>= after_fill r >>= stopping)

unfoldable pub visit_ruled : Day → Order → Option Limits → Rule → Sample → Run → Result (Run × Bool)
visit_ruled d o lim rule x r =
    let moved = record r { plan = ruled rule } in
    if touched d o.symbol lim r.book.lots x.price rule && not (locked o.order_type lim x.price)
    then (fill_as (is_buy_type o.order_type) d o x.price x.ts r.book >>= after_fill moved)
    else ok (moved, false)

abbrev pub visit_by : Day → Order → Option Limits → Sample → Run → Plan → Result (Run × Bool)
visit_by d o lim x r open_board = visit_open d o lim x r
visit_by d o lim x r (timed at) = visit_timed d o at x r
visit_by d o lim x r (ruled rule) = visit_ruled d o lim (advance rule x.price) x r

unfoldable pub visit : Day → Order → Option Limits → Sample → Run → Result (Run × Bool)
visit d o lim x r =
    if is_after o.created_at x.ts then visit_by d o lim x r r.plan else ok (r, false)

-- The loop itself: an error aborts the transaction, the flag is `break`.
unfoldable pub scan : Day → Order → Option Limits → List Sample → Run → Result Run
scan d o lim [] r = ok r
scan d o lim (x ∷ xs) r = elim (visit d o lim x r) [
  | err e ↦ err e
  | ok (r', true) ↦ ok r'
  | ok (r', false) ↦ scan d o lim xs r'
]

-- The body of `for o in active` at one symbol: a trigger that does not parse makes the order
-- invalid, one that is not supported aborts the settlement.
unfoldable pub run_plan : Day → Order → List Sample → Book → Result Plan → Result Run
run_plan d o xs b (ok p) = scan d o (lock_limits d o.symbol) xs (start_run b p)
run_plan d o xs b (err gap) = err gap
run_plan d o xs b (err decimal) = err decimal
run_plan d o xs b (err below_zero) = err below_zero
run_plan d o xs b (err engine) = ok (record (start_run b open_board) { final = invalid })

unfoldable pub run_order : Day → Order → List Sample → Book → Result Run
unfolding run_plan
run_order d o xs b = run_plan d o xs b (plan_of o (d.hist_high o.symbol) (d.prev_close o.symbol))

unfoldable pub replay_l0 :
    Day → (ℕ → Option (List Sample)) → List ℕ → List Entry → Book → Result (List Entry × Book)
replay_l0 d = replay_tier (λ xs o. run_order d o xs)
