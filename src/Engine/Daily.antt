-- ===== src/Engine/Daily.antt =====
-- The L2 loop of `settle_account` in core/eodengine.py: an order against the day's range of prices,
-- filled at the official close.
pub mod Keeps
use ai_agent_stock_trading_s.Prelude.{
  ℕ, ◌+◌, ◌*◌, Bool, true, false, not, ◌&&◌, Option, none, some, List, leb, ◌==◌, if◌then◌else◌,
}
use ai_agent_stock_trading_s.Engine.Result.{
  Result, ok, err, gap, engine, decimal, below_zero, ◌>>=◌,
}
use ai_agent_stock_trading_s.Engine.Money.{Limits}
use ai_agent_stock_trading_s.Engine.Order.{Order, le, ge, seconds_a_day}
use ai_agent_stock_trading_s.Engine.Trigger.{
  Rule, always, static, cost, trail, Plan, open_board, timed, ruled, plan_of,
}
use ai_agent_stock_trading_s.Engine.Book.{
  Book, Day, Lot, Quality, plain, degraded, require_close, Outcome,
}
use ai_agent_stock_trading_s.Engine.Tier.{Run, invalid, after_fill, start_run, Entry, replay_tier}
use ai_agent_stock_trading_s.Engine.Replay.{
  touched, sealed_for, locked, advance, is_buy_type, is_buy_side, fill_as, lock_limits,
}
use ai_agent_stock_trading_s.Engine.Inline.{inline_sell, capped_buy}

-- A row of `l2_map`.
pub record Range : Type 0 where
  pub high : ℕ
  pub low : ℕ

-- `f"{trade_date}T15:00:00"`
abbrev pub close_ts : Day → ℕ
close_ts d = d.date * seconds_a_day + 54000

-- The end of the range that a rule is compared with; a trail's high has been advanced to the range's.
unfoldable pub probe : Range → Rule → ℕ
probe x (static ge _ _) = x.high
probe x (cost ge _) = x.high
probe x _ = x.low

-- A whole day at one limit: `hi == lo == lv`.
abbrev pub is_flat : Range → Bool
is_flat x = x.high == x.low

abbrev pub flat_for : Rule → Option Limits → Range → Bool
flat_for (static op _ true) lim x = is_flat x && sealed_for op lim x.high
flat_for _ lim x = false

-- Whether the day touches the rule and is not sealed against the order.
unfoldable pub daily_hit : Day → Order → Option Limits → List Lot → Range → Rule → Bool
unfolding probe
daily_hit d o lim lots x rule =
    touched d o.symbol none lots (probe x rule) rule
    && not (is_flat x && locked o.order_type lim x.high)
    && not (flat_for rule lim x)

abbrev pub is_late : Option ℕ → ℕ → Bool
is_late none ts = false
is_late (some created) ts = leb ts created

abbrev pub quality_of : Rule → Quality
quality_of (trail _ _) = degraded
quality_of _ = plain

abbrev pub daily_fill : Bool → Day → Order → ℕ → Quality → Book → Result (Outcome × Book)
daily_fill true d o price quality b = capped_buy d o price (close_ts d) quality b
daily_fill false d o price quality b = inline_sell true d o price (close_ts d) quality b

abbrev pub run_of : Result (Run × Bool) → Result Run
run_of (ok (r, _)) = ok r
run_of (err e) = err e

unfoldable pub daily_timed : Day → Order → Book → Result Run
daily_timed d o b =
    if is_late o.created_at (close_ts d)
    then ok (start_run b open_board)
    else run_of (
        require_close d o.symbol >>= λ p.
        fill_as (is_buy_side o.direction) d o p (close_ts d) b
        >>= after_fill (start_run b open_board))

unfoldable pub daily_ruled : Day → Order → Option Limits → Range → Rule → Book → Result Run
daily_ruled d o lim x rule b =
    if not (is_late o.created_at (close_ts d)) && daily_hit d o lim b.lots x rule
    then run_of (
        require_close d o.symbol >>= λ p.
        daily_fill (is_buy_type o.order_type) d o p (quality_of rule) b
        >>= after_fill (start_run b (ruled rule)))
    else ok (start_run b (ruled rule))

-- The body of the loop; an order with no price to wait for has no meaning in this tier.
unfoldable pub daily_plan : Day → Order → Range → Book → Result Plan → Result Run
daily_plan d o x b (ok (timed at)) = daily_timed d o b
daily_plan d o x b (ok (ruled always)) = err gap
daily_plan d o x b (ok (ruled rule)) =
    daily_ruled d o (lock_limits d o.symbol) x (advance rule x.high) b
daily_plan d o x b (ok open_board) = err gap
daily_plan d o x b (err gap) = err gap
daily_plan d o x b (err decimal) = err decimal
daily_plan d o x b (err below_zero) = err below_zero
daily_plan d o x b (err engine) = ok (record (start_run b open_board) { final = invalid })

unfoldable pub run_daily : Day → Order → Range → Book → Result Run
unfolding daily_plan
run_daily d o x b = daily_plan d o x b (plan_of o (d.hist_high o.symbol) (d.prev_close o.symbol))

unfoldable pub replay_l2 :
    Day → (ℕ → Option Range) → List ℕ → List Entry → Book → Result (List Entry × Book)
replay_l2 d = replay_tier (λ x o. run_daily d o x)
