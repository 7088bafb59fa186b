-- ===== src/Engine/Trigger.antt =====
-- The parsing of a trigger in core/eodengine.py: `_kind_price`, `_trigger_price`, `_order_rule`,
-- `_time_at`.
use ai_agent_stock_trading_s.Prelude.{
  ℕ, ◌+◌, ◌*◌, Bool, true, false, Option, none, some, ℤ, pos_part, neg_part, sub_ℕ, ◌==◌,
  if◌then◌else◌,
}
use ai_agent_stock_trading_s.Engine.Result.{
  Result, ok, err, gap, engine, decimal, ◌>>=◌, ◌>>◌, raise_if, or_raise,
}
use ai_agent_stock_trading_s.Engine.Money.{half_up_ℤ, fen}
use ai_agent_stock_trading_s.Engine.Order.{
  Order, OrderType, Op, Field, missing, unusable, number, Trigger, PriceType, market, limit,
}

-- What an order waits for. `static` carries the price and `not_limit`, `cost` the percentage over
-- the holding's cost, `trail` the drop and the highest price so far.
pub data Rule : Type 0 where
  always : Rule
  static : Op → ℤ → Bool → Rule
  cost : Op → ℤ → Rule
  trail : ℕ → ℕ → Rule

abbrev pub is_zero_ℤ : ℤ → Bool
is_zero_ℤ z = pos_part z + neg_part z == 0

-- `(prev * (100 + pct) / 100).quantize(_MONEY, ROUND_HALF_UP)`
unfoldable pub pct_price : ℕ → ℤ → ℤ
unfolding half_up_ℤ
pct_price prev pct =
    let cents =
      half_up_ℤ (sub_ℕ (prev * (10000 + pos_part pct)) (prev * neg_part pct)) (10000 * fen) in
    sub_ℕ (pos_part cents * fen) (neg_part cents * fen)

-- `_D(price)` of a price that must be there; what is no number raises an error of the decimal module.
abbrev pub price_of : Field → Result ℤ
price_of missing = err engine
price_of unusable = err decimal
price_of (number p) = ok p

-- The branches of `_kind_price`; a trigger with no `kind` does not come here.
unfoldable pub kind_price : Trigger → Option ℕ → Result Rule
unfolding pct_price
kind_price (Trigger.price_kind op price) prev = do p ← price_of price; ok (static op p false)
kind_price (Trigger.pct_chg op pct not_limit) prev = do
  o ← or_raise op engine
  k ← or_raise pct engine
  raise_if (is_zero_ℤ k) engine
  base ← or_raise prev gap
  ok (static o (pct_price base k) not_limit)
kind_price (Trigger.vs_cost op pct) prev = do
  o ← or_raise op engine
  k ← or_raise pct engine
  raise_if (is_zero_ℤ k) engine
  ok (cost o k)
kind_price (Trigger.time_at at) prev = err gap
kind_price Trigger.unimplemented prev = err gap
kind_price _ prev = err engine

-- The legacy fields: a market order that lacks one is triggered at once.
unfoldable pub legacy_price : PriceType → Option Op → Field → Result Rule
legacy_price kind (some op) (number price) = ok (static op price false)
legacy_price kind (some op) unusable = err decimal
legacy_price market _ _ = ok always
legacy_price limit _ _ = err engine

unfoldable pub trigger_price : PriceType → Trigger → Option ℕ → Result Rule
unfolding kind_price legacy_price
trigger_price kind Trigger.absent prev = ok always
trigger_price kind (Trigger.legacy op price) prev = legacy_price kind op price
trigger_price kind t prev = kind_price t prev

-- `sell_trail`: the drop must be positive; the reference starts at the highest earlier price, which
-- is 0 where none is given.
abbrev pub or_zero : Option ℕ → ℕ
or_zero none = 0
or_zero (some n) = n

unfoldable pub trail_rule : Trigger → Option ℕ → Result Rule
trail_rule (Trigger.trail missing) high = err engine
trail_rule (Trigger.trail unusable) high = err decimal
trail_rule (Trigger.trail (number drop)) high =
    if pos_part drop == 0 then err engine else ok (trail (pos_part drop) (or_zero high))
trail_rule _ high = err engine

abbrev pub is_sell_trail : OrderType → Bool
is_sell_trail OrderType.sell_trail = true
is_sell_trail _ = false

unfoldable pub order_rule : Order → Option ℕ → Option ℕ → Result Rule
unfolding trail_rule trigger_price
order_rule o high prev =
    if is_sell_trail o.order_type
    then trail_rule o.trigger high
    else trigger_price o.price_type o.trigger prev

-- `_time_at`; what is not HH:MM is `none` there.
unfoldable pub time_at : Trigger → Result ℕ
time_at (Trigger.time_at at) = or_raise at engine
time_at _ = err engine

-- How the replay treats an order, by its type.
pub data Plan : Type 0 where
  open_board : Plan
  timed : ℕ → Plan
  ruled : Rule → Plan

abbrev ruled_of : Result Rule → Result Plan
ruled_of (ok r) = ok (ruled r)
ruled_of (err e) = err e

abbrev timed_of : Result ℕ → Result Plan
timed_of (ok at) = ok (timed at)
timed_of (err e) = err e

abbrev plan_by : OrderType → Order → Option ℕ → Option ℕ → Result Plan
plan_by OrderType.sell_open_board o high prev = ok open_board
plan_by OrderType.time o high prev = timed_of (time_at o.trigger)
plan_by _ o high prev = ruled_of (order_rule o high prev)

unfoldable pub plan_of : Order → Option ℕ → Option ℕ → Result Plan
unfolding order_rule time_at
plan_of o high prev = plan_by o.order_type o high prev
