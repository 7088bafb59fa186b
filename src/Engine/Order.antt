-- ===== src/Engine/Order.antt =====
-- Condition orders as core/eodengine.py reads them from the table condition_orders.
-- Symbols and ids are only compared, so they are numbers (a symbol the number its six digits spell);
-- an instant is the number of seconds of the local wall clock, whose ISO text sorts the same way.
use ai_agent_stock_trading_s.Prelude.{ℕ, ◌+◌, ◌*◌, ◌/◌, ◌%◌, Bool, Option, ℤ}
use ai_agent_stock_trading_s.Engine.Money.{Side}

pub data OrderType : Type 0 where
  buy sell_take_profit sell_stop sell_trail sell_open_board time : OrderType
  buy_seal_confirm basket combo : OrderType

pub data Op : Type 0 where
  le ge : Op

-- A field of JSON: missing or null, present but no number, or a number.
pub data Field : Type 0 where
  missing unusable : Field
  number : ℤ → Field

-- The trigger's JSON: absent, not JSON, a `kind` with its fields, or the legacy op and price. An op,
-- a percentage or a time that is missing or not usable is `none`. Percentages are in hundredths.
pub data Trigger : Type 0 where
  absent malformed : Trigger
  price_kind : Op → Field → Trigger
  pct_chg : Option Op → Option ℤ → Bool → Trigger
  vs_cost : Option Op → Option ℤ → Trigger
  trail : Field → Trigger
  time_at : Option ℕ → Trigger
  unimplemented other_kind : Trigger
  legacy : Option Op → Field → Trigger

pub data PriceType : Type 0 where
  market limit : PriceType

pub data Validity : Type 0 where
  today until long : Validity

pub data Status : Type 0 where
  active filled expired invalid : Status

pub data InvalidReason : Type 0 where
  nothing qty_rule restricted_buy delisted basis_requires_l0 trigger_schema : InvalidReason

-- `_EXIT_REASONS` and any other text.
pub data Reason : Type 0 where
  take_profit stop_loss rebalance voluntary forced clear_out other : Reason

pub record Order : Type 0 where
  pub id : ℕ
  pub order_type : OrderType
  pub direction : Side
  pub is_single : Bool
  pub is_replay_l0 : Bool
  pub symbol : ℕ
  pub trigger : Trigger
  pub qty : ℕ
  pub price_type : PriceType
  pub validity : Validity
  pub status : Status
  pub invalid_reason : InvalidReason
  pub insufficient_events : ℕ
  pub circuit_break_events : ℕ
  pub created_at : Option ℕ
  pub reason : Reason
  pub settled_on : Option ℕ

abbrev pub seconds_a_day : ℕ
seconds_a_day = 86400

-- `ts[:10]`, as a number of days.
abbrev pub date_of : ℕ → ℕ
date_of ts = ts / seconds_a_day

-- `ts[11:16]`; the text HH:MM sorts as the number HHMM.
abbrev pub hhmm : ℕ → ℕ
hhmm ts = ts % seconds_a_day / 3600 * 100 + ts % 3600 / 60
