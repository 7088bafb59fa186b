-- ===== src/Orders.antt =====
-- The checks that an order passes before it is stored, core/orderstore.py: `qty_rule_ok`,
-- `_canon_trigger`, `validate_order_payload`.
pub mod Accepted
use ai_agent_stock_trading_s.Prelude.{
  ℕ, ◌+◌, ◌/◌, ◌%◌, Bool, true, false, not, ◌&&◌, ◌||◌, Option, none, some, ℤ, pos_part, neg_part,
  ltb, leb, ◌==◌, if◌then◌else◌,
}
use ai_agent_stock_trading_s.Engine.Money.{Side}
use ai_agent_stock_trading_s.Engine.Order.{
  OrderType, Op, Field, missing, unusable, number, Trigger, PriceType,
}
use ai_agent_stock_trading_s.Engine.Trigger.{is_zero_ℤ}

-- `symbol.startswith("688")`
abbrev is_star : ℕ → Bool
is_star symbol = symbol / 1000 == 688

unfoldable pub qty_rule_ok : ℕ → ℕ → Side → Bool
qty_rule_ok symbol qty Side.sell = ltb 0 qty
qty_rule_ok symbol qty Side.buy =
    if is_star symbol then leb 200 qty else ltb 0 qty && qty % 100 == 0

pub data Kind : Type 0 where
  trail price_le price_ge pct_chg vs_cost time unimplemented other : Kind

-- The caller's trigger. `op` is `none` if it is neither le nor ge, `not_limit` if it is no boolean
-- (a missing one is false), `at` if it is not of the form HH:MM.
pub record RawTrigger : Type 0 where
  pub kind : Option Kind
  pub op : Option Op
  pub price : Field
  pub pct : Field
  pub drop_pct : Field
  pub not_limit : Option Bool
  pub at : Option ℕ

-- `refused` is OrderError; `crashed` any other error of the call.
pub data Checked (A : Type 0) : Type 0 where
  accepted : A → Checked A
  refused crashed : Checked A

abbrev pub is_sell_trail : OrderType → Bool
is_sell_trail OrderType.sell_trail = true
is_sell_trail _ = false

abbrev pub is_time : OrderType → Bool
is_time OrderType.time = true
is_time _ = false

-- The price as the engine reads it back from the stored JSON.
abbrev pub canon_price : Op → Field → Checked Trigger
canon_price op missing = refused
canon_price op unusable = accepted (Trigger.price_kind op unusable)
canon_price op (number p) = accepted (Trigger.price_kind op (number p))

abbrev pub parse_pct : Field → (ℤ → Checked Trigger) → Checked Trigger
parse_pct (number k) next = if is_zero_ℤ k then refused else next k
parse_pct _ next = refused

abbrev pub canon_trail : Field → Checked Trigger
canon_trail (number k) = if pos_part k == 0 then refused else accepted (Trigger.trail (number k))
canon_trail _ = refused

abbrev pub canon_pct_chg : Option Op → Field → Option Bool → Checked Trigger
canon_pct_chg none pct not_limit = refused
canon_pct_chg (some op) pct none = refused
canon_pct_chg (some op) pct (some not_limit) =
    parse_pct pct (λ k. accepted (Trigger.pct_chg (some op) (some k) not_limit))

abbrev pub canon_vs_cost : Option Op → Field → Checked Trigger
canon_vs_cost none pct = refused
canon_vs_cost (some op) pct = parse_pct pct (λ k. accepted (Trigger.vs_cost (some op) (some k)))

abbrev pub canon_time : Option ℕ → Checked Trigger
canon_time none = refused
canon_time (some at) = accepted (Trigger.time_at (some at))

abbrev pub canon_legacy : Option Op → Field → Checked Trigger
canon_legacy none price = refused
canon_legacy (some op) price = canon_price op price

abbrev pub canon_kind : RawTrigger → OrderType → Kind → Checked Trigger
canon_kind t o trail = if is_sell_trail o then canon_trail t.drop_pct else refused
canon_kind t o price_le = canon_price Op.le t.price
canon_kind t o price_ge = canon_price Op.ge t.price
canon_kind t o pct_chg = canon_pct_chg t.op t.pct t.not_limit
canon_kind t o vs_cost = canon_vs_cost t.op t.pct
canon_kind t o time = if is_time o then canon_time t.at else refused
canon_kind t o unimplemented = refused
canon_kind t o other = refused

abbrev pub canon_of : RawTrigger → OrderType → Option Kind → Checked Trigger
canon_of t o none = canon_legacy t.op t.price
canon_of t o (some k) = canon_kind t o k

unfoldable pub canon_trigger : RawTrigger → OrderType → Checked Trigger
canon_trigger t o = canon_of t o t.kind

-- The trigger argument: none or empty, text that is no JSON object, or an object.
pub data TriggerArg : Type 0 where
  no_trigger unreadable : TriggerArg
  given : RawTrigger → TriggerArg

-- The arguments; what is not of the accepted set is `none`, and so is a symbol that is not six digits.
-- A quantity that is negative is 0 here: both are refused.
pub record Payload : Type 0 where
  pub symbol : Option ℕ
  pub order_type : Option OrderType
  pub direction : Option Side
  pub qty : Option ℕ
  pub trigger : TriggerArg
  pub price_type : Option PriceType

pub record Valid : Type 0 where
  pub symbol : ℕ
  pub order_type : OrderType
  pub direction : Side
  pub qty : ℕ
  pub trigger : Trigger
  pub price_type : PriceType

abbrev pub is_limit : PriceType → Bool
is_limit PriceType.limit = true
is_limit PriceType.market = false

-- `trail` and `time` triggers go with a market price, and a limit price with a trigger.
abbrev price_type_ok : Trigger → PriceType → Bool
price_type_ok (Trigger.trail drop) p = not (is_limit p)
price_type_ok (Trigger.time_at at) p = not (is_limit p)
price_type_ok Trigger.absent p = not (is_limit p)
price_type_ok _ p = true

abbrev pub canon_arg : TriggerArg → OrderType → Checked Trigger
canon_arg no_trigger o = accepted Trigger.absent
canon_arg unreadable o = crashed
canon_arg (given t) o = canon_trigger t o

abbrev pub check_qty : ℕ → OrderType → Side → PriceType → Trigger → Option ℕ → Checked Valid
check_qty symbol o d p t none = refused
check_qty symbol o d p t (some qty) =
    if qty == 0
    then refused
    else if qty_rule_ok symbol qty d
    then accepted (record {
      symbol = symbol;
      order_type = o;
      direction = d;
      qty = qty;
      trigger = t;
      price_type = p;
    })
    else refused

abbrev pub check_trigger :
    ℕ → OrderType → Side → PriceType → Option ℕ → Checked Trigger → Checked Valid
check_trigger symbol o d p qty refused = refused
check_trigger symbol o d p qty crashed = crashed
check_trigger symbol o d p qty (accepted t) =
    if price_type_ok t p then check_qty symbol o d p t qty else refused

abbrev pub check_fields :
    Option OrderType → Option Side → Option ℕ → Option PriceType → Payload → Checked Valid
check_fields (some o) (some d) (some symbol) (some p) a =
    check_trigger symbol o d p a.qty (canon_arg a.trigger o)
check_fields _ _ _ _ a = refused

unfoldable pub validate_order_payload : Payload → Checked Valid
validate_order_payload a = check_fields a.order_type a.direction a.symbol a.price_type a
