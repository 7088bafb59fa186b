-- ===== src/Orders/Accepted.antt =====
-- What an accepted order brings (core/orderstore.py against core/eodengine.py).
use ai_agent_stock_trading_s.Prelude.{
  ℕ, ◌≡◌, refl, Bool, true, false, Option, none, some, arith, ◌⊎◌, inl, inr, Bool-cases,
}
use ai_agent_stock_trading_s.Engine.Money.{Side}
use ai_agent_stock_trading_s.Engine.Order.{
  Order, OrderType, Op, Field, missing, unusable, number, Trigger, PriceType,
}
use ai_agent_stock_trading_s.Engine.Result.{Result, ok, err}
use ai_agent_stock_trading_s.Engine.Trigger.{
  trigger_price, trail_rule, time_at, plan_of, order_rule,
}
use ai_agent_stock_trading_s.Orders.{
  Payload, Valid, Checked, accepted, refused, crashed, validate_order_payload, qty_rule_ok,
  canon_trigger, RawTrigger, Kind, TriggerArg, no_trigger, given, price_type_ok, canon_arg,
  check_qty, check_trigger, check_fields, canon_kind, canon_of, canon_legacy, canon_price,
  is_sell_trail, is_time,
}

-- What holds of every accepted order.
pub record IsSound (v : Valid) : Type 0 where
  pub quantity : qty_rule_ok v.symbol v.qty v.direction ≡ true
  pub price : price_type_ok v.trigger v.price_type ≡ true

check_qty-IsSound :
    (symbol : ℕ) (o : OrderType) (d : Side) (p : PriceType) (t : Trigger) (q : Option ℕ) (v : Valid)
    → price_type_ok t p ≡ true
    → check_qty symbol o d p t q ≡ accepted v
    → IsSound v
check_qty-IsSound symbol o d p t none v h e = ground arith
check_qty-IsSound symbol o d p t (some qty) v h e = record {
  quantity = ground arith;
  price = ground arith;
}

pub validate-IsSound : (a : Payload) (v : Valid) → validate_order_payload a ≡ accepted v → IsSound v
unfolding validate_order_payload
validate-IsSound a v e = by_fields a.order_type a.direction a.symbol a.price_type e
  where
    by_trigger :
        (symbol : ℕ) (o : OrderType) (d : Side) (p : PriceType) (c : Checked Trigger)
        → check_trigger symbol o d p a.qty c ≡ accepted v
        → IsSound v
    by_trigger symbol o d p refused e = ground arith
    by_trigger symbol o d p crashed e = ground arith
    by_trigger symbol o d p (accepted t) e = elim (Bool-cases (price_type_ok t p)) [
      | inl good ↦ check_qty-IsSound symbol o d p t a.qty v good (rw good at e)
      | inr bad ↦ ground arith
    ]

    by_fields :
        (o : Option OrderType) (d : Option Side) (s : Option ℕ) (p : Option PriceType)
        → check_fields o d s p a ≡ accepted v
        → IsSound v
    by_fields (some o) (some d) (some s) (some p) e = by_trigger s o d p (canon_arg a.trigger o) e
    by_fields (some o) (some d) (some s) none e = ground arith
    by_fields (some o) (some d) none p e = ground arith
    by_fields (some o) none s p e = ground arith
    by_fields none d s p e = ground arith

abbrev pub is_ok {ℓ} : {A : Type ℓ} → Result A → Bool
is_ok (ok x) = true
is_ok (err e) = false

abbrev pub usable_price : Field → Bool
usable_price unusable = false
usable_price _ = true

-- The price of the caller is a number, or there is none.
abbrev pub is_usable : TriggerArg → Bool
is_usable (given t) = usable_price t.price
is_usable _ = true

abbrev is_trail : Trigger → Bool
is_trail (Trigger.trail drop) = true
is_trail _ = false

abbrev is_time_at : Trigger → Bool
is_time_at (Trigger.time_at at) = true
is_time_at _ = false

-- Which triggers go with which order type in the engine.
abbrev pub fits : OrderType → Trigger → Bool
fits OrderType.sell_open_board t = true
fits OrderType.sell_trail t = is_trail t
fits OrderType.time t = is_time_at t
fits _ t = true

-- How the engine reads a trigger that was accepted for the type.
abbrev IsRead : OrderType → Trigger → PriceType → ℕ → Type 0
IsRead o c p prev =
    ((is_sell_trail o ≡ true) × (is_trail c ≡ true) × (is_ok (trail_rule c none) ≡ true))
    ⊎ ((is_time o ≡ true) × (is_time_at c ≡ true) × (is_ok (time_at c) ≡ true))
    ⊎ ((is_trail c ≡ false)
        × (is_time_at c ≡ false)
        × (is_ok (trigger_price p c (some prev)) ≡ true))

price-IsRead :
    (op : Op) (x : Field) (o : OrderType) (c : Trigger) (p : PriceType) (prev : ℕ)
    → canon_price op x ≡ accepted c
    → usable_price x ≡ true
    → IsRead o c p prev
unfolding trigger_price
price-IsRead op missing o c p prev e u = ground arith
price-IsRead op unusable o c p prev e u = ground arith
price-IsRead op (number z) o c p prev e u = inr (inr (ground arith))

kind-IsRead :
    (t : RawTrigger) (o : OrderType) (c : Trigger) (p : PriceType) (prev : ℕ) (k : Kind)
    → canon_kind t o k ≡ accepted c
    → usable_price t.price ≡ true
    → IsRead o c p prev
unfolding trigger_price trail_rule time_at
kind-IsRead t o c p prev Kind.price_le e u = price-IsRead Op.le t.price o c p prev e u
kind-IsRead t o c p prev Kind.price_ge e u = price-IsRead Op.ge t.price o c p prev e u
kind-IsRead t o c p prev Kind.unimplemented e u = ground arith
kind-IsRead t o c p prev Kind.other e u = ground arith
kind-IsRead t o c p prev Kind.trail e u = ground arith
kind-IsRead t o c p prev Kind.time e u = ground arith
kind-IsRead t o c p prev Kind.pct_chg e u = ground arith
kind-IsRead t o c p prev Kind.vs_cost e u = ground arith

arg-IsRead :
    (arg : TriggerArg) (o : OrderType) (c : Trigger) (p : PriceType) (prev : ℕ)
    → canon_arg arg o ≡ accepted c
    → is_usable arg ≡ true
    → IsRead o c p prev
unfolding canon_trigger trigger_price
arg-IsRead no_trigger o c p prev e u = inr (inr (ground arith))
arg-IsRead TriggerArg.unreadable o c p prev e u = ground arith
arg-IsRead (given t) o c p prev e u = by_kind t.kind e
  where
    by_legacy : (op : Option Op) → canon_legacy op t.price ≡ accepted c → IsRead o c p prev
    by_legacy none e = ground arith
    by_legacy (some op) e = price-IsRead op t.price o c p prev e u

    by_kind : (k : Option Kind) → canon_of t o k ≡ accepted c → IsRead o c p prev
    by_kind none e = by_legacy t.op e
    by_kind (some k) e = kind-IsRead t o c p prev k e u

trail_high : (c : Trigger) (high : Option ℕ) → is_ok (trail_rule c high) ≡ is_ok (trail_rule c none)
unfolding trail_rule
trail_high c high = ground arith

trail_rule_other :
    (c : Trigger) (high : Option ℕ) → is_trail c ≡ false → is_ok (trail_rule c high) ≡ false
unfolding trail_rule
trail_rule_other c high h = ground arith

time_at_other : (c : Trigger) → is_time_at c ≡ false → is_ok (time_at c) ≡ false
unfolding time_at
time_at_other c h = ground arith

plan_by_type :
    (ty : OrderType) (o : Order) (high : Option ℕ) (prev : ℕ)
    → o.order_type ≡ ty
    → IsRead ty o.trigger o.price_type prev
    → is_ok (plan_of o high (some prev)) ≡ fits ty o.trigger
unfolding plan_of order_rule
plan_by_type ty o high prev e h =
    ground
      (arith, trail_high o.trigger high, trail_rule_other o.trigger high, time_at_other o.trigger)

-- The engine reads the trigger that the order check accepted, for a symbol with a previous close
-- and a price that is a number or absent, exactly if the type fits it: sell_trail wants a trail
-- trigger, time a time trigger, any other type takes every accepted trigger.
pub accepted_readable :
    (o : Order) (arg : TriggerArg) (high : Option ℕ) (prev : ℕ)
    → canon_arg arg o.order_type ≡ accepted o.trigger
    → is_usable arg ≡ true
    → is_ok (plan_of o high (some prev)) ≡ fits o.order_type o.trigger
accepted_readable o arg high prev e u =
    plan_by_type o.order_type o high prev refl
      (arg-IsRead arg o.order_type o.trigger o.price_type prev e u)
