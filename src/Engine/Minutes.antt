-- ===== src/Engine/Minutes.antt =====
-- The L1 loop of `settle_account` in core/eodengine.py: an order against one symbol's minutes, filled
-- at the price that it waits for when a minute touches it and the one before did not.
-- The price is cut to 10⁻⁸ yuan, which the code's Decimal carries further. A trigger may wait for a
-- price below zero, since `orderstore` accepts one; where the code fills at it, the model ends with
-- `below_zero`.
pub mod Keeps
pub mod Exits
use ai_agent_stock_trading_s.Prelude.{
  ℕ, suc, ◌+◌, ◌-◌, ◌*◌, ◌/◌, ◌%◌, max, min, Bool, true, false, not, ◌&&◌, ◌||◌, Option, none, some,
  List, [], ◌∷◌, map, ℤ, pos, sub_ℕ, pos_part, neg_part, ltb, leb, ◌==◌, if◌then◌else◌,
}
use ai_agent_stock_trading_s.Engine.Result.{
  Result, ok, err, gap, engine, decimal, below_zero, ◌>>=◌,
}
use ai_agent_stock_trading_s.Engine.Money.{Limits}
use ai_agent_stock_trading_s.Engine.Order.{Order, le, ge, seconds_a_day}
use ai_agent_stock_trading_s.Engine.Trigger.{
  Rule, always, static, cost, trail, Plan, open_board, timed, ruled, plan_of, is_sell_trail,
}
use ai_agent_stock_trading_s.Engine.Book.{
  Book, Day, Lot, Quality, plain, degraded, close_minute_fill, sellable, require_close, or_else,
  Outcome, done, insufficient,
}
use ai_agent_stock_trading_s.Engine.Tier.{Run, filled, invalid, start_run, Entry, replay_tier}
use ai_agent_stock_trading_s.Engine.Replay.{
  Sample, scan, touched, sealed_for, locked, advance, is_buy_type, is_after, lock_limits,
  cost_weight,
}
use ai_agent_stock_trading_s.Engine.Inline.{inline_sell, inline_buy}

-- A minute as the caller gives it, and as `_norm_l1` makes it; `open` is never read.
pub data Bar : Type 0 where
  close_bar : ℕ → ℕ → Bar
  full_bar : ℕ → ℕ → ℕ → ℕ → ℕ → Bar

pub record Minute : Type 0 where
  pub ts : ℕ
  pub high : Option ℕ
  pub low : Option ℕ
  pub close : ℕ

unfoldable pub minute_of : Bar → Minute
minute_of (close_bar ts close) = record { ts = ts; high = none; low = none; close = close }
minute_of (full_bar ts opening high low close) = record {
  ts = ts;
  high = some high;
  low = some low;
  close = close;
}

unfoldable pub insert_minute : Minute → List Minute → List Minute
insert_minute m [] = m ∷ []
insert_minute m (x ∷ xs) = if leb m.ts x.ts then m ∷ x ∷ xs else x ∷ insert_minute m xs

-- `_norm_l1`; the sort keeps the order of bars of the same minute.
unfoldable pub norm_l1 : List Bar → List Minute
unfolding minute_of insert_minute
norm_l1 [] = []
norm_l1 (b ∷ bs) = insert_minute (minute_of b) (norm_l1 bs)

-- The end of the minute that a rule is compared with beside the close.
unfoldable pub reach : Minute → Rule → Option ℕ
reach m (static ge _ _) = m.high
reach m (cost ge _) = m.high
reach m _ = m.low

abbrev pub touched_opt : Day → ℕ → List Lot → Rule → Option ℕ → Bool
touched_opt d s lots rule none = false
touched_opt d s lots rule (some p) = touched d s none lots p rule

unfoldable pub minute_touched : Day → ℕ → List Lot → Minute → Rule → Bool
unfolding reach
minute_touched d s lots m (trail drop ref_high) =
    touched d s none lots (or_else m.low m.close) (trail drop ref_high)
minute_touched d s lots m rule =
    touched d s none lots m.close rule || touched_opt d s lots rule (reach m rule)

-- A whole minute at one price that `test` holds of.
abbrev pub whole : (ℕ → Bool) → Option ℕ → Option ℕ → Bool
whole test (some high) (some low) = test high && test low
whole test _ _ = false

abbrev pub board_sealed : Rule → Option Limits → Minute → Bool
board_sealed (static op _ true) lim m = whole (sealed_for op lim) m.high m.low
board_sealed _ lim m = false

-- `touched` at the end of its computation.
unfoldable pub minute_hit : Day → Order → Option Limits → List Lot → Minute → Rule → Bool
minute_hit d o lim lots m rule =
    minute_touched d o.symbol lots m rule
    && not (whole (locked o.order_type lim) m.high m.low)
    && not (board_sealed rule lim m)

-- `cost_trigger_price`, cut to 10⁻⁸ yuan; a fall of more than 100 % gives a price below zero.
unfoldable pub cost_price : ℕ → ℕ → ℕ → ℕ → ℤ
cost_price w t plus minus =
    sub_ℕ ((w * (10000 + plus) - w * minus) / (t * 10000))
      ((w * minus - w * (10000 + plus)) / (t * 10000))

-- X: the price that the rule waits for.
unfoldable pub wanted : Day → ℕ → List Lot → Rule → ℤ
unfolding cost_price
wanted d s lots always = pos 0
wanted d s lots (static op trig _) = trig
wanted d s lots (cost op pct) =
    cost_price (cost_weight s d.date lots) (sellable s d.date lots) (pos_part pct) (neg_part pct)
wanted d s lots (trail drop ref_high) = pos (ref_high * (10000 - drop) / 10000)

-- A price to fill at: the fills of the model have none below zero.
abbrev pub not_below_zero : ℤ → Result ℕ
not_below_zero x = if ltb 0 (neg_part x) then err below_zero else ok (pos_part x)

abbrev pub is_close_minute : ℕ → Bool
is_close_minute ts = ts % seconds_a_day == 54000

-- The closing minute fills at the official close where that is worse for the account.
abbrev pub worse : Bool → ℤ → ℕ → Result ℕ
worse true x close = ok (max (pos_part x) close)
worse false x close = not_below_zero x >>= λ n. ok (min n close)

unfoldable pub fire_price : Day → Order → ℤ → ℕ → Result ℕ
unfolding require_close
fire_price d o x ts =
    if is_close_minute ts
    then (require_close d o.symbol >>= worse (is_buy_type o.order_type) x)
    else not_below_zero x

unfoldable pub fire_quality : Order → ℕ → Quality
fire_quality o ts =
    if is_close_minute ts
    then close_minute_fill
    else if is_sell_trail o.order_type
    then degraded
    else plain

abbrev pub minute_fill : Bool → Day → Order → ℕ → ℕ → Quality → Book → Result (Outcome × Book)
minute_fill true d o price ts quality b = ok (inline_buy d o price ts quality b)
minute_fill false d o price ts quality b = inline_sell false d o price ts quality b

-- The loop's own variables beside the order's run.
pub record Watch : Type 0 where
  pub run : Run
  pub rule : Rule
  pub touched_prev : Bool
  pub prev_failed : Bool
  pub seen_after : Bool

-- The last lines of the loop's body.
abbrev pub carry : Bool → Bool → Bool → Run → Rule → Watch → Watch
carry hit after failed run rule w = record {
  run = run;
  rule = rule;
  touched_prev = hit;
  prev_failed = hit && failed;
  seen_after = w.seen_after || after;
}

-- The state after a fill was tried; the flag is `break`.
abbrev pub after_fire : Rule → Watch → Outcome × Book → Result (Watch × Bool)
after_fire rule w (done, b) =
    ok (record w { run = record w.run { book = b; final = filled } }, true)
after_fire rule w (insufficient, b) =
    ok (carry true true true (record w.run { book = b; ins = suc w.run.ins }) rule w, false)

-- Whether the code tries a fill at a minute.
abbrev pub is_due : Bool → Bool → Watch → Bool
is_due after hit w = after && hit && (not w.seen_after || not w.touched_prev || w.prev_failed)

unfoldable pub fire : Day → Order → Minute → Rule → Watch → Result (Watch × Bool)
unfolding wanted fire_price fire_quality
fire d o m rule w = do
  price ← fire_price d o (wanted d o.symbol w.run.book.lots rule) m.ts
  filling ← minute_fill (is_buy_type o.order_type) d o price m.ts (fire_quality o m.ts) w.run.book
  after_fire rule w filling

unfoldable pub watch : Day → Order → Option Limits → Minute → Watch → Result (Watch × Bool)
watch d o lim m w =
    let rule = advance w.rule (or_else m.high m.close) in
    let hit = minute_hit d o lim w.run.book.lots m rule in
    let after = is_after o.created_at m.ts in
    if is_due after hit w
    then fire d o m rule w
    else ok (carry hit after w.prev_failed w.run rule w, false)

unfoldable pub scan_minutes : Day → Order → Option Limits → List Minute → Watch → Result Watch
scan_minutes d o lim [] w = ok w
scan_minutes d o lim (m ∷ ms) w = elim (watch d o lim m w) [
  | err e ↦ err e
  | ok (w', true) ↦ ok w'
  | ok (w', false) ↦ scan_minutes d o lim ms w'
]

abbrev pub start_watch : Book → Rule → Watch
start_watch b rule = record {
  run = start_run b (ruled rule);
  rule = rule;
  touched_prev = false;
  prev_failed = false;
  seen_after = false;
}

abbrev pub sample_of : Minute → Sample
sample_of m = record { ts = m.ts; price = m.close }

abbrev pub samples_of : List Minute → List Sample
samples_of [] = []
samples_of (m ∷ ms) = sample_of m ∷ samples_of ms

-- The body of the loop over the orders. A timed order looks at the closes alone, one sample after
-- another, as in the L0 loop.
unfoldable pub minutes_plan : Day → Order → List Minute → Book → Result Plan → Result Run
minutes_plan d o ms b (ok (timed at)) = scan d o none (samples_of ms) (start_run b (timed at))
minutes_plan d o ms b (ok (ruled always)) = err gap
minutes_plan d o ms b (ok (ruled rule)) =
    scan_minutes d o (lock_limits d o.symbol) ms (start_watch b rule) >>= λ w. ok w.run
minutes_plan d o ms b (ok open_board) = err gap
minutes_plan d o ms b (err gap) = err gap
minutes_plan d o ms b (err decimal) = err decimal
minutes_plan d o ms b (err below_zero) = err below_zero
minutes_plan d o ms b (err engine) = ok (record (start_run b open_board) { final = invalid })

unfoldable pub run_minutes : Day → Order → List Minute → Book → Result Run
unfolding minutes_plan
run_minutes d o ms b =
    minutes_plan d o ms b (plan_of o (d.hist_high o.symbol) (d.prev_close o.symbol))

unfoldable pub replay_l1 :
    Day → (ℕ → Option (List Bar)) → List ℕ → List Entry → Book → Result (List Entry × Book)
unfolding norm_l1
replay_l1 d = replay_tier (λ bars o. run_minutes d o (norm_l1 bars))
