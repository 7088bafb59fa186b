-- ===== src/Engine/CloseOut.antt =====
-- The end of the orders' day in `settle_account` of core/eodengine.py: what is written back to each
-- row of condition_orders, and the mark on trades whose price feed ended off the official close.
pub mod Rows
use ai_agent_stock_trading_s.Prelude.{
  ℕ, ◌+◌, ◌-◌, ◌*◌, Bool, true, false, not, ◌&&◌, ◌||◌, Option, none, some, List, [], ◌∷◌, ltb,
  ◌==◌, if◌then◌else◌,
}
use ai_agent_stock_trading_s.Engine.Result.{Result, ok, err, engine, ◌>>=◌, or_raise}
use ai_agent_stock_trading_s.Engine.Order.{Order, Status, Validity, today, trigger_schema, date_of}
use ai_agent_stock_trading_s.Engine.Book.{Day, Trade, Quality, plain, degraded, require_close}
use ai_agent_stock_trading_s.Engine.Tier.{Entry, Final, waiting, filled, invalid, is_active}
use ai_agent_stock_trading_s.Engine.Replay.{Sample}
use ai_agent_stock_trading_s.Engine.Minutes.{Minute, norm_l1}
use ai_agent_stock_trading_s.Engine.Prologue.{
  Feeds, Feed, l0_feed, l1_feed, l2_feed, feed_kind, lookup,
}

abbrev pub is_today_validity : Validity → Bool
is_today_validity today = true
is_today_validity _ = false

abbrev pub is_today : ℕ → Option ℕ → Bool
is_today date none = true
is_today date (some created) = date_of created == date

-- One pass of the loop over the active orders, after the circuit breaker's count was written.
abbrev pub close_waiting : Bool → Bool → ℕ → ℕ → Order → Order
close_waiting true true date ins o = record o {
  status = Status.expired;
  settled_on = some date;
  insufficient_events = ins;
}
close_waiting false true date ins o = record o { insufficient_events = ins }
close_waiting _ false date ins o = o

abbrev pub close_final : Final → ℕ → ℕ → Order → Order
close_final invalid date ins o = record o {
  status = Status.invalid;
  invalid_reason = trigger_schema;
  settled_on = some date;
}
close_final filled date ins o = record o {
  status = Status.filled;
  settled_on = some date;
  insufficient_events = ins;
}
close_final waiting date ins o =
    close_waiting (is_today_validity o.validity) (is_today date o.created_at) date ins o

unfoldable pub close_order : ℕ → Entry → Order
close_order date e =
    let o = record e.order { circuit_break_events = e.cct } in
    if is_active o.status
    then close_final e.final date e.ins o
    else record o { settled_on = some date }

abbrev pub close_orders : ℕ → List Entry → List Order
close_orders date [] = []
close_orders date (e ∷ es) = close_order date e ∷ close_orders date es

-- `feed_last_price`
abbrev last_sample : Option (List Sample) → Option ℕ
last_sample none = none
last_sample (some []) = none
last_sample (some (x ∷ [])) = some x.price
last_sample (some (x ∷ xs)) = last_sample (some xs)

abbrev last_close : List Minute → Option ℕ
last_close [] = none
last_close (m ∷ []) = some m.close
last_close (m ∷ ms) = last_close ms

unfoldable pub feed_last_price : Day → Feeds → ℕ → Result ℕ
unfolding norm_l1 require_close
feed_last_price d f s = elim (feed_kind f s) [
  | l0_feed ↦ or_raise (last_sample (lookup s f.l0)) engine
  | l1_feed ↦
      (or_raise (lookup s f.l1) engine >>= λ bars. or_raise (last_close (norm_l1 bars)) engine)
  | l2_feed ↦ require_close d s
]

abbrev pub is_plain : Quality → Bool
is_plain plain = true
is_plain _ = false

-- `abs(lastp - cl) / cl > _CLOSE_TOL`
abbrev pub is_off : ℕ → ℕ → Bool
is_off close last = ltb (3 * close) (((last - close) + (close - last)) * 1000)

abbrev pub aligned : ℕ → ℕ → Trade → Trade
aligned close last t =
    if ltb 0 close && is_plain t.quality && is_off close last
    then record t { quality = degraded }
    else t

-- The loop over the trades of the day.
unfoldable pub align_trades : Day → Feeds → List Trade → Result (List Trade)
unfolding feed_last_price
align_trades d f [] = ok []
align_trades d f (t ∷ ts) =
    if t.settle_date == d.date
    then (require_close d t.symbol >>= λ close. feed_last_price d f t.symbol >>= λ last.
        align_trades d f ts >>= λ rest. ok (aligned close last t ∷ rest))
    else (align_trades d f ts >>= λ rest. ok (t ∷ rest))
