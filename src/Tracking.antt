-- ===== src/Tracking.antt =====
-- The tracking of sold shares, `settle_exits` of core/eodengine.py.
-- Prices are in 10⁻⁸ yuan, the price of a sale in fen, returns in 10⁻⁴ percent. An exception that is
-- not raised by the code itself, here a division by a price of zero, is `engine` too.
pub mod Rows
pub mod Signals
use ai_agent_stock_trading_s.Prelude.{
  ℕ, suc, ◌+◌, ◌*◌, max, min, Bool, true, false, not, ◌&&◌, ◌||◌, Option, none, some, List, [], ◌∷◌,
  ℤ, pos, negsuc, sub_ℕ, ◌-ℤ◌, ltb_ℤ, leb_ℤ, ltb, leb, ◌==◌, if◌then◌else◌,
}
use ai_agent_stock_trading_s.Engine.Result.{Result, ok, err, engine, ◌>>=◌}
use ai_agent_stock_trading_s.Engine.Money.{fen, half_up_ℤ}

pub data TrackStatus : Type 0 where
  tracking done : TrackStatus

pub data Conclusion : Type 0 where
  undecided too_early right even : Conclusion

-- A row of exit_trackings. `is_stale` and `no_bench` are the marks in its `quality`.
pub record Tracking : Type 0 where
  pub symbol : ℕ
  pub sell_date : ℕ
  pub sell_price : ℕ
  pub bench_sell_close : ℕ
  pub status : TrackStatus
  pub sessions_done : ℕ
  pub last_seen : Option ℕ
  pub period_high : ℕ
  pub period_low : ℕ
  pub last_close : ℕ
  pub last_bench : ℕ
  pub track_end_date : Option ℕ
  pub fwd_return : ℤ
  pub bench_return : ℤ
  pub excess : ℤ
  pub conclusion : Conclusion
  pub is_loss : Bool
  pub is_stale : Bool
  pub no_bench : Bool

-- What the market's data of a day say of a symbol.
pub record Quote : Type 0 where
  pub close : Option ℕ
  pub high : Option ℕ
  pub low : Option ℕ

abbrev pub no_quote : Quote
no_quote = record { close = none; high = none; low = none }

abbrev pub or_no_quote : Option Quote → Quote
or_no_quote none = no_quote
or_no_quote (some q) = q

-- The day's extremes: the close where one of them is missing.
abbrev pub extremes : Quote → Option ℕ → Option ℕ → Option ℕ × Option ℕ
extremes q (some high) (some low) = (some high, some low)
extremes q _ _ = (q.close, q.close)

-- Rows that the loop passes over: no price at all, or a day that was seen.
abbrev pub has_price : Option ℕ → Option ℕ → Bool
has_price none none = false
has_price _ _ = true

abbrev pub is_new : Option ℕ → ℕ → Bool
is_new none date = true
is_new (some seen) date = ltb seen date

abbrev max_opt : ℕ → Option ℕ → ℕ
max_opt n none = n
max_opt n (some m) = max n m

abbrev min_opt : ℕ → Option ℕ → ℕ
min_opt n none = n
min_opt n (some m) = min n m

-- The statements before the end of the window is tested.
abbrev pub with_close : Quote → Option ℕ → Tracking → Tracking
with_close q none t = t
with_close q (some close) t =
    let (high, low) = extremes q q.high q.low in
    record t {
      period_high = max_opt t.period_high high;
      period_low = min_opt t.period_low low;
      last_close = close;
    }

abbrev pub with_bench : Option ℕ → Tracking → Tracking
with_bench none t = t
with_bench (some b) t = record t { last_bench = b }

unfoldable pub seen_on : ℕ → Quote → Option ℕ → Tracking → Tracking
seen_on date q bench t =
    with_bench bench (
      with_close q q.close
        (record t { sessions_done = suc t.sessions_done; last_seen = some date }))

-- (b - a) / a × 100, rounded to 10⁻⁴.
unfoldable pub return_of : ℕ → ℕ → ℤ
unfolding half_up_ℤ
return_of a b = half_up_ℤ (sub_ℕ (b * 1000000) (a * 1000000)) a

abbrev pub positive : ℕ → Option ℕ
positive n = if n == 0 then none else some n

-- The price of the last day: its close, or the latest one that was seen.
abbrev pub end_price : Option ℕ → ℕ → Option (ℕ × Bool)
end_price (some close) last = some (close, false)
end_price none last = if last == 0 then none else some (last, true)

abbrev pub bench_now : Option ℕ → ℕ → Option ℕ
bench_now (some b) last = positive b
bench_now none last = positive last

abbrev pub bench_of : ℕ → Option ℕ → Option ℤ
bench_of base none = none
bench_of base (some now) = if base == 0 then none else some (return_of base now)

-- `_EXIT_OK_PCT` and `_EXIT_EARLY_PCT`
abbrev pub exit_ok : ℤ
exit_ok = negsuc 29999

abbrev pub exit_early : ℤ
exit_early = pos 50000

abbrev pub either : (ℤ → Bool) → ℤ → Option ℤ → Bool
either test fwd none = test fwd
either test fwd (some excess) = test fwd || test excess

unfoldable pub conclude : ℤ → Option ℤ → Conclusion
conclude fwd excess =
    if either (leb_ℤ exit_early) fwd excess
    then too_early
    else if either (λ z. leb_ℤ z exit_ok) fwd excess
    then right
    else even

abbrev excess_of : ℤ → Option ℤ → Option ℤ
excess_of fwd none = none
excess_of fwd (some b) = some (fwd -ℤ b)

abbrev or_nil : Option ℤ → ℤ
or_nil none = pos 0
or_nil (some z) = z

abbrev is_none : Option ℤ → Bool
is_none none = true
is_none _ = false

unfoldable pub close_tracking : ℕ → ℕ → Bool → Option ℤ → Tracking → Tracking
unfolding return_of conclude
close_tracking date price stale bench t =
    let fwd = return_of (t.sell_price * fen) price in
    let excess = excess_of fwd bench in
    record t {
      status = done;
      track_end_date = some date;
      fwd_return = fwd;
      bench_return = or_nil bench;
      excess = or_nil excess;
      conclusion = conclude fwd excess;
      is_loss = either (ltb_ℤ (pos 0)) fwd excess;
      is_stale = stale;
      no_bench = is_none excess;
    }

-- The end of the window: a row without any price waits on.
abbrev pub end_by : ℕ → Option ℤ → Option (ℕ × Bool) → Tracking → Result Tracking
end_by date bench none t = ok t
end_by date bench (some (price, stale)) t =
    if t.sell_price == 0 then err engine else ok (close_tracking date price stale bench t)

-- The body of the loop; what was last seen before the day is read from the row as it was.
abbrev pub end_or_wait : ℕ → Option ℕ → Quote → ℕ → Tracking → Tracking → Result Tracking
end_or_wait date bench q days t u =
    if ltb u.sessions_done days
    then ok u
    else end_by date (bench_of t.bench_sell_close (bench_now bench t.last_bench))
        (end_price q.close t.last_close) u

unfoldable pub advance : ℕ → Option ℕ → Quote → ℕ → Tracking → Result Tracking
unfolding seen_on close_tracking return_of
advance date bench q days t =
    if has_price q.close bench && is_new t.last_seen date
    then end_or_wait date bench q days t (seen_on date q bench t)
    else ok t

abbrev pub is_tracking : TrackStatus → Bool
is_tracking tracking = true
is_tracking done = false

abbrev pub is_tracked : ℕ → Tracking → Bool
is_tracked date t = is_tracking t.status && ltb t.sell_date date

-- `track_days or EXIT_DEFAULT_DAYS`
abbrev pub days_of : Option ℕ → ℕ
days_of none = 10
days_of (some n) = if n == 0 then 10 else n

abbrev pub settle_exit : ℕ → Option ℕ → (ℕ → Option Quote) → ℕ → Tracking → Result Tracking
settle_exit date bench market days t =
    if is_tracked date t then advance date bench (or_no_quote (market t.symbol)) days t else ok t

unfoldable pub settle_exits :
    ℕ → Option ℕ → (ℕ → Option Quote) → ℕ → List Tracking → Result (List Tracking)
unfolding advance
settle_exits date bench market days [] = ok []
settle_exits date bench market days (t ∷ ts) = settle_exit date bench market days t >>= λ u.
    settle_exits date bench market days ts >>= λ us. ok (u ∷ us)
