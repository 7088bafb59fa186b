-- ===== src/Engine/Minutes/Exits.antt =====
-- The rows of exit_trackings along the L1 loop of core/eodengine.py.
use ai_agent_stock_trading_s.Prelude.{
  ℕ, ◌≡◌, refl, ◌∙◌, true, false, Bool, List, arith, Bool-cases, inl, inr, ltb_ℤ, pos,
}
use ai_agent_stock_trading_s.Engine.Result.{ok, ◌>>=◌, >>=-eq-ok}
use ai_agent_stock_trading_s.Engine.Order.{Order}
use ai_agent_stock_trading_s.Engine.Trigger.{Rule, always, static, cost, trail, ruled, plan_of}
use ai_agent_stock_trading_s.Engine.Book.{
  Book, Day, Exit, Quality, Outcome, sold_book, buy_shares, write_trade, close_out, outlay,
}
use ai_agent_stock_trading_s.Engine.Tier.{Run}
use ai_agent_stock_trading_s.Engine.Replay.{lock_limits}
use ai_agent_stock_trading_s.Engine.Inline.{inline_buy}
use ai_agent_stock_trading_s.Engine.Inline.Keeps.{inline_sell_lem}
use ai_agent_stock_trading_s.Engine.Minutes.{
  Minute, minute_fill, scan_minutes, start_watch, minutes_plan, run_minutes,
}
use ai_agent_stock_trading_s.Engine.Minutes.Keeps.{scan_minutes-keeps}

close_out-exits : (s qty : ℕ) (b : Book) → (close_out s qty b).exits ≡ b.exits
unfolding close_out
close_out-exits s qty b = ground arith

sold_book-exits :
    (d : Day) (o : Order) (qty price ts : ℕ) (quality : Quality) (b : Book)
    → (sold_book d o qty price ts quality false b).exits ≡ b.exits
unfolding sold_book write_trade
sold_book-exits d o qty price ts quality b = close_out-exits o.symbol qty _

inline_buy-exits :
    (d : Day) (o : Order) (price ts : ℕ) (quality : Quality) (b : Book)
    → (inline_buy d o price ts quality b).1.exits ≡ b.exits
unfolding inline_buy buy_shares write_trade
inline_buy-exits d o price ts quality b =
    elim (Bool-cases (ltb_ℤ b.cash (pos (outlay d o.qty price)))) [
      | inl short ↦ rw short
      | inr enough ↦ rw enough
    ]

module _ (d : Day) (xs : List Exit) where
  minute_fill-exits :
      (side : Bool) (o : Order) (price ts : ℕ) (quality : Quality) (b b' : Book) (r : Outcome)
      → minute_fill side d o price ts quality b ≡ ok (r, b')
      → b.exits ≡ xs
      → b'.exits ≡ xs
  minute_fill-exits true o price ts quality b b' r e p =
      let same : b' ≡ (inline_buy d o price ts quality b).1 = ground arith in
      rw same (inline_buy-exits d o price ts quality b ∙ p)
  minute_fill-exits false o price ts quality b b' r e p = ground (
    arith,
    e,
    p,
    inline_sell_lem false d o price ts quality b,
    sold_book-exits d o o.qty price ts quality b,
  )

scan_minutes-exits :
    (d : Day) (o : Order) (ms : List Minute) (b : Book) (rule : Rule) (r : Run)
    → (scan_minutes d o (lock_limits d o.symbol) ms (start_watch b rule) >>= λ w. ok w.run) ≡ ok r
    → r.book.exits ≡ b.exits
scan_minutes-exits d o ms b rule r e =
    let (w, h, f) =
      >>=-eq-ok (scan_minutes d o (lock_limits d o.symbol) ms (start_watch b rule)) _ e in
    let same : r ≡ w.run = cc in
    rw same (
      scan_minutes-keeps d (λ x. x.exits ≡ b.exits) (minute_fill-exits d b.exits) o
        (lock_limits d o.symbol) ms (start_watch b rule) w h refl)

minutes_plan-exits :
    (d : Day) (o : Order) (ms : List Minute) (b : Book) (rule : Rule) (r : Run)
    → minutes_plan d o ms b (ok (ruled rule)) ≡ ok r
    → r.book.exits ≡ b.exits
unfolding minutes_plan
minutes_plan-exits d o ms b always r e = cc
minutes_plan-exits d o ms b (static op t n) r e = scan_minutes-exits d o ms b (static op t n) r e
minutes_plan-exits d o ms b (cost op t) r e = scan_minutes-exits d o ms b (cost op t) r e
minutes_plan-exits d o ms b (trail t h) r e = scan_minutes-exits d o ms b (trail t h) r e

-- Whatever an L1 replay of an order with a price to wait for fills, a sale among it, it registers
-- no exit: the table of exits is the one of before.
pub run_minutes-exits :
    (d : Day) (o : Order) (ms : List Minute) (b : Book) (r : Run) (rule : Rule)
    → plan_of o (d.hist_high o.symbol) (d.prev_close o.symbol) ≡ ok (ruled rule)
    → run_minutes d o ms b ≡ ok r
    → r.book.exits ≡ b.exits
unfolding run_minutes
run_minutes-exits d o ms b r rule plan e = minutes_plan-exits d o ms b rule r (rw plan at e)
