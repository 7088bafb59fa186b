-- ===== src/Engine/Inline.antt =====
-- The fills that the L1 and L2 loops of `settle_account` in core/eodengine.py write out where they
-- stand, with the quality of the trade and with what each of them checks and leaves out.
pub mod Keeps
use ai_agent_stock_trading_s.Prelude.{ℕ, Bool, true, false, ltb, ltb_ℤ, pos, if◌then◌else◌}
use ai_agent_stock_trading_s.Engine.Result.{Result, ok, ◌>>=◌}
use ai_agent_stock_trading_s.Engine.Order.{Order}
use ai_agent_stock_trading_s.Engine.Book.{
  Book, Day, Quality, Outcome, done, insufficient, sellable, sell_shares, single_cap_ok, outlay,
  buy_shares,
}

-- The sale of both tiers; L1 does not register the exit.
unfoldable pub inline_sell : Bool → Day → Order → ℕ → ℕ → Quality → Book → Result (Outcome × Book)
inline_sell register d o price ts quality b =
    if ltb (sellable o.symbol d.date b.lots) o.qty
    then ok (insufficient, b)
    else (sell_shares d o o.qty price ts quality register b >>= λ b'. ok (done, b'))

-- The purchase of L1: with the cash for it, it goes through.
unfoldable pub inline_buy : Day → Order → ℕ → ℕ → Quality → Book → Outcome × Book
inline_buy d o price ts quality b =
    if ltb_ℤ b.cash (pos (outlay d o.qty price))
    then (insufficient, b)
    else (done, buy_shares d o o.qty price ts quality b)

-- The purchase of L2, which looks at the cap on one symbol first.
abbrev pub within_cap : Day → Order → ℕ → ℕ → Quality → Book → Bool → Outcome × Book
within_cap d o price ts quality b true = inline_buy d o price ts quality b
within_cap d o price ts quality b false = (insufficient, b)

unfoldable pub capped_buy : Day → Order → ℕ → ℕ → Quality → Book → Result (Outcome × Book)
capped_buy d o price ts quality b =
    single_cap_ok d o.symbol o.qty price (outlay d o.qty price) b >>= λ within.
    ok (within_cap d o price ts quality b within)
