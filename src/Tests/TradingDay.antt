-- ===== src/Tests/TradingDay.antt =====
-- One day of one account of core/eodengine.py: 300 old shares of one symbol, an order to sell 200 of
-- them and one to buy 100 of another symbol.
use ai_agent_stock_trading_s.Prelude.{
  ℕ, ◌+◌, ◌*◌, ◌≤◌, ◌≡◌, refl, true, false, Option, none, some, List, [], ◌∷◌, pos, ◌+ℤ◌, ◌-ℤ◌,
  ◌≤ℤ◌, All, arith, ◌==◌, if◌then◌else◌, drop, find, ltb, pos_part,
}
use ai_agent_stock_trading_s.Engine.Result.{Result, ok, err}
use ai_agent_stock_trading_s.Engine.Money.{
  Side, buy, sell, default_fees, main, fees, amount_of, fen, half_up, half_up_ℤ, limit_px,
  board_limit_pct,
}
use ai_agent_stock_trading_s.Engine.Order.{
  Order, OrderType, Trigger, PriceType, active, nothing, other, today,
}
use ai_agent_stock_trading_s.Engine.Trigger.{
  plan_of, order_rule, trigger_price, legacy_price, kind_price, trail_rule, time_at, pct_price,
}
use ai_agent_stock_trading_s.Engine.Book.{
  Book, Day, plain, sold_book, buy_shares, outlay, done, insufficient, sell_fill, buy_fill,
  buy_within, sellable, consume, held_qty, add_holding, set_avg_cost, sub_holding, write_trade,
  register_exit, close_out, insert_lot, single_cap_ok, holdings_value, is_holding, require_close,
  sell_shares,
}
use ai_agent_stock_trading_s.Engine.Book.Fifo.{shares}
use ai_agent_stock_trading_s.Engine.Book.Shares.{IsConsistent}
use ai_agent_stock_trading_s.Engine.Book.Fills.{sell_fill_lem}
use ai_agent_stock_trading_s.Engine.Book.Limits.{
  buy_fill_pays, buy_fill_within_cap, buy_shares_avg_cost, sell_fill_overdraws,
}
use ai_agent_stock_trading_s.Engine.Tier.{Entry, waiting, replay_symbol, replay_tier}
use ai_agent_stock_trading_s.Engine.Replay.{
  Sample, replay_l0, run_order, run_plan, scan, visit, visit_open, visit_timed, visit_ruled,
  lock_limits, touched, price_touched, sealed_for, advance, locked, cost_touched, cost_weight,
}
use ai_agent_stock_trading_s.Engine.Replay.Invariants.{
  replay_l0-TakesOldest, replay_l0-IsConsistent, TakesOldest, shares-sold_book,
}
use ai_agent_stock_trading_s.Engine.Settle.{Opening, Closing, settle_tail, day_flow}
use ai_agent_stock_trading_s.Engine.Settle.Conservation.{IsBalanced}
use ai_agent_stock_trading_s.Engine.Settle.Replayed.{replay_l0_settles}

-- A price of so many fen.
abbrev pub yuan : ℕ → ℕ
yuan n = n * 100000000

abbrev pub closes : ℕ → Option ℕ
closes s = if s == 600000 then some (yuan 10) else if s == 600001 then some (yuan 20) else none

abbrev pub day : Day
day = record {
  date = 20;
  fee = default_fees;
  close = closes;
  prev_close = closes;
  hist_high = λ s. none;
  board = λ s. some main;
  bench_close = none;
  single_cap = 9000;
}

abbrev pub an_order : ℕ → OrderType → Side → ℕ → ℕ → Order
an_order id type side symbol qty = record {
  id = id;
  order_type = type;
  direction = side;
  is_single = true;
  is_replay_l0 = true;
  symbol = symbol;
  trigger = Trigger.absent;
  qty = qty;
  price_type = PriceType.market;
  validity = today;
  status = active;
  invalid_reason = nothing;
  insufficient_events = 0;
  circuit_break_events = 0;
  created_at = none;
  reason = other;
  settled_on = none;
}

abbrev pub entry : Order → Entry
entry o = record { order = o; ins = 0; cct = 0; final = waiting; frozen = false }

abbrev pub sale : Order
sale = an_order 1 OrderType.sell_stop sell 600000 200

abbrev pub purchase : Order
purchase = an_order 2 OrderType.buy buy 600001 100

abbrev pub entries : List Entry
entries = entry sale ∷ entry purchase ∷ []

abbrev series : ℕ → Option (List Sample)
series s =
    some (record { ts = 1728000 + 36000; price = if s == 600000 then yuan 10 else yuan 20 } ∷ [])

abbrev pub book : Book
book = record {
  cash = pos 1000000;
  holdings = record { symbol = 600000; quantity = 300; avg_cost = 90000 } ∷ [];
  lots =
      record {
        symbol = 600000;
        buy_trade = some 0;
        buy_date = 10;
        buy_price = yuan 9;
        quantity = 300;
        remaining = 300;
        flags = [];
      }
      ∷ [];
  trades = [];
  signals = [];
  exits = [];
}

abbrev or_default : Result (List Entry × Book) → List Entry × Book
or_default (ok r) = r
or_default (err e) = ([], book)

abbrev after : List Entry × Book
after = or_default (replay_l0 day series (600000 ∷ 600001 ∷ []) entries book)

replayed : replay_l0 day series (600000 ∷ 600001 ∷ []) entries book ≡ ok (after.0, after.1)
unfolding replay_l0 replay_tier replay_symbol run_order plan_of scan visit visit_ruled touched
    advance locked lock_limits limit_px sell_fill sell_shares consume buy_fill single_cap_ok
    holdings_value sold_book register_exit add_holding buy_shares buy_within close_out held_qty
    insert_lot require_close set_avg_cost sub_holding write_trade amount_of board_limit_pct fees
    half_up half_up_ℤ cost_touched cost_weight price_touched run_plan sealed_for visit_open
    visit_timed kind_price legacy_price ◌+ℤ◌ ◌-ℤ◌ order_rule trigger_price trail_rule time_at
    pct_price
replayed = refl

pub book-IsConsistent : IsConsistent book
unfolding held_qty
book-IsConsistent = record { held = λ t. ground arith }

replay_l0-IsConsistent_example : IsConsistent after.1
replay_l0-IsConsistent_example =
    replay_l0-IsConsistent day series (600000 ∷ 600001 ∷ []) entries after.0 book after.1 replayed
      book-IsConsistent

replay_l0-TakesOldest_example : TakesOldest day book after.1
replay_l0-TakesOldest_example =
    replay_l0-TakesOldest day series (600000 ∷ 600001 ∷ []) entries after.0 book after.1 replayed
      book-IsConsistent

abbrev opening : Opening
opening = record {
  cash = pos 1000000;
  corp_cash = pos 0;
  holdings = book.holdings;
  initial_capital = pos 10000000;
  shares = 10000000;
}

book-IsBalanced : IsBalanced 20 (pos 1000000 +ℤ pos 0) book
unfolding day_flow ◌+ℤ◌
book-IsBalanced = record { balanced = refl }

closes_known : All (λ h. (p : ℕ) × (day.close h.symbol ≡ some p)) after.1.holdings
unfolding replay_l0 replay_tier replay_symbol run_order plan_of scan visit visit_ruled touched
    advance locked lock_limits limit_px sell_fill sell_shares consume buy_fill single_cap_ok
    holdings_value sold_book register_exit add_holding buy_shares buy_within close_out held_qty
    insert_lot require_close set_avg_cost sub_holding write_trade amount_of board_limit_pct fees
    half_up half_up_ℤ cost_touched cost_weight price_touched run_plan sealed_for visit_open
    visit_timed kind_price legacy_price ◌+ℤ◌ ◌-ℤ◌ order_rule trigger_price trail_rule time_at
    pct_price
closes_known = ((yuan 10, refl), ((yuan 20, refl), tt))

replay_l0_settles_example :
    (c : Closing) × (settle_tail day opening after.1 ≡ ok c) × (c.cash ≡ after.1.cash)
replay_l0_settles_example =
    replay_l0_settles day series (600000 ∷ 600001 ∷ []) entries after.0 book after.1 opening
      replayed book-IsBalanced closes_known ((yuan 10, refl), tt)

sell_fill_lem_example :
    sell_fill day sale 200 (yuan 10) 36000 book
    ≡ ok (
        if ltb (sellable 600000 20 book.lots) 200
        then (insufficient, book)
        else (done, sold_book day sale 200 (yuan 10) 36000 plain true book))
sell_fill_lem_example = sell_fill_lem day sale 200 (yuan 10) 36000 book

abbrev bought : Book
bought = buy_shares day purchase 100 (yuan 20) 36000 plain book

purchase_done : buy_fill day purchase 100 (yuan 20) 36000 book ≡ ok (done, bought)
unfolding buy_fill buy_within single_cap_ok holdings_value require_close held_qty amount_of fees
    half_up
purchase_done = refl

buy_fill_pays_example :
    (bought.cash ≡ book.cash -ℤ pos (outlay day 100 (yuan 20))) × (pos 0 ≤ℤ bought.cash)
buy_fill_pays_example = buy_fill_pays day purchase 100 (yuan 20) 36000 book bought purchase_done

buy_fill_within_cap_example :
    (value : ℕ) × (holdings_value day 600001 (yuan 20) book.holdings ≡ ok value)
    × (held_qty 600001 bought.holdings * yuan 20 * 10000
        ≤ 9000 * (pos_part bought.cash * fen + value))
buy_fill_within_cap_example =
    buy_fill_within_cap day purchase 100 (yuan 20) 36000 book bought purchase_done (ground arith)
      (ground arith)

-- 100 shares more of what is held already: their outlay is spread over all 400.
buy_shares_avg_cost_example :
    find
      (is_holding 600000)
      (buy_shares day
        (an_order 3 OrderType.buy buy 600000 100)
        100
        (yuan 10)
        36000
        plain
        book).holdings
    ≡ some (record {
      symbol = 600000;
      quantity = held_qty 600000 book.holdings + 100;
      avg_cost = half_up (outlay day 100 (yuan 10) * 100) (held_qty 600000 book.holdings + 100);
    })
buy_shares_avg_cost_example =
    buy_shares_avg_cost day (an_order 3 OrderType.buy buy 600000 100) 100 (yuan 10) 36000 plain book

-- An account with no cash sells one share at one yuan; the least commission is five.
abbrev penniless : Book
penniless = record book { cash = pos 0 }

sell_fill_overdraws_example :
    (b' : Book) × (sell_fill day sale 1 (yuan 1) 36000 penniless ≡ ok (done, b'))
    × (¬ (pos 0 ≤ℤ b'.cash))
unfolding amount_of fees half_up
sell_fill_overdraws_example =
    sell_fill_overdraws day sale 1 (yuan 1) 36000 0 penniless refl (ground arith) (ground arith)

shares-sold_book_example :
    shares 600000 20 (sold_book day sale 200 (yuan 10) 36000 plain true book).lots
    ≡ drop (if 600000 == 600000 then 200 else 0) (shares 600000 20 book.lots)
shares-sold_book_example =
    shares-sold_book 600000 day sale 200 (yuan 10) 36000 plain true book (ground arith)
      book-IsConsistent
