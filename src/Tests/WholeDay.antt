-- ===== src/Tests/WholeDay.antt =====
-- A whole day of one account of core/eodengine.py with a split, a dividend, a sale by samples and a
-- purchase by minutes, and single events of the day.
use ai_agent_stock_trading_s.Prelude.{
  ◌+◌, ◌*◌, ◌≡◌, refl, map, Bool, negsuc, true, false, none, some, List, [], ◌∷◌, pos, ◌+ℤ◌, ◌-ℤ◌,
  ◌≤ℤ◌, arith,
}
use ai_agent_stock_trading_s.Engine.Result.{Result, ok, err}
use ai_agent_stock_trading_s.Engine.Money.{
  buy, default_fees, fees, amount_of, half_up, half_up_ℤ, limit_px, board_limit_pct,
}
use ai_agent_stock_trading_s.Engine.Order.{Order, OrderType, number, Trigger, Op, Status, long}
use ai_agent_stock_trading_s.Engine.Trigger.{
  open_board, ruled, static, plan_of, order_rule, trigger_price, legacy_price, kind_price,
  trail_rule, time_at, pct_price,
}
use ai_agent_stock_trading_s.Engine.Book.{
  split_kind, sold_book, buy_shares, sell_fill, buy_fill, buy_within, consume, held_qty,
  add_holding, set_avg_cost, sub_holding, write_trade, register_exit, close_out, insert_lot,
  single_cap_ok, holdings_value, require_close, sell_shares,
}
use ai_agent_stock_trading_s.Engine.Book.Shares.{IsConsistent}
use ai_agent_stock_trading_s.Engine.Tier.{
  Entry, Run, waiting, start_run, replay_symbol, replay_tier, symbols_of, insert_symbol,
}
use ai_agent_stock_trading_s.Engine.Replay.{
  replay_l0, run_order, run_plan, scan, visit, visit_open, visit_timed, visit_ruled, lock_limits,
  touched, price_touched, sealed_for, advance, locked, cost_touched, cost_weight,
}
use ai_agent_stock_trading_s.Engine.Inline.{inline_buy, inline_sell}
use ai_agent_stock_trading_s.Engine.Minutes.{
  Minute, close_bar, minute_of, insert_minute, norm_l1, reach, minute_touched, minute_hit, wanted,
  fire_price, fire_quality, fire, watch, scan_minutes, minutes_plan, run_minutes, replay_l1,
}
use ai_agent_stock_trading_s.Engine.Minutes.Exits.{run_minutes-exits}
use ai_agent_stock_trading_s.Engine.Daily.{replay_l2}
use ai_agent_stock_trading_s.Engine.Corp.{
  Event, split, dividend, Corp, start_corp, append_flag, is_open_for, split_lot, split_holding,
  split_book, corp_split, dividend_tax_rate, dividend_tax, net_dividend, corp_dividend, subscribed,
  corp_rights, dispatch, apply_events, apply_corp_actions,
}
use ai_agent_stock_trading_s.Engine.Corp.Marks.{second_event_ignored}
use ai_agent_stock_trading_s.Engine.Corp.Holds.{apply_corp_actions-IsConsistent}
use ai_agent_stock_trading_s.Engine.Corp.Amounts.{
  shares_of, IsScaled, split_book-IsScaled, corp_rights_overdraws,
}
use ai_agent_stock_trading_s.Engine.CloseOut.Rows.{IsClosed, close_order-IsClosed}
use ai_agent_stock_trading_s.Engine.Prologue.{
  Feeds, Account, Request, no_cap, overlaps, feed_kind, cap_value, check_account, check_order,
  check_orders, screen_qty, screen_restricted, screen_delisted, screen, entry_of,
}
use ai_agent_stock_trading_s.Engine.CloseOut.{close_order, feed_last_price, align_trades}
use ai_agent_stock_trading_s.Engine.Settle.{
  settle_tail, day_flow, flow_from, equity_of, opening_value, market_value, nav_of,
  audit_conservation,
}
use ai_agent_stock_trading_s.Engine.SettleAccount.{
  Settled, Settlement, already_settled, settled, replay_tiers, finish, settle_open, settle_account,
  after_settlement,
}
use ai_agent_stock_trading_s.Engine.SettleAccount.Whole.{
  IsSettled, settle_account-IsSettled, settle_account_again,
}
use ai_agent_stock_trading_s.Orders.{qty_rule_ok}
use ai_agent_stock_trading_s.Tests.TradingDay.{yuan, day, an_order, sale, book, book-IsConsistent}

-- Buys 100 at 20 yuan or below.
abbrev limit_buy : Order
limit_buy = record (an_order 2 OrderType.buy buy 600001 100) {
  trigger = Trigger.legacy (some Op.le) (number (pos (yuan 20)));
}

abbrev feeds : Feeds
feeds = record {
  l0 = (600000, record { ts = 1728000 + 36000; price = yuan 10 } ∷ []) ∷ [];
  l1 = (600001, close_bar (1728000 + 36000) (yuan 20) ∷ []) ∷ [];
  l2 = [];
  suspended = [];
}

-- Ten for ten, and ten cents a share with the tax.
abbrev request : Request
request = record {
  feeds = feeds;
  restricted = λ s. [];
  circuit_freeze = false;
  events = (600000, split (some (pos 1000000)) ∷ dividend (some (pos 10000000)) true ∷ []) ∷ [];
}

abbrev account : Account
account = record {
  is_eod_replay = true;
  shares = pos 10000000;
  buy_exempt = some [];
  single_cap = no_cap;
  initial_capital = pos 10000000;
  book = book;
  orders = sale ∷ limit_buy ∷ [];
  settled = [];
}

abbrev settlement_of : Result Settled → Settlement → Settlement
settlement_of (ok (settled x)) y = x
settlement_of _ y = y

abbrev nothing_settled : Settlement
nothing_settled = record {
  closing = record { cash = pos 0; nav = pos 0; total_pnl = pos 0; today_pnl = pos 0 };
  book = book;
  rows = [];
  corp = start_corp book;
  blocked = 0;
}

abbrev settlement : Settlement
settlement = settlement_of (settle_account day request (some account)) nothing_settled

settlement_done : settle_account day request (some account) ≡ ok (settled settlement)
unfolding settle_account settle_open finish replay_tiers overlaps check_account cap_value
    check_order check_orders feed_kind screen screen_qty screen_restricted screen_delisted entry_of
    qty_rule_ok symbols_of insert_symbol apply_corp_actions apply_events corp_split corp_dividend
    split_book split_lot split_holding append_flag is_open_for net_dividend dividend_tax
    dividend_tax_rate replay_l0 replay_l1 replay_l2 replay_tier replay_symbol run_order plan_of scan
    visit visit_ruled touched advance locked lock_limits limit_px sell_fill sell_shares consume
    buy_fill single_cap_ok holdings_value sold_book register_exit add_holding buy_shares buy_within
    close_out held_qty insert_lot require_close set_avg_cost sub_holding write_trade amount_of
    board_limit_pct fees half_up half_up_ℤ cost_touched cost_weight price_touched run_plan
    sealed_for visit_open visit_timed kind_price legacy_price ◌+ℤ◌ ◌-ℤ◌ order_rule trigger_price
    trail_rule time_at pct_price run_minutes minutes_plan scan_minutes watch fire wanted fire_price
    fire_quality minute_hit minute_touched reach norm_l1 minute_of insert_minute inline_buy
    inline_sell align_trades feed_last_price close_order settle_tail equity_of opening_value
    market_value nav_of audit_conservation day_flow flow_from
settlement_done = refl

fresh : day_flow 20 book.trades ≡ pos 0
unfolding day_flow flow_from
fresh = refl

settle_account-IsSettled_example : IsSettled day account settlement
settle_account-IsSettled_example =
    settle_account-IsSettled day request account settlement settlement_done book-IsConsistent fresh

one_series : overlaps feeds ≡ false
unfolding overlaps
one_series = refl

settle_account_again_example :
    settle_account day request (some (after_settlement 20 account settlement)) ≡ ok already_settled
settle_account_again_example =
    settle_account_again day day request request account settlement settlement_done refl one_series

-- Both orders are filled, and the sale takes a third of the doubled shares.
both_filled : map (λ o. o.status) settlement.rows ≡ Status.filled ∷ Status.filled ∷ []
unfolding settle_account settle_open finish replay_tiers overlaps check_account cap_value
    check_order check_orders feed_kind screen screen_qty screen_restricted screen_delisted entry_of
    qty_rule_ok symbols_of insert_symbol apply_corp_actions apply_events corp_split corp_dividend
    split_book split_lot split_holding append_flag is_open_for net_dividend dividend_tax
    dividend_tax_rate replay_l0 replay_l1 replay_l2 replay_tier replay_symbol run_order plan_of scan
    visit visit_ruled touched advance locked lock_limits limit_px sell_fill sell_shares consume
    buy_fill single_cap_ok holdings_value sold_book register_exit add_holding buy_shares buy_within
    close_out held_qty insert_lot require_close set_avg_cost sub_holding write_trade amount_of
    board_limit_pct fees half_up half_up_ℤ cost_touched cost_weight price_touched run_plan
    sealed_for visit_open visit_timed kind_price legacy_price ◌+ℤ◌ ◌-ℤ◌ order_rule trigger_price
    trail_rule time_at pct_price run_minutes minutes_plan scan_minutes watch fire wanted fire_price
    fire_quality minute_hit minute_touched reach norm_l1 minute_of insert_minute inline_buy
    inline_sell align_trades feed_last_price close_order settle_tail equity_of opening_value
    market_value nav_of audit_conservation day_flow flow_from
both_filled = refl

after_sale : held_qty 600000 settlement.book.holdings ≡ 400
unfolding settle_account settle_open finish replay_tiers overlaps check_account cap_value
    check_order check_orders feed_kind screen screen_qty screen_restricted screen_delisted entry_of
    qty_rule_ok symbols_of insert_symbol apply_corp_actions apply_events corp_split corp_dividend
    split_book split_lot split_holding append_flag is_open_for net_dividend dividend_tax
    dividend_tax_rate replay_l0 replay_l1 replay_l2 replay_tier replay_symbol run_order plan_of scan
    visit visit_ruled touched advance locked lock_limits limit_px sell_fill sell_shares consume
    buy_fill single_cap_ok holdings_value sold_book register_exit add_holding buy_shares buy_within
    close_out held_qty insert_lot require_close set_avg_cost sub_holding write_trade amount_of
    board_limit_pct fees half_up half_up_ℤ cost_touched cost_weight price_touched run_plan
    sealed_for visit_open visit_timed kind_price legacy_price ◌+ℤ◌ ◌-ℤ◌ order_rule trigger_price
    trail_rule time_at pct_price run_minutes minutes_plan scan_minutes watch fire wanted fire_price
    fire_quality minute_hit minute_touched reach norm_l1 minute_of insert_minute inline_buy
    inline_sell align_trades feed_last_price close_order settle_tail equity_of opening_value
    market_value nav_of audit_conservation day_flow flow_from
after_sale = refl

-- Events on the opening book.
abbrev corp_of : Result (Bool × Corp) → Corp → Corp
corp_of (ok (x, d)) c = d
corp_of (err e) c = c

abbrev run_event : Event → Corp → Corp
run_event e c = corp_of (dispatch default_fees 20 600000 e c) c

abbrev corp_after : Result Corp → Corp → Corp
corp_after (ok d) c = d
corp_after (err e) c = c

abbrev start : Corp
start = start_corp book

abbrev three_for_two : Event
three_for_two = split (some (pos 500000))

abbrev doubling : Event
doubling = split (some (pos 1000000))

split_done :
    dispatch default_fees 20 600000 three_for_two start ≡ ok (true, run_event three_for_two start)
unfolding corp_split split_book split_lot split_holding append_flag is_open_for half_up
split_done = refl

doubling_not_done :
    dispatch default_fees 20 600000 doubling (run_event three_for_two start)
    ≡ ok (false, run_event three_for_two start)
unfolding corp_split split_book split_lot split_holding append_flag is_open_for half_up
doubling_not_done = refl

second_event_ignored_example :
    (false ≡ false) × (run_event three_for_two start ≡ run_event three_for_two start)
second_event_ignored_example =
    second_event_ignored default_fees 20 600000 three_for_two doubling split_kind start
      (run_event three_for_two start) (run_event three_for_two start) false refl refl split_done
      doubling_not_done

apply_done :
    apply_corp_actions default_fees 20 request.events start
    ≡ ok (corp_after (apply_corp_actions default_fees 20 request.events start) start)
unfolding apply_corp_actions apply_events corp_split corp_dividend split_book split_lot
    split_holding append_flag is_open_for net_dividend dividend_tax dividend_tax_rate amount_of
    half_up ◌+ℤ◌
apply_done = refl

apply_corp_actions-IsConsistent_example :
    IsConsistent (corp_after (apply_corp_actions default_fees 20 request.events start) start).book
apply_corp_actions-IsConsistent_example =
    apply_corp_actions-IsConsistent default_fees 20 request.events start
      (corp_after (apply_corp_actions default_fees 20 request.events start) start) apply_done
      book-IsConsistent

split_book-IsScaled_example :
    IsScaled 500000 1 300 (shares_of 600000 20 (split_book 20 600000 500000 book).lots)
split_book-IsScaled_example = split_book-IsScaled 20 600000 500000 book

-- Ten thousand yuan are stored, and another subscription of the day has spent nine thousand.
abbrev spent : Corp
spent = record start { credit = negsuc 899999 }

-- Three shares for ten at fifty yuan: 90 shares for 4,500 yuan.
corp_rights_overdraws_example :
    (c' : Corp) × (corp_rights 20 600000 (some (pos 300000)) (some (pos (yuan 50))) true spent
      ≡ ok (true, c'))
    × (¬ (pos 0 ≤ℤ (c'.book.cash +ℤ c'.credit)))
unfolding is_open_for subscribed amount_of half_up ◌+ℤ◌
corp_rights_overdraws_example =
    corp_rights_overdraws 20 600000 300000 (yuan 50) spent refl (ground arith) (ground arith)
      (ground arith)

-- A purchase of yesterday that waited in vain and once had too little cash.
abbrev waiting_entry : Entry
waiting_entry = record {
  order = record limit_buy { created_at = some (19 * 86400); validity = long };
  ins = 1;
  cct = 0;
  final = waiting;
  frozen = false;
}

close_order-IsClosed_example : IsClosed 20 waiting_entry (close_order 20 waiting_entry)
close_order-IsClosed_example = close_order-IsClosed 20 waiting_entry

-- A sale by minutes at the stop price.
abbrev stop_sale : Order
stop_sale = record sale { trigger = Trigger.legacy (some Op.le) (number (pos (yuan 10))) }

abbrev minutes : List Minute
minutes = record { ts = 1728000 + 36000; high = none; low = none; close = yuan 10 } ∷ []

abbrev run_or : Result Run → Run
run_or (ok r) = r
run_or (err e) = start_run book open_board

abbrev minute_sale : Run
minute_sale = run_or (run_minutes day stop_sale minutes book)

minute_sale_plan :
    plan_of stop_sale none (some (yuan 10)) ≡ ok (ruled (static Op.le (pos (yuan 10)) false))
unfolding plan_of order_rule trigger_price legacy_price
minute_sale_plan = refl

minute_sale_done : run_minutes day stop_sale minutes book ≡ ok minute_sale
unfolding settle_account settle_open finish replay_tiers overlaps check_account cap_value
    check_order check_orders feed_kind screen screen_qty screen_restricted screen_delisted entry_of
    qty_rule_ok symbols_of insert_symbol apply_corp_actions apply_events corp_split corp_dividend
    split_book split_lot split_holding append_flag is_open_for net_dividend dividend_tax
    dividend_tax_rate replay_l0 replay_l1 replay_l2 replay_tier replay_symbol run_order plan_of scan
    visit visit_ruled touched advance locked lock_limits limit_px sell_fill sell_shares consume
    buy_fill single_cap_ok holdings_value sold_book register_exit add_holding buy_shares buy_within
    close_out held_qty insert_lot require_close set_avg_cost sub_holding write_trade amount_of
    board_limit_pct fees half_up half_up_ℤ cost_touched cost_weight price_touched run_plan
    sealed_for visit_open visit_timed kind_price legacy_price ◌+ℤ◌ ◌-ℤ◌ order_rule trigger_price
    trail_rule time_at pct_price run_minutes minutes_plan scan_minutes watch fire wanted fire_price
    fire_quality minute_hit minute_touched reach norm_l1 minute_of insert_minute inline_buy
    inline_sell align_trades feed_last_price close_order settle_tail equity_of opening_value
    market_value nav_of audit_conservation day_flow flow_from
minute_sale_done = refl

run_minutes-exits_example : minute_sale.book.exits ≡ []
run_minutes-exits_example =
    run_minutes-exits day stop_sale minutes book minute_sale (static Op.le (pos (yuan 10)) false)
      minute_sale_plan minute_sale_done
