-- ===== src/Tests/Desk.antt =====
-- One strategy agent with its main account: orders, direct control, freezing, emergency sale, trial
-- (core/orderstore.py, core/accountstore.py).
use ai_agent_stock_trading_s.Prelude.{
  ◌≤◌, ◌≡◌, refl, true, false, ◌&&◌, none, some, List, [], ◌∷◌, ◌++◌, pos, arith, ◌==◌, any, find,
  select, count_where,
}
use ai_agent_stock_trading_s.Engine.Money.{Side}
use ai_agent_stock_trading_s.Engine.Order.{
  Order, OrderType, Op, Trigger, PriceType, today, active, nothing, other,
}
use ai_agent_stock_trading_s.Engine.Trigger.{plan_of}
use ai_agent_stock_trading_s.Engine.Order.{missing, number}
use ai_agent_stock_trading_s.Orders.{
  Payload, given, RawTrigger, Kind, canon_trigger, validate_order_payload, qty_rule_ok, canon_arg,
  accepted,
}
use ai_agent_stock_trading_s.Orders.Accepted.{accepted_readable, fits, is_ok}
use ai_agent_stock_trading_s.Accounts.{
  Store, Agent, strategy, running, Account, AccountId, main_of, main, normal, OrderRow, Outcome,
  main_of_agent, control_agent, pause_buy, target_of, set_status, freeze_security,
  unfreeze_security, is_open_buy, launch, store_of, Archive, is_account, OrderStatus,
}
use ai_agent_stock_trading_s.Accounts.Placing.{
  place_order, Placed, placed, row_of, is_buy, may_trade, account_and_agent, emergency_sell_all,
  is_held_in, clear_out_order,
}
use ai_agent_stock_trading_s.Accounts.Control.{
  place_order_gates, IsAllowed, control_agent-blocks, blocks,
}
use ai_agent_stock_trading_s.Accounts.Freezing.{freeze_blocks, unfreeze-freeze}
use ai_agent_stock_trading_s.Accounts.Numbers.{validation_account_free}
use ai_agent_stock_trading_s.Accounts.Emergency.{sales_cover_holdings, ordered_of, held_of}
use ai_agent_stock_trading_s.Accounts.Trial.{
  validation_account, create_trial_agent, add_trial_session, finish_trial, may_launch, of_agent,
}
use ai_agent_stock_trading_s.Accounts.Windows.{
  Call, creates, replays_day, run, step, HasOnce, IsValid,
}
use ai_agent_stock_trading_s.Accounts.Launches.{launch_after_window}

abbrev raw : RawTrigger
raw = record {
  kind = some Kind.pct_chg;
  op = some Op.le;
  price = missing;
  pct = number (pos 300);
  drop_pct = missing;
  not_limit = some false;
  at = none;
}

abbrev stored : Order
stored = record {
  id = 1;
  order_type = OrderType.buy;
  direction = Side.buy;
  is_single = true;
  is_replay_l0 = true;
  symbol = 600000;
  trigger = Trigger.pct_chg (some Op.le) (some (pos 300)) false;
  qty = 100;
  price_type = PriceType.market;
  validity = today;
  status = active;
  invalid_reason = nothing;
  insufficient_events = 0;
  circuit_break_events = 0;
  created_at = none;
  reason = other;
  settled_on = none;
}

canon_raw : canon_arg (given raw) OrderType.buy ≡ accepted stored.trigger
unfolding canon_trigger
canon_raw = refl

accepted_readable_example :
    is_ok (plan_of stored none (some 1000000000)) ≡ fits OrderType.buy stored.trigger
accepted_readable_example = accepted_readable stored (given raw) none 1000000000 canon_raw refl

abbrev agent : Agent
agent = record { id = 7; role = strategy; status = running }

abbrev account : Account
account = record { id = main_of 7; agent_id = 7; role = main; status = normal }

abbrev desk : Store
desk = record {
  agents = agent ∷ [];
  accounts = account ∷ [];
  orders = [];
  frozen = [];
  holdings =
      record { account_id = main_of 7; symbol = 600000; quantity = 300 }
      ∷ record { account_id = main_of 7; symbol = 600001; quantity = 50 }
      ∷ [];
  replays = [];
  sessions = [];
  settlements = [];
  archives = [];
}

abbrev sell_one : Payload
sell_one = clear_out_order 600000 100

abbrev placed_row : Placed × Store → OrderRow → OrderRow
placed_row (placed r, s) x = r
placed_row (_, s) x = x

abbrev no_row : OrderRow
no_row = record {
  id = 0;
  account_id = main_of 0;
  order_type = OrderType.buy;
  direction = Side.buy;
  symbol = 0;
  trigger = Trigger.absent;
  is_replay_l0 = false;
  qty = 0;
  price_type = PriceType.market;
  status = OrderStatus.active;
  created_at = 0;
}

abbrev order_row : OrderRow
order_row = placed_row (place_order 1 0 (main_of 7) true sell_one desk) no_row

abbrev desk_after : Store
desk_after = record desk { orders = order_row ∷ [] }

sell_one_placed : place_order 1 0 (main_of 7) true sell_one desk ≡ (placed order_row, desk_after)
unfolding place_order validate_order_payload qty_rule_ok account_and_agent may_trade row_of
sell_one_placed = refl

place_order_gates_example :
    (desk_after ≡ record desk { orders = [] ++ order_row ∷ [] })
    × ((m : Account) × (a : Agent) × IsAllowed desk (main_of 7) order_row m a)
place_order_gates_example =
    place_order_gates 1 0 (main_of 7) true sell_one desk desk_after order_row sell_one_placed

has_main : main_of_agent 7 desk ≡ some (agent, account)
unfolding main_of_agent
has_main = refl

abbrev paused : Store
paused = set_status (main_of 7) (target_of pause_buy) desk

pause_done : control_agent 7 pause_buy desk ≡ Outcome.done (normal, target_of pause_buy) paused
unfolding control_agent main_of_agent
pause_done = refl

abbrev paused_row : OrderRow
paused_row = placed_row (place_order 1 0 (main_of 7) true sell_one paused) no_row

paused_placed :
    place_order 1 0 (main_of 7) true sell_one paused
    ≡ (placed paused_row, record paused { orders = paused_row ∷ [] })
unfolding place_order validate_order_payload qty_rule_ok account_and_agent may_trade row_of
paused_placed = refl

control_agent-blocks_example : blocks pause_buy paused_row.direction ≡ false
control_agent-blocks_example =
    control_agent-blocks 7 1 0 pause_buy true sell_one desk paused
      (record paused { orders = paused_row ∷ [] }) (normal, target_of pause_buy) agent account
      paused_row has_main pause_done paused_placed

abbrev frozen_desk : Store
frozen_desk = store_of desk (freeze_security 7 (some 600000) desk)

freeze_done : freeze_security 7 (some 600000) desk ≡ Outcome.done 0 frozen_desk
unfolding freeze_security main_of_agent
freeze_done = refl

abbrev frozen_row : OrderRow
frozen_row = placed_row (place_order 1 0 (main_of 7) true sell_one frozen_desk) no_row

frozen_placed :
    place_order 1 0 (main_of 7) true sell_one frozen_desk
    ≡ (placed frozen_row, record frozen_desk { orders = frozen_row ∷ [] })
unfolding place_order validate_order_payload qty_rule_ok account_and_agent may_trade row_of
    freeze_security main_of_agent
frozen_placed = refl

frozen_account : find (is_account (main_of 7)) frozen_desk.accounts ≡ some account
unfolding freeze_security main_of_agent
frozen_account = refl

freeze_blocks_example :
    ((is_buy frozen_row.direction && frozen_row.symbol == 600000) ≡ false)
    × (any (is_open_buy (main_of 7) 600000) frozen_desk.orders ≡ false)
freeze_blocks_example =
    freeze_blocks 7 600000 0 1 0 true sell_one desk frozen_desk
      (record frozen_desk { orders = frozen_row ∷ [] }) agent account account frozen_row has_main
      freeze_done frozen_account refl frozen_placed

unfreeze-freeze_example :
    unfreeze_security 7 600000 frozen_desk ≡ Outcome.done 1 (record frozen_desk { frozen = [] })
unfreeze-freeze_example =
    unfreeze-freeze 7 600000 0 desk frozen_desk agent account has_main freeze_done

owner_found : account_and_agent (main_of 7) desk ≡ some (account, agent)
unfolding account_and_agent
owner_found = refl

may_sell : may_trade running normal Side.sell ≡ true
unfolding may_trade
may_sell = refl

sales_cover_holdings_example :
    (orders : List OrderRow) × ((emergency_sell_all 7 1 0 desk).0 ≡ some (orders, false))
    × ((emergency_sell_all 7 1 0 desk).1 ≡ record desk { orders = [] ++ orders })
    × (ordered_of 600000 orders ≡ held_of 600000 (select (is_held_in (main_of 7)) desk.holdings))
sales_cover_holdings_example =
    sales_cover_holdings 600000 7 1 0 desk agent agent account account has_main owner_found refl
      may_sell refl

-- A trial of five days, with one order from the day before.
abbrev trial_row : OrderRow
trial_row = record no_row { account_id = AccountId.trial_of 7 }

abbrev before_trial : Store
before_trial = record {
  agents = [];
  accounts = [];
  orders = trial_row ∷ [];
  frozen = [];
  holdings = [];
  replays = [];
  sessions = [];
  settlements = [];
  archives = [];
}

abbrev trial_calls : List Call
trial_calls =
    creates 7 5
    ∷ replays_day 7 1
    ∷ replays_day 7 2
    ∷ replays_day 7 2
    ∷ replays_day 7 3
    ∷ replays_day 7 4
    ∷ replays_day 7 5
    ∷ []

before_trial-IsValid : IsValid before_trial
before_trial-IsValid = record { once = tt; windows = λ i r h. ground arith }

abbrev archive_or : Archive → Outcome Archive → Archive
archive_or x (Outcome.done y s) = y
archive_or x Outcome.refused = x

abbrev no_archive : Archive
no_archive = record {
  agent_id = 0;
  account_id = main_of 0;
  decision = launch;
  replay_dates = [];
  settle_dates = [];
  orders = 0;
}

abbrev trial_end : Outcome Archive
trial_end = finish_trial 7 launch (run trial_calls before_trial)

launched :
    trial_end ≡ Outcome.done (archive_or no_archive trial_end) (store_of before_trial trial_end)
unfolding finish_trial run step create_trial_agent add_trial_session may_launch
launched = refl

launch_after_window_example :
    (5 ≤ count_where (of_agent 7) (run trial_calls before_trial).sessions)
    × HasOnce (run trial_calls before_trial).sessions
launch_after_window_example =
    launch_after_window trial_calls before_trial (store_of before_trial trial_end) 7
      (archive_or no_archive trial_end) before_trial-IsValid launched

validation_account_free_example :
    any (is_account (validation_account 7 desk).id) desk.accounts ≡ false
validation_account_free_example = validation_account_free 7 desk
