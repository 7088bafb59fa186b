-- ===== src/Accounts/Placing.antt =====
-- The placing of orders, core/orderstore.py: `place_order`, `emergency_sell_all` and its global form.
-- The instant and the random id of a row are arguments.
use ai_agent_stock_trading_s.Prelude.{
  ℕ, ◌+◌, Bool, true, false, not, ◌&&◌, ◌||◌, Option, none, some, List, [], ◌∷◌, ◌++◌, ltb, ◌==◌,
  if◌then◌else◌, any, find, select, length,
}
use ai_agent_stock_trading_s.Engine.Money.{Side}
use ai_agent_stock_trading_s.Engine.Order.{OrderType, PriceType}
use ai_agent_stock_trading_s.Orders.{Payload, Valid, Checked, no_trigger, validate_order_payload}
use ai_agent_stock_trading_s.Accounts.{
  Store, Agent, AgentStatus, Account, AccountId, AccountStatus, normal, paused_buy, OrderRow,
  active, HoldingRow, same_account, same_status, is_strategy, is_running, is_on_trial, is_agent,
  is_account, is_frozen, main_of_agent, agents_by_id, joined,
}

abbrev pub is_buy : Side → Bool
is_buy Side.buy = true
is_buy Side.sell = false

-- Who may trade on which account.
unfoldable pub may_trade : AgentStatus → AccountStatus → Side → Bool
may_trade agent account side =
    (is_running agent && same_status account normal)
    || (is_running agent && same_status account paused_buy && not (is_buy side))
    || (is_on_trial agent && same_status account AccountStatus.trial)

-- The account with the agent that it belongs to.
abbrev pub and_agent : Account → Option Agent → Option (Account × Agent)
and_agent m none = none
and_agent m (some a) = some (m, a)

abbrev pub with_agent : Store → Option Account → Option (Account × Agent)
with_agent s none = none
with_agent s (some m) = and_agent m (find (is_agent m.agent_id) s.agents)

unfoldable pub account_and_agent : AccountId → Store → Option (Account × Agent)
account_and_agent i s = with_agent s (find (is_account i) s.accounts)

unfoldable pub row_of : ℕ → ℕ → AccountId → Bool → Valid → OrderRow
row_of id now account replay_l0 v = record {
  id = id;
  account_id = account;
  order_type = v.order_type;
  direction = v.direction;
  symbol = v.symbol;
  trigger = v.trigger;
  is_replay_l0 = replay_l0;
  qty = v.qty;
  price_type = v.price_type;
  status = active;
  created_at = now;
}

pub data Placed : Type 0 where
  placed : OrderRow → Placed
  refused crashed : Placed

abbrev insert_order : OrderRow → Store → Placed × Store
insert_order r s = (placed r, record s { orders = s.orders ++ r ∷ [] })

abbrev pub place_valid :
    ℕ → ℕ → AccountId → Bool → Valid → Store → Option (Account × Agent) → Placed × Store
place_valid id now account replay_l0 v s none = (refused, s)
place_valid id now account replay_l0 v s (some (m, a)) =
    if not (is_strategy a.role)
    then (refused, s)
    else if is_buy v.direction && any (is_frozen a.id v.symbol) s.frozen
    then (refused, s)
    else if not (may_trade a.status m.status v.direction)
    then (refused, s)
    else insert_order (row_of id now account replay_l0 v) s

abbrev pub place_checked : ℕ → ℕ → AccountId → Bool → Store → Checked Valid → Placed × Store
place_checked id now account replay_l0 s Checked.refused = (refused, s)
place_checked id now account replay_l0 s Checked.crashed = (crashed, s)
place_checked id now account replay_l0 s (Checked.accepted v) =
    place_valid id now account replay_l0 v s (account_and_agent account s)

unfoldable pub place_order : ℕ → ℕ → AccountId → Bool → Payload → Store → Placed × Store
place_order id now account replay_l0 p s =
    place_checked id now account replay_l0 s (validate_order_payload p)

-- `SUM(quantity) … GROUP BY symbol ORDER BY symbol`
unfoldable pub add_group : ℕ → ℕ → List (ℕ × ℕ) → List (ℕ × ℕ)
add_group symbol qty [] = (symbol, qty) ∷ []
add_group symbol qty ((k, q) ∷ gs) =
    if symbol == k
    then (k, q + qty) ∷ gs
    else if ltb symbol k
    then (symbol, qty) ∷ (k, q) ∷ gs
    else (k, q) ∷ add_group symbol qty gs

unfoldable pub groups_of : List HoldingRow → List (ℕ × ℕ)
groups_of [] = []
groups_of (h ∷ hs) = add_group h.symbol h.quantity (groups_of hs)

abbrev pub is_held_in : AccountId → HoldingRow → Bool
is_held_in account h = same_account h.account_id account && ltb 0 h.quantity

-- What is sold of one symbol: a market order of the type `sell_open_board` with no trigger.
abbrev pub clear_out_order : ℕ → ℕ → Payload
clear_out_order symbol qty = record {
  symbol = some symbol;
  order_type = some OrderType.sell_open_board;
  direction = some Side.sell;
  qty = some qty;
  trigger = no_trigger;
  price_type = some PriceType.market;
}

-- The loop; an order that is refused is passed over. Order ids are drawn one after the other.
abbrev pub placed_more : Placed → List OrderRow → List OrderRow
placed_more (placed r) rs = r ∷ rs
placed_more _ rs = rs

unfoldable pub sell_each : ℕ → ℕ → AccountId → List (ℕ × ℕ) → Store → List OrderRow × Store
sell_each id now account [] s = ([], s)
sell_each id now account ((symbol, qty) ∷ gs) s =
    let one = place_order id now account false (clear_out_order symbol qty) s in
    let rest = sell_each (id + 1) now account gs one.1 in (placed_more one.0 rest.0, rest.1)

-- The orders placed and whether the account is halted; `none` is OrderError.
abbrev pub sell_main :
    ℕ → ℕ → Store → Option (Agent × Account) → Option (List OrderRow × Bool) × Store
sell_main id now s none = (none, s)
sell_main id now s (some (a, m)) =
    if same_status m.status AccountStatus.halted
    then (some ([], true), s)
    else (let sold = sell_each id now m.id (groups_of (select (is_held_in m.id) s.holdings)) s in
        (some (sold.0, false), sold.1))

unfoldable pub emergency_sell_all : ℕ → ℕ → ℕ → Store → Option (List OrderRow × Bool) × Store
emergency_sell_all i id now s = sell_main id now s (main_of_agent i s)

-- The global form, over the running strategy agents by their id; the fresh ids of each agent's orders
-- come after those before it. An error ends the loop.
abbrev orders_of : Option (List OrderRow × Bool) → List OrderRow
orders_of none = []
orders_of (some (rs, blocked)) = rs

unfoldable pub sell_all_each : ℕ → ℕ → List (Agent × Account) → Store → List OrderRow × Store
sell_all_each id now [] s = ([], s)
sell_all_each id now ((a, m) ∷ rows) s =
    let one = emergency_sell_all a.id id now s in
    let rest = sell_all_each (id + length (orders_of one.0)) now rows one.1 in
    elim one.0 [ none ↦ ([], s) | some r ↦ (orders_of one.0 ++ rest.0, rest.1) ]

unfoldable pub emergency_sell_all_global : ℕ → ℕ → Store → List OrderRow × Store
emergency_sell_all_global id now s =
    sell_all_each id now
      (select (λ r. is_running r.0.status) (joined s.accounts (agents_by_id s.agents))) s
