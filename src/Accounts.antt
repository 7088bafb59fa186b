-- ===== src/Accounts.antt =====
-- The accounts of the strategy agents, core/accountstore.py: the users' direct control of them and
-- the freezing of securities. Texts that are only stored or compared are numbers; the cash, the
-- capital, the prices and the instants of the rows are not read by these calls and not modelled.
pub mod Placing
pub mod Trial
pub mod Control
pub mod Freezing
pub mod Emergency
pub mod Numbers
pub mod Windows
pub mod Changes
pub mod Launches
use ai_agent_stock_trading_s.Prelude.{
  ℕ, ◌+◌, Bool, true, false, not, ◌&&◌, ◌||◌, Option, none, some, List, [], ◌∷◌, ◌++◌, map, ltb,
  leb, ◌==◌, if◌then◌else◌, length, any, find, select, update_where, delete_where, count_where,
}
use ai_agent_stock_trading_s.Engine.Money.{Side}
use ai_agent_stock_trading_s.Engine.Order.{OrderType, Trigger, PriceType}

pub data AgentRole : Type 0 where
  manager strategy : AgentRole

pub data AgentStatus : Type 0 where
  trial running paused halted archived : AgentStatus

pub record Agent : Type 0 where
  pub id : ℕ
  pub role : AgentRole
  pub status : AgentStatus

-- The ids that the module gives to accounts: the agent's id, `.trial`, `.validation` and its number.
pub data AccountId : Type 0 where
  main_of trial_of : ℕ → AccountId
  validation_of : ℕ → ℕ → AccountId

pub data AccountRole : Type 0 where
  main trial validation : AccountRole

pub data AccountStatus : Type 0 where
  trial normal paused_buy halted archived : AccountStatus

pub record Account : Type 0 where
  pub id : AccountId
  pub agent_id : ℕ
  pub role : AccountRole
  pub status : AccountStatus

pub data OrderStatus : Type 0 where
  active partial filled expired invalid cancelled : OrderStatus

-- A row of condition_orders, as far as these calls read or write it.
pub record OrderRow : Type 0 where
  pub id : ℕ
  pub account_id : AccountId
  pub order_type : OrderType
  pub direction : Side
  pub symbol : ℕ
  pub trigger : Trigger
  pub is_replay_l0 : Bool
  pub qty : ℕ
  pub price_type : PriceType
  pub status : OrderStatus
  pub created_at : ℕ

pub record Frozen : Type 0 where
  pub agent_id : ℕ
  pub account_id : AccountId
  pub symbol : ℕ

pub record HoldingRow : Type 0 where
  pub account_id : AccountId
  pub symbol : ℕ
  pub quantity : ℕ

pub data Decision : Type 0 where
  launch reject : Decision

pub data ReplayStatus : Type 0 where
  in_progress done : ReplayStatus

pub record TrialReplay : Type 0 where
  pub agent_id : ℕ
  pub trial_account_id : AccountId
  pub window_days : ℕ
  pub status : ReplayStatus

-- A row of replay_sessions, and one of settlement_log.
pub record Session : Type 0 where
  pub agent_id : ℕ
  pub trade_date : ℕ

pub record Settlement : Type 0 where
  pub account_id : AccountId
  pub trade_date : ℕ

pub record Archive : Type 0 where
  pub agent_id : ℕ
  pub account_id : AccountId
  pub decision : Decision
  pub replay_dates : List ℕ
  pub settle_dates : List ℕ
  pub orders : ℕ

pub record Store : Type 0 where
  pub agents : List Agent
  pub accounts : List Account
  pub orders : List OrderRow
  pub frozen : List Frozen
  pub holdings : List HoldingRow
  pub replays : List TrialReplay
  pub sessions : List Session
  pub settlements : List Settlement
  pub archives : List Archive

abbrev pub same_account : AccountId → AccountId → Bool
same_account (main_of a) (main_of b) = a == b
same_account (trial_of a) (trial_of b) = a == b
same_account (validation_of a m) (validation_of b n) = (a == b) && (m == n)
same_account _ _ = false

abbrev pub is_strategy : AgentRole → Bool
is_strategy strategy = true
is_strategy manager = false

abbrev pub is_running : AgentStatus → Bool
is_running running = true
is_running _ = false

abbrev pub is_on_trial : AgentStatus → Bool
is_on_trial AgentStatus.trial = true
is_on_trial _ = false

abbrev pub same_role : AccountRole → AccountRole → Bool
same_role main main = true
same_role AccountRole.trial AccountRole.trial = true
same_role validation validation = true
same_role _ _ = false

abbrev pub same_status : AccountStatus → AccountStatus → Bool
same_status AccountStatus.trial AccountStatus.trial = true
same_status normal normal = true
same_status paused_buy paused_buy = true
same_status AccountStatus.halted AccountStatus.halted = true
same_status AccountStatus.archived AccountStatus.archived = true
same_status _ _ = false

abbrev pub is_agent : ℕ → Agent → Bool
is_agent i a = a.id == i

abbrev pub has_role : ℕ → AccountRole → Account → Bool
has_role i role a = (a.agent_id == i) && same_role a.role role

abbrev pub is_account : AccountId → Account → Bool
is_account i a = same_account a.id i

abbrev pub is_frozen : ℕ → ℕ → Frozen → Bool
is_frozen agent symbol f = (f.agent_id == agent) && (f.symbol == symbol)

-- The result of a call: done, or LookupError, whose transaction leaves the tables as they were.
pub data Outcome (A : Type 0) : Type 0 where
  done : A → Store → Outcome A
  refused : Outcome A

abbrev pub store_of : {A : Type 0} → Store → Outcome A → Store
store_of s (done x t) = t
store_of s refused = s

-- The agent's main account, if the agent is a strategy agent that has one.
abbrev pub main_if : Store → ℕ → Option Agent → Option (Agent × Account)
main_if s i none = none
main_if s i (some a) =
    if is_strategy a.role
    then elim (find (has_role i main) s.accounts) [ none ↦ none | some m ↦ some (a, m) ]
    else none

unfoldable pub main_of_agent : ℕ → Store → Option (Agent × Account)
main_of_agent i s = main_if s i (find (is_agent i) s.agents)

abbrev pub set_status : AccountId → AccountStatus → Store → Store
set_status i status s = record s {
  accounts = update_where (is_account i) (λ a. record a { status = status }) s.accounts;
}

-- `control_agent`; it returns the status that the account had and the new one.
pub data ControlOp : Type 0 where
  pause_buy halt resume : ControlOp

abbrev pub target_of : ControlOp → AccountStatus
target_of pause_buy = paused_buy
target_of halt = AccountStatus.halted
target_of resume = normal

abbrev pub control_main :
    ControlOp → Store → Option (Agent × Account) → Outcome (AccountStatus × AccountStatus)
control_main op s none = refused
control_main op s (some (a, m)) =
    if not (is_running a.status)
    then refused
    else if same_status m.status (target_of op)
    then refused
    else done (m.status, target_of op) (set_status m.id (target_of op) s)

unfoldable pub control_agent : ℕ → ControlOp → Store → Outcome (AccountStatus × AccountStatus)
control_agent i op s = control_main op s (main_of_agent i s)

-- `control_all`: the strategy agents by their id, with each main account; the applied and the skipped.
abbrev pub row_of : Agent → Account → Agent × Account
row_of a m = (a, m)

unfoldable pub insert_agent : Agent → List Agent → List Agent
insert_agent a [] = a ∷ []
insert_agent a (b ∷ bs) = if leb a.id b.id then a ∷ b ∷ bs else b ∷ insert_agent a bs

unfoldable pub agents_by_id : List Agent → List Agent
agents_by_id [] = []
agents_by_id (a ∷ rest) = insert_agent a (agents_by_id rest)

unfoldable pub joined : List Account → List Agent → List (Agent × Account)
joined accounts [] = []
joined accounts (a ∷ rest) =
    (if is_strategy a.role then map (row_of a) (select (has_role a.id main) accounts) else [])
    ++ joined accounts rest

unfoldable pub control_each : AccountStatus → List (Agent × Account) → Store → (ℕ × ℕ) × Store
control_each target [] s = ((0, 0), s)
control_each target ((a, m) ∷ rows) s =
    let skips = not (is_running a.status) || same_status m.status target in
    let rest = control_each target rows (if skips then s else set_status m.id target s) in
    ((if skips then (rest.0.0, rest.0.1 + 1) else (rest.0.0 + 1, rest.0.1)), rest.1)

unfoldable pub control_all : ControlOp → Store → (ℕ × ℕ) × Store
control_all op s = control_each (target_of op) (joined s.accounts (agents_by_id s.agents)) s

-- `freeze_security` cancels the open buy orders of the symbol in the main account; it returns how many.
abbrev is_open_status : OrderStatus → Bool
is_open_status active = true
is_open_status partial = true
is_open_status _ = false

abbrev is_buy : Side → Bool
is_buy Side.buy = true
is_buy Side.sell = false

abbrev pub is_open_buy : AccountId → ℕ → OrderRow → Bool
is_open_buy account symbol o =
    same_account o.account_id account
    && (o.symbol == symbol)
    && is_buy o.direction
    && is_open_status o.status

abbrev pub freeze_main : ℕ → ℕ → Store → Option (Agent × Account) → Outcome ℕ
freeze_main i symbol s none = refused
freeze_main i symbol s (some (a, m)) =
    if any (is_frozen i symbol) s.frozen
    then refused
    else done (count_where (is_open_buy m.id symbol) s.orders) (record s {
      frozen = s.frozen ++ record { agent_id = i; account_id = m.id; symbol = symbol } ∷ [];
      orders =
          update_where (is_open_buy m.id symbol) (λ o. record o { status = cancelled }) s.orders;
    })

unfoldable pub freeze_security : ℕ → Option ℕ → Store → Outcome ℕ
freeze_security i none s = refused
freeze_security i (some symbol) s = freeze_main i symbol s (main_of_agent i s)

unfoldable pub unfreeze_security : ℕ → ℕ → Store → Outcome ℕ
unfreeze_security i symbol s =
    let removed = count_where (is_frozen i symbol) s.frozen in
    if removed == 0
    then refused
    else done removed (record s { frozen = delete_where (is_frozen i symbol) s.frozen })
