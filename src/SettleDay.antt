-- ===== src/SettleDay.antt =====
-- One day's settlement of an account from core/settle_day.py: the orders and the holdings that the day
-- looks at, the series that the data service supplies for them, and the call of the engine. The data
-- service's answers (`market_data.settle_input`, `daily_pair`) are parameters.
pub mod Supplied
use ai_agent_stock_trading_s.Prelude.{
  ℕ, Bool, true, false, not, ◌&&◌, ◌||◌, Option, none, some, List, [], ◌∷◌, map, ltb, ◌==◌,
  if◌then◌else◌, any, select,
}
use ai_agent_stock_trading_s.Engine.Result.{
  Result, Error, gap, engine, decimal, below_zero, ok, err,
}
use ai_agent_stock_trading_s.Engine.Order.{Order, Validity, today, until, long, date_of}
use ai_agent_stock_trading_s.Engine.Book.{Day, Holding}
use ai_agent_stock_trading_s.Engine.Tier.{insert_symbol, is_active}
use ai_agent_stock_trading_s.Engine.Replay.{Sample}
use ai_agent_stock_trading_s.Engine.Minutes.{Bar}
use ai_agent_stock_trading_s.Engine.Daily.{Range}
use ai_agent_stock_trading_s.Engine.Corp.{Event}
use ai_agent_stock_trading_s.Engine.Prologue.{Feeds, Account, Request, lookup, has}
use ai_agent_stock_trading_s.Engine.SettleAccount.{
  Settled, already_settled, settled, settle_account, after_settlement,
}

-- `_orders_for`
abbrev waits_for_days : Validity → Bool
waits_for_days today = false
waits_for_days until = true
waits_for_days long = true

abbrev is_due_on : ℕ → Validity → Option ℕ → Bool
is_due_on date v none = false
is_due_on date v (some created) =
    date_of created == date || (ltb (date_of created) date && waits_for_days v)

unfoldable pub orders_for : ℕ → Account → List Order
orders_for date a =
    select (λ o. is_active o.status && is_due_on date o.validity o.created_at) a.orders

-- `_held_symbols`
unfoldable pub held_symbols : Account → List ℕ
held_symbols a = map (λ h. h.symbol) (select (λ h. ltb 0 h.quantity) a.book.holdings)

-- `sorted({…})`
unfoldable pub sorted_set : List ℕ → List ℕ
unfolding insert_symbol
sorted_set [] = []
sorted_set (s ∷ ss) = insert_symbol s (sorted_set ss)

-- What the data service answers for a symbol with an order: `none` is a refusal.
pub data Level : Type 0 where
  l0_level : List Sample → Level
  l1_level : List Bar → Level
  l2_level : Range → Level
  unknown_level : Level

pub record Input : Type 0 where
  pub level : Level
  pub official_close : ℕ
  pub prev_close : Option ℕ
  pub is_degraded : Bool

-- The pair of a symbol that is only held, and the row of a suspended one.
pub record Pair : Type 0 where
  pub official_close : ℕ
  pub prev_close : ℕ

pub record Suspension : Type 0 where
  pub close : ℕ
  pub prev : Option ℕ

-- What `_build_feeds` returns; of `quality_marks` the symbols.
pub record Supply : Type 0 where
  pub series_map : List (ℕ × List Sample)
  pub l1_map : List (ℕ × List Bar)
  pub l2_map : List (ℕ × Range)
  pub close_map : List (ℕ × ℕ)
  pub prev_close_map : List (ℕ × ℕ)
  pub quality_marks : List ℕ

abbrev pub no_supply : Supply
no_supply = record {
  series_map = [];
  l1_map = [];
  l2_map = [];
  close_map = [];
  prev_close_map = [];
  quality_marks = [];
}

unfoldable pub put_series : ℕ → Level → Supply → Option Supply
put_series s (l0_level []) p = none
put_series s (l0_level (x ∷ xs)) p = some (record p { series_map = (s, x ∷ xs) ∷ p.series_map })
put_series s (l1_level xs) p = some (record p { l1_map = (s, xs) ∷ p.l1_map })
put_series s (l2_level x) p = some (record p { l2_map = (s, x) ∷ p.l2_map })
put_series s unknown_level p = none

abbrev put_prev : ℕ → Option ℕ → List (ℕ × ℕ) → List (ℕ × ℕ)
put_prev s none ps = ps
put_prev s (some x) ps = (s, x) ∷ ps

abbrev pub put_closes : ℕ → Input → Supply → Supply
put_closes s i p = record p {
  close_map = (s, i.official_close) ∷ p.close_map;
  prev_close_map = put_prev s i.prev_close p.prev_close_map;
  quality_marks = if i.is_degraded then s ∷ p.quality_marks else p.quality_marks;
}

-- One pass of the loop over the symbols with orders: suspended, refused or supplied.
unfoldable pub supply_order : Bool → Option Input → ℕ → Option Supply → Option Supply
unfolding put_series
supply_order true i s rest = rest
supply_order false none s rest = none
supply_order false (some i) s none = none
supply_order false (some i) s (some p) = put_series s i.level (put_closes s i p)

unfoldable pub supply_orders : (ℕ → Option Input) → List (ℕ × Suspension) → List ℕ → Option Supply
unfolding supply_order
supply_orders input susp [] = some no_supply
supply_orders input susp (s ∷ ss) =
    supply_order (has s susp) (input s) s (supply_orders input susp ss)

-- One pass of the loop over the symbols that are only held.
abbrev prev_or : Option ℕ → ℕ → ℕ
prev_or none c = c
prev_or (some x) c = x

abbrev pub put_pair : ℕ → ℕ → ℕ → Supply → Supply
put_pair s c x p = record p {
  close_map = (s, c) ∷ p.close_map;
  prev_close_map = (s, x) ∷ p.prev_close_map;
}

unfoldable pub supply_held : Option Suspension → Option Pair → ℕ → Option Supply → Option Supply
supply_held v q s none = none
supply_held (some v) q s (some p) = some (put_pair s v.close (prev_or v.prev v.close) p)
supply_held none none s (some p) = none
supply_held none (some q) s (some p) = some (put_pair s q.official_close q.prev_close p)

unfoldable pub supply_helds :
    (ℕ → Option Pair) → List (ℕ × Suspension) → List ℕ → Option Supply → Option Supply
unfolding supply_held
supply_helds pair susp [] p = p
supply_helds pair susp (s ∷ ss) p =
    supply_held (lookup s susp) (pair s) s (supply_helds pair susp ss p)

-- `_build_feeds`: `none` is a `QuoteGapError`.
unfoldable pub build_feeds :
    (ℕ → Option Input) → (ℕ → Option Pair) → List (ℕ × Suspension) → List ℕ → List ℕ → Option Supply
unfolding supply_orders supply_helds sorted_set
build_feeds input pair susp ordered held =
    supply_helds pair susp (sorted_set (select (λ h. not (any (λ s. s == h) ordered)) held))
      (supply_orders input susp (sorted_set ordered))

abbrev pub feeds_of : List (ℕ × Suspension) → Supply → Feeds
feeds_of susp p = record {
  l0 = p.series_map;
  l1 = p.l1_map;
  l2 = p.l2_map;
  suspended = map (λ v. (v.0, v.1.close)) susp;
}

-- The arguments of `settle_account`; those that `run_day` does not pass have their defaults.
abbrev pub day_with : Day → Supply → Day
day_with d p = record d {
  close = λ s. lookup s p.close_map;
  prev_close = λ s. lookup s p.prev_close_map;
  hist_high = λ s. none;
  board = λ s. none;
  bench_close = none;
}

abbrev pub request_of : List (ℕ × Suspension) → List (ℕ × List Event) → Supply → Request
request_of susp events p = record {
  feeds = feeds_of susp p;
  restricted = λ s. [];
  circuit_freeze = false;
  events = events;
}

-- A row of the day's report; `not_reached` is none, the call had ended before.
pub data Outcome : Type 0 where
  skipped refused not_reached : Outcome
  failed : Error → Outcome
  done : Settled → Outcome

abbrev outcome_of : Result Settled → Outcome
outcome_of (err e) = failed e
outcome_of (ok x) = done x

abbrev account_with : ℕ → Account → Outcome → Account
account_with date a (done (settled x)) = after_settlement date a x
account_with date a _ = a

abbrev settle_supplied :
    Day → List (ℕ × Suspension) → List (ℕ × List Event) → Account → Option Supply → Outcome
settle_supplied d susp events a none = refused
settle_supplied d susp events a (some p) =
    outcome_of (settle_account (day_with d p) (request_of susp events p) (some a))

abbrev is_empty : List ℕ → Bool
is_empty [] = true
is_empty (s ∷ ss) = false

-- What the data side brings to the day.
pub record Market : Type 0 where
  pub input : ℕ → Option Input
  pub pair : ℕ → Option Pair
  pub suspend_map : List (ℕ × Suspension)
  pub corp_events : List (ℕ × List Event)

unfoldable pub run_account : Day → Market → Account → Outcome
unfolding orders_for held_symbols build_feeds settle_account
run_account d m a =
    let ordered = map (λ o. o.symbol) (orders_for d.date a) in
    let held = held_symbols a in
    if is_empty ordered && is_empty held
    then skipped
    else let susp =
        select (λ v. any (λ s. s == v.0) ordered || any (λ s. s == v.0) held) m.suspend_map in
      settle_supplied d susp m.corp_events a (build_feeds m.input m.pair susp ordered held)

-- Only `EngineError` and what is one are caught: after another error the call ends.
abbrev is_caught : Error → Bool
is_caught gap = true
is_caught engine = true
is_caught decimal = false
is_caught below_zero = false

abbrev ends_call : Outcome → Bool
ends_call (failed e) = not (is_caught e)
ends_call _ = false

-- `run_day` over the accounts that it chose; the accounts behind one that ended the call are as
-- before.
unfoldable pub run_day : Day → Market → List Account → List (Outcome × Account)
unfolding run_account
run_day d m [] = []
run_day d m (a ∷ others) =
    let o = run_account d m a in
    let rest = run_day d m others in
    (o, account_with d.date a o)
    ∷ (if ends_call o then map (λ b. (not_reached, b)) others else rest)
