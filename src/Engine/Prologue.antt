-- ===== src/Engine/Prologue.antt =====
-- The beginning of `settle_account` in core/eodengine.py: the checks of the account, of the day's
-- series and of the active orders, and the orders that are refused before the first fill.
use ai_agent_stock_trading_s.Prelude.{
  ℕ, ◌+◌, Bool, true, false, not, ◌&&◌, ◌||◌, Option, none, some, List, [], ◌∷◌, ℤ, pos_part,
  neg_part, ltb, ◌==◌, if◌then◌else◌, any,
}
use ai_agent_stock_trading_s.Engine.Result.{Result, ok, err, gap, engine, ◌>>=◌, ◌>>◌, raise_if}
use ai_agent_stock_trading_s.Engine.Money.{buy}
use ai_agent_stock_trading_s.Engine.Order.{
  Order, OrderType, Status, InvalidReason, qty_rule, restricted_buy, delisted, basis_requires_l0,
}
use ai_agent_stock_trading_s.Engine.Book.{Book, Day}
use ai_agent_stock_trading_s.Engine.Tier.{Entry, waiting, is_active}
use ai_agent_stock_trading_s.Engine.Replay.{Sample, is_buy_side, is_buy_type}
use ai_agent_stock_trading_s.Engine.Minutes.{Bar}
use ai_agent_stock_trading_s.Engine.Daily.{Range}
use ai_agent_stock_trading_s.Engine.Corp.{Event, delist_zero, delist_at}
use ai_agent_stock_trading_s.Orders.{qty_rule_ok}

-- A dict keyed by symbols.
abbrev pub lookup : {A : Type 0} → ℕ → List (ℕ × A) → Option A
lookup s [] = none
lookup s ((t, a) ∷ rest) = if t == s then some a else lookup s rest

abbrev pub has : {A : Type 0} → ℕ → List (ℕ × A) → Bool
has s [] = false
has s ((t, a) ∷ rest) = if t == s then true else has s rest

-- `series_map`, `l1_map`, `l2_map` and `suspend_map`.
pub record Feeds : Type 0 where
  pub l0 : List (ℕ × List Sample)
  pub l1 : List (ℕ × List Bar)
  pub l2 : List (ℕ × Range)
  pub suspended : List (ℕ × ℕ)

-- The test for symbols with more than one series.
abbrev pub overlaps_at : Feeds → List (ℕ × Range) → Bool
overlaps_at f [] = false
overlaps_at f ((s, x) ∷ rest) = if has s f.l0 || has s f.l1 then true else overlaps_at f rest

unfoldable pub overlaps : Feeds → Bool
overlaps f = overlaps_at f f.l2

pub data Feed : Type 0 where
  l0_feed l1_feed l2_feed : Feed

unfoldable pub feed_kind : Feeds → ℕ → Feed
feed_kind f s = if has s f.l1 then l1_feed else if has s f.l2 then l2_feed else l0_feed

-- `{**close_map, **suspend_map}`
abbrev or_close : Option ℕ → Option ℕ → Option ℕ
or_close none c = c
or_close (some p) c = some p

abbrev pub with_suspended : Feeds → Day → Day
with_suspended f d = record d { close = λ s. or_close (lookup s f.suspended) (d.close s) }

-- The tokens of `restrict_map` and `buy_exempt`.
pub data Token : Type 0 where
  st ipo other_token : Token

-- `single_stock_cap`: absent, not a number, or in 10⁻⁴.
pub data Cap : Type 0 where
  no_cap unreadable_cap : Cap
  cap_of : ℤ → Cap

-- The account's row with its tables; `buy_exempt` is `none` where it is not JSON. Shares are counted
-- in hundredths; `settled` are the days in `settlement_log`.
pub record Account : Type 0 where
  pub is_eod_replay : Bool
  pub shares : ℤ
  pub buy_exempt : Option (List Token)
  pub single_cap : Cap
  pub initial_capital : ℤ
  pub book : Book
  pub orders : List Order
  pub settled : List ℕ

-- The other arguments of `settle_account`.
pub record Request : Type 0 where
  pub feeds : Feeds
  pub restricted : ℕ → List Token
  pub circuit_freeze : Bool
  pub events : List (ℕ × List Event)

unfoldable pub cap_value : Cap → Result ℕ
cap_value no_cap = ok 10000
cap_value unreadable_cap = err engine
cap_value (cap_of c) = if ltb 0 (neg_part c) then err engine else ok (pos_part c)

abbrev exempt_of : Option (List Token) → Result (List Token)
exempt_of none = err engine
exempt_of (some ts) = ok ts

-- What the checks of the row leave: the exempted tokens and the cap.
unfoldable pub check_account : Account → Result (List Token × ℕ)
unfolding cap_value
check_account a = do
  raise_if (not a.is_eod_replay) gap
  raise_if (pos_part a.shares == 0) engine
  exempt ← exempt_of a.buy_exempt
  cap ← cap_value a.single_cap
  ok (exempt, cap)

-- `SUPPORTED_ORDER_TYPES`
abbrev pub is_supported : OrderType → Bool
is_supported OrderType.buy_seal_confirm = false
is_supported OrderType.basket = false
is_supported OrderType.combo = false
is_supported _ = true

abbrev is_open_board : OrderType → Bool
is_open_board OrderType.sell_open_board = true
is_open_board _ = false

abbrev is_l0 : Feed → Bool
is_l0 l0_feed = true
is_l0 _ = false

abbrev pub refuse : InvalidReason → Order → Order
refuse reason o = record o { status = Status.invalid; invalid_reason = reason }

abbrev pub is_fed : Feeds → ℕ → Bool
is_fed f s = has s f.l0 || has s f.l1 || has s f.l2 || has s f.suspended

-- The loop over the orders: one that the engine cannot replay aborts the settlement.
unfoldable pub check_order : Feeds → Order → Result Order
unfolding feed_kind
check_order f o = do
  raise_if (not (is_supported o.order_type)) gap
  raise_if (not o.is_single || not o.is_replay_l0) gap
  raise_if (not (is_fed f o.symbol)) engine
  ok (
      if is_open_board o.order_type && not (is_l0 (feed_kind f o.symbol))
      then refuse basis_requires_l0 o
      else o)

unfoldable pub check_orders : Feeds → List Order → Result (List Order)
unfolding check_order
check_orders f [] = ok []
check_orders f (o ∷ os) = do first ← check_order f o; rest ← check_orders f os; ok (first ∷ rest)

-- The three static checks before the opening; the last one that refuses an order names the reason.
unfoldable pub screen_qty : Order → Order
screen_qty o =
    if is_buy_side o.direction && not (qty_rule_ok o.symbol o.qty buy) then refuse qty_rule o else o

abbrev same_token : Token → Token → Bool
same_token st st = true
same_token ipo ipo = true
same_token other_token other_token = true
same_token _ _ = false

abbrev restricts : Token → Bool
restricts other_token = false
restricts _ = true

abbrev pub is_barred : List Token → List Token → Bool
is_barred exempt tokens = any (λ t. restricts t && not (any (same_token t) exempt)) tokens

unfoldable pub screen_restricted : List Token → (ℕ → List Token) → Order → Order
screen_restricted exempt restricted o =
    if is_buy_type o.order_type && is_barred exempt (restricted o.symbol)
    then refuse restricted_buy o
    else o

abbrev is_delist : Event → Bool
is_delist delist_zero = true
is_delist (delist_at _) = true
is_delist _ = false

abbrev pub is_delisted : ℕ → List (ℕ × List Event) → Bool
is_delisted s [] = false
is_delisted s ((t, es) ∷ rest) = (t == s) && any is_delist es || is_delisted s rest

unfoldable pub screen_delisted : List (ℕ × List Event) → Order → Order
screen_delisted events o = if is_delisted o.symbol events then refuse delisted o else o

unfoldable pub screen : List Token → Request → Order → Order
unfolding screen_qty screen_restricted screen_delisted
screen exempt r o = screen_delisted r.events (screen_restricted exempt r.restricted (screen_qty o))

-- `runtime`, and the purchases that the circuit breaker freezes for the day.
unfoldable pub entry_of : Bool → Order → Entry
entry_of freeze o =
    let frozen = freeze && is_buy_side o.direction && is_active o.status in
    record {
      order = o;
      ins = o.insufficient_events;
      cct = if frozen then o.circuit_break_events + 1 else o.circuit_break_events;
      final = waiting;
      frozen = frozen;
    }

abbrev pub entries_of : Bool → List Token → Request → List Order → List Entry
entries_of freeze exempt r [] = []
entries_of freeze exempt r (o ∷ os) =
    entry_of freeze (screen exempt r o) ∷ entries_of freeze exempt r os
