-- ===== src/Engine/Book.antt =====
-- One account's book inside the settlement transaction of core/eodengine.py, and the closures of
-- `settle_account` that fill an order: `sell_fill`, `buy_fill`, `single_cap_ok` and what they call.
-- A table is the list of its rows; lots stand in the order of `ORDER BY buy_date, id`, and a trade's
-- id is its place in the table.
pub mod Fifo
pub mod Shares
pub mod Fills
pub mod Limits
use ai_agent_stock_trading_s.Prelude.{
  ℕ, ◌+◌, ◌-◌, ◌*◌, min, Bool, true, not, ◌&&◌, ◌||◌, Option, none, some, List, [], ◌∷◌, ◌++◌, ℤ,
  pos, pos_part, neg_part, sub_ℕ, ◌+ℤ◌, ◌-ℤ◌, ltb_ℤ, ltb, leb, ◌==◌, if◌then◌else◌, length, find,
  update_where, delete_where,
}
use ai_agent_stock_trading_s.Engine.Result.{Result, ok, err, engine, ◌>>=◌, or_raise}
use ai_agent_stock_trading_s.Engine.Money.{
  fen, cost_unit, half_up, half_up_ℤ, amount_of, fees, Fees, FeeSchedule, Side, buy, sell, Board,
}
use ai_agent_stock_trading_s.Engine.Order.{Order, Reason, other, voluntary}

-- The kinds of corporate action that mark a lot.
pub data CorpKind : Type 0 where
  split_kind dividend_kind rights_kind : CorpKind

-- One of `corp_action_flags`: `f"{kind}:{ex_date}:{symbol}"`.
pub record Tag : Type 0 where
  pub kind : CorpKind
  pub date : ℕ
  pub symbol : ℕ

-- `buy_trade` is absent from a lot that was subscribed.
pub record Lot : Type 0 where
  pub symbol : ℕ
  pub buy_trade : Option ℕ
  pub buy_date : ℕ
  pub buy_price : ℕ
  pub quantity : ℕ
  pub remaining : ℕ
  pub flags : List Tag

pub record Holding : Type 0 where
  pub symbol : ℕ
  pub quantity : ℕ
  pub avg_cost : ℕ

pub data Quality : Type 0 where
  plain degraded close_minute_fill : Quality

pub record Trade : Type 0 where
  pub order_id : ℕ
  pub symbol : ℕ
  pub side : Side
  pub qty : ℕ
  pub price : ℕ
  pub amount : ℕ
  pub fee : Fees
  pub time : ℕ
  pub quality : Quality
  pub settle_date : ℕ
  pub realized_pnl : Option ℤ

pub record Signal : Type 0 where
  pub side : Side
  pub symbol : ℕ
  pub reg_date : ℕ
  pub ref_price : ℕ

pub record Exit : Type 0 where
  pub trade : ℕ
  pub symbol : ℕ
  pub sell_date : ℕ
  pub sell_price : ℕ
  pub qty : ℕ
  pub reason : Reason
  pub bench_close : ℕ

-- `held_qty`, the closures' copy of the holdings' quantities, has the same values as `holdings`.
pub record Book : Type 0 where
  pub cash : ℤ
  pub holdings : List Holding
  pub lots : List Lot
  pub trades : List Trade
  pub signals : List Signal
  pub exits : List Exit

-- The arguments of `settle_account` that the fills read; `single_cap` is in 10⁻⁴.
pub record Day : Type 0 where
  pub date : ℕ
  pub fee : FeeSchedule
  pub close : ℕ → Option ℕ
  pub prev_close : ℕ → Option ℕ
  pub hist_high : ℕ → Option ℕ
  pub board : ℕ → Option Board
  pub bench_close : Option ℕ
  pub single_cap : ℕ

-- `require_close`
unfoldable pub require_close : Day → ℕ → Result ℕ
require_close d s = or_raise (d.close s) engine

abbrev pub is_holding : ℕ → Holding → Bool
is_holding s h = h.symbol == s

abbrev pub is_lot : ℕ → Lot → Bool
is_lot s l = l.symbol == s

-- The lots that T+1 lets the account sell.
abbrev pub is_sellable : ℕ → ℕ → Lot → Bool
is_sellable s date l = (l.symbol == s) && ltb l.buy_date date

-- `SUM(l.remaining)` over the sellable lots.
abbrev pub sellable : ℕ → ℕ → List Lot → ℕ
sellable s date [] = 0
sellable s date (l ∷ ls) = (if is_sellable s date l then l.remaining else 0) + sellable s date ls

-- The FIFO loop: the lots after taking `rem` shares, and what could not be taken.
abbrev pub take_of : ℕ → ℕ → ℕ → Lot → ℕ
take_of s date rem l = if is_sellable s date l then min l.remaining rem else 0

unfoldable pub consume : ℕ → ℕ → ℕ → List Lot → List Lot × ℕ
consume s date rem [] = ([], rem)
consume s date rem (l ∷ ls) =
    let t = take_of s date rem l in
    let (rest, left) = consume s date (rem - t) ls in
    (record l { remaining = l.remaining - t } ∷ rest, left)

-- The quantity of a symbol's holding, 0 where it has none: `held_qty.get(symbol, 0)`.
abbrev pub quantity_of : Option Holding → ℕ
quantity_of none = 0
quantity_of (some h) = h.quantity

unfoldable pub held_qty : ℕ → List Holding → ℕ
held_qty s hs = quantity_of (find (is_holding s) hs)

-- `holding(symbol, delta)` for a purchase: a new row, or a larger quantity.
unfoldable pub add_holding : ℕ → ℕ → List Holding → List Holding
add_holding s delta [] = record { symbol = s; quantity = delta; avg_cost = 0 } ∷ []
add_holding s delta (h ∷ hs) =
    if is_holding s h
    then record h { quantity = h.quantity + delta } ∷ hs
    else h ∷ add_holding s delta hs

-- `UPDATE holdings SET avg_cost=? WHERE id=?`
unfoldable pub set_avg_cost : ℕ → ℕ → List Holding → List Holding
set_avg_cost s avg = update_where (is_holding s) (λ h. record h { avg_cost = avg })

unfoldable pub sub_holding : ℕ → ℕ → List Holding → List Holding
sub_holding s delta = update_where (is_holding s) (λ h. record h { quantity = h.quantity - delta })

-- `write_trade`: the trade's row and the signal that goes with it; the signal's reference price is
-- the official close, or the fill price where there is none.
abbrev pub or_else : Option ℕ → ℕ → ℕ
or_else none x = x
or_else (some y) x = y

unfoldable pub write_trade :
    Day → Order → Side → ℕ → ℕ → ℕ → Fees → Quality → Option ℤ → Book → Book
write_trade d o side qty price ts fz quality pnl b = record b {
  trades =
      b.trades
      ++ record {
        order_id = o.id;
        symbol = o.symbol;
        side = side;
        qty = qty;
        price = price;
        amount = amount_of price qty;
        fee = fz;
        time = ts;
        quality = quality;
        settle_date = d.date;
        realized_pnl = pnl;
      }
        ∷ [];
  signals =
      b.signals
      ++ record {
        side = side;
        symbol = o.symbol;
        reg_date = d.date;
        ref_price = or_else (d.close o.symbol) price;
      }
        ∷ [];
}

-- `record_sell_pnl`: the net proceeds less the average cost of the shares sold.
abbrev pnl_of : ℕ → ℕ → ℕ → Option Holding → Option ℤ
pnl_of amount fee qty none = none
pnl_of amount fee qty (some h) =
    some (half_up_ℤ (sub_ℕ (amount * 100) (fee * 100 + h.avg_cost * qty)) 100)

-- `register_exit`
abbrev pub exit_reason : Reason → Reason
exit_reason other = voluntary
exit_reason r = r

unfoldable pub register_exit : Day → Order → ℕ → ℕ → ℕ → Book → Book
register_exit d o tid qty price b = record b {
  exits =
      b.exits
      ++ record {
        trade = tid;
        symbol = o.symbol;
        sell_date = d.date;
        sell_price = half_up price fen;
        qty = qty;
        reason = exit_reason o.reason;
        bench_close = or_else d.bench_close 0;
      }
        ∷ [];
}

pub data Outcome : Type 0 where
  done insufficient : Outcome

-- The tail of `sell_fill`: the quantities after the sale, and no rows where nothing is left.
unfoldable pub close_out : ℕ → ℕ → Book → Book
close_out s qty b =
    if leb (held_qty s b.holdings) qty
    then record b {
      holdings = delete_where (is_holding s) b.holdings;
      lots = delete_where (is_lot s) b.lots;
    }
    else record b { holdings = sub_holding s qty b.holdings }

-- The rows that a sale writes, from the trade to the exit. `register` tells whether the tier
-- registers the exit.
unfoldable pub sold_book : Day → Order → ℕ → ℕ → ℕ → Quality → Bool → Book → Book
sold_book d o qty price ts quality register b =
    let amount = amount_of price qty in
    let fz = fees amount sell d.fee in
    let pnl = pnl_of amount fz.total qty (find (is_holding o.symbol) b.holdings) in
    let written = write_trade d o sell qty price ts fz quality pnl b in
    let sold = record written {
      cash = b.cash +ℤ sub_ℕ amount fz.total;
      lots = (consume o.symbol d.date qty b.lots).0;
    } in
    let closed = close_out o.symbol qty sold in
    if register then register_exit d o (length b.trades) qty price closed else closed

-- A sale that T+1 allows; lots that do not cover it are an error.
unfoldable pub sell_shares : Day → Order → ℕ → ℕ → ℕ → Quality → Bool → Book → Result Book
sell_shares d o qty price ts quality register b =
    if (consume o.symbol d.date qty b.lots).1 == 0
    then ok (sold_book d o qty price ts quality register b)
    else err engine

-- `sell_fill`; an order's quantity is at least 1, of 0 shares without a holding the code raises.
unfoldable pub sell_fill : Day → Order → ℕ → ℕ → ℕ → Book → Result (Outcome × Book)
sell_fill d o qty price ts b =
    if ltb (sellable o.symbol d.date b.lots) qty
    then ok (insufficient, b)
    else (sell_shares d o qty price ts plain true b >>= λ b'. ok (done, b'))

-- Σ held quantity × price; the bought symbol counts at the fill price, the others at their close.
unfoldable pub holdings_value : Day → ℕ → ℕ → List Holding → Result ℕ
unfolding require_close
holdings_value d s price [] = ok 0
holdings_value d s price (h ∷ hs) = do
  p ← (if h.symbol == s then ok price else require_close d h.symbol)
  rest ← holdings_value d s price hs
  ok (h.quantity * p + rest)

-- `post_mv <= single_cap * eq_post`, with the spending moved to the left side.
abbrev pub cap_holds : ℕ → ℕ → ℤ → ℕ → ℕ → Bool
cap_holds cap post_mv cash spent value =
    leb (post_mv * 10000 + cap * (neg_part cash * fen + spent * fen))
      (cap * (pos_part cash * fen + value))

-- `single_cap_ok`
unfoldable pub single_cap_ok : Day → ℕ → ℕ → ℕ → ℕ → Book → Result Bool
single_cap_ok d s qty price spent b =
    if leb 10000 d.single_cap || qty == 0
    then ok true
    else (holdings_value d s price b.holdings >>= λ value.
        ok (cap_holds d.single_cap ((held_qty s b.holdings + qty) * price) b.cash spent value))

-- `INSERT INTO lots` keeps the table's order: behind every lot bought on the day or before.
unfoldable pub insert_lot : Lot → List Lot → List Lot
insert_lot l [] = l ∷ []
insert_lot l (x ∷ xs) = if leb x.buy_date l.buy_date then x ∷ insert_lot l xs else l ∷ x ∷ xs

-- The rows that a purchase writes. The average cost is this purchase's outlay over the whole
-- quantity held.
unfoldable pub buy_shares : Day → Order → ℕ → ℕ → ℕ → Quality → Book → Book
buy_shares d o qty price ts quality b =
    let amount = amount_of price qty in
    let fz = fees amount buy d.fee in
    let spent = amount + fz.total in
    let written = write_trade d o buy qty price ts fz quality none b in
    let hs = add_holding o.symbol qty b.holdings in
    let avg = half_up (spent * 100) (held_qty o.symbol hs) in
    record written {
      cash = b.cash -ℤ pos spent;
      holdings = set_avg_cost o.symbol avg hs;
      lots =
          insert_lot
            (record {
              symbol = o.symbol;
              buy_trade = some (length b.trades);
              buy_date = d.date;
              buy_price = half_up price cost_unit * cost_unit;
              quantity = qty;
              remaining = qty;
              flags = [];
            })
            b.lots;
    }

-- The cash that a purchase takes.
abbrev pub outlay : Day → ℕ → ℕ → ℕ
outlay d qty price = amount_of price qty + (fees (amount_of price qty) buy d.fee).total

-- `buy_fill`: over the cap, or short of cash, the event is counted and the order stays active.
unfoldable pub buy_within : Day → Order → ℕ → ℕ → ℕ → Book → Bool → Result (Outcome × Book)
buy_within d o qty price ts b within = ok (
    if not within
    then (insufficient, b)
    else if ltb_ℤ b.cash (pos (outlay d qty price))
    then (insufficient, b)
    else (done, buy_shares d o qty price ts plain b))

unfoldable pub buy_fill : Day → Order → ℕ → ℕ → ℕ → Book → Result (Outcome × Book)
unfolding buy_within
buy_fill d o qty price ts b =
    single_cap_ok d o.symbol qty price (outlay d qty price) b >>= buy_within d o qty price ts b
