-- ===== src/Engine/SettleAccount.antt =====
-- `settle_account` of core/eodengine.py from its arguments to the account's new rows: the checks, the
-- corporate actions, the three tiers of the replay, the rows of the orders and the closing figures.
-- The rows of audit_logs, the positions' snapshot and the report that follows are left out.
pub mod Whole
use ai_agent_stock_trading_s.Prelude.{
  ℕ, ◌+◌, Bool, true, false, not, Option, none, some, List, [], ◌∷◌, ℤ, pos_part, ◌+ℤ◌, ◌==◌,
  if◌then◌else◌, any, select, count_where,
}
use ai_agent_stock_trading_s.Engine.Result.{Result, ok, err, engine, ◌>>=◌, ◌>>◌, raise_if}
use ai_agent_stock_trading_s.Engine.Order.{Order}
use ai_agent_stock_trading_s.Engine.Book.{Book, Day, Trade}
use ai_agent_stock_trading_s.Engine.Tier.{Entry, is_active, symbols_of}
use ai_agent_stock_trading_s.Engine.Replay.{replay_l0}
use ai_agent_stock_trading_s.Engine.Minutes.{replay_l1}
use ai_agent_stock_trading_s.Engine.Daily.{replay_l2}
use ai_agent_stock_trading_s.Engine.Corp.{Corp, apply_corp_actions, start_corp}
use ai_agent_stock_trading_s.Engine.Prologue.{
  Feeds, lookup, overlaps, with_suspended, Token, Account, Request, check_account, check_orders,
  entries_of,
}
use ai_agent_stock_trading_s.Engine.CloseOut.{close_orders, align_trades}
use ai_agent_stock_trading_s.Engine.Settle.{Opening, Closing, settle_tail}

-- The three loops, one after another over the same orders and the same book.
unfoldable pub replay_tiers : Day → Feeds → List ℕ → List Entry → Book → Result (List Entry × Book)
replay_tiers d f ss es b = replay_l0 d (λ s. lookup s f.l0) ss es b >>= λ r.
    replay_l1 d (λ s. lookup s f.l1) ss r.0 r.1 >>= λ q. replay_l2 d (λ s. lookup s f.l2) ss q.0 q.1

pub record Settlement : Type 0 where
  pub closing : Closing
  pub book : Book
  pub rows : List Order
  pub corp : Corp
  pub blocked : ℕ

pub data Settled : Type 0 where
  already_settled : Settled
  settled : Settlement → Settled

-- The day as the closures see it.
abbrev pub day_of : Day → Feeds → ℕ → Day
day_of d f cap = record (with_suspended f d) { single_cap = cap }

abbrev pub opening_of : Account → Corp → Opening
opening_of a c = record {
  cash = a.book.cash;
  corp_cash = c.credit;
  holdings = a.book.holdings;
  initial_capital = a.initial_capital;
  shares = pos_part a.shares;
}

-- The cash of the corporate actions is in the pool before the first order.
abbrev pub credited : Corp → Book
credited c = record c.book { cash = c.book.cash +ℤ c.credit }

abbrev pub with_trades : Book → List Trade → Book
with_trades b ts = record b { trades = ts }

-- From the replay's result to the rows that are written.
unfoldable pub finish : Day → Request → Account → Corp → List Entry × Book → Result Settled
finish d r a corp (es, b) = align_trades d r.feeds b.trades >>= λ trades.
    settle_tail d (opening_of a corp) (with_trades b trades) >>= λ closing. ok (
      settled (record {
        closing = closing;
        book = with_trades b trades;
        rows = close_orders d.date es;
        corp = corp;
        blocked = count_where (λ e. e.frozen) es;
      }))

unfoldable pub settle_open : Day → Request → Account → List Token → Result Settled
unfolding finish
settle_open d r a exempt = apply_corp_actions d.fee d.date r.events (start_corp a.book) >>= λ corp.
    check_orders r.feeds (select (λ o. is_active o.status) a.orders) >>= λ checked.
    let es = entries_of r.circuit_freeze exempt r checked in
    replay_tiers d r.feeds (symbols_of es) es (credited corp) >>= finish d r a corp

abbrev pub settle_checked : Day → Request → Account → List Token × ℕ → Result Settled
settle_checked d r a (exempt, cap) =
    if any (λ t. t == d.date) a.settled
    then ok already_settled
    else settle_open (day_of d r.feeds cap) r a exempt

unfoldable pub settle_account : Day → Request → Option Account → Result Settled
unfolding settle_open
settle_account d r none = raise_if (overlaps r.feeds) engine >> err engine
settle_account d r (some a) =
    raise_if (overlaps r.feeds) engine >> (check_account a >>= settle_checked d r a)

-- The account after the transaction.
abbrev pub write_rows : List Order → List Order → List Order
write_rows [] rows = []
write_rows (o ∷ os) [] = o ∷ os
write_rows (o ∷ os) (row ∷ rows) =
    if is_active o.status then row ∷ write_rows os rows else o ∷ write_rows os (row ∷ rows)

abbrev pub after_settlement : ℕ → Account → Settlement → Account
after_settlement date a x = record a {
  book = record x.book { cash = x.closing.cash };
  orders = write_rows a.orders x.rows;
  settled = date ∷ a.settled;
}
