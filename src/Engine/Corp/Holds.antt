-- ===== src/Engine/Corp/Holds.antt =====
-- Holdings against lots along the corporate actions of core/eodengine.py.
use ai_agent_stock_trading_s.Prelude.{
  ℕ, ◌<◌, ◌+◌, update_where, ◌≡◌, refl, true, List, ℤ, arith, any,
}
use ai_agent_stock_trading_s.Engine.Result.{ok}
use ai_agent_stock_trading_s.Engine.Money.{FeeSchedule, amount_of}
use ai_agent_stock_trading_s.Engine.Book.{Book, Lot, Trade, CorpKind, held_qty}
use ai_agent_stock_trading_s.Engine.Book.Fifo.{lot_total}
use ai_agent_stock_trading_s.Engine.Book.Shares.{
  IsConsistent, lot_total-insert, lot_total-delete, held_qty-delete,
}
use ai_agent_stock_trading_s.Engine.Corp.{
  Event, Corp, is_row, split_book, marked_book, paid_book, delisted_book, apply_corp_actions,
  start_corp, split_lot, rights_lot, split_holding, paid_holding,
}
use ai_agent_stock_trading_s.Engine.Corp.Keeps.{IsCorpKept, apply_corp_actions-keeps}
use ai_agent_stock_trading_s.Engine.Corp.Rows.{
  lot_total-pos, lot_total-mark, lot_total-split_ne, held_qty-update,
}

-- Where an event has a row, the symbol is held.
held_of_row :
    (s ex : ℕ) (b : Book)
    → IsConsistent b
    → any (is_row s ex) b.lots ≡ true
    → 0 < held_qty s b.holdings
held_of_row s ex b c h = ground (arith, c.held s, lot_total-pos s ex b.lots h)

split_book-IsConsistent :
    (ex s ratio : ℕ) (b : Book)
    → any (is_row s ex) b.lots ≡ true
    → IsConsistent b
    → IsConsistent (split_book ex s ratio b)
unfolding split_book split_holding
split_book-IsConsistent ex s ratio b h c =
    let lots : List Lot = update_where (is_row s ex) (split_lot ex s ratio) b.lots in
    record {
      held = λ t. ground (
        arith,
        c.held t,
        held_qty-update t s (split_holding (lot_total s lots) ratio) (λ q. lot_total s lots)
            b.holdings (λ x. refl) (λ x. refl) (held_of_row s ex b c h),
        lot_total-split_ne t s ex ratio b.lots,
      );
    }

marked_book-IsConsistent :
    (kind : CorpKind) (ex s : ℕ) (b : Book)
    → IsConsistent b
    → IsConsistent (marked_book kind ex s b)
marked_book-IsConsistent kind ex s b c = record {
  held = λ t. ground (arith, c.held t, lot_total-mark kind t s ex b.lots);
}

paid_book-IsConsistent :
    (ex s price qty : ℕ) (b : Book)
    → any (is_row s ex) b.lots ≡ true
    → IsConsistent b
    → IsConsistent (paid_book ex s price qty b)
unfolding paid_book paid_holding
paid_book-IsConsistent ex s price qty b h c = record {
  held = λ t. ground (
    arith,
    c.held t,
    held_qty-update t s (paid_holding (amount_of price qty) qty) (λ q. q + qty) b.holdings
        (λ x. refl) (λ x. refl) (held_of_row s ex b c h),
    lot_total-insert t (rights_lot ex s price qty) b.lots,
  );
}

delisted_book-IsConsistent : (s : ℕ) (b : Book) → IsConsistent b → IsConsistent (delisted_book s b)
delisted_book-IsConsistent s b c = record {
  held = λ t. ground (arith, c.held t, held_qty-delete t s b.holdings, lot_total-delete t s b.lots);
}

IsConsistent-kept : IsCorpKept IsConsistent
IsConsistent-kept = record {
  by_split = split_book-IsConsistent;
  by_mark = marked_book-IsConsistent;
  by_pay = paid_book-IsConsistent;
  by_delist = delisted_book-IsConsistent;
}

-- If the quantity of each holding is the sum of the remaining shares of its lots, it is so after
-- any corporate actions that end without an error.
pub apply_corp_actions-IsConsistent :
    (fee : FeeSchedule) (ex : ℕ) (events : List (ℕ × List Event)) (c c' : Corp)
    → apply_corp_actions fee ex events c ≡ ok c'
    → IsConsistent c.book
    → IsConsistent c'.book
apply_corp_actions-IsConsistent = apply_corp_actions-keeps IsConsistent IsConsistent-kept

-- The stored cash and the trades are those of before.
pub record HasFunds (cash : ℤ) (ts : List Trade) (b : Book) : Type 0 where
  pub cash_same : b.cash ≡ cash
  pub trades_same : b.trades ≡ ts

HasFunds-kept : (cash : ℤ) (ts : List Trade) → IsCorpKept (HasFunds cash ts)
unfolding split_book paid_book
HasFunds-kept cash ts = record {
  by_split = λ ex s ratio b _ p. record { cash_same = p.cash_same; trades_same = p.trades_same };
  by_mark = λ kind ex s b p. record { cash_same = p.cash_same; trades_same = p.trades_same };
  by_pay = λ ex s price qty b _ p. record { cash_same = p.cash_same; trades_same = p.trades_same };
  by_delist = λ s b p. record { cash_same = p.cash_same; trades_same = p.trades_same };
}

pub apply_corp_actions-HasFunds :
    (fee : FeeSchedule) (ex : ℕ) (events : List (ℕ × List Event)) (b : Book) (c : Corp)
    → apply_corp_actions fee ex events (start_corp b) ≡ ok c
    → HasFunds b.cash b.trades c.book
apply_corp_actions-HasFunds fee ex events b c e =
    apply_corp_actions-keeps (HasFunds b.cash b.trades) (HasFunds-kept b.cash b.trades) fee ex
      events (start_corp b) c e (record { cash_same = refl; trades_same = refl })
