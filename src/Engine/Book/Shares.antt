-- ===== src/Engine/Book/Shares.antt =====
-- Holdings against lots in one book of core/eodengine.py, symbol by symbol.
use ai_agent_stock_trading_s.Prelude.{
  ℕ, ◌+◌, ◌-◌, ◌≤◌, ◌≡◌, refl, Bool, true, false, List, [], ◌∷◌, arith, if◌then◌else◌, ◌==◌,
  delete_where,
}
use ai_agent_stock_trading_s.Engine.Order.{Order}
use ai_agent_stock_trading_s.Engine.Book.{
  Lot, Holding, Book, Day, Quality, is_holding, is_lot, sellable, consume, held_qty, sold_book,
  add_holding, set_avg_cost, sub_holding, insert_lot, close_out, buy_shares, write_trade,
  register_exit,
}
use ai_agent_stock_trading_s.Engine.Book.Fifo.{lot_total, lot_total-consume, consume_left}

pub record IsConsistent (b : Book) : Type 0 where
  pub held : (t : ℕ) → held_qty t b.holdings ≡ lot_total t b.lots

pub held_qty-add :
    (t s delta : ℕ) (hs : List Holding)
    → held_qty t (add_holding s delta hs)
      ≡ (if t == s then held_qty t hs + delta else held_qty t hs)
unfolding held_qty add_holding
held_qty-add t s delta [] = ground arith
held_qty-add t s delta (h ∷ hs) = ground (arith, held_qty-add t s delta hs)

pub held_qty-set_avg_cost :
    (t s avg : ℕ) (hs : List Holding) → held_qty t (set_avg_cost s avg hs) ≡ held_qty t hs
unfolding held_qty set_avg_cost
held_qty-set_avg_cost t s avg [] = refl
held_qty-set_avg_cost t s avg (h ∷ hs) = ground (arith, held_qty-set_avg_cost t s avg hs)

held_qty-sub :
    (t s delta : ℕ) (hs : List Holding)
    → held_qty t (sub_holding s delta hs)
      ≡ (if t == s then held_qty t hs - delta else held_qty t hs)
unfolding held_qty sub_holding
held_qty-sub t s delta [] = ground arith
held_qty-sub t s delta (h ∷ hs) = ground (arith, held_qty-sub t s delta hs)

pub held_qty-delete :
    (t s : ℕ) (hs : List Holding)
    → held_qty t (delete_where (is_holding s) hs) ≡ (if t == s then 0 else held_qty t hs)
unfolding held_qty
held_qty-delete t s [] = ground arith
held_qty-delete t s (h ∷ hs) = ground (arith, held_qty-delete t s hs)

pub lot_total-delete :
    (t s : ℕ) (ls : List Lot)
    → lot_total t (delete_where (is_lot s) ls) ≡ (if t == s then 0 else lot_total t ls)
lot_total-delete t s [] = ground arith
lot_total-delete t s (l ∷ ls) = ground (arith, lot_total-delete t s ls)

pub lot_total-insert :
    (t : ℕ) (l : Lot) (ls : List Lot)
    → lot_total t (insert_lot l ls)
      ≡ (if t == l.symbol then lot_total t ls + l.remaining else lot_total t ls)
unfolding insert_lot
lot_total-insert t l [] = ground arith
lot_total-insert t l (x ∷ xs) = ground (arith, lot_total-insert t l xs)

-- A sale whose lots have already given up its shares ends consistent, rows deleted or not.
close_out-IsConsistent :
    (s qty : ℕ) (b : Book)
    → ((t : ℕ) → lot_total t b.lots + (if t == s then qty else 0) ≡ held_qty t b.holdings)
    → IsConsistent (close_out s qty b)
unfolding close_out
close_out-IsConsistent s qty b h = record {
  held = λ t. ground (
    arith,
    h t,
    h s,
    held_qty-delete t s b.holdings,
    lot_total-delete t s b.lots,
    held_qty-sub t s qty b.holdings,
  );
}

-- What T+1 lets the account sell of a symbol lies in its lots.
sellable-le-lot_total : (s date : ℕ) (ls : List Lot) → sellable s date ls ≤ lot_total s ls
sellable-le-lot_total s date [] = omega arith
sellable-le-lot_total s date (l ∷ ls) = ground (arith, sellable-le-lot_total s date ls)

register_exit-IsConsistent :
    (d : Day) (o : Order) (tid qty price : ℕ) (b : Book)
    → IsConsistent b
    → IsConsistent (register_exit d o tid qty price b)
unfolding register_exit
register_exit-IsConsistent d o tid qty price b c = record { held = c.held }

lots_give :
    (d : Day) (o : Order) (qty : ℕ) (b : Book)
    → qty ≤ sellable o.symbol d.date b.lots
    → IsConsistent b
    → (t : ℕ)
    → lot_total t (consume o.symbol d.date qty b.lots).0 + (if t == o.symbol then qty else 0)
      ≡ held_qty t b.holdings
lots_give d o qty b enough c t = ground (
  arith,
  c.held t,
  lot_total-consume o.symbol t d.date qty b.lots,
  consume_left o.symbol d.date qty b.lots,
)

-- The FIFO loop has taken the whole quantity out of the symbol's lots.
pub lots_give_self :
    (d : Day) (o : Order) (qty : ℕ) (b : Book)
    → qty ≤ sellable o.symbol d.date b.lots
    → IsConsistent b
    → lot_total o.symbol (consume o.symbol d.date qty b.lots).0 + qty ≡ held_qty o.symbol b.holdings
lots_give_self d o qty b enough c = ground (arith, lots_give d o qty b enough c o.symbol)

pub sold_book-IsConsistent :
    (d : Day) (o : Order) (qty price ts : ℕ) (quality : Quality) (register : Bool) (b : Book)
    → qty ≤ sellable o.symbol d.date b.lots
    → IsConsistent b
    → IsConsistent (sold_book d o qty price ts quality register b)
unfolding sold_book write_trade
sold_book-IsConsistent d o qty price ts quality true b enough c =
    register_exit-IsConsistent d o _ qty price _
      (close_out-IsConsistent o.symbol qty _ (lots_give d o qty b enough c))
sold_book-IsConsistent d o qty price ts quality false b enough c =
    close_out-IsConsistent o.symbol qty _ (lots_give d o qty b enough c)

pub buy_shares-IsConsistent :
    (d : Day) (o : Order) (qty price ts : ℕ) (quality : Quality) (b : Book)
    → IsConsistent b
    → IsConsistent (buy_shares d o qty price ts quality b)
unfolding buy_shares write_trade
buy_shares-IsConsistent d o qty price ts quality b c = record {
  held =
      λ t. simp (held_qty-set_avg_cost, held_qty-add, lot_total-insert) (ground (arith, c.held t));
}
