-- ===== src/Engine/Replay/Traded.antt =====
-- How many shares the trades of a day bought and sold, and how many T+1 locks, in the book of
-- core/eodengine.py.
use ai_agent_stock_trading_s.Prelude.{
  ℕ, ◌+◌, ◌-◌, ◌≤◌, ◌∙◌, drop, zero, suc, replicate, ◌≡◌, refl, Bool, true, false, not, ◌&&◌, List,
  [], ◌∷◌, ◌++◌, arith, if◌then◌else◌, ltb, ◌==◌, delete_where, length, length-append,
  length-replicate, eq_refl,
}
use ai_agent_stock_trading_s.Engine.Money.{Side, buy, sell}
use ai_agent_stock_trading_s.Engine.Order.{Order}
use ai_agent_stock_trading_s.Engine.Book.{
  Book, Day, Lot, Trade, Quality, is_lot, take_of, sellable, consume, insert_lot, close_out,
  held_qty, sold_book, buy_shares, write_trade, register_exit,
}
use ai_agent_stock_trading_s.Engine.Book.Fifo.{shares, lot_total}
use ai_agent_stock_trading_s.Engine.Book.Shares.{IsConsistent, lots_give_self}

abbrev pub is_sale : Side → Bool
is_sale sell = true
is_sale buy = false

abbrev pub is_purchase : Side → Bool
is_purchase sell = false
is_purchase buy = true

-- The shares of a symbol in the trades of a day on one side.
abbrev pub traded_in : (Side → Bool) → ℕ → ℕ → Trade → ℕ
traded_in p s date t = if (t.symbol == s) && (t.settle_date == date) && p t.side then t.qty else 0

abbrev pub traded : (Side → Bool) → ℕ → ℕ → List Trade → ℕ
traded p s date [] = 0
traded p s date (t ∷ ts) = traded_in p s date t + traded p s date ts

-- The shares of a symbol that were not bought before the day.
abbrev pub locked : ℕ → ℕ → List Lot → ℕ
locked s date [] = 0
locked s date (l ∷ ls) =
    (if (l.symbol == s) && not (ltb l.buy_date date) then l.remaining else 0) + locked s date ls

pub traded-append :
    (p : Side → Bool) (s date : ℕ) (ts : List Trade) (t : Trade)
    → traded p s date (ts ++ t ∷ []) ≡ traded p s date ts + traded_in p s date t
traded-append p s date [] t = omega arith
traded-append p s date (u ∷ us) t = omega (arith, traded-append p s date us t)

locked-consume :
    (s t date rem : ℕ) (ls : List Lot) → locked s date (consume t date rem ls).0 ≡ locked s date ls
unfolding consume
locked-consume s t date rem [] = refl
locked-consume s t date rem (l ∷ ls) =
    ground (arith, locked-consume s t date (rem - take_of t date rem l) ls)

locked-insert_lot :
    (s date : ℕ) (l : Lot) (ls : List Lot)
    → locked s date (insert_lot l ls) ≡ locked s date (l ∷ ls)
unfolding insert_lot
locked-insert_lot s date l [] = refl
locked-insert_lot s date l (x ∷ xs) = ground (arith, locked-insert_lot s date l xs)

locked-delete :
    (s t date : ℕ) (ls : List Lot)
    → locked s date (delete_where (is_lot t) ls) ≡ (if t == s then 0 else locked s date ls)
locked-delete s t date [] = ground arith
locked-delete s t date (l ∷ ls) = ground (arith, locked-delete s t date ls)

locked-le-lot_total : (s date : ℕ) (ls : List Lot) → locked s date ls ≤ lot_total s ls
locked-le-lot_total s date [] = omega arith
locked-le-lot_total s date (l ∷ ls) = ground (arith, locked-le-lot_total s date ls)

locked-close_out :
    (s t date qty : ℕ) (b : Book)
    → lot_total t b.lots + qty ≡ held_qty t b.holdings
    → locked s date (close_out t qty b).lots ≡ locked s date b.lots
unfolding close_out
locked-close_out s t date qty b h =
    ground (arith, locked-delete s t date b.lots, locked-le-lot_total t date b.lots)

pub length-shares : (s date : ℕ) (ls : List Lot) → length (shares s date ls) ≡ sellable s date ls
length-shares s date [] = refl
length-shares s date (l ∷ ls) = ground (
  arith,
  length-append (replicate l.remaining l.buy_trade) (shares s date ls),
  length-replicate l.remaining l.buy_trade,
  length-shares s date ls,
)

close_out-trades : (s qty : ℕ) (b : Book) → (close_out s qty b).trades ≡ b.trades
unfolding close_out
close_out-trades s qty b = ground arith

module _ (p : Side → Bool) (s : ℕ) (d : Day) (o : Order) (qty price ts : ℕ) (quality : Quality)
    (b : Book) where
  traded_more :
      (side : Side) (t : Trade)
      → t.symbol ≡ o.symbol
      → t.settle_date ≡ d.date
      → t.side ≡ side
      → t.qty ≡ qty
      → traded p s d.date (b.trades ++ t ∷ [])
        ≡ traded p s d.date b.trades + (if (o.symbol == s) && p side then qty else 0)
  traded_more side t same_symbol same_date same_side same_qty =
      traded-append p s d.date b.trades t
      ∙ rw (same_symbol, same_date, same_side, same_qty, eq_refl d.date) ground arith

  pub traded-sold_book :
      (register : Bool)
      → traded p s d.date (sold_book d o qty price ts quality register b).trades
        ≡ traded p s d.date b.trades + (if (o.symbol == s) && p sell then qty else 0)
  unfolding sold_book write_trade register_exit
  traded-sold_book true = rw close_out-trades (traded_more sell _ refl refl refl refl)
  traded-sold_book false = rw close_out-trades (traded_more sell _ refl refl refl refl)

  pub traded-buy_shares :
      traded p s d.date (buy_shares d o qty price ts quality b).trades
      ≡ traded p s d.date b.trades + (if (o.symbol == s) && p buy then qty else 0)
  unfolding buy_shares write_trade
  traded-buy_shares = traded_more buy _ refl refl refl refl

-- A sale takes nothing from the lots of the day.
pub locked-sold_book :
    (s : ℕ) (d : Day) (o : Order) (qty price ts : ℕ) (quality : Quality) (register : Bool)
    (b : Book)
    → qty ≤ sellable o.symbol d.date b.lots
    → IsConsistent b
    → locked s d.date (sold_book d o qty price ts quality register b).lots ≡ locked s d.date b.lots
unfolding sold_book register_exit write_trade
locked-sold_book s d o qty price ts quality true b enough c =
    locked-close_out s o.symbol d.date qty _ (lots_give_self d o qty b enough c)
    ∙ locked-consume s o.symbol d.date qty b.lots
locked-sold_book s d o qty price ts quality false b enough c =
    locked-close_out s o.symbol d.date qty _ (lots_give_self d o qty b enough c)
    ∙ locked-consume s o.symbol d.date qty b.lots

-- A purchase adds its shares to those of the day.
pub locked-buy_shares :
    (s : ℕ) (d : Day) (o : Order) (qty price ts : ℕ) (quality : Quality) (b : Book)
    → locked s d.date (buy_shares d o qty price ts quality b).lots
      ≡ locked s d.date b.lots + (if o.symbol == s then qty else 0)
unfolding buy_shares write_trade
locked-buy_shares s d o qty price ts quality b = locked-insert_lot s d.date _ b.lots ∙ ground arith

pub length-drop {ℓ} : {A : Type ℓ} (n : ℕ) (xs : List A) → length (drop n xs) ≡ length xs - n
length-drop zero xs = omega arith
length-drop (suc n) [] = omega arith
length-drop (suc n) (x ∷ xs) = omega (arith, length-drop n xs)
