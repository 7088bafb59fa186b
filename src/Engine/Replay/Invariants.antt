-- ===== src/Engine/Replay/Invariants.antt =====
-- The book over a whole L0 replay of core/eodengine.py.
use ai_agent_stock_trading_s.Prelude.{
  ℕ, ◌+◌, ◌-◌, ◌≤◌, ◌≡◌, refl, sym, ap, ◌∙◌, true, false, Option, List, [], ◌∷◌, ℤ, Bool, drop,
  arith, if◌then◌else◌, delete_where, ◌==◌, leb, Bool-cases, ◌⊎◌, inl, inr, eq_true→eq, drop-drop,
  leb→le, length,
}
use ai_agent_stock_trading_s.Engine.Result.{ok}
use ai_agent_stock_trading_s.Engine.Order.{Order}
use ai_agent_stock_trading_s.Engine.Book.{
  Book, Day, Lot, Quality, sellable, is_sellable, is_lot, take_of, sold_book, buy_shares, consume,
  close_out, insert_lot, write_trade, register_exit, held_qty,
}
use ai_agent_stock_trading_s.Engine.Book.Fifo.{shares, shares-consume, lot_total}
use ai_agent_stock_trading_s.Engine.Book.Shares.{
  IsConsistent, sold_book-IsConsistent, buy_shares-IsConsistent, lots_give_self,
}
use ai_agent_stock_trading_s.Engine.Settle.Conservation.{
  IsBalanced, sold_book-IsBalanced, buy_shares-IsBalanced,
}
use ai_agent_stock_trading_s.Engine.Tier.{Entry}
use ai_agent_stock_trading_s.Engine.Tier.Keeps.{IsKept}
use ai_agent_stock_trading_s.Engine.Replay.{Sample, replay_l0}
use ai_agent_stock_trading_s.Engine.Replay.Traded.{
  is_sale, is_purchase, traded, locked, traded-sold_book, traded-buy_shares, locked-sold_book,
  locked-buy_shares, length-shares, length-drop,
}
use ai_agent_stock_trading_s.Engine.Replay.Keeps.{replay_l0-keeps}

pub IsConsistent-kept : (d : Day) → IsKept d IsConsistent
IsConsistent-kept d = record {
  by_sale = sold_book-IsConsistent d;
  by_purchase = λ o qty price ts quality b _. buy_shares-IsConsistent d o qty price ts quality b;
}

pub IsBalanced-kept : (d : Day) (base : ℤ) → IsKept d (IsBalanced d.date base)
IsBalanced-kept d base = record {
  by_sale = λ o qty price ts quality register b _.
      sold_book-IsBalanced d o qty price ts quality register base b;
  by_purchase = λ o qty price ts quality b _. buy_shares-IsBalanced d o qty price ts quality base b;
}

-- If the quantity of each holding is the sum of the remaining shares of its lots, it is so after
-- any L0 replay that ends without an error.
pub replay_l0-IsConsistent :
    (d : Day) (series : ℕ → Option (List Sample)) (ss : List ℕ) (es es' : List Entry) (b b' : Book)
    → replay_l0 d series ss es b ≡ ok (es', b')
    → IsConsistent b
    → IsConsistent b'
replay_l0-IsConsistent d = replay_l0-keeps d IsConsistent (IsConsistent-kept d)

-- After any L0 replay the cash is still `base` and the net amounts of the day's trades.
pub replay_l0-IsBalanced :
    (d : Day) (series : ℕ → Option (List Sample)) (ss : List ℕ) (es es' : List Entry) (b b' : Book)
    (base : ℤ)
    → replay_l0 d series ss es b ≡ ok (es', b')
    → IsBalanced d.date base b
    → IsBalanced d.date base b'
replay_l0-IsBalanced d series ss es es' b b' base =
    replay_l0-keeps d (IsBalanced d.date base) (IsBalanced-kept d base) series ss es es' b b'

-- A lot bought on the day adds no share that may be sold on it.
shares-insert_lot :
    (s date : ℕ) (l : Lot) (ls : List Lot)
    → is_sellable s date l ≡ false
    → shares s date (insert_lot l ls) ≡ shares s date ls
unfolding insert_lot
shares-insert_lot s date l [] h = ground arith
shares-insert_lot s date l (x ∷ xs) h = ground (arith, shares-insert_lot s date l xs h)

shares-delete_ne :
    (s t date : ℕ) (ls : List Lot)
    → (t == s) ≡ false
    → shares s date (delete_where (is_lot t) ls) ≡ shares s date ls
shares-delete_ne s t date [] h = refl
shares-delete_ne s t date (l ∷ ls) h = ground (arith, shares-delete_ne s t date ls h)

shares-delete_self : (s date : ℕ) (ls : List Lot) → shares s date (delete_where (is_lot s) ls) ≡ []
shares-delete_self s date [] = refl
shares-delete_self s date (l ∷ ls) = ground (arith, shares-delete_self s date ls)

shares-empty : (s date : ℕ) (ls : List Lot) → lot_total s ls ≡ 0 → shares s date ls ≡ []
shares-empty s date [] h = refl
shares-empty s date (l ∷ ls) h = ground (arith, shares-empty s date ls)

shares-consume_ne :
    (s t date rem : ℕ) (ls : List Lot)
    → (t == s) ≡ false
    → shares s date (consume t date rem ls).0 ≡ shares s date ls
unfolding consume
shares-consume_ne s t date rem [] h = refl
shares-consume_ne s t date rem (l ∷ ls) h =
    ground (arith, shares-consume_ne s t date (rem - take_of t date rem l) ls h)

-- Deleting the rows of a symbol that is sold out changes no share.
shares-close_out :
    (s t date qty : ℕ) (b : Book)
    → lot_total t b.lots + qty ≡ held_qty t b.holdings
    → shares s date (close_out t qty b).lots ≡ shares s date b.lots
unfolding close_out
shares-close_out s t date qty b h = elim (Bool-cases (leb (held_qty t b.holdings) qty)) [
  | inr more ↦ rw more
  | inl out ↦ rw out (sold_out (leb→le _ _ out) (Bool-cases (t == s)))
]
  where
    none_left : held_qty t b.holdings ≤ qty → lot_total t b.lots ≡ 0
    none_left out = omega (arith, h)

    sold_out :
        held_qty t b.holdings ≤ qty
        → ((t == s) ≡ true) ⊎ ((t == s) ≡ false)
        → shares s date (delete_where (is_lot t) b.lots) ≡ shares s date b.lots
    sold_out out (inl e) =
        let same : t ≡ s = eq_true→eq t s e in
        rw same (
          shares-delete_self s date b.lots
          ∙ sym (shares-empty s date b.lots (rw same at (none_left out))))
    sold_out out (inr e) = shares-delete_ne s t date b.lots e

-- What T+1 and FIFO leave of the book that a day started from: the trades say how many shares of a
-- symbol were sold, no more than were bought before the day, and they are the oldest of these; the
-- lots of the day hold what they held and what was bought, so nothing was sold from them.
pub record TakesOldest (d : Day) (start b : Book) : Type 0 where
  pub consistent : IsConsistent b
  pub oldest :
      (s : ℕ)
      → (n : ℕ) × (traded is_sale s d.date b.trades ≡ traded is_sale s d.date start.trades + n)
        × (n ≤ length (shares s d.date start.lots))
        × (shares s d.date b.lots ≡ drop n (shares s d.date start.lots))
  pub untouched :
      (s : ℕ)
      → locked s d.date b.lots + traded is_purchase s d.date start.trades
        ≡ locked s d.date start.lots + traded is_purchase s d.date b.trades

shares-sold_out :
    (s : ℕ) (d : Day) (o : Order) (qty : ℕ) (b : Book)
    → qty ≤ sellable o.symbol d.date b.lots
    → IsConsistent b
    → (c : Book) → c.holdings ≡ b.holdings
    → c.lots ≡ (consume o.symbol d.date qty b.lots).0
    → shares s d.date (close_out o.symbol qty c).lots
      ≡ drop (if o.symbol == s then qty else 0) (shares s d.date b.lots)
shares-sold_out s d o qty b enough k c same_held same_lots =
    shares-close_out s o.symbol d.date qty c
      (rw (same_held, same_lots) (lots_give_self d o qty b enough k))
    ∙ rw same_lots (by_symbol (Bool-cases (o.symbol == s)))
  where
    by_symbol :
        ((o.symbol == s) ≡ true) ⊎ ((o.symbol == s) ≡ false)
        → shares s d.date (consume o.symbol d.date qty b.lots).0
          ≡ drop (if o.symbol == s then qty else 0) (shares s d.date b.lots)
    by_symbol (inr e) = rw e (shares-consume_ne s o.symbol d.date qty b.lots e)
    by_symbol (inl e) =
        let same : o.symbol ≡ s = eq_true→eq o.symbol s e in
        rw e (rw same (shares-consume s d.date qty b.lots))

-- A sale that T+1 allows, on a book whose holdings agree with its lots, takes its quantity from
-- the oldest sellable shares of its symbol and none of another symbol.
pub shares-sold_book :
    (s : ℕ) (d : Day) (o : Order) (qty price ts : ℕ) (quality : Quality) (register : Bool)
    (b : Book)
    → qty ≤ sellable o.symbol d.date b.lots
    → IsConsistent b
    → shares s d.date (sold_book d o qty price ts quality register b).lots
      ≡ drop (if o.symbol == s then qty else 0) (shares s d.date b.lots)
unfolding sold_book register_exit write_trade
shares-sold_book s d o qty price ts quality true b enough c =
    shares-sold_out s d o qty b enough c _ refl refl
shares-sold_book s d o qty price ts quality false b enough c =
    shares-sold_out s d o qty b enough c _ refl refl

shares-buy_shares :
    (s : ℕ) (d : Day) (o : Order) (qty price ts : ℕ) (quality : Quality) (b : Book)
    → shares s d.date (buy_shares d o qty price ts quality b).lots ≡ shares s d.date b.lots
unfolding buy_shares write_trade
shares-buy_shares s d o qty price ts quality b = shares-insert_lot s d.date _ b.lots (ground arith)

sold_within :
    (s : ℕ) (d : Day) (o : Order) (qty n : ℕ) (start b : Book)
    → qty ≤ sellable o.symbol d.date b.lots
    → n ≤ length (shares s d.date start.lots)
    → shares s d.date b.lots ≡ drop n (shares s d.date start.lots)
    → n + (if o.symbol == s then qty else 0) ≤ length (shares s d.date start.lots)
sold_within s d o qty n start b enough le e = elim (Bool-cases (o.symbol == s)) [
  | inr miss ↦ rw miss (ground arith)
  | inl hit ↦
      let same : o.symbol ≡ s = eq_true→eq o.symbol s hit in
      let here : qty ≤ sellable s d.date b.lots = rw same at enough in
      let left : length (shares s d.date b.lots) ≡ length (shares s d.date start.lots) - n =
        ap length e ∙ length-drop n (shares s d.date start.lots) in
      rw hit (ground (arith, length-shares s d.date b.lots))
]

sold_book-TakesOldest :
    (d : Day) (start : Book) (o : Order) (qty price ts : ℕ) (quality : Quality) (register : Bool)
    (b : Book)
    → qty ≤ sellable o.symbol d.date b.lots
    → TakesOldest d start b
    → TakesOldest d start (sold_book d o qty price ts quality register b)
sold_book-TakesOldest d start o qty price ts quality register b enough k = record {
  consistent = sold_book-IsConsistent d o qty price ts quality register b enough k.consistent;
  oldest = λ s.
      let (n, count, le, e) = k.oldest s in
      let m : ℕ = if o.symbol == s then qty else 0 in
      (
        n + m,
        traded-sold_book is_sale s d o qty price ts quality b register ∙ ground (arith, count),
        sold_within s d o qty n start b enough le e,
        shares-sold_book s d o qty price ts quality register b enough k.consistent
            ∙ ap (drop m) e
            ∙ drop-drop m n (shares s d.date start.lots),
      );
  untouched = λ s.
      rw
        (
          locked-sold_book s d o qty price ts quality register b enough k.consistent,
          traded-sold_book is_purchase s d o qty price ts quality b register,
        )
        (ground (arith, k.untouched s));
}

buy_shares-TakesOldest :
    (d : Day) (start : Book) (o : Order) (qty price ts : ℕ) (quality : Quality) (b : Book)
    → TakesOldest d start b
    → TakesOldest d start (buy_shares d o qty price ts quality b)
buy_shares-TakesOldest d start o qty price ts quality b k = record {
  consistent = buy_shares-IsConsistent d o qty price ts quality b k.consistent;
  oldest = λ s.
      let (n, count, le, e) = k.oldest s in
      (
        n,
        traded-buy_shares is_sale s d o qty price ts quality b ∙ ground (arith, count),
        le,
        shares-buy_shares s d o qty price ts quality b ∙ e,
      );
  untouched = λ s.
      rw
        (
          locked-buy_shares s d o qty price ts quality b,
          traded-buy_shares is_purchase s d o qty price ts quality b,
        )
        (ground (arith, k.untouched s));
}

pub TakesOldest-start : (d : Day) (b : Book) → IsConsistent b → TakesOldest d b b
TakesOldest-start d b c = record {
  consistent = c;
  oldest = λ s. (0, omega arith, omega arith, refl);
  untouched = λ s. refl;
}

pub TakesOldest-kept : (d : Day) (start : Book) → IsKept d (TakesOldest d start)
TakesOldest-kept d start = record {
  by_sale = sold_book-TakesOldest d start;
  by_purchase =
      λ o qty price ts quality b _. buy_shares-TakesOldest d start o qty price ts quality b;
}

-- T+1 and FIFO over a whole L0 replay that starts from a book whose holdings agree with its lots
-- and that ends without an error: of each symbol, the shares that the replay's trades of the day
-- sold are the oldest of those bought before the day, and no more than these; the lots bought on
-- the day have lost nothing, they hold what they held and what the replay bought.
pub replay_l0-TakesOldest :
    (d : Day) (series : ℕ → Option (List Sample)) (ss : List ℕ) (es es' : List Entry) (b b' : Book)
    → replay_l0 d series ss es b ≡ ok (es', b')
    → IsConsistent b
    → TakesOldest d b b'
replay_l0-TakesOldest d series ss es es' b b' e c =
    replay_l0-keeps d (TakesOldest d b) (TakesOldest-kept d b) series ss es es' b b' e
      (TakesOldest-start d b c)
