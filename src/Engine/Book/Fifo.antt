-- ===== src/Engine/Book/Fifo.antt =====
-- The FIFO loop of `sell_fill`: how many shares it takes, and from which lots.
use ai_agent_stock_trading_s.Prelude.{
  ℕ, Option, ◌+◌, ◌-◌, ◌≡◌, refl, sym, List, [], ◌∷◌, ◌++◌, arith, if◌then◌else◌, not, ◌==◌, drop,
  replicate, select, drop-append, length-replicate, drop-replicate, drop-nil,
}
use ai_agent_stock_trading_s.Engine.Book.{Lot, is_lot, is_sellable, sellable, take_of, consume}

module _ (s date : ℕ) where
  -- What is left to take is what the sellable lots cannot cover.
  pub consume_left :
      (rem : ℕ) (ls : List Lot) → (consume s date rem ls).1 ≡ rem - sellable s date ls
  unfolding consume
  consume_left rem [] = omega arith
  consume_left rem (l ∷ ls) = ground (arith, consume_left (rem - take_of s date rem l) ls)

  -- The lots that T+1 locks, and those of other symbols, come out unchanged and in order.
  pub consume_others :
      (rem : ℕ) (ls : List Lot)
      → select (λ l. not (is_sellable s date l)) (consume s date rem ls).0
        ≡ select (λ l. not (is_sellable s date l)) ls
  unfolding consume
  consume_others rem [] = refl
  consume_others rem (l ∷ ls) = ground (arith, consume_others (rem - take_of s date rem l) ls)

  -- The shares that may be sold, one entry for each, marked by the purchase that they come from.
  abbrev pub shares : List Lot → List (Option ℕ)
  shares [] = []
  shares (l ∷ ls) =
      (if is_sellable s date l then replicate l.remaining l.buy_trade else []) ++ shares ls

  -- First in, first out: the loop takes the oldest shares of the queue.
  pub shares-consume :
      (rem : ℕ) (ls : List Lot) → shares (consume s date rem ls).0 ≡ drop rem (shares ls)
  unfolding consume
  shares-consume rem [] = sym (drop-nil rem)
  shares-consume rem (l ∷ ls) = ground (
    arith,
    shares-consume (rem - take_of s date rem l) ls,
    drop-append rem (replicate l.remaining l.buy_trade) (shares ls),
    drop-replicate rem l.remaining l.buy_trade,
    length-replicate l.remaining l.buy_trade,
  )

-- The shares of a symbol in all its lots.
abbrev pub lot_total : ℕ → List Lot → ℕ
lot_total s [] = 0
lot_total s (l ∷ ls) = (if is_lot s l then l.remaining else 0) + lot_total s ls

pub lot_total-consume :
    (s t date rem : ℕ) (ls : List Lot)
    → lot_total t (consume s date rem ls).0
        + (if t == s then rem - (consume s date rem ls).1 else 0)
      ≡ lot_total t ls
unfolding consume
lot_total-consume s t date rem [] = ground arith
lot_total-consume s t date rem (l ∷ ls) = ground (
  arith,
  consume_left s date (rem - take_of s date rem l) ls,
  lot_total-consume s t date (rem - take_of s date rem l) ls,
)
