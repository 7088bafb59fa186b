-- ===== src/Engine/Book/Fills.antt =====
-- What a call of `sell_fill` or `buy_fill` can do to the book.
use ai_agent_stock_trading_s.Prelude.{
  ℕ, ◌≤◌, ◌≡◌, Bool, true, false, arith, if◌then◌else◌, ltb, ◌⊎◌, inl, inr, pos, ◌≤ℤ◌,
}
use ai_agent_stock_trading_s.Engine.Result.{ok, >>=-eq-ok}
use ai_agent_stock_trading_s.Engine.Order.{Order}
use ai_agent_stock_trading_s.Engine.Book.{
  Book, Day, plain, sellable, sold_book, sell_shares, sell_fill, buy_shares, buy_fill, buy_within,
  outlay, single_cap_ok, Outcome, done, insufficient,
}
use ai_agent_stock_trading_s.Engine.Book.Fifo.{consume_left}

-- A sale never fails: with fewer shares than it wants that T+1 lets it sell it is counted as
-- insufficient and changes nothing, otherwise it is filled.
pub sell_fill_lem :
    (d : Day) (o : Order) (qty price ts : ℕ) (b : Book)
    → sell_fill d o qty price ts b
      ≡ ok (
          if ltb (sellable o.symbol d.date b.lots) qty
          then (insufficient, b)
          else (done, sold_book d o qty price ts plain true b))
unfolding sell_fill sell_shares
sell_fill_lem d o qty price ts b = ground (arith, consume_left o.symbol d.date qty b.lots)

-- A purchase goes through only within the cap and with the cash for it.
pub buy_fill_cases :
    (d : Day) (o : Order) (qty price ts : ℕ) (b b' : Book) (r : Outcome)
    → buy_fill d o qty price ts b ≡ ok (r, b')
    → ((r ≡ insufficient) × (b' ≡ b))
      ⊎ ((r ≡ done)
          × (b' ≡ buy_shares d o qty price ts plain b)
          × (pos (outlay d qty price) ≤ℤ b.cash)
          × (single_cap_ok d o.symbol qty price (outlay d qty price) b ≡ ok true))
unfolding buy_fill
buy_fill_cases d o qty price ts b b' r e =
    let (within, w, f) =
      >>=-eq-ok (single_cap_ok d o.symbol qty price (outlay d qty price) b) _ e in
    go within w f
  where
    go :
        (within : Bool)
        → single_cap_ok d o.symbol qty price (outlay d qty price) b ≡ ok within
        → buy_within d o qty price ts b within ≡ ok (r, b')
        → ((r ≡ insufficient) × (b' ≡ b))
          ⊎ ((r ≡ done)
              × (b' ≡ buy_shares d o qty price ts plain b)
              × (pos (outlay d qty price) ≤ℤ b.cash)
              × (single_cap_ok d o.symbol qty price (outlay d qty price) b ≡ ok true))
    go true w f = ground arith
    go false w f = ground arith

-- The same for `sell_fill`.
pub sell_fill_cases :
    (d : Day) (o : Order) (qty price ts : ℕ) (b b' : Book) (r : Outcome)
    → sell_fill d o qty price ts b ≡ ok (r, b')
    → ((r ≡ insufficient) × (b' ≡ b))
      ⊎ ((r ≡ done)
          × (b' ≡ sold_book d o qty price ts plain true b)
          × (qty ≤ sellable o.symbol d.date b.lots))
sell_fill_cases d o qty price ts b b' r e = ground (arith, sell_fill_lem d o qty price ts b)

-- What holds of the book before a fill, and is kept by the rows of a sale and of a purchase, holds
-- after it.
module _ {ℓ} (P : Book → Type ℓ) (d : Day) (o : Order) (qty price ts : ℕ) where
  pub sell_fill-keeps :
      ((b : Book)
        → qty ≤ sellable o.symbol d.date b.lots
        → P b
        → P (sold_book d o qty price ts plain true b))
      → (b b' : Book) (r : Outcome) → sell_fill d o qty price ts b ≡ ok (r, b')
      → P b
      → P b'
  sell_fill-keeps sold b b' r e p = elim (sell_fill_cases d o qty price ts b b' r e) [
    | inl (_, same) ↦ rw same p
    | inr (_, new, enough) ↦ rw new (sold b enough p)
  ]

  pub buy_fill-keeps :
      ((b : Book)
        → pos (outlay d qty price) ≤ℤ b.cash
        → P b
        → P (buy_shares d o qty price ts plain b))
      → (b b' : Book) (r : Outcome) → buy_fill d o qty price ts b ≡ ok (r, b')
      → P b
      → P b'
  buy_fill-keeps bought b b' r e p = elim (buy_fill_cases d o qty price ts b b' r e) [
    | inl (_, same) ↦ rw same p
    | inr (_, new, cash, _) ↦ rw new (bought b cash p)
  ]
