-- ===== src/Engine/Inline/Keeps.antt =====
-- Properties of the book along the fills of the L1 and L2 loops of core/eodengine.py.
use ai_agent_stock_trading_s.Prelude.{
  ℕ, ◌≡◌, ◌⊎◌, pos, ltb, ltb_ℤ, Bool, true, false, Bool-cases, inl, inr, arith, if◌then◌else◌,
}
use ai_agent_stock_trading_s.Engine.Result.{ok, >>=-eq-ok}
use ai_agent_stock_trading_s.Engine.Order.{Order}
use ai_agent_stock_trading_s.Engine.Book.{
  Book, Day, Quality, Outcome, done, insufficient, sellable, sold_book, sell_shares, single_cap_ok,
  outlay,
}
use ai_agent_stock_trading_s.Engine.Book.Fifo.{consume_left}
use ai_agent_stock_trading_s.Engine.Tier.Keeps.{IsKept}
use ai_agent_stock_trading_s.Engine.Inline.{inline_sell, inline_buy, within_cap, capped_buy}

-- The sale never fails either.
pub inline_sell_lem :
    (register : Bool) (d : Day) (o : Order) (price ts : ℕ) (quality : Quality) (b : Book)
    → inline_sell register d o price ts quality b
      ≡ ok (
          if ltb (sellable o.symbol d.date b.lots) o.qty
          then (insufficient, b)
          else (done, sold_book d o o.qty price ts quality register b))
unfolding inline_sell sell_shares
inline_sell_lem register d o price ts quality b =
    ground (arith, consume_left o.symbol d.date o.qty b.lots)

module _ {ℓ} (d : Day) (P : Book → Type ℓ) (k : IsKept d P) where
  pub inline_sell-keeps :
      (register : Bool) (o : Order) (price ts : ℕ) (quality : Quality) (b b' : Book) (r : Outcome)
      → inline_sell register d o price ts quality b ≡ ok (r, b')
      → P b
      → P b'
  inline_sell-keeps register o price ts quality b b' r e p =
      by_stock (Bool-cases (ltb (sellable o.symbol d.date b.lots) o.qty))
    where
      by_stock :
          ((ltb (sellable o.symbol d.date b.lots) o.qty ≡ true)
            ⊎ (ltb (sellable o.symbol d.date b.lots) o.qty ≡ false))
          → P b'
      by_stock (inl short) =
          let same : b ≡ b' =
            ground (arith, short, e, inline_sell_lem register d o price ts quality b) in
          rw same at p
      by_stock (inr enough) =
          let new : sold_book d o o.qty price ts quality register b ≡ b' =
            ground (arith, enough, e, inline_sell_lem register d o price ts quality b) in
          rw new at (k.by_sale o o.qty price ts quality register b (ground arith) p)

  pub inline_buy-keeps :
      (o : Order) (price ts : ℕ) (quality : Quality) (b : Book)
      → P b
      → P (inline_buy d o price ts quality b).1
  unfolding inline_buy
  inline_buy-keeps o price ts quality b p =
      elim (Bool-cases (ltb_ℤ b.cash (pos (outlay d o.qty price)))) [
        | inl short ↦ rw short p
        | inr enough ↦ rw enough (k.by_purchase o o.qty price ts quality b (ground arith) p)
      ]

  pub capped_buy-keeps :
      (o : Order) (price ts : ℕ) (quality : Quality) (b b' : Book) (r : Outcome)
      → capped_buy d o price ts quality b ≡ ok (r, b')
      → P b
      → P b'
  unfolding capped_buy
  capped_buy-keeps o price ts quality b b' r e p =
      let (within, _, f) =
        >>=-eq-ok (single_cap_ok d o.symbol o.qty price (outlay d o.qty price) b) _ e in
      by_cap within f
    where
      by_cap : (within : Bool) → ok (within_cap d o price ts quality b within) ≡ ok (r, b') → P b'
      by_cap true f =
          let same : (inline_buy d o price ts quality b).1 ≡ b' = ground arith in
          rw same at (inline_buy-keeps o price ts quality b p)
      by_cap false f = let same : b ≡ b' = ground arith in rw same at p
