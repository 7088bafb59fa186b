-- ===== src/Engine/Book/Limits.antt =====
-- The cash, the cap and the average cost around a fill.
use ai_agent_stock_trading_s.Prelude.{
  ℕ, ◌+◌, ◌*◌, ◌≤◌, ◌<◌, ◌≡◌, refl, true, false, ◌||◌, some, List, [], ◌∷◌, pos, pos_part, neg_part,
  ◌+ℤ◌, ◌-ℤ◌, sub_ℕ, ◌≤ℤ◌, arith, int_laws, leb, ◌==◌, leb→le, pay_parts, find, inl, inr,
}
use ai_agent_stock_trading_s.Engine.Result.{Result, ok, err}
use ai_agent_stock_trading_s.Engine.Money.{amount_of, fees, sell, fen, half_up}
use ai_agent_stock_trading_s.Engine.Order.{Order}
use ai_agent_stock_trading_s.Engine.Book.{
  Book, Day, Holding, Quality, plain, is_holding, held_qty, add_holding, set_avg_cost, write_trade,
  buy_shares, buy_fill, sold_book, sell_fill, outlay, done, sellable, close_out, register_exit,
  single_cap_ok, holdings_value, cap_holds,
}
use ai_agent_stock_trading_s.Engine.Book.Fills.{buy_fill_cases, sell_fill_lem}
use ai_agent_stock_trading_s.Engine.Book.Shares.{held_qty-add, held_qty-set_avg_cost}

-- A purchase that is filled takes its amount and fees from the cash, and the cash is not negative
-- after it.
pub buy_fill_pays :
    (d : Day) (o : Order) (qty price ts : ℕ) (b b' : Book)
    → buy_fill d o qty price ts b ≡ ok (done, b')
    → (b'.cash ≡ b.cash -ℤ pos (outlay d qty price)) × (pos 0 ≤ℤ b'.cash)
unfolding buy_shares
buy_fill_pays d o qty price ts b b' e = elim (buy_fill_cases d o qty price ts b b' done e) [
  | inl (stays, _) ↦ absurd (ground arith)
  | inr (_, new, enough, _) ↦ rw new (refl, omega int_laws)
]

pub held_qty-add_self :
    (s delta : ℕ) (hs : List Holding) → held_qty s (add_holding s delta hs) ≡ held_qty s hs + delta
held_qty-add_self s delta hs = ground (arith, held_qty-add s s delta hs)

-- The row of a holding after a purchase.
find-set_avg_cost-add :
    (s delta avg : ℕ) (hs : List Holding)
    → find (is_holding s) (set_avg_cost s avg (add_holding s delta hs))
      ≡ some (record { symbol = s; quantity = held_qty s hs + delta; avg_cost = avg })
unfolding set_avg_cost add_holding held_qty
find-set_avg_cost-add s delta avg [] = ground arith
find-set_avg_cost-add s delta avg (h ∷ hs) = ground (arith, find-set_avg_cost-add s delta avg hs)

-- The average cost after a purchase is the outlay of this purchase over the whole quantity then
-- held, whatever the shares held before had cost.
pub buy_shares_avg_cost :
    (d : Day) (o : Order) (qty price ts : ℕ) (quality : Quality) (b : Book)
    → find (is_holding o.symbol) (buy_shares d o qty price ts quality b).holdings
      ≡ some (record {
        symbol = o.symbol;
        quantity = held_qty o.symbol b.holdings + qty;
        avg_cost = half_up (outlay d qty price * 100) (held_qty o.symbol b.holdings + qty);
      })
unfolding buy_shares write_trade
buy_shares_avg_cost d o qty price ts quality b =
    rw (find-set_avg_cost-add, held_qty-add_self o.symbol qty b.holdings)

close_out-cash : (s qty : ℕ) (b : Book) → (close_out s qty b).cash ≡ b.cash
unfolding close_out
close_out-cash s qty b = ground arith

overdrawn : (c m n : ℕ) → c + m < n → ¬ (pos 0 ≤ℤ pos c +ℤ sub_ℕ m n)
overdrawn c m n short = grind int_laws

-- A sale that T+1 allows is filled also where its fees are more than its amount and the cash
-- together, and then the cash is negative.
pub sell_fill_overdraws :
    (d : Day) (o : Order) (qty price ts cash : ℕ) (b : Book)
    → b.cash ≡ pos cash
    → qty ≤ sellable o.symbol d.date b.lots
    → cash + amount_of price qty < (fees (amount_of price qty) sell d.fee).total
    → (b' : Book) × (sell_fill d o qty price ts b ≡ ok (done, b')) × (¬ (pos 0 ≤ℤ b'.cash))
unfolding sold_book register_exit
sell_fill_overdraws d o qty price ts cash b c enough short = (
  sold_book d o qty price ts plain true b,
  ground (arith, sell_fill_lem d o qty price ts b),
  rw (close_out-cash, c) (overdrawn cash _ _ short),
)

-- What a passed cap test has compared.
single_cap_ok_value :
    (d : Day) (s qty price spent : ℕ) (b : Book)
    → single_cap_ok d s qty price spent b ≡ ok true
    → d.single_cap < 10000
    → 0 < qty
    → (value : ℕ) × (holdings_value d s price b.holdings ≡ ok value)
      × (cap_holds d.single_cap ((held_qty s b.holdings + qty) * price) b.cash spent value ≡ true)
unfolding single_cap_ok
single_cap_ok_value d s qty price spent b e low some_qty =
    go (holdings_value d s price b.holdings) refl
  where
    tested : (leb 10000 d.single_cap || qty == 0) ≡ false
    tested = ground arith

    go :
        (m : Result ℕ)
        → holdings_value d s price b.holdings ≡ m
        → (value : ℕ) × (holdings_value d s price b.holdings ≡ ok value)
          × (cap_holds d.single_cap ((held_qty s b.holdings + qty) * price) b.cash spent value
              ≡ true)
    go (ok value) v = (value, v, ground (arith, tested))
    go (err w) v = absurd (ground (arith, tested))

-- Moving the outlay from the spent side to the cash.
move_outlay :
    (share r spent value post p n : ℕ)
    → p ≡ r + spent
    → n ≡ 0
    → post * 10000 + share * (n * fen + spent * fen) ≤ share * (p * fen + value)
    → post * 10000 ≤ share * (r * fen + value)
move_outlay share r spent value post p n e f h =
    let h' : post * 10000 + share * (0 * fen + spent * fen) ≤ share * ((r + spent) * fen + value) =
      rw (e, f) at h in
    omega arith

-- A purchase of some shares that is filled under a cap below one: the holding after it, at the
-- fill price, is within the cap times the cash that is left and the value of what was held
-- before.
pub buy_fill_within_cap :
    (d : Day) (o : Order) (qty price ts : ℕ) (b b' : Book)
    → buy_fill d o qty price ts b ≡ ok (done, b')
    → d.single_cap < 10000
    → 0 < qty
    → (value : ℕ) × (holdings_value d o.symbol price b.holdings ≡ ok value)
      × (held_qty o.symbol b'.holdings * price * 10000
          ≤ d.single_cap * (pos_part b'.cash * fen + value))
unfolding buy_shares
buy_fill_within_cap d o qty price ts b b' e low some_qty =
    elim (buy_fill_cases d o qty price ts b b' done e) [
      | inl (stays, _) ↦ absurd (ground arith)
      | inr (_, new, enough, within) ↦
          let (value, v, held) = single_cap_ok_value d o.symbol qty price _ b within low some_qty in
          (
            value,
            v,
            rw new (
                rw (held_qty-set_avg_cost, held_qty-add_self)
                  (move_outlay d.single_cap _ (outlay d qty price) value _ (pos_part b.cash)
                    (neg_part b.cash) (pay_parts b.cash _ enough).0 (pay_parts b.cash _ enough).1
                    (leb→le _ _ held))),
          )
    ]
