-- ===== src/Engine/Settle/Conservation.antt =====
-- The cash of the book against its trades, and the self-check of core/eodengine.py.
use ai_agent_stock_trading_s.Prelude.{
  ℕ, ◌+◌, ◌*◌, ◌≡◌, refl, ◌∙◌, ap, Bool, true, false, List, [], ◌∷◌, ◌++◌, ℤ, pos, ◌+ℤ◌, ◌-ℤ◌,
  sub_ℕ, arith, int_laws, All, if◌then◌else◌, ◌==◌, some, Bool-cases, inl, inr,
}
use ai_agent_stock_trading_s.Engine.Result.{Result, ok, ◌>>=◌}
use ai_agent_stock_trading_s.Engine.Money.{sell, amount_of, fees}
use ai_agent_stock_trading_s.Engine.Order.{Order}
use ai_agent_stock_trading_s.Engine.Book.{
  Book, Day, Holding, Trade, Quality, require_close, sold_book, buy_shares, write_trade, close_out,
  register_exit, outlay,
}
use ai_agent_stock_trading_s.Engine.Settle.{
  net_of, flow_from, day_flow, market_value, eq_ℤ, in_units, nav_of, audit_conservation,
  opening_value, Closing, Opening, closing_of, equity_of, settle_tail,
}

flow_from-append :
    (date : ℕ) (acc : ℤ) (ts us : List Trade)
    → flow_from date acc (ts ++ us) ≡ flow_from date (flow_from date acc ts) us
unfolding flow_from
flow_from-append date acc [] us = refl
flow_from-append date acc (t ∷ ts) us =
    flow_from-append date
      (if t.settle_date == date then acc +ℤ net_of t.side t.amount t.fee.total else acc) ts us

-- One more trade of the day adds its net amount.
day_flow-snoc :
    (date : ℕ) (ts : List Trade) (t : Trade)
    → t.settle_date ≡ date
    → day_flow date (ts ++ t ∷ []) ≡ day_flow date ts +ℤ net_of t.side t.amount t.fee.total
unfolding day_flow flow_from
day_flow-snoc date ts t e = rw flow_from-append (ground arith)

-- The cash is what the day's trades and `base` make it.
pub record IsBalanced (date : ℕ) (base : ℤ) (b : Book) : Type 0 where
  pub balanced : b.cash ≡ base +ℤ day_flow date b.trades

spend : (base flow : ℤ) (n : ℕ) → base +ℤ flow -ℤ pos n ≡ base +ℤ (flow +ℤ sub_ℕ 0 n)
spend base flow n = grind int_laws

+ℤ_assoc : (a b c : ℤ) → a +ℤ b +ℤ c ≡ a +ℤ (b +ℤ c)
+ℤ_assoc a b c = omega int_laws

-- What a sale brings in.
abbrev proceeds : Day → ℕ → ℕ → ℤ
proceeds d qty price = sub_ℕ (amount_of price qty) (fees (amount_of price qty) sell d.fee).total

close_out-cash : (s qty : ℕ) (b : Book) → (close_out s qty b).cash ≡ b.cash
unfolding close_out
close_out-cash s qty b = ground arith

close_out-trades : (s qty : ℕ) (b : Book) → (close_out s qty b).trades ≡ b.trades
unfolding close_out
close_out-trades s qty b = ground arith

sale_adds :
    (d : Day) (qty price : ℕ) (base : ℤ) (b : Book)
    → IsBalanced d.date base b
    → b.cash +ℤ proceeds d qty price ≡ base +ℤ (day_flow d.date b.trades +ℤ proceeds d qty price)
sale_adds d qty price base b c =
    ap (λ z. z +ℤ proceeds d qty price) c.balanced ∙ +ℤ_assoc base (day_flow d.date b.trades) _

pub sold_book-IsBalanced :
    (d : Day) (o : Order) (qty price ts : ℕ) (quality : Quality) (register : Bool) (base : ℤ)
    (b : Book)
    → IsBalanced d.date base b
    → IsBalanced d.date base (sold_book d o qty price ts quality register b)
unfolding sold_book write_trade register_exit
sold_book-IsBalanced d o qty price ts quality true base b c = record {
  balanced = rw (close_out-cash, close_out-trades, day_flow-snoc) (sale_adds d qty price base b c);
}
sold_book-IsBalanced d o qty price ts quality false base b c = record {
  balanced = rw (close_out-cash, close_out-trades, day_flow-snoc) (sale_adds d qty price base b c);
}

pub buy_shares-IsBalanced :
    (d : Day) (o : Order) (qty price ts : ℕ) (quality : Quality) (base : ℤ) (b : Book)
    → IsBalanced d.date base b
    → IsBalanced d.date base (buy_shares d o qty price ts quality b)
unfolding buy_shares write_trade
buy_shares-IsBalanced d o qty price ts quality base b c = record {
  balanced = rw day_flow-snoc (ap (λ z. z -ℤ pos (outlay d qty price)) c.balanced ∙ spend base _ _);
}

-- The value that the equity adds to the cash is the market value that the self-check derives.
equity_of-market_value :
    (d : Day) (acc : ℤ) (hs : List Holding)
    → All (λ h. (p : ℕ) × (d.close h.symbol ≡ some p)) hs
    → (mv : ℕ) × (market_value d hs ≡ ok mv) × (equity_of d acc hs ≡ ok (acc +ℤ pos mv))
unfolding market_value equity_of require_close
equity_of-market_value d acc [] a =
    let same : acc +ℤ pos 0 ≡ acc = omega int_laws in (0, refl, rw same)
equity_of-market_value d acc (h ∷ hs) ((p, e), a) =
    let (mv, m, q) = equity_of-market_value d (acc +ℤ pos (h.quantity * p)) hs a in
    let regroup : acc +ℤ pos (h.quantity * p) +ℤ pos mv ≡ acc +ℤ pos (h.quantity * p + mv) =
      omega int_laws in
    (h.quantity * p + mv, row h mv p (market_value d hs) e m, rw (e, q, regroup))
  where
    row :
        (h : Holding) (mv p : ℕ) (m : Result ℕ)
        → d.close h.symbol ≡ some p
        → m ≡ ok mv
        → (if h.quantity == 0
            then m
            else (require_close d h.symbol >>= λ q. m >>= λ rest. ok (h.quantity * q + rest)))
          ≡ ok (h.quantity * p + mv)
    row h mv p m e w = elim (Bool-cases (h.quantity == 0)) [
      | inl empty ↦
          let none_held : h.quantity * p + mv ≡ mv = grind arith in rw (empty, none_held) w
      | inr held ↦ rw (held, e, w)
    ]

opening_value_total :
    (d : Day) (hs : List Holding)
    → All (λ h. (p : ℕ) × (d.prev_close h.symbol ≡ some p)) hs
    → (v : ℕ) × (opening_value d hs ≡ ok v)
unfolding opening_value
opening_value_total d [] a = (0, refl)
opening_value_total d (h ∷ hs) ((p, e), a) =
    let (v, w) = opening_value_total d hs a in
    (if h.quantity == 0 then v else h.quantity * p + v, ground (arith, e, w))

eq_ℤ_refl : (a : ℤ) → eq_ℤ a a ≡ true
eq_ℤ_refl a = ground arith

-- Both equations of the self-check hold of a balanced book valued at its closes.
audit_conservation-IsBalanced :
    (d : Day) (start corp : ℤ) (shares mv : ℕ) (b : Book)
    → b.cash ≡ start +ℤ day_flow d.date b.trades +ℤ corp
    → market_value d b.holdings ≡ ok mv
    → audit_conservation d start b.cash
        (in_units b.cash +ℤ pos mv)
        shares
        (nav_of (in_units b.cash +ℤ pos mv) shares)
        corp
        b
      ≡ ok tt
unfolding audit_conservation
audit_conservation-IsBalanced d start corp shares mv b c m = rw (
  ← c,
  m,
  eq_ℤ_refl b.cash,
  eq_ℤ_refl (in_units b.cash +ℤ pos mv),
  eq_ℤ_refl (nav_of (in_units b.cash +ℤ pos mv) shares),
)

-- A balanced book whose prices are all known settles, with the cash of the book.
pub settle_tail_total :
    (d : Day) (start : Opening) (b : Book)
    → IsBalanced d.date (start.cash +ℤ start.corp_cash) b
    → All (λ h. (p : ℕ) × (d.close h.symbol ≡ some p)) b.holdings
    → All (λ h. (p : ℕ) × (d.prev_close h.symbol ≡ some p)) start.holdings
    → (c : Closing) × (settle_tail d start b ≡ ok c) × (c.cash ≡ b.cash)
unfolding settle_tail
settle_tail_total d start b c closes prevs =
    let (mv, m, q) = equity_of-market_value d (in_units b.cash) b.holdings closes in
    let (v, w) = opening_value_total d start.holdings prevs in
    let moved : b.cash ≡ start.cash +ℤ day_flow d.date b.trades +ℤ start.corp_cash =
      c.balanced ∙ omega int_laws in
    let passed =
      audit_conservation-IsBalanced d start.cash start.corp_cash start.shares mv b moved m in
    (closing_of start b.cash (in_units b.cash +ℤ pos mv) v, rw (q, w, passed), refl)
