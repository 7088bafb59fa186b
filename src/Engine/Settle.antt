-- ===== src/Engine/Settle.antt =====
-- The end of `settle_account` in core/eodengine.py: the valuation, the self-check
-- `_audit_conservation` and the account's new figures.
pub mod Conservation
pub mod Replayed
use ai_agent_stock_trading_s.Prelude.{
  ℕ, ◌+◌, ◌*◌, Bool, true, false, not, Option, none, some, List, [], ◌∷◌, ◌++◌, ℤ, pos, negsuc,
  pos_part, neg_part, sub_ℕ, ◌+ℤ◌, ◌-ℤ◌, ◌==◌, if◌then◌else◌,
}
use ai_agent_stock_trading_s.Engine.Result.{
  Result, ok, err, engine, ◌>>=◌, ◌>>◌, raise_if, or_raise,
}
use ai_agent_stock_trading_s.Engine.Money.{Side, buy, sell, fen, half_up_ℤ}
use ai_agent_stock_trading_s.Engine.Book.{Book, Day, Holding, Trade, require_close}

-- What a trade adds to the cash.
abbrev pub net_of : Side → ℕ → ℕ → ℤ
net_of sell amount fee = sub_ℕ amount fee
net_of buy amount fee = sub_ℕ 0 (amount + fee)

-- The first loop of `_audit_conservation`, over the day's trades.
unfoldable pub flow_from : ℕ → ℤ → List Trade → ℤ
flow_from date acc [] = acc
flow_from date acc (t ∷ ts) =
    flow_from date
      (if t.settle_date == date then acc +ℤ net_of t.side t.amount t.fee.total else acc) ts

unfoldable pub day_flow : ℕ → List Trade → ℤ
unfolding flow_from
day_flow date ts = flow_from date (pos 0) ts

-- Σ quantity × official close over the rows with a quantity.
unfoldable pub market_value : Day → List Holding → Result ℕ
market_value d [] = ok 0
market_value d (h ∷ hs) =
    if h.quantity == 0
    then market_value d hs
    else (require_close d h.symbol >>= λ p.
        market_value d hs >>= λ rest. ok (h.quantity * p + rest))

abbrev pub eq_ℤ : ℤ → ℤ → Bool
eq_ℤ a b = pos_part a + neg_part b == pos_part b + neg_part a

-- An amount of fen in the unit of prices.
abbrev pub in_units : ℤ → ℤ
in_units z = sub_ℕ (pos_part z * fen) (neg_part z * fen)

-- The net value of a share, in 10⁻⁴ yuan; shares are counted in hundredths.
unfoldable pub nav_of : ℤ → ℕ → ℤ
nav_of equity shares = half_up_ℤ equity (shares * 100)

unfoldable pub audit_conservation : Day → ℤ → ℤ → ℤ → ℕ → ℤ → ℤ → Book → Result (Unit {0})
audit_conservation d cash_start final_cash equity shares nav corp_cash b = do
  raise_if (not (eq_ℤ (cash_start +ℤ day_flow d.date b.trades +ℤ corp_cash) final_cash)) engine
  mv ← market_value d b.holdings
  raise_if (not (eq_ℤ (in_units final_cash +ℤ pos mv) equity)) engine
  raise_if (not (eq_ℤ (nav_of equity shares) nav)) engine

-- The opening holdings at the previous close.
unfoldable pub opening_value : Day → List Holding → Result ℕ
opening_value d [] = ok 0
opening_value d (h ∷ hs) =
    if h.quantity == 0
    then opening_value d hs
    else (or_raise (d.prev_close h.symbol) engine >>= λ p.
        opening_value d hs >>= λ rest. ok (h.quantity * p + rest))

pub record Closing : Type 0 where
  pub cash : ℤ
  pub nav : ℤ
  pub total_pnl : ℤ
  pub today_pnl : ℤ

-- What the account held before the corporate actions, and its constant figures.
pub record Opening : Type 0 where
  pub cash : ℤ
  pub corp_cash : ℤ
  pub holdings : List Holding
  pub initial_capital : ℤ
  pub shares : ℕ

-- The figures of the account at the official closes, or the error that rolls the day back. `held_qty`
-- has a value for each row of `holdings`, also for one of quantity 0, whose close is required.
unfoldable pub equity_of : Day → ℤ → List Holding → Result ℤ
equity_of d acc [] = ok acc
equity_of d acc (h ∷ hs) = do
  p ← require_close d h.symbol
  equity_of d (acc +ℤ pos (h.quantity * p)) hs

abbrev pub closing_of : Opening → ℤ → ℤ → ℕ → Closing
closing_of start cash equity opening = record {
  cash = cash;
  nav = nav_of equity start.shares;
  total_pnl = half_up_ℤ (equity -ℤ in_units start.initial_capital) fen;
  today_pnl = half_up_ℤ (equity -ℤ (in_units start.cash +ℤ pos opening)) fen;
}

unfoldable pub settle_tail : Day → Opening → Book → Result Closing
settle_tail d start b = do
  equity ← equity_of d (in_units b.cash) b.holdings
  opening ← opening_value d start.holdings
  audit_conservation d start.cash b.cash equity start.shares (nav_of equity start.shares)
      start.corp_cash b
  ok (closing_of start b.cash equity opening)
