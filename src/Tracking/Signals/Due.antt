-- ===== src/Tracking/Signals/Due.antt =====
-- Repeated calls of `settle_due`, core/signalstore.py.
use ai_agent_stock_trading_s.Prelude.{ℕ, ◌≡◌, refl, Option, none, some, List, [], ◌∷◌, arith, ap₂}
use ai_agent_stock_trading_s.Tracking.Signals.{SignalRow, move_signal, settle_signal, settle_due}

settle_signal-again :
    (date days : ℕ) (closes bases : ℕ → Option ℕ) (r : SignalRow)
    → settle_signal date closes bases days (settle_signal date closes bases days r)
      ≡ settle_signal date closes bases days r
unfolding settle_signal move_signal
settle_signal-again date days closes bases r = by_base (bases r.symbol) (closes r.symbol) refl refl
  where
    by_base :
        (b c : Option ℕ)
        → bases r.symbol ≡ b
        → closes r.symbol ≡ c
        → settle_signal date closes bases days (settle_signal date closes bases days r)
          ≡ settle_signal date closes bases days r
    by_base none none e f = ground (arith, e, f)
    by_base (some b) none e f = ground (arith, e, f)
    by_base none (some c) e f = ground (arith, e, f)
    by_base (some b) (some c) e f = ground (arith, e, f)

-- A second call for the same day with the same prices changes nothing.
pub settle_due_again :
    (date days : ℕ) (closes bases : ℕ → Option ℕ) (rs : List SignalRow)
    → settle_due date closes bases days (settle_due date closes bases days rs)
      ≡ settle_due date closes bases days rs
unfolding settle_due
settle_due_again date days closes bases [] = refl
settle_due_again date days closes bases (r ∷ rs) =
    ap₂ (λ x xs. x ∷ xs) (settle_signal-again date days closes bases r)
      (settle_due_again date days closes bases rs)
