-- ===== src/Engine/Settle/Replayed.antt =====
-- The L0 replay and the end of the settlement together (`settle_account` of core/eodengine.py).
use ai_agent_stock_trading_s.Prelude.{ℕ, ◌≡◌, Option, some, List, ◌+ℤ◌, All}
use ai_agent_stock_trading_s.Engine.Result.{ok}
use ai_agent_stock_trading_s.Engine.Book.{Book, Day}
use ai_agent_stock_trading_s.Engine.Replay.{Sample, replay_l0}
use ai_agent_stock_trading_s.Engine.Tier.{Entry}
use ai_agent_stock_trading_s.Engine.Replay.Invariants.{replay_l0-IsBalanced}
use ai_agent_stock_trading_s.Engine.Settle.{Opening, Closing, settle_tail}
use ai_agent_stock_trading_s.Engine.Settle.Conservation.{IsBalanced, settle_tail_total}

-- A book whose cash is the opening cash, the cash of the corporate actions and the day's trades:
-- after an L0 replay without an error the settlement's self-check passes and the account closes
-- with the cash of the book, if the close of every symbol held at the end and the previous close
-- of every opening holding is known.
pub replay_l0_settles :
    (d : Day) (series : ℕ → Option (List Sample)) (ss : List ℕ) (es es' : List Entry) (b b' : Book)
    (start : Opening)
    → replay_l0 d series ss es b ≡ ok (es', b')
    → IsBalanced d.date (start.cash +ℤ start.corp_cash) b
    → All (λ h. (p : ℕ) × (d.close h.symbol ≡ some p)) b'.holdings
    → All (λ h. (p : ℕ) × (d.prev_close h.symbol ≡ some p)) start.holdings
    → (c : Closing) × (settle_tail d start b' ≡ ok c) × (c.cash ≡ b'.cash)
replay_l0_settles d series ss es es' b b' start e balanced =
    settle_tail_total d start b'
      (replay_l0-IsBalanced d series ss es es' b b' (start.cash +ℤ start.corp_cash) e balanced)
