-- ===== src/Engine/Daily/Keeps.antt =====
-- Properties of the book along the L2 loop of core/eodengine.py.
use ai_agent_stock_trading_s.Prelude.{
  ℕ, ◌≡◌, refl, Bool, true, false, not, ◌&&◌, Option, List, if◌then◌else◌,
}
use ai_agent_stock_trading_s.Engine.Result.{
  Result, ok, err, gap, engine, decimal, below_zero, ◌>>=◌,
}
use ai_agent_stock_trading_s.Engine.Money.{Limits}
use ai_agent_stock_trading_s.Engine.Order.{Order}
use ai_agent_stock_trading_s.Engine.Trigger.{
  Rule, always, static, cost, trail, Plan, open_board, timed, ruled, plan_of,
}
use ai_agent_stock_trading_s.Engine.Book.{
  Book, Day, Quality, require_close, Outcome, done, insufficient,
}
use ai_agent_stock_trading_s.Engine.Tier.{Run, Entry, after_fill, start_run}
use ai_agent_stock_trading_s.Engine.Tier.Keeps.{IsKept, replay_tier-keeps}
use ai_agent_stock_trading_s.Engine.Replay.{is_buy_type, is_buy_side, lock_limits}
use ai_agent_stock_trading_s.Engine.Replay.Keeps.{fill_as-keeps}
use ai_agent_stock_trading_s.Engine.Inline.Keeps.{inline_sell-keeps, capped_buy-keeps}
use ai_agent_stock_trading_s.Engine.Daily.{
  Range, close_ts, is_late, daily_hit, daily_fill, quality_of, run_of, daily_timed, daily_ruled,
  daily_plan, run_daily, replay_l2,
}

module _ {ℓ} (d : Day) (P : Book → Type ℓ) (k : IsKept d P) where
  abbrev Good : Result Run → Type ℓ
  Good (ok r) = P r.book
  Good (err e) = Unit

  Good-if : (c : Bool) (m n : Result Run) → Good m → Good n → Good (if c then m else n)
  Good-if true m n g h = g
  Good-if false m n g h = h

  -- A fill at the official close, where there is one.
  Good-fill :
      (m : Result ℕ) (fill : ℕ → Result (Outcome × Book)) (r : Run)
      → ((p : ℕ) (x : Outcome) (b : Book) → fill p ≡ ok (x, b) → P b)
      → Good (run_of (m >>= λ p. fill p >>= after_fill r))
  Good-fill (err e) fill r h = tt
  Good-fill (ok p) fill r h = by_fill (fill p) (h p)
    where
      by_fill :
          (n : Result (Outcome × Book))
          → ((x : Outcome) (b : Book) → n ≡ ok (x, b) → P b)
          → Good (run_of (n >>= after_fill r))
      by_fill (err e) h = tt
      by_fill (ok (done, b)) h = h done b refl
      by_fill (ok (insufficient, b)) h = h insufficient b refl

  daily_fill-keeps :
      (side : Bool) (o : Order) (price : ℕ) (quality : Quality) (b b' : Book) (r : Outcome)
      → daily_fill side d o price quality b ≡ ok (r, b')
      → P b
      → P b'
  daily_fill-keeps true o price = capped_buy-keeps d P k o price (close_ts d)
  daily_fill-keeps false o price = inline_sell-keeps d P k true o price (close_ts d)

  daily_timed-Good : (o : Order) (b : Book) → P b → Good (daily_timed d o b)
  unfolding daily_timed
  daily_timed-Good o b p = Good-if (is_late o.created_at (close_ts d)) _ _ p (
      Good-fill (require_close d o.symbol) _ (start_run b open_board) (λ price x b' e.
        fill_as-keeps d P k (is_buy_side o.direction) o price (close_ts d) b b' x e p))

  daily_ruled-Good :
      (o : Order) (lim : Option Limits) (x : Range) (rule : Rule) (b : Book)
      → P b
      → Good (daily_ruled d o lim x rule b)
  unfolding daily_ruled
  daily_ruled-Good o lim x rule b p =
      Good-if (not (is_late o.created_at (close_ts d)) && daily_hit d o lim b.lots x rule) _ _
        (Good-fill (require_close d o.symbol) _ (start_run b (ruled rule)) (λ price y b' e.
          daily_fill-keeps (is_buy_type o.order_type) o price (quality_of rule) b b' y e p))
        p

  daily_plan-Good :
      (o : Order) (x : Range) (b : Book) (m : Result Plan) → P b → Good (daily_plan d o x b m)
  unfolding daily_plan
  daily_plan-Good o x b (ok (timed at)) p = daily_timed-Good o b p
  daily_plan-Good o x b (ok (ruled always)) p = tt
  daily_plan-Good o x b (ok (ruled (static op t n))) p =
      daily_ruled-Good o (lock_limits d o.symbol) x _ b p
  daily_plan-Good o x b (ok (ruled (cost op t))) p =
      daily_ruled-Good o (lock_limits d o.symbol) x _ b p
  daily_plan-Good o x b (ok (ruled (trail t h))) p =
      daily_ruled-Good o (lock_limits d o.symbol) x _ b p
  daily_plan-Good o x b (ok open_board) p = tt
  daily_plan-Good o x b (err gap) p = tt
  daily_plan-Good o x b (err decimal) p = tt
  daily_plan-Good o x b (err below_zero) p = tt
  daily_plan-Good o x b (err engine) p = p

  run_daily-keeps :
      (x : Range) (o : Order) (b : Book) (r : Run) → run_daily d o x b ≡ ok r → P b → P r.book
  unfolding run_daily
  run_daily-keeps x o b r e p =
      rw e at (daily_plan-Good o x b (plan_of o (d.hist_high o.symbol) (d.prev_close o.symbol)) p)

  pub replay_l2-keeps :
      (series : ℕ → Option Range) (ss : List ℕ) (es es' : List Entry) (b b' : Book)
      → replay_l2 d series ss es b ≡ ok (es', b')
      → P b
      → P b'
  unfolding replay_l2
  replay_l2-keeps = replay_tier-keeps (λ x o. run_daily d o x) P run_daily-keeps
