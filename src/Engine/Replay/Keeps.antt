-- ===== src/Engine/Replay/Keeps.antt =====
-- Properties of the book along the loops of the L0 replay of core/eodengine.py.
use ai_agent_stock_trading_s.Prelude.{
  ℕ, ◌≡◌, refl, subst, Bool, true, false, not, ◌&&◌, ◌||◌, ltb, Option, none, some, List, [], ◌∷◌,
  ◌==◌, if◌then◌else◌, arith,
}
use ai_agent_stock_trading_s.Engine.Result.{
  Result, ok, err, gap, engine, decimal, below_zero, ◌>>=◌,
}
use ai_agent_stock_trading_s.Engine.Money.{Limits}
use ai_agent_stock_trading_s.Engine.Order.{Order, hhmm}
use ai_agent_stock_trading_s.Engine.Trigger.{Plan, open_board, timed, ruled, plan_of, Rule}
use ai_agent_stock_trading_s.Engine.Book.{Book, Day, plain, Outcome, done, insufficient}
use ai_agent_stock_trading_s.Engine.Book.Fills.{sell_fill-keeps, buy_fill-keeps}
use ai_agent_stock_trading_s.Engine.Tier.{Final, Run, Entry, after_fill, start_run}
use ai_agent_stock_trading_s.Engine.Tier.Keeps.{IsKept, replay_tier-keeps}
use ai_agent_stock_trading_s.Engine.Replay.{
  Sample, stopping, fill_as, visit_open, visit_timed, visit_ruled, visit_by, visit, scan, run_plan,
  run_order, replay_l0, lock_limits, touched, locked, is_buy_type, is_buy_side, is_after, advance,
}

module _ {ℓ} (d : Day) (P : Book → Type ℓ) (k : IsKept d P) where
  abbrev Good : Result (Run × Bool) → Type ℓ
  Good (ok (r, _)) = P r.book
  Good (err e) = Unit

  -- A branch keeps the property if both of its sides do.
  Good-if : (c : Bool) (m n : Result (Run × Bool)) → Good m → Good n → Good (if c then m else n)
  Good-if true m n g h = g
  Good-if false m n g h = h

  pub fill_as-keeps :
      (side : Bool) (o : Order) (price ts : ℕ) (b b' : Book) (r : Outcome)
      → fill_as side d o price ts b ≡ ok (r, b')
      → P b
      → P b'
  fill_as-keeps true o price ts =
      buy_fill-keeps P d o o.qty price ts (k.by_purchase o o.qty price ts plain)
  fill_as-keeps false o price ts =
      sell_fill-keeps P d o o.qty price ts (k.by_sale o o.qty price ts plain true)

  Good-after_fill :
      (m : Result (Outcome × Book)) (r : Run)
      → ((x : Outcome) (b' : Book) → m ≡ ok (x, b') → P b')
      → Good (m >>= after_fill r)
  Good-after_fill (ok (done, b)) r h = h done b refl
  Good-after_fill (ok (insufficient, b)) r h = h insufficient b refl
  Good-after_fill (err e) r h = tt

  Good-stopping : (m : Result (Run × Bool)) → Good m → Good (m >>= stopping)
  Good-stopping (ok (r, x)) g = g
  Good-stopping (err e) g = tt

  Good-fill_as :
      (side : Bool) (o : Order) (price ts : ℕ) (b : Book) (r : Run)
      → P b
      → Good (fill_as side d o price ts b >>= after_fill r)
  Good-fill_as side o price ts b r p =
      Good-after_fill (fill_as side d o price ts b) r
        (λ x b' e. fill_as-keeps side o price ts b b' x e p)

  visit_open-Good :
      (o : Order) (lim : Option Limits) (x : Sample) (r : Run)
      → P r.book
      → Good (visit_open d o lim x r)
  unfolding visit_open
  visit_open-Good o none x r p = p
  visit_open-Good o (some lim) x r p = Good-if (x.price == lim.up) _ _ p (
      Good-if (not r.pinned || ltb lim.up x.price) _ _ p
        (Good-fill_as false o x.price x.ts r.book r p))

  visit_timed-Good :
      (o : Order) (at : ℕ) (x : Sample) (r : Run) → P r.book → Good (visit_timed d o at x r)
  unfolding visit_timed
  visit_timed-Good o at x r p =
      Good-if (ltb (hhmm x.ts) at) _ _ p
        (Good-stopping _ (Good-fill_as (is_buy_side o.direction) o x.price x.ts r.book r p))

  visit_ruled-Good :
      (o : Order) (lim : Option Limits) (rule : Rule) (x : Sample) (r : Run)
      → P r.book
      → Good (visit_ruled d o lim rule x r)
  unfolding visit_ruled
  visit_ruled-Good o lim rule x r p =
      Good-if
        (touched d o.symbol lim r.book.lots x.price rule && not (locked o.order_type lim x.price)) _
        _
        (Good-fill_as (is_buy_type o.order_type) o x.price x.ts r.book
          (record r { plan = ruled rule }) p)
        p

  visit-Good :
      (o : Order) (lim : Option Limits) (x : Sample) (r : Run) → P r.book → Good (visit d o lim x r)
  unfolding visit
  visit-Good o lim x r p = Good-if (is_after o.created_at x.ts) _ _ (by_plan r.plan) p
    where
      by_plan : (q : Plan) → Good (visit_by d o lim x r q)
      by_plan open_board = visit_open-Good o lim x r p
      by_plan (timed at) = visit_timed-Good o at x r p
      by_plan (ruled rule) = visit_ruled-Good o lim (advance rule x.price) x r p

  pub scan-keeps :
      (o : Order) (lim : Option Limits) (xs : List Sample) (r r' : Run)
      → scan d o lim xs r ≡ ok r'
      → P r.book
      → P r'.book
  unfolding scan
  scan-keeps o lim [] r r' e p = let same : r ≡ r' = cc in rw same at p
  scan-keeps o lim (x ∷ xs) r r' e p =
      by_visit (visit d o lim x r) refl (visit-Good o lim x r p) (λ q. scan-keeps o lim xs q r')
    where
      by_visit :
          (m : Result (Run × Bool))
          → visit d o lim x r ≡ m
          → Good m
          → ((q : Run) → scan d o lim xs q ≡ ok r' → P q.book → P r'.book)
          → P r'.book
      by_visit (err w) v g ih = ground arith
      by_visit (ok (q, true)) v g ih = let same : q ≡ r' = ground arith in rw same at g
      by_visit (ok (q, false)) v g ih = ih q (ground arith) g

  pub run_order-keeps :
      (o : Order) (xs : List Sample) (b : Book) (r : Run)
      → run_order d o xs b ≡ ok r
      → P b
      → P r.book
  unfolding run_order
  run_order-keeps o xs b r e p =
      by_plan (plan_of o (d.hist_high o.symbol) (d.prev_close o.symbol)) e
    where
      by_plan : (m : Result Plan) → run_plan d o xs b m ≡ ok r → P r.book
      by_plan (ok q) e = scan-keeps o (lock_limits d o.symbol) xs (start_run b q) r e p
      by_plan (err gap) e = ground arith
      by_plan (err decimal) e = ground arith
      by_plan (err below_zero) e = ground arith
      by_plan (err engine) e =
          let same : record (start_run b open_board) { final = Final.invalid } ≡ r = ground arith in
          subst (λ q. P q.book) same p

  -- Whatever the orders and the samples: what each fill keeps holds after the replay.
  pub replay_l0-keeps :
      (series : ℕ → Option (List Sample)) (ss : List ℕ) (es es' : List Entry) (b b' : Book)
      → replay_l0 d series ss es b ≡ ok (es', b')
      → P b
      → P b'
  unfolding replay_l0
  replay_l0-keeps = replay_tier-keeps (λ xs o. run_order d o xs) P (λ xs o. run_order-keeps o xs)
