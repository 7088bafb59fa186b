-- ===== src/Engine/Minutes/Keeps.antt =====
-- Properties of the book along the L1 loop of core/eodengine.py.
use ai_agent_stock_trading_s.Prelude.{
  ℕ, ◌≡◌, refl, Bool, true, false, Option, none, List, [], ◌∷◌, arith, if◌then◌else◌,
}
use ai_agent_stock_trading_s.Engine.Result.{
  Result, ok, err, gap, engine, decimal, below_zero, ◌>>=◌,
}
use ai_agent_stock_trading_s.Engine.Money.{Limits}
use ai_agent_stock_trading_s.Engine.Order.{Order}
use ai_agent_stock_trading_s.Engine.Trigger.{
  Rule, always, static, cost, trail, Plan, open_board, timed, ruled, plan_of,
}
use ai_agent_stock_trading_s.Engine.Book.{Book, Day, Quality, or_else, Outcome, done, insufficient}
use ai_agent_stock_trading_s.Engine.Tier.{Run, Entry, start_run}
use ai_agent_stock_trading_s.Engine.Tier.Keeps.{IsKept, replay_tier-keeps}
use ai_agent_stock_trading_s.Engine.Replay.{advance, is_buy_type, is_after, lock_limits, scan}
use ai_agent_stock_trading_s.Engine.Replay.Keeps.{scan-keeps}
use ai_agent_stock_trading_s.Engine.Inline.{inline_buy}
use ai_agent_stock_trading_s.Engine.Inline.Keeps.{inline_sell-keeps, inline_buy-keeps}
use ai_agent_stock_trading_s.Engine.Minutes.{
  Bar, Minute, norm_l1, Watch, minute_hit, minute_fill, fire_price, fire_quality, wanted, fire,
  after_fire, is_due, watch, scan_minutes, samples_of, minutes_plan, run_minutes, replay_l1,
}

module _ {ℓ} (d : Day) (P : Book → Type ℓ) where
  abbrev GoodWatch : Result (Watch × Bool) → Type ℓ
  GoodWatch (ok (w, _)) = P w.run.book
  GoodWatch (err e) = Unit

  abbrev Good : Result Run → Type ℓ
  Good (ok r) = P r.book
  Good (err e) = Unit

  -- Fills of a minute, and the whole loop of one order by what they keep.
  module _
      (fills : (side : Bool) (o : Order) (price ts : ℕ) (quality : Quality) (b b' : Book)
          (r : Outcome)
        → minute_fill side d o price ts quality b ≡ ok (r, b')
        → P b
        → P b') where
    fire-GoodWatch :
        (o : Order) (m : Minute) (rule : Rule) (w : Watch)
        → P w.run.book
        → GoodWatch (fire d o m rule w)
    unfolding fire
    fire-GoodWatch o m rule w p =
        by_price (fire_price d o (wanted d o.symbol w.run.book.lots rule) m.ts)
      where
        by_fill :
            (price : ℕ) (n : Result (Outcome × Book))
            → minute_fill (is_buy_type o.order_type) d o price m.ts (fire_quality o m.ts) w.run.book
              ≡ n
            → GoodWatch (n >>= after_fire rule w)
        by_fill price (err e) h = tt
        by_fill price (ok (done, b)) h =
            fills (is_buy_type o.order_type) o price m.ts (fire_quality o m.ts) w.run.book b done h
              p
        by_fill price (ok (insufficient, b)) h =
            fills (is_buy_type o.order_type) o price m.ts (fire_quality o m.ts) w.run.book b
              insufficient h p

        by_price :
            (n : Result ℕ)
            → GoodWatch (
                n >>= λ price.
                minute_fill
                  (is_buy_type o.order_type)
                  d
                  o
                  price
                  m.ts
                  (fire_quality o m.ts)
                  w.run.book
                >>= after_fire rule w)
        by_price (err e) = tt
        by_price (ok price) = by_fill price _ refl

    GoodWatch-if :
        (c : Bool) (m n : Result (Watch × Bool))
        → GoodWatch m
        → GoodWatch n
        → GoodWatch (if c then m else n)
    GoodWatch-if true m n g h = g
    GoodWatch-if false m n g h = h

    watch-GoodWatch :
        (o : Order) (lim : Option Limits) (m : Minute) (w : Watch)
        → P w.run.book
        → GoodWatch (watch d o lim m w)
    unfolding watch
    watch-GoodWatch o lim m w p =
        GoodWatch-if
          (is_due (is_after o.created_at m.ts)
            (minute_hit d o lim w.run.book.lots m (advance w.rule (or_else m.high m.close))) w)
          _ _ (fire-GoodWatch o m (advance w.rule (or_else m.high m.close)) w p) p

    pub scan_minutes-keeps :
        (o : Order) (lim : Option Limits) (ms : List Minute) (w w' : Watch)
        → scan_minutes d o lim ms w ≡ ok w'
        → P w.run.book
        → P w'.run.book
    unfolding scan_minutes
    scan_minutes-keeps o lim [] w w' e p = let same : w ≡ w' = cc in rw same at p
    scan_minutes-keeps o lim (m ∷ ms) w w' e p =
        by_watch (watch d o lim m w) refl (watch-GoodWatch o lim m w p)
          (λ v. scan_minutes-keeps o lim ms v w')
      where
        by_watch :
            (n : Result (Watch × Bool))
            → watch d o lim m w ≡ n
            → GoodWatch n
            → ((v : Watch) → scan_minutes d o lim ms v ≡ ok w' → P v.run.book → P w'.run.book)
            → P w'.run.book
        by_watch (err x) v g ih = ground arith
        by_watch (ok (v, true)) h g ih = let same : v ≡ w' = ground arith in rw same at g
        by_watch (ok (v, false)) h g ih = ih v (ground arith) g

    scan_minutes-Good :
        (o : Order) (lim : Option Limits) (ms : List Minute) (w : Watch)
        → P w.run.book
        → Good (scan_minutes d o lim ms w >>= λ v. ok v.run)
    scan_minutes-Good o lim ms w p = by_scan (scan_minutes d o lim ms w) refl
      where
        by_scan : (n : Result Watch) → scan_minutes d o lim ms w ≡ n → Good (n >>= λ v. ok v.run)
        by_scan (err e) h = tt
        by_scan (ok v) h = scan_minutes-keeps o lim ms w v h p

  module _ (k : IsKept d P) where
    minute_fill-keeps :
        (side : Bool) (o : Order) (price ts : ℕ) (quality : Quality) (b b' : Book) (r : Outcome)
        → minute_fill side d o price ts quality b ≡ ok (r, b')
        → P b
        → P b'
    minute_fill-keeps true o price ts quality b b' r e p =
        let same : (inline_buy d o price ts quality b).1 ≡ b' = ground arith in
        rw same at (inline_buy-keeps d P k o price ts quality b p)
    minute_fill-keeps false o price ts quality b b' r e p =
        inline_sell-keeps d P k false o price ts quality b b' r e p

    minutes_plan-Good :
        (o : Order) (ms : List Minute) (b : Book) (m : Result Plan)
        → P b
        → Good (minutes_plan d o ms b m)
    unfolding minutes_plan
    minutes_plan-Good o ms b (ok (timed at)) p =
        by_scan (scan d o none (samples_of ms) (start_run b (timed at))) refl
      where
        by_scan :
            (n : Result Run) → scan d o none (samples_of ms) (start_run b (timed at)) ≡ n → Good n
        by_scan (err e) h = tt
        by_scan (ok r) h = scan-keeps d P k o none (samples_of ms) _ r h p
    minutes_plan-Good o ms b (ok (ruled always)) p = tt
    minutes_plan-Good o ms b (ok (ruled (static op t n))) p =
        scan_minutes-Good minute_fill-keeps o (lock_limits d o.symbol) ms _ p
    minutes_plan-Good o ms b (ok (ruled (cost op t))) p =
        scan_minutes-Good minute_fill-keeps o (lock_limits d o.symbol) ms _ p
    minutes_plan-Good o ms b (ok (ruled (trail t h))) p =
        scan_minutes-Good minute_fill-keeps o (lock_limits d o.symbol) ms _ p
    minutes_plan-Good o ms b (ok open_board) p = tt
    minutes_plan-Good o ms b (err gap) p = tt
    minutes_plan-Good o ms b (err decimal) p = tt
    minutes_plan-Good o ms b (err below_zero) p = tt
    minutes_plan-Good o ms b (err engine) p = p

    run_minutes-keeps :
        (bars : List Bar) (o : Order) (b : Book) (r : Run)
        → run_minutes d o (norm_l1 bars) b ≡ ok r
        → P b
        → P r.book
    unfolding run_minutes
    run_minutes-keeps bars o b r e p = rw e at (
        minutes_plan-Good o (norm_l1 bars) b
          (plan_of o (d.hist_high o.symbol) (d.prev_close o.symbol)) p)

    pub replay_l1-keeps :
        (series : ℕ → Option (List Bar)) (ss : List ℕ) (es es' : List Entry) (b b' : Book)
        → replay_l1 d series ss es b ≡ ok (es', b')
        → P b
        → P b'
    unfolding replay_l1
    replay_l1-keeps =
        replay_tier-keeps (λ bars o. run_minutes d o (norm_l1 bars)) P run_minutes-keeps
