-- ===== src/Tests/Markets.antt =====
-- Tracked sales of core/eodengine.py and sources of market data at concrete inputs.
use ai_agent_stock_trading_s.Prelude.{
  ℕ, ◌≡◌, refl, true, false, not, Option, none, some, List, [], ◌∷◌, pos, arith, find, select,
  count_where, ◌==◌, ◌&&◌, any, if◌then◌else◌,
}
use ai_agent_stock_trading_s.Versions
use ai_agent_stock_trading_s.Versions.{
  Store, Call, checkpointed, activated_by, rolled_back_by, is_version, is_active_of, checkpoint,
  activate, rollback, target_of,
}
use ai_agent_stock_trading_s.Versions.Active.{IsValid, IsKept}
use ai_agent_stock_trading_s.Versions.Histories.{run-IsKept}
use ai_agent_stock_trading_s.SettleDay.{
  Input, l0_level, l2_level, Pair, Suspension, Supply, no_supply, build_feeds, feeds_of, sorted_set,
  supply_orders, supply_helds, supply_order, supply_held, put_series,
}
use ai_agent_stock_trading_s.SettleDay.Supplied.{series_count, build_feeds-series_count}
use ai_agent_stock_trading_s.Engine.Tier.{insert_symbol}
use ai_agent_stock_trading_s.Engine.Prologue.{has, overlaps}
use ai_agent_stock_trading_s.Engine.Result.{Result, ok, err}
use ai_agent_stock_trading_s.Engine.Money.{half_up, half_up_ℤ}
use ai_agent_stock_trading_s.Tracking.{
  Tracking, tracking, undecided, Quote, seen_on, return_of, conclude, close_tracking, advance,
  settle_exits,
}
use ai_agent_stock_trading_s.Tracking.Rows.{
  AllFollow, Session, run_exits, run_exits-AllFollow, settle_exits_again,
}
use ai_agent_stock_trading_s.Sources.{
  akshare, tencent, l1, Report, new_day, worked, failed, router, pick, report, report_all, note_day,
  record_ok, record_failure, has_role,
}
use ai_agent_stock_trading_s.Sources.Routing.{fresh, learn_all, pick-report_all}
use ai_agent_stock_trading_s.Sources.Health.{
  Kind, c, Row, Settings, new_row, Event, evaluated, probe, run,
}
use ai_agent_stock_trading_s.Sources.Health.Cooling.{IsCooling, run-IsCooling}

-- Sold on day 20 at ten yuan.
abbrev sold : Tracking
sold = record {
  symbol = 600000;
  sell_date = 20;
  sell_price = 1000;
  bench_sell_close = 0;
  status = tracking;
  sessions_done = 0;
  last_seen = none;
  period_high = 1000000000;
  period_low = 1000000000;
  last_close = 1000000000;
  last_bench = 0;
  track_end_date = none;
  fwd_return = pos 0;
  bench_return = pos 0;
  excess = pos 0;
  conclusion = undecided;
  is_loss = false;
  is_stale = false;
  no_bench = false;
}

abbrev quotes : ℕ → Option Quote
quotes s = some (record { close = some 1100000000; high = none; low = none })

abbrev sessions : List Session
sessions =
    record { date = 21; bench = none; market = quotes }
    ∷ record { date = 22; bench = none; market = quotes }
    ∷ []

abbrev rows_or : Result (List Tracking) → List Tracking
rows_or (ok ts) = ts
rows_or (err e) = []

abbrev tracked : List Tracking
tracked = rows_or (run_exits 2 sessions (sold ∷ []))

run_done : run_exits 2 sessions (sold ∷ []) ≡ ok tracked
unfolding run_exits settle_exits advance seen_on close_tracking return_of conclude half_up half_up_ℤ
run_done = refl

run_exits-AllFollow_example : AllFollow 2 (sold ∷ []) tracked
run_exits-AllFollow_example = run_exits-AllFollow 2 sessions (sold ∷ []) tracked run_done

abbrev once : List Tracking
once = rows_or (settle_exits 21 none quotes 2 (sold ∷ []))

once_done : settle_exits 21 none quotes 2 (sold ∷ []) ≡ ok once
unfolding settle_exits advance seen_on close_tracking return_of conclude half_up half_up_ℤ
once_done = refl

settle_exits_again_example : settle_exits 21 none quotes 2 once ≡ ok once
settle_exits_again_example = settle_exits_again 21 2 none quotes (sold ∷ []) once once_done

abbrev failures : List Report
failures =
    new_day (some 20) ∷ failed akshare ∷ failed akshare ∷ worked tencent ∷ failed akshare ∷ []

-- The third failure in a row moves the router to the next source.
moved : pick (report_all failures (router (akshare ∷ tencent ∷ []) l1 3)) ≡ some tencent
unfolding pick report_all report note_day record_ok record_failure router
moved = refl

pick-report_all_example :
    pick (report_all failures (router (akshare ∷ tencent ∷ []) l1 3))
    ≡ find
        (λ s. not (learn_all 3 s failures fresh).left)
        (select (has_role l1) (akshare ∷ tencent ∷ []))
pick-report_all_example = pick-report_all (akshare ∷ tencent ∷ []) l1 3 failures

abbrev settings : Settings
settings = record {
  a_success_pct = 98;
  b_success_pct = 90;
  a_p95 = 300000;
  sample_max = 200;
  c_minutes = 10;
  recover_cooldown = 30;
  recover_needs = 2;
}

abbrev out : Row
out = record (new_row Kind.pull) {
  calls = 1;
  fail = 1;
  consecutive = 1;
  score = some c;
  c_since = some 0;
  cooled_until = some 2400;
  switched = true;
}

abbrev events : List Event
events = probe 700 true ∷ evaluated 800 none ∷ probe 900 true ∷ []

run-IsCooling_example : IsCooling 2400 (run settings events out)
run-IsCooling_example =
    run-IsCooling settings 2400 events out (ground arith, (ground arith, (ground arith, tt)))
      (record { out = refl; until_same = refl })

-- A first version, a second one, and the way back.
abbrev calls : List Call
calls =
    checkpointed true true 1 10 100
    ∷ activated_by true 1 10 110
    ∷ checkpointed true true 1 11 200
    ∷ activated_by true 1 11 210
    ∷ rolled_back_by (some 7) true 1 300
    ∷ []

abbrev no_versions : Store
no_versions = record { agents = 1 ∷ []; versions = [] }

back_again :
    count_where
      (is_version 1 10)
      (select (is_active_of 1) (Versions.run calls no_versions).versions)
    ≡ 1
unfolding Versions.run Versions.step checkpoint activate rollback target_of
back_again = refl

none_IsValid : IsValid []
none_IsValid = record {
  numbers = λ a n. omega arith;
  ids = λ i. omega arith;
  one_active = λ a. omega arith;
}

run-IsKept_example : IsKept [] (Versions.run calls no_versions).versions
run-IsKept_example = run-IsKept calls no_versions none_IsValid

-- A day with orders for the symbols 3, 1 and 2, of which 3 is suspended, and with a holding of 4.
abbrev answers : ℕ → Option Input
answers s =
    if s == 1
    then some (record {
      level = l0_level (record { ts = 9; price = 1000 } ∷ []);
      official_close = 1000;
      prev_close = some 990;
      is_degraded = false;
    })
    else if s == 2
    then some (record {
      level = l2_level (record { high = 700; low = 600 });
      official_close = 650;
      prev_close = none;
      is_degraded = true;
    })
    else none

abbrev pairs : ℕ → Option Pair
pairs s = some (record { official_close = 500; prev_close = 510 })

abbrev suspensions : List (ℕ × Suspension)
suspensions = (3, record { close = 800; prev = none }) ∷ []

abbrev supply_or : Option Supply → Supply
supply_or (some p) = p
supply_or none = no_supply

abbrev supply : Supply
supply = supply_or (build_feeds answers pairs suspensions (3 ∷ 1 ∷ 2 ∷ 1 ∷ []) (4 ∷ 2 ∷ []))

supplied_closes : supply.close_map ≡ (4, 500) ∷ (1, 1000) ∷ (2, 650) ∷ []
unfolding build_feeds sorted_set insert_symbol supply_orders supply_helds supply_order supply_held
    put_series
supplied_closes = refl

supplied : build_feeds answers pairs suspensions (3 ∷ 1 ∷ 2 ∷ 1 ∷ []) (4 ∷ 2 ∷ []) ≡ some supply
unfolding build_feeds sorted_set insert_symbol supply_orders supply_helds supply_order supply_held
    put_series
supplied = refl

build_feeds-series_count_example :
    ((s : ℕ)
      → series_count s (feeds_of suspensions supply)
        ≡ (if any (λ t. t == s) (3 ∷ 1 ∷ 2 ∷ 1 ∷ []) && not (has s suspensions) then 1 else 0))
    × (overlaps (feeds_of suspensions supply) ≡ false)
build_feeds-series_count_example =
    build_feeds-series_count answers pairs suspensions (3 ∷ 1 ∷ 2 ∷ 1 ∷ []) (4 ∷ 2 ∷ []) supply
      supplied
