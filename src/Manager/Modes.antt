-- ===== src/Manager/Modes.antt =====
-- When the managing agent of core/manager.py changes its mode.
use ai_agent_stock_trading_s.Prelude.{
  ℕ, suc, ◌<◌, ◌≤◌, ◌≡◌, leb, if◌then◌else◌, refl, true, false, Option, List, [], ◌∷◌, arith,
}
use ai_agent_stock_trading_s.Manager.{
  active, autonomous, Manager, degrade_after, recover_after, record_health, record_resume_call,
  Report, health, resume, step, run, first_row,
}

-- The latest health checks passed, back to the first that did not: newest first.
unfoldable pub passes_in_a_row : List Report → ℕ
passes_in_a_row [] = 0
passes_in_a_row (health true d ∷ rs) = suc (passes_in_a_row rs)
passes_in_a_row (health false d ∷ rs) = 0
passes_in_a_row (resume good ∷ rs) = passes_in_a_row rs

unfoldable pub failures_in_a_row : List Report → ℕ
failures_in_a_row [] = 0
failures_in_a_row (health false d ∷ rs) = suc (failures_in_a_row rs)
failures_in_a_row (health true d ∷ rs) = 0
failures_in_a_row (resume good ∷ rs) = failures_in_a_row rs

-- The latest resume calls failed, back to the last that did not.
unfoldable pub failed_resumes : List Report → ℕ
failed_resumes [] = 0
failed_resumes (resume false ∷ rs) = suc (failed_resumes rs)
failed_resumes (resume true ∷ rs) = 0
failed_resumes (health good d ∷ rs) = failed_resumes rs

-- The same, but back to the last second health check in a row that passed at most.
unfoldable pub fresh_failed_resumes : List Report → ℕ
unfolding passes_in_a_row
fresh_failed_resumes [] = 0
fresh_failed_resumes (resume false ∷ rs) = suc (fresh_failed_resumes rs)
fresh_failed_resumes (resume true ∷ rs) = 0
fresh_failed_resumes (health false d ∷ rs) = fresh_failed_resumes rs
fresh_failed_resumes (health true d ∷ rs) =
    if leb recover_after (suc (passes_in_a_row rs)) then 0 else fresh_failed_resumes rs

-- The counters of the row against the runs at the end of the history.
pub record IsCounted (history : List Report) (m : Manager) : Type 0 where
  pub passes : m.health_successes ≡ passes_in_a_row history
  pub failures : m.health_failures ≡ failures_in_a_row history
  pub resumes_at_most : m.resume_failures ≤ failed_resumes history
  pub resumes_at_least : fresh_failed_resumes history ≤ m.resume_failures
  pub in_service :
      m.mode ≡ active → (m.health_failures < degrade_after) × (m.resume_failures < degrade_after)

step-IsCounted :
    (history : List Report) (r : Report) (now : ℕ) (m : Manager)
    → IsCounted history m
    → IsCounted (r ∷ history) (step r now m)
unfolding step record_health record_resume_call passes_in_a_row failures_in_a_row failed_resumes
    fresh_failed_resumes
step-IsCounted history (health true d) now m h = record {
  passes = ground (arith, h.passes);
  failures = ground arith;
  resumes_at_most = ground (arith, h.resumes_at_most);
  resumes_at_least = ground (arith, h.resumes_at_least, h.passes);
  in_service = λ e. ground (arith, h.in_service);
}
step-IsCounted history (health false d) now m h = record {
  passes = ground arith;
  failures = ground (arith, h.failures);
  resumes_at_most = ground (arith, h.resumes_at_most);
  resumes_at_least = ground (arith, h.resumes_at_least, h.passes);
  in_service = λ e. ground (arith, h.in_service);
}
step-IsCounted history (resume true) now m h = record {
  passes = ground (arith, h.passes);
  failures = ground (arith, h.failures);
  resumes_at_most = ground (arith, h.resumes_at_most);
  resumes_at_least = ground (arith, h.resumes_at_least, h.passes);
  in_service = λ e. ground (arith, h.in_service);
}
step-IsCounted history (resume false) now m h = record {
  passes = ground (arith, h.passes);
  failures = ground (arith, h.failures);
  resumes_at_most = ground (arith, h.resumes_at_most);
  resumes_at_least = ground (arith, h.resumes_at_least, h.passes);
  in_service = λ e. ground (arith, h.in_service);
}

-- The reports that `run` takes, newest first.
unfoldable pub history_of : List (Report × ℕ) → List Report → List Report
history_of [] before = before
history_of ((r, now) ∷ rs) before = history_of rs (r ∷ before)

run-IsCounted :
    (rs : List (Report × ℕ)) (before : List Report) (m : Manager)
    → IsCounted before m
    → IsCounted (history_of rs before) (run rs m)
unfolding run history_of
run-IsCounted [] before m h = h
run-IsCounted ((r, now) ∷ rs) before m h =
    run-IsCounted rs (r ∷ before) (step r now m) (step-IsCounted before r now m h)

-- What the history of a manager in service looks like.
pub record InService (history : List Report) : Type 0 where
  pub few_failures : failures_in_a_row history < 3
  pub few_resumes : fresh_failed_resumes history < 3

-- From the first row, over any reports: the counters of passed and of failed health checks are
-- the lengths of the runs at the end of the history; the counter of failed resume calls is at
-- most the run of these at its end, and at least the part of this run since the last time that
-- two health checks passed in a row. A manager in service has fewer than three failed health
-- checks in a row at the end of its history, and fewer than three failed resume calls in a row
-- since that time.
pub history_switches :
    (rs : List (Report × ℕ))
    → IsCounted (history_of rs []) (run rs first_row)
      × ((run rs first_row).mode ≡ active → InService (history_of rs []))
unfolding passes_in_a_row failures_in_a_row failed_resumes fresh_failed_resumes
history_switches rs =
    let c = run-IsCounted rs [] first_row (record {
      passes = refl;
      failures = refl;
      resumes_at_most = omega arith;
      resumes_at_least = omega arith;
      in_service = λ e. ground arith;
    }) in
    (
      c,
      λ e. record {
        few_failures = omega (arith, c.failures, (c.in_service e).0);
        few_resumes = omega (arith, c.resumes_at_least, (c.in_service e).1);
      },
    )

-- From any state two passed health checks in a row bring the manager into service, and three
-- failed health checks or three failed resume calls in a row take it out.
pub thresholds_reached :
    (m : Manager) (d e f : Option ℕ) (x y z : ℕ)
    → ((run ((health true d, x) ∷ (health true e, y) ∷ []) m).mode ≡ active)
      × ((run ((health false d, x) ∷ (health false e, y) ∷ (health false f, z) ∷ []) m).mode
          ≡ autonomous)
      × ((run ((resume false, x) ∷ (resume false, y) ∷ (resume false, z) ∷ []) m).mode ≡ autonomous)
unfolding run step record_health record_resume_call
thresholds_reached m d e f x y z = (ground arith, ground arith, ground arith)
