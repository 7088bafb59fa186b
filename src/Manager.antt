-- ===== src/Manager.antt =====
-- Safe autonomy of the managing agent, core/manager.py: health checks and resume calls that fail in
-- a row take it out of service, health checks that pass in a row bring it back. Texts are numbers,
-- instants are seconds; the audit and the message to the user are not modelled, and neither is the
-- row's `updated_ts`.
pub mod Modes
use ai_agent_stock_trading_s.Prelude.{
  ℕ, ◌+◌, Bool, true, false, ◌&&◌, Option, none, some, List, [], ◌∷◌, leb, ◌==◌, if◌then◌else◌,
}

pub data Mode : Type 0 where
  active autonomous : Mode

abbrev pub is_autonomous : Mode → Bool
is_autonomous autonomous = true
is_autonomous active = false

abbrev pub is_active : Mode → Bool
is_active active = true
is_active autonomous = false

-- The row of manager_state.
pub record Manager : Type 0 where
  pub mode : Mode
  pub health_failures : ℕ
  pub health_successes : ℕ
  pub resume_failures : ℕ
  pub last_health_ts : ℕ
  pub last_health_ok : Bool
  pub last_reason : ℕ
  pub degraded_since : Option ℕ
  pub recovered_ts : Option ℕ

abbrev pub degrade_after : ℕ
degrade_after = 3

abbrev pub recover_after : ℕ
recover_after = 2

-- The texts that stand for an empty detail.
abbrev or_text : Option ℕ → ℕ → ℕ
or_text none n = n
or_text (some m) n = m

abbrev check_passed : ℕ
check_passed = 1

abbrev check_failed : ℕ
check_failed = 2

unfoldable pub is_degraded : Manager → Bool
is_degraded m = is_autonomous m.mode

abbrev seen : ℕ → Bool → ℕ → Manager → Manager
seen now good reason m = record m {
  last_health_ts = now;
  last_health_ok = good;
  last_reason = reason;
}

abbrev passed : ℕ → Manager → Manager
passed now m =
    let succ = m.health_successes + 1 in
    let counted = record m { health_successes = succ; health_failures = 0 } in
    if is_autonomous m.mode && leb recover_after succ
    then record counted { mode = active; resume_failures = 0; recovered_ts = some now }
    else counted

abbrev failed : ℕ → Manager → Manager
failed now m =
    let fails = m.health_failures + 1 in
    let counted = record m { health_failures = fails; health_successes = 0 } in
    if is_active m.mode && leb degrade_after fails
    then record counted { mode = autonomous; degraded_since = some now }
    else counted

unfoldable pub record_health : Bool → Option ℕ → ℕ → Manager → Manager
record_health true detail now m = seen now true (or_text detail check_passed) (passed now m)
record_health false detail now m = seen now false (or_text detail check_failed) (failed now m)

unfoldable pub record_resume_call : Bool → ℕ → Manager → Manager
record_resume_call true now m =
    if m.resume_failures == 0 then m else record m { resume_failures = 0 }
record_resume_call false now m =
    let fails = m.resume_failures + 1 in
    let counted = record m { resume_failures = fails } in
    if is_active m.mode && leb degrade_after fails
    then record counted { mode = autonomous; degraded_since = some now }
    else counted

-- A report to the manager: a health check with its detail, or the result of a resume call.
pub data Report : Type 0 where
  health : Bool → Option ℕ → Report
  resume : Bool → Report

unfoldable pub step : Report → ℕ → Manager → Manager
step (health good detail) now m = record_health good detail now m
step (resume good) now m = record_resume_call good now m

unfoldable pub run : List (Report × ℕ) → Manager → Manager
run [] m = m
run ((r, now) ∷ rs) m = run rs (step r now m)

-- The row that the migration inserts.
abbrev pub first_row : Manager
first_row = record {
  mode = active;
  health_failures = 0;
  health_successes = 0;
  resume_failures = 0;
  last_health_ts = 0;
  last_health_ok = true;
  last_reason = 0;
  degraded_since = none;
  recovered_ts = none;
}
