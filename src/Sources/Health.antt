-- ===== src/Sources/Health.antt =====
-- The health of one source on one day, its row of source_health, core/source_health.py.
-- A latency is in hundredths of a millisecond, an instant in seconds. The name, the family and the note
-- of a row are left out, and so are the rows of audit_logs.
pub mod Cooling
use ai_agent_stock_trading_s.Prelude.{
  ℕ, suc, ◌+◌, ◌-◌, ◌*◌, ◌/◌, min, Bool, true, false, not, ◌&&◌, ◌||◌, Option, none, some, List, [],
  ◌∷◌, ◌++◌, ltb, leb, ◌==◌, if◌then◌else◌, length, drop,
}

pub data Grade : Type 0 where
  a b c : Grade

pub data Kind : Type 0 where
  pull collect : Kind

-- `score` is absent from a row without calls, an instant from a row that has none.
pub record Row : Type 0 where
  pub kind : Kind
  pub calls : ℕ
  pub success : ℕ
  pub fail : ℕ
  pub degraded : ℕ
  pub consecutive : ℕ
  pub latency : List ℕ
  pub score : Option Grade
  pub c_since : Option ℕ
  pub cooled_until : Option ℕ
  pub recover_successes : ℕ
  pub switched : Bool

-- The settings `source_health_…`; percentages are whole.
pub record Settings : Type 0 where
  pub a_success_pct : ℕ
  pub b_success_pct : ℕ
  pub a_p95 : ℕ
  pub sample_max : ℕ
  pub c_minutes : ℕ
  pub recover_cooldown : ℕ
  pub recover_needs : ℕ

abbrev insert_value : ℕ → List ℕ → List ℕ
insert_value n [] = n ∷ []
insert_value n (m ∷ ms) = if leb n m then n ∷ m ∷ ms else m ∷ insert_value n ms

abbrev sort_values : List ℕ → List ℕ
sort_values [] = []
sort_values (n ∷ ns) = insert_value n (sort_values ns)

abbrev nth : ℕ → List ℕ → ℕ
nth n [] = 0
nth n (m ∷ ms) = if n == 0 then m else nth (n - 1) ms

-- `_pctl`
unfoldable pub pctl : List ℕ → ℕ → ℕ
pctl values pct =
    nth (min ((pct * length values + 99) / 100 - 1) (length values - 1)) (sort_values values)

-- `_grade`
unfoldable pub grade : Settings → ℕ → ℕ → ℕ → Option Grade
grade s success calls p95 =
    if calls == 0
    then none
    else if leb (s.a_success_pct * calls) (success * 100) && leb p95 s.a_p95
    then some a
    else if leb (s.b_success_pct * calls) (success * 100)
    then some b
    else some c

abbrev pub is_c : Option Grade → Bool
is_c (some c) = true
is_c _ = false

-- The arguments of `record_call`.
pub record Call : Type 0 where
  pub is_ok : Bool
  pub took : ℕ
  pub of_kind : Kind
  pub is_degraded : Bool

abbrev pub new_row : Kind → Row
new_row kind = record {
  kind = kind;
  calls = 0;
  success = 0;
  fail = 0;
  degraded = 0;
  consecutive = 0;
  latency = [];
  score = none;
  c_since = none;
  cooled_until = none;
  recover_successes = 0;
  switched = false;
}

abbrev pub row_or_new : Kind → Option Row → Row
row_or_new kind none = new_row kind
row_or_new kind (some r) = r

abbrev last_of : ℕ → List ℕ → List ℕ
last_of n xs = if n == 0 then xs else drop (length xs - n) xs

abbrev sampled : ℕ → ℕ → List ℕ → List ℕ
sampled n took xs = last_of n (if took == 0 then xs else xs ++ took ∷ [])

-- When grade C began: kept while it lasts, cleared when it ends.
abbrev pub since_of : Option Grade → ℕ → Option ℕ → Option ℕ
since_of score now since = if is_c score then some_or now since else none
  where
    some_or : ℕ → Option ℕ → Option ℕ
    some_or now none = some now
    some_or now (some t) = some t

abbrev pub counted : Call → Row → Row
counted x r = record r {
  kind = x.of_kind;
  calls = suc r.calls;
  success = if x.is_ok then suc r.success else r.success;
  fail = if x.is_ok then r.fail else suc r.fail;
  degraded = if x.is_degraded then suc r.degraded else r.degraded;
  consecutive = if x.is_ok then 0 else suc r.consecutive;
}

-- The grade goes by the counts and the samples with the call in them.
abbrev pub graded : Settings → ℕ → List ℕ → Row → Row
graded s now samples r =
    let score = grade s r.success r.calls (pctl samples 95) in
    record r { latency = samples; score = score; c_since = since_of score now r.c_since }

unfoldable pub record_call : Settings → ℕ → Call → Option Row → Row
unfolding grade pctl
record_call s now x m =
    let r = row_or_new x.of_kind m in
    graded s now (sampled s.sample_max x.took r.latency) (counted x r)

pub data Action : Type 0 where
  nothing retreat : Action
  already_switched switch : Kind → Action

abbrev or_kind : Option Kind → Kind → Kind
or_kind none k = k
or_kind (some k) _ = k

abbrev or_now : Option ℕ → ℕ → ℕ
or_now none now = now
or_now (some t) now = t

-- `evaluate_switch`: a switch of a source that is pulled takes effect on the day, of one that is
-- collected on the next.
abbrev pub switched_row : Settings → ℕ → Row → Row
switched_row s now r = record r {
  switched = true;
  cooled_until = some (now + s.recover_cooldown * 60);
}

unfoldable pub evaluate_row : Settings → Option Kind → ℕ → Row → Action × Row
evaluate_row s kind now r =
    if not (is_c r.score)
    then (nothing, r)
    else if r.switched
    then (already_switched (or_kind kind r.kind), r)
    else if ltb now (or_now r.c_since now + s.c_minutes * 60)
    then (retreat, r)
    else (switch (or_kind kind r.kind), switched_row s now r)

-- `probe_recover`
abbrev pub is_waiting : Option ℕ → ℕ → Bool
is_waiting none now = false
is_waiting (some until) now = ltb now until

abbrev pub probes_after : Bool → Bool → ℕ → ℕ
probes_after false waiting n = 0
probes_after true true n = n
probes_after true false n = suc n

abbrev pub is_recovered : Settings → Bool → Bool → ℕ → Bool
is_recovered s is_ok waiting n = is_ok && not waiting && leb s.recover_needs n

abbrev pub recovered_row : Row → Row
recovered_row r = record r {
  recover_successes = 0;
  switched = false;
  c_since = none;
  cooled_until = none;
}

abbrev pub probed : Settings → Bool → Bool → Row → Bool × Row
probed s is_ok waiting r =
    let n = probes_after is_ok waiting r.recover_successes in
    if is_recovered s is_ok waiting n
    then (true, recovered_row r)
    else (false, record r { recover_successes = n })

unfoldable pub probe_row : Settings → Bool → ℕ → Row → Bool × Row
probe_row s is_ok now r = probed s is_ok (is_waiting r.cooled_until now) r

-- One call of the module on a row that exists, with its time.
pub data Event : Type 0 where
  called : ℕ → Call → Event
  evaluated : ℕ → Option Kind → Event
  probe : ℕ → Bool → Event

abbrev pub time_of : Event → ℕ
time_of (called t x) = t
time_of (evaluated t k) = t
time_of (probe t x) = t

unfoldable pub step : Settings → Event → Row → Row
unfolding record_call evaluate_row probe_row
step s (called t x) r = record_call s t x (some r)
step s (evaluated t k) r = (evaluate_row s k t r).1
step s (probe t x) r = (probe_row s x t r).1

unfoldable pub run : Settings → List Event → Row → Row
unfolding step
run s [] r = r
run s (e ∷ es) r = run s es (step s e r)
