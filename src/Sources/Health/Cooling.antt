-- ===== src/Sources/Health/Cooling.antt =====
-- A row of source_health over any calls, core/source_health.py.
use ai_agent_stock_trading_s.Prelude.{
  ℕ, ◌+◌, ◌≤◌, ◌<◌, ◌≡◌, refl, Bool, true, false, Option, none, some, List, [], ◌∷◌, arith,
  Bool-cases, inl, inr, All, lt→ltb,
}
use ai_agent_stock_trading_s.Sources.Health.{
  Grade, Kind, Row, Settings, is_c, since_of, record_call, evaluate_row, is_waiting, probes_after,
  is_recovered, probe_row, Event, called, evaluated, probe, time_of, step, run,
}

-- A source that is out of use until an instant.
pub record IsCooling (until : ℕ) (r : Row) : Type 0 where
  pub out : r.switched ≡ true
  pub until_same : r.cooled_until ≡ some until

evaluate-IsCooling :
    (s : Settings) (k : Option Kind) (t until : ℕ) (r : Row)
    → IsCooling until r
    → IsCooling until (evaluate_row s k t r).1
unfolding evaluate_row
evaluate-IsCooling s k t until r h = record {
  out = ground (arith, h.out);
  until_same = ground (arith, h.out, h.until_same);
}

probe-IsCooling :
    (s : Settings) (x : Bool) (t until : ℕ) (r : Row)
    → is_waiting r.cooled_until t ≡ true
    → IsCooling until r
    → IsCooling until (probe_row s x t r).1
unfolding probe_row
probe-IsCooling s true t until r wait h =
    rw wait (record { out = h.out; until_same = h.until_same })
probe-IsCooling s false t until r wait h = record { out = h.out; until_same = h.until_same }

step-IsCooling :
    (s : Settings) (until : ℕ) (e : Event) (r : Row)
    → time_of e < until
    → IsCooling until r
    → IsCooling until (step s e r)
unfolding step record_call evaluate_row probe_row
step-IsCooling s until (called t x) r early h = record { out = h.out; until_same = h.until_same }
step-IsCooling s until (evaluated t k) r early h = evaluate-IsCooling s k t until r h
step-IsCooling s until (probe t x) r early h =
    probe-IsCooling s x t until r (rw (h.until_same) (lt→ltb t until early)) h

-- A source that is out of use until an instant stays so through any calls, evaluations and probes
-- before it, whatever they report.
pub run-IsCooling :
    (s : Settings) (until : ℕ) (es : List Event) (r : Row)
    → All (λ e. time_of e < until) es
    → IsCooling until r
    → IsCooling until (run s es r)
unfolding run
run-IsCooling s until [] r early h = h
run-IsCooling s until (e ∷ es) r (now, later) h =
    run-IsCooling s until es (step s e r) later (step-IsCooling s until e r now h)

-- The counts add up, and only a source of grade C has an instant since when.
pub record IsSound (r : Row) : Type 0 where
  pub total : r.calls ≡ r.success + r.fail
  pub in_a_row : r.consecutive ≤ r.fail
  pub dated : is_c r.score ≡ false → r.c_since ≡ none

since_of-dated :
    (score : Option Grade) (now : ℕ) (m : Option ℕ)
    → is_c score ≡ false
    → since_of score now m ≡ none
since_of-dated score now m h = rw h refl

evaluate-IsSound :
    (s : Settings) (k : Option Kind) (t : ℕ) (r : Row)
    → IsSound r
    → IsSound (evaluate_row s k t r).1
unfolding evaluate_row
evaluate-IsSound s k t r h = record {
  total = ground (arith, h.total);
  in_a_row = ground (arith, h.in_a_row);
  dated = λ d. ground (arith, h.dated, d);
}

probe-IsSound :
    (s : Settings) (x : Bool) (t : ℕ) (r : Row) → IsSound r → IsSound (probe_row s x t r).1
unfolding probe_row
probe-IsSound s x t r h =
    elim (Bool-cases (
      is_recovered s x (is_waiting r.cooled_until t)
        (probes_after x (is_waiting r.cooled_until t) r.recover_successes))) [
          | inl e ↦ rw e (record { total = h.total; in_a_row = h.in_a_row; dated = λ d. refl })
          | inr e ↦ rw e (record { total = h.total; in_a_row = h.in_a_row; dated = h.dated })
        ]

step-IsSound : (s : Settings) (e : Event) (r : Row) → IsSound r → IsSound (step s e r)
unfolding step record_call evaluate_row probe_row
step-IsSound s (called t x) r h = record {
  total = ground (arith, h.total);
  in_a_row = ground (arith, h.in_a_row);
  dated = since_of-dated _ t r.c_since;
}
step-IsSound s (evaluated t k) r h = evaluate-IsSound s k t r h
step-IsSound s (probe t x) r h = probe-IsSound s x t r h

-- Over any calls, evaluations and probes: the calls of a row are its successes and failures, those in
-- a row are among the failures, and a row of a grade other than C has no instant since which it is C.
pub run-IsSound : (s : Settings) (es : List Event) (r : Row) → IsSound r → IsSound (run s es r)
unfolding run
run-IsSound s [] r h = h
run-IsSound s (e ∷ es) r h = run-IsSound s es (step s e r) (step-IsSound s e r h)
