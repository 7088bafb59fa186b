-- ===== src/Tracking/Rows.antt =====
-- The rows of exit_trackings over the days, core/eodengine.py.
use ai_agent_stock_trading_s.Prelude.{
  ℕ, ◌*◌, ◌≤◌, ◌≡◌, refl, Bool, true, false, ◌&&◌, Option, some, List, [], ◌∷◌, ◌∙◌, subst, ℤ, ltb,
  Bool-cases, inl, inr, ◌⊎◌, arith, &&-true,
}
use ai_agent_stock_trading_s.Engine.Result.{Result, ok, ◌>>=◌, >>=-eq-ok}
use ai_agent_stock_trading_s.Engine.Money.{fen}
use ai_agent_stock_trading_s.Tracking.{
  Tracking, Quote, or_no_quote, has_price, is_new, seen_on, end_price, bench_now, bench_of,
  close_tracking, end_by, end_or_wait, advance, is_tracking, is_tracked, settle_exit, settle_exits,
}

-- What the calls of many days make of a row: the sale is the same, a day is counted at most once, the
-- price of the sale stays within the period's extremes, and a closed row is never touched.
pub record Follows (days : ℕ) (t u : Tracking) : Type 0 where
  pub same_sale :
      (u.symbol ≡ t.symbol) × (u.sell_date ≡ t.sell_date) × (u.sell_price ≡ t.sell_price)
  pub counted : t.sessions_done ≤ u.sessions_done
  pub extremes_kept :
      t.period_low ≤ t.sell_price * fen
      → t.sell_price * fen ≤ t.period_high
      → (u.period_low ≤ u.sell_price * fen) × (u.sell_price * fen ≤ u.period_high)
  pub closed_kept : is_tracking t.status ≡ false → u ≡ t
  pub full_window :
      is_tracking t.status ≡ true → is_tracking u.status ≡ false → days ≤ u.sessions_done

pub Follows-refl : (days : ℕ) (t : Tracking) → Follows days t t
Follows-refl days t = record {
  same_sale = (refl, refl, refl);
  counted = omega arith;
  extremes_kept = λ h k. (h, k);
  closed_kept = λ h. refl;
  full_window = λ h k. cc;
}

Follows-trans :
    (days : ℕ) (t u v : Tracking) → Follows days t u → Follows days u v → Follows days t v
Follows-trans days t u v f g = record {
  same_sale =
      (g.same_sale.0 ∙ f.same_sale.0, g.same_sale.1 ∙ f.same_sale.1, g.same_sale.2 ∙ f.same_sale.2);
  counted = omega (arith, f.counted, g.counted);
  extremes_kept = λ h k. let (a, b) = f.extremes_kept h k in g.extremes_kept a b;
  closed_kept = λ h. let same = f.closed_kept h in g.closed_kept (rw same h) ∙ same;
  full_window = λ h k. by_middle h k (Bool-cases (is_tracking u.status));
}
  where
    by_middle :
        is_tracking t.status ≡ true
        → is_tracking v.status ≡ false
        → ((is_tracking u.status ≡ true) ⊎ (is_tracking u.status ≡ false))
        → days ≤ v.sessions_done
    by_middle h k (inl m) = g.full_window m k
    by_middle h k (inr m) = rw (g.closed_kept m) (f.full_window h m)

seen_on-Follows :
    (date days : ℕ) (q : Quote) (bench : Option ℕ) (t : Tracking)
    → is_tracking t.status ≡ true
    → Follows days t (seen_on date q bench t)
unfolding seen_on
seen_on-Follows date days q bench t s = record {
  same_sale = ground arith;
  counted = ground arith;
  extremes_kept = ground arith;
  closed_kept = ground arith;
  full_window = ground arith;
}

end_by-Follows :
    (date days : ℕ) (bench : Option ℤ) (m : Option (ℕ × Bool)) (t u : Tracking)
    → end_by date bench m t ≡ ok u
    → is_tracking t.status ≡ true
    → days ≤ t.sessions_done
    → Follows days t u
unfolding close_tracking
end_by-Follows date days bench m t u e s n = record {
  same_sale = ground arith;
  counted = ground arith;
  extremes_kept = ground arith;
  closed_kept = ground arith;
  full_window = ground arith;
}

end_or_wait-Follows :
    (date days : ℕ) (bench : Option ℕ) (q : Quote) (t u v : Tracking)
    → end_or_wait date bench q days t u ≡ ok v
    → is_tracking u.status ≡ true
    → Follows days u v
end_or_wait-Follows date days bench q t u v e s = by_window (Bool-cases (ltb u.sessions_done days))
  where
    by_window :
        ((ltb u.sessions_done days ≡ true) ⊎ (ltb u.sessions_done days ≡ false)) → Follows days u v
    by_window (inl short) =
        let same : u ≡ v = ground (arith, rw short at e) in
        subst (λ x. Follows days u x) same (Follows-refl days u)
    by_window (inr over) =
        end_by-Follows date days (bench_of t.bench_sell_close (bench_now bench t.last_bench))
          (end_price q.close t.last_close) u v (rw over at e) s (ground (arith, over))

seen_on-status :
    (date : ℕ) (q : Quote) (bench : Option ℕ) (t : Tracking)
    → (seen_on date q bench t).status ≡ t.status
unfolding seen_on
seen_on-status date q bench t = ground arith

settle_exit-Follows :
    (date days : ℕ) (bench : Option ℕ) (market : ℕ → Option Quote) (t u : Tracking)
    → settle_exit date bench market days t ≡ ok u
    → Follows days t u
unfolding advance
settle_exit-Follows date days bench market t u e =
    by_row (Bool-cases (is_tracked date t)) (
      Bool-cases (has_price (or_no_quote (market t.symbol)).close bench && is_new t.last_seen date))
  where
    by_row :
        ((is_tracked date t ≡ true) ⊎ (is_tracked date t ≡ false))
        → ((has_price (or_no_quote (market t.symbol)).close bench && is_new t.last_seen date ≡ true)
            ⊎ (has_price (or_no_quote (market t.symbol)).close bench && is_new t.last_seen date
                ≡ false))
        → Follows days t u
    by_row (inr not_tracked) x =
        let same : t ≡ u = ground (arith, rw not_tracked at e) in
        subst (λ x. Follows days t x) same (Follows-refl days t)
    by_row (inl tracked) (inr idle) =
        let same : t ≡ u = ground (arith, rw (tracked, idle) at e) in
        subst (λ x. Follows days t x) same (Follows-refl days t)
    by_row (inl tracked) (inl moves) =
        let q = or_no_quote (market t.symbol) in
        let (s, _) = &&-true (is_tracking t.status) (ltb t.sell_date date) tracked in
        Follows-trans days t (seen_on date q bench t) u (seen_on-Follows date days q bench t s) (
          end_or_wait-Follows date days bench q t (seen_on date q bench t) u
            (rw (tracked, moves) at e) (rw (seen_on-status date q bench t) s))

-- Rows against rows.
abbrev pub AllFollow : ℕ → List Tracking → List Tracking → Type 0
AllFollow days [] [] = Unit
AllFollow days (t ∷ ts) (u ∷ us) = Follows days t u × AllFollow days ts us
AllFollow days _ _ = ⊥

AllFollow-refl : (days : ℕ) (ts : List Tracking) → AllFollow days ts ts
AllFollow-refl days [] = tt
AllFollow-refl days (t ∷ ts) = (Follows-refl days t, AllFollow-refl days ts)

AllFollow-trans :
    (days : ℕ) (ts us vs : List Tracking)
    → AllFollow days ts us
    → AllFollow days us vs
    → AllFollow days ts vs
AllFollow-trans days [] [] [] f g = tt
AllFollow-trans days [] [] (v ∷ vs) f g = elim g [ ]
AllFollow-trans days [] (u ∷ us) vs f g = elim f [ ]
AllFollow-trans days (t ∷ ts) [] vs f g = elim f [ ]
AllFollow-trans days (t ∷ ts) (u ∷ us) [] f g = elim g [ ]
AllFollow-trans days (t ∷ ts) (u ∷ us) (v ∷ vs) (f, fs) (g, gs) =
    (Follows-trans days t u v f g, AllFollow-trans days ts us vs fs gs)

settle_exits-AllFollow :
    (date days : ℕ) (bench : Option ℕ) (market : ℕ → Option Quote) (ts us : List Tracking)
    → settle_exits date bench market days ts ≡ ok us
    → AllFollow days ts us
unfolding settle_exits
settle_exits-AllFollow date days bench market [] us e = let same : us ≡ [] = cc in rw same tt
settle_exits-AllFollow date days bench market (t ∷ ts) us e =
    let (u, f, e1) = >>=-eq-ok (settle_exit date bench market days t) _ e in
    let (rest, g, e2) = >>=-eq-ok (settle_exits date bench market days ts) _ e1 in
    let same : us ≡ u ∷ rest = cc in
    rw same (
      settle_exit-Follows date days bench market t u f,
      settle_exits-AllFollow date days bench market ts rest g,
    )

-- A day's call: the day, the benchmark's close and the quotes.
pub record Session : Type 0 where
  pub date : ℕ
  pub bench : Option ℕ
  pub market : ℕ → Option Quote

unfoldable pub run_exits : ℕ → List Session → List Tracking → Result (List Tracking)
run_exits days [] ts = ok ts
run_exits days (c ∷ cs) ts = settle_exits c.date c.bench c.market days ts >>= run_exits days cs

-- Over any calls, of whatever days and in whatever order: the rows stand for the same sales, a
-- price of a sale that lies within the extremes of its row stays within them, the count of days
-- never falls, a row is closed only after a whole window, and a closed row is never touched
-- again.
pub run_exits-AllFollow :
    (days : ℕ) (cs : List Session) (ts us : List Tracking)
    → run_exits days cs ts ≡ ok us
    → AllFollow days ts us
unfolding run_exits
run_exits-AllFollow days [] ts us e =
    let same : ts ≡ us = cc in subst (λ x. AllFollow days ts x) same (AllFollow-refl days ts)
run_exits-AllFollow days (c ∷ cs) ts us e =
    let (vs, f, e1) = >>=-eq-ok (settle_exits c.date c.bench c.market days ts) _ e in
    AllFollow-trans days ts vs us (settle_exits-AllFollow c.date days c.bench c.market ts vs f)
      (run_exits-AllFollow days cs vs us e1)

-- A row that was seen on the day is not seen again.
settle_exit-seen :
    (date days : ℕ) (bench : Option ℕ) (market : ℕ → Option Quote) (u : Tracking)
    → is_new u.last_seen date ≡ false
    → settle_exit date bench market days u ≡ ok u
unfolding advance
settle_exit-seen date days bench market u h = ground (arith, h)

end_by-seen :
    (date : ℕ) (bench : Option ℤ) (m : Option (ℕ × Bool)) (t u : Tracking)
    → end_by date bench m t ≡ ok u
    → u.last_seen ≡ t.last_seen
unfolding close_tracking
end_by-seen date bench m t u e = ground arith

seen_on-seen :
    (date : ℕ) (q : Quote) (bench : Option ℕ) (t : Tracking)
    → (seen_on date q bench t).last_seen ≡ some date
unfolding seen_on
seen_on-seen date q bench t = ground arith

end_or_wait-seen :
    (date days : ℕ) (bench : Option ℕ) (q : Quote) (t u v : Tracking)
    → end_or_wait date bench q days t u ≡ ok v
    → v.last_seen ≡ u.last_seen
end_or_wait-seen date days bench q t u v e = by_window (Bool-cases (ltb u.sessions_done days))
  where
    by_window :
        ((ltb u.sessions_done days ≡ true) ⊎ (ltb u.sessions_done days ≡ false))
        → v.last_seen ≡ u.last_seen
    by_window (inl short) = let same : v ≡ u = ground (arith, rw short at e) in rw same
    by_window (inr over) =
        end_by-seen date (bench_of t.bench_sell_close (bench_now bench t.last_bench))
          (end_price q.close t.last_close) u v (rw over at e)

advance-again :
    (date days : ℕ) (bench : Option ℕ) (q : Quote) (t u : Tracking)
    → advance date bench q days t ≡ ok u
    → (u ≡ t) ⊎ (u.last_seen ≡ some date)
unfolding advance
advance-again date days bench q t u e =
    elim (Bool-cases (has_price q.close bench && is_new t.last_seen date)) [
      | inr idle ↦ inl (ground (arith, rw idle at e))
      | inl moves ↦ inr (
          end_or_wait-seen date days bench q t (seen_on date q bench t) u (rw moves at e)
          ∙ seen_on-seen date q bench t)
    ]

settle_exit-again :
    (date days : ℕ) (bench : Option ℕ) (market : ℕ → Option Quote) (t u : Tracking)
    → settle_exit date bench market days t ≡ ok u
    → settle_exit date bench market days u ≡ ok u
settle_exit-again date days bench market t u e = by_row (Bool-cases (is_tracked date t))
  where
    unmoved : u ≡ t → settle_exit date bench market days u ≡ ok u
    unmoved same = rw same (rw same at e)

    by_row :
        ((is_tracked date t ≡ true) ⊎ (is_tracked date t ≡ false))
        → settle_exit date bench market days u ≡ ok u
    by_row (inr not_tracked) = unmoved (ground (arith, rw not_tracked at e))
    by_row (inl tracked) =
        elim (advance-again date days bench (or_no_quote (market t.symbol)) t u (rw tracked at e)) [
          | inl same ↦ unmoved same
          | inr seen ↦ settle_exit-seen date days bench market u (rw seen (ground arith))
        ]

-- A second call for the same day with the same prices changes nothing.
pub settle_exits_again :
    (date days : ℕ) (bench : Option ℕ) (market : ℕ → Option Quote) (ts us : List Tracking)
    → settle_exits date bench market days ts ≡ ok us
    → settle_exits date bench market days us ≡ ok us
unfolding settle_exits
settle_exits_again date days bench market [] us e = let same : us ≡ [] = cc in rw same refl
settle_exits_again date days bench market (t ∷ ts) us e =
    let (u, f, e1) = >>=-eq-ok (settle_exit date bench market days t) _ e in
    let (rest, g, e2) = >>=-eq-ok (settle_exits date bench market days ts) _ e1 in
    let same : us ≡ u ∷ rest = cc in
    rw same (
      rw
        (
          settle_exit-again date days bench market t u f,
          settle_exits_again date days bench market ts rest g,
        )
        refl)
