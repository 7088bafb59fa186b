-- ===== src/Sources/Routing.antt =====
-- The router of core/source_chain.py against the history of its reports.
use ai_agent_stock_trading_s.Prelude.{
  ℕ, suc, ◌≡◌, refl, sym, ◌∙◌, ap, subst, Bool, true, false, not, ◌||◌, Option, none, some, List,
  [], ◌∷◌, leb, if◌then◌else◌, find, select, arith, Bool-cases, inl, inr,
}
use ai_agent_stock_trading_s.Sources.{
  Source, ftai, akshare, eastmoney, sina, tencent, same_source, Router, router, pick, is_day,
  note_day, record_ok, add_to, record_failure, Report, new_day, worked, failed, report, report_all,
  has_role, Role,
}

-- What a router promises, for one source, from the reports of its life alone: the failures in a row
-- of the day, and whether they ever reached the limit on it.
pub record Record : Type 0 where
  pub day : Option ℕ
  pub streak : ℕ
  pub left : Bool

abbrev pub fresh : Record
fresh = record { day = none; streak = 0; left = false }

unfoldable pub learn : ℕ → Source → Report → Record → Record
learn limit s (new_day none) m = m
learn limit s (new_day (some d)) m =
    if is_day m.day d then m else record { day = some d; streak = 0; left = false }
learn limit s (worked t) m = if same_source t s then record m { streak = 0 } else m
learn limit s (failed t) m =
    if same_source t s
    then record m { streak = suc m.streak; left = leb limit (suc m.streak) || m.left }
    else m

unfoldable pub learn_all : ℕ → Source → List Report → Record → Record
unfolding learn
learn_all limit s [] m = m
learn_all limit s (e ∷ es) m = learn_all limit s es (learn limit s e m)

-- The router's state at one source is its record.
pub record Shows (s : Source) (r : Router) (m : Record) : Type 0 where
  pub day_same : r.day ≡ m.day
  pub fails_same : r.fails s ≡ m.streak
  pub left_same : r.quarantined s ≡ m.left

same_source-eq : (s t : Source) → same_source s t ≡ true → s ≡ t
same_source-eq ftai ftai h = refl
same_source-eq akshare akshare h = refl
same_source-eq eastmoney eastmoney h = refl
same_source-eq sina sina h = refl
same_source-eq tencent tencent h = refl
same_source-eq s t h = ground arith

module _ (s : Source) where
  add_to_self :
      (t : Source) (now : Bool) (f : Source → Bool)
      → same_source t s ≡ true
      → add_to t now f s ≡ (now || f s)
  add_to_self t true f e = rw e
  add_to_self t false f e = rw e

  by_limit :
      (limit a b : ℕ) (x y : Bool)
      → a ≡ b
      → x ≡ y
      → (leb limit (suc a) || x) ≡ (leb limit (suc b) || y)
  by_limit limit a b x y e f = rw (e, f) refl

  note_day-Shows :
      (d : ℕ) (limit : ℕ) (r : Router) (m : Record)
      → Shows s r m
      → Shows s (note_day (some d) r) (learn limit s (new_day (some d)) m)
  unfolding note_day learn
  note_day-Shows d limit r m h = elim (Bool-cases (is_day r.day d)) [
    | inl e ↦
        let f : is_day m.day d ≡ true = ap (λ x. is_day x d) (sym h.day_same) ∙ e in rw (e, f) h
    | inr e ↦
        let f : is_day m.day d ≡ false = ap (λ x. is_day x d) (sym h.day_same) ∙ e in
        rw (e, f) (record { day_same = refl; fails_same = refl; left_same = refl })
  ]

  report-Shows :
      (e : Report) (r : Router) (m : Record)
      → Shows s r m
      → Shows s (report e r) (learn r.fail_to_quarantine s e m)
  unfolding report learn record_ok record_failure note_day
  report-Shows (new_day none) r m h = h
  report-Shows (new_day (some d)) r m h = note_day-Shows d r.fail_to_quarantine r m h
  report-Shows (worked t) r m h = elim (Bool-cases (same_source t s)) [
    | inl e ↦
        rw e (record { day_same = h.day_same; fails_same = rw e refl; left_same = h.left_same })
    | inr e ↦
        rw e (record {
          day_same = h.day_same;
          fails_same = rw e h.fails_same;
          left_same = h.left_same;
        })
  ]
  report-Shows (failed t) r m h = elim (Bool-cases (same_source t s)) [
    | inl e ↦
        let same : t ≡ s = same_source-eq t s e in
        rw e (record {
          day_same = h.day_same;
          fails_same = rw e (rw same (ap suc h.fails_same));
          left_same =
              add_to_self t (leb r.fail_to_quarantine (suc (r.fails t))) r.quarantined e
              ∙ by_limit r.fail_to_quarantine (r.fails t) m.streak (r.quarantined s) m.left
                  (rw same h.fails_same) h.left_same;
        })
    | inr e ↦ rw e (record {
      day_same = h.day_same;
      fails_same = rw e h.fails_same;
      left_same = rw e h.left_same;
    })
  ]

  limit_same : (e : Report) (r : Router) → (report e r).fail_to_quarantine ≡ r.fail_to_quarantine
  unfolding report note_day record_ok record_failure
  limit_same (new_day none) r = refl
  limit_same (new_day (some d)) r = elim (Bool-cases (is_day r.day d)) [
    | inl e ↦ rw e
    | inr e ↦ rw e
  ]
  limit_same (worked t) r = refl
  limit_same (failed t) r = refl

  report_all-Shows :
      (es : List Report) (r : Router) (m : Record)
      → Shows s r m
      → Shows s (report_all es r) (learn_all r.fail_to_quarantine s es m)
  unfolding report_all learn_all
  report_all-Shows [] r m h = h
  report_all-Shows (e ∷ es) r m h =
      subst
        (λ n.
          Shows s (report_all es (report e r))
            (learn_all n s es (learn r.fail_to_quarantine s e m)))
        (limit_same e r)
        (report_all-Shows es (report e r) (learn r.fail_to_quarantine s e m) (report-Shows e r m h))

configured_same : (e : Report) (r : Router) → (report e r).configured ≡ r.configured
unfolding report note_day record_ok record_failure
configured_same (new_day none) r = refl
configured_same (new_day (some d)) r = elim (Bool-cases (is_day r.day d)) [
  | inl e ↦ rw e
  | inr e ↦ rw e
]
configured_same (worked t) r = refl
configured_same (failed t) r = refl

configured_all : (es : List Report) (r : Router) → (report_all es r).configured ≡ r.configured
unfolding report_all
configured_all [] r = refl
configured_all (e ∷ es) r = configured_all es (report e r) ∙ configured_same e r

find-same :
    (p q : Source → Bool) (xs : List Source) → ((x : Source) → p x ≡ q x) → find p xs ≡ find q xs
find-same p q [] h = refl
find-same p q (x ∷ xs) h = rw (h x, find-same p q xs h) refl

-- After any reports the router picks the first of its sources that has not reached the limit of
-- failures in a row on the day of the last report, as the reports alone tell it.
pub pick-report_all :
    (configured : List Source) (role : Role) (limit : ℕ) (es : List Report)
    → pick (report_all es (router configured role limit))
      ≡ find (λ s. not (learn_all limit s es fresh).left) (select (has_role role) configured)
unfolding pick router
pick-report_all configured role limit es =
    let r = router configured role limit in
    ap (find (λ s. not ((report_all es r).quarantined s))) (configured_all es r)
    ∙ find-same _ _ (select (has_role role) configured) (λ s.
      ap not
        (report_all-Shows s es r fresh
          (record { day_same = refl; fails_same = refl; left_same = refl })).left_same)
