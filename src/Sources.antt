-- ===== src/Sources.antt =====
-- Sources of market data: the registered sources and the router that leaves a failing one for the day,
-- core/source_chain.py.
pub mod Routing
pub mod Health
use ai_agent_stock_trading_s.Prelude.{
  ℕ, suc, ◌+◌, Bool, true, false, not, ◌&&◌, ◌||◌, Option, none, some, List, [], ◌∷◌, ltb, leb,
  ◌==◌, if◌then◌else◌, any, find, select,
}

-- `PRIORITY`, in its order.
pub data Source : Type 0 where
  ftai akshare eastmoney sina tencent : Source

abbrev pub rank : Source → ℕ
rank ftai = 0
rank akshare = 1
rank eastmoney = 2
rank sina = 3
rank tencent = 4

abbrev pub same_source : Source → Source → Bool
same_source a b = rank a == rank b

-- A name in the configuration: a registered source, or none.
pub data Name : Type 0 where
  known : Source → Name
  unregistered : Name

abbrev pub names_of : List Name → Option (List Source)
names_of [] = some []
names_of (unregistered ∷ ns) = none
names_of (known s ∷ ns) = with_source s (names_of ns)
  where
    with_source : Source → Option (List Source) → Option (List Source)
    with_source s none = none
    with_source s (some ss) = some (s ∷ ss)

-- `sorted(set(names), key=…)`
unfoldable pub insert_source : Source → List Source → List Source
insert_source s [] = s ∷ []
insert_source s (t ∷ ts) =
    if same_source s t
    then t ∷ ts
    else if ltb (rank s) (rank t)
    then s ∷ t ∷ ts
    else t ∷ insert_source s ts

unfoldable pub sort_sources : List Source → List Source
unfolding insert_source
sort_sources [] = []
sort_sources (s ∷ ss) = insert_source s (sort_sources ss)

-- `configured_sources`: an unregistered name is an error.
abbrev sorted_names : Option (List Source) → Option (List Source)
sorted_names none = none
sorted_names (some ss) = some (sort_sources ss)

unfoldable pub configured_sources : List Name → Option (List Source)
unfolding sort_sources
configured_sources ns = sorted_names (names_of ns)

pub data Role : Type 0 where
  l0 l1 l2 : Role

-- `ROLES`: every registered source has every role.
abbrev pub has_role : Role → Source → Bool
has_role role s = true

-- `resolve`
unfoldable pub resolve : Role → List Source → List Source → Option Source
resolve role exclude configured =
    find (λ s. not (any (same_source s) exclude) && has_role role s) configured

-- A `SourceRouter`; a source that has no entry in `_fails` counts 0.
pub record Router : Type 0 where
  pub configured : List Source
  pub fail_to_quarantine : ℕ
  pub fails : Source → ℕ
  pub quarantined : Source → Bool
  pub day : Option ℕ

unfoldable pub router : List Source → Role → ℕ → Router
router configured role limit = record {
  configured = select (has_role role) configured;
  fail_to_quarantine = limit;
  fails = λ s. 0;
  quarantined = λ s. false;
  day = none;
}

unfoldable pub pick : Router → Option Source
pick r = find (λ s. not (r.quarantined s)) r.configured

abbrev pub is_day : Option ℕ → ℕ → Bool
is_day none d = false
is_day (some e) d = e == d

unfoldable pub note_day : Option ℕ → Router → Router
note_day none r = r
note_day (some d) r =
    if is_day r.day d
    then r
    else record r { day = some d; quarantined = λ s. false; fails = λ s. 0 }

abbrev pub set_fails : Source → ℕ → (Source → ℕ) → Source → ℕ
set_fails s n f t = if same_source s t then n else f t

unfoldable pub record_ok : Source → Router → Router
record_ok s r = record r { fails = set_fails s 0 r.fails }

abbrev pub add_to : Source → Bool → (Source → Bool) → Source → Bool
add_to s now f t = if same_source s t && now then true else f t

-- `record_failure`: the new state; the caller's next source is `pick` of it.
unfoldable pub record_failure : Source → Router → Router
record_failure s r =
    let n = suc (r.fails s) in
    record r {
      fails = set_fails s n r.fails;
      quarantined = add_to s (leb r.fail_to_quarantine n) r.quarantined;
    }

pub data Report : Type 0 where
  new_day : Option ℕ → Report
  worked failed : Source → Report

unfoldable pub report : Report → Router → Router
unfolding note_day record_ok record_failure
report (new_day d) r = note_day d r
report (worked s) r = record_ok s r
report (failed s) r = record_failure s r

unfoldable pub report_all : List Report → Router → Router
unfolding report
report_all [] r = r
report_all (e ∷ es) r = report_all es (report e r)
