-- ===== src/SettleDay/Supplied.antt =====
-- What core/settle_day.py supplies to the engine for each symbol of a day.
use ai_agent_stock_trading_s.Prelude.{
  ℕ, ◌+◌, ◌≤◌, ◌≡◌, refl, sym, ap, ◌∙◌, inl, inr, Bool, true, false, not, ◌&&◌, ◌||◌, Option, none,
  some, List, [], ◌∷◌, ◌==◌, if◌then◌else◌, any, select, subst, eq_true→eq, eq_refl, Bool-cases,
  &&-true, arith,
}
use ai_agent_stock_trading_s.Engine.Tier.{insert_symbol}
use ai_agent_stock_trading_s.Engine.Daily.{Range}
use ai_agent_stock_trading_s.Engine.Prologue.{Feeds, lookup, has, overlaps, overlaps_at}
use ai_agent_stock_trading_s.SettleDay.{
  Level, l0_level, l1_level, l2_level, unknown_level, Input, Pair, Suspension, Supply, no_supply,
  put_series, put_closes, supply_order, supply_orders, supply_held, supply_helds, put_pair,
  sorted_set, build_feeds, feeds_of,
}

-- The tier that an answer is for, 3 where it is refused.
abbrev level_tier : Level → ℕ
level_tier (l0_level []) = 3
level_tier (l0_level (x ∷ xs)) = 0
level_tier (l1_level xs) = 1
level_tier (l2_level x) = 2
level_tier unknown_level = 3

abbrev pub tier_of : Option Input → ℕ
tier_of none = 3
tier_of (some i) = level_tier i.level

abbrev asked : List (ℕ × Suspension) → List ℕ → ℕ → Bool
asked susp ss s = any (λ t. t == s) ss && not (has s susp)

-- A symbol is a key of the series of its own tier and of no other.
record IsSupplied (input : ℕ → Option Input) (susp : List (ℕ × Suspension)) (ss : List ℕ)
    (p : Supply) : Type 0 where
  in_l0 : (s : ℕ) → has s p.series_map ≡ (asked susp ss s && (tier_of (input s) == 0))
  in_l1 : (s : ℕ) → has s p.l1_map ≡ (asked susp ss s && (tier_of (input s) == 1))
  in_l2 : (s : ℕ) → has s p.l2_map ≡ (asked susp ss s && (tier_of (input s) == 2))
  answered : (s : ℕ) → (asked susp ss s && (tier_of (input s) == 3)) ≡ false

asked_skip :
    (susp : List (ℕ × Suspension)) (t : ℕ) (ss : List ℕ) (s : ℕ)
    → has t susp ≡ true
    → asked susp (t ∷ ss) s ≡ asked susp ss s
asked_skip susp t ss s h = elim (Bool-cases (t == s)) [
  | inl e ↦
      let gone : has s susp ≡ true = subst (λ u. has u susp ≡ true) (eq_true→eq t s e) h in
      rw (e, gone) ground arith
  | inr e ↦ rw e refl
]

-- Whether a symbol is a key after one more symbol was put in the map of a tier, or in another one.
abbrev more : Bool → Bool → Bool → Bool
more same here old = if same then here || old else old

more-asked :
    (input : ℕ → Option Input) (susp : List (ℕ × Suspension)) (t : ℕ) (ss : List ℕ) (k : ℕ) (s : ℕ)
    (old : Bool)
    → has t susp ≡ false
    → old ≡ (asked susp ss s && (tier_of (input s) == k))
    → more (t == s) (tier_of (input t) == k) old
      ≡ (asked susp (t ∷ ss) s && (tier_of (input s) == k))
more-asked input susp t ss k s old h e = elim (Bool-cases (t == s)) [
  | inl q ↦
      let same = eq_true→eq t s q in
      let free : has s susp ≡ false = subst (λ u. has u susp ≡ false) same h in
      let tier : tier_of (input t) ≡ tier_of (input s) = ap (λ u. tier_of (input u)) same in
      rw (e, q, free, tier) (absorbs (any (λ u. u == s) ss) (tier_of (input s) == k))
  | inr q ↦ rw q e
]
  where
    absorbs : (a b : Bool) → (b || ((a && true) && b)) ≡ b
    absorbs true true = refl
    absorbs true false = refl
    absorbs false true = refl
    absorbs false false = refl

record HasMore (t : ℕ) (k : ℕ) (q p : Supply) : Type 0 where
  l0_more : (s : ℕ) → has s p.series_map ≡ more (t == s) (k == 0) (has s q.series_map)
  l1_more : (s : ℕ) → has s p.l1_map ≡ more (t == s) (k == 1) (has s q.l1_map)
  l2_more : (s : ℕ) → has s p.l2_map ≡ more (t == s) (k == 2) (has s q.l2_map)
  served : (k == 3) ≡ false

more_same : (b old : Bool) → old ≡ more b false old
more_same true old = refl
more_same false old = refl

with_some : (P : Supply → Type 0) {a b : Supply} → some a ≡ some b → P a → P b
with_some P {a} {b} h x = let e : a ≡ b = cc in subst P e x

put_series-HasMore :
    (t : ℕ) (l : Level) (q p : Supply) → put_series t l q ≡ some p → HasMore t (level_tier l) q p
unfolding put_series
put_series-HasMore t (l0_level []) q p h = cc
put_series-HasMore t (l0_level (x ∷ xs)) q p h = with_some (HasMore t 0 q) h (record {
  l0_more = λ s. refl;
  l1_more = λ s. more_same (t == s) (has s q.l1_map);
  l2_more = λ s. more_same (t == s) (has s q.l2_map);
  served = refl;
})
put_series-HasMore t (l1_level xs) q p h = with_some (HasMore t 1 q) h (record {
  l0_more = λ s. more_same (t == s) (has s q.series_map);
  l1_more = λ s. refl;
  l2_more = λ s. more_same (t == s) (has s q.l2_map);
  served = refl;
})
put_series-HasMore t (l2_level x) q p h = with_some (HasMore t 2 q) h (record {
  l0_more = λ s. more_same (t == s) (has s q.series_map);
  l1_more = λ s. more_same (t == s) (has s q.l1_map);
  l2_more = λ s. refl;
  served = refl;
})
put_series-HasMore t unknown_level q p h = cc

IsSupplied-none :
    (input : ℕ → Option Input) (susp : List (ℕ × Suspension)) → IsSupplied input susp [] no_supply
IsSupplied-none input susp = record {
  in_l0 = λ s. refl;
  in_l1 = λ s. refl;
  in_l2 = λ s. refl;
  answered = λ s. refl;
}

skipped-IsSupplied :
    (input : ℕ → Option Input) (susp : List (ℕ × Suspension)) (t : ℕ) (ss : List ℕ) (p : Supply)
    → has t susp ≡ true
    → IsSupplied input susp ss p
    → IsSupplied input susp (t ∷ ss) p
skipped-IsSupplied input susp t ss p h k = record {
  in_l0 = λ s. rw (asked_skip susp t ss s h) (k.in_l0 s);
  in_l1 = λ s. rw (asked_skip susp t ss s h) (k.in_l1 s);
  in_l2 = λ s. rw (asked_skip susp t ss s h) (k.in_l2 s);
  answered = λ s. rw (asked_skip susp t ss s h) (k.answered s);
}

put-IsSupplied :
    (input : ℕ → Option Input) (susp : List (ℕ × Suspension)) (t : ℕ) (ss : List ℕ) (q p : Supply)
    → has t susp ≡ false
    → HasMore t (tier_of (input t)) q p
    → IsSupplied input susp ss q
    → IsSupplied input susp (t ∷ ss) p
put-IsSupplied input susp t ss q p h m k =
    let grow = more-asked input susp t ss in
    record {
      in_l0 = λ s. m.l0_more s ∙ grow 0 s (has s q.series_map) h (k.in_l0 s);
      in_l1 = λ s. m.l1_more s ∙ grow 1 s (has s q.l1_map) h (k.in_l1 s);
      in_l2 = λ s. m.l2_more s ∙ grow 2 s (has s q.l2_map) h (k.in_l2 s);
      answered = λ s.
          sym (grow 3 s false h (sym (k.answered s)))
          ∙ ap (λ b. more (t == s) b false) m.served
          ∙ sym (more_same (t == s) false);
    }

supply_order-IsSupplied :
    (input : ℕ → Option Input) (susp : List (ℕ × Suspension)) (t : ℕ) (ss : List ℕ) (v : Bool)
    (i : Option Input) (rest : Option Supply) (p : Supply)
    → has t susp ≡ v
    → input t ≡ i
    → ((q : Supply) → rest ≡ some q → IsSupplied input susp ss q)
    → supply_order v i t rest ≡ some p
    → IsSupplied input susp (t ∷ ss) p
unfolding supply_order
supply_order-IsSupplied input susp t ss true i rest p hv hi k h =
    skipped-IsSupplied input susp t ss p hv (k p h)
supply_order-IsSupplied input susp t ss false none rest p hv hi k h = cc
supply_order-IsSupplied input susp t ss false (some i) none p hv hi k h = cc
supply_order-IsSupplied input susp t ss false (some i) (some q) p hv hi k h =
    let m = put_series-HasMore t i.level (put_closes t i q) p h in
    put-IsSupplied input susp t ss q p hv
      (subst (λ o. HasMore t (tier_of o) q p) (sym hi)
        (record {
          l0_more = m.l0_more;
          l1_more = m.l1_more;
          l2_more = m.l2_more;
          served = m.served;
        }))
      (k q refl)

supply_orders-IsSupplied :
    (input : ℕ → Option Input) (susp : List (ℕ × Suspension)) (ss : List ℕ) (p : Supply)
    → supply_orders input susp ss ≡ some p
    → IsSupplied input susp ss p
unfolding supply_orders
supply_orders-IsSupplied input susp [] p h =
    with_some (IsSupplied input susp []) h (IsSupplied-none input susp)
supply_orders-IsSupplied input susp (t ∷ ss) p h =
    supply_order-IsSupplied input susp t ss (has t susp) (input t) (supply_orders input susp ss) p
      refl refl (λ q. supply_orders-IsSupplied input susp ss q) h

same_series :
    (input : ℕ → Option Input) (susp : List (ℕ × Suspension)) (ss : List ℕ) (t c x : ℕ) (q : Supply)
    → IsSupplied input susp ss q
    → IsSupplied input susp ss (put_pair t c x q)
same_series input susp ss t c x q k = record {
  in_l0 = k.in_l0;
  in_l1 = k.in_l1;
  in_l2 = k.in_l2;
  answered = k.answered;
}

-- The symbols that are only held have no series.
supply_held-IsSupplied :
    (input : ℕ → Option Input) (susp : List (ℕ × Suspension)) (ss : List ℕ) (v : Option Suspension)
    (pr : Option Pair) (t : ℕ) (rest : Option Supply) (p : Supply)
    → ((q : Supply) → rest ≡ some q → IsSupplied input susp ss q)
    → supply_held v pr t rest ≡ some p
    → IsSupplied input susp ss p
unfolding supply_held
supply_held-IsSupplied input susp ss v pr t none p k h = cc
supply_held-IsSupplied input susp ss (some v) pr t (some q) p k h =
    with_some (IsSupplied input susp ss) h (same_series input susp ss t _ _ q (k q refl))
supply_held-IsSupplied input susp ss none none t (some q) p k h = cc
supply_held-IsSupplied input susp ss none (some pr) t (some q) p k h =
    with_some (IsSupplied input susp ss) h (same_series input susp ss t _ _ q (k q refl))

supply_helds-IsSupplied :
    (input : ℕ → Option Input) (susp : List (ℕ × Suspension)) (ss : List ℕ) (pair : ℕ → Option Pair)
    (hs : List ℕ) (start : Option Supply) (p : Supply)
    → ((q : Supply) → start ≡ some q → IsSupplied input susp ss q)
    → supply_helds pair susp hs start ≡ some p
    → IsSupplied input susp ss p
unfolding supply_helds
supply_helds-IsSupplied input susp ss pair [] start p k h = k p h
supply_helds-IsSupplied input susp ss pair (t ∷ hs) start p k h =
    supply_held-IsSupplied input susp ss (lookup t susp) (pair t) t
      (supply_helds pair susp hs start) p
      (λ q. supply_helds-IsSupplied input susp ss pair hs start q k) h

any-insert_symbol :
    (s t : ℕ) (ss : List ℕ) → any (λ u. u == s) (insert_symbol t ss) ≡ any (λ u. u == s) (t ∷ ss)
unfolding insert_symbol
any-insert_symbol s t [] = refl
any-insert_symbol s t (u ∷ us) = ground (arith, any-insert_symbol s t us)

any-sorted_set : (s : ℕ) (ss : List ℕ) → any (λ u. u == s) (sorted_set ss) ≡ any (λ u. u == s) ss
unfolding sorted_set
any-sorted_set s [] = refl
any-sorted_set s (t ∷ ss) =
    any-insert_symbol s t (sorted_set ss)
    ∙ ap (λ b. if t == s then true else b) (any-sorted_set s ss)

no_overlap :
    (f : Feeds) (xs : List (ℕ × Range))
    → ((s : ℕ) → has s xs ≡ true → (has s f.l0 || has s f.l1) ≡ false)
    → overlaps_at f xs ≡ false
no_overlap f [] k = refl
no_overlap f ((t, x) ∷ xs) k =
    rw (k t (rw (eq_refl t) refl)) (no_overlap f xs (λ s h. k s (rw h (more_or (t == s)))))
  where
    more_or : (b : Bool) → (if b then true else true) ≡ true
    more_or true = refl
    more_or false = refl

abbrev digit : Bool → ℕ
digit b = if b then 1 else 0

-- In how many of the three maps a symbol is a key.
abbrev pub series_count : ℕ → Feeds → ℕ
series_count s f = digit (has s f.l0) + digit (has s f.l1) + digit (has s f.l2)

one_tier :
    (a : Bool) (k : ℕ)
    → (a && (k == 3)) ≡ false
    → k ≤ 3
    → digit (a && (k == 0)) + digit (a && (k == 1)) + digit (a && (k == 2)) ≡ digit a
one_tier a k h le = ground arith

tier_le : (i : Option Input) → tier_of i ≤ 3
tier_le none = omega arith
tier_le (some i) = level_tier_le i.level
  where
    level_tier_le : (l : Level) → level_tier l ≤ 3
    level_tier_le (l0_level []) = omega arith
    level_tier_le (l0_level (x ∷ xs)) = omega arith
    level_tier_le (l1_level xs) = omega arith
    level_tier_le (l2_level x) = omega arith
    level_tier_le unknown_level = omega arith

series_count-supplied :
    (input : ℕ → Option Input) (susp : List (ℕ × Suspension)) (ss : List ℕ) (p : Supply) (s : ℕ)
    → IsSupplied input susp ss p
    → series_count s (feeds_of susp p) ≡ digit (asked susp ss s)
series_count-supplied input susp ss p s k =
    rw (k.in_l0 s, k.in_l1 s, k.in_l2 s)
      (one_tier (asked susp ss s) (tier_of (input s)) (k.answered s) (tier_le (input s)))

other_tiers :
    (input : ℕ → Option Input) (susp : List (ℕ × Suspension)) (ss : List ℕ) (p : Supply) (s : ℕ)
    → IsSupplied input susp ss p
    → has s p.l2_map ≡ true
    → (has s p.series_map || has s p.l1_map) ≡ false
other_tiers input susp ss p s k e =
    let (_, second) = &&-true (asked susp ss s) (tier_of (input s) == 2) (sym (k.in_l2 s) ∙ e) in
    rw (k.in_l0 s, k.in_l1 s) (third (asked susp ss s) (tier_of (input s)) (eq_true→eq _ 2 second))
  where
    third : (a : Bool) (n : ℕ) → n ≡ 2 → ((a && (n == 0)) || (a && (n == 1))) ≡ false
    third a n h = ground arith

-- Where the data service refuses nothing that is asked for, each symbol has one series in the
-- three maps if it has an order and is not suspended, and none otherwise, so that the test of the
-- engine for a symbol of the L2 map with another series never fails.
pub build_feeds-series_count :
    (input : ℕ → Option Input) (pair : ℕ → Option Pair) (susp : List (ℕ × Suspension))
    (ordered held : List ℕ) (p : Supply)
    → build_feeds input pair susp ordered held ≡ some p
    → ((s : ℕ)
        → series_count s (feeds_of susp p)
          ≡ (if any (λ t. t == s) ordered && not (has s susp) then 1 else 0))
      × (overlaps (feeds_of susp p) ≡ false)
unfolding build_feeds overlaps
build_feeds-series_count input pair susp ordered held p h =
    let k =
      supply_helds-IsSupplied input susp (sorted_set ordered) pair
        (sorted_set (select (λ x. not (any (λ s. s == x) ordered)) held))
        (supply_orders input susp (sorted_set ordered)) p
        (λ q. supply_orders-IsSupplied input susp (sorted_set ordered) q) h in
    (
      λ s.
          series_count-supplied input susp (sorted_set ordered) p s k
          ∙ ap (λ b. digit (b && not (has s susp))) (any-sorted_set s ordered),
      no_overlap (feeds_of susp p) p.l2_map
          (λ s e. other_tiers input susp (sorted_set ordered) p s k e),
    )
