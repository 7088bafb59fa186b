-- ===== src/Versions/Rows.antt =====
-- Rows of strategy_versions that a statement picks by id, core/strategy_versions.py.
use ai_agent_stock_trading_s.Prelude.{
  ℕ, suc, ◌+◌, ◌≤◌, ◌≡◌, refl, sym, ap, subst, ◌∙◌, Bool, true, false, not, ◌&&◌, Option, none,
  some, List, [], ◌∷◌, ◌==◌, if◌then◌else◌, find, count_where, update_where, arith, Bool-cases, inl,
  inr, ◌⊎◌, eq_refl,
}
use ai_agent_stock_trading_s.Versions.{Version, is_validated_status, is_later, target_of, has_id}

-- A row of the table.
abbrev pub In : Version → List Version → Type 0
In v [] = ⊥
In v (x ∷ xs) = (x ≡ v) ⊎ In v xs

abbrev pub one_if : Bool → ℕ
one_if x = if x then 1 else 0

pub In-count :
    (p : Version → Bool) (vs : List Version) (v : Version)
    → In v vs
    → p v ≡ true
    → 1 ≤ count_where p vs
In-count p [] v h e = elim h [ ]
In-count p (x ∷ xs) v (inl same) e = rw same (rw e (omega arith))
In-count p (x ∷ xs) v (inr h) e = ground (arith, In-count p xs v h e)

-- Without a row of the id nothing is updated.
pub update-none :
    (i : ℕ) (f : Version → Version) (vs : List Version)
    → count_where (has_id i) vs ≡ 0
    → update_where (has_id i) f vs ≡ vs
update-none i f [] h = refl
update-none i f (x ∷ xs) h = elim (Bool-cases (has_id i x)) [
  | inl e ↦ elim (none_there (rw e at h)) [ ]
  | inr e ↦ rw e (ap (λ ys. x ∷ ys) (update-none i f xs (rw e at h)))
]
  where
    none_there : suc (count_where (has_id i) xs) ≡ 0 → ⊥
    none_there n = omega (arith, n)

-- The update of one row by its id changes a count by that row alone.
pub count_where-update_row :
    (q : Version → Bool) (f : Version → Version) (vs : List Version) (v : Version)
    → In v vs
    → count_where (has_id v.id) vs ≤ 1
    → count_where q (update_where (has_id v.id) f vs) + one_if (q v)
      ≡ count_where q vs + one_if (q (f v))
count_where-update_row q f [] v h one = elim h [ ]
count_where-update_row q f (x ∷ xs) v (inl same) one = rw same (
    rw (eq_refl v.id, update-none v.id f xs (none_left (rw (same, eq_refl v.id) at one)))
      (by_tests (q v) (q (f v))))
  where
    none_left : suc (count_where (has_id v.id) xs) ≤ 1 → count_where (has_id v.id) xs ≡ 0
    none_left n = omega (arith, n)

    by_tests :
        (m n : Bool)
        → (if n then suc (count_where q xs) else count_where q xs) + one_if m
          ≡ (if m then suc (count_where q xs) else count_where q xs) + one_if n
    by_tests m n = ground arith
count_where-update_row q f (x ∷ xs) v (inr h) one =
    rw other (by_test (q x) (count_where-update_row q f xs v h (ground (arith, one, other))))
  where
    other : has_id v.id x ≡ false
    other = ground (arith, one, In-count (has_id v.id) xs v h (eq_refl v.id))

    by_test :
        (m : Bool)
        → count_where q (update_where (has_id v.id) f xs) + one_if (q v)
          ≡ count_where q xs + one_if (q (f v))
        → (if m
              then suc (count_where q (update_where (has_id v.id) f xs))
              else count_where q (update_where (has_id v.id) f xs))
            + one_if (q v)
          ≡ (if m then suc (count_where q xs) else count_where q xs) + one_if (q (f v))
    by_test true ih = omega (arith, ih)
    by_test false ih = ih

pub find-In :
    (p : Version → Bool) (vs : List Version) (v : Version)
    → find p vs ≡ some v
    → In v vs × (p v ≡ true)
find-In p [] v h = cc
find-In p (x ∷ xs) v h = elim (Bool-cases (p x)) [
  | inl e ↦ let same : x ≡ v = cc_some (rw e at h) in (inl same, subst (λ y. p y ≡ true) same e)
  | inr e ↦ let (there, holds) = find-In p xs v (rw e at h) in (inr there, holds)
]
  where
    cc_some : some x ≡ some v → x ≡ v
    cc_some s = cc

-- What makes a version a candidate.
abbrev pub is_candidate : ℕ → ℕ → Version → Bool
is_candidate a n v = (v.agent == a) && is_validated_status v.status && not (v.version_no == n)

pub target_of-In :
    (a n : ℕ) (vs : List Version) (w : Version)
    → target_of a n vs ≡ some w
    → In w vs × (is_candidate a n w ≡ true)
unfolding target_of
target_of-In a n [] w h = cc
target_of-In a n (x ∷ xs) w h =
    by_row (target_of a n xs) refl (λ u. target_of-In a n xs u) (Bool-cases (is_candidate a n x))
  where
    by_row :
        (m : Option Version)
        → target_of a n xs ≡ m
        → ((u : Version) → target_of a n xs ≡ some u → In u xs × (is_candidate a n u ≡ true))
        → ((is_candidate a n x ≡ true) ⊎ (is_candidate a n x ≡ false))
        → In w (x ∷ xs) × (is_candidate a n w ≡ true)
    by_row none t ih (inl c) =
        let same : x ≡ w = ground (arith, rw (c, t) at h) in
        (inl same, subst (λ y. is_candidate a n y ≡ true) same c)
    by_row none t ih (inr c) = let no : none ≡ some w = rw (c, t) at h in cc
    by_row (some u) t ih (inl c) = elim (Bool-cases (is_later x u)) [
      | inl late ↦
          let same : x ≡ w = ground (arith, rw (c, t, late) at h) in
          (inl same, subst (λ y. is_candidate a n y ≡ true) same c)
      | inr early ↦
          let same : u ≡ w = ground (arith, rw (c, t, early) at h) in
          let (there, holds) = ih u t in
          subst (λ y. In y (x ∷ xs) × (is_candidate a n y ≡ true)) same (inr there, holds)
    ]
    by_row (some u) t ih (inr c) =
        let same : u ≡ w = ground (arith, rw (c, t) at h) in
        let (there, holds) = ih u t in
        subst (λ y. In y (x ∷ xs) × (is_candidate a n y ≡ true)) same (inr there, holds)

-- Two rows of one id are one.
pub In-same :
    (v w : Version) (vs : List Version)
    → In v vs
    → In w vs
    → count_where (has_id v.id) vs ≤ 1
    → has_id v.id w ≡ true
    → v ≡ w
In-same v w [] hv hw one e = elim hv [ ]
In-same v w (x ∷ xs) (inl a) (inl b) one e = sym a ∙ b
In-same v w (x ∷ xs) (inl a) (inr b) one e =
    elim (twice (In-count (has_id v.id) xs w b e) (rw (a, eq_refl v.id) at one)) [ ]
  where
    twice : 1 ≤ count_where (has_id v.id) xs → suc (count_where (has_id v.id) xs) ≤ 1 → ⊥
    twice m n = omega (arith, m, n)
In-same v w (x ∷ xs) (inr a) (inl b) one e =
    elim (twice (In-count (has_id v.id) xs v a (eq_refl v.id)) (rw (b, e) at one)) [ ]
  where
    twice : 1 ≤ count_where (has_id v.id) xs → suc (count_where (has_id v.id) xs) ≤ 1 → ⊥
    twice m n = omega (arith, m, n)
In-same v w (x ∷ xs) (inr a) (inr b) one e = In-same v w xs a b (ground (arith, one)) e

pub In-update :
    (i : ℕ) (f : Version → Version) (w : Version) (vs : List Version)
    → In w vs
    → has_id i w ≡ false
    → In w (update_where (has_id i) f vs)
In-update i f w [] h e = elim h [ ]
In-update i f w (x ∷ xs) (inl same) e = inl (rw same (rw e refl))
In-update i f w (x ∷ xs) (inr h) e = inr (In-update i f w xs h e)
