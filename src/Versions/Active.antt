-- ===== src/Versions/Active.antt =====
-- How many versions of an agent are active, core/strategy_versions.py.
use ai_agent_stock_trading_s.Prelude.{
  ℕ, suc, ◌≤◌, ◌≡◌, refl, ap, ◌∙◌, Bool, true, false, some, List, [], ◌∷◌, ◌++◌, ltb, ◌==◌,
  if◌then◌else◌, length, find, count_where, update_where, arith, Bool-cases, inl, inr, ◌⊎◌,
  count_where-append, length-append,
}
use ai_agent_stock_trading_s.Versions.Rows.{
  In, is_candidate, count_where-update_row, find-In, target_of-In, In-same, In-update,
}
use ai_agent_stock_trading_s.Versions.{
  Version, is_version, is_active_of, has_version, draft_of, is_other_active, promote, retire,
  activated, target_of, has_id, fail_with, swapped,
}

-- Numbers are distinct for an agent, ids are distinct, and an agent has one active version at most.
pub record IsValid (vs : List Version) : Type 0 where
  pub numbers : (a n : ℕ) → count_where (is_version a n) vs ≤ 1
  pub ids : (i : ℕ) → count_where (has_id i) vs ≤ (if ltb i (length vs) then 1 else 0)
  pub one_active : (a : ℕ) → count_where (is_active_of a) vs ≤ 1

-- With an active version there is one after the change too.
pub record IsKept (vs ws : List Version) : Type 0 where
  pub valid : IsValid ws
  pub stays_active :
      (a : ℕ) → count_where (is_active_of a) vs ≡ 1 → count_where (is_active_of a) ws ≡ 1

find-none :
    (p : Version → Bool) (vs : List Version)
    → has_version (find p vs) ≡ false
    → count_where p vs ≡ 0
find-none p [] h = refl
find-none p (v ∷ vs) h = elim (Bool-cases (p v)) [
  | inl e ↦ let no : true ≡ false = rw e at h in cc
  | inr e ↦ rw e (find-none p vs (rw e at h))
]

pub checkpoint-IsKept :
    (a n now : ℕ) (vs : List Version)
    → has_version (find (is_version a n) vs) ≡ false
    → IsValid vs
    → IsKept vs (vs ++ draft_of a n now vs ∷ [])
checkpoint-IsKept a n now vs h k = record {
  valid = record {
    numbers = λ b m. ground (
      arith,
      k.numbers b m,
      find-none (is_version a n) vs h,
      count_where-append (is_version b m) vs (draft_of a n now vs ∷ []),
    );
    ids = λ i. ground (
      arith,
      k.ids i,
      length-append vs (draft_of a n now vs ∷ []),
      count_where-append (has_id i) vs (draft_of a n now vs ∷ []),
    );
    one_active = λ b.
        ground (
          arith,
          k.one_active b,
          count_where-append (is_active_of b) vs (draft_of a n now vs ∷ []),
        );
  };
  stays_active = λ b one.
      ground (arith, one, count_where-append (is_active_of b) vs (draft_of a n now vs ∷ []));
}

count_where-update :
    (q p : Version → Bool) (f : Version → Version) (vs : List Version)
    → ((v : Version) → q (f v) ≡ q v)
    → count_where q (update_where p f vs) ≡ count_where q vs
count_where-update q p f [] h = refl
count_where-update q p f (v ∷ vs) h = elim (Bool-cases (p v)) [
  | inl e ↦ rw (e, h v, count_where-update q p f vs h) refl
  | inr e ↦ rw (e, count_where-update q p f vs h) refl
]

length-update :
    (p : Version → Bool) (f : Version → Version) (vs : List Version)
    → length (update_where p f vs) ≡ length vs
length-update p f [] = refl
length-update p f (v ∷ vs) = omega (arith, length-update p f vs)

-- After an activation exactly the rows of the number are active.
is_active_of-activated :
    (a n now b : ℕ) (v : Version)
    → is_active_of b (
        if is_version a n (if is_other_active a n v then retire v else v)
        then promote now (if is_other_active a n v then retire v else v)
        else (if is_other_active a n v then retire v else v))
      ≡ (if b == a then is_version a n v else is_active_of b v)
is_active_of-activated a n now b v = elim (Bool-cases (is_other_active a n v)) [
  | inl e ↦ rw e (ground (arith, e))
  | inr e ↦ rw e (ground (arith, e))
]

count_where-activated :
    (a n now b : ℕ) (vs : List Version)
    → count_where (is_active_of b) (activated a n now vs)
      ≡ (if b == a then count_where (is_version a n) vs else count_where (is_active_of b) vs)
count_where-activated a n now b [] = ground arith
count_where-activated a n now b (v ∷ vs) =
    rw (is_active_of-activated a n now b v, count_where-activated a n now b vs) (by_agent (b == a))
  where
    by_agent :
        (x : Bool)
        → (if (if x then is_version a n v else is_active_of b v)
            then suc
                (if x then count_where (is_version a n) vs else count_where (is_active_of b) vs)
            else (if x then count_where (is_version a n) vs else count_where (is_active_of b) vs))
          ≡ (if x
              then (if is_version a n v
                  then suc (count_where (is_version a n) vs)
                  else count_where (is_version a n) vs)
              else (if is_active_of b v
                  then suc (count_where (is_active_of b) vs)
                  else count_where (is_active_of b) vs))
    by_agent true = refl
    by_agent false = refl

find-some :
    (p : Version → Bool) (vs : List Version) (v : Version)
    → find p vs ≡ some v
    → 1 ≤ count_where p vs
find-some p [] v h = cc
find-some p (x ∷ xs) v h = elim (Bool-cases (p x)) [
  | inl e ↦ rw e (omega arith)
  | inr e ↦ rw e (find-some p xs v (rw e at h))
]

pub activated-IsKept :
    (a n now : ℕ) (vs : List Version) (v : Version)
    → find (is_version a n) vs ≡ some v
    → IsValid vs
    → IsKept vs (activated a n now vs)
activated-IsKept a n now vs v h k = record {
  valid = record {
    numbers = λ b m.
        rw
          (
            count_where-update (is_version b m) (is_version a n) (promote now)
                (update_where (is_other_active a n) retire vs) (λ x. refl),
            count_where-update (is_version b m) (is_other_active a n) retire vs (λ x. refl),
          )
          (k.numbers b m);
    ids = λ i.
        rw
          (
            count_where-update (has_id i) (is_version a n) (promote now)
                (update_where (is_other_active a n) retire vs) (λ x. refl),
            count_where-update (has_id i) (is_other_active a n) retire vs (λ x. refl),
            length-update (is_version a n) (promote now)
                (update_where (is_other_active a n) retire vs),
            length-update (is_other_active a n) retire vs,
          )
          (k.ids i);
    one_active =
        λ b. ground (arith, count_where-activated a n now b vs, k.numbers a n, k.one_active b);
  };
  stays_active = λ b one. ground (
    arith,
    one,
    count_where-activated a n now b vs,
    k.numbers a n,
    find-some (is_version a n) vs v h,
  );
}

-- A rollback moves the activity of the agent from one row to the other.
count_where-swapped :
    (a reason now b : ℕ) (v w : Version) (vs : List Version)
    → In v vs
    → In w vs
    → is_active_of a v ≡ true
    → is_candidate a v.version_no w ≡ true
    → IsValid vs
    → count_where (is_active_of b) (swapped reason now v w vs) ≡ count_where (is_active_of b) vs
count_where-swapped a reason now b v w vs hv hw ev ew k = ground (
  arith,
  ev,
  ew,
  count_where-update_row (is_active_of b) (fail_with reason w.version_no) vs v hv (ids_of v.id),
  count_where-update_row (is_active_of b) (promote now) failed w
      (In-update v.id (fail_with reason w.version_no) w vs hw other) one_later,
)
  where
    failed : List Version
    failed = update_where (has_id v.id) (fail_with reason w.version_no) vs

    ids_of : (i : ℕ) → count_where (has_id i) vs ≤ 1
    ids_of i = ground (arith, k.ids i)

    other : has_id v.id w ≡ false
    other = by_id (Bool-cases (has_id v.id w))
      where
        by_id : ((has_id v.id w ≡ true) ⊎ (has_id v.id w ≡ false)) → has_id v.id w ≡ false
        by_id (inr e) = e
        by_id (inl e) =
            let same : v ≡ w = In-same v w vs hv hw (ids_of v.id) e in
            ground (arith, ew, ap (λ x. x.version_no) same)

    one_later : count_where (has_id w.id) failed ≤ 1
    one_later =
        rw
          (count_where-update (has_id w.id) (has_id v.id) (fail_with reason w.version_no) vs
            (λ x. refl))
          (ids_of w.id)

pub swapped-IsKept :
    (a reason now : ℕ) (v w : Version) (vs : List Version)
    → find (is_active_of a) vs ≡ some v
    → target_of a v.version_no vs ≡ some w
    → IsValid vs
    → IsKept vs (swapped reason now v w vs)
swapped-IsKept a reason now v w vs f t k =
    let (hv, ev) = find-In (is_active_of a) vs v f in
    let (hw, ew) = target_of-In a v.version_no vs w t in
    record {
      valid = record {
        numbers = λ b m.
            rw
              (
                count_where-update (is_version b m) (has_id w.id) (promote now)
                    (update_where (has_id v.id) (fail_with reason w.version_no) vs) (λ x. refl),
                count_where-update (is_version b m) (has_id v.id) (fail_with reason w.version_no) vs
                    (λ x. refl),
              )
              (k.numbers b m);
        ids = λ i.
            rw
              (
                count_where-update (has_id i) (has_id w.id) (promote now)
                    (update_where (has_id v.id) (fail_with reason w.version_no) vs) (λ x. refl),
                count_where-update (has_id i) (has_id v.id) (fail_with reason w.version_no) vs
                    (λ x. refl),
                length-update (has_id w.id) (promote now)
                    (update_where (has_id v.id) (fail_with reason w.version_no) vs),
                length-update (has_id v.id) (fail_with reason w.version_no) vs,
              )
              (k.ids i);
        one_active =
            λ b. rw (count_where-swapped a reason now b v w vs hv hw ev ew k) (k.one_active b);
      };
      stays_active = λ b one. count_where-swapped a reason now b v w vs hv hw ev ew k ∙ one;
    }
