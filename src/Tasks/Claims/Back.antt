-- ===== src/Tasks/Claims/Back.antt =====
-- Claimed tasks that are put back (`claim_due`, `requeue` of core/tasks.py).
use ai_agent_stock_trading_s.Prelude.{
  ℕ, ◌≡◌, refl, ◌∙◌, ap, ap₂, Bool, true, false, Option, none, List, [], ◌∷◌, ◌==◌, if◌then◌else◌,
  arith, any, All, Bool-cases, eq_true→eq, eq_refl, subst, inl, inr, ◌⊎◌, update_where,
}
use ai_agent_stock_trading_s.Tasks.{
  Task, Schedule, is_pending, is_running, is_pending_task, is_running_task, start_task, start_each,
  due_ids, claim_due, requeue, wait_again,
}

-- A pending task was never started, or was put back.
abbrev pub IsRested : Task → Type 0
IsRested t = (t.started_ts ≡ none) × (t.heartbeat_ts ≡ none)

abbrev pub AllRested : List Task → Type 0
AllRested [] = Unit
AllRested (t ∷ ts) = (is_pending t ≡ true → IsRested t) × AllRested ts

-- Every task of the list is put back, one after another.
unfoldable pub requeue_each : List ℕ → Schedule → Schedule
requeue_each [] s = s
requeue_each (i ∷ is) s = requeue_each is (requeue i s)

-- What the claim and the calls of requeue do to one row.
abbrev started : ℕ → List ℕ → Task → Task
started now [] t = t
started now (i ∷ is) t = started now is (if is_pending_task i t then start_task now t else t)

abbrev put_back : List ℕ → Task → Task
put_back [] t = t
put_back (i ∷ is) t = put_back is (if is_running_task i t then wait_again t else t)

back_again :
    (now : ℕ) (t : Task) → is_pending t ≡ true → IsRested t → wait_again (start_task now t) ≡ t
back_again now t p h = ground arith

start_each-cons :
    (now : ℕ) (is : List ℕ) (t : Task) (ts : List Task)
    → start_each now is (t ∷ ts) ≡ started now is t ∷ start_each now is ts
unfolding start_each
start_each-cons now [] t ts = refl
start_each-cons now (i ∷ is) t ts =
    start_each-cons now is (if is_pending_task i t then start_task now t else t)
      (update_where (is_pending_task i) (start_task now) ts)

start_each-nil : (now : ℕ) (is : List ℕ) → start_each now is [] ≡ []
unfolding start_each
start_each-nil now [] = refl
start_each-nil now (i ∷ is) = start_each-nil now is

requeue_each-cons :
    (is : List ℕ) (t : Task) (ts : List Task) (s : Schedule)
    → (requeue_each is (record s { tasks = t ∷ ts })).tasks
      ≡ put_back is t ∷ (requeue_each is (record s { tasks = ts })).tasks
unfolding requeue_each requeue
requeue_each-cons [] t ts s = refl
requeue_each-cons (i ∷ is) t ts s =
    requeue_each-cons is (if is_running_task i t then wait_again t else t)
      (update_where (is_running_task i) wait_again ts) s

requeue_each-nil :
    (is : List ℕ) (s : Schedule) → (requeue_each is (record s { tasks = [] })).tasks ≡ []
unfolding requeue_each requeue
requeue_each-nil [] s = refl
requeue_each-nil (i ∷ is) s = requeue_each-nil is s

requeue_each-audits : (is : List ℕ) (s : Schedule) → (requeue_each is s).audits ≡ s.audits
unfolding requeue_each requeue
requeue_each-audits [] s = refl
requeue_each-audits (i ∷ is) s = requeue_each-audits is (requeue i s)

-- A row that no call is about.
not_started : (now : ℕ) (is : List ℕ) (t : Task) → is_pending t ≡ false → started now is t ≡ t
not_started now [] t h = refl
not_started now (i ∷ is) t h =
    let miss : is_pending_task i t ≡ false = ground arith in rw miss (not_started now is t h)

not_put_back : (is : List ℕ) (t : Task) → is_running t ≡ false → put_back is t ≡ t
not_put_back [] t h = refl
not_put_back (i ∷ is) t h =
    let miss : is_running_task i t ≡ false = ground arith in rw miss (not_put_back is t h)

other_started :
    (now : ℕ) (is : List ℕ) (t : Task) → any (λ i. i == t.id) is ≡ false → started now is t ≡ t
other_started now [] t h = refl
other_started now (i ∷ is) t h =
    let miss : is_pending_task i t ≡ false = ground arith in
    rw miss (other_started now is t (ground arith))

other_put_back : (is : List ℕ) (t : Task) → any (λ i. i == t.id) is ≡ false → put_back is t ≡ t
other_put_back [] t h = refl
other_put_back (i ∷ is) t h =
    let miss : is_running_task i t ≡ false = ground arith in
    rw miss (other_put_back is t (ground arith))

-- A row that the claim took.
claimed_started :
    (now : ℕ) (is : List ℕ) (t : Task)
    → is_pending t ≡ true
    → any (λ i. i == t.id) is ≡ true
    → started now is t ≡ start_task now t
claimed_started now [] t p h = ground arith
claimed_started now (i ∷ is) t p h = elim (Bool-cases (i == t.id)) [
  | inl hit ↦
      let here : is_pending_task i t ≡ true = ground arith in
      rw here (not_started now is (start_task now t) refl)
  | inr miss ↦
      let elsewhere : is_pending_task i t ≡ false = ground arith in
      rw elsewhere (claimed_started now is t p (rw miss at h))
]

claimed_put_back :
    (now : ℕ) (is : List ℕ) (t : Task)
    → is_pending t ≡ true
    → IsRested t
    → any (λ i. i == t.id) is ≡ true
    → put_back is (start_task now t) ≡ t
claimed_put_back now [] t p r h = ground arith
claimed_put_back now (i ∷ is) t p r h = elim (Bool-cases (i == t.id)) [
  | inl hit ↦
      let here : is_running_task i (start_task now t) ≡ true = ground arith in
      rw (here, back_again now t p r) (not_put_back is t (ground arith))
  | inr miss ↦
      let elsewhere : is_running_task i (start_task now t) ≡ false = ground arith in
      rw elsewhere (claimed_put_back now is t p r (rw miss at h))
]

-- `is` are the ids that were claimed, `js` those that are put back.
row_back :
    (now : ℕ) (is js : List ℕ) (t : Task)
    → (is_pending t ≡ true → IsRested t)
    → (any (λ i. i == t.id) is ≡ true → any (λ i. i == t.id) js ≡ true)
    → (any (λ i. i == t.id) js ≡ true → is_running t ≡ false)
    → put_back js (started now is t) ≡ t
row_back now is js t r more h =
    by_id (Bool-cases (any (λ i. i == t.id) is)) (Bool-cases (is_pending t))
  where
    not_claimed :
        (any (λ i. i == t.id) js ≡ true) ⊎ (any (λ i. i == t.id) js ≡ false) → put_back js t ≡ t
    not_claimed (inl hit) = not_put_back js t (h hit)
    not_claimed (inr free) = other_put_back js t free

    by_id :
        ((any (λ i. i == t.id) is ≡ true) ⊎ (any (λ i. i == t.id) is ≡ false))
        → ((is_pending t ≡ true) ⊎ (is_pending t ≡ false))
        → put_back js (started now is t) ≡ t
    by_id (inr free) p =
        ap (put_back js) (other_started now is t free)
        ∙ not_claimed (Bool-cases (any (λ i. i == t.id) js))
    by_id (inl hit) (inl p) =
        ap (put_back js) (claimed_started now is t p hit)
        ∙ claimed_put_back now js t p (r p) (more hit)
    by_id (inl hit) (inr n) =
        ap (put_back js) (not_started now is t n) ∙ not_put_back js t (h (more hit))

-- No row that was running before is put back.
abbrev NoneRunning : List ℕ → List Task → Type 0
NoneRunning js [] = Unit
NoneRunning js (t ∷ ts) =
    (any (λ i. i == t.id) js ≡ true → is_running t ≡ false) × NoneRunning js ts

rows_back :
    (now : ℕ) (is js : List ℕ) (ts : List Task) (s : Schedule)
    → AllRested ts
    → ((i : ℕ) → any (λ k. k == i) is ≡ true → any (λ k. k == i) js ≡ true)
    → NoneRunning js ts
    → (requeue_each js (record s { tasks = start_each now is ts })).tasks ≡ ts
rows_back now is js [] s r more n = rw (start_each-nil now is) (requeue_each-nil js s)
rows_back now is js (t ∷ ts) s r more n = rw (start_each-cons now is t ts) (
    requeue_each-cons js (started now is t) (start_each now is ts) s
    ∙ ap₂ (λ u us. u ∷ us) (row_back now is js t r.0 (more t.id) n.0)
        (rows_back now is js ts s r.1 more n.1))

none_running :
    (js : List ℕ) (ts : List Task)
    → ((i : ℕ) → any (λ k. k == i) js ≡ true → any (is_running_task i) ts ≡ false)
    → NoneRunning js ts
none_running js [] k = tt
none_running js (t ∷ ts) k =
    (λ h. ground (arith, k t.id h, eq_refl t.id), none_running js ts (λ i e. ground (arith, k i e)))

All-any : (P : ℕ → Type 0) (i : ℕ) (is : List ℕ) → All P is → any (λ k. k == i) is ≡ true → P i
All-any P i [] h e = ground arith
All-any P i (k ∷ ks) h e = elim (Bool-cases (k == i)) [
  | inl hit ↦ subst P (eq_true→eq k i hit) h.0
  | inr miss ↦ All-any P i ks h.1 (rw miss at e)
]

-- To put back a list of tasks, one after another, undoes a claim of due tasks: the schedule is
-- the one of before, if every claimed task is in the list, no task of an id in the list was
-- running before the claim, and every pending task had no start and no heartbeat. The tasks of
-- the list that the claim did not take, whatever their state, are as before.
pub requeue-claim_due :
    (kind : Option ℕ) (deferrable_only : Bool) (limit now : ℕ) (js : List ℕ) (s : Schedule)
    → AllRested s.tasks
    → All (λ i. any (λ k. k == i) js ≡ true) (due_ids kind deferrable_only limit now s)
    → All (λ i. any (is_running_task i) s.tasks ≡ false) js
    → requeue_each js (claim_due kind deferrable_only limit now s).1 ≡ s
unfolding claim_due
requeue-claim_due kind deferrable_only limit now js s rested more stopped =
    let is = due_ids kind deferrable_only limit now s in
    let back =
      rows_back now is js s.tasks s rested
        (λ i. All-any (λ i. any (λ k. k == i) js ≡ true) i is more)
        (none_running js s.tasks
          (λ i. All-any (λ i. any (is_running_task i) s.tasks ≡ false) i js stopped)) in
    let kept = requeue_each-audits js (record s { tasks = start_each now is s.tasks }) in
    ap₂ (λ ts us. record s { tasks = ts; audits = us }) back kept
