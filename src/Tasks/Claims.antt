-- ===== src/Tasks/Claims.antt =====
-- The claims of due tasks (`claim_due` of core/tasks.py).
pub mod Back
use ai_agent_stock_trading_s.Prelude.{
  ℕ, zero, suc, ◌≤◌, ◌≡◌, refl, Bool, true, false, Option, none, List, [], ◌∷◌, ◌==◌, if◌then◌else◌,
  arith, any, map, take, length, select, update_where, Bool-cases, eq_true→eq, inl, inr,
  length-take, ap₂,
}
use ai_agent_stock_trading_s.Tasks.{
  Task, Schedule, is_task, is_pending, is_pending_task, is_running_task, is_due, start_task,
  start_each, due_ids, by_priority, insert_by_priority, claim_due, clamp_limit, wait_again,
}

any-take : (p : Task → Bool) (n : ℕ) (ts : List Task) → any p ts ≡ false → any p (take n ts) ≡ false
any-take p zero ts h = refl
any-take p (suc n) [] h = refl
any-take p (suc n) (t ∷ ts) h = ground (arith, any-take p n ts)

any-insert :
    (p : Task → Bool) (t : Task) (ts : List Task)
    → any p (insert_by_priority t ts) ≡ (if p t then true else any p ts)
unfolding insert_by_priority
any-insert p t [] = ground arith
any-insert p t (u ∷ us) = ground (arith, any-insert p t us)

any-by_priority : (p : Task → Bool) (ts : List Task) → any p (by_priority ts) ≡ any p ts
unfolding by_priority
any-by_priority p [] = refl
any-by_priority p (t ∷ ts) = ground (arith, any-insert p t (by_priority ts), any-by_priority p ts)

any-map_id :
    (i : ℕ) (ts : List Task)
    → any (is_task i) ts ≡ false
    → any (λ k. k == i) (map (λ t. t.id) ts) ≡ false
any-map_id i [] h = refl
any-map_id i (t ∷ ts) h = ground (arith, any-map_id i ts)

any-select :
    (p q : Task → Bool) (ts : List Task)
    → ((t : Task) → p t ≡ true → q t ≡ true → ⊥)
    → any p (select q ts) ≡ false
any-select p q [] h = refl
any-select p q (t ∷ ts) h = ground (arith, h t, any-select p q ts h)

-- A task that no pending row has the id of is not due.
pub not_due :
    (kind : Option ℕ) (deferrable_only : Bool) (limit now i : ℕ) (s : Schedule)
    → any (is_pending_task i) s.tasks ≡ false
    → any (λ k. k == i) (due_ids kind deferrable_only limit now s) ≡ false
unfolding due_ids
not_due kind deferrable_only limit now i s h = any-map_id i _ (
    any-take (is_task i) _ (by_priority (select (is_due kind deferrable_only now) s.tasks)) (
      rw (any-by_priority (is_task i) (select (is_due kind deferrable_only now) s.tasks))
        (none_due s.tasks h)))
  where
    none_due :
        (ts : List Task)
        → any (is_pending_task i) ts ≡ false
        → any (is_task i) (select (is_due kind deferrable_only now) ts) ≡ false
    none_due [] h = refl
    none_due (t ∷ ts) h = ground (arith, none_due ts)

start_stays :
    (now i k : ℕ) (ts : List Task)
    → any (is_pending_task i) ts ≡ false
    → any (is_pending_task i) (update_where (is_pending_task k) (start_task now) ts) ≡ false
start_stays now i k [] h = refl
start_stays now i k (t ∷ ts) h = ground (arith, start_stays now i k ts)

start_each_stays :
    (now i : ℕ) (is : List ℕ) (ts : List Task)
    → any (is_pending_task i) ts ≡ false
    → any (is_pending_task i) (start_each now is ts) ≡ false
unfolding start_each
start_each_stays now i [] ts h = h
start_each_stays now i (k ∷ ks) ts h = start_each_stays now i ks _ (start_stays now i k ts h)

start_one :
    (now i : ℕ) (ts : List Task)
    → any (is_pending_task i) (update_where (is_pending_task i) (start_task now) ts) ≡ false
start_one now i [] = refl
start_one now i (t ∷ ts) = ground (arith, start_one now i ts)

start_each_all :
    (now i : ℕ) (is : List ℕ) (ts : List Task)
    → any (λ k. k == i) is ≡ true
    → any (is_pending_task i) (start_each now is ts) ≡ false
unfolding start_each
start_each_all now i [] ts h = ground arith
start_each_all now i (k ∷ ks) ts h = elim (Bool-cases (k == i)) [
  | inl hit ↦
      let same : k ≡ i = eq_true→eq k i hit in
      start_each_stays now i ks _ (rw same (start_one now i ts))
  | inr miss ↦ start_each_all now i ks _ (rw miss at h)
]

-- A task that one claim of due tasks took is not due for any later claim, whatever its filters,
-- limit and time, while nobody puts it back.
pub claim_due_once :
    (kind kind2 : Option ℕ) (only only2 : Bool) (limit limit2 now now2 i : ℕ) (s : Schedule)
    → any (λ k. k == i) (due_ids kind only limit now s) ≡ true
    → any (λ k. k == i) (due_ids kind2 only2 limit2 now2 (claim_due kind only limit now s).1)
      ≡ false
unfolding claim_due
claim_due_once kind kind2 only only2 limit limit2 now now2 i s h =
    not_due kind2 only2 limit2 now2 i _
      (start_each_all now i (due_ids kind only limit now s) s.tasks h)

length-map : (f : Task → ℕ) (ts : List Task) → length (map f ts) ≡ length ts
length-map f [] = refl
length-map f (t ∷ ts) = ground (arith, length-map f ts)

pub length-due_ids :
    (kind : Option ℕ) (only : Bool) (limit now : ℕ) (s : Schedule)
    → length (due_ids kind only limit now s) ≤ 200
unfolding due_ids
length-due_ids kind only limit now s = ground (
  arith,
  length-map (λ t. t.id)
      (take (clamp_limit 200 limit) (by_priority (select (is_due kind only now) s.tasks))),
  length-take (clamp_limit 200 limit) (by_priority (select (is_due kind only now) s.tasks)),
)
