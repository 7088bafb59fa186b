-- ===== src/Tasks/Keys.antt =====
-- The unique keys of task_schedule and repeated calls of `enqueue` (core/tasks.py).
use ai_agent_stock_trading_s.Prelude.{
  ℕ, ◌≡◌, refl, ◌∙◌, Bool, true, false, none, some, List, [], ◌∷◌, ◌++◌, ◌==◌, if◌then◌else◌, arith,
  any, find, Bool-cases, eq_refl, inl, inr,
}
use ai_agent_stock_trading_s.Tasks.{
  Task, Schedule, Job, has_key_of, is_task, enqueue, created, existing, task_of, no_text,
}

-- The job whose key is a task's.
abbrev pub key_job : Task → Job
key_job t = record {
  id = t.id;
  task_type = t.task_type;
  agent_id = t.agent_id;
  trade_date = t.trade_date;
  task_slot = t.task_slot;
  dedup_key = t.dedup_key;
  payload = t.payload;
  resource_class = t.resource_class;
  is_deferrable = t.is_deferrable;
  priority = t.priority;
  scheduled_ts = none;
}

-- The UNIQUE and PRIMARY KEY constraints.
abbrev pub HasKeys : List Task → Type 0
HasKeys [] = Unit
HasKeys (t ∷ ts) =
    (any (is_task t.id) ts ≡ false) × (any (has_key_of (key_job t)) ts ≡ false) × HasKeys ts

find-append :
    (p : Task → Bool) (t : Task) (ts : List Task)
    → any p ts ≡ false
    → p t ≡ true
    → find p (ts ++ t ∷ []) ≡ some t
find-append p t [] free hit = rw hit refl
find-append p t (u ∷ us) free hit = ground (arith, find-append p t us)

any-append_last :
    (p : Task → Bool) (t : Task) (ts : List Task)
    → any p (ts ++ t ∷ []) ≡ (if any p ts then true else p t)
any-append_last p t [] = ground arith
any-append_last p t (u ∷ us) = ground (arith, any-append_last p t us)

any-find : (p : Task → Bool) (ts : List Task) → any p ts ≡ false → find p ts ≡ none
any-find p [] h = refl
any-find p (t ∷ ts) h = ground (arith, any-find p ts)

task_of_key : (q : Job) (now : ℕ) → has_key_of q (task_of q now) ≡ true
unfolding task_of
task_of_key q now = simp (
  eq_refl q.agent_id,
  eq_refl q.task_type,
  eq_refl q.trade_date,
  eq_refl q.task_slot,
  eq_refl q.dedup_key,
)

-- Two tables of one key: the test of the key does not see the side.
key_sym :
    (q : Job) (now : ℕ) (t : Task)
    → has_key_of q t ≡ false
    → has_key_of (key_job t) (task_of q now) ≡ false
unfolding task_of
key_sym q now t h = ground arith

append-HasKeys :
    (q : Job) (now : ℕ) (ts : List Task)
    → any (is_task q.id) ts ≡ false
    → any (has_key_of q) ts ≡ false
    → HasKeys ts
    → HasKeys (ts ++ task_of q now ∷ [])
unfolding task_of
append-HasKeys q now [] f g h = (refl, refl, tt)
append-HasKeys q now (t ∷ ts) f g h = elim (Bool-cases (has_key_of q t)) [
  | inl hit ↦ ground arith
  | inr miss ↦ (
    ground (arith, any-append_last (is_task t.id) (task_of q now) ts),
    rw (any-append_last (has_key_of (key_job t)) (task_of q now) ts, h.1) (key_sym q now t miss),
    append-HasKeys q now ts (ground arith) (rw miss at g) h.2,
  )
]

-- If no two tasks have the same id or the same key, no two have after a call of enqueue.
pub enqueue-HasKeys :
    (q : Job) (now : ℕ) (s : Schedule) → HasKeys s.tasks → HasKeys (enqueue q now s).1.tasks
unfolding enqueue
enqueue-HasKeys q now s h = ground (arith, append-HasKeys q now s.tasks)

created_cases :
    (q : Job) (now i : ℕ) (s : Schedule)
    → (enqueue q now s).0 ≡ created i
    → (i ≡ q.id)
      × ((q.task_type == no_text) ≡ false)
      × (any (has_key_of q) s.tasks ≡ false)
      × ((enqueue q now s).1.tasks ≡ s.tasks ++ task_of q now ∷ [])
unfolding enqueue
created_cases q now i s h = ground arith

existing_lem :
    (q : Job) (now : ℕ) (s : Schedule) (t : Task)
    → ((q.task_type == no_text) ≡ false)
    → any (has_key_of q) s.tasks ≡ true
    → find (has_key_of q) s.tasks ≡ some t
    → enqueue q now s ≡ (existing t.id, s)
unfolding enqueue
existing_lem q now s t kind hit e = rw (kind, hit, e) refl

-- Two requests with the same key, whatever else they ask for.
pub record HasSameKey (q r : Job) : Type 0 where
  pub agent_same : r.agent_id ≡ q.agent_id
  pub type_same : r.task_type ≡ q.task_type
  pub date_same : r.trade_date ≡ q.trade_date
  pub slot_same : r.task_slot ≡ q.task_slot
  pub dedup_same : r.dedup_key ≡ q.dedup_key

task_of_same_key : (q r : Job) (now : ℕ) → HasSameKey q r → has_key_of r (task_of q now) ≡ true
unfolding task_of
task_of_same_key q r now k =
    rw (k.agent_same, k.type_same, k.date_same, k.slot_same, k.dedup_same) (task_of_key q now)

same_key_any :
    (q r : Job) (ts : List Task) → HasSameKey q r → any (has_key_of r) ts ≡ any (has_key_of q) ts
same_key_any q r ts k = rw (k.agent_same, k.type_same, k.date_same, k.slot_same, k.dedup_same) refl

-- After a task was created, a request with the same key, at any time, returns the id of that task
-- and changes nothing, whatever its id, payload, priority, resource class and time are.
pub enqueue_again :
    (q r : Job) (now later i : ℕ) (s : Schedule)
    → (enqueue q now s).0 ≡ created i
    → HasSameKey q r
    → enqueue r later (enqueue q now s).1 ≡ (existing i, (enqueue q now s).1)
unfolding task_of
enqueue_again q r now later i s h k =
    let (same, kind, free, e) = created_cases q now i s h in
    let hit = task_of_same_key q r now k in
    let none_before : any (has_key_of r) s.tasks ≡ false = same_key_any q r s.tasks k ∙ free in
    rw same (
      existing_lem r later (enqueue q now s).1 (task_of q now) (rw k.type_same kind)
        (rw (e, any-append_last (has_key_of r) (task_of q now) s.tasks, none_before) hit)
        (rw e (find-append (has_key_of r) (task_of q now) s.tasks none_before hit)))
