-- ===== src/Tasks.antt =====
-- The table of scheduled tasks, core/tasks.py. Texts are numbers, an instant is a number of seconds,
-- an empty instant is `none`, and the table is the list of its rows, oldest first.
pub mod Runs
pub mod Keys
pub mod Claims
pub mod Recovery
use ai_agent_stock_trading_s.Prelude.{
  ℕ, ◌+◌, ◌-◌, ◌*◌, Bool, true, false, not, ◌&&◌, ◌||◌, Option, none, some, List, [], ◌∷◌, ◌++◌,
  map, ltb, leb, ◌==◌, if◌then◌else◌, length, any, find, select, update_where, take,
}

pub data TaskStatus : Type 0 where
  pending running done failed skipped expired partial : TaskStatus

pub data ResourceClass : Type 0 where
  scan llm_heavy light : ResourceClass

-- A row of task_schedule.
pub record Task : Type 0 where
  pub id : ℕ
  pub agent_id : ℕ
  pub task_type : ℕ
  pub task_slot : ℕ
  pub trade_date : ℕ
  pub status : TaskStatus
  pub scheduled_ts : ℕ
  pub started_ts : Option ℕ
  pub ended_ts : Option ℕ
  pub attempt_count : ℕ
  pub last_error : ℕ
  pub resource_class : ResourceClass
  pub is_deferrable : Bool
  pub priority : ℕ
  pub dedup_key : ℕ
  pub payload : ℕ
  pub interrupt_entered_ts : Option ℕ
  pub approval_id : Option ℕ
  pub interrupt_note : ℕ
  pub heartbeat_ts : Option ℕ
  pub created_ts : ℕ

pub data Action : Type 0 where
  enqueued finished interrupted interrupt_timeout recovered : Action

-- What `_audit` writes of a call: its action, the status it left, the task.
pub record Audit : Type 0 where
  pub action : Action
  pub result : TaskStatus
  pub object : ℕ

pub record Schedule : Type 0 where
  pub tasks : List Task
  pub audits : List Audit

abbrev pub no_text : ℕ
no_text = 0

abbrev pub is_pending : Task → Bool
is_pending t = elim t.status [
  | pending ↦ true
  | running ↦ false
  | done ↦ false
  | failed ↦ false
  | skipped ↦ false
  | expired ↦ false
  | partial ↦ false
]

abbrev pub is_running : Task → Bool
is_running t = elim t.status [
  | pending ↦ false
  | running ↦ true
  | done ↦ false
  | failed ↦ false
  | skipped ↦ false
  | expired ↦ false
  | partial ↦ false
]

abbrev pub is_llm_heavy : Task → Bool
is_llm_heavy t = elim t.resource_class [ scan ↦ false | llm_heavy ↦ true | light ↦ false ]

abbrev pub is_task : ℕ → Task → Bool
is_task i t = t.id == i

abbrev pub audit : Action → TaskStatus → ℕ → Schedule → Schedule
audit action result i s = record s {
  audits = s.audits ++ record { action = action; result = result; object = i } ∷ [];
}

abbrev pub update_tasks : (Task → Bool) → (Task → Task) → Schedule → Schedule
update_tasks p f s = record s { tasks = update_where p f s.tasks }

-- The arguments of `enqueue`, with the random id that it draws.
pub record Job : Type 0 where
  pub id : ℕ
  pub task_type : ℕ
  pub agent_id : ℕ
  pub trade_date : ℕ
  pub task_slot : ℕ
  pub dedup_key : ℕ
  pub payload : ℕ
  pub resource_class : ResourceClass
  pub is_deferrable : Bool
  pub priority : ℕ
  pub scheduled_ts : Option ℕ

-- The UNIQUE key.
abbrev pub has_key_of : Job → Task → Bool
has_key_of q t =
    (t.agent_id == q.agent_id)
    && (t.task_type == q.task_type)
    && (t.trade_date == q.trade_date)
    && (t.task_slot == q.task_slot)
    && (t.dedup_key == q.dedup_key)

abbrev or_now : Option ℕ → ℕ → ℕ
or_now none now = now
or_now (some t) now = t

unfoldable pub task_of : Job → ℕ → Task
task_of q now = record {
  id = q.id;
  agent_id = q.agent_id;
  task_type = q.task_type;
  task_slot = q.task_slot;
  trade_date = q.trade_date;
  status = pending;
  scheduled_ts = or_now q.scheduled_ts now;
  started_ts = none;
  ended_ts = none;
  attempt_count = 0;
  last_error = no_text;
  resource_class = q.resource_class;
  is_deferrable = q.is_deferrable;
  priority = q.priority;
  dedup_key = q.dedup_key;
  payload = q.payload;
  interrupt_entered_ts = none;
  approval_id = none;
  interrupt_note = no_text;
  heartbeat_ts = none;
  created_ts = now;
}

-- `no_row` is the error of the read after an insertion that only the primary key refused.
pub data Enqueued : Type 0 where
  created existing : ℕ → Enqueued
  no_type no_row : Enqueued

abbrev pub found_as : Schedule → Option Task → Enqueued × Schedule
found_as s none = (no_row, s)
found_as s (some t) = (existing t.id, s)

unfoldable pub enqueue : Job → ℕ → Schedule → Enqueued × Schedule
enqueue q now s =
    if q.task_type == no_text
    then (no_type, s)
    else if any (has_key_of q) s.tasks || any (is_task q.id) s.tasks
    then found_as s (find (has_key_of q) s.tasks)
    else (
      created q.id,
      audit enqueued pending q.id (record s { tasks = s.tasks ++ task_of q now ∷ [] }),
    )

-- `get_task`
unfoldable pub get_task : ℕ → Schedule → Option Task
get_task i s = find (is_task i) s.tasks

-- `ORDER BY priority ASC, created_ts ASC`; rows that tie stay in the order of the table.
abbrev comes_before : Task → Task → Bool
comes_before t u =
    if t.priority == u.priority then leb t.created_ts u.created_ts else ltb t.priority u.priority

unfoldable pub insert_by_priority : Task → List Task → List Task
insert_by_priority t [] = t ∷ []
insert_by_priority t (u ∷ us) = if comes_before t u then t ∷ u ∷ us else u ∷ insert_by_priority t us

unfoldable pub by_priority : List Task → List Task
by_priority [] = []
by_priority (t ∷ ts) = insert_by_priority t (by_priority ts)

-- `max(1, min(limit, most))`
abbrev clamp_limit : ℕ → ℕ → ℕ
clamp_limit most limit = if limit == 0 then 1 else if ltb most limit then most else limit

abbrev pub has_type : Option ℕ → Task → Bool
has_type none t = true
has_type (some k) t = t.task_type == k

abbrev pub is_due : Option ℕ → Bool → ℕ → Task → Bool
is_due kind deferrable_only now t =
    is_pending t
    && leb t.scheduled_ts now
    && has_type kind t
    && (not deferrable_only || t.is_deferrable)

abbrev pub start_task : ℕ → Task → Task
start_task now t = record t {
  status = running;
  started_ts = some now;
  heartbeat_ts = some now;
  attempt_count = t.attempt_count + 1;
}

abbrev pub is_pending_task : ℕ → Task → Bool
is_pending_task i t = is_task i t && is_pending t

abbrev pub is_running_task : ℕ → Task → Bool
is_running_task i t = is_task i t && is_running t

unfoldable pub start_each : ℕ → List ℕ → List Task → List Task
start_each now [] ts = ts
start_each now (i ∷ is) ts =
    start_each now is (update_where (is_pending_task i) (start_task now) ts)

-- The rows of the ids, in their order.
unfoldable pub rows_of : List ℕ → List Task → List Task
rows_of [] ts = []
rows_of (i ∷ is) ts = elim (find (is_task i) ts) [
  | none ↦ rows_of is ts
  | some t ↦ t ∷ rows_of is ts
]

unfoldable pub due_ids : Option ℕ → Bool → ℕ → ℕ → Schedule → List ℕ
due_ids kind deferrable_only limit now s =
    map (λ t. t.id)
      (take (clamp_limit 200 limit)
        (by_priority (select (is_due kind deferrable_only now) s.tasks)))

unfoldable pub claim_due : Option ℕ → Bool → ℕ → ℕ → Schedule → List Task × Schedule
claim_due kind deferrable_only limit now s =
    let ids = due_ids kind deferrable_only limit now s in
    let ts = start_each now ids s.tasks in (rows_of ids ts, record s { tasks = ts })

abbrev pub wait_again : Task → Task
wait_again t = record t {
  status = pending;
  started_ts = none;
  heartbeat_ts = none;
  attempt_count = t.attempt_count - 1;
}

unfoldable pub requeue : ℕ → Schedule → Schedule
requeue i s = update_tasks (is_running_task i) wait_again s

-- `finish` with the status it resolves to; `error` is the text of a failure.
abbrev pub end_task : TaskStatus → ℕ → ℕ → Task → Task
end_task final now error t = record t { status = final; ended_ts = some now; last_error = error }

abbrev pub final_of : Bool → Option TaskStatus → TaskStatus
final_of good (some status) = status
final_of true none = done
final_of false none = failed

unfoldable pub finish : Bool → Option TaskStatus → ℕ → ℕ → ℕ → Schedule → Schedule
finish good status detail i now s =
    let final = final_of good status in
    audit finished final i
      (update_tasks (is_task i) (end_task final now (if good then no_text else detail)) s)

abbrev pub not_suspended : Option ℕ → Bool
not_suspended none = true
not_suspended (some t) = false

abbrev pub suspend_as : ℕ → Option ℕ → ℕ → Task → Task
suspend_as now approval note t = record t {
  interrupt_entered_ts = some now;
  approval_id = approval;
  interrupt_note = note;
}

unfoldable pub enter_interrupt : ℕ → Option ℕ → ℕ → ℕ → Schedule → Schedule
enter_interrupt i approval note now s = audit interrupted running i (
    update_tasks (λ t. is_task i t && not_suspended t.interrupt_entered_ts)
      (suspend_as now approval note) s)

unfoldable pub heartbeat : ℕ → ℕ → Schedule → Schedule
heartbeat i now s = update_tasks (is_running_task i) (λ t. record t { heartbeat_ts = some now }) s

-- `_recover`, over the rows that were selected before.
abbrev pub fail_task : ℕ → ℕ → Task → Task
fail_task now reason t = record t { status = failed; ended_ts = some now; last_error = reason }

unfoldable pub recover : ℕ → ℕ → List Task → Schedule → Schedule
recover now reason [] s = s
recover now reason (r ∷ rs) s =
    recover now reason rs
      (audit recovered failed r.id (update_tasks (is_running_task r.id) (fail_task now reason) s))

-- `COALESCE(NULLIF(heartbeat_ts, ''), started_ts)`; the empty text sorts first.
abbrev last_sign : Option ℕ → Option ℕ → ℕ
last_sign (some t) started = t
last_sign none (some t) = t
last_sign none none = 0

abbrev pub minutes : ℕ → ℕ
minutes n = 60 * (if n == 0 then 1 else n)

abbrev crash_reason : ℕ
crash_reason = 1

abbrev restart_reason : ℕ
restart_reason = 2

abbrev pub is_stale : ℕ → Task → Bool
is_stale cutoff t = is_running t && leb (last_sign t.heartbeat_ts t.started_ts) cutoff

-- `recover_crashed`; `now` is read once for the cutoff and again, as `ts`, for the rows.
unfoldable pub recover_crashed : ℕ → ℕ → ℕ → Schedule → List Task × Schedule
recover_crashed stale_minutes now ts s =
    let rows = select (is_stale (now - minutes stale_minutes)) s.tasks in
    (rows, recover ts crash_reason rows s)

unfoldable pub recover_on_startup : ℕ → Schedule → List Task × Schedule
recover_on_startup ts s =
    let rows = select is_running s.tasks in (rows, recover ts restart_reason rows s)
