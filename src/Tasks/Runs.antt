-- ===== src/Tasks/Runs.antt =====
-- What core/tasks.py does with the other components: tasks that wait for an approval too long, and
-- the execution of due tasks. A handler is a parameter: the ones of the code belong to components
-- that are not modelled. Each is given the task and the state, and returns whether it succeeded,
-- its text, and the state it leaves; `none` is a task type without a handler.
use ai_agent_stock_trading_s.Prelude.{
  ℕ, ◌-◌, Bool, true, false, not, ◌&&◌, Option, none, some, List, [], ◌∷◌, ◌++◌, leb, if◌then◌else◌,
  select,
}
use ai_agent_stock_trading_s.Approval.{Store, close_for_interrupt}
use ai_agent_stock_trading_s.Manager.{Manager, is_degraded, record_resume_call}
use ai_agent_stock_trading_s.Tasks.{
  Task, TaskStatus, done, failed, skipped, partial, Schedule, interrupt_timeout, audit,
  update_tasks, is_running, is_task, is_llm_heavy, not_suspended, minutes, claim_due, finish,
  requeue,
}

-- The tables that the task layer touches.
pub record Desk : Type 0 where
  pub schedule : Schedule
  pub approvals : Store
  pub manager : Manager

abbrev pub is_suspended : Task → Bool
is_suspended t = is_running t && not (not_suspended t.interrupt_entered_ts)

abbrev entered_by : ℕ → Option ℕ → Bool
entered_by cutoff none = false
entered_by cutoff (some t) = leb t cutoff

abbrev pub is_timed_out : ℕ → Task → Bool
is_timed_out cutoff t = is_running t && entered_by cutoff t.interrupt_entered_ts

-- The texts: the note of the task, the note of the approval.
abbrev pub timeout_note : ℕ
timeout_note = 3

abbrev pub rejected_note : ℕ
rejected_note = 4

abbrev pub give_up : ℕ → Task → Task
give_up now t = record t {
  status = partial;
  interrupt_entered_ts = none;
  interrupt_note = timeout_note;
  ended_ts = some now;
  last_error = timeout_note;
}

abbrev pub close_source : ℕ → ℕ → Option ℕ → Store → Bool × Store
close_source actor now none s = (false, s)
close_source actor now (some a) s = close_for_interrupt a rejected_note actor now s

-- One row of `scan_interrupt_timeouts`.
unfoldable pub give_up_task : ℕ → ℕ → Task → Desk → Desk
give_up_task actor now r d = record {
  schedule =
      audit interrupt_timeout partial r.id
        (update_tasks (λ t. is_task r.id t && is_suspended t) (give_up now) d.schedule);
  approvals = (close_source actor now r.approval_id d.approvals).1;
  manager = record_resume_call true now d.manager;
}

unfoldable pub give_up_each : ℕ → ℕ → List Task → Desk → Desk
give_up_each actor now [] d = d
give_up_each actor now (r ∷ rs) d = give_up_each actor now rs (give_up_task actor now r d)

unfoldable pub scan_interrupt_timeouts : ℕ → ℕ → ℕ → Desk → List Task × Desk
scan_interrupt_timeouts timeout_minutes actor now d =
    let rows = select (is_timed_out (now - minutes timeout_minutes)) d.schedule.tasks in
    (rows, give_up_each actor now rows d)

-- What a task of a batch came to.
pub data Item : Type 0 where
  item : ℕ → TaskStatus → Item
  deferred : ℕ → Item

abbrev pub Handler : Type 0
Handler = Task → Desk → (Bool × ℕ) × Desk

abbrev no_handler : ℕ
no_handler = 5

abbrev put_schedule : (Schedule → Schedule) → Desk → Desk
put_schedule f d = record d { schedule = f d.schedule }

-- One task of `_dispatch`.
abbrev handled : ℕ → Task → (Bool × ℕ) × Desk → Item × Desk
handled now t ((good, detail), d) =
    (item t.id (if good then done else failed), put_schedule (finish good none detail t.id now) d)

abbrev dispatch_with : ℕ → Task → Desk → Option Handler → Item × Desk
dispatch_with now t d none =
    (item t.id skipped, put_schedule (finish false (some skipped) no_handler t.id now) d)
dispatch_with now t d (some h) = handled now t (h t d)

unfoldable pub dispatch : (ℕ → Option Handler) → ℕ → List Task → Desk → List Item × Desk
dispatch handlers now [] d = ([], d)
dispatch handlers now (t ∷ ts) d =
    let one = dispatch_with now t d (handlers t.task_type) in
    let rest = dispatch handlers now ts one.1 in (one.0 ∷ rest.0, rest.1)

-- The loop of `run_deferrable` over the claimed tasks while the manager is degraded.
unfoldable pub defer_heavy : List Task → Schedule → List Item × (List Task × Schedule)
defer_heavy [] s = ([], ([], s))
defer_heavy (t ∷ ts) s =
    if is_llm_heavy t
    then (let rest = defer_heavy ts (requeue t.id s) in (deferred t.id ∷ rest.0, rest.1))
    else (let rest = defer_heavy ts s in (rest.0, (t ∷ rest.1.0, rest.1.1)))

abbrev after_claim : (ℕ → Option Handler) → ℕ → Desk → List Task × Schedule → List Item × Desk
after_claim handlers now d (claimed, s) =
    let kept = if is_degraded d.manager then defer_heavy claimed s else ([], (claimed, s)) in
    let ran = dispatch handlers now kept.1.0 (record d { schedule = kept.1.1 }) in
    (kept.0 ++ ran.0, ran.1)

unfoldable pub run_deferrable : (ℕ → Option Handler) → Option ℕ → ℕ → ℕ → Desk → List Item × Desk
run_deferrable handlers kind limit now d =
    after_claim handlers now d (claim_due kind true limit now d.schedule)

unfoldable pub run_pending : (ℕ → Option Handler) → ℕ → ℕ → ℕ → Desk → List Item × Desk
run_pending handlers kind limit now d =
    let claim = claim_due (some kind) false limit now d.schedule in
    dispatch handlers now claim.0 (record d { schedule = claim.1 })
