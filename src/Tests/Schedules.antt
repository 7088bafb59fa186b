-- ===== src/Tests/Schedules.antt =====
-- Tasks that are claimed, put back and recovered (core/tasks.py), and the manager's reports
-- (core/manager.py).
use ai_agent_stock_trading_s.Prelude.{
  ℕ, ◌-◌, ◌≡◌, refl, true, false, none, some, List, [], ◌∷◌, any, ◌==◌,
}
use ai_agent_stock_trading_s.Approval.{Store}
use ai_agent_stock_trading_s.Approval.Lifecycle.{IsLawful}
use ai_agent_stock_trading_s.Manager.{Report, health, resume, run, first_row, active, autonomous}
use ai_agent_stock_trading_s.Manager.Modes.{
  IsCounted, InService, history_of, history_switches, thresholds_reached,
}
use ai_agent_stock_trading_s.Tasks.{
  Task, TaskStatus, light, Schedule, Job, enqueue, created, existing, task_of, due_ids, claim_due,
  is_stale, is_running, recover_crashed, recover_on_startup, minutes, start_task, by_priority,
  insert_by_priority,
}
use ai_agent_stock_trading_s.Tasks.Keys.{enqueue_again}
use ai_agent_stock_trading_s.Tasks.Claims.{claim_due_once}
use ai_agent_stock_trading_s.Tasks.Claims.Back.{requeue_each, requeue-claim_due}
use ai_agent_stock_trading_s.Tasks.Recovery.{recover_crashed_total, scan_interrupt_timeouts_total}
use ai_agent_stock_trading_s.Tasks.Runs.{Desk, scan_interrupt_timeouts, is_timed_out}

abbrev job : Job
job = record {
  id = 1;
  task_type = 4;
  agent_id = 7;
  trade_date = 20;
  task_slot = 0;
  dedup_key = 0;
  payload = 0;
  resource_class = light;
  is_deferrable = true;
  priority = 5;
  scheduled_ts = none;
}

abbrev empty : Schedule
empty = record { tasks = []; audits = [] }

job_created : (enqueue job 100 empty).0 ≡ created 1
unfolding enqueue
job_created = refl

-- The same key with other contents.
abbrev same_job : Job
same_job = record job { id = 2; priority = 1; payload = 9; is_deferrable = false }

enqueue_again_example :
    enqueue same_job 200 (enqueue job 100 empty).1 ≡ (existing 1, (enqueue job 100 empty).1)
enqueue_again_example = enqueue_again job same_job 100 200 1 empty job_created (record {
  agent_same = refl;
  type_same = refl;
  date_same = refl;
  slot_same = refl;
  dedup_same = refl;
})

abbrev schedule : Schedule
schedule = (enqueue job 100 empty).1

job_due : any (λ k. k == 1) (due_ids none true 10 150 schedule) ≡ true
unfolding enqueue due_ids task_of by_priority insert_by_priority
job_due = refl

claim_due_once_example :
    any (λ k. k == 1) (due_ids (some 4) false 10 160 (claim_due none true 10 150 schedule).1)
    ≡ false
claim_due_once_example = claim_due_once none (some 4) true false 10 10 150 160 1 schedule job_due

-- Two tasks that are due at 150, and one that is done; the claim takes the second and the first.
abbrev done_job : Task
done_job = record (task_of job 90) { id = 3; status = TaskStatus.done; started_ts = some 95 }

abbrev schedule_of_three : Schedule
schedule_of_three = record {
  tasks = task_of job 100 ∷ task_of same_job 110 ∷ done_job ∷ [];
  audits = [];
}

requeue-claim_due_example :
    requeue_each (1 ∷ 2 ∷ 3 ∷ []) (claim_due none false 10 150 schedule_of_three).1
    ≡ schedule_of_three
unfolding task_of due_ids by_priority insert_by_priority
requeue-claim_due_example =
    requeue-claim_due none false 10 150 (1 ∷ 2 ∷ 3 ∷ []) schedule_of_three
      ((λ e. (refl, refl)), ((λ e. (refl, refl)), ((λ e. cc), tt))) (refl, (refl, tt))
      (refl, (refl, (refl, tt)))

recover_crashed_total_example :
    (any
        (is_stale (9000 - minutes 30))
        (recover_crashed 30 9000 9001 (claim_due none true 10 150 schedule).1).1.tasks
      ≡ false)
    × (any is_running (recover_on_startup 9001 (claim_due none true 10 150 schedule).1).1.tasks
        ≡ false)
recover_crashed_total_example =
    recover_crashed_total 30 9000 9001 (claim_due none true 10 150 schedule).1

-- A running task that waits for the approval 3 since the instant 200.
abbrev waiting : Task
waiting = record (start_task 150 (task_of job 100)) {
  interrupt_entered_ts = some 200;
  approval_id = some 3;
}

abbrev approvals : Store
approvals = record {
  requests = [];
  config = record { accounts = []; capabilities = []; bindings = [] };
  audits = [];
}

abbrev desk : Desk
desk = record {
  schedule = record { tasks = waiting ∷ []; audits = [] };
  approvals = approvals;
  manager = first_row;
}

scan_interrupt_timeouts_total_example :
    (any
        (is_timed_out (9000 - minutes 30))
        (scan_interrupt_timeouts 30 1 9000 desk).1.schedule.tasks
      ≡ false)
    × IsLawful approvals (scan_interrupt_timeouts 30 1 9000 desk).1.approvals
scan_interrupt_timeouts_total_example = scan_interrupt_timeouts_total 30 1 9000 desk tt

abbrev reports : List (Report × ℕ)
reports = (health false none, 10) ∷ (resume false, 15) ∷ (health true none, 20) ∷ []

history_switches_example :
    IsCounted (history_of reports []) (run reports first_row)
    × ((run reports first_row).mode ≡ active → InService (history_of reports []))
history_switches_example = history_switches reports

thresholds_reached_example :
    ((run ((health true none, 1) ∷ (health true none, 2) ∷ []) first_row).mode ≡ active)
    × ((run
          ((health false none, 1) ∷ (health false none, 2) ∷ (health false none, 3) ∷ [])
          first_row).mode
        ≡ autonomous)
    × ((run ((resume false, 1) ∷ (resume false, 2) ∷ (resume false, 3) ∷ []) first_row).mode
        ≡ autonomous)
thresholds_reached_example = thresholds_reached first_row none none none 1 2 3
