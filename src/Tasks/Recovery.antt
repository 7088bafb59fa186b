-- ===== src/Tasks/Recovery.antt =====
-- The sweeps of core/tasks.py: the recovery of crashed tasks and the timeout of interrupts.
use ai_agent_stock_trading_s.Prelude.{
  ℕ, ◌-◌, ◌≡◌, refl, Bool, true, false, not, ◌&&◌, Option, none, some, List, [], ◌∷◌, arith, any,
  select, update_where, Bool-cases, eq_refl, inl, inr, subst, sym,
}
use ai_agent_stock_trading_s.Tasks.{
  Task, Schedule, is_task, is_running, is_running_task, fail_task, recover, recover_crashed,
  recover_on_startup, is_stale, minutes, update_tasks, audit, recovered, failed,
}
use ai_agent_stock_trading_s.Tasks.Runs.{
  Desk, is_suspended, is_timed_out, give_up, give_up_task, give_up_each, close_source,
  rejected_note, scan_interrupt_timeouts,
}
use ai_agent_stock_trading_s.Approval.Table.{HasKeys}
use ai_agent_stock_trading_s.Approval.Lifecycle.{
  IsLawful, same-IsLawful, close-IsLawful, IsLawful-trans,
}

-- The tasks of a kind that no listed row has the id of.
abbrev missed : (Task → Bool) → List Task → Task → Bool
missed p rows t = p t && not (any (is_task t.id) rows)

-- A row and the update by its id take care of one listed row.
sweep_one :
    (p g : Task → Bool) (f : Task → Task) (r : Task) (rs ts : List Task)
    → ((t : Task) → p t ≡ true → g t ≡ true)
    → ((t : Task) → p (f t) ≡ false)
    → any (missed p (r ∷ rs)) ts ≡ false
    → any (missed p rs) (update_where (λ t. is_task r.id t && g t) f ts) ≡ false
sweep_one p g f r rs [] pg pf h = refl
sweep_one p g f r rs (t ∷ ts) pg pf h = ground (arith, pg t, pf t, sweep_one p g f r rs ts pg pf)

missed_more :
    (p : Task → Bool) (r : Task) (rs ts : List Task)
    → any (missed p rs) ts ≡ false
    → any (missed p (r ∷ rs)) ts ≡ false
missed_more p r rs [] h = refl
missed_more p r rs (t ∷ ts) h = ground (arith, missed_more p r rs ts)

select-hit :
    (p : Task → Bool) (t : Task) (ts : List Task) → p t ≡ true → select p (t ∷ ts) ≡ t ∷ select p ts
select-hit p t ts h = rw h refl

select-miss :
    (p : Task → Bool) (t : Task) (ts : List Task) → p t ≡ false → select p (t ∷ ts) ≡ select p ts
select-miss p t ts h = rw h refl

found_itself :
    (p : Task → Bool) (t : Task) (rs ts : List Task)
    → any (missed p (t ∷ rs)) ts ≡ false
    → any (missed p (t ∷ rs)) (t ∷ ts) ≡ false
found_itself p t rs ts h = ground (arith, eq_refl t.id)

-- The rows that a query selects miss none of their kind.
none_missed : (p : Task → Bool) (ts : List Task) → any (missed p (select p ts)) ts ≡ false
none_missed p [] = refl
none_missed p (t ∷ ts) = elim (Bool-cases (p t)) [
  | inl hit ↦
      subst (λ rows. any (missed p rows) (t ∷ ts) ≡ false) (sym (select-hit p t ts hit))
        (found_itself p t (select p ts) ts (missed_more p t (select p ts) ts (none_missed p ts)))
  | inr other ↦
      subst (λ rows. any (missed p rows) (t ∷ ts) ≡ false) (sym (select-miss p t ts other))
        (rw other (none_missed p ts))
]

none_left : (p : Task → Bool) (ts : List Task) → any (missed p []) ts ≡ false → any p ts ≡ false
none_left p [] h = refl
none_left p (t ∷ ts) h = ground (arith, none_left p ts)

recover_all :
    (now reason : ℕ) (p : Task → Bool) (rows : List Task) (s : Schedule)
    → ((t : Task) → p t ≡ true → is_running t ≡ true)
    → ((t : Task) → p (fail_task now reason t) ≡ false)
    → any (missed p rows) s.tasks ≡ false
    → any p (recover now reason rows s).tasks ≡ false
unfolding recover
recover_all now reason p [] s pg pf h = none_left p s.tasks h
recover_all now reason p (r ∷ rs) s pg pf h =
    recover_all now reason p rs
      (audit recovered failed r.id (update_tasks (is_running_task r.id) (fail_task now reason) s))
      pg pf (sweep_one p is_running (fail_task now reason) r rs s.tasks pg pf h)

-- After a recovery of crashed tasks no running task has its last sign of life at the cutoff or
-- before; after the recovery of a start no task is running.
pub recover_crashed_total :
    (stale now ts : ℕ) (s : Schedule)
    → (any (is_stale (now - minutes stale)) (recover_crashed stale now ts s).1.tasks ≡ false)
      × (any is_running (recover_on_startup ts s).1.tasks ≡ false)
unfolding recover_crashed recover_on_startup
recover_crashed_total stale now ts s = (
  recover_all ts _ (is_stale (now - minutes stale)) _ s (λ t h. ground arith) (λ t. refl)
      (none_missed (is_stale (now - minutes stale)) s.tasks),
  recover_all ts _ is_running _ s (λ t h. h) (λ t. refl) (none_missed is_running s.tasks),
)

give_up_task_misses :
    (actor now : ℕ) (p : Task → Bool) (r : Task) (rs : List Task) (d : Desk)
    → ((t : Task) → p t ≡ true → is_suspended t ≡ true)
    → ((t : Task) → p (give_up now t) ≡ false)
    → any (missed p (r ∷ rs)) d.schedule.tasks ≡ false
    → any (missed p rs) (give_up_task actor now r d).schedule.tasks ≡ false
unfolding give_up_task
give_up_task_misses actor now p r rs d pg pf h =
    sweep_one p is_suspended (give_up now) r rs d.schedule.tasks pg pf h

give_up_all :
    (actor now : ℕ) (p : Task → Bool) (rows : List Task) (d : Desk)
    → ((t : Task) → p t ≡ true → is_suspended t ≡ true)
    → ((t : Task) → p (give_up now t) ≡ false)
    → any (missed p rows) d.schedule.tasks ≡ false
    → any p (give_up_each actor now rows d).schedule.tasks ≡ false
unfolding give_up_each
give_up_all actor now p [] d pg pf h = none_left p d.schedule.tasks h
give_up_all actor now p (r ∷ rs) d pg pf h =
    give_up_all actor now p rs (give_up_task actor now r d) pg pf
      (give_up_task_misses actor now p r rs d pg pf h)

-- Every approval store that the scan passes through is lawful.
give_up_approvals :
    (actor now : ℕ) (rows : List Task) (d : Desk)
    → HasKeys d.approvals.requests
    → IsLawful d.approvals (give_up_each actor now rows d).approvals
unfolding give_up_each give_up_task
give_up_approvals actor now [] d k = same-IsLawful d.approvals d.approvals k refl
give_up_approvals actor now (r ∷ rs) d k =
    let one = close_source-IsLawful r.approval_id in
    IsLawful-trans _ _ _ one (give_up_approvals actor now rs (give_up_task actor now r d) one.keys)
  where
    close_source-IsLawful :
        (a : Option ℕ) → IsLawful d.approvals (close_source actor now a d.approvals).1
    close_source-IsLawful none = same-IsLawful d.approvals d.approvals k refl
    close_source-IsLawful (some a) = close-IsLawful a rejected_note actor now d.approvals k

-- After a scan for interrupts that timed out, over approvals with distinct ids, no running task
-- is past the timeout, and the approvals have changed only as their life allows.
pub scan_interrupt_timeouts_total :
    (timeout actor now : ℕ) (d : Desk)
    → HasKeys d.approvals.requests
    → (any
          (is_timed_out (now - minutes timeout))
          (scan_interrupt_timeouts timeout actor now d).1.schedule.tasks
        ≡ false)
      × IsLawful d.approvals (scan_interrupt_timeouts timeout actor now d).1.approvals
unfolding scan_interrupt_timeouts
scan_interrupt_timeouts_total timeout actor now d k =
    let cutoff = now - minutes timeout in
    let rows = select (is_timed_out cutoff) d.schedule.tasks in
    (
      give_up_all actor now (is_timed_out cutoff) rows d (timed_out-suspended cutoff) (λ t. refl)
          (none_missed (is_timed_out cutoff) d.schedule.tasks),
      give_up_approvals actor now rows d k,
    )
  where
    timed_out-suspended :
        (cutoff : ℕ) (t : Task) → is_timed_out cutoff t ≡ true → is_suspended t ≡ true
    timed_out-suspended cutoff t h = ground arith
