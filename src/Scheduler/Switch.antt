-- ===== src/Scheduler/Switch.antt =====
-- The functions of tasking/scheduler.rs that change tasks: what each does to the global scheduler
-- under its lock, with interrupts off. What follows, the switch of contexts and of address spaces,
-- is the hardware's; a function gives the two contexts between which it switches.
pub mod Group
pub mod Valid
pub mod Fallback
pub mod Installing
mod Tests
use mathlib.Core.Option
use leaf_os_alpha.Base.{
  ℕ, zero, suc, ◌+◌, ◌%◌, Bool, true, false, ◌&&◌, ◌||◌, not, Option, none, some, List, [], ◌∷◌,
  if◌then◌else◌, ◌==◌, Result, ok, err, is_none, position, slot, fill, word,
}
use leaf_os_alpha.Scheduler.Task.{
  Task, TaskState, ready, blocked, terminated, is_ready, is_terminated, SchedulerError, not_started,
  no_runnable_tasks, unknown_task, Scheduler, UserTask,
}
use leaf_os_alpha.Scheduler.Ops.{
  Outcome, put_task, has_id, holds, start, transition_current, sleep_current_until,
  wake_expired_sleepers, has_live_non_idle_tasks, wake_parent, parent_of,
}
use leaf_os_alpha.Scheduler.Lifecycle.{create_kernel_task}

-- A function returns, switches from the context of a slot to that of another or to the bootstrap
-- context, or panics.
pub data Handover : Type 0 where
  returns : Result (Unit {0}) SchedulerError → Handover
  switches : ℕ → Option ℕ → Handover
  panics : Handover

-- `Ok(_) | Err(NoRunnableTasks) => {}`, and the errors that are left.
abbrev pub failure : Result ℕ SchedulerError → Option SchedulerError
failure (ok id) = none
failure (err no_runnable_tasks) = none
failure (err e) = some e

abbrev pub failed : SchedulerError → Handover
failed e = returns (err e)

pub preempt_to : ℕ → Option ℕ → Handover → Handover
preempt_to current none h = returns (ok tt)
preempt_to current (some next) h = if next == current then returns (ok tt) else h

module _ {Space : Type 0} where
  pub save_rsp_in : ℕ → ℕ → Option (Task Space) → Scheduler Space → Scheduler Space
  save_rsp_in rsp i none s = s
  save_rsp_in rsp i (some t) s =
      let set_rsp : UserTask Space → UserTask Space = λ u. record u { syscall_user_rsp = rsp } in
      put_task i (record t { user = Option.map set_rsp t.user }) s

  -- `rsp` is `arch::syscall::user_rsp()`.
  pub save_current_user_rsp : ℕ → Scheduler Space → ℕ → Scheduler Space
  unfolding save_rsp_in
  save_current_user_rsp rsp s i = save_rsp_in rsp i (slot s.tasks i) s

  -- The context of the task that goes, and that of the current one, if the slots hold tasks; `lost`
  -- is what happens if they do not.
  pub next_of : Handover → List (Option (Task Space)) → ℕ → Option ℕ → Handover
  next_of lost tasks old none = switches old none
  next_of lost tasks old (some next) =
      if is_none (slot tasks next) then lost else switches old (some next)

  pub hand_over : Handover → Scheduler Space → ℕ → Handover
  unfolding next_of
  hand_over lost s old =
      if is_none (slot s.tasks old) then lost else next_of lost s.tasks old s.current

  -- After a transition: other errors are returned, or panic.
  pub settle : (SchedulerError → Handover) → ℕ → Outcome Space ℕ → Handover × Scheduler Space
  unfolding hand_over
  settle lost old (r, s) =
      (elim (failure r) [ none ↦ hand_over (lost unknown_task) s old | some e ↦ lost e ], s)

  pub yield_settle : ℕ → Outcome Space ℕ → Handover × Scheduler Space
  unfolding hand_over
  yield_settle old (err e, s) = (failed e, s)
  yield_settle old (ok id, s) = (
    if is_none s.current then failed no_runnable_tasks else hand_over (failed unknown_task) s old,
    s,
  )

  pub yield_from : ℕ → Scheduler Space → Option ℕ → Handover × Scheduler Space
  unfolding yield_settle
  yield_from rsp s none = (failed not_started, s)
  yield_from rsp s (some current) =
      yield_settle current (transition_current (save_current_user_rsp rsp s current) ready)

  pub yield_now : ℕ → Scheduler Space → Handover × Scheduler Space
  unfolding yield_from
  yield_now rsp s = yield_from rsp s s.current

  pub preempt_settle : ℕ → Outcome Space ℕ → Handover × Scheduler Space
  unfolding preempt_to hand_over
  preempt_settle current (r, s) = (
    elim (failure r) [
      | none ↦ preempt_to current s.current (hand_over panics s current)
      | some e ↦ panics
    ],
    s,
  )

  pub preempt_at : ℕ → Scheduler Space → Option ℕ → Handover × Scheduler Space
  unfolding preempt_settle
  preempt_at now s none = (returns (ok tt), s)
  preempt_at now s (some current) =
      preempt_settle current (transition_current (wake_expired_sleepers s now) ready)

  -- `now` is the timer's tick count.
  pub preempt_from_timer : ℕ → Scheduler Space → Handover × Scheduler Space
  unfolding preempt_at
  preempt_from_timer now s = preempt_at now s s.current

  pub block_from : ℕ → Scheduler Space → Option ℕ → Handover × Scheduler Space
  unfolding settle
  block_from rsp s none = (failed not_started, s)
  block_from rsp s (some current) =
      settle failed current (transition_current (save_current_user_rsp rsp s current) blocked)

  pub block_now : ℕ → Scheduler Space → Handover × Scheduler Space
  unfolding block_from
  block_now rsp s = block_from rsp s s.current

  pub sleep_from : ℕ → ℕ → Scheduler Space → Option ℕ → Handover × Scheduler Space
  unfolding settle
  sleep_from rsp deadline s none = (failed not_started, s)
  sleep_from rsp deadline s (some current) =
      settle failed current (sleep_current_until (save_current_user_rsp rsp s current) deadline)

  pub sleep_ticks : ℕ → ℕ → ℕ → Scheduler Space → Handover × Scheduler Space
  unfolding sleep_from
  sleep_ticks rsp now duration s =
      if duration == 0
      then (returns (ok tt), s)
      else sleep_from rsp ((now + duration) % word) s s.current

  -- Is the task in a slot a sibling that has not ended?
  abbrev pub is_sibling : ℕ → Option (Task Space) → Bool
  is_sibling parent none = false
  is_sibling parent (some t) = holds t.parent parent && not (is_terminated t.state)

  abbrev pub end_task : Option ℕ → Task Space → Task Space
  end_task exit_code t = record t { exit_code = exit_code; state = terminated }

  -- The siblings in the slots from `index` on, all but `current`.
  pub end_siblings : ℕ → ℕ → Option ℕ → ℕ → List (Option (Task Space)) → List (Option (Task Space))
  end_siblings parent current exit_code index [] = []
  end_siblings parent current exit_code index (o ∷ tasks) =
      let rest = end_siblings parent current exit_code (suc index) tasks in
      (if not (index == current) && is_sibling parent o
        then Option.map (end_task exit_code) o
        else o)
      ∷ rest

  pub end_group : ℕ → Option ℕ → Scheduler Space → Option ℕ → Scheduler Space
  unfolding end_siblings
  end_group current exit_code s none = s
  end_group current exit_code s (some parent) = record s {
    tasks = end_siblings parent current exit_code 0 s.tasks;
  }

  pub exit_task : ℕ → Option ℕ → Scheduler Space → Option (Task Space) → Handover × Scheduler Space
  unfolding settle
  exit_task current exit_code s none = (panics, s)
  exit_task current exit_code s (some t) =
      let s' = put_task current (record t { exit_code = exit_code }) s in
      settle (λ e. panics) current (transition_current (wake_parent s' current) terminated)

  pub exit_group : ℕ → Option ℕ → Bool → Scheduler Space → Handover × Scheduler Space
  unfolding exit_task end_group
  exit_group current exit_code terminate_group s =
      let s' =
        if terminate_group
        then end_group current exit_code s (parent_of (slot s.tasks current))
        else s in
      exit_task current exit_code s' (slot s'.tasks current)

  pub exit_from : ℕ → Option ℕ → Bool → Scheduler Space → Option ℕ → Handover × Scheduler Space
  unfolding exit_group
  exit_from rsp exit_code terminate_group s none = (panics, s)
  exit_from rsp exit_code terminate_group s (some current) =
      exit_group current exit_code terminate_group (save_current_user_rsp rsp s current)

  -- `exit_current_with_status_and_group`
  pub exit_current : ℕ → Option ℕ → Bool → Scheduler Space → Handover × Scheduler Space
  unfolding exit_from
  exit_current rsp exit_code terminate_group s = exit_from rsp exit_code terminate_group s s.current

  -- The idle task takes itself off the processor when no other task lives.
  pub idle_rest : ℕ → Scheduler Space → Option (Task Space) → Handover × Scheduler Space
  idle_rest current s none = (panics, s)
  idle_rest current s (some t) =
      if t.is_idle
      then (
        switches current none,
        record (put_task current (record t { state = ready }) s) { current = none },
      )
      else (panics, s)

  pub idle_from : Scheduler Space → Option ℕ → Handover × Scheduler Space
  unfolding idle_rest
  idle_from s none = (panics, s)
  idle_from s (some current) = idle_rest current s (slot s.tasks current)

  -- A round of `idle_task_entry`: it rests, or it goes on to `yield_now`.
  pub idle_round : ℕ → ℕ → Scheduler Space → Handover × Scheduler Space
  unfolding idle_from
  idle_round rsp now s =
      let s' = wake_expired_sleepers s now in
      if has_live_non_idle_tasks s' then yield_now rsp s' else idle_from s' s'.current

  abbrev pub make_idle : Task Space → Task Space
  make_idle t = record t { is_idle = true }

  pub install_slot : Scheduler Space → ℕ → Option (Task Space) → Outcome Space (Unit {0})
  install_slot s index none = (err unknown_task, s)
  install_slot s index (some t) =
      (ok tt, record (put_task index (make_idle t) s) { idle_index = some index })

  pub install_at : Scheduler Space → Option ℕ → Outcome Space (Unit {0})
  unfolding install_slot
  install_at s none = (err unknown_task, s)
  install_at s (some index) = install_slot s index (slot s.tasks index)

  pub install_created : Outcome Space ℕ → Outcome Space (Unit {0})
  unfolding install_at
  install_created (err e, s) = (err e, s)
  install_created (ok id, s) = install_at s (position (has_id id) s.tasks)

  -- `trampoline` and `base` as for `create_task_stack`; `entry` is `idle_task_entry`.
  pub install_idle : ℕ → ℕ → ℕ → Scheduler Space → Outcome Space (Unit {0})
  unfolding install_created
  install_idle trampoline base entry s =
      if is_none s.idle_index
      then install_created (create_kernel_task s trampoline base entry none)
      else (ok tt, s)

  pub run_started : Outcome Space ℕ → Outcome Space (Option ℕ)
  run_started (err e, s) = (err e, s)
  run_started (ok id, s) = (ok s.current, s)

  pub run_installed : Outcome Space (Unit {0}) → Outcome Space (Option ℕ)
  unfolding run_started
  run_installed (err e, s) = (err e, s)
  run_installed (ok x, s) = run_started (start s)

  -- `run_tasks` until it leaves the bootstrap context: the slot whose context it goes to.
  pub run_tasks : ℕ → ℕ → ℕ → Scheduler Space → Outcome Space (Option ℕ)
  unfolding run_installed install_idle
  run_tasks trampoline base entry s = run_installed (install_idle trampoline base entry s)

  abbrev pub is_ready_idle : Option (Task Space) → Bool
  is_ready_idle none = false
  is_ready_idle (some t) = t.is_idle && is_ready t.state

  -- `run_tasks` after the bootstrap context resumes: is the idle task removed?
  abbrev pub is_removing : Scheduler Space → Option ℕ → Bool
  is_removing s none = false
  is_removing s (some index) = is_none s.current && is_ready_idle (slot s.tasks index)

  pub remove_idle_at : Scheduler Space → Option ℕ → Scheduler Space
  remove_idle_at s none = s
  remove_idle_at s (some index) =
      if is_removing s (some index)
      then record s { idle_index = none; tasks = fill index none s.tasks }
      else s

  pub remove_idle : Scheduler Space → Scheduler Space
  unfolding remove_idle_at
  remove_idle s = remove_idle_at s s.idle_index
