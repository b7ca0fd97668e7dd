-- ===== src/Kernel/Wait.antt =====
-- tasking/scheduler.rs: `wait_for_child`, and `run_tasks` after the tasks have ended.
pub mod Keeping
use leaf_os_alpha.Base.{
  ℕ, Bool, true, false, Option, none, some, if◌then◌else◌, Result, ok, err, slot,
}
use leaf_os_alpha.Scheduler.Task.{
  Task, blocked, SchedulerError, not_started, unknown_task, child_running, not_child, Scheduler,
}
use leaf_os_alpha.Scheduler.Ops.{Outcome, holds, transition_current}
use leaf_os_alpha.Scheduler.Lifecycle.{find_task, terminated_child}
use leaf_os_alpha.Scheduler.Switch.{
  Handover, failed, hand_over, save_current_user_rsp, is_removing, remove_idle,
}
use leaf_os_alpha.Kernel.Table.{close_all}
use leaf_os_alpha.Kernel.Calls.{Kernel, Reply, found_table, reap}

-- A pass of the loop returns, or hands the processor over and the loop goes round.
pub data Waited : Type 0 where
  done : Result (ℕ × Option ℕ) SchedulerError → Waited
  hands_over : Handover → Waited

-- Does the error of `terminated_child` end the wait?
pub ends_wait : Option ℕ → SchedulerError → Bool
ends_wait child child_running = false
ends_wait none unknown_task = false
ends_wait child e = true

module _ {Space : Type 0} where
  -- The check that a child that is named is one.
  pub not_waitable : Scheduler Space → ℕ → Option ℕ → Option SchedulerError
  not_waitable s parent none = none
  not_waitable s parent (some id) = elim (find_task s id) [
    | none ↦ some unknown_task
    | some t ↦ if holds t.parent parent then none else some not_child
  ]

module _ {Space Disk : Type 0} where
  pub wait_reaped : ℕ → Option ℕ → Reply Space Disk (Unit {0}) → Waited × Kernel Space Disk
  wait_reaped child_id exit_code (ok x, k) = (done (ok (child_id, exit_code)), k)
  wait_reaped child_id exit_code (err e, k) = (done (err e), k)

  pub wait_ended :
      (Space → Bool × Space)
      → Kernel Space Disk
      → ℕ
      → Option (Task Space)
      → Waited × Kernel Space Disk
  unfolding wait_reaped
  wait_ended destroy k child_id none = (done (err unknown_task), k)
  wait_ended destroy k child_id (some t) =
      wait_reaped child_id t.exit_code (reap destroy k child_id)

  pub wait_blocked : Kernel Space Disk → ℕ → Outcome Space ℕ → Waited × Kernel Space Disk
  wait_blocked k current (err e, s) = (done (err e), record k { scheduler = s })
  wait_blocked k current (ok id, s) =
      (hands_over (hand_over (failed unknown_task) s current), record k { scheduler = s })

  pub wait_found :
      (Space → Bool × Space)
      → ℕ
      → Kernel Space Disk
      → ℕ
      → Option ℕ
      → Result ℕ SchedulerError
      → Waited × Kernel Space Disk
  unfolding wait_ended wait_blocked ends_wait
  wait_found destroy rsp k current child (ok child_id) =
      wait_ended destroy k child_id (find_task k.scheduler child_id)
  wait_found destroy rsp k current child (err e) =
      if ends_wait child e
      then (done (err e), k)
      else wait_blocked k current
          (transition_current (save_current_user_rsp rsp k.scheduler current) blocked)

  pub wait_task :
      (Space → Bool × Space)
      → ℕ
      → Kernel Space Disk
      → ℕ
      → Option ℕ
      → Option (Task Space)
      → Waited × Kernel Space Disk
  unfolding wait_found not_waitable
  wait_task destroy rsp k current child none = (done (err unknown_task), k)
  wait_task destroy rsp k current child (some t) = elim (not_waitable k.scheduler t.id child) [
    | none ↦ wait_found destroy rsp k current child (terminated_child k.scheduler t.id child)
    | some e ↦ (done (err e), k)
  ]

  pub wait_current :
      (Space → Bool × Space)
      → ℕ
      → Kernel Space Disk
      → Option ℕ
      → Option ℕ
      → Waited × Kernel Space Disk
  unfolding wait_task
  wait_current destroy rsp k child none = (done (err not_started), k)
  wait_current destroy rsp k child (some current) =
      wait_task destroy rsp k current child (slot k.scheduler.tasks current)

  -- A pass of the loop of `wait_for_child`; `rsp` is `arch::syscall::user_rsp()`.
  pub wait_pass :
      (Space → Bool × Space) → ℕ → Kernel Space Disk → Option ℕ → Waited × Kernel Space Disk
  unfolding wait_current
  wait_pass destroy rsp k child = wait_current destroy rsp k child k.scheduler.current

  -- `run_tasks` after the bootstrap context resumes, with the drop of the idle task.
  pub finish_tasks : Kernel Space Disk → Kernel Space Disk
  finish_tasks k =
      let s = k.scheduler in
      record {
        scheduler = remove_idle s;
        store =
            if is_removing s s.idle_index
            then close_all k.store (found_table s.idle_index s.tasks)
            else k.store;
      }
