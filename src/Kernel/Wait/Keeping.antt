-- ===== src/Kernel/Wait/Keeping.antt =====
-- Waiting for a child (tasking/scheduler.rs) keeps the scheduler valid and the tables in agreement
-- with the pipes.
use leaf_os_alpha.Base.{
  ℕ, sym, subst, Bool, Option, none, some, Result, ok, err, slot, Bool-cases, inl, inr,
}
use leaf_os_alpha.Scheduler.Task.{Task, blocked, SchedulerError}
use leaf_os_alpha.Scheduler.Ops.{Outcome}
use leaf_os_alpha.Scheduler.Lifecycle.{find_task, terminated_child}
use leaf_os_alpha.Scheduler.Switch.{remove_idle}
use leaf_os_alpha.Scheduler.Switch.Group.{Fits}
use leaf_os_alpha.Scheduler.Switch.Valid.{
  then_Fits, save_current_user_rsp-Fits, transition_current-Fits,
}
use leaf_os_alpha.Scheduler.Switch.Installing.{remove_idle-IsValid, remove_idle-cases}
use leaf_os_alpha.Kernel.Table.{close_all}
use leaf_os_alpha.Kernel.Calls.{Kernel, Reply, found_table, reap}
use leaf_os_alpha.Kernel.Calls.Consistent.{
  IsConsistent, updated-IsConsistent, removed-IsConsistent, kernel,
}
use leaf_os_alpha.Kernel.Calls.Opening.{reap-keeps}
use leaf_os_alpha.Kernel.Wait.{
  Waited, ends_wait, wait_reaped, wait_ended, wait_blocked, wait_found, not_waitable, wait_task,
  wait_current, wait_pass, finish_tasks,
}

module _ {Space Disk : Type 0} (k : Kernel Space Disk) (c : IsConsistent k) where
  module _ (destroy : Space → Bool × Space) (rsp : ℕ) where
    wait_reaped-keeps :
        (id : ℕ) (code : Option ℕ) (r : Reply Space Disk (Unit {0}))
        → IsConsistent r.1
        → IsConsistent (wait_reaped id code r).1
    unfolding wait_reaped
    wait_reaped-keeps id code (ok x, k') v = v
    wait_reaped-keeps id code (err e, k') v = v

    wait_ended-keeps :
        (id : ℕ) (o : Option (Task Space)) → IsConsistent (wait_ended destroy k id o).1
    unfolding wait_ended
    wait_ended-keeps id none = c
    wait_ended-keeps id (some t) =
        wait_reaped-keeps id t.exit_code (reap destroy k id) (reap-keeps k c destroy id)

    wait_blocked-keeps :
        (current : ℕ) (r : Outcome Space ℕ)
        → Fits k.scheduler r.1
        → IsConsistent (wait_blocked k current r).1
    unfolding wait_blocked
    wait_blocked-keeps current (err e, s) (v, q) =
        updated-IsConsistent k s k.store v q c.linked.agrees c
    wait_blocked-keeps current (ok id, s) (v, q) =
        updated-IsConsistent k s k.store v q c.linked.agrees c

    wait_found-keeps :
        (current : ℕ) (child : Option ℕ) (r : Result ℕ SchedulerError)
        → IsConsistent (wait_found destroy rsp k current child r).1
    unfolding wait_found
    wait_found-keeps current child (ok id) = wait_ended-keeps id (find_task k.scheduler id)
    wait_found-keeps current child (err e) = elim (Bool-cases (ends_wait child e)) [
      | inl q ↦ rw q c
      | inr q ↦ rw q (
          wait_blocked-keeps current _ (
            then_Fits k.scheduler _ _ (save_current_user_rsp-Fits rsp current k.scheduler c.valid)
              (transition_current-Fits _ blocked (λ p. cc) (λ p. cc))))
    ]

    wait_task-keeps :
        (current : ℕ) (child : Option ℕ) (o : Option (Task Space))
        → IsConsistent (wait_task destroy rsp k current child o).1
    unfolding wait_task
    wait_task-keeps current child none = c
    wait_task-keeps current child (some t) = checked (not_waitable k.scheduler t.id child)
      where
        checked :
            (o : Option SchedulerError)
            → IsConsistent
                (elim o as (λ x. Waited × Kernel Space Disk) [
                  | none ↦
                      wait_found destroy rsp k current child
                        (terminated_child k.scheduler t.id child)
                  | some e ↦ (Waited.done (err e), k)
                ]).1
        checked none = wait_found-keeps current child (terminated_child k.scheduler t.id child)
        checked (some e) = c

    wait_current-keeps : (child o : Option ℕ) → IsConsistent (wait_current destroy rsp k child o).1
    unfolding wait_current
    wait_current-keeps child none = c
    wait_current-keeps child (some current) =
        wait_task-keeps current child (slot k.scheduler.tasks current)

    pub wait_pass-keeps : (child : Option ℕ) → IsConsistent (wait_pass destroy rsp k child).1
    unfolding wait_pass
    wait_pass-keeps child = wait_current-keeps child k.scheduler.current

  pub finish_tasks-keeps : IsConsistent (finish_tasks k)
  unfolding finish_tasks
  finish_tasks-keeps = elim (remove_idle-cases k.scheduler) [
    | inl (q, same) ↦ rw q (subst (λ s. IsConsistent (kernel s k.store)) (sym same) c)
    | inr (i, at, q, freed) ↦ rw q (
        subst
          (λ o. IsConsistent (
            kernel (remove_idle k.scheduler) (close_all k.store (found_table o k.scheduler.tasks))))
          (sym at)
          (removed-IsConsistent k (remove_idle k.scheduler) i
            (remove_idle-IsValid k.scheduler c.valid) freed c))
  ]
