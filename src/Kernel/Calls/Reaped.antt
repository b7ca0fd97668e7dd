-- ===== src/Kernel/Calls/Reaped.antt =====
-- What a reaped task leaves behind (tasking/scheduler.rs).
use leaf_os_alpha.Base.{
  ℕ, ◌≡◌, ◌≢◌, refl, ap, ◌∙◌, Bool, Option, none, some, ok, err, position, slot, fill,
}
use leaf_os_alpha.Scheduler.Task.{Task, terminated}
use leaf_os_alpha.Scheduler.Ops.{Outcome, has_id}
use leaf_os_alpha.Scheduler.Lifecycle.{reap_terminated}
use leaf_os_alpha.Scheduler.Ops.Tables.{tables}
use leaf_os_alpha.Scheduler.Lifecycle.Tables.{Frees, reap_terminated-Frees}
use leaf_os_alpha.Scheduler.Lifecycle.Leaving.{Leaves, reap_terminated-Leaves}
use leaf_os_alpha.Kernel.Table.{close_all}
use leaf_os_alpha.Kernel.Calls.{Kernel, Reply, found_table, table_of, drop_reaped, reap}

module _ {Space Disk : Type 0} where
  -- The task with the id had ended and was not current; its slot is free, its descriptors are closed,
  -- and there is no other change: no other task is woken.
  abbrev pub IsReaped : ℕ → Kernel Space Disk → Kernel Space Disk → Type 0
  IsReaped id k k' =
      (i : ℕ) × (t : Task Space) × (slot k.scheduler.tasks i ≡ some t)
      × (t.id ≡ id)
      × (t.state ≡ terminated)
      × (k.scheduler.current ≢ some i)
      × (k'.scheduler ≡ record k.scheduler { tasks = fill i none k.scheduler.tasks })
      × (k'.store ≡ close_all k.store t.fds)

  -- An error changes neither the store nor a table.
  abbrev pub Reaps : ℕ → Kernel Space Disk → Reply Space Disk (Unit {0}) → Type 0
  Reaps id k (ok x, k') = IsReaped id k k'
  Reaps id k (err e, k') =
      (k'.store ≡ k.store) × (tables k'.scheduler.tasks ≡ tables k.scheduler.tasks)

  dropped :
      (k : Kernel Space Disk) (id : ℕ) (o : Option ℕ) (r : Outcome Space (Unit {0}))
      → Leaves k.scheduler id o r
      → Frees k.scheduler o r
      → Reaps id k (drop_reaped k (found_table o k.scheduler.tasks) r)
  unfolding drop_reaped
  dropped k id o (err e, s) l same = (refl, same)
  dropped k id none (ok x, s) (i, t, f, at, same, ended, other, left) fr = cc
  dropped k id (some j) (ok x, s) (i, t, f, at, same, ended, other, left) fr =
      let ji : j ≡ i = cc in
      (
        i,
        t,
        at,
        same,
        ended,
        other,
        left,
        ap (λ o. close_all k.store (table_of o)) (ap (slot k.scheduler.tasks) ji ∙ at),
      )

  -- A reap that succeeds removes the task with the given id, which had ended and was not current: it
  -- frees its slot and closes every descriptor of its table, and leaves all else in the scheduler as
  -- it was. So a task that is blocked on a pipe, whose last other end is closed in this way, is not
  -- woken. A reap that fails leaves the store and all tables.
  pub reap-Reaps :
      (destroy : Space → Bool × Space) (k : Kernel Space Disk) (id : ℕ)
      → Reaps id k (reap destroy k id)
  unfolding reap
  reap-Reaps destroy k id =
      dropped k id (position (has_id id) k.scheduler.tasks) (reap_terminated destroy k.scheduler id)
        (reap_terminated-Leaves destroy k.scheduler id)
        (reap_terminated-Frees destroy k.scheduler id)
