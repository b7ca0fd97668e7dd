-- ===== src/Kernel/Spawn/Keeping.antt =====
-- Spawning a user task (tasking/scheduler.rs) keeps the scheduler valid and the tables in agreement
-- with the pipes, whether it succeeds or not.

use leaf_os_alpha.Base.{
  ℕ, ◌+◌, ◌≡◌, ◌<◌, refl, sym, ap, subst, ◌∙◌, Bool, true, false, ◌&&◌, Option, none, some, List,
  arith, leb, ltb, length, length-map, is_none, number, position, slot, fill_back, Bool-cases, inl,
  inr, Result, ok, err, word,
}
use leaf_os_alpha.Fd.{Store}
use leaf_os_alpha.Scheduler.Task.{Task, SchedulerError, full, UserContext, UserContextError}
use leaf_os_alpha.Scheduler.Ops.{has_id}
use leaf_os_alpha.Scheduler.Ops.Tables.{fds_of, tables, tables-fill, slot-tables}
use leaf_os_alpha.Scheduler.Lifecycle.{
  NewStack, create_task_stack, check_task_capacity, current_task,
}
use leaf_os_alpha.Scheduler.Lifecycle.Creation.{inserted-IsValid, check_task_capacity-ok}
use leaf_os_alpha.Kernel.Table.{Table, FdMapping}
use leaf_os_alpha.Kernel.Table.Live.{all_held, close_all-agrees}
use leaf_os_alpha.Kernel.Table.Inherit.{IsHeld, Kept, inherit_fds-Kept}
use leaf_os_alpha.Kernel.Table.Linked.{IsLinked, put_back, cloned_out, initial-IsHeld}
use leaf_os_alpha.Kernel.Calls.{Kernel}
use leaf_os_alpha.Kernel.Calls.Consistent.{IsConsistent, updated-IsConsistent, all_fds}
use leaf_os_alpha.Kernel.Spawn.{
  table_at, parent_table, first_table, place_user, take_space, create_user_at, create_user_task,
  finish_spawn, spawn_checked, spawn_user,
}

module _ {Space : Type 0} where
  -- A parent's table is one of the tables.
  parent_table-some :
      (tasks : List (Option (Task Space))) (parent : Option ℕ) (fds : Table)
      → parent_table tasks parent ≡ some fds
      → (j : ℕ) × (slot (tables tasks) j ≡ some fds)
  parent_table-some tasks none fds e = cc
  parent_table-some tasks (some id) fds e = found (position (has_id id) tasks) e
    where
      found :
          (o : Option ℕ)
          → table_at o tasks ≡ some fds
          → (j : ℕ) × (slot (tables tasks) j ≡ some fds)
      found none e = cc
      found (some j) e = (j, slot-tables j tasks ∙ e)

module _ {Space Disk : Type 0} (k : Kernel Space Disk) (c : IsConsistent k) where
  first_table-IsHeld :
      (o : Option Table)
      → ((fds : Table) → o ≡ some fds → (j : ℕ) × (slot (tables k.scheduler.tasks) j ≡ some fds))
      → IsHeld (first_table k.store o).1 (first_table k.store o).0 (all_fds k)
  unfolding first_table
  first_table-IsHeld none find = initial-IsHeld k.store (all_fds k) c.linked.agrees
  first_table-IsHeld (some fds) find =
      let (j, at) = find fds refl in cloned_out (tables k.scheduler.tasks) k.store j fds at c.linked

  place_user-keeps :
      (space : Space) (context : UserContext) (parent : Option ℕ) (stack : NewStack) (i : ℕ)
      (r : Bool × Table × Store Disk)
      → i < length k.scheduler.tasks
      → slot k.scheduler.tasks i ≡ none
      → k.scheduler.next_id + 1 < word
      → Kept (all_fds k) r
      → IsConsistent (place_user k space context parent stack i r).2
  unfolding place_user
  place_user-keeps space context parent stack i (false, fds, s) h free w v =
      updated-IsConsistent k k.scheduler _ c.valid refl
        (close_all-agrees fds s _ (all_fds k) (λ p. refl) v.agrees) c
  place_user-keeps space context parent stack i (true, fds, s) h free w v = record {
    valid = inserted-IsValid k.scheduler i _ c.valid h free refl refl refl w;
    linked = subst (IsLinked s) (sym (tables-fill i (some _) k.scheduler.tasks)) (
        put_back tabs k.store s i fds
          (subst (λ n. i < n) (sym (length-map fds_of k.scheduler.tasks)) h) c.linked
          (subst (λ l. IsHeld s fds (all_held l))
            (sym (fill_back i none tabs (slot-tables i k.scheduler.tasks ∙ ap fds_of free))) v));
  }
    where
      tabs : List (Option Table)
      tabs = tables k.scheduler.tasks

  take_space-keeps :
      (space : Option Space) (context : UserContext) (parent : Option ℕ) (ms : List FdMapping)
      (ns : List ℕ) (i : ℕ) (stack : Result NewStack SchedulerError)
      → i < length k.scheduler.tasks
      → slot k.scheduler.tasks i ≡ none
      → k.scheduler.next_id + 1 < word
      → IsConsistent (take_space k space context parent ms ns i stack).2
  unfolding take_space
  take_space-keeps space context parent ms ns i (err e) h free w = c
  take_space-keeps none context parent ms ns i (ok stack) h free w = c
  take_space-keeps (some space) context parent ms ns i (ok stack) h free w =
      place_user-keeps space context parent stack i _ h free w (
        inherit_fds-Kept (all_fds k) _ _ ms ns (
          first_table-IsHeld (parent_table k.scheduler.tasks parent)
            (parent_table-some k.scheduler.tasks parent)))

  create_user_at-keeps :
      (space : Option Space) (context : UserContext) (parent : Option ℕ) (ms : List FdMapping)
      (ns : List ℕ) (trampoline base : ℕ) (r : Result ℕ SchedulerError)
      → check_task_capacity k.scheduler ≡ r
      → IsConsistent (create_user_at k space context parent ms ns trampoline base r).2
  unfolding create_user_at
  create_user_at-keeps space context parent ms ns trampoline base (err e) q = c
  create_user_at-keeps space context parent ms ns trampoline base (ok i) q =
      elim (Bool-cases (ltb (k.scheduler.next_id + 1) word)) [
        | inl w ↦
            let (h, free) = check_task_capacity-ok k.scheduler i q in
            rw w (
              take_space-keeps space context parent ms ns i (create_task_stack trampoline base) h
                free (ground arith))
        | inr w ↦ rw w c
      ]

  pub create_user_task-keeps :
      (space : Option Space) (context : UserContext) (parent : Option ℕ) (ms : List FdMapping)
      (ns : List ℕ) (trampoline base : ℕ)
      → IsConsistent (create_user_task k space context parent ms ns trampoline base).2
  unfolding create_user_task
  create_user_task-keeps space context parent ms ns trampoline base =
      create_user_at-keeps space context parent ms ns trampoline base
        (check_task_capacity k.scheduler) refl

  module _ (destroy : Space → Bool × Space) where
    finish_spawn-keeps :
        (r : Result ℕ SchedulerError × Option Space × Kernel Space Disk)
        → IsConsistent r.2
        → IsConsistent (finish_spawn destroy r).2
    unfolding finish_spawn
    finish_spawn-keeps (ok id, space, k') v = v
    finish_spawn-keeps (err e, space, k') v = v

    spawn_checked-keeps :
        (space : Space) (ms : List FdMapping) (ns : List ℕ) (trampoline base : ℕ)
        (r : Result UserContext UserContextError)
        → IsConsistent (spawn_checked destroy k space ms ns trampoline base r).2
    unfolding spawn_checked
    spawn_checked-keeps space ms ns trampoline base (err e) = c
    spawn_checked-keeps space ms ns trampoline base (ok context) =
        elim (Bool-cases
          (is_none k.scheduler.idle_index && leb (number is_none k.scheduler.tasks) 1)) [
            | inl e ↦ rw e (finish_spawn-keeps (err full, some space, k) c)
            | inr e ↦ rw e (
                finish_spawn-keeps
                  (create_user_task k (some space) context (current_task k.scheduler) ms ns
                    trampoline base)
                  (create_user_task-keeps (some space) context (current_task k.scheduler) ms ns
                    trampoline base))
          ]

    pub spawn_user-keeps :
        (check : Space → Result UserContext UserContextError) (space : Space) (ms : List FdMapping)
        (ns : List ℕ) (trampoline base : ℕ)
        → IsConsistent (spawn_user destroy check k space ms ns trampoline base).2
    unfolding spawn_user
    spawn_user-keeps check space ms ns trampoline base =
        spawn_checked-keeps space ms ns trampoline base (check space)
