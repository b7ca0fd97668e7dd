-- ===== src/Kernel/Spawn.antt =====
-- tasking/scheduler.rs: `create_user_task` and `spawn_user_with_arguments_and_fds`.
pub mod Keeping
pub mod Destroyed
use mathlib.Core.Option
use leaf_os_alpha.Base.{
  ℕ, ◌+◌, Bool, true, false, ◌&&◌, Option, none, some, List, [], ◌∷◌, if◌then◌else◌, ltb, leb,
  is_none, position, slot, number, Result, ok, err, word,
}
use leaf_os_alpha.Fd.{Store, initial_table}
use leaf_os_alpha.Scheduler.Task.{
  Task, SchedulerError, full, task_id_exhausted, invalid_context, invalid_fd, invalid_user_context,
  address_space_cleanup, UserContext, UserContextError, UserTask,
}
use leaf_os_alpha.Scheduler.Ops.{put_task, has_id}
use leaf_os_alpha.Scheduler.Lifecycle.{
  NewStack, create_task_stack, check_task_capacity, new_task, current_task,
}
use leaf_os_alpha.Kernel.Table.{Table, FdMapping, clone_all, close_all, inherit_fds}
use leaf_os_alpha.Kernel.Calls.{Kernel, with_store}

-- What is left in the caller's `Option<AddressSpace>`, with the result and the kernel.
abbrev pub Spawned : Type 0 → Type 0 → Type 0
Spawned Space Disk = Result ℕ SchedulerError × Option Space × Kernel Space Disk

module _ {Space : Type 0} where
  -- The table that a child gets to begin with: its parent's, if there is such a task.
  abbrev pub table_at : Option ℕ → List (Option (Task Space)) → Option Table
  table_at none tasks = none
  table_at (some i) tasks = Option.map (λ (t : Task Space). t.fds) (slot tasks i)

  abbrev pub parent_table : List (Option (Task Space)) → Option ℕ → Option Table
  parent_table tasks none = none
  parent_table tasks (some parent) = table_at (position (has_id parent) tasks) tasks

module _ {Disk : Type 0} where
  pub first_table : Store Disk → Option Table → Table × Store Disk
  first_table s none = (initial_table, s)
  first_table s (some fds) = (fds, clone_all s fds)

module _ {Space Disk : Type 0} where
  -- The task is put into the free slot; on an invalid descriptor the new table is dropped, and the
  -- address space with it.
  pub place_user :
      Kernel Space Disk
      → Space
      → UserContext
      → Option ℕ
      → NewStack
      → ℕ
      → Bool × Table × Store Disk
      → Spawned Space Disk
  place_user k space context parent stack i (false, fds, s) =
      (err invalid_fd, none, with_store k (close_all s fds))
  place_user k space context parent stack i (true, fds, s) =
      let id = k.scheduler.next_id in
      let user : UserTask Space = record {
        address_space = space;
        context = context;
        syscall_user_rsp = 0;
      } in
      let t : Task Space =
        new_task id stack.context parent none (some user) (some stack.words) (some stack.top) in
      (
        ok id,
        none,
        record {
          scheduler = record (put_task i (record t { fds = fds }) k.scheduler) { next_id = id + 1 };
          store = s;
        },
      )

  pub take_space :
      Kernel Space Disk
      → Option Space
      → UserContext
      → Option ℕ
      → List FdMapping
      → List ℕ
      → ℕ
      → Result NewStack SchedulerError
      → Spawned Space Disk
  unfolding place_user first_table
  take_space k space context parent mappings closes i (err e) = (err e, space, k)
  take_space k none context parent mappings closes i (ok stack) = (err invalid_context, none, k)
  take_space k (some space) context parent mappings closes i (ok stack) =
      let (fds, s) = first_table k.store (parent_table k.scheduler.tasks parent) in
      place_user k space context parent stack i (inherit_fds s fds mappings closes)

  pub create_user_at :
      Kernel Space Disk
      → Option Space
      → UserContext
      → Option ℕ
      → List FdMapping
      → List ℕ
      → ℕ
      → ℕ
      → Result ℕ SchedulerError
      → Spawned Space Disk
  unfolding take_space
  create_user_at k space context parent mappings closes trampoline base (err e) = (err e, space, k)
  create_user_at k space context parent mappings closes trampoline base (ok i) =
      if ltb (k.scheduler.next_id + 1) word
      then take_space k space context parent mappings closes i (create_task_stack trampoline base)
      else (err task_id_exhausted, space, k)

  -- `trampoline` and `base` as for `create_task_stack`.
  pub create_user_task :
      Kernel Space Disk
      → Option Space
      → UserContext
      → Option ℕ
      → List FdMapping
      → List ℕ
      → ℕ
      → ℕ
      → Spawned Space Disk
  unfolding create_user_at
  create_user_task k space context parent mappings closes trampoline base =
      create_user_at k space context parent mappings closes trampoline base
        (check_task_capacity k.scheduler)

-- `AddressSpace::destroy` tells whether it succeeded, and what it leaves, which is dropped.
module _ {Space : Type 0} (destroy : Space → Bool × Space) where
  -- `destroy_unspawned_address_space`, then the error; with it stand the spaces that `destroy` took apart
  -- with success.
  pub give_up : SchedulerError → Option Space → Result ℕ SchedulerError × List Space
  give_up e none = (err e, [])
  give_up e (some space) =
      if (destroy space).0 then (err e, space ∷ []) else (err address_space_cleanup, [])

module _ {Space Disk : Type 0} (destroy : Space → Bool × Space) where
  pub finish_spawn : Spawned Space Disk → Result ℕ SchedulerError × List Space × Kernel Space Disk
  unfolding give_up
  finish_spawn (ok id, space, k) = (ok id, [], k)
  finish_spawn (err e, space, k) = let (r, destroyed) = give_up destroy e space in (r, destroyed, k)

  pub spawn_checked :
      Kernel Space Disk
      → Space
      → List FdMapping
      → List ℕ
      → ℕ
      → ℕ
      → Result UserContext UserContextError
      → Result ℕ SchedulerError × List Space × Kernel Space Disk
  unfolding finish_spawn give_up
  spawn_checked k space mappings closes trampoline base (err e) =
      let (r, destroyed) = give_up destroy (invalid_user_context e) (some space) in
      (r, destroyed, k)
  spawn_checked k space mappings closes trampoline base (ok context) =
      let s = k.scheduler in
      let created =
        create_user_task k (some space) context (current_task s) mappings closes trampoline base in
      finish_spawn (
        if is_none s.idle_index && leb (number is_none s.tasks) 1
        then (err full, some space, k)
        else created)

  -- `check` is `UserContext::for_address_space_with_arguments` for the entry, stack and arguments.
  -- The spaces that were destroyed with success stand with the result.
  pub spawn_user :
      (Space → Result UserContext UserContextError)
      → Kernel Space Disk
      → Space
      → List FdMapping
      → List ℕ
      → ℕ
      → ℕ
      → Result ℕ SchedulerError × List Space × Kernel Space Disk
  unfolding spawn_checked
  spawn_user check k space mappings closes trampoline base =
      spawn_checked k space mappings closes trampoline base (check space)
