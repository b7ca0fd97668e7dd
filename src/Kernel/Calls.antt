-- ===== src/Kernel/Calls.antt =====
-- tasking/scheduler.rs: the calls of the running task on its descriptors. The lock makes each call
-- one step, and what it drops is closed.
pub mod Consistent
pub mod Keeping
pub mod Reaped
pub mod Opening
use leaf_os_alpha.Base.{
  ℕ, ◌+◌, Bool, true, false, ◌||◌, Option, none, some, List, [], ◌∷◌, if◌then◌else◌, ◌==◌, leb,
  is_some, position, slot, fill, Result, ok, err,
}
use leaf_os_alpha.Fd.{
  FileDescriptor, Store, FileSystem, ReadError, WriteError, max_fds, clone, close, read, write,
  create_pipe, create_file_write, create_file_read,
}
use leaf_os_alpha.Scheduler.Task.{
  Task, Scheduler, SchedulerError, full, not_started, unknown_task, invalid_fd, would_block,
  broken_pipe, io,
}
use leaf_os_alpha.Scheduler.Ops.{put_task, has_id, wake_all_blocked}
use leaf_os_alpha.Scheduler.Lifecycle.{reap_terminated}
use leaf_os_alpha.Kernel.Table.{Table, find_free_fd, find_free_fd_pair, close_entry, close_all}

-- The global scheduler, and what the descriptors in its tables reach.
pub record Kernel (Space Disk : Type 0) : Type 0 where
  pub scheduler : Scheduler Space
  pub store : Store Disk

abbrev pub Reply : Type 0 → Type 0 → Type 0 → Type 0
Reply Space Disk A = Result A SchedulerError × Kernel Space Disk

abbrev pub read_error : ReadError → SchedulerError
read_error ReadError.invalid = invalid_fd
read_error ReadError.would_block = would_block
read_error ReadError.io = io

abbrev pub write_error : WriteError → SchedulerError
write_error WriteError.invalid = invalid_fd
write_error WriteError.would_block = would_block
write_error WriteError.broken_pipe = broken_pipe
write_error WriteError.io = io

abbrev pub map_err {ℓ} : {A : Type ℓ} {E F : Type 0} → (E → F) → Result A E → Result A F
map_err f (ok a) = ok a
map_err f (err e) = err (f e)

module _ {Space : Type 0} where
  abbrev pub current_slot : Option ℕ → List (Option (Task Space)) → Option (Task Space)
  current_slot none tasks = none
  current_slot (some i) tasks = slot tasks i

  -- The table that the drop of a removed task closes.
  abbrev pub table_of : Option (Task Space) → Table
  table_of none = []
  table_of (some t) = t.fds

  abbrev pub found_table : Option ℕ → List (Option (Task Space)) → Table
  found_table none tasks = []
  found_table (some i) tasks = table_of (slot tasks i)

module _ {Space Disk : Type 0} where
  abbrev pub with_store : Kernel Space Disk → Store Disk → Kernel Space Disk
  with_store k s = record k { store = s }

  -- Entry `n` of the table of the task in slot `i`.
  abbrev pub put_fd :
      ℕ → Task Space → ℕ → Option FileDescriptor → Kernel Space Disk → Kernel Space Disk
  put_fd i t n o k = record k {
    scheduler = put_task i (record t { fds = fill n o t.fds }) k.scheduler;
  }

  pub read_entry : Kernel Space Disk → Option FileDescriptor → ℕ → Reply Space Disk (ℕ × List ℕ)
  read_entry k none size = (err invalid_fd, k)
  read_entry k (some d) size =
      let (r, s) = read k.store d size in (map_err read_error r, with_store k s)

  pub read_task : Kernel Space Disk → Option (Task Space) → ℕ → ℕ → Reply Space Disk (ℕ × List ℕ)
  unfolding read_entry
  read_task k none n size = (err not_started, k)
  read_task k (some t) n size = read_entry k (slot t.fds n) size

  pub read_current_fd : Kernel Space Disk → ℕ → ℕ → Reply Space Disk (ℕ × List ℕ)
  unfolding read_task
  read_current_fd k n size = read_task k (current_slot k.scheduler.current k.scheduler.tasks) n size

  pub pipe_at :
      Kernel Space Disk
      → ℕ
      → Task Space
      → FileDescriptor
      → FileDescriptor
      → Option (ℕ × ℕ)
      → Reply Space Disk (ℕ × ℕ)
  pipe_at k i t reader writer none = (err full, with_store k (close (close k.store writer) reader))
  pipe_at k i t reader writer (some (a, b)) = (
    ok (a, b),
    record k {
      scheduler =
          put_task i (record t { fds = fill b (some writer) (fill a (some reader) t.fds) })
            k.scheduler;
    },
  )

  pub pipe_task :
      Kernel Space Disk
      → ℕ
      → Option (Task Space)
      → FileDescriptor
      → FileDescriptor
      → Reply Space Disk (ℕ × ℕ)
  unfolding pipe_at
  pipe_task k i none reader writer =
      (err unknown_task, with_store k (close (close k.store writer) reader))
  pipe_task k i (some t) reader writer = pipe_at k i t reader writer (find_free_fd_pair t.fds)

  pub pipe_current :
      Kernel Space Disk → Option ℕ → FileDescriptor → FileDescriptor → Reply Space Disk (ℕ × ℕ)
  unfolding pipe_task
  pipe_current k none reader writer =
      (err not_started, with_store k (close (close k.store writer) reader))
  pipe_current k (some i) reader writer = pipe_task k i (slot k.scheduler.tasks i) reader writer

  pub create_pipe_for_current : Kernel Space Disk → Reply Space Disk (ℕ × ℕ)
  unfolding pipe_current
  create_pipe_for_current k =
      let (reader, writer, s) = create_pipe k.store in
      pipe_current (with_store k s) k.scheduler.current reader writer

  pub close_taken :
      Kernel Space Disk → ℕ → Task Space → ℕ → Option FileDescriptor → Reply Space Disk (Unit {0})
  close_taken k i t n none = (err invalid_fd, k)
  close_taken k i t n (some d) =
      let k' = put_fd i t n none k in
      (ok tt, record { scheduler = wake_all_blocked k'.scheduler; store = close k.store d })

  pub close_task : Kernel Space Disk → ℕ → Option (Task Space) → ℕ → Reply Space Disk (Unit {0})
  unfolding close_taken
  close_task k i none n = (err invalid_fd, k)
  close_task k i (some t) n = close_taken k i t n (slot t.fds n)

  pub close_current : Kernel Space Disk → Option ℕ → ℕ → Reply Space Disk (Unit {0})
  unfolding close_task
  close_current k none n = (err not_started, k)
  close_current k (some i) n = close_task k i (slot k.scheduler.tasks i) n

  pub close_current_fd : Kernel Space Disk → ℕ → Reply Space Disk (Unit {0})
  unfolding close_current
  close_current_fd k n = close_current k k.scheduler.current n

  pub duplicate_entry :
      Kernel Space Disk → ℕ → Task Space → ℕ → Option FileDescriptor → Reply Space Disk (Unit {0})
  duplicate_entry k i t target none = (err invalid_fd, k)
  duplicate_entry k i t target (some d) =
      let k' = put_fd i t target (some d) k in
      (ok tt, with_store k' (close_entry (clone k.store d) (slot t.fds target)))

  pub duplicate_task :
      Kernel Space Disk → ℕ → Option (Task Space) → ℕ → ℕ → Reply Space Disk (Unit {0})
  unfolding duplicate_entry
  duplicate_task k i none source target = (err invalid_fd, k)
  duplicate_task k i (some t) source target =
      if source == target
      then (if is_some (slot t.fds source) then (ok tt, k) else (err invalid_fd, k))
      else duplicate_entry k i t target (slot t.fds source)

  pub duplicate_current : Kernel Space Disk → Option ℕ → ℕ → ℕ → Reply Space Disk (Unit {0})
  unfolding duplicate_task
  duplicate_current k none source target = (err not_started, k)
  duplicate_current k (some i) source target =
      duplicate_task k i (slot k.scheduler.tasks i) source target

  pub duplicate_current_fd : Kernel Space Disk → ℕ → ℕ → Reply Space Disk (Unit {0})
  unfolding duplicate_current
  duplicate_current_fd k source target =
      if leb max_fds source || leb max_fds target
      then (err invalid_fd, k)
      else duplicate_current k k.scheduler.current source target

  pub drop_reaped :
      Kernel Space Disk
      → Table
      → Result (Unit {0}) SchedulerError × Scheduler Space
      → Reply Space Disk (Unit {0})
  drop_reaped k fds (ok x, s) = (ok x, record { scheduler = s; store = close_all k.store fds })
  drop_reaped k fds (err e, s) = (err e, record k { scheduler = s })

  -- `reap_terminated` with the drop of the task that it removes.
  pub reap : (Space → Bool × Space) → Kernel Space Disk → ℕ → Reply Space Disk (Unit {0})
  unfolding drop_reaped
  reap destroy k id =
      let s = k.scheduler in
      drop_reaped k (found_table (position (has_id id) s.tasks) s.tasks)
        (reap_terminated destroy s id)

-- The calls that open files. The lock is released while the file is opened, with interrupts off, so
-- the scheduler is the same before and after.
module _ {Space Disk : Type 0} where
  pub place_file : Kernel Space Disk → ℕ → Task Space → ℕ → FileDescriptor → Reply Space Disk ℕ
  place_file k i t n d =
      if is_some (slot t.fds n)
      then (err full, with_store k (close k.store d))
      else (ok n, put_fd i t n (some d) k)

  pub opened_file :
      Kernel Space Disk
      → ℕ
      → Task Space
      → ℕ
      → Result FileDescriptor (Unit {0}) × Store Disk
      → Reply Space Disk ℕ
  unfolding place_file
  opened_file k i t n (err e, s) = (err io, with_store k s)
  opened_file k i t n (ok d, s) = place_file (with_store k s) i t n d

  pub open_at :
      Kernel Space Disk
      → (Store Disk → Result FileDescriptor (Unit {0}) × Store Disk)
      → ℕ
      → Task Space
      → Option ℕ
      → Reply Space Disk ℕ
  unfolding opened_file
  open_at k opens i t none = (err full, k)
  open_at k opens i t (some n) = opened_file k i t n (opens k.store)

  pub open_task :
      Kernel Space Disk
      → (Store Disk → Result FileDescriptor (Unit {0}) × Store Disk)
      → ℕ
      → Option (Task Space)
      → Reply Space Disk ℕ
  unfolding open_at
  open_task k opens i none = (err unknown_task, k)
  open_task k opens i (some t) = open_at k opens i t (find_free_fd t.fds)

  pub open_current :
      Kernel Space Disk
      → (Store Disk → Result FileDescriptor (Unit {0}) × Store Disk)
      → Option ℕ
      → Reply Space Disk ℕ
  unfolding open_task
  open_current k opens none = (err not_started, k)
  open_current k opens (some i) = open_task k opens i (slot k.scheduler.tasks i)

module _ {Space Disk : Type 0} (fs : FileSystem Disk) where
  pub create_file_write_for_current : Kernel Space Disk → List ℕ → Reply Space Disk ℕ
  unfolding open_current
  create_file_write_for_current k path =
      open_current k (λ s. create_file_write fs s path) k.scheduler.current

  pub create_file_read_for_current : Kernel Space Disk → List ℕ → Reply Space Disk ℕ
  unfolding open_current
  create_file_read_for_current k path =
      open_current k (λ s. create_file_read fs s path) k.scheduler.current

  pub write_entry : Kernel Space Disk → Option FileDescriptor → List ℕ → Reply Space Disk ℕ
  write_entry k none input = (err invalid_fd, k)
  write_entry k (some d) input =
      let (r, s) = write fs k.store d input in (map_err write_error r, with_store k s)

  pub write_task : Kernel Space Disk → Option (Task Space) → ℕ → List ℕ → Reply Space Disk ℕ
  unfolding write_entry
  write_task k none n input = (err not_started, k)
  write_task k (some t) n input = write_entry k (slot t.fds n) input

  pub write_current_fd : Kernel Space Disk → ℕ → List ℕ → Reply Space Disk ℕ
  unfolding write_task
  write_current_fd k n input =
      write_task k (current_slot k.scheduler.current k.scheduler.tasks) n input
