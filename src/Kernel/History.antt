-- ===== src/Kernel/History.antt =====
-- Histories of calls of the kernel on its tasks and their descriptors (tasking/scheduler.rs), as
-- interrupts and system calls make them.
use leaf_os_alpha.Base.{ℕ, Bool, ◌≡◌, Option, List, [], ◌∷◌, Result}
use leaf_os_alpha.Fd.{Store, FileSystem}
use leaf_os_alpha.Scheduler.Task.{Scheduler, UserContext, UserContextError, new}
use leaf_os_alpha.Scheduler.Ops.{wake, terminate_task, wake_all_blocked}
use leaf_os_alpha.Scheduler.Ops.States.{
  wake-IsValid, terminate_task-IsValid, wake_all_blocked-IsValid,
}
use leaf_os_alpha.Scheduler.Ops.Tables.{wake_all_blocked-Keeps, wake-Keeps, terminate_task-Keeps}
use leaf_os_alpha.Scheduler.Lifecycle.{spawn_into}
use leaf_os_alpha.Scheduler.Lifecycle.Creation.{spawn_into-IsValid}
use leaf_os_alpha.Scheduler.Lifecycle.Tables.{Adds-Grows, spawn_into-Adds}
use leaf_os_alpha.Scheduler.Switch.{
  yield_now, preempt_from_timer, block_now, sleep_ticks, exit_current, idle_round, run_tasks,
}
use leaf_os_alpha.Scheduler.Switch.Group.{Fits}
use leaf_os_alpha.Scheduler.Switch.Valid.{
  yield_now-Fits, preempt_from_timer-Fits, block_now-Fits, sleep_ticks-Fits, exit_current-Fits,
  idle_round-Fits,
}
use leaf_os_alpha.Scheduler.Switch.Installing.{Starts, run_tasks-Starts}
use leaf_os_alpha.Kernel.Table.{FdMapping}
use leaf_os_alpha.Kernel.Calls.{
  Kernel, read_current_fd, write_current_fd, create_pipe_for_current, close_current_fd,
  duplicate_current_fd, reap, create_file_write_for_current, create_file_read_for_current,
}
use leaf_os_alpha.Kernel.Calls.Consistent.{
  IsConsistent, updated-IsConsistent, grown-IsLinked, new-IsConsistent, kernel,
}
use leaf_os_alpha.Kernel.Calls.Keeping.{
  read_current_fd-keeps, write_current_fd-keeps, close_current_fd-keeps, duplicate_current_fd-keeps,
}
use leaf_os_alpha.Kernel.Calls.Opening.{
  create_pipe_for_current-keeps, create_file_write_for_current-keeps,
  create_file_read_for_current-keeps, reap-keeps,
}
use leaf_os_alpha.Kernel.Spawn.{spawn_user}
use leaf_os_alpha.Kernel.Spawn.Keeping.{spawn_user-keeps}
use leaf_os_alpha.Kernel.Wait.{wait_pass, finish_tasks}
use leaf_os_alpha.Kernel.Wait.Keeping.{wait_pass-keeps, finish_tasks-keeps}

pub data KernelCall (Space : Type 0) : Type 0 where
  creates_pipe finishes wakes_all : KernelCall Space
  yields preempts blocks wakes reaps closes : ℕ → KernelCall Space
  idles terminates reads duplicates : ℕ → ℕ → KernelCall Space
  sleeps runs spawns : ℕ → ℕ → ℕ → KernelCall Space
  exits : ℕ → Option ℕ → Bool → KernelCall Space
  waits : ℕ → Option ℕ → KernelCall Space
  writes : ℕ → List ℕ → KernelCall Space
  opens_write opens_read : List ℕ → KernelCall Space
  spawns_user : Space → List FdMapping → List ℕ → ℕ → ℕ → KernelCall Space

-- `fs` is the file system; `destroy` and `check` are the operations on address spaces.
module _ {Space Disk : Type 0} (fs : FileSystem Disk) (destroy : Space → Bool × Space)
    (check : Space → Result UserContext UserContextError) where
  -- The kernel after a call, whether the call succeeds or not.
  pub step : Kernel Space Disk → KernelCall Space → Kernel Space Disk
  step k creates_pipe = (create_pipe_for_current k).1
  step k finishes = finish_tasks k
  step k wakes_all = record k { scheduler = wake_all_blocked k.scheduler }
  step k (yields rsp) = record k { scheduler = (yield_now rsp k.scheduler).1 }
  step k (preempts now) = record k { scheduler = (preempt_from_timer now k.scheduler).1 }
  step k (blocks rsp) = record k { scheduler = (block_now rsp k.scheduler).1 }
  step k (wakes id) = record k { scheduler = (wake k.scheduler id).1 }
  step k (reaps id) = (reap destroy k id).1
  step k (closes n) = (close_current_fd k n).1
  step k (idles rsp now) = record k { scheduler = (idle_round rsp now k.scheduler).1 }
  step k (terminates id code) = record k { scheduler = (terminate_task k.scheduler id code).1 }
  step k (reads n size) = (read_current_fd k n size).1
  step k (duplicates source target) = (duplicate_current_fd k source target).1
  step k (writes n input) = (write_current_fd fs k n input).1
  step k (opens_write path) = (create_file_write_for_current fs k path).1
  step k (opens_read path) = (create_file_read_for_current fs k path).1
  step k (sleeps rsp now duration) = record k {
    scheduler = (sleep_ticks rsp now duration k.scheduler).1;
  }
  step k (runs trampoline base entry) = record k {
    scheduler = (run_tasks trampoline base entry k.scheduler).1;
  }
  step k (exits rsp code group) = record k {
    scheduler = (exit_current rsp code group k.scheduler).1;
  }
  step k (waits rsp child) = (wait_pass destroy rsp k child).1
  step k (spawns trampoline base entry) = record k {
    scheduler = (spawn_into k.scheduler trampoline base entry).1;
  }
  step k (spawns_user space mappings fd_closes trampoline base) =
      (spawn_user destroy check k space mappings fd_closes trampoline base).2

  pub run : Kernel Space Disk → List (KernelCall Space) → Kernel Space Disk
  run k [] = k
  run k (c ∷ cs) = run (step k c) cs

  module _ (k : Kernel Space Disk) (c : IsConsistent k) where
    -- A call that leaves the tables and the store.
    scheduled : (s : Scheduler Space) → Fits k.scheduler s → IsConsistent (kernel s k.store)
    scheduled s (v, same) = updated-IsConsistent k s k.store v same c.linked.agrees c

    -- A call that may make a task, and leaves the store.
    started : (s : Scheduler Space) → Starts k.scheduler s → IsConsistent (kernel s k.store)
    started s (v, g) = record {
      valid = v;
      linked = grown-IsLinked k.scheduler s k.store g c.linked;
    }

    step-IsConsistent : (call : KernelCall Space) → IsConsistent (step k call)
    unfolding step
    step-IsConsistent creates_pipe = create_pipe_for_current-keeps k c
    step-IsConsistent finishes = finish_tasks-keeps k c
    step-IsConsistent wakes_all =
        scheduled _
          (wake_all_blocked-IsValid k.scheduler c.valid, wake_all_blocked-Keeps k.scheduler)
    step-IsConsistent (yields rsp) = scheduled _ (yield_now-Fits rsp k.scheduler c.valid)
    step-IsConsistent (preempts now) = scheduled _ (preempt_from_timer-Fits now k.scheduler c.valid)
    step-IsConsistent (blocks rsp) = scheduled _ (block_now-Fits rsp k.scheduler c.valid)
    step-IsConsistent (wakes id) =
        scheduled _ (wake-IsValid k.scheduler id c.valid, wake-Keeps k.scheduler id)
    step-IsConsistent (reaps id) = reap-keeps k c destroy id
    step-IsConsistent (closes n) = close_current_fd-keeps k c n
    step-IsConsistent (idles rsp now) = scheduled _ (idle_round-Fits rsp now k.scheduler c.valid)
    step-IsConsistent (terminates id code) = scheduled _ (
      terminate_task-IsValid k.scheduler id code c.valid,
      terminate_task-Keeps k.scheduler id code,
    )
    step-IsConsistent (reads n size) = read_current_fd-keeps k c n size
    step-IsConsistent (duplicates source target) = duplicate_current_fd-keeps k c source target
    step-IsConsistent (writes n input) = write_current_fd-keeps k c fs n input
    step-IsConsistent (opens_write path) = create_file_write_for_current-keeps k c fs path
    step-IsConsistent (opens_read path) = create_file_read_for_current-keeps k c fs path
    step-IsConsistent (sleeps rsp now duration) =
        scheduled _ (sleep_ticks-Fits rsp now duration k.scheduler c.valid)
    step-IsConsistent (runs trampoline base entry) =
        started _ (run_tasks-Starts trampoline base entry k.scheduler c.valid)
    step-IsConsistent (exits rsp code group) =
        scheduled _ (exit_current-Fits rsp code group k.scheduler c.valid)
    step-IsConsistent (waits rsp child) = wait_pass-keeps k c destroy rsp child
    step-IsConsistent (spawns trampoline base entry) = started _ (
      spawn_into-IsValid k.scheduler trampoline base entry c.valid,
      Adds-Grows _ k.scheduler _ (spawn_into-Adds k.scheduler trampoline base entry),
    )
    step-IsConsistent (spawns_user space mappings fd_closes trampoline base) =
        spawn_user-keeps k c destroy check space mappings fd_closes trampoline base

  run-IsConsistent :
      (calls : List (KernelCall Space)) (k : Kernel Space Disk)
      → IsConsistent k
      → IsConsistent (run k calls)
  unfolding run
  run-IsConsistent [] k c = c
  run-IsConsistent (call ∷ calls) k c =
      run-IsConsistent calls (step k call) (step-IsConsistent k c call)

  -- Whatever calls the kernel makes from the empty scheduler on, with no pipe yet: the scheduler stays
  -- valid, that is, ids are unique and below the next one, the task in state running is the current
  -- one, every sleeper has a deadline, and an idle task is ready or running and has no parent; each
  -- task's table keeps its sixteen entries; the counts of readers and writers that each pipe keeps are
  -- the numbers of its read ends and write ends in the tables of all tasks, ended ones that are not yet
  -- reaped included; and no entry names a pipe that is not there. So every descriptor that a call makes,
  -- clones, replaces or drops, on its error paths too, is counted.
  pub run-new-IsConsistent :
      (calls : List (KernelCall Space)) (st : Store Disk)
      → st.pipes ≡ []
      → IsConsistent (run (kernel new st) calls)
  run-new-IsConsistent calls st e = run-IsConsistent calls (kernel new st) (new-IsConsistent st e)
