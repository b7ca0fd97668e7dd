-- ===== src/Scheduler/Task.antt =====
-- The data of tasking/scheduler.rs: tasks, the task table and the errors. `Space` is the
-- `AddressSpace` of memory/mod.rs; a kernel entry point is its address; a task id is its number.
use leaf_os_alpha.Base.{ℕ, ◌*◌, Bool, true, false, Option, none, List, replicate}
use leaf_os_alpha.Fd.{FileDescriptor}

abbrev pub max_tasks : ℕ
max_tasks = 16

abbrev pub kernel_stack_size : ℕ
kernel_stack_size = 64 * 1024

pub data TaskState : Type 0 where
  ready running blocked sleeping terminated : TaskState

abbrev pub is_ready : TaskState → Bool
is_ready ready = true
is_ready _ = false

abbrev pub is_running : TaskState → Bool
is_running running = true
is_running _ = false

abbrev pub is_blocked : TaskState → Bool
is_blocked blocked = true
is_blocked _ = false

abbrev pub is_sleeping : TaskState → Bool
is_sleeping sleeping = true
is_sleeping _ = false

abbrev pub is_terminated : TaskState → Bool
is_terminated terminated = true
is_terminated _ = false

pub data UserContextError : Type 0 where
  invalid_entry invalid_stack entry_not_executable stack_not_writable : UserContextError

pub data SchedulerError : Type 0 where
  full already_started not_started no_runnable_tasks unknown_task : SchedulerError
  invalid_state invalid_context : SchedulerError
  invalid_user_context : UserContextError → SchedulerError
  address_space_cleanup task_id_exhausted invalid_fd would_block : SchedulerError
  broken_pipe io no_child child_running not_child : SchedulerError

pub record CpuContext : Type 0 where
  pub stack_pointer : ℕ
  pub rbx : ℕ
  pub rbp : ℕ
  pub r12 : ℕ
  pub r13 : ℕ
  pub r14 : ℕ
  pub r15 : ℕ
  pub rflags : ℕ

abbrev pub empty_context : CpuContext
empty_context = record {
  stack_pointer = 0;
  rbx = 0;
  rbp = 0;
  r12 = 0;
  r13 = 0;
  r14 = 0;
  r15 = 0;
  rflags = 0;
}

-- arch/user.rs
pub record UserContext : Type 0 where
  pub entry : ℕ
  pub stack : ℕ
  pub argument_count : ℕ
  pub argument_vector : ℕ

pub record UserTask (Space : Type 0) : Type 0 where
  pub address_space : Space
  pub context : UserContext
  pub syscall_user_rsp : ℕ

pub record Task (Space : Type 0) : Type 0 where
  pub id : ℕ
  pub parent : Option ℕ
  pub state : TaskState
  pub exit_code : Option ℕ
  pub context : CpuContext
  pub entry : Option ℕ
  pub user : Option (UserTask Space)
  pub stack : Option (List ℕ)
  pub stack_top : Option ℕ
  pub wake_at : Option ℕ
  pub is_idle : Bool
  pub fds : List (Option FileDescriptor)

pub record Scheduler (Space : Type 0) : Type 0 where
  pub tasks : List (Option (Task Space))
  pub current : Option ℕ
  pub next_id : ℕ
  pub idle_index : Option ℕ

unfoldable pub new : {Space : Type 0} → Scheduler Space
new = record { tasks = replicate max_tasks none; current = none; next_id = 1; idle_index = none }
