-- ===== src/Scheduler/Lifecycle.antt =====
-- The methods of `Scheduler` in tasking/scheduler.rs that create, inspect and reap tasks.
pub mod Wait
pub mod Creation
pub mod Reaping
pub mod Leaving
pub mod Tables
use mathlib.Core.Option
use leaf_os_alpha.Base.{
  ℕ, zero, suc, ◌+◌, ◌-◌, ◌*◌, ◌/◌, ◌%◌, ◌^◌, Bool, true, false, ◌&&◌, ◌||◌, not, Option, none,
  some, List, [], ◌∷◌, if◌then◌else◌, ◌==◌, ltb, leb, set, replicate, length, Result, ok, err,
  is_some, is_none, position, slot, fill, word, map, ok_or, checked_add, checked_sub, number,
}
use leaf_os_alpha.Fd.{initial_table}
use leaf_os_alpha.Scheduler.Task.{
  Task, TaskState, ready, is_ready, is_terminated, SchedulerError, full, not_started, unknown_task,
  invalid_state, invalid_context, address_space_cleanup, task_id_exhausted, no_child, child_running,
  CpuContext, UserContext, UserTask, Scheduler, max_tasks, kernel_stack_size, empty_context,
}
use leaf_os_alpha.Scheduler.Ops.{Outcome, put_task, has_id, holds}

pub record NewStack : Type 0 where
  pub context : CpuContext
  pub words : List ℕ
  pub top : ℕ

abbrev pub stack_words : ℕ
stack_words = kernel_stack_size / 8

-- The index of the word at `initial_stack`, if it lies in the stack.
pub stack_slot : ℕ → ℕ → Option ℕ
stack_slot base initial_stack =
    let offset = initial_stack - base in
    if leb base initial_stack && (offset % 8 == 0) && ltb (offset / 8) stack_words
    then some (offset / 8)
    else none

pub place_stack : ℕ → ℕ → ℕ → Option ℕ → Result NewStack SchedulerError
place_stack trampoline aligned_top initial_stack none = err invalid_context
place_stack trampoline aligned_top initial_stack (some index) = ok (record {
  context = record empty_context { stack_pointer = initial_stack; rflags = 0x202 };
  words = set (replicate stack_words 0) index trampoline;
  top = aligned_top;
})

-- `create_task_stack`, for a stack of `stack_words` words that the allocator puts at `base`, and the
-- trampoline's address.
pub create_task_stack : ℕ → ℕ → Result NewStack SchedulerError
unfolding place_stack stack_slot
create_task_stack trampoline base =
    if ltb (base + stack_words * 8) word
    then (let stack_top = base + stack_words * 8 in
        let aligned_top = stack_top - stack_top % 16 in
        if leb 16 aligned_top
        then place_stack trampoline aligned_top (aligned_top - 16)
            (stack_slot base (aligned_top - 16))
        else err invalid_context)
    else err invalid_context

-- The error of a wait when there is no such child.
abbrev pub childless : Option ℕ → SchedulerError
childless none = no_child
childless (some id) = unknown_task

module _ {Space : Type 0} where
  -- The first free slot.
  pub check_task_capacity : Scheduler Space → Result ℕ SchedulerError
  check_task_capacity s = ok_or (position is_none s.tasks) full

  abbrev pub new_task :
      ℕ
      → CpuContext
      → Option ℕ
      → Option ℕ
      → Option (UserTask Space)
      → Option (List ℕ)
      → Option ℕ
      → Task Space
  new_task id context parent entry user stack stack_top = record {
    id = id;
    parent = parent;
    state = ready;
    exit_code = none;
    context = context;
    entry = entry;
    user = user;
    stack = stack;
    stack_top = stack_top;
    wake_at = none;
    is_idle = false;
    fds = initial_table;
  }

  pub insert_at : Scheduler Space → Result ℕ SchedulerError → (ℕ → Task Space) → Outcome Space ℕ
  insert_at s (err e) make = (err e, s)
  insert_at s (ok i) make =
      if ltb (s.next_id + 1) word
      then (ok s.next_id, record (put_task i (make s.next_id) s) { next_id = s.next_id + 1 })
      else (err task_id_exhausted, s)

  pub insert_task :
      Scheduler Space
      → CpuContext
      → Option ℕ
      → Option ℕ
      → Option (UserTask Space)
      → Option (List ℕ)
      → Option ℕ
      → Outcome Space ℕ
  unfolding insert_at check_task_capacity
  insert_task s context parent entry user stack stack_top =
      insert_at s (check_task_capacity s)
        (λ id. new_task id context parent entry user stack stack_top)

  pub create_task : Scheduler Space → CpuContext → Outcome Space ℕ
  unfolding insert_task
  create_task s context = insert_task s context none none none none none

  pub insert_kernel_task :
      Scheduler Space → ℕ → Option ℕ → Result NewStack SchedulerError → Outcome Space ℕ
  unfolding insert_task
  insert_kernel_task s entry parent (err e) = (err e, s)
  insert_kernel_task s entry parent (ok stack) =
      insert_task s stack.context parent (some entry) none (some stack.words) (some stack.top)

  pub create_kernel_at :
      Scheduler Space → ℕ → ℕ → ℕ → Option ℕ → Result ℕ SchedulerError → Outcome Space ℕ
  unfolding insert_kernel_task
  create_kernel_at s trampoline base entry parent (err e) = (err e, s)
  create_kernel_at s trampoline base entry parent (ok i) =
      if ltb (s.next_id + 1) word
      then insert_kernel_task s entry parent (create_task_stack trampoline base)
      else (err task_id_exhausted, s)

  -- `trampoline` and `base` as for `create_task_stack`.
  pub create_kernel_task : Scheduler Space → ℕ → ℕ → ℕ → Option ℕ → Outcome Space ℕ
  unfolding create_kernel_at
  create_kernel_task s trampoline base entry parent =
      create_kernel_at s trampoline base entry parent (check_task_capacity s)

  pub find_task : Scheduler Space → ℕ → Option (Task Space)
  find_task s id = elim (position (has_id id) s.tasks) [ none ↦ none | some i ↦ slot s.tasks i ]

  pub current_task : Scheduler Space → Option ℕ
  current_task s = elim s.current [ none ↦ none | some i ↦ Option.map (λ t. t.id) (slot s.tasks i) ]

  pub task_state : Scheduler Space → ℕ → Result TaskState SchedulerError
  task_state s id = ok_or (Option.map (λ t. t.state) (find_task s id)) unknown_task

  -- Keep one slot for the idle task until it is installed.
  pub spawn_into : Scheduler Space → ℕ → ℕ → ℕ → Outcome Space ℕ
  spawn_into s trampoline base entry =
      if is_none s.idle_index && leb (number is_none s.tasks) 1
      then (err full, s)
      else create_kernel_task s trampoline base entry (current_task s)

  abbrev pub is_child : ℕ → Option ℕ → Option (Task Space) → Bool
  is_child parent child none = false
  is_child parent child (some t) =
      holds t.parent parent && (elim child [ none ↦ true | some id ↦ t.id == id ])

  abbrev pub is_ended_child : ℕ → Option ℕ → Option (Task Space) → Bool
  is_ended_child parent child none = false
  is_ended_child parent child (some t) = is_child parent child (some t) && is_terminated t.state

  abbrev id_at : Option (Task Space) → ℕ
  id_at none = 0
  id_at (some t) = t.id

  pub child_reply : Scheduler Space → Option ℕ → Option ℕ → Option ℕ → Result ℕ SchedulerError
  child_reply s child (some ended) matching = ok (id_at (slot s.tasks ended))
  child_reply s child none (some i) = err child_running
  child_reply s child none none = err (childless child)

  pub terminated_child : Scheduler Space → ℕ → Option ℕ → Result ℕ SchedulerError
  unfolding child_reply
  terminated_child s parent child =
      child_reply s child (position (is_ended_child parent child) s.tasks)
        (position (is_child parent child) s.tasks)

  -- `AddressSpace::destroy` of memory/mod.rs: whether it succeeded, and what it leaves. A task that is
  -- removed also drops its `fds`; see `reap` of Kernel/Calls.antt.
  module _ (destroy : Space → Bool × Space) where
    pub reap_user :
        Scheduler Space → ℕ → Task Space → UserTask Space → Bool × Space → Outcome Space (Unit {0})
    reap_user s i t u (true, space) = (ok tt, record s { tasks = fill i none s.tasks })
    reap_user s i t u (false, space) = (
      err address_space_cleanup,
      put_task i (record t { user = some (record u { address_space = space }) }) s,
    )

    pub reap_task :
        Scheduler Space → ℕ → Task Space → Option (UserTask Space) → Outcome Space (Unit {0})
    unfolding reap_user
    reap_task s i t none = (ok tt, record s { tasks = fill i none s.tasks })
    reap_task s i t (some u) = reap_user s i t u (destroy u.address_space)

    pub reap_slot : Scheduler Space → ℕ → Option (Task Space) → Outcome Space (Unit {0})
    unfolding reap_task
    reap_slot s i none = (err invalid_state, s)
    reap_slot s i (some t) =
        if is_terminated t.state then reap_task s i t t.user else (err invalid_state, s)

    pub reap_at : Scheduler Space → Option ℕ → Outcome Space (Unit {0})
    unfolding reap_slot
    reap_at s none = (err unknown_task, s)
    reap_at s (some i) =
        if holds s.current i then (err invalid_state, s) else reap_slot s i (slot s.tasks i)

    pub reap_terminated : Scheduler Space → ℕ → Outcome Space (Unit {0})
    unfolding reap_at
    reap_terminated s id = reap_at s (position (has_id id) s.tasks)
