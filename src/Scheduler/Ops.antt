-- ===== src/Scheduler/Ops.antt =====
-- The methods of `Scheduler` in tasking/scheduler.rs that pick, stop, wake and end tasks. A method
-- gives its result and the scheduler left.
pub mod Table
pub mod Select
pub mod Processor
pub mod States
pub mod Saving
pub mod Tables
pub mod Fallback
use mathlib.Core.Option
use leaf_os_alpha.Base.{
  ℕ, zero, suc, ◌+◌, ◌-◌, ◌*◌, ◌/◌, ◌%◌, ◌^◌, Bool, true, false, ◌&&◌, ◌||◌, not, Option, none,
  some, List, [], ◌∷◌, if◌then◌else◌, ◌==◌, ltb, modify, length, Result, ok, err, is_some, is_none,
  position, slot, fill, word, map, ok_or,
}
use leaf_os_alpha.Scheduler.Task.{
  Task, TaskState, ready, running, blocked, sleeping, terminated, is_ready, is_running, is_blocked,
  is_sleeping, is_terminated, SchedulerError, full, already_started, not_started, no_runnable_tasks,
  unknown_task, invalid_state, address_space_cleanup, no_child, child_running, CpuContext, UserTask,
  Scheduler, max_tasks,
}

abbrev pub Outcome : Type 0 → Type 0 → Type 0
Outcome Space A = Result A SchedulerError × Scheduler Space

pub first_found : Option ℕ → Option ℕ → Option ℕ
first_found none second = second
first_found (some i) second = some i

-- `now.wrapping_sub(deadline) < (1u64 << 63)`, for a deadline that is set
abbrev pub expired : ℕ → Option ℕ → Bool
expired now none = false
expired now (some deadline) = ltb ((now + word - deadline) % word) (2 ^ 63)

-- `o == Some(i)`
abbrev pub holds : Option ℕ → ℕ → Bool
holds none i = false
holds (some c) i = c == i

module _ {Space : Type 0} where
  abbrev pub put_task : ℕ → Task Space → Scheduler Space → Scheduler Space
  put_task i t s = record s { tasks = fill i (some t) s.tasks }

  abbrev pub has_id : ℕ → Option (Task Space) → Bool
  has_id id none = false
  has_id id (some t) = t.id == id

  -- May pass 0 (ordinary tasks) or pass 1 (the idle task) select this slot?
  abbrev pub selectable : Bool → Option (Task Space) → Bool
  selectable idle none = false
  selectable idle (some t) = is_ready t.state && (if idle then t.is_idle else not t.is_idle)

  -- The inner loop of `select_next`, over the offsets from `offset` on, `n` of them.
  pub scan : List (Option (Task Space)) → Bool → ℕ → ℕ → ℕ → Option ℕ
  scan tasks idle start zero offset = none
  scan tasks idle start (suc n) offset =
      let index = (start + offset) % max_tasks in
      let rest = scan tasks idle start n (offset + 1) in
      if selectable idle (slot tasks index) then some index else rest

  pub resume : Scheduler Space → ℕ → Option (Task Space) → Outcome Space ℕ
  resume s index none = (err no_runnable_tasks, s)
  resume s index (some t) =
      (ok t.id, record (put_task index (record t { state = running }) s) { current = some index })

  pub select_found : Scheduler Space → Option ℕ → Outcome Space ℕ
  unfolding resume
  select_found s none = (err no_runnable_tasks, s)
  select_found s (some index) = resume s index (slot s.tasks index)

  pub select_next : Scheduler Space → ℕ → Outcome Space ℕ
  unfolding scan select_found first_found
  select_next s start =
      let idling = record s { current = none } in
      select_found idling
        (first_found (scan s.tasks false start max_tasks 0) (scan s.tasks true start max_tasks 0))

  pub start : Scheduler Space → Outcome Space ℕ
  start s = if is_some s.current then (err already_started, s) else select_next s 0

  pub transition_task : Scheduler Space → TaskState → ℕ → Option (Task Space) → Outcome Space ℕ
  transition_task s next_state index none = (err unknown_task, s)
  transition_task s next_state index (some t) =
      if not (is_running t.state) || (t.is_idle && not (is_ready next_state))
      then (err invalid_state, s)
      else (let stopped = record t {
        state = next_state;
        wake_at = if is_sleeping next_state then t.wake_at else none;
      } in
          select_next (record (put_task index stopped s) { current = none })
            ((index + 1) % max_tasks))

  pub transition_at : Scheduler Space → TaskState → Option ℕ → Outcome Space ℕ
  unfolding transition_task
  transition_at s next_state none = (err not_started, s)
  transition_at s next_state (some index) = transition_task s next_state index (slot s.tasks index)

  pub transition_current : Scheduler Space → TaskState → Outcome Space ℕ
  unfolding transition_at
  transition_current s next_state = transition_at s next_state s.current

  pub yield_current : Scheduler Space → Outcome Space ℕ
  yield_current s = transition_current s ready

  pub block_current : Scheduler Space → Outcome Space ℕ
  block_current s = transition_current s blocked

  pub terminate_current : Scheduler Space → Outcome Space ℕ
  terminate_current s = transition_current s terminated

  pub sleep_task : Scheduler Space → ℕ → ℕ → Option (Task Space) → Outcome Space ℕ
  sleep_task s deadline index none = (err unknown_task, s)
  sleep_task s deadline index (some t) =
      if not (is_running t.state) || t.is_idle
      then (err invalid_state, s)
      else (let asleep = record t { state = sleeping; wake_at = some deadline } in
          select_next (record (put_task index asleep s) { current = none })
            ((index + 1) % max_tasks))

  pub sleep_at : Scheduler Space → ℕ → Option ℕ → Outcome Space ℕ
  unfolding sleep_task
  sleep_at s deadline none = (err not_started, s)
  sleep_at s deadline (some index) = sleep_task s deadline index (slot s.tasks index)

  pub sleep_current_until : Scheduler Space → ℕ → Outcome Space ℕ
  unfolding sleep_at
  sleep_current_until s deadline = sleep_at s deadline s.current

  pub wake_sleeper : ℕ → Task Space → Task Space
  wake_sleeper now t =
      if is_sleeping t.state && expired now t.wake_at
      then record t { state = ready; wake_at = none }
      else t

  pub wake_expired_sleepers : Scheduler Space → ℕ → Scheduler Space
  unfolding wake_sleeper
  wake_expired_sleepers s now = record s { tasks = map (Option.map (wake_sleeper now)) s.tasks }

  abbrev live_non_idle : Option (Task Space) → Bool
  live_non_idle none = false
  live_non_idle (some t) = not t.is_idle && not (is_terminated t.state)

  pub has_live_non_idle_tasks : Scheduler Space → Bool
  has_live_non_idle_tasks s = is_some (position live_non_idle s.tasks)

  pub wake_slot : Scheduler Space → ℕ → Option (Task Space) → Outcome Space (Unit {0})
  wake_slot s i none = (err unknown_task, s)
  wake_slot s i (some t) =
      if is_blocked t.state
      then (ok tt, put_task i (record t { state = ready }) s)
      else (err invalid_state, s)

  pub wake_found : Scheduler Space → Option ℕ → Outcome Space (Unit {0})
  unfolding wake_slot
  wake_found s none = (err unknown_task, s)
  wake_found s (some i) = wake_slot s i (slot s.tasks i)

  pub wake : Scheduler Space → ℕ → Outcome Space (Unit {0})
  unfolding wake_found
  wake s id = wake_found s (position (has_id id) s.tasks)

  pub wake_parent_slot : Scheduler Space → ℕ → Option (Task Space) → Scheduler Space
  wake_parent_slot s i none = s
  wake_parent_slot s i (some t) =
      if is_blocked t.state then put_task i (record t { state = ready }) s else s

  pub wake_parent_at : Scheduler Space → Option ℕ → Scheduler Space
  unfolding wake_parent_slot
  wake_parent_at s none = s
  wake_parent_at s (some i) = wake_parent_slot s i (slot s.tasks i)

  pub wake_parent_of : Scheduler Space → Option ℕ → Scheduler Space
  unfolding wake_parent_at
  wake_parent_of s none = s
  wake_parent_of s (some parent) = wake_parent_at s (position (has_id parent) s.tasks)

  abbrev pub parent_of : Option (Task Space) → Option ℕ
  parent_of none = none
  parent_of (some t) = t.parent

  pub wake_parent : Scheduler Space → ℕ → Scheduler Space
  unfolding wake_parent_of
  wake_parent s child_index = wake_parent_of s (parent_of (slot s.tasks child_index))

  pub terminate_slot : Scheduler Space → ℕ → ℕ → Option (Task Space) → Outcome Space (Unit {0})
  terminate_slot s exit_code i none = (err unknown_task, s)
  terminate_slot s exit_code i (some t) =
      if t.is_idle || is_terminated t.state
      then (err invalid_state, s)
      else (let ended = record t { exit_code = some exit_code; state = terminated } in
          (ok tt, wake_parent (put_task i ended s) i))

  pub terminate_at : Scheduler Space → ℕ → Option ℕ → Outcome Space (Unit {0})
  unfolding terminate_slot
  terminate_at s exit_code none = (err unknown_task, s)
  terminate_at s exit_code (some i) =
      if holds s.current i
      then (err invalid_state, s)
      else terminate_slot s exit_code i (slot s.tasks i)

  pub terminate_task : Scheduler Space → ℕ → ℕ → Outcome Space (Unit {0})
  unfolding terminate_at
  terminate_task s id exit_code = terminate_at s exit_code (position (has_id id) s.tasks)

  pub wake_blocked : Task Space → Task Space
  wake_blocked t = if is_blocked t.state then record t { state = ready } else t

  pub wake_all_blocked : Scheduler Space → Scheduler Space
  unfolding wake_blocked
  wake_all_blocked s = record s { tasks = map (Option.map wake_blocked) s.tasks }

  pub save_in : Scheduler Space → CpuContext → ℕ → Option (Task Space) → Outcome Space (Unit {0})
  save_in s context i none = (err unknown_task, s)
  save_in s context i (some t) = (ok tt, put_task i (record t { context = context }) s)

  pub save_at : Scheduler Space → CpuContext → Option ℕ → Outcome Space (Unit {0})
  unfolding save_in
  save_at s context none = (err not_started, s)
  save_at s context (some i) = save_in s context i (slot s.tasks i)

  pub save_current_context : Scheduler Space → CpuContext → Outcome Space (Unit {0})
  unfolding save_at
  save_current_context s context = save_at s context s.current
