-- ===== src/Scheduler/Ops/Tables.antt =====
-- The descriptor tables of the tasks (tasking/scheduler.rs): the methods that pick, stop, wake and
-- end tasks leave them alone.
use mathlib.Core.Option
use leaf_os_alpha.Base.{
  ℕ, zero, suc, ◌≡◌, refl, sym, ap, ◌∙◌, not, ◌&&◌, ◌||◌, Option, none, some, List, [], ◌∷◌, arith,
  map, slot, fill, fill_back, is_some, position, Bool-cases, inl, inr,
}
use leaf_os_alpha.Fd.{FileDescriptor}
use leaf_os_alpha.Scheduler.Task.{
  Task, TaskState, Scheduler, CpuContext, ready, running, is_ready, is_running, is_blocked,
  is_terminated, blocked, terminated,
}
use leaf_os_alpha.Scheduler.Ops.{
  has_id, holds, start, resume, select_found, select_next, transition_task, transition_at,
  transition_current, yield_current, block_current, terminate_current, sleep_task, sleep_at,
  sleep_current_until, wake_sleeper, wake_expired_sleepers, wake_slot, wake_found, wake,
  wake_parent_slot, wake_parent_at, wake_parent_of, wake_parent, parent_of, terminate_slot,
  terminate_at, terminate_task, wake_blocked, wake_all_blocked, save_in, save_at,
  save_current_context,
}

module _ {Space : Type 0} where
  abbrev pub fds_of : Option (Task Space) → Option (List (Option FileDescriptor))
  fds_of o = Option.map (λ (t : Task Space). t.fds) o

  abbrev pub tables : List (Option (Task Space)) → List (Option (List (Option FileDescriptor)))
  tables tasks = map fds_of tasks

  pub tables-fill :
      (i : ℕ) (o : Option (Task Space)) (tasks : List (Option (Task Space)))
      → tables (fill i o tasks) ≡ fill i (fds_of o) (tables tasks)
  tables-fill i o [] = refl
  tables-fill zero o (x ∷ tasks) = refl
  tables-fill (suc i) o (x ∷ tasks) = ap (λ ys. fds_of x ∷ ys) (tables-fill i o tasks)

  pub slot-tables :
      (i : ℕ) (tasks : List (Option (Task Space))) → slot (tables tasks) i ≡ fds_of (slot tasks i)
  slot-tables i [] = refl
  slot-tables zero (x ∷ tasks) = refl
  slot-tables (suc i) (x ∷ tasks) = slot-tables i tasks

  -- A task that is replaced by one with the same table.
  pub tables-put :
      (i : ℕ) (t t' : Task Space) (tasks : List (Option (Task Space)))
      → slot tasks i ≡ some t
      → t'.fds ≡ t.fds
      → tables (fill i (some t') tasks) ≡ tables tasks
  tables-put i t t' tasks at same =
      tables-fill i (some t') tasks
      ∙ fill_back i (some t'.fds) (tables tasks)
          (slot-tables i tasks ∙ ap fds_of at ∙ ap some (sym same))

  tables-map :
      (f : Task Space → Task Space) (tasks : List (Option (Task Space)))
      → ((t : Task Space) → (f t).fds ≡ t.fds)
      → tables (map (Option.map f) tasks) ≡ tables tasks
  tables-map f [] same = refl
  tables-map f (none ∷ tasks) same = ap (λ ys. none ∷ ys) (tables-map f tasks same)
  tables-map f (some t ∷ tasks) same =
      ap (λ ys. some (f t).fds ∷ ys) (tables-map f tasks same)
      ∙ ap (λ y. some y ∷ tables tasks) (same t)

  -- The tables are those of `tasks`.
  abbrev pub Keeps : List (Option (Task Space)) → Scheduler Space → Type 0
  Keeps tasks s = tables s.tasks ≡ tables tasks

  resume-Keeps :
      (s : Scheduler Space) (i : ℕ) (o : Option (Task Space))
      → slot s.tasks i ≡ o
      → Keeps s.tasks (resume s i o).1
  unfolding resume
  resume-Keeps s i none e = refl
  resume-Keeps s i (some t) e = tables-put i t (record t { state = running }) s.tasks e refl

  select_found-Keeps : (s : Scheduler Space) (o : Option ℕ) → Keeps s.tasks (select_found s o).1
  unfolding select_found
  select_found-Keeps s none = refl
  select_found-Keeps s (some i) = resume-Keeps s i (slot s.tasks i) refl

  pub select_next-Keeps : (s : Scheduler Space) (start : ℕ) → Keeps s.tasks (select_next s start).1
  unfolding select_next
  select_next-Keeps s start = select_found-Keeps (record s { current = none }) _

  pub start-Keeps : (s : Scheduler Space) → Keeps s.tasks (start s).1
  unfolding start
  start-Keeps s = elim (Bool-cases (is_some s.current)) [
    | inl e ↦ rw e refl
    | inr e ↦ rw e (select_next-Keeps s 0)
  ]

  transition_task-Keeps :
      (s : Scheduler Space) (next : TaskState) (i : ℕ) (o : Option (Task Space))
      → slot s.tasks i ≡ o
      → Keeps s.tasks (transition_task s next i o).1
  unfolding transition_task
  transition_task-Keeps s next i none at = refl
  transition_task-Keeps s next i (some t) at =
      elim (Bool-cases (not (is_running t.state) || (t.is_idle && not (is_ready next)))) [
        | inl e ↦ rw e refl
        | inr e ↦ rw e (select_next-Keeps _ _ ∙ tables-put i t _ s.tasks at refl)
      ]

  transition_at-Keeps :
      (s : Scheduler Space) (next : TaskState) (o : Option ℕ)
      → Keeps s.tasks (transition_at s next o).1
  unfolding transition_at
  transition_at-Keeps s next none = refl
  transition_at-Keeps s next (some i) = transition_task-Keeps s next i (slot s.tasks i) refl

  pub transition_current-Keeps :
      (s : Scheduler Space) (next : TaskState) → Keeps s.tasks (transition_current s next).1
  unfolding transition_current
  transition_current-Keeps s next = transition_at-Keeps s next s.current

  pub yield_current-Keeps : (s : Scheduler Space) → Keeps s.tasks (yield_current s).1
  unfolding yield_current
  yield_current-Keeps s = transition_current-Keeps s ready

  pub block_current-Keeps : (s : Scheduler Space) → Keeps s.tasks (block_current s).1
  unfolding block_current
  block_current-Keeps s = transition_current-Keeps s blocked

  pub terminate_current-Keeps : (s : Scheduler Space) → Keeps s.tasks (terminate_current s).1
  unfolding terminate_current
  terminate_current-Keeps s = transition_current-Keeps s terminated

  sleep_task-Keeps :
      (s : Scheduler Space) (deadline i : ℕ) (o : Option (Task Space))
      → slot s.tasks i ≡ o
      → Keeps s.tasks (sleep_task s deadline i o).1
  unfolding sleep_task
  sleep_task-Keeps s d i none at = refl
  sleep_task-Keeps s d i (some t) at = elim (Bool-cases (not (is_running t.state) || t.is_idle)) [
    | inl e ↦ rw e refl
    | inr e ↦ rw e (select_next-Keeps _ _ ∙ tables-put i t _ s.tasks at refl)
  ]

  sleep_at-Keeps :
      (s : Scheduler Space) (deadline : ℕ) (o : Option ℕ) → Keeps s.tasks (sleep_at s deadline o).1
  unfolding sleep_at
  sleep_at-Keeps s d none = refl
  sleep_at-Keeps s d (some i) = sleep_task-Keeps s d i (slot s.tasks i) refl

  pub sleep_current_until-Keeps :
      (s : Scheduler Space) (deadline : ℕ) → Keeps s.tasks (sleep_current_until s deadline).1
  unfolding sleep_current_until
  sleep_current_until-Keeps s d = sleep_at-Keeps s d s.current

  pub wake_expired_sleepers-Keeps :
      (s : Scheduler Space) (now : ℕ) → Keeps s.tasks (wake_expired_sleepers s now)
  unfolding wake_expired_sleepers wake_sleeper
  wake_expired_sleepers-Keeps s now = tables-map (wake_sleeper now) s.tasks (λ t. ground arith)

  pub wake_all_blocked-Keeps : (s : Scheduler Space) → Keeps s.tasks (wake_all_blocked s)
  unfolding wake_all_blocked wake_blocked
  wake_all_blocked-Keeps s = tables-map wake_blocked s.tasks (λ t. ground arith)

  wake_slot-Keeps :
      (s : Scheduler Space) (i : ℕ) (o : Option (Task Space))
      → slot s.tasks i ≡ o
      → Keeps s.tasks (wake_slot s i o).1
  unfolding wake_slot
  wake_slot-Keeps s i none at = refl
  wake_slot-Keeps s i (some t) at = elim (Bool-cases (is_blocked t.state)) [
    | inl e ↦ rw e (tables-put i t _ s.tasks at refl)
    | inr e ↦ rw e refl
  ]

  wake_found-Keeps : (s : Scheduler Space) (o : Option ℕ) → Keeps s.tasks (wake_found s o).1
  unfolding wake_found
  wake_found-Keeps s none = refl
  wake_found-Keeps s (some i) = wake_slot-Keeps s i (slot s.tasks i) refl

  pub wake-Keeps : (s : Scheduler Space) (id : ℕ) → Keeps s.tasks (wake s id).1
  unfolding wake
  wake-Keeps s id = wake_found-Keeps s (position (has_id id) s.tasks)

  wake_parent_slot-Keeps :
      (s : Scheduler Space) (i : ℕ) (o : Option (Task Space))
      → slot s.tasks i ≡ o
      → Keeps s.tasks (wake_parent_slot s i o)
  unfolding wake_parent_slot
  wake_parent_slot-Keeps s i none at = refl
  wake_parent_slot-Keeps s i (some t) at = elim (Bool-cases (is_blocked t.state)) [
    | inl e ↦ rw e (tables-put i t _ s.tasks at refl)
    | inr e ↦ rw e refl
  ]

  wake_parent_at-Keeps : (s : Scheduler Space) (o : Option ℕ) → Keeps s.tasks (wake_parent_at s o)
  unfolding wake_parent_at
  wake_parent_at-Keeps s none = refl
  wake_parent_at-Keeps s (some i) = wake_parent_slot-Keeps s i (slot s.tasks i) refl

  wake_parent_of-Keeps : (s : Scheduler Space) (o : Option ℕ) → Keeps s.tasks (wake_parent_of s o)
  unfolding wake_parent_of
  wake_parent_of-Keeps s none = refl
  wake_parent_of-Keeps s (some p) = wake_parent_at-Keeps s (position (has_id p) s.tasks)

  pub wake_parent-Keeps : (s : Scheduler Space) (i : ℕ) → Keeps s.tasks (wake_parent s i)
  unfolding wake_parent
  wake_parent-Keeps s i = wake_parent_of-Keeps s (parent_of (slot s.tasks i))

  terminate_slot-Keeps :
      (s : Scheduler Space) (code i : ℕ) (o : Option (Task Space))
      → slot s.tasks i ≡ o
      → Keeps s.tasks (terminate_slot s code i o).1
  unfolding terminate_slot
  terminate_slot-Keeps s code i none at = refl
  terminate_slot-Keeps s code i (some t) at =
      elim (Bool-cases (t.is_idle || is_terminated t.state)) [
        | inl e ↦ rw e refl
        | inr e ↦ rw e (wake_parent-Keeps _ i ∙ tables-put i t _ s.tasks at refl)
      ]

  terminate_at-Keeps :
      (s : Scheduler Space) (code : ℕ) (o : Option ℕ) → Keeps s.tasks (terminate_at s code o).1
  unfolding terminate_at
  terminate_at-Keeps s code none = refl
  terminate_at-Keeps s code (some i) = elim (Bool-cases (holds s.current i)) [
    | inl e ↦ rw e refl
    | inr e ↦ rw e (terminate_slot-Keeps s code i (slot s.tasks i) refl)
  ]

  pub terminate_task-Keeps :
      (s : Scheduler Space) (id code : ℕ) → Keeps s.tasks (terminate_task s id code).1
  unfolding terminate_task
  terminate_task-Keeps s id code = terminate_at-Keeps s code (position (has_id id) s.tasks)

  save_in-Keeps :
      (s : Scheduler Space) (context : CpuContext) (i : ℕ) (o : Option (Task Space))
      → slot s.tasks i ≡ o
      → Keeps s.tasks (save_in s context i o).1
  unfolding save_in
  save_in-Keeps s context i none at = refl
  save_in-Keeps s context i (some t) at = tables-put i t _ s.tasks at refl

  save_at-Keeps :
      (s : Scheduler Space) (context : CpuContext) (o : Option ℕ)
      → Keeps s.tasks (save_at s context o).1
  unfolding save_at
  save_at-Keeps s context none = refl
  save_at-Keeps s context (some i) = save_in-Keeps s context i (slot s.tasks i) refl

  pub save_current_context-Keeps :
      (s : Scheduler Space) (context : CpuContext)
      → Keeps s.tasks (save_current_context s context).1
  unfolding save_current_context
  save_current_context-Keeps s context = save_at-Keeps s context s.current
