-- ===== src/Scheduler/Lifecycle/Tables.antt =====
-- What creating and reaping tasks (tasking/scheduler.rs) does to the descriptor tables.

use leaf_os_alpha.Base.{
  ℕ, ◌+◌, ◌≡◌, ◌<◌, ◌⊎◌, refl, ap, ◌∙◌, Bool, true, false, ◌&&◌, Option, none, some, List, leb, ltb,
  length, slot, fill, Bool-cases, inl, inr, Result, ok, err, is_none, position, position-some, word,
  ok_or, number,
}
use leaf_os_alpha.Fd.{initial_table}
use leaf_os_alpha.Scheduler.Task.{
  Task, ready, Scheduler, SchedulerError, full, CpuContext, UserTask, is_terminated,
}
use leaf_os_alpha.Scheduler.Ops.{Outcome, has_id, holds}
use leaf_os_alpha.Scheduler.Ops.Tables.{tables, tables-fill, tables-put, Keeps}
use leaf_os_alpha.Scheduler.Lifecycle.Creation.{is_none-none}
use leaf_os_alpha.Scheduler.Lifecycle.{
  check_task_capacity, insert_at, insert_task, NewStack, create_task_stack, insert_kernel_task,
  create_kernel_at, create_kernel_task, current_task, spawn_into, reap_user, reap_task, reap_slot,
  reap_at, reap_terminated,
}

module _ {Space : Type 0} where
  -- A success puts a new task into a free slot; an error changes nothing.
  abbrev pub Adds : Option ℕ → Scheduler Space → Outcome Space ℕ → Type 0
  Adds parent s (ok id, s') =
      (i : ℕ) × (t : Task Space) × (i < length s.tasks)
      × (slot s.tasks i ≡ none)
      × (s'.tasks ≡ fill i (some t) s.tasks)
      × (t.fds ≡ initial_table)
      × (t.id ≡ id)
      × (t.state ≡ ready)
      × (t.parent ≡ parent)
  Adds parent s (err e, s') = s' ≡ s

  -- The tables stay, or a first table comes into a free slot.
  abbrev pub Grows : Scheduler Space → Scheduler Space → Type 0
  Grows s s' =
      (tables s'.tasks ≡ tables s.tasks)
      ⊎ ((i : ℕ) × (i < length s.tasks)
          × (slot s.tasks i ≡ none)
          × (tables s'.tasks ≡ fill i (some initial_table) (tables s.tasks)))

  pub Adds-Grows :
      (parent : Option ℕ) (s : Scheduler Space) (r : Outcome Space ℕ)
      → Adds parent s r
      → Grows s r.1
  Adds-Grows parent s (err e, s') q = inl (ap (λ (x : Scheduler Space). tables x.tasks) q)
  Adds-Grows parent s (ok id, s') (i, t, h, free, q, f, d, r, p) = inr (
    i,
    h,
    free,
    ap tables q ∙ tables-fill i (some t) s.tasks ∙ ap (λ x. fill i (some x) (tables s.tasks)) f,
  )

  insert_at-Adds :
      (s : Scheduler Space) (o : Option ℕ) (make : ℕ → Task Space) (parent : Option ℕ)
      → position is_none s.tasks ≡ o
      → (make s.next_id).fds ≡ initial_table
      → (make s.next_id).id ≡ s.next_id
      → (make s.next_id).state ≡ ready
      → (make s.next_id).parent ≡ parent
      → Adds parent s (insert_at s (ok_or o full) make)
  unfolding insert_at
  insert_at-Adds s none make parent e f id r p = refl
  insert_at-Adds s (some i) make parent e f id r p = elim (Bool-cases (ltb (s.next_id + 1) word)) [
    | inl q ↦
        let (h, free, _) = position-some is_none s.tasks i e in
        rw q (i, make s.next_id, h, is_none-none (slot s.tasks i) free, refl, f, id, r, p)
    | inr q ↦ rw q refl
  ]

  insert_task-Adds :
      (s : Scheduler Space) (context : CpuContext) (parent entry : Option ℕ)
      (user : Option (UserTask Space)) (stack : Option (List ℕ)) (stack_top : Option ℕ)
      → Adds parent s (insert_task s context parent entry user stack stack_top)
  unfolding insert_task check_task_capacity
  insert_task-Adds s context parent entry user stack stack_top =
      insert_at-Adds s (position is_none s.tasks) _ parent refl refl refl refl refl

  insert_kernel_task-Adds :
      (s : Scheduler Space) (entry : ℕ) (parent : Option ℕ) (stack : Result NewStack SchedulerError)
      → Adds parent s (insert_kernel_task s entry parent stack)
  unfolding insert_kernel_task
  insert_kernel_task-Adds s entry parent (err e) = refl
  insert_kernel_task-Adds s entry parent (ok stack) = insert_task-Adds s _ _ _ _ _ _

  create_kernel_at-Adds :
      (s : Scheduler Space) (trampoline base entry : ℕ) (parent : Option ℕ)
      (r : Result ℕ SchedulerError)
      → Adds parent s (create_kernel_at s trampoline base entry parent r)
  unfolding create_kernel_at
  create_kernel_at-Adds s tr base entry parent (err e) = refl
  create_kernel_at-Adds s tr base entry parent (ok i) =
      elim (Bool-cases (ltb (s.next_id + 1) word)) [
        | inl q ↦ rw q (insert_kernel_task-Adds s entry parent (create_task_stack tr base))
        | inr q ↦ rw q refl
      ]

  pub create_kernel_task-Adds :
      (s : Scheduler Space) (trampoline base entry : ℕ) (parent : Option ℕ)
      → Adds parent s (create_kernel_task s trampoline base entry parent)
  unfolding create_kernel_task
  create_kernel_task-Adds s tr base entry parent =
      create_kernel_at-Adds s tr base entry parent (check_task_capacity s)

  pub spawn_into-Adds :
      (s : Scheduler Space) (trampoline base entry : ℕ)
      → Adds (current_task s) s (spawn_into s trampoline base entry)
  unfolding spawn_into
  spawn_into-Adds s tr base entry =
      elim (Bool-cases (is_none s.idle_index && leb (number is_none s.tasks) 1)) [
        | inl q ↦ rw q refl
        | inr q ↦ rw q (create_kernel_task-Adds s tr base entry (current_task s))
      ]

  -- A success frees the slot that was found; an error leaves the tables.
  abbrev pub Frees : Scheduler Space → Option ℕ → Outcome Space (Unit {0}) → Type 0
  Frees s found (ok x, s') = (i : ℕ) × (found ≡ some i) × (s'.tasks ≡ fill i none s.tasks)
  Frees s found (err e, s') = Keeps s.tasks s'

  module _ (destroy : Space → Bool × Space) where
    reap_user-Frees :
        (s : Scheduler Space) (i : ℕ) (t : Task Space) (u : UserTask Space) (r : Bool × Space)
        → slot s.tasks i ≡ some t
        → Frees s (some i) (reap_user destroy s i t u r)
    unfolding reap_user
    reap_user-Frees s i t u (true, space) at = (i, refl, refl)
    reap_user-Frees s i t u (false, space) at = tables-put i t _ s.tasks at refl

    reap_task-Frees :
        (s : Scheduler Space) (i : ℕ) (t : Task Space) (o : Option (UserTask Space))
        → slot s.tasks i ≡ some t
        → Frees s (some i) (reap_task destroy s i t o)
    unfolding reap_task
    reap_task-Frees s i t none at = (i, refl, refl)
    reap_task-Frees s i t (some u) at = reap_user-Frees s i t u (destroy u.address_space) at

    reap_slot-Frees :
        (s : Scheduler Space) (i : ℕ) (o : Option (Task Space))
        → slot s.tasks i ≡ o
        → Frees s (some i) (reap_slot destroy s i o)
    unfolding reap_slot
    reap_slot-Frees s i none at = refl
    reap_slot-Frees s i (some t) at = elim (Bool-cases (is_terminated t.state)) [
      | inl e ↦ rw e (reap_task-Frees s i t t.user at)
      | inr e ↦ rw e refl
    ]

    reap_at-Frees : (s : Scheduler Space) (o : Option ℕ) → Frees s o (reap_at destroy s o)
    unfolding reap_at
    reap_at-Frees s none = refl
    reap_at-Frees s (some i) = elim (Bool-cases (holds s.current i)) [
      | inl e ↦ rw e refl
      | inr e ↦ rw e (reap_slot-Frees s i (slot s.tasks i) refl)
    ]

    pub reap_terminated-Frees :
        (s : Scheduler Space) (id : ℕ)
        → Frees s (position (has_id id) s.tasks) (reap_terminated destroy s id)
    unfolding reap_terminated
    reap_terminated-Frees s id = reap_at-Frees s (position (has_id id) s.tasks)
