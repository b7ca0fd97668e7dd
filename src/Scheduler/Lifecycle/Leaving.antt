-- ===== src/Scheduler/Lifecycle/Leaving.antt =====
-- What a reap of an ended task (tasking/scheduler.rs) leaves.
use leaf_os_alpha.Base.{
  ℕ, ◌≡◌, ◌≢◌, refl, Bool, true, false, Option, none, some, ok, err, arith, slot, fill, position,
  position-some, Bool-cases, inl, inr,
}
use leaf_os_alpha.Scheduler.Task.{Task, Scheduler, UserTask, is_terminated, terminated, TaskState}
use leaf_os_alpha.Scheduler.Ops.{Outcome, has_id, holds}
use leaf_os_alpha.Scheduler.Ops.States.{holds-false}
use leaf_os_alpha.Scheduler.Lifecycle.{reap_user, reap_task, reap_slot, reap_at, reap_terminated}

is_terminated-terminated : (x : TaskState) → is_terminated x ≡ true → x ≡ terminated
is_terminated-terminated x h = ground arith

module _ {Space : Type 0} where
  -- After a success: the slot that was found held an ended task with the id, not the current one,
  -- and is free now.
  abbrev pub Leaves : Scheduler Space → ℕ → Option ℕ → Outcome Space (Unit {0}) → Type 0
  Leaves s id found (ok x, s') =
      (i : ℕ) × (t : Task Space) × (found ≡ some i)
      × (slot s.tasks i ≡ some t)
      × (t.id ≡ id)
      × (t.state ≡ terminated)
      × (s.current ≢ some i)
      × (s' ≡ record s { tasks = fill i none s.tasks })
  Leaves s id found (err e, s') = Unit {0}

  module _ (destroy : Space → Bool × Space) (s : Scheduler Space) (id i : ℕ) where
    reap_user-Leaves :
        (t : Task Space) (u : UserTask Space) (r : Bool × Space)
        → slot s.tasks i ≡ some t
        → t.id ≡ id
        → t.state ≡ terminated
        → s.current ≢ some i
        → Leaves s id (some i) (reap_user destroy s i t u r)
    unfolding reap_user
    reap_user-Leaves t u (true, space) at same e other = (i, t, refl, at, same, e, other, refl)
    reap_user-Leaves t u (false, space) at same e other = tt

    reap_task-Leaves :
        (t : Task Space) (o : Option (UserTask Space))
        → slot s.tasks i ≡ some t
        → t.id ≡ id
        → t.state ≡ terminated
        → s.current ≢ some i
        → Leaves s id (some i) (reap_task destroy s i t o)
    unfolding reap_task
    reap_task-Leaves t none at same e other = (i, t, refl, at, same, e, other, refl)
    reap_task-Leaves t (some u) at same e other =
        reap_user-Leaves t u (destroy u.address_space) at same e other

    reap_slot-Leaves :
        (o : Option (Task Space))
        → slot s.tasks i ≡ o
        → has_id id o ≡ true
        → s.current ≢ some i
        → Leaves s id (some i) (reap_slot destroy s i o)
    unfolding reap_slot
    reap_slot-Leaves none at same other = tt
    reap_slot-Leaves (some t) at same other = elim (Bool-cases (is_terminated t.state)) [
      | inl e ↦
          rw e
            (reap_task-Leaves t t.user at (ground arith) (is_terminated-terminated t.state e) other)
      | inr e ↦ rw e tt
    ]

  reap_at-Leaves :
      (destroy : Space → Bool × Space) (s : Scheduler Space) (id : ℕ) (o : Option ℕ)
      → position (has_id id) s.tasks ≡ o
      → Leaves s id o (reap_at destroy s o)
  unfolding reap_at
  reap_at-Leaves destroy s id none e = tt
  reap_at-Leaves destroy s id (some i) e = elim (Bool-cases (holds s.current i)) [
    | inl q ↦ rw q tt
    | inr q ↦
        let (_, found, _) = position-some (has_id id) s.tasks i e in
        rw q
          (reap_slot-Leaves destroy s id i (slot s.tasks i) refl found (holds-false s.current i q))
  ]

  pub reap_terminated-Leaves :
      (destroy : Space → Bool × Space) (s : Scheduler Space) (id : ℕ)
      → Leaves s id (position (has_id id) s.tasks) (reap_terminated destroy s id)
  unfolding reap_terminated
  reap_terminated-Leaves destroy s id =
      reap_at-Leaves destroy s id (position (has_id id) s.tasks) refl
