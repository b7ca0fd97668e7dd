-- ===== src/Scheduler/Lifecycle/Reaping.antt =====
-- Reaping ended tasks (tasking/scheduler.rs) keeps the table valid.

use leaf_os_alpha.Base.{
  ℕ, ◌≡◌, refl, ap, ◌∙◌, Bool, true, false, Option, none, some, arith, slot, fill, slot_in_range,
  Bool-cases, inl, inr, position,
}
use leaf_os_alpha.Scheduler.Task.{Task, running, terminated, is_terminated, Scheduler, UserTask}
use leaf_os_alpha.Scheduler.Ops.{has_id, holds}
use leaf_os_alpha.Scheduler.Ops.Table.{IsValid, IsTable-remove, IsFocus-other}
use leaf_os_alpha.Scheduler.Ops.States.{put_task-IsValid}
use leaf_os_alpha.Scheduler.Lifecycle.{reap_user, reap_task, reap_slot, reap_at, reap_terminated}

module _ {Space : Type 0} (destroy : Space → Bool × Space) where
  removed-IsValid :
      (s : Scheduler Space) (i : ℕ) (t : Task Space)
      → IsValid s
      → slot s.tasks i ≡ some t
      → t.state ≡ terminated
      → IsValid (record s { tasks = fill i none s.tasks })
  removed-IsValid s i t v at r = record {
    table = IsTable-remove s.next_id i t s.tasks at v.table;
    focus =
        IsFocus-other i s.current none s.tasks (slot_in_range s.tasks i t at)
          (λ u e q.
            let x : t ≡ u = cc in
            let y : t.state ≡ running = ap (λ (z : Task Space). z.state) x ∙ q in cc)
          (λ u e q. cc) v.focus;
    ids = v.ids;
  }

  reap_user-IsValid :
      (s : Scheduler Space) (i : ℕ) (t : Task Space) (u : UserTask Space) (r : Bool × Space)
      → IsValid s
      → slot s.tasks i ≡ some t
      → t.state ≡ terminated
      → IsValid (reap_user destroy s i t u r).1
  unfolding reap_user
  reap_user-IsValid s i t u (true, space) v at q = removed-IsValid s i t v at q
  reap_user-IsValid s i t u (false, space) v at q =
      let g = v.table.good i t at in
      put_task-IsValid s i t _ v at refl (λ r. cc) (λ r. cc)
        (record { given = g.given; dated = g.dated; idles = g.idles })

  reap_task-IsValid :
      (s : Scheduler Space) (i : ℕ) (t : Task Space) (o : Option (UserTask Space))
      → IsValid s
      → slot s.tasks i ≡ some t
      → t.state ≡ terminated
      → IsValid (reap_task destroy s i t o).1
  unfolding reap_task
  reap_task-IsValid s i t none v at q = removed-IsValid s i t v at q
  reap_task-IsValid s i t (some u) v at q =
      reap_user-IsValid s i t u (destroy u.address_space) v at q

  reap_slot-IsValid :
      (s : Scheduler Space) (i : ℕ) (o : Option (Task Space))
      → IsValid s
      → slot s.tasks i ≡ o
      → IsValid (reap_slot destroy s i o).1
  unfolding reap_slot
  reap_slot-IsValid s i none v at = v
  reap_slot-IsValid s i (some t) v at = elim (Bool-cases (is_terminated t.state)) [
    | inl e ↦ rw e (reap_task-IsValid s i t t.user v at (ground arith))
    | inr e ↦ rw e v
  ]

  reap_at-IsValid :
      (s : Scheduler Space) (o : Option ℕ) → IsValid s → IsValid (reap_at destroy s o).1
  unfolding reap_at
  reap_at-IsValid s none v = v
  reap_at-IsValid s (some i) v = elim (Bool-cases (holds s.current i)) [
    | inl e ↦ rw e v
    | inr e ↦ rw e (reap_slot-IsValid s i (slot s.tasks i) v refl)
  ]

  pub reap_terminated-IsValid :
      (s : Scheduler Space) (id : ℕ) → IsValid s → IsValid (reap_terminated destroy s id).1
  unfolding reap_terminated
  reap_terminated-IsValid s id v = reap_at-IsValid s (position (has_id id) s.tasks) v
