-- ===== src/Scheduler/Switch/Installing.antt =====
-- Starting and stopping the tasks (tasking/scheduler.rs) keeps the scheduler valid: the idle task is
-- put in, and taken out.

use leaf_os_alpha.Base.{
  ℕ, ◌≡◌, ◌⊎◌, refl, sym, ap, subst, ◌∙◌, true, false, ◌&&◌, Option, none, some, arith, ok, err,
  if◌then◌else◌, is_none, position, position-some, slot, slot_in_range, fill, Bool-cases, inl, inr,
}
use leaf_os_alpha.Scheduler.Task.{Task, ready, running, is_ready, Scheduler}
use leaf_os_alpha.Scheduler.Ops.{Outcome, has_id, start}
use leaf_os_alpha.Scheduler.Ops.Table.{IsValid, fill_same, IsTable-remove, IsFocus-other}
use leaf_os_alpha.Scheduler.Ops.Saving.{put_same-IsValid}
use leaf_os_alpha.Scheduler.Ops.Tables.{tables, tables-put, start-Keeps}
use leaf_os_alpha.Scheduler.Ops.Processor.{start-IsValid}
use leaf_os_alpha.Scheduler.Lifecycle.{create_kernel_task}
use leaf_os_alpha.Scheduler.Lifecycle.Creation.{create_kernel_task-IsValid}
use leaf_os_alpha.Scheduler.Lifecycle.Tables.{Adds, Grows, Adds-Grows, create_kernel_task-Adds}
use leaf_os_alpha.Scheduler.Switch.{
  make_idle, install_slot, install_at, install_created, install_idle, run_started, run_installed,
  run_tasks, is_ready_idle, is_removing, remove_idle_at, remove_idle,
}

module _ {Space : Type 0} where
  -- The scheduler is valid, and at most one first table has come.
  abbrev pub Starts : Scheduler Space → Scheduler Space → Type 0
  Starts s s' = IsValid s' × Grows s s'

  more_keeps :
      (s s' s'' : Scheduler Space) → Grows s s' → tables s''.tasks ≡ tables s'.tasks → Grows s s''
  more_keeps s s' s'' (inl e) q = inl (q ∙ e)
  more_keeps s s' s'' (inr (i, h, free, e)) q = inr (i, h, free, q ∙ e)

  -- The task that was made is found by its id, is ready and has no parent.
  install_slot-Starts :
      (s s' : Scheduler Space) (i j : ℕ) (t : Task Space) (o : Option (Task Space))
      → IsValid s'
      → Grows s s'
      → slot s'.tasks i ≡ some t
      → t.state ≡ ready
      → t.parent ≡ none
      → slot s'.tasks j ≡ o
      → has_id t.id o ≡ true
      → Starts s (install_slot s' j o).1
  unfolding install_slot
  install_slot-Starts s s' i j t none v g at r p here e = (v, g)
  install_slot-Starts s s' i j t (some u) v g at r p here e =
      let q : i ≡ j = v.table.unique i j t u at here (ground arith) in
      let x : t ≡ u = let y : some t ≡ some u = sym at ∙ ap (slot s'.tasks) q ∙ here in cc in
      let good = v.table.good j u here in
      let w = put_same-IsValid s' j u (make_idle u) v here refl refl (record {
        given = good.given;
        dated = good.dated;
        idles = λ h. (
          inl (ap (λ (y : Task Space). y.state) (sym x) ∙ r),
          ap (λ (y : Task Space). y.parent) (sym x) ∙ p,
        );
      }) in
      (
        record { table = w.table; focus = w.focus; ids = w.ids },
        more_keeps s s' (install_slot s' j (some u)).1 g
            (tables-put j u (make_idle u) s'.tasks here refl),
      )

  install_at-Starts :
      (s s' : Scheduler Space) (i : ℕ) (t : Task Space) (o : Option ℕ)
      → IsValid s'
      → Grows s s'
      → slot s'.tasks i ≡ some t
      → t.state ≡ ready
      → t.parent ≡ none
      → position (has_id t.id) s'.tasks ≡ o
      → Starts s (install_at s' o).1
  unfolding install_at
  install_at-Starts s s' i t none v g at r p e = (v, g)
  install_at-Starts s s' i t (some j) v g at r p e =
      let (_, here, _) = position-some (has_id t.id) s'.tasks j e in
      install_slot-Starts s s' i j t (slot s'.tasks j) v g at r p refl here

  install_created-Starts :
      (s : Scheduler Space) (r : Outcome Space ℕ)
      → IsValid r.1
      → Adds none s r
      → Starts s (install_created r).1
  unfolding install_created
  install_created-Starts s (err e, s') v a = (v, Adds-Grows none s (err e, s') a)
  install_created-Starts s (ok id, s') v (i, t, h, free, q, f, d, r, p) =
      subst (λ n. Starts s (install_at s' (position (has_id n) s'.tasks)).1) d
        (install_at-Starts s s' i t (position (has_id t.id) s'.tasks) v
          (Adds-Grows none s (ok id, s') (i, t, h, free, q, f, d, r, p))
          (ap (λ l. slot l i) q ∙ fill_same i (some t) s.tasks h) r p refl)

  install_idle-Starts :
      (trampoline base entry : ℕ) (s : Scheduler Space)
      → IsValid s
      → Starts s (install_idle trampoline base entry s).1
  unfolding install_idle
  install_idle-Starts tr base entry s v = elim (Bool-cases (is_none s.idle_index)) [
    | inl e ↦ rw e (
        install_created-Starts s (create_kernel_task s tr base entry none)
          (create_kernel_task-IsValid s tr base entry none v)
          (create_kernel_task-Adds s tr base entry none))
    | inr e ↦ rw e (v, inl refl)
  ]

  run_installed-Starts :
      (s : Scheduler Space) (r : Outcome Space (Unit {0}))
      → Starts s r.1
      → Starts s (run_installed r).1
  unfolding run_installed run_started
  run_installed-Starts s (err e, s') v = v
  run_installed-Starts s (ok x, s') (v, g) =
      run_started-Starts (start s')
        (start-IsValid s' v, more_keeps s s' (start s').1 g (start-Keeps s'))
    where
      run_started-Starts : (r : Outcome Space ℕ) → Starts s r.1 → Starts s (run_started r).1
      run_started-Starts (err e, s'') v = v
      run_started-Starts (ok id, s'') v = v

  pub run_tasks-Starts :
      (trampoline base entry : ℕ) (s : Scheduler Space)
      → IsValid s
      → Starts s (run_tasks trampoline base entry s).1
  unfolding run_tasks
  run_tasks-Starts tr base entry s v =
      run_installed-Starts s (install_idle tr base entry s) (install_idle-Starts tr base entry s v)

  -- The idle task is taken out only when it is ready.
  remove_idle_at-IsValid :
      (s : Scheduler Space) (o : Option ℕ) → IsValid s → IsValid (remove_idle_at s o)
  unfolding remove_idle_at
  remove_idle_at-IsValid s none v = v
  remove_idle_at-IsValid s (some i) v = removed (slot s.tasks i) refl
    where
      removed :
          (o : Option (Task Space))
          → slot s.tasks i ≡ o
          → IsValid (
              if is_none s.current && is_ready_idle o
              then record s { idle_index = none; tasks = fill i none s.tasks }
              else s)
      removed none at = elim (Bool-cases (is_none s.current && false)) [
        | inl e ↦ absurd (ground arith)
        | inr e ↦ rw e v
      ]
      removed (some t) at =
          elim (Bool-cases (is_none s.current && (t.is_idle && is_ready t.state))) [
            | inl e ↦
                let r : t.state ≡ ready = ground arith in
                rw e (record {
                  table = IsTable-remove s.next_id i t s.tasks at v.table;
                  focus =
                      IsFocus-other i s.current none s.tasks (slot_in_range s.tasks i t at)
                        (λ u e q.
                          let x : t ≡ u = cc in
                          let y : t.state ≡ running = ap (λ (z : Task Space). z.state) x ∙ q in cc)
                        (λ u e q. cc) v.focus;
                  ids = v.ids;
                })
            | inr e ↦ rw e v
          ]

  pub remove_idle-IsValid : (s : Scheduler Space) → IsValid s → IsValid (remove_idle s)
  unfolding remove_idle
  remove_idle-IsValid s v = remove_idle_at-IsValid s s.idle_index v

  -- Nothing happens, or the idle task's slot is freed.
  pub remove_idle-cases :
      (s : Scheduler Space)
      → ((is_removing s s.idle_index ≡ false) × (remove_idle s ≡ s))
        ⊎ ((i : ℕ) × (s.idle_index ≡ some i)
            × (is_removing s s.idle_index ≡ true)
            × ((remove_idle s).tasks ≡ fill i none s.tasks))
  unfolding remove_idle remove_idle_at
  remove_idle-cases s = at_index s.idle_index refl
    where
      at_index :
          (o : Option ℕ)
          → s.idle_index ≡ o
          → ((is_removing s o ≡ false) × (remove_idle_at s o ≡ s))
            ⊎ ((i : ℕ) × (o ≡ some i)
                × (is_removing s o ≡ true)
                × ((remove_idle_at s o).tasks ≡ fill i none s.tasks))
      at_index none e = inl (refl, refl)
      at_index (some i) e = elim (Bool-cases (is_removing s (some i))) [
        | inl q ↦ inr (i, refl, q, rw q refl)
        | inr q ↦ inl (q, rw q refl)
      ]
