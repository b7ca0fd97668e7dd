-- ===== src/Scheduler/Lifecycle/Creation.antt =====
-- Creating tasks (tasking/scheduler.rs) keeps the table valid.

use leaf_os_alpha.Base.{
  ℕ, ◌+◌, ◌*◌, ◌-◌, ◌%◌, ◌≡◌, ◌<◌, refl, ap, ◌∙◌, true, false, ◌&&◌, Option, none, some, List,
  arith, leb, length, slot, Bool-cases, inl, inr, ok, err, is_none, position, position-some, Result,
  ltb, word, ok_or, number, slot-replicate, length-replicate,
}
use leaf_os_alpha.Scheduler.Task.{
  Task, ready, running, Scheduler, SchedulerError, full, invalid_context, CpuContext, UserTask, new,
}
use leaf_os_alpha.Scheduler.Ops.{put_task}
use leaf_os_alpha.Scheduler.Ops.Table.{IsValid, IsTable-insert, IsFocus-other}
use leaf_os_alpha.Scheduler.Lifecycle.{
  check_task_capacity, insert_at, insert_task, create_task, NewStack, stack_words, stack_slot,
  place_stack, create_task_stack, insert_kernel_task, create_kernel_at, create_kernel_task,
  current_task, spawn_into,
}

-- The errors of a new stack.
pub create_task_stack-error :
    (trampoline base : ℕ) (e : SchedulerError)
    → create_task_stack trampoline base ≡ err e
    → e ≡ invalid_context
unfolding create_task_stack place_stack
create_task_stack-error trampoline base e q =
    elim (Bool-cases (ltb (base + stack_words * 8) word)) [
      | inr f ↦ let r : err invalid_context ≡ err e = rw f at q in cc
      | inl t ↦
          let top : ℕ = base + stack_words * 8 in
          let aligned_top : ℕ = top - top % 16 in
          elim (Bool-cases (leb 16 aligned_top)) [
            | inr f ↦ let r : err invalid_context ≡ err e = rw (t, f) at q in cc
            | inl u ↦ placed aligned_top (stack_slot base (aligned_top - 16)) (rw (t, u) at q)
          ]
    ]
  where
    placed :
        (aligned_top : ℕ) (o : Option ℕ)
        → place_stack trampoline aligned_top (aligned_top - 16) o ≡ err e
        → e ≡ invalid_context
    placed aligned_top none q = cc
    placed aligned_top (some i) q = cc

module _ {Space : Type 0} where
  pub new-IsValid : IsValid (new {Space = Space})
  unfolding new
  new-IsValid = record {
    table = record {
      size = length-replicate {A = Option (Task Space)} 16 none;
      good = λ i t e. absurd (empty i t e);
      unique = λ i j t u e f d. absurd (empty i t e);
    };
    focus = record { only = λ i t e r. absurd (empty i t e); holds_running = λ i e. cc };
    ids = omega arith;
  }
    where
      empty : (i : ℕ) (t : Task Space) → slot (new {Space = Space}).tasks i ≡ some t → ⊥
      empty i t e = let n = slot-replicate {A = Task Space} 16 i in cc

  -- A fresh task put into a free slot under the next id.
  pub inserted-IsValid :
      (s : Scheduler Space) (i : ℕ) (t : Task Space)
      → IsValid s
      → i < length s.tasks
      → slot s.tasks i ≡ none
      → t.id ≡ s.next_id
      → t.state ≡ ready
      → t.is_idle ≡ false
      → s.next_id + 1 < word
      → IsValid (record (put_task i t s) { next_id = s.next_id + 1 })
  inserted-IsValid s i t v h free id r idle w = record {
    table =
        IsTable-insert s.next_id i t s.tasks h id
          (record {
            given = omega arith;
            dated = λ e. ground arith;
            idles = λ e. absurd (ground arith);
          })
          v.table;
    focus =
        IsFocus-other i s.current (some t) s.tasks h (λ u e q. cc)
          (λ u e q.
            let x : t ≡ u = cc in
            let y : t.state ≡ running = ap (λ (z : Task Space). z.state) x ∙ q in cc)
          v.focus;
    ids = w;
  }

  pub is_none-none : (o : Option (Task Space)) → is_none o ≡ true → o ≡ none
  is_none-none none h = refl
  is_none-none (some t) h = cc

  -- The slot that is given out is there and free.
  pub check_task_capacity-ok :
      (s : Scheduler Space) (i : ℕ)
      → check_task_capacity s ≡ ok i
      → (i < length s.tasks) × (slot s.tasks i ≡ none)
  unfolding check_task_capacity
  check_task_capacity-ok s i e = found (position is_none s.tasks) refl e
    where
      found :
          (o : Option ℕ)
          → position is_none s.tasks ≡ o
          → ok_or o full ≡ ok i
          → (i < length s.tasks) × (slot s.tasks i ≡ none)
      found none p q = cc
      found (some j) p q =
          let ji : j ≡ i = cc in
          let (h, free, _) = position-some is_none s.tasks i (p ∙ ap some ji) in
          (h, is_none-none (slot s.tasks i) free)

  pub check_task_capacity-error :
      (s : Scheduler Space) (e : SchedulerError) → check_task_capacity s ≡ err e → e ≡ full
  unfolding check_task_capacity
  check_task_capacity-error s e q = found (position is_none s.tasks) q
    where
      found : (o : Option ℕ) → ok_or o full ≡ err e → e ≡ full
      found none p = cc
      found (some j) p = cc

  insert_at-IsValid :
      (s : Scheduler Space) (o : Option ℕ) (make : ℕ → Task Space)
      → position is_none s.tasks ≡ o
      → (make s.next_id).id ≡ s.next_id
      → (make s.next_id).state ≡ ready
      → (make s.next_id).is_idle ≡ false
      → IsValid s
      → IsValid (insert_at s (ok_or o full) make).1
  unfolding insert_at
  insert_at-IsValid s none make e id r idle v = v
  insert_at-IsValid s (some i) make e id r idle v = elim (Bool-cases (ltb (s.next_id + 1) word)) [
    | inl q ↦
        let (h, free, _) = position-some is_none s.tasks i e in
        rw q (
          inserted-IsValid s i (make s.next_id) v h (is_none-none (slot s.tasks i) free) id r idle
            (ground arith))
    | inr q ↦ rw q v
  ]

  pub insert_task-IsValid :
      (s : Scheduler Space) (context : CpuContext) (parent entry : Option ℕ)
      (user : Option (UserTask Space)) (stack : Option (List ℕ)) (stack_top : Option ℕ)
      → IsValid s
      → IsValid (insert_task s context parent entry user stack stack_top).1
  unfolding insert_task
  insert_task-IsValid s context parent entry user stack stack_top v =
      insert_at-IsValid s (position is_none s.tasks) _ refl refl refl refl v

  create_task-IsValid :
      (s : Scheduler Space) (context : CpuContext) → IsValid s → IsValid (create_task s context).1
  unfolding create_task
  create_task-IsValid s context v = insert_task-IsValid s context none none none none none v

  insert_kernel_task-IsValid :
      (s : Scheduler Space) (entry : ℕ) (parent : Option ℕ) (stack : Result NewStack SchedulerError)
      → IsValid s
      → IsValid (insert_kernel_task s entry parent stack).1
  unfolding insert_kernel_task
  insert_kernel_task-IsValid s entry parent (err e) v = v
  insert_kernel_task-IsValid s entry parent (ok stack) v = insert_task-IsValid s _ _ _ _ _ _ v

  create_kernel_at-IsValid :
      (s : Scheduler Space) (trampoline base entry : ℕ) (parent : Option ℕ)
      (r : Result ℕ SchedulerError)
      → IsValid s
      → IsValid (create_kernel_at s trampoline base entry parent r).1
  unfolding create_kernel_at
  create_kernel_at-IsValid s tr base entry parent (err e) v = v
  create_kernel_at-IsValid s tr base entry parent (ok i) v =
      elim (Bool-cases (ltb (s.next_id + 1) word)) [
        | inl q ↦ rw q (insert_kernel_task-IsValid s entry parent (create_task_stack tr base) v)
        | inr q ↦ rw q v
      ]

  pub create_kernel_task-IsValid :
      (s : Scheduler Space) (trampoline base entry : ℕ) (parent : Option ℕ)
      → IsValid s
      → IsValid (create_kernel_task s trampoline base entry parent).1
  unfolding create_kernel_task
  create_kernel_task-IsValid s tr base entry parent v =
      create_kernel_at-IsValid s tr base entry parent (check_task_capacity s) v

  pub spawn_into-IsValid :
      (s : Scheduler Space) (trampoline base entry : ℕ)
      → IsValid s
      → IsValid (spawn_into s trampoline base entry).1
  unfolding spawn_into
  spawn_into-IsValid s tr base entry v =
      elim (Bool-cases (is_none s.idle_index && leb (number is_none s.tasks) 1)) [
        | inl q ↦ rw q v
        | inr q ↦ rw q (create_kernel_task-IsValid s tr base entry (current_task s) v)
      ]
