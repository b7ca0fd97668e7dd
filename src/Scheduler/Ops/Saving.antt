-- ===== src/Scheduler/Ops/Saving.antt =====
-- Saving the context of the current task (tasking/scheduler.rs) keeps the table valid.
use leaf_os_alpha.Base.{
  ℕ, ◌<◌, ◌≡◌, refl, sym, subst, ap, ◌∙◌, Option, none, some, List, arith, ◌==◌, length, slot, fill,
  slot_in_range, Bool-cases, inl, inr,
}
use leaf_os_alpha.Scheduler.Task.{Task, running, Scheduler, CpuContext}
use leaf_os_alpha.Scheduler.Ops.{put_task, save_in, save_at, save_current_context}
use leaf_os_alpha.Scheduler.Ops.Table.{
  IsGood, IsFocus, IsValid, IsTable-replace, fill_cases, fill_same, fill_other,
}

module _ {Space : Type 0} where
  -- A change of a task that leaves its state.
  pub IsFocus-same :
      (i : ℕ) (current : Option ℕ) (t t' : Task Space) (tasks : List (Option (Task Space)))
      → slot tasks i ≡ some t
      → t'.state ≡ t.state
      → IsFocus current tasks
      → IsFocus current (fill i (some t') tasks)
  IsFocus-same i current t t' tasks at same f = record {
    only = λ j u e r. elim (fill_cases i j (some t') tasks u inside e) [
      | inl (p, q) ↦
          let one : t' ≡ u = cc in
          let was : t.state ≡ running = sym same ∙ ap (λ (x : Task Space). x.state) one ∙ r in
          f.only i t at was ∙ ap some p
      | inr (p, q) ↦ f.only j u q r
    ];
    holds_running = λ j c. elim (Bool-cases (i == j)) [
      | inl e ↦
          let p : i ≡ j = ground arith in
          let (u, there, r) = f.holds_running j c in
          let one : t ≡ u = cc in
          let here : slot (fill i (some t') tasks) j ≡ some t' =
            subst (λ k. slot (fill i (some t') tasks) k ≡ some t') p
              (fill_same i (some t') tasks inside) in
          (t', here, same ∙ ap (λ (x : Task Space). x.state) one ∙ r)
      | inr e ↦
          let (u, there, r) = f.holds_running j c in
          (u, fill_other i j (some t') tasks inside (λ p. ground arith) ∙ there, r)
    ];
  }
    where
      inside : i < length tasks
      inside = slot_in_range tasks i t at

  -- A task replaced by a good one in its state.
  pub put_same-IsValid :
      (s : Scheduler Space) (i : ℕ) (t t' : Task Space)
      → IsValid s
      → slot s.tasks i ≡ some t
      → t'.id ≡ t.id
      → t'.state ≡ t.state
      → IsGood s.next_id t'
      → IsValid (put_task i t' s)
  put_same-IsValid s i t t' v at id state g = record {
    table = IsTable-replace s.next_id i t t' s.tasks at id g v.table;
    focus = IsFocus-same i s.current t t' s.tasks at state v.focus;
    ids = v.ids;
  }

  save_in-IsValid :
      (s : Scheduler Space) (context : CpuContext) (i : ℕ) (o : Option (Task Space))
      → IsValid s
      → slot s.tasks i ≡ o
      → IsValid (save_in s context i o).1
  unfolding save_in
  save_in-IsValid s context i none v at = v
  save_in-IsValid s context i (some t) v at =
      let g = v.table.good i t at in
      put_same-IsValid s i t (record t { context = context }) v at refl refl
        (record { given = g.given; dated = g.dated; idles = g.idles })

  save_at-IsValid :
      (s : Scheduler Space) (context : CpuContext) (o : Option ℕ)
      → IsValid s
      → IsValid (save_at s context o).1
  unfolding save_at
  save_at-IsValid s context none v = v
  save_at-IsValid s context (some i) v = save_in-IsValid s context i (slot s.tasks i) v refl

  save_current_context-IsValid :
      (s : Scheduler Space) (context : CpuContext)
      → IsValid s
      → IsValid (save_current_context s context).1
  unfolding save_current_context
  save_current_context-IsValid s context v = save_at-IsValid s context s.current v
