-- ===== src/Scheduler/Ops/Processor.antt =====
-- The methods of `Scheduler` that hand over the processor keep the table valid.

use leaf_os_alpha.Base.{
  ℕ, ◌≡◌, ◌≢◌, ◌<◌, refl, subst, not, ◌&&◌, ◌||◌, Option, none, some, arith, if◌then◌else◌, slot,
  slot_in_range, Bool-cases, inl, inr, err, is_some, word,
}
use leaf_os_alpha.Scheduler.Task.{
  Task, TaskState, ready, blocked, terminated, running, sleeping, is_ready, is_running, Scheduler,
  already_started,
}
use leaf_os_alpha.Scheduler.Ops.{
  transition_at, sleep_at, put_task, select_next, start, transition_task, transition_current,
  sleep_task, sleep_current_until, yield_current, block_current, terminate_current,
}
use leaf_os_alpha.Scheduler.Ops.Table.{
  IsGood, IsTable, IsFocus, IsValid, IsTable-replace, IsFocus-stop, IsFocus-start,
}
use leaf_os_alpha.Scheduler.Ops.Select.{select_next-Picks}

module _ {Space : Type 0} where
  -- The processor is free.
  record IsIdling (s : Scheduler Space) : Type 0 where
    table : IsTable s.next_id s.tasks
    focus : IsFocus none s.tasks
    ids : s.next_id < word

  select_next-IsValid :
      (s : Scheduler Space) (start : ℕ) → IsIdling s → IsValid (select_next s start).1
  select_next-IsValid s start v = elim (select_next-Picks s start v.table.size) [
    | inl (i, t, at, _, e) ↦
        let g = v.table.good i t at in
        rw e (record {
          table =
              IsTable-replace s.next_id i t (record t { state = running }) s.tasks at refl
                (record {
                  given = g.given;
                  dated = λ h. cc;
                  idles = λ h. (inr refl, (g.idles h).1);
                })
                v.table;
          focus =
              IsFocus-start i (record t { state = running }) s.tasks (slot_in_range s.tasks i t at)
                refl v.focus;
          ids = v.ids;
        })
    | inr (_, e) ↦ rw e (record { table = v.table; focus = v.focus; ids = v.ids })
  ]

  start_cases :
      (s : Scheduler Space) (o : Option ℕ)
      → s.current ≡ o
      → IsValid s
      → IsValid (if is_some o then (err already_started, s) else select_next s 0).1
  start_cases s none e v =
      select_next-IsValid s 0
        (record { table = v.table; focus = subst (λ c. IsFocus c s.tasks) e v.focus; ids = v.ids })
  start_cases s (some c) e v = v

  pub start-IsValid : (s : Scheduler Space) → IsValid s → IsValid (start s).1
  unfolding start
  start-IsValid s v = start_cases s s.current refl v

  -- A good task that leaves the processor in another state.
  stopped-IsIdling :
      (s : Scheduler Space) (i : ℕ) (t t' : Task Space)
      → IsValid s
      → s.current ≡ some i
      → slot s.tasks i ≡ some t
      → t'.id ≡ t.id
      → t'.state ≢ running
      → IsGood s.next_id t'
      → IsIdling (record (put_task i t' s) { current = none })
  stopped-IsIdling s i t t' v c at same ne g = record {
    table = IsTable-replace s.next_id i t t' s.tasks at same g v.table;
    focus = IsFocus-stop i t t' s.tasks at ne (subst (λ x. IsFocus x s.tasks) c v.focus);
    ids = v.ids;
  }

  pub stopped-IsValid :
      (s : Scheduler Space) (i : ℕ) (t t' : Task Space)
      → IsValid s
      → s.current ≡ some i
      → slot s.tasks i ≡ some t
      → t'.id ≡ t.id
      → t'.state ≢ running
      → IsGood s.next_id t'
      → IsValid (record (put_task i t' s) { current = none })
  stopped-IsValid s i t t' v c at same ne g =
      let w = stopped-IsIdling s i t t' v c at same ne g in
      record { table = w.table; focus = w.focus; ids = w.ids }

  transition_task-IsValid :
      (s : Scheduler Space) (next_state : TaskState) (i : ℕ) (o : Option (Task Space))
      → next_state ≢ running
      → next_state ≢ sleeping
      → IsValid s
      → s.current ≡ some i
      → slot s.tasks i ≡ o
      → IsValid (transition_task s next_state i o).1
  unfolding transition_task
  transition_task-IsValid s next i none nr ns v c at = v
  transition_task-IsValid s next i (some t) nr ns v c at =
      elim (Bool-cases (not (is_running t.state) || (t.is_idle && not (is_ready next)))) [
        | inl e ↦ rw e v
        | inr e ↦ rw e (
            select_next-IsValid _ _ (
              stopped-IsIdling s i t _ v c at refl nr (record {
                given = (v.table.good i t at).given;
                dated = λ h. absurd (ns (ground arith));
                idles = λ h. (inl (ground arith), ((v.table.good i t at).idles h).1);
              })))
      ]

  transition_at-IsValid :
      (s : Scheduler Space) (next_state : TaskState) (o : Option ℕ)
      → next_state ≢ running
      → next_state ≢ sleeping
      → IsValid s
      → s.current ≡ o
      → IsValid (transition_at s next_state o).1
  unfolding transition_at
  transition_at-IsValid s next none nr ns v e = v
  transition_at-IsValid s next (some i) nr ns v e =
      transition_task-IsValid s next i (slot s.tasks i) nr ns v e refl

  pub transition_current-IsValid :
      (s : Scheduler Space) (next_state : TaskState)
      → next_state ≢ running
      → next_state ≢ sleeping
      → IsValid s
      → IsValid (transition_current s next_state).1
  unfolding transition_current
  transition_current-IsValid s next nr ns v = transition_at-IsValid s next s.current nr ns v refl

  sleep_task-IsValid :
      (s : Scheduler Space) (deadline i : ℕ) (o : Option (Task Space))
      → IsValid s
      → s.current ≡ some i
      → slot s.tasks i ≡ o
      → IsValid (sleep_task s deadline i o).1
  unfolding sleep_task
  sleep_task-IsValid s d i none v c at = v
  sleep_task-IsValid s d i (some t) v c at =
      elim (Bool-cases (not (is_running t.state) || t.is_idle)) [
        | inl e ↦ rw e v
        | inr e ↦ rw e (
            select_next-IsValid _ _ (
              stopped-IsIdling s i t _ v c at refl (λ p. cc)
                (record {
                  given = (v.table.good i t at).given;
                  dated = λ h. refl;
                  idles = λ h. absurd (ground arith);
                })))
      ]

  sleep_at-IsValid :
      (s : Scheduler Space) (deadline : ℕ) (o : Option ℕ)
      → IsValid s
      → s.current ≡ o
      → IsValid (sleep_at s deadline o).1
  unfolding sleep_at
  sleep_at-IsValid s d none v e = v
  sleep_at-IsValid s d (some i) v e = sleep_task-IsValid s d i (slot s.tasks i) v e refl

  pub sleep_current_until-IsValid :
      (s : Scheduler Space) (deadline : ℕ) → IsValid s → IsValid (sleep_current_until s deadline).1
  unfolding sleep_current_until
  sleep_current_until-IsValid s d v = sleep_at-IsValid s d s.current v refl

  yield_current-IsValid : (s : Scheduler Space) → IsValid s → IsValid (yield_current s).1
  unfolding yield_current
  yield_current-IsValid s v = transition_current-IsValid s ready (λ e. cc) (λ e. cc) v

  block_current-IsValid : (s : Scheduler Space) → IsValid s → IsValid (block_current s).1
  unfolding block_current
  block_current-IsValid s v = transition_current-IsValid s blocked (λ e. cc) (λ e. cc) v

  terminate_current-IsValid : (s : Scheduler Space) → IsValid s → IsValid (terminate_current s).1
  unfolding terminate_current
  terminate_current-IsValid s v = transition_current-IsValid s terminated (λ e. cc) (λ e. cc) v
