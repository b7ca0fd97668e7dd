-- ===== src/Scheduler/Switch/Valid.antt =====
-- The functions that change tasks (tasking/scheduler.rs) keep the scheduler valid, and the
-- descriptor tables as they are.

use leaf_os_alpha.Base.{
  ℕ, ◌+◌, ◌%◌, ◌≡◌, ◌≢◌, refl, sym, subst, ◌∙◌, Bool, true, false, if◌then◌else◌, ◌==◌, Option,
  none, some, ok, err, slot, Bool-cases, inl, inr, word,
}
use leaf_os_alpha.Scheduler.Task.{
  Task, TaskState, ready, running, blocked, sleeping, terminated, SchedulerError, Scheduler,
}
use leaf_os_alpha.Scheduler.Ops.{
  Outcome, put_task, transition_current, sleep_current_until, wake_expired_sleepers, wake_parent,
  has_live_non_idle_tasks, parent_of,
}
use leaf_os_alpha.Scheduler.Ops.Table.{IsValid}
use leaf_os_alpha.Scheduler.Ops.Saving.{put_same-IsValid}
use leaf_os_alpha.Scheduler.Ops.Tables.{
  tables-put, sleep_current_until-Keeps, wake_expired_sleepers-Keeps, wake_parent-Keeps,
  transition_current-Keeps,
}
use leaf_os_alpha.Scheduler.Ops.States.{wake_expired_sleepers-IsValid, wake_parent-IsValid}
use leaf_os_alpha.Scheduler.Ops.Processor.{
  transition_current-IsValid, sleep_current_until-IsValid, stopped-IsValid,
}
use leaf_os_alpha.Scheduler.Switch.{
  Handover, failed, panics, save_rsp_in, save_current_user_rsp, settle, yield_settle, yield_from,
  yield_now, preempt_settle, preempt_at, preempt_from_timer, block_from, block_now, sleep_from,
  sleep_ticks, exit_task, exit_group, exit_from, exit_current, idle_rest, idle_from, idle_round,
}
use leaf_os_alpha.Scheduler.Switch.Group.{Fits, end_group-Fits}

module _ {Space : Type 0} where
  -- Two changes, one after the other.
  pub then_Fits : (s s' s'' : Scheduler Space) → Fits s s' → (IsValid s' → Fits s' s'') → Fits s s''
  then_Fits s s' s'' (v, e) f = let (w, e') = f v in (w, e' ∙ e)

  if-Fits :
      (s : Scheduler Space) (b : Bool) (x y : Handover × Scheduler Space)
      → (b ≡ true → Fits s x.1)
      → (b ≡ false → Fits s y.1)
      → Fits s (if b then x else y).1
  if-Fits s true x y f g = f refl
  if-Fits s false x y f g = g refl

  save_rsp_in-Fits :
      (rsp i : ℕ) (o : Option (Task Space)) (s : Scheduler Space)
      → IsValid s
      → slot s.tasks i ≡ o
      → Fits s (save_rsp_in rsp i o s)
  unfolding save_rsp_in
  save_rsp_in-Fits rsp i none s v at = (v, refl)
  save_rsp_in-Fits rsp i (some t) s v at =
      let g = v.table.good i t at in
      (
        put_same-IsValid s i t _ v at refl refl
            (record { given = g.given; dated = g.dated; idles = g.idles }),
        tables-put i t _ s.tasks at refl,
      )

  pub save_current_user_rsp-Fits :
      (rsp i : ℕ) (s : Scheduler Space) → IsValid s → Fits s (save_current_user_rsp rsp s i)
  unfolding save_current_user_rsp
  save_current_user_rsp-Fits rsp i s v = save_rsp_in-Fits rsp i (slot s.tasks i) s v refl

  save_rsp_in-current :
      (rsp i : ℕ) (o : Option (Task Space)) (s : Scheduler Space)
      → (save_rsp_in rsp i o s).current ≡ s.current
  unfolding save_rsp_in
  save_rsp_in-current rsp i none s = refl
  save_rsp_in-current rsp i (some t) s = refl

  pub save_current_user_rsp-current :
      (rsp i : ℕ) (s : Scheduler Space) → (save_current_user_rsp rsp s i).current ≡ s.current
  unfolding save_current_user_rsp
  save_current_user_rsp-current rsp i s = save_rsp_in-current rsp i (slot s.tasks i) s

  pub transition_current-Fits :
      (s : Scheduler Space) (next : TaskState)
      → next ≢ running
      → next ≢ sleeping
      → IsValid s
      → Fits s (transition_current s next).1
  transition_current-Fits s next nr ns v =
      (transition_current-IsValid s next nr ns v, transition_current-Keeps s next)

  settle-Fits :
      (s : Scheduler Space) (lost : SchedulerError → Handover) (old : ℕ) (o : Outcome Space ℕ)
      → Fits s o.1
      → Fits s (settle lost old o).1
  unfolding settle
  settle-Fits s lost old (r, s') f = f

  yield_settle-state : (old : ℕ) (o : Outcome Space ℕ) → (yield_settle old o).1 ≡ o.1
  unfolding yield_settle
  yield_settle-state old (err e, s) = refl
  yield_settle-state old (ok id, s) = refl

  yield_from-Fits :
      (rsp : ℕ) (s : Scheduler Space) (o : Option ℕ) → IsValid s → Fits s (yield_from rsp s o).1
  unfolding yield_from
  yield_from-Fits rsp s none v = (v, refl)
  yield_from-Fits rsp s (some c) v = subst (Fits s) (sym (yield_settle-state c _)) (
      then_Fits s _ _ (save_current_user_rsp-Fits rsp c s v)
        (transition_current-Fits _ ready (λ e. cc) (λ e. cc)))

  pub yield_now-Fits : (rsp : ℕ) (s : Scheduler Space) → IsValid s → Fits s (yield_now rsp s).1
  unfolding yield_now
  yield_now-Fits rsp s v = yield_from-Fits rsp s s.current v

  preempt_settle-Fits :
      (s : Scheduler Space) (current : ℕ) (o : Outcome Space ℕ)
      → Fits s o.1
      → Fits s (preempt_settle current o).1
  unfolding preempt_settle
  preempt_settle-Fits s current (r, s') f = f

  preempt_at-Fits :
      (now : ℕ) (s : Scheduler Space) (o : Option ℕ) → IsValid s → Fits s (preempt_at now s o).1
  unfolding preempt_at
  preempt_at-Fits now s none v = (v, refl)
  preempt_at-Fits now s (some c) v =
      preempt_settle-Fits s c (transition_current (wake_expired_sleepers s now) ready) (
        then_Fits s _ _ (wake_expired_sleepers-IsValid s now v, wake_expired_sleepers-Keeps s now)
          (transition_current-Fits _ ready (λ e. cc) (λ e. cc)))

  pub preempt_from_timer-Fits :
      (now : ℕ) (s : Scheduler Space) → IsValid s → Fits s (preempt_from_timer now s).1
  unfolding preempt_from_timer
  preempt_from_timer-Fits now s v = preempt_at-Fits now s s.current v

  block_from-Fits :
      (rsp : ℕ) (s : Scheduler Space) (o : Option ℕ) → IsValid s → Fits s (block_from rsp s o).1
  unfolding block_from
  block_from-Fits rsp s none v = (v, refl)
  block_from-Fits rsp s (some c) v =
      settle-Fits s failed c (transition_current (save_current_user_rsp rsp s c) blocked) (
        then_Fits s _ _ (save_current_user_rsp-Fits rsp c s v)
          (transition_current-Fits _ blocked (λ e. cc) (λ e. cc)))

  pub block_now-Fits : (rsp : ℕ) (s : Scheduler Space) → IsValid s → Fits s (block_now rsp s).1
  unfolding block_now
  block_now-Fits rsp s v = block_from-Fits rsp s s.current v

  sleep_from-Fits :
      (rsp deadline : ℕ) (s : Scheduler Space) (o : Option ℕ)
      → IsValid s
      → Fits s (sleep_from rsp deadline s o).1
  unfolding sleep_from
  sleep_from-Fits rsp d s none v = (v, refl)
  sleep_from-Fits rsp d s (some c) v =
      settle-Fits s failed c (sleep_current_until (save_current_user_rsp rsp s c) d) (
        then_Fits s _ _ (save_current_user_rsp-Fits rsp c s v)
          (λ w. (sleep_current_until-IsValid _ d w, sleep_current_until-Keeps _ d)))

  pub sleep_ticks-Fits :
      (rsp now duration : ℕ) (s : Scheduler Space)
      → IsValid s
      → Fits s (sleep_ticks rsp now duration s).1
  unfolding sleep_ticks
  sleep_ticks-Fits rsp now duration s v = elim (Bool-cases (duration == 0)) [
    | inl e ↦ rw e (v, refl)
    | inr e ↦ rw e (sleep_from-Fits rsp ((now + duration) % word) s s.current v)
  ]

  exit_task-Fits :
      (current : ℕ) (code : Option ℕ) (s : Scheduler Space) (o : Option (Task Space))
      → IsValid s
      → slot s.tasks current ≡ o
      → Fits s (exit_task current code s o).1
  unfolding exit_task
  exit_task-Fits current code s none v at = (v, refl)
  exit_task-Fits current code s (some t) v at =
      let g = v.table.good current t at in
      let s' : Scheduler Space = put_task current (record t { exit_code = code }) s in
      settle-Fits s (λ e. panics) current (transition_current (wake_parent s' current) terminated)
        (then_Fits s s' _
          (
            put_same-IsValid s current t (record t { exit_code = code }) v at refl refl
                (record { given = g.given; dated = g.dated; idles = g.idles }),
            tables-put current t _ s.tasks at refl,
          )
          (λ w.
            then_Fits s' (wake_parent s' current) _
              (wake_parent-IsValid s' current w, wake_parent-Keeps s' current)
              (transition_current-Fits _ terminated (λ e. cc) (λ e. cc))))

  exit_group-Fits :
      (current : ℕ) (code : Option ℕ) (b : Bool) (s : Scheduler Space)
      → IsValid s
      → s.current ≡ some current
      → Fits s (exit_group current code b s).1
  unfolding exit_group
  exit_group-Fits current code true s v c =
      then_Fits s _ _ (end_group-Fits current code s (parent_of (slot s.tasks current)) v c)
        (λ w. exit_task-Fits current code _ _ w refl)
  exit_group-Fits current code false s v c = exit_task-Fits current code s _ v refl

  exit_from-Fits :
      (rsp : ℕ) (code : Option ℕ) (b : Bool) (s : Scheduler Space) (o : Option ℕ)
      → IsValid s
      → s.current ≡ o
      → Fits s (exit_from rsp code b s o).1
  unfolding exit_from
  exit_from-Fits rsp code b s none v c = (v, refl)
  exit_from-Fits rsp code b s (some current) v c =
      then_Fits s _ _ (save_current_user_rsp-Fits rsp current s v)
        (λ w. exit_group-Fits current code b _ w (save_current_user_rsp-current rsp current s ∙ c))

  pub exit_current-Fits :
      (rsp : ℕ) (code : Option ℕ) (b : Bool) (s : Scheduler Space)
      → IsValid s
      → Fits s (exit_current rsp code b s).1
  unfolding exit_current
  exit_current-Fits rsp code b s v = exit_from-Fits rsp code b s s.current v refl

  idle_rest-Fits :
      (current : ℕ) (s : Scheduler Space) (o : Option (Task Space))
      → IsValid s
      → s.current ≡ some current
      → slot s.tasks current ≡ o
      → Fits s (idle_rest current s o).1
  unfolding idle_rest
  idle_rest-Fits current s none v c at = (v, refl)
  idle_rest-Fits current s (some t) v c at =
      let g = v.table.good current t at in
      if-Fits s t.is_idle _ _
        (λ e. (
          stopped-IsValid s current t (record t { state = ready }) v c at refl (λ q. cc)
              (record { given = g.given; dated = λ h. cc; idles = λ h. (inl refl, (g.idles e).1) }),
          tables-put current t _ s.tasks at refl,
        ))
        (λ e. (v, refl))

  idle_from-Fits :
      (s : Scheduler Space) (o : Option ℕ) → IsValid s → s.current ≡ o → Fits s (idle_from s o).1
  unfolding idle_from
  idle_from-Fits s none v c = (v, refl)
  idle_from-Fits s (some current) v c = idle_rest-Fits current s (slot s.tasks current) v c refl

  pub idle_round-Fits :
      (rsp now : ℕ) (s : Scheduler Space) → IsValid s → Fits s (idle_round rsp now s).1
  unfolding idle_round
  idle_round-Fits rsp now s v =
      then_Fits s (wake_expired_sleepers s now) _
        (wake_expired_sleepers-IsValid s now v, wake_expired_sleepers-Keeps s now)
        (λ w. elim (Bool-cases (has_live_non_idle_tasks (wake_expired_sleepers s now))) [
          | inl e ↦ rw e (yield_now-Fits rsp _ w)
          | inr e ↦ rw e (idle_from-Fits _ _ w refl)
        ])
