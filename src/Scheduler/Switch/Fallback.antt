-- ===== src/Scheduler/Switch/Fallback.antt =====
-- While the idle task is in the table, blocking and sleeping (tasking/scheduler.rs) always switch to
-- another task, never to the bootstrap context.
use mathlib.Core.Option
use leaf_os_alpha.Base.{
  ℕ, ◌+◌, ◌%◌, ◌≡◌, ◌≢◌, ◌<◌, refl, sym, subst, ◌∙◌, false, ◌==◌, some, arith, slot, slot_in_range,
  ok, err, word,
}
use leaf_os_alpha.Scheduler.Task.{Task, TaskState, blocked, sleeping, running, Scheduler, UserTask}
use leaf_os_alpha.Scheduler.Ops.{Outcome, transition_current, sleep_current_until}
use leaf_os_alpha.Scheduler.Ops.Table.{fill_same, fill_other}
use leaf_os_alpha.Scheduler.Ops.Fallback.{
  IsBacked, Hands, transition_current-Hands, sleep_current_until-Hands, apart,
}
use leaf_os_alpha.Scheduler.Switch.{
  Handover, switches, failed, save_rsp_in, save_current_user_rsp, next_of, hand_over, settle,
  block_from, block_now, sleep_from, sleep_ticks,
}
use leaf_os_alpha.Scheduler.Switch.Valid.{save_current_user_rsp-Fits, save_current_user_rsp-current}

module _ {Space : Type 0} where
  -- The processor goes from the task in slot `c`, left in state `state`, to a running one.
  abbrev pub Passes : ℕ → TaskState → Handover × Scheduler Space → Type 0
  Passes c state (h, s) =
      (n : ℕ) × (u w : Task Space) × (h ≡ switches c (some n))
      × (s.current ≡ some n)
      × (slot s.tasks n ≡ some u)
      × (u.state ≡ running)
      × (slot s.tasks c ≡ some w)
      × (w.state ≡ state)

  hand_over_lem :
      (lost : Handover) (s : Scheduler Space) (c n : ℕ) (u w : Task Space)
      → s.current ≡ some n
      → slot s.tasks n ≡ some u
      → slot s.tasks c ≡ some w
      → hand_over lost s c ≡ switches c (some n)
  unfolding hand_over next_of
  hand_over_lem lost s c n u w e at_n at_c = rw (at_c, e, at_n) refl

  settle-Passes :
      (c : ℕ) (state : TaskState) (o : Outcome Space ℕ)
      → Hands c state o
      → Passes c state (settle failed c o)
  unfolding settle
  settle-Passes c state (ok id, s) (n, u, w, e, cur, at_n, r, at_c, q) =
      (n, u, w, hand_over_lem _ s c n u w cur at_n at_c, cur, at_n, r, at_c, q)
  settle-Passes c state (err e', s) (n, u, w, e, cur, at_n, r, at_c, q) = cc

  -- Saving the user's stack pointer changes neither the current task nor the idle one.
  saved-IsBacked :
      (rsp c i : ℕ) (s : Scheduler Space) (t d : Task Space)
      → IsBacked s c i t d
      → (t' : Task Space) × IsBacked (save_current_user_rsp rsp s c) c i t' d
  unfolding save_current_user_rsp save_rsp_in
  saved-IsBacked rsp c i s t d b =
      let set_rsp = λ (u : UserTask Space). record u { syscall_user_rsp = rsp } in
      let t' : Task Space = record t { user = Option.map set_rsp t.user } in
      let h : c < _ = slot_in_range s.tasks c t b.at in
      (
        t',
        record {
          valid = (save_current_user_rsp-Fits rsp c s b.valid).0;
          current = save_current_user_rsp-current rsp c s ∙ b.current;
          at = rw (b.at) (fill_same c (some t') s.tasks h);
          ordinary = b.ordinary;
          idle_at = rw (b.at) (fill_other c i (some t') s.tasks h (apart s c i t d b) ∙ b.idle_at);
          idle = b.idle;
        },
      )

  -- A task that is not the idle one and blocks: if an idle task is in the table, the processor goes to
  -- some other task, which is current and running afterwards, and the caller is left blocked.
  pub block_now-Passes :
      (rsp c i : ℕ) (s : Scheduler Space) (t d : Task Space)
      → IsBacked s c i t d
      → Passes c blocked (block_now rsp s)
  unfolding block_now block_from
  block_now-Passes rsp c i s t d b =
      let (t', b') = saved-IsBacked rsp c i s t d b in
      subst (λ o. Passes c blocked (block_from rsp s o)) (sym b.current)
        (settle-Passes c blocked (transition_current (save_current_user_rsp rsp s c) blocked)
          (transition_current-Hands _ c i t' d b' blocked (λ e. cc)))

  -- A task that is not the idle one and sleeps for a number of ticks that is not 0: if an idle task is
  -- in the table, the processor goes to some other task, which is current and running afterwards, and
  -- the caller is left asleep.
  pub sleep_ticks-Passes :
      (rsp now duration c i : ℕ) (s : Scheduler Space) (t d : Task Space)
      → duration ≢ 0
      → IsBacked s c i t d
      → Passes c sleeping (sleep_ticks rsp now duration s)
  unfolding sleep_ticks sleep_from
  sleep_ticks-Passes rsp now duration c i s t d ne b =
      let (t', b') = saved-IsBacked rsp c i s t d b in
      let long : (duration == 0) ≡ false = ground arith in
      let deadline : ℕ = (now + duration) % word in
      rw long (
        subst (λ o. Passes c sleeping (sleep_from rsp deadline s o)) (sym b.current)
          (settle-Passes c sleeping (sleep_current_until (save_current_user_rsp rsp s c) deadline)
            (sleep_current_until-Hands _ c i t' d b' deadline)))
