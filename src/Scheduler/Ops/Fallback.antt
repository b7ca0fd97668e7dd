-- ===== src/Scheduler/Ops/Fallback.antt =====
-- While an idle task is in the table (tasking/scheduler.rs), a task that leaves the processor always
-- hands it to another.
use leaf_os_alpha.Base.{
  ℕ, ◌+◌, ◌%◌, ◌≡◌, ◌≢◌, ◌<◌, refl, sym, ap, subst, ◌∙◌, Bool, true, false, ◌||◌, ◌&&◌, not, none,
  some, length, length-modify, slot, slot_in_range, inl, inr, ok,
}
use leaf_os_alpha.Scheduler.Task.{
  Task, TaskState, ready, running, sleeping, is_running, is_ready, Scheduler,
}
use leaf_os_alpha.Scheduler.Ops.{
  Outcome, put_task, select_next, transition_task, transition_at, transition_current, sleep_task,
  sleep_at, sleep_current_until,
}
use leaf_os_alpha.Scheduler.Ops.Table.{IsValid, fill_same, fill_other}
use leaf_os_alpha.Scheduler.Ops.Select.{Wants, select_next-Picks}

module _ {Space : Type 0} where
  -- A running task `c` that is not idle, and an idle task in slot `i`.
  pub record IsBacked (s : Scheduler Space) (c i : ℕ) (t d : Task Space) : Type 0 where
    pub valid : IsValid s
    pub current : s.current ≡ some c
    pub at : slot s.tasks c ≡ some t
    pub ordinary : t.is_idle ≡ false
    pub idle_at : slot s.tasks i ≡ some d
    pub idle : d.is_idle ≡ true

  -- Another task runs now, and slot `c` holds a task in state `state`.
  abbrev pub Hands : ℕ → TaskState → Outcome Space ℕ → Type 0
  Hands c state out =
      (n : ℕ) × (u w : Task Space) × (out.0 ≡ ok u.id)
      × (out.1.current ≡ some n)
      × (slot out.1.tasks n ≡ some u)
      × (u.state ≡ running)
      × (slot out.1.tasks c ≡ some w)
      × (w.state ≡ state)

  select_next-Hands :
      (s : Scheduler Space) (c i start : ℕ) (t d : Task Space)
      → length s.tasks ≡ 16
      → slot s.tasks c ≡ some t
      → t.state ≢ ready
      → slot s.tasks i ≡ some d
      → d.state ≡ ready
      → d.is_idle ≡ true
      → Hands c t.state (select_next s start)
  select_next-Hands s c i start t d size at ne idle_at r idle =
      elim (select_next-Picks s start size) [
        | inl (n, u, at_n, turn, e) ↦
            let other : n ≢ c =
              picked n (elim turn [ inl a ↦ (false, a.3) | inr b ↦ (true, b.1.3) ]) in
            let h : n < length s.tasks = slot_in_range s.tasks n u at_n in
            subst (Hands c t.state) (sym e) (
              n,
              record u { state = running },
              t,
              refl,
              refl,
              fill_same n (some (record u { state = running })) s.tasks h,
              refl,
              fill_other n c (some (record u { state = running })) s.tasks h other ∙ at,
              refl,
            )
        | inr (neither, e) ↦ absurd (neither i true (d, idle_at, r, idle))
      ]
    where
      picked : (n : ℕ) → (b : Bool) × Wants b s.tasks n → n ≢ c
      picked n (b, (v, at_n, q, _)) p =
          let x : some v ≡ some t = sym at_n ∙ ap (slot s.tasks) p ∙ at in
          let y : v ≡ t = cc in ne (ap (λ (z : Task Space). z.state) (sym y) ∙ q)

  module _ (s : Scheduler Space) (c i : ℕ) (t d : Task Space) (b : IsBacked s c i t d) where
    is_current : t.state ≡ running
    is_current =
        let (u, at, r) = b.valid.focus.holds_running c b.current in
        let x : some t ≡ some u = sym b.at ∙ at in
        let y : t ≡ u = cc in ap (λ (z : Task Space). z.state) y ∙ r

    pub apart : c ≢ i
    apart p =
        let x : some t ≡ some d = sym b.at ∙ ap (slot s.tasks) p ∙ b.idle_at in
        let y : t ≡ d = cc in
        let z : false ≡ true = sym b.ordinary ∙ ap (λ (z : Task Space). z.is_idle) y ∙ b.idle in cc

    idle_is_ready : d.state ≡ ready
    idle_is_ready = elim ((b.valid.table.good i d b.idle_at).idles b.idle).0 [
      | inl r ↦ r
      | inr r ↦
          let x : some c ≡ some i = sym b.current ∙ b.valid.focus.only i d b.idle_at r in
          let y : c ≡ i = cc in absurd (apart y)
    ]

    stopped-Hands :
        (t' : Task Space) (start : ℕ)
        → t'.state ≢ ready
        → Hands c t'.state (select_next (record (put_task c t' s) { current = none }) start)
    stopped-Hands t' start ne =
        let h : c < length s.tasks = slot_in_range s.tasks c t b.at in
        select_next-Hands (record (put_task c t' s) { current = none }) c i start t' d
          (length-modify (λ _. some t') c s.tasks ∙ b.valid.table.size)
          (fill_same c (some t') s.tasks h) ne
          (fill_other c i (some t') s.tasks h apart ∙ b.idle_at) idle_is_ready b.idle

    pub transition_current-Hands :
        (next : TaskState) → next ≢ ready → Hands c next (transition_current s next)
    unfolding transition_current transition_at transition_task
    transition_current-Hands next ne =
        let guard : (not (is_running t.state) || (t.is_idle && not (is_ready next))) ≡ false =
          rw (is_current, b.ordinary) refl in
        rw (b.current, b.at, guard) (stopped-Hands _ ((c + 1) % 16) ne)

    pub sleep_current_until-Hands :
        (deadline : ℕ) → Hands c sleeping (sleep_current_until s deadline)
    unfolding sleep_current_until sleep_at sleep_task
    sleep_current_until-Hands deadline =
        let guard : (not (is_running t.state) || t.is_idle) ≡ false =
          rw (is_current, b.ordinary) refl in
        rw (b.current, b.at, guard) (stopped-Hands _ ((c + 1) % 16) (λ e. cc))
