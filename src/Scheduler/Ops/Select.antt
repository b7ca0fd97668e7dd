-- ===== src/Scheduler/Ops/Select.antt =====
-- Which task `select_next` of tasking/scheduler.rs picks: the first ready one from the start on, going
-- round, and the idle task only if no other is ready.
use leaf_os_alpha.Base.{
  ℕ, zero, suc, ◌+◌, ◌-◌, ◌%◌, ◌≡◌, ◌≤◌, ◌<◌, ◌⊎◌, refl, sym, subst, Bool, true, false, Option,
  none, some, List, arith, length, slot, slot_in_range, Bool-cases, ℕ_discrete, Option-cases, inl,
  inr, ok, err,
}
use leaf_os_alpha.Scheduler.Task.{
  Task, TaskState, ready, running, is_ready, no_runnable_tasks, Scheduler,
}
use leaf_os_alpha.Scheduler.Ops.{
  Outcome, put_task, selectable, scan, resume, select_found, first_found, select_next,
}

is_ready-ready : (x : TaskState) → is_ready x ≡ true → x ≡ ready
is_ready-ready x h = ground arith

module _ {Space : Type 0} where
  -- A task in slot `j` is ready, and is the idle task or not as `idle` says.
  abbrev pub Wants : Bool → List (Option (Task Space)) → ℕ → Type 0
  Wants idle tasks j =
      (t : Task Space) × (slot tasks j ≡ some t) × (t.state ≡ ready) × (t.is_idle ≡ idle)

  -- Slot `i` is the first wanting one of the sixteen from `start` on.
  abbrev pub IsTurn : Bool → List (Option (Task Space)) → ℕ → ℕ → Type 0
  IsTurn idle tasks start i =
      (k : ℕ) × (k < 16)
      × (i ≡ (start + k) % 16)
      × Wants idle tasks i
      × ((j : ℕ) → j < k → ¬ Wants idle tasks ((start + j) % 16))

  selectable-Wants :
      (idle : Bool) (tasks : List (Option (Task Space))) (j : ℕ) (o : Option (Task Space))
      → slot tasks j ≡ o
      → selectable idle o ≡ true
      → Wants idle tasks j
  selectable-Wants idle tasks j none e h = cc
  selectable-Wants true tasks j (some t) e h =
      (t, e, is_ready-ready t.state (ground arith), ground arith)
  selectable-Wants false tasks j (some t) e h =
      (t, e, is_ready-ready t.state (ground arith), ground arith)

  Wants-selectable :
      (idle : Bool) (tasks : List (Option (Task Space))) (j : ℕ)
      → selectable idle (slot tasks j) ≡ false
      → ¬ Wants idle tasks j
  Wants-selectable true tasks j h (t, e, r, i) = ground arith
  Wants-selectable false tasks j h (t, e, r, i) = ground arith

  module _ (tasks : List (Option (Task Space))) (idle : Bool) (start : ℕ) where
    scan-some :
        (n offset i : ℕ)
        → scan tasks idle start n offset ≡ some i
        → (k : ℕ) × (offset ≤ k)
          × (k < offset + n)
          × (i ≡ (start + k) % 16)
          × Wants idle tasks i
          × ((j : ℕ) → offset ≤ j → j < k → ¬ Wants idle tasks ((start + j) % 16))
    unfolding scan
    scan-some zero offset i e = cc
    scan-some (suc n) offset i e =
        elim (Bool-cases (selectable idle (slot tasks ((start + offset) % 16)))) [
          | inl t ↦
              let q : (start + offset) % 16 ≡ i = ground arith in
              (
                offset,
                omega arith,
                omega arith,
                sym q,
                subst (Wants idle tasks) q (selectable-Wants idle tasks _ _ refl t),
                λ j lo hi. absurd (omega arith),
              )
          | inr t ↦
              let (k, lo, hi, q, w, before) = scan-some n (offset + 1) i (rw t at e) in
              (k, omega arith, omega arith, q, w, λ j lo' hi. earlier n offset k before t j lo' hi)
        ]
      where
        earlier :
            (n offset k : ℕ)
            → ((j : ℕ) → offset + 1 ≤ j → j < k → ¬ Wants idle tasks ((start + j) % 16))
            → selectable idle (slot tasks ((start + offset) % 16)) ≡ false
            → (j : ℕ) → offset ≤ j
            → j < k
            → ¬ Wants idle tasks ((start + j) % 16)
        earlier n offset k before t j lo hi = elim (ℕ_discrete offset j) [
          | yes p ↦
              subst (λ x. ¬ Wants idle tasks ((start + x) % 16)) p (Wants-selectable idle tasks _ t)
          | no p ↦ before j (omega arith) hi
        ]

    scan-none :
        (n offset : ℕ)
        → scan tasks idle start n offset ≡ none
        → (j : ℕ) → offset ≤ j
        → j < offset + n
        → ¬ Wants idle tasks ((start + j) % 16)
    unfolding scan
    scan-none zero offset e j lo hi = absurd (omega arith)
    scan-none (suc n) offset e j lo hi =
        elim (Bool-cases (selectable idle (slot tasks ((start + offset) % 16)))) [
          | inl t ↦ ground arith
          | inr t ↦ elim (ℕ_discrete offset j) [
            | yes p ↦
                subst (λ x. ¬ Wants idle tasks ((start + x) % 16)) p
                  (Wants-selectable idle tasks _ t)
            | no p ↦ scan-none n (offset + 1) (ground arith) j (omega arith) (omega arith)
          ]
        ]

    -- A pass over all sixteen slots finds the first that wants, or none wants.
    pass-some : (i : ℕ) → scan tasks idle start 16 0 ≡ some i → IsTurn idle tasks start i
    pass-some i e =
        let (k, lo, hi, q, w, before) = scan-some 16 0 i e in
        (k, omega arith, q, w, λ j h. before j (omega arith) h)

    pass-none :
        length tasks ≡ 16 → scan tasks idle start 16 0 ≡ none → (i : ℕ) → ¬ Wants idle tasks i
    pass-none size e i w =
        let k : ℕ = (i + 16 - start % 16) % 16 in
        let h : i < length tasks = slot_in_range tasks i w.0 w.1 in
        let back : (start + k) % 16 ≡ i = omega arith in
        scan-none 16 0 e k (omega arith) (omega arith) (subst (Wants idle tasks) (sym back) w)

  -- What `select_next` does: it hands the processor to the task `t` in slot `i`.
  abbrev pub hands_to : Scheduler Space → ℕ → Task Space → Outcome Space ℕ
  hands_to s i t =
      (ok t.id, record (put_task i (record t { state = running }) s) { current = some i })

  abbrev pub Picks : Scheduler Space → ℕ → Outcome Space ℕ → Type 0
  Picks s start out =
      ((i : ℕ) × (t : Task Space) × (slot s.tasks i ≡ some t)
        × (IsTurn false s.tasks start i
            ⊎ (((j : ℕ) → ¬ Wants false s.tasks j) × IsTurn true s.tasks start i))
        × (out ≡ hands_to s i t))
      ⊎ (((j : ℕ) (idle : Bool) → ¬ Wants idle s.tasks j)
          × (out ≡ (err no_runnable_tasks, record s { current = none })))

  found :
      (s : Scheduler Space) (start i : ℕ)
      → (IsTurn false s.tasks start i
          ⊎ (((j : ℕ) → ¬ Wants false s.tasks j) × IsTurn true s.tasks start i))
      → (idle : Bool) → Wants idle s.tasks i
      → Picks s start (select_found (record s { current = none }) (some i))
  unfolding select_found resume
  found s start i turn idle (t, at, _, _) = inl (i, t, at, turn, rw at)

  -- `select_next` hands the processor to the first ready task that is not the idle task, in the order
  -- of slots from `start` on and round; if there is none, to the idle task if that is ready; and only
  -- if no task at all is ready it reports so and leaves no task current. Nothing else changes.
  pub select_next-Picks :
      (s : Scheduler Space) (start : ℕ) → length s.tasks ≡ 16 → Picks s start (select_next s start)
  unfolding select_next first_found
  select_next-Picks s start size = elim (Option-cases (scan s.tasks false start 16 0)) [
    | inr (i, e) ↦
        let turn = pass-some s.tasks false start i e in
        rw (e, first_found) (found s start i (inl turn) false turn.3)
    | inl e ↦ elim (Option-cases (scan s.tasks true start 16 0)) [
      | inr (i, f) ↦
          let turn = pass-some s.tasks true start i f in
          rw (e, f, first_found)
            (found s start i (inr (pass-none s.tasks false start size e, turn)) true turn.3)
      | inl f ↦
          rw (e, f, first_found)
            (inr (
              neither (pass-none s.tasks false start size e) (pass-none s.tasks true start size f),
              unfold select_found in refl,
            ))
    ]
  ]
    where
      neither :
          ((j : ℕ) → ¬ Wants false s.tasks j)
          → ((j : ℕ) → ¬ Wants true s.tasks j)
          → (j : ℕ) (idle : Bool) → ¬ Wants idle s.tasks j
      neither f t j false = f j
      neither f t j true = t j
