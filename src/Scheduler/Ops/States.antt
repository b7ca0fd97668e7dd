-- ===== src/Scheduler/Ops/States.antt =====
-- The methods of `Scheduler` that wake and end tasks keep the table valid.
use mathlib.Core.Option
use leaf_os_alpha.Base.{
  ℕ, ◌≡◌, ◌≢◌, refl, sym, ap, ◌∙◌, subst, true, false, ◌&&◌, ◌||◌, Option, none, some, arith,
  length-map, map, slot, slot-map, slot_in_range, Bool-cases, inl, inr, position,
}
use leaf_os_alpha.Scheduler.Task.{
  Task, ready, running, is_blocked, is_sleeping, is_terminated, Scheduler,
}
use leaf_os_alpha.Scheduler.Ops.{
  wake_found, wake_parent_at, terminate_at, put_task, has_id, holds, wake_sleeper,
  wake_expired_sleepers, wake_slot, wake, wake_parent_slot, wake_parent_of, wake_parent,
  terminate_slot, terminate_task, wake_blocked, wake_all_blocked, expired, parent_of,
}
use leaf_os_alpha.Scheduler.Ops.Table.{
  IsGood, IsValid, IsTable-replace, IsTable-change, IsFocus-other,
}

pub holds-false : (o : Option ℕ) (i : ℕ) → holds o i ≡ false → o ≢ some i
holds-false none i h e = cc
holds-false (some c) i h e = ground arith

module _ {Space : Type 0} where
  -- A task off the processor that changes to another good one off the processor.
  pub put_task-IsValid :
      (s : Scheduler Space) (i : ℕ) (t t' : Task Space)
      → IsValid s
      → slot s.tasks i ≡ some t
      → t'.id ≡ t.id
      → t.state ≢ running
      → t'.state ≢ running
      → IsGood s.next_id t'
      → IsValid (put_task i t' s)
  put_task-IsValid s i t t' v at same was now g = record {
    table = IsTable-replace s.next_id i t t' s.tasks at same g v.table;
    focus =
        IsFocus-other i s.current (some t') s.tasks (slot_in_range s.tasks i t at)
          (λ u e r. was (let x : t ≡ u = cc in ap (λ (y : Task Space). y.state) x ∙ r))
          (λ u e r. now (let x : t' ≡ u = cc in ap (λ (y : Task Space). y.state) x ∙ r)) v.focus;
    ids = v.ids;
  }

  awakened-IsValid :
      (s : Scheduler Space) (i : ℕ) (t : Task Space)
      → IsValid s
      → slot s.tasks i ≡ some t
      → is_blocked t.state ≡ true
      → IsValid (put_task i (record t { state = ready }) s)
  awakened-IsValid s i t v at b =
      put_task-IsValid s i t _ v at refl (λ r. ground arith) (λ r. cc)
        (record {
          given = (v.table.good i t at).given;
          dated = λ h. cc;
          idles = λ h. (inl refl, ((v.table.good i t at).idles h).1);
        })

  wake_slot-IsValid :
      (s : Scheduler Space) (i : ℕ) (o : Option (Task Space))
      → IsValid s
      → slot s.tasks i ≡ o
      → IsValid (wake_slot s i o).1
  unfolding wake_slot
  wake_slot-IsValid s i none v at = v
  wake_slot-IsValid s i (some t) v at = elim (Bool-cases (is_blocked t.state)) [
    | inl e ↦ rw e (awakened-IsValid s i t v at e)
    | inr e ↦ rw e v
  ]

  wake_found-IsValid : (s : Scheduler Space) (o : Option ℕ) → IsValid s → IsValid (wake_found s o).1
  unfolding wake_found
  wake_found-IsValid s none v = v
  wake_found-IsValid s (some i) v = wake_slot-IsValid s i (slot s.tasks i) v refl

  pub wake-IsValid : (s : Scheduler Space) (id : ℕ) → IsValid s → IsValid (wake s id).1
  unfolding wake
  wake-IsValid s id v = wake_found-IsValid s (position (has_id id) s.tasks) v

  wake_parent_slot-IsValid :
      (s : Scheduler Space) (i : ℕ) (o : Option (Task Space))
      → IsValid s
      → slot s.tasks i ≡ o
      → IsValid (wake_parent_slot s i o)
  unfolding wake_parent_slot
  wake_parent_slot-IsValid s i none v at = v
  wake_parent_slot-IsValid s i (some t) v at = elim (Bool-cases (is_blocked t.state)) [
    | inl e ↦ rw e (awakened-IsValid s i t v at e)
    | inr e ↦ rw e v
  ]

  wake_parent_at-IsValid :
      (s : Scheduler Space) (o : Option ℕ) → IsValid s → IsValid (wake_parent_at s o)
  unfolding wake_parent_at
  wake_parent_at-IsValid s none v = v
  wake_parent_at-IsValid s (some i) v = wake_parent_slot-IsValid s i (slot s.tasks i) v refl

  wake_parent_of-IsValid :
      (s : Scheduler Space) (o : Option ℕ) → IsValid s → IsValid (wake_parent_of s o)
  unfolding wake_parent_of
  wake_parent_of-IsValid s none v = v
  wake_parent_of-IsValid s (some p) v = wake_parent_at-IsValid s (position (has_id p) s.tasks) v

  pub wake_parent-IsValid : (s : Scheduler Space) (i : ℕ) → IsValid s → IsValid (wake_parent s i)
  unfolding wake_parent
  wake_parent-IsValid s i v = wake_parent_of-IsValid s (parent_of (slot s.tasks i)) v

  terminate_slot-IsValid :
      (s : Scheduler Space) (code i : ℕ) (o : Option (Task Space))
      → IsValid s
      → slot s.tasks i ≡ o
      → s.current ≢ some i
      → IsValid (terminate_slot s code i o).1
  unfolding terminate_slot
  terminate_slot-IsValid s code i none v at nc = v
  terminate_slot-IsValid s code i (some t) v at nc =
      elim (Bool-cases (t.is_idle || is_terminated t.state)) [
        | inl e ↦ rw e v
        | inr e ↦ rw e (
            wake_parent-IsValid _ i (
              put_task-IsValid s i t _ v at refl (λ r. nc (v.focus.only i t at r)) (λ r. cc)
                (record {
                  given = (v.table.good i t at).given;
                  dated = λ h. cc;
                  idles = λ h. absurd (ground arith);
                })))
      ]

  terminate_at-IsValid :
      (s : Scheduler Space) (code : ℕ) (o : Option ℕ)
      → IsValid s
      → IsValid (terminate_at s code o).1
  unfolding terminate_at
  terminate_at-IsValid s code none v = v
  terminate_at-IsValid s code (some i) v = elim (Bool-cases (holds s.current i)) [
    | inl h ↦ rw h v
    | inr h ↦
        rw h (terminate_slot-IsValid s code i (slot s.tasks i) v refl (holds-false s.current i h))
  ]

  pub terminate_task-IsValid :
      (s : Scheduler Space) (id code : ℕ) → IsValid s → IsValid (terminate_task s id code).1
  unfolding terminate_task
  terminate_task-IsValid s id code v = terminate_at-IsValid s code (position (has_id id) s.tasks) v

  -- A change of every task that keeps ids, and never starts or stops a task.
  map-IsValid :
      (f : Task Space → Task Space) (s : Scheduler Space)
      → ((t : Task Space) → (f t).id ≡ t.id)
      → ((t : Task Space) → IsGood s.next_id t → IsGood s.next_id (f t))
      → ((t : Task Space) → (f t).state ≡ running → t.state ≡ running)
      → ((t : Task Space) → t.state ≡ running → (f t).state ≡ running)
      → IsValid s
      → IsValid (record s { tasks = map (Option.map f) s.tasks })
  map-IsValid f s same good down up v = record {
    table =
        IsTable-change s.next_id s.next_id s.tasks _ (length-map (Option.map f) s.tasks)
          (λ j u e.
            let (t, at, q) = was j u e in
            (
              subst (IsGood s.next_id) q (good t (v.table.good j t at)),
              (t, at, ap (λ (x : Task Space). x.id) (sym q) ∙ same t),
            ))
          v.table;
    focus = record {
      only = λ j u e r. let (t, at, q) = was j u e in only_old j u t r at q;
      holds_running = λ j e.
          let (t, at, r) = v.focus.holds_running j e in
          (f t, slot-map f s.tasks j ∙ ap (Option.map f) at, up t r);
    };
    ids = v.ids;
  }
    where
      some_of :
          (o : Option (Task Space)) (u : Task Space)
          → Option.map f o ≡ some u
          → (t : Task Space) × (o ≡ some t) × (f t ≡ u)
      some_of none u e = cc
      some_of (some t) u e = (t, refl, cc)

      was :
          (j : ℕ) (u : Task Space)
          → slot (map (Option.map f) s.tasks) j ≡ some u
          → (t : Task Space) × (slot s.tasks j ≡ some t) × (f t ≡ u)
      was j u e = some_of (slot s.tasks j) u (sym (slot-map f s.tasks j) ∙ e)

      only_old :
          (j : ℕ) (u t : Task Space)
          → u.state ≡ running
          → slot s.tasks j ≡ some t
          → f t ≡ u
          → s.current ≡ some j
      only_old j u t r at q =
          let now : (f t).state ≡ running = ap (λ (x : Task Space). x.state) q ∙ r in
          v.focus.only j t at (down t now)

  pub wake_expired_sleepers-IsValid :
      (s : Scheduler Space) (now : ℕ) → IsValid s → IsValid (wake_expired_sleepers s now)
  unfolding wake_expired_sleepers
  wake_expired_sleepers-IsValid s now v =
      map-IsValid (wake_sleeper now) s (λ t. ground arith) (λ t g. good t g) (λ t r. ground arith)
        (λ t r. ground arith) v
    where
      good : (t : Task Space) → IsGood s.next_id t → IsGood s.next_id (wake_sleeper now t)
      good t g = elim (Bool-cases (is_sleeping t.state && expired now t.wake_at)) [
        | inl e ↦
            rw e
              (record { given = g.given; dated = λ h. cc; idles = λ h. (inl refl, (g.idles h).1) })
        | inr e ↦ rw e g
      ]

  pub wake_all_blocked-IsValid : (s : Scheduler Space) → IsValid s → IsValid (wake_all_blocked s)
  unfolding wake_all_blocked
  wake_all_blocked-IsValid s v =
      map-IsValid wake_blocked s (λ t. ground arith) (λ t g. good t g) (λ t r. ground arith)
        (λ t r. ground arith) v
    where
      good : (t : Task Space) → IsGood s.next_id t → IsGood s.next_id (wake_blocked t)
      good t g = elim (Bool-cases (is_blocked t.state)) [
        | inl e ↦
            rw e
              (record { given = g.given; dated = λ h. cc; idles = λ h. (inl refl, (g.idles h).1) })
        | inr e ↦ rw e g
      ]
