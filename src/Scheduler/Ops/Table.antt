-- ===== src/Scheduler/Ops/Table.antt =====
-- The invariant of the task table of tasking/scheduler.rs, and the changes that keep it.

use leaf_os_alpha.Base.{
  ℕ, ◌+◌, ◌≡◌, ◌≢◌, ◌≤◌, ◌<◌, refl, sym, ap, ◌∙◌, subst, true, Option, none, some, List, arith,
  ◌==◌, length, is_some, slot, fill, slot-fill, slot_in_range, length-modify, Bool-cases, word, inl,
  inr, ◌⊎◌,
}
use leaf_os_alpha.Scheduler.Task.{Task, ready, running, is_sleeping, Scheduler, max_tasks}

-- What holds of each task: its id has been given out, a sleeper has a deadline, and an idle task is
-- ready or running and has no parent.
pub record IsGood {Space : Type 0} (next_id : ℕ) (t : Task Space) : Type 0 where
  pub given : t.id < next_id
  pub dated : is_sleeping t.state ≡ true → is_some t.wake_at ≡ true
  pub idles : t.is_idle ≡ true → ((t.state ≡ ready) ⊎ (t.state ≡ running)) × (t.parent ≡ none)

-- The table has its fixed size, its tasks are good, and no two have one id.
pub record IsTable {Space : Type 0} (next_id : ℕ) (tasks : List (Option (Task Space)))
    : Type 0 where
  pub size : length tasks ≡ max_tasks
  pub good : (i : ℕ) (t : Task Space) → slot tasks i ≡ some t → IsGood next_id t
  pub unique :
      (i j : ℕ) (t u : Task Space)
      → slot tasks i ≡ some t
      → slot tasks j ≡ some u
      → t.id ≡ u.id
      → i ≡ j

-- The running task is the current one, and the current slot holds a running task.
pub record IsFocus {Space : Type 0} (current : Option ℕ) (tasks : List (Option (Task Space)))
    : Type 0 where
  pub only : (i : ℕ) (t : Task Space) → slot tasks i ≡ some t → t.state ≡ running → current ≡ some i
  pub holds_running :
      (i : ℕ) → current ≡ some i → (t : Task Space) × (slot tasks i ≡ some t) × (t.state ≡ running)

pub record IsValid {Space : Type 0} (s : Scheduler Space) : Type 0 where
  pub table : IsTable s.next_id s.tasks
  pub focus : IsFocus s.current s.tasks
  pub ids : s.next_id < word

module _ {Space : Type 0} where
  -- A slot of a changed table is the new one or an old one.
  pub fill_cases :
      (i j : ℕ) (o : Option (Task Space)) (tasks : List (Option (Task Space))) (u : Task Space)
      → i < length tasks
      → slot (fill i o tasks) j ≡ some u
      → ((i ≡ j) × (o ≡ some u)) ⊎ ((i ≢ j) × (slot tasks j ≡ some u))
  fill_cases i j o tasks u h e = elim (Bool-cases (i == j)) [
    | inl q ↦ inl (ground arith, ground (arith, slot-fill i j o tasks h))
    | inr q ↦ inr (ground arith, ground (arith, slot-fill i j o tasks h))
  ]

  pub fill_same :
      (i : ℕ) (o : Option (Task Space)) (tasks : List (Option (Task Space)))
      → i < length tasks
      → slot (fill i o tasks) i ≡ o
  fill_same i o tasks h = ground (arith, slot-fill i i o tasks h)

  pub fill_other :
      (i j : ℕ) (o : Option (Task Space)) (tasks : List (Option (Task Space)))
      → i < length tasks
      → i ≢ j
      → slot (fill i o tasks) j ≡ slot tasks j
  fill_other i j o tasks h ne = ground (arith, slot-fill i j o tasks h)

  -- In a table with no task in slot `j` but ones with an old task's id there, ids stay unique.
  pub IsTable-change :
      (n n' : ℕ) (tasks tasks' : List (Option (Task Space)))
      → length tasks' ≡ length tasks
      → ((j : ℕ) (u : Task Space)
          → slot tasks' j ≡ some u
          → IsGood n' u × ((w : Task Space) × (slot tasks j ≡ some w) × (u.id ≡ w.id)))
      → IsTable n tasks
      → IsTable n' tasks'
  IsTable-change n n' tasks tasks' len change v = record {
    size = len ∙ v.size;
    good = λ j u e. (change j u e).0;
    unique = λ j k u w e f d.
        let (_, (u', e', du)) = change j u e in
        let (_, (w', f', dw)) = change k w f in v.unique j k u' w' e' f' (sym du ∙ d ∙ dw);
  }

  -- A task replaced by one with its id.
  pub IsTable-replace :
      (n i : ℕ) (t t' : Task Space) (tasks : List (Option (Task Space)))
      → slot tasks i ≡ some t
      → t'.id ≡ t.id
      → IsGood n t'
      → IsTable n tasks
      → IsTable n (fill i (some t') tasks)
  IsTable-replace n i t t' tasks at same g v =
      IsTable-change n n tasks (fill i (some t') tasks) (length-modify _ i tasks)
        (λ j u e. elim (fill_cases i j (some t') tasks u (slot_in_range tasks i t at) e) [
          | inl (p, q) ↦
              let r : t' ≡ u = cc in
              (
                subst (IsGood n) r g,
                (
                  t,
                  subst (λ k. slot tasks k ≡ some t) p at,
                  ap (λ (x : Task Space). x.id) (sym r) ∙ same,
                ),
              )
          | inr (_, q) ↦ (v.good j u q, (u, q, refl))
        ])
        v

  pub IsTable-remove :
      (n i : ℕ) (t : Task Space) (tasks : List (Option (Task Space)))
      → slot tasks i ≡ some t
      → IsTable n tasks
      → IsTable n (fill i none tasks)
  IsTable-remove n i t tasks at v =
      IsTable-change n n tasks (fill i none tasks) (length-modify _ i tasks)
        (λ j u e. elim (fill_cases i j none tasks u (slot_in_range tasks i t at) e) [
          | inl (p, q) ↦ cc
          | inr (_, q) ↦ (v.good j u q, (u, q, refl))
        ])
        v

  IsGood-mono : (n m : ℕ) (t : Task Space) → n ≤ m → IsGood n t → IsGood m t
  IsGood-mono n m t h g = record { given = omega arith; dated = g.dated; idles = g.idles }

  -- A new task with the next id, in a free slot.
  pub IsTable-insert :
      (n i : ℕ) (t : Task Space) (tasks : List (Option (Task Space)))
      → i < length tasks
      → t.id ≡ n
      → IsGood (n + 1) t
      → IsTable n tasks
      → IsTable (n + 1) (fill i (some t) tasks)
  IsTable-insert n i t tasks h id g v = record {
    size = length-modify _ i tasks ∙ v.size;
    good = good';
    unique = unique';
  }
    where
      good' : (j : ℕ) (u : Task Space) → slot (fill i (some t) tasks) j ≡ some u → IsGood (n + 1) u
      good' j u e = elim (fill_cases i j (some t) tasks u h e) [
        | inl (_, q) ↦ let r : t ≡ u = cc in subst (IsGood (n + 1)) r g
        | inr (_, q) ↦ IsGood-mono n (n + 1) u (omega arith) (v.good j u q)
      ]

      fresh : (j : ℕ) (u w : Task Space) → some t ≡ some u → slot tasks j ≡ some w → u.id ≡ w.id → ⊥
      fresh j u w e f d =
          let r : t ≡ u = cc in omega (arith, (v.good j w f).given, ap (λ (x : Task Space). x.id) r)

      unique' :
          (j k : ℕ) (u w : Task Space)
          → slot (fill i (some t) tasks) j ≡ some u
          → slot (fill i (some t) tasks) k ≡ some w
          → u.id ≡ w.id
          → j ≡ k
      unique' j k u w e f d = elim (fill_cases i j (some t) tasks u h e) [
        | inl (p, q) ↦ elim (fill_cases i k (some t) tasks w h f) [
          | inl (p', q') ↦ sym p ∙ p'
          | inr (_, q') ↦ absurd (fresh k u w q q' d)
        ]
        | inr (_, q) ↦ elim (fill_cases i k (some t) tasks w h f) [
          | inl (p', q') ↦ absurd (fresh j w u q' q (sym d))
          | inr (_, q') ↦ v.unique j k u w q q' d
        ]
      ]

  -- The current task leaves the processor.
  pub IsFocus-stop :
      (i : ℕ) (t t' : Task Space) (tasks : List (Option (Task Space)))
      → slot tasks i ≡ some t
      → t'.state ≢ running
      → IsFocus (some i) tasks
      → IsFocus none (fill i (some t') tasks)
  IsFocus-stop i t t' tasks at ne f = record {
    only = λ j u e r. elim (fill_cases i j (some t') tasks u (slot_in_range tasks i t at) e) [
      | inl (_, q) ↦ absurd (ne (let x : t' ≡ u = cc in ap (λ (y : Task Space). y.state) x ∙ r))
      | inr (p, q) ↦ absurd (p (let x : some i ≡ some j = f.only j u q r in cc))
    ];
    holds_running = λ j e. cc;
  }

  -- A task takes the free processor.
  pub IsFocus-start :
      (i : ℕ) (t' : Task Space) (tasks : List (Option (Task Space)))
      → i < length tasks
      → t'.state ≡ running
      → IsFocus none tasks
      → IsFocus (some i) (fill i (some t') tasks)
  IsFocus-start i t' tasks h r f = record {
    only = λ j u e q. elim (fill_cases i j (some t') tasks u h e) [
      | inl (p, _) ↦ ap some p
      | inr (_, p) ↦ let x : none ≡ some j = f.only j u p q in cc
    ];
    holds_running = λ j e.
        let x : i ≡ j = cc in
        (
          t',
          subst (λ k. slot (fill i (some t') tasks) k ≡ some t') x (fill_same i (some t') tasks h),
          r,
        );
  }

  -- A change in a slot that is not running, to one that is not running.
  pub IsFocus-other :
      (i : ℕ) (c : Option ℕ) (o : Option (Task Space)) (tasks : List (Option (Task Space)))
      → i < length tasks
      → ((t : Task Space) → slot tasks i ≡ some t → t.state ≢ running)
      → ((t : Task Space) → o ≡ some t → t.state ≢ running)
      → IsFocus c tasks
      → IsFocus c (fill i o tasks)
  IsFocus-other i c o tasks h was now f = record {
    only = λ j u e r. elim (fill_cases i j o tasks u h e) [
      | inl (_, q) ↦ absurd (now u q r)
      | inr (_, q) ↦ f.only j u q r
    ];
    holds_running = λ j e.
        let (t, at, r) = f.holds_running j e in
        (
          t,
          fill_other i j o tasks h (λ p. was t (subst (λ k. slot tasks k ≡ some t) (sym p) at) r)
              ∙ at,
          r,
        );
  }
