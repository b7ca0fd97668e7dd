-- ===== src/Scheduler/Switch/Group.antt =====
-- Ending a task's siblings (tasking/scheduler.rs) keeps the scheduler valid, and the descriptor
-- tables as they are.
use mathlib.Core.Option
use leaf_os_alpha.Base.{
  ℕ, zero, suc, ◌+◌, ◌≡◌, refl, sym, ap, subst, ◌∙◌, ◌⊎◌, Bool, true, false, ◌&&◌, not, Option,
  none, some, List, [], ◌∷◌, arith, if◌then◌else◌, ◌==◌, length, slot, Bool-cases, inl, inr,
}
use leaf_os_alpha.Scheduler.Task.{Task, running, terminated, Scheduler}
use leaf_os_alpha.Scheduler.Ops.{holds}
use leaf_os_alpha.Scheduler.Ops.Table.{IsGood, IsValid, IsTable-change}
use leaf_os_alpha.Scheduler.Ops.Tables.{fds_of, tables}
use leaf_os_alpha.Scheduler.Switch.{is_sibling, end_task, end_siblings, end_group}

module _ {Space : Type 0} where
  -- A valid scheduler, with the tables that there were.
  abbrev pub Fits : Scheduler Space → Scheduler Space → Type 0
  Fits s s' = IsValid s' × (tables s'.tasks ≡ tables s.tasks)

  module _ (parent current : ℕ) (code : Option ℕ) where
    -- What becomes of the task in slot `index`.
    abbrev ended : ℕ → Option (Task Space) → Option (Task Space)
    ended index o =
        if not (index == current) && is_sibling parent o then Option.map (end_task code) o else o

    slot-end_siblings :
        (k j : ℕ) (tasks : List (Option (Task Space)))
        → slot (end_siblings parent current code k tasks) j ≡ ended (k + j) (slot tasks j)
    unfolding end_siblings
    slot-end_siblings k j [] = ground arith
    slot-end_siblings k zero (o ∷ tasks) = let e : k + 0 ≡ k = omega arith in rw e refl
    slot-end_siblings k (suc j) (o ∷ tasks) =
        let e : k + suc j ≡ suc k + j = omega arith in rw e (slot-end_siblings (suc k) j tasks)

    length-end_siblings :
        (k : ℕ) (tasks : List (Option (Task Space)))
        → length (end_siblings parent current code k tasks) ≡ length tasks
    unfolding end_siblings
    length-end_siblings k [] = refl
    length-end_siblings k (o ∷ tasks) = ap suc (length-end_siblings (suc k) tasks)

    tables-end_siblings :
        (k : ℕ) (tasks : List (Option (Task Space)))
        → tables (end_siblings parent current code k tasks) ≡ tables tasks
    unfolding end_siblings
    tables-end_siblings k [] = refl
    tables-end_siblings k (o ∷ tasks) =
        ap (λ l. fds_of (ended k o) ∷ l) (tables-end_siblings (suc k) tasks)
        ∙ ap (λ x. x ∷ tables tasks) (same (not (k == current) && is_sibling parent o) o)
      where
        same :
            (b : Bool) (o : Option (Task Space))
            → fds_of (if b then Option.map (end_task code) o else o) ≡ fds_of o
        same true none = refl
        same true (some t) = refl
        same false o = refl

    -- A task afterwards is one from before, or a sibling that has been ended.
    ended-cases :
        (index : ℕ) (o : Option (Task Space)) (u : Task Space)
        → ended index o ≡ some u
        → (o ≡ some u)
          ⊎ ((t : Task Space) × (o ≡ some t) × (t.parent ≡ some parent) × (u ≡ end_task code t))
    ended-cases index none u e = absurd (ground arith)
    ended-cases index (some t) u e =
        elim (Bool-cases (not (index == current) && is_sibling parent (some t))) [
          | inl q ↦ inr (t, refl, holds-some t.parent (ground arith), ended_eq (rw q at e))
          | inr q ↦ inl (rw q at e)
        ]
      where
        holds-some : (o : Option ℕ) → holds o parent ≡ true → o ≡ some parent
        holds-some none h = cc
        holds-some (some p) h = ap some (ground arith)

        ended_eq : some (end_task code t) ≡ some u → u ≡ end_task code t
        ended_eq q = cc

    end_siblings-Fits :
        (s : Scheduler Space)
        → IsValid s
        → s.current ≡ some current
        → Fits s (record s { tasks = end_siblings parent current code 0 s.tasks })
    end_siblings-Fits s v c = (
      record {
        table =
            IsTable-change s.next_id s.next_id s.tasks _ (length-end_siblings 0 s.tasks) change
              v.table;
        focus = record {
          only = λ j u e r. elim (was j u e) [
            | inl at ↦ v.focus.only j u at r
            | inr (t, at, p, q) ↦
                let x : terminated ≡ running = sym (ap (λ (y : Task Space). y.state) q) ∙ r in cc
          ];
          holds_running = λ j e.
              let (t, at, r) = v.focus.holds_running j e in
              let x : some j ≡ some current = sym e ∙ c in
              let y : j ≡ current = cc in (t, stays j y ∙ at, r);
        };
        ids = v.ids;
      },
      tables-end_siblings 0 s.tasks,
    )
      where
        at_j :
            (j : ℕ) → slot (end_siblings parent current code 0 s.tasks) j ≡ ended j (slot s.tasks j)
        at_j j =
            subst
              (λ n. slot (end_siblings parent current code 0 s.tasks) j ≡ ended n (slot s.tasks j))
              (omega arith) (slot-end_siblings 0 j s.tasks)

        was :
            (j : ℕ) (u : Task Space)
            → slot (end_siblings parent current code 0 s.tasks) j ≡ some u
            → (slot s.tasks j ≡ some u)
              ⊎ ((t : Task Space) × (slot s.tasks j ≡ some t)
                  × (t.parent ≡ some parent)
                  × (u ≡ end_task code t))
        was j u e = ended-cases j (slot s.tasks j) u (sym (at_j j) ∙ e)

        stays :
            (j : ℕ)
            → j ≡ current
            → slot (end_siblings parent current code 0 s.tasks) j ≡ slot s.tasks j
        stays j y = let q : (j == current) ≡ true = ground arith in at_j j ∙ (rw q refl)

        good :
            (j : ℕ) (t : Task Space)
            → slot s.tasks j ≡ some t
            → t.parent ≡ some parent
            → IsGood s.next_id (end_task code t)
        good j t at p =
            let g = v.table.good j t at in
            record {
              given = g.given;
              dated = λ h. cc;
              idles = λ h. let x : none ≡ some parent = sym (g.idles h).1 ∙ p in cc;
            }

        change :
            (j : ℕ) (u : Task Space)
            → slot (end_siblings parent current code 0 s.tasks) j ≡ some u
            → IsGood s.next_id u × ((w : Task Space) × (slot s.tasks j ≡ some w) × (u.id ≡ w.id))
        change j u e = elim (was j u e) [
          | inl at ↦ (v.table.good j u at, (u, at, refl))
          | inr (t, at, p, q) ↦ (
            subst (IsGood s.next_id) (sym q) (good j t at p),
            (t, at, ap (λ (y : Task Space). y.id) q),
          )
        ]

  pub end_group-Fits :
      (current : ℕ) (code : Option ℕ) (s : Scheduler Space) (o : Option ℕ)
      → IsValid s
      → s.current ≡ some current
      → Fits s (end_group current code s o)
  unfolding end_group
  end_group-Fits current code s none v c = (v, refl)
  end_group-Fits current code s (some parent) v c = end_siblings-Fits parent current code s v c
