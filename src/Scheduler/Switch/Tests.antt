-- ===== src/Scheduler/Switch/Tests.antt =====
-- Runs of the functions of tasking/scheduler.rs that change tasks.
use leaf_os_alpha.Base.{
  ℕ, zero, suc, ◌≡◌, refl, sym, ap, subst, ◌∙◌, true, Option, none, some, List, ◌∷◌, arith,
  replicate, slot, slot-replicate, inl,
}
use leaf_os_alpha.Scheduler.Task.{Task, ready, running, blocked, sleeping, Scheduler, empty_context}
use leaf_os_alpha.Scheduler.Ops.Table.{IsGood}
use leaf_os_alpha.Scheduler.Ops.Fallback.{IsBacked}
use leaf_os_alpha.Scheduler.Lifecycle.{new_task}
use leaf_os_alpha.Scheduler.Switch.{block_now, sleep_ticks}
use leaf_os_alpha.Scheduler.Switch.Fallback.{Passes, block_now-Passes, sleep_ticks-Passes}

abbrev running_task : Task (Unit {0})
running_task = record (new_task 1 empty_context none none none none none) { state = running }

abbrev idle_task : Task (Unit {0})
idle_task = record (new_task 2 empty_context none none none none none) { is_idle = true }

abbrev table : List (Option (Task (Unit {0})))
table = some running_task ∷ some idle_task ∷ replicate 14 none

abbrev pair : Scheduler (Unit {0})
pair = record { tasks = table; current = some 0; next_id = 3; idle_index = some 1 }

only_two : (i : ℕ) (t : Task (Unit {0})) → slot table (suc (suc i)) ≡ some t → ⊥
only_two i t e = let n = slot-replicate {A = Task (Unit {0})} 14 i in cc

good : (i : ℕ) (t : Task (Unit {0})) → slot table i ≡ some t → IsGood 3 t
good zero t e =
    let x : running_task ≡ t = cc in
    subst (IsGood 3) x (record { given = omega arith; dated = λ h. cc; idles = λ h. cc })
good (suc zero) t e =
    let x : idle_task ≡ t = cc in
    subst (IsGood 3) x
      (record { given = omega arith; dated = λ h. cc; idles = λ h. (inl refl, refl) })
good (suc (suc i)) t e = absurd (only_two i t e)

unique :
    (i j : ℕ) (t u : Task (Unit {0}))
    → slot table i ≡ some t
    → slot table j ≡ some u
    → t.id ≡ u.id
    → i ≡ j
unique zero zero t u e f d = refl
unique (suc zero) (suc zero) t u e f d = refl
unique zero (suc zero) t u e f d =
    let x : running_task ≡ t = cc in
    let y : idle_task ≡ u = cc in
    let z : running_task.id ≡ idle_task.id =
      ap (λ (v : Task (Unit {0})). v.id) x ∙ d ∙ sym (ap (λ (v : Task (Unit {0})). v.id) y) in
    absurd (omega arith)
unique (suc zero) zero t u e f d =
    let x : idle_task ≡ t = cc in
    let y : running_task ≡ u = cc in
    let z : idle_task.id ≡ running_task.id =
      ap (λ (v : Task (Unit {0})). v.id) x ∙ d ∙ sym (ap (λ (v : Task (Unit {0})). v.id) y) in
    absurd (omega arith)
unique (suc (suc i)) j t u e f d = absurd (only_two i t e)
unique zero (suc (suc j)) t u e f d = absurd (only_two j u f)
unique (suc zero) (suc (suc j)) t u e f d = absurd (only_two j u f)

only : (i : ℕ) (t : Task (Unit {0})) → slot table i ≡ some t → t.state ≡ running → some 0 ≡ some i
only zero t e r = refl
only (suc zero) t e r =
    let x : idle_task ≡ t = cc in
    let y : ready ≡ running = ap (λ (v : Task (Unit {0})). v.state) x ∙ r in cc
only (suc (suc i)) t e r = absurd (only_two i t e)

pair-IsBacked : IsBacked pair 0 1 running_task idle_task
pair-IsBacked = record {
  valid = record {
    table = record { size = refl; good = good; unique = unique };
    focus = record {
      only = only;
      holds_running = λ i e.
          let x : 0 ≡ i = cc in
          (running_task, subst (λ n. slot table n ≡ some running_task) x refl, refl);
    };
    ids = omega arith;
  };
  current = refl;
  at = refl;
  ordinary = refl;
  idle_at = refl;
  idle = refl;
}

block_now-Passes_example : Passes 0 blocked (block_now 5 pair)
block_now-Passes_example = block_now-Passes 5 0 1 pair running_task idle_task pair-IsBacked

sleep_ticks-Passes_example : Passes 0 sleeping (sleep_ticks 5 1000 20 pair)
sleep_ticks-Passes_example =
    sleep_ticks-Passes 5 1000 20 0 1 pair running_task idle_task (λ e. omega arith) pair-IsBacked
