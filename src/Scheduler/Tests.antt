-- ===== src/Scheduler/Tests.antt =====
-- Runs of the scheduler of tasking/scheduler.rs.
use leaf_os_alpha.Base.{refl, none, some, replicate, set, ◌⊎◌}
use leaf_os_alpha.Scheduler.Task.{Task, terminated, Scheduler, empty_context, max_tasks}
use leaf_os_alpha.Scheduler.Ops.{select_next}
use leaf_os_alpha.Scheduler.Ops.Select.{Picks, select_next-Picks}
use leaf_os_alpha.Scheduler.Lifecycle.{terminated_child, new_task}
use leaf_os_alpha.Scheduler.Lifecycle.Wait.{Ended, StillRuns, Absent, terminated_child-cases}

-- Address spaces are of no concern here.
abbrev Space : Type 0
Space = Unit {0}

-- A parent with a child that has ended.
abbrev parent_task : Task Space
parent_task = new_task 1 empty_context none none none none none

abbrev child_task : Task Space
child_task = record (new_task 2 empty_context (some 1) none none none none) {
  state = terminated;
  exit_code = some 7;
}

abbrev family : Scheduler Space
family = record {
  tasks = set (set (replicate max_tasks none) 0 (some parent_task)) 1 (some child_task);
  current = none;
  next_id = 3;
  idle_index = none;
}

select_next-Picks_example : Picks family 1 (select_next family 1)
select_next-Picks_example = select_next-Picks family 1 refl

terminated_child-cases_example :
    let r = terminated_child family 1 none in
    Ended family.tasks 1 none r ⊎ StillRuns family.tasks 1 none r ⊎ Absent family.tasks 1 none r
terminated_child-cases_example = terminated_child-cases family 1 none
