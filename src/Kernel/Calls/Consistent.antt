-- ===== src/Kernel/Calls/Consistent.antt =====
-- What holds of the global scheduler and the descriptors of its tasks (tasking/scheduler.rs), and the
-- changes of a table that keep it.
use leaf_os_alpha.Base.{
  ℕ, ◌≡◌, ◌<◌, refl, sym, ap, subst, ◌∙◌, Option, none, some, List, length-map, slot, slot_in_range,
  fill, fill_back, inl, inr, [], slot-replicate,
}
use leaf_os_alpha.Fd.{FileDescriptor, Store, initial_table}
use leaf_os_alpha.Fd.Ends.{AllAgree}
use leaf_os_alpha.Scheduler.Task.{Task, Scheduler, new}
use leaf_os_alpha.Scheduler.Ops.{put_task}
use leaf_os_alpha.Scheduler.Ops.Saving.{put_same-IsValid}
use leaf_os_alpha.Scheduler.Ops.Table.{IsValid}
use leaf_os_alpha.Scheduler.Ops.Tables.{fds_of, tables, tables-fill, slot-tables, Keeps}
use leaf_os_alpha.Scheduler.Lifecycle.Creation.{new-IsValid}
use leaf_os_alpha.Scheduler.Lifecycle.Tables.{Grows}
use leaf_os_alpha.Kernel.Table.{Table, close_all}
use leaf_os_alpha.Kernel.Table.Live.{all_held}
use leaf_os_alpha.Kernel.Table.Inherit.{IsHeld}
use leaf_os_alpha.Kernel.Table.Linked.{
  IsLinked, taken_out, put_back, none_dropped, dropped-IsLinked, initial-IsHeld,
}
use leaf_os_alpha.Kernel.Calls.{Kernel, table_of}

-- The scheduler is valid, and its tasks' tables agree with the pipes.
pub record IsConsistent {Space Disk : Type 0} (k : Kernel Space Disk) : Type 0 where
  pub valid : IsValid k.scheduler
  pub linked : IsLinked k.store (tables k.scheduler.tasks)

module _ {Space : Type 0} where
  -- A task's table is of the tables.
  pub table_in :
      (tasks : List (Option (Task Space))) (i : ℕ) (t : Task Space)
      → slot tasks i ≡ some t
      → slot (tables tasks) i ≡ some t.fds
  table_in tasks i t at = slot-tables i tasks ∙ ap fds_of at

module _ {Space Disk : Type 0} where
  -- A task may start with the first table.
  pub grown-IsLinked :
      (s s' : Scheduler Space) (st : Store Disk)
      → Grows s s'
      → IsLinked st (tables s.tasks)
      → IsLinked st (tables s'.tasks)
  grown-IsLinked s s' st (inl same) v = subst (IsLinked st) (sym same) v
  grown-IsLinked s s' st (inr (i, h, free, q)) v = subst (IsLinked st) (sym q) (
      put_back (tables s.tasks) st st i initial_table
        (subst (λ n. i < n) (sym (length-map fds_of s.tasks)) h) v
        (initial-IsHeld st (all_held (fill i none (tables s.tasks))) (
          subst (λ l. AllAgree st.pipes (all_held l))
            (sym (fill_back i none (tables s.tasks) (slot-tables i s.tasks ∙ ap fds_of free)))
            v.agrees)))

module _ {Space Disk : Type 0} where
  abbrev pub kernel : Scheduler Space → Store Disk → Kernel Space Disk
  kernel s st = record { scheduler = s; store = st }

  -- The descriptors of all tasks.
  abbrev pub all_fds : Kernel Space Disk → List FileDescriptor
  all_fds k = all_held (tables k.scheduler.tasks)

  -- The tables stay, and the store may change what the pipes hold.
  pub updated-IsConsistent :
      (k : Kernel Space Disk) (s : Scheduler Space) (st : Store Disk)
      → IsValid s
      → Keeps k.scheduler.tasks s
      → AllAgree st.pipes (all_fds k)
      → IsConsistent k
      → IsConsistent (kernel s st)
  updated-IsConsistent k s st v same a c = record {
    valid = v;
    linked = subst (IsLinked st) (sym same) (record { sized = c.linked.sized; agrees = a });
  }

  -- A task is removed, with its table.
  pub removed-IsConsistent :
      (k : Kernel Space Disk) (s : Scheduler Space) (i : ℕ)
      → IsValid s
      → s.tasks ≡ fill i none k.scheduler.tasks
      → IsConsistent k
      → IsConsistent (kernel s (close_all k.store (table_of (slot k.scheduler.tasks i))))
  removed-IsConsistent k s i v q c = record {
    valid = v;
    linked =
        subst (IsLinked (close_all k.store (table_of (slot k.scheduler.tasks i))))
          (sym (tables-fill i none k.scheduler.tasks) ∙ sym (ap tables q))
          (closed (slot k.scheduler.tasks i) refl);
  }
    where
      closed :
          (o : Option (Task Space))
          → slot k.scheduler.tasks i ≡ o
          → IsLinked (close_all k.store (table_of o)) (fill i none (tables k.scheduler.tasks))
      closed none at =
          none_dropped (tables k.scheduler.tasks) k.store i
            (slot-tables i k.scheduler.tasks ∙ ap fds_of at) c.linked
      closed (some t) at =
          dropped-IsLinked (tables k.scheduler.tasks) k.store i t.fds
            (table_in k.scheduler.tasks i t at) c.linked

  -- One task's table changes, with the store.
  pub changed-IsConsistent :
      (k : Kernel Space Disk) (st : Store Disk) (i : ℕ) (t : Task Space) (fds : Table)
      → slot k.scheduler.tasks i ≡ some t
      → (IsHeld k.store t.fds (all_held (fill i none (tables k.scheduler.tasks)))
          → IsHeld st fds (all_held (fill i none (tables k.scheduler.tasks))))
      → IsConsistent k
      → IsConsistent (kernel (put_task i (record t { fds = fds }) k.scheduler) st)
  changed-IsConsistent k st i t fds at change c =
      let s = k.scheduler in
      let g = c.valid.table.good i t at in
      let t' : Task Space = record t { fds = fds } in
      let here = table_in s.tasks i t at in
      record {
        valid =
            put_same-IsValid s i t t' c.valid at refl refl
              (record { given = g.given; dated = g.dated; idles = g.idles });
        linked = subst (IsLinked st) (sym (tables-fill i (some t') s.tasks)) (
            put_back (tables s.tasks) k.store st i fds (slot_in_range (tables s.tasks) i t.fds here)
              c.linked (change (taken_out (tables s.tasks) k.store i t.fds here c.linked)));
      }

  -- The empty scheduler, with no pipe.
  pub new-IsConsistent :
      (st : Store Disk) → st.pipes ≡ [] → IsConsistent (kernel (new {Space = Space}) st)
  unfolding new
  new-IsConsistent st e = record {
    valid = new-IsValid;
    linked = record {
      sized = λ i fds q. let n = slot-replicate {A = Table} 16 i in cc;
      agrees = subst (λ pipes. AllAgree pipes []) (sym e) (λ i. (refl, refl));
    };
  }
