-- ===== src/Kernel/Calls/Keeping.antt =====
-- Each call of the running task on its descriptors (tasking/scheduler.rs) keeps the scheduler valid
-- and the tables in agreement with the pipes.
use leaf_os_alpha.Base.{
  ℕ, ◌≡◌, ◌<◌, refl, sym, subst, ◌||◌, Option, none, some, List, arith, ◌==◌, leb, is_some, slot,
  fill, Bool-cases, inl, inr,
}
use leaf_os_alpha.Fd.{FileDescriptor, Store, FileSystem, max_fds, clone, close}
use leaf_os_alpha.Fd.Calls.{read-AllAgree, write-AllAgree}
use leaf_os_alpha.Fd.Ends.{AllAgree}
use leaf_os_alpha.Scheduler.Task.{Task}
use leaf_os_alpha.Scheduler.Ops.States.{wake_all_blocked-IsValid}
use leaf_os_alpha.Scheduler.Ops.Tables.{wake_all_blocked-Keeps}
use leaf_os_alpha.Kernel.Table.{close_entry}
use leaf_os_alpha.Kernel.Table.Inherit.{cloned-IsHeld, closed-IsHeld}
use leaf_os_alpha.Kernel.Calls.{
  Kernel, with_store, current_slot, read_entry, read_task, read_current_fd, write_entry, write_task,
  write_current_fd, close_taken, close_task, close_current, close_current_fd, duplicate_entry,
  duplicate_task, duplicate_current, duplicate_current_fd,
}
use leaf_os_alpha.Kernel.Calls.Consistent.{
  IsConsistent, updated-IsConsistent, changed-IsConsistent, all_fds,
}

module _ {Space Disk : Type 0} (k : Kernel Space Disk) (c : IsConsistent k) where
  stored : (st : Store Disk) → AllAgree st.pipes (all_fds k) → IsConsistent (with_store k st)
  stored st a = updated-IsConsistent k k.scheduler st c.valid refl a c

  read_entry-keeps : (o : Option FileDescriptor) (size : ℕ) → IsConsistent (read_entry k o size).1
  unfolding read_entry
  read_entry-keeps none size = c
  read_entry-keeps (some d) size =
      stored _ (read-AllAgree k.store (all_fds k) c.linked.agrees d size)

  read_task-keeps : (o : Option (Task Space)) (n size : ℕ) → IsConsistent (read_task k o n size).1
  unfolding read_task
  read_task-keeps none n size = c
  read_task-keeps (some t) n size = read_entry-keeps (slot t.fds n) size

  pub read_current_fd-keeps : (n size : ℕ) → IsConsistent (read_current_fd k n size).1
  unfolding read_current_fd
  read_current_fd-keeps n size =
      read_task-keeps (current_slot k.scheduler.current k.scheduler.tasks) n size

  module _ (fs : FileSystem Disk) where
    write_entry-keeps :
        (o : Option FileDescriptor) (input : List ℕ) → IsConsistent (write_entry fs k o input).1
    unfolding write_entry
    write_entry-keeps none input = c
    write_entry-keeps (some d) input =
        stored _ (write-AllAgree k.store (all_fds k) c.linked.agrees fs d input)

    write_task-keeps :
        (o : Option (Task Space)) (n : ℕ) (input : List ℕ)
        → IsConsistent (write_task fs k o n input).1
    unfolding write_task
    write_task-keeps none n input = c
    write_task-keeps (some t) n input = write_entry-keeps (slot t.fds n) input

    pub write_current_fd-keeps :
        (n : ℕ) (input : List ℕ) → IsConsistent (write_current_fd fs k n input).1
    unfolding write_current_fd
    write_current_fd-keeps n input =
        write_task-keeps (current_slot k.scheduler.current k.scheduler.tasks) n input

  close_taken-keeps :
      (i : ℕ) (t : Task Space) (n : ℕ) (o : Option FileDescriptor)
      → slot k.scheduler.tasks i ≡ some t
      → slot t.fds n ≡ o
      → IsConsistent (close_taken k i t n o).1
  unfolding close_taken
  close_taken-keeps i t n none at e = c
  close_taken-keeps i t n (some d) at e =
      let closed =
        changed-IsConsistent k (close k.store d) i t (fill n none t.fds) at
          (λ v. closed-IsHeld _ k.store t.fds n d e v) c in
      updated-IsConsistent _ _ (close k.store d) (wake_all_blocked-IsValid _ closed.valid)
        (wake_all_blocked-Keeps _) closed.linked.agrees closed

  close_task-keeps :
      (i : ℕ) (o : Option (Task Space)) (n : ℕ)
      → slot k.scheduler.tasks i ≡ o
      → IsConsistent (close_task k i o n).1
  unfolding close_task
  close_task-keeps i none n at = c
  close_task-keeps i (some t) n at = close_taken-keeps i t n (slot t.fds n) at refl

  close_current-keeps : (o : Option ℕ) (n : ℕ) → IsConsistent (close_current k o n).1
  unfolding close_current
  close_current-keeps none n = c
  close_current-keeps (some i) n = close_task-keeps i (slot k.scheduler.tasks i) n refl

  pub close_current_fd-keeps : (n : ℕ) → IsConsistent (close_current_fd k n).1
  unfolding close_current_fd
  close_current_fd-keeps n = close_current-keeps k.scheduler.current n

  duplicate_entry-keeps :
      (i : ℕ) (t : Task Space) (source target : ℕ) (o : Option FileDescriptor)
      → slot k.scheduler.tasks i ≡ some t
      → slot t.fds source ≡ o
      → target < 16
      → IsConsistent (duplicate_entry k i t target o).1
  unfolding duplicate_entry
  duplicate_entry-keeps i t source target none at e h = c
  duplicate_entry-keeps i t source target (some d) at e h =
      changed-IsConsistent k (close_entry (clone k.store d) (slot t.fds target)) i t
        (fill target (some d) t.fds) at
        (λ v.
          cloned-IsHeld _ k.store t.fds source target d e (subst (λ n. target < n) (sym v.size) h)
            v)
        c

  duplicate_task-keeps :
      (i : ℕ) (o : Option (Task Space)) (source target : ℕ)
      → slot k.scheduler.tasks i ≡ o
      → target < 16
      → IsConsistent (duplicate_task k i o source target).1
  unfolding duplicate_task
  duplicate_task-keeps i none source target at h = c
  duplicate_task-keeps i (some t) source target at h = elim (Bool-cases (source == target)) [
    | inl e ↦
        rw e (elim (Bool-cases (is_some (slot t.fds source))) [ inl f ↦ rw f c | inr f ↦ rw f c ])
    | inr e ↦ rw e (duplicate_entry-keeps i t source target (slot t.fds source) at refl h)
  ]

  duplicate_current-keeps :
      (o : Option ℕ) (source target : ℕ)
      → target < 16
      → IsConsistent (duplicate_current k o source target).1
  unfolding duplicate_current
  duplicate_current-keeps none source target h = c
  duplicate_current-keeps (some i) source target h =
      duplicate_task-keeps i (slot k.scheduler.tasks i) source target refl h

  pub duplicate_current_fd-keeps :
      (source target : ℕ) → IsConsistent (duplicate_current_fd k source target).1
  unfolding duplicate_current_fd
  duplicate_current_fd-keeps source target =
      elim (Bool-cases (leb max_fds source || leb max_fds target)) [
        | inl e ↦ rw e c
        | inr e ↦ rw e (duplicate_current-keeps k.scheduler.current source target (ground arith))
      ]
