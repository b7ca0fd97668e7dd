-- ===== src/Kernel/Calls/Opening.antt =====
-- The calls that make descriptors and the reaping of tasks (tasking/scheduler.rs) keep the scheduler
-- valid and the tables in agreement with the pipes.
use leaf_os_alpha.Base.{
  ℕ, ◌≡◌, ◌<◌, refl, sym, subst, Bool, Option, none, some, List, [], ◌∷◌, ◌++◌, arith, length,
  length-modify, is_some, position, slot, slot-fill, fill, number-append, Bool-cases, inl, inr,
  Result, ok, err,
}
use leaf_os_alpha.Fd.{
  FileDescriptor, Store, FileSystem, max_fds, close, create_pipe, create_file_write,
  create_file_read,
}
use leaf_os_alpha.Fd.Calls.{create_pipe-AllAgree, opens_write-Counts, opens_read-Counts}
use leaf_os_alpha.Fd.Ends.{AllAgree}
use leaf_os_alpha.Fd.World.{opened, Counts}
use leaf_os_alpha.Scheduler.Task.{Task}
use leaf_os_alpha.Scheduler.Ops.{Outcome, has_id}
use leaf_os_alpha.Scheduler.Ops.Table.{IsValid}
use leaf_os_alpha.Scheduler.Ops.Tables.{tables}
use leaf_os_alpha.Scheduler.Lifecycle.{reap_terminated}
use leaf_os_alpha.Scheduler.Lifecycle.Reaping.{reap_terminated-IsValid}
use leaf_os_alpha.Scheduler.Lifecycle.Tables.{Frees, reap_terminated-Frees}
use leaf_os_alpha.Kernel.Table.{Table, find_free_fd, find_free_fd_pair, close_all}
use leaf_os_alpha.Kernel.Table.Live.{held, all_held, Same, AllAgree-Same, close-agrees}
use leaf_os_alpha.Kernel.Table.Inherit.{IsHeld}
use leaf_os_alpha.Kernel.Table.Linked.{placed-IsHeld, take_all-Same}
use leaf_os_alpha.Kernel.Table.Free.{find_free_fd_pair-some, find_free_fd-some}
use leaf_os_alpha.Kernel.Calls.{
  Kernel, with_store, table_of, found_table, pipe_at, pipe_task, pipe_current,
  create_pipe_for_current, drop_reaped, reap, place_file, opened_file, open_at, open_task,
  open_current, create_file_write_for_current, create_file_read_for_current,
}
use leaf_os_alpha.Kernel.Calls.Consistent.{
  IsConsistent, updated-IsConsistent, changed-IsConsistent, removed-IsConsistent, table_in, all_fds,
  kernel,
}

move-Same :
    (d : FileDescriptor) (fds : Table) (ys : List FileDescriptor)
    → Same (d ∷ (held fds ++ ys)) (held fds ++ (d ∷ ys))
move-Same d fds ys p =
    omega (arith, number-append p (held fds) ys, number-append p (held fds) (d ∷ ys))

-- Two new descriptors go into two free entries.
two_placed-IsHeld :
    {Disk : Type 0} (s : Store Disk) (d e : FileDescriptor) (a b : ℕ) (fds : Table)
    (ys : List FileDescriptor)
    → length fds ≡ max_fds
    → (a < b) × (b < length fds) × (slot fds a ≡ none) × (slot fds b ≡ none)
    → AllAgree s.pipes (d ∷ e ∷ (held fds ++ ys))
    → IsHeld s (fill b (some e) (fill a (some d) fds)) ys
two_placed-IsHeld s d e a b fds ys size (h, last, free, free') all =
    placed-IsHeld s e b (fill a (some d) fds) ys first.size
      (omega (arith, length-modify (λ _. some d) a fds))
      (ground (arith, slot-fill a b (some d) fds (omega arith)))
      (AllAgree-Same s.pipes _ _ (λ p. sym (move-Same e (fill a (some d) fds) ys p)) first.agrees)
  where
    first : IsHeld s (fill a (some d) fds) (e ∷ ys)
    first = placed-IsHeld s d a fds (e ∷ ys) size (omega arith) free (
        AllAgree-Same s.pipes (d ∷ e ∷ (held fds ++ ys)) _
          (λ p. let m = move-Same e fds ys p in omega arith) all)

module _ {Space Disk : Type 0} (k : Kernel Space Disk) (c : IsConsistent k) where
  stored : (st : Store Disk) → AllAgree st.pipes (all_fds k) → IsConsistent (with_store k st)
  stored st a = updated-IsConsistent k k.scheduler st c.valid refl a c

  -- A task's new table takes up descriptors at hand.
  taking-IsConsistent :
      (st : Store Disk) (i : ℕ) (t : Task Space) (fds : Table) (hand : List FileDescriptor)
      → slot k.scheduler.tasks i ≡ some t
      → AllAgree st.pipes (hand ++ all_fds k)
      → ((ys : List FileDescriptor)
          → length t.fds ≡ max_fds
          → AllAgree st.pipes (hand ++ (held t.fds ++ ys))
          → IsHeld st fds ys)
      → IsConsistent (
          kernel
            (record k.scheduler {
              tasks = fill i (some (record t { fds = fds })) k.scheduler.tasks;
            })
            st)
  taking-IsConsistent st i t fds hand at all place =
      changed-IsConsistent k st i t fds at
        (λ v. place _ v.size (
          AllAgree-Same st.pipes (hand ++ all_fds k) _
            (λ p. omega (
              arith,
              take_all-Same i (some t.fds) _ (table_in k.scheduler.tasks i t at) p,
              number-append p hand (all_fds k),
              number-append p hand
                  (held t.fds ++ all_held (fill i none (tables k.scheduler.tasks))),
            ))
            all))
        c

  module _ (st : Store Disk) (r w : FileDescriptor)
      (all : AllAgree st.pipes (r ∷ w ∷ all_fds k)) where
    both_closed : IsConsistent (with_store k (close (close st w) r))
    both_closed = stored _ (
        close-agrees (close st w) (r ∷ all_fds k) (all_fds k) r (λ p. refl)
          (close-agrees st (r ∷ w ∷ all_fds k) (r ∷ all_fds k) w (λ p. omega arith) all))

    pipe_at-keeps :
        (i : ℕ) (t : Task Space) (o : Option (ℕ × ℕ))
        → slot k.scheduler.tasks i ≡ some t
        → find_free_fd_pair t.fds ≡ o
        → IsConsistent (pipe_at (with_store k st) i t r w o).1
    unfolding pipe_at
    pipe_at-keeps i t none at e = both_closed
    pipe_at-keeps i t (some (a, b)) at e =
        taking-IsConsistent st i t _ (r ∷ w ∷ []) at all (λ ys size agrees.
          two_placed-IsHeld st r w a b t.fds ys size (find_free_fd_pair-some t.fds a b e) agrees)

    pipe_task-keeps :
        (i : ℕ) (o : Option (Task Space))
        → slot k.scheduler.tasks i ≡ o
        → IsConsistent (pipe_task (with_store k st) i o r w).1
    unfolding pipe_task
    pipe_task-keeps i none at = both_closed
    pipe_task-keeps i (some t) at = pipe_at-keeps i t (find_free_fd_pair t.fds) at refl

    pipe_current-keeps : (o : Option ℕ) → IsConsistent (pipe_current (with_store k st) o r w).1
    unfolding pipe_current
    pipe_current-keeps none = both_closed
    pipe_current-keeps (some i) = pipe_task-keeps i (slot k.scheduler.tasks i) refl

  pub create_pipe_for_current-keeps : IsConsistent (create_pipe_for_current k).1
  unfolding create_pipe_for_current
  create_pipe_for_current-keeps =
      pipe_current-keeps (create_pipe k.store).2 (create_pipe k.store).0 (create_pipe k.store).1
        (create_pipe-AllAgree k.store (all_fds k) c.linked.agrees) k.scheduler.current

  module _ (opens : Store Disk → Result FileDescriptor (Unit {0}) × Store Disk)
      (counts : Counts (opened (opens k.store) (all_fds k))) where
    place_file-keeps :
        (st : Store Disk) (i : ℕ) (t : Task Space) (n : ℕ) (d : FileDescriptor)
        → slot k.scheduler.tasks i ≡ some t
        → find_free_fd t.fds ≡ some n
        → AllAgree st.pipes (d ∷ all_fds k)
        → IsConsistent (place_file (with_store k st) i t n d).1
    unfolding place_file
    place_file-keeps st i t n d at e all = elim (Bool-cases (is_some (slot t.fds n))) [
      | inl q ↦ rw q (stored _ (close-agrees st (d ∷ all_fds k) (all_fds k) d (λ p. refl) all))
      | inr q ↦ rw q (
          let (h, free) = find_free_fd-some t.fds n e in
          taking-IsConsistent st i t _ (d ∷ []) at all
            (λ ys size agrees. placed-IsHeld st d n t.fds ys size h free agrees))
    ]

    opened_file-keeps :
        (i : ℕ) (t : Task Space) (n : ℕ) (r : Result FileDescriptor (Unit {0}) × Store Disk)
        → slot k.scheduler.tasks i ≡ some t
        → find_free_fd t.fds ≡ some n
        → Counts (opened r (all_fds k))
        → IsConsistent (opened_file k i t n r).1
    unfolding opened_file
    opened_file-keeps i t n (err e, st) at f all = stored st all
    opened_file-keeps i t n (ok d, st) at f all = place_file-keeps st i t n d at f all

    open_at-keeps :
        (i : ℕ) (t : Task Space) (o : Option ℕ)
        → slot k.scheduler.tasks i ≡ some t
        → find_free_fd t.fds ≡ o
        → IsConsistent (open_at k opens i t o).1
    unfolding open_at
    open_at-keeps i t none at f = c
    open_at-keeps i t (some n) at f = opened_file-keeps i t n (opens k.store) at f counts

    open_task-keeps :
        (i : ℕ) (o : Option (Task Space))
        → slot k.scheduler.tasks i ≡ o
        → IsConsistent (open_task k opens i o).1
    unfolding open_task
    open_task-keeps i none at = c
    open_task-keeps i (some t) at = open_at-keeps i t (find_free_fd t.fds) at refl

    open_current-keeps : (o : Option ℕ) → IsConsistent (open_current k opens o).1
    unfolding open_current
    open_current-keeps none = c
    open_current-keeps (some i) = open_task-keeps i (slot k.scheduler.tasks i) refl

  module _ (fs : FileSystem Disk) (path : List ℕ) where
    pub create_file_write_for_current-keeps :
        IsConsistent (create_file_write_for_current fs k path).1
    unfolding create_file_write_for_current
    create_file_write_for_current-keeps =
        open_current-keeps (λ s. create_file_write fs s path)
          (opens_write-Counts k.store (all_fds k) c.linked.agrees fs path) k.scheduler.current

    pub create_file_read_for_current-keeps : IsConsistent (create_file_read_for_current fs k path).1
    unfolding create_file_read_for_current
    create_file_read_for_current-keeps =
        open_current-keeps (λ s. create_file_read fs s path)
          (opens_read-Counts k.store (all_fds k) c.linked.agrees fs path) k.scheduler.current

  drop_reaped-keeps :
      (o : Option ℕ) (r : Outcome Space (Unit {0}))
      → IsValid r.1
      → Frees k.scheduler o r
      → IsConsistent (drop_reaped k (found_table o k.scheduler.tasks) r).1
  unfolding drop_reaped
  drop_reaped-keeps o (err e, s) v same = updated-IsConsistent k s k.store v same c.linked.agrees c
  drop_reaped-keeps none (ok x, s) v (i, e, q) = cc
  drop_reaped-keeps (some j) (ok x, s) v (i, e, q) =
      let ji : j ≡ i = cc in
      subst (λ n. IsConsistent (kernel s (close_all k.store (table_of (slot k.scheduler.tasks n)))))
        (sym ji) (removed-IsConsistent k s i v q c)

  pub reap-keeps : (destroy : Space → Bool × Space) (id : ℕ) → IsConsistent (reap destroy k id).1
  unfolding reap
  reap-keeps destroy id =
      drop_reaped-keeps (position (has_id id) k.scheduler.tasks)
        (reap_terminated destroy k.scheduler id)
        (reap_terminated-IsValid destroy k.scheduler id c.valid)
        (reap_terminated-Frees destroy k.scheduler id)
