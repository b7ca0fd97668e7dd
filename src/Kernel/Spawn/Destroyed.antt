-- ===== src/Kernel/Spawn/Destroyed.antt =====
-- What becomes of the address space that is given to a spawn (tasking/scheduler.rs).

use leaf_os_alpha.Base.{
  ℕ, ◌+◌, ◌≡◌, ◌≢◌, ◌⊎◌, refl, sym, ap, subst, Bool, true, false, ◌&&◌, Option, none, some, List,
  [], ◌∷◌, leb, ltb, is_none, number, Bool-cases, inl, inr, Result, ok, err, word,
}
use leaf_os_alpha.Fd.{Store}
use leaf_os_alpha.Scheduler.Task.{
  SchedulerError, full, invalid_fd, invalid_context, invalid_user_context, address_space_cleanup,
  UserContext, UserContextError,
}
use leaf_os_alpha.Scheduler.Lifecycle.{
  NewStack, create_task_stack, check_task_capacity, current_task,
}
use leaf_os_alpha.Scheduler.Lifecycle.Creation.{create_task_stack-error, check_task_capacity-error}
use leaf_os_alpha.Kernel.Table.{Table, FdMapping}
use leaf_os_alpha.Kernel.Calls.{Kernel}
use leaf_os_alpha.Kernel.Spawn.{
  Spawned, place_user, take_space, create_user_at, create_user_task, give_up, finish_spawn,
  spawn_checked, spawn_user,
}

-- An error of a spawn that tells neither of a descriptor nor of a failed cleanup.
abbrev pub IsOther : SchedulerError → Type 0
IsOther e = (e ≢ invalid_fd) × (e ≢ address_space_cleanup)

module _ {Space Disk : Type 0} (space : Space) where
  -- What is left to the caller: after an error, the space, but nothing after an invalid descriptor.
  abbrev Leaves : Spawned Space Disk → Type 0
  Leaves (ok id, left, k) = Unit {0}
  Leaves (err e, left, k) = (IsOther e × (left ≡ some space)) ⊎ ((e ≡ invalid_fd) × (left ≡ none))

  place_user-Leaves :
      (k : Kernel Space Disk) (context : UserContext) (parent : Option ℕ) (stack : NewStack) (i : ℕ)
      (r : Bool × Table × Store Disk)
      → Leaves (place_user k space context parent stack i r)
  unfolding place_user
  place_user-Leaves k context parent stack i (true, fds, s) = tt
  place_user-Leaves k context parent stack i (false, fds, s) = inr (refl, refl)

  take_space-Leaves :
      (k : Kernel Space Disk) (context : UserContext) (parent : Option ℕ) (ms : List FdMapping)
      (ns : List ℕ) (i : ℕ) (stack : Result NewStack SchedulerError)
      → ((e : SchedulerError) → stack ≡ err e → e ≡ invalid_context)
      → Leaves (take_space k (some space) context parent ms ns i stack)
  unfolding take_space
  take_space-Leaves k context parent ms ns i (err e) h =
      inl (subst IsOther (sym (h e refl)) (λ p. cc, λ p. cc), refl)
  take_space-Leaves k context parent ms ns i (ok stack) h =
      place_user-Leaves k context parent stack i _

  create_user_at-Leaves :
      (k : Kernel Space Disk) (context : UserContext) (parent : Option ℕ) (ms : List FdMapping)
      (ns : List ℕ) (trampoline base : ℕ) (r : Result ℕ SchedulerError)
      → ((e : SchedulerError) → r ≡ err e → e ≡ full)
      → Leaves (create_user_at k (some space) context parent ms ns trampoline base r)
  unfolding create_user_at
  create_user_at-Leaves k context parent ms ns trampoline base (err e) h =
      inl (subst IsOther (sym (h e refl)) (λ p. cc, λ p. cc), refl)
  create_user_at-Leaves k context parent ms ns trampoline base (ok i) h =
      elim (Bool-cases (ltb (k.scheduler.next_id + 1) word)) [
        | inl w ↦ rw w (
            take_space-Leaves k context parent ms ns i (create_task_stack trampoline base)
              (create_task_stack-error trampoline base))
        | inr w ↦ rw w (inl ((λ p. cc, λ p. cc), refl))
      ]

  create_user_task-Leaves :
      (k : Kernel Space Disk) (context : UserContext) (parent : Option ℕ) (ms : List FdMapping)
      (ns : List ℕ) (trampoline base : ℕ)
      → Leaves (create_user_task k (some space) context parent ms ns trampoline base)
  unfolding create_user_task
  create_user_task-Leaves k context parent ms ns trampoline base =
      create_user_at-Leaves k context parent ms ns trampoline base (check_task_capacity k.scheduler)
        (check_task_capacity-error k.scheduler)

  module _ (destroy : Space → Bool × Space) where
    -- A success destroys no space. On an error that is neither `InvalidFd` nor `AddressSpaceCleanup`,
    -- `destroy` has succeeded on the given space, once; on `AddressSpaceCleanup` it has failed; and on
    -- `InvalidFd` it is not called.
    abbrev pub IsSettled : Result ℕ SchedulerError × List Space × Kernel Space Disk → Type 0
    IsSettled (r, destroyed, k) =
        ((id : ℕ) × (r ≡ ok id) × (destroyed ≡ []))
        ⊎ ((e : SchedulerError) × (r ≡ err e)
            × IsOther e
            × ((destroy space).0 ≡ true)
            × (destroyed ≡ space ∷ []))
        ⊎ ((r ≡ err address_space_cleanup) × ((destroy space).0 ≡ false) × (destroyed ≡ []))
        ⊎ ((r ≡ err invalid_fd) × (destroyed ≡ []))

    give_up-IsSettled :
        (e : SchedulerError) (k : Kernel Space Disk)
        → IsOther e
        → IsSettled ((give_up destroy e (some space)).0, (give_up destroy e (some space)).1, k)
    unfolding give_up
    give_up-IsSettled e k ne = elim (Bool-cases (destroy space).0) [
      | inl q ↦ rw q (inr (inl (e, refl, ne, refl, refl)))
      | inr q ↦ rw q (inr (inr (inl (refl, refl, refl))))
    ]

    finish_spawn-IsSettled :
        (r : Spawned Space Disk) → Leaves r → IsSettled (finish_spawn destroy r)
    unfolding finish_spawn give_up
    finish_spawn-IsSettled (ok id, left, k) h = inl (id, refl, refl)
    finish_spawn-IsSettled (err e, some left, k) (inl (ne, q)) =
        let x : left ≡ space = cc in
        subst (λ l. IsSettled ((give_up destroy e (some l)).0, (give_up destroy e (some l)).1, k))
          (sym x) (give_up-IsSettled e k ne)
    finish_spawn-IsSettled (err e, none, k) (inl (ne, q)) = cc
    finish_spawn-IsSettled (err e, some left, k) (inr (p, q)) = cc
    finish_spawn-IsSettled (err e, none, k) (inr (p, q)) = inr (inr (inr (ap err p, refl)))

    spawn_checked-IsSettled :
        (k : Kernel Space Disk) (ms : List FdMapping) (ns : List ℕ) (trampoline base : ℕ)
        (r : Result UserContext UserContextError)
        → IsSettled (spawn_checked destroy k space ms ns trampoline base r)
    unfolding spawn_checked
    spawn_checked-IsSettled k ms ns trampoline base (err e) =
        give_up-IsSettled (invalid_user_context e) k (λ p. cc, λ p. cc)
    spawn_checked-IsSettled k ms ns trampoline base (ok context) =
        elim (Bool-cases
          (is_none k.scheduler.idle_index && leb (number is_none k.scheduler.tasks) 1)) [
            | inl e ↦
                rw e (
                  finish_spawn-IsSettled (err full, some space, k) (inl ((λ p. cc, λ p. cc), refl)))
            | inr e ↦ rw e (
                finish_spawn-IsSettled
                  (create_user_task k (some space) context (current_task k.scheduler) ms ns
                    trampoline base)
                  (create_user_task-Leaves k context (current_task k.scheduler) ms ns trampoline
                    base))
          ]

    -- Spawning a user task with a given address space: a success destroys no space; on an error that is
    -- neither `InvalidFd` nor `AddressSpaceCleanup`, the given space has been destroyed with success,
    -- once; on `AddressSpaceCleanup`, `destroy` was tried on it and failed; and on `InvalidFd` it is
    -- never tried, so that the space is lost.
    pub spawn_user-IsSettled :
        (check : Space → Result UserContext UserContextError) (k : Kernel Space Disk)
        (ms : List FdMapping) (ns : List ℕ) (trampoline base : ℕ)
        → IsSettled (spawn_user destroy check k space ms ns trampoline base)
    unfolding spawn_user
    spawn_user-IsSettled check k ms ns trampoline base =
        spawn_checked-IsSettled k ms ns trampoline base (check space)
