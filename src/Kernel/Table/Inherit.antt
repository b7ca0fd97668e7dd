-- ===== src/Kernel/Table/Inherit.antt =====
-- What `create_user_task` (tasking/scheduler.rs) makes of a child's table keeps the counts of the
-- pipes.
use leaf_os_alpha.Base.{
  ℕ, ◌≡◌, ◌<◌, refl, subst, ◌∙◌, ◌||◌, Bool, true, false, Option, none, some, List, [], ◌∷◌, ◌++◌,
  arith, if◌then◌else◌, ◌==◌, leb, length, length-modify, slot, fill, Bool-cases, inl, inr,
}
use leaf_os_alpha.Fd.{FileDescriptor, Store, clone, close, max_fds}
use leaf_os_alpha.Fd.Ends.{AllAgree}
use leaf_os_alpha.Kernel.Table.{
  Table, FdMapping, close_entry, map_to, map_fd, map_fds, take_source, take_sources, close_fds,
  inherit_fds,
}
use leaf_os_alpha.Kernel.Table.Live.{
  entry, held, Same, take-Same, put-Same, close_entry-agrees, clone-agrees,
}

-- A table of the fixed size, held beside other descriptors, agrees with the pipes.
pub record IsHeld {Disk : Type 0} (s : Store Disk) (fds : Table) (ys : List FileDescriptor)
    : Type 0 where
  pub size : length fds ≡ max_fds
  pub agrees : AllAgree s.pipes (held fds ++ ys)

module _ {Disk : Type 0} (ys : List FileDescriptor) where
  -- A table of its own beside the others, with the store, as the loops leave them.
  abbrev pub Kept : Bool × Table × Store Disk → Type 0
  Kept (done, fds, s) = IsHeld s fds ys

  taken-IsHeld :
      (s : Store Disk) (fds : Table) (n : ℕ)
      → IsHeld s fds ys
      → IsHeld (close_entry s (slot fds n)) (fill n none fds) ys
  taken-IsHeld s fds n v = record {
    size = length-modify _ n fds ∙ v.size;
    agrees =
        close_entry-agrees s (slot fds n) (held fds ++ ys) (held (fill n none fds) ++ ys)
          (take-Same n fds ys) v.agrees;
  }

  pub closed-IsHeld :
      (s : Store Disk) (fds : Table) (n : ℕ) (d : FileDescriptor)
      → slot fds n ≡ some d
      → IsHeld s fds ys
      → IsHeld (close s d) (fill n none fds) ys
  unfolding close_entry
  closed-IsHeld s fds n d at v =
      subst (λ o. IsHeld (close_entry s o) (fill n none fds) ys) at (taken-IsHeld s fds n v)

  -- A clone of an entry put over another.
  pub cloned-IsHeld :
      (s : Store Disk) (fds : Table) (source target : ℕ) (d : FileDescriptor)
      → slot fds source ≡ some d
      → target < length fds
      → IsHeld s fds ys
      → IsHeld (close_entry (clone s d) (slot fds target)) (fill target (some d) fds) ys
  cloned-IsHeld s fds source target d at h v = record {
    size = length-modify _ target fds ∙ v.size;
    agrees =
        close_entry-agrees (clone s d) (slot fds target) (d ∷ (held fds ++ ys)) _
          (put-Same target (some d) fds ys h)
          (clone-agrees s (held fds ++ ys) (held (fill source none fds) ++ ys) d _
            (subst (λ o. Same (held fds ++ ys) (entry o ++ (held (fill source none fds) ++ ys))) at
              (take-Same source fds ys))
            (λ p. refl) v.agrees);
  }

  map_to-Kept :
      (s : Store Disk) (fds : Table) (source target : ℕ) (o : Option FileDescriptor)
      → slot fds source ≡ o
      → target < length fds
      → IsHeld s fds ys
      → Kept (map_to s fds target o)
  unfolding map_to
  map_to-Kept s fds source target none at h v = v
  map_to-Kept s fds source target (some d) at h v = cloned-IsHeld s fds source target d at h v

  map_fd-Kept :
      (s : Store Disk) (fds : Table) (m : FdMapping) → IsHeld s fds ys → Kept (map_fd s fds m)
  unfolding map_fd
  map_fd-Kept s fds m v = elim (Bool-cases (leb max_fds m.source || leb max_fds m.target)) [
    | inl e ↦ rw e v
    | inr e ↦
        let size : length fds ≡ 16 = v.size in
        let inside : m.target < length fds = ground arith in
        rw e (map_to-Kept s fds m.source m.target (slot fds m.source) refl inside v)
  ]

  map_fds-Kept :
      (ms : List FdMapping) (s : Store Disk) (fds : Table)
      → IsHeld s fds ys
      → Kept (map_fds s fds ms)
  unfolding map_fds
  map_fds-Kept [] s fds v = v
  map_fds-Kept (m ∷ ms) s fds v =
      next (map_fd s fds m) (map_fd-Kept s fds m v)
        (map_fds-Kept ms (map_fd s fds m).2 (map_fd s fds m).1)
    where
      next :
          (r : Bool × Table × Store Disk)
          → Kept r
          → (IsHeld r.2 r.1 ys → Kept (map_fds r.2 r.1 ms))
          → Kept (let rest = map_fds r.2 r.1 ms in if r.0 then rest else (false, r.1, r.2))
      next (true, fds', s') k rest = rest k
      next (false, fds', s') k rest = k

  take_source-IsHeld :
      (s : Store Disk) (fds : Table) (m : FdMapping)
      → IsHeld s fds ys
      → IsHeld (take_source s fds m).1 (take_source s fds m).0 ys
  unfolding take_source
  take_source-IsHeld s fds m v = elim (Bool-cases (m.source == m.target)) [
    | inl e ↦ rw e v
    | inr e ↦ rw e (taken-IsHeld s fds m.source v)
  ]

  take_sources-IsHeld :
      (ms : List FdMapping) (s : Store Disk) (fds : Table)
      → IsHeld s fds ys
      → IsHeld (take_sources s fds ms).1 (take_sources s fds ms).0 ys
  unfolding take_sources
  take_sources-IsHeld [] s fds v = v
  take_sources-IsHeld (m ∷ ms) s fds v =
      take_sources-IsHeld ms (take_source s fds m).1 (take_source s fds m).0
        (take_source-IsHeld s fds m v)

  close_fds-Kept :
      (ns : List ℕ) (s : Store Disk) (fds : Table) → IsHeld s fds ys → Kept (close_fds s fds ns)
  unfolding close_fds
  close_fds-Kept [] s fds v = v
  close_fds-Kept (n ∷ ns) s fds v = elim (Bool-cases (leb max_fds n)) [
    | inl e ↦ rw e v
    | inr e ↦
        rw e (
          close_fds-Kept ns (close_entry s (slot fds n)) (fill n none fds) (taken-IsHeld s fds n v))
  ]

  -- Whether the loops finish or stop at an error, the child's table keeps its size, and each pipe
  -- counts its entries beside the other descriptors in use.
  pub inherit_fds-Kept :
      (s : Store Disk) (fds : Table) (ms : List FdMapping) (ns : List ℕ)
      → IsHeld s fds ys
      → Kept (inherit_fds s fds ms ns)
  unfolding inherit_fds
  inherit_fds-Kept s fds ms ns v = next (map_fds s fds ms) (map_fds-Kept ms s fds v)
    where
      next :
          (r : Bool × Table × Store Disk)
          → Kept r
          → Kept (
              let (fds'', s'') = take_sources r.2 r.1 ms in
              let closed = close_fds s'' fds'' ns in if r.0 then closed else (false, r.1, r.2))
      next (true, fds', s') k = close_fds-Kept ns _ _ (take_sources-IsHeld ms s' fds' k)
      next (false, fds', s') k = k
