-- ===== src/Kernel/Table.antt =====
-- tasking/scheduler.rs: descriptor tables, `[Option<FileDescriptor>; MAX_FDS]`, with the store that
-- the descriptors reach.
pub mod Live
pub mod Inherit
pub mod Linked
pub mod Free
use leaf_os_alpha.Base.{
  ℕ, suc, ◌+◌, Bool, true, false, ◌||◌, Option, none, some, List, [], ◌∷◌, if◌then◌else◌, ◌==◌, leb,
  is_none, position, slot, fill,
}
use leaf_os_alpha.Fd.{FileDescriptor, Store, clone, close, max_fds}

abbrev pub Table : Type 0
Table = List (Option FileDescriptor)

pub record FdMapping : Type 0 where
  pub source : ℕ
  pub target : ℕ

pub find_free_fd : Table → Option ℕ
find_free_fd fds = position is_none fds

-- The numbers of the free entries, counted from `index`.
pub free_fds : ℕ → Table → List ℕ
free_fds index [] = []
free_fds index (none ∷ fds) = index ∷ free_fds (suc index) fds
free_fds index (some d ∷ fds) = free_fds (suc index) fds

pub first_pair : List ℕ → Option (ℕ × ℕ)
first_pair (a ∷ b ∷ rest) = some (a, b)
first_pair _ = none

pub find_free_fd_pair : Table → Option (ℕ × ℕ)
unfolding free_fds first_pair
find_free_fd_pair fds = first_pair (free_fds 0 fds)

module _ {Disk : Type 0} where
  -- The drop of an entry that was taken out.
  pub close_entry : Store Disk → Option FileDescriptor → Store Disk
  close_entry s none = s
  close_entry s (some d) = close s d

  -- The drop of a whole table.
  pub close_all : Store Disk → Table → Store Disk
  unfolding close_entry
  close_all s [] = s
  close_all s (o ∷ fds) = close_all (close_entry s o) fds

  -- The clone of a whole table is the same table, and changes the store.
  pub clone_entry : Store Disk → Option FileDescriptor → Store Disk
  clone_entry s none = s
  clone_entry s (some d) = clone s d

  pub clone_all : Store Disk → Table → Store Disk
  unfolding clone_entry
  clone_all s [] = s
  clone_all s (o ∷ fds) = clone_all (clone_entry s o) fds

  -- A clone of a descriptor goes to the target, and what was there is dropped.
  pub map_to : Store Disk → Table → ℕ → Option FileDescriptor → Bool × Table × Store Disk
  unfolding close_entry
  map_to s fds target none = (false, fds, s)
  map_to s fds target (some d) =
      (true, fill target (some d) fds, close_entry (clone s d) (slot fds target))

  pub map_fd : Store Disk → Table → FdMapping → Bool × Table × Store Disk
  unfolding map_to
  map_fd s fds m =
      if leb max_fds m.source || leb max_fds m.target
      then (false, fds, s)
      else map_to s fds m.target (slot fds m.source)

  -- The first loop over the mappings of `create_user_task`; `false` is `InvalidFd`.
  pub map_fds : Store Disk → Table → List FdMapping → Bool × Table × Store Disk
  unfolding map_fd
  map_fds s fds [] = (true, fds, s)
  map_fds s fds (m ∷ ms) =
      let (done, fds', s') = map_fd s fds m in
      let rest = map_fds s' fds' ms in if done then rest else (false, fds', s')

  pub take_source : Store Disk → Table → FdMapping → Table × Store Disk
  unfolding close_entry
  take_source s fds m =
      if m.source == m.target
      then (fds, s)
      else (fill m.source none fds, close_entry s (slot fds m.source))

  -- The second loop over the mappings.
  pub take_sources : Store Disk → Table → List FdMapping → Table × Store Disk
  unfolding take_source
  take_sources s fds [] = (fds, s)
  take_sources s fds (m ∷ ms) = let (fds', s') = take_source s fds m in take_sources s' fds' ms

  -- The loop over the descriptors to close; `false` is `InvalidFd`.
  pub close_fds : Store Disk → Table → List ℕ → Bool × Table × Store Disk
  unfolding close_entry
  close_fds s fds [] = (true, fds, s)
  close_fds s fds (n ∷ ns) =
      let rest = close_fds (close_entry s (slot fds n)) (fill n none fds) ns in
      if leb max_fds n then (false, fds, s) else rest

  -- What the mappings and closes make of a table.
  pub inherit_fds : Store Disk → Table → List FdMapping → List ℕ → Bool × Table × Store Disk
  unfolding map_fds take_sources close_fds
  inherit_fds s fds mappings closes =
      let (mapped, fds', s') = map_fds s fds mappings in
      let (fds'', s'') = take_sources s' fds' mappings in
      let closed = close_fds s'' fds'' closes in if mapped then closed else (false, fds', s')
