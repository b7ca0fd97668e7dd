-- ===== src/Fd/World.antt =====
-- Histories of file descriptors (tasking/fd.rs): the calls that open, clone, use and close them.
use leaf_os_alpha.Base.{ℕ, ◌≡◌, List, ◌∷◌, ◌++◌, Result, ok, err}
use leaf_os_alpha.Fd.{
  FileDescriptor, Store, FileSystem, clone, close, create_pipe, read, write, create_file_write,
  create_file_read,
}
use leaf_os_alpha.Fd.Ends.{AllAgree}

-- A store and the descriptors in use, in any number of tables.
pub record World (Disk : Type 0) : Type 0 where
  pub store : Store Disk
  pub live : List FileDescriptor

-- What an attempt to open a file leaves.
abbrev pub opened {ℓ} :
    {Disk : Type 0} {E : Type ℓ}
    → Result FileDescriptor E × Store Disk
    → List FileDescriptor
    → World Disk
opened (ok d, s) live = record { store = s; live = d ∷ live }
opened (err e, s) live = record { store = s; live = live }

-- One call, on a descriptor in use: `before` and `after` stand round it.
pub data Step {Disk : Type 0} (fs : FileSystem Disk) (v w : World Disk) : Type 0 where
  creates :
      w ≡ (let (r, t, s) = create_pipe v.store in record { store = s; live = r ∷ t ∷ v.live })
      → Step fs v w
  clones :
      (d : FileDescriptor) (before after : List FileDescriptor)
      → v.live ≡ before ++ (d ∷ after)
      → w ≡ record { store = clone v.store d; live = d ∷ v.live }
      → Step fs v w
  closes :
      (d : FileDescriptor) (before after : List FileDescriptor)
      → v.live ≡ before ++ (d ∷ after)
      → w ≡ record { store = close v.store d; live = before ++ after }
      → Step fs v w
  reads :
      (d : FileDescriptor) (size : ℕ)
      → w ≡ record v { store = (read v.store d size).1 }
      → Step fs v w
  writes :
      (d : FileDescriptor) (input : List ℕ)
      → w ≡ record v { store = (write fs v.store d input).1 }
      → Step fs v w
  opens_write :
      (path : List ℕ) → w ≡ opened (create_file_write fs v.store path) v.live → Step fs v w
  opens_read : (path : List ℕ) → w ≡ opened (create_file_read fs v.store path) v.live → Step fs v w

pub data Reach {Disk : Type 0} (fs : FileSystem Disk) (v : World Disk) : World Disk → Type 0 where
  here : Reach fs v v
  next : {u w : World Disk} → Reach fs v u → Step fs u w → Reach fs v w

abbrev pub Counts : {Disk : Type 0} → World Disk → Type 0
Counts w = AllAgree w.store.pipes w.live
