-- ===== src/Fd.antt =====
-- tasking/fd.rs: file descriptors. `Arc<Mutex<T>>` is an index into a list of the store, so clones
-- of a descriptor share their pipe or file. A dangling index cannot arise (see Fd/Ends.antt); such
-- a call is given as `invalid`.
pub mod Ends
pub mod World
pub mod Calls
pub mod History
pub mod Blocking
pub mod Files
mod Tests
use leaf_os_alpha.Base.{
  ℕ, zero, suc, ◌+◌, ◌-◌, ◌≡◌, Bool, true, false, ◌&&◌, ◌||◌, not, Option, none, some, List, [],
  ◌∷◌, ◌++◌, if◌then◌else◌, ◌==◌, ltb, length, get_elem?, modify, ◌*◌, take, drop, replicate, min,
  Result, ok, err,
}
use leaf_os_alpha.Input
use leaf_os_alpha.Input.{InputBuffer}
use leaf_os_alpha.Pipe
use leaf_os_alpha.Pipe.{Pipe}

pub data ReadError : Type 0 where
  invalid would_block io : ReadError

pub data WriteError : Type 0 where
  invalid would_block broken_pipe io : WriteError

pub record FileWrite : Type 0 where
  pub path : List ℕ
  pub path_len : ℕ
  pub contents : List ℕ

pub record FileRead : Type 0 where
  pub contents : List ℕ
  pub offset : ℕ

pub data FileDescriptor : Type 0 where
  stdin console : FileDescriptor
  pipe_read pipe_write file_write file_read : ℕ → FileDescriptor

-- What the descriptors reach: the shared pipes and files, the keyboard queue, the bytes handed to
-- the console, and the disk.
pub record Store (Disk : Type 0) : Type 0 where
  pub pipes : List Pipe
  pub file_writes : List FileWrite
  pub file_reads : List FileRead
  pub input : InputBuffer
  pub console_out : List ℕ
  pub disk : Disk

-- fs/ext2.rs as it is called here, and `core::str::from_utf8`. A failed `write_file` may have
-- changed the disk.
pub record FileSystem (Disk : Type 0) : Type 0 where
  pub write_file : Disk → List ℕ → List ℕ → Bool × Disk
  pub read_file_vec : Disk → List ℕ → ℕ → Result (Option (List ℕ)) (Unit {0})
  pub is_utf8 : List ℕ → Bool

abbrev pub max_fds : ℕ
max_fds = 16

unfoldable pub initial_table : List (Option FileDescriptor)
initial_table = some stdin ∷ some console ∷ some console ∷ replicate (max_fds - 3) none

pub add_reader : Pipe → Pipe
add_reader p = record p { readers = p.readers + 1 }

pub add_writer : Pipe → Pipe
add_writer p = record p { writers = p.writers + 1 }

-- `saturating_sub` is the truncated subtraction.
pub drop_reader : Pipe → Pipe
drop_reader p = record p { readers = p.readers - 1 }

pub drop_writer : Pipe → Pipe
drop_writer p = record p { writers = p.writers - 1 }

module _ {Disk : Type 0} where
  -- `Clone for FileDescriptor`: the clone is the same descriptor; the store changes.
  pub clone : Store Disk → FileDescriptor → Store Disk
  clone s stdin = s
  clone s console = s
  clone s (pipe_read i) = record s { pipes = modify add_reader i s.pipes }
  clone s (pipe_write i) = record s { pipes = modify add_writer i s.pipes }
  clone s (file_write i) = s
  clone s (file_read i) = s

  -- `Drop for FileDescriptor`, which `close` runs.
  pub close : Store Disk → FileDescriptor → Store Disk
  close s stdin = s
  close s console = s
  close s (pipe_read i) = record s { pipes = modify drop_reader i s.pipes }
  close s (pipe_write i) = record s { pipes = modify drop_writer i s.pipes }
  close s (file_write i) = s
  close s (file_read i) = s

  -- The read end, the write end, and the store.
  pub create_pipe : Store Disk → FileDescriptor × FileDescriptor × Store Disk
  create_pipe s =
      let i = length s.pipes in
      (
        pipe_read i,
        pipe_write i,
        record s { pipes = s.pipes ++ (record Pipe.new { readers = 1 } ∷ []) },
      )

  pub read_input : Store Disk → ℕ → Result (ℕ × List ℕ) ReadError × Store Disk
  read_input s size =
      let (n, out, input') = Input.read s.input size in
      (if n == 0 then err ReadError.would_block else ok (n, out), record s { input = input' })

  pub read_pipe : Store Disk → ℕ → Option Pipe → ℕ → Result (ℕ × List ℕ) ReadError × Store Disk
  read_pipe s i none size = (err ReadError.invalid, s)
  read_pipe s i (some p) size =
      if (p.ring.count == 0) && not (p.writers == 0)
      then (err ReadError.would_block, s)
      else (let (n, out, q) = Pipe.read p size in
          (ok (n, out), record s { pipes = modify (λ _. q) i s.pipes }))

  pub read_file : Store Disk → ℕ → Option FileRead → ℕ → Result (ℕ × List ℕ) ReadError × Store Disk
  read_file s i none size = (err ReadError.invalid, s)
  read_file s i (some f) size =
      let remaining = drop f.offset f.contents in
      let n = min size (length remaining) in
      (
        ok (n, take n remaining),
        record s {
          file_reads = modify (λ f'. record f' { offset = f'.offset + n }) i s.file_reads;
        },
      )

  -- `read(descriptor, output)`: the count and the bytes stored at the front of an output slice of
  -- the given size, or the error.
  pub read : Store Disk → FileDescriptor → ℕ → Result (ℕ × List ℕ) ReadError × Store Disk
  unfolding read_input read_pipe read_file
  read s stdin size = read_input s size
  read s console size = (err ReadError.invalid, s)
  read s (pipe_read i) size = read_pipe s i (get_elem? s.pipes i) size
  read s (pipe_write i) size = (err ReadError.invalid, s)
  read s (file_write i) size = (err ReadError.invalid, s)
  read s (file_read i) size = read_file s i (get_elem? s.file_reads i) size

  pub write_pipe : Store Disk → ℕ → Option Pipe → List ℕ → Result ℕ WriteError × Store Disk
  write_pipe s i none input = (err WriteError.invalid, s)
  write_pipe s i (some p) input =
      if p.readers == 0
      then (err WriteError.broken_pipe, s)
      else (let (n, q) = Pipe.write p input in
          (
            if (n == 0) && not (length input == 0) then err WriteError.would_block else ok n,
            record s { pipes = modify (λ _. q) i s.pipes },
          ))

-- The operations that reach the disk.
module _ {Disk : Type 0} (fs : FileSystem Disk) where
  open fs use {write_file, read_file_vec, is_utf8}

  pub save_file : Store Disk → ℕ → Bool × Disk → Result ℕ WriteError × Store Disk
  save_file s n (true, disk') = (ok n, record s { disk = disk' })
  save_file s n (false, disk') = (err WriteError.io, record s { disk = disk' })

  pub write_to_file : Store Disk → ℕ → Option FileWrite → List ℕ → Result ℕ WriteError × Store Disk
  unfolding save_file
  write_to_file s i none input = (err WriteError.invalid, s)
  write_to_file s i (some f) input =
      let f' = record f { contents = f.contents ++ input } in
      let s' = record s { file_writes = modify (λ _. f') i s.file_writes } in
      let path = take f'.path_len f'.path in
      if is_utf8 path
      then save_file s' (length input) (write_file s.disk path f'.contents)
      else (err WriteError.io, s')

  -- `write(descriptor, input)`: the number of bytes taken, or the error.
  pub write : Store Disk → FileDescriptor → List ℕ → Result ℕ WriteError × Store Disk
  unfolding write_pipe write_to_file
  write s stdin input = (err WriteError.invalid, s)
  write s console input = (ok (length input), record s { console_out = s.console_out ++ input })
  write s (pipe_read i) input = (err WriteError.invalid, s)
  write s (pipe_write i) input = write_pipe s i (get_elem? s.pipes i) input
  write s (file_write i) input = write_to_file s i (get_elem? s.file_writes i) input
  write s (file_read i) input = (err WriteError.invalid, s)

  pub open_write : Store Disk → List ℕ → Bool × Disk → Result FileDescriptor (Unit {0}) × Store Disk
  open_write s path (false, disk') = (err tt, record s { disk = disk' })
  open_write s path (true, disk') = (
    ok (file_write (length s.file_writes)),
    record s {
      disk = disk';
      file_writes =
          s.file_writes
          ++ (record {
            path = path ++ replicate (255 - length path) 0;
            path_len = length path;
            contents = [];
          }
              ∷ []);
    },
  )

  pub create_file_write : Store Disk → List ℕ → Result FileDescriptor (Unit {0}) × Store Disk
  unfolding open_write
  create_file_write s path =
      if (length path == 0) || ltb 255 (length path)
      then (err tt, s)
      else open_write s path (write_file s.disk path [])

  pub open_read :
      Store Disk
      → Result (Option (List ℕ)) (Unit {0})
      → Result FileDescriptor (Unit {0}) × Store Disk
  open_read s (err e) = (err tt, s)
  open_read s (ok none) = (err tt, s)
  open_read s (ok (some bytes)) = (
    ok (file_read (length s.file_reads)),
    record s { file_reads = s.file_reads ++ (record { contents = bytes; offset = 0 } ∷ []) },
  )

  pub create_file_read : Store Disk → List ℕ → Result FileDescriptor (Unit {0}) × Store Disk
  unfolding open_read
  create_file_read s path = open_read s (read_file_vec s.disk path (1024 * 1024))
