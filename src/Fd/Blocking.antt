-- ===== src/Fd/Blocking.antt =====
-- When a pipe descriptor blocks, reaches its end or breaks (tasking/fd.rs, `read` and `write`).

use leaf_os_alpha.Base.{
  ℕ, ◌-◌, ◌≡◌, subst, some, List, arith, if◌then◌else◌, ◌==◌, ltb, ◌&&◌, not, length, get_elem?,
  Result, ok, err, take, min,
}
use leaf_os_alpha.Pipe.{Pipe}
use leaf_os_alpha.Pipe.Stream.{contents, length-pipe, read_lem, write_lem}
use leaf_os_alpha.Fd.{pipe_read, pipe_write, FileSystem, ReadError, WriteError, read, write}
use leaf_os_alpha.Fd.Ends.{Agrees, readers_of, writers_of}
use leaf_os_alpha.Fd.World.{World, Counts}

-- What a read from a pipe holding `unread` promises, with so many write ends in use.
abbrev pub read_reply : List ℕ → ℕ → ℕ → Result (ℕ × List ℕ) ReadError
read_reply unread writers size =
    if (length unread == 0) && ltb 0 writers
    then err ReadError.would_block
    else ok (min size (length unread), take size unread)

-- What a write to a pipe holding `unread` promises, with so many read ends in use.
abbrev pub write_reply : List ℕ → ℕ → List ℕ → Result ℕ WriteError
write_reply unread readers input =
    if readers == 0
    then err WriteError.broken_pipe
    else (if (length unread == 4096) && not (length input == 0)
        then err WriteError.would_block
        else ok (min (length input) (4096 - length unread)))

module _ {Disk : Type 0} (w : World Disk) (i : ℕ) (p : Pipe) (counts : Counts w)
    (there : get_elem? w.store.pipes i ≡ some p) where
  agrees : Agrees i (some p) w.live
  agrees = subst (λ o. Agrees i o w.live) there (counts i)

  -- A read through a pipe descriptor blocks exactly if no byte is unread and a write end of the pipe
  -- is in use anywhere. Otherwise it gives the oldest bytes, which is the empty read at the end of the
  -- stream.
  pub read-eq-reply :
      (size : ℕ)
      → (read w.store (pipe_read i) size).0 ≡ read_reply (contents p) (writers_of i w.live) size
  unfolding read
  read-eq-reply size = rw there (ground (arith, read_lem p size agrees.2, length-pipe p, agrees))

  -- A write through a pipe descriptor breaks exactly if no read end of the pipe is in use anywhere.
  -- Otherwise it blocks exactly if the pipe is full and there is a byte to write, and else reports
  -- the length of the longest prefix that fits.
  pub write-eq-reply :
      (fs : FileSystem Disk) (input : List ℕ)
      → (write fs w.store (pipe_write i) input).0
        ≡ write_reply (contents p) (readers_of i w.live) input
  unfolding write
  write-eq-reply fs input =
      rw there (ground (arith, write_lem p input agrees.2, length-pipe p, agrees))
