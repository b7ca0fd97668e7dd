-- ===== src/Fd/Tests.antt =====
-- Runs of the descriptor calls of tasking/fd.rs.
use leaf_os_alpha.Base.{◌≡◌, refl, true, none, [], ◌∷◌, ok}
use leaf_os_alpha.Input
use leaf_os_alpha.Pipe
use leaf_os_alpha.Pipe.{Pipe}
use leaf_os_alpha.Pipe.Stream.{contents}
use leaf_os_alpha.Fd.{
  pipe_read, pipe_write, Store, FileSystem, FileRead, create_pipe, clone, read, write,
}
use leaf_os_alpha.Fd.Ends.{readers_of, writers_of}
use leaf_os_alpha.Fd.World.{World, Step, creates, clones, here, next, Counts}
use leaf_os_alpha.Fd.History.{Reach-Counts}
use leaf_os_alpha.Fd.Blocking.{read_reply, write_reply, read-eq-reply, write-eq-reply}
use leaf_os_alpha.Fd.Files.{read_series, read_series_lem, sum}

-- A file system that stores nothing and finds nothing.
abbrev no_files : FileSystem (Unit {0})
no_files = record {
  write_file = λ disk path bytes. (true, disk);
  read_file_vec = λ disk path limit. ok none;
  is_utf8 = λ path. true;
}

abbrev empty_store : Store (Unit {0})
empty_store = record {
  pipes = [];
  file_writes = [];
  file_reads = [];
  input = Input.new;
  console_out = [];
  disk = tt;
}

abbrev boot : World (Unit {0})
boot = record { store = empty_store; live = [] }

boot-Counts : Counts boot
boot-Counts i = (refl, refl)

abbrev the_pipe : Pipe
the_pipe = record Pipe.new { readers = 1 }

abbrev piped : World (Unit {0})
piped = record {
  store = record empty_store { pipes = the_pipe ∷ [] };
  live = pipe_read 0 ∷ pipe_write 0 ∷ [];
}

pipes : Step no_files boot piped
unfolding create_pipe
pipes = creates refl

-- The write end is cloned, as by a task that inherits it.
abbrev inherited : World (Unit {0})
inherited = record {
  store = clone piped.store (pipe_write 0);
  live = pipe_write 0 ∷ pipe_read 0 ∷ pipe_write 0 ∷ [];
}

inherits : Step no_files piped inherited
inherits = clones (pipe_write 0) (pipe_read 0 ∷ []) [] refl refl

Reach-Counts_example : Counts inherited
Reach-Counts_example = Reach-Counts no_files (next (next here pipes) inherits) boot-Counts

piped-Counts : Counts piped
piped-Counts = Reach-Counts no_files (next here pipes) boot-Counts

read-eq-reply_example :
    (read piped.store (pipe_read 0) 4).0
    ≡ read_reply (contents the_pipe) (writers_of 0 piped.live) 4
read-eq-reply_example = read-eq-reply piped 0 the_pipe piped-Counts refl 4

write-eq-reply_example :
    (write no_files piped.store (pipe_write 0) (1 ∷ 2 ∷ [])).0
    ≡ write_reply (contents the_pipe) (readers_of 0 piped.live) (1 ∷ 2 ∷ [])
write-eq-reply_example = write-eq-reply piped 0 the_pipe piped-Counts refl no_files (1 ∷ 2 ∷ [])

abbrev the_file : FileRead
the_file = record { contents = 97 ∷ 98 ∷ 99 ∷ []; offset = 0 }

abbrev filed : Store (Unit {0})
filed = record empty_store { file_reads = the_file ∷ [] }

read_series_lem_example : (read_series filed 0 (2 ∷ 4 ∷ [])).0 ≡ 97 ∷ 98 ∷ 99 ∷ []
unfolding sum
read_series_lem_example = read_series_lem (2 ∷ 4 ∷ []) filed 0 the_file refl
