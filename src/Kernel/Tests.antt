-- ===== src/Kernel/Tests.antt =====
-- Runs of the kernel's calls of tasking/scheduler.rs.
use leaf_os_alpha.Base.{ℕ, refl, Bool, true, none, some, List, [], ◌∷◌, replicate, set, Result, ok}
use leaf_os_alpha.Input
use leaf_os_alpha.Pipe
use leaf_os_alpha.Pipe.{Pipe}
use leaf_os_alpha.Fd.{Store, FileSystem, stdin, pipe_read, pipe_write}
use leaf_os_alpha.Scheduler.Task.{
  Task, blocked, terminated, UserContext, UserContextError, empty_context, max_tasks, new,
}
use leaf_os_alpha.Scheduler.Lifecycle.{new_task}
use leaf_os_alpha.Kernel.Calls.{Kernel, reap}
use leaf_os_alpha.Kernel.Calls.Consistent.{IsConsistent, kernel}
use leaf_os_alpha.Kernel.Calls.Reaped.{Reaps, reap-Reaps}
use leaf_os_alpha.Kernel.Spawn.{spawn_user}
use leaf_os_alpha.Kernel.Spawn.Destroyed.{IsSettled, spawn_user-IsSettled}
use leaf_os_alpha.Kernel.History.{
  KernelCall, creates_pipe, waits, writes, reads, duplicates, exits, closes, runs, spawns,
  spawns_user, run, run-new-IsConsistent,
}

abbrev no_files : FileSystem (Unit {0})
no_files = record {
  write_file = λ disk path bytes. (true, disk);
  read_file_vec = λ disk path limit. ok none;
  is_utf8 = λ path. true;
}

abbrev empty_store : Store (Unit {0})
empty_store = record {
  pipes = [];
  file_writes = [];
  file_reads = [];
  input = Input.new;
  console_out = [];
  disk = tt;
}

-- An address space is its number.
abbrev destroys : ℕ → Bool × ℕ
destroys space = (true, space)

abbrev checks : ℕ → Result UserContext UserContextError
checks space = ok (record { entry = 4096; stack = 8192; argument_count = 0; argument_vector = 0 })

-- A task makes a pipe, spawns a child that inherits both ends, and waits for it.
abbrev calls : List (KernelCall ℕ)
calls =
    spawns 100 65536 200
    ∷ runs 100 200000 300
    ∷ creates_pipe
    ∷ writes 4 (1 ∷ 2 ∷ [])
    ∷ spawns_user 7 (record { source = 3; target = 0 } ∷ []) (4 ∷ []) 100 400000
    ∷ closes 4
    ∷ waits 0 none
    ∷ duplicates 0 5
    ∷ reads 0 8
    ∷ exits 0 (some 3) true
    ∷ []

run-new-IsConsistent_example :
    IsConsistent (run no_files destroys checks (kernel new empty_store) calls)
run-new-IsConsistent_example = run-new-IsConsistent no_files destroys checks calls empty_store refl

-- A reader that is blocked on a pipe whose only writer has ended.
abbrev reader_task : Task ℕ
reader_task = record (new_task 1 empty_context none none none none none) {
  state = blocked;
  fds = some stdin ∷ some (pipe_read 0) ∷ replicate 14 none;
}

abbrev writer_task : Task ℕ
writer_task = record (new_task 2 empty_context none none none none none) {
  state = terminated;
  exit_code = some 0;
  fds = some stdin ∷ some (pipe_write 0) ∷ replicate 14 none;
}

abbrev waiting : Kernel ℕ (Unit {0})
waiting = record {
  scheduler = record {
    tasks = set (set (replicate max_tasks none) 0 (some reader_task)) 1 (some writer_task);
    current = none;
    next_id = 3;
    idle_index = none;
  };
  store = record empty_store { pipes = record Pipe.new { readers = 1 } ∷ [] };
}

reap-Reaps_example : Reaps 2 waiting (reap destroys waiting 2)
reap-Reaps_example = reap-Reaps destroys waiting 2

-- A mapping from a descriptor that is out of range.
spawn_user-IsSettled_example :
    IsSettled 7 destroys
      (spawn_user destroys checks waiting 7 (record { source = 99; target = 0 } ∷ []) [] 100 65536)
spawn_user-IsSettled_example =
    spawn_user-IsSettled 7 destroys checks waiting (record { source = 99; target = 0 } ∷ []) [] 100
      65536
