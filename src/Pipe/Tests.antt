-- ===== src/Pipe/Tests.antt =====
-- Runs of a pipe of tasking/fd.rs.
use leaf_os_alpha.Base.{◌≡◌, List, [], ◌∷◌, ◌++◌}
use leaf_os_alpha.Pipe.{Call, reads, writes, new, run}
use leaf_os_alpha.Pipe.Stream.{IsSound, contents, new-IsSound, run-lossless}

abbrev calls : List Call
calls = writes (1 ∷ 2 ∷ 3 ∷ []) ∷ reads 2 ∷ writes (4 ∷ []) ∷ reads 9 ∷ []

run-lossless_example :
    let (sent, taken, q) = run new calls in (sent ++ contents q ≡ contents new ++ taken) × IsSound q
run-lossless_example = run-lossless calls new new-IsSound
