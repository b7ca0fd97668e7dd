-- ===== src/Input/Tests.antt =====
-- Runs of the queue of drivers/input.rs.
use leaf_os_alpha.Base.{◌≡◌, List, [], ◌∷◌}
use leaf_os_alpha.Input.{Call, enqueue, read_available, new, run}
use leaf_os_alpha.Input.Queue.{accept, replies}
use leaf_os_alpha.Input.Refine.{run-eq-replies}

abbrev typed : List Call
typed = enqueue 97 ∷ enqueue 98 ∷ enqueue 99 ∷ read_available 2 ∷ read_available 2 ∷ []

run-eq-replies_example : run new typed ≡ (2, 97 ∷ 98 ∷ []) ∷ (1, 99 ∷ []) ∷ []
unfolding replies accept
run-eq-replies_example = run-eq-replies typed
