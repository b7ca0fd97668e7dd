-- ===== src/Input/Refine.antt =====
-- The circular buffer of drivers/input.rs behaves as the bounded queue.
use leaf_os_alpha.Base.{ℕ, ◌≡◌, refl, ap, ap₂, ◌∙◌, List, [], ◌∷◌, arith}
use leaf_os_alpha.Ring
use leaf_os_alpha.Ring.Window.{contents, length-contents, contents-put, read_lem, contents-empty}
use leaf_os_alpha.Ring.{IsValid, put-IsValid, empty-IsValid}
use leaf_os_alpha.Input.{InputBuffer, Call, enqueue, read_available, new, push, read, run}
use leaf_os_alpha.Input.Queue.{accept, replies}

pub push-IsValid : (b : InputBuffer) (x : ℕ) → IsValid 256 b → IsValid 256 (push b x)
unfolding push
push-IsValid b x v = ground (arith, put-IsValid 256 b x v)

pub contents-push :
    (b : InputBuffer) (x : ℕ) → IsValid 256 b → contents 256 (push b x) ≡ accept (contents 256 b) x
unfolding push accept
contents-push b x v = ground (arith, contents-put 256 b x v, length-contents 256 b)

-- From any valid buffer, the replies of a history are those of the queue of its bytes.
run_refines :
    (calls : List Call) (b : InputBuffer)
    → IsValid 256 b
    → run b calls ≡ replies (contents 256 b) calls
unfolding run replies read
run_refines [] b v = refl
run_refines (enqueue x ∷ calls) b v =
    run_refines calls (push b x) (push-IsValid b x v)
    ∙ ap (λ q. replies q calls) (contents-push b x v)
run_refines (read_available size ∷ calls) b v =
    let (w, n, o, r) = read_lem 256 b size v in
    ap₂ ◌∷◌ (ap₂ (λ k l. (k, l)) n o)
      (run_refines calls (Ring.read 256 b size).2 w ∙ ap (λ q. replies q calls) r)

-- Whatever is enqueued and read from boot on, every read reports the number of bytes that it gives,
-- and gives the oldest unread bytes in order, as a queue does that drops what arrives when 256 bytes
-- wait.
pub run-eq-replies : (calls : List Call) → run new calls ≡ replies [] calls
unfolding new
run-eq-replies calls =
    run_refines calls new (empty-IsValid 256 (omega arith))
    ∙ ap (λ q. replies q calls) (contents-empty 256)
