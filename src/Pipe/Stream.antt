-- ===== src/Pipe/Stream.antt =====
-- A pipe is a lossless byte stream of bounded capacity.
use mathlib.Core.List.{append-nil, append_assoc}
use leaf_os_alpha.Base.{
  ℕ, ◌-◌, ◌≡◌, refl, sym, ap, ap₂, ◌∙◌, List, [], ◌∷◌, ◌++◌, arith, length, take, drop, min,
  length-take, take-append-drop,
}
use leaf_os_alpha.Ring.{IsValid, empty-IsValid}
use leaf_os_alpha.Ring.Window
use leaf_os_alpha.Ring.Window.{length-contents, put_all_lem, contents-empty}
use leaf_os_alpha.Pipe.{Pipe, Call, reads, writes, pipe_capacity, new, read, write, run}

abbrev pub IsSound : Pipe → Type 0
IsSound p = IsValid pipe_capacity p.ring

-- The unread bytes, oldest first.
abbrev pub contents : Pipe → List ℕ
contents p = Window.contents pipe_capacity p.ring

pub length-pipe : (p : Pipe) → length (contents p) ≡ p.ring.count
length-pipe p = length-contents pipe_capacity p.ring

pub new-IsSound : IsSound new
unfolding new
new-IsSound = empty-IsValid pipe_capacity (omega arith)

pub contents-new : contents new ≡ []
unfolding new
contents-new = contents-empty pipe_capacity

-- `Pipe::write` takes the longest prefix of the input that the free space holds, appends exactly
-- that prefix to the unread bytes and reports its length; the counts of open ends stay.
pub write_lem :
    (p : Pipe) (input : List ℕ)
    → IsSound p
    → let (n, q) = write p input in
      (n ≡ min (length input) (4096 - length (contents p)))
      × (contents q ≡ contents p ++ take n input)
      × IsSound q
      × (q.readers ≡ p.readers)
      × (q.writers ≡ p.writers)
unfolding write
write_lem p input v =
    let n = min (length input) (pipe_capacity - p.ring.count) in
    let (w, e, _) =
      put_all_lem pipe_capacity (take n input) p.ring v
        (omega (arith, length-take n input, v.count_in)) in
    (omega (arith, length-pipe p), e, w, refl, refl)

-- `Pipe::read` gives the oldest unread bytes, as many as are there and fit in the output, reports
-- their number and leaves the others; the counts of open ends stay.
pub read_lem :
    (p : Pipe) (size : ℕ)
    → IsSound p
    → let (n, out, q) = read p size in
      (n ≡ min size (length (contents p)))
      × (out ≡ take size (contents p))
      × (contents q ≡ drop size (contents p))
      × IsSound q
      × (q.readers ≡ p.readers)
      × (q.writers ≡ p.writers)
unfolding read
read_lem p size v =
    let (w, n, o, r) = Window.read_lem pipe_capacity p.ring size v in (n, o, r, w, refl, refl)

-- A read moves bytes from the unread ones to those sent.
joins_read :
    (out sent left unread taken first : List ℕ)
    → sent ++ left ≡ unread ++ taken
    → out ++ unread ≡ first
    → (out ++ sent) ++ left ≡ first ++ taken
joins_read out sent left unread taken first e o =
    append_assoc out sent left
    ∙ ap (λ l. out ++ l) e
    ∙ sym (append_assoc out unread taken)
    ∙ ap (λ l. l ++ taken) o

-- Over any history of reads and writes on a sound pipe, the bytes sent out followed by those left
-- unread are the bytes first unread followed by those accepted: none is lost, repeated or reordered.
-- The pipe stays sound.
pub run-lossless :
    (calls : List Call) (p : Pipe)
    → IsSound p
    → let (sent, taken, q) = run p calls in (sent ++ contents q ≡ contents p ++ taken) × IsSound q
unfolding run
run-lossless [] p v = (sym (append-nil _), v)
run-lossless (reads size ∷ calls) p v =
    let (_, o, r, w, _, _) = read_lem p size v in
    let (e, w') = run-lossless calls (read p size).2 w in
    (joins_read _ _ _ _ _ _ e (ap₂ ◌++◌ o r ∙ take-append-drop size (contents p)), w')
run-lossless (writes input ∷ calls) p v =
    let (_, c, w, _, _) = write_lem p input v in
    let (e, w') = run-lossless calls (write p input).1 w in
    (e ∙ ap (λ l. l ++ (run (write p input).1 calls).1) c ∙ append_assoc (contents p) _ _, w')
