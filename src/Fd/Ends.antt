-- ===== src/Fd/Ends.antt =====
-- The counts that a pipe keeps of its ends, against the descriptors in use (tasking/fd.rs).
pub mod Changes
use mathlib.Core.Option
use leaf_os_alpha.Base.{
  ℕ, zero, suc, ◌+◌, ◌-◌, ◌*◌, ◌≡◌, ◌≢◌, ◌≤◌, refl, sym, ap, ap₂, ◌∙◌, inl, inr, Bool, true, false,
  ◌&&◌, not, Option, none, some, List, [], ◌∷◌, ◌++◌, arith, if◌then◌else◌, ◌==◌, ltb, length,
  get_elem?, modify, get_elem?-modify, get_elem?-snoc, get_elem?_beyond, number, number-split,
  Result, ok, err, Bool-cases, ==_iff, ==_refl, subst, ◌<◌, Option-cases,
}
use leaf_os_alpha.Pipe
use leaf_os_alpha.Pipe.{Pipe}
use leaf_os_alpha.Pipe.Stream.{IsSound, read_lem, write_lem, new-IsSound}
use leaf_os_alpha.Fd.{
  FileDescriptor, stdin, console, pipe_read, pipe_write, file_write, file_read, add_reader,
  add_writer, drop_reader, drop_writer,
}

-- Is the descriptor a read end, or a write end, of the pipe `i`?
abbrev pub reads_from : ℕ → FileDescriptor → Bool
reads_from i (pipe_read j) = j == i
reads_from i _ = false

abbrev pub writes_to : ℕ → FileDescriptor → Bool
writes_to i (pipe_write j) = j == i
writes_to i _ = false

abbrev pub readers_of : ℕ → List FileDescriptor → ℕ
readers_of i live = number (reads_from i) live

abbrev pub writers_of : ℕ → List FileDescriptor → ℕ
writers_of i live = number (writes_to i) live

-- What the pipe at address `i` says of the descriptors in use: its counts are their numbers. No
-- descriptor names an address with no pipe.
abbrev pub Agrees : ℕ → Option Pipe → List FileDescriptor → Type 0
Agrees i none live = (readers_of i live ≡ 0) × (writers_of i live ≡ 0)
Agrees i (some p) live =
    (p.readers ≡ readers_of i live) × (p.writers ≡ writers_of i live) × IsSound p

abbrev pub AllAgree : List Pipe → List FileDescriptor → Type 0
AllAgree pipes live = (i : ℕ) → Agrees i (get_elem? pipes i) live

-- A change of pipe `i` by `f` and of the descriptors to `live'` that agree at every address.
pub AllAgree-modify :
    (f : Pipe → Pipe) (i : ℕ) (pipes : List Pipe) (live live' : List FileDescriptor)
    → ((j : ℕ)
        → (i == j) ≡ false
        → (readers_of j live' ≡ readers_of j live) × (writers_of j live' ≡ writers_of j live))
    → ((o : Option Pipe) → Agrees i o live → Agrees i (Option.map f o) live')
    → AllAgree pipes live
    → AllAgree (modify f i pipes) live'
AllAgree-modify f i pipes live live' others here all j =
    rw (get_elem?-modify f i j pipes) (elim (Bool-cases (i == j)) [
      | inl e ↦
          subst
            (λ k.
              Agrees k (if i == k then Option.map f (get_elem? pipes k) else get_elem? pipes k)
                live')
            ((==_iff i j).0 e) (rw (==_refl i) (here (get_elem? pipes i) (all i)))
      | inr e ↦ rw e (keeps (get_elem? pipes j) (others j e) (all j))
    ])
  where
    keeps :
        (o : Option Pipe)
        → (readers_of j live' ≡ readers_of j live) × (writers_of j live' ≡ writers_of j live)
        → Agrees j o live
        → Agrees j o live'
    keeps none h a = omega arith
    keeps (some p) h a = (omega arith, omega arith, a.2)

-- Descriptors that are no pipe ends count for no pipe.
abbrev pub IsPlain : FileDescriptor → Type 0
IsPlain (pipe_read j) = ⊥
IsPlain (pipe_write j) = ⊥
IsPlain _ = Unit {0}

pub AllAgree-plain :
    (d : FileDescriptor) (pipes : List Pipe) (live : List FileDescriptor)
    → IsPlain d
    → AllAgree pipes live
    → AllAgree pipes (d ∷ live)
AllAgree-plain d pipes live plain all i = keeps d plain (get_elem? pipes i) (all i)
  where
    keeps :
        (d : FileDescriptor)
        → IsPlain d
        → (o : Option Pipe) → Agrees i o live
        → Agrees i o (d ∷ live)
    keeps stdin t none a = omega arith
    keeps stdin t (some p) a = (omega arith, omega arith, a.2)
    keeps console t none a = omega arith
    keeps console t (some p) a = (omega arith, omega arith, a.2)
    keeps (file_write k) t none a = omega arith
    keeps (file_write k) t (some p) a = (omega arith, omega arith, a.2)
    keeps (file_read k) t none a = omega arith
    keeps (file_read k) t (some p) a = (omega arith, omega arith, a.2)
    keeps (pipe_read k) t o a = absurd t
    keeps (pipe_write k) t o a = absurd t

-- A pipe whose counts stay, and that stays sound.
pub AllAgree-same :
    (p q : Pipe) (i : ℕ) (pipes : List Pipe) (live : List FileDescriptor)
    → get_elem? pipes i ≡ some p
    → q.readers ≡ p.readers
    → q.writers ≡ p.writers
    → IsSound q
    → AllAgree pipes live
    → AllAgree (modify (λ _. q) i pipes) live
AllAgree-same p q i pipes live e r w v all =
    AllAgree-modify (λ _. q) i pipes live live (λ j _. (refl, refl)) here all
  where
    at_p : Agrees i (some p) live
    at_p = subst (λ o. Agrees i o live) e (all i)

    here : (o : Option Pipe) → Agrees i o live → Agrees i (Option.map (λ _. q) o) live
    here none a = a
    here (some p') a = (r ∙ at_p.0, w ∙ at_p.1, v)

-- A new pipe with one read end and one write end.
pub AllAgree-create :
    (p : Pipe) (pipes : List Pipe) (live : List FileDescriptor)
    → p.readers ≡ 1
    → p.writers ≡ 1
    → IsSound p
    → AllAgree pipes live
    → AllAgree (pipes ++ (p ∷ [])) (pipe_read (length pipes) ∷ pipe_write (length pipes) ∷ live)
AllAgree-create p pipes live r w v all j =
    rw (get_elem?-snoc pipes p j) (elim (Bool-cases (length pipes == j)) [
      | inl e ↦
          subst (λ k. Agrees k (if length pipes == k then some p else get_elem? pipes k) live')
            ((==_iff (length pipes) j).0 e) (rw (==_refl (length pipes)) fresh)
      | inr e ↦ rw e (keeps (get_elem? pipes j) e (all j))
    ])
  where
    live' : List FileDescriptor
    live' = pipe_read (length pipes) ∷ pipe_write (length pipes) ∷ live

    unused : Agrees (length pipes) none live
    unused =
        subst (λ o. Agrees (length pipes) o live)
          (get_elem?_beyond pipes (length pipes) (omega arith)) (all (length pipes))

    fresh : Agrees (length pipes) (some p) live'
    fresh = ground (arith, unused)

    keeps : (o : Option Pipe) → (length pipes == j) ≡ false → Agrees j o live → Agrees j o live'
    keeps none e a = ground arith
    keeps (some q) e a = ground arith
