-- ===== src/Fd/Ends/Changes.antt =====
-- Cloning and closing a pipe end keep the counts of tasking/fd.rs right.
use mathlib.Core.Option
use leaf_os_alpha.Base.{
  ℕ, ◌≡◌, refl, false, Option, none, some, List, ◌∷◌, ◌++◌, arith, ◌==◌, get_elem?, modify,
  number-split,
}
use leaf_os_alpha.Pipe.{Pipe}
use leaf_os_alpha.Fd.{
  FileDescriptor, pipe_read, pipe_write, add_reader, add_writer, drop_reader, drop_writer,
}
use leaf_os_alpha.Fd.Ends.{
  reads_from, writes_to, readers_of, writers_of, Agrees, AllAgree, AllAgree-modify, IsPlain,
}

module _ (i : ℕ) (pipes : List Pipe) (before after : List FileDescriptor) where
  abbrev with_reader : List FileDescriptor
  with_reader = before ++ (pipe_read i ∷ after)

  abbrev with_writer : List FileDescriptor
  with_writer = before ++ (pipe_write i ∷ after)

  pub clone_reader :
      AllAgree pipes with_reader → AllAgree (modify add_reader i pipes) (pipe_read i ∷ with_reader)
  unfolding add_reader
  clone_reader = AllAgree-modify add_reader i pipes with_reader _ (λ j e. ground arith) here
    where
      here :
          (o : Option Pipe)
          → Agrees i o with_reader
          → Agrees i (Option.map add_reader o) (pipe_read i ∷ with_reader)
      here none a = absurd (ground (arith, number-split (reads_from i) before after (pipe_read i)))
      here (some p) a = ground arith

  pub clone_writer :
      AllAgree pipes with_writer → AllAgree (modify add_writer i pipes) (pipe_write i ∷ with_writer)
  unfolding add_writer
  clone_writer = AllAgree-modify add_writer i pipes with_writer _ (λ j e. ground arith) here
    where
      here :
          (o : Option Pipe)
          → Agrees i o with_writer
          → Agrees i (Option.map add_writer o) (pipe_write i ∷ with_writer)
      here none a = absurd (ground (arith, number-split (writes_to i) before after (pipe_write i)))
      here (some p) a = ground arith

  pub close_reader :
      AllAgree pipes with_reader → AllAgree (modify drop_reader i pipes) (before ++ after)
  unfolding drop_reader
  close_reader = AllAgree-modify drop_reader i pipes with_reader _ (λ j e. others j e) here
    where
      others :
          (j : ℕ)
          → (i == j) ≡ false
          → (readers_of j (before ++ after) ≡ readers_of j with_reader)
            × (writers_of j (before ++ after) ≡ writers_of j with_reader)
      others j e = ground (
        arith,
        number-split (reads_from j) before after (pipe_read i),
        number-split (writes_to j) before after (pipe_read i),
      )

      here :
          (o : Option Pipe)
          → Agrees i o with_reader
          → Agrees i (Option.map drop_reader o) (before ++ after)
      here none a = absurd (ground (arith, number-split (reads_from i) before after (pipe_read i)))
      here (some p) a = ground (
        arith,
        number-split (reads_from i) before after (pipe_read i),
        number-split (writes_to i) before after (pipe_read i),
      )

  pub close_writer :
      AllAgree pipes with_writer → AllAgree (modify drop_writer i pipes) (before ++ after)
  unfolding drop_writer
  close_writer = AllAgree-modify drop_writer i pipes with_writer _ (λ j e. others j e) here
    where
      others :
          (j : ℕ)
          → (i == j) ≡ false
          → (readers_of j (before ++ after) ≡ readers_of j with_writer)
            × (writers_of j (before ++ after) ≡ writers_of j with_writer)
      others j e = ground (
        arith,
        number-split (reads_from j) before after (pipe_write i),
        number-split (writes_to j) before after (pipe_write i),
      )

      here :
          (o : Option Pipe)
          → Agrees i o with_writer
          → Agrees i (Option.map drop_writer o) (before ++ after)
      here none a = absurd (ground (arith, number-split (writes_to i) before after (pipe_write i)))
      here (some p) a = ground (
        arith,
        number-split (reads_from i) before after (pipe_write i),
        number-split (writes_to i) before after (pipe_write i),
      )

-- Closing what is no pipe end changes no count.
pub close_plain :
    (d : FileDescriptor) (pipes : List Pipe) (before after : List FileDescriptor)
    → IsPlain d
    → AllAgree pipes (before ++ (d ∷ after))
    → AllAgree pipes (before ++ after)
close_plain d pipes before after plain all i = keeps (get_elem? pipes i) (all i)
  where
    no_reader : (d : FileDescriptor) → IsPlain d → reads_from i d ≡ false
    no_reader (pipe_read k) t = absurd t
    no_reader _ t = refl

    no_writer : (d : FileDescriptor) → IsPlain d → writes_to i d ≡ false
    no_writer (pipe_write k) t = absurd t
    no_writer _ t = refl

    keeps : (o : Option Pipe) → Agrees i o (before ++ (d ∷ after)) → Agrees i o (before ++ after)
    keeps none a = ground (
      arith,
      number-split (reads_from i) before after d,
      number-split (writes_to i) before after d,
      no_reader d plain,
      no_writer d plain,
    )
    keeps (some p) a = ground (
      arith,
      number-split (reads_from i) before after d,
      number-split (writes_to i) before after d,
      no_reader d plain,
      no_writer d plain,
    )
