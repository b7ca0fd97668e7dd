-- ===== src/Kernel/Table/Live.antt =====
-- The descriptors that tables hold (tasking/scheduler.rs), counted, and what opening and closing them
-- does to the counts of the pipes.
use leaf_os_alpha.Base.{
  ℕ, zero, suc, ◌+◌, ◌≡◌, ◌<◌, refl, sym, ◌∙◌, Bool, Option, none, some, List, [], ◌∷◌, ◌++◌, arith,
  length, get_elem?, slot, fill, number, number-append,
}
use leaf_os_alpha.Pipe.{Pipe}
use leaf_os_alpha.Fd.{FileDescriptor, Store, clone, close}
use leaf_os_alpha.Fd.Ends.{reads_from, writes_to, Agrees, AllAgree}
use leaf_os_alpha.Fd.Calls.{clone-AllAgree, close-AllAgree}
use leaf_os_alpha.Kernel.Table.{Table, close_entry, close_all, clone_entry, clone_all}

abbrev pub entry : Option FileDescriptor → List FileDescriptor
entry none = []
entry (some d) = d ∷ []

abbrev pub held : Table → List FileDescriptor
held [] = []
held (o ∷ fds) = entry o ++ held fds

abbrev pub held_in : Option Table → List FileDescriptor
held_in none = []
held_in (some fds) = held fds

abbrev pub all_held : List (Option Table) → List FileDescriptor
all_held [] = []
all_held (o ∷ tables) = held_in o ++ all_held tables

-- The same descriptors, as often, in any order.
abbrev pub Same : List FileDescriptor → List FileDescriptor → Type 0
Same xs ys = (p : FileDescriptor → Bool) → number p xs ≡ number p ys

pub AllAgree-Same :
    (pipes : List Pipe) (xs ys : List FileDescriptor)
    → Same xs ys
    → AllAgree pipes xs
    → AllAgree pipes ys
AllAgree-Same pipes xs ys same all i = keeps (get_elem? pipes i) (all i)
  where
    keeps : (o : Option Pipe) → Agrees i o xs → Agrees i o ys
    keeps none a = (sym (same (reads_from i)) ∙ a.0, sym (same (writes_to i)) ∙ a.1)
    keeps (some p) a = (a.0 ∙ same (reads_from i), a.1 ∙ same (writes_to i), a.2)

-- What a write into entry `n` does to the number.
pub number-fill :
    (p : FileDescriptor → Bool) (n : ℕ) (o : Option FileDescriptor) (fds : Table)
    → n < length fds
    → number p (held (fill n o fds)) + number p (entry (slot fds n))
      ≡ number p (held fds) + number p (entry o)
number-fill p n o [] h = absurd (omega arith)
number-fill p zero o (x ∷ fds) h =
    omega (arith, number-append p (entry o) (held fds), number-append p (entry x) (held fds))
number-fill p (suc n) o (x ∷ fds) h = omega (
  arith,
  number-fill p n o fds (omega arith),
  number-append p (entry x) (held (fill n o fds)),
  number-append p (entry x) (held fds),
)

pub number-fill_all :
    (p : FileDescriptor → Bool) (i : ℕ) (o : Option Table) (tables : List (Option Table))
    → i < length tables
    → number p (all_held (fill i o tables)) + number p (held_in (slot tables i))
      ≡ number p (all_held tables) + number p (held_in o)
number-fill_all p i o [] h = absurd (omega arith)
number-fill_all p zero o (x ∷ tables) h = omega (
  arith,
  number-append p (held_in o) (all_held tables),
  number-append p (held_in x) (all_held tables),
)
number-fill_all p (suc i) o (x ∷ tables) h = omega (
  arith,
  number-fill_all p i o tables (omega arith),
  number-append p (held_in x) (all_held (fill i o tables)),
  number-append p (held_in x) (all_held tables),
)

module _ {Disk : Type 0} (s : Store Disk) (xs ys : List FileDescriptor) where
  -- One descriptor of those in use goes.
  pub close-agrees :
      (d : FileDescriptor) → Same xs (d ∷ ys) → AllAgree s.pipes xs → AllAgree (close s d).pipes ys
  close-agrees d same all = close-AllAgree s d [] ys (AllAgree-Same s.pipes xs (d ∷ ys) same all)

  -- One of those in use is cloned.
  pub clone-agrees :
      (d : FileDescriptor) (zs : List FileDescriptor)
      → Same xs (d ∷ ys)
      → Same (d ∷ xs) zs
      → AllAgree s.pipes xs
      → AllAgree (clone s d).pipes zs
  clone-agrees d zs same more all =
      AllAgree-Same (clone s d).pipes (d ∷ d ∷ ys) zs
        (λ p. let e = same p in let f = more p in omega arith)
        (clone-AllAgree s d [] ys (AllAgree-Same s.pipes xs (d ∷ ys) same all))

module _ {Disk : Type 0} where
  pub close_entry-agrees :
      (s : Store Disk) (o : Option FileDescriptor) (xs ys : List FileDescriptor)
      → Same xs (entry o ++ ys)
      → AllAgree s.pipes xs
      → AllAgree (close_entry s o).pipes ys
  unfolding close_entry
  close_entry-agrees s none xs ys same all = AllAgree-Same s.pipes xs ys same all
  close_entry-agrees s (some d) xs ys same all = close-agrees s xs ys d same all

  pub clone_entry-agrees :
      (s : Store Disk) (o : Option FileDescriptor) (xs ys zs : List FileDescriptor)
      → Same xs (entry o ++ ys)
      → Same (entry o ++ xs) zs
      → AllAgree s.pipes xs
      → AllAgree (clone_entry s o).pipes zs
  unfolding clone_entry
  clone_entry-agrees s none xs ys zs same more all = AllAgree-Same s.pipes xs zs more all
  clone_entry-agrees s (some d) xs ys zs same more all = clone-agrees s xs ys d zs same more all

  -- The drop of a whole table.
  pub close_all-agrees :
      (fds : Table) (s : Store Disk) (xs ys : List FileDescriptor)
      → Same xs (held fds ++ ys)
      → AllAgree s.pipes xs
      → AllAgree (close_all s fds).pipes ys
  unfolding close_all
  close_all-agrees [] s xs ys same all = AllAgree-Same s.pipes xs ys same all
  close_all-agrees (o ∷ fds) s xs ys same all =
      close_all-agrees fds (close_entry s o) (held fds ++ ys) ys (λ p. refl)
        (close_entry-agrees s o xs (held fds ++ ys)
          (λ p. omega (
            arith,
            same p,
            number-append p (held (o ∷ fds)) ys,
            number-append p (entry o) (held fds),
            number-append p (entry o) (held fds ++ ys),
            number-append p (held fds) ys,
          ))
          all)

  -- The clone of a whole table of those in use.
  pub clone_all-agrees :
      (fds : Table) (s : Store Disk) (xs ys zs : List FileDescriptor)
      → Same xs (held fds ++ ys)
      → Same (held fds ++ xs) zs
      → AllAgree s.pipes xs
      → AllAgree (clone_all s fds).pipes zs
  unfolding clone_all
  clone_all-agrees [] s xs ys zs same more all = AllAgree-Same s.pipes xs zs more all
  clone_all-agrees (o ∷ fds) s xs ys zs same more all =
      clone_all-agrees fds (clone_entry s o) (entry o ++ xs) (entry o ++ (entry o ++ ys)) zs
        (λ p. omega (
          arith,
          same p,
          number-append p (entry o) xs,
          number-append p (held fds) (entry o ++ (entry o ++ ys)),
          number-append p (entry o) (entry o ++ ys),
          number-append p (entry o) ys,
          number-append p (held (o ∷ fds)) ys,
          number-append p (entry o) (held fds),
        ))
        (λ p. omega (
          arith,
          more p,
          number-append p (held fds) (entry o ++ xs),
          number-append p (entry o) xs,
          number-append p (held (o ∷ fds)) xs,
          number-append p (entry o) (held fds),
        ))
        (clone_entry-agrees s o xs (held fds ++ ys) (entry o ++ xs)
          (λ p. omega (
            arith,
            same p,
            number-append p (held (o ∷ fds)) ys,
            number-append p (entry o) (held fds),
            number-append p (entry o) (held fds ++ ys),
            number-append p (held fds) ys,
          ))
          (λ p. refl) all)

-- What entry `n` holds, apart from the rest.
pub take-Same :
    (n : ℕ) (fds : Table) (ys : List FileDescriptor)
    → Same (held fds ++ ys) (entry (slot fds n) ++ (held (fill n none fds) ++ ys))
take-Same n fds ys p = omega (
  arith,
  number-take n fds,
  number-append p (held fds) ys,
  number-append p (entry (slot fds n)) (held (fill n none fds) ++ ys),
  number-append p (held (fill n none fds)) ys,
)
  where
    number-take :
        (n : ℕ) (fds : Table)
        → number p (held (fill n none fds)) + number p (entry (slot fds n)) ≡ number p (held fds)
    number-take n [] = omega arith
    number-take zero (x ∷ fds) = omega (arith, number-append p (entry x) (held fds))
    number-take (suc n) (x ∷ fds) = omega (
      arith,
      number-take n fds,
      number-append p (entry x) (held (fill n none fds)),
      number-append p (entry x) (held fds),
    )

-- A write of `o` into entry `n` puts out what was there.
pub put-Same :
    (n : ℕ) (o : Option FileDescriptor) (fds : Table) (ys : List FileDescriptor)
    → n < length fds
    → Same (entry o ++ (held fds ++ ys)) (entry (slot fds n) ++ (held (fill n o fds) ++ ys))
put-Same n o fds ys h p = omega (
  arith,
  number-fill p n o fds h,
  number-append p (entry o) (held fds ++ ys),
  number-append p (held fds) ys,
  number-append p (entry (slot fds n)) (held (fill n o fds) ++ ys),
  number-append p (held (fill n o fds)) ys,
)
