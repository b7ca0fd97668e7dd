-- ===== src/Kernel/Table/Linked.antt =====
-- All descriptor tables of the tasks (tasking/scheduler.rs) with the pipes that they reach.
use leaf_os_alpha.Base.{
  ℕ, zero, suc, ◌+◌, ◌≡◌, ◌<◌, refl, sym, subst, ◌∙◌, Option, none, some, List, [], ◌∷◌, ◌++◌,
  arith, ◌==◌, length, length-modify, slot, slot-fill, slot_in_range, fill, fill_back, number,
  number-append, Bool-cases, inl, inr,
}
use leaf_os_alpha.Fd.{FileDescriptor, stdin, console, Store, max_fds, initial_table}
use leaf_os_alpha.Fd.Ends.{AllAgree, AllAgree-plain}
use leaf_os_alpha.Kernel.Table.{Table, clone_all, close_all}
use leaf_os_alpha.Kernel.Table.Live.{
  entry, held, held_in, all_held, Same, AllAgree-Same, number-fill_all, put-Same, close_all-agrees,
  clone_all-agrees,
}
use leaf_os_alpha.Kernel.Table.Inherit.{IsHeld}

-- Every table has the fixed size, and each pipe counts its ends in all of them.
pub record IsLinked {Disk : Type 0} (s : Store Disk) (tables : List (Option Table)) : Type 0 where
  pub sized : (i : ℕ) (fds : Table) → slot tables i ≡ some fds → length fds ≡ max_fds
  pub agrees : AllAgree s.pipes (all_held tables)

-- What slot `i` holds, apart from the rest.
pub take_all-Same :
    (i : ℕ) (o : Option Table) (tables : List (Option Table))
    → slot tables i ≡ o
    → Same (all_held tables) (held_in o ++ all_held (fill i none tables))
take_all-Same i o tables at p =
    subst (λ x. number p (all_held tables) ≡ number p (held_in x ++ all_held (fill i none tables)))
      at
      (omega (
        arith,
        number-take i tables,
        number-append p (held_in (slot tables i)) (all_held (fill i none tables)),
      ))
  where
    number-take :
        (i : ℕ) (tables : List (Option Table))
        → number p (all_held (fill i none tables)) + number p (held_in (slot tables i))
          ≡ number p (all_held tables)
    number-take i [] = omega arith
    number-take zero (x ∷ tables) = omega (arith, number-append p (held_in x) (all_held tables))
    number-take (suc i) (x ∷ tables) = omega (
      arith,
      number-take i tables,
      number-append p (held_in x) (all_held (fill i none tables)),
      number-append p (held_in x) (all_held tables),
    )

put_all-Same :
    (i : ℕ) (fds : Table) (tables : List (Option Table))
    → i < length tables
    → Same (held fds ++ all_held (fill i none tables)) (all_held (fill i (some fds) tables))
put_all-Same i fds tables h p = omega (
  arith,
  number-fill_all p i none tables h,
  number-fill_all p i (some fds) tables h,
  number-append p (held fds) (all_held (fill i none tables)),
)

module _ {Disk : Type 0} (tables : List (Option Table)) where
  -- One table looked at beside the others.
  pub taken_out :
      (s : Store Disk) (i : ℕ) (fds : Table)
      → slot tables i ≡ some fds
      → IsLinked s tables
      → IsHeld s fds (all_held (fill i none tables))
  taken_out s i fds at v = record {
    size = v.sized i fds at;
    agrees = AllAgree-Same s.pipes _ _ (take_all-Same i (some fds) tables at) v.agrees;
  }

  -- A table put in place of another, or into a free slot, after the store has changed.
  pub put_back :
      (s s' : Store Disk) (i : ℕ) (fds : Table)
      → i < length tables
      → IsLinked s tables
      → IsHeld s' fds (all_held (fill i none tables))
      → IsLinked s' (fill i (some fds) tables)
  put_back s s' i fds h v k = record {
    sized = λ j u e. elim (Bool-cases (i == j)) [
      | inl q ↦
          let x : fds ≡ u = ground (arith, slot-fill i j (some fds) tables h) in
          subst (λ y. length y ≡ 16) x k.size
      | inr q ↦ v.sized j u (ground (arith, slot-fill i j (some fds) tables h))
    ];
    agrees = AllAgree-Same s'.pipes _ _ (put_all-Same i fds tables h) k.agrees;
  }

  -- A removed task's table is closed.
  pub dropped-IsLinked :
      (s : Store Disk) (i : ℕ) (fds : Table)
      → slot tables i ≡ some fds
      → IsLinked s tables
      → IsLinked (close_all s fds) (fill i none tables)
  dropped-IsLinked s i fds at v = record {
    sized = λ j u e. elim (Bool-cases (i == j)) [
      | inl q ↦ absurd (ground (arith, slot-fill i j none tables (slot_in_range tables i fds at)))
      | inr q ↦
          v.sized j u (ground (arith, slot-fill i j none tables (slot_in_range tables i fds at)))
    ];
    agrees =
        close_all-agrees fds s (all_held tables) (all_held (fill i none tables))
          (take_all-Same i (some fds) tables at) v.agrees;
  }

  pub none_dropped :
      (s : Store Disk) (i : ℕ)
      → slot tables i ≡ none
      → IsLinked s tables
      → IsLinked (close_all s []) (fill i none tables)
  unfolding close_all
  none_dropped s i free v = subst (IsLinked s) (sym (fill_back i none tables free)) v

  -- A child's table to begin with, as a clone of its parent's.
  pub cloned_out :
      (s : Store Disk) (i : ℕ) (fds : Table)
      → slot tables i ≡ some fds
      → IsLinked s tables
      → IsHeld (clone_all s fds) fds (all_held tables)
  cloned_out s i fds at v = record {
    size = v.sized i fds at;
    agrees =
        clone_all-agrees fds s (all_held tables) (all_held (fill i none tables)) _
          (take_all-Same i (some fds) tables at) (λ p. refl) v.agrees;
  }

-- The three descriptors of a first table are no pipe ends.
pub initial-IsHeld :
    {Disk : Type 0} (s : Store Disk) (ys : List FileDescriptor)
    → AllAgree s.pipes ys
    → IsHeld s initial_table ys
unfolding initial_table
initial-IsHeld s ys all = record {
  size = refl;
  agrees =
      AllAgree-plain stdin s.pipes (console ∷ console ∷ ys) tt (
        AllAgree-plain console s.pipes (console ∷ ys) tt
          (AllAgree-plain console s.pipes ys tt all));
}

-- A new descriptor goes into a free entry.
pub placed-IsHeld :
    {Disk : Type 0} (s : Store Disk) (d : FileDescriptor) (n : ℕ) (fds : Table)
    (ys : List FileDescriptor)
    → length fds ≡ max_fds
    → n < length fds
    → slot fds n ≡ none
    → AllAgree s.pipes (d ∷ (held fds ++ ys))
    → IsHeld s (fill n (some d) fds) ys
placed-IsHeld s d n fds ys size h free all = record {
  size = length-modify _ n fds ∙ size;
  agrees =
      AllAgree-Same s.pipes _ _
        (subst (λ o. Same (d ∷ (held fds ++ ys)) (entry o ++ (held (fill n (some d) fds) ++ ys)))
          free (put-Same n (some d) fds ys h))
        all;
}
