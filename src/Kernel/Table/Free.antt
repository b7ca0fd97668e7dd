-- ===== src/Kernel/Table/Free.antt =====
-- The free entries of a descriptor table (tasking/scheduler.rs).
use leaf_os_alpha.Base.{
  ℕ, zero, suc, ◌+◌, ◌≡◌, ◌<◌, ◌≤◌, refl, Option, none, some, List, [], ◌∷◌, arith, length, slot,
  is_none, position-some, ap, sym, true,
}
use leaf_os_alpha.Fd.{FileDescriptor}
use leaf_os_alpha.Kernel.Table.{Table, find_free_fd, free_fds, first_pair, find_free_fd_pair}

-- Entry `n`, counted from `k`, is there and free.
abbrev IsFree : ℕ → Table → ℕ → Type 0
IsFree k fds n = (k ≤ n) × (n < k + length fds) × ((j : ℕ) → k + j ≡ n → slot fds j ≡ none)

skip :
    (k n : ℕ) (o : Option FileDescriptor) (fds : Table)
    → IsFree (suc k) fds n
    → IsFree k (o ∷ fds) n
skip k n o fds (lo, hi, free) = (omega arith, omega arith, at)
  where
    at : (j : ℕ) → k + j ≡ n → slot (o ∷ fds) j ≡ none
    at zero e = absurd (omega arith)
    at (suc j) e = free j (omega arith)

here-IsFree : (k : ℕ) (fds : Table) → IsFree k (none ∷ fds) k
here-IsFree k fds = (omega arith, omega arith, at)
  where
    at : (j : ℕ) → k + j ≡ k → slot (none ∷ fds) j ≡ none
    at zero e = refl
    at (suc j) e = absurd (omega arith)

free_fds-first :
    (k a : ℕ) (fds : Table) (rest : List ℕ) → free_fds k fds ≡ a ∷ rest → IsFree k fds a
unfolding free_fds
free_fds-first k a [] rest e = cc
free_fds-first k a (none ∷ fds) rest e = let x : k ≡ a = cc in rw (sym x) (here-IsFree k fds)
free_fds-first k a (some d ∷ fds) rest e =
    skip k a (some d) fds (free_fds-first (suc k) a fds rest e)

free_fds-second :
    (k a b : ℕ) (fds : Table) (rest : List ℕ)
    → free_fds k fds ≡ a ∷ b ∷ rest
    → IsFree k fds a × IsFree k fds b × (a < b)
unfolding free_fds
free_fds-second k a b [] rest e = cc
free_fds-second k a b (none ∷ fds) rest e =
    let x : k ≡ a = cc in
    let later = free_fds-first (suc k) b fds rest (cc) in
    (rw (sym x) (here-IsFree k fds), skip k b none fds later, omega arith)
free_fds-second k a b (some d ∷ fds) rest e =
    let (u, v, h) = free_fds-second (suc k) a b fds rest e in
    (skip k a (some d) fds u, skip k b (some d) fds v, h)

-- The two entries found are different, in the table, and free.
pub find_free_fd_pair-some :
    (fds : Table) (a b : ℕ)
    → find_free_fd_pair fds ≡ some (a, b)
    → (a < b) × (b < length fds) × (slot fds a ≡ none) × (slot fds b ≡ none)
unfolding find_free_fd_pair first_pair
find_free_fd_pair-some fds a b e = go (free_fds 0 fds) refl e
  where
    go :
        (xs : List ℕ)
        → free_fds 0 fds ≡ xs
        → first_pair xs ≡ some (a, b)
        → (a < b) × (b < length fds) × (slot fds a ≡ none) × (slot fds b ≡ none)
    go [] f e = cc
    go (x ∷ []) f e = cc
    go (x ∷ y ∷ rest) f e =
        let p : (x, y) ≡ (a, b) = cc in
        let xa : x ≡ a = ap (λ (q : ℕ × ℕ). q.0) p in
        let yb : y ≡ b = ap (λ (q : ℕ × ℕ). q.1) p in
        let (u, v, h) = free_fds-second 0 a b fds rest (cc) in
        (h, omega arith, u.2 a (omega arith), v.2 b (omega arith))

pub find_free_fd-some :
    (fds : Table) (n : ℕ) → find_free_fd fds ≡ some n → (n < length fds) × (slot fds n ≡ none)
unfolding find_free_fd
find_free_fd-some fds n e =
    let (h, free, _) = position-some is_none fds n e in (h, is_none-none (slot fds n) free)
  where
    is_none-none : (o : Option FileDescriptor) → is_none o ≡ true → o ≡ none
    is_none-none none h = refl
    is_none-none (some d) h = cc
