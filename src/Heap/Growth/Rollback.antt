-- ===== src/Heap/Growth/Rollback.antt =====
-- What `grow` of memory/heap.rs leaves mapped, when it succeeds and when it fails half-way.
use leaf_os_alpha.Base.{
  ℕ, zero, suc, ◌+◌, ◌*◌, ◌≡◌, ◌≤◌, refl, sym, ap, subst, ◌∙◌, Bool, true, false, ◌&&◌, ◌||◌, not,
  arith, ◌==◌, Result, ok, err, Bool-cases, inl, inr,
}
use leaf_os_alpha.Heap.Growth.{HeapError, rollback_failed, Platform, rollback, on_mapped, map_pages}

-- Is this the start of one of the `pages` pages from `start` on?
abbrev pub inside : ℕ → ℕ → ℕ → Bool
inside start zero q = false
inside start (suc pages) q = (q == start + pages * 4096) || inside start pages q

inside-beyond :
    (start pages k q : ℕ) → pages ≤ k → q ≡ start + k * 4096 → inside start pages q ≡ false
inside-beyond start zero k q h e = refl
inside-beyond start (suc pages) k q h e =
    let ne : (q == start + pages * 4096) ≡ false = ground arith in
    rw (ne, inside-beyond start pages k q (omega arith) e) refl

module _ {M H E F : Type 0} (p : Platform M H E F) (is_mapped : M → ℕ → Bool) where
  abbrev pub Same : M → M → Type 0
  Same m m' = (q : ℕ) → is_mapped m' q ≡ is_mapped m q

  abbrev pub Adds : M → ℕ → ℕ → M → Type 0
  Adds m start pages m' = (q : ℕ) → is_mapped m' q ≡ (inside start pages q || is_mapped m q)

  abbrev Fresh : M → ℕ → ℕ → Type 0
  Fresh m start pages = (q : ℕ) → inside start pages q ≡ true → is_mapped m q ≡ false

  -- Of the loop: all pages are there, or none, or the error tells that the rollback failed.
  abbrev pub Kept : M → ℕ → ℕ → Result (Unit {0}) (HeapError E F) × M → Type 0
  Kept m start pages (ok _, m') = Adds m start pages m'
  Kept m start pages (err rollback_failed, m') = Unit
  Kept m start pages (err error, m') = Same m m'

  module _
      (maps : (a : ℕ) (m m' : M)
        → p.allocate_and_map a m ≡ (ok tt, m')
        → (is_mapped m a ≡ false) × ((q : ℕ) → is_mapped m' q ≡ ((q == a) || is_mapped m q)))
      (maps_not : (a : ℕ) (m m' : M) (error : F)
        → p.allocate_and_map a m ≡ (err error, m')
        → (q : ℕ) → is_mapped m' q ≡ is_mapped m q)
      (unmaps : (a : ℕ) (m m' : M)
        → p.unmap_and_deallocate a m ≡ (true, m')
        → (q : ℕ) → is_mapped m' q ≡ (is_mapped m q && not (q == a))) where
    rollback-failed :
        (before : M) (start total n : ℕ) (error : F) (m : M)
        → Kept before start total (rollback p start n true error m)
    unfolding rollback
    rollback-failed before start total zero error m = tt
    rollback-failed before start total (suc n) error m =
        rollback-failed before start total n error (p.unmap_and_deallocate (start + n * 4096) m).1

    -- A page less.
    less :
        (before m m' : M) (start n : ℕ)
        → Fresh before start (suc n)
        → Adds before start (suc n) m
        → ((q : ℕ) → is_mapped m' q ≡ (is_mapped m q && not (q == start + n * 4096)))
        → Adds before start n m'
    less before m m' start n fresh adds gone q = elim (Bool-cases (q == start + n * 4096)) [
      | inl e ↦
          let b : inside start n q ≡ false =
            inside-beyond start n n q (omega arith) (ground arith) in
          let c : is_mapped before q ≡ false = fresh q (rw e refl) in
          gone q ∙ ap (λ x. is_mapped m q && not x) e ∙ rw (b, c) (and-false (is_mapped m q))
      | inr e ↦
          gone q
          ∙ ap (λ x. is_mapped m q && not x) e
          ∙ and-true (is_mapped m q)
          ∙ adds q
          ∙ ap (λ x. (x || inside start n q) || is_mapped before q) e
    ]
      where
        and-false : (b : Bool) → (b && false) ≡ false
        and-false true = refl
        and-false false = refl

        and-true : (b : Bool) → (b && true) ≡ b
        and-true true = refl
        and-true false = refl

    rollback_lem :
        (before : M) (start total n : ℕ) (error : F) (m : M)
        → Fresh before start n
        → Adds before start n m
        → Kept before start total (rollback p start n false error m)
    unfolding rollback
    rollback_lem before start total zero error m fresh adds = adds
    rollback_lem before start total (suc n) error m fresh adds =
        step (p.unmap_and_deallocate (start + n * 4096) m) refl (λ m' gone.
          rollback_lem before start total n error m' (λ q i. fresh q (or-true q i))
            (less before m m' start n fresh adds gone))
      where
        or-true : (q : ℕ) → inside start n q ≡ true → inside start (suc n) q ≡ true
        or-true q i = ground arith

        step :
            (r : Bool × M)
            → p.unmap_and_deallocate (start + n * 4096) m ≡ r
            → ((m' : M)
                → ((q : ℕ) → is_mapped m' q ≡ (is_mapped m q && not (q == start + n * 4096)))
                → Kept before start total (rollback p start n false error m'))
            → Kept before start total (rollback p start n (false || not r.0) error r.1)
        step (true, m') e go = go m' (unmaps (start + n * 4096) m m' e)
        step (false, m') e go = rollback-failed before start total n error m'

    -- A page more.
    more :
        (before m m' : M) (start n : ℕ)
        → Fresh before start n
        → Adds before start n m
        → is_mapped m (start + n * 4096) ≡ false
        → ((q : ℕ) → is_mapped m' q ≡ ((q == start + n * 4096) || is_mapped m q))
        → Fresh before start (suc n) × Adds before start (suc n) m'
    more before m m' start n fresh adds free there = (
      λ q i. elim (Bool-cases (q == start + n * 4096)) [
        | inl e ↦
            let at : q ≡ start + n * 4096 = ground arith in
            let f : (inside start n q || is_mapped before q) ≡ false =
              sym (adds q) ∙ ap (is_mapped m) at ∙ free in
            right-false (inside start n q) (is_mapped before q) f
        | inr e ↦ fresh q (sym (ap (λ x. x || inside start n q) e) ∙ i)
      ],
      λ q.
          there q
          ∙ ap (λ x. (q == start + n * 4096) || x) (adds q)
          ∙ regroup (q == start + n * 4096) (inside start n q) (is_mapped before q),
    )
      where
        right-false : (b c : Bool) → (b || c) ≡ false → c ≡ false
        right-false false c h = h
        right-false true c h = ground arith

        regroup : (a b c : Bool) → (a || (b || c)) ≡ ((a || b) || c)
        regroup true b c = refl
        regroup false b c = refl

    pub map_pages_lem :
        (before : M) (start total left n : ℕ) (m : M)
        → n + left ≡ total
        → Fresh before start n
        → Adds before start n m
        → Kept before start total (map_pages p start n left m)
    unfolding map_pages
    map_pages_lem before start total zero n m e fresh adds =
        let same : n ≡ total = omega arith in subst (λ k. Adds before start k m) same adds
    map_pages_lem before start total (suc left) n m e fresh adds =
        step (p.allocate_and_map (start + n * 4096) m) refl
          λ m' (f, a). map_pages_lem before start total left (suc n) m' (omega arith) f a
      where
        step :
            (r : Result (Unit {0}) F × M)
            → p.allocate_and_map (start + n * 4096) m ≡ r
            → ((m' : M)
                → Fresh before start (suc n) × Adds before start (suc n) m'
                → Kept before start total (map_pages p start (suc n) left m'))
            → Kept before start total
                (on_mapped p start n (λ m'. map_pages p start (suc n) left m') r)
        step (ok tt, m') h go = go m' (
            more before m m' start n fresh adds (maps (start + n * 4096) m m' h).0
              (maps (start + n * 4096) m m' h).1)
        step (err error, m') h go =
            rollback_lem before start total n error m' fresh
              (λ q. maps_not (start + n * 4096) m m' error h q ∙ adds q)
