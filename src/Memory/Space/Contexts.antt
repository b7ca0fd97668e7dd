-- ===== src/Memory/Space/Contexts.antt =====
-- The contexts that arch/user.rs accepts for a user program.
use leaf_os_alpha.Base.{
  ℕ, ◌-◌, ◌*◌, ◌%◌, ◌^◌, ◌≡◌, ◌≢◌, ◌≤◌, ◌<◌, sym, ap, ◌∙◌, true, Option, none, some, arith, ok,
}
use leaf_os_alpha.Scheduler.Task.{UserContext}
use leaf_os_alpha.Memory.Space.{
  AddressSpace, UserPageAccess, read_write, read_execute, user_page_access, contains_user_address,
  is_executable, is_writable, page_of, with_arguments, checked_context,
  for_address_space_with_arguments,
}

-- The last slot of the lower half.
abbrev pub IsUserAddress : ℕ → Type 0
IsUserAddress a = (255 * 2 ^ 39 ≤ a) × (a < 256 * 2 ^ 39)

executable_lem : (o : Option UserPageAccess) → is_executable o ≡ true → o ≡ some read_execute
executable_lem none h = cc
executable_lem (some access) h = ground arith

writable_lem : (o : Option UserPageAccess) → is_writable o ≡ true → o ≡ some read_write
writable_lem none h = cc
writable_lem (some access) h = ground arith

-- A context that is accepted for an address space holds the entry, the stack, the number of arguments
-- and their vector as they were given. Entry and stack are addresses of the user part, and so is the
-- vector if there are arguments. The entry lies on a page that may be executed; the stack is aligned to
-- 16 bytes and reaches down into a page that may be written to, which is another page; and if there are
-- arguments, they start on a page that may be written to.
pub context-pages :
    (space : AddressSpace) (entry stack count vector : ℕ) (context : UserContext)
    → for_address_space_with_arguments space entry stack count vector ≡ ok context
    → (context
        ≡ record { entry = entry; stack = stack; argument_count = count; argument_vector = vector })
      × IsUserAddress entry
      × IsUserAddress stack
      × (0 < count → IsUserAddress vector)
      × (stack % 16 ≡ 0)
      × (user_page_access space (page_of entry) ≡ some read_execute)
      × (user_page_access space (page_of (stack - 1)) ≡ some read_write)
      × (page_of entry ≢ page_of (stack - 1))
      × (0 < count → user_page_access space (page_of vector) ≡ some read_write)
unfolding for_address_space_with_arguments checked_context with_arguments contains_user_address
context-pages space entry stack count vector context h =
    let at_entry : user_page_access space (page_of entry) ≡ some read_execute =
      executable_lem (user_page_access space (page_of entry)) (ground arith) in
    let at_stack : user_page_access space (page_of (stack - 1)) ≡ some read_write =
      writable_lem (user_page_access space (page_of (stack - 1))) (ground arith) in
    (
      ground arith,
      (ground arith, ground arith),
      (ground arith, ground arith),
      λ l. (ground arith, ground arith),
      ground arith,
      at_entry,
      at_stack,
      λ e. let same = sym at_entry ∙ ap (user_page_access space) e ∙ at_stack in cc,
      λ l. writable_lem (user_page_access space (page_of vector)) (ground arith),
    )
