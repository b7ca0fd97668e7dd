-- ===== src/Program/Arguments/Built.antt =====
-- What `build_argument_vector` of user_program.rs makes, on every input.
use leaf_os_alpha.Base.{
  ℕ, suc, ◌+◌, ◌-◌, ◌*◌, ◌%◌, ◌≡◌, ◌≤◌, ◌<◌, ◌⊎◌, refl, sym, ap, ◌∙◌, Bool, true, false, ◌||◌, none,
  some, List, [], ◌∷◌, ◌++◌, arith, if◌then◌else◌, ltb, leb, length, length-append, replicate,
  Result, ok, err, checked_add, word, Bool-cases, inl, inr,
}
use leaf_os_alpha.Program.{user_stack_top, user_stack_size}
use leaf_os_alpha.Program.Arguments.{
  VectorError, invalid_arguments, has_zero, any_zero, and_then, valid, add_lengths, fill_vector,
  size_vector, write_strings, build_argument_vector,
}
use leaf_os_alpha.Program.Arguments.Reference.{
  zeros, zeros-split, terminated, pointers, write_strings_lem,
}

-- The bytes of the pointers with the null pointer, and of all, rounded up to a multiple of 8.
abbrev pub pointer_room : List (List ℕ) → ℕ
pointer_room ss = 8 * length ss + 8

abbrev pub rounded : ℕ → ℕ
rounded n = n + 7 - (n + 7) % 8

abbrev pub total : List (List ℕ) → ℕ
total ss = rounded (pointer_room ss + length (terminated ss))

-- Where the vector starts on the stack.
abbrev pub start_of : List (List ℕ) → ℕ
start_of ss = user_stack_top - 256 - total ss

-- The vector in one piece: the pointers to the strings, which stand behind them, a null pointer, the
-- strings with their null bytes, and zeros.
abbrev pub vector_of : List (List ℕ) → List ℕ
vector_of ss =
    pointers (start_of ss + pointer_room ss) ss
    ++ (zeros 8 ++ (terminated ss ++ zeros (total ss - pointer_room ss - length (terminated ss))))

-- The reference: too many arguments, a null byte in one, more than 1024 bytes of strings or no memory
-- are errors.
abbrev pub reference : (ℕ → Bool) → List ℕ → List (List ℕ) → Result (List ℕ × ℕ) VectorError
reference reserves path arguments =
    if ltb 16 (length arguments) || has_zero path || any_zero arguments
    then err invalid_arguments
    else (if ltb 1024 (length (terminated (path ∷ arguments)))
        then err invalid_arguments
        else (if reserves (total (path ∷ arguments))
            then ok (vector_of (path ∷ arguments), length arguments + 1)
            else err invalid_arguments))

add_lengths-none : (ss : List (List ℕ)) → add_lengths none ss ≡ none
unfolding add_lengths
add_lengths-none [] = refl
add_lengths-none (s ∷ ss) = add_lengths-none ss

-- The fold gives the sum, or nothing if that is no word.
add_lengths-cases :
    (ss : List (List ℕ)) (t : ℕ)
    → t < word
    → (add_lengths (some t) ss ≡ some (t + length (terminated ss)))
      ⊎ ((add_lengths (some t) ss ≡ none) × (word ≤ t + length (terminated ss)))
unfolding add_lengths
add_lengths-cases [] t h = inl (ap some (omega arith))
add_lengths-cases (s ∷ ss) t h =
    let l : length (terminated (s ∷ ss)) ≡ length s + suc (length (terminated ss)) =
      length-append s (0 ∷ terminated ss) in
    elim (Bool-cases (ltb (t + length s) word)) [
      | inr e ↦ inr (rw e (add_lengths-none ss), ground (arith, l))
      | inl e ↦ elim (Bool-cases (ltb (t + length s + 1) word)) [
        | inr f ↦ inr (rw (e, f) (add_lengths-none ss), ground (arith, l))
        | inl f ↦ elim (add_lengths-cases ss (t + length s + 1) (ground arith)) [
          | inl q ↦ inl (rw (e, f) (q ∙ ap some (omega (arith, l))))
          | inr (q, over) ↦ inr (rw (e, f) q, omega (arith, l))
        ]
      ]
    ]

module _ (reserves : ℕ → Bool) (ss : List (List ℕ)) (few : length ss ≤ 17) where
  abbrev strings_room : ℕ
  strings_room = length (terminated ss)

  filled :
      strings_room ≤ 1024
      → fill_vector reserves ss (pointer_room ss) (total ss) (start_of ss)
        ≡ (if reserves (total ss) then ok (vector_of ss) else err invalid_arguments)
  unfolding fill_vector
  filled short = elim (Bool-cases (reserves (total ss))) [
    | inr e ↦ rw e refl
    | inl e ↦ rw e (
        ap (write_strings (start_of ss) 0 (pointer_room ss) ss) blank
        ∙ write_strings_lem (start_of ss) ss 0 (pointer_room ss) pad [] [] refl (omega arith)
            (omega arith))
  ]
    where
      pad : ℕ
      pad = total ss - pointer_room ss - strings_room

      blank :
          replicate (total ss) 0
          ≡ zeros (8 * length ss) ++ (zeros 8 ++ zeros (length (terminated ss) + pad))
      blank =
          ap zeros (omega arith)
          ∙ zeros-split (8 * length ss) (8 + (length (terminated ss) + pad))
          ∙ ap (λ z. zeros (8 * length ss) ++ z) (zeros-split 8 (length (terminated ss) + pad))

  sized : size_vector reserves ss (pointer_room ss) strings_room ≡ (
      if ltb 1024 strings_room
      then err invalid_arguments
      else (if reserves (total ss) then ok (vector_of ss) else err invalid_arguments))
  unfolding size_vector
  sized = elim (Bool-cases (ltb 1024 strings_room)) [
    | inl e ↦ rw e refl
    | inr e ↦
        let short : strings_room ≤ 1024 = ground arith in
        let a : ltb (pointer_room ss + strings_room) word ≡ true = ground arith in
        let b : ltb (pointer_room ss + strings_room + 7) word ≡ true = ground arith in
        let c : ltb user_stack_size (total ss) ≡ false = ground arith in
        let d : leb (total ss) (user_stack_top - 256) ≡ true = ground arith in
        rw (e, a, b, c, d) (filled short)
  ]

module _ (reserves : ℕ → Bool) (path : List ℕ) (arguments : List (List ℕ)) where
  abbrev all_strings : List (List ℕ)
  all_strings = path ∷ arguments

  all_len : length (terminated all_strings) ≡ length path + 1 + length (terminated arguments)
  all_len = omega (arith, length-append path (0 ∷ terminated arguments))

  -- The vector with the number of strings.
  abbrev counted : Result (List ℕ) VectorError → Result (List ℕ × ℕ) VectorError
  counted r = and_then r λ vector. ok (vector, length arguments + 1)

  abbrev from_size : ℕ → Result (List ℕ × ℕ) VectorError
  from_size n = counted (size_vector reserves all_strings (pointer_room all_strings) n)

  abbrev expected : Result (List ℕ × ℕ) VectorError
  expected =
      if ltb 1024 (length (terminated all_strings))
      then err invalid_arguments
      else (if reserves (total all_strings)
          then ok (vector_of all_strings, length arguments + 1)
          else err invalid_arguments)

  from_total : length arguments ≤ 16 → from_size (length (terminated all_strings)) ≡ expected
  from_total few =
      ap counted (sized reserves all_strings (omega arith))
      ∙ shifted (ltb 1024 (length (terminated all_strings))) (reserves (total all_strings))
    where
      shifted :
          (b c : Bool)
          → counted (
              if b
              then err invalid_arguments
              else (if c then ok (vector_of all_strings) else err invalid_arguments))
            ≡ (if b
                then err invalid_arguments
                else (if c
                    then ok (vector_of all_strings, length arguments + 1)
                    else err invalid_arguments))
      shifted true c = refl
      shifted false true = refl
      shifted false false = refl

  too_long : word ≤ length (terminated all_strings) → expected ≡ err invalid_arguments
  too_long h = let e : ltb 1024 (length (terminated all_strings)) ≡ true = ground arith in rw e refl

  from_lengths :
      length arguments ≤ 16
      → (valid (add_lengths (checked_add (length path) 1) arguments) from_size) ≡ expected
  from_lengths few = elim (Bool-cases (ltb (length path + 1) word)) [
    | inr e ↦ rw (e, add_lengths-none arguments) (sym (too_long (ground (arith, all_len))))
    | inl e ↦ elim (add_lengths-cases arguments (length path + 1) (ground arith)) [
      | inl q ↦ rw (e, q) (ap from_size (sym all_len) ∙ from_total few)
      | inr (q, over) ↦ rw (e, q) (sym (too_long (omega (arith, all_len))))
    ]
  ]

  -- For every path and arguments: if there are more than 16 arguments, or a null byte in one or in the
  -- path, or the strings with their null bytes take more than 1024 bytes, or the memory is not there,
  -- the result is an error; else it is the number of strings with one vector: their addresses, a null
  -- pointer, the strings each with a null byte, and zeros up to a multiple of 8 bytes. The addresses
  -- are where the strings stand when the vector ends 256 bytes below the top of the stack. No slice is
  -- out of range.
  pub build_argument_vector-eq-reference :
      build_argument_vector reserves path arguments ≡ reference reserves path arguments
  unfolding build_argument_vector
  build_argument_vector-eq-reference =
      elim (Bool-cases (ltb 16 (length arguments) || has_zero path || any_zero arguments)) [
        | inl e ↦ rw e refl
        | inr e ↦
            let few : length arguments ≤ 16 = ground arith in
            let a : ltb (length arguments + 1) word ≡ true = ground arith in
            let b : ltb (length arguments + 1 + 1) word ≡ true = ground arith in
            let c : ltb ((length arguments + 1 + 1) * 8) word ≡ true = ground arith in
            let d : (length arguments + 1 + 1) * 8 ≡ pointer_room all_strings = omega arith in
            rw (e, a, b, c, d) (from_lengths few)
      ]
