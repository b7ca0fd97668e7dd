-- ===== src/Program/Arguments/Reference.antt =====
-- The argument vector of user_program.rs as one list: the pointers, a null pointer, the strings, each
-- with its null byte, and the padding.
use mathlib.Core.List.{append_assoc}
use leaf_os_alpha.Base.{
  ℕ, zero, suc, ◌+◌, ◌*◌, ◌≡◌, ◌<◌, refl, sym, ap, ◌∙◌, true, List, [], ◌∷◌, ◌++◌, arith, ltb, leb,
  length, length-append, length-replicate, take, drop, drop-add, replicate, ok, word,
}
use leaf_os_alpha.Program.{to_le_bytes}
use leaf_os_alpha.Program.Header.{take_front, drop_front}
use leaf_os_alpha.Program.Arguments.{put_range, write_strings}

abbrev pub zeros : ℕ → List ℕ
zeros n = replicate n 0

-- The strings one after the other, each with its null byte.
abbrev pub terminated : List (List ℕ) → List ℕ
terminated [] = []
terminated (s ∷ ss) = s ++ (0 ∷ terminated ss)

-- The addresses of the strings, the first of which stands at `address`.
abbrev pub pointers : ℕ → List (List ℕ) → List ℕ
pointers address [] = []
pointers address (s ∷ ss) = to_le_bytes 8 address ++ pointers (address + length s + 1) ss

pub zeros-split : (m n : ℕ) → zeros (m + n) ≡ zeros m ++ zeros n
zeros-split zero n = ap zeros (omega arith)
zeros-split (suc m) n =
    let e : suc m + n ≡ suc (m + n) = omega arith in
    ap zeros e ∙ ap (λ xs. 0 ∷ xs) (zeros-split m n)

length-to_le_bytes : (size n : ℕ) → length (to_le_bytes size n) ≡ size
length-to_le_bytes zero n = refl
length-to_le_bytes (suc size) n = ap suc (length-to_le_bytes size _)

-- A write over bytes that stand between two others.
put_range-between :
    (first : ℕ) (before old bytes after : List ℕ)
    → length before ≡ first
    → length old ≡ length bytes
    → put_range first bytes (before ++ (old ++ after)) ≡ ok (before ++ (bytes ++ after))
unfolding put_range
put_range-between first before old bytes after e f =
    let inside : leb (first + length bytes) (length (before ++ (old ++ after))) ≡ true =
      ground (arith, length-append before (old ++ after), length-append old after) in
    let front : take first (before ++ (old ++ after)) ≡ before =
      ap (λ n. take n (before ++ (old ++ after))) (sym e) ∙ take_front before (old ++ after) in
    let back : drop (first + length bytes) (before ++ (old ++ after)) ≡ after =
      drop-add first (length bytes) (before ++ (old ++ after))
      ∙ ap (drop (length bytes))
          (ap (λ n. drop n (before ++ (old ++ after))) (sym e) ∙ drop_front before (old ++ after))
      ∙ ap (λ n. drop n (old ++ after)) (sym f)
      ∙ drop_front old after in
    rw (inside, front, back) refl

module _ (stack_start : ℕ) where
  -- The loop, with what it has written: the pointers `done` and the strings `mid`.
  pub write_strings_lem :
      (ss : List (List ℕ)) (index offset pad : ℕ) (done mid : List ℕ)
      → length done ≡ 8 * index
      → length done + 8 * length ss + 8 + length mid ≡ offset
      → stack_start + offset + length (terminated ss) < word
      → write_strings stack_start index offset ss (
          done
          ++ (zeros (8 * length ss) ++ (zeros 8 ++ (mid ++ zeros (length (terminated ss) + pad)))))
        ≡ ok (
            done
            ++ (pointers (stack_start + offset) ss
                ++ (zeros 8 ++ (mid ++ (terminated ss ++ zeros pad)))))
  unfolding write_strings
  write_strings_lem [] index offset pad done mid at off fits =
      ap (λ n. ok (done ++ (zeros 8 ++ (mid ++ zeros n)))) (omega arith)
  write_strings_lem (s ∷ ss) index offset pad done mid at off fits =
      rw (a, b, first, c, second)
        (ap (λ xs. write_strings stack_start (suc index) (offset + length s + 1) ss xs) regroup
          ∙ write_strings_lem ss (suc index) (offset + length s + 1) pad (done ++ word8)
              (mid ++ (s ++ (0 ∷ []))) at' off' fits'
          ∙ ap ok result)
    where
      n : ℕ
      n = 8 * length ss

      m : ℕ
      m = length (terminated ss) + pad

      more : length (terminated (s ∷ ss)) ≡ length s + 1 + length (terminated ss)
      more = omega (arith, length-append s (0 ∷ terminated ss))

      word8 : List ℕ
      word8 = to_le_bytes 8 (stack_start + offset)

      after : List ℕ
      after = zeros 8 ++ (mid ++ zeros (length (terminated (s ∷ ss)) + pad))

      v1 : List ℕ
      v1 =
          done
          ++ (word8
              ++ (zeros n ++ (zeros 8 ++ (mid ++ zeros (length (terminated (s ∷ ss)) + pad)))))

      front : List ℕ
      front = done ++ (word8 ++ (zeros n ++ (zeros 8 ++ mid)))

      v2 : List ℕ
      v2 = front ++ (s ++ (0 ∷ zeros m))

      a : ltb (stack_start + offset) word ≡ true
      a = ground arith

      b : ltb (index * 8) word ≡ true
      b = ground arith

      c : ltb (offset + length s) word ≡ true
      c = ground (arith, more)

      table : zeros (8 * length (s ∷ ss)) ≡ zeros 8 ++ zeros n
      table = ap zeros (omega arith) ∙ zeros-split 8 n

      room : zeros (length (terminated (s ∷ ss)) + pad) ≡ zeros (length s) ++ (0 ∷ zeros m)
      room = ap zeros (omega (arith, more)) ∙ zeros-split (length s) (suc m)

      first :
          put_range (index * 8) word8 (
            done
            ++ (zeros (8 * length (s ∷ ss))
                ++ (zeros 8 ++ (mid ++ zeros (length (terminated (s ∷ ss)) + pad)))))
          ≡ ok v1
      first =
          ap (λ z. put_range (index * 8) word8 (done ++ z))
            (ap (λ z. z ++ after) table ∙ append_assoc (zeros 8) (zeros n) after)
          ∙ put_range-between (index * 8) done (zeros 8) word8 (zeros n ++ after) (omega arith) refl

      front_len : length front ≡ offset
      front_len = omega (
        arith,
        off,
        length-append done (word8 ++ (zeros n ++ (zeros 8 ++ mid))),
        length-append word8 (zeros n ++ (zeros 8 ++ mid)),
        length-append (zeros n) (zeros 8 ++ mid),
        length-append (zeros 8) mid,
        length-replicate {A = ℕ} n 0,
      )

      second : put_range offset s v1 ≡ ok v2
      second =
          ap (put_range offset s) (rw room (simp append_assoc refl))
          ∙ put_range-between offset front (zeros (length s)) s (0 ∷ zeros m) front_len
              (length-replicate {A = ℕ} (length s) 0)

      regroup :
          v2 ≡ (done ++ word8) ++ (zeros n ++ (zeros 8 ++ ((mid ++ (s ++ (0 ∷ []))) ++ zeros m)))
      regroup = simp append_assoc refl

      at' : length (done ++ word8) ≡ 8 * suc index
      at' = omega (arith, length-append done word8)

      off' :
          length (done ++ word8) + n + 8 + length (mid ++ (s ++ (0 ∷ []))) ≡ offset + length s + 1
      off' = omega (
        arith,
        length-append done word8,
        length-append mid (s ++ (0 ∷ [])),
        length-append s (0 ∷ []),
      )

      fits' : stack_start + (offset + length s + 1) + length (terminated ss) < word
      fits' = omega (arith, more)

      result :
          (done ++ word8)
            ++ (pointers (stack_start + (offset + length s + 1)) ss
                ++ (zeros 8 ++ ((mid ++ (s ++ (0 ∷ []))) ++ (terminated ss ++ zeros pad))))
          ≡ done
            ++ (pointers (stack_start + offset) (s ∷ ss)
                ++ (zeros 8 ++ (mid ++ (terminated (s ∷ ss) ++ zeros pad))))
      result =
          let e : stack_start + (offset + length s + 1) ≡ stack_start + offset + length s + 1 =
            omega arith in
          rw e (simp append_assoc refl)
