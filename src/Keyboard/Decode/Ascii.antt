-- ===== src/Keyboard/Decode/Ascii.antt =====
-- The characters that drivers/keyboard.rs gives.
use leaf_os_alpha.Base.{
  ℕ, ◌-◌, ◌%◌, ◌≡◌, ◌≤◌, ◌<◌, refl, subst, ap, Bool, true, false, ◌&&◌, ◌||◌, some, arith,
  if◌then◌else◌, ◌==◌, ltb, leb, Bool-cases, inl, inr,
}
use leaf_os_alpha.Keyboard.Key.{pressed, KeyCode, KeyEvent, Keyboard}
use leaf_os_alpha.Keyboard.Tables.{normal_key, extended_key}
use leaf_os_alpha.Keyboard.Tables.Bounds.{
  is_plain, normal_key-plain, extended_key-plain, shifted_character_small, is_small_letter,
  normal_key-small,
}
use leaf_os_alpha.Keyboard.Decode.{
  is_ascii_alphabetic, xor, letter_to_ascii, sign_to_ascii, to_ascii, set_modifiers, key_event,
  process_scancode,
}

letter_small : (k : Keyboard) (c : ℕ) → c < 128 → letter_to_ascii k c < 128
unfolding letter_to_ascii
letter_small k c h = ground arith

sign_small : (k : Keyboard) (c : ℕ) → c < 128 → sign_to_ascii k c < 128
unfolding sign_to_ascii
sign_small k c h = ground (arith, shifted_character_small c h)

to_ascii_small :
    (k : Keyboard) (key : KeyCode) (b : ℕ) → is_plain key ≡ true → to_ascii k key ≡ some b → b < 128
unfolding to_ascii
to_ascii_small k (KeyCode.char c) b p e = ground (arith, letter_small k c, sign_small k c)
to_ascii_small k KeyCode.space b p e = ground arith
to_ascii_small k KeyCode.enter b p e = ground arith
to_ascii_small k KeyCode.tab b p e = ground arith
to_ascii_small k KeyCode.backspace b p e = ground arith
to_ascii_small k KeyCode.escape b p e = ground arith
to_ascii_small k _ b p e = cc

-- The character of a small letter with these modifiers.
abbrev pub letter : Keyboard → ℕ → ℕ
letter k c =
    if k.right_alt && (c == 119)
    then 124
    else (if k.left_ctrl || k.right_ctrl
        then c - 96
        else (if xor (k.left_shift || k.right_shift) k.caps_lock then c - 32 else c))

letter_lem :
    (k : Keyboard) (c : ℕ) → 97 ≤ c → c ≤ 122 → to_ascii k (KeyCode.char c) ≡ some (letter k c)
unfolding to_ascii letter_to_ascii
letter_lem k c h l = ground arith

pressed_letter :
    (k : Keyboard) (key : KeyCode) (c : ℕ)
    → key ≡ KeyCode.char c
    → 97 ≤ c
    → c ≤ 122
    → key_event k key false
      ≡ (some (record { code = KeyCode.char c; state = pressed; ascii = some (letter k c) }), k)
unfolding key_event set_modifiers
pressed_letter k key c e h l = rw (e, letter_lem k c h l) refl

small_letter :
    (key : KeyCode) (c : ℕ)
    → is_small_letter key ≡ true
    → key ≡ KeyCode.char c
    → is_ascii_alphabetic c ≡ true
    → (97 ≤ c) × (c ≤ 122)
small_letter key c s e a =
    let s' : is_small_letter (KeyCode.char c) ≡ true = subst (λ x. is_small_letter x ≡ true) e s in
    (ground arith, ground arith)

-- When a letter key goes down, and no prefix or Pause is pending, its event bears `|` if it is W and
-- the right Alt is down; else, with a Ctrl down, the control code of the letter, from 1 to 26; and
-- else the capital if exactly one of Shift and Caps Lock is on, and the small letter if not.
pub process-letter :
    (k : Keyboard) (scancode c : ℕ)
    → k.pause_remaining ≡ 0
    → k.extended ≡ false
    → scancode < 128
    → normal_key scancode ≡ KeyCode.char c
    → is_ascii_alphabetic c ≡ true
    → (process_scancode k scancode).0
      ≡ some (record { code = KeyCode.char c; state = pressed; ascii = some (letter k c) })
unfolding process_scancode key_event
process-letter k scancode c p x h e a =
    let (low, high) = small_letter (normal_key scancode) c (normal_key-small scancode) e a in
    let event =
      pressed_letter (record k { extended = false; pause_remaining = 0 }) (normal_key scancode) c e
        low high in
    let seven : scancode % 0x80 ≡ scancode = omega arith in
    let down : leb 0x80 scancode ≡ false = ground arith in
    let first : (scancode == 0xE1) ≡ false = ground arith in
    let prefix : (scancode == 0xE0) ≡ false = ground arith in
    rw (p, x, first, prefix, seven, down) (ap (λ o. o.0) event)

key_event-ascii :
    (k : Keyboard) (key : KeyCode) (up : Bool) (e : KeyEvent) (b : ℕ)
    → is_plain key ≡ true
    → (key_event k key up).0 ≡ some e
    → e.ascii ≡ some b
    → (b < 128) × (up ≡ false)
unfolding key_event
key_event-ascii k key true e b p h a = ground arith
key_event-ascii k key false e b p h a =
    (ground (arith, to_ascii_small (set_modifiers k key false) key b p), refl)

plain_key :
    (extended : Bool) (code : ℕ)
    → is_plain (if extended then extended_key code else normal_key code) ≡ true
plain_key true code = extended_key-plain code
plain_key false code = normal_key-plain code

-- Every character that a scancode is decoded to is an ASCII character, and only a press gives one.
pub process-ascii :
    (k : Keyboard) (scancode b : ℕ) (e : KeyEvent)
    → (process_scancode k scancode).0 ≡ some e
    → e.ascii ≡ some b
    → (b < 128) × (scancode < 128)
unfolding process_scancode
process-ascii k scancode b e h a = elim (Bool-cases (ltb 0 k.pause_remaining)) [
  | inl p ↦ let x = rw p at h in cc
  | inr p ↦ elim (Bool-cases (scancode == 0xE1)) [
    | inl q ↦ let x = rw (p, q) at h in cc
    | inr q ↦ elim (Bool-cases (scancode == 0xE0)) [
      | inl r ↦ let x = rw (p, q, r) at h in cc
      | inr r ↦
          let (small, up) =
            key_event-ascii (record k { extended = false })
              (if k.extended then extended_key (scancode % 0x80) else normal_key (scancode % 0x80))
              (leb 0x80 scancode) e b (plain_key k.extended (scancode % 0x80)) (rw (p, q, r) at h)
              a in
          (small, ground arith)
    ]
  ]
]
