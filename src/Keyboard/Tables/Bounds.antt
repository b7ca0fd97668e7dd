-- ===== src/Keyboard/Tables/Bounds.antt =====
-- The tables of drivers/keyboard.rs hold ASCII characters only.
use leaf_os_alpha.Base.{
  ℕ, ◌+◌, ◌≡◌, ◌<◌, refl, Bool, true, ◌&&◌, List, [], ◌∷◌, arith, ltb, leb, not,
}
use leaf_os_alpha.Keyboard.Key.{KeyCode}
use leaf_os_alpha.Keyboard.Tables.{
  arm, normal_keys, extended_keys, shifted_characters, normal_key, extended_key, shifted_character,
}

abbrev pub is_plain : KeyCode → Bool
is_plain (KeyCode.char c) = ltb c 128
is_plain _ = true

abbrev all_arms {ℓ} : {A : Type ℓ} → (A → Bool) → List (ℕ × A) → Bool
all_arms p [] = true
all_arms p ((n, a) ∷ arms) = p a && all_arms p arms

-- What holds of each arm and of the last holds of the one that matches.
all_arms-arm {ℓ} :
    {A : Type ℓ} (p : A → Bool) (arms : List (ℕ × A)) (n : ℕ) (other : A)
    → all_arms p arms ≡ true
    → p other ≡ true
    → p (arm arms n other) ≡ true
unfolding arm
all_arms-arm p [] n other h o = o
all_arms-arm p ((m, a) ∷ arms) n other h o = ground (arith, all_arms-arm p arms n other)

pub normal_key-plain : (code : ℕ) → is_plain (normal_key code) ≡ true
unfolding normal_key
normal_key-plain code =
    ground (arith, all_arms-arm is_plain normal_keys code (KeyCode.unknown code) refl refl)

pub extended_key-plain : (code : ℕ) → is_plain (extended_key code) ≡ true
unfolding extended_key
extended_key-plain code =
    all_arms-arm is_plain extended_keys code (KeyCode.unknown (code + 0x80)) refl refl

pub shifted_character_small : (c : ℕ) → c < 128 → shifted_character c < 128
unfolding shifted_character
shifted_character_small c h =
    ground (arith, all_arms-arm (λ d. ltb d 128) shifted_characters c c refl)

-- A key with a letter bears the small one.
abbrev pub is_small_letter : KeyCode → Bool
is_small_letter (KeyCode.char c) = not (leb 65 c && leb c 90)
is_small_letter _ = true

pub normal_key-small : (code : ℕ) → is_small_letter (normal_key code) ≡ true
unfolding normal_key
normal_key-small code =
    ground (arith, all_arms-arm is_small_letter normal_keys code (KeyCode.unknown code) refl refl)

pub normal_key_a : normal_key 0x1E ≡ KeyCode.char 97
unfolding normal_key arm
normal_key_a = refl
