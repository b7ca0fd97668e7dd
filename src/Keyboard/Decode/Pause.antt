-- ===== src/Keyboard/Decode/Pause.antt =====
-- The Pause key of drivers/keyboard.rs, whose scancodes report nothing.
use leaf_os_alpha.Base.{
  ℕ, suc, ◌≡◌, refl, sym, ◌∙◌, ap, false, List, [], ◌∷◌, arith, none, ◌++◌, length,
}
use leaf_os_alpha.Keyboard.Key.{Keyboard}
use leaf_os_alpha.Keyboard.Decode.{process_scancode, run}

skip_step :
    (k : Keyboard) (s n : ℕ)
    → k.pause_remaining ≡ suc n
    → process_scancode k s ≡ (none, record k { pause_remaining = n })
unfolding process_scancode
skip_step k s n h = ground arith

run-silent :
    (k k' : Keyboard) (s : ℕ) (scancodes : List ℕ)
    → process_scancode k s ≡ (none, k')
    → run k (s ∷ scancodes) ≡ run k' scancodes
unfolding run
run-silent k k' s scancodes h = rw h refl

-- While a pause is pending, bytes are skipped, and report nothing.
run-skip :
    (skipped : List ℕ) (k : Keyboard) (scancodes : List ℕ)
    → k.pause_remaining ≡ length skipped
    → run k (skipped ++ scancodes) ≡ run (record k { pause_remaining = 0 }) scancodes
run-skip [] k scancodes h = ap (λ n. run (record k { pause_remaining = n }) scancodes) h
run-skip (s ∷ skipped) k scancodes h =
    run-silent k (record k { pause_remaining = length skipped }) s (skipped ++ scancodes)
      (skip_step k s (length skipped) (h ∙ refl))
    ∙ run-skip skipped (record k { pause_remaining = length skipped }) scancodes refl

pause_step :
    (k : Keyboard)
    → k.pause_remaining ≡ 0
    → process_scancode k 0xE1 ≡ (none, record k { extended = false; pause_remaining = 5 })
unfolding process_scancode
pause_step k h = rw h refl

-- The byte 0xE1, which starts the Pause sequence, and whatever five bytes follow it report no event
-- and leave all else of the decoder as it was, but for a pending prefix 0xE0, which is forgotten. This
-- holds where no such sequence is pending.
pub run-pause :
    (k : Keyboard) (sequence scancodes : List ℕ)
    → k.pause_remaining ≡ 0
    → length sequence ≡ 5
    → run k (0xE1 ∷ (sequence ++ scancodes)) ≡ run (record k { extended = false }) scancodes
run-pause k sequence scancodes h five =
    run-silent k _ 0xE1 (sequence ++ scancodes) (pause_step k h)
    ∙ run-skip sequence (record k { extended = false; pause_remaining = 5 }) scancodes (sym five)
    ∙ ap (λ n. run (record k { extended = false; pause_remaining = n }) scancodes) (sym h)
