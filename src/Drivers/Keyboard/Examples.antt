-- ===== src/Drivers/Keyboard/Examples.antt =====
-- A keyboard with an empty queue, whose indices are about to wrap.
use old_boruixkernel.Common.{
  ℕ, ◌+◌, ◌%◌, ◌^◌, ◌<◌, ◌≡◌, refl, true, false, Option, none, some, List, [], ◌∷◌, ◌++◌, arith,
}
use old_boruixkernel.Drivers.Keyboard.{
  Keyboard, push_scancode, pop_scancode, feed_scancode, irq_scancode, scancode_letter,
  scancode_symbol, scancode_to_ascii, press, decode, read_loop, read_bytes, no_last_make,
}
use old_boruixkernel.Drivers.Keyboard.Queue.{InRange, waiting, codes, push_scancode_lem}
use old_boruixkernel.Drivers.Keyboard.Reading.{Read, read_bytes-Read}

abbrev idle : Keyboard
idle = record {
  buf = λ i. 0;
  head = 255;
  tail = 255;
  shift = false;
  caps_lock = false;
  ctrl = false;
  dropped = 0;
  irq_input_active = false;
  fallback_active = false;
  fallback_logged = false;
  last_make = no_last_make;
}

idle-InRange : InRange idle
idle-InRange = record { head_low = omega arith; tail_low = omega arith }

push_scancode_lem_example :
    InRange (push_scancode 0x1E idle)
    × (waiting idle < 255 → codes (push_scancode 0x1E idle) ≡ codes idle ++ (0x1E ∷ []))
    × (waiting idle ≡ 255
        → push_scancode 0x1E idle ≡ record (idle) { dropped = (idle.dropped + 1) % 2 ^ 64 })
push_scancode_lem_example = push_scancode_lem 0x1E idle idle-InRange

read_bytes-Read_example : Read 4 (read_bytes 4 idle)
read_bytes-Read_example = read_bytes-Read 4 idle idle-InRange

-- The key of the letter a, and then shift and the key of the digit 1.
abbrev pressed : Keyboard
pressed = irq_scancode 2 (irq_scancode 0x2A (irq_scancode 0x1E idle))

abbrev typed : Option (List ℕ × Keyboard) → List ℕ
typed none = []
typed (some r) = r.0

reads : typed (read_bytes 4 pressed) ≡ 97 ∷ 33 ∷ []
unfolding read_bytes read_loop pop_scancode decode press scancode_to_ascii scancode_letter
    scancode_symbol irq_scancode feed_scancode push_scancode
reads = refl

-- Shift does not change a letter.
shifted : scancode_to_ascii 0x1E true false ≡ some 97
unfolding scancode_to_ascii scancode_letter
shifted = refl
