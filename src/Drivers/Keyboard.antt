-- ===== src/Drivers/Keyboard.antt =====
-- kernel_driver_hub/src/driver_hub/keyboard.rs, without the controller and its ports. A byte of the
-- queue stands at its index. The waking of readers leaves no trace here, and no scancode arrives while
-- `read_bytes` runs, whose loop takes fuel, one unit for each scancode and one more.
pub mod Queue
pub mod Reading
mod Examples
use old_boruixkernel.Common.{
  ℕ, zero, suc, ◌+◌, ◌-◌, ◌%◌, ◌^◌, Bool, true, false, Option, none, some, List, [], ◌∷◌, ltb, leb,
  ◌==◌, ◌&&◌, ◌||◌, not, if◌then◌else◌,
}

abbrev pub buf_size : ℕ
buf_size = 256

abbrev pub no_last_make : ℕ
no_last_make = 0x1ff

-- The statics of the module.
pub record Keyboard : Type 0 where
  pub buf : ℕ → ℕ
  pub head : ℕ
  pub tail : ℕ
  pub shift : Bool
  pub caps_lock : Bool
  pub ctrl : Bool
  pub dropped : ℕ
  pub irq_input_active : Bool
  pub fallback_active : Bool
  pub fallback_logged : Bool
  pub last_make : ℕ

unfoldable pub push_scancode : ℕ → Keyboard → Keyboard
push_scancode scancode k =
    let next = (k.head + 1) % buf_size in
    if next == k.tail
    then record k { dropped = (k.dropped + 1) % 2 ^ 64 }
    else record k { buf = λ i. if i == k.head then scancode else k.buf i; head = next }

unfoldable pub pop_scancode : Keyboard → Option (ℕ × Keyboard)
pop_scancode k =
    if k.tail == k.head
    then none
    else some (k.buf k.tail, record k { tail = (k.tail + 1) % buf_size })

-- Bytes 0xFA answer a command.
unfoldable pub feed_scancode : ℕ → Keyboard → Keyboard
unfolding push_scancode
feed_scancode scancode k = if scancode == 0xFA then k else push_scancode scancode k

unfoldable pub irq_scancode : ℕ → Keyboard → Keyboard
unfolding feed_scancode
irq_scancode scancode k = feed_scancode scancode (record k {
  irq_input_active = if scancode == 0xFA then k.irq_input_active else true;
  fallback_active = false;
  fallback_logged = false;
})

-- The loop of `poll_hardware_nonblock`, over the bytes that the controller has.
unfoldable pub poll_bytes : List ℕ → Keyboard → Keyboard
unfolding feed_scancode
poll_bytes [] k = k
poll_bytes (sc ∷ scs) k = poll_bytes scs (
    feed_scancode sc (record k {
      fallback_active = true;
      fallback_logged = if k.fallback_active then k.fallback_logged else true;
    }))

unfoldable pub scancode_letter : ℕ → Bool → Option ℕ
scancode_letter sc uppercase =
    if sc == 0x10
    then some (if uppercase then 81 else 113)
    else if sc == 0x11
    then some (if uppercase then 87 else 119)
    else if sc == 0x12
    then some (if uppercase then 69 else 101)
    else if sc == 0x13
    then some (if uppercase then 82 else 114)
    else if sc == 0x14
    then some (if uppercase then 84 else 116)
    else if sc == 0x15
    then some (if uppercase then 89 else 121)
    else if sc == 0x16
    then some (if uppercase then 85 else 117)
    else if sc == 0x17
    then some (if uppercase then 73 else 105)
    else if sc == 0x18
    then some (if uppercase then 79 else 111)
    else if sc == 0x19
    then some (if uppercase then 80 else 112)
    else if sc == 0x1E
    then some (if uppercase then 65 else 97)
    else if sc == 0x1F
    then some (if uppercase then 83 else 115)
    else if sc == 0x20
    then some (if uppercase then 68 else 100)
    else if sc == 0x21
    then some (if uppercase then 70 else 102)
    else if sc == 0x22
    then some (if uppercase then 71 else 103)
    else if sc == 0x23
    then some (if uppercase then 72 else 104)
    else if sc == 0x24
    then some (if uppercase then 74 else 106)
    else if sc == 0x25
    then some (if uppercase then 75 else 107)
    else if sc == 0x26
    then some (if uppercase then 76 else 108)
    else if sc == 0x2C
    then some (if uppercase then 90 else 122)
    else if sc == 0x2D
    then some (if uppercase then 88 else 120)
    else if sc == 0x2E
    then some (if uppercase then 67 else 99)
    else if sc == 0x2F
    then some (if uppercase then 86 else 118)
    else if sc == 0x30
    then some (if uppercase then 66 else 98)
    else if sc == 0x31
    then some (if uppercase then 78 else 110)
    else if sc == 0x32
    then some (if uppercase then 77 else 109)
    else none

-- The `match` of `scancode_to_ascii`.
unfoldable pub scancode_symbol : ℕ → Bool → Option ℕ
scancode_symbol sc shift =
    if sc == 0x02
    then some (if shift then 33 else 49)
    else if sc == 0x03
    then some (if shift then 64 else 50)
    else if sc == 0x04
    then some (if shift then 35 else 51)
    else if sc == 0x05
    then some (if shift then 36 else 52)
    else if sc == 0x06
    then some (if shift then 37 else 53)
    else if sc == 0x07
    then some (if shift then 94 else 54)
    else if sc == 0x08
    then some (if shift then 38 else 55)
    else if sc == 0x09
    then some (if shift then 42 else 56)
    else if sc == 0x0A
    then some (if shift then 40 else 57)
    else if sc == 0x0B
    then some (if shift then 41 else 48)
    else if sc == 0x39
    then some 32
    else if sc == 0x1C
    then some 10
    else if sc == 0x0E
    then some 8
    else if sc == 0x0C
    then some (if shift then 95 else 45)
    else if sc == 0x0D
    then some (if shift then 43 else 61)
    else if sc == 0x1A
    then some (if shift then 123 else 91)
    else if sc == 0x1B
    then some (if shift then 125 else 93)
    else if sc == 0x27
    then some (if shift then 58 else 59)
    else if sc == 0x28
    then some (if shift then 34 else 39)
    else if sc == 0x29
    then some (if shift then 126 else 96)
    else if sc == 0x2B
    then some (if shift then 124 else 92)
    else if sc == 0x33
    then some (if shift then 60 else 44)
    else if sc == 0x34
    then some (if shift then 62 else 46)
    else if sc == 0x35
    then some (if shift then 63 else 47)
    else none

unfoldable pub scancode_to_ascii : ℕ → Bool → Bool → Option ℕ
unfolding scancode_letter scancode_symbol
scancode_to_ascii sc shift caps = elim (scancode_letter sc caps) [
  | some letter ↦ some letter
  | none ↦ scancode_symbol sc shift
]

unfoldable pub reset_input_state : Keyboard → Keyboard
reset_input_state k = record k {
  shift = false;
  ctrl = false;
  last_make = no_last_make;
  tail = k.head;
}

unfoldable pub handle_key_release : ℕ → Keyboard → Keyboard
handle_key_release code k = record k {
  last_make = if k.last_make == code then no_last_make else k.last_make;
  shift = if (code == 0x2A) || (code == 0x36) then false else k.shift;
  ctrl = if code == 0x1D then false else k.ctrl;
}

-- A key that is pressed: the keyboard after it, and the character. `LAST_MAKE` is the code already.
unfoldable pub press : ℕ → Keyboard → Keyboard × Option ℕ
unfolding reset_input_state scancode_to_ascii
press sc k =
    if (sc == 0x2A) || (sc == 0x36)
    then (record k { shift = true }, none)
    else if sc == 0x3A
    then (record k { caps_lock = not k.caps_lock }, none)
    else if sc == 0x1D
    then (record k { ctrl = true }, none)
    else if (sc == 0x13) && k.ctrl
    then (reset_input_state k, none)
    else (k, scancode_to_ascii sc k.shift k.caps_lock)

-- The body of the loop of `read_bytes` for a scancode: whether a release is announced, the keyboard and
-- the character. The bit 0x80 marks a release.
unfoldable pub decode : Bool → ℕ → Keyboard → Bool × Keyboard × Option ℕ
unfolding handle_key_release press
decode saw_release_prefix sc k =
    if (sc == 0xE0) || (sc == 0xE1)
    then (saw_release_prefix, k, none)
    else if saw_release_prefix
    then (false, handle_key_release sc k, none)
    else if sc == 0xF0
    then (true, k, none)
    else if leb 0x80 (sc % 0x100)
    then (false, handle_key_release (sc % 0x80) k, none)
    else if k.last_make == sc
    then (false, k, none)
    else let (pressed, c) = press sc (record k { last_make = sc }) in (false, pressed, c)

-- A character goes to the buffer, which has room for so many more.
abbrev pub emit : Option ℕ → Option (List ℕ × Keyboard) → Option (List ℕ × Keyboard)
emit c none = none
emit none (some r) = some r
emit (some c) (some (out, k)) = some (c ∷ out, k)

abbrev pub room_after : Option ℕ → ℕ → ℕ
room_after none room = room
room_after (some c) room = room - 1

unfoldable pub read_loop : ℕ → ℕ → Bool → Keyboard → Option (List ℕ × Keyboard)
unfolding pop_scancode decode
read_loop zero room saw k = none
read_loop (suc fuel) room saw k = if room == 0 then some ([], k) else elim (pop_scancode k) [
  | none ↦ some ([], k)
  | some (sc, k1) ↦
      let (saw1, k2, c) = decode saw sc k1 in emit c (read_loop fuel (room_after c room) saw1 k2)
]

-- `read_bytes` with a buffer for `room` characters; the queue has at most 255 scancodes.
unfoldable pub read_bytes : ℕ → Keyboard → Option (List ℕ × Keyboard)
unfolding read_loop
read_bytes room k = read_loop buf_size room false k

unfoldable pub poll : Keyboard → Bool
poll k = not (k.tail == k.head)
