-- ===== src/Keyboard.antt =====
-- kernel/drivers/keyboard.c: the ring buffer between the interrupt and its readers. The scan code that
-- the port gives is an argument of the handler, and the wait of `keyboard_getchar` for an interrupt is
-- `none`. A character is its code.
pub mod Queue
mod Examples
use thunity_os.Base.{
  ℕ, ◌+◌, ◌%◌, Bool, true, false, not, ◌||◌, Option, none, some, List, [], ◌∷◌, get_or, set, leb,
  ◌==◌, if◌then◌else◌,
}

abbrev pub buf_size : ℕ
buf_size = 128

pub record Keyboard : Type 0 where
  pub buffer : List ℕ
  pub head : ℕ
  pub tail : ℕ
  pub shift_down : Bool

-- US QWERTY, scan code set 1; the rest of the 128 entries are 0.
abbrev pub scancode_map : List ℕ
scancode_map =
    0 ∷ 27 ∷ 49 ∷ 50 ∷ 51 ∷ 52 ∷ 53 ∷ 54 ∷ 55 ∷ 56 ∷ 57 ∷ 48 ∷ 45 ∷ 61 ∷ 8 ∷ 9 ∷ 113 ∷ 119 ∷ 101
    ∷ 114 ∷ 116 ∷ 121 ∷ 117 ∷ 105 ∷ 111 ∷ 112 ∷ 91 ∷ 93 ∷ 10 ∷ 0 ∷ 97 ∷ 115 ∷ 100 ∷ 102 ∷ 103 ∷ 104
    ∷ 106 ∷ 107 ∷ 108 ∷ 59 ∷ 39 ∷ 96 ∷ 0 ∷ 92 ∷ 122 ∷ 120 ∷ 99 ∷ 118 ∷ 98 ∷ 110 ∷ 109 ∷ 44 ∷ 46 ∷ 47
    ∷ 0 ∷ 42 ∷ 0 ∷ 32 ∷ []

abbrev pub scancode_map_shift : List ℕ
scancode_map_shift =
    0 ∷ 27 ∷ 33 ∷ 64 ∷ 35 ∷ 36 ∷ 37 ∷ 94 ∷ 38 ∷ 42 ∷ 40 ∷ 41 ∷ 95 ∷ 43 ∷ 8 ∷ 9 ∷ 81 ∷ 87 ∷ 69 ∷ 82
    ∷ 84 ∷ 89 ∷ 85 ∷ 73 ∷ 79 ∷ 80 ∷ 123 ∷ 125 ∷ 10 ∷ 0 ∷ 65 ∷ 83 ∷ 68 ∷ 70 ∷ 71 ∷ 72 ∷ 74 ∷ 75 ∷ 76
    ∷ 58 ∷ 34 ∷ 126 ∷ 0 ∷ 124 ∷ 90 ∷ 88 ∷ 67 ∷ 86 ∷ 66 ∷ 78 ∷ 77 ∷ 60 ∷ 62 ∷ 63 ∷ 0 ∷ 42 ∷ 0 ∷ 32
    ∷ []

unfoldable pub buffer_push : Keyboard → ℕ → Keyboard
buffer_push k c =
    let after = (k.head + 1) % buf_size in
    if not (after == k.tail) then record k { buffer = set k.buffer k.head c; head = after } else k

unfoldable pub keyboard_inject : Keyboard → ℕ → Keyboard
keyboard_inject k c = if not (c == 0) then buffer_push k c else k

-- The handler on a scan code, a byte; from 128 on it is the release of a key.
unfoldable pub keyboard_callback : Keyboard → ℕ → Keyboard
keyboard_callback k scancode =
    let c = get_or (if k.shift_down then scancode_map_shift else scancode_map) scancode 0 in
    if scancode == 0x2A || scancode == 0x36
    then record k { shift_down = true }
    else if scancode == 0xAA || scancode == 0xB6
    then record k { shift_down = false }
    else if leb 128 scancode
    then k
    else if not (c == 0)
    then buffer_push k c
    else k

unfoldable pub keyboard_init : Keyboard → Keyboard
keyboard_init k = record k { head = 0; tail = 0; shift_down = false }

-- What a read does once a character is there.
abbrev pub take_char : Keyboard → ℕ × Keyboard
take_char k = (get_or k.buffer k.tail 0, record k { tail = (k.tail + 1) % buf_size })

unfoldable pub keyboard_getchar : Keyboard → Option (ℕ × Keyboard)
keyboard_getchar k = if k.head == k.tail then none else some (take_char k)

unfoldable pub keyboard_haskey : Keyboard → Bool
keyboard_haskey k = not (k.head == k.tail)

-- 0 if no key is pending.
unfoldable pub keyboard_trygetchar : Keyboard → ℕ × Keyboard
keyboard_trygetchar k = if k.head == k.tail then (0, k) else take_char k
