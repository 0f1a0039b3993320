-- ===== src/Keyboard/Examples.antt =====
-- Tests of the keyboard's ring of kernel/drivers/keyboard.c: the key A on a buffer that is empty.
use thunity_os.Base.{ℕ, ◌≡◌, refl, false, [], replicate, length-replicate}
use thunity_os.Keyboard.{
  Keyboard, keyboard_init, keyboard_callback, keyboard_trygetchar, keyboard_getchar, buffer_push,
}
use thunity_os.Keyboard.Queue.{
  Represents, typed, ReadOk, keyboard_init-Represents, keyboard_callback-Represents,
  keyboard_getchar-ReadOk,
}

abbrev empty : Keyboard
empty = keyboard_init (record { buffer = replicate 128 0; head = 5; tail = 9; shift_down = false })

empty-Represents : Represents empty []
empty-Represents =
    keyboard_init-Represents
      (record { buffer = replicate 128 0; head = 5; tail = 9; shift_down = false })
      (length-replicate {A = ℕ} 128 0)

-- Shift down, A, shift up, A.
types_aa :
    (keyboard_trygetchar
      (keyboard_callback (keyboard_callback (keyboard_callback empty 0x2A) 0x1E) 0xAA)).0
    ≡ 65
unfolding keyboard_init keyboard_callback buffer_push keyboard_trygetchar
types_aa = refl

keyboard_callback_example :
    Represents (keyboard_callback empty 0x1E) (typed empty.shift_down 0x1E [])
keyboard_callback_example = keyboard_callback-Represents empty [] 0x1E empty-Represents

keyboard_getchar_example :
    ReadOk (typed empty.shift_down 0x1E []) (keyboard_getchar (keyboard_callback empty 0x1E))
keyboard_getchar_example =
    keyboard_getchar-ReadOk (keyboard_callback empty 0x1E) (typed empty.shift_down 0x1E [])
      (keyboard_callback-Represents empty [] 0x1E empty-Represents)
