-- ===== src/Mouse/Examples.antt =====
-- Tests of the mouse of kernel/drivers/mouse.c, on a screen of 800 by 600.
use thunity_os.Base.{◌≡◌, refl, false, [], ◌∷◌, ◌++◌, length, arith}
use thunity_os.Mouse.{Mouse, take_packet, mouse_cb, mouse_init, mouse_inject}
use thunity_os.Mouse.Pointer.{
  IsPointer, here, next, interrupt, inject, Reachable-IsPointer, bytes_in, Follows,
  bytes_in-Follows,
}

abbrev unset : Mouse
unset = record {
  gx = 0;
  gy = 0;
  gbtn = 0;
  gdirty = false;
  sw = 0;
  sh = 0;
  pkt = 0 ∷ 0 ∷ 0 ∷ [];
  idx = 0;
}

abbrev ready : Mouse
ready = (mouse_init unset 800 600 0x21 0xFF 0xFF).0

at_rest : ready.gx ≡ 400
unfolding mouse_init
at_rest = refl

three_bytes : length ready.pkt ≡ 3
unfolding mouse_init
three_bytes = refl

starts : ready.idx ≡ 0
unfolding mouse_init
starts = refl

-- Left by 2, up by 3, with the left button.
left_and_up :
    bytes_in ready (0x19 ∷ 254 ∷ 3 ∷ [])
    ≡ record ready { gx = 398; gy = 297; gbtn = 1; pkt = 0x19 ∷ 254 ∷ 3 ∷ [] }
unfolding bytes_in mouse_cb take_packet mouse_init
left_and_up = refl

Reachable-IsPointer_example : IsPointer (mouse_inject (mouse_cb ready 8) (900, 0) (0, 5) 1)
Reachable-IsPointer_example =
    Reachable-IsPointer unset 800 600 0x21 0xFF 0xFF
      (mouse_inject (mouse_cb ready 8) (900, 0) (0, 5) 1) refl (omega arith) (omega arith)
      (next (next here (interrupt 8)) (inject (900, 0) (0, 5) 1))

bytes_in-Follows_example :
    Follows ready 0x19 254 3 (bytes_in ready ((0xF0 ∷ 2 ∷ []) ++ (0x19 ∷ 254 ∷ 3 ∷ [])))
unfolding mouse_init
bytes_in-Follows_example =
    bytes_in-Follows ready (0xF0 ∷ 2 ∷ []) 0x19 254 3 three_bytes starts (refl, (refl, tt)) refl
      (omega arith) (omega arith) (omega arith)
