-- ===== src/Mouse.antt =====
-- kernel/drivers/mouse.c: packets of three bytes that move a pointer over the screen. The bytes that ports give
-- are arguments, writes to ports are a list, last write first, and the waits for the controller are left
-- out. A position is never negative, so that the test against 0 is a subtraction that stops there; sums
-- are far from the bounds of an int.
pub mod Pointer
mod Examples
use thunity_os.Base.{
  ℕ, ◌+◌, ◌-◌, ◌/◌, ◌^◌, Bool, true, false, not, ◌&&◌, ◌||◌, List, [], ◌∷◌, get_or, set, min,
  bit_and, bit_or, ltb, ◌==◌, if◌then◌else◌,
}

pub record Mouse : Type 0 where
  pub gx : ℕ
  pub gy : ℕ
  pub gbtn : ℕ
  pub gdirty : Bool
  pub sw : ℕ
  pub sh : ℕ
  pub pkt : List ℕ
  pub idx : ℕ

-- A bit of a byte is set.
abbrev pub has_bit : ℕ → ℕ → Bool
has_bit b mask = not (bit_and b mask == 0)

-- `v` by `plus` up and `minus` down, kept in [0, size - 1]; `size` is at least 1.
abbrev pub moved : ℕ → ℕ → ℕ → ℕ → ℕ
moved size v plus minus = min (v + plus - minus) (size - 1)

-- What a whole packet does.
unfoldable pub take_packet : Mouse → Mouse
take_packet m =
    let b0 = get_or m.pkt 0 0 in
    let b1 = get_or m.pkt 1 0 in
    let b2 = get_or m.pkt 2 0 in
    record m {
      gx = moved m.sw m.gx b1 (if has_bit b0 0x10 then 256 else 0);
      gy = moved m.sh m.gy (if has_bit b0 0x20 then 256 else 0) b2;
      gbtn = bit_and b0 7;
      gdirty = true;
    }

-- The handler, on the byte that the port gives.
unfoldable pub mouse_cb : Mouse → ℕ → Mouse
mouse_cb m b =
    if (m.idx == 0) && not (has_bit b 8)
    then m
    else let m1 = record m { pkt = set m.pkt m.idx b; idx = m.idx + 1 } in
      if ltb m1.idx 3 then m1 else take_packet (record m1 { idx = 0 })

abbrev mouse_cmd : ℕ → List (ℕ × ℕ) → List (ℕ × ℕ)
mouse_cmd v out = (0x60, v) ∷ (0x64, 0xD4) ∷ out

-- On the configuration byte of the controller and the masks of the two interrupt chips: the state, and
-- what is written to ports. That `mouse_cb` becomes the handler of IRQ 12 is a call of
-- `irq_register_handler`, which Interrupts has.
unfoldable pub mouse_init : Mouse → ℕ → ℕ → ℕ → ℕ → ℕ → Mouse × List (ℕ × ℕ)
mouse_init m screen_w screen_h cfg m2 m1 =
    let cfg' = bit_and (bit_or cfg 0x02) (0xFF - 0x20) in
    let out = (0x60, cfg') ∷ (0x64, 0x60) ∷ (0x64, 0x20) ∷ (0x64, 0xA8) ∷ [] in
    (
      record m {
        sw = screen_w;
        sh = screen_h;
        gx = screen_w / 2;
        gy = screen_h / 2;
        gbtn = 0;
        idx = 0;
        gdirty = true;
      },
      (0x21, bit_and m1 (0xFF - 2 ^ 2))
          ∷ (0xA1, bit_and m2 (0xFF - 2 ^ 4))
          ∷ mouse_cmd 0xF4 (mouse_cmd 0xF6 out),
    )

unfoldable pub mouse_x : Mouse → ℕ
mouse_x m = m.gx

unfoldable pub mouse_y : Mouse → ℕ
mouse_y m = m.gy

unfoldable pub mouse_left : Mouse → ℕ
mouse_left m = bit_and m.gbtn 1

unfoldable pub mouse_take_event : Mouse → Bool × Mouse
mouse_take_event m = if m.gdirty then (true, record m { gdirty = false }) else (false, m)

-- A movement, one of `plus` and `minus` being 0 in each direction.
unfoldable pub mouse_inject : Mouse → ℕ × ℕ → ℕ × ℕ → ℕ → Mouse
mouse_inject m dx dy buttons = if (m.sw == 0) || (m.sh == 0) then m else record m {
  gx = moved m.sw m.gx dx.0 dx.1;
  gy = moved m.sh m.gy dy.0 dy.1;
  gbtn = bit_and buttons 7;
  gdirty = true;
}
