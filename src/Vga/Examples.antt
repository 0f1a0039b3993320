-- ===== src/Vga/Examples.antt =====
-- Tests of the text console of kernel/drivers/vga.c.
use thunity_os.Base.{ℕ, ◌≡◌, refl, get_or, replicate, length-replicate, arith}
use thunity_os.Vga.{Vga, vga_set_color, vga_get_color, put_code, vga_putc}
use thunity_os.Vga.Screen.{IsScreen}
use thunity_os.Vga.Typing.{IsTyped, vga_putc-IsTyped}

-- At the last cell of the screen.
abbrev corner : Vga
corner = record { cells = replicate 2000 0; row = 24; col = 79; color = 7; cursor = 1999 }

corner-IsScreen : IsScreen corner
corner-IsScreen = record {
  whole = length-replicate {A = ℕ} 2000 0;
  row_in = omega arith;
  col_in = omega arith;
  shown = refl;
}

white_on_red : vga_get_color (vga_set_color corner 15 4) ≡ 0x4F
unfolding vga_set_color vga_get_color
white_on_red = refl

a_tab : (put_code (record corner { col = 5 }) 9).col ≡ 8
unfolding put_code
a_tab = refl

-- A byte from 128 on is put with the colour 0xFF.
high_character : get_or (put_code corner 0x80).cells 1999 0 ≡ 0xFF80
unfolding put_code
high_character = refl

vga_putc-IsTyped_example : IsTyped corner 65 (vga_putc corner 65)
vga_putc-IsTyped_example =
    vga_putc-IsTyped corner 65 corner-IsScreen refl (omega arith) (omega arith)
