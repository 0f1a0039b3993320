-- ===== src/Vga.antt =====
-- kernel/drivers/vga.c: the text console of 80 by 25 cells. The video memory is the list of its cells, and what
-- the cursor ports were last given is the position `cursor`.
pub mod Cells
pub mod Screen
pub mod Typing
mod Examples
use thunity_os.Base.{
  ℕ, zero, suc, ◌+◌, ◌-◌, ◌*◌, ◌/◌, ◌%◌, ◌^◌, Bool, true, false, ◌&&◌, ◌||◌, List, [], ◌∷◌, get_or,
  set, u8, u16, bit_or, ltb, leb, ◌==◌, if◌then◌else◌,
}

abbrev pub vga_width : ℕ
vga_width = 80

abbrev pub vga_height : ℕ
vga_height = 25

pub record Vga : Type 0 where
  pub cells : List ℕ
  pub row : ℕ
  pub col : ℕ
  pub color : ℕ
  pub cursor : ℕ

-- `c` is the byte of a `char`, whose sign is bit 7: the cast to 16 bits extends it over the colour.
abbrev pub vga_entry : ℕ → ℕ → ℕ
vga_entry c color = u16 (bit_or (if ltb c 128 then c else c + 0xFF00) (color * 2 ^ 8))

unfoldable pub vga_move_cursor : Vga → Vga
vga_move_cursor v =
    let pos = u16 (v.row * vga_width + v.col) in
    record v { cursor = pos % 2 ^ 8 + pos / 2 ^ 8 % 2 ^ 8 * 2 ^ 8 }

unfoldable pub vga_set_color : Vga → ℕ → ℕ → Vga
vga_set_color v fg bg = record v { color = u8 (bit_or fg (bg * 2 ^ 4)) }

unfoldable pub vga_get_color : Vga → ℕ
vga_get_color v = v.color

-- `left` cells from `i` on are given the blank.
unfoldable pub blank_loop : ℕ → ℕ → ℕ → List ℕ → List ℕ
blank_loop zero i blank cells = cells
blank_loop (suc left) i blank cells = blank_loop left (i + 1) blank (set cells i blank)

unfoldable pub vga_clear : Vga → Vga
vga_clear v = vga_move_cursor (record v {
  cells = blank_loop (vga_height * vga_width) 0 (vga_entry 32 v.color) v.cells;
  row = 0;
  col = 0;
})

unfoldable pub vga_init : Vga → Vga
vga_init v = vga_clear (vga_set_color v 7 0)

-- `left` cells from `i` on are each given the one a row below.
unfoldable pub scroll_loop : ℕ → ℕ → List ℕ → List ℕ
scroll_loop zero i cells = cells
scroll_loop (suc left) i cells =
    scroll_loop left (i + 1) (set cells i (get_or cells (i + vga_width) 0))

unfoldable pub vga_scroll : Vga → Vga
vga_scroll v =
    let moved = scroll_loop ((vga_height - 1) * vga_width) 0 v.cells in
    record v {
      cells = blank_loop vga_width ((vga_height - 1) * vga_width) (vga_entry 32 v.color) moved;
      row = vga_height - 1;
    }

-- The `switch` of `vga_putc`.
unfoldable pub put_code : Vga → ℕ → Vga
put_code v c =
    if c == 10
    then record v { col = 0; row = v.row + 1 }
    else if c == 13
    then record v { col = 0 }
    else if c == 9
    then record v { col = (v.col + 4) / 4 * 4 }
    else if c == 8
    then if ltb 0 v.col
      then record v {
        col = v.col - 1;
        cells = set v.cells (v.row * vga_width + (v.col - 1)) (vga_entry 32 v.color);
      }
      else v
    else record v {
      cells = set v.cells (v.row * vga_width + v.col) (vga_entry c v.color);
      col = v.col + 1;
    }

unfoldable pub wrap : Vga → Vga
wrap v = if leb vga_width v.col then record v { col = 0; row = v.row + 1 } else v

unfoldable pub vga_putc : Vga → ℕ → Vga
vga_putc v c =
    let v1 = wrap (put_code v c) in
    vga_move_cursor (if leb vga_height v1.row then vga_scroll v1 else v1)

-- On the characters of the string.
unfoldable pub vga_write : Vga → List ℕ → Vga
vga_write v [] = v
vga_write v (c ∷ s) = vga_write (vga_putc v c) s
