-- ===== src/Vga/Typing.antt =====
-- What a printing character does to the cells of kernel/drivers/vga.c.
use thunity_os.Base.{
  ℕ, ◌+◌, ◌*◌, ◌<◌, ◌≡◌, refl, ◌∙◌, get_or, get_or-set, set, length-set, ltb, leb, bit_or, ==→eq,
  ◌||◌, ◌^◌, ◌==◌, if◌then◌else◌, Bool-cases, inl, inr, true, false, arith,
}
use thunity_os.Base.Tables.{all_below, all_below_sound}
use thunity_os.Vga.{
  vga_width, vga_height, Vga, vga_entry, vga_move_cursor, vga_scroll, put_code, wrap, vga_putc,
}
use thunity_os.Vga.Cells.{area, vga_scroll_corner, cells-vga_scroll, color-vga_scroll}
use thunity_os.Vga.Screen.{IsScreen}

-- The two bytes of a cell, for every character and colour.
cell_table : all_below 128 (λ c. all_below 256 (λ d. bit_or c (d * 2 ^ 8) == c + d * 2 ^ 8)) ≡ true
unfolding all_below
cell_table = refl

or_apart : (c d : ℕ) → c < 128 → d < 256 → bit_or c (d * 2 ^ 8) ≡ c + d * 2 ^ 8
or_apart c d hc hd = ==→eq _ _ (
    all_below_sound 256 (λ d. bit_or c (d * 2 ^ 8) == c + d * 2 ^ 8) d
      (all_below_sound 128 (λ c. all_below 256 (λ d. bit_or c (d * 2 ^ 8) == c + d * 2 ^ 8)) c
        cell_table hc)
      hd)

-- The low byte of a cell is the character and the high byte the colour.
vga_entry-sum : (c color : ℕ) → c < 128 → color < 256 → vga_entry c color ≡ c + color * 256
vga_entry-sum c color lt colors =
    let ascii : ltb c 128 ≡ true = ground (arith, lt) in
    let whole = or_apart c color lt colors in rw (ascii, whole) (omega (arith, lt, colors))

-- Before the cell of the position: what a printing character leaves in the cells.
abbrev pub typed : Vga → ℕ → ℕ → ℕ
typed v c k = if v.row * vga_width + v.col == k then c + v.color * 256 else get_or v.cells k 0

-- The cells after a printing character, and the new position: where the character was the last one of the
-- screen, every row has moved up and the last one is blank.
pub record IsTyped (v : Vga) (c : ℕ) (v' : Vga) : Type 0 where
  pub cell :
      (k : ℕ)
      → k < area
      → get_or v'.cells k 0 ≡ (
          if v.row * vga_width + v.col + 1 == area
          then (if ltb k 1920 then typed v c (k + vga_width) else 32 + v.color * 256)
          else typed v c k)
  pub position :
      v'.row * vga_width + v'.col
      ≡ (if v.row * vga_width + v.col + 1 == area then 1920 else v.row * vga_width + v.col + 1)
  pub same_color : v'.color ≡ v.color

-- The character is in the cells, and the position is one column further, before the wrap.
abbrev put_plain : Vga → ℕ → Vga
put_plain v c = record v {
  cells = set v.cells (v.row * vga_width + v.col) (vga_entry c v.color);
  col = v.col + 1;
}

put_code-plain :
    (v : Vga) (c : ℕ)
    → (c == 10) || (c == 13) || (c == 9) || (c == 8) ≡ false
    → put_code v c ≡ put_plain v c
unfolding put_code
put_code-plain v c plain =
    let n10 : (c == 10) ≡ false = ground (arith, plain) in
    let n13 : (c == 13) ≡ false = ground (arith, plain) in
    let n9 : (c == 9) ≡ false = ground (arith, plain) in
    let n8 : (c == 8) ≡ false = ground (arith, plain) in rw (n10, n13, n9, n8) refl

-- What follows the switch.
abbrev settle : Vga → Vga
settle v = vga_move_cursor (if leb vga_height v.row then vga_scroll v else v)

module _ (v : Vga) (c : ℕ) (s : IsScreen v) (lt : c < 128) (colors : v.color < 256) where
  cells-put_plain : (k : ℕ) → get_or (put_plain v c).cells k 0 ≡ typed v c k
  cells-put_plain k =
      get_or-set v.cells (v.row * vga_width + v.col) k (vga_entry c v.color) 0
        (omega (arith, s.whole, s.row_in, s.col_in))
      ∙ rw (vga_entry-sum c v.color lt colors) refl

  same_row-IsTyped : v.col + 1 < vga_width → IsTyped v c (settle (put_plain v c))
  unfolding vga_move_cursor
  same_row-IsTyped less =
      let low : leb vga_height v.row ≡ false = ground (arith, s.row_in) in
      let more : (v.row * vga_width + v.col + 1 == area) ≡ false = ground (arith, less, s.row_in) in
      rw low (record {
        cell = λ k h. ground (arith, more, cells-put_plain k);
        position = ground (arith, more);
        same_color = refl;
      })

  abbrev next_row : Vga
  next_row = record (put_plain v c) { col = 0; row = v.row + 1 }

  next_row-IsTyped : v.col + 1 ≡ vga_width → v.row + 1 < vga_height → IsTyped v c (settle next_row)
  unfolding vga_move_cursor
  next_row-IsTyped last less =
      let low : leb vga_height (v.row + 1) ≡ false = ground (arith, less) in
      let more : (v.row * vga_width + v.col + 1 == area) ≡ false = ground (arith, less, last) in
      rw low (record {
        cell = λ k h. ground (arith, more, cells-put_plain k);
        position = ground (arith, more, last);
        same_color = refl;
      })

  scrolled-IsTyped : v.col + 1 ≡ vga_width → v.row + 1 ≡ vga_height → IsTyped v c (settle next_row)
  unfolding vga_move_cursor
  scrolled-IsTyped last bottom =
      let high : leb vga_height (v.row + 1) ≡ true = ground (arith, bottom) in
      let full : (v.row * vga_width + v.col + 1 == area) ≡ true = ground (arith, last, bottom) in
      let (row, col) = vga_scroll_corner next_row in
      rw high (record {
        cell = λ k h. ground (
          arith,
          full,
          vga_entry-sum 32 v.color (omega arith) colors,
          cells-vga_scroll next_row k (length-set v.cells _ _ ∙ s.whole) h,
          cells-put_plain (k + vga_width),
        );
        position = ground (arith, full, row, col);
        same_color = color-vga_scroll next_row;
      })

-- On a screen whose colour is a byte, a character below 128 other than the four control characters is put at the position, the
-- character in the low byte of the cell and the colour in the high one,
-- and the position moves to the next cell in reading order, or, after the last cell of the screen, the
-- rows move up and it is the beginning of a blank last row. No other cell changes.
pub vga_putc-IsTyped :
    (v : Vga) (c : ℕ)
    → IsScreen v
    → (c == 10) || (c == 13) || (c == 9) || (c == 8) ≡ false
    → c < 128
    → v.color < 256
    → IsTyped v c (vga_putc v c)
unfolding vga_putc wrap
vga_putc-IsTyped v c s plain lt colors =
    rw (put_code-plain v c plain) (elim (Bool-cases (leb vga_width (v.col + 1))) [
      | inl e ↦
          let last : v.col + 1 ≡ vga_width = ground (arith, e, s.col_in) in
          rw e (elim (Bool-cases (ltb (v.row + 1) vga_height)) [
            | inl more ↦ next_row-IsTyped v c s lt colors last (ground (arith, more))
            | inr ge ↦ scrolled-IsTyped v c s lt colors last (ground (arith, ge, s.row_in))
          ])
      | inr e ↦ rw e (same_row-IsTyped v c s lt colors (ground (arith, e)))
    ])
