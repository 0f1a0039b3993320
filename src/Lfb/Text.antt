-- ===== src/Lfb/Text.antt =====
-- Text and scrolling of kernel/drivers/lfb.c: `lfb_char`, `lfb_text` and `lfb_scroll_up`. The font, which
-- kernel/drivers/gfx.c reads from the VGA card at the start, is a parameter: a byte for a row of a character.
use thunity_os.Base.{
  ℕ, zero, suc, ◌+◌, ◌-◌, ◌*◌, ◌/◌, ◌%◌, ◌^◌, Bool, List, [], ◌∷◌, ◌==◌, if◌then◌else◌,
}
use thunity_os.Base.Int.{ℤ, pos, pos_part, ◌+ℤ◌, ◌-ℤ◌, leb_ℤ}
use thunity_os.Lfb.{Lfb, put_word, lfb_fill}

-- A dot of the character, of `s` by `s` pixels. A negative background is not drawn.
unfoldable pub char_dot : Lfb → ℤ → ℤ → Bool → ℕ → ℤ → ℕ → Lfb
char_dot fb x y set fg bg s =
    if set
    then lfb_fill fb x y (pos s) (pos s) fg
    else if leb_ℤ (pos 0) bg
    then lfb_fill fb x y (pos s) (pos s) (pos_part bg)
    else fb

-- The columns from `c` on of row `r`, with `left` columns left.
unfoldable pub char_row : ℕ → ℕ → ℕ → ℕ → Lfb → ℤ → ℤ → ℕ → ℤ → ℕ → Lfb
char_row zero c r bits fb x y fg bg s = fb
char_row (suc left) c r bits fb x y fg bg s =
    char_row left (c + 1) r bits
      (char_dot fb (x +ℤ pos (c * s)) (y +ℤ pos (r * s)) (bits / 2 ^ (7 - c) % 2 == 1) fg bg s) x y
      fg bg s

unfoldable pub char_rows : ℕ → ℕ → (ℕ → ℕ) → Lfb → ℤ → ℤ → ℕ → ℤ → ℕ → Lfb
char_rows zero r glyph fb x y fg bg s = fb
char_rows (suc left) r glyph fb x y fg bg s =
    char_rows left (r + 1) glyph (char_row 8 0 r (glyph r) fb x y fg bg s) x y fg bg s

module _ (gfx_glyph : ℕ → ℕ → ℕ) where
  unfoldable pub lfb_char : Lfb → ℤ → ℤ → ℕ → ℕ → ℤ → ℕ → Lfb
  lfb_char fb x y ch fg bg s = char_rows 16 0 (gfx_glyph ch) fb x y fg bg s

  unfoldable pub lfb_text : Lfb → ℤ → ℤ → List ℕ → ℕ → ℤ → ℕ → Lfb
  lfb_text fb x y [] fg bg s = fb
  lfb_text fb x y (ch ∷ str) fg bg s =
      lfb_text (lfb_char fb x y ch fg bg s) (x +ℤ pos (8 * s)) y str fg bg s

-- `left` words from `i` on, each copied from `from` on to `to` on.
unfoldable pub copy_row : ℕ → ℕ → ℕ → ℕ → (ℕ → ℕ) → ℕ → ℕ
copy_row zero i to from m = m
copy_row (suc left) i to from m = copy_row left (i + 1) to from (put_word m (to + i) (m (from + i)))

unfoldable pub copy_rows : ℕ → ℕ → Lfb → ℕ → ℕ → ℕ → ℕ → (ℕ → ℕ) → ℕ → ℕ
copy_rows zero j fb x y w dy m = m
copy_rows (suc left) j fb x y w dy m =
    copy_rows left (j + 1) fb x y w dy
      (copy_row w 0 ((y + j) * fb.pitch_px + x) ((y + j + dy) * fb.pitch_px + x) m)

-- The corner of the rectangle and its sizes are not negative here.
unfoldable pub lfb_scroll_up : Lfb → ℕ → ℕ → ℕ → ℕ → ℕ → ℕ → Lfb
lfb_scroll_up fb x y w h dy rgb =
    lfb_fill (record fb { px = copy_rows (h - dy) 0 fb x y w dy fb.px }) (pos x)
      (pos (y + h) -ℤ pos dy) (pos w) (pos dy) rgb
