-- ===== src/Lfb.antt =====
-- kernel/drivers/lfb.c: drawing in the linear framebuffer. A pixel is a word at an index from `fbp` on, and the
-- pixels are a map from indices. Coordinates are integers without bounds, as the code's
-- ints are where its sums do not overflow.
pub mod Clip
pub mod Fill
pub mod Blit
pub mod Shapes
pub mod Start
pub mod Text
pub mod Within
mod Mapped
mod Examples
use thunity_os.Base.{
  ℕ, zero, suc, ◌+◌, ◌-◌, ◌*◌, ◌/◌, ◌%◌, ◌^◌, Bool, true, false, ◌&&◌, List, [], ◌∷◌, ltb, ◌==◌,
  if◌then◌else◌,
}
use thunity_os.Base.Int.{ℤ, pos, pos_part, ◌+ℤ◌, ◌-ℤ◌, ltb_ℤ, leb_ℤ}

pub record Lfb : Type 0 where
  pub fbp : ℕ
  pub width : ℕ
  pub height : ℕ
  pub pitch_px : ℕ
  pub active : Bool
  pub px : ℕ → ℕ

abbrev pub put_word : (ℕ → ℕ) → ℕ → ℕ → ℕ → ℕ
put_word m k v = λ q. if q == k then v else m q

-- `(unsigned)x < (unsigned)W`
abbrev pub in_bounds : ℤ → ℕ → Bool
in_bounds x limit = leb_ℤ (pos 0) x && ltb_ℤ x (pos limit)

-- The index of a pixel on the screen.
abbrev pub pixel_at : Lfb → ℤ → ℤ → ℕ
pixel_at fb x y = pos_part y * fb.pitch_px + pos_part x

unfoldable pub lfb_pixel : Lfb → ℤ → ℤ → ℕ → Lfb
lfb_pixel fb x y rgb =
    if in_bounds x fb.width && in_bounds y fb.height
    then record fb { px = put_word fb.px (pixel_at fb x y) rgb }
    else fb

-- `left` pixels from `base + i` on.
unfoldable pub fill_row : ℕ → ℕ → ℕ → ℕ → (ℕ → ℕ) → ℕ → ℕ
fill_row zero i base rgb m = m
fill_row (suc left) i base rgb m = fill_row left (i + 1) base rgb (put_word m (base + i) rgb)

unfoldable pub lfb_clear : Lfb → ℕ → Lfb
lfb_clear fb rgb = record fb { px = fill_row (fb.width * fb.height) 0 0 rgb fb.px }

-- The size after the clipping in one direction, where `x` becomes its positive part. The code's sums are ints.
unfoldable pub clip_size : ℕ → ℤ → ℤ → ℤ
clip_size limit x w =
    let w1 = if ltb_ℤ x (pos 0) then w +ℤ x else w in
    let x1 = pos (pos_part x) in if ltb_ℤ (pos limit) (x1 +ℤ w1) then pos limit -ℤ x1 else w1

-- The rows of `lfb_fill` at row `j`, with `left` rows left.
unfoldable pub fill_rows : ℕ → ℕ → ℕ → ℕ → ℕ → ℕ → ℕ → (ℕ → ℕ) → ℕ → ℕ
fill_rows zero j x y w pitch rgb m = m
fill_rows (suc left) j x y w pitch rgb m =
    fill_rows left (j + 1) x y w pitch rgb (fill_row w 0 ((y + j) * pitch + x) rgb m)

unfoldable pub lfb_fill : Lfb → ℤ → ℤ → ℤ → ℤ → ℕ → Lfb
lfb_fill fb x y w h rgb =
    let columns = pos_part (clip_size fb.width x w) in
    let rows = pos_part (clip_size fb.height y h) in
    record fb { px = fill_rows rows 0 (pos_part x) (pos_part y) columns fb.pitch_px rgb fb.px }

unfoldable pub lfb_rect : Lfb → ℤ → ℤ → ℤ → ℤ → ℕ → Lfb
lfb_rect fb x y w h rgb =
    let f1 = lfb_fill fb x y w (pos 1) rgb in
    let f2 = lfb_fill f1 x (y +ℤ h -ℤ pos 1) w (pos 1) rgb in
    let f3 = lfb_fill f2 x y (pos 1) h rgb in lfb_fill f3 (x +ℤ w -ℤ pos 1) y (pos 1) h rgb
