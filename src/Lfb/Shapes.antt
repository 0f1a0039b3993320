-- ===== src/Lfb/Shapes.antt =====
-- The shapes of kernel/drivers/lfb.c that are drawn from rectangles and single pixels: gradients, rounded
-- rectangles, discs and lines.
pub mod Roots
pub mod Disc
pub mod Line
use thunity_os.Base.{
  ℕ, zero, suc, ◌+◌, ◌-◌, ◌*◌, ◌/◌, ◌%◌, ◌^◌, Bool, Option, none, some, bit_or, ◌&&◌, if◌then◌else◌,
}
use thunity_os.Base.Int.{
  ℤ, pos, negsuc, pos_part, ◌+ℤ◌, ◌-ℤ◌, ◌*ℤ◌, ltb_ℤ, leb_ℤ, eqb_ℤ, neg, div_ℤ,
}
use thunity_os.Lfb.{Lfb, lfb_pixel, lfb_fill}

-- An integer as a word of 32 bits.
abbrev pub word_of : ℤ → ℕ
word_of (pos n) = n % 2 ^ 32
word_of (negsuc n) = 2 ^ 32 - 1 - n % 2 ^ 32

-- A channel of the mix of two colours.
abbrev pub channel : ℕ → ℕ → ℤ → ℤ → ℤ
channel a b num den = pos a +ℤ div_ℤ ((pos b -ℤ pos a) *ℤ num) den

unfoldable pub lerp : ℕ → ℕ → ℤ → ℤ → ℕ
lerp a b num den =
    let r = channel (a / 2 ^ 16 % 256) (b / 2 ^ 16 % 256) num den in
    let g = channel (a / 2 ^ 8 % 256) (b / 2 ^ 8 % 256) num den in
    let bl = channel (a % 256) (b % 256) num den in
    bit_or (bit_or (word_of r * 2 ^ 16 % 2 ^ 32) (word_of g * 2 ^ 8 % 2 ^ 32)) (word_of bl)

unfoldable pub gradient_rows : ℕ → ℕ → Lfb → ℤ → ℤ → ℤ → ℤ → ℕ → ℕ → Lfb
gradient_rows zero j fb x y w h top bot = fb
gradient_rows (suc left) j fb x y w h top bot =
    let den = if ltb_ℤ (pos 1) h then h -ℤ pos 1 else pos 1 in
    gradient_rows left (j + 1) (lfb_fill fb x (y +ℤ pos j) w (pos 1) (lerp top bot (pos j) den)) x y
      w h top bot

unfoldable pub lfb_gradient_v : Lfb → ℤ → ℤ → ℤ → ℤ → ℕ → ℕ → Lfb
lfb_gradient_v fb x y w h top bot = gradient_rows (pos_part h) 0 fb x y w h top bot

-- The loop of `isqrt`. A round for each unit of `n` is enough. The code's square is an int, which holds it while
-- `x` is below 46340.
unfoldable pub isqrt_loop : ℕ → ℕ → ℤ → ℕ
isqrt_loop zero x n = x
isqrt_loop (suc fuel) x n =
    let rest = isqrt_loop fuel (x + 1) n in if leb_ℤ (pos ((x + 1) * (x + 1))) n then rest else x

unfoldable pub isqrt : ℤ → ℕ
isqrt n = isqrt_loop (pos_part n) 0 n

unfoldable pub corner_inset : ℤ → ℤ → ℤ → ℤ
corner_inset j h r =
    let dy =
      if ltb_ℤ j r
      then r -ℤ j
      else if leb_ℤ (h -ℤ r) j
      then r -ℤ (h -ℤ pos 1 -ℤ j)
      else neg (pos 1) in
    if ltb_ℤ dy (pos 0) then pos 0 else r -ℤ pos (isqrt (r *ℤ r -ℤ dy *ℤ dy))

unfoldable pub round_rows : ℕ → ℕ → Lfb → ℤ → ℤ → ℤ → ℤ → ℤ → ℕ → Lfb
round_rows zero j fb x y w h r rgb = fb
round_rows (suc left) j fb x y w h r rgb =
    let inset = corner_inset (pos j) h r in
    round_rows left (j + 1)
      (lfb_fill fb (x +ℤ inset) (y +ℤ pos j) (w -ℤ pos 2 *ℤ inset) (pos 1) rgb) x y w h r rgb

unfoldable pub lfb_round_fill : Lfb → ℤ → ℤ → ℤ → ℤ → ℤ → ℕ → Lfb
lfb_round_fill fb x y w h r rgb =
    let r1 = if ltb_ℤ h (r *ℤ pos 2) then div_ℤ h (pos 2) else r in
    let r2 = if ltb_ℤ w (r1 *ℤ pos 2) then div_ℤ w (pos 2) else r1 in
    round_rows (pos_part h) 0 fb x y w h r2 rgb

-- The rows of `lfb_disc` from `dy` on, with `left` rows left. The code's squares are ints, which hold that of a
-- radius up to 46340.
unfoldable pub disc_rows : ℕ → ℤ → Lfb → ℤ → ℤ → ℤ → ℕ → Lfb
disc_rows zero dy fb cx cy r rgb = fb
disc_rows (suc left) dy fb cx cy r rgb =
    let half = isqrt (r *ℤ r -ℤ dy *ℤ dy) in
    disc_rows left (dy +ℤ pos 1)
      (lfb_fill fb (cx -ℤ pos half) (cy +ℤ dy) (pos (2 * half + 1)) (pos 1) rgb) cx cy r rgb

unfoldable pub lfb_disc : Lfb → ℤ → ℤ → ℤ → ℕ → Lfb
lfb_disc fb cx cy r rgb = disc_rows (pos_part (r +ℤ r +ℤ pos 1)) (neg r) fb cx cy r rgb

-- The loop of `lfb_line`, with what it does not change before what it changes; `none` when the fuel ends. The
-- spans and the error term are ints in the code, and integers without bounds here.
unfoldable pub line_loop : ℕ → ℕ → ℕ → ℤ → ℤ → ℤ → ℤ → ℕ → ℤ → ℤ → ℤ → Lfb → Option Lfb
line_loop zero adx ady sx sy x1 y1 rgb x0 y0 err fb = none
line_loop (suc fuel) adx ady sx sy x1 y1 rgb x0 y0 err fb =
    let drawn = lfb_pixel fb x0 y0 rgb in
    let right = ltb_ℤ (neg (pos adx)) err in
    let down = ltb_ℤ err (pos ady) in
    let err1 = if right then err -ℤ pos ady else err in
    let err2 = if down then err1 +ℤ pos adx else err1 in
    let rest =
      line_loop fuel adx ady sx sy x1 y1 rgb (if right then x0 +ℤ sx else x0)
        (if down then y0 +ℤ sy else y0) err2 drawn in
    if eqb_ℤ x0 x1 && eqb_ℤ y0 y1 then some drawn else rest

unfoldable pub lfb_line : ℕ → Lfb → ℤ → ℤ → ℤ → ℤ → ℕ → Option Lfb
lfb_line fuel fb x0 y0 x1 y1 rgb =
    let dx = x1 -ℤ x0 in
    let dy = y1 -ℤ y0 in
    let adx = pos_part (if ltb_ℤ dx (pos 0) then neg dx else dx) in
    let ady = pos_part (if ltb_ℤ dy (pos 0) then neg dy else dy) in
    let sx = if ltb_ℤ dx (pos 0) then neg (pos 1) else pos 1 in
    let sy = if ltb_ℤ dy (pos 0) then neg (pos 1) else pos 1 in
    let err = div_ℤ (if ltb_ℤ (pos ady) (pos adx) then pos adx else neg (pos ady)) (pos 2) in
    line_loop fuel adx ady sx sy x1 y1 rgb x0 y0 err fb
