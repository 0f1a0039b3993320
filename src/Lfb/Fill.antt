-- ===== src/Lfb/Fill.antt =====
-- What `lfb_fill` of kernel/drivers/lfb.c draws, and that it draws nothing else.
use thunity_os.Base.{
  ℕ, zero, suc, ◌+◌, ◌*◌, ◌^◌, ◌≤◌, ◌<◌, ◌≡◌, refl, ap, ◌∙◌, Bool, ◌&&◌, ltb, leb, ◌==◌,
  if◌then◌else◌, Bool-cases, ==→eq, inl, inr, arith,
}
use thunity_os.Base.Int.{ℤ, IsInt, pos, pos_part, ◌+ℤ◌, ◌-ℤ◌, ltb_ℤ, abs}
use thunity_os.Lfb.{Lfb, fill_row, fill_rows, clip_size, lfb_fill}
use thunity_os.Lfb.Clip.{covers, clip_size_lem, clip_size-le, fill_row_lem, row_hit}

-- A row of the rectangle, as a test on the pixel.
fill_row_hit :
    (w r x pitch rgb : ℕ) (m : ℕ → ℕ) (b a : ℕ)
    → a < pitch
    → x + w ≤ pitch
    → fill_row w 0 (r * pitch + x) rgb m (b * pitch + a)
      ≡ (if (r == b) && leb x a && ltb a (x + w) then rgb else m (b * pitch + a))
fill_row_hit w r x pitch rgb m b a lt le =
    ground
      (arith, fill_row_lem w 0 (r * pitch + x) rgb m (b * pitch + a), row_hit pitch r x w b a lt le)

fill_rows_lem :
    (left j x y w pitch rgb : ℕ) (m : ℕ → ℕ) (b a : ℕ)
    → a < pitch
    → x + w ≤ pitch
    → fill_rows left j x y w pitch rgb m (b * pitch + a) ≡ (
        if leb (y + j) b && ltb b (y + (j + left)) && leb x a && ltb a (x + w)
        then rgb
        else m (b * pitch + a))
unfolding fill_rows
fill_rows_lem zero j x y w pitch rgb m b a lt le = ground arith
fill_rows_lem (suc left) j x y w pitch rgb m b a lt le = ground (
  arith,
  fill_rows_lem left (j + 1) x y w pitch rgb (fill_row w 0 ((y + j) * pitch + x) rgb m) b a lt le,
  fill_row_hit w (y + j) x pitch rgb m b a lt le,
)

fill_rows_empty :
    (left j x y pitch rgb : ℕ) (m : ℕ → ℕ) (k : ℕ) → fill_rows left j x y 0 pitch rgb m k ≡ m k
unfolding fill_rows fill_row
fill_rows_empty zero j x y pitch rgb m k = refl
fill_rows_empty (suc left) j x y pitch rgb m k = fill_rows_empty left (j + 1) x y pitch rgb m k

-- The pixel is on the screen and in the rectangle.
abbrev pub in_rectangle : Lfb → ℤ → ℤ → ℤ → ℤ → ℕ → ℕ → Bool
in_rectangle fb x y w h a b = ltb a fb.width && covers x w a && (ltb b fb.height && covers y h b)

-- On integers without bounds.
pub fill_pixels :
    (fb : Lfb) (x y w h : ℤ) (rgb a b : ℕ)
    → fb.width ≤ fb.pitch_px
    → a < fb.pitch_px
    → (lfb_fill fb x y w h rgb).px (b * fb.pitch_px + a)
      ≡ (if in_rectangle fb x y w h a b then rgb else fb.px (b * fb.pitch_px + a))
unfolding lfb_fill
fill_pixels fb x y w h rgb a b wide lt =
    let across = clip_size_lem fb.width x w a in
    let down = clip_size_lem fb.height y h b in
    let rows = pos_part (clip_size fb.height y h) in
    let columns = pos_part (clip_size fb.width x w) in
    let k = b * fb.pitch_px + a in
    elim (Bool-cases (columns == 0)) [
      | inl e ↦
          let none_wide : columns ≡ 0 = ==→eq columns 0 e in
          let same = fill_rows_empty rows 0 (pos_part x) (pos_part y) fb.pitch_px rgb fb.px k in
          ap (λ n. fill_rows rows 0 (pos_part x) (pos_part y) n fb.pitch_px rgb fb.px k) none_wide
          ∙ ground (arith, same, across, none_wide)
      | inr e ↦
          let inside = clip_size-le fb.width x w (λ z. ground (arith, e, z)) in
          ground (
            arith,
            fill_rows_lem rows 0 (pos_part x) (pos_part y) columns fb.pitch_px rgb fb.px b a lt
                (omega (arith, inside, wide)),
            across,
            down,
          )
    ]

-- The two sums and the difference of the clipping in one direction are ints.
abbrev pub SumsFit : ℕ → ℤ → ℤ → Type 0
SumsFit limit x w =
    let w1 = if ltb_ℤ x (pos 0) then w +ℤ x else w in
    let x1 = pos (pos_part x) in IsInt (w +ℤ x) × IsInt (x1 +ℤ w1) × IsInt (pos limit -ℤ x1)

pub clip_size-SumsFit :
    (limit : ℕ) (x w : ℤ) → limit < 2 ^ 30 → abs x < 2 ^ 30 → abs w < 2 ^ 30 → SumsFit limit x w
unfolding ◌+ℤ◌ ◌-ℤ◌
clip_size-SumsFit limit x w ll lx lw = ground (arith, ll, lx, lw)

-- Where the rows of the screen do not overlap, their words are below 2 ^ 31, and the place, the sizes and the
-- screen are below 2 ^ 30, positive or negative, no sum of the clipping overflows an int, and `lfb_fill` gives the colour to exactly the pixels of
-- the rectangle that are on the screen and changes no other word of memory.
pub lfb_fill_lem :
    (fb : Lfb) (x y w h : ℤ) (rgb a b : ℕ)
    → fb.width ≤ fb.pitch_px
    → a < fb.pitch_px
    → fb.width < 2 ^ 30
    → fb.height < 2 ^ 30
    → fb.height * fb.pitch_px < 2 ^ 31
    → abs x < 2 ^ 30
    → abs y < 2 ^ 30
    → abs w < 2 ^ 30
    → abs h < 2 ^ 30
    → SumsFit fb.width x w
      × SumsFit fb.height y h
      × ((lfb_fill fb x y w h rgb).px (b * fb.pitch_px + a)
          ≡ (if in_rectangle fb x y w h a b then rgb else fb.px (b * fb.pitch_px + a)))
lfb_fill_lem fb x y w h rgb a b wide lt lw lh words hx hy hw hh = (
  clip_size-SumsFit fb.width x w lw hx hw,
  clip_size-SumsFit fb.height y h lh hy hh,
  fill_pixels fb x y w h rgb a b wide lt,
)
