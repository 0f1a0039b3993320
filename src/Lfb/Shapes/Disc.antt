-- ===== src/Lfb/Shapes/Disc.antt =====
-- What `lfb_disc` of kernel/drivers/lfb.c draws.
use thunity_os.Base.{
  ℕ, zero, suc, ◌+◌, ◌-◌, ◌*◌, ◌^◌, ◌≤◌, ◌<◌, ◌≡◌, refl, ap, Bool, true, false, ◌&&◌, ltb, leb,
  if◌then◌else◌, Bool-cases, leb→le, inl, inr, arith,
}
use native.Mathlib.Nat.{mul-le-mul}
use thunity_os.Base.Int.{
  ℤ, pos, negsuc, pos_part, neg_part, ◌+ℤ◌, ◌-ℤ◌, ◌*ℤ◌, neg, abs, leb_ℤ, ltb_ℤ, eq_of_parts,
  +ℤ_parts, -ℤ_parts,
}
use thunity_os.Lfb.{Lfb, lfb_fill}
use thunity_os.Lfb.Clip.{covers}
use thunity_os.Lfb.Fill.{in_rectangle, fill_pixels, SumsFit, clip_size-SumsFit}
use thunity_os.Lfb.Shapes.{isqrt, disc_rows, lfb_disc}
use thunity_os.Lfb.Shapes.Roots.{leb-isqrt}

-- How far a coordinate is from the centre's.
abbrev pub distance : ℕ → ℤ → ℕ
distance a cx = pos_part (pos a -ℤ cx) + neg_part (pos a -ℤ cx)

-- Half the width of the row that is `d` rows from the centre.
abbrev pub half_of : ℤ → ℤ → ℕ
half_of r dy = isqrt (r *ℤ r -ℤ dy *ℤ dy)

-- The columns and the row of one row of the disc.
row_columns :
    (cx : ℤ) (half a : ℕ)
    → covers (cx -ℤ pos half) (pos (2 * half + 1)) a ≡ leb (distance a cx) half
unfolding ◌+ℤ◌ ◌-ℤ◌
row_columns cx half a = ground arith

row_line :
    (cy dy : ℤ) (b : ℕ)
    → covers (cy +ℤ dy) (pos 1) b ≡ (leb_ℤ dy (pos b -ℤ cy) && leb_ℤ (pos b -ℤ cy) dy)
unfolding ◌+ℤ◌ ◌-ℤ◌
row_line cy dy b = ground arith

-- A row is the first of some rows or one of those after it.
rows_split :
    (dy d : ℤ) (left : ℕ)
    → (leb_ℤ dy d && ltb_ℤ d (dy +ℤ pos (suc left))) ≡ (
        if leb_ℤ dy d && leb_ℤ d dy
        then true
        else leb_ℤ (dy +ℤ pos 1) d && ltb_ℤ d (dy +ℤ pos 1 +ℤ pos left))
unfolding ◌+ℤ◌
rows_split dy d left = ground arith

rows_apart :
    (dy d : ℤ) (left : ℕ)
    → leb_ℤ d dy ≡ true
    → (leb_ℤ (dy +ℤ pos 1) d && ltb_ℤ d (dy +ℤ pos 1 +ℤ pos left)) ≡ false
unfolding ◌+ℤ◌
rows_apart dy d left ge = ground arith

half_same : (r dy d : ℤ) → leb_ℤ dy d ≡ true → leb_ℤ d dy ≡ true → half_of r d ≡ half_of r dy
half_same r dy d le ge = ap (half_of r) (eq_of_parts d dy (ground (arith, le, ge)))

-- The pixel is in one of the rows.
abbrev in_rows : ℕ → ℤ → Lfb → ℤ → ℤ → ℤ → ℕ → ℕ → Bool
in_rows left dy fb cx cy r a b =
    ltb a fb.width
    && ltb b fb.height
    && (leb (distance a cx) (half_of r (pos b -ℤ cy))
        && (leb_ℤ dy (pos b -ℤ cy) && ltb_ℤ (pos b -ℤ cy) (dy +ℤ pos left)))

-- The tests of a row and of those after it, on Booleans.
step_here :
    (u v p : Bool) (rgb old : ℕ)
    → (if u && v && (p && false) then rgb else if u && p && (v && true) then rgb else old)
      ≡ (if u && v && (p && true) then rgb else old)
step_here u v p rgb old = ground arith

step_away :
    (u v p q later : Bool) (rgb old : ℕ)
    → (if u && v && (q && later) then rgb else if u && p && (v && false) then rgb else old)
      ≡ (if u && v && (q && later) then rgb else old)
step_away u v p q later rgb old = ground arith

disc_rows_step :
    (left : ℕ) (dy : ℤ) (fb : Lfb) (cx cy r : ℤ) (rgb a b old drawn new : ℕ)
    → new ≡ (if in_rows left (dy +ℤ pos 1) fb cx cy r a b then rgb else drawn)
    → drawn ≡ (
        if in_rectangle fb
          (cx -ℤ pos (half_of r dy))
          (cy +ℤ dy)
          (pos (2 * half_of r dy + 1))
          (pos 1)
          a
          b
        then rgb
        else old)
    → new ≡ (if in_rows (suc left) dy fb cx cy r a b then rgb else old)
disc_rows_step left dy fb cx cy r rgb a b old drawn new after row =
    let d = pos b -ℤ cy in
    let columns = row_columns cx (half_of r dy) a in
    let line = row_line cy dy b in
    let split = rows_split dy d left in
    let apart = rows_apart dy d left in
    let same = half_same r dy d in
    let far = leb (distance a cx) (half_of r d) in
    let later = leb_ℤ (dy +ℤ pos 1) d && ltb_ℤ d (dy +ℤ pos 1 +ℤ pos left) in
    elim (Bool-cases (leb_ℤ dy d)) [
      | inl e ↦ elim (Bool-cases (leb_ℤ d dy)) [
        | inl e' ↦
            rw (after, row, columns, line, split, same e e', e, e', apart e')
              (step_here (ltb a fb.width) (ltb b fb.height) (leb (distance a cx) (half_of r dy)) rgb
                old)
        | inr e' ↦
            rw (after, row, columns, line, split, e, e')
              (step_away (ltb a fb.width) (ltb b fb.height) (leb (distance a cx) (half_of r dy)) far
                later rgb old)
      ]
      | inr e ↦
          rw (after, row, columns, line, split, e)
            (step_away (ltb a fb.width) (ltb b fb.height) (leb (distance a cx) (half_of r dy)) far
              later rgb old)
    ]

disc_rows_lem :
    (left : ℕ) (dy : ℤ) (fb : Lfb) (cx cy r : ℤ) (rgb a b : ℕ)
    → fb.width ≤ fb.pitch_px
    → a < fb.pitch_px
    → (disc_rows left dy fb cx cy r rgb).px (b * fb.pitch_px + a)
      ≡ (if in_rows left dy fb cx cy r a b then rgb else fb.px (b * fb.pitch_px + a))
unfolding disc_rows lfb_fill
disc_rows_lem zero dy fb cx cy r rgb a b wide lt =
    ground (arith, +ℤ_parts dy (pos 0), -ℤ_parts (pos b) cy)
disc_rows_lem (suc left) dy fb cx cy r rgb a b wide lt =
    let half = half_of r dy in
    let drawn = lfb_fill fb (cx -ℤ pos half) (cy +ℤ dy) (pos (2 * half + 1)) (pos 1) rgb in
    let ih = disc_rows_lem left (dy +ℤ pos 1) drawn cx cy r rgb a b wide lt in
    let row =
      fill_pixels fb (cx -ℤ pos half) (cy +ℤ dy) (pos (2 * half + 1)) (pos 1) rgb a b wide lt in
    disc_rows_step left dy fb cx cy r rgb a b (fb.px (b * fb.pitch_px + a))
      (drawn.px (b * fb.pitch_px + a)) _ ih row

-- The squares, in the range of the rows and outside it.
square_gap :
    (r : ℕ) (d : ℤ) → abs d * abs d ≤ r * r → pos r *ℤ pos r -ℤ d *ℤ d ≡ pos (r * r - abs d * abs d)
unfolding ◌-ℤ◌ ◌*ℤ◌
square_gap r (pos n) le = ground (arith, le)
square_gap r (negsuc n) le = ground (arith, le)

count_rows : (r : ℕ) → pos_part (pos r +ℤ pos r +ℤ pos 1) ≡ 2 * r + 1
unfolding ◌+ℤ◌
count_rows r = ground arith

rows_of_disc :
    (r : ℕ) (d : ℤ)
    → (leb_ℤ (neg (pos r)) d && ltb_ℤ d (neg (pos r) +ℤ pos (2 * r + 1))) ≡ leb (abs d) r
unfolding ◌+ℤ◌
rows_of_disc r d = ground arith

in_disc :
    (r : ℕ) (d : ℤ) (far : ℕ)
    → (leb far (half_of (pos r) d) && leb (abs d) r) ≡ leb (far * far + abs d * abs d) (r * r)
in_disc r d far = elim (Bool-cases (leb (abs d) r)) [
  | inl e ↦
      let squares = mul-le-mul (leb→le (abs d) r e) (leb→le (abs d) r e) in
      let root = leb-isqrt (r * r - abs d * abs d) far in
      rw (square_gap r d squares, root, e) (ground (arith, squares))
  | inr e ↦
      let over : r + 1 ≤ abs d = ground (arith, e) in
      let squares = mul-le-mul over over in rw e (ground (arith, squares))
]

-- On a radius and a centre without bounds.
disc_pixels :
    (fb : Lfb) (cx cy : ℤ) (r rgb a b : ℕ)
    → fb.width ≤ fb.pitch_px
    → a < fb.pitch_px
    → (lfb_disc fb cx cy (pos r) rgb).px (b * fb.pitch_px + a) ≡ (
        if ltb a fb.width
          && ltb b fb.height
          && leb (distance a cx * distance a cx + distance b cy * distance b cy) (r * r)
        then rgb
        else fb.px (b * fb.pitch_px + a))
unfolding lfb_disc
disc_pixels fb cx cy r rgb a b wide lt =
    let rounds : pos_part (pos r +ℤ pos r +ℤ pos 1) ≡ 2 * r + 1 = count_rows r in
    let rows = disc_rows_lem (2 * r + 1) (neg (pos r)) fb cx cy (pos r) rgb a b wide lt in
    let disc = in_disc r (pos b -ℤ cy) (distance a cx) in
    rw (rounds, rows, rows_of_disc r (pos b -ℤ cy), disc) refl

half_of-le : (r : ℕ) (d : ℤ) → abs d ≤ r → half_of (pos r) d ≤ r
half_of-le r d near = ground (arith, near, in_disc r d (suc r))

IsInt-square : (r n : ℕ) → r ≤ 46339 → n ≤ r → suc n * suc n < 2 ^ 31
IsInt-square r n small le =
    let most : suc n ≤ 46340 = omega (arith, small, le) in omega (arith, mul-le-mul most most)

near-ℤ : (c : ℤ) (n : ℕ) → abs c < 2 ^ 29 → n ≤ 46339 → abs (c -ℤ pos n) < 2 ^ 30
unfolding ◌-ℤ◌
near-ℤ c n small le = ground (arith, small, le)

near+ℤ : (c d : ℤ) → abs c < 2 ^ 29 → abs d ≤ 46339 → abs (c +ℤ d) < 2 ^ 30
unfolding ◌+ℤ◌
near+ℤ c d small le = ground (arith, small, le)

-- Where the rows of the screen do not overlap, their words are below 2 ^ 31, the sides of the screen are below
-- 2 ^ 30, the radius is at most 46339 and the centre is below 2 ^ 29, positive or negative: in a row `d` of the
-- disc, no square that `isqrt` computes and no sum of the clipping overflows an int. `lfb_disc` gives the colour
-- to exactly the pixels on the screen whose distance from the centre is at most the radius, by Pythagoras, and
-- changes no other word of memory.
pub lfb_disc_lem :
    (fb : Lfb) (cx cy : ℤ) (r rgb a b : ℕ) (d : ℤ)
    → fb.width ≤ fb.pitch_px
    → a < fb.pitch_px
    → fb.width < 2 ^ 30
    → fb.height < 2 ^ 30
    → fb.height * fb.pitch_px < 2 ^ 31
    → abs cx < 2 ^ 29
    → abs cy < 2 ^ 29
    → r ≤ 46339
    → abs d ≤ r
    → (suc (half_of (pos r) d) * suc (half_of (pos r) d) < 2 ^ 31)
      × SumsFit fb.width (cx -ℤ pos (half_of (pos r) d)) (pos (2 * half_of (pos r) d + 1))
      × SumsFit fb.height (cy +ℤ d) (pos 1)
      × ((lfb_disc fb cx cy (pos r) rgb).px (b * fb.pitch_px + a) ≡ (
          if ltb a fb.width
            && ltb b fb.height
            && leb (distance a cx * distance a cx + distance b cy * distance b cy) (r * r)
          then rgb
          else fb.px (b * fb.pitch_px + a)))
lfb_disc_lem fb cx cy r rgb a b d wide lt lw lh words hx hy small near =
    let half = half_of (pos r) d in
    let le : half ≤ r = half_of-le r d near in
    (
      IsInt-square r half small le,
      clip_size-SumsFit fb.width (cx -ℤ pos half) (pos (2 * half + 1)) lw
          (near-ℤ cx half hx (omega (arith, small, le))) (omega (arith, small, le)),
      clip_size-SumsFit fb.height (cy +ℤ d) (pos 1) lh (near+ℤ cy d hy (omega (arith, small, near)))
          (omega arith),
      disc_pixels fb cx cy r rgb a b wide lt,
    )
