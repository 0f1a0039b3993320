-- ===== src/Lfb/Clip.antt =====
-- The clipping of kernel/drivers/lfb.c in one direction, and rows of pixels in memory.
use thunity_os.Base.{
  ℕ, zero, suc, ◌+◌, ◌*◌, ◌≤◌, ◌<◌, ◌≡◌, ◌≢◌, ap, Bool, ◌&&◌, ltb, leb, ◌==◌, ==→eq, if◌then◌else◌,
  Bool-cases, inl, inr, arith,
}
use native.Mathlib.Nat.{mul-le-mul_right}
use thunity_os.Base.Int.{ℤ, pos, pos_part, ◌+ℤ◌, ◌-ℤ◌, ltb_ℤ, leb_ℤ}
use thunity_os.Lfb.{put_word, fill_row, clip_size}

-- A coordinate is in the span of a start and a size.
abbrev pub covers : ℤ → ℤ → ℕ → Bool
covers x w a = leb_ℤ x (pos a) && ltb_ℤ (pos a) (x +ℤ w)

-- What is left after the clipping is the part of the span that is on the screen.
pub clip_size_lem :
    (limit : ℕ) (x w : ℤ) (a : ℕ)
    → (leb (pos_part x) a && ltb a (pos_part x + pos_part (clip_size limit x w)))
      ≡ (ltb a limit && covers x w a)
unfolding clip_size ◌+ℤ◌ ◌-ℤ◌
clip_size_lem limit x w a = ground arith

pub clip_size-le :
    (limit : ℕ) (x w : ℤ)
    → pos_part (clip_size limit x w) ≢ 0
    → pos_part x + pos_part (clip_size limit x w) ≤ limit
unfolding clip_size ◌+ℤ◌ ◌-ℤ◌
clip_size-le limit x w some_left = ground arith

pub fill_row_lem :
    (left i base rgb : ℕ) (m : ℕ → ℕ) (k : ℕ)
    → fill_row left i base rgb m k
      ≡ (if leb (base + i) k && ltb k (base + (i + left)) then rgb else m k)
unfolding fill_row
fill_row_lem zero i base rgb m k = ground arith
fill_row_lem (suc left) i base rgb m k =
    ground (arith, fill_row_lem left (i + 1) base rgb (put_word m (base + i) rgb) k)

-- A part of row `r` holds exactly the pixels of that row and of those columns.
pub row_hit :
    (pitch r x w b a : ℕ)
    → a < pitch
    → x + w ≤ pitch
    → (leb (r * pitch + x) (b * pitch + a) && ltb (b * pitch + a) (r * pitch + x + w))
      ≡ ((r == b) && leb x a && ltb a (x + w))
row_hit pitch r x w b a lt le = elim (Bool-cases (r == b)) [
  | inl e ↦ ground (arith, e, ap (λ n. n * pitch) (==→eq r b e))
  | inr e ↦ elim (Bool-cases (ltb b r)) [
    | inl l ↦
        let apart : (b + 1) * pitch ≤ r * pitch = mul-le-mul_right pitch (ground (arith, l)) in
        let after : b * pitch + pitch ≤ r * pitch = omega (arith, apart) in ground (arith, e, after)
    | inr l ↦
        let apart : (r + 1) * pitch ≤ b * pitch = mul-le-mul_right pitch (ground (arith, e, l)) in
        let before : r * pitch + pitch ≤ b * pitch = omega (arith, apart) in
        ground (arith, e, before)
  ]
]
