-- ===== src/Lfb/Shapes/Line.antt =====
-- The points that `lfb_line` of kernel/drivers/lfb.c draws, and that its loop ends.
use thunity_os.Base.{
  ℕ, zero, suc, ◌+◌, ◌-◌, ◌*◌, ◌/◌, ◌^◌, ◌≤◌, ◌<◌, ◌≡◌, ◌≢◌, refl, sym, ap, subst, ◌∙◌, Bool, true,
  false, ◌&&◌, ltb, ◌==◌, ==_refl, ne→==, Option, some, if◌then◌else◌, Bool-cases, inl, inr, arith,
  ℕ_discrete,
}
use native.Mathlib.Nat.{add-mul-div_right, div-eq_of_lt, zero-add, div-zero}
use thunity_os.Base.Int.{ℤ, IsInt, pos, negsuc, pos_part, ◌+ℤ◌, ◌-ℤ◌, neg, abs, ltb_ℤ, eqb_ℤ, div_ℤ}
use thunity_os.Lfb.{Lfb, lfb_pixel}
use thunity_os.Lfb.Shapes.{line_loop, lfb_line}

-- The coordinate `k` steps from `z`, towards smaller ones when `back`.
abbrev pub along : Bool → ℤ → ℕ → ℤ
along back z k = if back then z -ℤ pos k else z +ℤ pos k

abbrev unit : Bool → ℤ
unit back = if back then neg (pos 1) else pos 1

-- `i * d / n` rounded to the nearest number, a half down.
abbrev pub rounded : ℕ → ℕ → ℕ → ℕ
rounded n d i = (i * d + (n - 1) / 2) / n

-- The points from the `i`-th on, with `left` points left.
unfoldable pub draw_points : ℕ → ℕ → ℕ → ℕ → ℕ → Bool → Bool → ℤ → ℤ → ℕ → Lfb → Lfb
draw_points zero i n adx ady bx by x y rgb fb = fb
draw_points (suc left) i n adx ady bx by x y rgb fb =
    draw_points left (i + 1) n adx ady bx by x y rgb
      (lfb_pixel fb (along bx x (rounded n adx i)) (along by y (rounded n ady i)) rgb)

-- The error term `e` of `q` steps in the shorter direction after `k` in the longer one.
record Balance (n d k q e : ℕ) : Type 0 where
  total : e + k * d ≡ n / 2 + q * n
  small : e < n

quotient_unique : (a n q : ℕ) → q * n ≤ a → a < (q + 1) * n → a / n ≡ q
quotient_unique a zero q le lt = absurd (omega (arith, lt))
quotient_unique a (suc n) q le lt =
    let rest : a - q * suc n < suc n = omega (arith, le, lt) in
    let split : a ≡ a - q * suc n + q * suc n = omega (arith, le) in
    ap (λ z. z / suc n) split
    ∙ add-mul-div_right (a - q * suc n) q (omega arith)
    ∙ ap (λ z. z + q) (div-eq_of_lt rest)
    ∙ zero-add q

Balance-start : (n d : ℕ) → n ≢ 0 → Balance n d 0 0 (n / 2)
Balance-start n d some_way = record { total = omega arith; small = omega (arith, some_way) }

Balance-rounded : (n d k q e : ℕ) → Balance n d k q e → rounded n d k ≡ q
Balance-rounded n d k q e b =
    quotient_unique (k * d + (n - 1) / 2) n q (omega (arith, b.total, b.small))
      (omega (arith, b.total, b.small))

Balance-next :
    (n d k q e : ℕ)
    → d ≤ n
    → Balance n d k q e
    → Balance n d (k + 1) (if ltb e d then q + 1 else q) (if ltb e d then e + n - d else e - d)
Balance-next n d k q e le b = elim (Bool-cases (ltb e d)) [
  | inl t ↦
      rw t (record { total = ground (arith, t, b.total, le); small = ground (arith, t, b.small) })
  | inr t ↦ rw t (record { total = ground (arith, t, b.total); small = ground (arith, t, b.small) })
]

rounded_end : (n d : ℕ) → n ≢ 0 → rounded n d n ≡ d
rounded_end n d some_way =
    quotient_unique (n * d + (n - 1) / 2) n d (omega arith) (omega (arith, some_way))

rounded_self : (n k : ℕ) → n ≢ 0 → rounded n n k ≡ k
rounded_self n k some_way =
    quotient_unique (k * n + (n - 1) / 2) n k (omega arith) (omega (arith, some_way))

and_false : (b : Bool) → (b && false) ≡ false
and_false b = ground arith

Balance-end : (n d q e : ℕ) → n ≢ 0 → Balance n d n q e → q ≡ d
Balance-end n d q e some_way b = sym (Balance-rounded n d n q e b) ∙ rounded_end n d some_way

along_same : (back : Bool) (z : ℤ) (k m : ℕ) → eqb_ℤ (along back z k) (along back z m) ≡ (k == m)
unfolding ◌+ℤ◌ ◌-ℤ◌
along_same back z k m = ground arith

along_next : (back : Bool) (z : ℤ) (k : ℕ) → along back z k +ℤ unit back ≡ along back z (k + 1)
unfolding ◌+ℤ◌ ◌-ℤ◌
along_next back z k = ground arith

along_zero : (back : Bool) (z : ℤ) → along back z 0 ≡ z
unfolding ◌+ℤ◌ ◌-ℤ◌
along_zero back z = ground arith

-- The tests and the steps of a round.
right_always : (n e : ℕ) → e < n → ltb_ℤ (neg (pos n)) (pos e) ≡ true
right_always n e lt = ground arith

down_test : (e d : ℕ) → ltb_ℤ (pos e) (pos d) ≡ ltb e d
down_test e d = ground arith

right_test : (e d : ℕ) → ltb_ℤ (neg (pos d)) (neg (pos e)) ≡ ltb e d
right_test e d = ground arith

down_always : (n e : ℕ) → e < n → ltb_ℤ (neg (pos e)) (pos n) ≡ true
down_always n e lt = ground arith

right_next :
    (n d e : ℕ)
    → d ≤ n
    → (if ltb e d then neg (pos e) -ℤ pos n else neg (pos e)) +ℤ pos d
      ≡ neg (pos (if ltb e d then e + n - d else e - d))
unfolding ◌+ℤ◌ ◌-ℤ◌
right_next n d e le = ground arith

down_next :
    (n d e : ℕ)
    → d ≤ n
    → (if ltb e d then pos e -ℤ pos d +ℤ pos n else pos e -ℤ pos d)
      ≡ pos (if ltb e d then e + n - d else e - d)
unfolding ◌+ℤ◌ ◌-ℤ◌
down_next n d e le = ground arith

step_if :
    (t back : Bool) (z : ℤ) (q : ℕ)
    → (if t then along back z q +ℤ unit back else along back z q)
      ≡ along back z (if t then q + 1 else q)
step_if true back z q = along_next back z q
step_if false back z q = refl

module _ (adx ady : ℕ) (bx by : Bool) (x0 y0 : ℤ) (rgb : ℕ) where
  abbrev loop : ℕ → ℤ → ℤ → ℤ → Lfb → Option Lfb
  loop fuel x y err fb =
      line_loop fuel adx ady (unit bx) (unit by) (along bx x0 adx) (along by y0 ady) rgb x y err fb

  abbrev draw : ℕ → ℕ → ℕ → Lfb → Lfb
  draw left i n fb = draw_points left i n adx ady bx by x0 y0 rgb fb

  loop_end :
      (fuel k q : ℕ) (err : ℤ) (fb : Lfb)
      → k ≡ adx
      → q ≡ ady
      → loop (suc fuel) (along bx x0 k) (along by y0 q) err fb
        ≡ some (lfb_pixel fb (along bx x0 adx) (along by y0 ady) rgb)
  unfolding line_loop
  loop_end fuel k q err fb e e' =
      rw (e, e', along_same bx x0 adx adx, along_same by y0 ady ady, ==_refl adx, ==_refl ady) refl

  loop_next_wide :
      (fuel k q e : ℕ) (fb : Lfb)
      → k < adx
      → e < adx
      → ady ≤ adx
      → loop (suc fuel) (along bx x0 k) (along by y0 q) (pos e) fb
        ≡ loop fuel
            (along bx x0 (k + 1))
            (along by y0 (if ltb e ady then q + 1 else q))
            (pos (if ltb e ady then e + adx - ady else e - ady))
            (lfb_pixel fb (along bx x0 k) (along by y0 q) rgb)
  unfolding line_loop
  loop_next_wide fuel k q e fb lt small le =
      rw
        (
          along_same bx x0 k adx,
          ne→== k adx (λ z. omega (arith, lt, z)),
          right_always adx e small,
          down_test e ady,
          along_next bx x0 k,
          step_if (ltb e ady) by y0 q,
          down_next adx ady e le,
        )
        refl

  loop_next_tall :
      (fuel k q e : ℕ) (fb : Lfb)
      → k < ady
      → e < ady
      → adx ≤ ady
      → loop (suc fuel) (along bx x0 q) (along by y0 k) (neg (pos e)) fb
        ≡ loop fuel
            (along bx x0 (if ltb e adx then q + 1 else q))
            (along by y0 (k + 1))
            (neg (pos (if ltb e adx then e + ady - adx else e - adx)))
            (lfb_pixel fb (along bx x0 q) (along by y0 k) rgb)
  unfolding line_loop
  loop_next_tall fuel k q e fb lt small le =
      rw
        (
          along_same by y0 k ady,
          ne→== k ady (λ z. omega (arith, lt, z)),
          and_false (eqb_ℤ (along bx x0 q) (along bx x0 adx)),
          right_test e adx,
          down_always ady e small,
          along_next by y0 k,
          step_if (ltb e adx) bx x0 q,
          right_next ady adx e le,
        )
        refl

  -- Where the line is wider than high, each round is a step in x.
  loop_wide :
      (fuel left k q e : ℕ) (fb : Lfb)
      → left < fuel
      → k + left ≡ adx
      → ady < adx
      → Balance adx ady k q e
      → loop fuel (along bx x0 k) (along by y0 q) (pos e) fb ≡ some (draw (suc left) k adx fb)
  unfolding draw_points
  loop_wide zero left k q e fb lt sum wide b = absurd (omega arith)
  loop_wide (suc fuel) zero k q e fb lt sum wide b =
      let here : k ≡ adx = omega (arith, sum) in
      let some_way : adx ≢ 0 = λ z. omega (arith, wide, z) in
      let there : q ≡ ady =
        Balance-end adx ady q e some_way (subst (λ z. Balance adx ady z q e) here b) in
      rw
        (
          loop_end fuel k q (pos e) fb here there,
          here,
          rounded_end adx adx some_way,
          rounded_end adx ady some_way,
        )
        refl
  loop_wide (suc fuel) (suc left) k q e fb lt sum wide b =
      let small : k < adx = omega (arith, sum) in
      let some_way : adx ≢ 0 = λ z. omega (arith, wide, z) in
      rw
        (
          loop_next_wide fuel k q e fb small b.small (omega arith),
          rounded_self adx k some_way,
          Balance-rounded adx ady k q e b,
        )
        (loop_wide fuel left (k + 1) _ _ _ (omega arith) (omega (arith, sum)) wide
          (Balance-next adx ady k q e (omega arith) b))

  -- Else each round is a step in y.
  loop_tall :
      (fuel left k q e : ℕ) (fb : Lfb)
      → left < fuel
      → k + left ≡ ady
      → adx ≤ ady
      → ady ≢ 0
      → Balance ady adx k q e
      → loop fuel (along bx x0 q) (along by y0 k) (neg (pos e)) fb ≡ some (draw (suc left) k ady fb)
  unfolding draw_points
  loop_tall zero left k q e fb lt sum tall some_way b = absurd (omega arith)
  loop_tall (suc fuel) zero k q e fb lt sum tall some_way b =
      let here : k ≡ ady = omega (arith, sum) in
      let there : q ≡ adx =
        Balance-end ady adx q e some_way (subst (λ z. Balance ady adx z q e) here b) in
      rw
        (
          loop_end fuel q k (neg (pos e)) fb there here,
          here,
          rounded_end ady adx some_way,
          rounded_end ady ady some_way,
        )
        refl
  loop_tall (suc fuel) (suc left) k q e fb lt sum tall some_way b =
      let small : k < ady = omega (arith, sum) in
      rw
        (
          loop_next_tall fuel k q e fb small b.small tall,
          rounded_self ady k some_way,
          Balance-rounded ady adx k q e b,
        )
        (loop_tall fuel left (k + 1) _ _ _ (omega arith) (omega (arith, sum)) tall some_way
          (Balance-next ady adx k q e tall b))

  -- Where the ends are the same, the first round is the last.
  loop_point :
      (fuel : ℕ) (err : ℤ) (fb : Lfb)
      → adx ≡ 0
      → ady ≡ 0
      → loop (suc fuel) (along bx x0 0) (along by y0 0) err fb ≡ some (draw (suc ady) 0 ady fb)
  unfolding draw_points
  loop_point fuel err fb e e' =
      rw (loop_end fuel 0 0 err fb (sym e) (sym e'), e, e', div-zero ((0 - 1) / 2)) refl

abbrev pub span : ℤ → ℤ → ℕ
span z z1 = abs (z1 -ℤ z)

abbrev pub backwards : ℤ → ℤ → Bool
backwards z z1 = ltb_ℤ (z1 -ℤ z) (pos 0)

span_code : (d : ℤ) → pos_part (if ltb_ℤ d (pos 0) then neg d else d) ≡ abs d
span_code d = ground arith

along-span : (z z1 : ℤ) → along (backwards z z1) z (span z z1) ≡ z1
unfolding ◌+ℤ◌ ◌-ℤ◌
along-span z z1 = ground arith

neg-suc : (n : ℕ) → neg (pos (suc n)) ≡ negsuc n
neg-suc n = ground arith

half_back : (n : ℕ) → div_ℤ (neg (pos n)) (pos 2) ≡ neg (pos (n / 2))
unfolding div_ℤ
half_back zero = refl
half_back (suc n) = rw (neg-suc n) refl

err_wide :
    (n d : ℕ)
    → ltb d n ≡ true
    → div_ℤ (if ltb_ℤ (pos d) (pos n) then pos n else neg (pos d)) (pos 2) ≡ pos (n / 2)
unfolding div_ℤ
err_wide n d e = rw (down_test d n, e) refl

err_tall :
    (n d : ℕ)
    → ltb d n ≡ false
    → div_ℤ (if ltb_ℤ (pos d) (pos n) then pos n else neg (pos d)) (pos 2) ≡ neg (pos (d / 2))
err_tall n d e = rw (down_test d n, e) (half_back d)

module _ (fuel : ℕ) (fb : Lfb) (x0 y0 x1 y1 : ℤ) (rgb : ℕ) where
  abbrev adx : ℕ
  adx = span x0 x1

  abbrev ady : ℕ
  ady = span y0 y1

  -- The code's setup of the loop.
  lfb_line_starts :
      (err : ℤ)
      → div_ℤ (if ltb_ℤ (pos ady) (pos adx) then pos adx else neg (pos ady)) (pos 2) ≡ err
      → lfb_line fuel fb x0 y0 x1 y1 rgb
        ≡ loop adx ady
            (backwards x0 x1)
            (backwards y0 y1)
            x0
            y0
            rgb
            fuel
            (along (backwards x0 x1) x0 0)
            (along (backwards y0 y1) y0 0)
            err
            fb
  unfolding lfb_line
  lfb_line_starts err e =
      rw
        (
          span_code (x1 -ℤ x0),
          span_code (y1 -ℤ y0),
          e,
          along-span x0 x1,
          along-span y0 y1,
          along_zero (backwards x0 x1) x0,
          along_zero (backwards y0 y1) y0,
        )
        refl

-- The longer of the two spans.
abbrev pub rounds : ℤ → ℤ → ℤ → ℤ → ℕ
rounds x0 y0 x1 y1 = if ltb (span y0 y1) (span x0 x1) then span x0 x1 else span y0 y1

-- On points without bounds.
line_points :
    (fuel : ℕ) (fb : Lfb) (x0 y0 x1 y1 : ℤ) (rgb : ℕ)
    → rounds x0 y0 x1 y1 < fuel
    → lfb_line fuel fb x0 y0 x1 y1 rgb
      ≡ some (
          draw_points
            (suc (rounds x0 y0 x1 y1))
            0
            (rounds x0 y0 x1 y1)
            (span x0 x1)
            (span y0 y1)
            (backwards x0 x1)
            (backwards y0 y1)
            x0
            y0
            rgb
            fb)
line_points zero fb x0 y0 x1 y1 rgb lt = absurd (omega arith)
line_points (suc fuel) fb x0 y0 x1 y1 rgb lt =
    let wx = span x0 x1 in
    let wy = span y0 y1 in
    let bx = backwards x0 x1 in
    let by = backwards y0 y1 in
    elim (Bool-cases (ltb wy wx)) [
      | inl wide ↦
          let enough : wx < suc fuel = ground (arith, wide, lt) in
          let longer : wy < wx = ground (arith, wide) in
          let start = Balance-start wx wy (λ z. omega (arith, longer, z)) in
          lfb_line_starts (suc fuel) fb x0 y0 x1 y1 rgb (pos (wx / 2)) (err_wide wx wy wide)
          ∙ rw wide (
              loop_wide wx wy bx by x0 y0 rgb (suc fuel) wx 0 0 (wx / 2) fb enough (omega arith)
                longer start)
      | inr tall ↦
          let enough : wy < suc fuel = ground (arith, tall, lt) in
          let longer : wx ≤ wy = ground (arith, tall) in
          lfb_line_starts (suc fuel) fb x0 y0 x1 y1 rgb (neg (pos (wy / 2))) (err_tall wx wy tall)
          ∙ rw tall (elim (ℕ_discrete wy 0) [
            | Dec.yes none ↦
                loop_point wx wy bx by x0 y0 rgb fuel _ fb (omega (arith, none, longer)) none
            | Dec.no some_way ↦
                loop_tall wx wy bx by x0 y0 rgb (suc fuel) wy 0 0 (wy / 2) fb enough (omega arith)
                  longer some_way (Balance-start wy wx some_way)
          ])
    ]

IsInt-distance : (a b : ℤ) → abs a < 2 ^ 29 → abs b < 2 ^ 29 → IsInt (b -ℤ a)
unfolding ◌-ℤ◌
IsInt-distance a b la lb = ground (arith, la, lb)

-- Where the coordinates of both ends are below 2 ^ 29, positive or negative, the differences are ints. With more
-- fuel than the longer span of the line, `lfb_line` then ends, and has drawn a point for each step of that span and
-- one more: the `i`-th is `i` steps along it, and along the other the nearest to the straight line.
pub lfb_line_lem :
    (fuel : ℕ) (fb : Lfb) (x0 y0 x1 y1 : ℤ) (rgb : ℕ)
    → abs x0 < 2 ^ 29
    → abs y0 < 2 ^ 29
    → abs x1 < 2 ^ 29
    → abs y1 < 2 ^ 29
    → rounds x0 y0 x1 y1 < fuel
    → IsInt (x1 -ℤ x0)
      × IsInt (y1 -ℤ y0)
      × (lfb_line fuel fb x0 y0 x1 y1 rgb
          ≡ some (
              draw_points
                (suc (rounds x0 y0 x1 y1))
                0
                (rounds x0 y0 x1 y1)
                (span x0 x1)
                (span y0 y1)
                (backwards x0 x1)
                (backwards y0 y1)
                x0
                y0
                rgb
                fb))
lfb_line_lem fuel fb x0 y0 x1 y1 rgb hx0 hy0 hx1 hy1 lt = (
  IsInt-distance x0 x1 hx0 hx1,
  IsInt-distance y0 y1 hy0 hy1,
  line_points fuel fb x0 y0 x1 y1 rgb lt,
)
