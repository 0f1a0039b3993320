-- ===== src/Lfb/Shapes/Roots.antt =====
-- The square root of kernel/drivers/lfb.c.
use thunity_os.Base.{
  ℕ, zero, suc, ◌+◌, ◌*◌, ◌≤◌, ◌<◌, ◌≡◌, leb, Bool-cases, inl, inr, arith, leb→le,
}
use native.Mathlib.Nat.{mul-le-mul}
use thunity_os.Base.Int.{pos, leb_ℤ}
use thunity_os.Lfb.Shapes.{isqrt, isqrt_loop}

isqrt_loop_lem :
    (fuel x n : ℕ)
    → x * x ≤ n
    → n < (x + fuel + 1) * (x + fuel + 1)
    → (isqrt_loop fuel x (pos n) * isqrt_loop fuel x (pos n) ≤ n)
      × (n < (isqrt_loop fuel x (pos n) + 1) * (isqrt_loop fuel x (pos n) + 1))
unfolding isqrt_loop
isqrt_loop_lem zero x n le lt = (le, omega (arith, lt))
isqrt_loop_lem (suc fuel) x n le lt = elim (Bool-cases (leb_ℤ (pos ((x + 1) * (x + 1))) (pos n))) [
  | inl e ↦ rw e (isqrt_loop_lem fuel (x + 1) n (ground (arith, e)) (omega (arith, lt)))
  | inr e ↦ rw e (le, ground (arith, e))
]

-- The greatest number whose square is at most `n`.
isqrt_lem :
    (n : ℕ) → (isqrt (pos n) * isqrt (pos n) ≤ n) × (n < (isqrt (pos n) + 1) * (isqrt (pos n) + 1))
unfolding isqrt
isqrt_lem n = isqrt_loop_lem n 0 n (omega arith) (omega arith)

-- A number is at most the root exactly when its square is at most `n`.
pub leb-isqrt : (n d : ℕ) → leb d (isqrt (pos n)) ≡ leb (d * d) n
leb-isqrt n d =
    let (low, high) = isqrt_lem n in
    elim (Bool-cases (leb d (isqrt (pos n)))) [
      | inl e ↦
          let squares = mul-le-mul (leb→le d _ e) (leb→le d _ e) in ground (arith, e, squares, low)
      | inr e ↦
          let over : isqrt (pos n) + 1 ≤ d = ground (arith, e) in
          let squares = mul-le-mul over over in ground (arith, e, squares, high)
    ]
