-- ===== src/Base/Tables.antt =====
-- Facts about small ranges, by evaluation of every value.
use Prim.Native.Nat.{ℕ, zero, suc, ◌<◌}
use mathlib.Core.Path.{◌≡◌}
use mathlib.Core.Bool.{Bool, true, ◌&&◌}
use native.Mathlib.Omega.{arith}

unfoldable pub all_below : ℕ → (ℕ → Bool) → Bool
all_below zero test = true
all_below (suc top) test = test top && all_below top test

-- A table that holds answers for every value in its range.
pub all_below_sound :
    (bound : ℕ) (test : ℕ → Bool) (value : ℕ)
    → all_below bound test ≡ true
    → value < bound
    → test value ≡ true
unfolding all_below
all_below_sound zero test value table small = absurd (omega arith)
all_below_sound (suc top) test value table small = ground (arith, all_below_sound top test value)

-- Three nested ranges.
pub all_below_sound_three :
    (n m k : ℕ) (p : ℕ → ℕ → ℕ → Bool) (x y z : ℕ)
    → all_below n (λ a. all_below m (λ b. all_below k (p a b))) ≡ true
    → x < n
    → y < m
    → z < k
    → p x y z ≡ true
all_below_sound_three n m k p x y z h hx hy hz =
    all_below_sound k (p x y) z
      (all_below_sound m (λ b. all_below k (p x b)) y (all_below_sound n _ x h hx) hy) hz
