-- ===== src/Base/Bits.antt =====
-- Bits of a byte, under the three ways in which the bitmap and the tables of the kernel touch one.
use thunity_os.Base.Tests.{◌==◌, ltb, ltb→lt}
use thunity_os.Base.Tables.{all_below, all_below_sound, all_below_sound_three}
use Prim.Native.Nat.{ℕ, ◌-◌, ◌^◌, ◌<◌, bit_and, bit_or}
use mathlib.Core.Path.{◌≡◌, refl}
use mathlib.Core.Bool.{Bool, true, false, not, ◌&&◌, ◌||◌}
use native.Mathlib.Omega.{arith}

-- Bit `i` of `x`.
abbrev pub test_bit : ℕ → ℕ → Bool
test_bit x i = not (bit_and x (2 ^ i) == 0)

abbrev same : Bool → Bool → Bool
same true b = b
same false b = not b

same→eq : (a b : Bool) → same a b ≡ true → a ≡ b
same→eq a b h = ground arith

abbrev or_entry : ℕ → ℕ → ℕ → Bool
or_entry x i j = same (test_bit (bit_or x (2 ^ i)) j) ((i == j) || test_bit x j)

abbrev and_entry : ℕ → ℕ → ℕ → Bool
and_entry x i j = same (test_bit (bit_and x (255 - 2 ^ i)) j) (not (i == j) && test_bit x j)

or_table : all_below 256 (λ x. all_below 8 (λ i. all_below 8 (or_entry x i))) ≡ true
unfolding all_below
or_table = refl

and_table : all_below 256 (λ x. all_below 8 (λ i. all_below 8 (and_entry x i))) ≡ true
unfolding all_below
and_table = refl

-- Setting bit `i` of a byte sets that bit and no other.
pub test_bit-or :
    (x i j : ℕ) → x < 256 → i < 8 → j < 8 → test_bit (bit_or x (2 ^ i)) j ≡ (i == j) || test_bit x j
test_bit-or x i j hx hi hj =
    same→eq _ _ (all_below_sound_three 256 8 8 or_entry x i j or_table hx hi hj)

-- Clearing bit `i` of a byte clears that bit and no other.
pub test_bit-and :
    (x i j : ℕ)
    → x < 256
    → i < 8
    → j < 8
    → test_bit (bit_and x (255 - 2 ^ i)) j ≡ not (i == j) && test_bit x j
test_bit-and x i j hx hi hj =
    same→eq _ _ (all_below_sound_three 256 8 8 and_entry x i j and_table hx hi hj)

or_bound : all_below 256 (λ x. all_below 8 (λ i. ltb (bit_or x (2 ^ i)) 256)) ≡ true
unfolding all_below
or_bound = refl

and_bound : all_below 256 (λ x. all_below 8 (λ i. ltb (bit_and x (255 - 2 ^ i)) 256)) ≡ true
unfolding all_below
and_bound = refl

pub or-lt : (x i : ℕ) → x < 256 → i < 8 → bit_or x (2 ^ i) < 256
or-lt x i hx hi = ltb→lt _ _ (
    all_below_sound 8 _ i
      (all_below_sound 256 (λ x. all_below 8 (λ i. ltb (bit_or x (2 ^ i)) 256)) x or_bound hx) hi)

pub and-lt : (x i : ℕ) → x < 256 → i < 8 → bit_and x (255 - 2 ^ i) < 256
and-lt x i hx hi = ltb→lt _ _ (
    all_below_sound 8 _ i
      (all_below_sound 256 (λ x. all_below 8 (λ i. ltb (bit_and x (255 - 2 ^ i)) 256)) x and_bound
        hx)
      hi)
