-- ===== src/FrameBitmap/Marks.antt =====
-- What one mark of kernel/mm/frame_bitmap.c does to every frame of the bitmap, and the loops that mark
-- a region or the whole bitmap.
use thunity_os.Base.{
  ℕ, ◌-◌, ◌*◌, ◌/◌, ◌%◌, ◌^◌, ◌<◌, bit_and, bit_or, ◌≡◌, refl, Bool, true, false, List, length,
  get_or, length-set, get_or-set, ltb, ◌==◌, if◌then◌else◌, ltb→lt, arith,
}
use thunity_os.Base.Bits.{test_bit, test_bit-or, test_bit-and, or-lt, and-lt}
use thunity_os.Base.Tables.{all_below, all_below_sound}
use thunity_os.FrameBitmap.{bit_mask, fb_mark_used, fb_mark_free, fb_test}

-- Every cell of the array holds a byte.
abbrev pub IsBytes : List ℕ → Type 0
IsBytes bm = (i : ℕ) → get_or bm i 0 < 256

pow_small : (k : ℕ) → k < 8 → 2 ^ k < 256
pow_small k h = ltb→lt _ _ (all_below_sound 8 (λ i. ltb (2 ^ i) 256) k table h)
  where
    table : all_below 8 (λ i. ltb (2 ^ i) 256) ≡ true
    table = unfold all_below in refl

pub mask_lem : (f : ℕ) → bit_mask f ≡ 2 ^ (f % 8)
mask_lem f = omega (arith, pow_small (f % 8) (omega arith))

pub fb_test-bit : (bm : List ℕ) (f : ℕ) → fb_test bm f ≡ test_bit (get_or bm (f / 8) 0) (f % 8)
unfolding fb_test
fb_test-bit bm f = rw (mask_lem f)

module _ (bm : List ℕ) (f : ℕ) (bytes : IsBytes bm) (room : f < 8 * length bm) where
  -- Marking a frame used sets its bit and no other.
  pub fb_test-mark_used :
      (g : ℕ) → fb_test (fb_mark_used bm f) g ≡ (if f == g then true else fb_test bm g)
  unfolding fb_mark_used
  fb_test-mark_used g =
      rw (fb_test-bit (fb_mark_used bm f) g, fb_test-bit bm g, mask_lem f)
        (ground (
          arith,
          get_or-set bm (f / 8) (g / 8) (bit_or (get_or bm (f / 8) 0) (2 ^ (f % 8))) 0,
          test_bit-or (get_or bm (f / 8) 0) (f % 8) (g % 8) (bytes (f / 8)) (omega arith)
              (omega arith),
        ))

  -- Marking a frame free clears its bit and no other.
  pub fb_test-mark_free :
      (g : ℕ) → fb_test (fb_mark_free bm f) g ≡ (if f == g then false else fb_test bm g)
  unfolding fb_mark_free
  fb_test-mark_free g =
      rw (fb_test-bit (fb_mark_free bm f) g, fb_test-bit bm g, mask_lem f)
        (ground (
          arith,
          get_or-set bm (f / 8) (g / 8) (bit_and (get_or bm (f / 8) 0) (255 - 2 ^ (f % 8))) 0,
          test_bit-and (get_or bm (f / 8) 0) (f % 8) (g % 8) (bytes (f / 8)) (omega arith)
              (omega arith),
        ))

  pub fb_mark_used-IsBytes : IsBytes (fb_mark_used bm f)
  unfolding fb_mark_used
  fb_mark_used-IsBytes i = rw (mask_lem f) (
      ground (
        arith,
        get_or-set bm (f / 8) i (bit_or (get_or bm (f / 8) 0) (2 ^ (f % 8))) 0,
        bytes i,
        or-lt (get_or bm (f / 8) 0) (f % 8) (bytes (f / 8)) (omega arith),
      ))

  pub fb_mark_free-IsBytes : IsBytes (fb_mark_free bm f)
  unfolding fb_mark_free
  fb_mark_free-IsBytes i = rw (mask_lem f) (
      ground (
        arith,
        get_or-set bm (f / 8) i (bit_and (get_or bm (f / 8) 0) (255 - 2 ^ (f % 8))) 0,
        bytes i,
        and-lt (get_or bm (f / 8) 0) (f % 8) (bytes (f / 8)) (omega arith),
      ))

pub length-fb_mark_used : (bm : List ℕ) (f : ℕ) → length (fb_mark_used bm f) ≡ length bm
unfolding fb_mark_used
length-fb_mark_used bm f = length-set bm _ _

pub length-fb_mark_free : (bm : List ℕ) (f : ℕ) → length (fb_mark_free bm f) ≡ length bm
unfolding fb_mark_free
length-fb_mark_free bm f = length-set bm _ _

-- What a mark must do for a loop over it to be read as one write to a region: it writes `v` to its
-- frame, and keeps the array an array of as many bytes.
pub record Marks (mark : List ℕ → ℕ → List ℕ) (v : Bool) : Type 0 where
  pub test :
      (bm : List ℕ) (f g : ℕ)
      → IsBytes bm
      → f < 8 * length bm
      → fb_test (mark bm f) g ≡ (if f == g then v else fb_test bm g)
  pub bytes : (bm : List ℕ) (f : ℕ) → IsBytes bm → f < 8 * length bm → IsBytes (mark bm f)
  pub same_length : (bm : List ℕ) (f : ℕ) → length (mark bm f) ≡ length bm

pub used_Marks : Marks fb_mark_used true
used_Marks = record {
  test = λ bm f g b r. fb_test-mark_used bm f b r g;
  bytes = λ bm f b r. fb_mark_used-IsBytes bm f b r;
  same_length = length-fb_mark_used;
}

pub free_Marks : Marks fb_mark_free false
free_Marks = record {
  test = λ bm f g b r. fb_test-mark_free bm f b r g;
  bytes = λ bm f b r. fb_mark_free-IsBytes bm f b r;
  same_length = length-fb_mark_free;
}
