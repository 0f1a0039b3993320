-- ===== src/FrameBitmap/Examples.antt =====
-- Tests of the bitmap of kernel/mm/frame_bitmap.c, on two bytes: frames 0 to 11 are used, 12 to 15 free.
use thunity_os.Base.{ℕ, zero, suc, ◌≡◌, refl, true, List, [], ◌∷◌, arith}
use thunity_os.FrameBitmap.{
  fb_init, fb_mark_used, fb_mark_free, fb_test, region_loop, fb_mark_region_used, bit_loop,
  byte_loop, fb_alloc, fb_free, count_loop, fb_count_free,
}
use thunity_os.FrameBitmap.Marks.{IsBytes}
use thunity_os.FrameBitmap.Regions.{fb_test-init}
use thunity_os.FrameBitmap.Alloc.{IsFirstFree, fb_alloc-IsFirstFree}

abbrev two_bytes : List ℕ
two_bytes = 0xFF ∷ 0x0F ∷ []

two_bytes-IsBytes : IsBytes two_bytes
two_bytes-IsBytes zero = omega arith
two_bytes-IsBytes (suc zero) = omega arith
two_bytes-IsBytes (suc (suc i)) = omega arith

takes_frame_12 : fb_alloc two_bytes 16 ≡ (12, 0xFF ∷ 0x1F ∷ [])
unfolding fb_alloc byte_loop bit_loop
takes_frame_12 = refl

counts_four : fb_count_free (fb_free (fb_mark_region_used two_bytes 16 10 4) 3) 16 ≡ 3
unfolding fb_count_free fb_free fb_mark_region_used region_loop fb_mark_used fb_mark_free fb_test
    count_loop
counts_four = refl

fb_alloc-IsFirstFree_example : IsFirstFree two_bytes 16 (fb_alloc two_bytes 16)
fb_alloc-IsFirstFree_example = fb_alloc-IsFirstFree two_bytes 16 (omega arith)

fb_init_example : fb_test (fb_init two_bytes 16) 13 ≡ true
fb_init_example = fb_test-init two_bytes 16 (omega arith) (omega arith) 13 (omega arith)
