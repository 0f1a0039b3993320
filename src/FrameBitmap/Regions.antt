-- ===== src/FrameBitmap/Regions.antt =====
-- The region loops and `fb_init` of kernel/mm/frame_bitmap.c, frame by frame.
use thunity_os.Base.{
  ℕ, zero, suc, ◌+◌, ◌*◌, ◌/◌, ◌%◌, ◌^◌, ◌≤◌, ◌<◌, ◌≡◌, refl, ap, ◌∙◌, inl, inr, Bool, true, false,
  ◌&&◌, List, length, get_or, set, length-set, get_or-set, u32, ltb, leb, if◌then◌else◌, Bool-cases,
  lt→ltb, arith,
}
use thunity_os.Base.Bits.{test_bit}
use thunity_os.Base.Tables.{all_below, all_below_sound}
use thunity_os.FrameBitmap.{
  fb_test, region_loop, fb_mark_region_used, fb_mark_region_free, init_loop, fb_init, bitmap_bytes,
}
use thunity_os.FrameBitmap.Marks.{IsBytes, Marks, used_Marks, free_Marks, fb_test-bit}

-- The frames of `[first, first + count)` below `total`.
abbrev pub in_region : ℕ → ℕ → ℕ → ℕ → Bool
in_region total first count g = leb first g && (ltb g (first + count) && ltb g total)

module _ {mark : List ℕ → ℕ → List ℕ} {v : Bool} (m : Marks mark v) (total first : ℕ) where
  region_loop_lem :
      (left i : ℕ) (bm : List ℕ)
      → IsBytes bm
      → total ≤ 8 * length bm
      → total < 2 ^ 32
      → first + i < 2 ^ 32
      → (IsBytes (region_loop mark total first left i bm))
        × (length (region_loop mark total first left i bm) ≡ length bm)
        × ((g : ℕ)
            → fb_test (region_loop mark total first left i bm) g
              ≡ (if in_region total (first + i) left g then v else fb_test bm g))
  unfolding region_loop
  region_loop_lem zero i bm b room small low = (b, refl, λ g. ground arith)
  region_loop_lem (suc left) i bm b room small low =
      let f : ℕ = u32 (first + i) in
      let ends : ltb f total ≡ true → first + (i + 1) < 2 ^ 32 = ground arith in
      let here : ltb f total ≡ true → f < 8 * length bm = ground arith in
      elim (Bool-cases (ltb f total)) [
        | inl t ↦
            let n : length (mark bm f) ≡ length bm = m.same_length bm f in
            let (b', n', all) =
              region_loop_lem left (i + 1) (mark bm f) (m.bytes bm f b (here t)) (omega arith) small
                (ends t) in
            rw t (b', n' ∙ n, λ g. ground (arith, all g, m.test bm f g b (here t)))
        | inr e ↦ rw e (b, refl, λ g. ground arith)
      ]

module _ (bm : List ℕ) (total first count : ℕ) where
  -- The loop of `fb_mark_region_used` marks every frame of `[first, first + count)` below `total` and no
  -- other, on any 32-bit `first` and `total` that the bitmap holds, and for every `count`.
  pub fb_test-mark_region_used :
      IsBytes bm
      → total ≤ 8 * length bm
      → total < 2 ^ 32
      → first < 2 ^ 32
      → (g : ℕ)
      → fb_test (fb_mark_region_used bm total first count) g
        ≡ (if in_region total first count g then true else fb_test bm g)
  unfolding fb_mark_region_used
  fb_test-mark_region_used b room small low g =
      let e : first + 0 ≡ first = omega arith in
      (region_loop_lem used_Marks total first count 0 bm b room small (omega arith)).2 g
      ∙ ap (λ k. if in_region total k count g then true else fb_test bm g) e

  -- The loop of `fb_mark_region_free` frees every frame of `[first, first + count)` below `total` and
  -- no other, on any 32-bit `first` and `total` that the bitmap holds, and for every `count`.
  pub fb_test-mark_region_free :
      IsBytes bm
      → total ≤ 8 * length bm
      → total < 2 ^ 32
      → first < 2 ^ 32
      → (g : ℕ)
      → fb_test (fb_mark_region_free bm total first count) g
        ≡ (if in_region total first count g then false else fb_test bm g)
  unfolding fb_mark_region_free
  fb_test-mark_region_free b room small low g =
      let e : first + 0 ≡ first = omega arith in
      (region_loop_lem free_Marks total first count 0 bm b room small (omega arith)).2 g
      ∙ ap (λ k. if in_region total k count g then false else fb_test bm g) e

-- `fb_init` on any array: what a cell holds after it.
init_loop_lem :
    (left i : ℕ) (bm : List ℕ) (j : ℕ)
    → i + left ≤ length bm
    → get_or (init_loop left i bm) j 0
      ≡ (if leb i j && ltb j (i + left) then 255 else get_or bm j 0)
unfolding init_loop
init_loop_lem zero i bm j h = ground arith
init_loop_lem (suc left) i bm j h = ground (
  arith,
  init_loop_lem left (i + 1) (set bm i 255) j,
  length-set bm i 255,
  get_or-set bm i j 255 0,
)

length-init_loop : (left i : ℕ) (bm : List ℕ) → length (init_loop left i bm) ≡ length bm
unfolding init_loop
length-init_loop zero i bm = refl
length-init_loop (suc left) i bm =
    length-init_loop left (i + 1) (set bm i 255) ∙ length-set bm i 255

pub all_ones : (i : ℕ) → i < 8 → test_bit 255 i ≡ true
all_ones i h = all_below_sound 8 (test_bit 255) i table h
  where
    table : all_below 8 (test_bit 255) ≡ true
    table = unfold all_below in refl

module _ (bm : List ℕ) (total : ℕ) (small : total + 7 < 2 ^ 32) (room : total ≤ 8 * length bm) where
  pub length-fb_init : length (fb_init bm total) ≡ length bm
  unfolding fb_init
  length-fb_init = length-init_loop (bitmap_bytes total) 0 bm

  init_cell :
      (j : ℕ)
      → get_or (fb_init bm total) j 0 ≡ (if ltb j (bitmap_bytes total) then 255 else get_or bm j 0)
  unfolding fb_init
  init_cell j = ground (arith, init_loop_lem (bitmap_bytes total) 0 bm j (omega arith))

  pub fb_init-IsBytes : IsBytes bm → IsBytes (fb_init bm total)
  fb_init-IsBytes b i = ground (arith, init_cell i, b i)

  -- After `fb_init` every frame below the total is used.
  pub fb_test-init : (g : ℕ) → g < total → fb_test (fb_init bm total) g ≡ true
  fb_test-init g h =
      rw
        (
          fb_test-bit (fb_init bm total) g,
          init_cell (g / 8),
          lt→ltb (g / 8) (bitmap_bytes total) (omega arith),
        )
        (all_ones (g % 8) (omega arith))
