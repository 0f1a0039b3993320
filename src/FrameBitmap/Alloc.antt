-- ===== src/FrameBitmap/Alloc.antt =====
-- `fb_alloc` and `fb_count_free` of kernel/mm/frame_bitmap.c against what they promise.
use thunity_os.Base.{
  ℕ, zero, suc, ◌+◌, ◌*◌, ◌/◌, ◌%◌, ◌^◌, ◌≤◌, ◌<◌, bit_or, bit_and, ◌≡◌, refl, ap, ap₂, ◌∙◌, ◌⊎◌,
  inl, inr, true, false, not, List, get_or, set, u8, u32, ltb, leb, ◌==◌, if◌then◌else◌, Bool-cases,
  ltb→lt, leb→le, ==→eq, arith,
}
use thunity_os.Base.Bits.{test_bit}
use thunity_os.FrameBitmap.{
  fb_none, bitmap_bytes, fb_mark_used, fb_test, Scan, found, next, bit_loop, byte_loop, fb_alloc,
  count_loop, fb_count_free,
}
use thunity_os.FrameBitmap.Marks.{fb_test-bit}
use thunity_os.FrameBitmap.Regions.{all_ones}

-- Every frame below `n`, of those below `total`, is used.
abbrev pub UsedBelow : List ℕ → ℕ → ℕ → Type 0
UsedBelow bm total n = (g : ℕ) → g < n → g < total → fb_test bm g ≡ true

-- What an allocation returns: no frame, when all are used, and the bitmap as it was; or the lowest
-- free frame, and the bitmap with that frame marked used.
abbrev pub IsFirstFree : List ℕ → ℕ → ℕ × List ℕ → Type 0
IsFirstFree bm total (r, bm') =
    ((r ≡ fb_none) × (bm' ≡ bm) × UsedBelow bm total total)
    ⊎ ((r < total) × (fb_test bm r ≡ false) × UsedBelow bm total r × (bm' ≡ fb_mark_used bm r))

abbrev ScanOk : List ℕ → ℕ → ℕ → Scan → Type 0
ScanOk bm b total (found r bm') = IsFirstFree bm total (r, bm')
ScanOk bm b total next = UsedBelow bm total (b * 8 + 8)

module _ (bm : List ℕ) (total b : ℕ) where
  fb_test_at :
      (bit frame : ℕ)
      → bit < 8
      → frame ≡ b * 8 + bit
      → fb_test bm frame ≡ not (bit_and (get_or bm b 0) (2 ^ bit) == 0)
  fb_test_at bit frame h e =
      let q : frame / 8 ≡ b = omega arith in
      let r : frame % 8 ≡ bit = omega arith in
      fb_test-bit bm frame ∙ ap₂ (λ i j. test_bit (get_or bm i 0) j) q r

  mark_at :
      (bit frame : ℕ)
      → bit < 8
      → frame ≡ b * 8 + bit
      → set bm b (bit_or (get_or bm b 0) (u8 (2 ^ bit))) ≡ fb_mark_used bm frame
  unfolding fb_mark_used
  mark_at bit frame h e =
      let q : b ≡ frame / 8 = omega arith in
      let r : bit ≡ frame % 8 = omega arith in
      ap₂ (λ i j. set bm i (bit_or (get_or bm i 0) (u8 (2 ^ j)))) q r

  bit_loop-ScanOk :
      (left bit : ℕ)
      → bit + left ≡ 8
      → b * 8 + 8 < 2 ^ 32
      → UsedBelow bm total (b * 8 + bit)
      → ScanOk bm b total (bit_loop left bit b bm total)
  unfolding bit_loop
  bit_loop-ScanOk zero bit e small before = λ g lt lt'. before g (omega arith) lt'
  bit_loop-ScanOk (suc left) bit e small before = elim (Bool-cases (leb total frame)) [
    | inl out ↦
        rw out (inl (refl, refl, λ g _ lt. before g (omega (arith, leb→le total frame out)) lt))
    | inr low ↦ rw low (elim (Bool-cases (bit_and (get_or bm b 0) (2 ^ bit) == 0)) [
      | inl clear ↦ rw clear (
          inr (
            ground arith,
            fb_test_at bit frame (omega arith) at ∙ ap not clear,
            λ g lt lt'. before g (omega arith) lt',
            mark_at bit frame (omega arith) at,
          ))
      | inr used ↦
          rw used
            (bit_loop-ScanOk left (bit + 1) (omega arith) small (λ g lt lt'. after used g lt lt'))
    ])
  ]
    where
      frame : ℕ
      frame = u32 (b * 8 + bit)

      at : frame ≡ b * 8 + bit
      at = omega arith

      after :
          (bit_and (get_or bm b 0) (2 ^ bit) == 0) ≡ false → UsedBelow bm total (b * 8 + (bit + 1))
      after used g lt lt' = elim (Bool-cases (g == frame)) [
        | inl same ↦ rw (==→eq g frame same) (fb_test_at bit frame (omega arith) at ∙ ap not used)
        | inr ne ↦ before g (ground arith) lt'
      ]

-- The outer loop leaves with what the inner one found, or goes on to `rest`.
after_bits :
    (bm : List ℕ) (total b : ℕ) (rest : ℕ × List ℕ) (s : Scan)
    → ScanOk bm b total s
    → (UsedBelow bm total (b * 8 + 8) → IsFirstFree bm total rest)
    → IsFirstFree bm total (elim s [ found frame bm' ↦ (frame, bm') | next ↦ rest ])
after_bits bm total b rest (found r bm') h k = h
after_bits bm total b rest next h k = k h

byte_loop-IsFirstFree :
    (bm : List ℕ) (total left b : ℕ)
    → total ≤ (b + left) * 8
    → (b + left) * 8 < 2 ^ 32
    → UsedBelow bm total (b * 8)
    → IsFirstFree bm total (byte_loop left b bm total)
unfolding byte_loop
byte_loop-IsFirstFree bm total zero b room small before =
    inl (refl, refl, λ g lt lt'. before g (omega arith) lt')
byte_loop-IsFirstFree bm total (suc left) b room small before =
    let go = byte_loop-IsFirstFree bm total left (b + 1) (omega arith) (omega arith) in
    elim (Bool-cases (get_or bm b 0 == 0xFF)) [
      | inl full ↦ rw full (go (λ g lt lt'. skipped full g lt lt'))
      | inr some_free ↦ rw some_free (
          after_bits bm total b (byte_loop left (b + 1) bm total) (bit_loop 8 0 b bm total)
            (bit_loop-ScanOk bm total b 8 0 (omega arith) (omega arith)
              (λ g lt lt'. before g (omega arith) lt'))
            (λ u. go (λ g lt lt'. u g (omega arith) lt')))
    ]
  where
    skipped : (get_or bm b 0 == 0xFF) ≡ true → UsedBelow bm total ((b + 1) * 8)
    skipped full g lt lt' = elim (Bool-cases (ltb g (b * 8))) [
      | inl low ↦ before g (ltb→lt g (b * 8) low) lt'
      | inr at ↦
          let q : g / 8 ≡ b = ground arith in
          fb_test-bit bm g
          ∙ ap (λ i. test_bit (get_or bm i 0) (g % 8)) q
          ∙ ap (λ x. test_bit x (g % 8)) (==→eq (get_or bm b 0) 0xFF full)
          ∙ all_ones (g % 8) (omega arith)
    ]

-- `fb_alloc` returns the lowest free frame below the total and marks just that frame, or FB_NONE with
-- the bitmap unchanged when every frame is used, for a total more than 7 below 2^32.
pub fb_alloc-IsFirstFree :
    (bm : List ℕ) (total : ℕ) → total + 7 < 2 ^ 32 → IsFirstFree bm total (fb_alloc bm total)
unfolding fb_alloc
fb_alloc-IsFirstFree bm total small =
    byte_loop-IsFirstFree bm total (bitmap_bytes total) 0 (omega arith) (omega arith)
      (λ g lt lt'. elim (not_below g lt) [ ])
  where
    not_below : (g : ℕ) → g < 0 * 8 → ⊥
    not_below g lt = omega arith

-- How many of the frames `[f, f + left)` are free.
abbrev pub free_in : List ℕ → ℕ → ℕ → ℕ
free_in bm f zero = 0
free_in bm f (suc left) = (if fb_test bm f then 0 else 1) + free_in bm (f + 1) left

pub free_in-le : (bm : List ℕ) (f left : ℕ) → free_in bm f left ≤ left
free_in-le bm f zero = omega arith
free_in-le bm f (suc left) = ground (arith, free_in-le bm (f + 1) left)

count_loop_lem :
    (left f : ℕ) (bm : List ℕ) (count : ℕ)
    → count + left < 2 ^ 32
    → count_loop left f bm count ≡ count + free_in bm f left
unfolding count_loop
count_loop_lem zero f bm count h = omega arith
count_loop_lem (suc left) f bm count h = elim (Bool-cases (fb_test bm f)) [
  | inl u ↦ rw u (omega (arith, count_loop_lem left (f + 1) bm count))
  | inr e ↦ rw e (omega (arith, count_loop_lem left (f + 1) bm (u32 (count + 1))))
]

-- Below 2^32 frames, `fb_count_free` is the number of frames below the total whose bit is clear.
pub fb_count_free_lem :
    (bm : List ℕ) (total : ℕ) → total < 2 ^ 32 → fb_count_free bm total ≡ free_in bm 0 total
unfolding fb_count_free
fb_count_free_lem bm total h = omega (arith, count_loop_lem total 0 bm 0)

-- Two bitmaps that agree on the frames counted have as many free.
pub free_in_ext :
    (bm bm' : List ℕ) (f left : ℕ)
    → ((g : ℕ) → f ≤ g → g < f + left → fb_test bm' g ≡ fb_test bm g)
    → free_in bm' f left ≡ free_in bm f left
free_in_ext bm bm' f zero h = refl
free_in_ext bm bm' f (suc left) h = rw (h f (omega arith) (omega arith)) (
    ap (λ k. (if fb_test bm f then 0 else 1) + k)
      (free_in_ext bm bm' (f + 1) left (λ g lo hi. h g (omega arith) (omega arith))))

-- A change of one free frame of those counted to used takes one from the count.
pub free_in_used :
    (bm bm' : List ℕ) (r f left : ℕ)
    → f ≤ r
    → r < f + left
    → fb_test bm r ≡ false
    → ((g : ℕ) → fb_test bm' g ≡ (if r == g then true else fb_test bm g))
    → free_in bm' f left + 1 ≡ free_in bm f left
free_in_used bm bm' r f zero lo hi e h = absurd (omega arith)
free_in_used bm bm' r f (suc left) lo hi e h = elim (Bool-cases (r == f)) [
  | inl at ↦
      let q : r ≡ f = ==→eq r f at in
      let same : free_in bm' (f + 1) left ≡ free_in bm (f + 1) left =
        free_in_ext bm bm' (f + 1) left (λ g lo' hi'. ground (arith, h g)) in
      ground (arith, h f, same)
  | inr ne ↦ ground (arith, h f, free_in_used bm bm' r (f + 1) left)
]
