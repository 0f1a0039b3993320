-- ===== src/Pmm/Examples.antt =====
-- Tests of kernel/mm/pmm.c: sixteen frames, of which the first eight are protected and four more in
-- use.
use thunity_os.Base.{
  ℕ, zero, suc, ◌+◌, ◌*◌, ◌^◌, ◌<◌, ◌≡◌, ◌≢◌, refl, true, false, not, ◌||◌, List, [], ◌∷◌, arith,
}
use thunity_os.Base.Tables.{all_below, all_below_sound}
use thunity_os.FrameBitmap.{fb_test, fb_alloc, byte_loop, bit_loop}
use thunity_os.FrameBitmap.Marks.{IsBytes}
use thunity_os.Pmm.{
  Pmm, page_size, protected_in, pmm_is_protected, pmm_alloc_frame, freed, pmm_free_frame,
}
use thunity_os.Pmm.Reserve.{IsValid, covers, free_of}
use thunity_os.Pmm.Frames.{AllocOk, pmm_alloc_frame-AllocOk, pmm_alloc_frame-not_protected}
use thunity_os.Pmm.Free.{FreeOk, pmm_free_frame-FreeOk, pmm_free_frame-alloc_frame}
use thunity_os.Pmm.Clients.{here, next, allocate, release, Inv, Steps-Inv}

abbrev bitmap : List ℕ
bitmap = 0xFF ∷ 0x0F ∷ []

bitmap-IsBytes : IsBytes bitmap
bitmap-IsBytes zero = omega arith
bitmap-IsBytes (suc zero) = omega arith
bitmap-IsBytes (suc (suc i)) = omega arith

-- The allocator with one protected range.
abbrev sixteen : ℕ → ℕ → Pmm
sixteen start end = record {
  frame_bitmap = bitmap;
  total_frames = 16;
  usable_frames = 16;
  reserved_frames = 8;
  usable_bytes = 0x10000;
  mem_lower_kb = 0;
  mem_upper_kb = 64;
  mmap_addr_saved = 0;
  mmap_len_saved = 0;
  have_map = true;
  prot = record { start = start; end = end } ∷ [];
}

abbrev small : Pmm
small = sixteen 0 0x8000

covers_used : (f : ℕ) → f < 16 → (not (covers small.prot f) || fb_test bitmap f) ≡ true
unfolding all_below fb_test
covers_used f lt =
    all_below_sound 16 (λ g. not (covers small.prot g) || fb_test bitmap g) f table lt
  where
    table : all_below 16 (λ g. not (covers small.prot g) || fb_test bitmap g) ≡ true
    table = refl

small-IsValid : IsValid small
small-IsValid = record {
  bytes = bitmap-IsBytes;
  room = omega arith;
  small = omega arith;
  reserved = λ f lt c. ground (arith, covers_used f lt);
}

allocates_12 : (pmm_alloc_frame small).0 ≡ 12 * page_size
unfolding pmm_alloc_frame fb_alloc byte_loop bit_loop
allocates_12 = refl

not_zero : (pmm_alloc_frame small).0 ≢ 0
not_zero e = omega (arith, e, allocates_12)

frees_9 : (pmm_free_frame small 0x9000).0 ≡ freed
unfolding pmm_free_frame fb_test pmm_is_protected protected_in
frees_9 = refl

Steps-Inv_example : Inv (pmm_free_frame (pmm_alloc_frame small).1 (pmm_alloc_frame small).0).1 []
Steps-Inv_example =
    Steps-Inv small [] (pmm_free_frame (pmm_alloc_frame small).1 (pmm_alloc_frame small).0).1 []
      (next (next here (allocate (pmm_alloc_frame small).0 (pmm_alloc_frame small).1 refl not_zero))
        (release [] [] (pmm_alloc_frame small).0
          (pmm_free_frame (pmm_alloc_frame small).1 (pmm_alloc_frame small).0).1
          (pmm_free_frame (pmm_alloc_frame small).1 (pmm_alloc_frame small).0).0 refl refl))
      (record {
        valid = small-IsValid;
        no_wrap = (omega arith, tt);
        aligned = (refl, tt);
        frame_zero = refl;
        owned = tt;
      })

pmm_alloc_frame-AllocOk_example : AllocOk small (pmm_alloc_frame small)
pmm_alloc_frame-AllocOk_example = pmm_alloc_frame-AllocOk small small-IsValid

pmm_alloc_frame-not_protected_example : pmm_is_protected small 0xC123 ≡ false
pmm_alloc_frame-not_protected_example =
    pmm_alloc_frame-not_protected small 0xC123 small-IsValid (omega arith, tt) not_zero
      (omega (arith, allocates_12)) (omega (arith, allocates_12))

pmm_free_frame-FreeOk_example : FreeOk small 0x9000 (pmm_free_frame small 0x9000)
pmm_free_frame-FreeOk_example = pmm_free_frame-FreeOk small 0x9000

frees_9_whole : pmm_free_frame small 0x9000 ≡ (freed, (pmm_free_frame small 0x9000).1)
unfolding pmm_free_frame fb_test pmm_is_protected protected_in
frees_9_whole = refl

pmm_free_frame-alloc_frame_example :
    let (a, q) = pmm_alloc_frame small in
    ((pmm_free_frame q a).0 ≡ freed)
    × ((g : ℕ) → fb_test (pmm_free_frame q a).1.frame_bitmap g ≡ fb_test small.frame_bitmap g)
    × (free_of (pmm_free_frame q a).1 ≡ free_of small)
pmm_free_frame-alloc_frame_example =
    pmm_free_frame-alloc_frame small small-IsValid (omega arith, tt) not_zero

-- A range that begins inside page 7, as the Multiboot structure may.
abbrev inside_page : Pmm
inside_page = sixteen 0x7100 0x7174

inside_used : (f : ℕ) → f < 16 → (not (covers inside_page.prot f) || fb_test bitmap f) ≡ true
unfolding all_below fb_test
inside_used f lt =
    all_below_sound 16 (λ g. not (covers inside_page.prot g) || fb_test bitmap g) f table lt
  where
    table : all_below 16 (λ g. not (covers inside_page.prot g) || fb_test bitmap g) ≡ true
    table = refl

inside_page-IsValid : IsValid inside_page
inside_page-IsValid = record {
  bytes = bitmap-IsBytes;
  room = omega arith;
  small = omega arith;
  reserved = λ f lt c. ground (arith, inside_used f lt);
}

hole_7 : pmm_is_protected inside_page (7 * page_size) ≡ false
unfolding pmm_is_protected protected_in
hole_7 = refl

few_free : small.reserved_frames + free_of small < 2 ^ 32
unfolding fb_test
few_free = omega arith
