-- ===== src/Pmm/Frames.antt =====
-- `pmm_alloc_frame` and `pmm_free_frame` of kernel/mm/pmm.c, on every branch.
use thunity_os.Base.{
  ℕ, zero, suc, ◌+◌, ◌-◌, ◌*◌, ◌/◌, ◌^◌, ◌≤◌, ◌<◌, ◌≡◌, ◌≢◌, refl, sym, subst, ap, ◌∙◌, ◌⊎◌, inl,
  inr, true, false, List, [], ◌∷◌, length, ◌==◌, if◌then◌else◌, Bool-cases, ==→eq, arith,
}
use thunity_os.FrameBitmap.{fb_none, fb_test, fb_mark_used, fb_mark_free, fb_alloc}
use thunity_os.FrameBitmap.Marks.{
  fb_test-mark_used, fb_test-mark_free, fb_mark_used-IsBytes, fb_mark_free-IsBytes,
  length-fb_mark_used, length-fb_mark_free,
}
use thunity_os.FrameBitmap.Alloc.{UsedBelow, fb_alloc-IsFirstFree, free_in, free_in_used}
use thunity_os.Pmm.{Pmm, Prot, page_size, protected_in, pmm_is_protected, pmm_alloc_frame}
use thunity_os.Pmm.Reserve.{IsValid, covers, free_of}

-- The state with one frame's bit written.
abbrev pub taken : Pmm → ℕ → Pmm
taken p f = record p { frame_bitmap = fb_mark_used p.frame_bitmap f }

abbrev pub given_back : Pmm → ℕ → Pmm
given_back p f = record p { frame_bitmap = fb_mark_free p.frame_bitmap f }

none_free : (bm : List ℕ) (f n : ℕ) → UsedBelow bm (f + n) (f + n) → free_in bm f n ≡ 0
none_free bm f zero u = refl
none_free bm f (suc n) u =
    rw (u f (omega arith) (omega arith))
      (omega (arith, none_free bm (f + 1) n (λ g lt lt'. u g (omega arith) (omega arith))))

-- What an allocation does: it fails with 0 and no change when no frame is free, or takes the lowest
-- free frame.
abbrev pub AllocOk : Pmm → ℕ × Pmm → Type 0
AllocOk p (a, q) =
    ((a ≡ 0) × (q ≡ p) × (free_of p ≡ 0))
    ⊎ ((f : ℕ) × (a ≡ f * page_size)
        × (f < p.total_frames)
        × (fb_test p.frame_bitmap f ≡ false)
        × UsedBelow p.frame_bitmap p.total_frames f
        × (q ≡ taken p f))

-- On a valid state an allocation fails only when no frame is free, with the state unchanged; else it
-- returns the address of the lowest free frame and marks that frame and nothing else.
pub pmm_alloc_frame-AllocOk : (p : Pmm) → IsValid p → AllocOk p (pmm_alloc_frame p)
unfolding pmm_alloc_frame
pmm_alloc_frame-AllocOk p v = elim (Bool-cases (p.total_frames == 0)) [
  | inl empty ↦ rw empty (
      inl (
        refl,
        refl,
        none_free p.frame_bitmap 0 p.total_frames
            (λ g lt lt'. absurd (no_frame empty g (omega arith))),
      ))
  | inr some_frames ↦
      rw some_frames (elim (fb_alloc-IsFirstFree p.frame_bitmap p.total_frames small) [
        | inl full ↦ rw full.0 (
            inl (
              refl,
              ap (λ b. record p { frame_bitmap = b }) full.1,
              none_free p.frame_bitmap 0 p.total_frames
                  (λ g lt lt'. full.2 g (omega arith) (omega arith)),
            ))
        | inr got ↦ rw (not_none got.0) (
            inr (
              (fb_alloc p.frame_bitmap p.total_frames).0,
              omega (arith, got.0, v.small),
              got.0,
              got.1,
              got.2,
              ap (λ b. record p { frame_bitmap = b }) got.3,
            ))
      ])
]
  where
    small : p.total_frames + 7 < 2 ^ 32
    small = omega (arith, v.small)

    not_none :
        (fb_alloc p.frame_bitmap p.total_frames).0 < p.total_frames
        → ((fb_alloc p.frame_bitmap p.total_frames).0 == fb_none) ≡ false
    not_none lt = ground (arith, v.small)

    no_frame : (p.total_frames == 0) ≡ true → (g : ℕ) → g < p.total_frames → ⊥
    no_frame empty g lt = ground arith

-- A recorded range does not come within a page of 4 GiB, where rounding its end up would wrap.
abbrev pub NoWrap : List Prot → Type 0
NoWrap [] = Unit {0}
NoWrap (r ∷ rs) = (r.end + (page_size - 1) < 2 ^ 32) × NoWrap rs

-- A frame with a protected byte is one that the ranges cover.
pub protected-covers :
    (rs : List Prot) (f x : ℕ)
    → NoWrap rs
    → x / page_size ≡ f
    → protected_in rs x ≡ true
    → covers rs f ≡ true
unfolding protected_in
protected-covers [] f x w e h = h
protected-covers (r ∷ rs) f x w e h = ground (arith, protected-covers rs f x w.1 e)

-- On a valid state a free frame has no byte in a protected range.
pub free-not_protected :
    (p : Pmm) (f x : ℕ)
    → IsValid p
    → NoWrap p.prot
    → f < p.total_frames
    → fb_test p.frame_bitmap f ≡ false
    → x / page_size ≡ f
    → pmm_is_protected p x ≡ false
unfolding pmm_is_protected
free-not_protected p f x v w lt clear e = elim (Bool-cases (protected_in p.prot x)) [
  | inl inside ↦ cc (v.reserved f lt (protected-covers p.prot f x w e inside), clear)
  | inr outside ↦ outside
]

-- On a valid state whose ranges stay clear of 4 GiB, the frame that a successful allocation returns
-- has no byte in a protected range.
pub pmm_alloc_frame-not_protected :
    (p : Pmm) (x : ℕ)
    → IsValid p
    → NoWrap p.prot
    → (pmm_alloc_frame p).0 ≢ 0
    → (pmm_alloc_frame p).0 ≤ x
    → x < (pmm_alloc_frame p).0 + page_size
    → pmm_is_protected p x ≡ false
pmm_alloc_frame-not_protected p x v w ne lo hi = elim (pmm_alloc_frame-AllocOk p v) [
  | inl failed ↦ absurd (ne failed.0)
  | inr got ↦ free-not_protected p got.0 x v w got.2 got.3 (omega (arith, got.1))
]

-- Taking a free frame keeps the invariant and takes one from the free ones.
module _ (p : Pmm) (f : ℕ) (v : IsValid p) (lt : f < p.total_frames) where
  inside : f < 8 * length p.frame_bitmap
  inside = omega (arith, v.room)

  pub test_taken :
      (g : ℕ)
      → fb_test (taken p f).frame_bitmap g ≡ (if f == g then true else fb_test p.frame_bitmap g)
  test_taken = fb_test-mark_used p.frame_bitmap f v.bytes inside

  pub test_given_back :
      (g : ℕ)
      → fb_test (given_back p f).frame_bitmap g
        ≡ (if f == g then false else fb_test p.frame_bitmap g)
  test_given_back = fb_test-mark_free p.frame_bitmap f v.bytes inside

  pub taken-IsValid : IsValid (taken p f)
  taken-IsValid = record {
    bytes = fb_mark_used-IsBytes p.frame_bitmap f v.bytes inside;
    room = omega (arith, length-fb_mark_used p.frame_bitmap f, v.room);
    small = v.small;
    reserved = λ g lt' c. ground (arith, test_taken g, v.reserved g lt' c);
  }

  pub given_back-IsValid : covers p.prot f ≡ false → IsValid (given_back p f)
  given_back-IsValid free = record {
    bytes = fb_mark_free-IsBytes p.frame_bitmap f v.bytes inside;
    room = omega (arith, length-fb_mark_free p.frame_bitmap f, v.room);
    small = v.small;
    reserved = λ g lt' c. elim (Bool-cases (f == g)) [
      | inl same ↦ cc (free, c, ==→eq f g same)
      | inr ne ↦ rw (test_given_back g, ne) (v.reserved g lt' c)
    ];
  }

  pub free_taken : fb_test p.frame_bitmap f ≡ false → free_of (taken p f) + 1 ≡ free_of p
  free_taken clear =
      free_in_used p.frame_bitmap (taken p f).frame_bitmap f 0 p.total_frames (omega arith)
        (omega arith) clear test_taken

  pub free_given_back : fb_test p.frame_bitmap f ≡ true → free_of p + 1 ≡ free_of (given_back p f)
  free_given_back used =
      free_in_used (given_back p f).frame_bitmap p.frame_bitmap f 0 p.total_frames (omega arith)
        (omega arith) (ground (arith, test_given_back f)) (λ g. ground (arith, test_given_back g))

-- On a valid state an allocation keeps the invariant; a successful one takes exactly one from the
-- count of free frames.
pub pmm_alloc_frame-IsValid :
    (p : Pmm)
    → IsValid p
    → IsValid (pmm_alloc_frame p).1
      × ((pmm_alloc_frame p).0 ≢ 0 → free_of (pmm_alloc_frame p).1 + 1 ≡ free_of p)
pmm_alloc_frame-IsValid p v = elim (pmm_alloc_frame-AllocOk p v) [
  | inl failed ↦ (subst IsValid (sym failed.1) v, λ ne. absurd (ne failed.0))
  | inr got ↦
      let (f, a, lt, clear, below, e) = got in
      (
        subst IsValid (sym e) (taken-IsValid p f v lt),
        λ _. ap (λ q. free_of q + 1) e ∙ free_taken p f v lt clear,
      )
]
