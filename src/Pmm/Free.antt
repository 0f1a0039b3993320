-- ===== src/Pmm/Free.antt =====
-- `pmm_free_frame` of kernel/mm/pmm.c: its effect, how it undoes an allocation, and the partial page
-- that it does not guard.
use thunity_os.Base.{
  ℕ, ◌+◌, ◌*◌, ◌/◌, ◌%◌, ◌≤◌, ◌<◌, ◌≡◌, ◌≢◌, refl, sym, subst, ap, ◌∙◌, ◌⊎◌, inl, inr, true, false,
  not, List, [], ◌∷◌, leb, ◌==◌, if◌then◌else◌, Bool-cases, leb→le, arith,
}
use thunity_os.FrameBitmap.{fb_test}
use thunity_os.Pmm.{
  Pmm, Prot, page_size, protected_in, pmm_is_protected, pmm_alloc_frame, FreeResult, freed,
  bad_address, protected, already_free, pmm_free_frame,
}
use thunity_os.Pmm.Reserve.{IsValid, covers, free_of}
use thunity_os.Pmm.Frames.{
  taken, given_back, test_taken, test_given_back, taken-IsValid, given_back-IsValid,
  free_given_back, pmm_alloc_frame-AllocOk, free_taken, free-not_protected, NoWrap,
}

-- What a call of `pmm_free_frame` does: an error leaves the state alone, and success frees the one
-- frame at the address, which was used and is not protected.
abbrev pub FreeOk : Pmm → ℕ → FreeResult × Pmm → Type 0
FreeOk p a (freed, q) =
    (f : ℕ) × (a ≡ f * page_size)
    × (f < p.total_frames)
    × (pmm_is_protected p a ≡ false)
    × (fb_test p.frame_bitmap f ≡ true)
    × (q ≡ given_back p f)
FreeOk p a (bad_address, q) = (q ≡ p) × ((a % page_size ≢ 0) ⊎ (p.total_frames ≤ a / page_size))
FreeOk p a (protected, q) = (q ≡ p) × (pmm_is_protected p a ≡ true)
FreeOk p a (already_free, q) = (q ≡ p) × (fb_test p.frame_bitmap (a / page_size) ≡ false)

-- `pmm_free_frame` changes the state only when it returns 0: it then frees the one frame at the
-- address, a page address below the total, which was used and is not protected. -1 means an address
-- inside a page or out of range, -2 a protected address, -3 a free frame.
pub pmm_free_frame-FreeOk : (p : Pmm) (a : ℕ) → FreeOk p a (pmm_free_frame p a)
unfolding pmm_free_frame
pmm_free_frame-FreeOk p a = elim (Bool-cases (a % page_size == 0)) [
  | inr odd ↦ rw odd (refl, inl (ground arith))
  | inl even ↦ rw even (elim (Bool-cases (leb p.total_frames (a / page_size))) [
    | inl out ↦ rw out (refl, inr (leb→le p.total_frames (a / page_size) out))
    | inr low ↦ rw low (elim (Bool-cases (pmm_is_protected p a)) [
      | inl kept ↦ rw kept (refl, kept)
      | inr open_range ↦ rw open_range (elim (Bool-cases (fb_test p.frame_bitmap (a / page_size))) [
        | inl used ↦ rw used (a / page_size, ground arith, ground arith, open_range, used, refl)
        | inr clear ↦ rw clear (refl, clear)
      ])
    ])
  ])
]

-- An address in the first page of no partial range: every range begins on a page boundary.
abbrev pub IsAligned : List Prot → Type 0
IsAligned [] = Unit {0}
IsAligned (r ∷ rs) = (r.start % page_size ≡ 0) × IsAligned rs

covers-protected :
    (rs : List Prot) (f : ℕ)
    → IsAligned rs
    → covers rs f ≡ true
    → protected_in rs (f * page_size) ≡ true
unfolding protected_in
covers-protected [] f al h = h
covers-protected (r ∷ rs) f al h = ground (arith, covers-protected rs f al.1)

-- `pmm_free_frame` keeps the invariant, whatever it is called with, where every protected range begins
-- on a page boundary; when it succeeds there is exactly one free frame more.
pub pmm_free_frame-IsValid :
    (p : Pmm) (a : ℕ)
    → IsValid p
    → IsAligned p.prot
    → IsValid (pmm_free_frame p a).1
      × ((pmm_free_frame p a).0 ≡ freed → free_of (pmm_free_frame p a).1 ≡ free_of p + 1)
pmm_free_frame-IsValid p a v al = go (pmm_free_frame p a) (pmm_free_frame-FreeOk p a)
  where
    kept : (f : ℕ) → covers p.prot f ≡ true → pmm_is_protected p (f * page_size) ≡ true
    kept f c = unfold pmm_is_protected in covers-protected p.prot f al c

    go :
        (r : FreeResult × Pmm)
        → FreeOk p a r
        → IsValid r.1 × (r.0 ≡ freed → free_of r.1 ≡ free_of p + 1)
    go (freed, q) (f, e, lt, open_range, used, same) =
        let clear : covers p.prot f ≡ false = elim (Bool-cases (covers p.prot f)) [
          | inl c ↦ cc (ap (pmm_is_protected p) e, open_range, kept f c)
          | inr c ↦ c
        ] in
        (
          subst IsValid (sym same) (given_back-IsValid p f v lt clear),
          λ _. ap free_of same ∙ sym (free_given_back p f v lt used),
        )
    go (bad_address, q) h = (subst IsValid (sym h.0) v, λ e. cc)
    go (protected, q) h = (subst IsValid (sym h.0) v, λ e. cc)
    go (already_free, q) h = (subst IsValid (sym h.0) v, λ e. cc)

-- A call with the address of a frame that the bitmap has.
pub pmm_free_frame_page :
    (p : Pmm) (f : ℕ)
    → f < p.total_frames
    → pmm_free_frame p (f * page_size) ≡ (
        if pmm_is_protected p (f * page_size)
        then (protected, p)
        else if not (fb_test p.frame_bitmap f)
        then (already_free, p)
        else (freed, given_back p f))
unfolding pmm_free_frame
pmm_free_frame_page p f lt =
    let page : f * page_size / page_size ≡ f = omega arith in
    let even : (f * page_size % page_size == 0) ≡ true = ground arith in
    let low : leb p.total_frames f ≡ false = ground arith in rw (even, page, low)

pub protected_given_back :
    (p : Pmm) (f a : ℕ) → pmm_is_protected (given_back p f) a ≡ pmm_is_protected p a
unfolding pmm_is_protected
protected_given_back p f a = refl

pub protected_taken : (p : Pmm) (f a : ℕ) → pmm_is_protected (taken p f) a ≡ pmm_is_protected p a
unfolding pmm_is_protected
protected_taken p f a = refl

-- On a valid state, after a call that freed a frame, a second call with the same address is refused as
-- already free and changes nothing.
pub pmm_free_frame_twice :
    (p q : Pmm) (a : ℕ)
    → IsValid p
    → pmm_free_frame p a ≡ (freed, q)
    → pmm_free_frame q a ≡ (already_free, q)
pmm_free_frame_twice p q a v h = go (subst (FreeOk p a) h (pmm_free_frame-FreeOk p a))
  where
    go : FreeOk p a (freed, q) → pmm_free_frame q a ≡ (already_free, q)
    go (f, e, lt, open_range, used, same) =
        let clear : fb_test (given_back p f).frame_bitmap f ≡ false =
          ground (arith, test_given_back p f v lt f) in
        let kept : pmm_is_protected (given_back p f) (f * page_size) ≡ false =
          cc (protected_given_back p f (f * page_size), open_range, ap (pmm_is_protected p) e) in
        rw (same, e, pmm_free_frame_page (given_back p f) f lt, kept, clear)

-- Freeing what an allocation returned succeeds and restores the state of every frame and the count of
-- free ones, on a valid state whose ranges do not wrap.
pub pmm_free_frame-alloc_frame :
    (p : Pmm)
    → IsValid p
    → NoWrap p.prot
    → (pmm_alloc_frame p).0 ≢ 0
    → let (a, q) = pmm_alloc_frame p in
      ((pmm_free_frame q a).0 ≡ freed)
      × ((g : ℕ) → fb_test (pmm_free_frame q a).1.frame_bitmap g ≡ fb_test p.frame_bitmap g)
      × (free_of (pmm_free_frame q a).1 ≡ free_of p)
pmm_free_frame-alloc_frame p v w ne = elim (pmm_alloc_frame-AllocOk p v) [
  | inl failed ↦ absurd (ne failed.0)
  | inr got ↦
      let (f, a, lt, clear, below, e) = got in
      let q = taken p f in
      let used : fb_test q.frame_bitmap f ≡ true = ground (arith, test_taken p f v lt f) in
      let u = taken-IsValid p f v lt in
      let kept : pmm_is_protected q (f * page_size) ≡ false =
        protected_taken p f (f * page_size)
        ∙ free-not_protected p f (f * page_size) v w lt clear (omega arith) in
      let done : pmm_free_frame q (f * page_size) ≡ (freed, given_back q f) =
        rw (pmm_free_frame_page q f lt, kept, used) in
      rw (a, e, done)
        (
          refl,
          λ g. ground (arith, test_given_back q f u lt g, test_taken p f v lt g),
          omega (arith, free_taken p f v lt clear, free_given_back q f u lt used),
        )
]

-- On a valid state, freeing a page that a recorded range covers but whose first address is in none
-- succeeds, and the state after it is not valid.
pub pmm_free_frame_partial_page :
    (p : Pmm) (f : ℕ)
    → IsValid p
    → f < p.total_frames
    → covers p.prot f ≡ true
    → pmm_is_protected p (f * page_size) ≡ false
    → ((pmm_free_frame p (f * page_size)).0 ≡ freed)
      × ¬ IsValid (pmm_free_frame p (f * page_size)).1
pmm_free_frame_partial_page p f v lt c hole =
    rw (pmm_free_frame_page p f lt, hole, v.reserved f lt c)
      (
        refl,
        λ u. cc (
          u.reserved f lt c,
          let clear : fb_test (given_back p f).frame_bitmap f ≡ false =
                ground (arith, test_given_back p f v lt f) in
              clear,
        ),
      )
