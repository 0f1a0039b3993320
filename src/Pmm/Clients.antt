-- ===== src/Pmm/Clients.antt =====
-- Any sequence of calls of the allocator of kernel/mm/pmm.c by clients that free only what they own:
-- no frame is in two hands.
use thunity_os.Base.{
  ℕ, ◌*◌, ◌<◌, ◌≡◌, ◌≢◌, refl, sym, subst, ap, ◌∙◌, inl, inr, true, false, List, [], ◌∷◌, ◌++◌,
  arith,
}
use thunity_os.FrameBitmap.{fb_test}
use thunity_os.Pmm.{
  Pmm, page_size, pmm_is_protected, pmm_alloc_frame, FreeResult, freed, pmm_free_frame,
}
use thunity_os.Pmm.Reserve.{IsValid, covers}
use thunity_os.Pmm.Frames.{
  taken, given_back, test_taken, test_given_back, taken-IsValid, AllocOk, pmm_alloc_frame-AllocOk,
  NoWrap, free-not_protected,
}
use thunity_os.Pmm.Free.{
  IsAligned, pmm_free_frame-IsValid, pmm_free_frame_page, protected_taken, protected_given_back,
}

-- One call, with the addresses that clients own before and after it.
pub data Step (p : Pmm) : List ℕ → Pmm → List ℕ → Type 0 where
  allocate :
      {live : List ℕ} (a : ℕ) (q : Pmm)
      → pmm_alloc_frame p ≡ (a, q)
      → a ≢ 0
      → Step p live q (a ∷ live)
  out_of_memory : {live : List ℕ} (q : Pmm) → pmm_alloc_frame p ≡ (0, q) → Step p live q live
  release :
      {live : List ℕ} (xs ys : List ℕ) (a : ℕ) (q : Pmm) (r : FreeResult)
      → live ≡ xs ++ (a ∷ ys)
      → pmm_free_frame p a ≡ (r, q)
      → Step p live q (xs ++ ys)

pub data Steps (p : Pmm) (live : List ℕ) : Pmm → List ℕ → Type 0 where
  here : Steps p live p live
  next :
      {q r : Pmm} {owned owned' : List ℕ}
      → Steps p live q owned
      → Step q owned r owned'
      → Steps p live r owned'

-- The address is not among those.
abbrev pub Absent : ℕ → List ℕ → Type 0
Absent a [] = Unit {0}
Absent a (b ∷ l) = (a ≢ b) × Absent a l

-- An owned address is that of a used frame outside the protected ranges.
abbrev pub OwnedFrame : Pmm → ℕ → Type 0
OwnedFrame p a =
    (f : ℕ) × (a ≡ f * page_size)
    × (f < p.total_frames)
    × (fb_test p.frame_bitmap f ≡ true)
    × (pmm_is_protected p a ≡ false)

-- The owned addresses are those of such frames, all different.
abbrev pub Owned : Pmm → List ℕ → Type 0
Owned p [] = Unit {0}
Owned p (a ∷ l) = OwnedFrame p a × Absent a l × Owned p l

module _ (p : Pmm) (f : ℕ) (v : IsValid p) (lt : f < p.total_frames) where
  Owned-taken :
      (l : List ℕ)
      → fb_test p.frame_bitmap f ≡ false
      → Owned p l
      → Absent (f * page_size) l × Owned (taken p f) l
  Owned-taken [] clear o = (tt, tt)
  Owned-taken (a ∷ l) clear ((g, e, glt, used, open_range), absent, rest) =
      let (new, old) = Owned-taken l clear rest in
      let ne : f ≢ g = λ same. cc (clear, used, same) in
      (
        (omega (arith, ne), new),
        (
          (g, e, glt, ground (arith, test_taken p f v lt g), protected_taken p f a ∙ open_range),
          absent,
          old,
        ),
      )

  Owned-given_back : (l : List ℕ) → Absent (f * page_size) l → Owned p l → Owned (given_back p f) l
  Owned-given_back [] n o = tt
  Owned-given_back (a ∷ l) (ne, n) ((g, e, glt, used, open_range), absent, rest) =
      let other : f ≢ g = λ same. ne (ap (λ k. k * page_size) same ∙ sym e) in
      (
        (
          g,
          e,
          glt,
          ground (arith, test_given_back p f v lt g),
          protected_given_back p f a ∙ open_range,
        ),
        absent,
        Owned-given_back l n rest,
      )

Absent-remove :
    (b a : ℕ) (xs ys : List ℕ) → Absent b (xs ++ (a ∷ ys)) → (b ≢ a) × Absent b (xs ++ ys)
Absent-remove b a [] ys h = h
Absent-remove b a (x ∷ xs) ys (ne, h) =
    let (h', rest) = Absent-remove b a xs ys h in (h', (ne, rest))

-- Of the owned addresses one can be taken out: it is none of the others.
Owned-remove :
    (p : Pmm) (a : ℕ) (xs ys : List ℕ)
    → Owned p (xs ++ (a ∷ ys))
    → OwnedFrame p a × Absent a (xs ++ ys) × Owned p (xs ++ ys)
Owned-remove p a [] ys o = o
Owned-remove p a (x ∷ xs) ys (here_x, absent, rest) =
    let (own, n, rest') = Owned-remove p a xs ys rest in
    let (ne, absent') = Absent-remove x a xs ys absent in
    (own, ((λ e. ne (sym e)), n), (here_x, absent', rest'))

-- What holds between two calls.
pub record Inv (p : Pmm) (live : List ℕ) : Type 0 where
  pub valid : IsValid p
  pub no_wrap : NoWrap p.prot
  pub aligned : IsAligned p.prot
  pub frame_zero : covers p.prot 0 ≡ true
  pub owned : Owned p live

allocate-Inv :
    (p q : Pmm) (live : List ℕ) (a : ℕ) → AllocOk p (a, q) → a ≢ 0 → Inv p live → Inv q (a ∷ live)
allocate-Inv p q live a (inl failed) ne i = absurd (ne failed.0)
allocate-Inv p q live a (inr (f, e, lt, clear, below, same)) ne i =
    let (new, old) = Owned-taken p f i.valid lt live clear i.owned in
    let frame : OwnedFrame (taken p f) (f * page_size) = (
      f,
      refl,
      lt,
      ground (arith, test_taken p f i.valid lt f),
      protected_taken p f (f * page_size)
          ∙ free-not_protected p f (f * page_size) i.valid i.no_wrap lt clear (omega arith),
    ) in
    rw (same, e)
      (record {
        valid = taken-IsValid p f i.valid lt;
        no_wrap = i.no_wrap;
        aligned = i.aligned;
        frame_zero = i.frame_zero;
        owned = (frame, new, old);
      })

-- The client of an owned frame always gets it freed.
release-Inv :
    (p q : Pmm) (xs ys : List ℕ) (a : ℕ) (r : FreeResult)
    → pmm_free_frame p a ≡ (r, q)
    → Inv p (xs ++ (a ∷ ys))
    → (r ≡ freed) × Inv q (xs ++ ys)
release-Inv p q xs ys a r h i =
    let (own, n, rest) = Owned-remove p a xs ys i.owned in
    let (f, e, lt, used, open_range) = own in
    let kept : pmm_is_protected p (f * page_size) ≡ false =
      ap (pmm_is_protected p) (sym e) ∙ open_range in
    let done : pmm_free_frame p a ≡ (freed, given_back p f) =
      ap (pmm_free_frame p) e ∙ rw (pmm_free_frame_page p f lt, kept, used) in
    let same : q ≡ given_back p f = ap (λ (t : FreeResult × Pmm). t.1) (sym h ∙ done) in
    let valid' : IsValid q =
      subst (λ (t : FreeResult × Pmm). IsValid t.1) h
        (pmm_free_frame-IsValid p a i.valid i.aligned).0 in
    (
      ap (λ (t : FreeResult × Pmm). t.0) (sym h ∙ done),
      record {
        valid = valid';
        no_wrap = subst (λ t. NoWrap t.prot) (sym same) i.no_wrap;
        aligned = subst (λ t. IsAligned t.prot) (sym same) i.aligned;
        frame_zero = subst (λ t. covers t.prot 0 ≡ true) (sym same) i.frame_zero;
        owned =
            subst (λ t. Owned t (xs ++ ys)) (sym same)
              (Owned-given_back p f i.valid lt (xs ++ ys) (subst (λ k. Absent k (xs ++ ys)) e n)
                rest);
      },
    )

-- Frame 0 is reserved, so that the result 0 is no frame.
failed-unchanged : (p q : Pmm) {live : List ℕ} → Inv p live → AllocOk p (0, q) → q ≡ p
failed-unchanged p q i (inl failed) = failed.1
failed-unchanged p q i (inr (f, e, lt, clear, below, same)) =
    let zero_frame : 0 ≡ f = omega arith in
    absurd (
      cc (
        i.valid.reserved f lt (subst (λ k. covers p.prot k ≡ true) zero_frame i.frame_zero),
        clear,
      ))

Step-Inv : (p q : Pmm) (live live' : List ℕ) → Step p live q live' → Inv p live → Inv q live'
Step-Inv p q live live' (allocate a _ h ne) i =
    allocate-Inv p q live a (subst (AllocOk p) h (pmm_alloc_frame-AllocOk p i.valid)) ne i
Step-Inv p q live live' (out_of_memory _ h) i =
    subst (λ t. Inv t live)
      (sym (failed-unchanged p q i (subst (AllocOk p) h (pmm_alloc_frame-AllocOk p i.valid)))) i
Step-Inv p q live live' (release xs ys a _ r e h) i =
    (release-Inv p q xs ys a r h (subst (Inv p) e i)).1

-- Where the invariant holds of the state and the owned addresses, it holds after whatever sequence of
-- calls clients make that free only what they own: the state is valid, and the addresses owned are
-- those of different used frames outside the protected ranges.
pub Steps-Inv :
    (p : Pmm) (live : List ℕ) (q : Pmm) (live' : List ℕ)
    → Steps p live q live'
    → Inv p live
    → Inv q live'
Steps-Inv p live q live' here i = i
Steps-Inv p live q live' (next {q = r} {owned = o} steps step) i =
    Step-Inv r q o live' step (Steps-Inv p live r o steps i)
