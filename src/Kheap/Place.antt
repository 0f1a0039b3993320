-- ===== src/Kheap/Place.antt =====
-- What a client sees of `heap_alloc` in kernel/mm/kheap_core.c.
use thunity_os.Base.{
  ℕ, ◌+◌, ◌-◌, ◌^◌, ◌≤◌, ◌<◌, ◌≡◌, refl, sym, subst, ap, ◌⊎◌, inl, inr, true, false, Option, none,
  some, List, [], ◌∷◌, leb, leb→le, ◌==◌, Bool-cases, ==_refl, arith,
}
use thunity_os.Kheap.{Heap, kh_align, hdr, align_up, heap_alloc, alloc_loop}
use thunity_os.Kheap.Cells.{
  Cell, after, Chain, Chain-end, used, remove, first_free, Merged, Has, IsHeap,
}
use thunity_os.Kheap.Alloc.{fits, split, place, Placed, alloc_loop-place}

-- No free block has `n` bytes.
abbrev pub NoneFits : ℕ → List Cell → Type 0
NoneFits n [] = Unit {0}
NoneFits n (c ∷ cs) = (fits n c ≡ false) × NoneFits n cs

-- The cells `cs'` are those of `cs` with one payload more, at `q`, of at least `n` bytes.
pub record Gives (n a : ℕ) (cs : List Cell) (q : ℕ) (cs' : List Cell) : Type 0 where
  behind : a + hdr ≤ q
  others : remove q (used a cs') ≡ used a cs
  pub own : (s : ℕ) × (n ≤ s) × Has q s (used a cs')
  merged : Merged cs → Merged cs'
  front : first_free cs' ≡ true → first_free cs ≡ true

abbrev pub PlaceOk : ℕ → ℕ → List Cell → Option (ℕ × List Cell) → Type 0
PlaceOk n a cs none = NoneFits n cs
PlaceOk n a cs (some (q, cs')) = Gives n a cs q cs'

Gives-here :
    (n a : ℕ) (c : Cell) (cs : List Cell)
    → fits n c ≡ true
    → Gives n a (c ∷ cs) (a + hdr) (split n c cs)
Gives-here n a c cs fit =
    let free : c.free ≡ true = ground (arith, fit) in
    let self = ==_refl (a + hdr) in
    elim (Bool-cases (leb (n + (hdr + kh_align)) c.size)) [
      | inl big ↦
          let next : after (after a (record { size = n; free = false }))
                (record { size = c.size - n - hdr; free = true })
              ≡ after a c =
            omega (arith, leb→le _ _ big) in
          rw big (record {
            behind = omega arith;
            others = rw (self, free, next) refl;
            own = (n, omega arith, inl (refl, refl));
            merged = λ m. (refl, (ground (arith, m.0), m.1));
            front = λ e. cc;
          })
      | inr whole ↦ rw whole (record {
        behind = omega arith;
        others = rw (self, free) refl;
        own = (c.size, ground (arith, fit), inl (refl, refl));
        merged = λ m. (refl, m.1);
        front = λ e. cc;
      })
    ]

Gives-later :
    (n a : ℕ) (c : Cell) (cs : List Cell) (q : ℕ) (cs' : List Cell)
    → Gives n (after a c) cs q cs'
    → Gives n a (c ∷ cs) q (c ∷ cs')
Gives-later n a c cs q cs' g =
    let far : (a + hdr == q) ≡ false = ground (arith, g.behind) in
    let (s, le, has) = g.own in
    elim (Bool-cases c.free) [
      | inl free ↦ record {
        behind = omega (arith, g.behind);
        others = rw free g.others;
        own = (s, le, rw free has);
        merged = λ m. (ground (arith, m.0, g.front), g.merged m.1);
        front = λ e. e;
      }
      | inr taken ↦ record {
        behind = omega (arith, g.behind);
        others = rw (taken, far) (ap (λ us. record { at = a + hdr; size = c.size } ∷ us) g.others);
        own = (s, le, rw taken (inr has));
        merged = λ m. (rw taken refl, g.merged m.1);
        front = λ e. e;
      }
    ]

pub place-PlaceOk : (n a : ℕ) (cs : List Cell) → PlaceOk n a cs (place n a cs)
place-PlaceOk n a [] = tt
place-PlaceOk n a (c ∷ cs) = elim (Bool-cases (fits n c)) [
  | inl fit ↦ rw fit (Gives-here n a c cs fit)
  | inr skip ↦ rw skip (later skip (place n (after a c) cs) (place-PlaceOk n (after a c) cs))
]
  where
    later :
        fits n c ≡ false
        → (o : Option (ℕ × List Cell)) → PlaceOk n (after a c) cs o
        → PlaceOk n a (c ∷ cs) (elim o [ none ↦ none | some (q, cs') ↦ some (q, c ∷ cs') ])
    later skip none ok = (skip, ok)
    later skip (some (q, cs')) ok = Gives-later n a c cs q cs' ok

-- What an allocation of `n` bytes may do: fail because no free block is large enough, with the heap as
-- it was; or give a payload of at least `n` bytes, all others kept.
abbrev pub AllocOk : Heap → ℕ → List Cell → ℕ → ℕ → ℕ × Heap → Type 0
AllocOk h a cs end n (r, h') =
    ((r ≡ 0) × (h' ≡ h) × NoneFits (align_up n) cs)
    ⊎ ((cs' : List Cell) × IsHeap h' a cs' end
        × ((s : ℕ) × (n ≤ s) × (align_up n ≤ s) × Has r s (used a cs'))
        × (remove r (used a cs') ≡ used a cs)
        × (h'.bytes ≡ h.bytes))

heap_alloc_of :
    (h h' : Heap) (a : ℕ) (cs : List Cell) (end n r : ℕ)
    → n ≤ align_up n
    → IsHeap h a cs end
    → (o : Option (ℕ × List Cell)) → PlaceOk (align_up n) a cs o
    → Placed h h.head a end o (r, h')
    → AllocOk h a cs end n (r, h')
heap_alloc_of h h' a cs end n r up i none ok (z, e) = inl (z, e, ok)
heap_alloc_of h h' a cs end n r up i (some (q, cs')) ok (e, ch, k) =
    let (s, le, has) = ok.own in
    inr (
      cs',
      record {
        chain = subst (λ p. Chain h'.block p a cs' end) (sym k.head) ch;
        merged = ok.merged i.merged;
        low = i.low;
        room = omega (arith, i.room, k.size);
      },
      (s, omega (arith, le, up), le, subst (λ p. Has p s (used a cs')) (sym e) has),
      subst (λ p. remove p (used a cs') ≡ used a cs) (sym e) ok.others,
      k.bytes,
    )

-- On a heap, a request of 1 to 2^32 - 8 bytes ends, and fails only when no free block has the size that
-- it is rounded up to, with nothing changed; else it gives a payload of at least that many bytes, keeps
-- the heap one, and keeps every payload that was in use and all bytes.
pub heap_alloc-AllocOk :
    (h : Heap) (a : ℕ) (cs : List Cell) (end n : ℕ)
    → IsHeap h a cs end
    → 0 < n
    → n + kh_align ≤ 2 ^ 32
    → (r : ℕ × Heap) × (heap_alloc h n ≡ some r) × AllocOk h a cs end n r
unfolding heap_alloc
heap_alloc-AllocOk h a cs end n i pos small =
    let some_bytes : (n == 0) ≡ false = ground arith in
    let few = Chain-end h.block h.head a cs end i.chain in
    finish
      (alloc_loop-place (h.size + 1) (align_up n) h h.head a cs end i.low (omega arith)
        (omega (arith, i.room, few)) i.chain)
      some_bytes
  where
    finish :
        (r : ℕ × Heap) × (alloc_loop (h.size + 1) h.head (align_up n) h ≡ some r)
          × Placed h h.head a end (place (align_up n) a cs) r
        → (n == 0) ≡ false
        → (r : ℕ × Heap) × (heap_alloc h n ≡ some r) × AllocOk h a cs end n r
    finish ((r, h'), e, placed) some_bytes = (
      (r, h'),
      rw some_bytes e,
      heap_alloc_of h h' a cs end n r (omega arith) i (place (align_up n) a cs)
          (place-PlaceOk (align_up n) a cs) placed,
    )
