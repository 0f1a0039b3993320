-- ===== src/Kheap/Start.antt =====
-- `heap_init` of kernel/mm/kheap_core.c, and the largest requests.
use thunity_os.Base.{
  ℕ, ◌+◌, ◌-◌, ◌^◌, ◌≤◌, ◌<◌, ◌≡◌, ◌≢◌, refl, sym, subst, inl, inr, true, false, some, List, [],
  ◌∷◌, u32, sub32, ltb, ◌==◌, Bool-cases, arith,
}
use thunity_os.Kheap.{
  Block, Heap, kh_magic, kh_align, hdr, put, align_up, heap_init, heap_alloc, alloc_loop,
}
use thunity_os.Kheap.Cells.{Cell, Chain-end, Chain-cons, used, used-Apart, Has, IsHeap}
use thunity_os.Kheap.Alloc.{put_at, place, Placed, alloc_loop-place}
use thunity_os.Kheap.Place.{PlaceOk, place-PlaceOk}
use thunity_os.Kheap.Payloads.{Has-Apart}

-- What `heap_init` makes: a heap in the arena, with nothing in use.
abbrev pub Started : Heap → ℕ → ℕ → Type 0
Started h arena end =
    (a : ℕ) × (cs : List Cell) × IsHeap h a cs end × (used a cs ≡ []) × (arena ≤ a)

-- On an arena that is not at address 0 and ends below 4 GiB less 24 bytes, `heap_init` makes a heap with
-- nothing in use, of one block or, when the arena is too small, of none.
pub heap_init-Started :
    (h : Heap) (arena size : ℕ)
    → 0 < arena
    → arena + size + 24 < 2 ^ 32
    → Started (heap_init h arena size) arena (arena + size)
unfolding heap_init
heap_init-Started h arena size pos low = elim (Bool-cases (ltb size (u32 (adj + hdr + kh_align)))) [
  | inl few ↦ rw few (
    arena + size,
    [],
    record { chain = (refl, refl); merged = tt; low = omega arith; room = omega arith },
    refl,
    omega arith,
  )
  | inr enough ↦ rw enough (
    align_up arena,
    cell ∷ [],
    record {
      chain =
          Chain-cons (put h (align_up arena) first).block (align_up arena) first cell []
            (arena + size) (put_at h (align_up arena) first) (omega arith) (omega arith)
            (ground (arith, enough), refl, refl) (refl, ground (arith, enough));
      merged = (refl, tt);
      low = omega arith;
      room = omega arith;
    },
    refl,
    omega arith,
  )
]
  where
    adj : ℕ
    adj = sub32 (align_up arena) arena

    first : Block
    first = record { size = sub32 (sub32 size adj) hdr; next = 0; free = true; magic = kh_magic }

    cell : Cell
    cell = record { size = size - (align_up arena - arena) - hdr; free = true }

-- On a heap with a free block, a request of the 7 largest sizes is rounded up to 0: it succeeds, and the
-- payload that it gets is smaller than the request.
pub heap_alloc_wraps :
    (h : Heap) (a : ℕ) (cs : List Cell) (end n q : ℕ) (cs' : List Cell)
    → IsHeap h a cs end
    → 2 ^ 32 < n + kh_align
    → n < 2 ^ 32
    → place 0 a cs ≡ some (q, cs')
    → (r : ℕ × Heap) × (heap_alloc h n ≡ some r)
      × (r.0 ≢ 0)
      × ((s : ℕ) × (s < n) × Has r.0 s (used a cs'))
unfolding heap_alloc
heap_alloc_wraps h a cs end n q cs' i large small fits =
    let few = Chain-end h.block h.head a cs end i.chain in
    let ne : (n == 0) ≡ false = ground arith in
    let up : align_up n ≡ 0 = omega arith in
    finish ne up (
      alloc_loop-place (h.size + 1) 0 h h.head a cs end i.low refl (omega (arith, i.room, few))
        i.chain)
  where
    given :
        (x : ℕ × Heap)
        → Placed h h.head a end (some (q, cs')) x
        → PlaceOk 0 a cs (some (q, cs'))
        → (x.0 ≢ 0) × ((s : ℕ) × (s < n) × Has x.0 s (used a cs'))
    given (r, h') (e, ch, k) ok =
        let (s, le, has) = ok.own in
        let (from, to) =
          Has-Apart a (used a cs') end q s (used-Apart h'.block h.head a cs' end ch) has in
        (
          λ z. omega (arith, e, z, from),
          (s, omega (arith, to, i.low), subst (λ p. Has p s (used a cs')) (sym e) has),
        )

    finish :
        (n == 0) ≡ false
        → align_up n ≡ 0
        → (r : ℕ × Heap) × (alloc_loop (h.size + 1) h.head 0 h ≡ some r)
          × Placed h h.head a end (place 0 a cs) r
        → (r : ℕ × Heap) × (heap_alloc h n ≡ some r)
          × (r.0 ≢ 0)
          × ((s : ℕ) × (s < n) × Has r.0 s (used a cs'))
    finish ne up (x, e, placed) =
        let g =
          given x (subst (λ o. Placed h h.head a end o x) fits placed)
            (subst (PlaceOk 0 a cs) fits (place-PlaceOk 0 a cs)) in
        (x, rw (ne, up) e, g.0, g.1)
