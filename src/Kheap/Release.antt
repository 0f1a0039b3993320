-- ===== src/Kheap/Release.antt =====
-- What a client sees of `heap_free` in kernel/mm/kheap_core.c.
use thunity_os.Base.{
  ℕ, ◌+◌, ◌^◌, ◌≤◌, ◌<◌, ◌≡◌, refl, sym, subst, ap, ◌∙◌, ◌⊎◌, inl, inr, Bool, true, false, some,
  List, [], ◌∷◌, length, sub32, ◌==◌, if◌then◌else◌, Bool-cases, ==_refl, arith,
}
use thunity_os.Kheap.{Heap, kh_magic, hdr, put, coalesce, coalesce_loop, heap_free}
use thunity_os.Kheap.Cells.{
  Cell, after, Chain, Chain-end, Chain-frame, Chain-cons, used, remove, Has, IsHeap,
}
use thunity_os.Kheap.Alloc.{put_at, put-other}
use thunity_os.Kheap.Free.{
  merge_from, Passed, coalesce_loop-merge, used-merge_from, merge_from-Merged,
}

-- The block at `b` is in use.
abbrev IsLive : ℕ → ℕ → List Cell → Type 0
IsLive b a [] = ⊥
IsLive b a (c ∷ cs) = ((b ≡ a) × (c.free ≡ false)) ⊎ IsLive b (after a c) cs

IsLive-le : (b a : ℕ) (cs : List Cell) → IsLive b a cs → a ≤ b
IsLive-le b a [] live = absurd live
IsLive-le b a (c ∷ cs) (inl (at, f)) = omega arith
IsLive-le b a (c ∷ cs) (inr later) = omega (arith, IsLive-le b (after a c) cs later)

-- A payload that is in use is that of a block.
Has-IsLive :
    (p n a : ℕ) (cs : List Cell) → Has p n (used a cs) → (b : ℕ) × (p ≡ b + hdr) × IsLive b a cs
Has-IsLive p n a [] has = absurd has
Has-IsLive p n a (c ∷ cs) has = elim (Bool-cases c.free) [
  | inl free ↦ later (Has-IsLive p n (after a c) cs (subst in_cells free has))
  | inr taken ↦ elim (subst in_cells taken has) [
    | inl here ↦ (a, sym here.0, inl (refl, taken))
    | inr behind ↦ later (Has-IsLive p n (after a c) cs behind)
  ]
]
  where
    in_cells : Bool → Type 0
    in_cells f = Has p n (
        if f
        then used (after a c) cs
        else record { at = a + hdr; size = c.size } ∷ used (after a c) cs)

    later :
        (b : ℕ) × (p ≡ b + hdr) × IsLive b (after a c) cs
        → (b : ℕ) × (p ≡ b + hdr) × IsLive b a (c ∷ cs)
    later (b, e, live) = (b, e, inr live)

-- The cells with the block at `b` free.
abbrev release : ℕ → ℕ → List Cell → List Cell
release b a [] = []
release b a (c ∷ cs) =
    if a == b then record c { free = true } ∷ cs else c ∷ release b (after a c) cs

used-release :
    (b a : ℕ) (cs : List Cell)
    → IsLive b a cs
    → used a (release b a cs) ≡ remove (b + hdr) (used a cs)
used-release b a [] live = absurd live
used-release b a (c ∷ cs) (inl (at, taken)) =
    let here : (a == b) ≡ true = ground arith in
    let here' : (a + hdr == b + hdr) ≡ true = ground arith in rw (here, taken, here') refl
used-release b a (c ∷ cs) (inr later) =
    let le = IsLive-le b (after a c) cs later in
    let there : (a == b) ≡ false = ground (arith, le) in
    let there' : (a + hdr == b + hdr) ≡ false = ground (arith, le) in
    elim (Bool-cases c.free) [
      | inl free ↦ rw (there, free) (used-release b (after a c) cs later)
      | inr taken ↦
          rw (there, taken, there')
            (ap (λ us. record { at = a + hdr; size = c.size } ∷ us)
              (used-release b (after a c) cs later))
    ]

-- The header of a live block, and the list with it marked free.
record Found (h : Heap) (p b a : ℕ) (cs : List Cell) (end : ℕ) : Type 0 where
  magic : (h.block b).magic ≡ kh_magic
  taken : (h.block b).free ≡ false
  pos : 0 < b
  lt : b + hdr ≤ end
  chain : Chain (put h b (record (h.block b) { free = true })).block p a (release b a cs) end

live-Found :
    (h : Heap) (p b a : ℕ) (cs : List Cell) (end : ℕ)
    → Chain h.block p a cs end
    → IsLive b a cs
    → Found h p b a cs end
live-Found h p b a [] end ch live = absurd live
live-Found h p b a (c ∷ cs) end (at, al, pos, s, f, g, rest) (inl (same, taken)) =
    let k = record (h.block a) { free = true } in
    let lt = Chain-end h.block (h.block a).next (after a c) cs end rest in
    let here : (a == a) ≡ true = ==_refl a in
    let found : Found h a a a (c ∷ cs) end = record {
      magic = g;
      taken = f ∙ taken;
      pos = pos;
      lt = omega (arith, lt);
      chain = rw here (
          Chain-cons (put h a k).block a k (record c { free = true }) cs end (put_at h a k) al pos
            (s, refl, g)
            (Chain-frame h.block (put h a k).block (h.block a).next (after a c) cs end
              (λ x lo hi. put-other h a x k (omega arith)) rest));
    } in
    subst (λ q. Found h q b a (c ∷ cs) end) (sym at)
      (subst (λ z. Found h a z a (c ∷ cs) end) (sym same) found)
live-Found h p b a (c ∷ cs) end (at, al, pos, s, f, g, rest) (inr later) =
    let found = live-Found h (h.block a).next b (after a c) cs end rest later in
    let k = record (h.block b) { free = true } in
    let le = IsLive-le b (after a c) cs later in
    let there : (a == b) ≡ false = ground (arith, le) in
    record {
      magic = found.magic;
      taken = found.taken;
      pos = found.pos;
      lt = found.lt;
      chain =
          rw (at, there)
            (Chain-cons (put h b k).block a (h.block a) c (release b (after a c) cs) end
              (put-other h b a k (omega (arith, le))) al pos (s, f, g) found.chain);
    }

-- What freeing the payload `p` does: it alone is no longer in use, and the bytes stay.
abbrev pub FreeOk : Heap → ℕ → List Cell → ℕ → ℕ → Heap → Type 0
FreeOk h a cs end p h' =
    (cs' : List Cell) × IsHeap h' a cs' end
    × (used a cs' ≡ remove p (used a cs))
    × (h'.bytes ≡ h.bytes)

-- `coalesce` on a list that is not empty.
coalesce-FreeOk :
    (h : Heap) (a : ℕ) (cs : List Cell) (end : ℕ)
    → 0 < length cs
    → Chain h.block h.head a cs end
    → end < 2 ^ 32
    → end ≤ a + h.size
    → (h' : Heap) × (coalesce h ≡ some h')
      × ((cs' : List Cell) × IsHeap h' a cs' end × (used a cs' ≡ used a cs) × (h'.bytes ≡ h.bytes))
unfolding coalesce
coalesce-FreeOk h a [] end some_cells ch low room = absurd (omega arith)
coalesce-FreeOk h a (c ∷ cs) end some_cells ch low room =
    let few = Chain-end h.block h.head a (c ∷ cs) end ch in
    finish (
      coalesce_loop-merge (h.size + 1) h a c cs end low (omega (arith, few, room))
        (subst (λ q. Chain h.block q a (c ∷ cs) end) ch.0 ch))
  where
    finish :
        Passed (h.size + 1) h a c cs end
        → (h' : Heap) × (coalesce h ≡ some h')
          × ((cs' : List Cell) × IsHeap h' a cs' end
              × (used a cs' ≡ used a (c ∷ cs))
              × (h'.bytes ≡ h.bytes))
    finish (h', e, merged, k) = (
      h',
      ap (λ q. coalesce_loop (h.size + 1) q h) ch.0 ∙ e,
      (
        merge_from c cs,
        record {
          chain =
              subst (λ q. Chain h'.block q a (merge_from c cs) end) (sym (k.head ∙ ch.0)) merged;
          merged = merge_from-Merged c cs;
          low = low;
          room = omega (arith, room, k.size);
        },
        used-merge_from a c cs,
        k.bytes,
      ),
    )

release-some : (b a : ℕ) (cs : List Cell) → IsLive b a cs → 0 < length (release b a cs)
release-some b a [] live = absurd live
release-some b a (c ∷ cs) live = ground arith

-- On a heap, freeing a payload that is in use ends: the payload is no longer in use, the others and all
-- bytes stay, and the heap is one, so that no two free blocks are neighbours.
pub heap_free-FreeOk :
    (h : Heap) (a : ℕ) (cs : List Cell) (end p n : ℕ)
    → IsHeap h a cs end
    → Has p n (used a cs)
    → (h' : Heap) × (heap_free h p ≡ some h') × FreeOk h a cs end p h'
unfolding heap_free
heap_free-FreeOk h a cs end p n i has = go (Has-IsLive p n a cs has)
  where
    go :
        (b : ℕ) × (p ≡ b + hdr) × IsLive b a cs
        → (h' : Heap) × (heap_free h p ≡ some h') × FreeOk h a cs end p h'
    go (b, e, live) =
        let found = live-Found h h.head b a cs end i.chain live in
        let at : sub32 p hdr ≡ b = omega (arith, found.lt, i.low) in
        let ne : (p == 0) ≡ false = ground arith in
        let ours : ((h.block b).magic == kh_magic) ≡ true = rw found.magic (==_refl kh_magic) in
        let taken = found.taken in
        let (h', done, (cs', i', same, bytes)) =
          coalesce-FreeOk (put h b (record (h.block b) { free = true })) a (release b a cs) end
            (release-some b a cs live) found.chain i.low i.room in
        (
          h',
          rw (ne, at, ours, taken) done,
          (
            cs',
            i',
            same ∙ used-release b a cs live ∙ ap (λ q. remove q (used a cs)) (sym e),
            bytes,
          ),
        )
