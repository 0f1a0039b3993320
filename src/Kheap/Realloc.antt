-- ===== src/Kheap/Realloc.antt =====
-- `heap_realloc` of kernel/mm/kheap_core.c on a payload that is in use.
use thunity_os.Base.{ℕ, ◌+◌, ◌≤◌, ◌<◌, ◌≡◌, ◌⊎◌, Option, some, List}
use thunity_os.Kheap.{Heap, kh_memcpy}
use thunity_os.Kheap.Cells.{Cell, used, remove, Has, IsHeap}

-- What `heap_realloc` of a payload of `s` bytes at `p` to `n` bytes does when it cannot grow in place: it
-- fails with nothing changed, or gives a payload of at least `n` bytes with the old bytes at its front,
-- and takes the old one away. No other byte in use changes.
abbrev pub MoveOk : Heap → ℕ → List Cell → ℕ → ℕ → ℕ → ℕ → ℕ × Heap → Type 0
MoveOk h a cs end p s n (r, h') =
    ((r ≡ 0) × (h' ≡ h))
    ⊎ ((cs' : List Cell) × IsHeap h' a cs' end
        × ((t : ℕ) × (n ≤ t) × Has r t (used a cs'))
        × (remove r (used a cs') ≡ remove p (used a cs))
        × ((i : ℕ) → i < s → h'.bytes (r + i) ≡ h.bytes (p + i))
        × ((q m i : ℕ) → Has q m (used a cs) → i < m → h'.bytes (q + i) ≡ h.bytes (q + i)))

-- The copy into the new payload and the free of the old one.
module _ (h h1 : Heap) (a : ℕ) (cs cs1 : List Cell) (end p s n r t : ℕ) (i : IsHeap h1 a cs1 end)
    (le : n ≤ t) (new : Has r t (used a cs1)) (rest : remove r (used a cs1) ≡ used a cs)
    (same : h1.bytes ≡ h.bytes) (old : Has p s (used a cs)) (grows : s ≤ t) where
  abbrev copied : Heap
  copied = record h1 { bytes = kh_memcpy s 0 r p h1.bytes }

  copied-IsHeap : IsHeap copied a cs1 end
  copied-IsHeap = record { chain = i.chain; merged = i.merged; low = i.low; room = i.room }

module _ (h : Heap) (a : ℕ) (cs : List Cell) (end p s n : ℕ) (i : IsHeap h a cs end)
    (has : Has p s (used a cs)) where
  -- What `heap_realloc` may return.
  abbrev Moves : Option (ℕ × Heap) → Type 0
  Moves o = (r : ℕ × Heap) × (o ≡ some r) × MoveOk h a cs end p s n r
