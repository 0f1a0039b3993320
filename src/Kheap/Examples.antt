-- ===== src/Kheap/Examples.antt =====
-- Tests of the heap of kernel/mm/kheap_core.c: a payload of 40 bytes in use at 0x1018, and 100 free ones
-- behind it.
use thunity_os.Base.{
  ℕ, ◌≡◌, refl, inl, true, false, some, List, [], ◌∷◌, ◌==◌, if◌then◌else◌, arith,
}
use mathlib.Core.Option
use thunity_os.Kheap.{Heap, kh_magic, heap_alloc, heap_free, alloc_loop}
use thunity_os.Kheap.Cells.{Cell, used, Has, IsHeap}
use thunity_os.Kheap.Place.{AllocOk, heap_alloc-AllocOk}
use thunity_os.Kheap.Release.{FreeOk, heap_free-FreeOk}

abbrev two_blocks : Heap
two_blocks = record {
  base = 0x1000;
  size = 0x100;
  head = 0x1008;
  block = λ q.
      if q == 0x1008
      then record { size = 40; next = 0x1040; free = false; magic = kh_magic }
      else record { size = 100; next = 0; free = true; magic = kh_magic };
  bytes = λ q. q;
}

abbrev cells : List Cell
cells = record { size = 40; free = false } ∷ (record { size = 100; free = true } ∷ [])

two_blocks-IsHeap : IsHeap two_blocks 0x1008 cells 0x10B4
two_blocks-IsHeap = record {
  chain = (
    refl,
    refl,
    omega arith,
    refl,
    refl,
    refl,
    (refl, refl, omega arith, refl, refl, refl, (refl, refl)),
  );
  merged = (refl, (refl, tt));
  low = omega arith;
  room = omega arith;
}

owns_40 : Has 0x1018 40 (used 0x1008 cells)
owns_40 = inl (refl, refl)

gives_behind : Option.map (λ (r : ℕ × Heap). r.0) (heap_alloc two_blocks 21) ≡ some 0x1050
unfolding heap_alloc alloc_loop
gives_behind = refl

heap_alloc-AllocOk_example :
    (r : ℕ × Heap) × (heap_alloc two_blocks 21 ≡ some r)
    × AllocOk two_blocks 0x1008 cells 0x10B4 21 r
heap_alloc-AllocOk_example =
    heap_alloc-AllocOk two_blocks 0x1008 cells 0x10B4 21 two_blocks-IsHeap (omega arith)
      (omega arith)

heap_free-FreeOk_example :
    (h' : Heap) × (heap_free two_blocks 0x1018 ≡ some h')
    × FreeOk two_blocks 0x1008 cells 0x10B4 0x1018 h'
heap_free-FreeOk_example =
    heap_free-FreeOk two_blocks 0x1008 cells 0x10B4 0x1018 40 two_blocks-IsHeap owns_40
