-- ===== src/Kheap/Kmalloc.antt =====
-- kernel/mm/kheap.c: the kernel's heap in an arena of 1 MiB, whose address is a parameter.
use thunity_os.Base.{
  ℕ, zero, suc, ◌+◌, ◌*◌, ◌/◌, Bool, not, ◌&&◌, Option, some, u32, ◌==◌, if◌then◌else◌,
}
use mathlib.Core.Option
use thunity_os.Kheap.{Heap, heap_init, heap_alloc, heap_free, heap_realloc}
use thunity_os.Kheap.Counts.{heap_used, heap_free_bytes, heap_blocks, heap_check}

abbrev pub kheap_size : ℕ
kheap_size = 0x100000

unfoldable pub kheap_init : Heap → ℕ → Heap
kheap_init h arena = heap_init h arena kheap_size

unfoldable pub kmalloc : Heap → ℕ → Option (ℕ × Heap)
kmalloc h size = heap_alloc h size

unfoldable pub krealloc : Heap → ℕ → ℕ → Option (ℕ × Heap)
krealloc h ptr s = heap_realloc h ptr s

unfoldable pub kfree : Heap → ℕ → Option Heap
kfree h ptr = heap_free h ptr

-- The loop of `kcalloc` at `i`, with `left` rounds left.
unfoldable pub zero_loop : ℕ → ℕ → ℕ → (ℕ → ℕ) → ℕ → ℕ
zero_loop zero i p m = m
zero_loop (suc left) i p m = zero_loop left (i + 1) p (λ q. if p + i == q then 0 else m q)

abbrev pub zeroed : ℕ → ℕ × Heap → ℕ × Heap
zeroed total (p, h) =
    if p == 0 then (p, h) else (p, record h { bytes = zero_loop total 0 p h.bytes })

unfoldable pub kcalloc : Heap → ℕ → ℕ → Option (ℕ × Heap)
kcalloc h nmemb size =
    let total = u32 (nmemb * size) in
    if not (nmemb == 0) && not (total / nmemb == size)
    then some (0, h)
    else Option.map (zeroed total) (heap_alloc h total)

unfoldable pub kheap_used : Heap → Option ℕ
kheap_used h = heap_used h

unfoldable pub kheap_free : Heap → Option ℕ
kheap_free h = heap_free_bytes h

unfoldable pub kheap_blocks : Heap → Option ℕ
kheap_blocks h = heap_blocks h

unfoldable pub kheap_check : Heap → Option Bool
kheap_check h = heap_check h
