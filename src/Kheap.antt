-- ===== src/Kheap.antt =====
-- kernel/mm/kheap_core.h, kernel/mm/kheap_core.c and kernel/mm/kheap.c: the kernel heap, an address-ordered
-- list of blocks that share one arena, first fit with splitting, and merging on free.
--
-- A pointer is a 32-bit address, 0 for NULL. A block header is read and written through the store
-- `block`, and the payload bytes through `bytes`. The loops follow `next` and take as many rounds as the
-- arena has bytes, and one more; `none` means that they were not enough.
pub mod Cells
pub mod Alloc
pub mod Place
pub mod Free
pub mod Release
pub mod Payloads
pub mod Realloc
pub mod Counts
pub mod Start
pub mod Kmalloc
mod Examples
use thunity_os.Base.{
  ℕ, zero, suc, ◌+◌, ◌-◌, ◌*◌, ◌/◌, ◌^◌, Bool, true, false, not, ◌&&◌, ◌||◌, Option, none, some,
  u32, sub32, ltb, leb, ◌==◌, if◌then◌else◌,
}
use mathlib.Core.Option

abbrev pub kh_magic : ℕ
kh_magic = 0x4B484541

abbrev pub kh_align : ℕ
kh_align = 8

-- `sizeof(block_t)` on the 32-bit target.
abbrev pub hdr : ℕ
hdr = 16

pub record Block : Type 0 where
  pub size : ℕ
  pub next : ℕ
  pub free : Bool
  pub magic : ℕ

pub record Heap : Type 0 where
  pub base : ℕ
  pub size : ℕ
  pub head : ℕ
  pub block : ℕ → Block
  pub bytes : ℕ → ℕ

-- `*b = k`
abbrev pub put : Heap → ℕ → Block → Heap
put h b k = record h { block = λ q. if b == q then k else h.block q }

-- `align_up(v, 8)`; `ualign_up` is the same on an address.
abbrev pub align_up : ℕ → ℕ
align_up v = u32 (v + (kh_align - 1)) / kh_align * kh_align

-- `kh_memcpy` at `i`, with `left` rounds left.
unfoldable pub kh_memcpy : ℕ → ℕ → ℕ → ℕ → (ℕ → ℕ) → ℕ → ℕ
kh_memcpy zero i d s m = m
kh_memcpy (suc left) i d s m =
    kh_memcpy left (i + 1) d s (λ q. if d + i == q then m (s + i) else m q)

unfoldable pub heap_init : Heap → ℕ → ℕ → Heap
heap_init h arena size =
    let start = align_up arena in
    let adj = sub32 start arena in
    let h' = record h { base = arena; size = size; head = 0 } in
    if ltb size (u32 (adj + hdr + kh_align))
    then h'
    else record (put h' start
        (record { size = sub32 (sub32 size adj) hdr; next = 0; free = true; magic = kh_magic })) {
          head = start;
        }

-- The block `b` is taken, its end split off if the rest can hold a header and 8 bytes.
unfoldable pub take_block : Heap → ℕ → ℕ → Heap
take_block h b size =
    let k = h.block b in
    let nb = u32 (b + hdr + size) in
    if leb (u32 (size + hdr + kh_align)) k.size
    then put
        (put h nb (record {
          size = sub32 (sub32 k.size size) hdr;
          next = k.next;
          free = true;
          magic = kh_magic;
        }))
        b (record k { size = size; next = nb; free = false })
    else put h b (record k { free = false })

-- The loop of `heap_alloc` at `b`.
unfoldable pub alloc_loop : ℕ → ℕ → ℕ → Heap → Option (ℕ × Heap)
alloc_loop zero b size h = none
alloc_loop (suc rounds) b size h =
    let k = h.block b in
    let rest = alloc_loop rounds k.next size h in
    if b == 0
    then some (0, h)
    else if not k.free || ltb k.size size
    then rest
    else some (u32 (b + hdr), take_block h b size)

unfoldable pub heap_alloc : Heap → ℕ → Option (ℕ × Heap)
heap_alloc h size =
    if size == 0 then some (0, h) else alloc_loop (h.size + 1) h.head (align_up size) h

-- The loop of `coalesce` at `b`.
unfoldable pub coalesce_loop : ℕ → ℕ → Heap → Option Heap
coalesce_loop zero b h = none
coalesce_loop (suc rounds) b h =
    let k = h.block b in
    let n = h.block k.next in
    let merged =
      coalesce_loop rounds b
        (put h b (record k { size = u32 (k.size + (hdr + n.size)); next = n.next })) in
    let rest = coalesce_loop rounds k.next h in
    if b == 0 || k.next == 0 then some h else if k.free && n.free then merged else rest

unfoldable pub coalesce : Heap → Option Heap
coalesce h = coalesce_loop (h.size + 1) h.head h

unfoldable pub heap_free : Heap → ℕ → Option Heap
heap_free h ptr =
    let b = sub32 ptr hdr in
    let k = h.block b in
    if ptr == 0
    then some h
    else if not (k.magic == kh_magic)
    then some h
    else if k.free
    then some h
    else coalesce (put h b (record k { free = true }))

-- What `heap_realloc` does with the new block.
abbrev pub move_to : ℕ → ℕ → ℕ × Heap → Option (ℕ × Heap)
move_to ptr old (np, h) =
    if np == 0
    then some (0, h)
    else Option.map (λ h'. (np, h'))
        (heap_free (record h { bytes = kh_memcpy old 0 np ptr h.bytes }) ptr)

unfoldable pub heap_realloc : Heap → ℕ → ℕ → Option (ℕ × Heap)
heap_realloc h ptr size =
    let k = h.block (sub32 ptr hdr) in
    if ptr == 0
    then heap_alloc h size
    else if size == 0
    then Option.map (λ h'. (0, h')) (heap_free h ptr)
    else if not (k.magic == kh_magic)
    then some (0, h)
    else if leb (align_up size) k.size
    then some (ptr, h)
    else elim (heap_alloc h size) [ none ↦ none | some r ↦ move_to ptr k.size r ]
