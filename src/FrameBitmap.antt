-- ===== src/FrameBitmap.antt =====
-- kernel/mm/frame_bitmap.c: one bit for each 4 KiB frame, set when the frame is used. The bitmap `bm`
-- is the list of its bytes. A function that writes through `bm` returns the new bitmap.
pub mod Marks
pub mod Regions
pub mod Alloc
mod Examples
use thunity_os.Base.{
  ℕ, zero, suc, ◌+◌, ◌-◌, ◌*◌, ◌/◌, ◌%◌, ◌^◌, bit_and, bit_or, Bool, not, List, get_or, set, u8,
  u32, ltb, leb, ◌==◌, if◌then◌else◌,
}

-- `FB_NONE`
abbrev pub fb_none : ℕ
fb_none = 0xFFFFFFFF

-- `frame >> 3`
abbrev pub byte_index : ℕ → ℕ
byte_index frame = frame / 8

-- `(uint8_t)(1u << (frame & 7u))`
abbrev pub bit_mask : ℕ → ℕ
bit_mask frame = u8 (2 ^ (frame % 8))

-- `(uint8_t)~m` for a byte `m`
abbrev pub not8 : ℕ → ℕ
not8 m = 255 - m

-- `(total_frames + 7u) / 8u`
abbrev pub bitmap_bytes : ℕ → ℕ
bitmap_bytes total_frames = u32 (total_frames + 7) / 8

-- The loop of `fb_init` at `i`, with `left` rounds left.
init_loop : ℕ → ℕ → List ℕ → List ℕ
init_loop zero i bm = bm
init_loop (suc left) i bm = init_loop left (i + 1) (set bm i 0xFF)

unfoldable pub fb_init : List ℕ → ℕ → List ℕ
unfolding init_loop
fb_init bm total_frames = init_loop (bitmap_bytes total_frames) 0 bm

unfoldable pub fb_mark_used : List ℕ → ℕ → List ℕ
fb_mark_used bm frame =
    set bm (byte_index frame) (bit_or (get_or bm (byte_index frame) 0) (bit_mask frame))

unfoldable pub fb_mark_free : List ℕ → ℕ → List ℕ
fb_mark_free bm frame =
    set bm (byte_index frame) (bit_and (get_or bm (byte_index frame) 0) (not8 (bit_mask frame)))

-- `true` for the result 1.
unfoldable pub fb_test : List ℕ → ℕ → Bool
fb_test bm frame = not (bit_and (get_or bm (byte_index frame) 0) (bit_mask frame) == 0)

-- The loops of the two region functions: `i < count && first + i < total`, with `left` rounds left of
-- the `count`.
unfoldable pub region_loop : (List ℕ → ℕ → List ℕ) → ℕ → ℕ → ℕ → ℕ → List ℕ → List ℕ
region_loop mark total first zero i bm = bm
region_loop mark total first (suc left) i bm =
    let rest = region_loop mark total first left (i + 1) (mark bm (u32 (first + i))) in
    if ltb (u32 (first + i)) total then rest else bm

unfoldable pub fb_mark_region_used : List ℕ → ℕ → ℕ → ℕ → List ℕ
fb_mark_region_used bm total first count = region_loop fb_mark_used total first count 0 bm

unfoldable pub fb_mark_region_free : List ℕ → ℕ → ℕ → ℕ → List ℕ
fb_mark_region_free bm total first count = region_loop fb_mark_free total first count 0 bm

-- What the two loops of `fb_alloc` do next: leave the function with its result and the bitmap, or
-- run on.
pub data Scan : Type 0 where
  found : ℕ → List ℕ → Scan
  next : Scan

-- The inner loop at `bit`, with `left` rounds left.
unfoldable pub bit_loop : ℕ → ℕ → ℕ → List ℕ → ℕ → Scan
bit_loop zero bit b bm total_frames = next
bit_loop (suc left) bit b bm total_frames =
    let rest = bit_loop left (bit + 1) b bm total_frames in
    let frame = u32 (b * 8 + bit) in
    if leb total_frames frame
    then found fb_none bm
    else if bit_and (get_or bm b 0) (2 ^ bit) == 0
    then found frame (set bm b (bit_or (get_or bm b 0) (u8 (2 ^ bit))))
    else rest

-- The outer loop at byte `b`, with `left` rounds left.
unfoldable pub byte_loop : ℕ → ℕ → List ℕ → ℕ → ℕ × List ℕ
byte_loop zero b bm total_frames = (fb_none, bm)
byte_loop (suc left) b bm total_frames =
    let rest = byte_loop left (b + 1) bm total_frames in
    if get_or bm b 0 == 0xFF
    then rest
    else elim (bit_loop 8 0 b bm total_frames) [ found frame bm' ↦ (frame, bm') | next ↦ rest ]

-- The first free frame, now used, or `fb_none`.
unfoldable pub fb_alloc : List ℕ → ℕ → ℕ × List ℕ
fb_alloc bm total_frames = byte_loop (bitmap_bytes total_frames) 0 bm total_frames

unfoldable pub fb_free : List ℕ → ℕ → List ℕ
unfolding fb_mark_free
fb_free bm frame = fb_mark_free bm frame

-- The loop of `fb_count_free` at `f`, with `left` rounds left.
unfoldable pub count_loop : ℕ → ℕ → List ℕ → ℕ → ℕ
count_loop zero f bm count = count
count_loop (suc left) f bm count =
    count_loop left (f + 1) bm (if fb_test bm f then count else u32 (count + 1))

unfoldable pub fb_count_free : List ℕ → ℕ → ℕ
unfolding count_loop
fb_count_free bm total_frames = count_loop total_frames 0 bm 0
