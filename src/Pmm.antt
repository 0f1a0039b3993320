-- ===== src/Pmm.antt =====
-- kernel/mm/pmm.c: the allocator of 4 KiB page frames over the bitmap of FrameBitmap.antt. The file's
-- static variables are the fields of `Pmm`, and a function that writes them returns the new record.
-- `prot` lists the ranges `prot[0]` to `prot[prot_count - 1]`.
pub mod Boot
pub mod Walk
pub mod Init
pub mod FromMap
pub mod BigMemory
pub mod Reserve
pub mod Frames
pub mod Free
pub mod Clients
mod Examples
mod BootExamples
use thunity_os.Base.{
  ℕ, zero, suc, ◌+◌, ◌-◌, ◌*◌, ◌/◌, ◌%◌, ◌^◌, Bool, true, false, not, ◌&&◌, ◌||◌, List, [], ◌∷◌,
  ◌++◌, length, u32, sub32, ltb, leb, ◌==◌, if◌then◌else◌,
}
use thunity_os.FrameBitmap.{fb_none, fb_test, fb_mark_used, fb_mark_free, fb_alloc, fb_count_free}

abbrev pub page_size : ℕ
page_size = 4096

abbrev pub max_frames : ℕ
max_frames = 0x100000

abbrev pub low_memory : ℕ
low_memory = 0x100000

abbrev pub max_prot : ℕ
max_prot = 6

pub record Prot : Type 0 where
  pub start : ℕ
  pub end : ℕ

pub record Pmm : Type 0 where
  pub frame_bitmap : List ℕ
  pub total_frames : ℕ
  pub usable_frames : ℕ
  pub reserved_frames : ℕ
  pub usable_bytes : ℕ
  pub mem_lower_kb : ℕ
  pub mem_upper_kb : ℕ
  pub mmap_addr_saved : ℕ
  pub mmap_len_saved : ℕ
  pub have_map : Bool
  pub prot : List Prot

-- The body of the loop of `reserve_range`.
unfoldable pub reserve_frame : ℕ → Pmm → Pmm
reserve_frame f p = if fb_test p.frame_bitmap f then p else record p {
  frame_bitmap = fb_mark_used p.frame_bitmap f;
  reserved_frames = u32 (p.reserved_frames + 1);
}

-- The loop at frame `f`, with `left` rounds left until `f1`.
unfoldable pub reserve_loop : ℕ → ℕ → Pmm → Pmm
reserve_loop zero f p = p
reserve_loop (suc left) f p =
    let rest = reserve_loop left (f + 1) (reserve_frame f p) in
    if ltb f p.total_frames then rest else p

-- The range goes into the table while there is room.
abbrev pub record_range : ℕ → ℕ → Pmm → Pmm
record_range start end p =
    if ltb (length p.prot) max_prot
    then record p { prot = p.prot ++ (record { start = start; end = end } ∷ []) }
    else p

-- `(end + PAGE_SIZE - 1) / PAGE_SIZE`
abbrev pub end_frame : ℕ → ℕ
end_frame end = u32 (end + (page_size - 1)) / page_size

unfoldable pub reserve_range : ℕ → ℕ → Pmm → Pmm
reserve_range start end p =
    if leb end start
    then p
    else record_range start end
        (reserve_loop (end_frame end - start / page_size) (start / page_size) p)

-- The loop of `pmm_is_protected` over the ranges that are recorded.
unfoldable pub protected_in : List Prot → ℕ → Bool
protected_in [] phys_addr = false
protected_in (r ∷ rs) phys_addr =
    (leb r.start phys_addr && ltb phys_addr r.end) || protected_in rs phys_addr

unfoldable pub pmm_is_protected : Pmm → ℕ → Bool
pmm_is_protected p phys_addr = protected_in p.prot phys_addr

-- The address of the frame, or 0.
unfoldable pub pmm_alloc_frame : Pmm → ℕ × Pmm
pmm_alloc_frame p =
    let (f, bm) = fb_alloc p.frame_bitmap p.total_frames in
    if p.total_frames == 0
    then (0, p)
    else if f == fb_none
    then (0, record p { frame_bitmap = bm })
    else (u32 (f * page_size), record p { frame_bitmap = bm })

-- The results 0, -1, -2 and -3 of `pmm_free_frame`.
pub data FreeResult : Type 0 where
  freed bad_address protected already_free : FreeResult

unfoldable pub pmm_free_frame : Pmm → ℕ → FreeResult × Pmm
pmm_free_frame p phys_addr =
    let f = phys_addr / page_size in
    if not (phys_addr % page_size == 0)
    then (bad_address, p)
    else if leb p.total_frames f
    then (bad_address, p)
    else if pmm_is_protected p phys_addr
    then (protected, p)
    else if not (fb_test p.frame_bitmap f)
    then (already_free, p)
    else (freed, record p { frame_bitmap = fb_mark_free p.frame_bitmap f })

unfoldable pub pmm_free_frames : Pmm → ℕ
pmm_free_frames p = fb_count_free p.frame_bitmap p.total_frames

unfoldable pub pmm_used_frames : Pmm → ℕ
pmm_used_frames p = sub32 p.usable_frames (pmm_free_frames p)

unfoldable pub pmm_available : Pmm → Bool
pmm_available p = p.have_map || not (p.mem_upper_kb == 0)
