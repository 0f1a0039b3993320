-- ===== src/Pmm/Boot.antt =====
-- `pmm_init` of kernel/mm/pmm.c. What the boot loader left in memory (kernel/mm/multiboot.h) and the
-- two symbols of linker.ld are parameters.
use thunity_os.Base.{
  ℕ, zero, suc, ◌+◌, ◌-◌, ◌*◌, ◌/◌, bit_and, true, false, not, ◌||◌, List, [], Option, none, some,
  u32, u64, ltb, ◌==◌, if◌then◌else◌,
}
use mathlib.Core.Option
use thunity_os.FrameBitmap.{fb_init, fb_mark_free, fb_count_free}
use thunity_os.Pmm.{Pmm, page_size, max_frames, low_memory, reserve_range}

abbrev pub multiboot_bootloader_magic : ℕ
multiboot_bootloader_magic = 0x2BADB002

abbrev pub mb_flag_mem : ℕ
mb_flag_mem = 0x00000001

abbrev pub mb_flag_mmap : ℕ
mb_flag_mmap = 0x00000040

abbrev pub mb_memory_available : ℕ
mb_memory_available = 1

-- `sizeof(multiboot_info_t)`, which is packed.
abbrev pub sizeof_multiboot_info : ℕ
sizeof_multiboot_info = 116

-- The fields of `multiboot_info_t` that `pmm_init` reads.
pub record MultibootInfo : Type 0 where
  pub flags : ℕ
  pub mem_lower : ℕ
  pub mem_upper : ℕ
  pub mmap_length : ℕ
  pub mmap_addr : ℕ

pub record MmapEntry : Type 0 where
  pub size : ℕ
  pub addr : ℕ
  pub len : ℕ
  pub kind : ℕ  -- `type`

-- Physical memory as the boot loader left it, read as a structure at an address, and the image's bounds.
pub record BootMemory : Type 0 where
  pub info_at : ℕ → MultibootInfo
  pub entry_at : ℕ → MmapEntry
  pub kernel_start : ℕ
  pub kernel_end : ℕ

-- The loops that mark `[f0, f1)` free, at frame `f` with `left` rounds left.
unfoldable pub free_loop : ℕ → ℕ → List ℕ → List ℕ
free_loop zero f bm = bm
free_loop (suc left) f bm =
    let rest = free_loop left (f + 1) (fb_mark_free bm f) in if ltb f max_frames then rest else bm

-- What the walk over the memory map keeps.
pub record Walk : Type 0 where
  pub bitmap : List ℕ
  pub highest : ℕ
  pub usable : ℕ

-- The end of an entry's region, capped to 4 GiB.
abbrev pub region_end : MmapEntry → ℕ
region_end e = let rend = u64 (e.addr + e.len) in if ltb 0x100000000 rend then 0x100000000 else rend

abbrev pub first_frame : MmapEntry → ℕ
first_frame e = u32 (e.addr / page_size)

abbrev pub last_frame : MmapEntry → ℕ
last_frame e = u32 (region_end e / page_size)

-- The body of the walk but for the step of `ptr`.
unfoldable pub walk_entry : MmapEntry → Walk → Walk
walk_entry e w =
    if e.kind == mb_memory_available
    then record {
      bitmap = free_loop (last_frame e - first_frame e) (first_frame e) w.bitmap;
      highest = if ltb w.highest (region_end e) then u32 (region_end e) else w.highest;
      usable = u32 (w.usable + u32 e.len);
    }
    else w

-- `while (ptr < end)`; `none` means that the fuel ran out.
unfoldable pub walk_loop : BootMemory → ℕ → ℕ → ℕ → Walk → Option Walk
walk_loop mem zero ptr end w = none
walk_loop mem (suc fuel) ptr end w =
    let e = mem.entry_at ptr in
    let rest = walk_loop mem fuel (u32 (ptr + u32 (e.size + 4))) end (walk_entry e w) in
    if ltb ptr end then rest else some w

-- The static state as the first lines of `pmm_init` leave it.
unfoldable pub cleared : Pmm → Pmm
cleared p = record p {
  frame_bitmap = fb_init p.frame_bitmap max_frames;
  total_frames = 0;
  usable_frames = 0;
  reserved_frames = 0;
  usable_bytes = 0;
  mem_lower_kb = 0;
  mem_upper_kb = 0;
  mmap_addr_saved = 0;
  mmap_len_saved = 0;
  have_map = false;
  prot = [];
}

-- `if (mbi->flags & MB_FLAG_MEM)`
unfoldable pub read_mem_hint : MultibootInfo → Pmm → Pmm
read_mem_hint mbi p =
    if bit_and mbi.flags mb_flag_mem == 0
    then p
    else record p { mem_lower_kb = mbi.mem_lower; mem_upper_kb = mbi.mem_upper }

-- The three ways to find the usable memory: the map, the hint, nothing.
unfoldable pub find_memory : BootMemory → ℕ → MultibootInfo → Pmm → Option (Pmm × ℕ)
find_memory mem fuel mbi p =
    if not (bit_and mbi.flags mb_flag_mmap == 0)
    then Option.map
        (λ (w : Walk). (
          record p {
            frame_bitmap = w.bitmap;
            usable_bytes = w.usable;
            have_map = true;
            mmap_addr_saved = mbi.mmap_addr;
            mmap_len_saved = mbi.mmap_length;
          },
          w.highest,
        ))
        (walk_loop mem fuel mbi.mmap_addr (u32 (mbi.mmap_addr + mbi.mmap_length))
          (record { bitmap = p.frame_bitmap; highest = 0; usable = p.usable_bytes }))
    else if not (bit_and mbi.flags mb_flag_mem == 0)
    then (let highest = u32 (low_memory + u32 (mbi.mem_upper * 1024)) in
        some (
          record p {
            frame_bitmap =
                free_loop (highest / page_size - low_memory / page_size) (low_memory / page_size)
                  p.frame_bitmap;
            usable_bytes = u32 (mbi.mem_upper * 1024);
          },
          highest,
        ))
    else some (p, 0)

-- The frame counts.
unfoldable pub count_frames : ℕ → Pmm → Pmm
count_frames highest p =
    let total = if ltb max_frames (highest / page_size) then max_frames else highest / page_size in
    record p { total_frames = total; usable_frames = fb_count_free p.frame_bitmap total }

-- The protected regions.
unfoldable pub reserve_all : BootMemory → ℕ → Pmm → Pmm
reserve_all mem mb_info_addr p0 =
    let p1 = reserve_range 0 low_memory p0 in
    let p2 = reserve_range mem.kernel_start mem.kernel_end p1 in
    let p3 = reserve_range mb_info_addr (u32 (mb_info_addr + sizeof_multiboot_info)) p2 in
    if p3.mmap_len_saved == 0
    then p3
    else reserve_range p3.mmap_addr_saved (u32 (p3.mmap_addr_saved + p3.mmap_len_saved)) p3

-- `none` means that the walk over the memory map ran out of fuel.
unfoldable pub pmm_init : BootMemory → ℕ → ℕ → ℕ → Pmm → Option Pmm
pmm_init mem fuel magic mb_info_addr p =
    if not (magic == multiboot_bootloader_magic) || mb_info_addr == 0
    then some (cleared p)
    else (let mbi = mem.info_at mb_info_addr in
        Option.map (λ (q : Pmm × ℕ). reserve_all mem mb_info_addr (count_frames q.1 q.0))
          (find_memory mem fuel mbi (read_mem_hint mbi (cleared p))))
