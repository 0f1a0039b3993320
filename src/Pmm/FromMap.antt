-- ===== src/Pmm/FromMap.antt =====
-- `pmm_init` of kernel/mm/pmm.c on a machine whose boot loader passes a memory map.
use thunity_os.Base.{
  ℕ, ◌+◌, ◌/◌, ◌^◌, ◌≤◌, ◌<◌, bit_and, ◌≡◌, ◌≢◌, refl, ap, ◌∙◌, inl, inr, true, false, some, List,
  [], length, u32, ltb, ◌==◌, if◌then◌else◌, Bool-cases, ne→==, arith,
}
use thunity_os.FrameBitmap.{fb_test}
use thunity_os.FrameBitmap.Marks.{IsBytes}
use thunity_os.FrameBitmap.Regions.{fb_init-IsBytes, length-fb_init}
use thunity_os.FrameBitmap.Alloc.{free_in-le, fb_count_free_lem}
use thunity_os.Pmm.{Pmm, page_size, max_frames}
use thunity_os.Pmm.Reserve.{IsValid, covers, free_of}
use thunity_os.Pmm.Boot.{
  MultibootInfo, MmapEntry, BootMemory, multiboot_bootloader_magic, mb_flag_mmap, mb_flag_mem, Walk,
  cleared, read_mem_hint, find_memory, count_frames, reserve_all, pmm_init,
}
use thunity_os.Pmm.Walk.{MapAt, walk_all, walk_loop-walk_all, some_frees, Walked, walk_all-Walked}
use thunity_os.Pmm.Init.{
  RangeUsed, low_range, kernel_range, info_range, AllReserved, reserve_all-AllReserved,
}

-- The state before the frames are counted: nothing is reserved or recorded.
pub record IsFresh (p : Pmm) : Type 0 where
  pub bytes : IsBytes p.frame_bitmap
  pub room : length p.frame_bitmap ≡ 131072
  pub none_reserved : p.reserved_frames ≡ 0
  pub none_recorded : p.prot ≡ []

count_frames-IsValid :
    (h : ℕ) (p : Pmm)
    → IsFresh p
    → IsValid (count_frames h p)
      × ((count_frames h p).reserved_frames + free_of (count_frames h p) < 2 ^ 32)
      × ((count_frames h p).usable_frames
          ≡ (count_frames h p).reserved_frames + free_of (count_frames h p))
unfolding count_frames
count_frames-IsValid h p f = (
  record {
    bytes = f.bytes;
    room = omega (arith, small, f.room);
    small = small;
    reserved = λ g lt c. cc (c, ap (λ r. covers r g) f.none_recorded);
  },
  omega (arith, f.none_reserved, free_in-le p.frame_bitmap 0 total, small),
  omega (arith, f.none_reserved, fb_count_free_lem p.frame_bitmap total (omega (arith, small))),
)
  where
    total : ℕ
    total = if ltb max_frames (h / page_size) then max_frames else h / page_size

    small : total ≤ max_frames
    small = ground arith

module _ (p : Pmm) (bytes : IsBytes p.frame_bitmap) (room : length p.frame_bitmap ≡ 131072) where
  cleared-IsFresh : IsFresh (cleared p)
  unfolding cleared
  cleared-IsFresh = record {
    bytes = fb_init-IsBytes p.frame_bitmap max_frames (omega arith) (omega arith) bytes;
    room = length-fb_init p.frame_bitmap max_frames (omega arith) (omega arith) ∙ room;
    none_reserved = refl;
    none_recorded = refl;
  }

read_mem_hint-IsFresh : (m : MultibootInfo) (p : Pmm) → IsFresh p → IsFresh (read_mem_hint m p)
unfolding read_mem_hint
read_mem_hint-IsFresh m p f = elim (Bool-cases (bit_and m.flags mb_flag_mem == 0)) [
  | inl no_hint ↦ rw no_hint f
  | inr hint ↦ rw hint (record {
    bytes = f.bytes;
    room = f.room;
    none_reserved = f.none_reserved;
    none_recorded = f.none_recorded;
  })
]

-- What `pmm_init` leaves on a map with the entries `es`.
pub record FromMap (mem : BootMemory) (a : ℕ) (es : List MmapEntry) (q : Pmm) : Type 0 where
  pub valid : IsValid q
  pub available :
      (g : ℕ) → g < q.total_frames → fb_test q.frame_bitmap g ≡ false → some_frees es g ≡ true
  pub counted : q.usable_frames ≡ q.reserved_frames + free_of q
  pub low_used : RangeUsed q low_range
  pub kernel_used : RangeUsed q (kernel_range mem)
  pub info_used : RangeUsed q (info_range a)

module _ (mem : BootMemory) (a fuel : ℕ) (p : Pmm) (es : List MmapEntry) where
  -- The state after the walk, and the one before the reservations.
  abbrev pub hinted : Pmm
  hinted = read_mem_hint (mem.info_at a) (cleared p)

  abbrev pub walked : Walk
  walked =
      walk_all es
        (record { bitmap = hinted.frame_bitmap; highest = 0; usable = hinted.usable_bytes })

  abbrev pub mapped : Pmm
  mapped = record hinted {
    frame_bitmap = walked.bitmap;
    usable_bytes = walked.usable;
    have_map = true;
    mmap_addr_saved = (mem.info_at a).mmap_addr;
    mmap_len_saved = (mem.info_at a).mmap_length;
  }

  pub pmm_init-eq :
      a ≢ 0
      → bit_and (mem.info_at a).flags mb_flag_mmap ≢ 0
      → MapAt mem
          (u32 ((mem.info_at a).mmap_addr + (mem.info_at a).mmap_length))
          (mem.info_at a).mmap_addr
          es
      → length es < fuel
      → pmm_init mem fuel multiboot_bootloader_magic a p
        ≡ some (reserve_all mem a (count_frames walked.highest mapped))
  unfolding pmm_init find_memory
  pmm_init-eq ne flag m h = rw (
    ne→== a 0 ne,
    ne→== (bit_and (mem.info_at a).flags mb_flag_mmap) 0 flag,
    walk_loop-walk_all mem (u32 ((mem.info_at a).mmap_addr + (mem.info_at a).mmap_length)) fuel
        (mem.info_at a).mmap_addr es
        (record { bitmap = hinted.frame_bitmap; highest = 0; usable = hinted.usable_bytes }) m h,
  )

  module _ (bytes : IsBytes p.frame_bitmap) (room : length p.frame_bitmap ≡ 131072) where
    hinted-IsFresh : IsFresh hinted
    hinted-IsFresh =
        read_mem_hint-IsFresh (mem.info_at a) (cleared p) (cleared-IsFresh p bytes room)

    walked-Walked :
        Walked es
          (record { bitmap = hinted.frame_bitmap; highest = 0; usable = hinted.usable_bytes })
          walked
    walked-Walked =
        walk_all-Walked es
          (record { bitmap = hinted.frame_bitmap; highest = 0; usable = hinted.usable_bytes })
          hinted-IsFresh.bytes (omega (arith, hinted-IsFresh.room))

    mapped-IsFresh : IsFresh mapped
    mapped-IsFresh = record {
      bytes = walked-Walked.bytes;
      room = walked-Walked.room ∙ hinted-IsFresh.room;
      none_reserved = hinted-IsFresh.none_reserved;
      none_recorded = hinted-IsFresh.none_recorded;
    }

    abbrev pub counted_state : Pmm
    counted_state = count_frames walked.highest mapped

    abbrev pub final_state : Pmm
    final_state = reserve_all mem a counted_state

    pub final-AllReserved : AllReserved mem a counted_state final_state
    final-AllReserved =
        let c = count_frames-IsValid walked.highest mapped mapped-IsFresh in
        reserve_all-AllReserved mem a counted_state c.0 c.1
