-- ===== src/Pmm/BigMemory.antt =====
-- `pmm_init` of kernel/mm/pmm.c on a machine with memory at or above 4 GiB: the cap of an entry's end,
-- 0x100000000, is stored through a 32-bit cast, as 0.
use thunity_os.Base.{
  ℕ, ◌+◌, ◌^◌, ◌≤◌, ◌<◌, bit_and, ◌≡◌, ◌≢◌, refl, ap, ◌∙◌, true, some, List, [], ◌∷◌, ◌++◌, length,
  u32, ◌==◌, ne→==, lt→ltb, Bool-cases, inl, inr, arith,
}
use thunity_os.FrameBitmap.Marks.{IsBytes}
use thunity_os.Pmm.{Pmm, pmm_alloc_frame}
use thunity_os.Pmm.Boot.{
  MmapEntry, BootMemory, multiboot_bootloader_magic, mb_memory_available, mb_flag_mmap, Walk,
  region_end, walk_entry, count_frames, pmm_init,
}
use thunity_os.Pmm.Walk.{MapAt, walk_all, highest_small}
use thunity_os.Pmm.FromMap.{pmm_init-eq, final-AllReserved, walked, hinted, mapped, final_state}

-- The region ends at or above 4 GiB.
abbrev pub IsHigh : MmapEntry → Type 0
IsHigh e = (e.kind ≡ mb_memory_available) × (2 ^ 32 ≤ e.addr + e.len) × (e.addr + e.len < 2 ^ 64)

abbrev pub NoneAvailable : List MmapEntry → Type 0
NoneAvailable [] = Unit {0}
NoneAvailable (e ∷ es) = (e.kind ≢ mb_memory_available) × NoneAvailable es

walk_all-append :
    (xs ys : List MmapEntry) (w : Walk) → walk_all (xs ++ ys) w ≡ walk_all ys (walk_all xs w)
walk_all-append [] ys w = refl
walk_all-append (x ∷ xs) ys w = walk_all-append xs ys (walk_entry x w)

walk_entry-other : (e : MmapEntry) (w : Walk) → e.kind ≢ mb_memory_available → walk_entry e w ≡ w
unfolding walk_entry
walk_entry-other e w ne = rw (ne→== e.kind mb_memory_available ne)

walk_all-others : (es : List MmapEntry) (w : Walk) → NoneAvailable es → walk_all es w ≡ w
walk_all-others [] w h = refl
walk_all-others (e ∷ es) w h =
    ap (walk_all es) (walk_entry-other e w h.0) ∙ walk_all-others es w h.1

capped : (e : MmapEntry) → IsHigh e → region_end e ≡ 2 ^ 32
capped e h = ground arith

highest-walk_entry :
    (e : MmapEntry) (w : Walk) → IsHigh e → w.highest < 2 ^ 32 → (walk_entry e w).highest ≡ 0
unfolding walk_entry
highest-walk_entry e w h lt =
    let available : (e.kind == mb_memory_available) ≡ true = ground arith in
    rw (available, capped e h, lt→ltb w.highest (2 ^ 32) lt)

highest-walk_entry-lt :
    (e : MmapEntry) (w : Walk) → w.highest < 2 ^ 32 → (walk_entry e w).highest < 2 ^ 32
unfolding walk_entry
highest-walk_entry-lt e w h = elim (Bool-cases (e.kind == mb_memory_available)) [
  | inl available ↦ rw available (highest_small w.highest (region_end e) h)
  | inr other ↦ rw other h
]

highest-walk_all-lt :
    (es : List MmapEntry) (w : Walk) → w.highest < 2 ^ 32 → (walk_all es w).highest < 2 ^ 32
highest-walk_all-lt [] w h = h
highest-walk_all-lt (e ∷ es) w h =
    highest-walk_all-lt es (walk_entry e w) (highest-walk_entry-lt e w h)

highest-walk_all :
    (before after : List MmapEntry) (e : MmapEntry) (w : Walk)
    → IsHigh e
    → NoneAvailable after
    → w.highest < 2 ^ 32
    → (walk_all (before ++ (e ∷ after)) w).highest ≡ 0
highest-walk_all before after e w high rest lt =
    let w' = walk_all before w in
    ap (λ (v : Walk). v.highest)
      (walk_all-append before (e ∷ after) w ∙ walk_all-others after (walk_entry e w') rest)
    ∙ highest-walk_entry e w' high (highest-walk_all-lt before w lt)

no_frames : (p : Pmm) → (count_frames 0 p).total_frames ≡ 0
unfolding count_frames
no_frames p = refl

none_to_allocate : (p : Pmm) → p.total_frames ≡ 0 → pmm_alloc_frame p ≡ (0, p)
unfolding pmm_alloc_frame
none_to_allocate p e = rw e

-- On a memory map that the walk reads to its end, whose last available entry ends at or above 4 GiB,
-- `pmm_init` manages no frame at all: the total is 0 and an allocation fails and changes nothing.
pub pmm_init_big_memory :
    (mem : BootMemory) (a fuel : ℕ) (p : Pmm) (before after : List MmapEntry) (e : MmapEntry)
    → IsBytes p.frame_bitmap
    → length p.frame_bitmap ≡ 131072
    → a ≢ 0
    → bit_and (mem.info_at a).flags mb_flag_mmap ≢ 0
    → MapAt mem
        (u32 ((mem.info_at a).mmap_addr + (mem.info_at a).mmap_length))
        (mem.info_at a).mmap_addr
        (before ++ (e ∷ after))
    → length (before ++ (e ∷ after)) < fuel
    → IsHigh e
    → NoneAvailable after
    → (q : Pmm) × (pmm_init mem fuel multiboot_bootloader_magic a p ≡ some q)
      × (q.total_frames ≡ 0)
      × (pmm_alloc_frame q ≡ (0, q))
pmm_init_big_memory mem a fuel p before after e bytes room ne flag m h high rest =
    let es = before ++ (e ∷ after) in
    let q = final_state mem a fuel p es bytes room in
    let top : (walked mem a fuel p es).highest ≡ 0 =
      highest-walk_all before after e
        (record {
          bitmap = (hinted mem a fuel p es).frame_bitmap;
          highest = 0;
          usable = (hinted mem a fuel p es).usable_bytes;
        })
        high rest (omega arith) in
    let empty : q.total_frames ≡ 0 =
      (final-AllReserved mem a fuel p es bytes room).kept.total
      ∙ ap (λ t. (count_frames t (mapped mem a fuel p es)).total_frames) top
      ∙ no_frames (mapped mem a fuel p es) in
    (q, pmm_init-eq mem a fuel p es ne flag m h, empty, none_to_allocate q empty)
