-- ===== src/Pmm/BootExamples.antt =====
-- Tests of `pmm_init` in kernel/mm/pmm.c: machines whose memory map has one entry, with 128 MiB and with
-- 8 GiB.
use thunity_os.Base.{
  ℕ, zero, suc, ◌≡◌, ◌≢◌, refl, some, false, List, [], ◌∷◌, length, replicate, length-replicate,
  bit_and, arith,
}
use thunity_os.FrameBitmap.Marks.{IsBytes}
use thunity_os.Pmm.{Pmm, pmm_alloc_frame}
use thunity_os.Pmm.Boot.{MmapEntry, BootMemory, multiboot_bootloader_magic, mb_flag_mmap, pmm_init}
use thunity_os.Pmm.Walk.{MapAt, past, entry}
use thunity_os.Pmm.FromMap.{FromMap}
use thunity_os.Pmm.BigMemory.{pmm_init_big_memory}

full-IsBytes : (n : ℕ) → IsBytes (replicate n 0xFF)
full-IsBytes zero i = omega arith
full-IsBytes (suc n) zero = omega arith
full-IsBytes (suc n) (suc i) = full-IsBytes n i

full_length : length (replicate {A = ℕ} 131072 0xFF) ≡ 131072
full_length = length-replicate {A = ℕ} 131072 0xFF

-- The static state before the first call.
abbrev blank : List ℕ → Pmm
blank bm = record {
  frame_bitmap = bm;
  total_frames = 0;
  usable_frames = 0;
  reserved_frames = 0;
  usable_bytes = 0;
  mem_lower_kb = 0;
  mem_upper_kb = 0;
  mmap_addr_saved = 0;
  mmap_len_saved = 0;
  have_map = false;
  prot = [];
}

abbrev memory : ℕ → BootMemory
memory len = record {
  info_at = λ _. record {
    flags = 0x41;
    mem_lower = 639;
    mem_upper = 130048;
    mmap_length = 24;
    mmap_addr = 0x9000;
  };
  entry_at = λ _. record { size = 20; addr = 0; len = len; kind = 1 };
  kernel_start = 0x100000;
  kernel_end = 0x180000;
}

abbrev whole : ℕ → MmapEntry
whole len = record { size = 20; addr = 0; len = len; kind = 1 }

one_entry : (len : ℕ) → MapAt (memory len) 0x9018 0x9000 (whole len ∷ [])
one_entry len = entry {ptr' = 0x9018} (omega arith) refl refl (past (omega arith))

has_map : bit_and 0x41 mb_flag_mmap ≢ 0
has_map e = omega (arith, e)

pmm_init_big_memory_example :
    (q : Pmm) × (pmm_init
        (memory 0x200000000)
        2
        multiboot_bootloader_magic
        0x9500
        (blank (replicate 131072 0xFF))
      ≡ some q)
    × (q.total_frames ≡ 0)
    × (pmm_alloc_frame q ≡ (0, q))
pmm_init_big_memory_example =
    pmm_init_big_memory (memory 0x200000000) 0x9500 2 (blank (replicate 131072 0xFF)) [] []
      (whole 0x200000000) (full-IsBytes 131072) (full_length) (λ e. omega (arith, e)) has_map
      (one_entry 0x200000000) (omega arith) (refl, omega arith, omega arith) tt
