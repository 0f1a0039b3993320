-- ===== src/Vmm.antt =====
-- kernel/mm/vmm_core.c: two-level paging of the i386. A directory and the pool of page tables are lists
-- of entries. The masks are written as arithmetic, which is the same on 32-bit words: `x & 0xFFF` is
-- `x % 4096`, `x & 0xFFFFF000` is `x / 4096 * 4096`, and `|` of words without a common bit is `+`.
pub mod Identity
pub mod SetUp
pub mod Window
mod Examples
use thunity_os.Base.{
  ℕ, zero, suc, ◌+◌, ◌-◌, ◌*◌, ◌/◌, ◌%◌, ◌^◌, Bool, not, Option, none, some, List, get_or, set, u32,
  sub32, ltb, ◌==◌, if◌then◌else◌,
}

abbrev pub vmm_page_size : ℕ
vmm_page_size = 4096

abbrev pub vmm_pde_index : ℕ → ℕ
vmm_pde_index va = va / 2 ^ 22

abbrev pub vmm_pte_index : ℕ → ℕ
vmm_pte_index va = va / 4096 % 1024

abbrev pub vmm_offset : ℕ → ℕ
vmm_offset va = va % 4096

unfoldable pub vmm_make_entry : ℕ → ℕ → ℕ
vmm_make_entry phys flags = phys / 4096 * 4096 + flags % 4096

unfoldable pub vmm_entry_addr : ℕ → ℕ
vmm_entry_addr entry = entry / 4096 * 4096

unfoldable pub vmm_entry_present : ℕ → Bool
vmm_entry_present entry = not (entry % 2 == 0)

-- `flags | PTE_PRESENT`
abbrev pub or_present : ℕ → ℕ
or_present flags = if flags % 2 == 0 then flags + 1 else flags

unfoldable pub vmm_set_pde : List ℕ → ℕ → ℕ → ℕ → List ℕ
vmm_set_pde pd va pt_phys flags = set pd (vmm_pde_index va) (vmm_make_entry pt_phys flags)

unfoldable pub vmm_set_pte : List ℕ → ℕ → ℕ → ℕ → List ℕ
vmm_set_pte pt va phys flags = set pt (vmm_pte_index va) (vmm_make_entry phys flags)

-- A directory and the pool of the page tables.
pub record Tables : Type 0 where
  pub pd : List ℕ
  pub pts : List ℕ

-- The loop that clears the directory, at `i` with `left` rounds left.
unfoldable pub clear_loop : ℕ → ℕ → List ℕ → List ℕ
clear_loop zero i pd = pd
clear_loop (suc left) i pd = clear_loop left (i + 1) (set pd i 0)

-- The entry for `page`, a page of the range or not.
unfoldable pub page_entry : ℕ → ℕ → ℕ → ℕ
page_entry pages flags page =
    if ltb page pages then vmm_make_entry (u32 (page * 4096)) (or_present flags) else 0

-- The inner loop for table `t` at entry `e`, with `left` rounds left.
unfoldable pub entry_loop : ℕ → ℕ → ℕ → ℕ → ℕ → List ℕ → List ℕ
entry_loop zero e t pages flags pts = pts
entry_loop (suc left) e t pages flags pts =
    entry_loop left (e + 1) t pages flags
      (set pts (t * 1024 + e) (page_entry pages flags (t * 1024 + e)))

-- The outer loop at table `t`, with `left` rounds left.
unfoldable pub table_loop : ℕ → ℕ → ℕ → ℕ → ℕ → Tables → Tables
table_loop zero t pts_phys pages flags m = m
table_loop (suc left) t pts_phys pages flags m =
    table_loop left (t + 1) pts_phys pages flags (record {
      pd = set m.pd t (vmm_make_entry (u32 (pts_phys + t * vmm_page_size)) (or_present flags));
      pts = entry_loop 1024 0 t pages flags m.pts;
    })

abbrev pub pages_of : ℕ → ℕ
pages_of bytes = u32 (bytes + (vmm_page_size - 1)) / 4096

abbrev pub tables_of : ℕ → ℕ
tables_of bytes = u32 (pages_of bytes + 1023) / 1024

-- The number of tables used, or 0 when the pool has too few.
unfoldable pub vmm_identity_map : Tables → ℕ → ℕ → ℕ → ℕ → ℕ × Tables
vmm_identity_map m pts_phys n_pts bytes flags = if ltb n_pts (tables_of bytes) then (0, m) else (
  tables_of bytes,
  table_loop (tables_of bytes) 0 pts_phys (pages_of bytes) flags
      (record m { pd = clear_loop 1024 0 m.pd }),
)

-- The physical address, or `none` where nothing is mapped. A table outside the pool, which the C code
-- would read past its array, reads as 0.
unfoldable pub vmm_translate : Tables → ℕ → ℕ → Option ℕ
vmm_translate m pts_phys va =
    let pde = get_or m.pd (vmm_pde_index va) 0 in
    let pte = get_or m.pts (sub32 (vmm_entry_addr pde) pts_phys / 4 + vmm_pte_index va) 0 in
    if not (vmm_entry_present pde)
    then none
    else if not (vmm_entry_present pte)
    then none
    else some (vmm_entry_addr pte + vmm_offset va)
