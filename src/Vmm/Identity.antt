-- ===== src/Vmm/Identity.antt =====
-- The identity map of kernel/mm/vmm_core.c: what its loops write, and that translation reads it back.
use thunity_os.Base.{
  ℕ, ◌+◌, ◌*◌, ◌/◌, ◌%◌, ◌^◌, ◌≤◌, ◌≡◌, refl, inl, inr, true, ◌&&◌, none, some, length, get_or, u32,
  sub32, if◌then◌else◌, Bool-cases, arith,
}
use thunity_os.Vmm.{
  vmm_page_size, vmm_pde_index, vmm_pte_index, vmm_offset, vmm_make_entry, vmm_entry_addr,
  vmm_entry_present, or_present, Tables, clear_loop, table_loop, pages_of, tables_of,
  vmm_identity_map, vmm_translate,
}

module _ (pages flags : ℕ) where
  -- The entry of table `i` in the directory.
  abbrev pub pde_of : ℕ → ℕ → ℕ
  pde_of pts_phys i = vmm_make_entry (u32 (pts_phys + i * vmm_page_size)) (or_present flags)

pub make_entry-addr :
    (phys flags : ℕ) → phys % 4096 ≡ 0 → vmm_entry_addr (vmm_make_entry phys flags) ≡ phys
unfolding vmm_entry_addr vmm_make_entry
make_entry-addr phys flags h = omega arith

pub make_entry-present :
    (phys flags : ℕ) → vmm_entry_present (vmm_make_entry phys (or_present flags)) ≡ true
unfolding vmm_entry_present vmm_make_entry
make_entry-present phys flags = ground arith

module _ (m : Tables) (pts_phys va pde pte : ℕ) where
  -- A translation by the entries that it reads.
  pub translate-eq :
      get_or m.pd (vmm_pde_index va) 0 ≡ pde
      → get_or m.pts (sub32 (vmm_entry_addr pde) pts_phys / 4 + vmm_pte_index va) 0 ≡ pte
      → vmm_translate m pts_phys va ≡ (
          if vmm_entry_present pde && vmm_entry_present pte
          then some (vmm_entry_addr pte + vmm_offset va)
          else none)
  unfolding vmm_translate
  translate-eq d p =
      rw (d, p)
        (elim (Bool-cases (vmm_entry_present pde)) [
          | inr absent ↦ rw absent refl
          | inl here ↦ rw here (elim (Bool-cases (vmm_entry_present pte)) [
            | inr absent ↦ rw absent refl
            | inl there ↦ rw there refl
          ])
        ])

module _ (m : Tables) (pts_phys n_pts bytes flags : ℕ) (dir : 1024 ≤ length m.pd)
    (pool : n_pts * 1024 ≤ length m.pts) (aligned : pts_phys % vmm_page_size ≡ 0)
    (low : pts_phys + n_pts * vmm_page_size ≤ 2 ^ 32) (small : bytes + vmm_page_size ≤ 2 ^ 32)
    (enough : tables_of bytes ≤ n_pts) where
  abbrev mapped : Tables
  mapped = (vmm_identity_map m pts_phys n_pts bytes flags).1

  abbrev built : Tables
  built =
      table_loop (tables_of bytes) 0 pts_phys (pages_of bytes) flags
        (record m { pd = clear_loop 1024 0 m.pd })
