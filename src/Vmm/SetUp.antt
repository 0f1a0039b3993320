-- ===== src/Vmm/SetUp.antt =====
-- kernel/mm/vmm.c: the kernel's own directory, and windows onto the framebuffer and onto devices. The addresses
-- of the tables are parameters; the loads of the control registers have no result here. `|` of flags
-- without a common bit is written as `+`.
use thunity_os.Base.{
  ℕ, zero, suc, ◌+◌, ◌-◌, ◌*◌, ◌/◌, ◌^◌, Bool, true, false, ◌||◌, none, some, List, set, u32, sub32,
  ltb, ◌==◌, if◌then◌else◌,
}
use thunity_os.Vmm.{vmm_page_size, vmm_make_entry, Tables, vmm_identity_map, vmm_translate}

abbrev pub vmm_idmap_bytes : ℕ
vmm_idmap_bytes = 8 * 1024 * 1024

abbrev pub vmm_npts : ℕ
vmm_npts = 2

abbrev pub vmm_lfb_npts : ℕ
vmm_lfb_npts = 8

abbrev pub vmm_mmio_npts : ℕ
vmm_mmio_npts = 2

-- PTE_RW | PTE_PRESENT
abbrev pub rw_present : ℕ
rw_present = 3

-- PTE_PCD | PTE_RW | PTE_PRESENT
abbrev pub uncached : ℕ
uncached = 0x13

abbrev pub four_mb : ℕ
four_mb = 2 ^ 22

-- Where the three pools of tables are.
pub record Layout : Type 0 where
  pub page_tabs_at : ℕ
  pub lfb_tabs_at : ℕ
  pub mmio_tabs_at : ℕ

pub record Paging : Type 0 where
  pub page_dir : List ℕ
  pub page_tabs : List ℕ
  pub lfb_tabs : List ℕ
  pub mmio_tabs : List ℕ
  pub ready : Bool
  pub enabled : Bool

-- The flags are PTE_RW | PTE_USER.
unfoldable pub vmm_init : Layout → Paging → Paging
vmm_init l p =
    let (n, m) =
      vmm_identity_map (record { pd = p.page_dir; pts = p.page_tabs }) l.page_tabs_at vmm_npts
        vmm_idmap_bytes 6 in
    record p { page_dir = m.pd; page_tabs = m.pts; ready = n == vmm_npts }

unfoldable pub vmm_mapped_bytes : Paging → ℕ
vmm_mapped_bytes p = if p.ready then vmm_idmap_bytes else 0

abbrev pub vmm_lfb_capacity : ℕ
vmm_lfb_capacity = vmm_lfb_npts * 4 * 1024 * 1024

unfoldable pub vmm_phys_of : Layout → Paging → ℕ → ℕ
vmm_phys_of l p va =
    elim (vmm_translate (record { pd = p.page_dir; pts = p.page_tabs }) l.page_tabs_at va) [
      | none ↦ 0xFFFFFFFF
      | some phys ↦ phys
    ]

unfoldable pub vmm_enable : Paging → Paging
vmm_enable p = if p.ready then record p { enabled = true } else p

-- Entry `e` of table `t` of a window.
abbrev pub window_entry : ℕ → ℕ → ℕ → ℕ → ℕ
window_entry base flags t e =
    vmm_make_entry (u32 (u32 (base + t * four_mb) + e * vmm_page_size)) flags

-- The inner loop for table `t` at entry `e`, with `left` rounds left.
unfoldable pub fill_loop : ℕ → ℕ → ℕ → ℕ → ℕ → List ℕ → List ℕ
fill_loop zero e t base flags tabs = tabs
fill_loop (suc left) e t base flags tabs =
    fill_loop left (e + 1) t base flags (set tabs (t * 1024 + e) (window_entry base flags t e))

-- The outer loop at table `t`, with `left` rounds left; the pool is at the address `tabs_at`.
unfoldable pub window_loop : ℕ → ℕ → ℕ → ℕ → ℕ → Tables → Tables
window_loop zero t tabs_at base flags m = m
window_loop (suc left) t tabs_at base flags m =
    window_loop left (t + 1) tabs_at base flags (record {
      pd =
          set m.pd (u32 (base + t * four_mb) / 2 ^ 22)
            (vmm_make_entry (u32 (tabs_at + t * vmm_page_size)) rw_present);
      pts = fill_loop 1024 0 t base flags m.pts;
    })

abbrev pub window_base : ℕ → ℕ
window_base phys = phys / four_mb * four_mb

-- The number of tables that the range touches.
abbrev pub window_tables : ℕ → ℕ → ℕ
window_tables phys bytes = u32 (sub32 (phys + bytes) (window_base phys) + (four_mb - 1)) / four_mb

unfoldable pub vmm_map_lfb : Layout → Paging → ℕ → ℕ → Bool × Paging
vmm_map_lfb l p phys bytes =
    let n = window_tables phys bytes in
    let npts = if ltb vmm_lfb_npts n then vmm_lfb_npts else n in
    let m =
      window_loop npts 0 l.lfb_tabs_at (window_base phys) rw_present
        (record { pd = p.page_dir; pts = p.lfb_tabs }) in
    if p.ready
    then if n == 0 then (false, p) else (true, record p { page_dir = m.pd; lfb_tabs = m.pts })
    else (false, p)

unfoldable pub vmm_map_mmio : Layout → Paging → ℕ → ℕ → Bool × Paging
vmm_map_mmio l p phys bytes =
    let npts = window_tables phys bytes in
    let m =
      window_loop npts 0 l.mmio_tabs_at (window_base phys) uncached
        (record { pd = p.page_dir; pts = p.mmio_tabs }) in
    if p.ready
    then if (npts == 0) || ltb vmm_mmio_npts npts
      then (false, p)
      else (true, record p { page_dir = m.pd; mmio_tabs = m.pts })
    else (false, p)
