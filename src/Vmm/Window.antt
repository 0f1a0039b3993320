-- ===== src/Vmm/Window.antt =====
-- The windows of kernel/mm/vmm.c map the range that they are for onto itself.
use thunity_os.Base.{
  ℕ, zero, suc, ◌+◌, ◌-◌, ◌*◌, ◌/◌, ◌%◌, ◌^◌, ◌≤◌, ◌<◌, ◌≡◌, refl, ap, subst, ◌∙◌, true, false,
  ◌&&◌, some, List, length, length-set, get_or, get_or-set, set, u32, sub32, ltb, leb, ◌==◌,
  if◌then◌else◌, Bool-cases, inl, inr, arith,
}
use thunity_os.Vmm.{
  vmm_page_size, vmm_pte_index, vmm_make_entry, vmm_entry_addr, vmm_entry_present, Tables,
  vmm_translate, or_present,
}
use thunity_os.Vmm.SetUp.{
  Layout, Paging, rw_present, four_mb, window_entry, fill_loop, window_loop, window_base,
  window_tables, vmm_lfb_npts, vmm_map_lfb,
}
use thunity_os.Vmm.Identity.{make_entry-addr, make_entry-present, translate-eq}

module _ (base flags : ℕ) where
  -- The entry of page `j` of the window.
  abbrev pub page_at : ℕ → ℕ
  page_at j = vmm_make_entry (u32 (base + j * vmm_page_size)) flags

  window_entry_lem : (t e : ℕ) → window_entry base flags t e ≡ page_at (t * 1024 + e)
  window_entry_lem t e = ap (λ a. vmm_make_entry a flags) (omega arith)

  length-fill_loop :
      (left e t : ℕ) (tabs : List ℕ) → length (fill_loop left e t base flags tabs) ≡ length tabs
  unfolding fill_loop
  length-fill_loop zero e t tabs = refl
  length-fill_loop (suc left) e t tabs =
      length-fill_loop left (e + 1) t _ ∙ length-set tabs (t * 1024 + e) _

  fill_loop_lem :
      (left e t : ℕ) (tabs : List ℕ) (j : ℕ)
      → t * 1024 + (e + left) ≤ length tabs
      → get_or (fill_loop left e t base flags tabs) j 0 ≡ (
          if leb (t * 1024 + e) j && ltb j (t * 1024 + (e + left))
          then page_at j
          else get_or tabs j 0)
  unfolding fill_loop
  fill_loop_lem zero e t tabs j h = ground arith
  fill_loop_lem (suc left) e t tabs j h =
      let k = t * 1024 + e in
      let v = window_entry base flags t e in
      ground (
        arith,
        fill_loop_lem left (e + 1) t (set tabs k v) j (omega (arith, length-set tabs k v)),
        get_or-set tabs k j v 0 (omega arith),
        window_entry_lem t e,
      )

  -- The directory's entry for table `t` of a pool at an address.
  abbrev pub table_entry : ℕ → ℕ → ℕ
  table_entry tabs_at t = vmm_make_entry (u32 (tabs_at + t * vmm_page_size)) rw_present

  window_loop_lem :
      (left t tabs_at first : ℕ) (m : Tables) (j : ℕ)
      → base ≡ first * four_mb
      → first + (t + left) ≤ 1024
      → 1024 ≤ length m.pd
      → (t + left) * 1024 ≤ length m.pts
      → (get_or (window_loop left t tabs_at base flags m).pd j 0 ≡ (
          if leb (first + t) j && ltb j (first + (t + left))
          then table_entry tabs_at (j - first)
          else get_or m.pd j 0))
        × (get_or (window_loop left t tabs_at base flags m).pts j 0 ≡ (
            if leb (t * 1024) j && ltb j ((t + left) * 1024) then page_at j else get_or m.pts j 0))
  unfolding window_loop
  window_loop_lem zero t tabs_at first m j at top dir pool = (ground arith, ground arith)
  window_loop_lem (suc left) t tabs_at first m j at top dir pool =
      let slot : u32 (base + t * four_mb) / 2 ^ 22 ≡ first + t = omega (arith, at) in
      let m' : Tables = record {
        pd = set m.pd (u32 (base + t * four_mb) / 2 ^ 22) (table_entry tabs_at t);
        pts = fill_loop 1024 0 t base flags m.pts;
      } in
      let (d, p) =
        window_loop_lem left (t + 1) tabs_at first m' j at (omega arith)
          (omega (
            arith,
            dir,
            length-set m.pd (u32 (base + t * four_mb) / 2 ^ 22) (table_entry tabs_at t),
          ))
          (omega (arith, pool, length-fill_loop 1024 0 t m.pts)) in
      let written =
        get_or-set m.pd (u32 (base + t * four_mb) / 2 ^ 22) j (table_entry tabs_at t) 0
          (omega (arith, slot, dir)) in
      (
        elim (Bool-cases (first + t == j)) [
          | inl e ↦
              let same : j - first ≡ t = ground (arith, e) in
              ground (arith, d, written, slot, e, ap (table_entry tabs_at) same)
          | inr e ↦ ground (arith, d, written, slot, e)
        ],
        ground (arith, p, fill_loop_lem 1024 0 t m.pts j (omega (arith, pool))),
      )

  -- Every address of the window is mapped onto itself.
  window_loop-translate :
      (npts tabs_at first : ℕ) (m : Tables) (va : ℕ)
      → base ≡ first * four_mb
      → first + npts ≤ 1024
      → 1024 ≤ length m.pd
      → npts * 1024 ≤ length m.pts
      → tabs_at % 4096 ≡ 0
      → tabs_at + npts * 4096 ≤ 2 ^ 32
      → or_present flags ≡ flags
      → base ≤ va
      → va < base + npts * four_mb
      → vmm_translate (window_loop npts 0 tabs_at base flags m) tabs_at va ≡ some va
  window_loop-translate npts tabs_at first m va at top dir pool aligned fits present from to =
      let i = va / 2 ^ 22 in
      let page = (va - base) / 4096 in
      let m' = window_loop npts 0 tabs_at base flags m in
      let d : get_or m'.pd i 0 ≡ table_entry tabs_at (i - first) = ground (
        arith,
        (window_loop_lem npts 0 tabs_at first m i at (omega (arith, top)) dir
            (omega (arith, pool))).0,
      ) in
      let p : get_or m'.pts page 0 ≡ page_at page = ground (
        arith,
        (window_loop_lem npts 0 tabs_at first m page at (omega (arith, top)) dir
            (omega (arith, pool))).1,
      ) in
      let table : vmm_entry_addr (table_entry tabs_at (i - first)) ≡ tabs_at + (i - first) * 4096 =
        make_entry-addr (u32 (tabs_at + (i - first) * vmm_page_size)) rw_present (omega arith)
        ∙ omega arith in
      let index : sub32 (vmm_entry_addr (table_entry tabs_at (i - first))) tabs_at / 4
            + vmm_pte_index va
          ≡ page =
        rw table (omega arith) in
      let frame : vmm_entry_addr (page_at page) ≡ va / 4096 * 4096 =
        make_entry-addr (u32 (base + page * vmm_page_size)) flags (omega arith) ∙ omega arith in
      let here : vmm_entry_present (table_entry tabs_at (i - first)) ≡ true =
        make_entry-present (u32 (tabs_at + (i - first) * vmm_page_size)) rw_present in
      let there : vmm_entry_present (page_at page) ≡ true =
        subst (λ f. vmm_entry_present (vmm_make_entry (u32 (base + page * vmm_page_size)) f) ≡ true)
          present (make_entry-present (u32 (base + page * vmm_page_size)) flags) in
      let whole : va / 4096 * 4096 + va % 4096 ≡ va = omega arith in
      translate-eq m' tabs_at va (table_entry tabs_at (i - first)) (page_at page) d
        (ap (λ k. get_or m'.pts k 0) index ∙ p)
      ∙ rw (here, there, frame) (ap some whole)

-- The framebuffer's window after the call: its addresses are mapped onto themselves, and what the
-- directory said of lower addresses stays.
pub record IsWindow (dir : List ℕ) (m : Tables) (tabs_at phys bytes : ℕ) : Type 0 where
  pub inside : (va : ℕ) → phys ≤ va → va < phys + bytes → vmm_translate m tabs_at va ≡ some va
  pub below : (j : ℕ) → j < phys / four_mb → get_or m.pd j 0 ≡ get_or dir j 0

built-IsWindow :
    (npts tabs_at phys bytes flags : ℕ) (m : Tables)
    → phys + bytes + four_mb ≤ 2 ^ 32
    → phys / four_mb + npts ≤ 1024
    → phys + bytes ≤ window_base phys + npts * four_mb
    → 1024 ≤ length m.pd
    → npts * 1024 ≤ length m.pts
    → tabs_at % 4096 ≡ 0
    → tabs_at + npts * 4096 ≤ 2 ^ 32
    → or_present flags ≡ flags
    → IsWindow m.pd (window_loop npts 0 tabs_at (window_base phys) flags m) tabs_at phys bytes
built-IsWindow npts tabs_at phys bytes flags m high top reach dir pool aligned fits present =
    record {
      inside = λ va from to.
          window_loop-translate (window_base phys) flags npts tabs_at (phys / four_mb) m va refl top
            dir pool aligned fits present (omega arith) (omega arith);
      below = λ j lt.
          (window_loop_lem (window_base phys) flags npts 0 tabs_at (phys / four_mb) m j refl
            (omega (arith, top)) dir (omega (arith, pool))).0
          ∙ ground arith;
    }

-- On a kernel directory that is ready, `vmm_map_lfb` succeeds for a range of at least one byte that ends at
-- least 4 MiB below 4 GiB and touches at most 8 tables: every address of the range is then mapped onto
-- itself, and the directory's entries below it are as before.
pub vmm_map_lfb-IsWindow :
    (l : Layout) (p : Paging) (phys bytes : ℕ)
    → p.ready ≡ true
    → 0 < bytes
    → phys + bytes + four_mb ≤ 2 ^ 32
    → phys + bytes ≤ window_base phys + 8 * four_mb
    → 1024 ≤ length p.page_dir
    → 8 * 1024 ≤ length p.lfb_tabs
    → l.lfb_tabs_at % 4096 ≡ 0
    → l.lfb_tabs_at + 8 * 4096 ≤ 2 ^ 32
    → ((vmm_map_lfb l p phys bytes).0 ≡ true)
      × IsWindow p.page_dir
          (record {
            pd = (vmm_map_lfb l p phys bytes).1.page_dir;
            pts = (vmm_map_lfb l p phys bytes).1.lfb_tabs;
          })
          l.lfb_tabs_at
          phys
          bytes
unfolding vmm_map_lfb
vmm_map_lfb-IsWindow l p phys bytes ready some_bytes high reach dir pool aligned fits =
    let n = window_tables phys bytes in
    let most : ltb vmm_lfb_npts n ≡ false = ground arith in
    let least : (n == 0) ≡ false = ground arith in
    let window =
      built-IsWindow n l.lfb_tabs_at phys bytes rw_present
        (record { pd = p.page_dir; pts = p.lfb_tabs }) high (omega arith) (omega arith) dir
        (omega arith) aligned (omega arith) refl in
    rw (ready, least, most) (refl, window)
