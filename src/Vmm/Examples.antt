-- ===== src/Vmm/Examples.antt =====
-- Tests of the paging core of kernel/mm/vmm_core.c: three pages, one table at 0x10000.
use thunity_os.Base.{ℕ, ◌≡◌, refl, true, false, replicate, length-replicate, arith}
use thunity_os.Vmm.{Tables, vmm_make_entry}
use thunity_os.Vmm.SetUp.{Layout, Paging, vmm_map_lfb, vmm_map_mmio}
use thunity_os.Vmm.Window.{IsWindow, vmm_map_lfb-IsWindow}

abbrev one_table : Tables
one_table = record { pd = replicate 1024 7; pts = replicate 1024 7 }

makes_entry : vmm_make_entry 0x2345 3 ≡ 0x2003
unfolding vmm_make_entry
makes_entry = refl

abbrev layout : Layout
layout = record { page_tabs_at = 0x20000; lfb_tabs_at = 0x30000; mmio_tabs_at = 0x40000 }

abbrev paging : Paging
paging = record {
  page_dir = replicate 1024 0;
  page_tabs = replicate 2048 0;
  lfb_tabs = replicate 8192 0;
  mmio_tabs = replicate 2048 0;
  ready = true;
  enabled = false;
}

-- A device whose registers would need three tables has no window.
too_many : (vmm_map_mmio layout paging 0xFEB00000 0x900000).0 ≡ false
unfolding vmm_map_mmio
too_many = refl

-- 800 by 600 by 32 bits at 0xFD000000.
vmm_map_lfb-IsWindow_example :
    ((vmm_map_lfb layout paging 0xFD000000 1920000).0 ≡ true)
    × IsWindow paging.page_dir
        (record {
          pd = (vmm_map_lfb layout paging 0xFD000000 1920000).1.page_dir;
          pts = (vmm_map_lfb layout paging 0xFD000000 1920000).1.lfb_tabs;
        })
        0x30000
        0xFD000000
        1920000
vmm_map_lfb-IsWindow_example =
    vmm_map_lfb-IsWindow layout paging 0xFD000000 1920000 refl (omega arith) (omega arith)
      (omega arith) (omega (arith, length-replicate {A = ℕ} 1024 0))
      (omega (arith, length-replicate {A = ℕ} 8192 0)) refl (omega arith)
