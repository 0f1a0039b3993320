-- ===== src/Lfb/Start.antt =====
-- The start of kernel/drivers/lfb.c: `lfb_init`, `lfb_init_fb` and `lfb_init_auto`. What the PCI configuration
-- space answers at an address is a parameter, and the ports get a list of writes. The texts that
-- `lfb_init_auto` prints are left out.
use thunity_os.Base.{
  ℕ, zero, suc, ◌+◌, ◌-◌, ◌*◌, ◌/◌, ◌%◌, ◌^◌, ◌≡◌, Bool, true, false, not, ◌&&◌, ◌||◌, List, [],
  ◌∷◌, ◌++◌, ltb, ◌==◌, bit_and, bit_or, u32, if◌then◌else◌, some,
}
use thunity_os.Lfb.{Lfb, lfb_clear}
use thunity_os.Vmm.{vmm_translate}
use thunity_os.Vmm.SetUp.{Layout, Paging, vmm_lfb_capacity, vmm_map_lfb}

-- The display, the page tables, and the writes to the ports in their order.
pub record Display : Type 0 where
  pub screen : Lfb
  pub paging : Paging
  pub ports : List (ℕ × ℕ)

-- What the loader has left in the Multiboot information about the framebuffer.
pub record LoaderScreen : Type 0 where
  pub flags : ℕ
  pub framebuffer_addr : ℕ
  pub framebuffer_pitch : ℕ
  pub framebuffer_width : ℕ
  pub framebuffer_height : ℕ
  pub framebuffer_bpp : ℕ
  pub framebuffer_type : ℕ

module _ (config : ℕ → ℕ) where
  unfoldable pub pci_cfg_read : ℕ → ℕ → ℕ → ℕ → ℕ
  pci_cfg_read bus slot func off = config (
      bit_or (bit_or (bit_or (bit_or 0x80000000 (bus * 2 ^ 16)) (slot * 2 ^ 11)) (func * 2 ^ 8))
        (bit_and off 0xFC))

  -- The loop at `slot`, with `left` slots left.
  unfoldable pub find_loop : ℕ → ℕ → ℕ
  find_loop zero slot = 0xFD000000
  find_loop (suc left) slot =
      let rest = find_loop left (slot + 1) in
      let bar0 = pci_cfg_read 0 slot 0 0x10 in
      if pci_cfg_read 0 slot 0 0x00 == 0xFFFFFFFF
      then rest
      else if (pci_cfg_read 0 slot 0 0x08 / 2 ^ 24 == 3) && (bit_and bar0 1 == 0)
      then bit_and bar0 0xFFFFFFF0
      else rest

  unfoldable pub pci_find_vga_lfb : ℕ
  pci_find_vga_lfb = find_loop 32 0

abbrev pub dispi_write : ℕ → ℕ → List (ℕ × ℕ)
dispi_write idx val = (0x01CE, idx) ∷ (0x01CF, val) ∷ []

-- The mode is set by five writes of the device's registers.
abbrev pub dispi_mode : ℕ → ℕ → List (ℕ × ℕ)
dispi_mode w h =
    dispi_write 4 0
    ++ dispi_write 1 (w % 2 ^ 16)
    ++ dispi_write 2 (h % 2 ^ 16)
    ++ dispi_write 3 32
    ++ dispi_write 4 0x41

-- The statics for a framebuffer at an address, and its clearing.
abbrev pub open_screen : Lfb → ℕ → ℕ → ℕ → ℕ → Lfb
open_screen fb addr w h pitch =
    lfb_clear (record fb { fbp = addr; width = w; height = h; pitch_px = pitch; active = true }) 0

-- The height after the clamp.
unfoldable pub clamped_height : ℕ → ℕ → ℕ
clamped_height pitch_bytes h =
    if ltb vmm_lfb_capacity (u32 (pitch_bytes * h + 0x1000))
    then (vmm_lfb_capacity - 0x1000) / pitch_bytes
    else h

module _ (l : Layout) where
  unfoldable pub lfb_init : (ℕ → ℕ) → Display → ℕ → ℕ → Bool × Display
  lfb_init config d w h =
      let lfb = pci_find_vga_lfb config in
      let mapped = vmm_map_lfb l d.paging lfb (u32 (w * h * 4 + 0x1000)) in
      if lfb == 0
      then (false, d)
      else if mapped.0
      then (
        true,
        record {
          screen = open_screen d.screen lfb w h w;
          paging = mapped.1;
          ports = d.ports ++ dispi_mode w h;
        },
      )
      else (false, record d { paging = mapped.1 })

  unfoldable pub lfb_init_fb : Display → ℕ → ℕ → ℕ → ℕ → ℕ → Bool × Display
  lfb_init_fb d addr pitch_bytes w h0 bpp =
      let h = clamped_height pitch_bytes h0 in
      let mapped = vmm_map_lfb l d.paging addr (u32 (pitch_bytes * h + 0x1000)) in
      if (addr == 0) || not (bpp == 32) || (w == 0) || (h0 == 0) || ltb pitch_bytes (u32 (w * 4))
      then (false, d)
      else if h == 0
      then (false, d)
      else if mapped.0
      then (
        true,
        record d { screen = open_screen d.screen addr w h (pitch_bytes / 4); paging = mapped.1 },
      )
      else (false, record d { paging = mapped.1 })

  unfoldable pub lfb_init_auto : (ℕ → ℕ) → Display → ℕ → LoaderScreen → Bool × Display
  lfb_init_auto config d mb_info_addr mbi =
      let given =
        lfb_init_fb d (u32 mbi.framebuffer_addr) mbi.framebuffer_pitch mbi.framebuffer_width
          mbi.framebuffer_height mbi.framebuffer_bpp in
      if not (mb_info_addr == 0)
        && (not (bit_and mbi.flags 0x1000 == 0) && (mbi.framebuffer_type == 1))
      then if given.0 then given else lfb_init config given.1 1024 768
      else lfb_init config d 1024 768

-- The address is mapped onto itself.
abbrev pub IsMapped : Layout → Display → ℕ → Type 0
IsMapped l d va =
    vmm_translate (record { pd = d.paging.page_dir; pts = d.paging.lfb_tabs }) l.lfb_tabs_at va
    ≡ some va
