-- ===== src/Lfb/Mapped.antt =====
-- The pixels of a framebuffer that `lfb_init_fb` of kernel/drivers/lfb.c has opened are in the memory that it
-- has mapped.
use thunity_os.Base.{
  ℕ, ◌+◌, ◌-◌, ◌*◌, ◌/◌, ◌%◌, ◌^◌, ◌≤◌, ◌<◌, ◌≡◌, ◌≢◌, refl, true, false, length, ltb, ne→==, u32,
  Bool-cases, inl, inr, arith,
}
use native.Mathlib.Nat.{mul-le-mul_left, mul-le-mul_right, le-div_iff_mul-le, div-mul-le_self}
use thunity_os.Lfb.{lfb_clear}
use thunity_os.Lfb.Start.{Display, IsMapped, clamped_height, lfb_init_fb}
use thunity_os.Vmm.SetUp.{Layout, four_mb, vmm_lfb_capacity}
use thunity_os.Vmm.Window.{vmm_map_lfb-IsWindow}

-- The height that is left is not 0, and its rows and a page fit in what can be mapped.
clamped_height_lem :
    (pitch h0 : ℕ)
    → pitch ≢ 0
    → h0 ≢ 0
    → pitch + 0x1000 ≤ vmm_lfb_capacity
    → pitch * h0 + 0x1000 < 2 ^ 32
    → (0 < clamped_height pitch h0) × (clamped_height pitch h0 * pitch + 0x1000 ≤ vmm_lfb_capacity)
unfolding clamped_height
clamped_height_lem pitch h0 some_pitch some_rows narrow low =
    let whole : u32 (pitch * h0 + 0x1000) ≡ pitch * h0 + 0x1000 = omega (arith, low) in
    elim (Bool-cases (ltb vmm_lfb_capacity (u32 (pitch * h0 + 0x1000)))) [
      | inl e ↦
          let positive : 0 < pitch = omega (arith, some_pitch) in
          let one_row =
            (le-div_iff_mul-le {k = pitch} {x = 1} {y = vmm_lfb_capacity - 0x1000} positive).1
              (omega (arith, narrow)) in
          let rows = div-mul-le_self (vmm_lfb_capacity - 0x1000) pitch in
          rw e (one_row, omega (arith, rows))
      | inr e ↦ rw e (omega (arith, some_rows), ground (arith, e, whole))
    ]

-- The bytes of a pixel are below the end of the rows.
pixel_bytes :
    (pitch w h a b n : ℕ)
    → w * 4 ≤ pitch
    → a < w
    → b < h
    → n < 4
    → 4 * (b * (pitch / 4) + a) + n < h * pitch
pixel_bytes pitch w h a b n wide lt lt' small =
    let row : (b + 1) * pitch ≤ h * pitch = mul-le-mul_right pitch (omega arith) in
    let quarter : b * (pitch / 4 * 4) ≤ b * pitch = mul-le-mul_left b (omega arith) in
    omega (arith, row, quarter)

-- On a kernel directory that is ready, for a framebuffer of 32 bits a pixel at a multiple of 4 MiB at least
-- 36 MiB below 4 GiB, whose rows fit in its pitch, are at most 32 MiB less a page and do not wrap,
-- `lfb_init_fb` succeeds, and every byte of every pixel on the screen that it opens, which may have fewer rows
-- than it was given, is mapped onto itself.
pub lfb_init_fb-IsMapped :
    (l : Layout) (d : Display) (addr pitch w h0 : ℕ)
    → d.paging.ready ≡ true
    → 1024 ≤ length d.paging.page_dir
    → 8 * 1024 ≤ length d.paging.lfb_tabs
    → l.lfb_tabs_at % 4096 ≡ 0
    → l.lfb_tabs_at + 8 * 4096 ≤ 2 ^ 32
    → addr ≢ 0
    → addr % four_mb ≡ 0
    → addr + 9 * four_mb ≤ 2 ^ 32
    → w ≢ 0
    → h0 ≢ 0
    → w * 4 ≤ pitch
    → pitch + 0x1000 ≤ vmm_lfb_capacity
    → pitch * h0 + 0x1000 < 2 ^ 32
    → ((lfb_init_fb l d addr pitch w h0 32).0 ≡ true)
      × ((a b n : ℕ)
          → a < (lfb_init_fb l d addr pitch w h0 32).1.screen.width
          → b < (lfb_init_fb l d addr pitch w h0 32).1.screen.height
          → n < 4
          → IsMapped l (lfb_init_fb l d addr pitch w h0 32).1 (
              (lfb_init_fb l d addr pitch w h0 32).1.screen.fbp
              + (4 * (b * (lfb_init_fb l d addr pitch w h0 32).1.screen.pitch_px + a) + n)))
unfolding lfb_init_fb lfb_clear
lfb_init_fb-IsMapped l d addr pitch w h0 ready dir pool aligned fits some_addr start high some_width
      some_rows wide narrow low =
    let some_pitch : pitch ≢ 0 = λ z. omega (arith, wide, some_width, z) in
    let (left, room) = clamped_height_lem pitch h0 some_pitch some_rows narrow low in
    let h = clamped_height pitch h0 in
    let bytes = u32 (pitch * h + 0x1000) in
    let whole : bytes ≡ h * pitch + 0x1000 = omega (arith, room) in
    let fit : ltb pitch (u32 (w * 4)) ≡ false = ground (arith, wide, narrow) in
    let (done, window) =
      vmm_map_lfb-IsWindow l d.paging addr bytes ready (omega (arith, whole))
        (omega (arith, whole, room, high)) (omega (arith, whole, room, start)) dir pool aligned
        fits in
    rw
      (
        ne→== addr 0 some_addr,
        ne→== w 0 some_width,
        ne→== h0 0 some_rows,
        fit,
        ne→== h 0 (λ z. omega (arith, left, z)),
        done,
      )
      (
        refl,
        λ a b n lt lt' small.
            window.inside _ (omega arith)
              (omega (arith, whole, pixel_bytes pitch w h a b n wide lt lt' small)),
      )
