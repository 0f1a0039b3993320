-- ===== src/Lfb/Examples.antt =====
-- Tests of the drawing of kernel/drivers/lfb.c on a screen of 4 by 3 pixels with 6 words a row.
use thunity_os.Base.{
  ℕ, suc, ◌+◌, ◌*◌, ◌^◌, ◌<◌, ◌≡◌, refl, true, false, ◌&&◌, some, [], replicate, length-replicate,
  ltb, leb, if◌then◌else◌, arith,
}
use thunity_os.Base.Int.{IsInt, pos, negsuc, ◌+ℤ◌, ◌-ℤ◌, ◌*ℤ◌, div_ℤ}
use thunity_os.Lfb.{Lfb, lfb_fill, lfb_clear, fill_row, fill_rows, clip_size}
use thunity_os.Lfb.Fill.{in_rectangle, SumsFit, lfb_fill_lem}
use thunity_os.Lfb.Mapped.{lfb_init_fb-IsMapped}
use thunity_os.Lfb.Shapes.{isqrt, isqrt_loop, lerp, corner_inset, lfb_disc, lfb_line}
use thunity_os.Lfb.Shapes.Disc.{distance, half_of, lfb_disc_lem}
use thunity_os.Lfb.Shapes.Line.{draw_points, lfb_line_lem}
use thunity_os.Lfb.Start.{Display, IsMapped, lfb_init_fb}
use thunity_os.Vmm.SetUp.{Layout}

abbrev small : Lfb
small = record { fbp = 0xE0000000; width = 4; height = 3; pitch_px = 6; active = true; px = λ q. 9 }

-- A rectangle across the left edge.
clipped : (lfb_fill small (negsuc 0) (pos 1) (pos 3) (pos 1) 5).px 7 ≡ 5
unfolding lfb_fill fill_rows fill_row clip_size ◌+ℤ◌
clipped = refl

-- The clearing goes by the width, not by the pitch: the last pixel keeps its value.
pitch_ignored : (lfb_clear small 0).px (2 * 6 + 3) ≡ 9
unfolding lfb_clear fill_row
pitch_ignored = refl

root : isqrt (pos 17) ≡ 4
unfolding isqrt isqrt_loop
root = refl

halfway : lerp 0x000000 0xff0080 (pos 1) (pos 2) ≡ 0x7f0040
unfolding lerp ◌+ℤ◌ ◌-ℤ◌ ◌*ℤ◌ div_ℤ
halfway = refl

inset : corner_inset (pos 0) (pos 10) (pos 4) ≡ pos 4
unfolding corner_inset isqrt isqrt_loop ◌-ℤ◌ ◌*ℤ◌
inset = refl

lfb_fill_lem_example :
    SumsFit 4 (negsuc 0) (pos 3)
    × SumsFit 3 (pos 1) (pos 1)
    × ((lfb_fill small (negsuc 0) (pos 1) (pos 3) (pos 1) 5).px (1 * 6 + 1) ≡ (
        if in_rectangle small (negsuc 0) (pos 1) (pos 3) (pos 1) 1 1
        then 5
        else small.px (1 * 6 + 1)))
lfb_fill_lem_example =
    lfb_fill_lem small (negsuc 0) (pos 1) (pos 3) (pos 1) 5 1 1 (omega arith) (omega arith)
      (omega arith) (omega arith) (omega arith) (omega arith) (omega arith) (omega arith)
      (omega arith)

-- The middle row of the disc.
lfb_disc_lem_example :
    (suc (half_of (pos 1) (pos 0)) * suc (half_of (pos 1) (pos 0)) < 2 ^ 31)
    × SumsFit 4 (pos 1 -ℤ pos (half_of (pos 1) (pos 0))) (pos (2 * half_of (pos 1) (pos 0) + 1))
    × SumsFit 3 (pos 1 +ℤ pos 0) (pos 1)
    × ((lfb_disc small (pos 1) (pos 1) (pos 1) 5).px (2 * 6 + 1) ≡ (
        if ltb 1 4
          && ltb 2 3
          && leb
              (distance 1 (pos 1) * distance 1 (pos 1) + distance 2 (pos 1) * distance 2 (pos 1))
              (1 * 1)
        then 5
        else small.px (2 * 6 + 1)))
lfb_disc_lem_example =
    lfb_disc_lem small (pos 1) (pos 1) 1 5 1 2 (pos 0) (omega arith) (omega arith) (omega arith)
      (omega arith) (omega arith) (omega arith) (omega arith) (omega arith) (omega arith)

lfb_line_lem_example :
    IsInt (pos 0 -ℤ pos 3)
    × IsInt (pos 2 -ℤ pos 0)
    × (lfb_line 4 small (pos 3) (pos 0) (pos 0) (pos 2) 5
        ≡ some (draw_points 4 0 3 3 2 true false (pos 3) (pos 0) 5 small))
unfolding ◌-ℤ◌
lfb_line_lem_example =
    lfb_line_lem 4 small (pos 3) (pos 0) (pos 0) (pos 2) 5 (omega arith) (omega arith) (omega arith)
      (omega arith) (omega arith)

abbrev display : Display
display = record {
  screen = small;
  paging = record {
    page_dir = replicate 1024 0;
    page_tabs = replicate 2048 0;
    lfb_tabs = replicate 8192 0;
    mmio_tabs = replicate 2048 0;
    ready = true;
    enabled = true;
  };
  ports = [];
}

abbrev layout : Layout
layout = record { page_tabs_at = 0x20000; lfb_tabs_at = 0x30000; mmio_tabs_at = 0x40000 }

-- 1024 by 768 with a pitch of 4352 bytes.
lfb_init_fb-IsMapped_example :
    ((lfb_init_fb layout display 0xE0000000 4352 1024 768 32).0 ≡ true)
    × ((a b n : ℕ)
        → a < (lfb_init_fb layout display 0xE0000000 4352 1024 768 32).1.screen.width
        → b < (lfb_init_fb layout display 0xE0000000 4352 1024 768 32).1.screen.height
        → n < 4
        → IsMapped layout (lfb_init_fb layout display 0xE0000000 4352 1024 768 32).1 (
            (lfb_init_fb layout display 0xE0000000 4352 1024 768 32).1.screen.fbp
            + (4
                  * (b * (lfb_init_fb layout display 0xE0000000 4352 1024 768 32).1.screen.pitch_px
                      + a)
                + n)))
lfb_init_fb-IsMapped_example =
    lfb_init_fb-IsMapped layout display 0xE0000000 4352 1024 768 refl
      (omega (arith, length-replicate {A = ℕ} 1024 0))
      (omega (arith, length-replicate {A = ℕ} 8192 0)) refl (omega arith) (λ z. omega (arith, z))
      refl (omega arith) (λ z. omega (arith, z)) (λ z. omega (arith, z)) (omega arith) (omega arith)
      (omega arith)
