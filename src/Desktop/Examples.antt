-- ===== src/Desktop/Examples.antt =====
-- Tests of the cursor of kernel/gui/desktop.c on a screen of 16 by 8 pixels.
use thunity_os.Base.{◌≡◌, refl, true, false, [], ◌∷◌}
use thunity_os.Base.Int.{pos, negsuc, ◌+ℤ◌}
use thunity_os.Lfb.{Lfb, lfb_pixel}
use thunity_os.Desktop.{
  Cursor, arrow, cursor_pixel, cursor_row, cursor_rows, cursor_show, cursor_hide,
}
use thunity_os.Desktop.Overlay.{show, cursor_calls, cursor_hide-calls}

abbrev screen : Lfb
screen = record { fbp = 0; width = 16; height = 8; pitch_px = 16; active = true; px = λ q. q }

abbrev hidden : Cursor
hidden = record {
  screen = screen;
  cur_save = λ q. 0;
  cur_x = pos 0;
  cur_y = pos 0;
  cur_vis = false;
}

-- The tip, and the first white pixel of the third row.
tip : (cursor_show hidden (pos 2) (pos 1)).screen.px 18 ≡ 0x0a0f1a
unfolding cursor_show cursor_hide cursor_rows cursor_row cursor_pixel arrow lfb_pixel ◌+ℤ◌
tip = refl

white : (cursor_show hidden (pos 2) (pos 1)).screen.px 51 ≡ 0xffffff
unfolding cursor_show cursor_hide cursor_rows cursor_row cursor_pixel arrow lfb_pixel ◌+ℤ◌
white = refl

cursor_hide-calls_example :
    (cursor_hide
        (cursor_calls (show (negsuc 3) (pos 1) ∷ show (pos 2) (pos 1) ∷ []) hidden)).screen.px
      51
    ≡ 51
cursor_hide-calls_example =
    cursor_hide-calls (show (negsuc 3) (pos 1) ∷ show (pos 2) (pos 1) ∷ []) hidden 51 refl
