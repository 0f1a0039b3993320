-- ===== src/Desktop.antt =====
-- kernel/gui/desktop.c: the mouse cursor of the desktop, drawn over what is on the screen, whose pixels it
-- keeps in a buffer.
pub mod Overlay
mod Examples
use thunity_os.Base.{
  ℕ, zero, suc, ◌+◌, Bool, true, false, List, [], ◌∷◌, ◌==◌, get_or, if◌then◌else◌,
}
use thunity_os.Base.Int.{ℤ, pos, ◌+ℤ◌}
use thunity_os.CStrings.{codes}
use thunity_os.Lfb.{Lfb, lfb_pixel}
use thunity_os.Lfb.Blit.{lfb_blit_get, lfb_blit_put}

abbrev pub cur_w : ℕ
cur_w = 12

abbrev pub cur_h : ℕ
cur_h = 19

unfoldable pub arrow : List (List ℕ)
arrow =
    codes "o..........."
    ∷ codes "oo.........."
    ∷ codes "oXo........."
    ∷ codes "oXXo........"
    ∷ codes "oXXXo......."
    ∷ codes "oXXXXo......"
    ∷ codes "oXXXXXo....."
    ∷ codes "oXXXXXXo...."
    ∷ codes "oXXXXXXXo..."
    ∷ codes "oXXXXXXXXo.."
    ∷ codes "oXXXXXXXXXo."
    ∷ codes "oXXXXXoooooo"
    ∷ codes "oXXoXXo....."
    ∷ codes "oXo.oXXo...."
    ∷ codes "oo..oXXo...."
    ∷ codes "o....oXXo..."
    ∷ codes ".....oXXo..."
    ∷ codes "......oo...."
    ∷ codes "............"
    ∷ []

-- The screen, and the static variables of the cursor.
pub record Cursor : Type 0 where
  pub screen : Lfb
  pub cur_save : ℕ → ℕ
  pub cur_x : ℤ
  pub cur_y : ℤ
  pub cur_vis : Bool

unfoldable pub cursor_hide : Cursor → Cursor
cursor_hide s =
    if s.cur_vis
    then record s {
      screen = lfb_blit_put s.screen s.cur_x s.cur_y cur_w cur_h s.cur_save;
      cur_vis = false;
    }
    else s

unfoldable pub cursor_pixel : Lfb → ℤ → ℤ → ℕ → ℕ → ℕ → Lfb
cursor_pixel fb x y c r p =
    if p == 88
    then lfb_pixel fb (x +ℤ pos c) (y +ℤ pos r) 0xffffff
    else if p == 111
    then lfb_pixel fb (x +ℤ pos c) (y +ℤ pos r) 0x0a0f1a
    else fb

-- Row `r` of the arrow at column `c`, with `left` columns left; the row ends before them at its end.
unfoldable pub cursor_row : ℕ → ℕ → ℕ → List ℕ → ℤ → ℤ → Lfb → Lfb
cursor_row zero c r row x y fb = fb
cursor_row (suc left) c r [] x y fb = fb
cursor_row (suc left) c r (p ∷ row) x y fb =
    cursor_row left (c + 1) r row x y (cursor_pixel fb x y c r p)

unfoldable pub cursor_rows : ℕ → ℕ → ℤ → ℤ → Lfb → Lfb
cursor_rows zero r x y fb = fb
cursor_rows (suc left) r x y fb =
    cursor_rows left (r + 1) x y (cursor_row cur_w 0 r (get_or arrow r []) x y fb)

unfoldable pub cursor_show : Cursor → ℤ → ℤ → Cursor
cursor_show s x y =
    let hidden = cursor_hide s in
    record hidden {
      screen = cursor_rows cur_h 0 x y hidden.screen;
      cur_save = lfb_blit_get hidden.screen x y cur_w cur_h hidden.cur_save;
      cur_x = x;
      cur_y = y;
      cur_vis = true;
    }
