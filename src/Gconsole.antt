-- ===== src/Gconsole.antt =====
-- kernel/gui/gconsole.c: the text console on the framebuffer. The state is a record of the module's static
-- variables with the framebuffer. The origin, the sizes and the position are not negative here, and a console
-- without a row, where the code's `cy` becomes -1, is left out. Colours are below 2^31.
pub mod Inside
mod Examples
use thunity_os.Base.{
  ℕ, ◌+◌, ◌-◌, ◌*◌, ◌/◌, Bool, true, false, List, [], ◌∷◌, ltb, leb, ◌==◌, if◌then◌else◌,
}
use thunity_os.Base.Int.{ℤ, pos, negsuc, pos_part, leb_ℤ}
use thunity_os.Lfb.{Lfb, lfb_fill}
use thunity_os.Lfb.Text.{lfb_char, lfb_scroll_up}

pub record Gconsole : Type 0 where
  pub screen : Lfb
  pub active : Bool
  pub ox : ℕ
  pub oy : ℕ
  pub cols : ℕ
  pub rows : ℕ
  pub scale : ℕ
  pub cw : ℕ
  pub ch : ℕ
  pub cx : ℕ
  pub cy : ℕ
  pub fg : ℕ
  pub bg : ℕ

abbrev pub accent : ℕ
accent = 0x6cc7ff

-- The bar of the cursor in a colour.
abbrev pub cursor_fill : Gconsole → ℕ → Gconsole
cursor_fill g rgb = record g {
  screen =
      lfb_fill g.screen (pos (g.ox + g.cx * g.cw)) (pos (g.oy + g.cy * g.ch + g.ch - 2 * g.scale))
        (pos g.cw) (pos (2 * g.scale)) rgb;
}

unfoldable pub cursor_draw : Gconsole → Gconsole
cursor_draw g = cursor_fill g accent

unfoldable pub cursor_erase : Gconsole → Gconsole
cursor_erase g = cursor_fill g g.bg

-- The whole console in the background.
abbrev pub erase_all : Gconsole → Gconsole
erase_all g = record g {
  screen = lfb_fill g.screen (pos g.ox) (pos g.oy) (pos (g.cols * g.cw)) (pos (g.rows * g.ch)) g.bg;
}

unfoldable pub gcon_init : Gconsole → ℕ → ℕ → ℕ → ℕ → ℕ → ℕ → ℕ → Gconsole
gcon_init g x y c r s f b =
    let set_up = record g {
      ox = x;
      oy = y;
      cols = c;
      rows = r;
      scale = s;
      cw = 8 * s;
      ch = 16 * s;
      cx = 0;
      cy = 0;
      fg = f;
      bg = b;
    } in
    cursor_draw (record (erase_all set_up) { active = true })

unfoldable pub gcon_set_active : Gconsole → Bool → Gconsole
gcon_set_active g on = record g { active = on }

unfoldable pub gcon_set_color : Gconsole → ℕ → ℤ → Gconsole
gcon_set_color g f b = record g { fg = f; bg = if leb_ℤ (pos 0) b then pos_part b else g.bg }

unfoldable pub gcon_clear : Gconsole → Gconsole
gcon_clear g = cursor_draw (record (erase_all g) { cx = 0; cy = 0 })

unfoldable pub newline : Gconsole → Gconsole
newline g =
    if leb g.rows (g.cy + 1)
    then record g {
      screen = lfb_scroll_up g.screen g.ox g.oy (g.cols * g.cw) (g.rows * g.ch) g.ch g.bg;
      cx = 0;
      cy = g.rows - 1;
    }
    else record g { cx = 0; cy = g.cy + 1 }

-- `if (cx >= cols) newline();`
abbrev pub wrapped : Gconsole → Gconsole
wrapped g = if leb g.cols g.cx then newline g else g

module _ (gfx_glyph : ℕ → ℕ → ℕ) where
  -- A character in the cell of the position.
  unfoldable pub put_cell : Gconsole → ℕ → Gconsole
  put_cell g c = record g {
    screen =
        lfb_char gfx_glyph g.screen (pos (g.ox + g.cx * g.cw)) (pos (g.oy + g.cy * g.ch)) c g.fg
          (pos g.bg) g.scale;
  }

  -- The `switch` of `gcon_putc`.
  unfoldable pub putc_switch : Gconsole → ℕ → Gconsole
  putc_switch g c =
      if c == 10
      then newline g
      else if c == 13
      then record g { cx = 0 }
      else if c == 9
      then wrapped (record g { cx = (g.cx + 4) / 4 * 4 })
      else if c == 8
      then if ltb 0 g.cx then put_cell (record g { cx = g.cx - 1 }) 32 else g
      else wrapped (record (put_cell g c) { cx = g.cx + 1 })

  unfoldable pub gcon_putc : Gconsole → ℕ → Gconsole
  gcon_putc g c = if g.active then cursor_draw (putc_switch (cursor_erase g) c) else g

  unfoldable pub gcon_text : Gconsole → List ℕ → Gconsole
  gcon_text g [] = g
  gcon_text g (c ∷ text) = gcon_text (gcon_putc g c) text
