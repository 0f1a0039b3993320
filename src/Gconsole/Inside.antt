-- ===== src/Gconsole/Inside.antt =====
-- The console of kernel/gui/gconsole.c keeps its position in its cells and draws only in its rectangle.
use thunity_os.Base.{
  ℕ, ◌+◌, ◌-◌, ◌*◌, ◌/◌, ◌≤◌, ◌<◌, ◌≡◌, refl, ◌∙◌, Bool, true, false, List, [], ◌∷◌, ltb, leb, ◌==◌,
  if◌then◌else◌, Bool-cases, inl, inr, arith,
}
use native.Mathlib.Nat.{mul-le-mul_right}
use thunity_os.Base.Int.{pos}
use thunity_os.Lfb.Within.{Outside, lfb_fill-Within, lfb_char-Within, lfb_scroll_up-Within}
use thunity_os.Gconsole.{
  Gconsole, accent, cursor_fill, cursor_draw, cursor_erase, newline, wrapped, put_cell, putc_switch,
  gcon_putc, gcon_text,
}

-- The console has cells of a character's size, and is not wider than the screen.
pub record IsConsole (g : Gconsole) : Type 0 where
  pub some_cols : 0 < g.cols
  pub some_rows : 0 < g.rows
  pub cell_width : g.cw ≡ 8 * g.scale
  pub cell_height : g.ch ≡ 16 * g.scale
  pub fits : g.ox + g.cols * g.cw ≤ g.screen.width
  pub wide : g.screen.width ≤ g.screen.pitch_px
  pub column : g.cx < g.cols
  pub row : g.cy < g.rows

module _ (g : Gconsole) where
  abbrev at : (ℕ → ℕ) → ℕ → ℕ → Gconsole
  at m x y = record g { screen = record g.screen { px = m }; cx = x; cy = y }

  abbrev Unmoved : (ℕ → ℕ) → (ℕ → ℕ) → Type 0
  Unmoved before m = Outside g.screen g.ox g.oy (g.cols * g.cw) (g.rows * g.ch) before m

  -- Afterwards only the position and pixels of the console's rectangle differ, and the position is in it.
  abbrev pub Typed : (ℕ → ℕ) → Gconsole → Type 0
  Typed before after =
      (m : ℕ → ℕ) × (x y : ℕ) × (after ≡ at m x y) × (x < g.cols) × (y < g.rows) × Unmoved before m

  Typed-trans : (m0 m1 : ℕ → ℕ) (after : Gconsole) → Unmoved m0 m1 → Typed m1 after → Typed m0 after
  Typed-trans m0 m1 after first (m2, x, y, e, lt, lt', second) =
      (m2, x, y, e, lt, lt', λ a b on out. second a b on out ∙ first a b on out)

  Typed-if :
      (before : ℕ → ℕ) (t : Bool) (u v : Gconsole)
      → Typed before u
      → Typed before v
      → Typed before (if t then u else v)
  Typed-if before true u v first second = first
  Typed-if before false u v first second = second

  module _ (is : IsConsole g) where
    -- A cell ends where the console does at the latest.
    column_end : (x : ℕ) → x < g.cols → g.ox + x * g.cw + g.cw ≤ g.ox + g.cols * g.cw
    column_end x lt = omega (arith, mul-le-mul_right g.cw lt)

    row_end : (y : ℕ) → y < g.rows → g.oy + y * g.ch + g.ch ≤ g.oy + g.rows * g.ch
    row_end y lt = omega (arith, mul-le-mul_right g.ch lt)

    cursor_fill-Typed :
        (m : ℕ → ℕ) (x y rgb : ℕ) → x < g.cols → y < g.rows → Typed m (cursor_fill (at m x y) rgb)
    cursor_fill-Typed m x y rgb lt lt' =
        let right = column_end x lt in
        let bottom = row_end y lt' in
        let (m1, e, d) =
          lfb_fill-Within g.screen g.ox g.oy (g.cols * g.cw) (g.rows * g.ch) is.wide m
            (g.ox + x * g.cw) (g.oy + y * g.ch + g.ch - 2 * g.scale) g.cw (2 * g.scale) rgb
            (omega arith) (omega (arith, is.cell_height)) right
            (omega (arith, is.cell_height, bottom)) in
        (m1, x, y, rw e refl, lt, lt', d)

    cursor_erase-Typed :
        (m : ℕ → ℕ) (x y : ℕ) → x < g.cols → y < g.rows → Typed m (cursor_erase (at m x y))
    unfolding cursor_erase
    cursor_erase-Typed m x y lt lt' = cursor_fill-Typed m x y g.bg lt lt'

    cursor_draw-Typed :
        (m : ℕ → ℕ) (x y : ℕ) → x < g.cols → y < g.rows → Typed m (cursor_draw (at m x y))
    unfolding cursor_draw
    cursor_draw-Typed m x y lt lt' = cursor_fill-Typed m x y accent lt lt'

    newline-Typed : (m : ℕ → ℕ) (x y : ℕ) → y < g.rows → Typed m (newline (at m x y))
    unfolding newline
    newline-Typed m x y lt = elim (Bool-cases (leb g.rows (y + 1))) [
      | inl e ↦
          let tall : g.ch ≤ g.rows * g.ch = omega (arith, mul-le-mul_right g.ch is.some_rows) in
          let (m1, e1, d) =
            lfb_scroll_up-Within g.screen g.ox g.oy (g.cols * g.cw) (g.rows * g.ch) is.wide is.fits
              m g.ch g.bg tall in
          rw (e, e1) (m1, 0, g.rows - 1, refl, is.some_cols, omega (arith, is.some_rows), d)
      | inr e ↦ rw e (m, 0, y + 1, refl, is.some_cols, ground (arith, e), λ a b on out. refl)
    ]

    wrapped-Typed : (m : ℕ → ℕ) (x y : ℕ) → y < g.rows → Typed m (wrapped (at m x y))
    wrapped-Typed m x y lt = elim (Bool-cases (leb g.cols x)) [
      | inl e ↦ rw e (newline-Typed m x y lt)
      | inr e ↦ rw e (m, x, y, refl, ground (arith, e), lt, λ a b on out. refl)
    ]

    module _ (gfx_glyph : ℕ → ℕ → ℕ) where
      -- A character at the position changes only pixels.
      put_cell_lem :
          (m : ℕ → ℕ) (x y c : ℕ)
          → x < g.cols
          → y < g.rows
          → (m1 : ℕ → ℕ) × (put_cell gfx_glyph (at m x y) c ≡ at m1 x y) × Unmoved m m1
      unfolding put_cell
      put_cell_lem m x y c lt lt' =
          let right = column_end x lt in
          let bottom = row_end y lt' in
          let (m1, e, d) =
            lfb_char-Within g.screen g.ox g.oy (g.cols * g.cw) (g.rows * g.ch) is.wide
              (g.ox + x * g.cw) (g.oy + y * g.ch) g.fg (pos g.bg) g.scale (omega arith)
              (omega arith) gfx_glyph c m (omega (arith, is.cell_width, right))
              (omega (arith, is.cell_height, bottom)) in
          (m1, rw e refl, d)

      backspace-Typed :
          (m : ℕ → ℕ) (x y : ℕ)
          → x < g.cols
          → y < g.rows
          → Typed m (
              if ltb 0 x
              then put_cell gfx_glyph (record (at m x y) { cx = x - 1 }) 32
              else at m x y)
      backspace-Typed m x y lt lt' =
          let (m1, here, d) = put_cell_lem m (x - 1) y 32 (omega (arith, lt)) lt' in
          elim (Bool-cases (ltb 0 x)) [
            | inl e ↦ rw (e, here) (m1, x - 1, y, refl, omega (arith, lt), lt', d)
            | inr e ↦ rw e (m, x, y, refl, lt, lt', λ a b on out. refl)
          ]

      putc_switch-Typed :
          (m : ℕ → ℕ) (x y c : ℕ)
          → x < g.cols
          → y < g.rows
          → Typed m (putc_switch gfx_glyph (at m x y) c)
      unfolding putc_switch
      putc_switch-Typed m x y c lt lt' = elim (Bool-cases (c == 10)) [
        | inl e ↦ rw e (newline-Typed m x y lt')
        | inr e ↦ elim (Bool-cases (c == 13)) [
          | inl e1 ↦ rw (e, e1) (m, 0, y, refl, is.some_cols, lt', λ a b on out. refl)
          | inr e1 ↦ elim (Bool-cases (c == 9)) [
            | inl e2 ↦ rw (e, e1, e2) (wrapped-Typed m ((x + 4) / 4 * 4) y lt')
            | inr e2 ↦ elim (Bool-cases (c == 8)) [
              | inl e3 ↦ rw (e, e1, e2, e3) (backspace-Typed m x y lt lt')
              | inr e3 ↦
                  let (m1, here, d) = put_cell_lem m x y c lt lt' in
                  rw (e, e1, e2, e3, here) (Typed-trans m m1 _ d (wrapped-Typed m1 (x + 1) y lt'))
            ]
          ]
        ]
      ]

      gcon_putc-Typed :
          (m : ℕ → ℕ) (x y c : ℕ)
          → x < g.cols
          → y < g.rows
          → Typed m (gcon_putc gfx_glyph (at m x y) c)
      unfolding gcon_putc
      gcon_putc-Typed m x y c lt lt' =
          let (m1, x1, y1, e1, a1, b1, d1) = cursor_erase-Typed m x y lt lt' in
          let (m2, x2, y2, e2, a2, b2, d2) = putc_switch-Typed m1 x1 y1 c a1 b1 in
          Typed-if m g.active (cursor_draw (putc_switch gfx_glyph (cursor_erase (at m x y)) c))
            (at m x y)
            (rw (e1, e2)
              (Typed-trans m m1 _ d1 (Typed-trans m1 m2 _ d2 (cursor_draw-Typed m2 x2 y2 a2 b2))))
            (m, x, y, refl, lt, lt', λ a b on out. refl)

      text-Typed :
          (text : List ℕ) (m : ℕ → ℕ) (x y : ℕ)
          → x < g.cols
          → y < g.rows
          → Typed m (gcon_text gfx_glyph (at m x y) text)
      unfolding gcon_text
      text-Typed [] m x y lt lt' = (m, x, y, refl, lt, lt', λ a b on out. refl)
      text-Typed (c ∷ text) m x y lt lt' =
          let (m1, x1, y1, e1, a1, b1, d1) = gcon_putc-Typed m x y c lt lt' in
          rw e1 (Typed-trans m m1 _ d1 (text-Typed text m1 x1 y1 a1 b1))

-- Whatever characters a console is sent, control characters, wrapped lines and scrolling included, only its
-- position and pixels of its rectangle change, and the position stays in its columns and rows.
pub gcon_text-Typed :
    (gfx_glyph : ℕ → ℕ → ℕ) (g : Gconsole) (text : List ℕ)
    → IsConsole g
    → Typed g g.screen.px (gcon_text gfx_glyph g text)
gcon_text-Typed gfx_glyph g text is =
    text-Typed g is gfx_glyph text g.screen.px g.cx g.cy is.column is.row
