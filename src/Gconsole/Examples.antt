-- ===== src/Gconsole/Examples.antt =====
-- Tests of the console of kernel/gui/gconsole.c: 3 columns and 2 rows at (10, 20).
use thunity_os.Base.{ℕ, ◌≡◌, refl, true, [], ◌∷◌, ◌==◌, if◌then◌else◌, arith}
use thunity_os.Lfb.{Lfb}
use thunity_os.Gconsole.{Gconsole, gcon_text, newline}
use thunity_os.Gconsole.Inside.{IsConsole, Typed, gcon_text-Typed}

abbrev screen : Lfb
screen = record { fbp = 0; width = 40; height = 60; pitch_px = 48; active = true; px = λ q. 7 }

abbrev console : Gconsole
console = record {
  screen = screen;
  active = true;
  ox = 10;
  oy = 20;
  cols = 3;
  rows = 2;
  scale = 1;
  cw = 8;
  ch = 16;
  cx = 2;
  cy = 1;
  fg = 1;
  bg = 0;
}

-- The glyphs: every dot of a character but the space.
abbrev blocks : ℕ → ℕ → ℕ
blocks c r = if c == 32 then 0 else 255

scrolls : (newline console).cy ≡ 1
unfolding newline
scrolls = refl

console-IsConsole : IsConsole console
console-IsConsole = record {
  some_cols = omega arith;
  some_rows = omega arith;
  cell_width = refl;
  cell_height = refl;
  fits = omega arith;
  wide = omega arith;
  column = omega arith;
  row = omega arith;
}

gcon_text-Typed_example :
    Typed console console.screen.px (gcon_text blocks console (65 ∷ 10 ∷ 8 ∷ 9 ∷ []))
gcon_text-Typed_example = gcon_text-Typed blocks console (65 ∷ 10 ∷ 8 ∷ 9 ∷ []) console-IsConsole
