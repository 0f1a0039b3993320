-- ===== src/Lfb/Within.antt =====
-- Text and scrolling of kernel/drivers/lfb.c draw only in their rectangle.
use thunity_os.Base.{
  ℕ, zero, suc, ◌+◌, ◌-◌, ◌*◌, ◌/◌, ◌%◌, ◌^◌, ◌≤◌, ◌<◌, ◌≡◌, refl, ◌∙◌, Bool, false, ◌&&◌, ltb, leb,
  ◌==◌, Bool-cases, inl, inr, arith,
}
use thunity_os.Base.Int.{ℤ, pos, pos_part, ◌+ℤ◌, ◌-ℤ◌, leb_ℤ}
use thunity_os.Lfb.{Lfb, put_word, lfb_fill}
use thunity_os.Lfb.Clip.{row_hit}
use thunity_os.Lfb.Fill.{in_rectangle, fill_pixels}
use thunity_os.Lfb.Text.{
  char_dot, char_row, char_rows, lfb_char, copy_row, copy_rows, lfb_scroll_up,
}

-- The pixel is in the rectangle of a corner and its sizes.
abbrev pub in_region : ℕ → ℕ → ℕ → ℕ → ℕ → ℕ → Bool
in_region rx ry rm rn a b = leb rx a && ltb a (rx + rm) && (leb ry b && ltb b (ry + rn))

missed :
    (fb : Lfb) (rx ry rm rn x y w h a b : ℕ)
    → rx ≤ x
    → ry ≤ y
    → x + w ≤ rx + rm
    → y + h ≤ ry + rn
    → in_region rx ry rm rn a b ≡ false
    → in_rectangle fb (pos x) (pos y) (pos w) (pos h) a b ≡ false
unfolding ◌+ℤ◌
missed fb rx ry rm rn x y w h a b left top right bottom out = ground arith

pos_add : (a b : ℕ) → pos a +ℤ pos b ≡ pos (a + b)
unfolding ◌+ℤ◌
pos_add a b = ground arith

module _ (fb : Lfb) (rx ry rm rn : ℕ) where
  -- No pixel outside the rectangle changes.
  abbrev pub Outside : (ℕ → ℕ) → (ℕ → ℕ) → Type 0
  Outside before m =
      (a b : ℕ)
      → a < fb.pitch_px
      → in_region rx ry rm rn a b ≡ false
      → m (b * fb.pitch_px + a) ≡ before (b * fb.pitch_px + a)

  -- The framebuffer afterwards differs at most in pixels of the rectangle.
  abbrev pub Within : (ℕ → ℕ) → Lfb → Type 0
  Within before after = (m : ℕ → ℕ) × (after ≡ record fb { px = m }) × Outside before m

  pub Within-trans :
      (m0 m1 : ℕ → ℕ) (after : Lfb) → Outside m0 m1 → Within m1 after → Within m0 after
  Within-trans m0 m1 after first (m2, e, second) =
      (m2, e, λ a b lt out. second a b lt out ∙ first a b lt out)

  module _ (wide : fb.width ≤ fb.pitch_px) where
    pub lfb_fill-Within :
        (m : ℕ → ℕ) (x y w h rgb : ℕ)
        → rx ≤ x
        → ry ≤ y
        → x + w ≤ rx + rm
        → y + h ≤ ry + rn
        → Within m (lfb_fill (record fb { px = m }) (pos x) (pos y) (pos w) (pos h) rgb)
    unfolding lfb_fill
    lfb_fill-Within m x y w h rgb left top right bottom = (
      (lfb_fill (record fb { px = m }) (pos x) (pos y) (pos w) (pos h) rgb).px,
      refl,
      λ a b lt out.
          fill_pixels (record fb { px = m }) (pos x) (pos y) (pos w) (pos h) rgb a b wide lt
          ∙ rw (missed fb rx ry rm rn x y w h a b left top right bottom out) refl,
    )

    char_dot-Within :
        (m : ℕ → ℕ) (x y : ℕ) (set : Bool) (fg : ℕ) (bg : ℤ) (s : ℕ)
        → rx ≤ x
        → ry ≤ y
        → x + s ≤ rx + rm
        → y + s ≤ ry + rn
        → Within m (char_dot (record fb { px = m }) (pos x) (pos y) set fg bg s)
    unfolding char_dot
    char_dot-Within m x y set fg bg s left top right bottom = elim (Bool-cases set) [
      | inl e ↦ rw e (lfb_fill-Within m x y s s fg left top right bottom)
      | inr e ↦ elim (Bool-cases (leb_ℤ (pos 0) bg)) [
        | inl e' ↦ rw (e, e') (lfb_fill-Within m x y s s (pos_part bg) left top right bottom)
        | inr e' ↦ rw (e, e') (m, refl, λ a b lt out. refl)
      ]
    ]

    module _ (x y fg : ℕ) (bg : ℤ) (s : ℕ) (left_edge : rx ≤ x) (top : ry ≤ y) where
      char_row-Within :
          (left c r bits : ℕ) (m : ℕ → ℕ)
          → x + (c + left) * s ≤ rx + rm
          → y + (r + 1) * s ≤ ry + rn
          → Within m (char_row left c r bits (record fb { px = m }) (pos x) (pos y) fg bg s)
      unfolding char_row
      char_row-Within zero c r bits m right bottom = (m, refl, λ a b lt out. refl)
      char_row-Within (suc left) c r bits m right bottom =
          let (m1, e1, d1) =
            char_dot-Within m (x + c * s) (y + r * s) (bits / 2 ^ (7 - c) % 2 == 1) fg bg s
              (omega arith) (omega arith) (omega arith) (omega arith) in
          let rest = char_row-Within left (c + 1) r bits m1 (omega arith) bottom in
          rw (pos_add x (c * s), pos_add y (r * s), e1) (Within-trans m m1 _ d1 rest)

      char_rows-Within :
          (left r : ℕ) (glyph : ℕ → ℕ) (m : ℕ → ℕ)
          → x + 8 * s ≤ rx + rm
          → y + (r + left) * s ≤ ry + rn
          → Within m (char_rows left r glyph (record fb { px = m }) (pos x) (pos y) fg bg s)
      unfolding char_rows
      char_rows-Within zero r glyph m right bottom = (m, refl, λ a b lt out. refl)
      char_rows-Within (suc left) r glyph m right bottom =
          let (m1, e1, d1) = char_row-Within 8 0 r (glyph r) m right (omega arith) in
          let rest = char_rows-Within left (r + 1) glyph m1 right (omega arith) in
          rw e1 (Within-trans m m1 _ d1 rest)

      pub lfb_char-Within :
          (gfx_glyph : ℕ → ℕ → ℕ) (ch : ℕ) (m : ℕ → ℕ)
          → x + 8 * s ≤ rx + rm
          → y + 16 * s ≤ ry + rn
          → Within m (lfb_char gfx_glyph (record fb { px = m }) (pos x) (pos y) ch fg bg s)
      unfolding lfb_char
      lfb_char-Within gfx_glyph ch m right bottom =
          char_rows-Within 16 0 (gfx_glyph ch) m right bottom

-- Words that are not copied to stay.
copy_row_lem :
    (left i to from : ℕ) (m : ℕ → ℕ) (k : ℕ)
    → (leb (to + i) k && ltb k (to + (i + left))) ≡ false
    → copy_row left i to from m k ≡ m k
unfolding copy_row
copy_row_lem zero i to from m k out = refl
copy_row_lem (suc left) i to from m k out =
    let away : (k == (to + i)) ≡ false = ground (arith, out) in
    copy_row_lem left (i + 1) to from (put_word m (to + i) (m (from + i))) k (ground (arith, out))
    ∙ rw away refl

pos_sub : (a b : ℕ) → b ≤ a → pos a -ℤ pos b ≡ pos (a - b)
unfolding ◌-ℤ◌
pos_sub a b le = ground arith

module _ (fb : Lfb) (rx ry rm rn : ℕ) (wide : fb.width ≤ fb.pitch_px)
    (on_screen : rx + rm ≤ fb.width) where
  copy_rows_lem :
      (left j dy : ℕ) (before m : ℕ → ℕ)
      → j + left ≤ rn
      → Outside fb rx ry rm rn m (copy_rows left j (record fb { px = before }) rx ry rm dy m)
  unfolding copy_rows
  copy_rows_lem zero j dy before m le a b lt out = refl
  copy_rows_lem (suc left) j dy before m le a b lt out =
      let row = row_hit fb.pitch_px (ry + j) rx rm b a lt (omega (arith, wide, on_screen)) in
      let away : ((ry + j == b) && leb rx a && ltb a (rx + rm)) ≡ false = ground (arith, out, le) in
      copy_rows_lem left (j + 1) dy before _ (omega arith) a b lt out
      ∙ copy_row_lem rm 0 ((ry + j) * fb.pitch_px + rx) ((ry + j + dy) * fb.pitch_px + rx) m
          (b * fb.pitch_px + a) (ground (arith, row, away))

  pub lfb_scroll_up-Within :
      (m : ℕ → ℕ) (dy rgb : ℕ)
      → dy ≤ rn
      → Within fb rx ry rm rn m (lfb_scroll_up (record fb { px = m }) rx ry rm rn dy rgb)
  unfolding lfb_scroll_up
  lfb_scroll_up-Within m dy rgb le =
      let m1 = copy_rows (rn - dy) 0 (record fb { px = m }) rx ry rm dy m in
      let below : pos (ry + rn) -ℤ pos dy ≡ pos (ry + rn - dy) =
        pos_sub (ry + rn) dy (omega arith) in
      let bottom =
        lfb_fill-Within fb rx ry rm rn wide m1 rx (ry + rn - dy) rm dy rgb (omega arith)
          (omega arith) (omega arith) (omega arith) in
      rw below
        (Within-trans fb rx ry rm rn m m1 _ (copy_rows_lem (rn - dy) 0 dy m m (omega arith)) bottom)
