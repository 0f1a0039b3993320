-- ===== src/Desktop/Overlay.antt =====
-- The cursor of kernel/gui/desktop.c leaves no trace: what it is drawn over comes back when it is hidden.
use thunity_os.Base.{
  ℕ, zero, suc, ◌+◌, ◌≤◌, ◌<◌, ◌≡◌, ◌⊎◌, refl, ◌∙◌, true, false, List, [], ◌∷◌, ◌==◌, ==→eq, get_or,
  Bool-cases, inl, inr, arith,
}
use thunity_os.Base.Int.{ℤ, pos, ◌+ℤ◌}
use thunity_os.Lfb.{Lfb, put_word, lfb_pixel}
use thunity_os.Lfb.Blit.{
  cell_visible, at_cell, Holds, Under, lfb_blit_get-Holds, lfb_blit_put_restores,
}
use thunity_os.Desktop.{
  Cursor, cur_w, cur_h, arrow, cursor_hide, cursor_show, cursor_pixel, cursor_row, cursor_rows,
}

module _ (fb : Lfb) (x y : ℤ) where
  -- Only pixels under the cursor differ from what was there.
  abbrev Around : (ℕ → ℕ) → (ℕ → ℕ) → Type 0
  Around before m = (k : ℕ) → (m k ≡ before k) ⊎ Under fb x y cur_w cur_h k

  abbrev Drawn : (ℕ → ℕ) → Lfb → Type 0
  Drawn before after = (m : ℕ → ℕ) × (after ≡ record fb { px = m }) × Around before m

  Around-trans : (m0 m1 m2 : ℕ → ℕ) → Around m0 m1 → Around m1 m2 → Around m0 m2
  Around-trans m0 m1 m2 first second k = elim (second k) [
    | inl e ↦ elim (first k) [ inl e' ↦ inl (e ∙ e') | inr u ↦ inr u ]
    | inr u ↦ inr u
  ]

  lfb_pixel-Drawn :
      (c r rgb : ℕ) (m : ℕ → ℕ)
      → c < cur_w
      → r < cur_h
      → Drawn m (lfb_pixel (record fb { px = m }) (x +ℤ pos c) (y +ℤ pos r) rgb)
  unfolding lfb_pixel
  lfb_pixel-Drawn c r rgb m lt lt' = elim (Bool-cases (cell_visible fb x y c r)) [
    | inl seen ↦ (
      put_word m (at_cell fb x y c r) rgb,
      rw seen refl,
      λ k. elim (Bool-cases (k == at_cell fb x y c r)) [
        | inl here ↦ inr (c, r, lt, lt', seen, ==→eq k _ here)
        | inr away ↦ inl (rw away refl)
      ],
    )
    | inr out ↦ (m, rw out refl, λ k. inl refl)
  ]

  cursor_pixel-Drawn :
      (c r p : ℕ) (m : ℕ → ℕ)
      → c < cur_w
      → r < cur_h
      → Drawn m (cursor_pixel (record fb { px = m }) x y c r p)
  unfolding cursor_pixel
  cursor_pixel-Drawn c r p m lt lt' = elim (Bool-cases (p == 88)) [
    | inl e ↦ rw e (lfb_pixel-Drawn c r 0xffffff m lt lt')
    | inr e ↦ elim (Bool-cases (p == 111)) [
      | inl e' ↦ rw (e, e') (lfb_pixel-Drawn c r 0x0a0f1a m lt lt')
      | inr e' ↦ rw (e, e') (m, refl, λ k. inl refl)
    ]
  ]

  cursor_row-Drawn :
      (left c r : ℕ) (row : List ℕ) (m : ℕ → ℕ)
      → c + left ≤ cur_w
      → r < cur_h
      → Drawn m (cursor_row left c r row x y (record fb { px = m }))
  unfolding cursor_row
  cursor_row-Drawn zero c r row m le lt = (m, refl, λ k. inl refl)
  cursor_row-Drawn (suc left) c r [] m le lt = (m, refl, λ k. inl refl)
  cursor_row-Drawn (suc left) c r (p ∷ row) m le lt =
      let (m1, e1, d1) = cursor_pixel-Drawn c r p m (omega arith) lt in
      let (m2, e2, d2) = cursor_row-Drawn left (c + 1) r row m1 (omega arith) lt in
      (m2, rw e1 e2, Around-trans m m1 m2 d1 d2)

  cursor_rows-Drawn :
      (left r : ℕ) (m : ℕ → ℕ)
      → r + left ≤ cur_h
      → Drawn m (cursor_rows left r x y (record fb { px = m }))
  unfolding cursor_rows
  cursor_rows-Drawn zero r m le = (m, refl, λ k. inl refl)
  cursor_rows-Drawn (suc left) r m le =
      let (m1, e1, d1) =
        cursor_row-Drawn cur_w 0 r (get_or arrow r []) m (omega arith) (omega arith) in
      let (m2, e2, d2) = cursor_rows-Drawn left (r + 1) m1 (omega arith) in
      (m2, rw e1 e2, Around-trans m m1 m2 d1 d2)

-- The screen is the picture, with the cursor over it when it is visible.
record IsOver (picture : ℕ → ℕ) (s : Cursor) : Type 0 where
  saved : s.cur_vis ≡ true → Holds s.screen s.cur_x s.cur_y cur_w cur_h s.cur_save picture
  elsewhere : s.cur_vis ≡ true → Around s.screen s.cur_x s.cur_y picture s.screen.px
  alone : s.cur_vis ≡ false → (k : ℕ) → s.screen.px k ≡ picture k

cursor_hide_lem :
    (picture : ℕ → ℕ) (s : Cursor)
    → IsOver picture s
    → (k : ℕ) → (cursor_hide s).screen.px k ≡ picture k
unfolding cursor_hide
cursor_hide_lem picture s over k = elim (Bool-cases s.cur_vis) [
  | inl e ↦ rw e (
      lfb_blit_put_restores s.screen s.cur_x s.cur_y cur_w cur_h s.cur_save picture (over.saved e) k
        (over.elsewhere e k))
  | inr e ↦ rw e (over.alone e k)
]

cursor_hide_invisible : (s : Cursor) → (cursor_hide s).cur_vis ≡ false
unfolding cursor_hide
cursor_hide_invisible s = elim (Bool-cases s.cur_vis) [ inl e ↦ rw e refl | inr e ↦ rw e refl ]

cursor_show-IsOver :
    (picture : ℕ → ℕ) (s : Cursor) (x y : ℤ) → IsOver picture s → IsOver picture (cursor_show s x y)
unfolding cursor_show
cursor_show-IsOver picture s x y over =
    let hidden = (cursor_hide s).screen in
    let same = cursor_hide_lem picture s over in
    let (m, e, d) = cursor_rows-Drawn hidden x y cur_h 0 hidden.px (omega arith) in
    let held = lfb_blit_get-Holds hidden x y cur_w cur_h (cursor_hide s).cur_save in
    rw e (record {
      saved = λ _ i j lt lt' seen. held i j lt lt' seen ∙ same (at_cell hidden x y i j);
      elsewhere = λ _. Around-trans hidden x y picture hidden.px m (λ k. inl (same k)) d;
      alone = λ absurdity. ground (arith, absurdity);
    })

-- What the desktop does with the cursor.
pub data CursorCall : Type 0 where
  show : ℤ → ℤ → CursorCall
  hide : CursorCall

unfoldable pub cursor_calls : List CursorCall → Cursor → Cursor
cursor_calls [] s = s
cursor_calls (show x y ∷ calls) s = cursor_calls calls (cursor_show s x y)
cursor_calls (hide ∷ calls) s = cursor_calls calls (cursor_hide s)

cursor_calls-IsOver :
    (picture : ℕ → ℕ) (calls : List CursorCall) (s : Cursor)
    → IsOver picture s
    → IsOver picture (cursor_calls calls s)
unfolding cursor_calls
cursor_calls-IsOver picture [] s over = over
cursor_calls-IsOver picture (show x y ∷ calls) s over =
    cursor_calls-IsOver picture calls (cursor_show s x y) (cursor_show-IsOver picture s x y over)
cursor_calls-IsOver picture (hide ∷ calls) s over =
    cursor_calls-IsOver picture calls (cursor_hide s) (record {
      saved = λ seen. ground (arith, seen, cursor_hide_invisible s);
      elsewhere = λ seen. ground (arith, seen, cursor_hide_invisible s);
      alone = λ _. cursor_hide_lem picture s over;
    })

-- Wherever the cursor is shown and hidden, on the screen, across its edge or outside it, from a cursor that is
-- not visible on, hiding it leaves every word of the framebuffer as it was.
pub cursor_hide-calls :
    (calls : List CursorCall) (s : Cursor) (k : ℕ)
    → s.cur_vis ≡ false
    → (cursor_hide (cursor_calls calls s)).screen.px k ≡ s.screen.px k
cursor_hide-calls calls s k e =
    cursor_hide_lem s.screen.px (cursor_calls calls s)
      (cursor_calls-IsOver s.screen.px calls s (record {
        saved = λ seen. ground (arith, seen, e);
        elsewhere = λ seen. ground (arith, seen, e);
        alone = λ _ _. refl;
      }))
      k
