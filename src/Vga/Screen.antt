-- ===== src/Vga/Screen.antt =====
-- The position on the screen of kernel/drivers/vga.c stays on it.
use thunity_os.Base.{
  ℕ, ◌+◌, ◌*◌, ◌≤◌, ◌<◌, ◌≡◌, ◌≢◌, refl, ◌∙◌, List, [], ◌∷◌, length, length-set, ltb, leb, ◌==◌,
  if◌then◌else◌, Bool-cases, inl, inr, arith,
}
use thunity_os.Vga.{
  vga_width, vga_height, Vga, vga_move_cursor, vga_set_color, vga_clear, vga_init, vga_scroll,
  put_code, wrap, vga_putc, vga_write,
}
use thunity_os.Vga.Cells.{area, length-blank_loop, length-vga_scroll, vga_scroll_corner}

-- The position is on the screen, and the cursor ports have it.
pub record IsScreen (v : Vga) : Type 0 where
  pub whole : length v.cells ≡ area
  pub row_in : v.row < vga_height
  pub col_in : v.col < vga_width
  pub shown : v.cursor ≡ v.row * vga_width + v.col

-- The same before the wrap and the scroll: at most one row or column too far.
record IsNear (v : Vga) : Type 0 where
  whole : length v.cells ≡ area
  row_near : v.row ≤ vga_height
  col_near : v.col ≤ vga_width
  corner : v.row ≡ vga_height → v.col ≡ 0

put_code-IsNear : (v : Vga) (c : ℕ) → IsScreen v → IsNear (put_code v c)
unfolding put_code
put_code-IsNear v c s =
    let w = s.whole in
    let r = s.row_in in
    let k = s.col_in in
    elim (Bool-cases (c == 10)) [
      | inl e10 ↦
          rw e10 (record {
            whole = w;
            row_near = omega arith;
            col_near = omega arith;
            corner = λ z. refl;
          })
      | inr n10 ↦ elim (Bool-cases (c == 13)) [
        | inl e13 ↦
            rw (n10, e13)
              (record {
                whole = w;
                row_near = omega arith;
                col_near = omega arith;
                corner = λ z. refl;
              })
        | inr n13 ↦ elim (Bool-cases (c == 9)) [
          | inl e9 ↦
              rw (n10, n13, e9)
                (record {
                  whole = w;
                  row_near = omega arith;
                  col_near = omega arith;
                  corner = λ z. omega arith;
                })
          | inr n9 ↦ elim (Bool-cases (c == 8)) [
            | inl e8 ↦ elim (Bool-cases (ltb 0 v.col)) [
              | inl pos ↦
                  rw (n10, n13, n9, e8, pos)
                    (record {
                      whole = length-set v.cells _ _ ∙ w;
                      row_near = omega arith;
                      col_near = omega arith;
                      corner = λ z. omega arith;
                    })
              | inr none ↦
                  rw (n10, n13, n9, e8, none)
                    (record {
                      whole = w;
                      row_near = omega arith;
                      col_near = omega arith;
                      corner = λ z. omega arith;
                    })
            ]
            | inr n8 ↦
                rw (n10, n13, n9, n8)
                  (record {
                    whole = length-set v.cells _ _ ∙ w;
                    row_near = omega arith;
                    col_near = omega arith;
                    corner = λ z. omega arith;
                  })
          ]
        ]
      ]
    ]

-- The same after the wrap.
record IsWrapped (v : Vga) : Type 0 where
  whole : length v.cells ≡ area
  row_near : v.row ≤ vga_height
  col_in : v.col < vga_width

wrap-IsWrapped : (v : Vga) → IsNear v → IsWrapped (wrap v)
unfolding wrap
wrap-IsWrapped v n =
    let w = n.whole in
    let r = n.row_near in
    let k = n.corner in
    elim (Bool-cases (leb vga_width v.col)) [
      | inl e ↦
          let far : vga_width ≤ v.col = ground (arith, e) in
          let at : v.row ≢ vga_height = λ z. omega (arith, k z, far) in
          rw e (record { whole = w; row_near = ground (arith, at, r); col_in = omega arith })
      | inr e ↦ rw e (record { whole = w; row_near = r; col_in = ground arith })
    ]

vga_move_cursor-IsScreen :
    (v : Vga)
    → length v.cells ≡ area
    → v.row < vga_height
    → v.col < vga_width
    → IsScreen (vga_move_cursor v)
unfolding vga_move_cursor
vga_move_cursor-IsScreen v w r k = record { whole = w; row_in = r; col_in = k; shown = omega arith }

vga_putc-IsScreen : (v : Vga) (c : ℕ) → IsScreen v → IsScreen (vga_putc v c)
unfolding vga_putc
vga_putc-IsScreen v c s =
    settle (wrap (put_code v c)) (wrap-IsWrapped (put_code v c) (put_code-IsNear v c s))
  where
    settle :
        (v : Vga)
        → IsWrapped v
        → IsScreen (vga_move_cursor (if leb vga_height v.row then vga_scroll v else v))
    settle v w = elim (Bool-cases (leb vga_height v.row)) [
      | inl e ↦ rw e (
          vga_move_cursor-IsScreen (vga_scroll v) (length-vga_scroll v ∙ w.whole)
            (omega (arith, (vga_scroll_corner v).0))
            (omega (arith, (vga_scroll_corner v).1, w.col_in)))
      | inr e ↦ rw e (vga_move_cursor-IsScreen v w.whole (ground (arith, e)) w.col_in)
    ]

-- Whatever text is written on the screen, the position stays on it, and the cursor is at the position.
pub vga_write-IsScreen : (v : Vga) (text : List ℕ) → IsScreen v → IsScreen (vga_write v text)
unfolding vga_write
vga_write-IsScreen v [] s = s
vga_write-IsScreen v (c ∷ text) s = vga_write-IsScreen (vga_putc v c) text (vga_putc-IsScreen v c s)

vga_init-IsScreen : (v : Vga) → length v.cells ≡ area → IsScreen (vga_init v)
unfolding vga_init vga_clear vga_set_color
vga_init-IsScreen v w =
    vga_move_cursor-IsScreen _ (length-blank_loop 2000 0 _ v.cells ∙ w) (omega arith) (omega arith)
