-- ===== src/Lfb/Blit.antt =====
-- Copies of a rectangle of the screen of kernel/drivers/lfb.c into a buffer and back: `lfb_blit_get` and
-- `lfb_blit_put`. A buffer is a map from indices.
use thunity_os.Base.{
  ℕ, zero, suc, ◌+◌, ◌*◌, ◌<◌, ◌≡◌, ◌⊎◌, sym, ap, ◌∙◌, ap₂, ◌-◌, ◌≤◌, Bool, true, ◌&&◌, ltb, leb,
  ◌==◌, ==→eq, ==_refl, if◌then◌else◌, Bool-cases, inl, inr, arith,
}
use thunity_os.Base.Int.{ℤ, pos, ◌+ℤ◌}
use thunity_os.Lfb.Clip.{row_hit}
use thunity_os.Lfb.{Lfb, put_word, in_bounds, pixel_at}

-- Cell `i` of row `j` of a rectangle at `x` and `y`.
abbrev pub cell_visible : Lfb → ℤ → ℤ → ℕ → ℕ → Bool
cell_visible fb x y i j = in_bounds (x +ℤ pos i) fb.width && in_bounds (y +ℤ pos j) fb.height

abbrev pub at_cell : Lfb → ℤ → ℤ → ℕ → ℕ → ℕ
at_cell fb x y i j = pixel_at fb (x +ℤ pos i) (y +ℤ pos j)

-- Row `j` at `i`, with `left` cells left.
unfoldable pub get_row : ℕ → ℕ → ℕ → Lfb → ℤ → ℤ → ℕ → (ℕ → ℕ) → ℕ → ℕ
get_row zero i j fb x y w buf = buf
get_row (suc left) i j fb x y w buf =
    get_row left (i + 1) j fb x y w
      (put_word buf (j * w + i) (if cell_visible fb x y i j then fb.px (at_cell fb x y i j) else 0))

unfoldable pub get_rows : ℕ → ℕ → Lfb → ℤ → ℤ → ℕ → (ℕ → ℕ) → ℕ → ℕ
get_rows zero j fb x y w buf = buf
get_rows (suc left) j fb x y w buf = get_rows left (j + 1) fb x y w (get_row w 0 j fb x y w buf)

unfoldable pub lfb_blit_get : Lfb → ℤ → ℤ → ℕ → ℕ → (ℕ → ℕ) → ℕ → ℕ
lfb_blit_get fb x y w h buf = get_rows h 0 fb x y w buf

unfoldable pub put_row : ℕ → ℕ → ℕ → Lfb → ℤ → ℤ → ℕ → (ℕ → ℕ) → (ℕ → ℕ) → ℕ → ℕ
put_row zero i j fb x y w buf m = m
put_row (suc left) i j fb x y w buf m =
    put_row left (i + 1) j fb x y w buf
      (if cell_visible fb x y i j then put_word m (at_cell fb x y i j) (buf (j * w + i)) else m)

unfoldable pub put_rows : ℕ → ℕ → Lfb → ℤ → ℤ → ℕ → (ℕ → ℕ) → (ℕ → ℕ) → ℕ → ℕ
put_rows zero j fb x y w buf m = m
put_rows (suc left) j fb x y w buf m =
    put_rows left (j + 1) fb x y w buf (put_row w 0 j fb x y w buf m)

unfoldable pub lfb_blit_put : Lfb → ℤ → ℤ → ℕ → ℕ → (ℕ → ℕ) → Lfb
lfb_blit_put fb x y w h buf = record fb { px = put_rows h 0 fb x y w buf fb.px }

-- The buffer has the picture's pixel of every cell that is on the screen.
abbrev pub Holds : Lfb → ℤ → ℤ → ℕ → ℕ → (ℕ → ℕ) → (ℕ → ℕ) → Type 0
Holds fb x y w h buf picture =
    (i j : ℕ)
    → i < w
    → j < h
    → cell_visible fb x y i j ≡ true
    → buf (j * w + i) ≡ picture (at_cell fb x y i j)

module _ (fb : Lfb) (x y : ℤ) (w : ℕ) where
  sample : ℕ → ℕ → ℕ
  sample i j = if cell_visible fb x y i j then fb.px (at_cell fb x y i j) else 0

  get_row_lem :
      (left i j : ℕ) (buf : ℕ → ℕ) (k : ℕ)
      → get_row left i j fb x y w buf k
        ≡ (if leb (j * w + i) k && ltb k (j * w + (i + left)) then sample (k - j * w) j else buf k)
  unfolding get_row sample
  get_row_lem zero i j buf k = ground arith
  get_row_lem (suc left) i j buf k =
      let ih = get_row_lem left (i + 1) j (put_word buf (j * w + i) (sample i j)) k in
      elim (Bool-cases (k == j * w + i)) [
        | inl e ↦
            let same : sample (k - j * w) j ≡ sample i j =
              ap (λ n. sample n j) (ground (arith, e)) in
            ground (arith, ih, e, same)
        | inr e ↦ ground (arith, ih, e)
      ]

  get_rows_lem :
      (left j : ℕ) (buf : ℕ → ℕ) (a b : ℕ)
      → a < w
      → get_rows left j fb x y w buf (b * w + a)
        ≡ (if leb j b && ltb b (j + left) then sample a b else buf (b * w + a))
  unfolding get_rows
  get_rows_lem zero j buf a b lt = ground arith
  get_rows_lem (suc left) j buf a b lt =
      let ih = get_rows_lem left (j + 1) (get_row w 0 j fb x y w buf) a b lt in
      let row = get_row_lem w 0 j buf (b * w + a) in
      let hit = row_hit w j 0 w b a lt (omega arith) in
      elim (Bool-cases (j == b)) [
        | inl e ↦
            let same : sample (b * w + a - j * w) j ≡ sample a b =
              ap₂ sample (omega (arith, ap (λ n. n * w) (==→eq j b e))) (==→eq j b e) in
            ground (arith, ih, row, hit, e, same)
        | inr e ↦ ground (arith, ih, row, hit, e)
      ]

-- A buffer that `lfb_blit_get` has filled holds the screen.
pub lfb_blit_get-Holds :
    (fb : Lfb) (x y : ℤ) (w h : ℕ) (buf : ℕ → ℕ)
    → Holds fb x y w h (lfb_blit_get fb x y w h buf) fb.px
unfolding lfb_blit_get sample
lfb_blit_get-Holds fb x y w h buf i j lt lt' seen =
    ground (arith, get_rows_lem fb x y w h 0 buf i j lt, seen)

-- A word of memory is a pixel under the rectangle.
abbrev pub Under : Lfb → ℤ → ℤ → ℕ → ℕ → ℕ → Type 0
Under fb x y w h k =
    (a b : ℕ) × (a < w) × (b < h) × (cell_visible fb x y a b ≡ true) × (k ≡ at_cell fb x y a b)

module _ (fb : Lfb) (x y : ℤ) (w h : ℕ) (buf picture : ℕ → ℕ)
    (holds : Holds fb x y w h buf picture) where
  -- A word that is as in the picture stays so.
  put_row_keeps :
      (left i j : ℕ) (m : ℕ → ℕ) (k : ℕ)
      → i + left ≤ w
      → j < h
      → m k ≡ picture k
      → put_row left i j fb x y w buf m k ≡ picture k
  unfolding put_row
  put_row_keeps zero i j m k le lt same = same
  put_row_keeps (suc left) i j m k le lt same =
      put_row_keeps left (i + 1) j _ k (omega arith) lt
        (elim (Bool-cases (cell_visible fb x y i j)) [
          | inl seen ↦ rw seen (elim (Bool-cases (k == at_cell fb x y i j)) [
            | inl here ↦
                rw here (holds i j (omega arith) lt seen ∙ ap picture (sym (==→eq k _ here)))
            | inr away ↦ rw away same
          ])
          | inr out ↦ rw out same
        ])

  put_rows_keep :
      (left j : ℕ) (m : ℕ → ℕ) (k : ℕ)
      → j + left ≤ h
      → m k ≡ picture k
      → put_rows left j fb x y w buf m k ≡ picture k
  unfolding put_rows
  put_rows_keep zero j m k le same = same
  put_rows_keep (suc left) j m k le same =
      put_rows_keep left (j + 1) (put_row w 0 j fb x y w buf m) k (omega arith)
        (put_row_keeps w 0 j m k (omega arith) (omega arith) same)

  -- A cell that is on the screen becomes as in the picture.
  put_row_restores :
      (left i j a : ℕ) (m : ℕ → ℕ)
      → i + left ≤ w
      → j < h
      → i ≤ a
      → a < i + left
      → cell_visible fb x y a j ≡ true
      → put_row left i j fb x y w buf m (at_cell fb x y a j) ≡ picture (at_cell fb x y a j)
  unfolding put_row
  put_row_restores zero i j a m le lt from to seen = absurd (omega arith)
  put_row_restores (suc left) i j a m le lt from to seen = elim (Bool-cases (i == a)) [
    | inl e ↦
        let same = ==→eq i a e in
        put_row_keeps left (i + 1) j _ (at_cell fb x y a j) (omega arith) lt
          (rw (same, seen, ==_refl (at_cell fb x y a j)) (holds a j (omega (arith, same)) lt seen))
    | inr e ↦
        put_row_restores left (i + 1) j a _ (omega arith) lt (ground (arith, e)) (omega arith) seen
  ]

  put_rows_restore :
      (left j a b : ℕ) (m : ℕ → ℕ)
      → j + left ≤ h
      → a < w
      → j ≤ b
      → b < j + left
      → cell_visible fb x y a b ≡ true
      → put_rows left j fb x y w buf m (at_cell fb x y a b) ≡ picture (at_cell fb x y a b)
  unfolding put_rows
  put_rows_restore zero j a b m le lt from to seen = absurd (omega arith)
  put_rows_restore (suc left) j a b m le lt from to seen = elim (Bool-cases (j == b)) [
    | inl e ↦
        let same = ==→eq j b e in
        put_rows_keep left (j + 1) _ (at_cell fb x y a b) (omega arith) (
          rw same (
            put_row_restores w 0 b a m (omega arith) (omega (arith, same)) (omega arith)
              (omega (arith, lt)) seen))
    | inr e ↦
        put_rows_restore left (j + 1) a b _ (omega arith) lt (ground (arith, e)) (omega arith) seen
  ]

  -- Where the memory is as in the picture but under the rectangle, it is so everywhere afterwards.
  pub lfb_blit_put_restores :
      (k : ℕ)
      → (fb.px k ≡ picture k) ⊎ Under fb x y w h k
      → (lfb_blit_put fb x y w h buf).px k ≡ picture k
  unfolding lfb_blit_put
  lfb_blit_put_restores k (inl same) = put_rows_keep h 0 fb.px k (omega arith) same
  lfb_blit_put_restores k (inr (a, b, lt, lt', seen, at)) =
      rw at (put_rows_restore h 0 a b fb.px (omega arith) lt (omega arith) (omega arith) seen)
