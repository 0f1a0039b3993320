-- ===== src/Vga/Cells.antt =====
-- The loops over the cells of kernel/drivers/vga.c: blanking and scrolling.
use thunity_os.Base.{
  ℕ, zero, suc, ◌+◌, ◌≤◌, ◌<◌, ◌≡◌, refl, ap, ◌∙◌, List, length, get_or, get_or-set, set,
  length-set, ltb, leb, ◌&&◌, ◌==◌, if◌then◌else◌, Bool-cases, inl, inr, arith,
}
use thunity_os.Vga.{vga_width, Vga, vga_entry, blank_loop, scroll_loop, vga_scroll}

-- The number of cells.
abbrev pub area : ℕ
area = 2000

pub length-blank_loop :
    (left i blank : ℕ) (cells : List ℕ) → length (blank_loop left i blank cells) ≡ length cells
unfolding blank_loop
length-blank_loop zero i blank cells = refl
length-blank_loop (suc left) i blank cells =
    length-blank_loop left (i + 1) blank (set cells i blank) ∙ length-set cells i blank

length-scroll_loop :
    (left i : ℕ) (cells : List ℕ) → length (scroll_loop left i cells) ≡ length cells
unfolding scroll_loop
length-scroll_loop zero i cells = refl
length-scroll_loop (suc left) i cells = length-scroll_loop left (i + 1) _ ∙ length-set cells i _

get_or-blank_loop :
    (left i blank : ℕ) (cells : List ℕ) (k : ℕ)
    → i + left ≤ length cells
    → get_or (blank_loop left i blank cells) k 0
      ≡ (if leb i k && ltb k (i + left) then blank else get_or cells k 0)
unfolding blank_loop
get_or-blank_loop zero i blank cells k le = ground arith
get_or-blank_loop (suc left) i blank cells k le =
    let ih =
      get_or-blank_loop left (i + 1) blank (set cells i blank) k
        (omega (arith, length-set cells i blank)) in
    ground (arith, ih, get_or-set cells i k blank 0 (omega arith))

get_or-scroll_loop :
    (left i : ℕ) (cells : List ℕ) (k : ℕ)
    → i + left + vga_width ≤ length cells
    → get_or (scroll_loop left i cells) k 0
      ≡ (if leb i k && ltb k (i + left) then get_or cells (k + vga_width) 0 else get_or cells k 0)
unfolding scroll_loop
get_or-scroll_loop zero i cells k le = ground arith
get_or-scroll_loop (suc left) i cells k le =
    let below = get_or cells (i + vga_width) 0 in
    let ih =
      get_or-scroll_loop left (i + 1) (set cells i below) k
        (omega (arith, length-set cells i below)) in
    elim (Bool-cases (i == k)) [
      | inl e ↦
          let e' : get_or cells (k + vga_width) 0 ≡ below =
            ap (λ j. get_or cells (j + vga_width) 0) (ground arith) in
          ground (arith, ih, e, e', get_or-set cells i k below 0 (omega arith))
      | inr e ↦ ground (
        arith,
        ih,
        e,
        get_or-set cells i k below 0 (omega arith),
        get_or-set cells i (k + vga_width) below 0 (omega arith),
      )
    ]

pub length-vga_scroll : (v : Vga) → length (vga_scroll v).cells ≡ length v.cells
unfolding vga_scroll
length-vga_scroll v = length-blank_loop 80 1920 _ _ ∙ length-scroll_loop 1920 0 v.cells

pub vga_scroll_corner : (v : Vga) → ((vga_scroll v).row ≡ 24) × ((vga_scroll v).col ≡ v.col)
unfolding vga_scroll
vga_scroll_corner v = (refl, refl)

pub cells-vga_scroll :
    (v : Vga) (k : ℕ)
    → length v.cells ≡ area
    → k < area
    → get_or (vga_scroll v).cells k 0
      ≡ (if ltb k 1920 then get_or v.cells (k + vga_width) 0 else vga_entry 32 v.color)
unfolding vga_scroll
cells-vga_scroll v k w lt =
    let moved = scroll_loop 1920 0 v.cells in
    ground (
      arith,
      get_or-blank_loop 80 1920 (vga_entry 32 v.color) moved k
          (omega (arith, length-scroll_loop 1920 0 v.cells)),
      get_or-scroll_loop 1920 0 v.cells k (omega arith),
    )

pub color-vga_scroll : (v : Vga) → (vga_scroll v).color ≡ v.color
unfolding vga_scroll
color-vga_scroll v = refl
