-- ===== src/Kheap/Cells.antt =====
-- The list of blocks of kernel/mm/kheap_core.c as a list of cells that tile the arena.
use thunity_os.Base.{
  ℕ, ◌+◌, ◌*◌, ◌%◌, ◌^◌, ◌≤◌, ◌<◌, ◌≡◌, refl, sym, subst, ap, ◌∙◌, ◌⊎◌, inl, inr, Bool, false, ◌&&◌,
  List, [], ◌∷◌, length, ◌==◌, if◌then◌else◌, Bool-cases, arith,
}
use thunity_os.Kheap.{Block, Heap, kh_magic, hdr}

-- A block without its links.
pub record Cell : Type 0 where
  pub size : ℕ
  pub free : Bool

-- What follows the block of `c` at `a`.
abbrev pub after : ℕ → Cell → ℕ
after a c = a + (hdr + c.size)

-- The list that begins with the pointer `p` has the blocks of `cs`, one behind the other from the address
-- `a` to `end`, each at a multiple of 8.
abbrev pub Chain : (ℕ → Block) → ℕ → ℕ → List Cell → ℕ → Type 0
Chain m p a [] end = (p ≡ 0) × (a ≡ end)
Chain m p a (c ∷ cs) end =
    (p ≡ a)
    × (a % 8 ≡ 0)
    × (0 < a)
    × ((m a).size ≡ c.size)
    × ((m a).free ≡ c.free)
    × ((m a).magic ≡ kh_magic)
    × Chain m (m a).next (after a c) cs end

pub Chain-end :
    (m : ℕ → Block) (p a : ℕ) (cs : List Cell) (end : ℕ)
    → Chain m p a cs end
    → a + 16 * length cs ≤ end
Chain-end m p a [] end (z, e) = omega arith
Chain-end m p a (c ∷ cs) end (at, al, pos, s, f, g, rest) =
    omega (arith, Chain-end m (m a).next (after a c) cs end rest)

-- A list depends on the store of its own part of the arena only.
pub Chain-frame :
    (m m' : ℕ → Block) (p a : ℕ) (cs : List Cell) (end : ℕ)
    → ((x : ℕ) → a ≤ x → x < end → m' x ≡ m x)
    → Chain m p a cs end
    → Chain m' p a cs end
Chain-frame m m' p a [] end same ch = ch
Chain-frame m m' p a (c ∷ cs) end same (at, al, pos, s, f, g, rest) =
    let lt = Chain-end m (m a).next (after a c) cs end rest in
    let e : m' a ≡ m a = same a (omega arith) (omega (arith, lt)) in
    (
      at,
      al,
      pos,
      ap (λ (b : Block). b.size) e ∙ s,
      ap (λ (b : Block). b.free) e ∙ f,
      ap (λ (b : Block). b.magic) e ∙ g,
      subst (λ (b : Block). Chain m' b.next (after a c) cs end) (sym e)
          (Chain-frame m m' (m a).next (after a c) cs end (λ x lo hi. same x (omega arith) hi)
            rest),
    )

-- A block in front of a list.
pub Chain-cons :
    (m : ℕ → Block) (a : ℕ) (k : Block) (c : Cell) (cs : List Cell) (end : ℕ)
    → m a ≡ k
    → a % 8 ≡ 0
    → 0 < a
    → (k.size ≡ c.size) × (k.free ≡ c.free) × (k.magic ≡ kh_magic)
    → Chain m k.next (after a c) cs end
    → Chain m a a (c ∷ cs) end
Chain-cons m a k c cs end e al pos (s, f, g) rest = (
  refl,
  al,
  pos,
  ap (λ (b : Block). b.size) e ∙ s,
  ap (λ (b : Block). b.free) e ∙ f,
  ap (λ (b : Block). b.magic) e ∙ g,
  subst (λ (b : Block). Chain m b.next (after a c) cs end) (sym e) rest,
)

-- A payload that a client has: its address and its size.
pub record Payload : Type 0 where
  pub at : ℕ
  pub size : ℕ

-- The payloads in use, by address.
abbrev pub used : ℕ → List Cell → List Payload
used a [] = []
used a (c ∷ cs) =
    if c.free
    then used (after a c) cs
    else record { at = a + hdr; size = c.size } ∷ used (after a c) cs

-- Without the payload at `p`.
abbrev pub remove : ℕ → List Payload → List Payload
remove p [] = []
remove p (u ∷ us) = if u.at == p then us else u ∷ remove p us

-- The payloads lie one behind the other, a header apart, from `lo` to `end`.
abbrev pub Apart : ℕ → List Payload → ℕ → Type 0
Apart lo [] end = lo ≤ end
Apart lo (u ∷ us) end = (lo + hdr ≤ u.at) × (u.at % 8 ≡ 0) × Apart (u.at + u.size) us end

Apart-from :
    (lo lo' : ℕ) (us : List Payload) (end : ℕ) → lo' ≤ lo → Apart lo us end → Apart lo' us end
Apart-from lo lo' [] end h ap = omega arith
Apart-from lo lo' (u ∷ us) end h (le, al, rest) = (omega arith, al, rest)

-- The payloads of a list do not overlap.
pub used-Apart :
    (m : ℕ → Block) (p a : ℕ) (cs : List Cell) (end : ℕ)
    → Chain m p a cs end
    → Apart a (used a cs) end
used-Apart m p a [] end (z, e) = omega arith
used-Apart m p a (c ∷ cs) end (at, al, pos, s, f, g, rest) =
    let tail = used-Apart m (m a).next (after a c) cs end rest in
    elim (Bool-cases c.free) [
      | inl free ↦ rw free (Apart-from (after a c) a (used (after a c) cs) end (omega arith) tail)
      | inr taken ↦ rw taken (
        omega arith,
        omega arith,
        Apart-from (after a c) (a + hdr + c.size) (used (after a c) cs) end (omega arith) tail,
      )
    ]

abbrev pub first_free : List Cell → Bool
first_free [] = false
first_free (c ∷ cs) = c.free

-- No two free blocks are neighbours.
abbrev pub Merged : List Cell → Type 0
Merged [] = Unit {0}
Merged (c ∷ cs) = ((c.free && first_free cs) ≡ false) × Merged cs

-- A payload at `p` of the size `n`.
abbrev pub Has : ℕ → ℕ → List Payload → Type 0
Has p n [] = ⊥
Has p n (u ∷ us) = ((u.at ≡ p) × (u.size ≡ n)) ⊎ Has p n us

-- What holds of a heap between two calls.
pub record IsHeap (h : Heap) (a : ℕ) (cs : List Cell) (end : ℕ) : Type 0 where
  pub chain : Chain h.block h.head a cs end
  pub merged : Merged cs
  pub low : end < 2 ^ 32
  pub room : end ≤ a + h.size

-- A call keeps everything outside the arena's part `[a, end)`, and the fields but the store.
pub record Keeps (h h' : Heap) (a end : ℕ) : Type 0 where
  pub outside : (x : ℕ) → (x < a) ⊎ (end ≤ x) → h'.block x ≡ h.block x
  pub head : h'.head ≡ h.head
  pub size : h'.size ≡ h.size
  pub base : h'.base ≡ h.base
  pub bytes : h'.bytes ≡ h.bytes
