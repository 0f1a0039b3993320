-- ===== src/Kheap/Alloc.antt =====
-- `heap_alloc` of kernel/mm/kheap_core.c against first fit on the cells.
use thunity_os.Base.{
  ℕ, zero, suc, ◌+◌, ◌-◌, ◌%◌, ◌^◌, ◌≤◌, ◌<◌, ◌≡◌, ◌≢◌, refl, sym, subst, ◌∙◌, inl, inr, Bool, true,
  false, not, ◌&&◌, ◌||◌, Option, none, some, List, [], ◌∷◌, length, u32, sub32, ltb, leb, leb→le,
  ◌==◌, if◌then◌else◌, Bool-cases, ==_refl, ne→==, arith,
}
use thunity_os.Kheap.{Block, Heap, kh_magic, kh_align, hdr, put, take_block, alloc_loop}
use thunity_os.Kheap.Cells.{Cell, after, Chain, Chain-end, Chain-frame, Chain-cons, Keeps}

abbrev pub fits : ℕ → Cell → Bool
fits n c = c.free && leb n c.size

-- The cells that a taken block leaves.
abbrev pub split : ℕ → Cell → List Cell → List Cell
split n c cs =
    if leb (n + (hdr + kh_align)) c.size
    then record { size = n; free = false } ∷ (record { size = c.size - n - hdr; free = true } ∷ cs)
    else record { size = c.size; free = false } ∷ cs

-- First fit: the payload's address and the cells after it.
abbrev pub place : ℕ → ℕ → List Cell → Option (ℕ × List Cell)
place n a [] = none
place n a (c ∷ cs) =
    if fits n c
    then some (a + hdr, split n c cs)
    else elim (place n (after a c) cs) [ none ↦ none | some (q, cs') ↦ some (q, c ∷ cs') ]

-- What a search from `a` on does, as first fit says.
abbrev pub Placed : Heap → ℕ → ℕ → ℕ → Option (ℕ × List Cell) → ℕ × Heap → Type 0
Placed h p a end none (r, h') = (r ≡ 0) × (h' ≡ h)
Placed h p a end (some (q, cs')) (r, h') = (r ≡ q) × Chain h'.block p a cs' end × Keeps h h' a end

-- The store after `*b = k`.
pub put_at : (h : Heap) (b : ℕ) (k : Block) → (put h b k).block b ≡ k
put_at h b k = rw (==_refl b) refl

pub put-other : (h : Heap) (b x : ℕ) (k : Block) → b ≢ x → (put h b k).block x ≡ h.block x
put-other h b x k ne = rw (ne→== b x ne) refl

module _ (h : Heap) (a n : ℕ) (c : Cell) (cs : List Cell) (end : ℕ) (low : end < 2 ^ 32)
    (n8 : n % 8 ≡ 0) where
  -- The two blocks that `take_block` writes.
  abbrev whole_block : Block
  whole_block = record (h.block a) { free = false }

  abbrev front : Block
  front = record (h.block a) { size = n; next = a + (hdr + n); free = false }

  abbrev back : Block
  back = record { size = c.size - n - hdr; next = (h.block a).next; free = true; magic = kh_magic }

  take_block-eq :
      Chain h.block a a (c ∷ cs) end
      → n ≤ c.size
      → take_block h a n ≡ (
          if leb (n + (hdr + kh_align)) c.size
          then put (put h (a + (hdr + n)) back) a front
          else put h a whole_block)
  unfolding take_block
  take_block-eq (at, al, pos, s, f, g, rest) le =
      let lt = Chain-end h.block (h.block a).next (after a c) cs end rest in
      let same : u32 (n + hdr + kh_align) ≡ n + (hdr + kh_align) = omega (arith, lt, al) in
      elim (Bool-cases (leb (n + (hdr + kh_align)) c.size)) [
        | inl big ↦
            let size : sub32 (sub32 c.size n) hdr ≡ c.size - n - hdr =
              omega (arith, lt, leb→le _ _ big) in
            let nb : u32 (a + hdr + n) ≡ a + (hdr + n) = omega (arith, lt) in
            rw (same, s, big, size, nb) refl
        | inr whole ↦ rw (same, s, whole) refl
      ]

  -- The store after a split.
  abbrev halves : Heap
  halves = put (put h (a + (hdr + n)) back) a front

  abbrev rest_cell : Cell
  rest_cell = record { size = c.size - n - hdr; free = true }

  big_split :
      Chain h.block a a (c ∷ cs) end
      → n + (hdr + kh_align) ≤ c.size
      → Chain halves.block a a
          (record { size = n; free = false }
            ∷ (record { size = c.size - n - hdr; free = true } ∷ cs))
          end
        × Keeps h halves a end
  big_split (at, al, pos, s, f, g, rest) le =
      let lt = Chain-end h.block (h.block a).next (after a c) cs end rest in
      let h1 = put h (a + (hdr + n)) back in
      let behind : a + (hdr + n) + (hdr + (c.size - n - hdr)) ≡ after a c = omega (arith, le) in
      let tail =
        Chain-frame h.block halves.block (h.block a).next (after a c) cs end
          (λ x lo hi.
            put-other h1 a x front (omega arith)
            ∙ put-other h (a + (hdr + n)) x back (omega (arith, le)))
          rest in
      (
        Chain-cons halves.block a front (record { size = n; free = false }) (rest_cell ∷ cs) end
            (put_at h1 a front) al pos (refl, refl, g)
            (Chain-cons halves.block (a + (hdr + n)) back rest_cell cs end
              (put-other h1 a (a + (hdr + n)) front (omega arith) ∙ put_at h (a + (hdr + n)) back)
              (omega arith) (omega arith) (refl, refl, refl)
              (subst (λ z. Chain halves.block (h.block a).next z cs end) (sym behind) tail)),
        record {
          outside = λ x o.
              put-other h1 a x front (omega (arith, lt))
              ∙ put-other h (a + (hdr + n)) x back (omega (arith, lt, le));
          head = refl;
          size = refl;
          base = refl;
          bytes = refl;
        },
      )

  take_block-split :
      Chain h.block a a (c ∷ cs) end
      → n ≤ c.size
      → Chain (take_block h a n).block a a (split n c cs) end × Keeps h (take_block h a n) a end
  take_block-split ch le =
      let (at, al, pos, s, f, g, rest) = ch in
      let lt = Chain-end h.block (h.block a).next (after a c) cs end rest in
      rw (take_block-eq ch le) (elim (Bool-cases (leb (n + (hdr + kh_align)) c.size)) [
        | inl big ↦ rw big (big_split ch (leb→le _ _ big))
        | inr whole ↦ rw whole (
          Chain-cons _ a whole_block (record { size = c.size; free = false }) cs end
              (put_at h a whole_block) al pos (s, refl, g)
              (Chain-frame h.block _ (h.block a).next (after a c) cs end
                (λ x lo hi. put-other h a x whole_block (omega arith)) rest),
          record {
            outside = λ x o. put-other h a x whole_block (omega (arith, lt));
            head = refl;
            size = refl;
            base = refl;
            bytes = refl;
          },
        )
      ])

-- The search goes on behind a block that does not fit.
place-later :
    (h : Heap) (a n : ℕ) (c : Cell) (cs : List Cell) (end : ℕ) (r : ℕ × Heap)
    → Chain h.block a a (c ∷ cs) end
    → Placed h (h.block a).next (after a c) end (place n (after a c) cs) r
    → Placed h a a end
        (elim (place n (after a c) cs) [ none ↦ none | some (q, cs') ↦ some (q, c ∷ cs') ])
        r
place-later h a n c cs end (r, h') (at, al, pos, s, f, g, rest) placed =
    go (place n (after a c) cs) placed
  where
    go :
        (o : Option (ℕ × List Cell))
        → Placed h (h.block a).next (after a c) end o (r, h')
        → Placed h a a end (elim o [ none ↦ none | some (q, cs') ↦ some (q, c ∷ cs') ]) (r, h')
    go none k = k
    go (some (q, cs')) (e, ch, k) =
        let head_same : h'.block a ≡ h.block a = k.outside a (inl (omega arith)) in
        (
          e,
          Chain-cons h'.block a (h.block a) c cs' end head_same al pos (s, f, g) ch,
          record {
            outside = λ x o. k.outside x (elim o [ inl lo ↦ inl (omega arith) | inr hi ↦ inr hi ]);
            head = k.head;
            size = k.size;
            base = k.base;
            bytes = k.bytes;
          },
        )

-- The loop is first fit, in as many rounds as there are blocks, and one more.
pub alloc_loop-place :
    (rounds n : ℕ) (h : Heap) (p a : ℕ) (cs : List Cell) (end : ℕ)
    → end < 2 ^ 32
    → n % 8 ≡ 0
    → length cs < rounds
    → Chain h.block p a cs end
    → (r : ℕ × Heap) × (alloc_loop rounds p n h ≡ some r) × Placed h p a end (place n a cs) r
unfolding alloc_loop
alloc_loop-place zero n h p a cs end low n8 few ch = absurd (omega arith)
alloc_loop-place (suc rounds) n h p a [] end low n8 few (z, e) = ((0, h), rw z refl, (refl, refl))
alloc_loop-place (suc rounds) n h p a (c ∷ cs) end low n8 few (at, al, pos, s, f, g, rest) =
    let ch : Chain h.block a a (c ∷ cs) end = (refl, al, pos, s, f, g, rest) in
    let lt = Chain-end h.block (h.block a).next (after a c) cs end rest in
    let ne : (a == 0) ≡ false = ground arith in
    elim (Bool-cases (fits n c)) [
      | inl fit ↦
          let (new, keeps) = take_block-split h a n c cs end low n8 ch (ground arith) in
          let take : (not c.free || ltb c.size n) ≡ false = ground arith in
          let at' : u32 (a + hdr) ≡ a + hdr = omega (arith, lt) in
          (
            (a + hdr, take_block h a n),
            rw (at, ne, s, f, take, at') refl,
            rw (fit, at) (refl, new, keeps),
          )
      | inr skip ↦
          let pass : (not c.free || ltb c.size n) ≡ true = ground arith in
          later p a c cs end at ne s f pass skip ch (
            alloc_loop-place rounds n h (h.block a).next (after a c) cs end low n8 (omega arith)
              rest)
    ]
  where
    later :
        (p a : ℕ) (c : Cell) (cs : List Cell) (end : ℕ)
        → p ≡ a
        → (a == 0) ≡ false
        → (h.block a).size ≡ c.size
        → (h.block a).free ≡ c.free
        → (not c.free || ltb c.size n) ≡ true
        → fits n c ≡ false
        → Chain h.block a a (c ∷ cs) end
        → (r : ℕ × Heap) × (alloc_loop rounds (h.block a).next n h ≡ some r)
          × Placed h (h.block a).next (after a c) end (place n (after a c) cs) r
        → (r : ℕ × Heap) × (alloc_loop (suc rounds) p n h ≡ some r)
          × Placed h p a end (place n a (c ∷ cs)) r
    later p a c cs end at ne s f pass skip ch (r, eq, placed) =
        (r, rw (at, ne, s, f, pass) eq, rw (skip, at) (place-later h a n c cs end r ch placed))
