-- ===== src/Kheap/Free.antt =====
-- `heap_free` and `coalesce` of kernel/mm/kheap_core.c on the cells.
use thunity_os.Base.{
  ℕ, zero, suc, ◌+◌, ◌^◌, ◌≤◌, ◌<◌, ◌≡◌, refl, sym, subst, ap, ◌∙◌, inl, inr, true, false, ◌&&◌,
  ◌||◌, some, List, [], ◌∷◌, length, u32, ◌==◌, if◌then◌else◌, Bool-cases, arith,
}
use thunity_os.Kheap.{Block, Heap, hdr, put, coalesce_loop}
use thunity_os.Kheap.Cells.{
  Cell, after, Chain, Chain-end, Chain-frame, Chain-cons, used, first_free, Merged, Keeps,
}
use thunity_os.Kheap.Alloc.{put_at, put-other}

abbrev join : Cell → Cell → Cell
join c d = record { size = c.size + (hdr + d.size); free = c.free }

-- The forward pass over the cells behind `c`.
abbrev pub merge_from : Cell → List Cell → List Cell
merge_from c [] = c ∷ []
merge_from c (d ∷ cs) = if c.free && d.free then merge_from (join c d) cs else c ∷ merge_from d cs

Keeps-trans :
    (h h1 h2 : Heap) (a b end : ℕ) → a ≤ b → Keeps h h1 a end → Keeps h1 h2 b end → Keeps h h2 a end
Keeps-trans h h1 h2 a b end le k l = record {
  outside =
      λ x o. l.outside x (elim o [ inl lo ↦ inl (omega arith) | inr hi ↦ inr hi ]) ∙ k.outside x o;
  head = l.head ∙ k.head;
  size = l.size ∙ k.size;
  base = l.base ∙ k.base;
  bytes = l.bytes ∙ k.bytes;
}

Keeps-refl : (h : Heap) (a end : ℕ) → Keeps h h a end
Keeps-refl h a end = record {
  outside = λ x o. refl;
  head = refl;
  size = refl;
  base = refl;
  bytes = refl;
}

Keeps-put : (h : Heap) (b : ℕ) (k : Block) (a end : ℕ) → a ≤ b → b < end → Keeps h (put h b k) a end
Keeps-put h b k a end lo hi = record {
  outside = λ x o. put-other h b x k (omega arith);
  head = refl;
  size = refl;
  base = refl;
  bytes = refl;
}

-- What the pass has done from `a` on.
abbrev pub Passed : ℕ → Heap → ℕ → Cell → List Cell → ℕ → Type 0
Passed rounds h a c cs end =
    (h' : Heap) × (coalesce_loop rounds a h ≡ some h')
    × Chain h'.block a a (merge_from c cs) end
    × Keeps h h' a end

-- Two free neighbours become one block.
module _ (h : Heap) (a : ℕ) (c d : Cell) (cs : List Cell) (end : ℕ) (low : end < 2 ^ 32) where
  abbrev next_block : Block
  next_block = h.block (after a c)

  abbrev joined : Heap
  joined = put h a (record (h.block a) {
    size = u32 ((h.block a).size + (hdr + next_block.size));
    next = next_block.next;
  })

  join-Chain : Chain h.block a a (c ∷ d ∷ cs) end → Chain joined.block a a (join c d ∷ cs) end
  join-Chain (at, al, pos, s, f, g, (at', al', pos', s', f', g', rest)) =
      let lt = Chain-end h.block next_block.next (after (after a c) d) cs end rest in
      let size : u32 ((h.block a).size + (hdr + next_block.size)) ≡ c.size + (hdr + d.size) =
        omega (arith, s, s', lt) in
      let behind : after a (join c d) ≡ after (after a c) d = omega arith in
      Chain-cons joined.block a _ (join c d) cs end (put_at h a _) al pos (size, f, g)
        (subst (λ z. Chain joined.block next_block.next z cs end) (sym behind)
          (Chain-frame h.block joined.block next_block.next (after (after a c) d) cs end
            (λ x lo hi. put-other h a x _ (omega arith)) rest))

  -- The pass at a block that it merges with the next one.
  Passed-join :
      (rounds : ℕ)
      → Chain h.block a a (c ∷ d ∷ cs) end
      → (c.free && d.free) ≡ true
      → Passed rounds joined a (join c d) cs end
      → Passed (suc rounds) h a c (d ∷ cs) end
  unfolding coalesce_loop
  Passed-join rounds ch both (h', e, merged, keeps) =
      let (at, al, pos, s, f, g, (at', al', pos', s', f', g', rest)) = ch in
      let lt = Chain-end h.block next_block.next (after (after a c) d) cs end rest in
      let ne : (a == 0) ≡ false = ground arith in
      let ne' : (after a c == 0) ≡ false = ground arith in
      let both' : ((h.block a).free && next_block.free) ≡ true = rw (f, f') both in
      (
        h',
        rw (ne, at', ne', both') e,
        rw both merged,
        Keeps-trans h joined h' a a end (omega arith)
            (Keeps-put h a _ a end (omega arith) (omega (arith, lt))) keeps,
      )

  -- The pass at a block that it leaves.
  Passed-skip :
      (rounds : ℕ)
      → Chain h.block a a (c ∷ d ∷ cs) end
      → (c.free && d.free) ≡ false
      → Passed rounds h (after a c) d cs end
      → Passed (suc rounds) h a c (d ∷ cs) end
  unfolding coalesce_loop
  Passed-skip rounds ch apart (h', e, merged, keeps) =
      let (at, al, pos, s, f, g, (at', al', pos', s', f', g', rest)) = ch in
      let ne : (a == 0) ≡ false = ground arith in
      let ne' : (after a c == 0) ≡ false = ground arith in
      let same : h'.block a ≡ h.block a = keeps.outside a (inl (omega arith)) in
      (
        h',
        rw (ne, at', ne', f, f', apart) e,
        rw apart (
            Chain-cons h'.block a (h.block a) c (merge_from d cs) end same al pos (s, f, g)
              (subst (λ q. Chain h'.block q (after a c) (merge_from d cs) end) (sym at') merged)),
        Keeps-trans h h h' a (after a c) end (omega arith) (Keeps-refl h a end) keeps,
      )

-- The pass ends within as many rounds as there are blocks.
pub coalesce_loop-merge :
    (rounds : ℕ) (h : Heap) (a : ℕ) (c : Cell) (cs : List Cell) (end : ℕ)
    → end < 2 ^ 32
    → length cs < rounds
    → Chain h.block a a (c ∷ cs) end
    → Passed rounds h a c cs end
unfolding coalesce_loop
coalesce_loop-merge zero h a c cs end low few ch = absurd (omega arith)
coalesce_loop-merge (suc rounds) h a c [] end low few ch =
    let last : (a == 0 || (h.block a).next == 0) ≡ true = ground (arith, ch.6.0) in
    (h, rw last refl, ch, Keeps-refl h a end)
coalesce_loop-merge (suc rounds) h a c (d ∷ cs) end low few ch =
    elim (Bool-cases (c.free && d.free)) [
      | inl both ↦ Passed-join h a c d cs end low rounds ch both (
          coalesce_loop-merge rounds (joined h a c d cs end low) a (join c d) cs end low
            (omega arith) (join-Chain h a c d cs end low ch))
      | inr apart ↦ Passed-skip h a c d cs end low rounds ch apart (
          coalesce_loop-merge rounds h (after a c) d cs end low (omega arith)
            (subst (λ q. Chain h.block q (after a c) (d ∷ cs) end) ch.6.0 ch.6))
    ]

-- The pass keeps the payloads in use and leaves no two free neighbours.
pub used-merge_from :
    (a : ℕ) (c : Cell) (cs : List Cell) → used a (merge_from c cs) ≡ used a (c ∷ cs)
used-merge_from a c [] = refl
used-merge_from a c (d ∷ cs) = elim (Bool-cases (c.free && d.free)) [
  | inl both ↦
      let fc : c.free ≡ true = ground arith in
      let fd : d.free ≡ true = ground arith in
      let behind : after a (join c d) ≡ after (after a c) d = omega arith in
      rw both (used-merge_from a (join c d) cs ∙ rw (fc, fd, behind) refl)
  | inr apart ↦ rw apart (
      ap (λ us. if c.free then us else record { at = a + hdr; size = c.size } ∷ us)
        (used-merge_from (after a c) d cs))
]

first_free-merge_from : (c : Cell) (cs : List Cell) → first_free (merge_from c cs) ≡ c.free
first_free-merge_from c [] = refl
first_free-merge_from c (d ∷ cs) = elim (Bool-cases (c.free && d.free)) [
  | inl both ↦ rw both (first_free-merge_from (join c d) cs)
  | inr apart ↦ rw apart refl
]

pub merge_from-Merged : (c : Cell) (cs : List Cell) → Merged (merge_from c cs)
merge_from-Merged c [] = (ground arith, tt)
merge_from-Merged c (d ∷ cs) = elim (Bool-cases (c.free && d.free)) [
  | inl both ↦ rw both (merge_from-Merged (join c d) cs)
  | inr apart ↦
      rw apart (ap (λ b. c.free && b) (first_free-merge_from d cs) ∙ apart, merge_from-Merged d cs)
]
