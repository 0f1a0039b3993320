-- ===== src/Kheap/Counts.antt =====
-- The counters of kernel/mm/kheap_core.c, and `heap_check`.
use thunity_os.Base.{
  ℕ, zero, suc, ◌+◌, ◌*◌, ◌^◌, ◌≤◌, ◌<◌, ◌≡◌, refl, ap, ◌∙◌, inl, inr, Bool, true, false, not, ◌&&◌,
  ◌||◌, Option, none, some, List, [], ◌∷◌, length, u32, ltb, ◌==◌, if◌then◌else◌, Bool-cases,
  ==_refl, arith,
}
use thunity_os.Kheap.{Block, Heap, kh_magic, hdr}
use thunity_os.Kheap.Cells.{Cell, after, Chain, Chain-end, IsHeap}

-- The loops of the counters at `b`: what a block adds is `add`.
unfoldable pub sum_loop : (Block → ℕ) → (ℕ → Block) → ℕ → ℕ → ℕ → Option ℕ
sum_loop add m zero b n = none
sum_loop add m (suc rounds) b n =
    let rest = sum_loop add m rounds (m b).next (u32 (n + add (m b))) in
    if b == 0 then some n else rest

unfoldable pub heap_used : Heap → Option ℕ
heap_used h = sum_loop (λ k. if k.free then 0 else k.size) h.block (h.size + 1) h.head 0

unfoldable pub heap_free_bytes : Heap → Option ℕ
heap_free_bytes h = sum_loop (λ k. if k.free then k.size else 0) h.block (h.size + 1) h.head 0

unfoldable pub heap_blocks : Heap → Option ℕ
heap_blocks h = sum_loop (λ k. 1) h.block (h.size + 1) h.head 0

-- The loop of `heap_check` at `b`.
unfoldable pub check_loop : ℕ → ℕ → Heap → Option Bool
check_loop zero b h = none
check_loop (suc rounds) b h =
    let k = h.block b in
    let e = u32 (b + hdr + k.size) in
    let rest = check_loop rounds k.next h in
    if b == 0
    then some true
    else if not (k.magic == kh_magic)
    then some false
    else if ltb b h.base || ltb (u32 (h.base + h.size)) e
    then some false
    else if not (k.next == 0) && not (k.next == e)
    then some false
    else rest

unfoldable pub heap_check : Heap → Option Bool
heap_check h = check_loop (h.size + 1) h.head h

-- What the cells add up to.
abbrev pub total : (Cell → ℕ) → List Cell → ℕ
total add [] = 0
total add (c ∷ cs) = add c + total add cs

-- A counter that reads the size and the free flag ends with the sum over the cells.
sum_loop_lem :
    (add : ℕ → Bool → ℕ) (m : ℕ → Block) (rounds p a : ℕ) (cs : List Cell) (end n : ℕ)
    → ((c : Cell) → add c.size c.free ≤ hdr + c.size)
    → Chain m p a cs end
    → length cs < rounds
    → n + end < 2 ^ 32 + a
    → sum_loop (λ k. add k.size k.free) m rounds p n ≡ some (n + total (λ c. add c.size c.free) cs)
unfolding sum_loop
sum_loop_lem add m zero p a cs end n small ch few low = absurd (omega arith)
sum_loop_lem add m (suc rounds) p a [] end n small (z, e) few low =
    let zero_sum : n ≡ n + 0 = omega arith in rw z (ap some zero_sum)
sum_loop_lem add m (suc rounds) p a (c ∷ cs) end n small (at, al, pos, s, f, g, rest) few low =
    let ne : (a == 0) ≡ false = ground arith in
    let lt = Chain-end m (m a).next (after a c) cs end rest in
    let fits : u32 (n + add c.size c.free) ≡ n + add c.size c.free = omega (arith, small c, lt) in
    rw (at, ne, s, f, fits)
      (sum_loop_lem add m rounds (m a).next (after a c) cs end (n + add c.size c.free) small rest
          (omega arith) (omega (arith, small c))
        ∙ ap some (omega arith))

-- The sizes and the headers tile the arena.
tiles :
    (m : ℕ → Block) (p a : ℕ) (cs : List Cell) (end : ℕ)
    → Chain m p a cs end
    → a
        + (total (λ c. if c.free then 0 else c.size) cs
            + (total (λ c. if c.free then c.size else 0) cs + 16 * total (λ c. 1) cs))
      ≡ end
tiles m p a [] end (z, e) = omega arith
tiles m p a (c ∷ cs) end (at, al, pos, s, f, g, rest) =
    let ih = tiles m (m a).next (after a c) cs end rest in
    elim (Bool-cases c.free) [
      | inl free ↦ rw free (omega (arith, ih))
      | inr taken ↦ rw taken (omega (arith, ih))
    ]

-- The three counters of a heap that is not empty end, and account for every byte of its blocks: the used
-- and the free payloads and a header for each block fill the arena from its first block to its end.
pub heap_counts-IsHeap :
    (h : Heap) (a : ℕ) (cs : List Cell) (end : ℕ)
    → IsHeap h a cs end
    → (u f n : ℕ) × (heap_used h ≡ some u)
      × (heap_free_bytes h ≡ some f)
      × (heap_blocks h ≡ some n)
      × (a + (u + (f + 16 * n)) ≡ end)
unfolding heap_used heap_free_bytes heap_blocks
heap_counts-IsHeap h a cs end i =
    let few = Chain-end h.block h.head a cs end i.chain in
    (
      total (λ c. if c.free then 0 else c.size) cs,
      total (λ c. if c.free then c.size else 0) cs,
      total (λ c. 1) cs,
      sum_loop_lem (λ s f. if f then 0 else s) h.block (h.size + 1) h.head a cs end 0
            (λ c. ground arith) i.chain (omega (arith, i.room)) (omega (arith, i.low, few))
          ∙ ap some (omega arith),
      sum_loop_lem (λ s f. if f then s else 0) h.block (h.size + 1) h.head a cs end 0
            (λ c. ground arith) i.chain (omega (arith, i.room)) (omega (arith, i.low, few))
          ∙ ap some (omega arith),
      sum_loop_lem (λ s f. 1) h.block (h.size + 1) h.head a cs end 0 (λ c. omega arith) i.chain
            (omega (arith, i.room)) (omega (arith, i.low, few))
          ∙ ap some (omega arith),
      tiles h.block h.head a cs end i.chain,
    )

check_loop_lem :
    (h : Heap) (rounds p a : ℕ) (cs : List Cell) (end : ℕ)
    → Chain h.block p a cs end
    → h.base ≤ a
    → end ≤ h.base + h.size
    → h.base + h.size < 2 ^ 32
    → length cs < rounds
    → check_loop rounds p h ≡ some true
unfolding check_loop
check_loop_lem h zero p a cs end ch base room low few = absurd (omega arith)
check_loop_lem h (suc rounds) p a [] end (z, e) base room low few = rw z refl
check_loop_lem h (suc rounds) p a (c ∷ cs) end (at, al, pos, s, f, g, rest) base room low few =
    let ne : (a == 0) ≡ false = ground arith in
    let lt = Chain-end h.block (h.block a).next (after a c) cs end rest in
    let ours : ((h.block a).magic == kh_magic) ≡ true = rw g (==_refl kh_magic) in
    let e : u32 (a + hdr + c.size) ≡ after a c = omega (arith, lt) in
    let top : u32 (h.base + h.size) ≡ h.base + h.size = omega arith in
    let inside : (ltb a h.base || ltb (h.base + h.size) (after a c)) ≡ false = ground (arith, lt) in
    rw (at, ne, ours, s, e, top, inside, next_ok cs rest)
      (check_loop_lem h rounds (h.block a).next (after a c) cs end rest (omega arith) room low
        (omega arith))
  where
    next_ok :
        (ds : List Cell)
        → Chain h.block (h.block a).next (after a c) ds end
        → (not ((h.block a).next == 0) && not ((h.block a).next == after a c)) ≡ false
    next_ok [] (z, e) = rw z refl
    next_ok (d ∷ ds) (at, al, pos, s, f, g, rest) = rw (at, ==_refl (after a c)) (ground arith)

-- `heap_check` finds no fault in a heap that lies in its arena.
pub heap_check-IsHeap :
    (h : Heap) (a : ℕ) (cs : List Cell) (end : ℕ)
    → IsHeap h a cs end
    → h.base ≤ a
    → end ≤ h.base + h.size
    → h.base + h.size < 2 ^ 32
    → heap_check h ≡ some true
unfolding heap_check
heap_check-IsHeap h a cs end i base room low =
    let few = Chain-end h.block h.head a cs end i.chain in
    check_loop_lem h (h.size + 1) h.head a cs end i.chain base room low (omega (arith, i.room))
