-- ===== src/CStrings/Laws.antt =====
-- What the routines of kernel/lib/string.c compute.
use thunity_os.Base.{
  ℕ, zero, suc, ◌+◌, ◌-◌, ◌≤◌, ◌≡◌, ◌≢◌, ◌↔◌, refl, sym, ap, ◌∙◌, ◌⊎◌, inl, inr, true, ◌&&◌, ◌||◌,
  List, [], ◌∷◌, length, get_or, set, length-set, get_or-set, ltb, leb, ◌==◌, if◌then◌else◌,
  Bool-cases, ==_refl, u8, arith,
}
use thunity_os.CStrings.{equal, strcmp, streq, copy_up, copy_down, memcpy, memmove, fill, memset}

-- No character of a string is the terminating 0.
abbrev pub IsCString : List ℕ → Type 0
IsCString [] = Unit {0}
IsCString (c ∷ cs) = (c ≢ 0) × IsCString cs

streq→eq : (a b : List ℕ) → IsCString a → IsCString b → streq a b ≡ true → a ≡ b
unfolding streq
streq→eq [] [] ha hb e = refl
streq→eq [] (y ∷ b) ha hb e = absurd (hb.0 (ground arith))
streq→eq (x ∷ a) [] ha hb e = absurd (ha.0 (ground arith))
streq→eq (x ∷ a) (y ∷ b) ha hb e = ground (arith, streq→eq a b ha.1 hb.1)

streq_refl : (a : List ℕ) → streq a a ≡ true
unfolding streq
streq_refl [] = refl
streq_refl (x ∷ a) = rw (==_refl x) (streq_refl a)

-- The comparison of names answers 1 exactly for equal strings.
pub streq_iff : (a b : List ℕ) → IsCString a → IsCString b → (streq a b ≡ true) ↔ (a ≡ b)
streq_iff a b ha hb = (streq→eq a b ha hb, λ e. ap (streq a) (sym e) ∙ streq_refl a)

strcmp→eq : (a b : List ℕ) → IsCString a → IsCString b → strcmp a b ≡ equal → a ≡ b
unfolding strcmp
strcmp→eq [] [] ha hb e = refl
strcmp→eq [] (y ∷ b) ha hb e = absurd (hb.0 (ground arith))
strcmp→eq (x ∷ a) [] ha hb e = absurd (ha.0 (ground arith))
strcmp→eq (x ∷ a) (y ∷ b) ha hb e = ground (arith, strcmp→eq a b ha.1 hb.1)

strcmp_refl : (a : List ℕ) → strcmp a a ≡ equal
unfolding strcmp
strcmp_refl [] = refl
strcmp_refl (x ∷ a) = rw (==_refl x) (strcmp_refl a)

-- `strcmp` answers 0 exactly for equal strings.
pub strcmp_iff : (a b : List ℕ) → IsCString a → IsCString b → (strcmp a b ≡ equal) ↔ (a ≡ b)
strcmp_iff a b ha hb = (strcmp→eq a b ha hb, λ e. ap (strcmp a) (sym e) ∙ strcmp_refl a)

-- A cell of the memory after the bytes `[src, src + n)` have been copied to `[dst, dst + n)`.
abbrev pub copied : List ℕ → ℕ → ℕ → ℕ → ℕ → ℕ
copied m dst src n j =
    if leb dst j && ltb j (dst + n) then get_or m (src + (j - dst)) 0 else get_or m j 0

copy_up_lem :
    (left d s i : ℕ) (m : List ℕ) (j : ℕ)
    → (d ≤ s) ⊎ (s + (i + left) ≤ d)
    → d + (i + left) ≤ length m
    → get_or (copy_up left d s i m) j 0
      ≡ (if leb (d + i) j && ltb j (d + (i + left)) then get_or m (s + (j - d)) 0 else get_or m j 0)
unfolding copy_up
copy_up_lem zero d s i m j h room = ground arith
copy_up_lem (suc left) d s i m j h room =
    let v = get_or m (s + i) 0 in
    let m' = set m (d + i) v in
    let n : length m' ≡ length m = length-set m (d + i) v in
    let e : i + 1 + left ≡ i + suc left = omega arith in
    let h' : (d ≤ s) ⊎ (s + (i + 1 + left) ≤ d) = rw e h in
    let ih = copy_up_lem left d s (i + 1) m' j h' (omega arith) in
    elim (Bool-cases (d + i == j)) [
      | inl here ↦ ground (arith, ih, get_or-set m (d + i) j v 0 (omega arith))
      | inr other ↦ ground (
        arith,
        ih,
        get_or-set m (d + i) j v 0 (omega arith),
        get_or-set m (d + i) (s + (j - d)) v 0 (omega arith),
      )
    ]

copy_down_lem :
    (i d s : ℕ) (m : List ℕ) (j : ℕ)
    → s ≤ d
    → d + i ≤ length m
    → get_or (copy_down i d s m) j 0 ≡ copied m d s i j
unfolding copy_down
copy_down_lem zero d s m j h room = ground arith
copy_down_lem (suc i) d s m j h room =
    let v = get_or m (s + i) 0 in
    let m' = set m (d + i) v in
    let n : length m' ≡ length m = length-set m (d + i) v in
    let ih = copy_down_lem i d s m' j h (omega arith) in
    elim (Bool-cases (d + i == j)) [
      | inl here ↦ ground (arith, ih, get_or-set m (d + i) j v 0 (omega arith))
      | inr other ↦ ground (
        arith,
        ih,
        get_or-set m (d + i) j v 0 (omega arith),
        get_or-set m (d + i) (s + (j - d)) v 0 (omega arith),
      )
    ]

-- `memmove` copies `n` bytes, whether the two ranges overlap or not: every byte of the destination is
-- the byte that the source had before the call, and no other byte changes.
pub memmove_lem :
    (m : List ℕ) (dst src n j : ℕ)
    → dst + n ≤ length m
    → get_or (memmove m dst src n) j 0 ≡ copied m dst src n j
unfolding memmove
memmove_lem m dst src n j room = elim (Bool-cases (dst == src || n == 0)) [
  | inl nothing ↦ rw nothing (ground arith)
  | inr some_bytes ↦ rw some_bytes (elim (Bool-cases (ltb dst src)) [
    | inl up ↦ rw up (copy_up_lem n dst src 0 m j (inl (ground arith)) (omega arith) ∙ ground arith)
    | inr down ↦ rw down (copy_down_lem n dst src m j (ground arith) room)
  ])
]

-- `memcpy` puts the old bytes of the source at the destination and leaves every other byte, where the
-- source does not begin below a destination that it overlaps.
pub memcpy_lem :
    (m : List ℕ) (dst src n j : ℕ)
    → (dst ≤ src) ⊎ (src + n ≤ dst)
    → dst + n ≤ length m
    → get_or (memcpy m dst src n) j 0 ≡ copied m dst src n j
unfolding memcpy
memcpy_lem m dst src n j apart room =
    let e : 0 + n ≡ n = omega arith in
    copy_up_lem n dst src 0 m j (rw e apart) (rw e room) ∙ ground arith

fill_lem :
    (left d v i : ℕ) (m : List ℕ) (j : ℕ)
    → d + (i + left) ≤ length m
    → get_or (fill left d v i m) j 0
      ≡ (if leb (d + i) j && ltb j (d + (i + left)) then v else get_or m j 0)
unfolding fill
fill_lem zero d v i m j room = ground arith
fill_lem (suc left) d v i m j room = ground (
  arith,
  fill_lem left d v (i + 1) (set m (d + i) v) j,
  length-set m (d + i) v,
  get_or-set m (d + i) j v 0,
)

-- `memset` writes the low byte of its value to the `n` bytes and to no other.
pub memset_lem :
    (m : List ℕ) (dst value n j : ℕ)
    → dst + n ≤ length m
    → get_or (memset m dst value n) j 0
      ≡ (if leb dst j && ltb j (dst + n) then u8 value else get_or m j 0)
unfolding memset
memset_lem m dst value n j room = fill_lem n dst (u8 value) 0 m j (omega arith) ∙ ground arith
