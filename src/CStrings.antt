-- ===== src/CStrings.antt =====
-- C strings and byte arrays: kernel/lib/string.c, and the private copies of its routines in
-- kernel/fs/ramfs_core.c, kernel/ai/ai_core.c and kernel/os/feature_registry.c. A string is the list of
-- its characters before the terminating 0, so that none of them is 0; a walk that stops at the 0 stops
-- at the end of the list.
pub mod Laws
mod Examples
use thunity_os.Base.{
  ℕ, zero, suc, ◌+◌, ◌-◌, Bool, true, false, not, ◌&&◌, ◌||◌, Option, none, some, List, [], ◌∷◌,
  ◌++◌, length, take, get_or, set, replicate, u8, ltb, ◌==◌, if◌then◌else◌,
}
use Prim.Native.Char.{code}
use Prim.Native.String.{String}

-- The characters of a literal.
abbrev pub codes : String → List ℕ
codes String.[] = []
codes (String.◌∷◌ c s) = code c ∷ codes s

-- The number at the head of a C string: 0 at its end.
abbrev pub head_or_zero : List ℕ → ℕ
head_or_zero [] = 0
head_or_zero (c ∷ cs) = c

-- The difference of two bytes as the sign of `strcmp`.
pub data Order : Type 0 where
  less equal greater : Order

abbrev pub order : ℕ → ℕ → Order
order a b = if a == b then equal else if ltb a b then less else greater

-- `while (*a && *a == *b) { a++; b++; }`, then the difference.
unfoldable pub strcmp : List ℕ → List ℕ → Order
strcmp [] b = order 0 (head_or_zero b)
strcmp (x ∷ a) [] = order x 0
strcmp (x ∷ a) (y ∷ b) = let rest = strcmp a b in if x == y then rest else order x y

-- `rfs_streq` and `eq`: the same walk, then a test of the two characters.
unfoldable pub streq : List ℕ → List ℕ → Bool
streq [] b = 0 == head_or_zero b
streq (x ∷ a) [] = x == 0
streq (x ∷ a) (y ∷ b) = let rest = streq a b in if x == y then rest else false

unfoldable pub strncmp : List ℕ → List ℕ → ℕ → Order
strncmp a b zero = equal
strncmp [] b (suc n) = order 0 (head_or_zero b)
strncmp (x ∷ a) [] (suc n) = order x 0
strncmp (x ∷ a) (y ∷ b) (suc n) =
    let rest = strncmp a b n in if not (x == y) || x == 0 then order x y else rest

-- `rfs_ncopy` and `cp` into a field of `max` characters: at most `max - 1` and the 0.
unfoldable pub ncopy : List ℕ → ℕ → List ℕ
ncopy src max = take (max - 1) src

-- `strchr`: the rest of the string from the character on; the empty rest is the terminating 0.
unfoldable pub strchr : List ℕ → ℕ → Option (List ℕ)
strchr [] c = if c == 0 then some [] else none
strchr (x ∷ s) c = let rest = strchr s c in if x == c then some (x ∷ s) else rest

-- The arrays that the mem routines work on: one memory, and pointers into it.
-- `memcpy` and the forward loop of `memmove`, at index `i` with `left` rounds left.
unfoldable pub copy_up : ℕ → ℕ → ℕ → ℕ → List ℕ → List ℕ
copy_up zero d s i m = m
copy_up (suc left) d s i m = copy_up left d s (i + 1) (set m (d + i) (get_or m (s + i) 0))

-- The backward loop of `memmove`, with `i` bytes left.
unfoldable pub copy_down : ℕ → ℕ → ℕ → List ℕ → List ℕ
copy_down zero d s m = m
copy_down (suc i) d s m = copy_down i d s (set m (d + i) (get_or m (s + i) 0))

unfoldable pub memcpy : List ℕ → ℕ → ℕ → ℕ → List ℕ
memcpy m dst src n = copy_up n dst src 0 m

unfoldable pub memmove : List ℕ → ℕ → ℕ → ℕ → List ℕ
memmove m dst src n =
    if dst == src || n == 0
    then m
    else if ltb dst src
    then copy_up n dst src 0 m
    else copy_down n dst src m

-- The loop of `memset` at index `i`.
unfoldable pub fill : ℕ → ℕ → ℕ → ℕ → List ℕ → List ℕ
fill zero d v i m = m
fill (suc left) d v i m = fill left d v (i + 1) (set m (d + i) v)

unfoldable pub memset : List ℕ → ℕ → ℕ → ℕ → List ℕ
memset m dst value n = fill n dst (u8 value) 0 m

-- The loop of `memcmp`.
unfoldable pub compare_loop : ℕ → ℕ → ℕ → ℕ → List ℕ → Order
compare_loop zero a b i m = equal
compare_loop (suc left) a b i m =
    let rest = compare_loop left a b (i + 1) m in
    if get_or m (a + i) 0 == get_or m (b + i) 0
    then rest
    else order (get_or m (a + i) 0) (get_or m (b + i) 0)

unfoldable pub memcmp : List ℕ → ℕ → ℕ → ℕ → Order
memcmp m a b n = compare_loop n a b 0 m
