-- ===== src/Ramfs/Files.antt =====
-- The file system of kernel/fs/ramfs_core.c: what a write does to its file and to the others.
use thunity_os.Base.{
  ℕ, zero, suc, ◌+◌, ◌-◌, ◌^◌, ◌≤◌, ◌<◌, ◌≡◌, ◌≢◌, refl, sym, subst, ap, ap₂, ◌∙◌, inl, inr, true,
  ◌&&◌, none, some, List, [], ◌∷◌, length, get_or, set, take, length-set, get_or-set, ltb, leb,
  if◌then◌else◌, Bool-cases, arith,
}
use thunity_os.Base.Search.{first_index-some, first_index-none, first_index_at}
use thunity_os.CStrings.{streq, ncopy}
use thunity_os.CStrings.Laws.{IsCString, streq_iff}
use thunity_os.Ramfs.{
  rfs_name_max, Ramfs, no_file, file_at, is_named, ramfs_find, write_loop, bytes_of,
}

-- What holds between two calls: each file's bytes lie in the part of the arena that is taken, its name
-- fits the field, and no two files have one name.
pub record IsValid (fs : Ramfs) : Type 0 where
  pub fits : fs.arena_used ≤ fs.arena_sz
  pub arena : fs.arena_sz ≤ length fs.arena
  pub small : fs.arena_sz < 2 ^ 32
  pub inside :
      (i : ℕ)
      → (file_at fs i).used ≡ true
      → (file_at fs i).off + (file_at fs i).size ≤ fs.arena_used
  pub named :
      (i : ℕ)
      → (file_at fs i).used ≡ true
      → IsCString (file_at fs i).name × (length (file_at fs i).name < rfs_name_max)
  pub apart :
      (i j : ℕ)
      → (file_at fs i).used ≡ true
      → (file_at fs j).used ≡ true
      → (file_at fs i).name ≡ (file_at fs j).name
      → i ≡ j

-- A name that a file can have.
pub record IsName (name : List ℕ) : Type 0 where
  pub chars : IsCString name
  pub some_chars : 0 < length name
  pub short : length name < rfs_name_max

take_all : {A : Type 0} (n : ℕ) (xs : List A) → length xs ≤ n → take n xs ≡ xs
take_all zero [] h = refl
take_all zero (x ∷ xs) h = absurd (omega arith)
take_all (suc n) [] h = refl
take_all (suc n) (x ∷ xs) h = ap (λ t. x ∷ t) (take_all n xs (omega arith))

-- A short name goes into the table whole.
pub ncopy_short : (name : List ℕ) → IsName name → ncopy name rfs_name_max ≡ name
unfolding ncopy
ncopy_short name n = take_all 31 name (omega (arith, n.short))

-- The bytes written to the arena.
pub write_loop_lem :
    (left i off : ℕ) (src arena : List ℕ) (j : ℕ)
    → off + (i + left) ≤ length arena
    → get_or (write_loop left i off src arena) j 0 ≡ (
        if leb (off + i) j && ltb j (off + (i + left))
        then get_or src (j - off) 0
        else get_or arena j 0)
unfolding write_loop
write_loop_lem zero i off src arena j room = ground arith
write_loop_lem (suc left) i off src arena j room = ground (
  arith,
  write_loop_lem left (i + 1) off src (set arena (off + i) (get_or src i 0)) j,
  length-set arena (off + i) (get_or src i 0),
  get_or-set arena (off + i) j (get_or src i 0) 0,
)

pub length-write_loop :
    (left i off : ℕ) (src arena : List ℕ) → length (write_loop left i off src arena) ≡ length arena
unfolding write_loop
length-write_loop zero i off src arena = refl
length-write_loop (suc left) i off src arena =
    length-write_loop left (i + 1) off src (set arena (off + i) (get_or src i 0))
    ∙ length-set arena (off + i) (get_or src i 0)

-- Equal cells are equal contents.
pub bytes_of_ext :
    (a b : List ℕ) (x y n : ℕ)
    → ((k : ℕ) → k < n → get_or a (x + k) 0 ≡ get_or b (y + k) 0)
    → bytes_of a x n ≡ bytes_of b y n
bytes_of_ext a b x y zero h = refl
bytes_of_ext a b x y (suc n) h =
    let first : get_or a x 0 ≡ get_or b y 0 =
      ap (λ k. get_or a k 0) (omega arith)
      ∙ h 0 (omega arith)
      ∙ ap (λ k. get_or b k 0) (omega arith) in
    ap₂ ◌∷◌ first (
      bytes_of_ext a b (x + 1) (y + 1) n (λ k lt.
        ap (λ m. get_or a m 0) (omega arith)
        ∙ h (k + 1) (omega arith)
        ∙ ap (λ m. get_or b m 0) (omega arith)))

-- What the lookup says of the table.
pub find-named :
    (fs : Ramfs) (name : List ℕ) (i : ℕ)
    → IsValid fs
    → IsCString name
    → ramfs_find fs name ≡ some i
    → (i < length fs.files) × ((file_at fs i).used ≡ true) × ((file_at fs i).name ≡ name)
unfolding ramfs_find
find-named fs name i v c e =
    let (lt, named, before) = first_index-some (is_named name) no_file fs.files i e in
    let used : (file_at fs i).used ≡ true = ground (arith, named) in
    let same : streq (file_at fs i).name name ≡ true = ground (arith, named) in
    (lt, used, (streq_iff (file_at fs i).name name (v.named i used).0 c).0 same)

pub missing-named :
    (fs : Ramfs) (name : List ℕ) (j : ℕ)
    → ramfs_find fs name ≡ none
    → j < length fs.files
    → (file_at fs j).used ≡ true
    → IsCString name
    → (file_at fs j).name ≢ name
unfolding ramfs_find
missing-named fs name j e lt used c same =
    let off = first_index-none (is_named name) no_file fs.files e j lt in
    let on : streq (file_at fs j).name name ≡ true =
      (streq_iff (file_at fs j).name name (subst IsCString (sym same) c) c).1 same in
    ground (arith, off, on, used)

-- A used file is the one that its name finds.
pub find_used :
    (fs : Ramfs) (i : ℕ)
    → IsValid fs
    → i < length fs.files
    → (file_at fs i).used ≡ true
    → ramfs_find fs (file_at fs i).name ≡ some i
unfolding ramfs_find
find_used fs i v lt used =
    let name = (file_at fs i).name in
    let c = (v.named i used).0 in
    let here : is_named name (file_at fs i) ≡ true =
      (let same = (streq_iff name name c c).1 refl in ground (arith, same, used)) in
    first_index_at (is_named name) no_file fs.files 0 i (
      lt,
      here,
      λ j h. elim (Bool-cases (is_named name (file_at fs j))) [
        | inr other ↦ other
        | inl same ↦
            let used_j : (file_at fs j).used ≡ true = ground (arith, same) in
            let eq_j : streq (file_at fs j).name name ≡ true = ground (arith, same) in
            let e = (streq_iff (file_at fs j).name name (v.named j used_j).0 c).0 eq_j in
            absurd (omega (arith, v.apart j i used_j used e))
      ],
    )
    ∙ ap some (omega arith)
