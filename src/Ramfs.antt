-- ===== src/Ramfs.antt =====
-- kernel/fs/ramfs_core.c: the RAM file system, a table of entries and an arena of bytes that writes take
-- from the front. A name is its characters before the terminating 0; -1 and NULL are `none`. The text
-- behind the pointer that `ramfs_read` returns is read from the arena of the state.
pub mod Files
pub mod Write
pub mod ReadBack
pub mod LongNames
mod Examples
use thunity_os.Base.{
  ℕ, zero, suc, ◌+◌, ◌-◌, Bool, true, false, not, ◌&&◌, ◌||◌, Option, none, some, List, [], ◌∷◌,
  map, length, get_or, set, u32, ltb, leb, ◌==◌, if◌then◌else◌,
}
use thunity_os.Base.Search.{first_index}
use thunity_os.CStrings.{streq, ncopy}

abbrev pub rfs_name_max : ℕ
rfs_name_max = 32

pub record RFile : Type 0 where
  pub name : List ℕ
  pub off : ℕ
  pub size : ℕ
  pub used : Bool

pub record Ramfs : Type 0 where
  pub files : List RFile
  pub count : ℕ
  pub arena : List ℕ
  pub arena_sz : ℕ
  pub arena_used : ℕ

-- A slot out of range, which no loop reaches.
abbrev pub no_file : RFile
no_file = record { name = []; off = 0; size = 0; used = false }

abbrev pub file_at : Ramfs → ℕ → RFile
file_at fs i = get_or fs.files i no_file

unfoldable pub ramfs_init : List RFile → List ℕ → ℕ → Ramfs
ramfs_init files arena arena_sz = record {
  files = map (λ (f : RFile). record f { used = false; name = [] }) files;
  count = 0;
  arena = arena;
  arena_sz = arena_sz;
  arena_used = 0;
}

abbrev pub is_named : List ℕ → RFile → Bool
is_named name f = f.used && streq f.name name

unfoldable pub ramfs_find : Ramfs → List ℕ → Option ℕ
ramfs_find fs name = first_index (is_named name) 0 fs.files

abbrev pub is_free : RFile → Bool
is_free f = not f.used

-- The entry that a new file gets, its name cut to the field.
abbrev pub new_file : List ℕ → RFile
new_file name = record { name = ncopy name rfs_name_max; off = 0; size = 0; used = true }

unfoldable pub ramfs_alloc_slot : Ramfs → List ℕ → Option ℕ × Ramfs
ramfs_alloc_slot fs name = elim (ramfs_find fs name) [
  | some idx ↦ (some idx, fs)
  | none ↦ elim (first_index is_free 0 fs.files) [
    | none ↦ (none, fs)
    | some i ↦ (some i, record fs { files = set fs.files i (new_file name); count = fs.count + 1 })
  ]
]

-- The loop of `ramfs_write` that copies the data, at index `i` with `left` rounds left.
unfoldable pub write_loop : ℕ → ℕ → ℕ → List ℕ → List ℕ → List ℕ
write_loop zero i off src arena = arena
write_loop (suc left) i off src arena =
    write_loop left (i + 1) off src (set arena (off + i) (get_or src i 0))

-- What a write does once it has its slot.
unfoldable pub put_data : Ramfs → ℕ → List ℕ → ℕ → Ramfs
put_data fs idx src len = record fs {
  files = set fs.files idx (record (file_at fs idx) { off = fs.arena_used; size = len });
  arena = write_loop len 0 fs.arena_used src fs.arena;
  arena_used = u32 (fs.arena_used + len);
}

-- The number of bytes written, or `none`. The code returns it as an int, which holds a length below 2 ^ 31.
unfoldable pub ramfs_write : Ramfs → List ℕ → List ℕ → ℕ → Option ℕ × Ramfs
ramfs_write fs [] src len = (none, fs)
ramfs_write fs (c ∷ cs) src len =
    if ltb fs.arena_sz (u32 (fs.arena_used + len))
    then (none, fs)
    else (let (slot, fs') = ramfs_alloc_slot fs (c ∷ cs) in
        elim slot [ none ↦ (none, fs') | some idx ↦ (some len, put_data fs' idx src len) ])

-- The bytes `arena[off], …` of a file.
abbrev pub bytes_of : List ℕ → ℕ → ℕ → List ℕ
bytes_of arena off zero = []
bytes_of arena off (suc n) = get_or arena off 0 ∷ bytes_of arena (off + 1) n

-- The content behind the result of `ramfs_read`, of the length in `*out_len`.
unfoldable pub ramfs_read : Ramfs → List ℕ → Option (List ℕ)
ramfs_read fs name = elim (ramfs_find fs name) [
  | none ↦ none
  | some idx ↦ some (bytes_of fs.arena (file_at fs idx).off (file_at fs idx).size)
]

-- `ramfs_name`; a negative index has no counterpart here.
unfoldable pub ramfs_name : Ramfs → ℕ → Option (List ℕ)
ramfs_name fs i =
    if leb (length fs.files) i || not (file_at fs i).used then none else some (file_at fs i).name

unfoldable pub ramfs_size : Ramfs → ℕ → ℕ
ramfs_size fs i =
    if leb (length fs.files) i || not (file_at fs i).used then 0 else (file_at fs i).size
