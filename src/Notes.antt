-- ===== src/Notes.antt =====
-- kernel/fs/fs.c, the kernel's file system, and the notes of kernel/gui/apps.c, which are saved to it at each
-- key. The drawing is left out. A character is its code, and from 128 on it is negative.
pub mod Saved
mod Examples
use thunity_os.Base.{
  ℕ, zero, suc, ◌+◌, ◌-◌, ◌*◌, Bool, true, false, ◌&&◌, ◌||◌, List, [], ◌∷◌, ◌++◌, length,
  replicate, set, leb, ltb, ◌==◌, if◌then◌else◌, Option, none, some,
}
use thunity_os.CStrings.{codes}
use thunity_os.Ramfs.{Ramfs, no_file, ramfs_init, ramfs_write, ramfs_read}

abbrev pub kfs_max_files : ℕ
kfs_max_files = 32

abbrev pub kfs_arena : ℕ
kfs_arena = 64 * 1024

abbrev pub welcome : List ℕ
welcome =
    codes "Welcome to the THUOS RAM filesystem.\n"
    ++ codes "These are real files living in kernel memory.\n"
    ++ codes "Try:  ls   |   cat readme   |   write notes hello there\n"

abbrev pub readme : List ℕ
readme =
    codes "THUOS local-first ramfs (milestone 0.10).\n"
    ++ codes "Host-tested core + boot-verified in QEMU.\n"
    ++ codes "Files are in-memory for now; persistence comes later.\n"

-- Over the bytes that the arena has at the start.
unfoldable pub kfs_init : List ℕ → Ramfs
kfs_init arena =
    let empty = ramfs_init (replicate kfs_max_files no_file) arena kfs_arena in
    let welcomed = (ramfs_write empty (codes "welcome.txt") welcome (length welcome)).1 in
    (ramfs_write welcomed (codes "readme") readme (length readme)).1

pub record Notes : Type 0 where
  pub fs : Ramfs
  pub no_buf : List ℕ
  pub no_len : ℕ

-- The size of `no_buf`, less the terminating 0.
abbrev pub no_room : ℕ
no_room = 1023

abbrev pub notes_name : List ℕ
notes_name = codes "notes.txt"

-- The rest of the file `d` goes to the buffer from `len` on.
unfoldable pub load_loop : List ℕ → List ℕ → ℕ → List ℕ × ℕ
load_loop [] buf len = (buf, len)
load_loop (c ∷ d) buf len =
    let rest = load_loop d (set buf len c) (len + 1) in if ltb len no_room then rest else (buf, len)

-- The terminating 0 of `notes_render`.
abbrev pub ended : Notes → Notes
ended s = record s { no_buf = set s.no_buf s.no_len 0 }

-- `app_notes_open` with what the file system answers.
abbrev pub opened : Notes → Option (List ℕ) → Notes
opened s none = ended (record s { no_len = 0 })
opened s (some d) =
    let loaded = load_loop d s.no_buf 0 in ended (record s { no_buf = loaded.0; no_len = loaded.1 })

unfoldable pub app_notes_open : Notes → Notes
app_notes_open s = opened s (ramfs_read s.fs notes_name)

-- The buffer after a key that it takes.
abbrev pub edited : Notes → ℕ → Notes
edited s c =
    if c == 8
    then if ltb 0 s.no_len then record s { no_len = s.no_len - 1 } else s
    else if ltb s.no_len no_room
    then record s { no_buf = set s.no_buf s.no_len c; no_len = s.no_len + 1 }
    else s

-- The keys that the notes take.
abbrev pub is_taken : ℕ → Bool
is_taken c = (c == 8) || (c == 10) || (leb 32 c && ltb c 128)

unfoldable pub app_notes_key : Notes → ℕ → Notes
app_notes_key s c =
    let e = edited s c in
    if is_taken c
    then ended (record e { fs = (ramfs_write e.fs notes_name e.no_buf e.no_len).1 })
    else s
