-- ===== src/Notes/Examples.antt =====
-- Tests of the notes of kernel/gui/apps.c, on a file system of one file and 8 bytes.
use thunity_os.Base.{◌≡◌, refl, [], ◌∷◌, replicate}
use thunity_os.Base.Search.{first_index}
use thunity_os.CStrings.{streq, ncopy}
use thunity_os.Ramfs.{
  Ramfs, no_file, ramfs_write, ramfs_find, ramfs_alloc_slot, write_loop, put_data,
}
use thunity_os.Notes.{Notes, app_notes_key}

abbrev empty_fs : Ramfs
empty_fs = record {
  files = no_file ∷ [];
  count = 0;
  arena = replicate 8 0;
  arena_sz = 8;
  arena_used = 0;
}

abbrev blank : Notes
blank = record { fs = empty_fs; no_buf = replicate 1024 0; no_len = 0 }

-- Each key takes new bytes of the arena: the fourth one finds no room for its four bytes.
arena_fills :
    (app_notes_key (app_notes_key (app_notes_key (app_notes_key blank 97) 98) 99) 100).fs.arena_used
    ≡ 6
unfolding app_notes_key ramfs_write ramfs_alloc_slot ramfs_find put_data write_loop first_index
    streq ncopy
arena_fills = refl
