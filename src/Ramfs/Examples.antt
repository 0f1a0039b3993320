-- ===== src/Ramfs/Examples.antt =====
-- Tests of the file system of kernel/fs/ramfs_core.c: two entries and an arena of eight bytes.
use thunity_os.Base.{
  ℕ, zero, suc, ◌≡◌, refl, true, some, none, List, [], ◌∷◌, replicate, length-replicate, arith,
}
use thunity_os.Base.Search.{first_index}
use thunity_os.CStrings.{codes, streq, ncopy}
use thunity_os.CStrings.Laws.{IsCString}
use thunity_os.Ramfs.{
  Ramfs, no_file, file_at, ramfs_init, ramfs_find, ramfs_alloc_slot, write_loop, put_data,
  ramfs_write, ramfs_read,
}
use thunity_os.Ramfs.Files.{IsValid, IsName}
use thunity_os.Ramfs.ReadBack.{ReadsBack, ramfs_read-write}
use thunity_os.Ramfs.LongNames.{ramfs_read-write_long}

abbrev eight : List ℕ
eight = replicate 8 0

abbrev empty_fs : Ramfs
empty_fs = ramfs_init (no_file ∷ no_file ∷ []) eight 8

unused_at : (i : ℕ) → (file_at empty_fs i).used ≡ true → ⊥
unfolding ramfs_init
unused_at zero e = cc
unused_at (suc zero) e = cc
unused_at (suc (suc i)) e = cc

empty_fs-IsValid : IsValid empty_fs
unfolding ramfs_init
empty_fs-IsValid = record {
  fits = omega arith;
  arena = omega arith;
  small = omega arith;
  inside = λ i e. absurd (unused_at i e);
  named = λ i e. absurd (unused_at i e);
  apart = λ i j e e' same. absurd (unused_at i e);
}

motd-IsName : IsName (codes "motd")
motd-IsName = record {
  chars = (
    (λ e. omega (arith, e)),
    ((λ e. omega (arith, e)), ((λ e. omega (arith, e)), ((λ e. omega (arith, e)), tt))),
  );
  some_chars = omega arith;
  short = omega arith;
}

writes_three :
    ramfs_read (ramfs_write empty_fs (codes "motd") (7 ∷ 8 ∷ 9 ∷ []) 3).1 (codes "motd")
    ≡ some (7 ∷ 8 ∷ 9 ∷ [])
unfolding ramfs_init ramfs_read ramfs_write ramfs_alloc_slot ramfs_find put_data write_loop
    first_index streq ncopy
writes_three = refl

nothing_used : empty_fs.arena_used ≡ 0
unfolding ramfs_init
nothing_used = refl

ramfs_read-write_example :
    ReadsBack empty_fs
      (codes "motd")
      (7 ∷ 8 ∷ 9 ∷ [])
      3
      (ramfs_write empty_fs (codes "motd") (7 ∷ 8 ∷ 9 ∷ []) 3)
ramfs_read-write_example =
    ramfs_read-write empty_fs (codes "motd") (7 ∷ 8 ∷ 9 ∷ []) 3 empty_fs-IsValid motd-IsName
      (omega (arith, nothing_used))

letters : (n : ℕ) → IsCString (replicate n 97)
letters zero = tt
letters (suc n) = ((λ e. omega (arith, e)), letters n)

ramfs_read-write_long_example :
    ramfs_read (ramfs_write empty_fs (replicate 40 97) (7 ∷ []) 1).1 (replicate 40 97) ≡ none
ramfs_read-write_long_example =
    ramfs_read-write_long empty_fs (replicate 40 97) (7 ∷ []) 1 (λ i e. absurd (unused_at i e))
      (letters 40) (omega (arith, length-replicate {A = ℕ} 40 97))
