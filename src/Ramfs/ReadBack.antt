-- ===== src/Ramfs/ReadBack.antt =====
-- Reading from the file system of kernel/fs/ramfs_core.c after a write.
use thunity_os.Base.{
  ℕ, ◌+◌, ◌-◌, ◌^◌, ◌<◌, ◌≡◌, ◌≢◌, sym, ap, ◌∙◌, inl, inr, true, ◌&&◌, Option, none, some, List,
  get_or, ltb, leb, if◌then◌else◌, Option-cases, arith,
}
use thunity_os.CStrings.Laws.{IsCString}
use thunity_os.Ramfs.{RFile, Ramfs, file_at, ramfs_find, ramfs_write, bytes_of, ramfs_read}
use thunity_os.Ramfs.Files.{
  IsValid, IsName, write_loop_lem, bytes_of_ext, find-named, missing-named, find_used,
}
use thunity_os.Ramfs.Write.{Wrote, Wrote-IsValid, WriteOk, ramfs_write-WriteOk, used-lt}

read_of_find :
    (fs : Ramfs) (name : List ℕ) (r : Option ℕ)
    → ramfs_find fs name ≡ r
    → ramfs_read fs name ≡ elim r [
      | none ↦ none
      | some i ↦ some (bytes_of fs.arena (file_at fs i).off (file_at fs i).size)
    ]
unfolding ramfs_read
read_of_find fs name r e = rw (e, ramfs_read)

module _ (fs q : Ramfs) (name src : List ℕ) (len idx : ℕ) (v : IsValid fs) (n : IsName name)
    (w : Wrote fs q name src len idx) where
  -- The cells of the arena after the write.
  arena-Wrote :
      (j : ℕ)
      → get_or q.arena j 0 ≡ (
          if leb fs.arena_used j && ltb j (fs.arena_used + len)
          then get_or src (j - fs.arena_used) 0
          else get_or fs.arena j 0)
  arena-Wrote j =
      ap (λ a. get_or a j 0) w.arena
      ∙ write_loop_lem len 0 fs.arena_used src fs.arena j (omega (arith, w.room, v.arena))
      ∙ ground arith

  find_written : ramfs_find q name ≡ some idx
  find_written =
      let name_idx : (file_at q idx).name ≡ name = ap (λ (f : RFile). f.name) w.mine in
      ap (ramfs_find q) (sym name_idx)
      ∙ find_used q idx (Wrote-IsValid fs q name src len idx v n w) w.lt
          (ap (λ (f : RFile). f.used) w.mine)

  read_written : ramfs_read q name ≡ some (bytes_of src 0 len)
  read_written =
      read_of_find q name (some idx) find_written
      ∙ ap (λ (f : RFile). some (bytes_of q.arena f.off f.size)) w.mine
      ∙ ap some (
          bytes_of_ext q.arena src fs.arena_used 0 len
            (λ k lt. ground (arith, arena-Wrote (fs.arena_used + k))))

  -- Another name finds what it found.
  find_other :
      (other : List ℕ) → IsCString other → other ≢ name → ramfs_find q other ≡ ramfs_find fs other
  find_other other c ne = elim (Option-cases (ramfs_find fs other)) [
    | inr (j, e) ↦
        let (lt, used, same) = find-named fs other j v c e in
        let apart : j ≢ idx = λ at. ne (
          sym same
          ∙ ap (λ k. (file_at fs k).name) at
          ∙ w.own (ap (λ k. (file_at fs k).used) (sym at) ∙ used)) in
        let stays = w.others j apart in
        let used' : (file_at q j).used ≡ true = ap (λ (f : RFile). f.used) stays ∙ used in
        ap (ramfs_find q) (sym same ∙ ap (λ (f : RFile). f.name) (sym stays))
        ∙ find_used q j (Wrote-IsValid fs q name src len idx v n w) (used-lt q j used') used'
        ∙ sym e
    | inl missing ↦ elim (Option-cases (ramfs_find q other)) [
      | inl missing' ↦ missing' ∙ sym missing
      | inr (j, e) ↦
          let (lt, used, same) =
            find-named q other j (Wrote-IsValid fs q name src len idx v n w) c e in
          let apart : j ≢ idx = λ at.
            ne (sym same ∙ ap (λ k. (file_at q k).name) at ∙ ap (λ (f : RFile). f.name) w.mine) in
          let stays = sym (w.others j apart) in
          let used' : (file_at fs j).used ≡ true = ap (λ (f : RFile). f.used) stays ∙ used in
          absurd (
            missing-named fs other j missing (used-lt fs j used') used' c
              (ap (λ (f : RFile). f.name) stays ∙ same))
    ]
  ]

  read_other :
      (other : List ℕ) → IsCString other → other ≢ name → ramfs_read q other ≡ ramfs_read fs other
  read_other other c ne = elim (Option-cases (ramfs_find fs other)) [
    | inl missing ↦
        read_of_find q other none (find_other other c ne ∙ missing)
        ∙ sym (read_of_find fs other none missing)
    | inr (j, e) ↦
        let (lt, used, same) = find-named fs other j v c e in
        let apart : j ≢ idx = λ at. ne (
          sym same
          ∙ ap (λ k. (file_at fs k).name) at
          ∙ w.own (ap (λ k. (file_at fs k).used) (sym at) ∙ used)) in
        read_of_find q other (some j) (find_other other c ne ∙ e)
        ∙ ap (λ (f : RFile). some (bytes_of q.arena f.off f.size)) (w.others j apart)
        ∙ ap some (
            bytes_of_ext q.arena fs.arena (file_at fs j).off (file_at fs j).off (file_at fs j).size
              (λ k lt'. ground (arith, arena-Wrote ((file_at fs j).off + k), v.inside j used)))
        ∙ sym (read_of_find fs other (some j) e)
  ]

-- What a successful write means to a reader.
abbrev pub ReadsBack : Ramfs → List ℕ → List ℕ → ℕ → Option ℕ × Ramfs → Type 0
ReadsBack fs name src len (none, q) = q ≡ fs
ReadsBack fs name src len (some n, q) =
    (n ≡ len)
    × IsValid q
    × (ramfs_read q name ≡ some (bytes_of src 0 len))
    × ((other : List ℕ) → IsCString other → other ≢ name → ramfs_read q other ≡ ramfs_read fs other)

reads_back :
    (fs : Ramfs) (name src : List ℕ) (len : ℕ) (r : Option ℕ × Ramfs)
    → IsValid fs
    → IsName name
    → WriteOk fs name src len r
    → ReadsBack fs name src len r
reads_back fs name src len (none, q) v n w = w
reads_back fs name src len (some k, q) v n (e, (idx, w)) = (
  e,
  Wrote-IsValid fs q name src len idx v n w,
  read_written fs q name src len idx v n w,
  read_other fs q name src len idx v n w,
)

-- On a valid file system, a write under a name of 1 to 31 characters, of a length that does not wrap,
-- either fails and changes nothing, or returns the length and keeps the file system valid: the name then
-- reads as the data, and every other name as before.
pub ramfs_read-write :
    (fs : Ramfs) (name src : List ℕ) (len : ℕ)
    → IsValid fs
    → IsName name
    → fs.arena_used + len < 2 ^ 32
    → ReadsBack fs name src len (ramfs_write fs name src len)
ramfs_read-write fs name src len v n small =
    reads_back fs name src len (ramfs_write fs name src len) v n
      (ramfs_write-WriteOk fs name src len v n small)
