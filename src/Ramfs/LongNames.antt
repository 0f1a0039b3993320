-- ===== src/Ramfs/LongNames.antt =====
-- Names that do not fit the field of kernel/fs/ramfs_core.c: the copy is cut to 31 characters, and the
-- lookup compares the whole name.
use thunity_os.Base.{
  ℕ, zero, suc, ◌+◌, ◌≤◌, ◌<◌, ◌≡◌, sym, subst, ap, ◌∙◌, inl, inr, true, Option, none, some, List,
  [], ◌∷◌, length, take, get_or, set, get_or-set, get_or-set_self, length-set, u32, ltb, ◌==◌,
  Bool-cases, Option-cases, arith,
}
use thunity_os.Base.Search.{first_index, first_index-some, first_index_missing}
use thunity_os.CStrings.{streq, ncopy}
use thunity_os.CStrings.Laws.{IsCString, streq_iff}
use thunity_os.Ramfs.{
  rfs_name_max, RFile, Ramfs, no_file, file_at, is_named, ramfs_find, is_free, new_file,
  ramfs_alloc_slot, put_data, ramfs_write, ramfs_read,
}

-- Every stored name fits the field.
abbrev pub ShortNames : Ramfs → Type 0
ShortNames fs =
    (i : ℕ)
    → (file_at fs i).used ≡ true
    → IsCString (file_at fs i).name × (length (file_at fs i).name < rfs_name_max)

find_long :
    (fs : Ramfs) (name : List ℕ)
    → ShortNames fs
    → IsCString name
    → rfs_name_max ≤ length name
    → ramfs_find fs name ≡ none
unfolding ramfs_find
find_long fs name s c long = first_index_missing (is_named name) no_file fs.files 0 (λ j lt.
    elim (Bool-cases (is_named name (file_at fs j))) [
      | inr other ↦ other
      | inl same ↦
          let used : (file_at fs j).used ≡ true = ground (arith, same) in
          let e : streq (file_at fs j).name name ≡ true = ground (arith, same) in
          let whole = (streq_iff (file_at fs j).name name (s j used).0 c).0 e in
          absurd (omega (arith, (s j used).1, ap (λ (t : List ℕ). length t) whole))
    ])

take-short : (n : ℕ) (xs : List ℕ) → IsCString xs → IsCString (take n xs) × (length (take n xs) ≤ n)
take-short zero xs c = (tt, omega arith)
take-short (suc n) [] c = (tt, omega arith)
take-short (suc n) (x ∷ xs) c = let (c', l) = take-short n xs c.1 in ((c.0, c'), omega arith)

ncopy-short :
    (name : List ℕ)
    → IsCString name
    → IsCString (ncopy name rfs_name_max) × (length (ncopy name rfs_name_max) < rfs_name_max)
unfolding ncopy
ncopy-short name c = let (c', l) = take-short 31 name c in (c', omega arith)

-- An entry whose name is short may be put in.
set-ShortNames :
    (fs : Ramfs) (i : ℕ) (f : RFile)
    → ShortNames fs
    → i < length fs.files
    → IsCString f.name × (length f.name < rfs_name_max)
    → ShortNames (record fs { files = set fs.files i f })
set-ShortNames fs i f s lt h j used = elim (Bool-cases (i == j)) [
  | inl here ↦
      let e : get_or (set fs.files i f) j no_file ≡ f =
        ground (arith, get_or-set fs.files i j f no_file lt) in
      subst (λ (g : RFile). IsCString g.name × (length g.name < rfs_name_max)) (sym e) h
  | inr there ↦
      let e : get_or (set fs.files i f) j no_file ≡ file_at fs j =
        ground (arith, get_or-set fs.files i j f no_file lt) in
      subst (λ (g : RFile). IsCString g.name × (length g.name < rfs_name_max)) (sym e)
        (s j (ap (λ (g : RFile). g.used) (sym e) ∙ used))
]

abbrev state_of : Option ℕ × Ramfs → Ramfs
state_of r = r.1

module _ (fs : Ramfs) (name : List ℕ) (s : ShortNames fs) (c : IsCString name)
    (long : rfs_name_max ≤ length name) where
  abbrev SlotLong : Option ℕ × Ramfs → Type 0
  SlotLong (none, q) = ShortNames q
  SlotLong (some i, q) =
      ShortNames q
      × (i < length q.files)
      × IsCString (file_at q i).name
      × (length (file_at q i).name < rfs_name_max)

  slot_long : SlotLong (ramfs_alloc_slot fs name)
  unfolding ramfs_alloc_slot
  slot_long = elim (Option-cases (first_index is_free 0 fs.files)) [
    | inl full ↦ rw (find_long fs name s c long, full, ramfs_alloc_slot) s
    | inr (i, found) ↦
        let (lt, free, before) = first_index-some is_free no_file fs.files i found in
        let (chars, short) = ncopy-short name c in
        let e : get_or (set fs.files i (new_file name)) i no_file ≡ new_file name =
          get_or-set_self fs.files i (new_file name) no_file lt in
        rw (find_long fs name s c long, found, ramfs_alloc_slot)
          (
            set-ShortNames fs i (new_file name) s lt (chars, short),
            omega (arith, length-set fs.files i (new_file name)),
            subst (λ (f : RFile). IsCString f.name) (sym e) chars,
            subst (λ (f : RFile). length f.name < rfs_name_max) (sym e) short,
          )
  ]

  written_long :
      (src : List ℕ) (len : ℕ) (r : Option ℕ × Ramfs)
      → SlotLong r
      → ShortNames (
          state_of
            (elim r.0 [ none ↦ (none, r.1) | some idx ↦ (some len, put_data r.1 idx src len) ]))
  unfolding put_data
  written_long src len (none, q) h = h
  written_long src len (some i, q) (short, lt, chars, fits) =
      set-ShortNames q i (record (file_at q i) { off = q.arena_used; size = len }) short lt
        (chars, fits)

ramfs_write-ShortNames :
    (fs : Ramfs) (name src : List ℕ) (len : ℕ)
    → ShortNames fs
    → IsCString name
    → rfs_name_max ≤ length name
    → ShortNames (ramfs_write fs name src len).1
unfolding ramfs_write
ramfs_write-ShortNames fs [] src len s c long = s
ramfs_write-ShortNames fs (x ∷ xs) src len s c long =
    elim (Bool-cases (ltb fs.arena_sz (u32 (fs.arena_used + len)))) [
      | inl full ↦ rw full s
      | inr room ↦ rw room (
          written_long fs (x ∷ xs) s c long src len (ramfs_alloc_slot fs (x ∷ xs))
            (slot_long fs (x ∷ xs) s c long))
    ]

read_missing : (fs : Ramfs) (name : List ℕ) → ramfs_find fs name ≡ none → ramfs_read fs name ≡ none
unfolding ramfs_read
read_missing fs name e = rw (e, ramfs_read)

-- Where every stored name fits its field, a name of 32 characters or more is not found after
-- `ramfs_write` was called with it, whatever that call returned.
pub ramfs_read-write_long :
    (fs : Ramfs) (name src : List ℕ) (len : ℕ)
    → ShortNames fs
    → IsCString name
    → rfs_name_max ≤ length name
    → ramfs_read (ramfs_write fs name src len).1 name ≡ none
ramfs_read-write_long fs name src len s c long =
    let q = (ramfs_write fs name src len).1 in
    read_missing q name (find_long q name (ramfs_write-ShortNames fs name src len s c long) c long)
