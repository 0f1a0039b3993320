-- ===== src/Ramfs/Write.antt =====
-- `ramfs_write` of kernel/fs/ramfs_core.c, and reading back.
use thunity_os.Base.{
  ℕ, zero, suc, ◌+◌, ◌^◌, ◌≤◌, ◌<◌, ◌≡◌, ◌≢◌, refl, sym, subst, ap, ap₂, ◌∙◌, inl, inr, true,
  Option, none, some, List, [], ◌∷◌, length, get_or, set, length-set, get_or-set_self,
  get_or-set_ne, u32, ltb, ◌==◌, Bool-cases, Option-cases, ==→eq, arith,
}
use thunity_os.Base.Search.{first_index, first_index-some}
use thunity_os.CStrings.Laws.{IsCString}
use thunity_os.Ramfs.{
  rfs_name_max, RFile, Ramfs, no_file, file_at, ramfs_find, is_free, new_file, ramfs_alloc_slot,
  write_loop, put_data, ramfs_write,
}
use thunity_os.Ramfs.Files.{
  IsValid, IsName, ncopy_short, length-write_loop, find-named, missing-named,
}

-- The slot that a name gets: its own, or a free one that now holds an empty file of that name.
record Slotted (fs fs' : Ramfs) (name : List ℕ) (idx : ℕ) : Type 0 where
  lt : idx < length fs.files
  same_length : length fs'.files ≡ length fs.files
  used : (file_at fs' idx).used ≡ true
  name_of : (file_at fs' idx).name ≡ name
  others : (j : ℕ) → j ≢ idx → file_at fs' j ≡ file_at fs j
  only : (j : ℕ) → (file_at fs j).used ≡ true → (file_at fs j).name ≡ name → j ≡ idx
  own : (file_at fs idx).used ≡ true → (file_at fs idx).name ≡ name
  arena : fs'.arena ≡ fs.arena
  arena_sz : fs'.arena_sz ≡ fs.arena_sz
  arena_used : fs'.arena_used ≡ fs.arena_used

-- A used file stands in the table.
pub used-lt : (fs : Ramfs) (j : ℕ) → (file_at fs j).used ≡ true → j < length fs.files
used-lt fs j e = go fs.files j e
  where
    go : (xs : List RFile) (j : ℕ) → (get_or xs j no_file).used ≡ true → j < length xs
    go [] j e = cc
    go (x ∷ xs) zero e = omega arith
    go (x ∷ xs) (suc j) e = omega (arith, go xs j e)

abbrev SlotOk : Ramfs → List ℕ → Option ℕ × Ramfs → Type 0
SlotOk fs name (none, fs') = fs' ≡ fs
SlotOk fs name (some idx, fs') = Slotted fs fs' name idx

ramfs_alloc_slot-SlotOk :
    (fs : Ramfs) (name : List ℕ)
    → IsValid fs
    → IsName name
    → SlotOk fs name (ramfs_alloc_slot fs name)
unfolding ramfs_alloc_slot
ramfs_alloc_slot-SlotOk fs name v n = elim (Option-cases (ramfs_find fs name)) [
  | inr (i, e) ↦
      let (lt, used, same) = find-named fs name i v n.chars e in
      rw (e, ramfs_alloc_slot)
        (record {
          lt = lt;
          same_length = refl;
          used = used;
          name_of = same;
          others = λ j ne. refl;
          only = λ j used_j same_j. v.apart j i used_j used (same_j ∙ sym same);
          own = λ _. same;
          arena = refl;
          arena_sz = refl;
          arena_used = refl;
        })
  | inl missing ↦ elim (Option-cases (first_index is_free 0 fs.files)) [
    | inl full ↦ rw (missing, full, ramfs_alloc_slot) refl
    | inr (i, e) ↦
        let (lt, free, before) = first_index-some is_free no_file fs.files i e in
        let mine = get_or-set_self fs.files i (new_file name) no_file lt in
        rw (missing, e, ramfs_alloc_slot)
          (record {
            lt = lt;
            same_length = length-set fs.files i (new_file name);
            used = ap (λ (f : RFile). f.used) mine;
            name_of = ap (λ (f : RFile). f.name) mine ∙ ncopy_short name n;
            others = λ j ne. get_or-set_ne fs.files i j (new_file name) no_file (λ s. ne (sym s));
            only = λ j used_j same_j.
                absurd
                  (missing-named fs name j missing (used-lt fs j used_j) used_j n.chars same_j);
            own = λ used. ground (arith, free, used);
            arena = refl;
            arena_sz = refl;
            arena_used = refl;
          })
  ]
]

-- What a write that succeeds has done.
pub record Wrote (fs q : Ramfs) (name src : List ℕ) (len idx : ℕ) : Type 0 where
  pub lt : idx < length q.files
  pub room : fs.arena_used + len ≤ fs.arena_sz
  pub mine : file_at q idx ≡ record { name = name; off = fs.arena_used; size = len; used = true }
  pub others : (j : ℕ) → j ≢ idx → file_at q j ≡ file_at fs j
  pub only : (j : ℕ) → (file_at fs j).used ≡ true → (file_at fs j).name ≡ name → j ≡ idx
  pub own : (file_at fs idx).used ≡ true → (file_at fs idx).name ≡ name
  pub arena : q.arena ≡ write_loop len 0 fs.arena_used src fs.arena
  pub arena_sz : q.arena_sz ≡ fs.arena_sz
  pub arena_used : q.arena_used ≡ fs.arena_used + len

put_data-Wrote :
    (fs fs' : Ramfs) (name src : List ℕ) (len idx : ℕ)
    → Slotted fs fs' name idx
    → fs.arena_used + len < 2 ^ 32
    → fs.arena_used + len ≤ fs.arena_sz
    → Wrote fs (put_data fs' idx src len) name src len idx
unfolding put_data
put_data-Wrote fs fs' name src len idx s small room =
    let f = record (file_at fs' idx) { off = fs'.arena_used; size = len } in
    let lt' : idx < length fs'.files = omega (arith, s.lt, s.same_length) in
    let put : get_or (set fs'.files idx f) idx no_file ≡ f =
      get_or-set_self fs'.files idx f no_file lt' in
    record {
      lt = omega (arith, length-set fs'.files idx f);
      room = room;
      mine = ground (arith, put, s.name_of, s.used, s.arena_used);
      others = λ j ne. get_or-set_ne fs'.files idx j f no_file (λ e. ne (sym e)) ∙ s.others j ne;
      only = s.only;
      own = s.own;
      arena = ap₂ (λ o a. write_loop len 0 o src a) s.arena_used s.arena;
      arena_sz = s.arena_sz;
      arena_used = omega (arith, s.arena_used);
    }

-- What a call of `ramfs_write` may do.
abbrev pub WriteOk : Ramfs → List ℕ → List ℕ → ℕ → Option ℕ × Ramfs → Type 0
WriteOk fs name src len (none, q) = q ≡ fs
WriteOk fs name src len (some n, q) = (n ≡ len) × ((idx : ℕ) × Wrote fs q name src len idx)

finish :
    (fs : Ramfs) (name src : List ℕ) (len : ℕ) (r : Option ℕ × Ramfs)
    → SlotOk fs name r
    → fs.arena_used + len < 2 ^ 32
    → fs.arena_used + len ≤ fs.arena_sz
    → WriteOk fs name src len
        (elim r.0 [ none ↦ (none, r.1) | some idx ↦ (some len, put_data r.1 idx src len) ])
finish fs name src len (none, fs') s small room = s
finish fs name src len (some idx, fs') s small room =
    (refl, (idx, put_data-Wrote fs fs' name src len idx s small room))

-- A write of a file that can have its name either fails and changes nothing, or stores the file: the
-- table has it under its name with the data's length and place, every other entry stays, and the bytes
-- go to the part of the arena that was free.
pub ramfs_write-WriteOk :
    (fs : Ramfs) (name src : List ℕ) (len : ℕ)
    → IsValid fs
    → IsName name
    → fs.arena_used + len < 2 ^ 32
    → WriteOk fs name src len (ramfs_write fs name src len)
unfolding ramfs_write
ramfs_write-WriteOk fs [] src len v n small = refl
ramfs_write-WriteOk fs (c ∷ cs) src len v n small =
    elim (Bool-cases (ltb fs.arena_sz (u32 (fs.arena_used + len)))) [
      | inl full ↦ rw full refl
      | inr room ↦ rw room (
          finish fs (c ∷ cs) src len (ramfs_alloc_slot fs (c ∷ cs))
            (ramfs_alloc_slot-SlotOk fs (c ∷ cs) v n) small (ground arith))
    ]

-- Another entry that the table names like the written file is the written file.
pub Wrote-only :
    (fs q : Ramfs) (name src : List ℕ) (len idx j : ℕ)
    → Wrote fs q name src len idx
    → (file_at q j).used ≡ true
    → (file_at q j).name ≡ name
    → j ≡ idx
Wrote-only fs q name src len idx j w used same = elim (Bool-cases (j == idx)) [
  | inl here ↦ ==→eq j idx here
  | inr there ↦
      let e = w.others j (λ e. ground (arith, there)) in
      w.only j (ap (λ (f : RFile). f.used) (sym e) ∙ used)
        (ap (λ (f : RFile). f.name) (sym e) ∙ same)
]

-- A write that succeeds keeps the file system valid.
pub Wrote-IsValid :
    (fs q : Ramfs) (name src : List ℕ) (len idx : ℕ)
    → IsValid fs
    → IsName name
    → Wrote fs q name src len idx
    → IsValid q
Wrote-IsValid fs q name src len idx v n w = record {
  fits = omega (arith, w.room, w.arena_sz, w.arena_used);
  arena = omega (
    arith,
    v.arena,
    w.arena_sz,
    ap (λ (a : List ℕ). length a) w.arena,
    length-write_loop len 0 fs.arena_used src fs.arena,
  );
  small = omega (arith, v.small, w.arena_sz);
  inside = λ i used. elim (Bool-cases (i == idx)) [
    | inl here ↦ ground (arith, w.mine, w.arena_used)
    | inr there ↦ ground (arith, w.others i (λ e. ground (arith, there)), v.inside i, w.arena_used)
  ];
  named = λ i used. elim (Bool-cases (i == idx)) [
    | inl here ↦
        subst (λ (f : RFile). IsCString f.name × (length f.name < rfs_name_max))
          (sym w.mine ∙ ap (file_at q) (sym (==→eq i idx here))) (n.chars, n.short)
    | inr there ↦
        let same = w.others i (λ e. ground (arith, there)) in
        subst (λ (f : RFile). IsCString f.name × (length f.name < rfs_name_max)) (sym same)
          (v.named i (ap (λ (f : RFile). f.used) (sym same) ∙ used))
  ];
  apart = λ i j used_i used_j same.
      let name_idx : (file_at q idx).name ≡ name = ap (λ (f : RFile). f.name) w.mine in
      elim (Bool-cases (i == idx)) [
        | inl i_here ↦
            let e = ==→eq i idx i_here in
            let j_name : (file_at q j).name ≡ name =
              sym same ∙ ap (λ k. (file_at q k).name) e ∙ name_idx in
            e ∙ sym (Wrote-only fs q name src len idx j w used_j j_name)
        | inr i_there ↦ elim (Bool-cases (j == idx)) [
          | inl j_here ↦
              let e = ==→eq j idx j_here in
              let i_name : (file_at q i).name ≡ name =
                same ∙ ap (λ k. (file_at q k).name) e ∙ name_idx in
              Wrote-only fs q name src len idx i w used_i i_name ∙ sym e
          | inr j_there ↦
              let ei = w.others i (λ e. ground (arith, i_there)) in
              let ej = w.others j (λ e. ground (arith, j_there)) in
              v.apart i j (ap (λ (f : RFile). f.used) (sym ei) ∙ used_i)
                (ap (λ (f : RFile). f.used) (sym ej) ∙ used_j)
                (ap (λ (f : RFile). f.name) (sym ei) ∙ same ∙ ap (λ (f : RFile). f.name) ej)
        ]
      ];
}
