-- ===== src/Pmm/Reserve.antt =====
-- `reserve_range` of kernel/mm/pmm.c: the state's invariant, and what a reservation does to each frame
-- and to the counts.
use thunity_os.Base.{
  ℕ, zero, suc, ◌+◌, ◌-◌, ◌*◌, ◌/◌, ◌^◌, ◌≤◌, ◌<◌, ◌≡◌, refl, ◌∙◌, inl, inr, Bool, true, false,
  ◌&&◌, ◌||◌, List, [], ◌∷◌, ◌++◌, length, ltb, leb, if◌then◌else◌, Bool-cases, ltb→lt, lt→ltb,
  arith,
}
use thunity_os.FrameBitmap.{fb_test, fb_mark_used}
use thunity_os.FrameBitmap.Marks.{
  IsBytes, fb_test-mark_used, fb_mark_used-IsBytes, length-fb_mark_used,
}
use thunity_os.FrameBitmap.Alloc.{free_in, free_in_used}
use thunity_os.Pmm.{
  Pmm, Prot, page_size, max_frames, max_prot, reserve_frame, reserve_loop, record_range, end_frame,
  reserve_range,
}

-- The frames that `reserve_range` counts to a range.
abbrev pub spans : Prot → ℕ → Bool
spans r f = leb (r.start / page_size) f && ltb f (end_frame r.end)

-- A recorded range has the frame.
abbrev pub covers : List Prot → ℕ → Bool
covers [] f = false
covers (r ∷ rs) f = spans r f || covers rs f

-- What holds of the allocator between two calls: the array has a byte for every eight frames, and the
-- frames of the recorded ranges are used.
pub record IsValid (p : Pmm) : Type 0 where
  pub bytes : IsBytes p.frame_bitmap
  pub room : p.total_frames ≤ 8 * length p.frame_bitmap
  pub small : p.total_frames ≤ max_frames
  pub reserved :
      (f : ℕ) → f < p.total_frames → covers p.prot f ≡ true → fb_test p.frame_bitmap f ≡ true

abbrev pub free_of : Pmm → ℕ
free_of p = free_in p.frame_bitmap 0 p.total_frames

-- What `reserve_loop` has done at its end.
pub record Reserved (p q : Pmm) (f left : ℕ) : Type 0 where
  pub total : q.total_frames ≡ p.total_frames
  pub bytes : IsBytes q.frame_bitmap
  pub room : length q.frame_bitmap ≡ length p.frame_bitmap
  pub prot : q.prot ≡ p.prot
  pub usable : q.usable_frames ≡ p.usable_frames
  pub tests :
      (g : ℕ)
      → fb_test q.frame_bitmap g ≡ (
          if leb f g && (ltb g (f + left) && ltb g p.total_frames)
          then true
          else fb_test p.frame_bitmap g)
  pub conserved : q.reserved_frames + free_of q ≡ p.reserved_frames + free_of p
  pub addr : q.mmap_addr_saved ≡ p.mmap_addr_saved
  pub len : q.mmap_len_saved ≡ p.mmap_len_saved

reserve_frame_lem :
    (f : ℕ) (p : Pmm)
    → IsBytes p.frame_bitmap
    → p.total_frames ≤ 8 * length p.frame_bitmap
    → f < p.total_frames
    → p.reserved_frames + free_of p < 2 ^ 32
    → Reserved p (reserve_frame f p) f 1
unfolding reserve_frame
reserve_frame_lem f p b room lt small = elim (Bool-cases (fb_test p.frame_bitmap f)) [
  | inl used ↦ rw used (record {
    total = refl;
    bytes = b;
    room = refl;
    prot = refl;
    usable = refl;
    tests = λ g. ground arith;
    conserved = refl;
    addr = refl;
    len = refl;
  })
  | inr clear ↦ rw clear (record {
    total = refl;
    bytes = fb_mark_used-IsBytes p.frame_bitmap f b (omega arith);
    room = length-fb_mark_used p.frame_bitmap f;
    prot = refl;
    usable = refl;
    tests = λ g. ground (arith, fb_test-mark_used p.frame_bitmap f b (omega arith) g);
    conserved = omega (
      arith,
      free_in_used p.frame_bitmap (fb_mark_used p.frame_bitmap f) f 0 p.total_frames (omega arith)
          (omega arith) clear (λ g. fb_test-mark_used p.frame_bitmap f b (omega arith) g),
    );
    addr = refl;
    len = refl;
  })
]

-- Nothing to do is a reservation of no frame.
nothing_Reserved :
    (f left : ℕ) (p : Pmm) → IsBytes p.frame_bitmap → p.total_frames ≤ f → Reserved p p f left
nothing_Reserved f left p b done = record {
  total = refl;
  bytes = b;
  room = refl;
  prot = refl;
  usable = refl;
  tests = λ g. ground arith;
  conserved = refl;
  addr = refl;
  len = refl;
}

-- A reservation of one frame and one of the frames that follow it make one of them all.
join_Reserved :
    (p q r : Pmm) (f left : ℕ)
    → Reserved p q f 1
    → Reserved q r (f + 1) left
    → Reserved p r f (suc left)
join_Reserved p q r f left a c = record {
  total = c.total ∙ a.total;
  bytes = c.bytes;
  room = c.room ∙ a.room;
  prot = c.prot ∙ a.prot;
  usable = c.usable ∙ a.usable;
  tests = λ g. ground (arith, a.tests g, c.tests g);
  conserved = c.conserved ∙ a.conserved;
  addr = c.addr ∙ a.addr;
  len = c.len ∙ a.len;
}

reserve_loop_lem :
    (left f : ℕ) (p : Pmm)
    → IsBytes p.frame_bitmap
    → p.total_frames ≤ 8 * length p.frame_bitmap
    → p.reserved_frames + free_of p < 2 ^ 32
    → Reserved p (reserve_loop left f p) f left
unfolding reserve_loop
reserve_loop_lem zero f p b room small = record {
  total = refl;
  bytes = b;
  room = refl;
  prot = refl;
  usable = refl;
  tests = λ g. ground arith;
  conserved = refl;
  addr = refl;
  len = refl;
}
reserve_loop_lem (suc left) f p b room small = elim (Bool-cases (ltb f p.total_frames)) [
  | inl lt ↦
      let q = reserve_frame f p in
      let one = reserve_frame_lem f p b room (ltb→lt f p.total_frames lt) small in
      rw lt (
        join_Reserved p q (reserve_loop left (f + 1) q) f left one (
          reserve_loop_lem left (f + 1) q one.bytes (omega (arith, one.total, one.room))
            (omega (arith, one.conserved))))
  | inr ge ↦ rw ge (nothing_Reserved f (suc left) p b (ground arith))
]

-- What `reserve_range` has done: it marks the frames of the range used, adds them to the count of the
-- reserved ones, and records the range while the table has room.
pub record RangeReserved (p q : Pmm) (r : Prot) : Type 0 where
  pub total : q.total_frames ≡ p.total_frames
  pub bytes : IsBytes q.frame_bitmap
  pub room : length q.frame_bitmap ≡ length p.frame_bitmap
  pub prot :
      q.prot
      ≡ (if ltb r.start r.end && ltb (length p.prot) max_prot then p.prot ++ (r ∷ []) else p.prot)
  pub usable : q.usable_frames ≡ p.usable_frames
  pub tests :
      (g : ℕ)
      → fb_test q.frame_bitmap g ≡ (
          if ltb r.start r.end && (spans r g && ltb g p.total_frames)
          then true
          else fb_test p.frame_bitmap g)
  pub conserved : q.reserved_frames + free_of q ≡ p.reserved_frames + free_of p
  pub addr : q.mmap_addr_saved ≡ p.mmap_addr_saved
  pub len : q.mmap_len_saved ≡ p.mmap_len_saved

module _ (p : Pmm) (r : Prot) (b : IsBytes p.frame_bitmap) where
  record_RangeReserved :
      (q : Pmm)
      → r.start < r.end
      → Reserved p q (r.start / page_size) (end_frame r.end - r.start / page_size)
      → RangeReserved p (record_range r.start r.end q) r
  record_RangeReserved q lt d = elim (Bool-cases (ltb (length q.prot) max_prot)) [
    | inl fits ↦ rw fits (record {
      total = d.total;
      bytes = d.bytes;
      room = d.room;
      prot = rw (lt→ltb r.start r.end lt, ← d.prot, fits);
      usable = d.usable;
      tests = λ g. ground (arith, d.tests g);
      conserved = d.conserved;
      addr = d.addr;
      len = d.len;
    })
    | inr full ↦ rw full (record {
      total = d.total;
      bytes = d.bytes;
      room = d.room;
      prot = rw (lt→ltb r.start r.end lt, ← d.prot, full);
      usable = d.usable;
      tests = λ g. ground (arith, d.tests g);
      conserved = d.conserved;
      addr = d.addr;
      len = d.len;
    })
  ]

  pub reserve_range-RangeReserved :
      p.total_frames ≤ 8 * length p.frame_bitmap
      → p.reserved_frames + free_of p < 2 ^ 32
      → RangeReserved p (reserve_range r.start r.end p) r
  unfolding reserve_range
  reserve_range-RangeReserved room small = elim (Bool-cases (leb r.end r.start)) [
    | inl none_to_do ↦ rw none_to_do (record {
      total = refl;
      bytes = b;
      room = refl;
      prot = ground arith;
      usable = refl;
      tests = λ g. ground arith;
      conserved = refl;
      addr = refl;
      len = refl;
    })
    | inr some_to_do ↦ rw some_to_do (
        record_RangeReserved
          (reserve_loop (end_frame r.end - r.start / page_size) (r.start / page_size) p)
          (ground arith)
          (reserve_loop_lem (end_frame r.end - r.start / page_size) (r.start / page_size) p b room
            small))
  ]

pub covers-append : (rs ss : List Prot) (f : ℕ) → covers (rs ++ ss) f ≡ covers rs f || covers ss f
covers-append [] ss f = refl
covers-append (r ∷ rs) ss f = ground (arith, covers-append rs ss f)

-- A reservation keeps the invariant, its own range included.
pub reserve_range-IsValid :
    (p : Pmm) (r : Prot)
    → IsValid p
    → p.reserved_frames + free_of p < 2 ^ 32
    → IsValid (reserve_range r.start r.end p)
reserve_range-IsValid p r v small =
    let q = reserve_range r.start r.end p in
    let d : RangeReserved p q r = reserve_range-RangeReserved p r v.bytes v.room small in
    record {
      bytes = d.bytes;
      room = omega (arith, d.total, d.room, v.room);
      small = omega (arith, d.total, v.small);
      reserved = λ f lt c.
          ground (arith, d.prot, d.total, d.tests f, covers-append p.prot (r ∷ []) f, v.reserved f);
    }
