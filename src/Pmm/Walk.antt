-- ===== src/Pmm/Walk.antt =====
-- The walk of `pmm_init` in kernel/mm/pmm.c over the Multiboot memory map.
use thunity_os.Base.{
  ℕ, zero, suc, ◌+◌, ◌-◌, ◌*◌, ◌%◌, ◌^◌, ◌≤◌, ◌<◌, ◌≡◌, refl, sym, ap, ◌∙◌, ◌⊎◌, inl, inr, Bool,
  true, false, ◌&&◌, ◌||◌, some, List, [], ◌∷◌, length, u32, ltb, leb, ◌==◌, if◌then◌else◌,
  Bool-cases, ltb→lt, lt→ltb, arith,
}
use thunity_os.FrameBitmap.{fb_test, fb_mark_free}
use thunity_os.FrameBitmap.Marks.{
  IsBytes, fb_test-mark_free, fb_mark_free-IsBytes, length-fb_mark_free,
}
use thunity_os.Pmm.{page_size, max_frames}
use thunity_os.Pmm.Boot.{
  MmapEntry, BootMemory, mb_memory_available, free_loop, Walk, region_end, first_frame, last_frame,
  walk_entry, walk_loop,
}

-- The entries that the walk meets from `ptr` on.
pub data MapAt (mem : BootMemory) (end : ℕ) : ℕ → List MmapEntry → Type 0 where
  past : {ptr : ℕ} → end ≤ ptr → MapAt mem end ptr []
  entry :
      {ptr ptr' : ℕ} {e : MmapEntry} {es : List MmapEntry}
      → ptr < end
      → e ≡ mem.entry_at ptr
      → ptr' ≡ u32 (ptr + u32 (e.size + 4))
      → MapAt mem end ptr' es
      → MapAt mem end ptr (e ∷ es)

-- What the walk makes of a list of entries.
abbrev pub walk_all : List MmapEntry → Walk → Walk
walk_all [] w = w
walk_all (e ∷ es) w = walk_all es (walk_entry e w)

-- With more fuel than entries the loop reads them all, in order.
pub walk_loop-walk_all :
    (mem : BootMemory) (end fuel ptr : ℕ) (es : List MmapEntry) (w : Walk)
    → MapAt mem end ptr es
    → length es < fuel
    → walk_loop mem fuel ptr end w ≡ some (walk_all es w)
unfolding walk_loop
walk_loop-walk_all mem end zero ptr es w m h = absurd (omega arith)
walk_loop-walk_all mem end (suc fuel) ptr [] w (past le) h = ground arith
walk_loop-walk_all mem end (suc fuel) ptr (e ∷ es) w (entry {ptr' = p'} lt same step rest) h =
    rw (lt→ltb ptr end lt, ← same, ← step)
      (walk_loop-walk_all mem end fuel p' es (walk_entry e w) rest (omega arith))

-- If no entry's step wraps past 4 GiB, the map ends: there are at most as many entries as bytes.
pub map_ends :
    (mem : BootMemory) (end bound ptr : ℕ)
    → ((x : ℕ) → x < end → x + ((mem.entry_at x).size + 4) < 2 ^ 32)
    → end - ptr ≤ bound
    → (es : List MmapEntry) × MapAt mem end ptr es × (length es ≤ bound)
map_ends mem end zero ptr steps h = ([], past (omega arith), omega arith)
map_ends mem end (suc bound) ptr steps h = elim (Bool-cases (ltb ptr end)) [
  | inr ge ↦ ([], past (ground arith), omega arith)
  | inl lt ↦
      let e = mem.entry_at ptr in
      let low : ptr + (e.size + 4) < 2 ^ 32 = steps ptr (ltb→lt ptr end lt) in
      let (es, m, n) =
        map_ends mem end bound (u32 (ptr + u32 (e.size + 4))) steps
          (omega (arith, ltb→lt ptr end lt)) in
      (e ∷ es, entry (ltb→lt ptr end lt) refl refl m, omega arith)
]

-- The walk ends: if no entry's step wraps past 4 GiB, as much fuel as the map has bytes, and one more,
-- is enough for a result.
pub walk_loop_total :
    (mem : BootMemory) (end ptr : ℕ) (w : Walk)
    → ((x : ℕ) → x < end → x + ((mem.entry_at x).size + 4) < 2 ^ 32)
    → (w' : Walk) × (walk_loop mem (end - ptr + 1) ptr end w ≡ some w')
walk_loop_total mem end ptr w steps =
    let (es, m, n) = map_ends mem end (end - ptr) ptr steps (omega arith) in
    (walk_all es w, walk_loop-walk_all mem end (end - ptr + 1) ptr es w m (omega arith))

-- The frames that the walk frees for an entry.
abbrev pub frees : MmapEntry → ℕ → Bool
frees e g =
    e.kind == mb_memory_available
    && (leb (first_frame e) g && (ltb g (last_frame e) && ltb g max_frames))

abbrev pub some_frees : List MmapEntry → ℕ → Bool
some_frees [] g = false
some_frees (e ∷ es) g = frees e g || some_frees es g

-- What a loop that frees frames `[f, f + left)` has done.
pub record Freed (bm bm' : List ℕ) (f left : ℕ) : Type 0 where
  pub bytes : IsBytes bm'
  pub room : length bm' ≡ length bm
  pub tests :
      (g : ℕ)
      → fb_test bm' g
        ≡ (if leb f g && (ltb g (f + left) && ltb g max_frames) then false else fb_test bm g)

pub free_loop-Freed :
    (left f : ℕ) (bm : List ℕ)
    → IsBytes bm
    → max_frames ≤ 8 * length bm
    → Freed bm (free_loop left f bm) f left
unfolding free_loop
free_loop-Freed zero f bm b room = record { bytes = b; room = refl; tests = λ g. ground arith }
free_loop-Freed (suc left) f bm b room = elim (Bool-cases (ltb f max_frames)) [
  | inr ge ↦ rw ge (record { bytes = b; room = refl; tests = λ g. ground arith })
  | inl lt ↦
      let bm1 = fb_mark_free bm f in
      let here_room : f < 8 * length bm = omega (arith, ltb→lt f max_frames lt) in
      let n : length bm1 ≡ length bm = length-fb_mark_free bm f in
      let d : Freed bm1 (free_loop left (f + 1) bm1) (f + 1) left =
        free_loop-Freed left (f + 1) bm1 (fb_mark_free-IsBytes bm f b here_room) (omega arith) in
      rw lt (record {
        bytes = d.bytes;
        room = d.room ∙ n;
        tests = λ g. ground (arith, d.tests g, fb_test-mark_free bm f b here_room g);
      })
]

-- What the walk over some entries has done.
pub record Walked (es : List MmapEntry) (w w' : Walk) : Type 0 where
  pub bytes : IsBytes w'.bitmap
  pub room : length w'.bitmap ≡ length w.bitmap
  pub tests :
      (g : ℕ) → fb_test w'.bitmap g ≡ (if some_frees es g then false else fb_test w.bitmap g)
  pub highest : w.highest < 2 ^ 32 → w'.highest < 2 ^ 32

span_eq :
    (a b g : ℕ) (t : Bool)
    → (if leb a g && (ltb g (a + (b - a)) && ltb g max_frames) then false else t)
      ≡ (if (true && (leb a g && (ltb g b && ltb g max_frames))) || false then false else t)
span_eq a b g t = ground arith

pub highest_small : (h r : ℕ) → h < 2 ^ 32 → (if ltb h r then u32 r else h) < 2 ^ 32
highest_small h r lt = ground arith

walk_entry-Walked :
    (e : MmapEntry) (w : Walk)
    → IsBytes w.bitmap
    → max_frames ≤ 8 * length w.bitmap
    → Walked (e ∷ []) w (walk_entry e w)
unfolding walk_entry
walk_entry-Walked e w b room = elim (Bool-cases (e.kind == mb_memory_available)) [
  | inr other ↦
      rw other (record { bytes = b; room = refl; tests = λ g. ground arith; highest = λ h. h })
  | inl available ↦
      let left = last_frame e - first_frame e in
      let d : Freed w.bitmap (free_loop left (first_frame e) w.bitmap) (first_frame e) left =
        free_loop-Freed left (first_frame e) w.bitmap b room in
      rw available (record {
        bytes = d.bytes;
        room = d.room;
        tests = λ g.
            d.tests g
            ∙ span_eq (first_frame e) (last_frame e) g (fb_test w.bitmap g)
            ∙ ap
                (λ t.
                  if (t && (leb (first_frame e) g && (ltb g (last_frame e) && ltb g max_frames)))
                    || false
                  then false
                  else fb_test w.bitmap g)
                (sym available);
        highest = highest_small w.highest (region_end e);
      })
]

pub walk_all-Walked :
    (es : List MmapEntry) (w : Walk)
    → IsBytes w.bitmap
    → max_frames ≤ 8 * length w.bitmap
    → Walked es w (walk_all es w)
walk_all-Walked [] w b room = record { bytes = b; room = refl; tests = λ g. refl; highest = λ h. h }
walk_all-Walked (e ∷ es) w b room =
    let one : Walked (e ∷ []) w (walk_entry e w) = walk_entry-Walked e w b room in
    let d : Walked es (walk_entry e w) (walk_all es (walk_entry e w)) =
      walk_all-Walked es (walk_entry e w) one.bytes (omega (arith, one.room)) in
    record {
      bytes = d.bytes;
      room = d.room ∙ one.room;
      tests = λ g. ground (arith, one.tests g, d.tests g);
      highest = λ h. d.highest (one.highest h);
    }

-- An available region that the code's arithmetic reads as it is meant: it lies below 2 ^ 44, so that its
-- first frame's number fits 32 bits.
abbrev pub IsLow : List MmapEntry → Type 0
IsLow [] = Unit {0}
IsLow (e ∷ es) = (e.addr + e.len < 2 ^ 44) × IsLow es

-- The frame lies in an available region, from the page on in which the region begins.
abbrev pub Inside : MmapEntry → ℕ → Type 0
Inside e g =
    (e.kind ≡ mb_memory_available)
    × (e.addr - e.addr % page_size ≤ g * page_size)
    × ((g + 1) * page_size ≤ e.addr + e.len)

abbrev pub SomeInside : List MmapEntry → ℕ → Type 0
SomeInside [] g = ⊥
SomeInside (e ∷ es) g = Inside e g ⊎ SomeInside es g

frees-Inside : (e : MmapEntry) (g : ℕ) → e.addr + e.len < 2 ^ 44 → frees e g ≡ true → Inside e g
frees-Inside e g low h = ground arith

pub some_frees-SomeInside :
    (es : List MmapEntry) (g : ℕ) → IsLow es → some_frees es g ≡ true → SomeInside es g
some_frees-SomeInside [] g low h = cc
some_frees-SomeInside (e ∷ es) g low h = elim (Bool-cases (frees e g)) [
  | inl yes_here ↦ inl (frees-Inside e g low.0 yes_here)
  | inr no_here ↦ inr (some_frees-SomeInside es g low.1 (ground arith))
]
