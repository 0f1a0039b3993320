-- ===== src/Keyboard/Queue.antt =====
-- The ring buffer of kernel/drivers/keyboard.c is a queue of at most 127 characters.
use thunity_os.Base.{
  ℕ, suc, ◌+◌, ◌%◌, ◌<◌, ◌≡◌, refl, sym, subst, ◌∙◌, inl, inr, Bool, true, false, ◌||◌, Option,
  none, some, List, [], ◌∷◌, ◌++◌, length, length-append, get_or, set, length-set, get_or-set, leb,
  ltb, ◌==◌, if◌then◌else◌, Bool-cases, arith,
}
use thunity_os.Keyboard.{
  buf_size, Keyboard, scancode_map, scancode_map_shift, buffer_push, keyboard_inject,
  keyboard_callback, keyboard_init, keyboard_getchar,
}

-- The characters `q` stand in the buffer from `i` on, round its end.
abbrev pub Holds : List ℕ → ℕ → List ℕ → Type 0
Holds buffer i [] = Unit {0}
Holds buffer i (c ∷ q) = (get_or buffer i 0 ≡ c) × Holds buffer ((i + 1) % buf_size) q

-- The ring holds the queue `q`, the oldest character first.
pub record Represents (k : Keyboard) (q : List ℕ) : Type 0 where
  pub room : length k.buffer ≡ buf_size
  pub tail_in : k.tail < buf_size
  pub head_at : k.head ≡ (k.tail + length q) % buf_size
  pub short : length q < buf_size
  pub held : Holds k.buffer k.tail q

-- A write behind the queue leaves it and appends.
Holds-set :
    (buffer : List ℕ) (i : ℕ) (q : List ℕ) (c : ℕ)
    → length buffer ≡ buf_size
    → i < buf_size
    → length q < buf_size
    → Holds buffer i q
    → Holds (set buffer ((i + length q) % buf_size) c) i (q ++ (c ∷ []))
Holds-set buffer i [] c room lt short h =
    (ground (arith, get_or-set buffer ((i + 0) % buf_size) i c 0 (omega arith)), tt)
Holds-set buffer i (x ∷ q) c room lt short (at, h) =
    let j = (i + suc (length q)) % buf_size in
    let e : ((i + 1) % buf_size + length q) % buf_size ≡ j = omega arith in
    let rest = Holds-set buffer ((i + 1) % buf_size) q c room (omega arith) (omega arith) h in
    (
      ground (arith, get_or-set buffer j i c 0 (omega arith)),
      subst (λ n. Holds (set buffer n c) ((i + 1) % buf_size) (q ++ (c ∷ []))) e rest,
    )

-- What a push makes of the queue: the character is the newest, or is dropped when 127 wait.
abbrev pub pushed : List ℕ → ℕ → List ℕ
pushed q c = if ltb (length q) 127 then q ++ (c ∷ []) else q

buffer_push-Represents :
    (k : Keyboard) (q : List ℕ) (c : ℕ) → Represents k q → Represents (buffer_push k c) (pushed q c)
unfolding buffer_push
buffer_push-Represents k q c r = elim (Bool-cases ((k.head + 1) % buf_size == k.tail)) [
  | inl full ↦
      let many : ltb (length q) 127 ≡ false = ground (arith, r.head_at, r.short, r.tail_in) in
      rw (full, many) r
  | inr free ↦
      let few : ltb (length q) 127 ≡ true = ground (arith, r.head_at, r.short, r.tail_in) in
      let n : length (q ++ (c ∷ [])) ≡ length q + 1 = length-append q (c ∷ []) in
      rw (free, few)
        (record {
          room = length-set k.buffer k.head c ∙ r.room;
          tail_in = r.tail_in;
          head_at = omega (arith, r.head_at, n);
          short = ground (arith, n);
          held =
              subst (λ h. Holds (set k.buffer h c) k.tail (q ++ (c ∷ []))) (sym r.head_at)
                (Holds-set k.buffer k.tail q c r.room r.tail_in r.short r.held);
        })
]

pub keyboard_inject-Represents :
    (k : Keyboard) (q : List ℕ) (c : ℕ)
    → Represents k q
    → Represents (keyboard_inject k c) (if c == 0 then q else pushed q c)
unfolding keyboard_inject
keyboard_inject-Represents k q c r = elim (Bool-cases (c == 0)) [
  | inl silent ↦ rw silent r
  | inr prints ↦ rw prints (buffer_push-Represents k q c r)
]

-- What a scan code adds: nothing, or the character that it means.
abbrev pub typed : Bool → ℕ → List ℕ → List ℕ
typed shift scancode q =
    let c = get_or (if shift then scancode_map_shift else scancode_map) scancode 0 in
    if (scancode == 0x2A || scancode == 0x36)
      || ((scancode == 0xAA || scancode == 0xB6) || (leb 128 scancode || c == 0))
    then q
    else pushed q c

keep-Represents :
    (k : Keyboard) (b : Bool) (q : List ℕ)
    → Represents k q
    → Represents (record k { shift_down = b }) q
keep-Represents k b q r = record {
  room = r.room;
  tail_in = r.tail_in;
  head_at = r.head_at;
  short = r.short;
  held = r.held;
}

-- The handler keeps the ring a queue: a scan code of a printing key appends its character, shifted or
-- not, or drops it when 127 characters wait; every other scan code leaves the queue.
pub keyboard_callback-Represents :
    (k : Keyboard) (q : List ℕ) (scancode : ℕ)
    → Represents k q
    → Represents (keyboard_callback k scancode) (typed k.shift_down scancode q)
unfolding keyboard_callback
keyboard_callback-Represents k q scancode r =
    let c = get_or (if k.shift_down then scancode_map_shift else scancode_map) scancode 0 in
    elim (Bool-cases (scancode == 0x2A || scancode == 0x36)) [
      | inl press ↦ rw press (keep-Represents k true q r)
      | inr no_press ↦ rw no_press (elim (Bool-cases (scancode == 0xAA || scancode == 0xB6)) [
        | inl release ↦ rw release (keep-Represents k false q r)
        | inr no_shift ↦ rw no_shift (elim (Bool-cases (leb 128 scancode)) [
          | inl up ↦ rw up r
          | inr down ↦ rw down (elim (Bool-cases (c == 0)) [
            | inl silent ↦ rw silent r
            | inr prints ↦ rw prints (buffer_push-Represents k q c r)
          ])
        ])
      ])
    ]

-- What reading takes from the queue.
abbrev pub ReadOk : List ℕ → Option (ℕ × Keyboard) → Type 0
ReadOk [] none = Unit {0}
ReadOk [] (some r) = ⊥
ReadOk (c ∷ q) none = ⊥
ReadOk (c ∷ q) (some (d, k')) = (d ≡ c) × Represents k' q

-- `keyboard_getchar` waits when the queue is empty, and else returns its oldest character and leaves the
-- others.
pub keyboard_getchar-ReadOk :
    (k : Keyboard) (q : List ℕ) → Represents k q → ReadOk q (keyboard_getchar k)
unfolding keyboard_getchar
keyboard_getchar-ReadOk k [] r =
    let same : (k.head == k.tail) ≡ true = ground (arith, r.head_at, r.tail_in) in rw same tt
keyboard_getchar-ReadOk k (c ∷ q) r =
    let other : (k.head == k.tail) ≡ false = ground (arith, r.head_at, r.tail_in, r.short) in
    rw other (
      r.held.0,
      record {
        room = r.room;
        tail_in = omega arith;
        head_at = omega (arith, r.head_at);
        short = omega (arith, r.short);
        held = r.held.1;
      },
    )

-- `keyboard_init` empties the queue.
pub keyboard_init-Represents :
    (k : Keyboard) → length k.buffer ≡ buf_size → Represents (keyboard_init k) []
unfolding keyboard_init
keyboard_init-Represents k room = record {
  room = room;
  tail_in = omega arith;
  head_at = refl;
  short = omega arith;
  held = tt;
}
