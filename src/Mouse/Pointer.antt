-- ===== src/Mouse/Pointer.antt =====
-- The pointer of kernel/drivers/mouse.c stays on the screen, and packets are found among stray bytes.
use thunity_os.Base.{
  ℕ, ◌+◌, ◌-◌, ◌%◌, ◌<◌, ◌≡◌, refl, Bool, ==→eq, ap, ◌∙◌, true, false, not, ◌&&◌, ◌||◌, List, [],
  ◌∷◌, ◌++◌, length, length-set, bit_and, ltb, ◌==◌, if◌then◌else◌, Bool-cases, inl, inr, arith,
}
use thunity_os.Base.Bits.{test_bit}
use thunity_os.Base.Int.{ℤ, pos, ◌+ℤ◌, ◌-ℤ◌, ltb_ℤ, leb_ℤ}
use thunity_os.Base.Tables.{all_below, all_below_sound}
use thunity_os.Mouse.{
  Mouse, has_bit, moved, take_packet, mouse_cb, mouse_init, mouse_take_event, mouse_inject,
}

-- The pointer is on the screen, and a packet is being read into its three bytes.
pub record IsPointer (m : Mouse) : Type 0 where
  pub x_in : m.gx < m.sw
  pub y_in : m.gy < m.sh
  pub reading : m.idx < 3
  pub three : length m.pkt ≡ 3

-- One call from outside, after `mouse_init`.
pub data Step (m : Mouse) : Mouse → Type 0 where
  interrupt : (b : ℕ) → Step m (mouse_cb m b)
  inject : (dx dy : ℕ × ℕ) (buttons : ℕ) → Step m (mouse_inject m dx dy buttons)
  take_event : Step m (mouse_take_event m).1

-- The states that calls lead to after `mouse_init` with that size.
pub data Reachable (m : Mouse) (w h cfg m2 m1 : ℕ) : Mouse → Type 0 where
  here : Reachable m w h cfg m2 m1 (mouse_init m w h cfg m2 m1).0
  next : {a b : Mouse} → Reachable m w h cfg m2 m1 a → Step a b → Reachable m w h cfg m2 m1 b

moved-lt : (size v plus minus : ℕ) → v < size → moved size v plus minus < size
moved-lt size v plus minus lt = omega arith

mouse_cb-IsPointer : (m : Mouse) (b : ℕ) → IsPointer m → IsPointer (mouse_cb m b)
unfolding mouse_cb take_packet
mouse_cb-IsPointer m b p =
    let three = length-set m.pkt m.idx b ∙ p.three in
    elim (Bool-cases ((m.idx == 0) && not (has_bit b 8))) [
      | inl e ↦ rw e p
      | inr e ↦ elim (Bool-cases (ltb (m.idx + 1) 3)) [
        | inl l ↦
            rw (e, l)
              (record { x_in = p.x_in; y_in = p.y_in; reading = ground (arith, l); three = three })
        | inr l ↦
            rw (e, l)
              (record {
                x_in = moved-lt m.sw m.gx _ _ p.x_in;
                y_in = moved-lt m.sh m.gy _ _ p.y_in;
                reading = omega arith;
                three = three;
              })
      ]
    ]

mouse_inject-IsPointer :
    (m : Mouse) (dx dy : ℕ × ℕ) (buttons : ℕ)
    → IsPointer m
    → IsPointer (mouse_inject m dx dy buttons)
unfolding mouse_inject
mouse_inject-IsPointer m dx dy buttons p = elim (Bool-cases ((m.sw == 0) || (m.sh == 0))) [
  | inl e ↦ rw e p
  | inr e ↦ rw e (record {
    x_in = moved-lt m.sw m.gx dx.0 dx.1 p.x_in;
    y_in = moved-lt m.sh m.gy dy.0 dy.1 p.y_in;
    reading = p.reading;
    three = p.three;
  })
]

mouse_take_event-IsPointer : (m : Mouse) → IsPointer m → IsPointer (mouse_take_event m).1
unfolding mouse_take_event
mouse_take_event-IsPointer m p = elim (Bool-cases m.gdirty) [
  | inl e ↦ rw e (record { x_in = p.x_in; y_in = p.y_in; reading = p.reading; three = p.three })
  | inr e ↦ rw e (record { x_in = p.x_in; y_in = p.y_in; reading = p.reading; three = p.three })
]

Step-IsPointer : (a b : Mouse) → Step a b → IsPointer a → IsPointer b
Step-IsPointer a _ (interrupt b) p = mouse_cb-IsPointer a b p
Step-IsPointer a _ (inject dx dy buttons) p = mouse_inject-IsPointer a dx dy buttons p
Step-IsPointer a _ take_event p = mouse_take_event-IsPointer a p

mouse_init-IsPointer :
    (m : Mouse) (w h cfg m2 m1 : ℕ)
    → length m.pkt ≡ 3
    → 0 < w
    → 0 < h
    → IsPointer (mouse_init m w h cfg m2 m1).0
unfolding mouse_init
mouse_init-IsPointer m w h cfg m2 m1 three pw ph = record {
  x_in = omega arith;
  y_in = omega arith;
  reading = omega arith;
  three = three;
}

-- After `mouse_init` with a screen that is not empty, whatever bytes the mouse sends and whatever movements
-- are injected, the pointer is on the screen.
pub Reachable-IsPointer :
    (m : Mouse) (w h cfg m2 m1 : ℕ) (a : Mouse)
    → length m.pkt ≡ 3
    → 0 < w
    → 0 < h
    → Reachable m w h cfg m2 m1 a
    → IsPointer a
Reachable-IsPointer m w h cfg m2 m1 _ three pw ph here =
    mouse_init-IsPointer m w h cfg m2 m1 three pw ph
Reachable-IsPointer m w h cfg m2 m1 b three pw ph (next {a = a} r step) =
    Step-IsPointer a b step (Reachable-IsPointer m w h cfg m2 m1 a three pw ph r)

-- The bytes of a list, the first one first.
unfoldable pub bytes_in : Mouse → List ℕ → Mouse
bytes_in m [] = m
bytes_in m (b ∷ bs) = bytes_in (mouse_cb m b) bs

-- No byte of the list can begin a packet.
abbrev pub Stray : List ℕ → Type 0
Stray [] = Unit {0}
Stray (b ∷ bs) = (test_bit b 3 ≡ false) × Stray bs

-- The amount of nine bits with sign: the byte, less 256 when the sign bit is set.
abbrev pub amount : Bool → ℕ → ℤ
amount sign b = if sign then pos b -ℤ pos 256 else pos b

-- The integer that is nearest to `t` of those from 0 to `size - 1`.
abbrev pub nearest : ℕ → ℤ → ℤ
nearest size t = if ltb_ℤ t (pos 0) then pos 0 else if leb_ℤ (pos size) t then pos (size - 1) else t

-- What the packet says has been done, and the next byte begins a packet. The first byte has the buttons in
-- bits 0 to 2, and the signs of the amounts in bits 4 and 5; up is a smaller `gy`.
pub record Follows (m : Mouse) (b0 b1 b2 : ℕ) (m' : Mouse) : Type 0 where
  pub x : pos m'.gx ≡ nearest m.sw (pos m.gx +ℤ amount (test_bit b0 4) b1)
  pub y : pos m'.gy ≡ nearest m.sh (pos m.gy -ℤ amount (test_bit b0 5) b2)
  pub buttons : m'.gbtn ≡ b0 % 8
  pub dirty : m'.gdirty ≡ true
  pub again : m'.idx ≡ 0

moved_right :
    (size v b : ℕ) (sign : Bool)
    → 0 < size
    → pos (moved size v b (if sign then 256 else 0)) ≡ nearest size (pos v +ℤ amount sign b)
unfolding ◌+ℤ◌ ◌-ℤ◌
moved_right size v b sign some_size = ground arith

moved_up :
    (size v b : ℕ) (sign : Bool)
    → 0 < size
    → pos (moved size v (if sign then 256 else 0) b) ≡ nearest size (pos v -ℤ amount sign b)
unfolding ◌+ℤ◌ ◌-ℤ◌
moved_up size v b sign some_size = ground arith

button_table : all_below 256 (λ b. bit_and b 7 == b % 8) ≡ true
unfolding all_below
button_table = refl

button_bits : (b : ℕ) → b < 256 → bit_and b 7 ≡ b % 8
button_bits b lt = ==→eq _ _ (all_below_sound 256 (λ b. bit_and b 7 == b % 8) b button_table lt)

byte_ignored : (m : Mouse) (b : ℕ) → m.idx ≡ 0 → has_bit b 8 ≡ false → mouse_cb m b ≡ m
unfolding mouse_cb
byte_ignored m b z s =
    let q : ((m.idx == 0) && not (has_bit b 8)) ≡ true = ground (arith, z, s) in rw q refl

bytes_skipped :
    (m : Mouse) (stray bs : List ℕ)
    → m.idx ≡ 0
    → Stray stray
    → bytes_in m (stray ++ bs) ≡ bytes_in m bs
unfolding bytes_in
bytes_skipped m [] bs z s = refl
bytes_skipped m (b ∷ stray) bs z (s, ss) =
    ap (λ x. bytes_in x (stray ++ bs)) (byte_ignored m b z s) ∙ bytes_skipped m stray bs z ss

packet-Follows :
    (m : Mouse) (x0 x1 x2 b0 b1 b2 : ℕ)
    → m.pkt ≡ x0 ∷ x1 ∷ x2 ∷ []
    → m.idx ≡ 0
    → has_bit b0 8 ≡ true
    → b0 < 256
    → 0 < m.sw
    → 0 < m.sh
    → Follows m b0 b1 b2 (bytes_in m (b0 ∷ b1 ∷ b2 ∷ []))
unfolding bytes_in mouse_cb take_packet
packet-Follows m x0 x1 x2 b0 b1 b2 e z first byte across down =
    let x_end = moved_right m.sw m.gx b1 (has_bit b0 0x10) across in
    let y_end = moved_up m.sh m.gy b2 (has_bit b0 0x20) down in
    rw (z, e, first)
      (record { x = x_end; y = y_end; buttons = button_bits b0 byte; dirty = refl; again = refl })

-- When a packet is to begin, on a screen that is not empty, bytes without bit 3 are skipped, and the three bytes
-- of a packet move the pointer to the place nearest to where its two amounts of nine bits with sign lead, up
-- for a positive second one, and give the buttons.
pub bytes_in-Follows :
    (m : Mouse) (stray : List ℕ) (b0 b1 b2 : ℕ)
    → length m.pkt ≡ 3
    → m.idx ≡ 0
    → Stray stray
    → test_bit b0 3 ≡ true
    → b0 < 256
    → 0 < m.sw
    → 0 < m.sh
    → Follows m b0 b1 b2 (bytes_in m (stray ++ (b0 ∷ b1 ∷ b2 ∷ [])))
bytes_in-Follows m stray b0 b1 b2 three z s first byte across down =
    let (x0, x1, x2, e) = three_entries m.pkt three in
    rw (bytes_skipped m stray (b0 ∷ b1 ∷ b2 ∷ []) z s)
      (packet-Follows m x0 x1 x2 b0 b1 b2 e z first byte across down)
  where
    three_entries : (l : List ℕ) → length l ≡ 3 → (x0 x1 x2 : ℕ) × (l ≡ x0 ∷ x1 ∷ x2 ∷ [])
    three_entries [] n = absurd (omega (arith, n))
    three_entries (a ∷ []) n = absurd (omega (arith, n))
    three_entries (a ∷ b ∷ []) n = absurd (omega (arith, n))
    three_entries (a ∷ b ∷ c ∷ []) n = (a, b, c, refl)
    three_entries (a ∷ b ∷ c ∷ d ∷ l) n = absurd (omega (arith, n))
