-- ===== src/Xhci.antt =====
-- kernel/drivers/usb/xhci.c: the rings of the controller and the reports of keyboards and mice. Memory that the
-- controller writes, the event ring and the reports, is an argument; the registers get a list of writes. The
-- discovery of the controller and of its devices is left out.
pub mod Rings
pub mod Reports
pub mod Poll
mod Examples
use thunity_os.Base.{
  ℕ, zero, suc, ◌+◌, ◌-◌, ◌*◌, ◌/◌, ◌%◌, ◌^◌, Bool, true, false, not, ◌&&◌, ◌||◌, Option, none,
  some, List, [], ◌∷◌, ◌++◌, replicate, get_or, set, ltb, ◌==◌, bit_and, bit_or, if◌then◌else◌,
}
use thunity_os.Keyboard.{Keyboard, keyboard_inject}
use thunity_os.Mouse.{Mouse, mouse_inject}

pub record Trb : Type 0 where
  pub lo : ℕ
  pub hi : ℕ
  pub status : ℕ
  pub control : ℕ

abbrev pub no_trb : Trb
no_trb = record { lo = 0; hi = 0; status = 0; control = 0 }

-- A ring of the driver, with the variables that go with it.
pub record Ring : Type 0 where
  pub trbs : List Trb
  pub enq : ℕ
  pub cyc : ℕ

-- The control word of a link TRB: (TRB_LINK << 10) | (1u << 1).
abbrev pub link_control : ℕ
link_control = 6 * 2 ^ 10 + 2

unfoldable pub ring_link : ℕ → ℕ → ℕ → List Trb
ring_link n phys cyc =
    set (replicate n no_trb) (n - 1)
      (record { lo = phys; hi = 0; status = 0; control = bit_or link_control cyc })

unfoldable pub ring_push : ℕ → Trb → Ring → Ring
ring_push n t r =
    let pushed = set r.trbs r.enq (record t { control = bit_or t.control r.cyc }) in
    let link = get_or pushed (n - 1) no_trb in
    if r.enq + 1 == n - 1
    then record {
      trbs = set pushed (n - 1) (record link { control = bit_or link_control r.cyc });
      enq = 0;
      cyc = 1 - r.cyc;
    }
    else record { trbs = pushed; enq = r.enq + 1; cyc = r.cyc }

-- Where the driver is in the event ring of 64, and the writes to the registers: base, offset, value.
pub record Events : Type 0 where
  pub evt_deq : ℕ
  pub evt_cyc : ℕ
  pub writes : List (ℕ × ℕ × ℕ)

abbrev pub event_type : Trb → ℕ
event_type e = e.control / 2 ^ 10 % 64

abbrev pub event_code : Trb → ℕ
event_code e = e.status / 2 ^ 24 % 256

abbrev pub event_slot : Trb → ℕ
event_slot e = e.control / 2 ^ 24 % 256

-- The next event, and the write of the dequeue pointer; `ring_at` is the address of an entry.
unfoldable pub advance : ℕ → (ℕ → ℕ) → Events → Events
advance rtb ring_at v =
    let wraps = v.evt_deq + 1 == 64 in
    let deq = if wraps then 0 else v.evt_deq + 1 in
    record {
      evt_deq = deq;
      evt_cyc = if wraps then 1 - v.evt_cyc else v.evt_cyc;
      writes = v.writes ++ ((rtb, 0x38, bit_or (ring_at deq) 8) ∷ (rtb, 0x3C, 0) ∷ []);
    }

-- The rounds from `i` on; `memory` is what the event ring holds in a round. The result is the completion code
-- and the slot, or `none` after the last round.
unfoldable pub wait_event :
    ℕ → ℕ → (ℕ → ℕ → Trb) → ℕ → (ℕ → ℕ) → ℕ → Events → Option (ℕ × ℕ) × Events
wait_event zero i memory rtb ring_at want v = (none, v)
wait_event (suc left) i memory rtb ring_at want v =
    let e = memory i v.evt_deq in
    let next = advance rtb ring_at v in
    let skip = wait_event left (i + 1) memory rtb ring_at want next in
    let again = wait_event left (i + 1) memory rtb ring_at want v in
    if e.control % 2 == v.evt_cyc
    then if event_type e == want then (some (event_code e, event_slot e), next) else skip
    else again

-- HID usage to character, and with the shift key.
abbrev pub hid_map : List ℕ
hid_map =
    0 ∷ 0 ∷ 0 ∷ 0 ∷ 97 ∷ 98 ∷ 99 ∷ 100 ∷ 101 ∷ 102 ∷ 103 ∷ 104 ∷ 105 ∷ 106 ∷ 107 ∷ 108 ∷ 109 ∷ 110
    ∷ 111 ∷ 112 ∷ 113 ∷ 114 ∷ 115 ∷ 116 ∷ 117 ∷ 118 ∷ 119 ∷ 120 ∷ 121 ∷ 122 ∷ 49 ∷ 50 ∷ 51 ∷ 52 ∷ 53
    ∷ 54 ∷ 55 ∷ 56 ∷ 57 ∷ 48 ∷ 10 ∷ 27 ∷ 8 ∷ 9 ∷ 32 ∷ 45 ∷ 61 ∷ 91 ∷ 93 ∷ 92 ∷ 0 ∷ 59 ∷ 39 ∷ 96 ∷ 44
    ∷ 46 ∷ 47 ∷ []

abbrev pub hid_shift : List ℕ
hid_shift =
    0 ∷ 0 ∷ 0 ∷ 0 ∷ 65 ∷ 66 ∷ 67 ∷ 68 ∷ 69 ∷ 70 ∷ 71 ∷ 72 ∷ 73 ∷ 74 ∷ 75 ∷ 76 ∷ 77 ∷ 78 ∷ 79 ∷ 80
    ∷ 81 ∷ 82 ∷ 83 ∷ 84 ∷ 85 ∷ 86 ∷ 87 ∷ 88 ∷ 89 ∷ 90 ∷ 33 ∷ 64 ∷ 35 ∷ 36 ∷ 37 ∷ 94 ∷ 38 ∷ 42 ∷ 40
    ∷ 41 ∷ 10 ∷ 27 ∷ 8 ∷ 9 ∷ 32 ∷ 95 ∷ 43 ∷ 123 ∷ 125 ∷ 124 ∷ 0 ∷ 58 ∷ 34 ∷ 126 ∷ 60 ∷ 62 ∷ 63 ∷ []

-- A device: its entry of `devs`, which has four, and its interrupt ring.
pub record UsbDev : Type 0 where
  pub used : Bool
  pub slot : ℕ
  pub is_kbd : Bool
  pub is_mouse : Bool
  pub ep_dci : ℕ
  pub ep_len : ℕ
  pub prev : List ℕ
  pub epi : Ring

-- The rest of the kernel that the reports reach.
pub record Inputs : Type 0 where
  pub keyboard : Keyboard
  pub mouse : Mouse

-- The loop of `in_prev` at `i`, with `left` rounds left.
unfoldable pub prev_loop : ℕ → ℕ → List ℕ → ℕ → Bool
prev_loop zero i prev k = false
prev_loop (suc left) i prev k = (get_or prev i 0 == k) || prev_loop left (i + 1) prev k

abbrev pub in_prev : List ℕ → ℕ → Bool
in_prev prev k = prev_loop 6 2 prev k

-- The character of a key of the report, 0 for none.
unfoldable pub key_char : Bool → List ℕ → ℕ → ℕ
key_char shift prev k =
    if not (k == 0) && ltb k 128 && not (in_prev prev k)
    then get_or (if shift then hid_shift else hid_map) k 0
    else 0

unfoldable pub key_loop : ℕ → ℕ → Bool → List ℕ → List ℕ → Keyboard → Keyboard
key_loop zero i shift prev r k = k
key_loop (suc left) i shift prev r k =
    key_loop left (i + 1) shift prev r (keyboard_inject k (key_char shift prev (get_or r i 0)))

-- A byte with sign, as what it adds and what it takes away.
abbrev pub signed : ℕ → ℕ × ℕ
signed b = if ltb b 128 then (b, 0) else (0, 256 - b)

-- The device and the inputs after a report `r` of eight bytes.
unfoldable pub hid_handle : UsbDev → List ℕ → Inputs → UsbDev × Inputs
hid_handle d r inputs =
    if d.is_kbd
    then (
      record d { prev = r },
      record inputs {
        keyboard = key_loop 6 2 (not (bit_and (get_or r 0 0) 0x22 == 0)) d.prev r inputs.keyboard;
      },
    )
    else if d.is_mouse
    then (
      d,
      record inputs {
        mouse =
            mouse_inject inputs.mouse (signed (get_or r 1 0)) (signed (get_or r 2 0))
              (get_or r 0 0);
      },
    )
    else (d, inputs)

-- The device after `arm_interrupt`, for a report buffer at an address, and its write to the doorbells.
unfoldable pub arm_interrupt : ℕ → ℕ → UsbDev → UsbDev × List (ℕ × ℕ × ℕ)
arm_interrupt dbb buf d =
    let t : Trb = record { lo = buf; hi = 0; status = d.ep_len; control = 1 * 2 ^ 10 + 32 } in
    (record d { epi = ring_push 16 t d.epi }, (dbb, d.slot * 4, d.ep_dci) ∷ [])
