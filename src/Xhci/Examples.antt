-- ===== src/Xhci/Examples.antt =====
-- Tests of kernel/drivers/usb/xhci.c: a keyboard in slot 1 whose report has the key A.
use thunity_os.Base.{
  ℕ, ◌*◌, ◌^◌, ◌≡◌, refl, true, false, List, [], ◌∷◌, get_or, replicate, length-replicate, ◌==◌,
  ◌+◌, if◌then◌else◌, arith,
}
use thunity_os.Keyboard.{keyboard_inject, buffer_push}
use thunity_os.Keyboard.Queue.{Represents}
use thunity_os.Xhci.{
  Trb, no_trb, Ring, ring_link, wait_event, advance, UsbDev, Inputs, hid_handle, key_loop, key_char,
  prev_loop,
}
use thunity_os.Xhci.Poll.{Usb, Memory, IsUsb, usb_poll, usb_poll-IsUsb}
use thunity_os.Xhci.Rings.{ring_link-IsRing}

abbrev ring : Ring
ring = record { trbs = ring_link 16 0x1000 1; enq = 0; cyc = 1 }

abbrev device : UsbDev
device = record {
  used = true;
  slot = 1;
  is_kbd = true;
  is_mouse = false;
  ep_dci = 3;
  ep_len = 8;
  prev = replicate 8 0;
  epi = ring;
}

-- An entry of `devs` that no device has had.
abbrev unused : UsbDev
unused = record {
  used = false;
  slot = 0;
  is_kbd = false;
  is_mouse = false;
  ep_dci = 0;
  ep_len = 0;
  prev = replicate 8 0;
  epi = record { trbs = replicate 16 no_trb; enq = 0; cyc = 0 };
}

abbrev report : List ℕ
report = 2 ∷ 0 ∷ 4 ∷ 0 ∷ 0 ∷ 0 ∷ 0 ∷ 0 ∷ []

abbrev inputs : Inputs
inputs = record {
  keyboard = record { buffer = replicate 128 0; head = 0; tail = 0; shift_down = false };
  mouse = record { gx = 0; gy = 0; gbtn = 0; gdirty = false; sw = 0; sh = 0; pkt = []; idx = 0 };
}

empty_queue : Represents inputs.keyboard []
empty_queue = record {
  room = length-replicate {A = ℕ} 128 0;
  tail_in = omega arith;
  head_at = refl;
  short = omega arith;
  held = tt;
}

types_a : get_or (hid_handle device report inputs).1.keyboard.buffer 0 0 ≡ 65
unfolding hid_handle key_loop key_char prev_loop keyboard_inject buffer_push
types_a = refl

-- An event of another type is skipped, and is not seen again.
abbrev seen : ℕ → ℕ → Trb
seen round i =
    if i == 0
    then record no_trb { control = 34 * 2 ^ 10 + 1 }
    else record no_trb { control = 33 * 2 ^ 10 + 1 }

skips :
    (wait_event 3 0 seen 0
      (λ i. i * 16)
      33
      (record { evt_deq = 0; evt_cyc = 1; writes = [] })).1.evt_deq
    ≡ 2
unfolding wait_event advance
skips = refl

abbrev usb : Usb
usb = record {
  present = true;
  devs = device ∷ unused ∷ unused ∷ unused ∷ [];
  events = record { evt_deq = 0; evt_cyc = 1; writes = [] };
  inputs = inputs;
}

abbrev memory : Memory
memory = record {
  rtb = 0xFEB00000;
  dbb = 0xFEB02000;
  evt_ring = seen;
  evt_ring_at = λ i. i * 16;
  hid_buf = λ round i. report;
  hid_buf_at = λ i. i * 8;
}

usb_poll-IsUsb_example : IsUsb (usb_poll memory usb)
usb_poll-IsUsb_example = usb_poll-IsUsb memory usb (record {
  four = refl;
  rings = ((0, ring_link-IsRing 16 0x1000 (omega arith)), (tt, (tt, (tt, tt))));
  queue = ([], empty_queue);
})
