-- ===== src/Xhci/Poll.antt =====
-- `usb_poll` of kernel/drivers/usb/xhci.c. What the controller's memory holds in a round, the events and the
-- report of each device, is an argument.
use thunity_os.Base.{
  length, ap, ◌∙◌, arith, ℕ, zero, suc, ◌+◌, ◌%◌, ◌≡◌, refl, sym, subst, Bool, true, false, not,
  ◌&&◌, List, [], ◌∷◌, ◌++◌, ◌==◌, if◌then◌else◌, Bool-cases, inl, inr,
}
use thunity_os.Keyboard.Queue.{Represents}
use thunity_os.Xhci.{
  Trb, Ring, Events, event_type, event_slot, advance, UsbDev, Inputs, hid_handle, arm_interrupt,
}
use thunity_os.Xhci.Reports.{hid_handle-queue}
use thunity_os.Xhci.Rings.{IsRing, ring_push-IsRing}

pub record Usb : Type 0 where
  pub present : Bool
  pub devs : List UsbDev
  pub events : Events
  pub inputs : Inputs

-- What the driver finds in memory, the event ring and the reports, the addresses of both, and those of the
-- registers.
pub record Memory : Type 0 where
  pub rtb : ℕ
  pub dbb : ℕ
  pub evt_ring : ℕ → ℕ → Trb
  pub evt_ring_at : ℕ → ℕ
  pub hid_buf : ℕ → ℕ → List ℕ
  pub hid_buf_at : ℕ → ℕ

-- The loop over the devices from the `i`-th on, in a round, for a transfer event of a slot, and its writes to
-- the doorbells.
unfoldable pub serve :
    Memory → ℕ → ℕ → ℕ → List UsbDev → Inputs → List UsbDev × Inputs × List (ℕ × ℕ × ℕ)
serve mem round slot i [] inputs = ([], inputs, [])
serve mem round slot i (d ∷ ds) inputs =
    let rest = serve mem round slot (i + 1) ds inputs in
    let handled = hid_handle d (mem.hid_buf round i) inputs in
    let armed = arm_interrupt mem.dbb (mem.hid_buf_at i) handled.0 in
    if d.used && (d.slot == slot) && not (d.ep_dci == 0)
    then (armed.0 ∷ ds, handled.1, armed.1)
    else (d ∷ rest.0, rest.1, rest.2)

-- What a round makes of an event.
unfoldable pub poll_event : Memory → ℕ → Trb → Usb → Usb
poll_event mem round e u =
    let events = advance mem.rtb mem.evt_ring_at u.events in
    let served = serve mem round (event_slot e) 0 u.devs u.inputs in
    if event_type e == 32
    then record u {
      events = record events { writes = events.writes ++ served.2 };
      devs = served.0;
      inputs = served.1;
    }
    else record u { events = events }

-- The rounds from `guard` on, with `left` rounds left.
unfoldable pub poll_loop : ℕ → ℕ → Memory → Usb → Usb
poll_loop zero guard mem u = u
poll_loop (suc left) guard mem u =
    let e = mem.evt_ring guard u.events.evt_deq in
    let rest = poll_loop left (guard + 1) mem (poll_event mem guard e u) in
    if e.control % 2 == u.events.evt_cyc then rest else u

unfoldable pub usb_poll : Memory → Usb → Usb
usb_poll mem u = if u.present then poll_loop 64 0 mem u else u

-- The interrupt ring of an entry of `devs` that is in use.
abbrev pub RingOk : Bool → Ring → Type 0
RingOk true r = (lap : ℕ) × IsRing 16 lap r
RingOk false r = Unit {0}

abbrev pub AllRings : List UsbDev → Type 0
AllRings [] = Unit {0}
AllRings (d ∷ ds) = RingOk d.used d.epi × AllRings ds

-- There are four entries, the rings of those in use are rings, and the keyboard's ring is a queue.
pub record IsUsb (u : Usb) : Type 0 where
  pub four : length u.devs ≡ 4
  pub rings : AllRings u.devs
  pub queue : (q : List ℕ) × Represents u.inputs.keyboard q

arm_interrupt-RingOk :
    (dbb buf : ℕ) (d : UsbDev)
    → d.used ≡ true
    → RingOk d.used d.epi
    → RingOk d.used (arm_interrupt dbb buf d).0.epi
unfolding arm_interrupt
arm_interrupt-RingOk dbb buf d used ok =
    let (lap, is) = subst (λ b. RingOk b d.epi) used ok in
    subst (λ b. RingOk b (arm_interrupt dbb buf d).0.epi) (sym used)
      (_, ring_push-IsRing 16 lap _ d.epi refl is)

-- A report changes neither.
hid_handle_ring :
    (d : UsbDev) (r : List ℕ) (inputs : Inputs)
    → RingOk d.used d.epi
    → RingOk (hid_handle d r inputs).0.used (hid_handle d r inputs).0.epi
      × ((hid_handle d r inputs).0.used ≡ d.used)
unfolding hid_handle
hid_handle_ring d r inputs ok = elim (Bool-cases d.is_kbd) [
  | inl e ↦ rw e (ok, refl)
  | inr e ↦ elim (Bool-cases d.is_mouse) [
    | inl e' ↦ rw (e, e') (ok, refl)
    | inr e' ↦ rw (e, e') (ok, refl)
  ]
]

serve_lem :
    (mem : Memory) (round slot i : ℕ) (ds : List UsbDev) (inputs : Inputs)
    → AllRings ds
    → (q : List ℕ) × Represents inputs.keyboard q
    → (length (serve mem round slot i ds inputs).0 ≡ length ds)
      × AllRings (serve mem round slot i ds inputs).0
      × ((q : List ℕ) × Represents (serve mem round slot i ds inputs).1.keyboard q)
unfolding serve arm_interrupt
serve_lem mem round slot i [] inputs rings queue = (refl, tt, queue)
serve_lem mem round slot i (d ∷ ds) inputs (ring, rings) queue =
    let handled = hid_handle d (mem.hid_buf round i) inputs in
    let (ok, same) = hid_handle_ring d (mem.hid_buf round i) inputs ring in
    let (long, rest, rest_queue) = serve_lem mem round slot (i + 1) ds inputs rings queue in
    elim (Bool-cases (d.used && (d.slot == slot) && not (d.ep_dci == 0))) [
      | inl e ↦
          let used : d.used ≡ true = ground (arith, e) in
          rw e (
            refl,
            (arm_interrupt-RingOk mem.dbb (mem.hid_buf_at i) handled.0 (same ∙ used) ok, rings),
            hid_handle-queue d (mem.hid_buf round i) inputs queue.0 queue.1,
          )
      | inr e ↦ rw e (ap suc long, (ring, rest), rest_queue)
    ]

poll_event-IsUsb :
    (mem : Memory) (round : ℕ) (e : Trb) (u : Usb) → IsUsb u → IsUsb (poll_event mem round e u)
unfolding poll_event
poll_event-IsUsb mem round e u is =
    let (long, rings, queue) =
      serve_lem mem round (event_slot e) 0 u.devs u.inputs is.rings is.queue in
    elim (Bool-cases (event_type e == 32)) [
      | inl t ↦ rw t (record { four = long ∙ is.four; rings = rings; queue = queue })
      | inr t ↦ rw t (record { four = is.four; rings = is.rings; queue = is.queue })
    ]

poll_loop-IsUsb :
    (left guard : ℕ) (mem : Memory) (u : Usb) → IsUsb u → IsUsb (poll_loop left guard mem u)
unfolding poll_loop
poll_loop-IsUsb zero guard mem u is = is
poll_loop-IsUsb (suc left) guard mem u is =
    let e = mem.evt_ring guard u.events.evt_deq in
    elim (Bool-cases (e.control % 2 == u.events.evt_cyc)) [
      | inl t ↦ rw t (
          poll_loop-IsUsb left (guard + 1) mem (poll_event mem guard e u)
            (poll_event-IsUsb mem guard e u is))
      | inr t ↦ rw t is
    ]

IsUsb-if : (t : Bool) (u v : Usb) → IsUsb u → IsUsb v → IsUsb (if t then u else v)
IsUsb-if true u v first second = first
IsUsb-if false u v first second = second

-- Where there are four devices, the interrupt ring of each one in use is one whose cycle bits, that of the link
-- included, tell what has been pushed, and the keyboard's ring holds a queue: this is so after `usb_poll` too,
-- whatever events and reports the controller has put into memory.
pub usb_poll-IsUsb : (mem : Memory) (u : Usb) → IsUsb u → IsUsb (usb_poll mem u)
unfolding usb_poll
usb_poll-IsUsb mem u is =
    IsUsb-if u.present (poll_loop 64 0 mem u) u (poll_loop-IsUsb 64 0 mem u is) is
