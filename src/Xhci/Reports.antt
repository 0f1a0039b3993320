-- ===== src/Xhci/Reports.antt =====
-- What the reports of a keyboard type, in kernel/drivers/usb/xhci.c.
use thunity_os.Base.{
  ℕ, zero, suc, ◌+◌, ◌≤◌, ◌<◌, ◌≡◌, refl, ap, ◌∙◌, Bool, true, not, List, get_or, ◌==◌, ==→eq,
  ==_refl, bit_and, if◌then◌else◌, Bool-cases, inl, inr, arith,
}
use thunity_os.Keyboard.{Keyboard, keyboard_inject}
use thunity_os.Keyboard.Queue.{Represents, pushed, keyboard_inject-Represents}
use thunity_os.Xhci.{UsbDev, Inputs, in_prev, prev_loop, key_char, key_loop, hid_handle}

-- The queue after the keys from `i` on: the character of each key that was not down before.
abbrev pub typed_keys : ℕ → ℕ → Bool → List ℕ → List ℕ → List ℕ → List ℕ
typed_keys zero i shift prev r q = q
typed_keys (suc left) i shift prev r q =
    let c = key_char shift prev (get_or r i 0) in
    typed_keys left (i + 1) shift prev r (if c == 0 then q else pushed q c)

key_loop-Represents :
    (left i : ℕ) (shift : Bool) (prev r : List ℕ) (k : Keyboard) (q : List ℕ)
    → Represents k q
    → Represents (key_loop left i shift prev r k) (typed_keys left i shift prev r q)
unfolding key_loop
key_loop-Represents zero i shift prev r k q is = is
key_loop-Represents (suc left) i shift prev r k q is =
    let c = key_char shift prev (get_or r i 0) in
    key_loop-Represents left (i + 1) shift prev r (keyboard_inject k c)
      (if c == 0 then q else pushed q c) (keyboard_inject-Represents k q c is)

-- A report of a keyboard keeps the input ring a queue and appends to it, in the order of the report, the
-- characters of the keys that were not down in the report before, shifted when a shift key is down, as long as
-- fewer than 127 wait.
hid_handle-Represents :
    (d : UsbDev) (r : List ℕ) (inputs : Inputs) (q : List ℕ)
    → d.is_kbd ≡ true
    → Represents inputs.keyboard q
    → Represents
        (hid_handle d r inputs).1.keyboard
        (typed_keys 6 2 (not (bit_and (get_or r 0 0) 0x22 == 0)) d.prev r q)
unfolding hid_handle
hid_handle-Represents d r inputs q kbd is =
    rw kbd (
      key_loop-Represents 6 2 (not (bit_and (get_or r 0 0) 0x22 == 0)) d.prev r inputs.keyboard q
        is)

prev_loop_found :
    (left i j : ℕ) (prev : List ℕ)
    → i ≤ j
    → j < i + left
    → prev_loop left i prev (get_or prev j 0) ≡ true
unfolding prev_loop
prev_loop_found zero i j prev from to = absurd (omega arith)
prev_loop_found (suc left) i j prev from to = elim (Bool-cases (i == j)) [
  | inl e ↦
      let here : (get_or prev i 0 == get_or prev j 0) ≡ true =
        ap (λ n. get_or prev n 0 == get_or prev j 0) (==→eq i j e) ∙ ==_refl (get_or prev j 0) in
      rw here refl
  | inr e ↦
      rw (prev_loop_found left (i + 1) j prev (ground (arith, e)) (omega arith)) (ground arith)
]

key_char_held :
    (shift : Bool) (prev : List ℕ) (k : ℕ) → in_prev prev k ≡ true → key_char shift prev k ≡ 0
unfolding key_char
key_char_held shift prev k held = rw held (ground arith)

key_loop_held :
    (left i : ℕ) (shift : Bool) (r : List ℕ) (k : Keyboard)
    → 2 ≤ i
    → i + left ≤ 8
    → key_loop left i shift r r k ≡ k
unfolding key_loop keyboard_inject
key_loop_held zero i shift r k from to = refl
key_loop_held (suc left) i shift r k from to =
    let k1 = get_or r i 0 in
    let silent = key_char_held shift r k1 (prev_loop_found 6 2 i r from (omega arith)) in
    rw silent (key_loop_held left (i + 1) shift r k (omega arith) (omega arith))

-- A report that comes once more, its keys still being down, types nothing.
hid_handle_again :
    (d : UsbDev) (r : List ℕ) (inputs : Inputs)
    → d.is_kbd ≡ true
    → (hid_handle (hid_handle d r inputs).0 r (hid_handle d r inputs).1).1.keyboard
      ≡ (hid_handle d r inputs).1.keyboard
unfolding hid_handle
hid_handle_again d r inputs kbd =
    let shift = not (bit_and (get_or r 0 0) 0x22 == 0) in
    rw kbd (
      key_loop_held 6 2 shift r (key_loop 6 2 shift d.prev r inputs.keyboard) (omega arith)
        (omega arith))

-- A report of any device keeps the input ring a queue.
pub hid_handle-queue :
    (d : UsbDev) (r : List ℕ) (inputs : Inputs) (q : List ℕ)
    → Represents inputs.keyboard q
    → (q' : List ℕ) × Represents (hid_handle d r inputs).1.keyboard q'
unfolding hid_handle
hid_handle-queue d r inputs q is = elim (Bool-cases d.is_kbd) [
  | inl e ↦ (_, hid_handle-Represents d r inputs q e is)
  | inr e ↦ elim (Bool-cases d.is_mouse) [
    | inl e' ↦ (q, rw (e, e') is)
    | inr e' ↦ (q, rw (e, e') is)
  ]
]
