-- ===== src/Xhci/Rings.antt =====
-- The cycle bits of a ring of kernel/drivers/usb/xhci.c tell the controller what has been pushed.
use thunity_os.Base.{
  ℕ, zero, suc, ◌+◌, ◌-◌, ◌%◌, ◌≤◌, ◌<◌, ◌≡◌, refl, ap, ◌∙◌, List, length, length-set,
  length-replicate, replicate, get_or, get_or-set, set, ltb, ◌==◌, bit_or, if◌then◌else◌,
  Bool-cases, inl, inr, arith,
}
use Prim.Native.Nat.{max, bit_or-bitwise}
use thunity_os.Xhci.{Trb, no_trb, link_control, Ring, ring_link, ring_push}

abbrev pub cycle : List Trb → ℕ → ℕ
cycle trbs i = (get_or trbs i no_trb).control % 2

-- On the lap `lap`, from 0: the entries before the link that have been pushed on this lap have its cycle bit, and
-- no other has. The link is as `ring_link` left it on the first lap, and then has the bit of the lap before, and
-- on the first lap what has not been pushed is empty.
pub record IsRing (n lap : ℕ) (r : Ring) : Type 0 where
  pub size : length r.trbs ≡ n
  pub enq_in : r.enq + 1 < n
  pub bit : r.cyc ≡ 1 - lap % 2
  pub laps : (i : ℕ) → i + 1 < n → cycle r.trbs i ≡ (if ltb i r.enq then r.cyc else 1 - r.cyc)
  pub link :
      (get_or r.trbs (n - 1) no_trb).control
      ≡ bit_or link_control (if lap == 0 then 1 else 1 - r.cyc)
  pub fresh : (i : ℕ) → i + 1 < n → lap ≡ 0 → r.enq ≤ i → (get_or r.trbs i no_trb).control ≡ 0

or_even : (a b : ℕ) → a % 2 ≡ 0 → b ≤ 1 → bit_or a b % 2 ≡ b
or_even zero b even le = omega (arith, bit_or-bitwise zero b, le)
or_even (suc a) b even le =
    let low : max (suc a % 2) (b % 2) ≡ b = rw even (omega (arith, le)) in
    omega (arith, bit_or-bitwise (suc a) b, low, le)

cycle-set :
    (trbs : List Trb) (i j : ℕ) (t : Trb)
    → i < length trbs
    → cycle (set trbs i t) j ≡ (if i == j then t.control % 2 else cycle trbs j)
cycle-set trbs i j t lt = elim (Bool-cases (i == j)) [
  | inl e ↦ ap (λ u. u.control % 2) (get_or-set trbs i j t no_trb lt) ∙ rw e refl
  | inr e ↦ ap (λ u. u.control % 2) (get_or-set trbs i j t no_trb lt) ∙ rw e refl
]

cycle-replicate : (n i : ℕ) → cycle (replicate n no_trb) i ≡ 0
cycle-replicate zero i = refl
cycle-replicate (suc n) zero = refl
cycle-replicate (suc n) (suc i) = cycle-replicate n i

-- The control word of the entry `j` after entry `i` is given.
control-set :
    (trbs : List Trb) (i j : ℕ) (t : Trb)
    → i < length trbs
    → (get_or (set trbs i t) j no_trb).control
      ≡ (if i == j then t.control else (get_or trbs j no_trb).control)
control-set trbs i j t lt = elim (Bool-cases (i == j)) [
  | inl e ↦ ap (λ u. u.control) (get_or-set trbs i j t no_trb lt) ∙ rw e refl
  | inr e ↦ ap (λ u. u.control) (get_or-set trbs i j t no_trb lt) ∙ rw e refl
]

control-replicate : (n i : ℕ) → (get_or (replicate n no_trb) i no_trb).control ≡ 0
control-replicate zero i = refl
control-replicate (suc n) zero = refl
control-replicate (suc n) (suc i) = control-replicate n i

pub ring_link-IsRing :
    (n phys : ℕ) → 1 < n → IsRing n 0 (record { trbs = ring_link n phys 1; enq = 0; cyc = 1 })
unfolding ring_link
ring_link-IsRing n phys some_room =
    let size = length-replicate n no_trb in
    let link : Trb = record { lo = phys; hi = 0; status = 0; control = bit_or link_control 1 } in
    let linked =
      λ (i : ℕ). control-set (replicate n no_trb) (n - 1) i link (omega (arith, size, some_room)) in
    record {
      size = length-set (replicate n no_trb) (n - 1) _ ∙ size;
      enq_in = omega (arith, some_room);
      bit = refl;
      laps = λ i lt. ap (λ w. w % 2) (linked i) ∙ ground (arith, lt, control-replicate n i);
      link = linked (n - 1) ∙ ground arith;
      fresh = λ i lt first le. linked i ∙ ground (arith, lt, control-replicate n i);
    }

-- A push is on the next lap after the last entry before the link.
pub ring_push-IsRing :
    (n lap : ℕ) (t : Trb) (r : Ring)
    → t.control % 2 ≡ 0
    → IsRing n lap r
    → IsRing n (if r.enq + 1 == n - 1 then lap + 1 else lap) (ring_push n t r)
unfolding ring_push
ring_push-IsRing n lap t r even is =
    let now = record t { control = bit_or t.control r.cyc } in
    let pushed = set r.trbs r.enq now in
    let bits : r.cyc ≤ 1 = omega (arith, is.bit) in
    let owned = or_even t.control r.cyc even bits in
    let size : length pushed ≡ n = length-set r.trbs r.enq now ∙ is.size in
    let put = λ (j : ℕ). control-set r.trbs r.enq j now (omega (arith, is.size, is.enq_in)) in
    let link = record (get_or pushed (n - 1) no_trb) { control = bit_or link_control r.cyc } in
    let linked = λ (j : ℕ). control-set pushed (n - 1) j link (omega (arith, size, is.enq_in)) in
    elim (Bool-cases (r.enq + 1 == n - 1)) [
      | inl e ↦ rw e (record {
        size = length-set pushed (n - 1) _ ∙ size;
        enq_in = omega (arith, is.enq_in);
        bit = omega (arith, is.bit);
        laps = λ i lt.
            ap (λ w. w % 2) (linked i) ∙ ground (arith, e, lt, bits, owned, is.laps i lt, put i);
        link = linked (n - 1) ∙ ground (arith, ap (bit_or link_control) (again r.cyc bits));
        fresh = λ i lt first le. ground (arith, first);
      })
      | inr e ↦ rw e (record {
        size = size;
        enq_in = ground (arith, e, is.enq_in);
        bit = is.bit;
        laps = λ i lt. ap (λ w. w % 2) (put i) ∙ ground (arith, e, lt, bits, owned, is.laps i lt);
        link = put (n - 1) ∙ ground (arith, is.enq_in, is.link);
        fresh = λ i lt first le.
            put i ∙ ground (arith, lt, le, is.fresh i lt first (omega (arith, le)));
      })
    ]
  where
    again : (c : ℕ) → c ≤ 1 → c ≡ 1 - (1 - c)
    again c le = omega (arith, le)
