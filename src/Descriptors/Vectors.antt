-- ===== src/Descriptors/Vectors.antt =====
-- The interrupt vectors after the set-up of kernel/arch/x86: idt_init of idt.c, isr_init of isr.c, irq_init of
-- irq.c, and the gate that syscall_init of syscall.c sets. The addresses of the assembly stubs are parameters.
use thunity_os.Base.{
  ℕ, zero, suc, ◌+◌, ◌-◌, ◌*◌, ◌^◌, Option, none, some, ◌≤◌, ◌<◌, ◌≡◌, refl, List, length, get_or,
  get_or-set, length-set, leb, ltb, ◌&&◌, ◌==◌, if◌then◌else◌, u8, arith, ◌∙◌, Bool-cases, inl, inr,
  ==→eq, ap,
}
use thunity_os.Descriptors.{IdtEntry, idt_gate, idt_set_gate, idt_loop, idt_init}

-- Gates for `left` vectors from `first` on, in order, to the stubs from number `n` on: `isr_init` makes
-- 32 such calls and `irq_init` 16.
unfoldable pub set_gates : ℕ → ℕ → ℕ → (ℕ → ℕ) → List IdtEntry → List IdtEntry
set_gates zero first n stub idt = idt
set_gates (suc left) first n stub idt =
    set_gates left (first + 1) (n + 1) stub (idt_set_gate idt first (stub n) 0x08 0x8E)

unfoldable pub isr_init : (ℕ → ℕ) → List IdtEntry → List IdtEntry
isr_init isr idt = set_gates 32 0 0 isr idt

-- The part of `irq_init` that is about the table.
unfoldable pub irq_gates : (ℕ → ℕ) → List IdtEntry → List IdtEntry
irq_gates irq idt = set_gates 16 32 0 irq idt

-- The part of `syscall_init` that is about the table.
unfoldable pub syscall_gate : ℕ → List IdtEntry → List IdtEntry
syscall_gate syscall_stub idt = idt_set_gate idt 0x80 syscall_stub 0x08 0xEE

abbrev pub absent : IdtEntry
absent = idt_gate 0 0 0

-- What `kernel_main` has made of the table when the system calls are there.
abbrev pub vectors : (ℕ → ℕ) → (ℕ → ℕ) → ℕ → List IdtEntry → List IdtEntry
vectors isr irq syscall_stub idt =
    syscall_gate syscall_stub (irq_gates irq (isr_init isr (idt_init idt)))

get_or-idt_set_gate :
    (idt : List IdtEntry) (num handler selector flags v : ℕ)
    → length idt ≡ 256
    → num < 256
    → get_or (idt_set_gate idt num handler selector flags) v absent
      ≡ (if num == v then idt_gate handler selector flags else get_or idt v absent)
unfolding idt_set_gate
get_or-idt_set_gate idt num handler selector flags v len lt =
    let e : u8 num ≡ num = omega arith in
    rw e (get_or-set idt num v (idt_gate handler selector flags) absent (omega (arith, len)))

length-idt_set_gate :
    (idt : List IdtEntry) (num handler selector flags : ℕ)
    → length (idt_set_gate idt num handler selector flags) ≡ length idt
unfolding idt_set_gate
length-idt_set_gate idt num handler selector flags = length-set idt _ _

length-set_gates :
    (left first n : ℕ) (stub : ℕ → ℕ) (idt : List IdtEntry)
    → length (set_gates left first n stub idt) ≡ length idt
unfolding set_gates
length-set_gates zero first n stub idt = refl
length-set_gates (suc left) first n stub idt =
    length-set_gates left (first + 1) (n + 1) stub (idt_set_gate idt first (stub n) 0x08 0x8E)
    ∙ length-idt_set_gate idt first (stub n) 0x08 0x8E

get_or-set_gates :
    (left first n : ℕ) (stub : ℕ → ℕ) (idt : List IdtEntry) (v : ℕ)
    → length idt ≡ 256
    → first + left ≤ 256
    → get_or (set_gates left first n stub idt) v absent ≡ (
        if leb first v && ltb v (first + left)
        then idt_gate (stub (n + (v - first))) 0x08 0x8E
        else get_or idt v absent)
unfolding set_gates
get_or-set_gates zero first n stub idt v len le = ground arith
get_or-set_gates (suc left) first n stub idt v len le =
    let ih =
      get_or-set_gates left (first + 1) (n + 1) stub (idt_set_gate idt first (stub n) 0x08 0x8E) v
        (length-idt_set_gate idt first (stub n) 0x08 0x8E ∙ len) (omega arith) in
    let one = get_or-idt_set_gate idt first (stub n) 0x08 0x8E v len (omega arith) in
    elim (Bool-cases (first == v)) [
      | inl e ↦
          let e' : stub (n + (v - first)) ≡ stub n = ap stub (omega (arith, ==→eq first v e)) in
          ground (arith, ih, one, e, e', ap (λ s. idt_gate s 0x08 0x8E) e')
      | inr e ↦ elim (Bool-cases (leb first v)) [
        | inl le ↦
            let e' : stub (n + 1 + (v - (first + 1))) ≡ stub (n + (v - first)) =
              ap stub (ground (arith, e, le)) in
            ground (arith, ih, one, e, le, ap (λ s. idt_gate s 0x08 0x8E) e')
        | inr gt ↦ ground (arith, ih, one, e, gt)
      ]
    ]

length-idt_loop : (left i : ℕ) (idt : List IdtEntry) → length (idt_loop left i idt) ≡ length idt
unfolding idt_loop
length-idt_loop zero i idt = refl
length-idt_loop (suc left) i idt =
    length-idt_loop left (i + 1) (idt_set_gate idt i 0 0 0) ∙ length-idt_set_gate idt i 0 0 0

get_or-idt_loop :
    (left i : ℕ) (idt : List IdtEntry) (v : ℕ)
    → length idt ≡ 256
    → i + left ≤ 256
    → get_or (idt_loop left i idt) v absent
      ≡ (if leb i v && ltb v (i + left) then absent else get_or idt v absent)
unfolding idt_loop
get_or-idt_loop zero i idt v len le = ground arith
get_or-idt_loop (suc left) i idt v len le =
    let ih =
      get_or-idt_loop left (i + 1) (idt_set_gate idt i 0 0 0) v
        (length-idt_set_gate idt i 0 0 0 ∙ len) (omega arith) in
    ground (arith, ih, get_or-idt_set_gate idt i 0 0 0 v len (omega arith))

-- The gate of each vector, by the calls.
abbrev wanted : (ℕ → ℕ) → (ℕ → ℕ) → ℕ → ℕ → IdtEntry
wanted isr irq syscall_stub v =
    if ltb v 32
    then idt_gate (isr v) 0x08 0x8E
    else if ltb v 48
    then idt_gate (irq (v - 32)) 0x08 0x8E
    else if v == 0x80
    then idt_gate syscall_stub 0x08 0xEE
    else absent

vectors_lem :
    (isr irq : ℕ → ℕ) (syscall_stub : ℕ) (idt : List IdtEntry) (v : ℕ)
    → length idt ≡ 256
    → v < 256
    → get_or (vectors isr irq syscall_stub idt) v absent ≡ wanted isr irq syscall_stub v
unfolding syscall_gate irq_gates isr_init idt_init
vectors_lem isr irq syscall_stub idt v len lt =
    let t0 = idt_loop 256 0 idt in
    let t1 = set_gates 32 0 0 isr t0 in
    let t2 = set_gates 16 32 0 irq t1 in
    let len0 : length t0 ≡ 256 = length-idt_loop 256 0 idt ∙ len in
    let len1 : length t1 ≡ 256 = length-set_gates 32 0 0 isr t0 ∙ len0 in
    let len2 : length t2 ≡ 256 = length-set_gates 16 32 0 irq t1 ∙ len1 in
    ground (
      arith,
      get_or-idt_loop 256 0 idt v len (omega arith),
      get_or-set_gates 32 0 0 isr t0 v len0 (omega arith),
      get_or-set_gates 16 32 0 irq t1 v len1 (omega arith),
      get_or-idt_set_gate t2 0x80 syscall_stub 0x08 0xEE v len2 (omega arith),
    )

-- The handler and the flags that a vector should have: 0x8E for a present interrupt gate of the kernel, 0xEE for
-- one that user mode may call.
abbrev pub handler_of : (ℕ → ℕ) → (ℕ → ℕ) → ℕ → ℕ → Option (ℕ × ℕ)
handler_of isr irq syscall_stub v =
    if ltb v 32
    then some (isr v, 0x8E)
    else if ltb v 48
    then some (irq (v - 32), 0x8E)
    else if v == 0x80
    then some (syscall_stub, 0xEE)
    else none

-- The entry leads to the handler, whose address is in two halves, in the kernel's code segment; or all of it
-- is 0, so that it is not present.
abbrev pub LeadsTo : Option (ℕ × ℕ) → IdtEntry → Type 0
LeadsTo none e =
    (e.base_low ≡ 0) × (e.base_high ≡ 0) × (e.selector ≡ 0) × (e.always0 ≡ 0) × (e.flags ≡ 0)
LeadsTo (some (handler, flags)) e =
    (e.base_high * 0x10000 + e.base_low ≡ handler)
    × (e.base_low < 0x10000)
    × (e.base_high < 0x10000)
    × (e.selector ≡ 0x08)
    × (e.always0 ≡ 0)
    × (e.flags ≡ flags)

idt_gate-LeadsTo :
    (handler flags : ℕ)
    → handler < 2 ^ 32
    → LeadsTo (some (handler, flags)) (idt_gate handler 0x08 flags)
idt_gate-LeadsTo handler flags lt = (omega (arith, lt), omega arith, omega arith, refl, refl, refl)

-- After the set-up the exceptions 0 to 31 lead to their stubs, the interrupts 32 to 47 to those of IRQ 0 to 15, and
-- 0x80, which user mode may call, to the stub of the system calls, in the kernel's code segment; every other
-- entry is 0, whatever the table of 256 held before. The stubs are at 32-bit addresses.
pub get_or-vectors :
    (isr irq : ℕ → ℕ) (syscall_stub : ℕ) (idt : List IdtEntry) (v : ℕ)
    → length idt ≡ 256
    → v < 256
    → ((n : ℕ) → isr n < 2 ^ 32)
    → ((n : ℕ) → irq n < 2 ^ 32)
    → syscall_stub < 2 ^ 32
    → LeadsTo
        (handler_of isr irq syscall_stub v)
        (get_or (vectors isr irq syscall_stub idt) v absent)
get_or-vectors isr irq syscall_stub idt v len lt isr_in irq_in stub_in =
    rw (vectors_lem isr irq syscall_stub idt v len lt) (elim (Bool-cases (ltb v 32)) [
      | inl e ↦ rw e (idt_gate-LeadsTo (isr v) 0x8E (isr_in v))
      | inr e ↦ elim (Bool-cases (ltb v 48)) [
        | inl e1 ↦ rw (e, e1) (idt_gate-LeadsTo (irq (v - 32)) 0x8E (irq_in (v - 32)))
        | inr e1 ↦ elim (Bool-cases (v == 0x80)) [
          | inl e2 ↦ rw (e, e1, e2) (idt_gate-LeadsTo syscall_stub 0xEE stub_in)
          | inr e2 ↦ rw (e, e1, e2) (refl, refl, refl, refl, refl)
        ]
      ]
    ])
