-- ===== src/Descriptors/Examples.antt =====
-- Tests of the descriptor tables of kernel/arch/x86, on empty tables.
use thunity_os.Base.{ℕ, ◌%◌, ◌+◌, ◌*◌, ◌≡◌, refl, List, get_or, replicate, arith}
use thunity_os.Descriptors.{
  GdtEntry, no_gate, um_selector, um_user_eflags, tss_selector, IdtEntry, idt_gate,
}
use thunity_os.Descriptors.Vectors.{absent, vectors, handler_of, LeadsTo, get_or-vectors}

abbrev empty_gdt : List GdtEntry
empty_gdt = replicate 6 no_gate

abbrev old_idt : List IdtEntry
old_idt = replicate 256 (idt_gate 0xDEAD 1 2)

-- The stubs of the exceptions and of the interrupt requests.
abbrev isr_stub : ℕ → ℕ
isr_stub i = 0x100000 + 16 * (i % 64)

abbrev irq_stub : ℕ → ℕ
irq_stub i = 0x101000 + 16 * (i % 64)

user_code : um_selector 3 3 ≡ 0x1B
unfolding um_selector
user_code = refl

task_register : tss_selector ≡ 0x28
unfolding um_selector
task_register = refl

flags_in_ring_3 : um_user_eflags 0x4046 ≡ 0x246
unfolding um_user_eflags
flags_in_ring_3 = refl

get_or-vectors_example :
    LeadsTo
      (handler_of isr_stub irq_stub 0x102000 33)
      (get_or (vectors isr_stub irq_stub 0x102000 old_idt) 33 absent)
get_or-vectors_example =
    get_or-vectors isr_stub irq_stub 0x102000 old_idt 33 refl (omega arith) (λ n. omega arith)
      (λ n. omega arith) (omega arith)
