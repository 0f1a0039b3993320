-- ===== src/Interrupts.antt =====
-- The routing of interrupts in kernel/arch/x86: isr.c, irq.c, pic.c and pit.c. The state of the other drivers is
-- a parameter `D`, which the handlers work on; the bytes that ports give are arguments, and what is
-- written to ports is a list, last write first.
pub mod Clock
mod Examples
use thunity_os.Base.{
  ℕ, ◌+◌, ◌/◌, ◌%◌, ◌^◌, Bool, Option, none, some, List, [], ◌∷◌, get_or, set, u8, u32, sub32, ltb,
  leb, ◌==◌, if◌then◌else◌,
}
use thunity_os.CStrings.{codes}
use thunity_os.Descriptors.{IdtEntry}
use thunity_os.Descriptors.Vectors.{irq_gates}

pub record Registers : Type 0 where
  pub ds : ℕ
  pub edi : ℕ
  pub esi : ℕ
  pub ebp : ℕ
  pub esp : ℕ
  pub ebx : ℕ
  pub edx : ℕ
  pub ecx : ℕ
  pub eax : ℕ
  pub int_no : ℕ
  pub err_code : ℕ
  pub eip : ℕ
  pub cs : ℕ
  pub eflags : ℕ
  pub useresp : ℕ
  pub ss : ℕ

-- The static variables of pit.c.
pub record Pit : Type 0 where
  pub ticks : ℕ
  pub freq_hz : ℕ

pub record Machine {ℓ} (D : Type ℓ) : Type ℓ where
  pub pit : Pit
  pub out : List (ℕ × ℕ)
  pub drivers : D

abbrev pub Handler {ℓ} : Type ℓ → Type ℓ
Handler D = Registers → Machine D → Machine D

-- The divisor that `pit_init` gives to the timer.
abbrev pub pit_divisor : ℕ → ℕ
pit_divisor frequency_hz =
    let divisor = 1193182 / frequency_hz in if ltb 0xFFFF divisor then 0xFFFF else divisor

module _ {ℓ} {D : Type ℓ} where
  abbrev pub outb : ℕ → ℕ → Machine D → Machine D
  outb port value m = record m { out = (port, value) ∷ m.out }

  -- kernel/arch/x86/pic.c

  abbrev io_wait : Machine D → Machine D
  io_wait m = outb 0x80 0 m

  -- On the masks that the two chips give.
  unfoldable pub pic_remap : ℕ → ℕ → Machine D → Machine D
  pic_remap mask1 mask2 m =
      let m1 = io_wait (outb 0x20 0x11 m) in
      let m2 = io_wait (outb 0xA0 0x11 m1) in
      let m3 = io_wait (outb 0x21 0x20 m2) in
      let m4 = io_wait (outb 0xA1 0x28 m3) in
      let m5 = io_wait (outb 0x21 0x04 m4) in
      let m6 = io_wait (outb 0xA1 0x02 m5) in
      let m7 = io_wait (outb 0x21 0x01 m6) in
      let m8 = io_wait (outb 0xA1 0x01 m7) in outb 0xA1 mask2 (outb 0x21 mask1 m8)

  unfoldable pub pic_send_eoi : ℕ → Machine D → Machine D
  pic_send_eoi irq m = outb 0x20 0x20 (if leb 8 irq then outb 0xA0 0x20 m else m)

  -- kernel/arch/x86/irq.c

  unfoldable pub irq_register_handler :
      List (Option (Handler D)) → ℕ → Handler D → List (Option (Handler D))
  irq_register_handler irq_handlers irq handler =
      if ltb irq 16 then set irq_handlers irq (some handler) else irq_handlers

  -- A handler that is not null is called.
  abbrev pub call : Option (Handler D) → Handler D
  call none r m = m
  call (some handler) r m = handler r m

  unfoldable pub irq_handler : List (Option (Handler D)) → Handler D
  irq_handler irq_handlers r m =
      let irq = u8 (sub32 r.int_no 32) in
      pic_send_eoi irq (if ltb irq 16 then call (get_or irq_handlers irq none) r m else m)

  unfoldable pub irq_init : (ℕ → ℕ) → ℕ → ℕ → List IdtEntry → Machine D → List IdtEntry × Machine D
  irq_init irq mask1 mask2 idt m = (irq_gates irq idt, pic_remap mask1 mask2 m)

  -- kernel/arch/x86/isr.c

  unfoldable pub isr_register_handler :
      List (Option (Handler D)) → ℕ → Handler D → List (Option (Handler D))
  isr_register_handler handlers n handler =
      if ltb n 32 then set handlers n (some handler) else handlers

  -- kernel/arch/x86/pit.c

  unfoldable pub pit_callback : Handler D
  pit_callback r m = record m { pit = record m.pit { ticks = u32 (m.pit.ticks + 1) } }

  unfoldable pub pit_init :
      ℕ → List (Option (Handler D)) → Machine D → List (Option (Handler D)) × Machine D
  pit_init frequency_hz irq_handlers m =
      let hz = if frequency_hz == 0 then 100 else frequency_hz in
      let divisor = pit_divisor hz in
      let m1 = record m { pit = record { ticks = 0; freq_hz = hz } } in
      let m2 = outb 0x40 (divisor % 2 ^ 8) (outb 0x43 0x36 m1) in
      (irq_register_handler irq_handlers 0 pit_callback, outb 0x40 (divisor / 2 ^ 8 % 2 ^ 8) m2)

  unfoldable pub pit_ticks : Machine D → ℕ
  pit_ticks m = m.pit.ticks

  unfoldable pub pit_frequency : Machine D → ℕ
  pit_frequency m = m.pit.freq_hz

  unfoldable pub pit_seconds : Machine D → ℕ
  pit_seconds m = if m.pit.freq_hz == 0 then 0 else m.pit.ticks / m.pit.freq_hz

abbrev exception_names : List (List ℕ)
exception_names =
    codes "Divide-by-zero"
    ∷ codes "Debug"
    ∷ codes "Non-maskable interrupt"
    ∷ codes "Breakpoint"
    ∷ codes "Overflow"
    ∷ codes "Bound range exceeded"
    ∷ codes "Invalid opcode"
    ∷ codes "Device not available"
    ∷ codes "Double fault"
    ∷ codes "Coprocessor segment overrun"
    ∷ codes "Invalid TSS"
    ∷ codes "Segment not present"
    ∷ codes "Stack-segment fault"
    ∷ codes "General protection fault"
    ∷ codes "Page fault"
    ∷ codes "Reserved"
    ∷ codes "x87 floating-point exception"
    ∷ codes "Alignment check"
    ∷ codes "Machine check"
    ∷ codes "SIMD floating-point exception"
    ∷ codes "Virtualization exception"
    ∷ codes "Control protection exception"
    ∷ codes "Reserved"
    ∷ codes "Reserved"
    ∷ codes "Reserved"
    ∷ codes "Reserved"
    ∷ codes "Reserved"
    ∷ codes "Reserved"
    ∷ codes "Reserved"
    ∷ codes "Reserved"
    ∷ codes "Reserved"
    ∷ codes "Reserved"
    ∷ []

-- Either the handler has returned, or the report is on the screen, the number with its name and the
-- registers, and the processor is halted.
pub data IsrResult {ℓ} (D : Type ℓ) : Type ℓ where
  returned : Machine D → IsrResult D
  halted : ℕ → List ℕ → Registers → IsrResult D

unfoldable pub isr_handler {ℓ} :
    {D : Type ℓ} → List (Option (Handler D)) → Registers → Machine D → IsrResult D
isr_handler handlers r m =
    let n = r.int_no in
    let name = if ltb n 32 then get_or exception_names n [] else codes "Unknown" in
    if ltb n 32
    then elim (get_or handlers n none) [
      | none ↦ halted n name r
      | some handler ↦ returned (handler r m)
    ]
    else halted n name r
