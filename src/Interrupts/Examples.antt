-- ===== src/Interrupts/Examples.antt =====
-- Tests of the routing of interrupts of kernel/arch/x86, with one other driver, on IRQ 1, that counts its
-- interrupts.
use thunity_os.Base.{
  ℕ, zero, suc, ◌+◌, ◌/◌, ◌≡◌, ◌≢◌, refl, Option, none, some, List, [], ◌∷◌, get_or, replicate, u32,
  ◌==◌, if◌then◌else◌, arith,
}
use thunity_os.CStrings.{codes}
use thunity_os.Interrupts.{
  Registers, Machine, Handler, pic_send_eoi, irq_handler, pit_init, pit_divisor, pit_ticks,
  pit_seconds, halted, isr_handler,
}
use thunity_os.Interrupts.Clock.{interrupts, timers, KeepsPit, pit_ticks-interrupts}

abbrev frame : ℕ → Registers
frame n = record {
  ds = 0x10;
  edi = 0;
  esi = 0;
  ebp = 0;
  esp = 0;
  ebx = 0;
  edx = 0;
  ecx = 0;
  eax = 0;
  int_no = n;
  err_code = 0;
  eip = 0x100000;
  cs = 8;
  eflags = 0x202;
  useresp = 0;
  ss = 0;
}

abbrev count_key : Handler ℕ
count_key r m = record m { drivers = m.drivers + 1 }

abbrev no_handlers : List (Option (Handler ℕ))
no_handlers = replicate 16 none

abbrev handlers : List (Option (Handler ℕ))
handlers = none ∷ some count_key ∷ replicate 14 none

abbrev at_boot : Machine ℕ
at_boot = record { pit = record { ticks = 77; freq_hz = 100 }; out = []; drivers = 0 }

abbrev sequence : List Registers
sequence = frame 32 ∷ frame 33 ∷ frame 32 ∷ frame 46 ∷ []

-- IRQ 14 has no handler, and is acknowledged at both chips.
acknowledged : (irq_handler handlers (frame 46) at_boot).out ≡ (0x20, 0x20) ∷ (0xA0, 0x20) ∷ []
unfolding irq_handler pic_send_eoi
acknowledged = refl

hundred_hertz : pit_divisor 100 ≡ 11931
hundred_hertz = refl

-- Above the base frequency the divisor is 0.
no_divisor : pit_divisor 1193183 ≡ 0
no_divisor = refl

page_fault : isr_handler no_handlers (frame 14) at_boot ≡ halted 14 (codes "Page fault") (frame 14)
unfolding isr_handler
page_fault = refl

no_others : (n i : ℕ) → get_or {A = Option (Handler ℕ)} (replicate n none) i none ≡ none
no_others zero i = refl
no_others (suc n) zero = refl
no_others (suc n) (suc i) = no_others n i

keeps : (i : ℕ) → i ≢ 0 → KeepsPit (get_or handlers i none)
keeps zero ne r m = absurd (ne refl)
keeps (suc zero) ne r m = refl
keeps (suc (suc i)) ne r m = rw (no_others 14 i) refl

pit_ticks-interrupts_example :
    (pit_ticks (interrupts (pit_init 1 handlers at_boot).0 sequence (pit_init 1 handlers at_boot).1)
      ≡ u32 (timers sequence))
    × (pit_seconds
          (interrupts (pit_init 1 handlers at_boot).0 sequence (pit_init 1 handlers at_boot).1)
        ≡ u32 (timers sequence) / (if 1 == 0 then 100 else 1))
pit_ticks-interrupts_example =
    pit_ticks-interrupts 1 handlers at_boot sequence refl keeps
      (omega arith, (omega arith, (omega arith, (omega arith, tt))))
