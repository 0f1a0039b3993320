-- ===== src/Tasks/Examples.antt =====
-- Tests of the switch of contexts of kernel/sched: a stack of 4096 bytes at 0x20000, from a context at 0x9000.
use thunity_os.Base.{ℕ, ◌+◌, ◌*◌, ◌/◌, ◌≡◌, refl, inl, inr, arith}
use thunity_os.Tasks.{Cpu, task_init, thuos_context_switch}
use thunity_os.Tasks.Switch.{thuos_context_switch-task_init, thuos_context_switch_back}

abbrev main : Cpu
main = record { ebx = 1; esi = 2; edi = 3; ebp = 4; esp = 0x9000; eip = 0x100000 }

abbrev worker : Cpu
worker = record { ebx = 5; esi = 6; edi = 7; ebp = 8; esp = 0x20800; eip = 0x101000 }

abbrev words : ℕ → ℕ
words a = a

thuos_context_switch-task_init_example :
    (thuos_context_switch 0x8000
      (task_init 0x20000 0x1000 0x101000 words).0.esp
      main
      (task_init 0x20000 0x1000 0x101000 words).1).0
    ≡ record {
      ebx = 0;
      esi = 0;
      edi = 0;
      ebp = 0;
      esp = (0x20000 + 0x1000) / 16 * 16;
      eip = 0x101000;
    }
thuos_context_switch-task_init_example =
    thuos_context_switch-task_init 0x20000 0x1000 0x101000 0x8000 main words (omega arith)
      (omega arith) (omega arith) (omega arith) (omega arith) (inr (omega arith), inr (omega arith))

thuos_context_switch_back_example :
    (thuos_context_switch 0x8004
      ((thuos_context_switch 0x8000 0x20FEC main words).1 0x8000)
      worker
      (thuos_context_switch 0x8000 0x20FEC main words).1).0
    ≡ record main { esp = 0x9004; eip = 0x9000 }
thuos_context_switch_back_example =
    thuos_context_switch_back 0x8000 0x8004 0x20FEC main worker words
      (thuos_context_switch 0x8000 0x20FEC main words).1 (omega arith) (omega arith)
      (inl (omega arith)) (λ i lt. refl) (omega arith) (omega arith)
      (inl (omega arith), inr (omega arith))
