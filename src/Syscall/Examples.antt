-- ===== src/Syscall/Examples.antt =====
-- Tests of the system call table of kernel/arch/x86/syscall_core.c: a call that adds to a counter,
-- and the calls of kernel/arch/x86/syscall.c.
use thunity_os.Base.{
  true, false, [], ◌∷◌, ℕ, ◌+◌, ◌≡◌, refl, Option, none, List, replicate, ◌==◌, if◌then◌else◌,
}
use thunity_os.Syscall.{init_table, syscall_table_init, SyscallFn, syscall_register, syscall_call}
use thunity_os.Syscall.Kernel.{
  Kernel, Table, Syscalls, sys_write, write_loop, syscall_init, syscall_count, syscall_dispatch,
}
use thunity_os.Syscall.Answers.{answer, IsAnswered, syscall_dispatch-syscall_init}
use thunity_os.Interrupts.{Registers}
use thunity_os.Kprintf.{kputc, raw_putc}

abbrev table : List (Option (SyscallFn ℕ))
table = replicate 16 none

abbrev count : SyscallFn ℕ
count a b c s = (a, s + b)

calls_3 : syscall_call (syscall_register table 3 count).1 3 7 1 0 41 ≡ (7, 42)
unfolding syscall_register syscall_call
calls_3 = refl

abbrev frame : Registers
frame = record {
  ds = 0x23;
  edi = 0;
  esi = 0;
  ebp = 0;
  esp = 0;
  ebx = 1;
  edx = 2;
  ecx = 0x1000;
  eax = 1;
  int_no = 128;
  err_code = 0;
  eip = 0x100000;
  cs = 0x1B;
  eflags = 0x202;
  useresp = 0;
  ss = 0x23;
}

abbrev empty_table : Table
empty_table = replicate 16 none

abbrev kernel : Kernel
kernel = record {
  pit = record { ticks = 500; freq_hz = 100 };
  console = record {
    graphical = true;
    desktop = [];
    vga = record { cells = []; row = 0; col = 0; color = 7; cursor = 0 };
    serial_mirror = false;
    serial = [];
    klog_buf = [];
    klog_w = 0;
  };
  memory = λ a. if a == 0x1000 then 111 else 107;
}

abbrev calls : Syscalls
calls = record { table = syscall_init empty_table; last_cs = 0; kernel = kernel }

four_calls : syscall_count (syscall_init empty_table) ≡ 4
unfolding syscall_count syscall_init syscall_register syscall_table_init init_table
four_calls = refl

written : (syscall_dispatch frame calls).1.kernel.console.desktop ≡ 107 ∷ 111 ∷ []
unfolding syscall_dispatch syscall_call syscall_init syscall_register syscall_table_init init_table
    sys_write write_loop kputc raw_putc
written = refl

syscall_dispatch-syscall_init_example :
    IsAnswered frame calls (answer frame kernel) (syscall_dispatch frame calls)
syscall_dispatch-syscall_init_example =
    syscall_dispatch-syscall_init empty_table frame calls refl refl
