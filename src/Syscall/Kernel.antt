-- ===== src/Syscall/Kernel.antt =====
-- kernel/arch/x86/syscall.c: the kernel's own calls and the dispatch of int 0x80. The state that calls work on is the
-- clock of Interrupts, the console of Kprintf, and the memory, which gives the byte at an address.
use thunity_os.Base.{ℕ, zero, suc, ◌+◌, Bool, Option, none, some, List, [], ◌∷◌, u32}
use thunity_os.Interrupts.{Pit, Registers}
use thunity_os.Kprintf.{Console, kputc}
use thunity_os.Syscall.{SyscallFn, syscall_table_init, syscall_register, syscall_call}

pub record Kernel : Type 0 where
  pub pit : Pit
  pub console : Console
  pub memory : ℕ → ℕ

unfoldable pub sys_uptime : SyscallFn Kernel
sys_uptime a b c k = (k.pit.ticks, k)

-- The loop of `sys_write` at `i`, with `left` rounds left.
unfoldable pub write_loop : ℕ → ℕ → ℕ → Kernel → Kernel
write_loop zero i p k = k
write_loop (suc left) i p k =
    write_loop left (i + 1) p (record k { console = kputc k.console (k.memory (u32 (p + i))) })

unfoldable pub sys_write : SyscallFn Kernel
sys_write fd buf len k = (len, write_loop len 0 buf k)

unfoldable pub sys_getpid : SyscallFn Kernel
sys_getpid a b c k = (0, k)

unfoldable pub sys_version : SyscallFn Kernel
sys_version a b c k = (0x0011, k)

abbrev pub Table : Type 0
Table = List (Option (SyscallFn Kernel))

-- The part of `syscall_init` that is about the calls; their numbers are 0 to 3.
unfoldable pub syscall_init : Table → Table
syscall_init table =
    let t0 = (syscall_register (syscall_table_init table) 0 sys_uptime).1 in
    let t1 = (syscall_register t0 1 sys_write).1 in
    let t2 = (syscall_register t1 2 sys_getpid).1 in (syscall_register t2 3 sys_version).1

pub record Syscalls : Type 0 where
  pub table : Table
  pub last_cs : ℕ
  pub kernel : Kernel

abbrev pub answered : Registers → Syscalls → ℕ × Kernel → Registers × Syscalls
answered r s (ret, k) = (record r { eax = ret }, record s { last_cs = r.cs; kernel = k })

unfoldable pub syscall_dispatch : Registers → Syscalls → Registers × Syscalls
syscall_dispatch r s = answered r s (syscall_call s.table r.eax r.ebx r.ecx r.edx s.kernel)

unfoldable pub syscall_last_cs : Syscalls → ℕ
syscall_last_cs s = s.last_cs

unfoldable pub syscall_register_extra : Syscalls → ℕ → SyscallFn Kernel → Bool × Syscalls
syscall_register_extra s num fn =
    let (ok, table) = syscall_register s.table num fn in (ok, record s { table = table })

-- The entries that are set.
unfoldable pub syscall_count : Table → ℕ
syscall_count [] = 0
syscall_count (f ∷ table) = (elim f [ none ↦ 0 | some fn ↦ 1 ]) + syscall_count table
