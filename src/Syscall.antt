-- ===== src/Syscall.antt =====
-- kernel/arch/x86/syscall_core.c: the table of system calls. A function works on a state that is a
-- parameter; a null pointer is `none`, and the table's size `max` is the length of the list.
pub mod Dispatch
pub mod Kernel
pub mod Answers
mod Examples
use thunity_os.Base.{
  ℕ, zero, suc, ◌+◌, ◌^◌, ◌-◌, Bool, true, false, Option, none, some, List, length, get_or, set,
  leb, if◌then◌else◌,
}

-- `SYS_ENOSYS`, which is -38, as a 32-bit word.
abbrev pub sys_enosys : ℕ
sys_enosys = 2 ^ 32 - 38

abbrev pub SyscallFn {ℓ} : Type ℓ → Type ℓ
SyscallFn S = ℕ → ℕ → ℕ → S → ℕ × S

-- The loop of `syscall_table_init` at `i`, with `left` rounds left.
unfoldable pub init_table {ℓ} :
    {S : Type ℓ} → ℕ → ℕ → List (Option (SyscallFn S)) → List (Option (SyscallFn S))
init_table zero i tbl = tbl
init_table (suc left) i tbl = init_table left (i + 1) (set tbl i none)

unfoldable pub syscall_table_init {ℓ} :
    {S : Type ℓ} → List (Option (SyscallFn S)) → List (Option (SyscallFn S))
syscall_table_init tbl = init_table (length tbl) 0 tbl

-- `true` for the result 0. A negative number, which is refused, has no counterpart here.
unfoldable pub syscall_register {ℓ} :
    {S : Type ℓ}
    → List (Option (SyscallFn S))
    → ℕ
    → SyscallFn S
    → Bool × List (Option (SyscallFn S))
syscall_register tbl num fn =
    if leb (length tbl) num then (false, tbl) else (true, set tbl num (some fn))

unfoldable pub syscall_call {ℓ} :
    {S : Type ℓ} → List (Option (SyscallFn S)) → ℕ → ℕ → ℕ → ℕ → S → ℕ × S
syscall_call tbl num a b c s =
    if leb (length tbl) num
    then (sys_enosys, s)
    else elim (get_or tbl num none) [ none ↦ (sys_enosys, s) | some fn ↦ fn a b c s ]
