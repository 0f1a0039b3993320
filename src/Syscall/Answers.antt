-- ===== src/Syscall/Answers.antt =====
-- What every call of kernel/arch/x86/syscall.c answers once the kernel's own calls are registered.
use thunity_os.Base.{
  ℕ, zero, suc, ◌+◌, ◌≤◌, ◌≡◌, refl, ap, ◌∙◌, ◌&&◌, none, some, List, [], ◌∷◌, length, length-set,
  get_or, get_or-set, set, u32, ltb, leb, ◌==◌, if◌then◌else◌, Bool-cases, inl, inr, arith,
}
use thunity_os.Interrupts.{Registers}
use thunity_os.Kprintf.{kputc, kputs}
use thunity_os.Syscall.{
  sys_enosys, SyscallFn, init_table, syscall_table_init, syscall_register, syscall_call,
}
use thunity_os.Syscall.Dispatch.{syscall_call-register}
use thunity_os.Syscall.Kernel.{
  Kernel, sys_uptime, write_loop, sys_write, sys_getpid, sys_version, Table, syscall_init, Syscalls,
  syscall_dispatch,
}

-- The bytes of a buffer, in order.
abbrev buffer : (ℕ → ℕ) → ℕ → ℕ → ℕ → List ℕ
buffer memory zero i p = []
buffer memory (suc left) i p = memory (u32 (p + i)) ∷ buffer memory left (i + 1) p

-- What a call should do: its result, and the state after it.
abbrev pub answer : Registers → Kernel → ℕ × Kernel
answer r k =
    if r.eax == 0
    then (k.pit.ticks, k)
    else if r.eax == 1
    then (r.edx, record k { console = kputs k.console (buffer k.memory r.edx 0 r.ecx) })
    else if r.eax == 2
    then (0, k)
    else if r.eax == 3
    then (0x11, k)
    else (sys_enosys, k)

write_loop_lem :
    (left i p : ℕ) (k : Kernel)
    → write_loop left i p k ≡ record k { console = kputs k.console (buffer k.memory left i p) }
unfolding write_loop kputs
write_loop_lem zero i p k = refl
write_loop_lem (suc left) i p k =
    write_loop_lem left (i + 1) p (record k { console = kputc k.console (k.memory (u32 (p + i))) })

length-init_table : (left i : ℕ) (table : Table) → length (init_table left i table) ≡ length table
unfolding init_table
length-init_table zero i table = refl
length-init_table (suc left) i table =
    length-init_table left (i + 1) (set table i none) ∙ length-set table i none

init_table_lem :
    (left i : ℕ) (table : Table) (n : ℕ)
    → i + left ≤ length table
    → get_or (init_table left i table) n none
      ≡ (if leb i n && ltb n (i + left) then none else get_or table n none)
unfolding init_table
init_table_lem zero i table n le = ground arith
init_table_lem (suc left) i table n le = ground (
  arith,
  init_table_lem left (i + 1) (set table i none) n (omega (arith, length-set table i none)),
  get_or-set table i n none none (omega arith),
)

length-syscall_register :
    (table : Table) (num : ℕ) (fn : SyscallFn Kernel)
    → length (syscall_register table num fn).1 ≡ length table
unfolding syscall_register
length-syscall_register table num fn = elim (Bool-cases (leb (length table) num)) [
  | inl out ↦ rw out refl
  | inr inside ↦ rw inside (length-set table num (some fn))
]

-- A table on which nothing is registered.
call-empty :
    (a b c n : ℕ) (k : Kernel) (table : Table)
    → syscall_call (syscall_table_init table) n a b c k ≡ (sys_enosys, k)
unfolding syscall_call syscall_table_init
call-empty a b c n k table =
    elim (Bool-cases (leb (length (init_table (length table) 0 table)) n)) [
      | inl out ↦ rw out refl
      | inr inside ↦
          let len = length-init_table (length table) 0 table in
          let cell : get_or (init_table (length table) 0 table) n none ≡ none =
            ground (arith, init_table_lem (length table) 0 table n (omega arith), len) in
          rw (inside, cell) refl
    ]

length-table_init : (table : Table) → length (syscall_table_init table) ≡ length table
unfolding syscall_table_init
length-table_init table = length-init_table (length table) 0 table

call-answer :
    (table : Table) (r : Registers) (k : Kernel)
    → length table ≡ 16
    → syscall_call (syscall_init table) r.eax r.ebx r.ecx r.edx k ≡ answer r k
unfolding syscall_init sys_uptime sys_write sys_getpid sys_version
call-answer table r k len =
    let empty = syscall_table_init table in
    let t0 = (syscall_register empty 0 sys_uptime).1 in
    let t1 = (syscall_register t0 1 sys_write).1 in
    let t2 = (syscall_register t1 2 sys_getpid).1 in
    let n0 : length empty ≡ 16 = length-table_init table ∙ len in
    let n1 : length t0 ≡ 16 = length-syscall_register empty 0 sys_uptime ∙ n0 in
    let n2 : length t1 ≡ 16 = length-syscall_register t0 1 sys_write ∙ n1 in
    let n3 : length t2 ≡ 16 = length-syscall_register t1 2 sys_getpid ∙ n2 in
    let call = syscall_call-register r.ebx r.ecx r.edx k in
    let written : sys_write r.ebx r.ecx r.edx k
        ≡ (r.edx, record k { console = kputs k.console (buffer k.memory r.edx 0 r.ecx) }) =
      ap (λ (m : Kernel). (r.edx, m)) (write_loop_lem r.edx 0 r.ecx k) in
    ground (
      arith,
      call t2 3 sys_version r.eax,
      call t1 2 sys_getpid r.eax,
      call t0 1 sys_write r.eax,
      call empty 0 sys_uptime r.eax,
      call-empty r.ebx r.ecx r.edx r.eax k table,
      written,
      n0,
      n1,
      n2,
      n3,
    )

-- What int 0x80 leaves of the registers and of the state, with an answer.
pub record IsAnswered (r : Registers) (s : Syscalls) (a : ℕ × Kernel) (after : Registers × Syscalls)
    : Type 0 where
  pub registers : after.0 ≡ record r { eax = a.0 }
  pub last_cs : after.1.last_cs ≡ r.cs
  pub table : after.1.table ≡ s.table
  pub kernel : after.1.kernel ≡ a.1

-- After `syscall_init` on a table of 16 entries, int 0x80 answers each of the four numbers with its call's
-- result, has written the buffer to the console for number 1, and answers any other number with
-- SYS_ENOSYS; the result is in eax, the other registers are as before, and the caller's cs is recorded.
pub syscall_dispatch-syscall_init :
    (table : Table) (r : Registers) (s : Syscalls)
    → length table ≡ 16
    → s.table ≡ syscall_init table
    → IsAnswered r s (answer r s.kernel) (syscall_dispatch r s)
unfolding syscall_dispatch
syscall_dispatch-syscall_init table r s len e =
    let call : syscall_call s.table r.eax r.ebx r.ecx r.edx s.kernel ≡ answer r s.kernel =
      ap (λ (t : Table). syscall_call t r.eax r.ebx r.ecx r.edx s.kernel) e
      ∙ call-answer table r s.kernel len in
    record {
      registers = ap (λ (a : ℕ × Kernel). record r { eax = a.0 }) call;
      last_cs = refl;
      table = refl;
      kernel = ap (λ (a : ℕ × Kernel). a.1) call;
    }
