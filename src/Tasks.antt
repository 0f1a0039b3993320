-- ===== src/Tasks.antt =====
-- kernel/sched/task.c, the stack of a new task, and kernel/sched/context.S, the switch to it. Memory gives the 32-bit
-- word at an address.
pub mod Switch
mod Examples
use thunity_os.Base.{ℕ, ◌+◌, ◌-◌, ◌*◌, ◌/◌, u32, sub32, ◌==◌, if◌then◌else◌}

abbrev pub stack_align : ℕ
stack_align = 16

pub record Task : Type 0 where
  pub esp : ℕ
  pub stack : ℕ
  pub stack_sz : ℕ

-- The registers that a switch is about; `eip` is the address that runs next.
pub record Cpu : Type 0 where
  pub ebx : ℕ
  pub esi : ℕ
  pub edi : ℕ
  pub ebp : ℕ
  pub esp : ℕ
  pub eip : ℕ

abbrev pub store : (ℕ → ℕ) → ℕ → ℕ → ℕ → ℕ
store m a v = λ b. if b == a then v else m b

-- On the address of the stack and that of `entry`.
unfoldable pub task_init : ℕ → ℕ → ℕ → (ℕ → ℕ) → Task × (ℕ → ℕ)
task_init stack size entry m =
    let top = u32 (stack + size) / stack_align * stack_align in
    let m1 = store m (sub32 top 4) (u32 entry) in
    let m2 = store m1 (sub32 top 8) 0 in
    let m3 = store m2 (sub32 top 12) 0 in
    let m4 = store m3 (sub32 top 16) 0 in
    let m5 = store m4 (sub32 top 20) 0 in
    (record { esp = sub32 top 20; stack = stack; stack_sz = size }, m5)

-- From the instruction after the call on, where the stack pointer is at the return address: the registers
-- are pushed, the stack pointer is saved at `save_old_esp`, and the new stack's registers are popped.
unfoldable pub thuos_context_switch : ℕ → ℕ → Cpu → (ℕ → ℕ) → Cpu × (ℕ → ℕ)
thuos_context_switch save_old_esp new_esp c m =
    let m1 = store m (sub32 c.esp 4) c.ebx in
    let m2 = store m1 (sub32 c.esp 8) c.esi in
    let m3 = store m2 (sub32 c.esp 12) c.edi in
    let m4 = store m3 (sub32 c.esp 16) c.ebp in
    let m5 = store m4 save_old_esp (sub32 c.esp 16) in
    (
      record {
        ebp = m5 new_esp;
        edi = m5 (u32 (new_esp + 4));
        esi = m5 (u32 (new_esp + 8));
        ebx = m5 (u32 (new_esp + 12));
        eip = m5 (u32 (new_esp + 16));
        esp = u32 (new_esp + 20);
      },
      m5,
    )
