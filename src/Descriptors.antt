-- ===== src/Descriptors.antt =====
-- The descriptor tables of kernel/arch/x86: gdt.c, tss.c, idt.c and usermode_core.c. A table is the list of
-- its entries. An address that the linker or the compiler chooses is a parameter; the loads of the table
-- registers (lgdt, ltr, lidt) have no result here. Masks and shifts are written as arithmetic.
pub mod Gates
pub mod Vectors
mod Examples
use thunity_os.Base.{
  ℕ, zero, suc, ◌+◌, ◌-◌, ◌*◌, ◌/◌, ◌%◌, ◌^◌, List, [], ◌∷◌, get_or, set, u8, u16, u32, bit_or,
  bit_and,
}

pub record GdtEntry : Type 0 where
  pub limit_low : ℕ
  pub base_low : ℕ
  pub base_mid : ℕ
  pub access : ℕ
  pub granularity : ℕ
  pub base_high : ℕ

abbrev pub no_gate : GdtEntry
no_gate = record {
  limit_low = 0;
  base_low = 0;
  base_mid = 0;
  access = 0;
  granularity = 0;
  base_high = 0;
}

-- The entry that `gdt_set_gate` writes: every field of it.
abbrev pub gdt_gate : ℕ → ℕ → ℕ → ℕ → GdtEntry
gdt_gate base limit access gran = record {
  limit_low = limit % 2 ^ 16;
  base_low = base % 2 ^ 16;
  base_mid = base / 2 ^ 16 % 2 ^ 8;
  access = access;
  granularity = bit_or (limit / 2 ^ 16 % 2 ^ 4) (bit_and gran 0xF0);
  base_high = base / 2 ^ 24 % 2 ^ 8;
}

unfoldable pub gdt_set_gate : List GdtEntry → ℕ → ℕ → ℕ → ℕ → ℕ → List GdtEntry
gdt_set_gate gdt n base limit access gran = set gdt n (gdt_gate base limit access gran)

-- kernel/arch/x86/usermode_core.c

abbrev pub um_kdata_sel : ℕ
um_kdata_sel = 0x10

abbrev pub um_tss_idx : ℕ
um_tss_idx = 5

unfoldable pub um_selector : ℕ → ℕ → ℕ
um_selector index rpl = u16 (index * 8 + rpl % 4)

abbrev um_eflags_if : ℕ
um_eflags_if = 0x200

abbrev um_eflags_rsvd1 : ℕ
um_eflags_rsvd1 = 2

abbrev um_eflags_nt : ℕ
um_eflags_nt = 0x4000

unfoldable pub um_user_eflags : ℕ → ℕ
um_user_eflags base_flags =
    bit_or (bit_or (bit_and base_flags (2 ^ 32 - 1 - um_eflags_nt)) um_eflags_if) um_eflags_rsvd1

-- The 8 bytes of `out`.
unfoldable pub um_tss_descriptor : ℕ → ℕ → List ℕ
um_tss_descriptor base limit =
    limit % 2 ^ 8
    ∷ limit / 2 ^ 8 % 2 ^ 8
    ∷ base % 2 ^ 8
    ∷ base / 2 ^ 8 % 2 ^ 8
    ∷ base / 2 ^ 16 % 2 ^ 8
    ∷ 0x89
    ∷ limit / 2 ^ 16 % 2 ^ 4
    ∷ base / 2 ^ 24 % 2 ^ 8
    ∷ []

-- kernel/arch/x86/tss.c

pub record TssEntry : Type 0 where
  pub prev_tss : ℕ
  pub esp0 : ℕ
  pub ss0 : ℕ
  pub esp1 : ℕ
  pub ss1 : ℕ
  pub esp2 : ℕ
  pub ss2 : ℕ
  pub cr3 : ℕ
  pub eip : ℕ
  pub eflags : ℕ
  pub eax : ℕ
  pub ecx : ℕ
  pub edx : ℕ
  pub ebx : ℕ
  pub esp : ℕ
  pub ebp : ℕ
  pub esi : ℕ
  pub edi : ℕ
  pub es : ℕ
  pub cs : ℕ
  pub ss : ℕ
  pub ds : ℕ
  pub fs : ℕ
  pub gs : ℕ
  pub ldt : ℕ
  pub trap : ℕ
  pub iomap_base : ℕ

-- `sizeof g_tss`: 25 fields of 4 bytes and two of 2 bytes.
abbrev pub sizeof_tss : ℕ
sizeof_tss = 104

-- `tss_init`, on the end of `tss_kstack`.
unfoldable pub tss_init : ℕ → TssEntry
tss_init kstack_end = record {
  prev_tss = 0;
  esp0 = u32 kstack_end;
  ss0 = um_kdata_sel;
  esp1 = 0;
  ss1 = 0;
  esp2 = 0;
  ss2 = 0;
  cr3 = 0;
  eip = 0;
  eflags = 0;
  eax = 0;
  ecx = 0;
  edx = 0;
  ebx = 0;
  esp = 0;
  ebp = 0;
  esi = 0;
  edi = 0;
  es = 0;
  cs = 0;
  ss = 0;
  ds = 0;
  fs = 0;
  gs = 0;
  ldt = 0;
  trap = 0;
  iomap_base = u16 sizeof_tss;
}

unfoldable pub tss_set_esp0 : TssEntry → ℕ → TssEntry
tss_set_esp0 t esp0 = record t { esp0 = esp0 }

-- On the address of `g_tss`.
unfoldable pub tss_base : ℕ → ℕ
tss_base g_tss = u32 g_tss

abbrev pub tss_limit : ℕ
tss_limit = sizeof_tss - 1

abbrev pub tss_selector : ℕ
tss_selector = um_selector um_tss_idx 0

-- `gdt_init`, on the address of `g_tss`: the table that is loaded.
unfoldable pub gdt_init : List GdtEntry → ℕ → List GdtEntry
gdt_init gdt g_tss =
    let g0 = gdt_set_gate gdt 0 0 0 0 0 in
    let g1 = gdt_set_gate g0 1 0 0xFFFFFFFF 0x9A 0xCF in
    let g2 = gdt_set_gate g1 2 0 0xFFFFFFFF 0x92 0xCF in
    let g3 = gdt_set_gate g2 3 0 0xFFFFFFFF 0xFA 0xCF in
    let g4 = gdt_set_gate g3 4 0 0xFFFFFFFF 0xF2 0xCF in
    gdt_set_gate g4 5 (tss_base g_tss) tss_limit 0x89 0

-- kernel/arch/x86/idt.c

pub record IdtEntry : Type 0 where
  pub base_low : ℕ
  pub selector : ℕ
  pub always0 : ℕ
  pub flags : ℕ
  pub base_high : ℕ

abbrev pub idt_gate : ℕ → ℕ → ℕ → IdtEntry
idt_gate handler selector flags = record {
  base_low = handler % 2 ^ 16;
  selector = selector;
  always0 = 0;
  flags = flags;
  base_high = handler / 2 ^ 16 % 2 ^ 16;
}

unfoldable pub idt_set_gate : List IdtEntry → ℕ → ℕ → ℕ → ℕ → List IdtEntry
idt_set_gate idt num handler selector flags = set idt (u8 num) (idt_gate handler selector flags)

-- The loop of `idt_init` at `i`, with `left` rounds left.
unfoldable pub idt_loop : ℕ → ℕ → List IdtEntry → List IdtEntry
idt_loop zero i idt = idt
idt_loop (suc left) i idt = idt_loop left (i + 1) (idt_set_gate idt i 0 0 0)

unfoldable pub idt_init : List IdtEntry → List IdtEntry
idt_init idt = idt_loop 256 0 idt
