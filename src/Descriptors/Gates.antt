-- ===== src/Descriptors/Gates.antt =====
-- What a descriptor of kernel/arch/x86/gdt.c says to the processor, and that the table of `gdt_init` says it.
use thunity_os.Base.{
  ℕ, ◌+◌, ◌*◌, ◌/◌, ◌%◌, ◌^◌, ◌<◌, ◌≡◌, ◌≢◌, refl, ap, List, [], ◌∷◌, length, get_or,
  get_or-set_self, get_or-set_ne, length-set, ◌==◌, ==→eq, true, bit_or, bit_and, arith, ◌∙◌,
}
use thunity_os.Base.Tables.{all_below, all_below_sound}
use thunity_os.Descriptors.{
  GdtEntry, no_gate, gdt_gate, gdt_set_gate, gdt_init, um_tss_descriptor, tss_base, tss_limit,
}

-- The fields as the processor puts them together.
abbrev pub base_of : GdtEntry → ℕ
base_of g = g.base_low + g.base_mid * 2 ^ 16 + g.base_high * 2 ^ 24

abbrev pub limit_of : GdtEntry → ℕ
limit_of g = g.limit_low + g.granularity % 2 ^ 4 * 2 ^ 16

abbrev pub flags_of : GdtEntry → ℕ
flags_of g = g.granularity / 2 ^ 4

-- The 8 bytes in memory, low bytes first.
abbrev pub bytes_of : GdtEntry → List ℕ
bytes_of g =
    g.limit_low % 2 ^ 8
    ∷ g.limit_low / 2 ^ 8
    ∷ g.base_low % 2 ^ 8
    ∷ g.base_low / 2 ^ 8
    ∷ g.base_mid
    ∷ g.access
    ∷ g.granularity
    ∷ g.base_high
    ∷ []

nibbles :
    all_below 16 (λ l. all_below 256 (λ g. bit_or l (bit_and g 0xF0) == l + g / 16 * 16)) ≡ true
unfolding all_below
nibbles = refl

-- The two halves of the granularity byte do not touch.
granularity_lem : (l g : ℕ) → l < 16 → g < 256 → bit_or l (bit_and g 0xF0) ≡ l + g / 16 * 16
granularity_lem l g hl hg = ==→eq _ _ (
    all_below_sound 256 (λ g. bit_or l (bit_and g 0xF0) == l + g / 16 * 16) g
      (all_below_sound 16 (λ l. all_below 256 (λ g. bit_or l (bit_and g 0xF0) == l + g / 16 * 16)) l
        nibbles hl)
      hg)

-- The entry describes the segment of that base and that 20-bit limit.
abbrev pub Says : GdtEntry → ℕ → ℕ → ℕ → ℕ → Type 0
Says g base limit access gran =
    (base_of g ≡ base)
    × (limit_of g ≡ limit % 2 ^ 20)
    × (g.access ≡ access)
    × (flags_of g ≡ gran / 2 ^ 4)

gdt_gate-Says :
    (base limit access gran : ℕ)
    → base < 2 ^ 32
    → gran < 2 ^ 8
    → Says (gdt_gate base limit access gran) base limit access gran
gdt_gate-Says base limit access gran hb hg =
    let e = granularity_lem (limit / 2 ^ 16 % 2 ^ 4) gran (omega arith) hg in
    (omega arith, omega (arith, e), refl, omega (arith, e))

-- After `gdt_set_gate` an entry of the table describes the segment of the 32-bit base, of the low 20 bits
-- of the limit, and of the access byte and the upper half of the flags byte given; the others stay.
pub gdt_set_gate-Says :
    (gdt : List GdtEntry) (n base limit access gran : ℕ)
    → n < length gdt
    → base < 2 ^ 32
    → gran < 2 ^ 8
    → Says (get_or (gdt_set_gate gdt n base limit access gran) n no_gate) base limit access gran
      × ((j : ℕ)
          → n ≢ j
          → get_or (gdt_set_gate gdt n base limit access gran) j no_gate ≡ get_or gdt j no_gate)
unfolding gdt_set_gate
gdt_set_gate-Says gdt n base limit access gran lt hb hg =
    let e = get_or-set_self gdt n (gdt_gate base limit access gran) no_gate lt in
    (
      rw e (gdt_gate-Says base limit access gran hb hg),
      λ j ne. get_or-set_ne gdt n j (gdt_gate base limit access gran) no_gate ne,
    )

gdt_gate-um_tss_descriptor :
    (base limit : ℕ) → bytes_of (gdt_gate base limit 0x89 0) ≡ um_tss_descriptor base limit
unfolding um_tss_descriptor
gdt_gate-um_tss_descriptor base limit =
    let g = granularity_lem (limit / 2 ^ 16 % 2 ^ 4) 0 (omega arith) (omega arith) in
    let l0 : limit % 2 ^ 16 % 2 ^ 8 ≡ limit % 2 ^ 8 = omega arith in
    let l1 : limit % 2 ^ 16 / 2 ^ 8 ≡ limit / 2 ^ 8 % 2 ^ 8 = omega arith in
    let b0 : base % 2 ^ 16 % 2 ^ 8 ≡ base % 2 ^ 8 = omega arith in
    let b1 : base % 2 ^ 16 / 2 ^ 8 ≡ base / 2 ^ 8 % 2 ^ 8 = omega arith in
    let g' : bit_or (limit / 2 ^ 16 % 2 ^ 4) (bit_and 0 0xF0) ≡ limit / 2 ^ 16 % 2 ^ 4 =
      omega (arith, g) in
    cc (l0, l1, b0, b1, g')

-- The sixth entry of the table that `gdt_init` loads has the bytes that um_tss_descriptor gives for the
-- base and the limit of the task state segment.
pub gdt_init-um_tss_descriptor :
    (gdt : List GdtEntry) (g_tss : ℕ)
    → length gdt ≡ 6
    → bytes_of (get_or (gdt_init gdt g_tss) 5 no_gate)
      ≡ um_tss_descriptor (tss_base g_tss) tss_limit
unfolding gdt_init gdt_set_gate
gdt_init-um_tss_descriptor gdt g_tss six =
    ap bytes_of (
      get_or-set_self _ 5 (gdt_gate (tss_base g_tss) tss_limit 0x89 0) no_gate (
        omega (
          arith,
          length-set _ 4 _
              ∙ length-set _ 3 _
              ∙ length-set _ 2 _
              ∙ length-set _ 1 _
              ∙ length-set gdt 0 _
              ∙ six,
        )))
    ∙ gdt_gate-um_tss_descriptor (tss_base g_tss) tss_limit
