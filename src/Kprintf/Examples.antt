-- ===== src/Kprintf/Examples.antt =====
-- Tests of the output of kernel/core/kprintf.c on the serial port, with the text screen behind it.
use thunity_os.Base.{
  ℕ, ◌-◌, ◌≡◌, ◌≤◌, refl, inr, true, false, some, List, [], ◌∷◌, length, length-replicate,
  replicate, drop, arith,
}
use mathlib.Core.Option
use thunity_os.CStrings.{codes}
use thunity_os.Kprintf.{
  klog_cap, Console, serial_write_char, serial_write, raw_putc, kputc, kputs, klog_dump, print_uint,
  print_int, text_arg, word_arg, kprintf, digit_loop, pad_loop, kputs_back, convert, format,
}
use thunity_os.Kprintf.Digits.{AllDigits}
use thunity_os.Kprintf.Numbers.{reads, print_uint-reads}
use thunity_os.Kprintf.Log.{raw_write, klog_dump-kputs}

abbrev start : Console
start = record {
  graphical = true;
  desktop = [];
  vga = record { cells = replicate 2000 0; row = 0; col = 0; color = 7; cursor = 0 };
  serial_mirror = true;
  serial = [];
  klog_buf = replicate 8192 0;
  klog_w = 0;
}

-- The same with a log of no entries, to be evaluated.
abbrev quick : Console
quick = record start { klog_buf = [] }

line_end : serial_write [] (codes "a\n") ≡ 10 ∷ 13 ∷ 97 ∷ []
unfolding serial_write serial_write_char
line_end = refl

registers_line :
    Option.map
      (λ k. k.desktop)
      (kprintf quick
        (codes "%s=0x%08x %d%%")
        (text_arg (some (codes "eip")) ∷ word_arg 0xC0DE ∷ word_arg 0xFFFFFFFF ∷ []))
    ≡ some (
        37 ∷ 49 ∷ 45 ∷ 32 ∷ 101 ∷ 100 ∷ 48 ∷ 99 ∷ 48 ∷ 48 ∷ 48 ∷ 48 ∷ 120 ∷ 48 ∷ 61 ∷ 112 ∷ 105
        ∷ 101 ∷ [])
unfolding kprintf format convert print_uint print_int digit_loop pad_loop kputs_back kputs kputc
    raw_putc serial_write_char
registers_line = refl

print_uint-reads_example :
    (text : List ℕ) × (print_uint start 0xBEEF 16 false 8 ≡ some (kputs start text))
    × (reads 16 0 text ≡ 0xBEEF)
    × (8 ≤ length text)
    × (1 ≤ length text)
    × (length text ≤ 32)
    × AllDigits text
print_uint-reads_example =
    print_uint-reads start 0xBEEF 16 false 8 (inr refl) (omega arith) (omega arith)

klog_dump-kputs_example :
    klog_dump (kputs start (codes "boot"))
    ≡ raw_write
        (kputs start (codes "boot"))
        (drop (length (codes "boot") - klog_cap) (codes "boot"))
klog_dump-kputs_example =
    klog_dump-kputs (codes "boot") start (length-replicate {A = ℕ} 8192 0) refl (omega arith)
