-- ===== src/Shell/Examples.antt =====
-- Tests of the shell of kernel/shell/shell.c.
use thunity_os.Base.{ℕ, ◌+◌, ◌≡◌, refl, true, false, none, some, List, [], ◌∷◌, replicate, arith}
use thunity_os.CStrings.{codes}
use thunity_os.Kprintf.{Console, kputs, print_uint}
use thunity_os.Shell.{
  hist_record, history_loop, cmd_history, hex_loop, parse_hex, uint_loop, parse_uint,
  shell_feed_char,
}
use thunity_os.Shell.Addresses.{parse_hex-print_uint}

abbrev console : Console
console = record {
  graphical = true;
  desktop = [];
  vga = record { cells = []; row = 0; col = 0; color = 7; cursor = 0 };
  serial_mirror = false;
  serial = [];
  klog_buf = replicate 8192 0;
  klog_w = 0;
}

an_address : parse_hex (codes "0x10fF") ≡ some 0x10FF
unfolding parse_hex hex_loop
an_address = refl

-- Nine digits are taken on 32 bits.
too_long : parse_hex (codes "123456789") ≡ some 0x23456789
unfolding parse_hex hex_loop
too_long = refl

no_number : parse_hex (codes "0xg") ≡ none
unfolding parse_hex hex_loop
no_number = refl

a_size : parse_uint (codes "64 bytes") ≡ some 64
unfolding parse_uint uint_loop
a_size = refl

remembered :
    cmd_history (
      hist_record
        (hist_record (record { hist = replicate 16 []; hist_n = 0 }) (codes "ls"))
        (codes "mem"))
    ≡ (1, codes "ls") ∷ (2, codes "mem") ∷ []
unfolding cmd_history hist_record history_loop
remembered = refl

-- A backspace takes the last character of the line.
corrected :
    (shell_feed_char (λ (s : ℕ) c. s + 1) (λ l s. s) (λ s. s) (codes "lx", 0) 8).0 ≡ codes "l"
unfolding shell_feed_char
corrected = refl

parse_hex-print_uint_example :
    (text : List ℕ) × (print_uint console 0x1F3000 16 false 8 ≡ some (kputs console text))
    × (parse_hex text ≡ some 0x1F3000)
    × (parse_hex (48 ∷ 120 ∷ text) ≡ some 0x1F3000)
parse_hex-print_uint_example =
    parse_hex-print_uint console 0x1F3000 false 8 (omega arith) (omega arith) (omega arith)
