-- ===== src/Kprintf.antt =====
-- kernel/core/kprintf.c: the console's output, its log and the formatting of numbers and texts. What the
-- desktop's console and the serial port were given is a list, last character first, and the wait for the
-- port is left out. `none` is a write past the 32 characters of `buf`, or an argument of another kind than
-- the format asks for. A character is its code.
pub mod Log
pub mod Digits
pub mod Numbers
mod Examples
use thunity_os.Base.{
  ℕ, zero, suc, ◌+◌, ◌-◌, ◌*◌, ◌/◌, ◌%◌, ◌^◌, Bool, true, false, ◌&&◌, ◌||◌, Option, none, some,
  List, [], ◌∷◌, ◌++◌, length, get_or, set, u8, u32, ltb, leb, ◌==◌, if◌then◌else◌,
}
use mathlib.Core.Option
use thunity_os.CStrings.{codes}
use thunity_os.Vga.{Vga, vga_putc}

abbrev pub klog_cap : ℕ
klog_cap = 8192

pub record Console : Type 0 where
  pub graphical : Bool
  pub desktop : List ℕ
  pub vga : Vga
  pub serial_mirror : Bool
  pub serial : List ℕ
  pub klog_buf : List ℕ
  pub klog_w : ℕ

unfoldable pub k_serial_mirror : Console → Bool → Console
k_serial_mirror k enabled = record k { serial_mirror = enabled }

-- kernel/drivers/serial.c
unfoldable pub serial_write_char : List ℕ → ℕ → List ℕ
serial_write_char sent c = u8 c ∷ (if c == 10 then 13 ∷ sent else sent)

unfoldable pub serial_write : List ℕ → List ℕ → List ℕ
serial_write sent [] = sent
serial_write sent (c ∷ s) = serial_write (serial_write_char sent c) s

unfoldable pub raw_putc : Console → ℕ → Console
raw_putc k c =
    let k1 =
      if k.graphical
      then record k { desktop = c ∷ k.desktop }
      else record k { vga = vga_putc k.vga c } in
    if k.serial_mirror then record k1 { serial = serial_write_char k.serial c } else k1

unfoldable pub kputc : Console → ℕ → Console
kputc k c = record (raw_putc k c) {
  klog_buf = set k.klog_buf (k.klog_w % klog_cap) c;
  klog_w = u32 (k.klog_w + 1);
}

-- The loop of `klog_dump` at `i`, with `left` rounds left.
unfoldable pub dump_loop : ℕ → ℕ → Console → Console
dump_loop zero i k = k
dump_loop (suc left) i k = dump_loop left (i + 1) (raw_putc k (get_or k.klog_buf (i % klog_cap) 0))

unfoldable pub klog_dump : Console → Console
klog_dump k =
    let total = k.klog_w in
    let start = if ltb klog_cap total then total - klog_cap else 0 in
    dump_loop (total - start) start k

-- On the characters of the string.
unfoldable pub kputs : Console → List ℕ → Console
kputs k [] = k
kputs k (c ∷ s) = kputs (kputc k c) s

abbrev pub lower : List ℕ
lower = codes "0123456789abcdef"

abbrev pub upperd : List ℕ
upperd = codes "0123456789ABCDEF"

-- The digits of a value, lowest first; there is room for 32, and 32 rounds.
unfoldable pub digit_loop : ℕ → List ℕ → ℕ → ℕ → List ℕ
digit_loop zero digits base value = []
digit_loop (suc room) digits base value =
    if value == 0
    then []
    else get_or digits (value % base) 0 ∷ digit_loop room digits base (value / base)

-- Zeros up to the width `pad`, `left` of them missing, with `room` characters left in `buf`.
unfoldable pub pad_loop : ℕ → ℕ → Option (List ℕ)
pad_loop zero room = some []
pad_loop (suc left) zero = none
pad_loop (suc left) (suc room) = Option.map (λ zeros. 48 ∷ zeros) (pad_loop left room)

-- The characters from the last one to the first.
unfoldable pub kputs_back : List ℕ → Console → Console
kputs_back [] k = k
kputs_back (c ∷ s) k = kputc (kputs_back s k) c

unfoldable pub print_uint : Console → ℕ → ℕ → Bool → ℕ → Option Console
print_uint k value base upper pad =
    let digits = if upper then upperd else lower in
    let number = if value == 0 then 48 ∷ [] else digit_loop 32 digits base value in
    Option.map (λ zeros. kputs_back (number ++ zeros) k)
      (pad_loop (pad - length number) (32 - length number))

-- On the 32-bit word of the value.
unfoldable pub print_int : Console → ℕ → Option Console
print_int k value =
    if leb (2 ^ 31) value
    then print_uint (kputc k 45) (2 ^ 32 - value) 10 false 0
    else print_uint k value 10 false 0

-- An argument: a pointer to a text, or null, or a word.
pub data Arg : Type 0 where
  text_arg : Option (List ℕ) → Arg
  word_arg : ℕ → Arg

-- What is done with the next argument as a word.
abbrev with_word : List Arg → (ℕ → Option Console) → Option (List Arg × Console)
with_word (word_arg w ∷ args) f = Option.map (λ k. (args, k)) (f w)
with_word (text_arg t ∷ args) f = none
with_word [] f = none

abbrev with_text : List Arg → (List ℕ → Console) → Option (List Arg × Console)
with_text (text_arg (some t) ∷ args) f = some (args, f t)
with_text (text_arg none ∷ args) f = some (args, f (codes "(null)"))
with_text (word_arg w ∷ args) f = none
with_text [] f = none

-- The `switch` on the character of a directive.
unfoldable pub convert : ℕ → ℕ → List Arg → Console → Option (List Arg × Console)
convert c pad args k =
    if c == 115
    then with_text args (kputs k)
    else if c == 99
    then with_word args (λ w. some (kputc k (u8 w)))
    else if c == 100 || c == 105
    then with_word args (print_int k)
    else if c == 117
    then with_word args (λ w. print_uint k w 10 false pad)
    else if c == 120
    then with_word args (λ w. print_uint k w 16 false pad)
    else if c == 88
    then with_word args (λ w. print_uint k w 16 true pad)
    else if c == 112
    then with_word args (λ w. print_uint (kputs k (codes "0x")) w 16 false 8)
    else if c == 37
    then some (args, kputc k 37)
    else some (args, kputc (kputc k 37) c)

-- Where the walk over the format is: in the text, after a `%`, or in the width after `%0`.
pub data Place : Type 0 where
  in_text : Place
  after_percent : Place
  in_width : ℕ → Place

unfoldable pub format : List ℕ → Place → List Arg → Console → Option Console
format [] place args k = some k
format (c ∷ s) in_text args k = elim (c == 37) [
  | true ↦ format s after_percent args k
  | false ↦ format s in_text args (kputc k c)
]
format (c ∷ s) after_percent args k = elim (c == 48) [
  | true ↦ format s (in_width 0) args k
  | false ↦ elim (convert c 0 args k) [ none ↦ none | some r ↦ format s in_text r.0 r.1 ]
]
format (c ∷ s) (in_width pad) args k = elim (leb 48 c && leb c 57) [
  | true ↦ format s (in_width (pad * 10 + (c - 48))) args k
  | false ↦ elim (convert c pad args k) [ none ↦ none | some r ↦ format s in_text r.0 r.1 ]
]

unfoldable pub kprintf : Console → List ℕ → List Arg → Option Console
kprintf k fmt args = format fmt in_text args k
