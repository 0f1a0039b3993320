-- ===== src/Shell/Addresses.antt =====
-- An address that kernel/core/kprintf.c prints can be typed into kernel/shell/shell.c.
use thunity_os.Base.{
  ℕ, ◌+◌, ◌*◌, ◌^◌, ◌≤◌, ◌<◌, ◌≡◌, refl, sym, ap, ◌∙◌, inr, Bool, true, false, ◌&&◌, ◌||◌, some,
  List, [], ◌∷◌, length, u32, ◌==◌, arith,
}
use thunity_os.Kprintf.{Console, kputs, print_uint}
use thunity_os.Kprintf.Digits.{is_digit, AllDigits}
use thunity_os.Kprintf.Numbers.{digit_of, reads, print_uint-reads}
use thunity_os.Shell.{hex_digit, hex_loop, parse_hex}

hex_digit_lem : (c : ℕ) → is_digit c ≡ true → hex_digit c ≡ some (digit_of c)
hex_digit_lem c d = ground (arith, d)

u32-reads : (v : ℕ) (s : List ℕ) → u32 (reads 16 (u32 v) s) ≡ u32 (reads 16 v s)
u32-reads v [] = omega arith
u32-reads v (c ∷ s) =
    sym (u32-reads (u32 v * 16 + digit_of c) s)
    ∙ ap (λ x. u32 (reads 16 x s)) (omega arith)
    ∙ u32-reads (v * 16 + digit_of c) s

-- Digits are read as the number that they show, on 32 bits.
hex_loop-reads :
    (s : List ℕ) (v : ℕ) → v < 2 ^ 32 → AllDigits s → hex_loop s v true ≡ some (u32 (reads 16 v s))
unfolding hex_loop
hex_loop-reads [] v lt ds = ap some (omega arith)
hex_loop-reads (c ∷ s) v lt (d, ds) =
    rw (hex_digit_lem c d, hex_loop)
      (hex_loop-reads s (u32 (v * 16 + digit_of c)) (omega arith) ds
        ∙ ap some (u32-reads (v * 16 + digit_of c) s))

hex_loop-first :
    (c : ℕ) (s : List ℕ)
    → AllDigits (c ∷ s)
    → hex_loop (c ∷ s) 0 false ≡ some (u32 (reads 16 0 (c ∷ s)))
unfolding hex_loop
hex_loop-first c s (d, ds) =
    rw (hex_digit_lem c d, hex_loop)
      (hex_loop-reads s (u32 (0 * 16 + digit_of c)) (omega arith) ds
        ∙ ap some (u32-reads (0 * 16 + digit_of c) s))

-- A second digit is no x.
no_prefix : (a b : ℕ) → is_digit b ≡ true → ((a == 48) && ((b == 120) || (b == 88))) ≡ false
no_prefix a b d = ground (arith, d)

parse_hex-reads :
    (c : ℕ) (s : List ℕ) → AllDigits (c ∷ s) → parse_hex (c ∷ s) ≡ some (u32 (reads 16 0 (c ∷ s)))
unfolding parse_hex
parse_hex-reads c [] ds = hex_loop-first c [] ds
parse_hex-reads c (b ∷ s) ds = rw (no_prefix c b ds.1.0) (hex_loop-first c (b ∷ s) ds)

parse_hex-prefixed :
    (c : ℕ) (s : List ℕ)
    → AllDigits (c ∷ s)
    → parse_hex (48 ∷ 120 ∷ c ∷ s) ≡ some (u32 (reads 16 0 (c ∷ s)))
unfolding parse_hex
parse_hex-prefixed c s ds = hex_loop-first c s ds

-- A 32-bit address that is printed in base 16, with a width of 1 to 32, is the text of an address for the
-- commands, with 0x before it or without: they read it as the address.
pub parse_hex-print_uint :
    (k : Console) (value : ℕ) (upper : Bool) (pad : ℕ)
    → value < 2 ^ 32
    → 0 < pad
    → pad ≤ 32
    → (text : List ℕ) × (print_uint k value 16 upper pad ≡ some (kputs k text))
      × (parse_hex text ≡ some value)
      × (parse_hex (48 ∷ 120 ∷ text) ≡ some value)
parse_hex-print_uint k value upper pad lt pos le =
    let (text, e, whole, long, least, few, digits) =
      print_uint-reads k value 16 upper pad (inr refl) lt le in
    let r = reading text whole (omega (arith, long, pos)) digits in (text, e, r.0, r.1)
  where
    reading :
        (text : List ℕ)
        → reads 16 0 text ≡ value
        → 0 < length text
        → AllDigits text
        → (parse_hex text ≡ some value) × (parse_hex (48 ∷ 120 ∷ text) ≡ some value)
    reading [] whole some_text ds = absurd (omega (arith, some_text))
    reading (c ∷ s) whole some_text ds =
        let same : u32 (reads 16 0 (c ∷ s)) ≡ value = omega (arith, whole) in
        (parse_hex-reads c s ds ∙ ap some same, parse_hex-prefixed c s ds ∙ ap some same)
