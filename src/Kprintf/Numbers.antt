-- ===== src/Kprintf/Numbers.antt =====
-- Numbers that kernel/core/kprintf.c prints read back as they were.
use thunity_os.Base.{
  ℕ, zero, suc, ◌+◌, ◌-◌, ◌*◌, ◌/◌, ◌%◌, ◌^◌, ◌≤◌, ◌<◌, ◌≡◌, refl, sym, ap, ◌∙◌, inl, inr, Bool,
  true, false, none, some, List, [], ◌∷◌, ◌++◌, length, length-append, get_or, ltb, ◌==◌, ==→eq,
  if◌then◌else◌, Bool-cases, arith,
}
use mathlib.Core.Option
use thunity_os.Base.Tables.{all_below, all_below_sound}
use thunity_os.Kprintf.Digits.{
  AllDigits, IsBase, digits_of, back, append-AllDigits, back-AllDigits, digit_loop-AllDigits,
}
use thunity_os.Kprintf.{
  Console, kputc, kputs, lower, upperd, digit_loop, pad_loop, kputs_back, print_uint,
}

-- The value of a digit's character.
abbrev pub digit_of : ℕ → ℕ
digit_of c = if ltb c 58 then c - 48 else if ltb c 71 then c - 55 else c - 87

-- A text read as a number in the base, after the number `acc`.
abbrev pub reads : ℕ → ℕ → List ℕ → ℕ
reads base acc [] = acc
reads base acc (c ∷ s) = reads base (acc * base + digit_of c) s

-- The same from the lowest digit on.
abbrev low : ℕ → List ℕ → ℕ
low base [] = 0
low base (c ∷ l) = low base l * base + digit_of c

reads-append :
    (base acc : ℕ) (s : List ℕ) (c : ℕ)
    → reads base acc (s ++ (c ∷ [])) ≡ reads base acc s * base + digit_of c
reads-append base acc [] c = refl
reads-append base acc (x ∷ s) c = reads-append base (acc * base + digit_of x) s c

reads-back : (base : ℕ) (l : List ℕ) → reads base 0 (back l) ≡ low base l
reads-back base [] = refl
reads-back base (c ∷ l) =
    reads-append base 0 (back l) c ∙ ap (λ n. n * base + digit_of c) (reads-back base l)

length-back : (l : List ℕ) → length (back l) ≡ length l
length-back [] = refl
length-back (c ∷ l) = length-append (back l) (c ∷ []) ∙ omega (arith, length-back l)

kputs-append : (k : Console) (s : List ℕ) (c : ℕ) → kputs k (s ++ (c ∷ [])) ≡ kputc (kputs k s) c
unfolding kputs
kputs-append k [] c = refl
kputs-append k (x ∷ s) c = kputs-append (kputc k x) s c

kputs_back_lem : (l : List ℕ) (k : Console) → kputs_back l k ≡ kputs k (back l)
unfolding kputs_back kputs
kputs_back_lem [] k = refl
kputs_back_lem (c ∷ l) k =
    ap (λ m. kputc m c) (kputs_back_lem l k) ∙ sym (kputs-append k (back l) c)

abbrev pow2 : ℕ → ℕ
pow2 zero = 1
pow2 (suc n) = pow2 n + pow2 n

lower_table : all_below 16 (λ d. digit_of (get_or lower d 0) == d) ≡ true
unfolding all_below
lower_table = refl

upper_table : all_below 16 (λ d. digit_of (get_or upperd d 0) == d) ≡ true
unfolding all_below
upper_table = refl

digit_lem : (upper : Bool) (d : ℕ) → d < 16 → digit_of (get_or (digits_of upper) d 0) ≡ d
digit_lem true d lt =
    ==→eq _ _ (all_below_sound 16 (λ d. digit_of (get_or upperd d 0) == d) d upper_table lt)
digit_lem false d lt =
    ==→eq _ _ (all_below_sound 16 (λ d. digit_of (get_or lower d 0) == d) d lower_table lt)

-- A step of the loop takes the lowest digit off and at least halves the value.
base_step :
    (base value half : ℕ)
    → IsBase base
    → value < half + half
    → (value % base < 16) × (value / base * base + value % base ≡ value) × (value / base < half)
base_step base value half (inl e) lt = rw e (omega arith, omega arith, omega arith)
base_step base value half (inr e) lt = rw e (omega arith, omega arith, omega arith)

low-digit_loop :
    (upper : Bool) (base room value : ℕ)
    → IsBase base
    → value < pow2 room
    → low base (digit_loop room (digits_of upper) base value) ≡ value
unfolding digit_loop
low-digit_loop upper base zero value b lt = omega arith
low-digit_loop upper base (suc room) value b lt =
    let (small, whole, less) = base_step base value (pow2 room) b lt in
    let ih = low-digit_loop upper base room (value / base) b less in
    let digit = digit_lem upper (value % base) small in
    elim (Bool-cases (value == 0)) [
      | inl e ↦ rw e (sym (==→eq value 0 e))
      | inr e ↦ rw e (
          ap (λ n. n * base + digit_of (get_or (digits_of upper) (value % base) 0)) ih
          ∙ ap (λ d. value / base * base + d) digit
          ∙ whole)
    ]

length-digit_loop :
    (room : ℕ) (digits : List ℕ) (base value : ℕ)
    → length (digit_loop room digits base value) ≤ room
unfolding digit_loop
length-digit_loop zero digits base value = omega arith
length-digit_loop (suc room) digits base value =
    ground (arith, length-digit_loop room digits base (value / base))

-- The padding is there where there is room for it, and counts nothing.
pad_loop-zeros :
    (base left room : ℕ)
    → left ≤ room
    → (zeros : List ℕ) × (pad_loop left room ≡ some zeros)
      × (length zeros ≡ left)
      × (low base zeros ≡ 0)
      × AllDigits zeros
unfolding pad_loop
pad_loop-zeros base zero room le = ([], refl, refl, refl, tt)
pad_loop-zeros base (suc left) zero le = absurd (omega arith)
pad_loop-zeros base (suc left) (suc room) le =
    let (zeros, e, len, none_counts, digits) = pad_loop-zeros base left room (omega arith) in
    (
      48 ∷ zeros,
      ap (Option.map (λ l. 48 ∷ l)) e,
      ap suc len,
      ap (λ n. n * base + digit_of 48) none_counts ∙ omega arith,
      (refl, digits),
    )

pad_loop-none : (left room : ℕ) → room < left → pad_loop left room ≡ none
unfolding pad_loop
pad_loop-none zero room lt = absurd (omega arith)
pad_loop-none (suc left) zero lt = refl
pad_loop-none (suc left) (suc room) lt =
    ap (Option.map (λ l. 48 ∷ l)) (pad_loop-none left room (omega arith))

low-append :
    (base : ℕ) (number zeros : List ℕ)
    → low base zeros ≡ 0
    → low base (number ++ zeros) ≡ low base number
low-append base [] zeros z = z
low-append base (c ∷ number) zeros z =
    ap (λ n. n * base + digit_of c) (low-append base number zeros z)

-- The characters of a number, lowest digit first.
abbrev number_of : ℕ → ℕ → Bool → List ℕ
number_of value base upper =
    if value == 0 then 48 ∷ [] else digit_loop 32 (digits_of upper) base value

low-number_of :
    (value base : ℕ) (upper : Bool)
    → IsBase base
    → value < 2 ^ 32
    → low base (number_of value base upper) ≡ value
low-number_of value base upper b lt = elim (Bool-cases (value == 0)) [
  | inl e ↦ rw e (omega (arith, ==→eq value 0 e))
  | inr e ↦ rw e (low-digit_loop upper base 32 value b lt)
]

length-number_of : (value base : ℕ) (upper : Bool) → length (number_of value base upper) ≤ 32
length-number_of value base upper =
    ground (arith, length-digit_loop 32 (digits_of upper) base value)

number_of-AllDigits :
    (value base : ℕ) (upper : Bool) → IsBase base → AllDigits (number_of value base upper)
number_of-AllDigits value base upper b = elim (Bool-cases (value == 0)) [
  | inl e ↦ rw e (refl, tt)
  | inr e ↦ rw e (digit_loop-AllDigits upper base 32 value b)
]

-- The number has a digit, 0 too.
some_digit : (value base : ℕ) (upper : Bool) → 1 ≤ length (number_of value base upper)
unfolding digit_loop
some_digit value base upper = elim (Bool-cases (value == 0)) [
  | inl e ↦ rw e (omega arith)
  | inr e ↦ rw e (omega arith)
]

-- A 32-bit word that is printed in base 10 or 16 with a width of at most 32 is shown by 1 to 32 digits, no fewer
-- than the width, that read back as the word.
pub print_uint-reads :
    (k : Console) (value base : ℕ) (upper : Bool) (pad : ℕ)
    → IsBase base
    → value < 2 ^ 32
    → pad ≤ 32
    → (text : List ℕ) × (print_uint k value base upper pad ≡ some (kputs k text))
      × (reads base 0 text ≡ value)
      × (pad ≤ length text)
      × (1 ≤ length text)
      × (length text ≤ 32)
      × AllDigits text
unfolding print_uint
print_uint-reads k value base upper pad b lt le =
    let number = number_of value base upper in
    let few = length-number_of value base upper in
    let (zeros, e, len, none_counts, digits) =
      pad_loop-zeros base (pad - length number) (32 - length number) (omega arith) in
    let text = number ++ zeros in
    let long : length (back text) ≡ length number + length zeros =
      length-back text ∙ length-append number zeros in
    (
      back text,
      ap (Option.map (λ z. kputs_back (number ++ z) k)) e ∙ ap some (kputs_back_lem text k),
      reads-back base text
          ∙ low-append base number zeros none_counts
          ∙ low-number_of value base upper b lt,
      omega (arith, long, len),
      omega (arith, long, some_digit value base upper),
      omega (arith, long, len, few),
      back-AllDigits text
          (append-AllDigits number zeros (number_of-AllDigits value base upper b) digits),
    )

-- A width of more than 32 makes the padding of a number run past the 32 characters of `buf`.
pub print_uint_overrun :
    (k : Console) (value base : ℕ) (upper : Bool) (pad : ℕ)
    → 32 < pad
    → print_uint k value base upper pad ≡ none
unfolding print_uint
print_uint_overrun k value base upper pad wide =
    let number = number_of value base upper in
    ap (Option.map (λ z. kputs_back (number ++ z) k)) (
      pad_loop-none (pad - length number) (32 - length number)
        (omega (arith, length-number_of value base upper)))
