-- ===== src/Kprintf/Digits.antt =====
-- The characters of the numbers that kernel/core/kprintf.c prints are digits.
use thunity_os.Base.{
  ℕ, zero, suc, ◌/◌, ◌%◌, ◌<◌, ◌≡◌, ◌⊎◌, refl, inl, inr, Bool, true, false, ◌&&◌, ◌||◌, List, [],
  ◌∷◌, ◌++◌, get_or, ltb, leb, ◌==◌, if◌then◌else◌, Bool-cases, arith,
}
use thunity_os.Base.Tables.{all_below, all_below_sound}
use thunity_os.Kprintf.{lower, upperd, digit_loop}

-- A character is a digit of base 16, or less.
abbrev pub is_digit : ℕ → Bool
is_digit c = (leb 48 c && ltb c 58) || (leb 65 c && ltb c 71) || (leb 97 c && ltb c 103)

abbrev pub AllDigits : List ℕ → Type 0
AllDigits [] = Unit {0}
AllDigits (c ∷ s) = (is_digit c ≡ true) × AllDigits s

-- The bases that are used.
abbrev pub IsBase : ℕ → Type 0
IsBase base = (base ≡ 10) ⊎ (base ≡ 16)

abbrev pub digits_of : Bool → List ℕ
digits_of upper = if upper then upperd else lower

abbrev pub back : List ℕ → List ℕ
back [] = []
back (c ∷ l) = back l ++ (c ∷ [])

pub append-AllDigits : (s t : List ℕ) → AllDigits s → AllDigits t → AllDigits (s ++ t)
append-AllDigits [] t ds dt = dt
append-AllDigits (c ∷ s) t (d, ds) dt = (d, append-AllDigits s t ds dt)

pub back-AllDigits : (s : List ℕ) → AllDigits s → AllDigits (back s)
back-AllDigits [] ds = ds
back-AllDigits (c ∷ s) (d, ds) = append-AllDigits (back s) (c ∷ []) (back-AllDigits s ds) (d, tt)

lower_table : all_below 16 (λ d. is_digit (get_or lower d 0)) ≡ true
unfolding all_below
lower_table = refl

upper_table : all_below 16 (λ d. is_digit (get_or upperd d 0)) ≡ true
unfolding all_below
upper_table = refl

entry-is_digit : (upper : Bool) (d : ℕ) → d < 16 → is_digit (get_or (digits_of upper) d 0) ≡ true
entry-is_digit true d lt = all_below_sound 16 (λ d. is_digit (get_or upperd d 0)) d upper_table lt
entry-is_digit false d lt = all_below_sound 16 (λ d. is_digit (get_or lower d 0)) d lower_table lt

rest-lt : (base value : ℕ) → IsBase base → value % base < 16
rest-lt base value (inl e) = rw e (omega arith)
rest-lt base value (inr e) = rw e (omega arith)

pub digit_loop-AllDigits :
    (upper : Bool) (base room value : ℕ)
    → IsBase base
    → AllDigits (digit_loop room (digits_of upper) base value)
unfolding digit_loop
digit_loop-AllDigits upper base zero value b = tt
digit_loop-AllDigits upper base (suc room) value b =
    let ih = digit_loop-AllDigits upper base room (value / base) b in
    let first = entry-is_digit upper (value % base) (rest-lt base value b) in
    elim (Bool-cases (value == 0)) [ inl e ↦ rw e tt | inr e ↦ rw e (first, ih) ]
