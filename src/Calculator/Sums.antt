-- ===== src/Calculator/Sums.antt =====
-- What the calculator of kernel/gui/apps.c shows, beside exact sums on the integers.
use thunity_os.Base.{
  ℕ, ◌+◌, ◌*◌, ◌%◌, ◌^◌, ◌≤◌, ◌<◌, ◌≡◌, refl, sym, subst, true, false, ◌&&◌, List, [], ◌∷◌, ◌++◌,
  Option, none, some, ◌==◌, ==→eq, Bool-cases, Option-cases, inl, inr, arith,
}
use mathlib.Core.Option.{bind}
use thunity_os.Base.Int.{
  ℤ, pos, negsuc, pos_part, neg_part, ◌+ℤ◌, ◌-ℤ◌, ◌*ℤ◌, div_ℤ, eqb_ℤ, +ℤ_parts,
}
use thunity_os.Calculator.{Calculator, wrap_long, calc_apply, is_op, calc_keys}
use thunity_os.Calculator.Keys.{
  Number, all_digits, value_from, value, number_keys, rest_keys, all_good, left_to_right, shows,
  calc_keys_lem,
}

-- `r` has 32 bits with sign, and differs from `t` by a multiple of 2 ^ 32.
abbrev pub Wraps : ℤ → ℤ → Type 0
Wraps t r =
    (neg_part r ≤ 2 ^ 31)
    × (pos_part r < 2 ^ 31)
    × ((pos_part r + neg_part t) % 2 ^ 32 ≡ (pos_part t + neg_part r) % 2 ^ 32)

-- The number that decimal digits write after those of `u`.
abbrev pub decimal : ℕ → List ℕ → ℕ
decimal u [] = u
decimal u (d ∷ ds) = decimal (u * 10 + d) ds

abbrev pub Typed : Number → ℤ → Type 0
Typed n v = Wraps (pos (decimal 0 (n.first ∷ n.further))) v

-- What an operator makes of two numbers; `none` is the divide error.
pub data Gives (op : ℕ) (a b : ℤ) : Option ℤ → Type 0 where
  adds : op ≡ 43 → {r : ℤ} → Wraps (a +ℤ b) r → Gives op a b (some r)
  subtracts : op ≡ 45 → {r : ℤ} → Wraps (a -ℤ b) r → Gives op a b (some r)
  multiplies : op ≡ 42 → {r : ℤ} → Wraps (a *ℤ b) r → Gives op a b (some r)
  by_zero : op ≡ 47 → b ≡ pos 0 → Gives op a b (some (pos 0))
  faults : op ≡ 47 → a ≡ negsuc 2147483647 → b ≡ negsuc 0 → Gives op a b none
  divides :
      op ≡ 47
      → eqb_ℤ b (pos 0) ≡ false
      → eqb_ℤ a (negsuc 2147483647) && eqb_ℤ b (negsuc 0) ≡ false
      → Gives op a b (some (div_ℤ a b))

-- What is shown after the operators and numbers that follow `a`, from the left on.
pub data Shows : ℤ → List (ℕ × Number) → Option ℤ → Type 0 where
  ends : {a : ℤ} → Shows a [] (some a)
  stops :
      {a : ℤ} {op : ℕ} {n : Number} {rest : List (ℕ × Number)} (v : ℤ)
      → Typed n v
      → Gives op a v none
      → Shows a ((op, n) ∷ rest) none
  goes :
      {a : ℤ} {op : ℕ} {n : Number} {rest : List (ℕ × Number)} {o : Option ℤ} (v r : ℤ)
      → Typed n v
      → Gives op a v (some r)
      → Shows r rest o
      → Shows a ((op, n) ∷ rest) o

wrap_long-Wraps : (a : ℤ) → Wraps a (wrap_long a)
unfolding wrap_long
wrap_long-Wraps a = ground arith

ten_times :
    (v : ℤ)
    → (pos_part (v *ℤ pos 10) ≡ 10 * pos_part v) × (neg_part (v *ℤ pos 10) ≡ 10 * neg_part v)
unfolding ◌*ℤ◌
ten_times (pos n) = (ground arith, ground arith)
ten_times (negsuc n) = (ground arith, ground arith)

digit-Wraps :
    (u d : ℕ) (v : ℤ)
    → Wraps (pos u) v
    → Wraps (pos (u * 10 + d)) (wrap_long (v *ℤ pos 10 +ℤ pos d))
digit-Wraps u d v (low, high, same) =
    let (low', high', same') = wrap_long-Wraps (v *ℤ pos 10 +ℤ pos d) in
    let (ups, downs) = ten_times v in
    let parts = +ℤ_parts (v *ℤ pos 10) (pos d) in
    (low', high', omega (arith, same, same', ups, downs, parts))

value_from-Wraps :
    (u : ℕ) (v : ℤ) (ds : List ℕ) → Wraps (pos u) v → Wraps (pos (decimal u ds)) (value_from v ds)
unfolding value_from
value_from-Wraps u v [] is = is
value_from-Wraps u v (d ∷ ds) is =
    value_from-Wraps (u * 10 + d) (wrap_long (v *ℤ pos 10 +ℤ pos d)) ds (digit-Wraps u d v is)

value-Typed : (n : Number) → Typed n (value n)
value-Typed n = value_from-Wraps 0 (pos 0) (n.first ∷ n.further) (omega arith, omega arith, refl)

calc_apply-Gives : (op : ℕ) (a b : ℤ) → is_op op ≡ true → Gives op a b (calc_apply a op b)
unfolding calc_apply
calc_apply-Gives op a b known = elim (Bool-cases (op == 43)) [
  | inl e ↦ rw e (adds (==→eq op 43 e) (wrap_long-Wraps (a +ℤ b)))
  | inr e ↦ elim (Bool-cases (op == 45)) [
    | inl e1 ↦ rw (e, e1) (subtracts (==→eq op 45 e1) (wrap_long-Wraps (a -ℤ b)))
    | inr e1 ↦ elim (Bool-cases (op == 42)) [
      | inl e2 ↦ rw (e, e1, e2) (multiplies (==→eq op 42 e2) (wrap_long-Wraps (a *ℤ b)))
      | inr e2 ↦
          let slash : (op == 47) ≡ true = ground (arith, known, e, e1, e2) in
          let is = ==→eq op 47 slash in
          elim (Bool-cases (eqb_ℤ b (pos 0))) [
            | inl z ↦ rw (e, e1, e2, slash, z) (by_zero is (ground (arith, z)))
            | inr z ↦ elim (Bool-cases (eqb_ℤ a (negsuc 2147483647) && eqb_ℤ b (negsuc 0))) [
              | inl f ↦
                  rw (e, e1, e2, slash, z, f) (faults is (ground (arith, f)) (ground (arith, f)))
              | inr f ↦ rw (e, e1, e2, slash, z, f) (divides is z f)
            ]
          ]
    ]
  ]
]

left_to_right-Shows :
    (a : ℤ) (rest : List (ℕ × Number)) → all_good rest ≡ true → Shows a rest (left_to_right a rest)
unfolding left_to_right bind
left_to_right-Shows a [] good = ends
left_to_right-Shows a ((op, n) ∷ rest) good =
    let gives = calc_apply-Gives op a (value n) (ground (arith, good)) in
    elim (Option-cases (calc_apply a op (value n))) [
      | inl e ↦ rw e (stops (value n) (value-Typed n) (subst (Gives op a (value n)) e gives))
      | inr (r, e) ↦ rw e (
          goes (value n) r (value-Typed n) (subst (Gives op a (value n)) e gives)
            (left_to_right-Shows r rest (ground (arith, good))))
    ]

-- A calculation that is typed when no operator is pending and a new number is to begin, digits and operators and
-- then `=`, shows what its operators give from the left on: each number and each sum, difference and product is
-- the exact one wrapped to 32 bits with sign, a quotient is rounded towards 0 and by 0 it is 0, and the first
-- division of -2147483648 by -1 stops the machine.
pub calc_keys-Shows :
    (s : Calculator) (n : Number) (rest : List (ℕ × Number))
    → s.cc_fresh ≡ true
    → s.cc_op ≡ 0
    → all_digits (n.first ∷ n.further) ≡ true
    → all_good rest ≡ true
    → (v : ℤ) × Typed n v × Shows v rest (shows (calc_keys s (number_keys n ++ rest_keys rest)))
calc_keys-Shows s n rest fresh no_op good goods = (
  value n,
  value-Typed n,
  subst (Shows (value n) rest) (sym (calc_keys_lem s n rest fresh no_op good goods))
      (left_to_right-Shows (value n) rest goods),
)
