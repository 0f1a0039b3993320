-- ===== src/Calculator/Keys.antt =====
-- What the calculator of kernel/gui/apps.c shows for a calculation that is typed.
use thunity_os.Base.{
  ℕ, ◌+◌, ◌≡◌, refl, ap, ◌∙◌, Bool, true, false, ◌&&◌, List, [], ◌∷◌, ◌++◌, map, Option, some, ltb,
  ◌==◌, Option-cases, inl, inr, arith,
}
use mathlib.Core.Option.{bind}
use thunity_os.Base.Int.{ℤ, pos, ◌+ℤ◌, ◌*ℤ◌}
use thunity_os.Calculator.{
  Calculator, wrap_long, calc_apply, pending, is_number_key, is_op, digit, app_calc_key, calc_keys,
}

-- A number that is typed: a first digit and further ones. Its value has 32 bits.
pub record Number : Type 0 where
  pub first : ℕ
  pub further : List ℕ

abbrev pub all_digits : List ℕ → Bool
all_digits [] = true
all_digits (d ∷ ds) = ltb d 10 && all_digits ds

unfoldable pub value_from : ℤ → List ℕ → ℤ
value_from v [] = v
value_from v (d ∷ ds) = value_from (wrap_long (v *ℤ pos 10 +ℤ pos d)) ds

abbrev pub value : Number → ℤ
value n = value_from (pos 0) (n.first ∷ n.further)

abbrev pub number_keys : Number → List ℕ
number_keys n = map (λ d. 48 + d) (n.first ∷ n.further)

-- Operators with the numbers after them and `=`: the keys, whether they are such, and the value from the left on.
abbrev pub rest_keys : List (ℕ × Number) → List ℕ
rest_keys [] = 61 ∷ []
rest_keys ((op, n) ∷ rest) = op ∷ number_keys n ++ rest_keys rest

abbrev pub all_good : List (ℕ × Number) → Bool
all_good [] = true
all_good ((op, n) ∷ rest) = is_op op && all_digits (n.first ∷ n.further) && all_good rest

unfoldable pub left_to_right : ℤ → List (ℕ × Number) → Option ℤ
left_to_right a [] = some a
left_to_right a ((op, n) ∷ rest) = bind (calc_apply a op (value n)) (λ v. left_to_right v rest)

calc_keys-append :
    (s : Calculator) (keys more : List ℕ)
    → calc_keys s (keys ++ more) ≡ bind (calc_keys s keys) (λ t. calc_keys t more)
unfolding calc_keys bind
calc_keys-append s [] more = refl
calc_keys-append s (c ∷ keys) more = elim (Option-cases (app_calc_key s c)) [
  | inl e ↦ rw e refl
  | inr (t, e) ↦ rw e (calc_keys-append t keys more)
]

-- The state while a number is typed.
abbrev typing : ℤ → ℕ → ℤ → Calculator
typing acc op v = record { cc_acc = acc; cc_cur = v; cc_op = op; cc_fresh = false; cc_disp = v }

digit_key : (s : Calculator) (d : ℕ) → ltb d 10 ≡ true → app_calc_key s (48 + d) ≡ some (digit s d)
unfolding app_calc_key
digit_key s d small =
    let key : is_number_key (48 + d) ≡ true = ground (arith, small) in
    rw key (ap (λ k. some (digit s k)) (omega arith))

further_digits :
    (acc : ℤ) (op : ℕ) (v : ℤ) (ds : List ℕ)
    → all_digits ds ≡ true
    → calc_keys (typing acc op v) (map (λ d. 48 + d) ds) ≡ some (typing acc op (value_from v ds))
unfolding calc_keys value_from bind digit
further_digits acc op v [] good = refl
further_digits acc op v (d ∷ ds) good =
    rw (digit_key (typing acc op v) d (ground (arith, good)))
      (further_digits acc op (wrap_long (v *ℤ pos 10 +ℤ pos d)) ds (ground (arith, good)))

number_typed :
    (s : Calculator) (n : Number)
    → s.cc_fresh ≡ true
    → all_digits (n.first ∷ n.further) ≡ true
    → calc_keys s (number_keys n) ≡ some (typing s.cc_acc s.cc_op (value n))
unfolding calc_keys value_from bind digit
number_typed s n fresh good =
    rw (digit_key s n.first (ground (arith, good)), fresh)
      (further_digits s.cc_acc s.cc_op (wrap_long (pos 0 *ℤ pos 10 +ℤ pos n.first)) n.further
        (ground (arith, good)))

number_then :
    (s : Calculator) (n : Number) (more : List ℕ)
    → s.cc_fresh ≡ true
    → all_digits (n.first ∷ n.further) ≡ true
    → calc_keys s (number_keys n ++ more) ≡ calc_keys (typing s.cc_acc s.cc_op (value n)) more
unfolding bind
number_then s n more fresh good =
    calc_keys-append s (number_keys n) more ∙ rw (number_typed s n fresh good) refl

op_key :
    (s : Calculator) (c : ℕ)
    → is_op c ≡ true
    → app_calc_key s c
      ≡ bind
          (pending s)
          (λ v. some (record s { cc_acc = v; cc_op = c; cc_fresh = true; cc_disp = v }))
unfolding app_calc_key
op_key s c op = let other : is_number_key c ≡ false = ground (arith, op) in rw (other, op) refl

-- What is shown in the end.
abbrev pub shows : Option Calculator → Option ℤ
shows o = bind o (λ t. some t.cc_disp)

rest_typed :
    (acc : ℤ) (op : ℕ) (v : ℤ) (rest : List (ℕ × Number))
    → all_good rest ≡ true
    → shows (calc_keys (typing acc op v) (rest_keys rest))
      ≡ bind (pending (typing acc op v)) (λ a. left_to_right a rest)
unfolding calc_keys left_to_right bind app_calc_key
rest_typed acc op v [] good = elim (Option-cases (pending (typing acc op v))) [
  | inl e ↦ rw e refl
  | inr (a, e) ↦ rw e refl
]
rest_typed acc op v ((op', n) ∷ rest) good =
    let key : is_op op' ≡ true = ground (arith, good) in
    let some_op : (op' == 0) ≡ false = ground (arith, key) in
    elim (Option-cases (pending (typing acc op v))) [
      | inl e ↦ rw (op_key (typing acc op v) op' key, e) refl
      | inr (a, e) ↦
          let s = record (typing acc op v) {
            cc_acc = a;
            cc_op = op';
            cc_fresh = true;
            cc_disp = a;
          } in
          rw
            (
              op_key (typing acc op v) op' key,
              e,
              number_then s n (rest_keys rest) refl (ground (arith, good)),
              rest_typed a op' (value n) rest (ground (arith, good)),
              some_op,
            )
            refl
    ]

-- A calculation that is typed when no operator is pending, digits and operators and then `=`, shows what its
-- operators give from the left on, each on 32 bits, or stops at the first division of -2147483648 by -1.
pub calc_keys_lem :
    (s : Calculator) (n : Number) (rest : List (ℕ × Number))
    → s.cc_fresh ≡ true
    → s.cc_op ≡ 0
    → all_digits (n.first ∷ n.further) ≡ true
    → all_good rest ≡ true
    → shows (calc_keys s (number_keys n ++ rest_keys rest)) ≡ left_to_right (value n) rest
unfolding bind
calc_keys_lem s n rest fresh no_op good goods =
    ap shows (number_then s n (rest_keys rest) fresh good)
    ∙ rest_typed s.cc_acc s.cc_op (value n) rest goods
    ∙ rw no_op refl
