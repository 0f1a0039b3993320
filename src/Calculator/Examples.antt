-- ===== src/Calculator/Examples.antt =====
-- Tests of the calculator of kernel/gui/apps.c.
use thunity_os.Base.{◌≡◌, refl, none, some, [], ◌∷◌, ◌++◌}
use mathlib.Core.Option.{bind}
use thunity_os.Base.Int.{ℤ, pos, negsuc, ◌+ℤ◌, ◌*ℤ◌}
use thunity_os.CStrings.{codes}
use thunity_os.Calculator.{
  calc_cleared, wrap_long, calc_apply, digit, app_calc_key, calc_keys, digits_up, itoa_l,
}
use thunity_os.Calculator.Keys.{Number, number_keys, rest_keys, shows}
use thunity_os.Calculator.Sums.{Typed, Shows, calc_keys-Shows}

prints : itoa_l (negsuc 2147483647) ≡ codes "-2147483648"
unfolding itoa_l digits_up
prints = refl

-- The second operator uses the operand of the first once more.
two_operators : shows (calc_keys calc_cleared (codes "5+*")) ≡ some (pos 10)
unfolding calc_keys app_calc_key calc_apply digit wrap_long bind ◌+ℤ◌ ◌*ℤ◌
two_operators = refl

-- The keys that stop the machine: a divide error.
divide_error : shows (calc_keys calc_cleared (codes "2147483648/4294967295=")) ≡ none
unfolding calc_keys app_calc_key calc_apply digit wrap_long bind ◌+ℤ◌ ◌*ℤ◌
divide_error = refl

abbrev twelve : Number
twelve = record { first = 1; further = 2 ∷ [] }

abbrev five : Number
five = record { first = 5; further = [] }

-- 12 - 5 * 12
calc_keys-Shows_example :
    (v : ℤ) × Typed twelve v
    × Shows v ((45, five) ∷ (42, twelve) ∷ []) (
        shows (
          calc_keys calc_cleared
            (number_keys twelve ++ rest_keys ((45, five) ∷ (42, twelve) ∷ []))))
calc_keys-Shows_example =
    calc_keys-Shows calc_cleared twelve ((45, five) ∷ (42, twelve) ∷ []) refl refl refl refl
