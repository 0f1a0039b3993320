-- ===== src/CStrings/Examples.antt =====
-- Tests of the routines of kernel/lib/string.c.
use thunity_os.Base.{ℕ, ◌≡◌, refl, List, [], ◌∷◌, arith}
use thunity_os.CStrings.{codes, less, strcmp, memmove, copy_up, copy_down}
use thunity_os.CStrings.Laws.{IsCString}

abbrev bytes : List ℕ
bytes = 1 ∷ 2 ∷ 3 ∷ 4 ∷ 5 ∷ []

moves_up : memmove bytes 1 0 4 ≡ 1 ∷ 1 ∷ 2 ∷ 3 ∷ 4 ∷ []
unfolding memmove copy_up copy_down
moves_up = refl

compares : strcmp (codes "abc") (codes "abd") ≡ less
unfolding strcmp
compares = refl

ls-IsCString : IsCString (codes "ls")
ls-IsCString = ((λ e. omega (arith, e)), ((λ e. omega (arith, e)), tt))
