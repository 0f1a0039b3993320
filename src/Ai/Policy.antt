-- ===== src/Ai/Policy.antt =====
-- The permission word of kernel/ai/ai_core.c.
use thunity_os.Base.{
  ℕ, ◌-◌, ◌^◌, ◌<◌, bit_and, bit_or, ◌≡◌, refl, Bool, true, false, not, ◌==◌, if◌then◌else◌, arith,
}
use thunity_os.Base.Tables.{all_below, all_below_sound_three}
use thunity_os.Ai.{AiWorld, ai_policy_allows, ai_policy_set}

abbrev same : Bool → Bool → Bool
same true b = b
same false b = not b

eq_of_same : (a b : Bool) → same a b ≡ true → a ≡ b
eq_of_same a b h = ground arith

abbrev allows : ℕ → ℕ → Bool
allows perms perm = not (bit_and perms perm == 0)

-- The permission `j` of the word `p` after permission `i` was granted, and after it was withdrawn.
abbrev granted : ℕ → ℕ → ℕ → Bool
granted p i j = same (allows (bit_or p (2 ^ i)) (2 ^ j)) (if i == j then true else allows p (2 ^ j))

abbrev withdrawn : ℕ → ℕ → ℕ → Bool
withdrawn p i j =
    same (allows (bit_and p (2 ^ 32 - 1 - 2 ^ i)) (2 ^ j))
      (if i == j then false else allows p (2 ^ j))

granted_table : all_below 64 (λ p. all_below 6 (λ i. all_below 6 (granted p i))) ≡ true
unfolding all_below
granted_table = refl

withdrawn_table : all_below 64 (λ p. all_below 6 (λ i. all_below 6 (withdrawn p i))) ≡ true
unfolding all_below
withdrawn_table = refl

-- On a word of the six permissions, setting one of them grants or withdraws it and leaves the other five.
pub ai_policy_allows-set :
    (w : AiWorld) (i j : ℕ) (permit : Bool)
    → w.perms < 64
    → i < 6
    → j < 6
    → ai_policy_allows (ai_policy_set w (2 ^ i) permit) (2 ^ j)
      ≡ (if i == j then permit else ai_policy_allows w (2 ^ j))
unfolding ai_policy_allows ai_policy_set
ai_policy_allows-set w i j true hp hi hj =
    eq_of_same _ _ (all_below_sound_three 64 6 6 granted w.perms i j granted_table hp hi hj)
ai_policy_allows-set w i j false hp hi hj =
    eq_of_same _ _ (all_below_sound_three 64 6 6 withdrawn w.perms i j withdrawn_table hp hi hj)
