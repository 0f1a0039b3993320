-- ===== src/Base/Search.antt =====
-- The loop of C over a table: `for (i = 0; i < n; i++) if (test(&table[i])) return i; return -1;`.
use thunity_os.Base.Tests.{if◌then◌else◌, Bool-cases}
use thunity_os.Base.Lists.{length, get_or}
use Prim.Native.Nat.{ℕ, zero, suc, ◌+◌, ◌<◌}
use mathlib.Core.Path.{◌≡◌, refl, ap, subst, ◌∙◌}
use mathlib.Core.Logic.{inl, inr}
use mathlib.Core.Bool.{Bool, true, false}
use mathlib.Core.Option.{Option, none, some}
use mathlib.Core.List.{List, [], ◌∷◌}
use native.Mathlib.Omega.{arith}

module _ {ℓ} {A : Type ℓ} where
  -- The loop at index `i` over the rest of the table.
  unfoldable pub first_index : (A → Bool) → ℕ → List A → Option ℕ
  first_index test i [] = none
  first_index test i (x ∷ xs) =
      let rest = first_index test (i + 1) xs in if test x then some i else rest

  -- Slot `k` passes the test, and no slot before it does; `d` stands for a slot out of range.
  abbrev pub IsFirst : (A → Bool) → List A → A → ℕ → Type 0
  IsFirst test xs d k =
      (k < length xs)
      × (test (get_or xs k d) ≡ true)
      × ((j : ℕ) → j < k → test (get_or xs j d) ≡ false)

  abbrev pub NoSlot : (A → Bool) → List A → A → Type 0
  NoSlot test xs d = (j : ℕ) → j < length xs → test (get_or xs j d) ≡ false

  abbrev pub Finds : (A → Bool) → List A → A → ℕ → Option ℕ → Type 0
  Finds test xs d i none = NoSlot test xs d
  Finds test xs d i (some k) = (j : ℕ) × (k ≡ i + j) × IsFirst test xs d j

module _ {ℓ} {A : Type ℓ} (test : A → Bool) (d : A) where
  search_cons :
      (x : A) (xs : List A) (i : ℕ) (r : Option ℕ)
      → test x ≡ false
      → Finds test xs d (i + 1) r
      → Finds test (x ∷ xs) d i r
  search_cons x xs i none e f = go
    where
      go : NoSlot test (x ∷ xs) d
      go zero lt = e
      go (suc j) lt = f j (omega arith)
  search_cons x xs i (some k) e (j, at, (lt, found, before)) =
      (suc j, omega arith, (omega arith, found, go))
    where
      go : (m : ℕ) → m < suc j → test (get_or (x ∷ xs) m d) ≡ false
      go zero l = e
      go (suc m) l = before m (omega arith)

  pub first_index-Finds : (i : ℕ) (xs : List A) → Finds test xs d i (first_index test i xs)
  unfolding first_index
  first_index-Finds i [] = λ j lt. absurd (omega arith)
  first_index-Finds i (x ∷ xs) = elim (Bool-cases (test x)) [
    | inl here ↦ rw here (0, omega arith, (omega arith, here, λ j lt. absurd (omega arith)))
    | inr other ↦
        rw other
          (search_cons x xs i (first_index test (i + 1) xs) other (first_index-Finds (i + 1) xs))
  ]

  IsFirst-of_Finds :
      (xs : List A) (r : Option ℕ) (i : ℕ) → Finds test xs d 0 r → r ≡ some i → IsFirst test xs d i
  IsFirst-of_Finds xs none i f e = cc
  IsFirst-of_Finds xs (some k) i (j, at, first) e =
      let same : j ≡ i = ground arith in subst (IsFirst test xs d) same first

  none_of_Finds : (xs : List A) (r : Option ℕ) → Finds test xs d 0 r → r ≡ none → NoSlot test xs d
  none_of_Finds xs none f e = f
  none_of_Finds xs (some k) f e = cc

  -- What the two results of the loop say of the table.
  pub first_index-some :
      (xs : List A) (i : ℕ) → first_index test 0 xs ≡ some i → IsFirst test xs d i
  first_index-some xs i = IsFirst-of_Finds xs (first_index test 0 xs) i (first_index-Finds 0 xs)

  pub first_index-none : (xs : List A) → first_index test 0 xs ≡ none → NoSlot test xs d
  first_index-none xs = none_of_Finds xs (first_index test 0 xs) (first_index-Finds 0 xs)

  -- A slot that passes the test, with none before it, is the one that the loop returns.
  pub first_index_at :
      (xs : List A) (i k : ℕ) → IsFirst test xs d k → first_index test i xs ≡ some (i + k)
  unfolding first_index
  first_index_at [] i k (lt, found, before) = absurd (omega arith)
  first_index_at (x ∷ xs) i zero (lt, found, before) = rw found (ap some (omega arith))
  first_index_at (x ∷ xs) i (suc k) (lt, found, before) = rw (before 0 (omega arith)) (
      first_index_at xs (i + 1) k (omega arith, found, λ j h. before (suc j) (omega arith))
      ∙ ap some (omega arith))

  -- A table none of whose slots passes.
  pub first_index_missing : (xs : List A) (i : ℕ) → NoSlot test xs d → first_index test i xs ≡ none
  unfolding first_index
  first_index_missing [] i h = refl
  first_index_missing (x ∷ xs) i h =
      rw (h 0 (omega arith)) (first_index_missing xs (i + 1) (λ j lt. h (suc j) (omega arith)))
