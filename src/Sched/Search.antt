-- ===== src/Sched/Search.antt =====
-- The scan of `sched_pick_next` in kernel/sched/sched_core.c round its table.
use thunity_os.Base.{
  ℕ, zero, suc, ◌+◌, ◌%◌, ◌≤◌, ◌<◌, ◌≡◌, refl, inl, inr, Bool, true, false, Option, none, some,
  length, ◌==◌, Bool-cases, arith,
}
use thunity_os.Sched.{Sched, is_ready, task_at, pick_loop}

-- The slot `n` places after the cursor, round the table.
abbrev pub slot : Sched → ℕ → ℕ
slot s n = (s.cursor + n) % length s.tasks

abbrev pub ready_at : Sched → ℕ → Bool
ready_at s i = is_ready (task_at s i).state

-- What the round-robin scan returns: the ready slot at the least distance from the cursor.
abbrev pub Picks : Sched → ℕ → ℕ → Option ℕ → Type 0
Picks s n end none = (m : ℕ) → n ≤ m → m < end → ready_at s (slot s m) ≡ false
Picks s n end (some i) =
    (k : ℕ) × (n ≤ k)
    × (k < end)
    × (i ≡ slot s k)
    × (ready_at s i ≡ true)
    × ((m : ℕ) → n ≤ m → m < k → ready_at s (slot s m) ≡ false)

pick_later :
    (s : Sched) (n end : ℕ) (r : Option ℕ)
    → ready_at s (slot s n) ≡ false
    → Picks s (n + 1) end r
    → Picks s n end r
pick_later s n end none e f = λ m lo hi. elim (Bool-cases (n == m)) [
  | inl same ↦ ground (arith, e)
  | inr ne ↦ f m (ground arith) hi
]
pick_later s n end (some i) e (k, lo, hi, at, found, before) = (
  k,
  omega arith,
  hi,
  at,
  found,
  λ m lo' hi'. elim (Bool-cases (n == m)) [
    | inl same ↦ ground (arith, e)
    | inr ne ↦ before m (ground arith) hi'
  ],
)

pub pick_loop-Picks :
    (s : Sched) (left n end : ℕ) → n + left ≡ end → Picks s n end (pick_loop s left n)
unfolding pick_loop
pick_loop-Picks s zero n end e = λ m lo hi. absurd (omega arith)
pick_loop-Picks s (suc left) n end e = elim (Bool-cases (ready_at s (slot s n))) [
  | inl here ↦ rw here (n, omega arith, omega arith, refl, here, λ m lo hi. absurd (omega arith))
  | inr other ↦ rw other (
      pick_later s n end (pick_loop s left (n + 1)) other
        (pick_loop-Picks s left (n + 1) end (omega arith)))
]
