-- ===== src/Sched/Slice.antt =====
-- The time slice of kernel/sched/sched_core.c: how many ticks a task gets.
use thunity_os.Base.{ℕ, zero, suc, ◌-◌, ◌<◌, ◌≡◌, subst, ap, ◌∙◌, Bool, some, length, ◌==◌, arith}
use thunity_os.Sched.{running, Sched, task_at, put_task, ticked, sched_on_tick}
use thunity_os.Sched.Invariant.{IsValid, task_at_put, sched_on_tick-IsValid}

sched_on_tick-eq :
    (s : Sched) (c : ℕ)
    → s.current ≡ some c
    → (task_at s c).state ≡ running
    → sched_on_tick s ≡ ((ticked (task_at s c)).quantum == 0, put_task s c (ticked (task_at s c)))
unfolding sched_on_tick
sched_on_tick-eq s c e r = ground arith

-- `n` calls of `sched_on_tick`.
unfoldable pub ticks : ℕ → Sched → Sched
ticks zero s = s
ticks (suc n) s = ticks n (sched_on_tick s).1

-- On a valid state a task that runs with `q` ticks left is told that its slice has expired by the q-th
-- of the following ticks, and by none before it.
pub sched_on_tick_slice :
    (n : ℕ) (s : Sched) (c : ℕ)
    → IsValid s
    → s.current ≡ some c
    → n < (task_at s c).quantum
    → (sched_on_tick (ticks n s)).0 ≡ (suc n == (task_at s c).quantum)
unfolding ticks
sched_on_tick_slice zero s c v e h =
    ap (λ (t : Bool × Sched). t.0) (sched_on_tick-eq s c e (v.current_runs c e).1) ∙ ground arith
sched_on_tick_slice (suc n) s c v e h =
    let s' = put_task s c (ticked (task_at s c)) in
    let lt : c < length s.tasks = (v.current_runs c e).0 in
    let step : (sched_on_tick s).1 ≡ s' =
      ap (λ (t : Bool × Sched). t.1) (sched_on_tick-eq s c e (v.current_runs c e).1) in
    let v' : IsValid s' = subst IsValid step (sched_on_tick-IsValid s v) in
    let left : (task_at s' c).quantum ≡ (task_at s c).quantum - 1 =
      ground (arith, task_at_put s c c (ticked (task_at s c)) lt) in
    rw step (sched_on_tick_slice n s' c v' e (omega (arith, left)) ∙ ground (arith, left))
