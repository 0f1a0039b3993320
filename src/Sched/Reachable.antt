-- ===== src/Sched/Reachable.antt =====
-- Any sequence of calls of the scheduler of kernel/sched/sched_core.c after `sched_init`.
use thunity_os.Base.{ℕ, List}
use thunity_os.Sched.{
  SchedTask, Sched, sched_init, sched_add, sched_pick_next, sched_on_tick, sched_block,
  sched_unblock, sched_exit,
}
use thunity_os.Sched.Invariant.{
  IsValid, sched_init-IsValid, sched_add-IsValid, sched_pick_next-IsValid, sched_on_tick-IsValid,
  sched_block-IsValid, sched_unblock-IsValid, sched_exit-IsValid,
}

-- One call, with any arguments.
pub data Step (s : Sched) : Sched → Type 0 where
  add : (id q : ℕ) → Step s (sched_add s id q).1
  pick_next : Step s (sched_pick_next s).1
  on_tick : Step s (sched_on_tick s).1
  block : (id : ℕ) → Step s (sched_block s id)
  unblock : (id : ℕ) → Step s (sched_unblock s id)
  exit : (id : ℕ) → Step s (sched_exit s id)

-- The states that calls lead to after `sched_init` on a table.
pub data Reachable (storage : List SchedTask) : Sched → Type 0 where
  here : Reachable storage (sched_init storage)
  next : {s s' : Sched} → Reachable storage s → Step s s' → Reachable storage s'

Step-IsValid : (s s' : Sched) → Step s s' → IsValid s → IsValid s'
Step-IsValid s _ (add id q) v = sched_add-IsValid s id q v
Step-IsValid s _ pick_next v = sched_pick_next-IsValid s v
Step-IsValid s _ on_tick v = sched_on_tick-IsValid s v
Step-IsValid s _ (block id) v = sched_block-IsValid s id v
Step-IsValid s _ (unblock id) v = sched_unblock-IsValid s id v
Step-IsValid s _ (exit id) v = sched_exit-IsValid s id v

-- After `sched_init` and any sequence of calls the state is valid: the current task is in the table and
-- runs, no other task runs, and the cursor is in the table.
pub Reachable-IsValid : (storage : List SchedTask) (s : Sched) → Reachable storage s → IsValid s
Reachable-IsValid storage _ here = sched_init-IsValid storage
Reachable-IsValid storage s' (next {s = s} r step) =
    Step-IsValid s s' step (Reachable-IsValid storage s r)
