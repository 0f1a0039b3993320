-- ===== src/Sched/Examples.antt =====
-- Tests of the scheduler of kernel/sched/sched_core.c, on a table of four slots: task 7 runs, task 8 is ready.
use thunity_os.Base.{ℕ, suc, ◌<◌, ◌≡◌, refl, some, List, [], ◌∷◌, length, arith}
use thunity_os.Base.Search.{first_index}
use thunity_os.Sched.{
  ready, SchedTask, Sched, empty_task, task_at, sched_init, sched_add, sched_pick_next, sched_block,
  sched_unblock, sched_exit, sched_runnable, stop_current, pick_loop, start, find_id,
  count_runnable,
}
use thunity_os.Sched.Invariant.{
  IsValid, sched_init-IsValid, sched_add-IsValid, sched_pick_next-IsValid,
}
use thunity_os.Sched.Reachable.{here, next, add, pick_next, Reachable-IsValid}
use thunity_os.Sched.RoundRobin.{picks, sched_pick_next_fair}

abbrev storage : List SchedTask
storage = empty_task ∷ empty_task ∷ empty_task ∷ empty_task ∷ []

abbrev fresh : Sched
fresh = sched_init storage

abbrev two_tasks : Sched
two_tasks = (sched_pick_next (sched_add (sched_add fresh 7 3).1 8 2).1).1

two_tasks-IsValid : IsValid two_tasks
two_tasks-IsValid = sched_pick_next-IsValid (sched_add (sched_add fresh 7 3).1 8 2).1 (
    sched_add-IsValid (sched_add fresh 7 3).1 8 2
      (sched_add-IsValid fresh 7 3 (sched_init-IsValid storage)))

runs_7 : two_tasks.current ≡ some 0
unfolding sched_init sched_add sched_pick_next stop_current pick_loop start first_index
runs_7 = refl

then_8 : (sched_pick_next two_tasks).0 ≡ some 8
unfolding sched_init sched_add sched_pick_next stop_current pick_loop start first_index
then_8 = refl

blocked_8 : (sched_pick_next (sched_block two_tasks 8)).0 ≡ some 7
unfolding sched_init sched_add sched_pick_next stop_current pick_loop start first_index sched_block
    find_id
blocked_8 = refl

four_slots : length two_tasks.tasks ≡ 4
unfolding sched_init sched_add sched_pick_next stop_current pick_loop start first_index
four_slots = refl

waits_8 : (task_at two_tasks 1).state ≡ ready
unfolding sched_init sched_add sched_pick_next stop_current pick_loop start first_index
waits_8 = refl

three_ticks : (task_at two_tasks 0).quantum ≡ 3
unfolding sched_init sched_add sched_pick_next stop_current pick_loop start first_index
three_ticks = refl

-- `sched_block` and then `sched_unblock` make a task ready that had exited.
revived : sched_runnable (sched_unblock (sched_block (sched_exit two_tasks 8) 8) 8) ≡ 2
unfolding sched_init sched_add sched_pick_next stop_current pick_loop start first_index sched_block
    sched_unblock sched_exit find_id sched_runnable count_runnable
revived = refl

sched_pick_next_fair_example :
    (n : ℕ) × (n < length two_tasks.tasks) × ((picks (suc n) two_tasks).current ≡ some 1)
sched_pick_next_fair_example =
    sched_pick_next_fair two_tasks 1 two_tasks-IsValid (omega (arith, four_slots)) waits_8

Reachable-IsValid_example : IsValid two_tasks
Reachable-IsValid_example =
    Reachable-IsValid storage two_tasks (next (next (next here (add 7 3)) (add 8 2)) pick_next)
