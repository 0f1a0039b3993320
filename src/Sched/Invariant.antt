-- ===== src/Sched/Invariant.antt =====
-- What holds of the scheduler of kernel/sched/sched_core.c between two calls: at most one task runs, and
-- it is the current one.
use thunity_os.Base.{
  ℕ, zero, suc, ◌<◌, ◌≡◌, ◌≢◌, refl, ap, inl, inr, Option, none, some, List, [], ◌∷◌, map, length,
  get_or, get_or-set, length-set, ◌==◌, if◌then◌else◌, Bool-cases, Option-cases, arith,
}
use thunity_os.Sched.{
  unused, ready, running, blocked, zombie, SchedTask, Sched, is_unused, is_blocked, empty_task,
  task_at, put_task, sched_init, find_id, has_id, free_slot, new_task, sched_add, stop_current,
  pick_loop, start, sched_pick_next, ticked, sched_on_tick, drop_current, sched_block,
  sched_unblock, sched_exit,
}
use thunity_os.Base.Search.{first_index, first_index-some}
use thunity_os.Sched.Search.{Picks, pick_loop-Picks}

pub record IsValid (s : Sched) : Type 0 where
  pub current_runs :
      (c : ℕ) → s.current ≡ some c → (c < length s.tasks) × ((task_at s c).state ≡ running)
  pub only_current : (i : ℕ) → (task_at s i).state ≡ running → s.current ≡ some i
  pub cursor_in : 0 < length s.tasks → s.cursor < length s.tasks

pub task_at_put :
    (s : Sched) (i j : ℕ) (t : SchedTask)
    → i < length s.tasks
    → task_at (put_task s i t) j ≡ (if i == j then t else task_at s j)
task_at_put s i j t lt = get_or-set s.tasks i j t empty_task lt

-- A slot that does not run can be given a state in which it does not run.
put_other-IsValid :
    (s : Sched) (i : ℕ) (t : SchedTask)
    → i < length s.tasks
    → s.current ≢ some i
    → t.state ≢ running
    → IsValid s
    → IsValid (put_task s i t)
put_other-IsValid s i t lt ne idle v = record {
  current_runs =
      λ c e. ground (arith, v.current_runs c e, length-set s.tasks i t, task_at_put s i c t lt);
  only_current = λ j e. ground (arith, v.only_current j, task_at_put s i j t lt);
  cursor_in = λ h.
      omega (arith, v.cursor_in (omega (arith, length-set s.tasks i t)), length-set s.tasks i t);
}

-- A slot, the current one or not, is given a state in which it does not run, and is no longer current.
put_idle-IsValid :
    (s : Sched) (i : ℕ) (t : SchedTask)
    → i < length s.tasks
    → t.state ≢ running
    → IsValid s
    → IsValid (drop_current i (put_task s i t))
put_idle-IsValid s i t lt idle v = record {
  current_runs =
      λ c e. ground (arith, v.current_runs c, length-set s.tasks i t, task_at_put s i c t lt);
  only_current = λ j e. ground (arith, v.only_current j, task_at_put s i j t lt);
  cursor_in = λ h. ground (arith, v.cursor_in, length-set s.tasks i t);
}

-- No slot runs.
pub record NoneRuns (s : Sched) : Type 0 where
  pub idle : (i : ℕ) → (task_at s i).state ≢ running
  pub cursor_in : 0 < length s.tasks → s.cursor < length s.tasks

pub stop_current-NoneRuns : (s : Sched) → IsValid s → NoneRuns (stop_current s)
unfolding stop_current
stop_current-NoneRuns s v = elim (Option-cases s.current) [
  | inl none_runs ↦ record {
    idle = λ j e. ground (arith, v.only_current j);
    cursor_in = λ h. ground (arith, v.cursor_in);
  }
  | inr (c, e) ↦
      let t = record (task_at s c) { state = ready } in
      let lt : c < length s.tasks = (v.current_runs c e).0 in
      record {
        idle = λ j r. ground (arith, v.only_current j, v.current_runs c e, task_at_put s c j t lt);
        cursor_in = λ h. ground (arith, v.cursor_in, length-set s.tasks c t);
      }
]

start-IsValid : (s : Sched) (i : ℕ) → i < length s.tasks → NoneRuns s → IsValid (start s i)
unfolding start
start-IsValid s i lt n =
    let t = record (task_at s i) { state = running; quantum = (task_at s i).reload } in
    record {
      current_runs = λ c e. ground (arith, length-set s.tasks i t, task_at_put s i c t lt);
      only_current = λ j e. ground (arith, n.idle j, task_at_put s i j t lt);
      cursor_in = λ h. omega (arith, length-set s.tasks i t);
    }

pub length-stop_current : (s : Sched) → length (stop_current s).tasks ≡ length s.tasks
unfolding stop_current
length-stop_current s = elim (Option-cases s.current) [
  | inl none_runs ↦ ground arith
  | inr (c, e) ↦ ground (arith, length-set s.tasks c (record (task_at s c) { state = ready }))
]

-- The scan's result, when there is one, is a slot of the table.
pub picked-lt :
    (s : Sched) (r : Option ℕ) (i : ℕ)
    → Picks s 0 (length s.tasks) r
    → r ≡ some i
    → i < length s.tasks
picked-lt s none i p e = cc
picked-lt s (some j) i (k, lo, hi, at, found, before) e = ground (arith)

-- `sched_pick_next` keeps the invariant that at most the current task runs.
pub sched_pick_next-IsValid : (s : Sched) → IsValid s → IsValid (sched_pick_next s).1
unfolding sched_pick_next
sched_pick_next-IsValid s v =
    let s' = stop_current s in
    let n = stop_current-NoneRuns s v in
    elim (Option-cases (pick_loop s' (length s'.tasks) 0)) [
      | inl nothing ↦
          rw (nothing, sched_pick_next)
            (record {
              current_runs = λ c e. cc;
              only_current = λ j e. absurd (n.idle j e);
              cursor_in = n.cursor_in;
            })
      | inr (i, e) ↦
          rw (e, sched_pick_next)
            (start-IsValid s' i
              (picked-lt s' (pick_loop s' (length s'.tasks) 0) i
                (pick_loop-Picks s' (length s'.tasks) 0 (length s'.tasks) (omega arith)) e)
              n)
    ]

find_id-lt : (s : Sched) (id i : ℕ) → find_id s id ≡ some i → i < length s.tasks
unfolding find_id
find_id-lt s id i e = (first_index-some (has_id id) empty_task s.tasks i e).0

-- `sched_add` keeps the invariant.
pub sched_add-IsValid : (s : Sched) (id q : ℕ) → IsValid s → IsValid (sched_add s id q).1
unfolding sched_add
sched_add-IsValid s id q v = elim (Option-cases (first_index free_slot 0 s.tasks)) [
  | inl full ↦ rw (full, sched_add) v
  | inr (i, e) ↦
      let f = first_index-some free_slot empty_task s.tasks i e in
      rw (e, sched_add)
        (put_other-IsValid s i (new_task id (if q == 0 then 1 else q)) f.0
          (λ c. cc (f.1, ap (λ t. is_unused t) (v.current_runs i c).1)) (λ r. cc) v)
]

-- `sched_on_tick` keeps the invariant.
pub sched_on_tick-IsValid : (s : Sched) → IsValid s → IsValid (sched_on_tick s).1
unfolding sched_on_tick
sched_on_tick-IsValid s v = elim (Option-cases s.current) [
  | inl none_runs ↦ record {
    current_runs = λ d h. ground (arith, v.current_runs d);
    only_current = λ j h. ground (arith, v.only_current j);
    cursor_in = λ h. ground (arith, v.cursor_in);
  }
  | inr (c, e) ↦
      let t = ticked (task_at s c) in
      let lt : c < length s.tasks = (v.current_runs c e).0 in
      record {
        current_runs =
            λ d h. ground (arith, v.current_runs d, length-set s.tasks c t, task_at_put s c d t lt);
        only_current = λ j h. ground (arith, v.only_current j, task_at_put s c j t lt);
        cursor_in = λ h. ground (arith, v.cursor_in, length-set s.tasks c t);
      }
]

-- `sched_block` keeps the invariant, on any id.
pub sched_block-IsValid : (s : Sched) (id : ℕ) → IsValid s → IsValid (sched_block s id)
unfolding sched_block
sched_block-IsValid s id v = elim (Option-cases (find_id s id)) [
  | inl missing ↦ rw (missing, sched_block) v
  | inr (i, e) ↦
      rw (e, sched_block)
        (put_idle-IsValid s i (record (task_at s i) { state = blocked }) (find_id-lt s id i e)
          (λ r. cc) v)
]

-- `sched_exit` keeps the invariant, on any id.
pub sched_exit-IsValid : (s : Sched) (id : ℕ) → IsValid s → IsValid (sched_exit s id)
unfolding sched_exit
sched_exit-IsValid s id v = elim (Option-cases (find_id s id)) [
  | inl missing ↦ rw (missing, sched_exit) v
  | inr (i, e) ↦
      rw (e, sched_exit)
        (put_idle-IsValid s i (record (task_at s i) { state = zombie }) (find_id-lt s id i e)
          (λ r. cc) v)
]

-- `sched_unblock` keeps the invariant, on any id.
pub sched_unblock-IsValid : (s : Sched) (id : ℕ) → IsValid s → IsValid (sched_unblock s id)
unfolding sched_unblock
sched_unblock-IsValid s id v = elim (Option-cases (find_id s id)) [
  | inl missing ↦ rw (missing, sched_unblock) v
  | inr (i, e) ↦ elim (Bool-cases (is_blocked (task_at s i).state)) [
    | inl was_blocked ↦
        rw (e, was_blocked, sched_unblock)
          (put_other-IsValid s i (record (task_at s i) { state = ready }) (find_id-lt s id i e)
            (λ c. cc (was_blocked, ap is_blocked (v.current_runs i c).1)) (λ r. cc) v)
    | inr other ↦ rw (e, other, sched_unblock) v
  ]
]

all_empty :
    (ts : List SchedTask) (i : ℕ) → (get_or (map (λ _. empty_task) ts) i empty_task).state ≡ unused
all_empty [] i = refl
all_empty (t ∷ ts) zero = refl
all_empty (t ∷ ts) (suc i) = all_empty ts i

-- The state that `sched_init` makes is valid, whatever the storage held.
pub sched_init-IsValid : (storage : List SchedTask) → IsValid (sched_init storage)
unfolding sched_init
sched_init-IsValid storage = record {
  current_runs = λ c e. cc;
  only_current = λ j e. cc (e, all_empty storage j);
  cursor_in = λ h. h;
}
