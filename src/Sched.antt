-- ===== src/Sched.antt =====
-- kernel/sched/sched_core.c: the round-robin scheduler over a table of tasks. `tasks` and `cap` of
-- `sched_t` are one list, of length `cap`; -1 for a slot, an id or `current` is `none`, and an id is
-- any number. An index is written out where the C code takes `&s->tasks[i]`.
pub mod Search
pub mod Invariant
pub mod Reachable
pub mod RoundRobin
pub mod Slice
mod Examples
use thunity_os.Base.{
  ℕ, zero, suc, ◌+◌, ◌-◌, ◌%◌, Bool, true, false, ◌&&◌, ◌||◌, not, Option, none, some, List, [],
  ◌∷◌, length, get_or, set, map, u32, ltb, ◌==◌, if◌then◌else◌,
}
use thunity_os.Base.Search.{first_index}

pub data TaskState : Type 0 where
  unused ready running blocked zombie : TaskState

pub record SchedTask : Type 0 where
  pub id : ℕ
  pub state : TaskState
  pub quantum : ℕ
  pub reload : ℕ
  pub ran : ℕ

pub record Sched : Type 0 where
  pub tasks : List SchedTask
  pub current : Option ℕ
  pub cursor : ℕ

abbrev pub is_unused : TaskState → Bool
is_unused unused = true
is_unused _ = false

abbrev pub is_ready : TaskState → Bool
is_ready ready = true
is_ready _ = false

abbrev pub is_running : TaskState → Bool
is_running running = true
is_running _ = false

abbrev pub is_blocked : TaskState → Bool
is_blocked blocked = true
is_blocked _ = false

abbrev pub empty_task : SchedTask
empty_task = record { id = 0; state = unused; quantum = 0; reload = 0; ran = 0 }

-- `s->tasks[i]`
abbrev pub task_at : Sched → ℕ → SchedTask
task_at s i = get_or s.tasks i empty_task

abbrev pub put_task : Sched → ℕ → SchedTask → Sched
put_task s i t = record s { tasks = set s.tasks i t }

-- `s->tasks[i].state = st`
abbrev pub set_state : Sched → ℕ → TaskState → Sched
set_state s i st = put_task s i (record (task_at s i) { state = st })

unfoldable pub sched_init : List SchedTask → Sched
sched_init storage = record { tasks = map (λ _. empty_task) storage; current = none; cursor = 0 }

-- The test of `find_id`.
abbrev pub has_id : ℕ → SchedTask → Bool
has_id id t = not (is_unused t.state) && t.id == id

unfoldable pub find_id : Sched → ℕ → Option ℕ
find_id s id = first_index (has_id id) 0 s.tasks

abbrev pub free_slot : SchedTask → Bool
free_slot t = is_unused t.state

abbrev pub new_task : ℕ → ℕ → SchedTask
new_task id quantum = record {
  id = id;
  state = ready;
  quantum = quantum;
  reload = quantum;
  ran = 0;
}

-- The slot, or `none` when the table is full.
unfoldable pub sched_add : Sched → ℕ → ℕ → Option ℕ × Sched
sched_add s id quantum =
    let q = if quantum == 0 then 1 else quantum in
    elim (first_index free_slot 0 s.tasks) [
      | none ↦ (none, s)
      | some i ↦ (some i, put_task s i (new_task id q))
    ]

-- The task that runs goes back to the ready pool.
unfoldable pub stop_current : Sched → Sched
stop_current s = elim s.current [
  | none ↦ s
  | some c ↦ if is_running (task_at s c).state then set_state s c ready else s
]

-- The index of the first ready task from `cursor + n` on, round the table, with `left` rounds left.
unfoldable pub pick_loop : Sched → ℕ → ℕ → Option ℕ
pick_loop s zero n = none
pick_loop s (suc left) n =
    let i = (s.cursor + n) % length s.tasks in
    let rest = pick_loop s left (n + 1) in if is_ready (task_at s i).state then some i else rest

-- Slot `i` becomes the running one.
unfoldable pub start : Sched → ℕ → Sched
start s i = record s {
  tasks = set s.tasks i (record (task_at s i) { state = running; quantum = (task_at s i).reload });
  current = some i;
  cursor = (i + 1) % length s.tasks;
}

-- The id of the task that runs next, or `none`.
unfoldable pub sched_pick_next : Sched → Option ℕ × Sched
sched_pick_next s =
    let s' = stop_current s in
    elim (pick_loop s' (length s'.tasks) 0) [
      | none ↦ (none, record s' { current = none })
      | some i ↦ (some (task_at s' i).id, start s' i)
    ]

-- What a tick makes of the running task.
abbrev pub ticked : SchedTask → SchedTask
ticked t = record t { ran = u32 (t.ran + 1); quantum = t.quantum - 1 }

-- `true` when the time slice has expired. The quantum is decremented only above 0, so that `-` is
-- exact.
unfoldable pub sched_on_tick : Sched → Bool × Sched
sched_on_tick s = elim s.current [
  | none ↦ (false, s)
  | some c ↦
      if not (is_running (task_at s c).state)
      then (false, s)
      else ((ticked (task_at s c)).quantum == 0, put_task s c (ticked (task_at s c)))
]

-- `if (s->current == i) s->current = -1`
abbrev pub drop_current : ℕ → Sched → Sched
drop_current i s = elim s.current [
  | none ↦ s
  | some c ↦ if c == i then record s { current = none } else s
]

unfoldable pub sched_block : Sched → ℕ → Sched
sched_block s id = elim (find_id s id) [
  | none ↦ s
  | some i ↦ drop_current i (set_state s i blocked)
]

unfoldable pub sched_unblock : Sched → ℕ → Sched
sched_unblock s id = elim (find_id s id) [
  | none ↦ s
  | some i ↦ if is_blocked (task_at s i).state then set_state s i ready else s
]

unfoldable pub sched_exit : Sched → ℕ → Sched
sched_exit s id = elim (find_id s id) [ none ↦ s | some i ↦ drop_current i (set_state s i zombie) ]

unfoldable pub sched_current : Sched → Option ℕ
sched_current s = elim s.current [ none ↦ none | some c ↦ some (task_at s c).id ]

-- The loop of `sched_runnable`.
unfoldable pub count_runnable : List SchedTask → ℕ → ℕ
count_runnable [] c = c
count_runnable (t ∷ ts) c =
    count_runnable ts (if is_ready t.state || is_running t.state then c + 1 else c)

unfoldable pub sched_runnable : Sched → ℕ
unfolding count_runnable
sched_runnable s = count_runnable s.tasks 0
