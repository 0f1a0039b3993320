-- ===== src/Sched/RoundRobin.antt =====
-- `sched_pick_next` of kernel/sched/sched_core.c is fair: a ready task runs within one round of the
-- table.
use thunity_os.Base.{
  ℕ, zero, suc, ◌+◌, ◌-◌, ◌%◌, ◌≤◌, ◌<◌, ◌≡◌, ◌≢◌, sym, subst, ap, ◌∙◌, ◌⊎◌, inl, inr, true, none,
  some, length, length-set, ltb, leb, ◌==◌, if◌then◌else◌, Bool-cases, Option-cases, ==→eq, dec_lt,
  arith,
}
use native.Mathlib.Nat.{mod-eq_of_lt, mod-eq-sub-mod}
use thunity_os.Sched.{
  ready, running, SchedTask, Sched, is_ready, task_at, stop_current, pick_loop, start,
  sched_pick_next,
}
use thunity_os.Sched.Search.{slot, ready_at, Picks, pick_loop-Picks}
use thunity_os.Sched.Invariant.{IsValid, length-stop_current, task_at_put, sched_pick_next-IsValid}

-- A remainder of a sum that goes round at most once.
mod_once : (a n : ℕ) → a < n + n → a % n ≡ (if ltb a n then a else a - n)
mod_once a n h = elim (dec_lt a n) [
  | yes p ↦ ground (arith, mod-eq_of_lt p)
  | no p ↦ ground (
    arith,
    mod-eq-sub-mod {n = a} {m = n} (omega arith),
    mod-eq_of_lt {n = a - n} {m = n} (omega arith),
  )
]

-- How many slots after `cursor` slot `j` comes, round a table of `n`.
abbrev pub distance : ℕ → ℕ → ℕ → ℕ
distance cursor n j = if leb cursor j then j - cursor else j + n - cursor

distance-lt : (cursor n j : ℕ) → cursor < n → j < n → distance cursor n j < n
distance-lt cursor n j hc hj = ground arith

slot-distance : (cursor n j : ℕ) → cursor < n → j < n → (cursor + distance cursor n j) % n ≡ j
slot-distance cursor n j hc hj = ground (arith, mod_once (cursor + distance cursor n j) n)

-- The cursor left behind slot `k` after it is nearer to `j`, if `j` comes later.
distance-next :
    (cursor n j k : ℕ)
    → cursor < n
    → j < n
    → k < distance cursor n j
    → distance (((cursor + k) % n + 1) % n) n j < distance cursor n j
distance-next cursor n j k hc hj hk =
    let e = mod_once (cursor + k) n (ground arith) in
    let lt : (cursor + k) % n < n = omega arith in
    let e' = mod_once ((cursor + k) % n + 1) n (omega arith) in rw e' (rw e (ground arith))

-- What `stop_current` leaves of a ready task and of the cursor.
stop_current-ready :
    (s : Sched) (j : ℕ)
    → IsValid s
    → (task_at s j).state ≡ ready
    → (task_at (stop_current s) j ≡ task_at s j) × ((stop_current s).cursor ≡ s.cursor)
unfolding stop_current
stop_current-ready s j v e = elim (Option-cases s.current) [
  | inl none_runs ↦ (ground arith, ground arith)
  | inr (c, h) ↦
      let t = record (task_at s c) { state = ready } in
      (
        ground (arith, v.current_runs c h, task_at_put s c j t (v.current_runs c h).0),
        ground (arith, v.current_runs c h),
      )
]

-- What a pick does for a ready task: it runs it, or leaves it ready and brings the cursor nearer.
abbrev Nearer : Sched → Sched → ℕ → Type 0
Nearer s s' j =
    (s'.current ≡ some j)
    ⊎ (((task_at s' j).state ≡ ready)
        × (length s'.tasks ≡ length s.tasks)
        × (distance s'.cursor (length s'.tasks) j < distance s.cursor (length s.tasks) j))

start-Nearer :
    (s : Sched) (j i : ℕ)
    → s.cursor < length s.tasks
    → j < length s.tasks
    → (task_at s j).state ≡ ready
    → Picks s 0 (length s.tasks) (some i)
    → Nearer s (start s i) j
unfolding start
start-Nearer s j i hc hj e (k, lo, hi, at, found, before) = elim (Bool-cases (i == j)) [
  | inl same ↦ inl (ap some (==→eq i j same))
  | inr other ↦
      let n = length s.tasks in
      let t = record (task_at s i) { state = running; quantum = (task_at s i).reload } in
      let d = distance s.cursor n j in
      let at_d : slot s d ≡ j = slot-distance s.cursor n j hc hj in
      let ready_d : ready_at s (slot s d) ≡ true = ap (ready_at s) at_d ∙ ap is_ready e in
      let le : k ≤ d = elim (Bool-cases (ltb d k)) [
        | inl early ↦ absurd (cc (before d (omega arith) (ground arith), ready_d))
        | inr fine ↦ ground arith
      ] in
      let ne : k ≢ d = λ same. (let here : i ≡ j = at ∙ ap (slot s) same ∙ at_d in ground arith) in
      let near : distance ((i + 1) % n) n j < d =
        subst (λ x. distance ((x + 1) % n) n j < d) (sym at)
          (distance-next s.cursor n j k hc hj (omega arith)) in
      let lt : i < n = omega arith in
      inr (
        ground (arith, task_at_put s i j t lt),
        length-set s.tasks i t,
        subst (λ m. distance ((i + 1) % n) m j < d) (sym (length-set s.tasks i t)) near,
      )
]

-- A ready task is always found.
never_none :
    (s : Sched) (j : ℕ)
    → s.cursor < length s.tasks
    → j < length s.tasks
    → (task_at s j).state ≡ ready
    → ¬ Picks s 0 (length s.tasks) none
never_none s j hc hj e p =
    let d = distance s.cursor (length s.tasks) j in
    let ready_d : ready_at s (slot s d) ≡ true =
      ap (ready_at s) (slot-distance s.cursor (length s.tasks) j hc hj) ∙ ap is_ready e in
    cc (p d (omega arith) (distance-lt s.cursor (length s.tasks) j hc hj), ready_d)

Nearer-of :
    (a b q : Sched) (j : ℕ)
    → a.cursor ≡ b.cursor
    → length a.tasks ≡ length b.tasks
    → Nearer a q j
    → Nearer b q j
Nearer-of a b q j same n (inl runs) = inl runs
Nearer-of a b q j same n (inr (e, m, lt)) = inr (
  e,
  m ∙ n,
  subst (λ x. distance q.cursor (length q.tasks) j < distance x (length b.tasks) j) same
      (subst (λ x. distance q.cursor (length q.tasks) j < distance a.cursor x j) n lt),
)

-- A pick runs a ready task, or leaves it ready with the cursor strictly nearer to it.
pub sched_pick_next-Nearer :
    (s : Sched) (j : ℕ)
    → IsValid s
    → j < length s.tasks
    → (task_at s j).state ≡ ready
    → Nearer s (sched_pick_next s).1 j
unfolding sched_pick_next
sched_pick_next-Nearer s j v hj e =
    let s' = stop_current s in
    let n = length-stop_current s in
    let (same_task, same_cursor) = stop_current-ready s j v e in
    let hc : s'.cursor < length s'.tasks = omega (arith, v.cursor_in, same_cursor, n) in
    let e' : (task_at s' j).state ≡ ready = ap (λ (t : SchedTask). t.state) same_task ∙ e in
    let p = pick_loop-Picks s' (length s'.tasks) 0 (length s'.tasks) (omega arith) in
    elim (Option-cases (pick_loop s' (length s'.tasks) 0)) [
      | inl nothing ↦ absurd (
          never_none s' j hc (omega (arith, n)) e' (subst (Picks s' 0 (length s'.tasks)) nothing p))
      | inr (i, found) ↦
          rw (found, sched_pick_next)
            (Nearer-of s' s (start s' i) j same_cursor n (
              start-Nearer s' j i hc (omega (arith, n)) e'
                (subst (Picks s' 0 (length s'.tasks)) found p)))
    ]

-- `n` calls of `sched_pick_next`.
unfoldable pub picks : ℕ → Sched → Sched
picks zero s = s
picks (suc n) s = picks n (sched_pick_next s).1

-- The number of calls is bounded by the distance.
within :
    (bound : ℕ) (s : Sched) (j : ℕ)
    → IsValid s
    → j < length s.tasks
    → (task_at s j).state ≡ ready
    → distance s.cursor (length s.tasks) j < bound
    → (n : ℕ) × (n < bound) × ((picks (suc n) s).current ≡ some j)
unfolding picks
within zero s j v hj e h = absurd (omega arith)
within (suc bound) s j v hj e h = elim (sched_pick_next-Nearer s j v hj e) [
  | inl runs ↦ (0, omega arith, runs)
  | inr later ↦
      let s' = (sched_pick_next s).1 in
      let (n, lt, runs) =
        within bound s' j (sched_pick_next-IsValid s v) (omega (arith, later.1)) later.0
          (omega (arith, later.2)) in
      (suc n, omega arith, runs)
]

-- On a valid state a ready task is made the current one by one of the next `cap` calls of
-- `sched_pick_next`.
pub sched_pick_next_fair :
    (s : Sched) (j : ℕ)
    → IsValid s
    → j < length s.tasks
    → (task_at s j).state ≡ ready
    → (n : ℕ) × (n < length s.tasks) × ((picks (suc n) s).current ≡ some j)
sched_pick_next_fair s j v hj e =
    within (length s.tasks) s j v hj e
      (distance-lt s.cursor (length s.tasks) j (omega (arith, v.cursor_in)) hj)
