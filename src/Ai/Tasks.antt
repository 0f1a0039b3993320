-- ===== src/Ai/Tasks.antt =====
-- What the commands of kernel/ai/ai.c can do to the tasks of kernel/ai/ai_core.c.
use thunity_os.Base.{
  ℕ, ◌<◌, ◌≡◌, refl, Bool, true, false, ◌&&◌, Option, some, List, length, set, get_or-set, ◌==◌,
  Bool-cases, Option-cases, inl, inr, arith,
}
use thunity_os.Base.Search.{first_index, first_index-some}
use thunity_os.CStrings.{codes}
use thunity_os.Ai.{
  AiTaskState, queued, dispatched, done, denied, failed, AiTask, AiTaskKind, AiWorld, no_task,
  task_at, same_id, task_by_id, unused_task, ai_task_create, valid_transition, ai_task_set_state,
  ai_audit_record, ai_policy_allows, perm_net_bridge, ai_service_find, ai_task_count, kind_chat,
  deny, allow,
}
use thunity_os.Ai.Commands.{
  AiSub, sub_help, sub_status, sub_models, sub_tasks, sub_policy, sub_bridge, sub_unknown,
  ai_parse_sub, cmd_bridge, run_sub, ai_command,
}

-- The state of a task that was never sent.
abbrev pub is_kept : AiTaskState → Bool
is_kept dispatched = false
is_kept done = false
is_kept _ = true

-- No task was sent.
abbrev pub NoneSent : AiWorld → Type 0
NoneSent w = (i : ℕ) → is_kept (task_at w i).state ≡ true

put_task-NoneSent :
    (w : AiWorld) (i : ℕ) (t : AiTask)
    → i < length w.tasks
    → is_kept t.state ≡ true
    → NoneSent w
    → NoneSent (record w { tasks = set w.tasks i t })
put_task-NoneSent w i t lt kept s j = ground (arith, get_or-set w.tasks i j t no_task lt, s j)

ai_task_create-NoneSent :
    (w : AiWorld) (kind : AiTaskKind) (service : Option ℕ) (label : List ℕ)
    → NoneSent w
    → NoneSent (ai_task_create w kind service label).1
unfolding ai_task_create
ai_task_create-NoneSent w kind service label s =
    elim (Option-cases (first_index unused_task 0 w.tasks)) [
      | inl full ↦ rw (full, ai_task_create) s
      | inr (i, e) ↦
          rw (e, ai_task_create)
            (put_task-NoneSent w i _ (first_index-some unused_task no_task w.tasks i e).0 refl s)
    ]

ai_task_set_state-NoneSent :
    (w : AiWorld) (id : Option ℕ) (to : AiTaskState)
    → is_kept to ≡ true
    → NoneSent w
    → NoneSent (ai_task_set_state w id to).1
unfolding ai_task_set_state task_by_id
ai_task_set_state-NoneSent w id to kept s = elim (Option-cases (task_by_id w id)) [
  | inl missing ↦ rw (missing, ai_task_set_state) s
  | inr (i, e) ↦ elim (Bool-cases (valid_transition (task_at w i).state to)) [
    | inr refused ↦ rw (e, refused, ai_task_set_state) s
    | inl moved ↦
        rw (e, moved, ai_task_set_state)
          (put_task-NoneSent w i (record (task_at w i) { state = to })
            (first_index-some (λ (t : AiTask). t.used && same_id id t.id) no_task w.tasks i e).0
            kept s)
  ]
]

ai_audit_record-NoneSent :
    (w : AiWorld) (action : List ℕ) (d : _) (id : Option ℕ)
    → NoneSent w
    → NoneSent (ai_audit_record w action d id)
unfolding ai_audit_record
ai_audit_record-NoneSent w action d id s i = s i

cmd_bridge-NoneSent : (w : AiWorld) → NoneSent w → NoneSent (cmd_bridge w)
unfolding cmd_bridge
cmd_bridge-NoneSent w s =
    let svc = ai_service_find w (codes "thunity-backend") in
    let r = ai_task_create w kind_chat svc (codes "bridge-demo") in
    let s1 : NoneSent r.1 = ai_task_create-NoneSent w kind_chat svc (codes "bridge-demo") s in
    elim (Bool-cases (ai_policy_allows r.1 perm_net_bridge)) [
      | inr off ↦ rw off (
          ai_audit_record-NoneSent _ (codes "bridge.connect") deny r.0
            (ai_task_set_state-NoneSent r.1 r.0 denied refl s1))
      | inl on ↦ rw on (
          ai_audit_record-NoneSent _ (codes "bridge.connect") deny r.0 (
            ai_task_set_state-NoneSent _ r.0 failed refl
              (ai_task_set_state-NoneSent r.1 r.0 queued refl s1)))
    ]

run_sub-NoneSent : (sub : AiSub) (w : AiWorld) → NoneSent w → NoneSent (run_sub sub w)
unfolding run_sub
run_sub-NoneSent sub_help w s = s
run_sub-NoneSent sub_status w s = ai_audit_record-NoneSent w (codes "ai.status") allow (some 0) s
run_sub-NoneSent sub_models w s = ai_audit_record-NoneSent w (codes "ai.models") allow (some 0) s
run_sub-NoneSent sub_tasks w s = elim (Bool-cases (ai_task_count w.tasks 0 == 0)) [
  | inl no_tasks ↦ rw no_tasks s
  | inr some_tasks ↦ rw some_tasks (ai_audit_record-NoneSent w (codes "ai.tasks") allow (some 0) s)
]
run_sub-NoneSent sub_policy w s = ai_audit_record-NoneSent w (codes "ai.policy") allow (some 0) s
run_sub-NoneSent sub_bridge w s = cmd_bridge-NoneSent w s
run_sub-NoneSent sub_unknown w s = s

-- Where no task is dispatched or done, none is after an `ai` command, whatever its text and the
-- policy.
pub ai_command-NoneSent : (args : List ℕ) (w : AiWorld) → NoneSent w → NoneSent (ai_command args w)
unfolding ai_command
ai_command-NoneSent args w s = run_sub-NoneSent (ai_parse_sub args) w s
