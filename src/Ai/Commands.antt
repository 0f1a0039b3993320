-- ===== src/Ai/Commands.antt =====
-- kernel/ai/ai.c: the `ai` command of the shell. What it prints is left out; each command's effect on
-- the world is all of it that changes state.
use thunity_os.Base.{ℕ, not, some, List, [], ◌∷◌, ◌==◌, if◌then◌else◌}
use thunity_os.CStrings.{streq, codes}
use thunity_os.Ai.{
  AiWorld, bridge, design_only, role_chat, role_code, role_embed, declared, perm_net_bridge, queued,
  denied, failed, kind_chat, allow, deny, ai_world_init, ai_service_register, ai_service_find,
  ai_model_register, ai_policy_allows, ai_task_create, ai_task_set_state, ai_task_count,
  ai_audit_record,
}

pub data AiSub : Type 0 where
  sub_help sub_status sub_models sub_tasks sub_policy sub_bridge sub_unknown : AiSub

-- The empty text stands for the null pointer as well.
unfoldable pub ai_parse_sub : List ℕ → AiSub
ai_parse_sub [] = sub_help
ai_parse_sub (c ∷ s) =
    if streq (c ∷ s) (codes "status")
    then sub_status
    else if streq (c ∷ s) (codes "models")
    then sub_models
    else if streq (c ∷ s) (codes "tasks")
    then sub_tasks
    else if streq (c ∷ s) (codes "policy")
    then sub_policy
    else if streq (c ∷ s) (codes "bridge")
    then sub_bridge
    else if streq (c ∷ s) (codes "help")
    then sub_help
    else sub_unknown

unfoldable pub ai_init : AiWorld → AiWorld
ai_init w0 =
    let w1 = ai_world_init w0 in
    let w2 =
      (ai_service_register w1 (codes "thunity-backend") (codes "http://127.0.0.1:8000") bridge
        design_only).1 in
    let w3 =
      (ai_service_register w2 (codes "ollama") (codes "http://127.0.0.1:11434") bridge
        design_only).1 in
    let w4 = (ai_model_register w3 (codes "llama3.1") role_chat declared).1 in
    let w5 = (ai_model_register w4 (codes "qwen2.5-coder") role_code declared).1 in
    (ai_model_register w5 (codes "nomic-embed-text") role_embed declared).1

unfoldable pub cmd_bridge : AiWorld → AiWorld
cmd_bridge w =
    let svc = ai_service_find w (codes "thunity-backend") in
    let (id, w1) = ai_task_create w kind_chat svc (codes "bridge-demo") in
    if not (ai_policy_allows w1 perm_net_bridge)
    then ai_audit_record (ai_task_set_state w1 id denied).1 (codes "bridge.connect") deny id
    else ai_audit_record (ai_task_set_state (ai_task_set_state w1 id queued).1 id failed).1
        (codes "bridge.connect") deny id

unfoldable pub run_sub : AiSub → AiWorld → AiWorld
run_sub sub_status w = ai_audit_record w (codes "ai.status") allow (some 0)
run_sub sub_models w = ai_audit_record w (codes "ai.models") allow (some 0)
run_sub sub_tasks w =
    if ai_task_count w.tasks 0 == 0 then w else ai_audit_record w (codes "ai.tasks") allow (some 0)
run_sub sub_policy w = ai_audit_record w (codes "ai.policy") allow (some 0)
run_sub sub_bridge w = cmd_bridge w
run_sub sub_help w = w
run_sub sub_unknown w = w

unfoldable pub ai_command : List ℕ → AiWorld → AiWorld
ai_command args w = run_sub (ai_parse_sub args) w
