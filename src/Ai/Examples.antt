-- ===== src/Ai/Examples.antt =====
-- Tests of the AI layer of kernel/ai: its world as the kernel's zeroed memory, and after `ai_init`.
use thunity_os.Base.{ℕ, zero, suc, ◌≡◌, refl, false, [], get_or, replicate, length-replicate}
use thunity_os.Base.Search.{first_index}
use thunity_os.CStrings.{codes, streq, ncopy}
use thunity_os.Ai.{
  AiWorld, design_only, svc_none, role_chat, declared, no_task, no_audit, denied, task_at,
  ai_world_init, ai_service_register, ai_model_register, ai_service_find, ai_policy_allows,
  ai_task_create, ai_task_set_state, task_by_id, valid_transition, ai_audit_record,
}
use thunity_os.Ai.Commands.{ai_init, ai_command, ai_parse_sub, run_sub, cmd_bridge}
use thunity_os.Ai.Tasks.{NoneSent, ai_command-NoneSent}
use thunity_os.Ai.Audit.{HasRecent, ai_world_init-HasRecent}

abbrev zeroed : AiWorld
zeroed = record {
  services =
      replicate 8
        (record { name = []; endpoint = []; kind = svc_none; status = design_only; used = false });
  models = replicate 12 (record { name = []; role = role_chat; state = declared; used = false });
  tasks = replicate 16 no_task;
  audit = replicate 32 no_audit;
  perms = 0;
  next_task_id = 0;
  audit_seq = 0;
  audit_head = 0;
  audit_total = 0;
}

denies_bridge : (task_at (ai_command (codes "bridge") (ai_init zeroed)) 0).state ≡ denied
unfolding ai_command ai_parse_sub run_sub cmd_bridge ai_init ai_world_init ai_service_register
    ai_model_register ai_service_find ai_policy_allows ai_task_create ai_task_set_state task_by_id
    valid_transition ai_audit_record first_index streq ncopy
denies_bridge = refl

all_created : (n i : ℕ) → (get_or (replicate n no_task) i no_task) ≡ no_task
all_created zero i = refl
all_created (suc n) zero = refl
all_created (suc n) (suc i) = all_created n i

zeroed-NoneSent : NoneSent zeroed
zeroed-NoneSent i = rw (all_created 16 i) refl

ai_command_example : NoneSent (ai_command (codes "bridge") zeroed)
ai_command_example = ai_command-NoneSent (codes "bridge") zeroed zeroed-NoneSent

abbrev fresh : AiWorld
fresh = ai_world_init zeroed

fresh-HasRecent : HasRecent fresh []
fresh-HasRecent = ai_world_init-HasRecent zeroed (length-replicate 32 no_audit)
