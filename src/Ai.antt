-- ===== src/Ai.antt =====
-- kernel/ai/ai_core.h and kernel/ai/ai_core.c: services, models, tasks, permissions and the audit ring of
-- the AI layer. The fields of `ai_world_t` are a record; -1 for an index or a task id is `none`, and a
-- text is its characters, cut to its field by `ncopy`.
pub mod Commands
pub mod Policy
pub mod Tasks
pub mod Audit
mod Examples
use thunity_os.Base.{
  ℕ, zero, suc, ◌+◌, ◌-◌, ◌%◌, ◌^◌, bit_and, bit_or, Bool, true, false, not, ◌&&◌, ◌||◌, Option,
  none, some, List, [], ◌∷◌, map, length, get_or, set, u32, ltb, leb, ◌==◌, if◌then◌else◌,
}
use thunity_os.Base.Search.{first_index}
use thunity_os.CStrings.{streq, ncopy, codes}

abbrev pub ai_name_max : ℕ
ai_name_max = 28

abbrev pub ai_endpoint_max : ℕ
ai_endpoint_max = 48

abbrev pub ai_audit_cap : ℕ
ai_audit_cap = 32

pub data AiStatus : Type 0 where
  design_only configured reachable unreachable : AiStatus

pub data SvcKind : Type 0 where
  svc_none bridge local_runtime tool : SvcKind

pub record AiService : Type 0 where
  pub name : List ℕ
  pub endpoint : List ℕ
  pub kind : SvcKind
  pub status : AiStatus
  pub used : Bool

pub data ModelState : Type 0 where
  declared present : ModelState

pub data AiRole : Type 0 where
  role_chat role_code role_embed role_vision : AiRole

pub record AiModel : Type 0 where
  pub name : List ℕ
  pub role : AiRole
  pub state : ModelState
  pub used : Bool

abbrev pub perm_local_infer : ℕ
perm_local_infer = 2 ^ 0

abbrev pub perm_net_bridge : ℕ
perm_net_bridge = 2 ^ 1

abbrev pub perm_file_read : ℕ
perm_file_read = 2 ^ 2

abbrev pub perm_file_write : ℕ
perm_file_write = 2 ^ 3

abbrev pub perm_tool_exec : ℕ
perm_tool_exec = 2 ^ 4

abbrev pub perm_cloud : ℕ
perm_cloud = 2 ^ 5

pub data AiTaskState : Type 0 where
  created queued dispatched done denied failed : AiTaskState

pub data AiTaskKind : Type 0 where
  kind_chat kind_code kind_embed kind_tool : AiTaskKind

pub record AiTask : Type 0 where
  pub id : ℕ
  pub service : Option ℕ
  pub kind : AiTaskKind
  pub state : AiTaskState
  pub label : List ℕ
  pub used : Bool

pub data AiDecision : Type 0 where
  allow deny : AiDecision

pub record AiAudit : Type 0 where
  pub seq : ℕ
  pub action : List ℕ
  pub decision : AiDecision
  pub task_id : Option ℕ
  pub used : Bool

pub record AiWorld : Type 0 where
  pub services : List AiService
  pub models : List AiModel
  pub tasks : List AiTask
  pub audit : List AiAudit
  pub perms : ℕ
  pub next_task_id : ℕ
  pub audit_seq : ℕ
  pub audit_head : ℕ
  pub audit_total : ℕ

-- Slots out of range, which no loop reaches.
abbrev pub no_task : AiTask
no_task = record {
  id = 0;
  service = none;
  kind = kind_chat;
  state = created;
  label = [];
  used = false;
}

abbrev pub no_audit : AiAudit
no_audit = record { seq = 0; action = []; decision = allow; task_id = none; used = false }

abbrev pub task_at : AiWorld → ℕ → AiTask
task_at w i = get_or w.tasks i no_task

unfoldable pub ai_world_init : AiWorld → AiWorld
ai_world_init w = record {
  services = map (λ (s : AiService). record s { used = false }) w.services;
  models = map (λ (m : AiModel). record m { used = false }) w.models;
  tasks = map (λ (t : AiTask). record t { used = false }) w.tasks;
  audit = map (λ (e : AiAudit). record e { used = false }) w.audit;
  perms = bit_or perm_local_infer perm_file_read;
  next_task_id = 1;
  audit_seq = 0;
  audit_head = 0;
  audit_total = 0;
}

unfoldable pub ai_service_register :
    AiWorld → List ℕ → List ℕ → SvcKind → AiStatus → Option ℕ × AiWorld
ai_service_register w name endpoint k st =
    elim (first_index (λ (s : AiService). not s.used) 0 w.services) [
      | none ↦ (none, w)
      | some i ↦ (
        some i,
        record w {
          services = set w.services i (record {
            name = ncopy name ai_name_max;
            endpoint = ncopy endpoint ai_endpoint_max;
            kind = k;
            status = st;
            used = true;
          });
        },
      )
    ]

unfoldable pub ai_service_find : AiWorld → List ℕ → Option ℕ
ai_service_find w name = first_index (λ (s : AiService). s.used && streq s.name name) 0 w.services

unfoldable pub ai_model_register : AiWorld → List ℕ → AiRole → ModelState → Option ℕ × AiWorld
ai_model_register w name role st = elim (first_index (λ (m : AiModel). not m.used) 0 w.models) [
  | none ↦ (none, w)
  | some i ↦ (
    some i,
    record w {
      models =
          set w.models i
            (record { name = ncopy name ai_name_max; role = role; state = st; used = true });
    },
  )
]

unfoldable pub ai_policy_allows : AiWorld → ℕ → Bool
ai_policy_allows w perm = not (bit_and w.perms perm == 0)

-- `~perm` is taken of a 32-bit number.
unfoldable pub ai_policy_set : AiWorld → ℕ → Bool → AiWorld
ai_policy_set w perm permit =
    if permit
    then record w { perms = bit_or w.perms perm }
    else record w { perms = bit_and w.perms (2 ^ 32 - 1 - perm) }

abbrev pub same_id : Option ℕ → ℕ → Bool
same_id none i = false
same_id (some j) i = i == j

unfoldable pub task_by_id : AiWorld → Option ℕ → Option ℕ
task_by_id w id = first_index (λ (t : AiTask). t.used && same_id id t.id) 0 w.tasks

abbrev pub unused_task : AiTask → Bool
unused_task t = not t.used

-- The new task's id.
unfoldable pub ai_task_create : AiWorld → AiTaskKind → Option ℕ → List ℕ → Option ℕ × AiWorld
ai_task_create w kind service label = elim (first_index unused_task 0 w.tasks) [
  | none ↦ (none, w)
  | some i ↦ (
    some w.next_task_id,
    record w {
      tasks = set w.tasks i (record {
        id = w.next_task_id;
        service = service;
        kind = kind;
        state = created;
        label = ncopy label ai_name_max;
        used = true;
      });
      next_task_id = w.next_task_id + 1;
    },
  )
]

unfoldable pub valid_transition : AiTaskState → AiTaskState → Bool
valid_transition created queued = true
valid_transition created denied = true
valid_transition created failed = true
valid_transition queued dispatched = true
valid_transition queued denied = true
valid_transition queued failed = true
valid_transition dispatched done = true
valid_transition dispatched failed = true
valid_transition _ _ = false

unfoldable pub ai_task_set_state : AiWorld → Option ℕ → AiTaskState → Bool × AiWorld
ai_task_set_state w id to = elim (task_by_id w id) [
  | none ↦ (false, w)
  | some i ↦
      if not (valid_transition (task_at w i).state to)
      then (false, w)
      else (true, record w { tasks = set w.tasks i (record (task_at w i) { state = to }) })
]

-- The loops that count the used entries.
unfoldable pub ai_task_count : List AiTask → ℕ → ℕ
ai_task_count [] n = n
ai_task_count (t ∷ ts) n = ai_task_count ts (if t.used then n + 1 else n)

unfoldable pub ai_audit_record : AiWorld → List ℕ → AiDecision → Option ℕ → AiWorld
ai_audit_record w action d task_id = record w {
  audit_seq = u32 (w.audit_seq + 1);
  audit = set w.audit w.audit_head (record {
    seq = u32 (w.audit_seq + 1);
    action = ncopy action ai_name_max;
    decision = d;
    task_id = task_id;
    used = true;
  });
  audit_head = (w.audit_head + 1) % ai_audit_cap;
  audit_total = if ltb w.audit_total ai_audit_cap then w.audit_total + 1 else w.audit_total;
}

-- `(head - 1 - back) % AI_AUDIT_CAP` on `int`, plus the cap where that is negative: the remainder of
-- a negative number is the negated one of its absolute value.
abbrev pub audit_index : ℕ → ℕ → ℕ
audit_index head back =
    if ltb back head
    then (head - 1 - back) % ai_audit_cap
    else if (back + 1 - head) % ai_audit_cap == 0
    then 0
    else ai_audit_cap - (back + 1 - head) % ai_audit_cap

-- `back` 0 is the newest; a negative `back`, which is refused, has no counterpart here.
unfoldable pub ai_audit_recent : AiWorld → ℕ → Option AiAudit
ai_audit_recent w back =
    if leb w.audit_total back
    then none
    else some (get_or w.audit (audit_index w.audit_head back) no_audit)
