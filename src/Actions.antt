-- ===== src/Actions.antt =====
-- backend/app/modules/action: bindings of a database's events to workflows and agents (models.py,
-- and the CRUD half of service.py). Below: the worker's half of service.py, and worker.py.
pub mod Dispatch
pub mod Sweep
pub mod Rows
pub mod Growth
pub mod Bindings
pub mod Edits
pub mod Rounds
pub mod Passes
pub mod Swept
pub mod Once
pub mod Live
pub mod AgentTask
pub mod Answered
use Prim.Native.String.{◌++◌ as ◌⧺◌}
use vaic2026_charcalavong.Prelude.{
  ℕ, suc, ◌+◌, String, Bool, true, false, not, ◌&&◌, ◌||◌, Option, none, some, List, [], ◌∷◌, ◌++◌,
  if◌then◌else◌, ◌==◌, string_eq, elem, keep, Result, ok, raise, ◌>>=◌, ◌>>◌,
}
use vaic2026_charcalavong.Store.{Json, Fields, update_where, first_where}
use vaic2026_charcalavong.Catalog.{AppError, conflict, not_found, Catalog, found}

abbrev pub event_types : List String
event_types = "row.created" ∷ "row.updated" ∷ "row.deleted" ∷ []

abbrev pub target_types : List String
target_types = "workflow" ∷ "agent" ∷ []

-- ACTION_EVENT_STATUSES
pub data EventStatus : Type 0 where
  event_pending event_dispatched event_failed event_skipped : EventStatus

abbrev pub is_event_pending : EventStatus → Bool
is_event_pending event_pending = true
is_event_pending _ = false

abbrev pub is_event_dispatched : EventStatus → Bool
is_event_dispatched event_dispatched = true
is_event_dispatched _ = false

-- The time of creation is the order of the table.
pub record ActionBinding : Type 0 where
  pub id : String
  pub tenant_id : String
  pub owner_id : String
  pub name : String
  pub database_id : String
  pub event_type : String
  pub target_type : String
  pub workflow_id : Option String
  pub agent_id : Option String
  pub notify_user_ids : List String
  pub is_active : Bool
  pub updated_at : ℕ

-- An entry of `result["dispatched"]`: the binding, the agent or the run, and the notifications
pub data Dispatched : Type 0 where
  to_agent to_run : String → Option String → List String → Dispatched

-- An entry of `result["agent_results"]`
pub record AgentEntry : Type 0 where
  pub action_id : String
  pub success : Bool
  pub confidence : String
  pub rationale : String
  pub output : Json
  pub error : String

pub record EventResult : Type 0 where
  pub reason : Option String
  pub dispatched : List Dispatched
  pub agent_results : List AgentEntry

pub record ActionEvent : Type 0 where
  pub id : String
  pub app_id : String
  pub database_id : Option String
  pub event_type : String
  pub row_id : Option String
  pub payload : Fields
  pub status : EventStatus
  pub workflow_run_id : Option String
  pub result : EventResult
  pub completed_notified : Bool
  pub error : Option String
  pub processed_at : Option ℕ

-- create_notification (notification/service.py)
pub record Notice : Type 0 where
  pub id : String
  pub user_id : String
  pub category : String
  pub title : String
  pub body : String
  pub ref : Fields

pub data Job : Type 0 where
  run_workflow_job : String → Job
  run_agent_task_job : String → String → Job

-- The tables of one tenant, and the jobs that were enqueued.
pub record Desk : Type 0 where
  pub catalog : Catalog
  pub bindings : List ActionBinding
  pub events : List ActionEvent
  pub notices : List Notice
  pub jobs : List Job

-- The caller (MiniAppPrincipal)
pub record Principal : Type 0 where
  pub tenant_id : String
  pub user_id : String

pub record NewBinding : Type 0 where
  pub name : String
  pub database_id : String
  pub event_type : String
  pub target_type : String
  pub workflow_id : Option String
  pub agent_id : Option String
  pub notify_user_ids : List String
  pub is_active : Bool

-- The arguments of `update_binding`: None leaves a field as it is.
pub record Patch : Type 0 where
  pub name : Option String
  pub database_id : Option String
  pub event_type : Option String
  pub target_type : Option String
  pub workflow_id : Option String
  pub agent_id : Option String
  pub notify_user_ids : Option (List String)
  pub is_active : Option Bool

abbrev pub is_some {ℓ} : {A : Type ℓ} → Option A → Bool
is_some none = false
is_some (some a) = true

-- x if x is not None else y
abbrev pub or_old {ℓ} : {A : Type ℓ} → Option A → A → A
or_old none y = y
or_old (some x) y = x

abbrev pub or_same {ℓ} : {A : Type ℓ} → Option A → Option A → Option A
or_same none y = y
or_same (some x) y = some x

unfoldable pub validate_event_type : String → Result AppError (Unit {0})
validate_event_type event_type =
    if elem event_type event_types then ok tt else raise (conflict "event_type")

unfoldable pub validate_target : String → Option String → Option String → Result AppError (Unit {0})
validate_target target_type workflow_id agent_id =
    if not (elem target_type target_types)
    then raise (conflict "target_type")
    else if (target_type == "workflow") && (not (is_some workflow_id) || is_some agent_id)
    then raise (conflict "workflow target requires workflow_id and no agent_id")
    else if (target_type == "agent") && (not (is_some agent_id) || is_some workflow_id)
    then raise (conflict "agent target requires agent_id and no workflow_id")
    else ok tt

unfoldable pub name_taken : String → String → List ActionBinding → Bool
name_taken tenant_id name [] = false
name_taken tenant_id name (b ∷ bindings) =
    ((b.tenant_id == tenant_id) && (b.name == name)) || name_taken tenant_id name bindings

unfoldable pub get_binding : String → List ActionBinding → Result AppError ActionBinding
unfolding first_where
get_binding id bindings = found id (first_where (λ (b : ActionBinding). b.id == id) bindings)

abbrev pub require_free : Bool → String → Result AppError (Unit {0})
require_free taken name = if taken then raise (conflict name) else ok tt

abbrev pub new_binding : String → ℕ → Principal → NewBinding → ActionBinding
new_binding id now principal new = record {
  id = id;
  tenant_id = principal.tenant_id;
  owner_id = principal.user_id;
  name = new.name;
  database_id = new.database_id;
  event_type = new.event_type;
  target_type = new.target_type;
  workflow_id = new.workflow_id;
  agent_id = new.agent_id;
  notify_user_ids = new.notify_user_ids;
  is_active = new.is_active;
  updated_at = now;
}

-- session.add(b)
abbrev pub add_binding : ActionBinding → Desk → Desk × ActionBinding
add_binding b s = (
  record s {
    bindings = s.bindings ++ b ∷ [];
    catalog = record s.catalog { fresh = suc s.catalog.fresh };
  },
  b,
)

unfoldable pub create_binding :
    (ℕ → String) → Principal → NewBinding → Desk → Result AppError (Desk × ActionBinding)
unfolding validate_event_type validate_target name_taken
create_binding new_id principal new s = do
  validate_event_type new.event_type
  validate_target new.target_type new.workflow_id new.agent_id
  require_free (name_taken principal.tenant_id new.name s.bindings) new.name
  ok (add_binding (new_binding (new_id s.catalog.fresh) s.catalog.now principal new) s)

-- The assignments of `update_binding`, one block after the other
abbrev pub rename :
    Option String → List ActionBinding → ActionBinding → Result AppError ActionBinding
rename none bindings b = ok b
rename (some name) bindings b =
    if not (name == b.name) && name_taken b.tenant_id name bindings
    then raise (conflict name)
    else ok (record b { name = name })

abbrev pub retype : Option String → ActionBinding → Result AppError ActionBinding
retype none b = ok b
retype (some event_type) b =
    validate_event_type event_type >> ok (record b { event_type = event_type })

abbrev pub set_target :
    String → Option String → Option String → ActionBinding → Result AppError ActionBinding
set_target new_type new_wf new_ag b =
    validate_target new_type new_wf new_ag
    >> ok (record b { target_type = new_type; workflow_id = new_wf; agent_id = new_ag })

abbrev pub new_target :
    String → Option String → Option String → ActionBinding → Result AppError ActionBinding
new_target new_type wf ag b =
    if new_type == "workflow" then set_target new_type wf none b else set_target new_type none ag b

abbrev pub retarget : Patch → ActionBinding → Result AppError ActionBinding
retarget p b =
    if is_some p.target_type || is_some p.workflow_id || is_some p.agent_id
    then new_target (or_old p.target_type b.target_type) (or_same p.workflow_id b.workflow_id)
        (or_same p.agent_id b.agent_id) b
    else ok b

abbrev pub put_binding : ActionBinding → List ActionBinding → List ActionBinding
unfolding update_where
put_binding b bindings = update_where (λ (r : ActionBinding). r.id == b.id) (λ r. b) bindings

abbrev pub move : Option String → ActionBinding → ActionBinding
move database_id b = record b { database_id = or_old database_id b.database_id }

abbrev pub touch : Patch → ℕ → ActionBinding → ActionBinding
touch p now b = record b {
  notify_user_ids = or_old p.notify_user_ids b.notify_user_ids;
  is_active = or_old p.is_active b.is_active;
  updated_at = now;
}

abbrev pub store_binding : Desk → ActionBinding → Desk × ActionBinding
unfolding put_binding
store_binding s b = (record s { bindings = put_binding b s.bindings }, b)

unfoldable pub update_binding : String → Patch → Desk → Result AppError (Desk × ActionBinding)
unfolding get_binding rename retype retarget store_binding
update_binding id p s = do
  b ← get_binding id s.bindings
  renamed ← rename p.name s.bindings b
  retyped ← retype p.event_type (move p.database_id renamed)
  retargeted ← retarget p retyped
  ok (store_binding s (touch p s.catalog.now retargeted))

unfoldable pub delete_binding : String → Desk → Result AppError Desk
unfolding get_binding keep
delete_binding id s = do
  b ← get_binding id s.bindings
  ok (record s { bindings = keep (λ (r : ActionBinding). not (r.id == b.id)) s.bindings })

-- emit_action_event (emit.py)
unfoldable pub emit_action_event :
    (ℕ → String) → String → Option String → String → Option String → Fields → Desk → Desk
emit_action_event new_id app_id database_id event_type row_id payload s =
    let ev : ActionEvent = record {
      id = new_id s.catalog.fresh;
      app_id = app_id;
      database_id = database_id;
      event_type = event_type;
      row_id = row_id;
      payload = payload;
      status = event_pending;
      workflow_run_id = none;
      result = record { reason = none; dispatched = []; agent_results = [] };
      completed_notified = false;
      error = none;
      processed_at = none;
    } in
    record s {
      events = s.events ++ ev ∷ [];
      catalog = record s.catalog { fresh = suc s.catalog.fresh };
    }
