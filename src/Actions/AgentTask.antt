-- ===== src/Actions/AgentTask.antt =====
-- The agents' tasks of an event: `claim_agent_task` and `finalize_agent_event` of
-- backend/app/modules/action/service.py, and `run_agent_task` of worker.py.
use Prim.Native.String.{◌++◌ as ◌⧺◌, ◌∷◌ as str_cons, [] as str_nil}
use vaic2026_charcalavong.Prelude.{
  ℕ, zero, suc, String, Bool, true, false, Option, none, some, List, [], ◌∷◌, ◌++◌, if◌then◌else◌,
  ◌==◌, string_eq, Result, ok, raise, ◌>>=◌, Dict, lookup,
}
use vaic2026_charcalavong.Store.{
  Json, str, obj, arr, nil, Fields, end, field, update_where, first_where,
}
use vaic2026_charcalavong.Actions.{
  event_failed, ActionBinding, ActionEvent, AgentEntry, EventResult, Notice, Desk,
}
use vaic2026_charcalavong.Actions.Dispatch.{
  text_or_null, recipients, notify_users, run_input, find_event,
}

-- What the executor does: it raises, or returns its result.
pub data AgentAnswer : Type 0 where
  broke : String → AgentAnswer
  answered : Json → String → String → Bool → String → AgentAnswer

-- The agents with their departments, the executor, and Python's `str` on an output
pub record Agents : Type 0 where
  pub departments : Dict String String
  pub execute : String → Fields → String → AgentAnswer
  pub printed : Json → String

pub record AgentTaskSpec : Type 0 where
  pub agent_id : String
  pub department_id : String
  pub payload : Fields

abbrev pub task_payload : ActionEvent → ActionBinding → Fields
task_payload ev b =
    field "task"
      (obj (field "summary" (str ("Process " ⧺ ev.event_type ⧺ " on mini-app " ⧺ ev.app_id)) end))
      (field "input" (run_input ev b) (field "expected" (arr nil) (field "criteria" (obj end) end)))

unfoldable pub find_binding : String → List ActionBinding → Option ActionBinding
unfolding first_where
find_binding id bindings = first_where (λ (b : ActionBinding). b.id == id) bindings

abbrev pub or_missing {ℓ} : {A : Type ℓ} → String → Option A → Result String A
or_missing message none = raise message
or_missing message (some a) = ok a

abbrev pub unresolvable : String → String → String
unresolvable event_id binding_id = "agent task " ⧺ event_id ⧺ "/" ⧺ binding_id ⧺ " not resolvable"

-- With the message of the NotFoundError
unfoldable pub claim_agent_task : Agents → String → String → Desk → Result String AgentTaskSpec
unfolding find_event find_binding lookup
claim_agent_task agents event_id binding_id s = do
  ev ← or_missing (unresolvable event_id binding_id) (find_event event_id s.events)
  b ← or_missing (unresolvable event_id binding_id) (find_binding binding_id s.bindings)
  agent_id ← or_missing (unresolvable event_id binding_id) b.agent_id
  department_id ← or_missing "Agent not found" (lookup agent_id agents.departments)
  ok (record { agent_id = agent_id; department_id = department_id; payload = task_payload ev b })

abbrev pub failed_entry : String → String → AgentEntry
failed_entry binding_id error = record {
  action_id = binding_id;
  success = false;
  confidence = "0.0";
  rationale = "";
  output = obj end;
  error = error;
}

abbrev pub entry_of : String → AgentAnswer → AgentEntry
entry_of binding_id (broke error) = failed_entry binding_id error
entry_of binding_id (answered output confidence rationale success error) = record {
  action_id = binding_id;
  success = success;
  confidence = confidence;
  rationale = rationale;
  output = output;
  error = error;
}

-- `a or b` on texts
abbrev pub or_text : String → String → String
or_text a b = if a == "" then b else a

-- text[:n]
unfoldable pub take_text : ℕ → String → String
take_text zero t = str_nil
take_text (suc n) str_nil = str_nil
take_text (suc n) (str_cons c t) = str_cons c (take_text n t)

abbrev pub add_entry : AgentEntry → EventResult → EventResult
add_entry entry result = record result { agent_results = result.agent_results ++ entry ∷ [] }

-- Only an event without a workflow run is closed here.
abbrev pub closed_by : AgentEntry → Option String → ActionEvent → ActionEvent
closed_by entry (some run_id) ev = ev
closed_by entry none ev = record ev {
  status = if entry.success then ev.status else event_failed;
  error = if entry.success then ev.error else some (or_text entry.error "agent task failed");
  completed_notified = true;
}

abbrev pub with_entry : AgentEntry → ℕ → ActionEvent → ActionEvent
with_entry entry now ev =
    closed_by entry ev.workflow_run_id
      (record ev { result = add_entry entry ev.result; processed_at = some now })

abbrev pub finished_notice :
    (Json → String) → AgentEntry → ActionEvent → ActionBinding → String → String → Notice
unfolding take_text
finished_notice printed entry ev b id uid = record {
  id = id;
  user_id = uid;
  category = "action.completed";
  title = (if entry.success then "Agent finished — " else "Agent failed — ") ⧺ b.name;
  body =
      or_text (take_text 200 (or_text entry.rationale (printed entry.output)))
        "Background agent processing finished.";
  ref =
      field "agent_id" (text_or_null b.agent_id)
        (field "app_id" (str ev.app_id) (field "action_id" (str b.id) end));
}

unfoldable pub notify_finished :
    (ℕ → String) → (Json → String) → AgentEntry → ActionEvent → Option ActionBinding → Desk → Desk
unfolding notify_users finished_notice
notify_finished new_id printed entry ev none s = s
notify_finished new_id printed entry ev (some b) s =
    (notify_users new_id (finished_notice printed entry ev b) (recipients b) s).1

unfoldable pub record_entry : String → AgentEntry → Desk → Desk
unfolding update_where
record_entry event_id entry s = record s {
  events =
      update_where (λ (ev : ActionEvent). ev.id == event_id) (with_entry entry s.catalog.now)
        s.events;
}

unfoldable pub finalize_found :
    (ℕ → String) → (Json → String) → String → String → AgentEntry → Option ActionEvent → Desk → Desk
unfolding record_entry notify_finished find_binding
finalize_found new_id printed event_id binding_id entry none s = s
finalize_found new_id printed event_id binding_id entry (some ev) s =
    notify_finished new_id printed entry ev (find_binding binding_id s.bindings)
      (record_entry event_id entry s)

unfoldable pub finalize_agent_event :
    (ℕ → String) → (Json → String) → String → String → AgentEntry → Desk → Desk
unfolding finalize_found find_event
finalize_agent_event new_id printed event_id binding_id entry s =
    finalize_found new_id printed event_id binding_id entry (find_event event_id s.events) s

-- try: claim and execute; except: the text of the exception
abbrev pub attempt : Agents → Result String AgentTaskSpec → AgentAnswer
attempt agents (raise message) = broke message
attempt agents (ok spec) = agents.execute spec.agent_id spec.payload spec.department_id

unfoldable pub run_agent_task : (ℕ → String) → Agents → String → String → Desk → Desk
unfolding claim_agent_task finalize_agent_event
run_agent_task new_id agents event_id binding_id s =
    finalize_agent_event new_id agents.printed event_id binding_id
      (entry_of binding_id (attempt agents (claim_agent_task agents event_id binding_id s))) s
