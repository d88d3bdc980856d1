-- ===== src/Actions/Sweep.antt =====
-- `notify_completed_events` of backend/app/modules/action/service.py, and
-- `process_tenant_action_events` of worker.py, which enqueues the jobs of a pass and then sweeps.
use Prim.Native.String.{◌++◌ as ◌⧺◌}
use vaic2026_charcalavong.Prelude.{
  ℕ, String, Bool, true, false, not, ◌&&◌, Option, none, some, List, [], ◌∷◌, ◌++◌, map,
  if◌then◌else◌, ◌==◌, string_eq, keep, ok,
}
use vaic2026_charcalavong.Store.{
  str, end, field, Db, WorkflowRun, RunStatus, run_pending, run_running, awaiting_human,
  run_completed, completed_with_failures, run_failed, timed_out, update_where, first_where,
}
use vaic2026_charcalavong.Actions.{
  is_event_dispatched, ActionBinding, ActionEvent, Dispatched, to_agent, to_run, Notice, Job,
  run_workflow_job, run_agent_task_job, Desk, is_some,
}
use vaic2026_charcalavong.Actions.Dispatch.{
  Pass, after, recipients, notify_users, find_event, Progress, dispatch_pending_events,
}

-- TERMINAL_RUN_STATUSES
abbrev pub is_terminal : RunStatus → Bool
is_terminal run_completed = true
is_terminal completed_with_failures = true
is_terminal run_failed = true
is_terminal timed_out = true
is_terminal _ = false

abbrev pub status_text : RunStatus → String
status_text run_pending = "pending"
status_text run_running = "running"
status_text awaiting_human = "awaiting_human"
status_text run_completed = "completed"
status_text completed_with_failures = "completed_with_failures"
status_text run_failed = "failed"
status_text timed_out = "timed_out"

abbrev pub is_run : String → Db → Bool
is_run id db = elim db.run [ none ↦ false | some r ↦ r.id == id ]

-- The run of an event, if it is in a terminal status
abbrev pub run_of : Option Db → Option WorkflowRun
run_of none = none
run_of (some db) = db.run

abbrev pub if_terminal : Option WorkflowRun → Option WorkflowRun
if_terminal none = none
if_terminal (some r) = if is_terminal r.status then some r else none

unfoldable pub ended_run : Option String → List Db → Option WorkflowRun
unfolding first_where
ended_run none runs = none
ended_run (some run_id) runs = if_terminal (run_of (first_where (is_run run_id) runs))

abbrev pub action_id_of : Dispatched → String
action_id_of (to_agent id agent_id notification_ids) = id
action_id_of (to_run id run_id notification_ids) = id

abbrev pub completed_notice : WorkflowRun → ActionEvent → ActionBinding → String → String → Notice
completed_notice run ev b id uid = record {
  id = id;
  user_id = uid;
  category = "action.completed";
  title = "Workflow " ⧺ status_text run.status ⧺ " — " ⧺ b.name;
  body = "Background processing finished.";
  ref = field "workflow_run_id" (str run.id) (field "app_id" (str ev.app_id) end);
}

unfoldable pub notify_binding :
    (ℕ → String) → WorkflowRun → ActionEvent → Option ActionBinding → Desk → Desk
unfolding notify_users
notify_binding new_id run ev none s = s
notify_binding new_id run ev (some b) s =
    (notify_users new_id (completed_notice run ev b) (recipients b) s).1

-- for d in (ev.result or {}).get("dispatched", [])
unfoldable pub notify_entries :
    (ℕ → String) → WorkflowRun → ActionEvent → List Dispatched → Desk → Desk
unfolding first_where notify_binding
notify_entries new_id run ev [] s = s
notify_entries new_id run ev (d ∷ entries) s = notify_entries new_id run ev entries (
    notify_binding new_id run ev
      (first_where (λ (b : ActionBinding). b.id == action_id_of d) s.bindings) s)

abbrev pub notified : ActionEvent → ActionEvent
notified ev = record ev { completed_notified = true }

unfoldable pub mark_notified : String → Desk → Desk
unfolding update_where
mark_notified id s = record s {
  events = update_where (λ (ev : ActionEvent). ev.id == id) notified s.events;
}

-- The run's status decides; without a run that has ended the round does nothing.
unfoldable pub sweep_if_ended : (ℕ → String) → ActionEvent → Option WorkflowRun → Desk → Desk
unfolding notify_entries mark_notified
sweep_if_ended new_id ev none s = s
sweep_if_ended new_id ev (some run) s =
    mark_notified ev.id (notify_entries new_id run ev ev.result.dispatched s)

unfoldable pub sweep_if_found : (ℕ → String) → Option ActionEvent → Desk → Desk
unfolding sweep_if_ended ended_run
sweep_if_found new_id none s = s
sweep_if_found new_id (some ev) s =
    sweep_if_ended new_id ev (ended_run ev.workflow_run_id s.catalog.runs) s

unfoldable pub sweep_event : (ℕ → String) → String → Desk → Desk
unfolding find_event sweep_if_found
sweep_event new_id id s = sweep_if_found new_id (find_event id s.events) s

unfoldable pub sweep_events : (ℕ → String) → List String → Desk → Desk
unfolding sweep_event
sweep_events new_id [] s = s
sweep_events new_id (id ∷ ids) s = sweep_events new_id ids (sweep_event new_id id s)

-- status == "dispatched", completed_notified.is_(False), workflow_run_id.isnot(None)
abbrev pub is_open : ActionEvent → Bool
is_open ev =
    is_event_dispatched ev.status && not ev.completed_notified && is_some ev.workflow_run_id

unfoldable pub open_ids : List ActionEvent → List String
unfolding keep
open_ids events = map (λ (ev : ActionEvent). ev.id) (keep is_open events)

unfoldable pub notify_completed_events : (ℕ → String) → Desk → Desk
unfolding sweep_events open_ids
notify_completed_events new_id s = sweep_events new_id (open_ids s.events) s

-- The jobs of a pass: the runs, then the agents' tasks
abbrev pub jobs_of : Progress → List Job
jobs_of out =
    map run_workflow_job out.run_ids
    ++ map (λ (t : String × String). run_agent_task_job t.0 t.1) out.agent_tasks

unfoldable pub process_tenant_action_events : (ℕ → String) → Bool → Desk → Pass (Unit {0})
unfolding dispatch_pending_events notify_completed_events
process_tenant_action_events new_id has_pool s = after (dispatch_pending_events new_id s) (λ out s'.
    let queued = record s' { jobs = if has_pool then s'.jobs ++ jobs_of out else s'.jobs } in
    (ok tt, notify_completed_events new_id queued))
