-- ===== src/Samples/Acting.antt =====
-- A binding of the sample workflow, an event for it, and one that nobody waits for.
use vaic2026_charcalavong.Prelude.{
  String, ◌≡◌, ≢→beq, refl, inl, inr, true, false, Option, none, some, [], ◌∷◌, arith, elem,
  Distinct, ok, string_eq, nat_eq, pair_eq, ◌==◌,
}
use vaic2026_charcalavong.Store.{end, update_where, first_where, str, run_completed}
use vaic2026_charcalavong.Catalog.{tables_of_run}
use vaic2026_charcalavong.Actions.{
  ActionBinding, ActionEvent, event_pending, event_dispatched, Desk, Patch, update_binding,
  name_taken, validate_event_type, validate_target, to_run,
}
use vaic2026_charcalavong.Actions.Bindings.{IsTable, update, edit}
use vaic2026_charcalavong.Actions.Edits.{edit-IsTable}
use vaic2026_charcalavong.Actions.Dispatch.{find_event}
use vaic2026_charcalavong.Actions.Sweep.{notify_completed_events, process_tenant_action_events}
use vaic2026_charcalavong.Actions.Growth.{AllRunnable}
use vaic2026_charcalavong.Actions.Rows.{ids_of}
use vaic2026_charcalavong.Actions.Once.{notify_completed_events_once}
use vaic2026_charcalavong.Actions.Live.{Processed, process_tenant_action_events_lem}
use vaic2026_charcalavong.Actions.AgentTask.{Agents, answered, run_agent_task}
use vaic2026_charcalavong.Actions.Answered.{Recorded, run_agent_task_lem}
use vaic2026_charcalavong.Samples.{snapshot, run}
use vaic2026_charcalavong.Samples.Authored.{built}
use vaic2026_charcalavong.Samples.Edited.{tally, tally_inj, workflow, catalog, exists}

abbrev binding : ActionBinding
binding = record {
  id = "x";
  tenant_id = "t";
  owner_id = "o";
  name = "intake";
  database_id = "d";
  event_type = "row.created";
  target_type = "workflow";
  workflow_id = some "w";
  agent_id = none;
  notify_user_ids = [];
  is_active = true;
  updated_at = 0;
}

abbrev event : String → Option String → ActionEvent
event id database_id = record {
  id = id;
  app_id = "app";
  database_id = database_id;
  event_type = "row.created";
  row_id = none;
  payload = end;
  status = event_pending;
  workflow_run_id = none;
  result = record { reason = none; dispatched = []; agent_results = [] };
  completed_notified = false;
  error = none;
  processed_at = none;
}

abbrev desk : Desk
desk = record {
  catalog = record catalog { fresh = 2 };
  bindings = binding ∷ [];
  events = event "e1" (some "d") ∷ event "e2" none ∷ [];
  notices = [];
  jobs = [];
}

runnable : AllRunnable desk.catalog.workflows desk.bindings
runnable = (
  inr (record {
    workflow_id = "w";
    has_workflow = refl;
    workflow = workflow;
    exists = exists;
    snapshot = some snapshot;
    builds = built;
  }),
  tt,
)

process_tenant_action_events_lem_example :
    (s' : Desk) × (process_tenant_action_events tally true desk ≡ (ok tt, s')) × Processed desk s'
process_tenant_action_events_lem_example = process_tenant_action_events_lem tally desk runnable

-- An event whose run has ended, and which nobody has been told of
abbrev waiting : Desk
waiting = record desk {
  catalog = record catalog {
    runs = tables_of_run (record run { status = run_completed }) [] 0 ∷ [];
  };
  events =
      record (event "e1" (some "d")) {
        status = event_dispatched;
        workflow_run_id = some "r";
        result = record {
          reason = none;
          dispatched = to_run "x" (some "r") [] ∷ [];
          agent_results = [];
        };
      }
      ∷ [];
}

unique : Distinct (ids_of waiting.events)
unfolding elem
unique = (refl, tt)

notify_completed_events_once_example :
    notify_completed_events tally (notify_completed_events tally waiting)
    ≡ notify_completed_events tally waiting
notify_completed_events_once_example = notify_completed_events_once tally waiting unique

abbrev agents : Agents
agents = record {
  departments = ("a1", "finance") ∷ [];
  execute = λ agent payload department. answered (str "fine") "0.9" "clear" true "";
  printed = λ j. "fine";
}

found : find_event "e1" desk.events ≡ some (event "e1" (some "d"))
unfolding find_event first_where
found = refl

run_agent_task_lem_example :
    Recorded tally agents "e1" "x" desk
      (event "e1" (some "d"))
      (run_agent_task tally agents "e1" "x" desk)
    × ((k : String)
        → (k == "e1") ≡ false
        → find_event k (run_agent_task tally agents "e1" "x" desk).events
          ≡ find_event k desk.events)
run_agent_task_lem_example =
    run_agent_task_lem tally agents "e1" "x" desk (event "e1" (some "d")) found

abbrev patch : Patch
patch = record {
  name = some "claims";
  database_id = none;
  event_type = some "row.updated";
  target_type = some "agent";
  workflow_id = none;
  agent_id = some "a1";
  notify_user_ids = none;
  is_active = none;
}

abbrev edited : Desk
edited = record desk {
  bindings =
      record binding {
        name = "claims";
        event_type = "row.updated";
        target_type = "agent";
        workflow_id = none;
        agent_id = some "a1";
        updated_at = 7;
      }
      ∷ [];
}

was_edited : edit tally (update "x" patch) desk ≡ ok edited
unfolding update_binding elem first_where update_where name_taken validate_event_type
    validate_target
was_edited = refl

table : IsTable tally desk
unfolding elem
table = record {
  valid = (record { event = refl; target = inl (refl, refl, refl) }, tt);
  unique_labels = (refl, tt);
  unique_ids = (refl, tt);
  unused = λ i le. rw (≢→beq "x" (tally i) (λ e. omega (arith, tally_inj 1 i e))) refl;
}

edit-IsTable_example : IsTable tally edited
edit-IsTable_example = edit-IsTable tally tally_inj desk table (update "x" patch) edited was_edited
