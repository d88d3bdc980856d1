-- ===== src/Flat.antt =====
-- backend/app/modules/orchestrator/service.py: the tasks of a run without a graph, from their
-- dispatch to the aggregation. The state is the tables, and the number of calls of the executor.
pub mod Retry
pub mod Ends
use vaic2026_charcalavong.Prelude.{
  ℕ, zero, suc, String, Bool, true, false, not, ◌&&◌, Option, none, some, List, [], ◌∷◌, map, any,
  if◌then◌else◌, ◌==◌, string_eq, nat_eq, Result, ok, raise,
}
use vaic2026_charcalavong.Store.{
  Json, null, truth, num, str, arr, obj, Items, nil, item, Fields, end, field, Db, Task, TaskStatus,
  task_pending, claimed, task_completed, task_failed, RunStatus, run_running, run_completed,
  run_failed, task_executed, task_broke, aggregated, log,
}
use vaic2026_charcalavong.State.{transition_task_status, transition_and_audit_run, task_code}

-- The agents' departments, and the executor: it raises, or returns a result that is dumped to JSON.
-- It may depend on the number of earlier calls.
pub record TaskWorld : Type 0 where
  pub department : String → Result String String
  pub execute : ℕ → Task → String → Result String Json

abbrev pub Attempted : Type 0
Attempted = Result String Json × ℕ

-- `except Exception`: one attempt more, if there is one
abbrev pub or_retry : Result String Json → ℕ → Attempted → Attempted
or_retry (raise e) calls later = later
or_retry (ok dump) calls later = (ok dump, calls)

-- The delays between the attempts are left out.
unfoldable pub run_with_retry : TaskWorld → ℕ → ℕ → Task → String → Attempted
run_with_retry world calls zero task dept = (world.execute calls task dept, suc calls)
run_with_retry world calls (suc retries) task dept =
    or_retry (world.execute calls task dept) (suc calls)
      (run_with_retry world (suc calls) retries task dept)

-- The block under `try`
abbrev pub try_task : TaskWorld → ℕ → ℕ → Task → Result String String → Attempted
unfolding run_with_retry
try_task world calls retries task (raise e) = (raise e, calls)
try_task world calls retries task (ok dept) = run_with_retry world calls retries task dept

abbrev pub set_result : Json → Task → Task
set_result result t = record t { result = some result }

unfoldable pub settle_task : Task → Result String Json → Db → Db
unfolding transition_task_status
settle_task task (ok dump) db =
    log (task_executed task.id dump)
      (transition_task_status task.id claimed task_completed (set_result dump) db).0
settle_task task (raise e) db =
    log (task_broke task.id e)
      (transition_task_status task.id claimed task_failed
        (set_result (obj (field "error" (str e) end))) db).0

abbrev pub settled_with : Task → Db → Attempted → Db × ℕ
unfolding settle_task
settled_with task db (result, calls) = (settle_task task result db, calls)

unfoldable pub execute_task_row : TaskWorld → ℕ → Task → Db → ℕ → Db × ℕ
unfolding transition_task_status try_task settled_with
execute_task_row world retries task db calls =
    let (db', won) = transition_task_status task.id task_pending claimed (λ t. t) db in
    if won
    then settled_with task db'
        (try_task world calls retries task (world.department task.target_agent_id))
    else (db', calls)

-- What the aggregate holds of a task
pub record TaskSummary : Type 0 where
  pub task_id : String
  pub target_agent_id : String
  pub status : TaskStatus
  pub result : Option Json

unfoldable pub aggregate_run : Db → List TaskSummary
aggregate_run db =
    map
      (λ (t : Task). record {
        task_id = t.id;
        target_agent_id = t.target_agent_id;
        status = t.status;
        result = t.result;
      })
      db.tasks

-- d.get(k), of an object
abbrev pub get : String → Fields → Json
get k end = null
get k (field j v rest) = if j == k then v else get k rest

-- Python's truth value
abbrev pub is_truthy : Json → Bool
is_truthy null = false
is_truthy (truth b) = b
is_truthy (num n) = not (n == "0") && not (n == "0.0")
is_truthy (str s) = not (s == "")
is_truthy (arr nil) = false
is_truthy (arr (item j rest)) = true
is_truthy (obj end) = false
is_truthy (obj (field k v rest)) = true

-- (t.get("result") or {}).get("success"); a result is an object
abbrev pub is_success : Option Json → Bool
is_success (some (obj fields)) = is_truthy (get "success" fields)
is_success _ = false

unfoldable pub has_succeeded_task : List TaskSummary → Bool
unfolding any
has_succeeded_task tasks =
    any
      (λ (t : TaskSummary). (task_code t.status == task_code task_completed) && is_success t.result)
      tasks

abbrev pub status_text : TaskStatus → String
status_text task_pending = "pending"
status_text claimed = "claimed"
status_text task_completed = "completed"
status_text task_failed = "failed"

abbrev pub or_null : Option Json → Json
or_null none = null
or_null (some j) = j

abbrev pub summary_items : List TaskSummary → Items
summary_items [] = nil
summary_items (t ∷ ts) =
    item
      (obj (
        field "task_id" (str t.task_id) (
          field "target_agent_id" (str t.target_agent_id)
            (field "status" (str (status_text t.status)) (field "result" (or_null t.result) end)))))
      (summary_items ts)

abbrev pub aggregate_json : List TaskSummary → Json
aggregate_json tasks = obj (field "tasks" (arr (summary_items tasks)) end)

abbrev pub log_if : Bool → Json → Db → Db
log_if true result db = log (aggregated result) db
log_if false result db = db

unfoldable pub finish_run : String → Db → Db
unfolding aggregate_run has_succeeded_task transition_and_audit_run
finish_run run_id db =
    let tasks = aggregate_run db in
    let (db', won) =
      transition_and_audit_run run_id run_running
        (if has_succeeded_task tasks then run_completed else run_failed)
        (λ r. record r { result = some (aggregate_json tasks) }) db in
    log_if won (aggregate_json tasks) db'

unfoldable pub execute_all : TaskWorld → ℕ → List Task → Db → ℕ → Db × ℕ
unfolding execute_task_row
execute_all world retries [] db calls = (db, calls)
execute_all world retries (task ∷ tasks) db calls =
    let (db', calls') = execute_task_row world retries task db calls in
    execute_all world retries tasks db' calls'

-- `orchestrate_run` on the tasks that the decomposition returns
unfoldable pub orchestrate_run : TaskWorld → ℕ → String → List Task → Db → ℕ → Db
unfolding execute_all finish_run transition_and_audit_run
orchestrate_run world retries run_id [] db calls =
    (transition_and_audit_run run_id run_running run_failed (λ r. r) db).0
orchestrate_run world retries run_id (task ∷ tasks) db calls =
    finish_run run_id (execute_all world retries (task ∷ tasks) db calls).0
