-- ===== src/State.antt =====
-- backend/app/modules/orchestrator/state.py: compare-and-set transitions. Each returns whether
-- exactly one row was updated, and commits. `extra_cols` is the assignment of further columns, and
-- `extra_where` a further condition on the row.
pub mod Cas
use vaic2026_charcalavong.Prelude.{
  ℕ, String, Bool, true, false, ◌&&◌, Option, none, some, List, if◌then◌else◌, ◌==◌, nat_eq,
  string_eq,
}
use vaic2026_charcalavong.Store.{
  Db, WorkflowRun, RunNodeExecution, Task, RunStatus, run_pending, run_running, awaiting_human,
  run_completed, completed_with_failures, run_failed, timed_out, NodeStatus, pending, running,
  awaiting_approval, completed, failed, rejected, rolled_back, TaskStatus, task_pending, claimed,
  task_completed, task_failed, AuditEntry, run_transition, task_transition, is_run_status,
  is_status, update_where, count_where, log,
}

-- CASE WHEN to = ... THEN now() ELSE column END
abbrev pub stamp : Bool → ℕ → Option ℕ → Option ℕ
stamp true now old = some now
stamp false now old = old

abbrev pub is_terminal_run : RunStatus → Bool
is_terminal_run run_completed = true
is_terminal_run completed_with_failures = true
is_terminal_run run_failed = true
is_terminal_run timed_out = true
is_terminal_run _ = false

abbrev pub is_terminal_node : NodeStatus → Bool
is_terminal_node completed = true
is_terminal_node failed = true
is_terminal_node rejected = true
is_terminal_node _ = false

abbrev pub is_terminal_task : TaskStatus → Bool
is_terminal_task task_completed = true
is_terminal_task task_failed = true
is_terminal_task _ = false

abbrev pub is_claimed : TaskStatus → Bool
is_claimed claimed = true
is_claimed _ = false

abbrev pub task_code : TaskStatus → ℕ
task_code task_pending = 0
task_code claimed = 1
task_code task_completed = 2
task_code task_failed = 3

-- The row that `UPDATE workflow_runs` writes.
unfoldable pub set_run : ℕ → RunStatus → (WorkflowRun → WorkflowRun) → WorkflowRun → WorkflowRun
set_run now to extra_cols r = extra_cols (record r {
  status = to;
  started_at = stamp (is_run_status to run_running) now r.started_at;
  ended_at = stamp (is_terminal_run to) now r.ended_at;
})

abbrev cas_run :
    String
    → RunStatus
    → RunStatus
    → (WorkflowRun → WorkflowRun)
    → Db
    → Option WorkflowRun
    → Db × Bool
unfolding set_run
cas_run run_id from to extra_cols db none = (db, false)
cas_run run_id from to extra_cols db (some r) =
    if r.id == run_id && is_run_status r.status from
    then (record db { run = some (set_run db.now to extra_cols r) }, true)
    else (db, false)

unfoldable pub transition_run_status :
    String → RunStatus → RunStatus → (WorkflowRun → WorkflowRun) → Db → Db × Bool
unfolding cas_run
transition_run_status run_id from to extra_cols db = cas_run run_id from to extra_cols db db.run

unfoldable pub transition_task_status :
    String → TaskStatus → TaskStatus → (Task → Task) → Db → Db × Bool
transition_task_status task_id from to extra_cols db =
    let hit = λ (t : Task). (t.id == task_id) && (task_code t.status == task_code from) in
    let change = λ (t : Task). extra_cols (record t {
      status = to;
      claimed_at = stamp (is_claimed to) db.now t.claimed_at;
      completed_at = stamp (is_terminal_task to) db.now t.completed_at;
    }) in
    (record db { tasks = update_where hit change db.tasks }, count_where hit db.tasks == 1)

-- The row that `UPDATE run_node_executions` writes.
unfoldable pub set_node :
    ℕ → NodeStatus → (RunNodeExecution → RunNodeExecution) → RunNodeExecution → RunNodeExecution
set_node now to extra_cols r = extra_cols (record r {
  status = to;
  started_at = stamp (is_status to running) now r.started_at;
  completed_at = stamp (is_terminal_node to) now r.completed_at;
})

abbrev pub node_hit : String → NodeStatus → (RunNodeExecution → Bool) → RunNodeExecution → Bool
node_hit node_id from extra_where r = (r.id == node_id) && is_status r.status from && extra_where r

unfoldable pub transition_node_status :
    String
    → NodeStatus
    → NodeStatus
    → (RunNodeExecution → RunNodeExecution)
    → (RunNodeExecution → Bool)
    → Db
    → Db × Bool
unfolding set_node
transition_node_status node_id from to extra_cols extra_where db =
    let hit = node_hit node_id from extra_where in
    (
      record db { nodes = update_where hit (set_node db.now to extra_cols) db.nodes },
      count_where hit db.nodes == 1,
    )

abbrev pub rowcount : Bool → ℕ
rowcount ok = if ok then 1 else 0

-- transition_and_audit with kind="run" and with kind="task"; every attempt is audited.
unfoldable pub transition_and_audit_run :
    String → RunStatus → RunStatus → (WorkflowRun → WorkflowRun) → Db → Db × Bool
unfolding transition_run_status
transition_and_audit_run run_id from to extra_cols db =
    let (db', ok) = transition_run_status run_id from to extra_cols db in
    (log (run_transition from to (rowcount ok)) db', ok)

unfoldable pub transition_and_audit_task :
    String → TaskStatus → TaskStatus → (Task → Task) → Db → Db × Bool
unfolding transition_task_status
transition_and_audit_task task_id from to extra_cols db =
    let (db', ok) = transition_task_status task_id from to extra_cols db in
    (log (task_transition from to (rowcount ok)) db', ok)
