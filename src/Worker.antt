-- ===== src/Worker.antt =====
-- The creation of a graph run's rows (backend/app/modules/orchestrator/graph_snapshot.py), and the
-- graph branch of `run_workflow` (backend/app/workers/orchestrator_worker.py). Below: every step of
-- the workers and of the reviewers on one run.
pub mod Authoring
pub mod Build
pub mod Create
pub mod Keep
pub mod Requests
pub mod Sound
pub mod Cases
pub mod Steps
pub mod Gates
pub mod Trace
pub mod Machine
pub mod Refines
pub mod EngineMoves
pub mod Simulates
use vaic2026_charcalavong.Prelude.{
  String, Bool, true, false, Option, none, some, List, [], ◌∷◌, if◌then◌else◌, ok,
}
use vaic2026_charcalavong.Store.{
  Db, RunStatus, run_pending, run_running, awaiting_human, RunNodeExecution, SnapshotNode, Snapshot,
  pending,
}
use vaic2026_charcalavong.State.{transition_and_audit_run}
use vaic2026_charcalavong.Engine.Types.{World, Outcome}
use vaic2026_charcalavong.Engine.Loop.{graph_orchestrate}

-- A row of `create_run_node_executions`; its id is the column's default.
abbrev pub new_row : String → SnapshotNode → RunNodeExecution
new_row id node = record {
  id = id;
  node_key = node.node_key;
  agent_id = node.agent_id;
  status = pending;
  input = none;
  output = none;
  approver_user_ids = node.approver_user_ids;
  decision = none;
  decided_by = none;
  reason = none;
  guidance = none;
  decided_at = none;
  started_at = none;
  completed_at = none;
}

-- The nodes with the ids that the database hands out.
unfoldable pub new_rows : List String → List SnapshotNode → List RunNodeExecution
new_rows ids [] = []
new_rows [] (node ∷ nodes) = []
new_rows (id ∷ ids) (node ∷ nodes) = new_row id node ∷ new_rows ids nodes

unfoldable pub create_run_node_executions : List String → Snapshot → List RunNodeExecution
unfolding new_rows
create_run_node_executions ids snapshot = new_rows ids snapshot.nodes

-- The engine runs only if the run could be claimed.
unfoldable pub proceed : World → String → Bool → Db → Outcome (Unit {0})
unfolding graph_orchestrate
proceed world run_id true db = graph_orchestrate world run_id db
proceed world run_id false db = (ok tt, db)

-- `run_workflow` on a run with a snapshot
unfoldable pub run_workflow : World → String → Bool → Db → Outcome (Unit {0})
unfolding transition_and_audit_run proceed
run_workflow world run_id resume db =
    let (db', won) =
      transition_and_audit_run run_id (if resume then awaiting_human else run_pending) run_running
        (λ r. r) db in
    proceed world run_id won db'
