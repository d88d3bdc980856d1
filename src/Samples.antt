-- ===== src/Samples.antt =====
-- A run of three nodes in a row, the second with an approver, and what the engine and the review
-- do with it.
mod Acting
mod Auditing
mod Authored
mod Edited
mod Decisions
mod Tasks
mod Traces
use vaic2026_charcalavong.Prelude.{
  ℕ, String, ◌≡◌, ◌≢◌, ◌↔◌, ◌⊎◌, refl, sym, ap, ◌∙◌, Bool, true, false, ◌&&◌, Option, none, some,
  List, [], ◌∷◌, ◌++◌, arith, elem, keep, any, all, put, from_keys, lookup, values, Distinct,
  length, ok, raise, string_eq, nat_eq, if◌then◌else◌, ◌==◌,
}
use vaic2026_charcalavong.Graph.{
  Edge, assert_valid_graph, topological_order, parents_by_key, descendants,
}
use vaic2026_charcalavong.Store.{
  Json, null, obj, end, Db, WorkflowRun, RunNodeExecution, RunRollbackRequest, Snapshot,
  SnapshotNode, TaskPayload, run_pending, run_running, awaiting_human, run_completed, NodeStatus,
  pending, running, awaiting_approval, completed, failed, by_key, count_where, update_where,
  rollback_pending, Decision, approve, retry, override, reject, node_decision, accepted, is_status,
}
use vaic2026_charcalavong.Store.Rows.{find, IsUnique}
use vaic2026_charcalavong.Engine.Types.{World, returned, agent_not_found}
use vaic2026_charcalavong.Engine.Loop.{graph_orchestrate}
use vaic2026_charcalavong.Engine.Turn.{is_at}
use vaic2026_charcalavong.Engine.Safe.{IsCausal, HoldsGates, AllSettled}
use vaic2026_charcalavong.Engine.Outcome.{run_status, IsStopped, IsFinal}
use vaic2026_charcalavong.Engine.Orchestrate.{
  IsReady, graph_orchestrate-IsCausal, graph_orchestrate-HoldsGates, graph_orchestrate_ends,
  graph_orchestrate-IsStopped,
}
use vaic2026_charcalavong.Worker.{create_run_node_executions, run_workflow}
use vaic2026_charcalavong.Worker.Create.{create_run_node_executions-IsReady, find-elem}

abbrev pub node : String → List String → SnapshotNode
node k approvers = record {
  node_key = k;
  label = k;
  agent_id = "agent";
  config = obj end;
  approver_user_ids = approvers;
}

abbrev pub snapshot : Snapshot
snapshot = record {
  nodes = node "a" [] ∷ node "b" ("u1" ∷ []) ∷ node "c" [] ∷ [];
  edges = ("a", "b") ∷ ("b", "c") ∷ [];
}

abbrev pub run : WorkflowRun
run = record {
  id = "r";
  workflow_id = "w";
  status = run_running;
  input = some (obj end);
  result = none;
  graph_snapshot = some snapshot;
  started_at = some 0;
  ended_at = none;
}

abbrev pub world : World
world = record {
  department = λ agent. some "d";
  execute = λ n agent payload d. returned true null;
  workflow_name = some "w";
  notify_fails = false;
}

abbrev fresh_run : Db
unfolding create_run_node_executions
fresh_run = record {
  run = some run;
  nodes = create_run_node_executions ("1" ∷ "2" ∷ "3" ∷ []) snapshot;
  rollbacks = [];
  tasks = [];
  audit = [];
  notifications = [];
  calls = [];
  now = 1;
}

program : Unit {0}
unfolding graph_orchestrate assert_valid_graph topological_order parents_by_key lookup put from_keys
    keep any all elem values find create_run_node_executions fresh_run by_key count_where
    update_where
program = tt

-- The engine runs the first node, and pauses for the review of the second.
engine_pauses :
    (is_at (graph_orchestrate world "r" fresh_run).1 completed "a" ≡ true)
    × (is_at (graph_orchestrate world "r" fresh_run).1 awaiting_approval "b" ≡ true)
    × (is_at (graph_orchestrate world "r" fresh_run).1 pending "c" ≡ true)
    × (run_status (graph_orchestrate world "r" fresh_run).1 ≡ some awaiting_human)
unfolding program
engine_pauses = (refl, refl, refl, refl)

engine_returns : (graph_orchestrate world "r" fresh_run).0 ≡ ok tt
unfolding program
engine_returns = refl

pub valid : assert_valid_graph ("a" ∷ "b" ∷ "c" ∷ []) snapshot.edges ≡ ok tt
unfolding program
valid = refl

create_run_node_executions-IsReady_example :
    IsReady snapshot fresh_run × IsCausal snapshot.edges fresh_run
unfolding elem fresh_run
create_run_node_executions-IsReady_example =
    create_run_node_executions-IsReady snapshot run ("1" ∷ "2" ∷ "3" ∷ []) fresh_run refl refl valid
      (refl, (refl, (refl, tt))) refl refl

fresh-IsReady : IsReady snapshot fresh_run
fresh-IsReady = create_run_node_executions-IsReady_example.0

graph_orchestrate-IsCausal_example :
    IsCausal snapshot.edges (graph_orchestrate world "r" fresh_run).1
graph_orchestrate-IsCausal_example =
    graph_orchestrate-IsCausal world "r" snapshot fresh_run fresh-IsReady
      create_run_node_executions-IsReady_example.1

graph_orchestrate-HoldsGates_example :
    HoldsGates fresh_run (graph_orchestrate world "r" fresh_run).1
graph_orchestrate-HoldsGates_example =
    graph_orchestrate-HoldsGates world "r" snapshot fresh_run fresh-IsReady

graph_orchestrate_ends_example :
    ((graph_orchestrate world "r" fresh_run).0 ≡ ok tt)
    ⊎ ((agent_id : String) × ((graph_orchestrate world "r" fresh_run).0
          ≡ raise (agent_not_found agent_id))
        × ((graph_orchestrate world "r" fresh_run).1.run ≡ fresh_run.run))
graph_orchestrate_ends_example = graph_orchestrate_ends world "r" snapshot fresh_run fresh-IsReady

fresh-AllSettled : AllSettled fresh_run
unfolding find fresh_run
fresh-AllSettled k r e = ground (arith, e)

graph_orchestrate-IsStopped_example :
    IsStopped ("a" ∷ "b" ∷ "c" ∷ []) (graph_orchestrate world "r" fresh_run).1
unfolding fresh_run
graph_orchestrate-IsStopped_example =
    graph_orchestrate-IsStopped world "r" snapshot fresh_run fresh-IsReady fresh-AllSettled
      (run, refl, refl, refl) engine_returns
