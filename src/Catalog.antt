-- ===== src/Catalog.antt =====
-- What the services of one tenant share: the workflows with their graphs, the runs, and
-- `get_workflow` and `create_run` of backend/app/modules/orchestrator/service.py. The tenant's
-- row-level security is the scope of a `Catalog`. Below: graph_authoring.py, and what a created
-- run and a saved graph are.
pub mod Editor
pub mod Created
pub mod Links
mod Shown
pub mod RoundTrip
use vaic2026_charcalavong.Prelude.{
  ℕ, zero, suc, ◌+◌, String, Option, none, some, List, [], ◌∷◌, ◌++◌, if◌then◌else◌, ◌==◌,
  string_eq, Result, ok, raise, ◌>>=◌, ◌>>◌, length,
}
use vaic2026_charcalavong.Graph.{GraphError}
use vaic2026_charcalavong.Store.{
  Json, Db, WorkflowRun, Snapshot, RunNodeExecution, run_pending, first_where,
}
use vaic2026_charcalavong.Engine.Node.{or_empty}
use vaic2026_charcalavong.Worker.{create_run_node_executions}
use vaic2026_charcalavong.Worker.Authoring.{
  WorkflowNode, WorkflowEdge, WorkflowNodeApprover, build_graph_snapshot,
}

-- The domain errors (core/errors.py), with what each is about: the id that is not found, the
-- message of a conflict, the node without an agent. `bad_uuid` is the ValueError of uuid.UUID,
-- `missing_key` a KeyError, `not_unique` the IntegrityError of a uniqueness constraint.
pub data AppError : Type 0 where
  forbidden : AppError
  not_found conflict no_agent bad_uuid missing_key not_unique : String → AppError
  invalid_graph : GraphError → AppError

-- A workflow with the rows of its graph, which are deleted with it.
pub record Workflow : Type 0 where
  pub id : String
  pub name : String
  pub version : ℕ
  pub nodes : List WorkflowNode
  pub edges : List WorkflowEdge
  pub approvers : List WorkflowNodeApprover

-- `fresh` counts the ids that have been given out.
pub record Catalog : Type 0 where
  pub workflows : List Workflow
  pub runs : List Db
  pub fresh : ℕ
  pub now : ℕ

abbrev pub found {ℓ} : {A : Type ℓ} → String → Option A → Result AppError A
found id none = raise (not_found id)
found id (some a) = ok a

unfoldable pub get_workflow : String → List Workflow → Result AppError Workflow
unfolding first_where
get_workflow id workflows = found id (first_where (λ (w : Workflow). w.id == id) workflows)

-- A GraphValidationError leaves the services as it is.
abbrev pub or_invalid {ℓ} : {A : Type ℓ} → Result GraphError A → Result AppError A
or_invalid (raise e) = raise (invalid_graph e)
or_invalid (ok a) = ok a

-- The next ids of the generator
unfoldable pub ids_from : (ℕ → String) → ℕ → ℕ → List String
ids_from new_id first zero = []
ids_from new_id first (suc n) = new_id first ∷ ids_from new_id (suc first) n

abbrev pub new_run : String → String → Option Json → Option Snapshot → WorkflowRun
new_run id workflow_id input snapshot = record {
  id = id;
  workflow_id = workflow_id;
  status = run_pending;
  input = some (or_empty input);
  result = none;
  graph_snapshot = snapshot;
  started_at = none;
  ended_at = none;
}

abbrev pub row_count : Option Snapshot → ℕ
row_count none = 0
row_count (some s) = length s.nodes

abbrev pub rows_of_run : (ℕ → String) → ℕ → Option Snapshot → List RunNodeExecution
unfolding create_run_node_executions ids_from
rows_of_run new_id first none = []
rows_of_run new_id first (some s) =
    create_run_node_executions (ids_from new_id first (length s.nodes)) s

-- The tables of a run at its creation
abbrev pub tables_of_run : WorkflowRun → List RunNodeExecution → ℕ → Db
tables_of_run run rows now = record {
  run = some run;
  nodes = rows;
  rollbacks = [];
  tasks = [];
  audit = [];
  notifications = [];
  calls = [];
  now = now;
}

abbrev pub insert_run :
    (ℕ → String) → Workflow → Option Json → Option Snapshot → Catalog → Catalog × Db
insert_run new_id workflow input snapshot cat =
    let run = new_run (new_id cat.fresh) workflow.id input snapshot in
    let db = tables_of_run run (rows_of_run new_id (suc cat.fresh) snapshot) cat.now in
    (record cat { runs = cat.runs ++ db ∷ []; fresh = suc cat.fresh + row_count snapshot }, db)

unfoldable pub create_run :
    (ℕ → String) → String → String → Option Json → Catalog → Result AppError (Catalog × Db)
unfolding get_workflow build_graph_snapshot
create_run new_id workflow_id role input cat =
    let created = do
      workflow ← get_workflow workflow_id cat.workflows
      snapshot ← or_invalid (build_graph_snapshot workflow.nodes workflow.edges workflow.approvers)
      ok (insert_run new_id workflow input snapshot cat)
    in if role == "builder" then created else raise forbidden
