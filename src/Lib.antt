-- ===== src/Lib.antt =====
-- The VAIC backend (backend/app): the graph workflows of the orchestrator, the actions that start
-- them, and the audit trail with its verification.
--
-- A workflow is a graph of nodes, each an agent's task; a node may have approvers. A run carries an
-- immutable snapshot of the graph, and one row of `run_node_executions` for each node. A worker
-- claims the run by a compare-and-set and calls the engine, which runs every node whose parents are
-- completed, and pauses the run where a node with approvers has a result. A human then approves,
-- retries, overrides or rejects; a rejection files a request to roll back to a parent, which an
-- approver of the parent accepts or refuses, or which is accepted at once if the parent has none.
--
-- Files, and the code that each is about:
--   Prelude    Boolean tests, keys with equality, lists, Python's dict, results with errors
--   Graph      backend/app/modules/orchestrator/graph_validation.py: assert_valid_graph,
--              topological_order, parents_by_key, root_keys, descendants
--   Store      backend/app/modules/orchestrator/models.py: rows, statuses, SQL's UPDATE and SELECT
--   State      backend/app/modules/orchestrator/state.py: the compare-and-set transitions
--   Engine     backend/app/modules/orchestrator/graph_engine.py: Types (load_graph), Node
--              (run_node), Final (finalize_run, _notify_approvers), Loop (graph_orchestrate)
--   Review     backend/app/modules/orchestrator/graph_review.py: Decide (record_decision),
--              Rollback (confirm_rollback, _accept_rollback, _refuse_rollback)
--   Worker     backend/app/modules/orchestrator/graph_snapshot.py (build_graph_snapshot in
--              Authoring, create_run_node_executions) and backend/app/workers/orchestrator_worker.py
--              (run_workflow, its graph branch); Trace has the
--              steps of workers and users on one run, and their sequences; Machine the abstract
--              machine of a run, which Simulates relates to them
--   Catalog    get_workflow and create_run of backend/app/modules/orchestrator/service.py, on the
--              workflows and runs of a tenant; Editor has graph_authoring.py
--   Actions    backend/app/modules/action (models.py, service.py, emit.py, worker.py): the bindings,
--              Dispatch (dispatch_pending_events), Sweep (notify_completed_events and the job of a
--              tenant), AgentTask (claim_agent_task, finalize_agent_event, run_agent_task)
--   Audit      backend/app/modules/audit: the rows and the redaction; Sink and Operations the writer
--              (sink.py), Integrity the verification of a session (integrity.py). The hashes, the
--              regular expressions, the generator of ids, and what the database returns of a stored
--              value (`Columns`) are parameters.
--   Flat       backend/app/modules/orchestrator/service.py: execute_task_row, aggregate_run and
--              orchestrate_run after the decomposition, for runs without a graph
--   Tracking   backend/app/modules/orchestrator/tracking_service.py (_build_item), and
--              list_run_nodes of graph_review.py
--   Samples    a run of three nodes, on which the functions are evaluated
--
-- State is passed explicitly: a `Db` has the rows of one run, since every query filters on the
-- run's id and the tenant's row-level security. Errors are values. What the engine cannot see is a
-- `World`: the executor of the agents' tasks, a function of the number of earlier calls, so that
-- two calls may differ; the agents' departments; the workflow's name; and whether the insertion of
-- notifications fails. No theorem assumes anything of a `World`. A step of a trace is a whole call,
-- so two calls that run at the same time are not interleaved: the code's own means against that
-- are the compare-and-sets, which Store and State write out with their row counts.
--
-- A SELECT without ORDER BY gives its rows in the order of their insertion.
--
-- Fuel: Kahn's loops have two rounds for each node, the search for descendants two for each edge,
-- and the engine's loop one turn more than there are rows. Each is enough, as is proved where the
-- theorems on these functions conclude a result: running out of fuel is an error that they exclude.
--
-- Not modelled: the decomposition of a run into tasks and the mutation of workflows (service.py),
-- serialization, the routes, the list of all runs in an inbox, the fan-out of the actions over
-- tenants, the evaluation of audited sessions by a judge with the costs and the keys, the agent
-- builder, chat, mini apps, notifications beyond their creation by the engine and the actions,
-- tenants, core and the adapters, and everything outside backend/app. Row ids, step ids and tenant
-- ids do not matter to the functions modelled here and are left out, or given by the caller.
pub mod Prelude
pub mod Actions
pub mod Audit
pub mod Catalog
pub mod Engine
pub mod Flat
pub mod Graph
pub mod Review
pub mod Samples
pub mod State
pub mod Store
pub mod Tracking
pub mod Worker
