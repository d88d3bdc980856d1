-- ===== src/Engine/Loop.antt =====
-- graph_engine.py: the loop of `graph_orchestrate`.
use vaic2026_charcalavong.Prelude.{
  ℕ, zero, suc, String, Bool, true, false, Option, none, some, List, [], ◌∷◌, any, length,
  if◌then◌else◌, string_eq, Result, ok, raise, ◌>>=◌, Dict, values,
}
use vaic2026_charcalavong.Graph.{GraphError, topological_order, parents_by_key}
use vaic2026_charcalavong.Store.{
  Json, Db, WorkflowRun, RunNodeExecution, Snapshot, pending, running, awaiting_approval, completed,
  failed, is_status, by_key,
}
use vaic2026_charcalavong.State.{transition_node_status}
use vaic2026_charcalavong.Engine.Types.{
  EngineError, run_not_found, no_snapshot, graph_error, diverged, World, Outcome, lift, chain, Plan,
  node_keys_of, index_nodes, of_option, fetch,
}
use vaic2026_charcalavong.Engine.Node.{
  has_pending_rollback, set_run_awaiting_human, always, set_output, run_node,
}
use vaic2026_charcalavong.Engine.Final.{finalize_run, notify_approvers}

-- all(execs[p].status == "completed" for p in parents), which stops at the first that is not
unfoldable pub all_completed : Dict String RunNodeExecution → List String → Result EngineError Bool
unfolding fetch
all_completed execs [] = ok true
all_completed execs (p ∷ ps) =
    let rest = all_completed execs ps in
    fetch execs p >>= λ r. if is_status r.status completed then rest else ok false

-- The next runnable node, in the order of the plan.
unfoldable pub find_next :
    Dict String RunNodeExecution
    → Dict String (List String)
    → List String
    → Result EngineError (Option RunNodeExecution)
unfolding fetch all_completed
find_next execs parents [] = ok none
find_next execs parents (key ∷ order) =
    let rest = find_next execs parents order in
    do
      r ← fetch execs key
      ready ←
          (if is_status r.status pending
            then fetch parents key >>= all_completed execs
            else ok false)
      if ready then ok (some r) else rest

-- A result of a node: one with approvers waits for its review, another is completed or failed. The
-- Boolean says whether the loop goes on.
unfoldable pub store_result :
    World → Plan → RunNodeExecution → List String → Bool → Json → Db → Outcome Bool
unfolding transition_node_status set_run_awaiting_human notify_approvers
store_result world plan row [] success output db = (
  ok true,
  (transition_node_status row.id running (if success then completed else failed) (set_output output)
      always db).0,
)
store_result world plan row (uid ∷ uids) success output db = (
  ok false,
  notify_approvers world plan row (
      set_run_awaiting_human plan.run_id
        (transition_node_status row.id running awaiting_approval (set_output output) always db).0),
)

-- What follows the answer of `run_node`; `None` makes the loop go on.
unfoldable pub conclude : World → Plan → RunNodeExecution → Option (Bool × Json) → Db → Outcome Bool
unfolding store_result
conclude world plan row none db = (ok true, db)
conclude world plan row (some (success, output)) db =
    store_result world plan row row.approver_user_ids success output db

-- One node: look up its snapshot and its parents, run it, and conclude.
unfoldable pub take_node :
    World
    → Plan
    → WorkflowRun
    → Dict String RunNodeExecution
    → Option RunNodeExecution
    → Db
    → Outcome Bool
unfolding finalize_run fetch run_node conclude
take_node world plan run execs none db =
    (ok false, finalize_run plan.run_id plan.node_keys plan.edges db)
take_node world plan run execs (some row) db =
    lift (fetch plan.nodes_by_key row.node_key)
      (λ node. lift (fetch plan.parents row.node_key) λ parent_keys db'.
        chain (run_node world run row node parent_keys execs db') (conclude world plan row))
      db

-- One turn of `while True`, with the run that it has loaded.
unfoldable pub turn_with : World → Plan → WorkflowRun → Db → Outcome Bool
unfolding set_run_awaiting_human find_next take_node any
turn_with world plan run db =
    let execs = by_key db.nodes in
    if has_pending_rollback db
    then (ok false, set_run_awaiting_human plan.run_id db)
    else if any (λ r. is_status r.status awaiting_approval) (values execs)
    then (ok false, set_run_awaiting_human plan.run_id db)
    else lift (find_next execs plan.parents plan.order) (take_node world plan run execs) db

unfoldable pub turn : World → Plan → Db → Outcome Bool
unfolding turn_with
turn world plan db = lift (of_option run_not_found db.run) (turn_with world plan) db

-- `return` or another turn.
abbrev pub again : Outcome Bool → (Db → Outcome (Unit {0})) → Outcome (Unit {0})
again (raise e, db) next = (raise e, db)
again (ok true, db) next = next db
again (ok false, db) next = (ok tt, db)

-- `while True`, on fuel
unfoldable pub loop : ℕ → World → Plan → Db → Outcome (Unit {0})
unfolding turn
loop zero world plan db = (raise diverged, db)
loop (suc fuel) world plan db = again (turn world plan db) (loop fuel world plan)

abbrev pub with_order :
    String → Snapshot → Result GraphError (List String) → Result EngineError Plan
with_order run_id snapshot (raise e) = raise (graph_error e)
with_order run_id snapshot (ok order) = ok (record {
  run_id = run_id;
  node_keys = node_keys_of snapshot;
  nodes_by_key = index_nodes snapshot;
  edges = snapshot.edges;
  parents = parents_by_key (node_keys_of snapshot) snapshot.edges;
  order = order;
})

unfoldable pub make_plan : String → Option Snapshot → Result EngineError Plan
unfolding topological_order parents_by_key index_nodes
make_plan run_id none = raise no_snapshot
make_plan run_id (some snapshot) =
    with_order run_id snapshot (topological_order (node_keys_of snapshot) snapshot.edges)

-- A turn that goes on takes one row out of `pending`, so one turn more than there are rows is
-- enough.
unfoldable pub graph_orchestrate : World → String → Db → Outcome (Unit {0})
unfolding make_plan loop
graph_orchestrate world run_id db =
    lift (of_option run_not_found db.run)
      (λ run.
        lift (make_plan run_id run.graph_snapshot)
          λ plan db'. loop (suc (length db'.nodes)) world plan db')
      db
