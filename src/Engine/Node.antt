-- ===== src/Engine/Node.antt =====
-- graph_engine.py: the guards, and `run_node` with what it calls.
use Prim.Native.String.{◌++◌ as text_append}
use vaic2026_charcalavong.Prelude.{
  String, Bool, true, false, Option, none, some, List, [], ◌∷◌, ◌++◌, any, length, if◌then◌else◌,
  ◌==◌, string_eq, Result, ok, raise, ◌>>=◌, Dict,
}
use vaic2026_charcalavong.Store.{
  or_braces, Json, null, obj, Fields, end, field, Db, WorkflowRun, RunNodeExecution,
  RunRollbackRequest, SnapshotNode, TaskPayload, run_running, awaiting_human, pending, running,
  failed, rollback_pending, accepted, refused, node_failed, log,
}
use vaic2026_charcalavong.State.{transition_node_status, transition_and_audit_run}
use vaic2026_charcalavong.Engine.Types.{
  EngineError, agent_not_found, Attempt, raised, returned, World, Outcome, lift, fetch,
}

abbrev pub is_rollback_pending : RunRollbackRequest → Bool
is_rollback_pending r = elim r.status [
  | rollback_pending ↦ true
  | accepted ↦ false
  | refused ↦ false
]

abbrev pub has_pending_rollback : Db → Bool
unfolding any
has_pending_rollback db = any is_rollback_pending db.rollbacks

unfoldable pub set_run_awaiting_human : String → Db → Db
unfolding transition_and_audit_run
set_run_awaiting_human run_id db =
    (transition_and_audit_run run_id run_running awaiting_human (λ r. r) db).0

abbrev pub or_null : Option Json → Json
or_null none = null
or_null (some j) = j

-- dict(run.input or {}), of a column that holds an object or null
abbrev pub or_empty : Option Json → Json
or_empty none = obj end
or_empty (some j) = or_braces j

-- {p: execs[p].output for p in parent_keys}
unfoldable pub outputs : Dict String RunNodeExecution → List String → Result EngineError Fields
unfolding fetch
outputs execs [] = ok end
outputs execs (p ∷ ps) = do
  r ← fetch execs p
  rest ← outputs execs ps
  ok (field p (or_null r.output) rest)

unfoldable pub resolve_input :
    WorkflowRun → Dict String RunNodeExecution → List String → Result EngineError Json
unfolding outputs
resolve_input run execs [] = ok (or_empty run.input)
resolve_input run execs (p ∷ ps) = do fields ← outputs execs (p ∷ ps); ok (obj fields)

-- `if guidance:` holds of a text that is not empty.
abbrev guided : String → Option String → String
guided summary none = summary
guided summary (some guidance) =
    if guidance == ""
    then summary
    else text_append summary (text_append "\n\nReviewer guidance: " guidance)

unfoldable pub build_node_payload : SnapshotNode → Json → Option String → TaskPayload
build_node_payload node resolved_input guidance = record {
  summary = guided node.label guidance;
  target_agent_id = node.agent_id;
  input = resolved_input;
  criteria = or_braces node.config;
}

-- The columns that `run_node` writes beside `status`; `guidance` stays.
abbrev pub enter_running : Json → RunNodeExecution → RunNodeExecution
enter_running resolved_input r = record r {
  input = some resolved_input;
  output = none;
  decision = none;
  decided_by = none;
  reason = none;
  decided_at = none;
}

abbrev pub set_output : Json → RunNodeExecution → RunNodeExecution
set_output output r = record r { output = some output }

abbrev pub always : RunNodeExecution → Bool
always r = true

unfoldable pub fail_node : RunNodeExecution → String → Db → Db
unfolding transition_node_status
fail_node row message db =
    log (node_failed row.node_key message)
      (transition_node_status row.id running failed (λ r. r) always db).0

-- The answer of the executor: an exception fails the node.
unfoldable pub settle : RunNodeExecution → Attempt → Db → Outcome (Option (Bool × Json))
unfolding fail_node
settle row (raised message) db = (ok none, fail_node row message db)
settle row (returned success output) db = (ok (some (success, output)), db)

-- The call of the agent, once the node is `running`.
unfoldable pub dispatch :
    World → RunNodeExecution → TaskPayload → Option String → Db → Outcome (Option (Bool × Json))
unfolding settle
dispatch world row payload none db = (raise (agent_not_found row.agent_id), db)
dispatch world row payload (some department) db =
    settle row (world.execute (length db.calls) row.agent_id payload department)
      (record db { calls = db.calls ++ payload ∷ [] })

unfoldable pub enter :
    World → RunNodeExecution → SnapshotNode → Json → Db → Outcome (Option (Bool × Json))
unfolding dispatch transition_node_status build_node_payload
enter world row node resolved_input db =
    let (db', won) =
      transition_node_status row.id pending running (enter_running resolved_input) always db in
    if won
    then dispatch world row (build_node_payload node resolved_input row.guidance)
        (world.department row.agent_id) db'
    else (ok none, db')

unfoldable pub run_node :
    World
    → WorkflowRun
    → RunNodeExecution
    → SnapshotNode
    → List String
    → Dict String RunNodeExecution
    → Db
    → Outcome (Option (Bool × Json))
unfolding resolve_input enter
run_node world run row node parent_keys execs db =
    lift (resolve_input run execs parent_keys) (enter world row node) db
