-- ===== src/Engine/Final.antt =====
-- graph_engine.py: `finalize_run` and `_notify_approvers`.
use Prim.Native.String.{◌++◌ as text_append}
use vaic2026_charcalavong.Prelude.{
  String, Bool, false, not, Option, none, some, List, [], ◌∷◌, ◌++◌, map, keep, any, elem,
  if◌then◌else◌, string_eq, Dict, lookup,
}
use vaic2026_charcalavong.Graph.{Edge}
use vaic2026_charcalavong.Store.{
  obj, Fields, end, field, Db, RunNodeExecution, SnapshotNode, RunStatus, run_running,
  run_completed, completed_with_failures, run_failed, NodeStatus, completed, failed, is_status,
  by_key,
}
use vaic2026_charcalavong.State.{transition_and_audit_run}
use vaic2026_charcalavong.Engine.Types.{World, Plan}
use vaic2026_charcalavong.Engine.Node.{or_null}

-- The outcome of `finalize_run`: what is stored in `result`, and the terminal status.
abbrev collect_one : String → Option RunNodeExecution → Fields → Fields
collect_one k none rest = rest
collect_one k (some r) rest = field k (or_null r.output) rest

unfoldable pub collect : List String → Dict String RunNodeExecution → Fields
collect [] execs = end
collect (k ∷ keys) execs = collect_one k (lookup k execs) (collect keys execs)

abbrev pub has_status : NodeStatus → Dict String RunNodeExecution → String → Bool
has_status s execs k = elim (lookup k execs) [ none ↦ false | some r ↦ is_status r.status s ]

unfoldable pub final_status : List String → List Edge → Dict String RunNodeExecution → RunStatus
unfolding any keep elem
final_status node_keys edges execs =
    if not (any (has_status failed execs) node_keys)
    then run_completed
    else if any (has_status completed execs)
        (keep (λ k. not (elem k (map (λ (e : Edge). e.0) edges))) node_keys)
    then completed_with_failures
    else run_failed

unfoldable pub finalize_run : String → List String → List Edge → Db → Db
unfolding collect final_status transition_and_audit_run
finalize_run run_id node_keys edges db =
    let execs = by_key db.nodes in
    (transition_and_audit_run run_id run_running (final_status node_keys edges execs)
      (λ r. record r { result = some (obj (collect node_keys execs)) }) db).0

-- `_notify_approvers`: one notification for each approver, or none if an insertion fails.
abbrev pub node_label : String → Option SnapshotNode → String
node_label node_key none = node_key
node_label node_key (some n) = n.label

abbrev pub workflow_title : Option String → String
workflow_title none = ""
workflow_title (some name) = name

unfoldable pub notify_approvers : World → Plan → RunNodeExecution → Db → Db
notify_approvers world plan row db =
    let title = text_append "Đến lượt bạn review: " (
      text_append (workflow_title world.workflow_name)
        (text_append " / " (node_label row.node_key (lookup row.node_key plan.nodes_by_key)))) in
    let sent =
      map (λ (uid : String). record { user_id = uid; title = title; node_key = row.node_key })
        row.approver_user_ids in
    if world.notify_fails then db else record db { notifications = db.notifications ++ sent }
