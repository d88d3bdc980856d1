-- ===== src/Tracking.antt =====
-- backend/app/modules/orchestrator/tracking_service.py: the entry of one run in a reviewer's inbox,
-- without the time of its last change; and `list_run_nodes` of graph_review.py.
pub mod Inbox
use mathlib.Core.Option
use Prim.Native.Nat.{Ordering}
use Prim.Native.String.{compare}
use vaic2026_charcalavong.Prelude.{
  String, Bool, true, false, not, ◌&&◌, Option, none, some, List, [], ◌∷◌, map, keep, elem, lookup,
  string_eq, if◌then◌else◌,
}
use vaic2026_charcalavong.Store.{
  Db, WorkflowRun, RunNodeExecution, RunRollbackRequest, Snapshot, SnapshotNode, RunStatus,
  NodeStatus, awaiting_approval, running, pending, RollbackStatus, rollback_pending, accepted,
  refused, is_status,
}
use vaic2026_charcalavong.Engine.Types.{index_nodes}
use vaic2026_charcalavong.Engine.Node.{is_rollback_pending}
use vaic2026_charcalavong.Engine.Final.{node_label, workflow_title}
use vaic2026_charcalavong.Review.Types.{undecided}

unfoldable pub label_for : Option Snapshot → String → String
unfolding index_nodes
label_for none node_key = node_key
label_for (some snapshot) node_key = node_label node_key (lookup node_key (index_nodes snapshot))

pub record AwaitingNode : Type 0 where
  pub node_key : String
  pub label : String

pub record CurrentNode : Type 0 where
  pub node_key : String
  pub label : String
  pub status : NodeStatus

pub record TrackingItem : Type 0 where
  pub run_id : String
  pub workflow_id : String
  pub workflow_name : String
  pub run_status : RunStatus
  pub my_awaiting_nodes : List AwaitingNode
  pub current_node : Option CurrentNode
  pub is_my_turn : Bool

abbrev pub is_mine : String → RunNodeExecution → Bool
unfolding elem
is_mine uid e = is_status e.status awaiting_approval && undecided e && elem uid e.approver_user_ids

-- The first of the rows sorted by their keys
abbrev pub earlier : RunNodeExecution → Option RunNodeExecution → RunNodeExecution
earlier e none = e
earlier e (some f) = elim (compare f.node_key e.node_key) [ Ordering.lt ↦ f | _ ↦ e ]

unfoldable pub least : List RunNodeExecution → Option RunNodeExecution
least [] = none
least (e ∷ execs) = some (earlier e (least execs))

unfoldable pub pick : Option Snapshot → List RunNodeExecution → NodeStatus → Option CurrentNode
unfolding least label_for
pick snapshot execs status =
    Option.map
      (λ (e : RunNodeExecution). record {
        node_key = e.node_key;
        label = label_for snapshot e.node_key;
        status = e.status;
      })
      (least (keep (λ (e : RunNodeExecution). is_status e.status status) execs))

-- `a or b`, where a dict that is not empty counts as true
abbrev first_of : Option CurrentNode → Option CurrentNode → Option CurrentNode
first_of none b = b
first_of (some c) b = some c

abbrev is_empty : List AwaitingNode → Bool
is_empty [] = true
is_empty (n ∷ nodes) = false

abbrev pub my_awaiting : Option Snapshot → String → List RunNodeExecution → List AwaitingNode
unfolding keep label_for
my_awaiting snapshot uid execs =
    map
      (λ (e : RunNodeExecution). record {
        node_key = e.node_key;
        label = label_for snapshot e.node_key;
      })
      (keep (is_mine uid) execs)

unfoldable pub build_item :
    Option String → String → WorkflowRun → List RunNodeExecution → TrackingItem
unfolding my_awaiting pick
build_item workflow_name uid run execs = record {
  run_id = run.id;
  workflow_id = run.workflow_id;
  workflow_name = workflow_title workflow_name;
  run_status = run.status;
  my_awaiting_nodes = my_awaiting run.graph_snapshot uid execs;
  current_node =
      first_of (pick run.graph_snapshot execs awaiting_approval)
        (first_of (pick run.graph_snapshot execs running) (pick run.graph_snapshot execs pending));
  is_my_turn = not (is_empty (my_awaiting run.graph_snapshot uid execs));
}

pub record RunNodes : Type 0 where
  pub nodes : List RunNodeExecution
  pub pending_rollbacks : List RunRollbackRequest
  pub refused_rollbacks : List RunRollbackRequest

abbrev pub is_refused : RunRollbackRequest → Bool
is_refused r = elim r.status [ rollback_pending ↦ false | accepted ↦ false | refused ↦ true ]

unfoldable pub list_run_nodes : Db → RunNodes
unfolding keep
list_run_nodes db = record {
  nodes = db.nodes;
  pending_rollbacks = keep is_rollback_pending db.rollbacks;
  refused_rollbacks = keep is_refused db.rollbacks;
}
