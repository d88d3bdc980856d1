-- ===== src/Worker/Authoring.antt =====
-- graph_snapshot.py: `build_graph_snapshot`, on the rows of one workflow's graph (models.py). The
-- queries' filters are the scope of the arguments; the positions on the canvas are left out.
use vaic2026_charcalavong.Prelude.{
  String, Option, none, some, List, [], ◌∷◌, ◌++◌, map, keep, string_eq, Result, ok, ◌>>◌, elem,
  Dict, lookup, put, put_all,
}
use vaic2026_charcalavong.Graph.{Edge, GraphError, assert_valid_graph}
use vaic2026_charcalavong.Store.{or_braces, Json, Snapshot, SnapshotNode}

pub record WorkflowNode : Type 0 where
  pub id : String
  pub node_key : String
  pub label : String
  pub agent_id : String
  pub config : Json

pub record WorkflowEdge : Type 0 where
  pub from_node_id : String
  pub to_node_id : String

pub record WorkflowNodeApprover : Type 0 where
  pub node_id : String
  pub user_id : String

-- {n.id: n for n in nodes}
abbrev pub node_by_id : List WorkflowNode → Dict String WorkflowNode
unfolding put_all
node_by_id nodes = put_all [] (map (λ (n : WorkflowNode). (n.id, n)) nodes)

-- An edge counts if both of its ends are nodes of the graph.
abbrev add_pair : Option WorkflowNode → Option WorkflowNode → List Edge → List Edge
add_pair (some a) (some b) pairs = (a.node_key, b.node_key) ∷ pairs
add_pair _ _ pairs = pairs

unfoldable pub edge_key_pairs : Dict String WorkflowNode → List WorkflowEdge → List Edge
unfolding lookup
edge_key_pairs by_id [] = []
edge_key_pairs by_id (e ∷ edges) =
    add_pair (lookup e.from_node_id by_id) (lookup e.to_node_id by_id) (edge_key_pairs by_id edges)

abbrev pub or_nil : Option (List String) → List String
or_nil none = []
or_nil (some uids) = uids

-- approvers_by_node.setdefault(a.node_id, []).append(str(a.user_id))
unfoldable pub group_approvers :
    Dict String (List String) → List WorkflowNodeApprover → Dict String (List String)
unfolding lookup put
group_approvers by_node [] = by_node
group_approvers by_node (a ∷ approvers) =
    group_approvers (put a.node_id (or_nil (lookup a.node_id by_node) ++ a.user_id ∷ []) by_node)
      approvers

-- The query keeps the approvers of the graph's nodes.
abbrev pub of_nodes : List WorkflowNode → List WorkflowNodeApprover → List WorkflowNodeApprover
unfolding keep elem
of_nodes nodes approvers =
    keep (λ (a : WorkflowNodeApprover). elem a.node_id (map (λ (n : WorkflowNode). n.id) nodes))
      approvers

abbrev pub snapshot_node : Dict String (List String) → WorkflowNode → SnapshotNode
unfolding lookup
snapshot_node by_node n = record {
  node_key = n.node_key;
  label = n.label;
  agent_id = n.agent_id;
  config = or_braces n.config;
  approver_user_ids = or_nil (lookup n.id by_node);
}

unfoldable pub build_graph_snapshot :
    List WorkflowNode
    → List WorkflowEdge
    → List WorkflowNodeApprover
    → Result GraphError (Option Snapshot)
unfolding node_by_id edge_key_pairs assert_valid_graph group_approvers of_nodes snapshot_node
build_graph_snapshot [] edges approvers = ok none
build_graph_snapshot (n ∷ ns) edges approvers =
    let nodes = n ∷ ns in
    let pairs = edge_key_pairs (node_by_id nodes) edges in
    let by_node = group_approvers [] (of_nodes nodes approvers) in
    do
      assert_valid_graph (map (λ (n : WorkflowNode). n.node_key) nodes) pairs
      ok (some (record { nodes = map (snapshot_node by_node) nodes; edges = pairs }))
