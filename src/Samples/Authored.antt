-- ===== src/Samples/Authored.antt =====
-- The graph of the sample run, as its author stored it.
use vaic2026_charcalavong.Prelude.{
  String, ◌≡◌, refl, List, [], ◌∷◌, map, some, ok, keep, elem, put, put_all, from_keys, lookup,
  string_eq, nat_eq, pair_eq,
}
use vaic2026_charcalavong.Graph.{assert_valid_graph}
use vaic2026_charcalavong.Store.{obj, end, SnapshotNode}
use vaic2026_charcalavong.Engine.Types.{node_keys_of}
use vaic2026_charcalavong.Worker.Authoring.{
  WorkflowNode, WorkflowEdge, WorkflowNodeApprover, build_graph_snapshot,
}
use vaic2026_charcalavong.Worker.Build.{approvers_of, build_graph_snapshot_lem}
use vaic2026_charcalavong.Samples.{snapshot}

abbrev authored : String → String → WorkflowNode
authored id k = record { id = id; node_key = k; label = k; agent_id = "agent"; config = obj end }

abbrev pub nodes : List WorkflowNode
nodes = authored "n1" "a" ∷ authored "n2" "b" ∷ authored "n3" "c" ∷ []

-- The last edge leads to a node of another workflow.
abbrev pub edges : List WorkflowEdge
edges =
    record { from_node_id = "n1"; to_node_id = "n2" }
    ∷ record { from_node_id = "n2"; to_node_id = "n3" }
    ∷ record { from_node_id = "n3"; to_node_id = "x" }
    ∷ []

abbrev pub approvers : List WorkflowNodeApprover
approvers =
    record { node_id = "n2"; user_id = "u1" } ∷ record { node_id = "x"; user_id = "u2" } ∷ []

pub built : build_graph_snapshot nodes edges approvers ≡ ok (some snapshot)
unfolding build_graph_snapshot assert_valid_graph keep elem put put_all from_keys lookup
built = refl

build_graph_snapshot_lem_example :
    (assert_valid_graph (node_keys_of snapshot) snapshot.edges ≡ ok tt)
    × (node_keys_of snapshot ≡ map (λ (n : WorkflowNode). n.node_key) nodes)
    × (map (λ (n : SnapshotNode). n.approver_user_ids) snapshot.nodes
        ≡ map (λ (n : WorkflowNode). approvers_of n.id approvers) nodes)
build_graph_snapshot_lem_example = build_graph_snapshot_lem nodes edges approvers snapshot built
