-- ===== src/Catalog/Editor.antt =====
-- backend/app/modules/orchestrator/graph_authoring.py: the editor's view of a workflow's graph,
-- and its replacement. The positions on the canvas are left out. `parse` is uuid.UUID on a text,
-- with the id's text as its result.
use vaic2026_charcalavong.Prelude.{
  ℕ, suc, ◌+◌, String, Option, none, some, List, [], ◌∷◌, ◌++◌, map, elem, if◌then◌else◌, ◌==◌,
  string_eq, Result, ok, raise, ◌>>=◌, ◌>>◌, Dict, lookup, put, length,
}
use vaic2026_charcalavong.Graph.{Edge, assert_valid_graph}
use vaic2026_charcalavong.Store.{or_braces, Json, Snapshot, update_where}
use vaic2026_charcalavong.Worker.Authoring.{
  WorkflowNode, WorkflowEdge, WorkflowNodeApprover, node_by_id, edge_key_pairs, group_approvers,
  of_nodes, snapshot_node,
}
use vaic2026_charcalavong.Catalog.{
  AppError, forbidden, no_agent, bad_uuid, missing_key, not_unique, Workflow, Catalog, get_workflow,
  or_invalid,
}

-- A node of the request (GraphNodeIn, routes.py)
pub record GraphNodeIn : Type 0 where
  pub node_key : String
  pub label : String
  pub agent_id : String
  pub config : Json
  pub approver_user_ids : List String

-- The view has the fields of a snapshot. The queries name no order: the rows stand in the order in
-- which the caller gives them, which is that of their insertion where a graph was saved.
unfoldable pub view : Workflow → Snapshot
unfolding edge_key_pairs group_approvers
view w =
    let by_node = group_approvers [] (of_nodes w.nodes w.approvers) in
    record {
      nodes = map (snapshot_node by_node) w.nodes;
      edges = edge_key_pairs (node_by_id w.nodes) w.edges;
    }

unfoldable pub serialize_workflow_graph : String → Catalog → Result AppError Snapshot
unfolding get_workflow view
serialize_workflow_graph workflow_id cat = do
  workflow ← get_workflow workflow_id cat.workflows
  ok (view workflow)

-- `if not n.get("agent_id"): raise`
unfoldable pub require_agents : List GraphNodeIn → Result AppError (Unit {0})
require_agents [] = ok tt
require_agents (n ∷ nodes) =
    let rest = require_agents nodes in
    if n.agent_id == "" then raise (no_agent n.node_key) else rest

abbrev pub uuid_of : (String → Option String) → String → Result AppError String
uuid_of parse text = elim (parse text) [ none ↦ raise (bad_uuid text) | some id ↦ ok id ]

abbrev pub approver : String → String → WorkflowNodeApprover
approver node_id uid = record { node_id = node_id; user_id = uid }

-- One row for each user; the table has a user once for each node.
unfoldable pub add_approvers :
    (String → Option String)
    → String
    → List String
    → List String
    → Result AppError (List WorkflowNodeApprover)
unfolding elem
add_approvers parse node_id seen [] = ok []
add_approvers parse node_id seen (text ∷ texts) = do
  uid ← uuid_of parse text
  rest ← add_approvers parse node_id (uid ∷ seen) texts
  if elem uid seen then raise (not_unique uid) else ok (approver node_id uid ∷ rest)

pub record SavedNodes : Type 0 where
  pub nodes : List WorkflowNode
  pub approvers : List WorkflowNodeApprover
  pub key_to_id : Dict String String

unfoldable pub add_nodes :
    (ℕ → String)
    → (String → Option String)
    → ℕ
    → Dict String String
    → List GraphNodeIn
    → Result AppError SavedNodes
unfolding put add_approvers
add_nodes new_id parse next key_to_id [] =
    ok (record { nodes = []; approvers = []; key_to_id = key_to_id })
add_nodes new_id parse next key_to_id (n ∷ nodes) = do
  agent_id ← uuid_of parse n.agent_id
  approvers ← add_approvers parse (new_id next) [] n.approver_user_ids
  rest ← add_nodes new_id parse (suc next) (put n.node_key (new_id next) key_to_id) nodes
  ok (record {
    nodes =
        record {
          id = new_id next;
          node_key = n.node_key;
          label = n.label;
          agent_id = agent_id;
          config = or_braces n.config;
        }
        ∷ rest.nodes;
    approvers = approvers ++ rest.approvers;
    key_to_id = rest.key_to_id;
  })

-- key_to_id[key]
abbrev pub id_of : Dict String String → String → Result AppError String
unfolding lookup
id_of key_to_id key = elim (lookup key key_to_id) [
  | none ↦ raise (missing_key key)
  | some id ↦ ok id
]

unfoldable pub add_edges : Dict String String → List Edge → Result AppError (List WorkflowEdge)
add_edges key_to_id [] = ok []
add_edges key_to_id ((src, dst) ∷ pairs) = do
  from_id ← id_of key_to_id src
  to_id ← id_of key_to_id dst
  rest ← add_edges key_to_id pairs
  ok (record { from_node_id = from_id; to_node_id = to_id } ∷ rest)

-- The old rows are wiped, the new ones inserted.
abbrev pub saved : List WorkflowEdge → SavedNodes → Workflow → Workflow
saved edges rows w = record w {
  version = w.version + 1;
  nodes = rows.nodes;
  edges = edges;
  approvers = rows.approvers;
}

abbrev pub store_workflow : String → (Workflow → Workflow) → ℕ → Catalog → Catalog
unfolding update_where
store_workflow workflow_id change used cat = record cat {
  workflows = update_where (λ (w : Workflow). w.id == workflow_id) change cat.workflows;
  fresh = cat.fresh + used;
}

unfoldable pub replace_workflow_graph :
    (ℕ → String)
    → (String → Option String)
    → String
    → String
    → List GraphNodeIn
    → List Edge
    → Catalog
    → Result AppError (Catalog × Snapshot)
unfolding get_workflow assert_valid_graph require_agents add_nodes add_edges store_workflow
    serialize_workflow_graph
replace_workflow_graph new_id parse workflow_id role nodes edge_pairs cat =
    let replaced = do
      workflow ← get_workflow workflow_id cat.workflows
      or_invalid (assert_valid_graph (map (λ (n : GraphNodeIn). n.node_key) nodes) edge_pairs)
      require_agents nodes
      rows ← add_nodes new_id parse cat.fresh [] nodes
      edges ← add_edges rows.key_to_id edge_pairs
      let cat' = store_workflow workflow_id (saved edges rows) (length nodes) cat in
          do graph ← serialize_workflow_graph workflow_id cat'; ok (cat', graph)
    in if role == "builder" then replaced else raise forbidden
