-- ===== src/Worker/Build.antt =====
-- What `build_graph_snapshot` returns: a graph that validation accepts, with each node's approvers.
use vaic2026_charcalavong.Prelude.{
  String, ◌≡◌, refl, sym, ap, ◌∙◌, subst, true, some, List, [], ◌∷◌, ◌++◌, map, keep, arith,
  if◌then◌else◌, ◌==◌, string_eq, ok, bind-eq-ok, elem, elem_self, elem_cons, Dict, lookup, put,
  lookup-put, inl, inr, Bool-cases,
}
use text.Mathlib.TextEquality.{eq_iff}
use vaic2026_charcalavong.Graph.{assert_valid_graph}
use vaic2026_charcalavong.Store.{Snapshot, SnapshotNode}
use vaic2026_charcalavong.Engine.Types.{node_keys_of}
use vaic2026_charcalavong.Worker.Authoring.{
  WorkflowNode, WorkflowEdge, WorkflowNodeApprover, node_by_id, edge_key_pairs, or_nil,
  group_approvers, of_nodes, snapshot_node, build_graph_snapshot,
}

-- The users that the table names as approvers of a node, in the table's order.
abbrev pub approvers_of : String → List WorkflowNodeApprover → List String
approvers_of id [] = []
approvers_of id (a ∷ approvers) =
    if a.node_id == id then a.user_id ∷ approvers_of id approvers else approvers_of id approvers

pub ++-nil : (xs : List String) → xs ++ [] ≡ xs
++-nil [] = refl
++-nil (x ∷ xs) = ap (λ ys. x ∷ ys) (++-nil xs)

++-assoc : (xs ys zs : List String) → (xs ++ ys) ++ zs ≡ xs ++ (ys ++ zs)
++-assoc [] ys zs = refl
++-assoc (x ∷ xs) ys zs = ap (λ l. x ∷ l) (++-assoc xs ys zs)

lookup-group_approvers :
    (id : String) (by_node : Dict String (List String)) (approvers : List WorkflowNodeApprover)
    → or_nil (lookup id (group_approvers by_node approvers))
      ≡ or_nil (lookup id by_node) ++ approvers_of id approvers
unfolding group_approvers
lookup-group_approvers id by_node [] = sym (++-nil (or_nil (lookup id by_node)))
lookup-group_approvers id by_node (a ∷ approvers) =
    let old = or_nil (lookup a.node_id by_node) in
    lookup-group_approvers id (put a.node_id (old ++ a.user_id ∷ []) by_node) approvers
    ∙ elim (Bool-cases (a.node_id == id)) [
      | inl t ↦ ground (
        arith,
        lookup-put a.node_id id (old ++ a.user_id ∷ []) by_node,
        ap (λ x. or_nil (lookup x by_node)) ((eq_iff a.node_id id).0 t),
        ++-assoc old (a.user_id ∷ []) (approvers_of id approvers),
      )
      | inr f ↦ ground (arith, lookup-put a.node_id id (old ++ a.user_id ∷ []) by_node)
    ]

approvers_of-keep :
    (id : String) (ids : List String) (approvers : List WorkflowNodeApprover)
    → elem id ids ≡ true
    → approvers_of id (keep (λ (a : WorkflowNodeApprover). elem a.node_id ids) approvers)
      ≡ approvers_of id approvers
unfolding keep
approvers_of-keep id ids [] m = refl
approvers_of-keep id ids (a ∷ approvers) m = ground (
  arith,
  approvers_of-keep id ids approvers m,
  eq_iff a.node_id id,
  ap (λ x. elem x ids) {x = a.node_id} {y = id},
)

pub grouped_approvers :
    (id : String) (nodes : List WorkflowNode) (approvers : List WorkflowNodeApprover)
    → elem id (map (λ (n : WorkflowNode). n.id) nodes) ≡ true
    → or_nil (lookup id (group_approvers [] (of_nodes nodes approvers))) ≡ approvers_of id approvers
unfolding lookup keep elem
grouped_approvers id nodes approvers known =
    lookup-group_approvers id [] (of_nodes nodes approvers)
    ∙ approvers_of-keep id (map (λ (n : WorkflowNode). n.id) nodes) approvers known

pub elem_id {ℓ} :
    {A : Type ℓ} (nodes : List WorkflowNode) (f g : WorkflowNode → A)
    → ((n : WorkflowNode) → elem n.id (map (λ (n : WorkflowNode). n.id) nodes) ≡ true → f n ≡ g n)
    → map f nodes ≡ map g nodes
unfolding elem
elem_id [] f g h = refl
elem_id (n ∷ nodes) f g h = ground (
  arith,
  h n (elem_self n.id (map (λ (n : WorkflowNode). n.id) nodes)),
  elem_id nodes f g (λ m e. h m (elem_cons n.id m.id (map (λ (n : WorkflowNode). n.id) nodes) e)),
)

map-map :
    {A : Type 0} (h : SnapshotNode → A) (by_node : Dict String (List String))
    (nodes : List WorkflowNode)
    → map h (map (snapshot_node by_node) nodes) ≡ map (λ n. h (snapshot_node by_node n)) nodes
map-map h by_node [] = refl
map-map h by_node (n ∷ nodes) = ap (λ l. h (snapshot_node by_node n) ∷ l) (map-map h by_node nodes)

-- Condition: the function returns a snapshot. Then validation accepts its keys and edges, its keys
-- are those of the workflow's nodes, in their order, and each node of it has as approvers the users
-- that the table names for it, in the table's order.
pub build_graph_snapshot_lem :
    (nodes : List WorkflowNode) (edges : List WorkflowEdge) (approvers : List WorkflowNodeApprover)
    (s : Snapshot)
    → build_graph_snapshot nodes edges approvers ≡ ok (some s)
    → (assert_valid_graph (node_keys_of s) s.edges ≡ ok tt)
      × (node_keys_of s ≡ map (λ (n : WorkflowNode). n.node_key) nodes)
      × (map (λ (n : SnapshotNode). n.approver_user_ids) s.nodes
          ≡ map (λ (n : WorkflowNode). approvers_of n.id approvers) nodes)
unfolding build_graph_snapshot
build_graph_snapshot_lem [] edges approvers s e = cc
build_graph_snapshot_lem (n ∷ ns) edges approvers s e =
    let nodes = n ∷ ns in
    let by_node = group_approvers [] (of_nodes nodes approvers) in
    let (u, valid, e') =
      bind-eq-ok
        (assert_valid_graph (map (λ (n : WorkflowNode). n.node_key) nodes)
          (edge_key_pairs (node_by_id nodes) edges))
        _ e in
    let same : record {
      nodes = map (snapshot_node by_node) nodes;
      edges = edge_key_pairs (node_by_id nodes) edges;
    }
        ≡ s =
      ground arith in
    let same_keys = map-map (λ n. n.node_key) by_node nodes in
    subst
      (λ s.
        (assert_valid_graph (node_keys_of s) s.edges ≡ ok tt)
        × (node_keys_of s ≡ map (λ (n : WorkflowNode). n.node_key) nodes)
        × (map (λ (n : SnapshotNode). n.approver_user_ids) s.nodes
            ≡ map (λ (n : WorkflowNode). approvers_of n.id approvers) nodes))
      same
      (
        subst (λ ks. assert_valid_graph ks (edge_key_pairs (node_by_id nodes) edges) ≡ ok tt)
            (sym same_keys) valid,
        same_keys,
        map-map (λ n. n.approver_user_ids) by_node nodes
            ∙ elem_id nodes (λ n. or_nil (lookup n.id by_node)) (λ n. approvers_of n.id approvers)
                (λ m known. grouped_approvers m.id nodes approvers known),
      )
