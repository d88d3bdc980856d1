-- ===== src/Catalog/RoundTrip.antt =====
-- Saving a graph and reading it back: `replace_workflow_graph`, `serialize_workflow_graph` and
-- `build_graph_snapshot`.
use vaic2026_charcalavong.Prelude.{
  ℕ, suc, ◌+◌, String, ◌≡◌, refl, sym, ap, ◌∙◌, subst, Option, none, some, List, [], ◌∷◌, map,
  arith, ◌==◌, string_eq, pair_eq, ok, length, put_all, lookup,
}
use vaic2026_charcalavong.Graph.{Edge, assert_valid_graph}
use vaic2026_charcalavong.Graph.Order.{source_known}
use vaic2026_charcalavong.Graph.Valid.{assert_valid_graph_iff}
use vaic2026_charcalavong.Store.{Snapshot, update_where}
use vaic2026_charcalavong.Worker.Authoring.{
  WorkflowNode, WorkflowEdge, node_by_id, edge_key_pairs, or_nil, group_approvers, of_nodes,
  build_graph_snapshot,
}
use vaic2026_charcalavong.Worker.Build.{approvers_of, grouped_approvers, elem_id}
use vaic2026_charcalavong.Catalog.{Workflow, Catalog, get_workflow}
use vaic2026_charcalavong.Catalog.Editor.{
  GraphNodeIn, view, serialize_workflow_graph, require_agents, SavedNodes, saved, store_workflow,
  replace_workflow_graph,
}
use vaic2026_charcalavong.Catalog.Links.{
  AllCanonical, keys_in, rows_from, approvers_from, pairs_from, add_nodes-eq, add_edges-eq,
}
use vaic2026_charcalavong.Catalog.Shown.{as_saved, shown, shown_rows}

get_workflow-update :
    (id : String) (change : Workflow → Workflow) (workflows : List Workflow) (w : Workflow)
    → ((w : Workflow) → (change w).id ≡ w.id)
    → get_workflow id workflows ≡ ok w
    → get_workflow id (update_where (λ (w : Workflow). w.id == id) change workflows) ≡ ok (change w)
unfolding get_workflow update_where
get_workflow-update id change [] w same e = cc
get_workflow-update id change (v ∷ workflows) w same e =
    ground (arith, get_workflow-update id change workflows w same, same v)

serialize-found :
    (id : String) (cat : Catalog) (w : Workflow)
    → get_workflow id cat.workflows ≡ ok w
    → serialize_workflow_graph id cat ≡ ok (view w)
unfolding serialize_workflow_graph
serialize-found id cat w e = rw e refl

require_agents-ok :
    (parse : String → Option String) (nodes : List GraphNodeIn)
    → AllCanonical parse nodes
    → require_agents nodes ≡ ok tt
unfolding require_agents
require_agents-ok parse [] c = refl
require_agents-ok parse (n ∷ nodes) c = rw c.0.has_agent (require_agents-ok parse nodes c.1)

-- What the editor and a run see of the request
abbrev pub graph_of : List GraphNodeIn → List Edge → Snapshot
graph_of nodes edges = record { nodes = map as_saved nodes; edges = edges }

abbrev pub unless_empty : List GraphNodeIn → Snapshot → Option Snapshot
unless_empty [] s = none
unless_empty (n ∷ nodes) s = some s

module _ (new_id : ℕ → String) (no_clash : (i j : ℕ) → new_id i ≡ new_id j → i ≡ j) where
  keys-rows :
      (i : ℕ) (nodes : List GraphNodeIn)
      → map (λ (n : WorkflowNode). n.node_key) (rows_from new_id i nodes) ≡ keys_in nodes
  keys-rows i [] = refl
  keys-rows i (n ∷ nodes) = ap (λ ks. n.node_key ∷ ks) (keys-rows (suc i) nodes)

  -- The grouped approvers of the rows are those of the request.
  shown-grouped :
      (i : ℕ) (nodes : List GraphNodeIn)
      → map
          (λ (r : WorkflowNode).
            shown
              (or_nil (
                lookup r.id (
                  group_approvers []
                    (of_nodes (rows_from new_id i nodes) (approvers_from new_id i nodes)))))
              r)
          (rows_from new_id i nodes)
        ≡ map as_saved nodes
  shown-grouped i nodes =
      let rows = rows_from new_id i nodes in
      let approvers = approvers_from new_id i nodes in
      elem_id rows _ (λ r. shown (approvers_of r.id approvers) r)
        (λ r known. ap (λ uids. shown uids r) (grouped_approvers r.id rows approvers known))
      ∙ shown_rows new_id no_clash i nodes [] (λ j le. refl)

  abbrev rows_at : ℕ → List GraphNodeIn → SavedNodes
  rows_at i nodes = record {
    nodes = rows_from new_id i nodes;
    approvers = approvers_from new_id i nodes;
    key_to_id = put_all [] (pairs_from new_id i nodes);
  }

  module _ (i : ℕ) (edges : List Edge) (edge_rows : List WorkflowEdge) (w : Workflow) where
    view-saved :
        (nodes : List GraphNodeIn)
        → edge_key_pairs (node_by_id (rows_from new_id i nodes)) edge_rows ≡ edges
        → view (saved edge_rows (rows_at i nodes) w) ≡ graph_of nodes edges
    unfolding view
    view-saved nodes leads =
        rw leads (ap (λ ns. record { nodes = ns; edges = edges }) (shown-grouped i nodes))

    snapshot-saved :
        (nodes : List GraphNodeIn)
        → edge_key_pairs (node_by_id (rows_from new_id i nodes)) edge_rows ≡ edges
        → assert_valid_graph (keys_in nodes) edges ≡ ok tt
        → build_graph_snapshot (rows_from new_id i nodes) edge_rows (approvers_from new_id i nodes)
          ≡ ok (unless_empty nodes (graph_of nodes edges))
    unfolding build_graph_snapshot
    snapshot-saved [] leads valid = refl
    snapshot-saved (n ∷ nodes) leads valid =
        let ns = n ∷ nodes in
        let checked =
          subst (λ ks. assert_valid_graph ks edges ≡ ok tt) (sym (keys-rows i ns)) valid in
        rw leads (
          rw checked
            (ap (λ rs. ok (some (record { nodes = rs; edges = edges }))) (shown-grouped i ns)))

  -- Conditions: no two of the generator's ids agree, the workflow exists, validation accepts the
  -- request's keys and edges, each node names an agent, ids are written the way that they are
  -- printed, no node names a user twice, and the queries, which name no order, return the rows as they
  -- were inserted. Then a builder's request is stored: it returns the
  -- nodes and edges of the request, the editor reads the same graph back, a run that is created
  -- next gets it as its snapshot (none if the graph is empty), and the version is one higher.
  pub replace_workflow_graph_lem :
      (parse : String → Option String) (id : String) (nodes : List GraphNodeIn) (edges : List Edge)
      (cat : Catalog) (w : Workflow)
      → get_workflow id cat.workflows ≡ ok w
      → assert_valid_graph (keys_in nodes) edges ≡ ok tt
      → AllCanonical parse nodes
      → (cat' : Catalog) × (w' : Workflow) × (replace_workflow_graph new_id parse id "builder" nodes
            edges cat
          ≡ ok (cat', graph_of nodes edges))
        × (serialize_workflow_graph id cat' ≡ ok (graph_of nodes edges))
        × (get_workflow id cat'.workflows ≡ ok w')
        × (build_graph_snapshot w'.nodes w'.edges w'.approvers
            ≡ ok (unless_empty nodes (graph_of nodes edges)))
        × (w'.version ≡ w.version + 1)
  unfolding replace_workflow_graph
  replace_workflow_graph_lem parse id nodes edges cat w exists valid canonical =
      let (well, ranked) = (assert_valid_graph_iff (keys_in nodes) edges).0 valid in
      let (rows, added, leads) =
        add_edges-eq new_id no_clash cat.fresh nodes edges well.distinct_keys
          (λ e m. source_known (keys_in nodes) edges e.0 e.1 well.ends m) in
      let w' = saved rows (rows_at cat.fresh nodes) w in
      let cat' = store_workflow id (saved rows (rows_at cat.fresh nodes)) (length nodes) cat in
      let exists' =
        get_workflow-update id (saved rows (rows_at cat.fresh nodes)) cat.workflows w (λ w. refl)
          exists in
      let shows = view-saved cat.fresh edges rows w nodes leads in
      let read_back : serialize_workflow_graph id cat' ≡ ok (graph_of nodes edges) =
        serialize-found id cat' w' exists' ∙ ap ok shows in
      (
        cat',
        w',
        rw
            (
              exists,
              valid,
              require_agents-ok parse nodes canonical,
              add_nodes-eq new_id parse cat.fresh [] nodes canonical,
              added,
              read_back,
            )
            refl,
        read_back,
        exists',
        snapshot-saved cat.fresh edges rows w nodes leads valid,
        refl,
      )
