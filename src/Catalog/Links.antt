-- ===== src/Catalog/Links.antt =====
-- The rows that `replace_workflow_graph` inserts for a request, and where its edges lead.
use vaic2026_charcalavong.Prelude.{
  ℕ, suc, ◌≤◌, String, ◌≡◌, refl, sym, ap, ◌∙◌, subst, inl, inr, Bool-cases, true, false, Option,
  some, List, [], ◌∷◌, ◌++◌, map, arith, ◌==◌, string_eq, pair_eq, beq→≡, beq_refl, ≢→beq, ok, elem,
  elem_self, elem_cons, Distinct, Dict, lookup, put, put_all, lookup-put_all,
}
use vaic2026_charcalavong.Graph.{Edge}
use vaic2026_charcalavong.Store.{or_braces}
use vaic2026_charcalavong.Worker.Authoring.{
  WorkflowNode, WorkflowEdge, WorkflowNodeApprover, node_by_id, edge_key_pairs,
}
use vaic2026_charcalavong.Catalog.Editor.{
  GraphNodeIn, uuid_of, approver, add_approvers, add_nodes, id_of, add_edges,
}

-- Ids in the request are written the way that they are printed, and a node names a user once.
pub record IsCanonical (parse : String → Option String) (n : GraphNodeIn) : Type 0 where
  pub has_agent : (n.agent_id == "") ≡ false
  pub agent_text : parse n.agent_id ≡ some n.agent_id
  pub user_texts : (u : String) → elem u n.approver_user_ids ≡ true → parse u ≡ some u
  pub distinct_users : Distinct n.approver_user_ids

abbrev pub AllCanonical : (String → Option String) → List GraphNodeIn → Type 0
AllCanonical parse [] = Unit {0}
AllCanonical parse (n ∷ nodes) = IsCanonical parse n × AllCanonical parse nodes

abbrev pub keys_in : List GraphNodeIn → List String
keys_in nodes = map (λ (n : GraphNodeIn). n.node_key) nodes

uuid_of-eq :
    (parse : String → Option String) (t u : String) → parse t ≡ some u → uuid_of parse t ≡ ok u
uuid_of-eq parse t u e = ground arith

add_approvers-eq :
    (parse : String → Option String) (node_id : String) (seen uids : List String)
    → ((u : String) → elem u uids ≡ true → parse u ≡ some u)
    → Distinct uids
    → ((u : String) → elem u uids ≡ true → elem u seen ≡ false)
    → add_approvers parse node_id seen uids ≡ ok (map (approver node_id) uids)
unfolding add_approvers
add_approvers-eq parse node_id seen [] texts d fresh = refl
add_approvers-eq parse node_id seen (u ∷ uids) texts d fresh =
    let rest =
      add_approvers-eq parse node_id (u ∷ seen) uids (λ y m. texts y (elem_cons u y uids m)) d.1
        (λ y m. ground (arith, fresh y, elem_cons u y uids m, string_eq.same_iff u y, d.0)) in
    ground (arith, rest, texts u (elem_self u uids), fresh u (elem_self u uids))

module _ (new_id : ℕ → String) where
  -- The rows that are inserted, and the keys with their ids
  abbrev pub row_at : ℕ → GraphNodeIn → WorkflowNode
  row_at i n = record {
    id = new_id i;
    node_key = n.node_key;
    label = n.label;
    agent_id = n.agent_id;
    config = or_braces n.config;
  }

  abbrev pub rows_from : ℕ → List GraphNodeIn → List WorkflowNode
  rows_from i [] = []
  rows_from i (n ∷ nodes) = row_at i n ∷ rows_from (suc i) nodes

  abbrev pub approvers_from : ℕ → List GraphNodeIn → List WorkflowNodeApprover
  approvers_from i [] = []
  approvers_from i (n ∷ nodes) =
      map (approver (new_id i)) n.approver_user_ids ++ approvers_from (suc i) nodes

  abbrev pub pairs_from : ℕ → List GraphNodeIn → Dict String String
  pairs_from i [] = []
  pairs_from i (n ∷ nodes) = (n.node_key, new_id i) ∷ pairs_from (suc i) nodes

  pub add_nodes-eq :
      (parse : String → Option String) (i : ℕ) (d : Dict String String) (nodes : List GraphNodeIn)
      → AllCanonical parse nodes
      → add_nodes new_id parse i d nodes
        ≡ ok (record {
          nodes = rows_from i nodes;
          approvers = approvers_from i nodes;
          key_to_id = put_all d (pairs_from i nodes);
        })
  unfolding add_nodes put_all
  add_nodes-eq parse i d [] c = refl
  add_nodes-eq parse i d (n ∷ nodes) c =
      rw (uuid_of-eq parse n.agent_id n.agent_id c.0.agent_text) (
        rw
          (add_approvers-eq parse (new_id i) [] n.approver_user_ids c.0.user_texts
            c.0.distinct_users (λ u m. refl))
          (rw (add_nodes-eq parse (suc i) (put n.node_key (new_id i) d) nodes c.1) refl))

  module _ (no_clash : (i j : ℕ) → new_id i ≡ new_id j → i ≡ j) where
    -- Where a key of the request is found, and the row of the id that it has.
    record Linked (k : String) (i : ℕ) (nodes : List GraphNodeIn) : Type 0 where
      pub index : ℕ
      pub later : i ≤ index
      pub has_id : lookup k (pairs_from i nodes) ≡ some (new_id index)
      pub row : WorkflowNode
      pub has_row :
          lookup (new_id index) (map (λ (n : WorkflowNode). (n.id, n)) (rows_from i nodes))
          ≡ some row
      pub same_key : row.node_key ≡ k

    linked :
        (k : String) (i : ℕ) (nodes : List GraphNodeIn)
        → elem k (keys_in nodes) ≡ true
        → Linked k i nodes
    unfolding elem lookup
    linked k i [] m = cc
    linked k i (n ∷ nodes) m = elim (Bool-cases (n.node_key == k)) [
      | inl t ↦ record {
        index = i;
        later = omega arith;
        has_id = rw t refl;
        row = row_at i n;
        has_row = rw (beq_refl (new_id i)) refl;
        same_key = beq→≡ n.node_key k t;
      }
      | inr f ↦
          let l = linked k (suc i) nodes (ground arith) in
          let l_later = l.later in
          record {
            index = l.index;
            later = omega arith;
            has_id = rw f l.has_id;
            row = l.row;
            has_row =
                rw (≢→beq (new_id i) (new_id l.index) (λ e. omega (arith, no_clash i l.index e)))
                  l.has_row;
            same_key = l.same_key;
          }
    ]

    keys-pairs :
        (i : ℕ) (nodes : List GraphNodeIn)
        → map (λ (p : String × String). p.0) (pairs_from i nodes) ≡ keys_in nodes
    keys-pairs i [] = refl
    keys-pairs i (n ∷ nodes) = ap (λ ks. n.node_key ∷ ks) (keys-pairs (suc i) nodes)

    absent_row :
        (j i : ℕ) (nodes : List GraphNodeIn)
        → suc j ≤ i
        → elem (new_id j) (
            map
              (λ (p : String × WorkflowNode). p.0)
              (map (λ (n : WorkflowNode). (n.id, n)) (rows_from i nodes)))
          ≡ false
    unfolding elem
    absent_row j i [] h = refl
    absent_row j i (n ∷ nodes) h =
        rw (≢→beq (new_id i) (new_id j) (λ e. omega (arith, no_clash i j e)))
          (absent_row j (suc i) nodes (omega arith))

    Distinct-rows :
        (i : ℕ) (nodes : List GraphNodeIn)
        → Distinct (
            map
              (λ (p : String × WorkflowNode). p.0)
              (map (λ (n : WorkflowNode). (n.id, n)) (rows_from i nodes)))
    Distinct-rows i [] = tt
    Distinct-rows i (n ∷ nodes) =
        (absent_row i (suc i) nodes (omega arith), Distinct-rows (suc i) nodes)

    Linked-id :
        (k : String) (i : ℕ) (nodes : List GraphNodeIn) (l : Linked k i nodes)
        → Distinct (keys_in nodes)
        → id_of (put_all [] (pairs_from i nodes)) k ≡ ok (new_id l.index)
    unfolding lookup
    Linked-id k i nodes l d =
        let found =
          lookup-put_all k [] (pairs_from i nodes) (subst Distinct (sym (keys-pairs i nodes)) d) in
        rw (found, id_of) (rw l.has_id refl)

    Linked-row :
        (k : String) (i : ℕ) (nodes : List GraphNodeIn) (l : Linked k i nodes)
        → lookup (new_id l.index) (node_by_id (rows_from i nodes)) ≡ some l.row
    unfolding lookup put_all
    Linked-row k i nodes l =
        let rows = map (λ (n : WorkflowNode). (n.id, n)) (rows_from i nodes) in
        lookup-put_all (new_id l.index) [] rows (Distinct-rows i nodes) ∙ rw l.has_row refl

    -- The stored edges lead back to the keys of the request.
    pub add_edges-eq :
        (i : ℕ) (nodes : List GraphNodeIn) (edges : List Edge)
        → Distinct (keys_in nodes)
        → ((e : Edge)
            → elem e edges ≡ true
            → (elem e.0 (keys_in nodes) ≡ true) × (elem e.1 (keys_in nodes) ≡ true))
        → (rows : List WorkflowEdge) × (add_edges (put_all [] (pairs_from i nodes)) edges ≡ ok rows)
          × (edge_key_pairs (node_by_id (rows_from i nodes)) rows ≡ edges)
    unfolding add_edges edge_key_pairs
    add_edges-eq i nodes [] d known = ([], refl, refl)
    add_edges-eq i nodes ((src, dst) ∷ edges) d known =
        let (rows, e, e') =
          add_edges-eq i nodes edges d (λ p m. known p (elem_cons (src, dst) p edges m)) in
        let (s, t) = known (src, dst) (elem_self (src, dst) edges) in
        let a = linked src i nodes s in
        let b = linked dst i nodes t in
        (
          record { from_node_id = new_id a.index; to_node_id = new_id b.index } ∷ rows,
          rw (Linked-id src i nodes a d) (rw (Linked-id dst i nodes b d) (rw e refl)),
          rw (Linked-row src i nodes a)
              (rw (Linked-row dst i nodes b) (rw a.same_key (rw b.same_key (rw e' refl)))),
        )
