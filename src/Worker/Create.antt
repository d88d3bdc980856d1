-- ===== src/Worker/Create.antt =====
-- A run that is created from a validated graph is one that the engine can run.
use vaic2026_charcalavong.Prelude.{
  String, ◌≡◌, refl, sym, ap, ◌∙◌, subst, inl, inr, true, none, some, List, [], ◌∷◌, map, arith,
  ◌==◌, string_eq, pair_eq, ok, elem, length, Distinct, Bool-cases,
}
use vaic2026_charcalavong.Graph.{assert_valid_graph}
use vaic2026_charcalavong.Graph.Order.{source_known}
use vaic2026_charcalavong.Graph.Valid.{assert_valid_graph_iff}
use vaic2026_charcalavong.Store.{
  Db, WorkflowRun, RunNodeExecution, Snapshot, SnapshotNode, pending, is_status,
}
use vaic2026_charcalavong.Store.Rows.{find, keys, ids}
use vaic2026_charcalavong.Engine.Types.{node_keys_of}
use vaic2026_charcalavong.Engine.Safe.{IsCausal}
use vaic2026_charcalavong.Engine.Orchestrate.{IsReady}
use vaic2026_charcalavong.Worker.{new_row, new_rows, create_run_node_executions}

keys-new_rows :
    (uids : List String) (nodes : List SnapshotNode)
    → length uids ≡ length nodes
    → keys (new_rows uids nodes) ≡ map (λ (n : SnapshotNode). n.node_key) nodes
unfolding new_rows
keys-new_rows uids [] e = refl
keys-new_rows [] (n ∷ nodes) e = cc
keys-new_rows (i ∷ uids) (n ∷ nodes) e = ground (arith, keys-new_rows uids nodes (omega (arith, e)))

ids-new_rows :
    (uids : List String) (nodes : List SnapshotNode)
    → length uids ≡ length nodes
    → ids (new_rows uids nodes) ≡ uids
unfolding new_rows
ids-new_rows [] [] e = refl
ids-new_rows (i ∷ uids) [] e = cc
ids-new_rows [] (n ∷ nodes) e = cc
ids-new_rows (i ∷ uids) (n ∷ nodes) e = ground (arith, ids-new_rows uids nodes (omega (arith, e)))

pub find-elem :
    (k : String) (rows : List RunNodeExecution)
    → elem k (keys rows) ≡ true
    → (r : RunNodeExecution) × (find k rows ≡ some r)
unfolding find elem
find-elem k [] m = cc
find-elem k (r ∷ rows) m = elim (Bool-cases (r.node_key == k)) [
  | inl t ↦ (r, rw t refl)
  | inr f ↦ let (q, e) = find-elem k rows (ground arith) in (q, rw f e)
]

pub find-new_rows :
    (k : String) (uids : List String) (nodes : List SnapshotNode) (r : RunNodeExecution)
    → find k (new_rows uids nodes) ≡ some r
    → is_status r.status pending ≡ true
unfolding find new_rows
find-new_rows k uids [] r e = cc
find-new_rows k [] (n ∷ nodes) r e = cc
find-new_rows k (i ∷ uids) (n ∷ nodes) r e = ground (arith, find-new_rows k uids nodes r)

-- A row that nobody has run or decided
pub record IsUntouched (r : RunNodeExecution) : Type 0 where
  pub waits : r.status ≡ pending
  pub no_output : r.output ≡ none
  pub no_decision : r.decision ≡ none

pub find-IsUntouched :
    (k : String) (uids : List String) (nodes : List SnapshotNode) (r : RunNodeExecution)
    → find k (new_rows uids nodes) ≡ some r
    → IsUntouched r
unfolding find new_rows
find-IsUntouched k uids [] r e = cc
find-IsUntouched k [] (n ∷ nodes) r e = cc
find-IsUntouched k (i ∷ uids) (n ∷ nodes) r e = elim (Bool-cases (n.node_key == k)) [
  | inl t ↦
      subst IsUntouched {x = new_row i n} {y = r} (ground (arith, t, e))
        (record { waits = refl; no_output = refl; no_decision = refl })
  | inr f ↦ find-IsUntouched k uids nodes r (ground (arith, f, e))
]

-- Each key with its approvers, in order
abbrev pub gates_of_rows : List RunNodeExecution → List (String × List String)
gates_of_rows rows =
    map {B = String × List String} (λ (r : RunNodeExecution). (r.node_key, r.approver_user_ids))
      rows

abbrev pub gates_of_nodes : List SnapshotNode → List (String × List String)
gates_of_nodes nodes =
    map {B = String × List String} (λ (n : SnapshotNode). (n.node_key, n.approver_user_ids)) nodes

pub approvers-new_rows :
    (uids : List String) (nodes : List SnapshotNode)
    → length uids ≡ length nodes
    → gates_of_rows (new_rows uids nodes) ≡ gates_of_nodes nodes
unfolding new_rows
approvers-new_rows uids [] e = refl
approvers-new_rows [] (n ∷ nodes) e = cc
approvers-new_rows (i ∷ uids) (n ∷ nodes) e =
    ap (λ (l : List (String × List String)). (n.node_key, n.approver_user_ids) ∷ l)
      (approvers-new_rows uids nodes (omega (arith, e)))

module _ (snapshot : Snapshot) (run : WorkflowRun) (uids : List String) (db : Db)
    (has_run : db.run ≡ some run) (has_snapshot : run.graph_snapshot ≡ some snapshot)
    (valid : assert_valid_graph (node_keys_of snapshot) snapshot.edges ≡ ok tt)
    (fresh : Distinct uids) (enough : length uids ≡ length snapshot.nodes)
    (created : db.nodes ≡ create_run_node_executions uids snapshot) where
  keys-created : keys db.nodes ≡ node_keys_of snapshot
  unfolding create_run_node_executions
  keys-created = ap keys created ∙ keys-new_rows uids snapshot.nodes enough

  ids-created : ids db.nodes ≡ uids
  unfolding create_run_node_executions
  ids-created = ap ids created ∙ ids-new_rows uids snapshot.nodes enough

  -- Conditions: the run carries a snapshot that validation accepts, its rows are those that
  -- `create_run_node_executions` makes of the snapshot, and the database has given out one id for
  -- each node and none twice. Then every node has its one row, ids and keys are distinct, and the
  -- causal order holds, since no node has left `pending`.
  pub create_run_node_executions-IsReady : IsReady snapshot db × IsCausal snapshot.edges db
  unfolding create_run_node_executions
  create_run_node_executions-IsReady =
      let (w, ranked) = (assert_valid_graph_iff (node_keys_of snapshot) snapshot.edges).0 valid in
      let rows : (k : String)
          → elem k (node_keys_of snapshot) ≡ true
          → (r : RunNodeExecution) × (find k db.nodes ≡ some r) =
        λ k m. find-elem k db.nodes (ap (elem k) keys-created ∙ m) in
      (
        record {
          run = run;
          has_run = has_run;
          has_snapshot = has_snapshot;
          valid = valid;
          unique = record {
            unique_keys = subst Distinct (sym keys-created) w.distinct_keys;
            unique_ids = subst Distinct (sym ids-created) fresh;
          };
          rows = rows;
        },
        λ p k m left.
            let (s, d) = source_known (node_keys_of snapshot) snapshot.edges p k w.ends m in
            let (r, e) = rows k d in
            ground
              (arith, e, find-new_rows k uids snapshot.nodes r (sym (ap (find k) created) ∙ e)),
      )
