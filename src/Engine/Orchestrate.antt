-- ===== src/Engine/Orchestrate.antt =====
-- `graph_orchestrate` on a run whose snapshot was validated: its plan, and the theorems on it.
use vaic2026_charcalavong.Prelude.{
  suc, String, ◌≡◌, refl, sym, ap, ◌∙◌, subst, ◌⊎◌, inl, inr, true, some, List, [], ◌∷◌, map, arith,
  ◌==◌, string_eq, pair_eq, Result, ok, raise, elem, length, Dict, lookup, put, put_all, lookup-put,
  Bool-cases,
}
use vaic2026_charcalavong.Graph.{assert_valid_graph}
use vaic2026_charcalavong.Graph.Valid.{assert_valid_graph_iff}
use vaic2026_charcalavong.Graph.Order.{topological_order_lem}
use vaic2026_charcalavong.Graph.Parents.{parents_by_key_lem}
use vaic2026_charcalavong.Store.{Db, WorkflowRun, RunNodeExecution, Snapshot, SnapshotNode}
use vaic2026_charcalavong.Store.Rows.{find, IsUnique}
use vaic2026_charcalavong.Engine.Types.{
  EngineError, agent_not_found, run_not_found, World, Plan, Outcome, lift, node_keys_of,
  index_nodes, of_option,
}
use vaic2026_charcalavong.Engine.Loop.{loop, make_plan, graph_orchestrate, with_order}
use vaic2026_charcalavong.Engine.Turn.{IsPlan, IsComplete}
use vaic2026_charcalavong.Engine.Safe.{IsCausal, is_gated, HoldsGates, AllSettled}
use vaic2026_charcalavong.Engine.Outcome.{IsRunning, IsStopped}
use vaic2026_charcalavong.Engine.Ends.{Ends, loop-Ends}

-- The tables of a run that was created from a graph which validation accepts: one row for each
-- node of the snapshot, and no two rows with one id or one key.
pub record IsReady (snapshot : Snapshot) (db : Db) : Type 0 where
  pub run : WorkflowRun
  pub has_run : db.run ≡ some run
  pub has_snapshot : run.graph_snapshot ≡ some snapshot
  pub valid : assert_valid_graph (node_keys_of snapshot) snapshot.edges ≡ ok tt
  pub unique : IsUnique db.nodes
  pub rows :
      (k : String)
      → elem k (node_keys_of snapshot) ≡ true
      → (r : RunNodeExecution) × (find k db.nodes ≡ some r)

lookup-put_all_old :
    (k : String) (d : Dict String SnapshotNode) (ns : List SnapshotNode) (v : SnapshotNode)
    → lookup k d ≡ some v
    → (n : SnapshotNode) × (lookup k (put_all d (map (λ (n : SnapshotNode). (n.node_key, n)) ns))
        ≡ some n)
unfolding put_all
lookup-put_all_old k d [] v e = (v, e)
lookup-put_all_old k d (n ∷ ns) v e = elim (Bool-cases (n.node_key == k)) [
  | inl t ↦
      lookup-put_all_old k (put n.node_key n d) ns n (ground (arith, lookup-put n.node_key k n d))
  | inr f ↦
      lookup-put_all_old k (put n.node_key n d) ns v (ground (arith, lookup-put n.node_key k n d))
]

lookup-put_all_new :
    (k : String) (d : Dict String SnapshotNode) (ns : List SnapshotNode)
    → elem k (map (λ (n : SnapshotNode). n.node_key) ns) ≡ true
    → (n : SnapshotNode) × (lookup k (put_all d (map (λ (n : SnapshotNode). (n.node_key, n)) ns))
        ≡ some n)
unfolding put_all elem
lookup-put_all_new k d [] m = cc
lookup-put_all_new k d (n ∷ ns) m = elim (Bool-cases (n.node_key == k)) [
  | inl t ↦
      lookup-put_all_old k (put n.node_key n d) ns n (ground (arith, lookup-put n.node_key k n d))
  | inr f ↦ lookup-put_all_new k (put n.node_key n d) ns (ground arith)
]

pub make_plan-IsPlan :
    (run_id : String) (snapshot : Snapshot)
    → assert_valid_graph (node_keys_of snapshot) snapshot.edges ≡ ok tt
    → (plan : Plan) × (make_plan run_id (some snapshot) ≡ ok plan)
      × IsPlan plan
      × (plan.run_id ≡ run_id)
      × (plan.node_keys ≡ node_keys_of snapshot)
      × (plan.edges ≡ snapshot.edges)
unfolding make_plan index_nodes
make_plan-IsPlan run_id snapshot valid =
    let (w, (rank, ranked)) =
      (assert_valid_graph_iff (node_keys_of snapshot) snapshot.edges).0 valid in
    let (order, e, d, same, o) =
      topological_order_lem (node_keys_of snapshot) snapshot.edges rank w.distinct_keys w.ends
        w.distinct_edges ranked in
    (
      _,
      ap (with_order run_id snapshot) e,
      record {
        distinct = w.distinct_keys;
        ends = w.ends;
        distinct_edges = w.distinct_edges;
        is_table = parents_by_key_lem (node_keys_of snapshot) snapshot.edges;
        nodes = λ k m. lookup-put_all_new k [] snapshot.nodes m;
        all_keys = same;
        ordered = o;
      },
      refl,
      refl,
      refl,
    )

module _ (world : World) (run_id : String) (snapshot : Snapshot) (db : Db)
    (ready : IsReady snapshot db) where
  abbrev out : Outcome (Unit {0})
  out = graph_orchestrate world run_id db

  pub graph_orchestrate-eq :
      (plan : Plan)
      → make_plan run_id (some snapshot) ≡ ok plan
      → out ≡ loop (suc (length db.nodes)) world plan db
  unfolding graph_orchestrate
  graph_orchestrate-eq plan e =
      ap (λ o. start (of_option run_not_found o)) ready.has_run
      ∙ ap (λ s. looped (make_plan run_id s)) ready.has_snapshot
      ∙ ap looped e
    where
      looped : Result EngineError Plan → Outcome (Unit {0})
      looped p = lift p (λ plan db'. loop (suc (length db'.nodes)) world plan db') db

      start : Result EngineError WorkflowRun → Outcome (Unit {0})
      start r =
          lift r
            (λ run db'.
              lift (make_plan run_id run.graph_snapshot)
                (λ plan db''. loop (suc (length db''.nodes)) world plan db'') db')
            db

  -- The call, as a loop whose postcondition is known.
  graph_orchestrate-Ends :
      (plan : Plan) × (is_plan : IsPlan plan) × Ends world plan is_plan db out
      × (plan.run_id ≡ run_id)
      × (plan.node_keys ≡ node_keys_of snapshot)
      × (plan.edges ≡ snapshot.edges)
  graph_orchestrate-Ends =
      let (plan, e, is_plan, same_id, same_keys, same_edges) =
        make_plan-IsPlan run_id snapshot ready.valid in
      let c : IsComplete plan db = record {
        unique = ready.unique;
        rows = λ k m. ready.rows k (subst (λ ks. elem k ks ≡ true) same_keys m);
        run = ready.run;
        has_run = ready.has_run;
      } in
      (
        plan,
        is_plan,
        subst (Ends world plan is_plan db) (sym (graph_orchestrate-eq plan e))
            (loop-Ends world plan is_plan db ready.run ready.has_run c),
        same_id,
        same_keys,
        same_edges,
      )

  -- Conditions: the run's snapshot passes validation and every node of it has its one row, and in
  -- the tables at the start every node that has left `pending` has all its parents completed. Then
  -- the same holds of the tables that the engine leaves, whatever the agents answer.
  pub graph_orchestrate-IsCausal :
      IsCausal snapshot.edges db → IsCausal snapshot.edges (graph_orchestrate world run_id db).1
  graph_orchestrate-IsCausal h =
      let (plan, is_plan, ends, same_id, same_keys, same_edges) = graph_orchestrate-Ends in
      subst (λ es. IsCausal es out.1) same_edges
        (ends.safe.causal (subst (λ es. IsCausal es db) (sym same_edges) h))

  -- Conditions: the run's snapshot passes validation and every node of it has its one row. A node
  -- with approvers that is not completed at the start is not completed when the engine stops,
  -- whatever the agents answer: only a human's decision completes it.
  pub graph_orchestrate-HoldsGates : HoldsGates db (graph_orchestrate world run_id db).1
  graph_orchestrate-HoldsGates =
      let (plan, is_plan, ends, same_id, same_keys, same_edges) = graph_orchestrate-Ends in
      ends.safe.gates

  -- Conditions: the run's snapshot passes validation and every node of it has its one row. The
  -- engine's loop terminates within one turn more than there are rows, whatever the agents answer.
  -- It returns, or raises the exception of an unknown agent; then the run is as it was.
  pub graph_orchestrate_ends :
      (graph_orchestrate world run_id db).0 ≡ ok tt
      ⊎ ((agent_id : String) × ((graph_orchestrate world run_id db).0
            ≡ raise (agent_not_found agent_id))
          × ((graph_orchestrate world run_id db).1.run ≡ db.run))
  graph_orchestrate_ends =
      let (plan, is_plan, ends, same_id, same_keys, same_edges) = graph_orchestrate-Ends in
      settle out.0 refl ends.raises
    where
      settle :
          (res : Result EngineError (Unit {0}))
          → out.0 ≡ res
          → ((x : EngineError)
              → out.0 ≡ raise x
              → (out.1.run ≡ db.run) × ((agent_id : String) × (x ≡ agent_not_found agent_id)))
          → (out.0 ≡ ok tt)
            ⊎ ((agent_id : String) × (out.0 ≡ raise (agent_not_found agent_id))
                × (out.1.run ≡ db.run))
      settle (ok u) e h = inl e
      settle (raise x) e h =
          let (same, (agent_id, e')) = h x e in inr (agent_id, e ∙ ap raise e', same)

  -- Conditions: the run's snapshot passes validation and every node of it has its one row, the run
  -- is `running`, and every node is pending, awaiting approval, completed or failed. When the
  -- engine returns, the run waits for a human or is in a terminal status, and in the latter case it
  -- is completed exactly if every node of the snapshot is completed.
  pub graph_orchestrate-IsStopped :
      AllSettled db
      → IsRunning run_id db.run
      → (graph_orchestrate world run_id db).0 ≡ ok tt
      → IsStopped (node_keys_of snapshot) (graph_orchestrate world run_id db).1
  graph_orchestrate-IsStopped settled running returned =
      let (plan, is_plan, ends, same_id, same_keys, same_edges) = graph_orchestrate-Ends in
      subst (λ ks. IsStopped ks out.1) same_keys
        (ends.stops returned settled (subst (λ i. IsRunning i db.run) (sym same_id) running))

  -- What a later call finds: the same requests, a row for each node, and the run with its snapshot.
  pub graph_orchestrate-IsReady : IsReady snapshot (graph_orchestrate world run_id db).1
  graph_orchestrate-IsReady =
      let (plan, is_plan, ends, same_id, same_keys, same_edges) = graph_orchestrate-Ends in
      let (run', e, same) = ends.keeps ready.run ready.has_run in
      record {
        run = run';
        has_run = e;
        has_snapshot = same ∙ ready.has_snapshot;
        valid = ready.valid;
        unique = ends.safe.unique;
        rows = λ k m. ends.safe.rows k (subst (λ ks. elem k ks ≡ true) (sym same_keys) m);
      }

  pub rollbacks-graph_orchestrate : (graph_orchestrate world run_id db).1.rollbacks ≡ db.rollbacks
  rollbacks-graph_orchestrate =
      let (plan, is_plan, ends, same_id, same_keys, same_edges) = graph_orchestrate-Ends in
      ends.safe.same_rollbacks

  pub is_gated-graph_orchestrate :
      (k : String) → is_gated (graph_orchestrate world run_id db).1 k ≡ is_gated db k
  is_gated-graph_orchestrate k =
      let (plan, is_plan, ends, same_id, same_keys, same_edges) = graph_orchestrate-Ends in
      ends.safe.same_gates k
