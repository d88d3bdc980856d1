-- ===== src/Engine/Turn.antt =====
-- One turn of the engine's loop on a complete table: it pauses the run, finalizes it, or runs one
-- pending node whose parents are all completed.
use text.Mathlib.TextEquality.{eq_iff}
use vaic2026_charcalavong.Prelude.{
  String, ◌≡◌, refl, sym, ap, ◌∙◌, subst, ◌⊎◌, inl, inr, Bool, true, false, Option, none, some,
  List, [], ◌∷◌, arith, string_eq, pair_eq, ok, elem, Distinct, any, all, Dict, lookup, values,
  Bool-cases,
}
use vaic2026_charcalavong.Graph.Spec.{IsTable, EndsIn, IsOrdered, parents}
use vaic2026_charcalavong.Graph.Parents.{elem-parents}
use vaic2026_charcalavong.Graph.Order.{source_known}
use vaic2026_charcalavong.Store.{
  Json, obj, Db, WorkflowRun, RunNodeExecution, SnapshotNode, NodeStatus, pending,
  awaiting_approval, completed, is_status, by_key,
}
use vaic2026_charcalavong.Store.Rows.{find, IsUnique, find-key, lookup-by_key}
use vaic2026_charcalavong.Engine.Types.{run_not_found, World, Plan, Outcome, lift, of_option}
use vaic2026_charcalavong.Engine.Node.{
  has_pending_rollback, set_run_awaiting_human, resolve_input, run_node, or_empty,
}
use vaic2026_charcalavong.Engine.Final.{finalize_run, has_status}
use vaic2026_charcalavong.Engine.Loop.{take_node, turn, turn_with}
use vaic2026_charcalavong.Engine.Next.{
  Covers, runnable, first_runnable, fetch-eq, outputs-ok, find_next-eq, first_runnable-some,
  first_runnable-none,
}
use vaic2026_charcalavong.Engine.Advance.{Advance, enter-Advance}

-- The tables that `make_plan` computes from a valid snapshot.
pub record IsPlan (plan : Plan) : Type 0 where
  pub distinct : Distinct plan.node_keys
  pub ends : EndsIn plan.node_keys plan.edges
  pub distinct_edges : Distinct plan.edges
  pub is_table : IsTable plan.node_keys (parents plan.edges) plan.parents
  pub nodes :
      (k : String)
      → elem k plan.node_keys ≡ true
      → (n : SnapshotNode) × (lookup k plan.nodes_by_key ≡ some n)
  pub all_keys : (k : String) → elem k plan.order ≡ elem k plan.node_keys
  pub ordered : IsOrdered plan.edges [] plan.order

-- Every node of the snapshot has its one row, and the run is there.
pub record IsComplete (plan : Plan) (db : Db) : Type 0 where
  pub unique : IsUnique db.nodes
  pub rows :
      (k : String)
      → elem k plan.node_keys ≡ true
      → (r : RunNodeExecution) × (find k db.nodes ≡ some r)
  pub run : WorkflowRun
  pub has_run : db.run ≡ some run

abbrev pub is_at : Db → NodeStatus → String → Bool
is_at db s k = elim (find k db.nodes) [ none ↦ false | some r ↦ is_status r.status s ]

-- What running a node means: it was pending, its parents were completed, and its row advances.
pub record Ran (plan : Plan) (db : Db) (out : Outcome Bool) : Type 0 where
  pub key : String
  pub row : RunNodeExecution
  pub known : elem key plan.node_keys ≡ true
  pub at_key : find key db.nodes ≡ some row
  pub idle : is_status row.status pending ≡ true
  pub parents_done : (p : String) → elem (p, key) plan.edges ≡ true → is_at db completed p ≡ true
  pub advance : Advance plan.run_id key row db out

-- What finalizing means: no node can run, and none waits for a review.
pub record Ended (plan : Plan) (db : Db) (out : Outcome Bool) : Type 0 where
  pub outcome : out ≡ (ok false, finalize_run plan.run_id plan.node_keys plan.edges db)
  pub stuck :
      (k : String)
      → elem k plan.node_keys ≡ true
      → runnable (by_key db.nodes) (parents plan.edges) k ≡ false
  pub no_review : any (λ r. is_status r.status awaiting_approval) (values (by_key db.nodes)) ≡ false

all-elem :
    (p : String → Bool) (ks : List String) (k : String)
    → all p ks ≡ true
    → elem k ks ≡ true
    → p k ≡ true
unfolding all elem
all-elem p [] k h m = cc
all-elem p (x ∷ ks) k h m = ground (arith, all-elem p ks k, ap p, eq_iff x k)

resolve_input-ok :
    (run : WorkflowRun) (execs : Dict String RunNodeExecution) (ps : List String)
    → Covers ps execs
    → (j : Json) × (resolve_input run execs ps ≡ ok j)
unfolding resolve_input
resolve_input-ok run execs [] c = (or_empty run.input, refl)
resolve_input-ok run execs (p ∷ ps) c =
    let (fields, e) = outputs-ok execs (p ∷ ps) c in (obj fields, rw e refl)

module _ (world : World) (plan : Plan) (db : Db) (is_plan : IsPlan plan)
    (c : IsComplete plan db) where
  abbrev execs : Dict String RunNodeExecution
  execs = by_key db.nodes

  exec-eq : (k : String) → lookup k execs ≡ find k db.nodes
  exec-eq k = lookup-by_key k db.nodes c.unique.unique_keys

  covers : Covers plan.node_keys execs
  covers k m = let (r, e) = c.rows k m in (r, exec-eq k ∙ e)

  parent_known :
      (k p : String) → elem p (parents plan.edges k) ≡ true → elem p plan.node_keys ≡ true
  parent_known k p m =
      (source_known plan.node_keys plan.edges p k is_plan.ends
        (sym (elem-parents plan.edges p k) ∙ m)).0

  order_known : (k : String) → elem k plan.order ≡ true → elem k plan.node_keys ≡ true
  order_known k m = sym (is_plan.all_keys k) ∙ m

  take_node-at :
      (row : RunNodeExecution)
      → elem row.node_key plan.node_keys ≡ true
      → find row.node_key db.nodes ≡ some row
      → runnable execs (parents plan.edges) row.node_key ≡ true
      → Ran plan db (take_node world plan c.run execs (some row) db)
  take_node-at row k_in at_key h =
      let k = row.node_key in
      let (n, n_eq) = is_plan.nodes k k_in in
      let (input, i_eq) =
        resolve_input-ok c.run execs (parents plan.edges k)
          (λ p m'. covers p (parent_known k p m')) in
      let idle : is_status row.status pending ≡ true = ground (arith, exec-eq k, at_key, h) in
      record {
        key = k;
        row = row;
        known = k_in;
        at_key = at_key;
        idle = idle;
        parents_done = λ p m'. ground (
          arith,
          h,
          exec-eq p,
          all-elem (has_status completed execs) (parents plan.edges k) p (ground (arith, h))
              (elem-parents plan.edges p k ∙ m'),
        );
        advance =
            unfold take_node run_node in
            rw
              (
                fetch-eq plan.nodes_by_key k n n_eq,
                fetch-eq plan.parents k (parents plan.edges k) (is_plan.is_table k ∙ rw k_in refl),
                i_eq,
              )
              (enter-Advance plan.run_id k row db c.unique at_key idle world plan n input refl);
      }

  take_node-Ran :
      (row : RunNodeExecution)
      → first_runnable execs (parents plan.edges) plan.order ≡ some row
      → Ran plan db (take_node world plan c.run execs (some row) db)
  take_node-Ran row e =
      let (k, m, l, h) =
        first_runnable-some plan.node_keys execs plan.parents (parents plan.edges) is_plan.is_table
          covers parent_known plan.order row e in
      let at_k = sym (exec-eq k) ∙ l in
      let same = sym (find-key k db.nodes row at_k) in
      take_node-at row (subst (λ x. elem x plan.node_keys ≡ true) same (order_known k m))
        (subst (λ x. find x db.nodes ≡ some row) same at_k)
        (subst (λ x. runnable execs (parents plan.edges) x ≡ true) same h)

  turn-eq : turn world plan db ≡ turn_with world plan c.run db
  unfolding turn
  turn-eq = ap (λ o. lift (of_option run_not_found o) (turn_with world plan) db) c.has_run

  abbrev Cases : Outcome Bool → Type 0
  Cases out =
      (out ≡ (ok false, set_run_awaiting_human plan.run_id db))
      ⊎ (Ended plan db out ⊎ Ran plan db out)

  chosen :
      any (λ r. is_status r.status awaiting_approval) (values execs) ≡ false
      → (o : Option RunNodeExecution) → first_runnable execs (parents plan.edges) plan.order ≡ o
      → Cases (take_node world plan c.run execs o db)
  chosen no_review none e = inr (
      inl (record {
        outcome = unfold take_node in refl;
        stuck = λ k m.
            first_runnable-none plan.node_keys execs plan.parents (parents plan.edges)
              is_plan.is_table covers parent_known plan.order order_known e k
              (is_plan.all_keys k ∙ m);
        no_review = no_review;
      }))
  chosen no_review (some row) e = inr (inr (take_node-Ran row e))

  pub turn-Cases : Cases (turn world plan db)
  unfolding turn_with
  turn-Cases = rw turn-eq (elim (Bool-cases (has_pending_rollback db)) [
    | inl t ↦ inl (rw t refl)
    | inr no_rollback ↦
        elim (Bool-cases (any (λ r. is_status r.status awaiting_approval) (values execs))) [
          | inl t ↦ inl (rw (no_rollback, t) refl)
          | inr no_review ↦
              rw
                (
                  no_rollback,
                  no_review,
                  find_next-eq plan.node_keys execs plan.parents (parents plan.edges)
                      is_plan.is_table covers parent_known plan.order order_known,
                )
                (chosen no_review _ refl)
        ]
  ])
