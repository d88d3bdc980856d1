-- ===== src/Review/Accept.antt =====
-- Accepting a rollback: the target and everything below it in the graph goes back to `pending`.
use mathlib.Core.Option
use text.Mathlib.TextEquality.{eq_iff}
use vaic2026_charcalavong.Prelude.{
  String, ◌≡◌, ◌≢◌, refl, ap, ◌∙◌, inl, inr, true, false, Option, none, some, List, [], ◌∷◌, ◌++◌,
  arith, if◌then◌else◌, ◌==◌, string_eq, pair_eq, ok, elem, Bool-cases,
}
use vaic2026_charcalavong.Graph.{Edge, descendants}
use vaic2026_charcalavong.Graph.Spec.{Walk, edge, onward, EndsIn}
use vaic2026_charcalavong.Graph.Valid.{assert_valid_graph_iff}
use vaic2026_charcalavong.Graph.Order.{source_known}
use vaic2026_charcalavong.Graph.Reach.{descendants_lem}
use vaic2026_charcalavong.Store.{
  Db, RunNodeExecution, RunRollbackRequest, Snapshot, rollback_accepted, update_where, log,
}
use vaic2026_charcalavong.Store.Rows.{find, IsUnique}
use vaic2026_charcalavong.Engine.Types.{node_keys_of}
use vaic2026_charcalavong.Engine.Orchestrate.{IsReady}
use vaic2026_charcalavong.Review.Types.{update_node, lift}
use vaic2026_charcalavong.Review.Rollback.{
  sorted, mark, clear_node, accept_cols, graph_of, snapshot_of, of_graph, update_request,
  reset_node_to_pending, roll_back, accept_rollback,
}
use vaic2026_charcalavong.Review.Rows.{
  get_node-eq, Updated-one, HasRows, HasRows-Updated, mark_rolled_back-Updated, reset_all-Updated,
  clear_node-Keeps,
}

-- What an accepted rollback does to the tables.
pub record RolledBack (snapshot : Snapshot) (req : RunRollbackRequest) (decided_by : Option String)
    (db db' : Db) : Type 0 where
  pub at_target :
      find req.target_node_key db'.nodes
      ≡ Option.map (clear_node req.reason) (find req.target_node_key db.nodes)
  pub below :
      (k : String)
      → Walk snapshot.edges req.target_node_key k
      → k ≢ req.target_node_key
      → find k db'.nodes ≡ Option.map (clear_node none) (find k db.nodes)
  pub others :
      (k : String)
      → ¬ Walk snapshot.edges req.target_node_key k
      → k ≢ req.target_node_key
      → find k db'.nodes ≡ find k db.nodes
  pub unique : IsUnique db'.nodes
  pub same_run : db'.run ≡ db.run
  pub requests :
      db'.rollbacks
      ≡ update_where
          (λ (r : RunRollbackRequest). r.id == req.id)
          (accept_cols decided_by db.now)
          db.rollbacks
  pub logged :
      (keys : List String) × (db'.audit
        ≡ db.audit ++ rollback_accepted req.target_node_key req.requester_node_key keys ∷ [])

Walk-ends :
    (keys : List String) (edges : List Edge) {a b : String}
    → EndsIn keys edges
    → Walk edges a b
    → elem b keys ≡ true
Walk-ends keys edges ends (edge {a = a} {b = b} e) = (source_known keys edges a b ends e).1
Walk-ends keys edges ends (onward e w) = Walk-ends keys edges ends w

map_cleared :
    (g : Option String) (o : Option RunNodeExecution)
    → Option.map (clear_node g) (Option.map mark o) ≡ Option.map (clear_node g) o
map_cleared g none = refl
map_cleared g (some r) = refl

module _ (req : RunRollbackRequest) (below : List String) (db : Db) (unique : IsUnique db.nodes)
    (has_below : HasRows below db) (target : RunNodeExecution)
    (has_target : find req.target_node_key db.nodes ≡ some target)
    (apart : elem req.target_node_key below ≡ false) where
  -- The three passes over the rows.
  roll_back-eq :
      (db' : Db) × (roll_back req below db ≡ (ok tt, db'))
      × ((k : String)
          → find k db'.nodes ≡ (
              if req.target_node_key == k
              then Option.map (clear_node req.reason) (find k db.nodes)
              else if elem k below
              then Option.map (clear_node none) (find k db.nodes)
              else find k db.nodes))
      × IsUnique db'.nodes
      × (db'.run ≡ db.run)
      × (db'.rollbacks ≡ db.rollbacks)
      × (db'.audit
          ≡ db.audit
            ++ rollback_accepted req.target_node_key req.requester_node_key (sorted below) ∷ [])
  unfolding roll_back reset_node_to_pending
  roll_back-eq =
      let (db1, e1, a1) = mark_rolled_back-Updated below db unique has_below in
      let (db2, e2, a2) =
        reset_all-Updated below db1 a1.unique
          (HasRows-Updated mark (λ k. elem k below) below db db1 a1 has_below) in
      let at2 : find req.target_node_key db2.nodes ≡ some target =
        ground
          (arith, a2.found req.target_node_key, a1.found req.target_node_key, apart, has_target) in
      let a3 =
        Updated-one (clear_node req.reason) (clear_node-Keeps req.reason) req.target_node_key target
          db2 a2.unique at2 in
      (
        log (rollback_accepted req.target_node_key req.requester_node_key (sorted below))
            (update_node target.id (clear_node req.reason) db2),
        rw e1 (rw e2 (rw (get_node-eq req.target_node_key db2 target at2) refl)),
        λ k.
            a3.found k
            ∙ ground (
              arith,
              a2.found k,
              a1.found k,
              map_cleared none (find k db.nodes),
              apart,
              eq_iff req.target_node_key k,
              ap (λ x. elem x below) {x = req.target_node_key} {y = k},
            ),
        a3.unique,
        a3.same_run ∙ a2.same_run ∙ a1.same_run,
        a3.same_rollbacks ∙ a2.same_rollbacks ∙ a1.same_rollbacks,
        ap
            (λ a.
              a ++ rollback_accepted req.target_node_key req.requester_node_key (sorted below) ∷ [])
            (a3.same_audit ∙ a2.same_audit ∙ a1.same_audit),
      )

-- Conditions: the run's snapshot passes validation, every node of it has its one row, and the
-- target of the request is a node of it. Then accepting the request succeeds. Exactly the target
-- and the nodes that some walk leads to from it are cleared and go back to `pending`, the target
-- with the reason of the request as its guidance; every other row stays; the request, and no
-- other, is marked as accepted; and one audit entry is added.
pub accept_rollback_lem :
    (snapshot : Snapshot) (req : RunRollbackRequest) (decided_by : Option String) (db : Db)
    → IsReady snapshot db
    → elem req.target_node_key (node_keys_of snapshot) ≡ true
    → (db' : Db) × (accept_rollback req decided_by db ≡ (ok tt, db'))
      × RolledBack snapshot req decided_by db db'
unfolding accept_rollback update_request
accept_rollback_lem snapshot req decided_by db ready known =
    let (w, ranked) =
      (assert_valid_graph_iff (node_keys_of snapshot) snapshot.edges).0 ready.valid in
    let (below, e, d, reach) =
      descendants_lem (node_keys_of snapshot) snapshot.edges req.target_node_key w.ends in
    let (target, has_target) = ready.rows req.target_node_key known in
    let out : (k : String)
        → ¬ (Walk snapshot.edges req.target_node_key k × (k ≢ req.target_node_key))
        → elem k below ≡ false =
      λ k h. elim (Bool-cases (elem k below)) [ inl t ↦ absurd (h ((reach k).0 t)) | inr f ↦ f ] in
    let apart : elem req.target_node_key below ≡ false = out req.target_node_key (λ h. h.1 refl) in
    let (db', e', found, unique, same_run, same_rollbacks, audit) =
      roll_back-eq req below (update_request req.id (accept_cols decided_by db.now) db) ready.unique
        (λ k m.
          ready.rows k (Walk-ends (node_keys_of snapshot) snapshot.edges w.ends ((reach k).0 m).0))
        target has_target apart in
    (
      db',
      ap
            (λ o.
              lift (graph_of o)
                (λ s.
                  lift (of_graph (descendants (node_keys_of s) s.edges req.target_node_key))
                    (roll_back req))
                (update_request req.id (accept_cols decided_by db.now) db))
            ready.has_run
          ∙ ap
              (λ o.
                lift (snapshot_of o)
                  (λ s.
                    lift (of_graph (descendants (node_keys_of s) s.edges req.target_node_key))
                      (roll_back req))
                  (update_request req.id (accept_cols decided_by db.now) db))
              ready.has_snapshot
          ∙ ap
              (λ o.
                lift (of_graph o) (roll_back req)
                  (update_request req.id (accept_cols decided_by db.now) db))
              e
          ∙ e',
      record {
        at_target =
            found req.target_node_key
            ∙ ground (arith, eq_iff req.target_node_key req.target_node_key);
        below = λ k walk ne.
            found k ∙ ground (arith, (reach k).1 (walk, ne), eq_iff req.target_node_key k);
        others = λ k no_walk ne.
            found k ∙ ground (arith, out k (λ h. no_walk h.0), eq_iff req.target_node_key k);
        unique = unique;
        same_run = same_run;
        requests = same_rollbacks;
        logged = (sorted below, audit);
      },
    )
