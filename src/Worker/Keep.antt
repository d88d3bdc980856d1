-- ===== src/Worker/Keep.antt =====
-- The reviewers' operations keep the causal order of the nodes.
use mathlib.Core.Option
use text.Mathlib.TextEquality.{eq_iff}
use vaic2026_charcalavong.Prelude.{
  ℕ, String, ◌≡◌, ◌≢◌, refl, sym, ap, ◌∙◌, subst, ◌⊎◌, inl, inr, true, false, Option, none, some,
  List, arith, if◌then◌else◌, ◌==◌, string_eq, pair_eq, elem, Bool-cases, beq-ne,
}
use vaic2026_charcalavong.Graph.{Edge}
use vaic2026_charcalavong.Graph.Spec.{Walk, edge, onward}
use vaic2026_charcalavong.Graph.Valid.{assert_valid_graph_iff}
use vaic2026_charcalavong.Graph.Order.{source_known}
use vaic2026_charcalavong.Graph.Reach.{descendants_lem}
use vaic2026_charcalavong.Engine.Types.{node_keys_of}
use vaic2026_charcalavong.Engine.Orchestrate.{IsReady}
use vaic2026_charcalavong.Store.{
  Db, RunNodeExecution, RunRollbackRequest, Snapshot, NodeStatus, pending, completed,
  awaiting_approval, Decision, approve, retry, override, reject, is_status,
}
use vaic2026_charcalavong.Store.Rows.{find}
use vaic2026_charcalavong.State.{set_node}
use vaic2026_charcalavong.Engine.Turn.{is_at}
use vaic2026_charcalavong.Engine.Safe.{IsCausal}
use vaic2026_charcalavong.Review.Types.{Request}
use vaic2026_charcalavong.Review.Rollback.{clear_node}
use vaic2026_charcalavong.Review.Cas.{decided_row}
use vaic2026_charcalavong.Review.Verdict.{is_direct}
use vaic2026_charcalavong.Review.Accept.{RolledBack}
use vaic2026_charcalavong.Review.Confirm.{Refused}

pub decided_row-direct :
    (d : Decision) (q : Request) (now : ℕ) (row : RunNodeExecution)
    → is_direct d ≡ true
    → (is_status (decided_row d q now row).status pending ≡ true)
      ⊎ (is_status (decided_row d q now row).status completed ≡ true)
unfolding decided_row set_node
decided_row-direct approve q now row h = inr refl
decided_row-direct retry q now row h = inl refl
decided_row-direct override q now row h = inr refl
decided_row-direct reject q now row h = cc

pub decided_row-reject :
    (q : Request) (now : ℕ) (row : RunNodeExecution)
    → (decided_row reject q now row).status ≡ awaiting_approval
unfolding decided_row set_node
decided_row-reject q now row = refl

-- Tables in which the same nodes are pending, and the same are completed.
IsCausal-same :
    (edges : List Edge) (db db' : Db)
    → ((k : String) → is_at db' pending k ≡ is_at db pending k)
    → ((k : String) → is_at db' completed k ≡ is_at db completed k)
    → IsCausal edges db
    → IsCausal edges db'
IsCausal-same edges db db' a b h p k m left = b p ∙ h p k m (sym (a k) ∙ left)

module _ (edges : List Edge) (j : String) (row row' : RunNodeExecution) (db db' : Db)
    (at_j : find j db.nodes ≡ some row) (awaits : is_status row.status awaiting_approval ≡ true)
    (found : (k : String)
      → find k db'.nodes ≡ (if j == k then some row' else find k db.nodes)) where
  at_same :
      (k : String) → (j == k) ≡ true → (find k db.nodes ≡ some row) × (find k db'.nodes ≡ some row')
  at_same k t =
      (subst (λ x. find x db.nodes ≡ some row) ((eq_iff j k).0 t) at_j, found k ∙ rw t refl)

  other : (k : String) → (j == k) ≡ false → find k db'.nodes ≡ find k db.nodes
  other k f = found k ∙ rw f refl

  pub IsCausal-replaced :
      (is_status row'.status pending ≡ true) ⊎ (is_status row'.status completed ≡ true)
      → IsCausal edges db
      → IsCausal edges db'
  IsCausal-replaced moved h p k m left = done (elim (Bool-cases (j == k)) [
    | inl t ↦ h p k m (ground (arith, at_same k t, awaits))
    | inr f ↦ h p k m (ground (arith, other k f))
  ])
    where
      done : is_at db completed p ≡ true → is_at db' completed p ≡ true
      done c = elim (Bool-cases (j == p)) [
        | inl t ↦ ground (arith, at_same p t, awaits)
        | inr f ↦ ground (arith, other p f)
      ]

  pub IsCausal-awaiting : row'.status ≡ awaiting_approval → IsCausal edges db → IsCausal edges db'
  IsCausal-awaiting still =
      IsCausal-same edges db db'
        (λ k. elim (Bool-cases (j == k)) [
          | inl t ↦ ground (arith, at_same k t, awaits, still)
          | inr f ↦ ground (arith, other k f)
        ])
        (λ k. elim (Bool-cases (j == k)) [
          | inl t ↦ ground (arith, at_same k t, awaits, still)
          | inr f ↦ ground (arith, other k f)
        ])

pub IsCausal-Refused :
    (edges : List Edge) (req : RunRollbackRequest) (actor : String) (refuse_reason : Option String)
    (db db' : Db)
    → Refused req actor refuse_reason db db'
    → IsCausal edges db
    → IsCausal edges db'
IsCausal-Refused edges req actor refuse_reason db db' a =
    IsCausal-same edges db db' (at pending) (at completed)
  where
    at : (s : NodeStatus) (k : String) → is_at db' s k ≡ is_at db s k
    at s k = ground (arith, a.found k)

Walk-snoc :
    (edges : List Edge) {a b c : String}
    → Walk edges a b
    → elem (b, c) edges ≡ true
    → Walk edges a c
Walk-snoc edges (edge e) m = onward e (edge m)
Walk-snoc edges (onward e w) m = onward e (Walk-snoc edges w m)

-- A key is the target, or below it, or neither.
pub scope :
    (snapshot : Snapshot) (db : Db) (t k : String)
    → IsReady snapshot db
    → (k ≡ t) ⊎ (((k ≢ t) × Walk snapshot.edges t k) ⊎ ((k ≢ t) × ¬ Walk snapshot.edges t k))
scope snapshot db t k ready =
    let (w, ranked) =
      (assert_valid_graph_iff (node_keys_of snapshot) snapshot.edges).0 ready.valid in
    let (below, e, d, reach) = descendants_lem (node_keys_of snapshot) snapshot.edges t w.ends in
    elim (Bool-cases (k == t)) [
      | inl same ↦ inl ((eq_iff k t).0 same)
      | inr apart ↦ elim (Bool-cases (elem k below)) [
        | inl m ↦ inr (inl (beq-ne k t apart, ((reach k).0 m).0))
        | inr n ↦ inr (inr (beq-ne k t apart, λ walk. cc (n, (reach k).1 (walk, beq-ne k t apart))))
      ]
    ]

module _ (snapshot : Snapshot) (req : RunRollbackRequest) (decided_by : Option String) (db db' : Db)
    (ready : IsReady snapshot db) (a : RolledBack snapshot req decided_by db db') where
  known : (p k : String) → elem (p, k) snapshot.edges ≡ true → elem k (node_keys_of snapshot) ≡ true
  known p k m =
      let (w, ranked) =
        (assert_valid_graph_iff (node_keys_of snapshot) snapshot.edges).0 ready.valid in
      (source_known (node_keys_of snapshot) snapshot.edges p k w.ends m).1

  reset_pending :
      (k : String) (g : Option String)
      → elem k (node_keys_of snapshot) ≡ true
      → find k db'.nodes ≡ Option.map (clear_node g) (find k db.nodes)
      → is_at db' pending k ≡ true
  reset_pending k g m e = let (r, f) = ready.rows k m in ground (arith, e, f)

  pub RolledBack-rows :
      (k : String) (r : RunNodeExecution)
      → find k db.nodes ≡ some r
      → (r' : RunNodeExecution) × (find k db'.nodes ≡ some r')
  RolledBack-rows k r e = elim (scope snapshot db req.target_node_key k ready) [
    | inl same ↦ (
      clear_node req.reason r,
      subst (λ x. find x db'.nodes ≡ Option.map (clear_node req.reason) (find x db.nodes))
            (sym same) a.at_target
          ∙ ap (Option.map (clear_node req.reason)) e,
    )
    | inr (inl (apart, walk)) ↦
        (clear_node none r, a.below k walk apart ∙ ap (Option.map (clear_node none)) e)
    | inr (inr (apart, no_walk)) ↦ (r, a.others k no_walk apart ∙ e)
  ]

  -- A node that stays is above no node that is reset.
  pub IsCausal-RolledBack : IsCausal snapshot.edges db → IsCausal snapshot.edges db'
  IsCausal-RolledBack h p k m left = elim (scope snapshot db req.target_node_key k ready) [
    | inl same ↦
        let reset = reset_pending k req.reason (known p k m) (
          subst (λ x. find x db'.nodes ≡ Option.map (clear_node req.reason) (find x db.nodes))
            (sym same) a.at_target) in
        cc
    | inr (inl (apart, walk)) ↦
        let reset = reset_pending k none (known p k m) (a.below k walk apart) in cc
    | inr (inr (apart, no_walk)) ↦
        let before = h p k m (ground (arith, a.others k no_walk apart)) in
        elim (scope snapshot db req.target_node_key p ready) [
          | inl same ↦
              absurd (no_walk (edge (subst (λ x. elem (x, k) snapshot.edges ≡ true) same m)))
          | inr (inl (apart', walk)) ↦ absurd (no_walk (Walk-snoc snapshot.edges walk m))
          | inr (inr (apart', no_walk')) ↦ ground (arith, a.others p no_walk' apart', before)
        ]
  ]
