-- ===== src/Tracking/Inbox.antt =====
-- The inbox and the review agree: a node is listed for a user exactly if that user can decide it.
use vaic2026_charcalavong.Prelude.{
  String, ◌≡◌, ◌↔◌, refl, sym, ◌∙◌, subst, inl, inr, Bool, true, false, Option, none, some, List,
  [], ◌∷◌, map, keep, elem, arith, string_eq, ◌==◌, ok, Distinct, Bool-cases, Option-cases,
}
use text.Mathlib.TextEquality.{eq_iff}
use vaic2026_charcalavong.Store.{Db, WorkflowRun, RunNodeExecution, Snapshot, approve}
use vaic2026_charcalavong.Store.Rows.{find, keys, IsUnique}
use vaic2026_charcalavong.Review.Types.{Request}
use vaic2026_charcalavong.Review.Decide.{record_decision}
use vaic2026_charcalavong.Review.Verdict.{refusal, record_decision_lem}
use vaic2026_charcalavong.Tracking.{AwaitingNode, TrackingItem, is_mine, my_awaiting, build_item}

awaiting_keys : List AwaitingNode → List String
awaiting_keys nodes = map (λ (n : AwaitingNode). n.node_key) nodes

-- The node is listed in the item.
abbrev pub is_listed : String → TrackingItem → Bool
unfolding elem
is_listed k item = elem k (map (λ (n : AwaitingNode). n.node_key) item.my_awaiting_nodes)

listed_absent :
    (snapshot : Option Snapshot) (uid k : String) (execs : List RunNodeExecution)
    → elem k (keys execs) ≡ false
    → elem k (map (λ (n : AwaitingNode). n.node_key) (my_awaiting snapshot uid execs)) ≡ false
unfolding my_awaiting keep elem
listed_absent snapshot uid k [] h = refl
listed_absent snapshot uid k (e ∷ execs) h = ground (arith, listed_absent snapshot uid k execs)

listed-found :
    (snapshot : Option Snapshot) (uid k : String) (execs : List RunNodeExecution)
    (row : RunNodeExecution)
    → Distinct (keys execs)
    → find k execs ≡ some row
    → elem k (map (λ (n : AwaitingNode). n.node_key) (my_awaiting snapshot uid execs))
      ≡ is_mine uid row
unfolding my_awaiting keep elem find is_mine
listed-found snapshot uid k [] row u f = cc
listed-found snapshot uid k (e ∷ execs) row u f = elim (Bool-cases (e.node_key == k)) [
  | inl t ↦
      let same : e ≡ row = ground (arith, f, t) in
      let rest =
        listed_absent snapshot uid k execs
          (subst (λ x. elem x (keys execs) ≡ false) ((eq_iff e.node_key k).0 t) u.0) in
      subst
        (λ r.
          elem k (map (λ (n : AwaitingNode). n.node_key) (my_awaiting snapshot uid (e ∷ execs)))
          ≡ is_mine uid r)
        same (elim (Bool-cases (is_mine uid e)) [ inl m ↦ rw m (rw t refl) | inr n ↦ rw n rest ])
  | inr n ↦
      let rest = listed-found snapshot uid k execs row u.1 (ground (arith, f, n)) in
      elim (Bool-cases (is_mine uid e)) [ inl m ↦ rw m (rw n rest) | inr o ↦ rw o rest ]
]

module _ (workflow_name : Option String) (run : WorkflowRun) (k : String) (q : Request) (db : Db)
    (row : RunNodeExecution) (unique : IsUnique db.nodes) (found : find k db.nodes ≡ some row) where
  listed_eq : is_listed k (build_item workflow_name q.actor run db.nodes) ≡ is_mine q.actor row
  unfolding build_item is_listed
  listed_eq = listed-found run.graph_snapshot q.actor k db.nodes row unique.unique_keys found

  mine-refusal : (is_mine q.actor row ≡ true) ↔ (refusal row q.actor ≡ none)
  unfolding is_mine
  mine-refusal = ground arith

  -- Conditions: the rows have distinct ids and keys, and one of them has the key. The reviewer's
  -- inbox entry of the run lists the node exactly if the reviewer's approval of it, on the same
  -- tables, returns.
  pub build_item_lem :
      (is_listed k (build_item workflow_name q.actor run db.nodes) ≡ true)
      ↔ ((r : RunNodeExecution) × (db' : Db) × (record_decision k "approve" q db ≡ (ok r, db')))
  build_item_lem = (to, from)
    where
      to :
          is_listed k (build_item workflow_name q.actor run db.nodes) ≡ true
          → (r : RunNodeExecution) × (db' : Db) × (record_decision k "approve" q db ≡ (ok r, db'))
      to h =
          let (refused, taken) =
            record_decision_lem k "approve" q db row unique found approve refl refl in
          let (db', e, a) = taken (mine-refusal.0 (sym listed_eq ∙ h)) in (_, db', e)

      from :
          (r : RunNodeExecution) × (db' : Db) × (record_decision k "approve" q db ≡ (ok r, db'))
          → is_listed k (build_item workflow_name q.actor run db.nodes) ≡ true
      from (r, db', e) = elim (Option-cases (refusal row q.actor)) [
        | inl h ↦ listed_eq ∙ mine-refusal.1 h
        | inr (x, h) ↦
            let (refused, taken) =
              record_decision_lem k "approve" q db row unique found approve refl refl in
            let e' = refused x h in absurd (cc (e, e'))
      ]
