-- ===== src/Review/Cas.antt =====
-- The compare-and-set of a decision: it is won exactly on a row that awaits one and has none.
use text.Mathlib.TextEquality.{eq_iff}
use text.Mathlib.TextPositions.{eq_refl}
use vaic2026_charcalavong.Prelude.{
  ℕ, String, ◌≡◌, refl, ap, ◌∙◌, subst, Bool, true, false, ◌&&◌, some, List, [], ◌∷◌, arith,
  if◌then◌else◌, ◌==◌, string_eq, nat_eq, ok, raise,
}
use vaic2026_charcalavong.Store.{
  Db, RunNodeExecution, awaiting_approval, Decision, approve, retry, override, reject, is_status,
  update_where, count_where,
}
use vaic2026_charcalavong.Store.Rows.{find, IsUnique, Keeps, count-one}
use vaic2026_charcalavong.State.{set_node, node_hit, transition_node_status}
use vaic2026_charcalavong.State.Cas.{
  set_node-Keeps, won-transition, find-transition, IsUnique-transition,
}
use vaic2026_charcalavong.Review.Types.{
  already_decided, update_node, undecided, stamp_decided, cas_or_conflict, Request, decision_cols,
  decided_status,
}
use vaic2026_charcalavong.Review.Rows.{Updated, Updated-one}

pub count-zero_update {ℓ} :
    {A : Type ℓ} (hit : A → Bool) (change : A → A) (rows : List A)
    → count_where hit rows ≡ 0
    → update_where hit change rows ≡ rows
unfolding count_where update_where
count-zero_update hit change [] h = refl
count-zero_update hit change (r ∷ rows) h = ground (arith, count-zero_update hit change rows)

stamp_decided-Keeps : (now : ℕ) → Keeps (stamp_decided now)
stamp_decided-Keeps now = record {
  same_key = λ r. refl;
  same_id = λ r. refl;
  same_approvers = λ r. refl;
}

pub decision_cols-Keeps : (d : Decision) (q : Request) → Keeps (decision_cols d q)
decision_cols-Keeps approve q = record {
  same_key = λ r. refl;
  same_id = λ r. refl;
  same_approvers = λ r. refl;
}
decision_cols-Keeps retry q = record {
  same_key = λ r. refl;
  same_id = λ r. refl;
  same_approvers = λ r. refl;
}
decision_cols-Keeps override q = record {
  same_key = λ r. refl;
  same_id = λ r. refl;
  same_approvers = λ r. refl;
}
decision_cols-Keeps reject q = record {
  same_key = λ r. refl;
  same_id = λ r. refl;
  same_approvers = λ r. refl;
}

-- The row that a decision leaves.
unfoldable pub decided_row : Decision → Request → ℕ → RunNodeExecution → RunNodeExecution
unfolding set_node
decided_row d q now row =
    stamp_decided now (set_node now (decided_status d) (decision_cols d q) row)

-- One row is replaced; every other table and row stays.
pub record Replaced (j : String) (row' : RunNodeExecution) (db db' : Db) : Type 0 where
  pub found : (k : String) → find k db'.nodes ≡ (if j == k then some row' else find k db.nodes)
  pub unique : IsUnique db'.nodes
  pub same_run : db'.run ≡ db.run
  pub same_rollbacks : db'.rollbacks ≡ db.rollbacks
  pub same_audit : db'.audit ≡ db.audit
  pub same_now : db'.now ≡ db.now

module _ (j : String) (row : RunNodeExecution) (db : Db) (unique : IsUnique db.nodes)
    (found : find j db.nodes ≡ some row) (d : Decision) (q : Request) where
  abbrev open_row : Bool
  open_row = is_status row.status awaiting_approval && undecided row

  abbrev cas : Db × Bool
  cas =
      transition_node_status row.id awaiting_approval (decided_status d) (decision_cols d q)
        undecided db

  won : cas.1 ≡ open_row
  won =
      won-transition j row db unique found awaiting_approval (decided_status d) (decision_cols d q)
        undecided (decision_cols-Keeps d q)

  pub cas_or_conflict-lost :
      (is_status row.status awaiting_approval && undecided row) ≡ false
      → cas_or_conflict row.id awaiting_approval (decided_status d) (decision_cols d q) db
        ≡ (raise already_decided, db)
  unfolding cas_or_conflict transition_node_status
  cas_or_conflict-lost f = rw (won ∙ f) (
      ap (λ ns. (raise already_decided, record db { nodes = ns }))
        (count-zero_update hit _ db.nodes none_hit))
    where
      hit : RunNodeExecution → Bool
      hit = node_hit row.id awaiting_approval undecided

      none_hit : count_where hit db.nodes ≡ 0
      none_hit = ground (
        arith,
        count-one j db.nodes row hit unique.unique_ids found
            (λ x h. ground (arith, eq_iff x.id row.id)),
        f,
        eq_refl row.id,
      )

  cas-at :
      open_row ≡ true
      → (k : String)
      → find k cas.0.nodes ≡ (
          if j == k
          then some (set_node db.now (decided_status d) (decision_cols d q) row)
          else find k db.nodes)
  cas-at t k =
      find-transition j row db unique found awaiting_approval (decided_status d) (decision_cols d q)
        undecided (decision_cols-Keeps d q) k
      ∙ ground (arith, t)

  set_id : (set_node db.now (decided_status d) (decision_cols d q) row).id ≡ row.id
  set_id =
      (set_node-Keeps db.now (decided_status d) (decision_cols d q)
          (decision_cols-Keeps d q)).same_id
        row

  stamped :
      open_row ≡ true
      → Updated
          (stamp_decided db.now)
          (λ k. j == k)
          cas.0
          (update_node row.id (stamp_decided db.now) cas.0)
  stamped t =
      subst
        (λ i.
          Updated (stamp_decided db.now) (λ k. j == k) cas.0
            (update_node i (stamp_decided db.now) cas.0))
        set_id
        (Updated-one (stamp_decided db.now) (stamp_decided-Keeps db.now) j
          (set_node db.now (decided_status d) (decision_cols d q) row) cas.0
          (IsUnique-transition j row db unique found awaiting_approval (decided_status d)
            (decision_cols d q) undecided (decision_cols-Keeps d q))
          (cas-at t j ∙ rw eq_refl refl))

  pub cas_or_conflict-won :
      (is_status row.status awaiting_approval && undecided row) ≡ true
      → (db' : Db) × (cas_or_conflict row.id awaiting_approval
            (decided_status d)
            (decision_cols d q)
            db
          ≡ (ok tt, db'))
        × Replaced j (decided_row d q db.now row) db db'
  unfolding cas_or_conflict transition_node_status decided_row update_node
  cas_or_conflict-won t =
      let a = stamped t in
      (
        update_node row.id (stamp_decided db.now) cas.0,
        rw (won ∙ t) refl,
        record {
          found = λ k. a.found k ∙ ground (arith, cas-at t k);
          unique = a.unique;
          same_run = a.same_run;
          same_rollbacks = a.same_rollbacks;
          same_audit = a.same_audit;
          same_now = refl;
        },
      )
