-- ===== src/Worker/Sound.antt =====
-- Every operation on a run keeps it sound: ready for the engine, its nodes in causal order, and
-- its requests about nodes of its graph.
use mathlib.Core.Option
use vaic2026_charcalavong.Prelude.{
  String, ◌≡◌, refl, sym, ap, ◌∙◌, subst, inl, inr, true, Option, some, List, if◌then◌else◌, ◌==◌,
  string_eq, pair_eq, Result, raise, elem, Bool-cases,
}
use vaic2026_charcalavong.Graph.Valid.{assert_valid_graph_iff}
use vaic2026_charcalavong.Graph.Order.{source_known}
use vaic2026_charcalavong.Store.{
  Db, AuditEntry, RunNodeExecution, RunRollbackRequest, Snapshot, awaiting_approval, Decision,
  reject, is_status,
}
use vaic2026_charcalavong.Store.Rows.{find}
use vaic2026_charcalavong.Engine.Types.{node_keys_of}
use vaic2026_charcalavong.Engine.Safe.{IsCausal}
use vaic2026_charcalavong.Engine.Orchestrate.{IsReady}
use vaic2026_charcalavong.Review.Types.{ReviewError, Request}
use vaic2026_charcalavong.Review.Rollback.{accept_cols, refuse_cols, clear_decision}
use vaic2026_charcalavong.Review.Decide.{new_request}
use vaic2026_charcalavong.Review.Cas.{decided_row}
use vaic2026_charcalavong.Review.Verdict.{Decided, is_direct}
use vaic2026_charcalavong.Review.Reject.{Filed, IsReady-kept}
use vaic2026_charcalavong.Review.Accept.{RolledBack}
use vaic2026_charcalavong.Review.Confirm.{Refused}
use vaic2026_charcalavong.Worker.Keep.{
  decided_row-direct, decided_row-reject, IsCausal-replaced, IsCausal-awaiting, IsCausal-Refused,
  IsCausal-RolledBack, RolledBack-rows,
}
use vaic2026_charcalavong.Worker.Requests.{AllKnown, AllKnown-append, AllKnown-update}

pub record IsSound (snapshot : Snapshot) (db : Db) : Type 0 where
  pub ready : IsReady snapshot db
  pub causal : IsCausal snapshot.edges db
  pub requests : AllKnown (node_keys_of snapshot) db.rollbacks

module _ (snapshot : Snapshot) (db : Db) (sound : IsSound snapshot db) where
  abbrev keys : List String
  keys = node_keys_of snapshot

  -- An operation that raises before it writes.
  pub unchanged {ℓ} :
      {A : Type ℓ} (out : Result ReviewError A × Db) (e : ReviewError)
      → out ≡ (raise e, db)
      → IsSound snapshot out.1
  unchanged out e same = subst (λ o. IsSound snapshot o.1) (sym same) sound

  rows-replaced :
      (j : String) (row' : RunNodeExecution) (db' : Db)
      → ((k : String) → find k db'.nodes ≡ (if j == k then some row' else find k db.nodes))
      → (k : String) (r : RunNodeExecution) → find k db.nodes ≡ some r
      → (r' : RunNodeExecution) × (find k db'.nodes ≡ some r')
  rows-replaced j row' db' found k r e = elim (Bool-cases (j == k)) [
    | inl t ↦ (row', found k ∙ rw t refl)
    | inr f ↦ (r, found k ∙ rw f e)
  ]

  pub IsSound-RolledBack :
      (req : RunRollbackRequest) (decided_by : Option String) (db' : Db)
      → RolledBack snapshot req decided_by db db'
      → IsSound snapshot db'
  IsSound-RolledBack req decided_by db' a = record {
    ready =
        IsReady-kept snapshot db db' sound.ready a.same_run a.unique
          (RolledBack-rows snapshot req decided_by db db' sound.ready a);
    causal = IsCausal-RolledBack snapshot req decided_by db db' sound.ready a sound.causal;
    requests = subst (AllKnown keys) (sym a.requests) (
        AllKnown-update keys _ (accept_cols decided_by db.now) db.rollbacks (λ r k. k)
          sound.requests);
  }

  pub IsSound-Refused :
      (req : RunRollbackRequest) (actor : String) (refuse_reason : Option String) (db' : Db)
      → Refused req actor refuse_reason db db'
      → IsSound snapshot db'
  IsSound-Refused req actor refuse_reason db' a = record {
    ready = IsReady-kept snapshot db db' sound.ready a.same_run a.unique rows;
    causal = IsCausal-Refused snapshot.edges req actor refuse_reason db db' a sound.causal;
    requests = subst (AllKnown keys) (sym a.requests) (
        AllKnown-update keys _ (refuse_cols actor refuse_reason db.now) db.rollbacks (λ r k. k)
          sound.requests);
  }
    where
      rows :
          (k : String) (r : RunNodeExecution)
          → find k db.nodes ≡ some r
          → (r' : RunNodeExecution) × (find k db'.nodes ≡ some r')
      rows k r e = elim (Bool-cases (req.requester_node_key == k)) [
        | inl t ↦ (clear_decision r, a.found k ∙ rw t (ap (Option.map clear_decision) e))
        | inr f ↦ (r, a.found k ∙ rw f e)
      ]

  pub IsSound-Decided :
      (j : String) (row : RunNodeExecution) (d : Decision) (q : Request) (db' : Db)
      (entry : AuditEntry)
      → find j db.nodes ≡ some row
      → is_status row.status awaiting_approval ≡ true
      → is_direct d ≡ true
      → Decided j (decided_row d q db.now row) entry db db'
      → IsSound snapshot db'
  IsSound-Decided j row d q db' entry at_j awaits direct a = record {
    ready =
        IsReady-kept snapshot db db' sound.ready a.same_run a.unique
          (rows-replaced j _ db' a.found);
    causal =
        IsCausal-replaced snapshot.edges j row (decided_row d q db.now row) db db' at_j awaits
          a.found (decided_row-direct d q db.now row direct) sound.causal;
    requests = subst (AllKnown keys) (sym a.same_rollbacks) sound.requests;
  }

  pub IsSound-Filed :
      (j t : String) (row : RunNodeExecution) (q : Request) (db' : Db)
      → find j db.nodes ≡ some row
      → is_status row.status awaiting_approval ≡ true
      → elem (t, j) snapshot.edges ≡ true
      → Filed q j t (decided_row reject q db.now row) db db'
      → IsSound snapshot db'
  IsSound-Filed j t row q db' at_j awaits parent a =
      let (w, ranked) = (assert_valid_graph_iff keys snapshot.edges).0 sound.ready.valid in
      let known = source_known keys snapshot.edges t j w.ends parent in
      record {
        ready =
            IsReady-kept snapshot db db' sound.ready a.same_run a.unique
              (rows-replaced j _ db' a.found);
        causal =
            IsCausal-awaiting snapshot.edges j row (decided_row reject q db.now row) db db' at_j
              awaits a.found (decided_row-reject q db.now row) sound.causal;
        requests =
            subst (AllKnown keys) (sym a.requests)
              (AllKnown-append keys db.rollbacks (new_request q j t) sound.requests known);
      }
