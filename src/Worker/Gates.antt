-- ===== src/Worker/Gates.antt =====
-- A gated node becomes completed only in the decision of one of its approvers.
use mathlib.Core.Option
use text.Mathlib.TextEquality.{eq_iff}
use vaic2026_charcalavong.Prelude.{
  ℕ, String, ◌≡◌, refl, sym, ap, ◌∙◌, subst, ◌⊎◌, inl, inr, Bool, true, false, Option, none, some,
  arith, if◌then◌else◌, ◌==◌, string_eq, pair_eq, elem, Bool-cases,
}
use vaic2026_charcalavong.Store.{
  Db, RunNodeExecution, RunRollbackRequest, Snapshot, completed, Decision, approve, retry, override,
  reject, is_status, awaiting_human, run_pending, run_running,
}
use vaic2026_charcalavong.Store.Rows.{find}
use vaic2026_charcalavong.State.{set_node, transition_and_audit_run}
use vaic2026_charcalavong.Engine.Turn.{is_at}
use vaic2026_charcalavong.Engine.Safe.{is_gated}
use vaic2026_charcalavong.Engine.Orchestrate.{
  IsReady, graph_orchestrate-HoldsGates, is_gated-graph_orchestrate,
}
use vaic2026_charcalavong.Engine.Types.{World}
use vaic2026_charcalavong.Engine.Loop.{graph_orchestrate}
use vaic2026_charcalavong.Review.Types.{Request, action_of, decided_status}
use vaic2026_charcalavong.Review.Rollback.{clear_node, confirm_rollback}
use vaic2026_charcalavong.Review.Decide.{new_request, record_decision}
use vaic2026_charcalavong.Review.Reject.{IsReady-kept}
use vaic2026_charcalavong.Review.Cas.{decided_row}
use vaic2026_charcalavong.Review.Accept.{RolledBack}
use vaic2026_charcalavong.Review.Confirm.{Refused}
use vaic2026_charcalavong.Worker.{proceed, run_workflow}
use vaic2026_charcalavong.Worker.Keep.{scope}
use vaic2026_charcalavong.Worker.Sound.{IsSound}
use vaic2026_charcalavong.Worker.Cases.{record_decision-rule, confirm_rollback-rule}
use vaic2026_charcalavong.Worker.Steps.{claimed, nodes-claimed}

-- An approval or an override of `k`, by one of its approvers.
abbrev pub Signs : String → String → String → Request → Db → Type 0
Signs k node_key action q db =
    (node_key ≡ k)
    × (row : RunNodeExecution) × (find k db.nodes ≡ some row)
    × (elem q.actor row.approver_user_ids ≡ true)
    × (d : Decision) × (action_of action ≡ some d)
    × (decided_status d ≡ completed)

-- The node keeps its approvers, and is not newly completed.
pub record Kept (k : String) (db db' : Db) : Type 0 where
  pub same_gate : is_gated db' k ≡ is_gated db k
  pub not_newly : is_at db completed k ≡ false → is_at db' completed k ≡ false

pub Kept-refl : (k : String) (db : Db) → Kept k db db
Kept-refl k db = record { same_gate = refl; not_newly = λ h. h }

pub Kept-trans : (k : String) (a b c : Db) → Kept k a b → Kept k b c → Kept k a c
Kept-trans k a b c p q = record {
  same_gate = q.same_gate ∙ p.same_gate;
  not_newly = λ h. q.not_newly (p.not_newly h);
}

pub Kept-row : (k : String) (db db' : Db) → find k db'.nodes ≡ find k db.nodes → Kept k db db'
Kept-row k db db' e = record { same_gate = ground (arith, e); not_newly = λ h. ground (arith, e) }

Kept-cleared :
    (k : String) (g : Option String) (db db' : Db)
    → find k db'.nodes ≡ Option.map (clear_node g) (find k db.nodes)
    → Kept k db db'
Kept-cleared k g db db' e = record {
  same_gate = ground (arith, e);
  not_newly = λ h. ground (arith, e);
}

pub Kept-RolledBack :
    (snapshot : Snapshot) (req : RunRollbackRequest) (decided_by : Option String) (db db' : Db)
    (k : String)
    → IsReady snapshot db
    → RolledBack snapshot req decided_by db db'
    → Kept k db db'
Kept-RolledBack snapshot req decided_by db db' k ready a =
    elim (scope snapshot db req.target_node_key k ready) [
      | inl same ↦ Kept-cleared k req.reason db db' (
          subst (λ x. find x db'.nodes ≡ Option.map (clear_node req.reason) (find x db.nodes))
            (sym same) a.at_target)
      | inr (inl (apart, walk)) ↦ Kept-cleared k none db db' (a.below k walk apart)
      | inr (inr (apart, no_walk)) ↦ Kept-row k db db' (a.others k no_walk apart)
    ]

pub Kept-Refused :
    (req : RunRollbackRequest) (actor : String) (refuse_reason : Option String) (db db' : Db)
    (k : String)
    → Refused req actor refuse_reason db db'
    → Kept k db db'
Kept-Refused req actor refuse_reason db db' k a = record {
  same_gate = ground (arith, a.found k);
  not_newly = λ h. ground (arith, a.found k);
}

pub decided_row-approvers :
    (d : Decision) (q : Request) (now : ℕ) (row : RunNodeExecution)
    → (decided_row d q now row).approver_user_ids ≡ row.approver_user_ids
unfolding decided_row set_node
decided_row-approvers approve q now row = refl
decided_row-approvers retry q now row = refl
decided_row-approvers override q now row = refl
decided_row-approvers reject q now row = refl

pub decided_row-status :
    (d : Decision) (q : Request) (now : ℕ) (row : RunNodeExecution)
    → (decided_row d q now row).status ≡ decided_status d
unfolding decided_row set_node
decided_row-status approve q now row = refl
decided_row-status retry q now row = refl
decided_row-status override q now row = refl
decided_row-status reject q now row = refl

completed-cases :
    (d : Decision)
    → (decided_status d ≡ completed) ⊎ (is_status (decided_status d) completed ≡ false)
completed-cases approve = inl refl
completed-cases retry = inr refl
completed-cases override = inl refl
completed-cases reject = inr refl

-- The replacement of a decided row.
module _ (j k : String) (d : Decision) (q : Request) (now : ℕ) (row : RunNodeExecution)
    (db db' : Db) (at_j : find j db.nodes ≡ some row)
    (found : find k db'.nodes
      ≡ (if j == k then some (decided_row d q now row) else find k db.nodes)) where
  pub same_gate-decided : is_gated db' k ≡ is_gated db k
  same_gate-decided = elim (Bool-cases (j == k)) [
    | inl t ↦ ground (
      arith,
      found,
      t,
      subst (λ x. find x db.nodes ≡ some row) ((eq_iff j k).0 t) at_j,
      decided_row-approvers d q now row,
    )
    | inr f ↦ ground (arith, found, f)
  ]

  pub Kept-decided : is_status (decided_status d) completed ≡ false → Kept k db db'
  Kept-decided stays = record {
    same_gate = same_gate-decided;
    not_newly = λ h. elim (Bool-cases (j == k)) [
      | inl t ↦ ground (arith, found, t, decided_row-status d q now row, stays)
      | inr f ↦ ground (arith, found, f)
    ];
  }

  pub Signs-decided :
      (action : String)
      → action_of action ≡ some d
      → elem q.actor row.approver_user_ids ≡ true
      → is_at db completed k ≡ false
      → is_at db' completed k ≡ true
      → Signs k j action q db
  Signs-decided action named approver before after = elim (completed-cases d) [
    | inr stays ↦ let kept = (Kept-decided stays).not_newly before in cc
    | inl to ↦ elim (Bool-cases (j == k)) [
      | inr f ↦ absurd (ground (arith, found, f))
      | inl t ↦ (
        (eq_iff j k).0 t,
        row,
        subst (λ x. find x db.nodes ≡ some row) ((eq_iff j k).0 t) at_j,
        approver,
        d,
        named,
        to,
      )
    ]
  ]

-- A step that keeps the node's approvers, and completes it only with `S`.
pub record Gate (S : Type 0) (k : String) (db db' : Db) : Type 0 where
  pub same_gate : is_gated db' k ≡ is_gated db k
  pub signs : is_at db completed k ≡ false → is_at db' completed k ≡ true → S

pub Gate-Kept : (S : Type 0) (k : String) (db db' : Db) → Kept k db db' → Gate S k db db'
Gate-Kept S k db db' a = record {
  same_gate = a.same_gate;
  signs = λ before after. let kept = a.not_newly before in cc;
}

-- A decision, with any arguments.
pub record_decision-Gate :
    (snapshot : Snapshot) (db : Db) (k node_key action : String) (q : Request)
    → IsReady snapshot db
    → Gate (Signs k node_key action q db) k db (record_decision node_key action q db).1
record_decision-Gate snapshot db k node_key action q ready =
    record_decision-rule snapshot db ready (Gate S k db) node_key action q
      (Gate-Kept S k db db (Kept-refl k db))
      (λ row d db' at_key awaits approver named is a. record {
        same_gate = same_gate-decided node_key k d q db.now row db db' at_key (a.found k);
        signs =
            Signs-decided node_key k d q db.now row db db' at_key (a.found k) action named approver;
      })
      (λ row t db1 at_key awaits approver parent a.
        let kept = Kept-decided node_key k reject q db.now row db db1 at_key (a.found k) refl in
        let rows : (j : String) (r : RunNodeExecution)
            → find j db.nodes ≡ some r
            → (r' : RunNodeExecution) × (find j db1.nodes ≡ some r') =
          λ j r e. elim (Bool-cases (node_key == j)) [
            | inl t ↦ (decided_row reject q db.now row, a.found j ∙ rw t refl)
            | inr f ↦ (r, a.found j ∙ rw f e)
          ] in
        let ready1 = IsReady-kept snapshot db db1 ready a.same_run a.unique rows in
        (
          Gate-Kept S k db db1 kept,
          λ db' b. Gate-Kept S k db db' (
              Kept-trans k db db1 db' kept
                (Kept-RolledBack snapshot (new_request q node_key t) none db1 db' k ready1 b)),
        ))
  where
    S : Type 0
    S = Signs k node_key action q db

pub confirm_rollback-Kept :
    (snapshot : Snapshot) (db : Db) (k rollback_id : String) (accept : Bool) (actor : String)
    (refuse_reason : Option String)
    → IsSound snapshot db
    → Kept k db (confirm_rollback rollback_id accept actor refuse_reason db).1
confirm_rollback-Kept snapshot db k rollback_id accept actor refuse_reason sound =
    confirm_rollback-rule snapshot db sound.ready sound.requests (Kept k db) rollback_id accept
      actor refuse_reason (Kept-refl k db)
      (λ req db' b. Kept-RolledBack snapshot req (some actor) db db' k sound.ready b)
      (λ req db' b. Kept-Refused req actor refuse_reason db db' k b)

-- A job of a worker, on a gated node.
module _ (world : World) (run_id k : String) (snapshot : Snapshot) where
  graph_orchestrate-Kept :
      (db : Db)
      → IsReady snapshot db
      → is_gated db k ≡ true
      → Kept k db (graph_orchestrate world run_id db).1
  graph_orchestrate-Kept db ready g = record {
    same_gate = is_gated-graph_orchestrate world run_id snapshot db ready k;
    not_newly = graph_orchestrate-HoldsGates world run_id snapshot db ready k g;
  }

  proceed-Kept :
      (won : Bool) (db : Db)
      → IsReady snapshot db
      → is_gated db k ≡ true
      → Kept k db (proceed world run_id won db).1
  unfolding proceed
  proceed-Kept true db ready g = graph_orchestrate-Kept db ready g
  proceed-Kept false db ready g = Kept-refl k db

  pub run_workflow-Kept :
      (resume : Bool) (db : Db)
      → IsSound snapshot db
      → is_gated db k ≡ true
      → Kept k db (run_workflow world run_id resume db).1
  unfolding run_workflow
  run_workflow-Kept resume db sound g =
      let from = if resume then awaiting_human else run_pending in
      let moved = (transition_and_audit_run run_id from run_running (λ r. r) db).0 in
      let same = Kept-row k db moved (ap (find k) (nodes-claimed run_id from db)) in
      Kept-trans k db moved _ same
        (proceed-Kept _ moved (claimed snapshot db sound run_id from).ready (same.same_gate ∙ g))
