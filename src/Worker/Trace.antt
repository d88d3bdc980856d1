-- ===== src/Worker/Trace.antt =====
-- Runs of the whole system: any sequence of workers' jobs, decisions and confirmations.
use vaic2026_charcalavong.Prelude.{
  String, ◌≡◌, ◌∙◌, ◌⊎◌, inl, inr, Bool-cases, false, Bool, true, false, Option, string_eq,
}
use vaic2026_charcalavong.Store.{Db, Snapshot, completed}
use vaic2026_charcalavong.Engine.Types.{World}
use vaic2026_charcalavong.Engine.Turn.{is_at}
use vaic2026_charcalavong.Engine.Safe.{is_gated}
use vaic2026_charcalavong.Review.Types.{Request}
use vaic2026_charcalavong.Review.Rollback.{confirm_rollback}
use vaic2026_charcalavong.Review.Decide.{record_decision}
use vaic2026_charcalavong.Worker.{run_workflow}
use vaic2026_charcalavong.Worker.Sound.{IsSound}
use vaic2026_charcalavong.Worker.Steps.{
  record_decision-IsSound, confirm_rollback-IsSound, run_workflow-IsSound,
}
use vaic2026_charcalavong.Worker.Gates.{
  Signs, Gate, Gate-Kept, record_decision-Gate, confirm_rollback-Kept, run_workflow-Kept,
}

-- One job of a worker, whatever the agents answer, or one request of a user.
pub data Step : Db → Db → Type 0 where
  work :
      (world : World) (run_id : String) (resume : Bool) (db : Db)
      → Step db (run_workflow world run_id resume db).1
  decision :
      (node_key action : String) (q : Request) (db : Db)
      → Step db (record_decision node_key action q db).1
  confirmation :
      (rollback_id : String) (accept : Bool) (actor : String) (refuse_reason : Option String)
      (db : Db)
      → Step db (confirm_rollback rollback_id accept actor refuse_reason db).1

pub data Reach : Db → Db → Type 0 where
  here : (db : Db) → Reach db db
  next : {db db' db'' : Db} → Step db db' → Reach db' db'' → Reach db db''

pub Step-IsSound :
    (snapshot : Snapshot) {db db' : Db} → Step db db' → IsSound snapshot db → IsSound snapshot db'
Step-IsSound snapshot (work world run_id resume db) s =
    run_workflow-IsSound world run_id resume snapshot db s
Step-IsSound snapshot (decision node_key action q db) s =
    record_decision-IsSound snapshot db s node_key action q
Step-IsSound snapshot (confirmation rollback_id accept actor refuse_reason db) s =
    confirm_rollback-IsSound snapshot db s rollback_id accept actor refuse_reason

-- Condition: the run is sound at the start, as a run is when it is created. After any sequence of
-- jobs, decisions and confirmations, successful or not and whatever the agents answer, it is sound
-- again: each node has its one row, a node that has left `pending` has all its parents completed,
-- and the requests are about nodes of the graph.
pub Reach-IsSound :
    (snapshot : Snapshot) {db db' : Db} → Reach db db' → IsSound snapshot db → IsSound snapshot db'
Reach-IsSound snapshot (here db) s = s
Reach-IsSound snapshot (next step rest) s =
    Reach-IsSound snapshot rest (Step-IsSound snapshot step s)

-- Some step of the sequence is the approval or the override of `k` by one of its approvers.
abbrev pub SignsStep : String → {db db' : Db} → Step db db' → Type 0
SignsStep k (work world run_id resume db) = ⊥
SignsStep k (decision node_key action q db) = Signs k node_key action q db
SignsStep k (confirmation rollback_id accept actor refuse_reason db) = ⊥

abbrev pub IsSigned : String → {db db' : Db} → Reach db db' → Type 0
IsSigned k (here db) = ⊥
IsSigned k (next step rest) = SignsStep k step ⊎ IsSigned k rest

Step-Gate :
    (snapshot : Snapshot) (k : String) {db db' : Db} (step : Step db db')
    → IsSound snapshot db
    → is_gated db k ≡ true
    → Gate (SignsStep k step) k db db'
Step-Gate snapshot k (work world run_id resume db) s g =
    Gate-Kept ⊥ k db _ (run_workflow-Kept world run_id k snapshot resume db s g)
Step-Gate snapshot k (decision node_key action q db) s g =
    record_decision-Gate snapshot db k node_key action q s.ready
Step-Gate snapshot k (confirmation rollback_id accept actor refuse_reason db) s g =
    Gate-Kept ⊥ k db _
      (confirm_rollback-Kept snapshot db k rollback_id accept actor refuse_reason s)

-- Conditions: the run is sound at the start, the node has approvers, and it is not completed there
-- but is at the end of a sequence of jobs, decisions and confirmations. Then one step of the
-- sequence is an approval or an override of that node by a user who is then one of its approvers.
pub Reach-IsSigned :
    (snapshot : Snapshot) (k : String) {db db' : Db} (reach : Reach db db')
    → IsSound snapshot db
    → is_gated db k ≡ true
    → is_at db completed k ≡ false
    → is_at db' completed k ≡ true
    → IsSigned k reach
Reach-IsSigned snapshot k (here db) s g before after = cc
Reach-IsSigned snapshot k (next {db' = mid} step rest) s g before after =
    let gate = Step-Gate snapshot k step s g in
    elim (Bool-cases (is_at mid completed k)) [
      | inl t ↦ inl (gate.signs before t)
      | inr f ↦ inr (
          Reach-IsSigned snapshot k rest (Step-IsSound snapshot step s) (gate.same_gate ∙ g) f
            after)
    ]
