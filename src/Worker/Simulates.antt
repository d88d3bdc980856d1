-- ===== src/Worker/Simulates.antt =====
-- The refinement: jobs, decisions and confirmations, and their sequences, are moves of the machine.
use mathlib.Core.Option
use vaic2026_charcalavong.Prelude.{
  String, ◌≡◌, refl, sym, ap, ◌∙◌, subst, inl, inr, Bool, true, false, Option, none, some, arith,
  if◌then◌else◌, ◌==◌, string_eq, pair_eq, elem,
}
use vaic2026_charcalavong.Store.{
  Db, RunNodeExecution, RunRollbackRequest, Snapshot, awaiting_approval, pending, Decision,
  is_status, awaiting_human, run_pending, run_running, reject,
}
use vaic2026_charcalavong.Store.Rows.{find}
use vaic2026_charcalavong.State.{transition_and_audit_run}
use vaic2026_charcalavong.Engine.Types.{World}
use vaic2026_charcalavong.Engine.Loop.{graph_orchestrate}
use vaic2026_charcalavong.Engine.Safe.{is_gated}
use vaic2026_charcalavong.Engine.Orchestrate.{IsReady, make_plan-IsPlan, graph_orchestrate-eq}
use vaic2026_charcalavong.Review.Types.{Request}
use vaic2026_charcalavong.Review.Rollback.{clear_node, confirm_rollback}
use vaic2026_charcalavong.Review.Decide.{new_request, record_decision}
use vaic2026_charcalavong.Review.Cas.{decided_row}
use vaic2026_charcalavong.Review.Accept.{RolledBack}
use vaic2026_charcalavong.Review.Confirm.{Refused}
use vaic2026_charcalavong.Worker.{proceed, run_workflow}
use vaic2026_charcalavong.Worker.Keep.{scope}
use vaic2026_charcalavong.Worker.Sound.{IsSound, IsSound-Filed}
use vaic2026_charcalavong.Worker.Cases.{record_decision-rule, confirm_rollback-rule}
use vaic2026_charcalavong.Worker.Steps.{claimed, nodes-claimed}
use vaic2026_charcalavong.Worker.Gates.{
  same_gate-decided, decided_row-status, Kept-RolledBack, Kept-Refused,
}
use vaic2026_charcalavong.Worker.Trace.{
  Step, work, decision, confirmation, Reach, here, next, Step-IsSound,
}
use vaic2026_charcalavong.Worker.Machine.{
  decide, roll_back, Moves, stay, move, status_at, shows-status_at,
}
use vaic2026_charcalavong.Worker.Refines.{
  Refines, Refines-same, Refines-then, status-replaced, gated-approver,
}
use vaic2026_charcalavong.Worker.EngineMoves.{loop-Refines}

graph_orchestrate-Refines :
    (world : World) (run_id : String) (snapshot : Snapshot) (db : Db)
    → IsReady snapshot db
    → Refines snapshot.edges db (graph_orchestrate world run_id db).1
graph_orchestrate-Refines world run_id snapshot db ready =
    let (plan, e, is_plan, same_id, same_keys, same_edges) =
      make_plan-IsPlan run_id snapshot ready.valid in
    let r = loop-Refines world plan is_plan db ready.run ready.has_run (record {
      unique = ready.unique;
      rows = λ k m. ready.rows k (subst (λ ks. elem k ks ≡ true) same_keys m);
      run = ready.run;
      has_run = ready.has_run;
    }) in
    subst (λ es. Refines es db (graph_orchestrate world run_id db).1) same_edges
      (subst (λ o. Refines plan.edges db o.1)
        (sym (graph_orchestrate-eq world run_id snapshot db ready plan e)) r)

proceed-Refines :
    (world : World) (run_id : String) (won : Bool) (snapshot : Snapshot) (db : Db)
    → IsReady snapshot db
    → Refines snapshot.edges db (proceed world run_id won db).1
unfolding proceed
proceed-Refines world run_id true snapshot db ready =
    graph_orchestrate-Refines world run_id snapshot db ready
proceed-Refines world run_id false snapshot db ready = Refines-same snapshot.edges db db refl

run_workflow-Refines :
    (world : World) (run_id : String) (resume : Bool) (snapshot : Snapshot) (db : Db)
    → IsSound snapshot db
    → Refines snapshot.edges db (run_workflow world run_id resume db).1
unfolding run_workflow
run_workflow-Refines world run_id resume snapshot db sound =
    let from = if resume then awaiting_human else run_pending in
    let claimed' = claimed snapshot db sound run_id from in
    let db' = (transition_and_audit_run run_id from run_running (λ r. r) db).0 in
    Refines-then snapshot.edges db db' _
      (Refines-same snapshot.edges db db' (nodes-claimed run_id from db))
      (proceed-Refines world run_id _ snapshot db' claimed'.ready)

module _ (snapshot : Snapshot) (db : Db) (ready : IsReady snapshot db) where
  -- The row of the decided node is replaced.
  decided-Refines :
      (k : String) (d : Decision) (q : Request) (row : RunNodeExecution) (db' : Db)
      → find k db.nodes ≡ some row
      → is_status row.status awaiting_approval ≡ true
      → elem q.actor row.approver_user_ids ≡ true
      → ((j : String)
          → find j db'.nodes
            ≡ (if k == j then some (decided_row d q db.now row) else find j db.nodes))
      → Refines snapshot.edges db db'
  decided-Refines k d q row db' at_k awaits approver found = record {
    gates = λ j. same_gate-decided k j d q db.now row db db' at_k (found j);
    moves = move (stay (λ j. refl)) (
        decide k d (shows-status_at db k awaiting_approval ∙ ground (arith, at_k, awaits))
          (gated-approver db k row q.actor at_k approver)
          (λ j.
            status-replaced k (decided_row d q db.now row) db db' found j
            ∙ ap (λ s. if k == j then some s else status_at db j)
                (decided_row-status d q db.now row)));
  }

  status-cleared :
      (g : Option String) (j : String) (db' : Db)
      → find j db'.nodes ≡ Option.map (clear_node g) (find j db.nodes)
      → status_at db' j ≡ Option.map (λ s. pending) (status_at db j)
  status-cleared g j db' e = ground (arith, e)

  RolledBack-Refines :
      (req : RunRollbackRequest) (decided_by : Option String) (db' : Db)
      → RolledBack snapshot req decided_by db db'
      → Refines snapshot.edges db db'
  RolledBack-Refines req decided_by db' a = record {
    gates = λ j. (Kept-RolledBack snapshot req decided_by db db' j ready a).same_gate;
    moves = move (stay (λ j. refl)) (
        roll_back req.target_node_key
          (λ j reached. elim (scope snapshot db req.target_node_key j ready) [
            | inl same ↦ status-cleared req.reason j db' (
                subst (λ x. find x db'.nodes ≡ Option.map (clear_node req.reason) (find x db.nodes))
                  (sym same) a.at_target)
            | inr (inl (apart, walk)) ↦ status-cleared none j db' (a.below j walk apart)
            | inr (inr (apart, no_walk)) ↦
                absurd (elim reached [ inl e ↦ apart e | inr w ↦ no_walk w ])
          ])
          (λ j apart no_walk.
            ap (Option.map (λ (r : RunNodeExecution). r.status)) (a.others j no_walk apart)));
  }

  Refused-Refines :
      (req : RunRollbackRequest) (actor : String) (refuse_reason : Option String) (db' : Db)
      → Refused req actor refuse_reason db db'
      → Refines snapshot.edges db db'
  Refused-Refines req actor refuse_reason db' a = record {
    gates = λ j. (Kept-Refused req actor refuse_reason db db' j a).same_gate;
    moves = stay (λ j. ground (arith, a.found j));
  }

module _ (snapshot : Snapshot) (db : Db) (sound : IsSound snapshot db) where
  record_decision-Refines :
      (node_key action : String) (q : Request)
      → Refines snapshot.edges db (record_decision node_key action q db).1
  record_decision-Refines node_key action q =
      record_decision-rule snapshot db sound.ready (Refines snapshot.edges db) node_key action q
        (Refines-same snapshot.edges db db refl)
        (λ row d db' at_key awaits approver named is a.
          decided-Refines snapshot db sound.ready node_key d q row db' at_key awaits approver
            a.found)
        (λ row t db1 at_key awaits approver parent a.
          let filed =
            decided-Refines snapshot db sound.ready node_key reject q row db1 at_key awaits approver
              a.found in
          let sound1 =
            IsSound-Filed snapshot db sound node_key t row q db1 at_key awaits parent a in
          (
            filed,
            λ db' b. Refines-then snapshot.edges db db1 db' filed (
                RolledBack-Refines snapshot db1 sound1.ready (new_request q node_key t) none db' b),
          ))

  confirm_rollback-Refines :
      (rollback_id : String) (accept : Bool) (actor : String) (refuse_reason : Option String)
      → Refines snapshot.edges db (confirm_rollback rollback_id accept actor refuse_reason db).1
  confirm_rollback-Refines rollback_id accept actor refuse_reason =
      confirm_rollback-rule snapshot db sound.ready sound.requests (Refines snapshot.edges db)
        rollback_id accept actor refuse_reason (Refines-same snapshot.edges db db refl)
        (λ req db' b. RolledBack-Refines snapshot db sound.ready req (some actor) db' b)
        (λ req db' b. Refused-Refines snapshot db sound.ready req actor refuse_reason db' b)

Step-Refines :
    (snapshot : Snapshot) {db db' : Db}
    → Step db db'
    → IsSound snapshot db
    → Refines snapshot.edges db db'
Step-Refines snapshot (work world run_id resume db) s =
    run_workflow-Refines world run_id resume snapshot db s
Step-Refines snapshot (decision node_key action q db) s =
    record_decision-Refines snapshot db s node_key action q
Step-Refines snapshot (confirmation rollback_id accept actor refuse_reason db) s =
    confirm_rollback-Refines snapshot db s rollback_id accept actor refuse_reason

Reach-Refines :
    (snapshot : Snapshot) {db db' : Db}
    → Reach db db'
    → IsSound snapshot db
    → Refines snapshot.edges db db'
Reach-Refines snapshot (here db) s = Refines-same snapshot.edges db db refl
Reach-Refines snapshot (next {db = db} {db' = mid} {db'' = db'} step rest) s =
    Refines-then snapshot.edges db mid db' (Step-Refines snapshot step s)
      (Reach-Refines snapshot rest (Step-IsSound snapshot step s))

-- Condition: the run is sound at the start, as a run is when it is created. Any sequence of jobs,
-- decisions and confirmations, successful or not and whatever the agents answer, is a sequence of
-- moves of the abstract machine on the nodes' statuses: a pending node below completed parents is
-- taken, and not completed at once if it has approvers; a node with approvers that awaits them is
-- decided; or a node and everything below it goes back to pending.
pub Reach-Moves :
    (snapshot : Snapshot) {db db' : Db}
    → Reach db db'
    → IsSound snapshot db
    → Moves snapshot.edges (is_gated db) (status_at db) (status_at db')
Reach-Moves snapshot reach s = (Reach-Refines snapshot reach s).moves
