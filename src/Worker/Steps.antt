-- ===== src/Worker/Steps.antt =====
-- A decision, a confirmation and a worker's job, with any arguments, keep a run sound.
use vaic2026_charcalavong.Prelude.{
  String, ◌≡◌, sym, ap, ◌∙◌, subst, Bool, true, false, ◌&&◌, Option, none, some, arith,
  if◌then◌else◌, ◌==◌, string_eq, pair_eq,
}
use vaic2026_charcalavong.Store.{
  Db, Snapshot, awaiting_human, run_pending, run_running, RunStatus, is_run_status, node_decision,
}
use vaic2026_charcalavong.Store.Rows.{find, IsUnique}
use vaic2026_charcalavong.State.{set_run, transition_and_audit_run}
use vaic2026_charcalavong.Engine.Types.{World, node_keys_of}
use vaic2026_charcalavong.Engine.Loop.{graph_orchestrate}
use vaic2026_charcalavong.Engine.Safe.{IsCausal}
use vaic2026_charcalavong.Engine.Orchestrate.{
  graph_orchestrate-IsCausal, graph_orchestrate-IsReady, rollbacks-graph_orchestrate,
}
use vaic2026_charcalavong.Review.Types.{Request}
use vaic2026_charcalavong.Review.Rollback.{confirm_rollback}
use vaic2026_charcalavong.Review.Decide.{new_request, record_decision}
use vaic2026_charcalavong.Worker.{proceed, run_workflow}
use vaic2026_charcalavong.Worker.Requests.{AllKnown}
use vaic2026_charcalavong.Worker.Cases.{record_decision-rule, confirm_rollback-rule}
use vaic2026_charcalavong.Worker.Sound.{
  IsSound, IsSound-RolledBack, IsSound-Refused, IsSound-Decided, IsSound-Filed,
}

module _ (snapshot : Snapshot) (db : Db) (sound : IsSound snapshot db) where
  pub record_decision-IsSound :
      (node_key action : String) (q : Request)
      → IsSound snapshot (record_decision node_key action q db).1
  record_decision-IsSound node_key action q =
      record_decision-rule snapshot db sound.ready (IsSound snapshot) node_key action q sound
        (λ row d db' at_key awaits approver named is a.
          IsSound-Decided snapshot db sound node_key row d q db' (node_decision d node_key q.actor)
            at_key awaits is a)
        (λ row t db1 at_key awaits approver parent a.
          let sound1 =
            IsSound-Filed snapshot db sound node_key t row q db1 at_key awaits parent a in
          (
            sound1,
            λ db' b. IsSound-RolledBack snapshot db1 sound1 (new_request q node_key t) none db' b,
          ))

  pub confirm_rollback-IsSound :
      (rollback_id : String) (accept : Bool) (actor : String) (refuse_reason : Option String)
      → IsSound snapshot (confirm_rollback rollback_id accept actor refuse_reason db).1
  confirm_rollback-IsSound rollback_id accept actor refuse_reason =
      confirm_rollback-rule snapshot db sound.ready sound.requests (IsSound snapshot) rollback_id
        accept actor refuse_reason sound
        (λ req db' b. IsSound-RolledBack snapshot db sound req (some actor) db' b)
        (λ req db' b. IsSound-Refused snapshot db sound req actor refuse_reason db' b)

  -- The worker's compare-and-set touches the run alone.
  pub claimed :
      (run_id : String) (from : RunStatus)
      → IsSound snapshot (transition_and_audit_run run_id from run_running (λ r. r) db).0
  unfolding transition_and_audit_run set_run
  claimed run_id from = record {
    ready = record {
      run = if hit then set_run db.now run_running (λ r. r) sound.ready.run else sound.ready.run;
      has_run = ground (arith, sound.ready.has_run);
      has_snapshot = ground (arith, sound.ready.has_snapshot);
      valid = sound.ready.valid;
      unique = subst IsUnique (sym nodes) sound.ready.unique;
      rows = λ k m. let (r, e) = sound.ready.rows k m in (r, ap (find k) nodes ∙ e);
    };
    causal =
        subst (λ ns. IsCausal snapshot.edges (record db { nodes = ns })) (sym nodes) sound.causal;
    requests = subst (AllKnown (node_keys_of snapshot)) (sym rollbacks) sound.requests;
  }
    where
      hit : Bool
      hit = (sound.ready.run.id == run_id) && is_run_status sound.ready.run.status from

      nodes : (transition_and_audit_run run_id from run_running (λ r. r) db).0.nodes ≡ db.nodes
      nodes = ground arith

      rollbacks :
          (transition_and_audit_run run_id from run_running (λ r. r) db).0.rollbacks ≡ db.rollbacks
      rollbacks = ground arith

pub nodes-claimed :
    (run_id : String) (from : RunStatus) (db : Db)
    → (transition_and_audit_run run_id from run_running (λ r. r) db).0.nodes ≡ db.nodes
unfolding transition_and_audit_run
nodes-claimed run_id from db = ground arith

pub graph_orchestrate-IsSound :
    (world : World) (run_id : String) (snapshot : Snapshot) (db : Db)
    → IsSound snapshot db
    → IsSound snapshot (graph_orchestrate world run_id db).1
graph_orchestrate-IsSound world run_id snapshot db sound = record {
  ready = graph_orchestrate-IsReady world run_id snapshot db sound.ready;
  causal = graph_orchestrate-IsCausal world run_id snapshot db sound.ready sound.causal;
  requests =
      subst (AllKnown (node_keys_of snapshot))
        (sym (rollbacks-graph_orchestrate world run_id snapshot db sound.ready)) sound.requests;
}

proceed-IsSound :
    (world : World) (run_id : String) (won : Bool) (snapshot : Snapshot) (db : Db)
    → IsSound snapshot db
    → IsSound snapshot (proceed world run_id won db).1
unfolding proceed
proceed-IsSound world run_id true snapshot db sound =
    graph_orchestrate-IsSound world run_id snapshot db sound
proceed-IsSound world run_id false snapshot db sound = sound

pub run_workflow-IsSound :
    (world : World) (run_id : String) (resume : Bool) (snapshot : Snapshot) (db : Db)
    → IsSound snapshot db
    → IsSound snapshot (run_workflow world run_id resume db).1
unfolding run_workflow
run_workflow-IsSound world run_id resume snapshot db sound =
    proceed-IsSound world run_id _ snapshot _
      (claimed snapshot db sound run_id (if resume then awaiting_human else run_pending))
