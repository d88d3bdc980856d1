-- ===== src/Engine/Advance.antt =====
-- What running one pending node does to the rows: that node's row leaves `pending`, it is
-- completed only if it has no approvers, and no other row changes.
use text.Mathlib.TextPositions.{eq_refl}
use vaic2026_charcalavong.Prelude.{
  ℕ, String, ◌≡◌, refl, sym, ap, ◌∙◌, subst, Bool, true, false, ◌&&◌, Option, none, some, List, [],
  ◌∷◌, ◌++◌, arith, if◌then◌else◌, ◌==◌, string_eq, Result, not, ok, raise,
}
use vaic2026_charcalavong.Store.{
  Json, Db, WorkflowRun, run_running, awaiting_human, is_run_status, RunNodeExecution, SnapshotNode,
  TaskPayload, NodeStatus, pending, running, awaiting_approval, completed, failed, is_status,
}
use vaic2026_charcalavong.Store.Rows.{find, IsUnique, Keeps}
use vaic2026_charcalavong.State.{set_run, set_node, transition_node_status}
use vaic2026_charcalavong.State.Cas.{won-transition, find-transition, IsUnique-transition}
use vaic2026_charcalavong.Engine.Types.{
  EngineError, agent_not_found, World, Plan, Attempt, raised, returned, Outcome, chain,
}
use vaic2026_charcalavong.Engine.Node.{
  always, set_output, enter_running, settle, dispatch, enter, set_run_awaiting_human,
}
use vaic2026_charcalavong.Engine.Final.{notify_approvers}
use vaic2026_charcalavong.Engine.Loop.{store_result, conclude}

-- The run as `_set_run_awaiting_human` leaves it.
abbrev pub paused_run : String → ℕ → Option WorkflowRun → Option WorkflowRun
paused_run run_id now none = none
paused_run run_id now (some r) =
    if (r.id == run_id) && is_run_status r.status run_running
    then some (set_run now awaiting_human (λ x. x) r)
    else some r

pub run-set_run_awaiting_human :
    (run_id : String) (db : Db)
    → (set_run_awaiting_human run_id db).run ≡ paused_run run_id db.now db.run
unfolding set_run_awaiting_human
run-set_run_awaiting_human run_id db = ground arith

-- `return` as against another turn or an exception
abbrev pub is_return : Result EngineError Bool → Bool
is_return (raise e) = false
is_return (ok b) = not b

-- The statuses in which the engine leaves a node that it is not running.
abbrev pub is_settled : NodeStatus → Bool
is_settled pending = true
is_settled awaiting_approval = true
is_settled completed = true
is_settled failed = true
is_settled _ = false

abbrev pub is_ok : Result EngineError Bool → Bool
is_ok (raise e) = false
is_ok (ok b) = true

pub record Advance (run_id j : String) (row : RunNodeExecution) (db : Db) (out : Outcome Bool)
    : Type 0 where
  pub row' : RunNodeExecution
  pub found : (k : String) → find k out.1.nodes ≡ (if j == k then some row' else find k db.nodes)
  pub unique : IsUnique out.1.nodes
  pub started : is_status row'.status pending ≡ false
  pub gate : is_status row'.status completed ≡ true → row.approver_user_ids ≡ []
  pub error : (x : EngineError) → out.0 ≡ raise x → x ≡ agent_not_found row.agent_id
  pub landed : is_ok out.0 ≡ true → is_settled row'.status ≡ true
  pub approvers : row'.approver_user_ids ≡ row.approver_user_ids
  pub rollbacks : out.1.rollbacks ≡ db.rollbacks
  pub run_after : out.1.run ≡ (if is_return out.0 then paused_run run_id db.now db.run else db.run)

enter_running-Keeps : (j : Json) → Keeps (enter_running j)
enter_running-Keeps j = record {
  same_key = λ r. refl;
  same_id = λ r. refl;
  same_approvers = λ r. refl;
}

set_output-Keeps : (j : Json) → Keeps (set_output j)
set_output-Keeps j = record {
  same_key = λ r. refl;
  same_id = λ r. refl;
  same_approvers = λ r. refl;
}

id-Keeps : Keeps (λ r. r)
id-Keeps = record { same_key = λ r. refl; same_id = λ r. refl; same_approvers = λ r. refl }

pub nodes-set_run_awaiting_human :
    (run_id : String) (db : Db) → (set_run_awaiting_human run_id db).nodes ≡ db.nodes
unfolding set_run_awaiting_human
nodes-set_run_awaiting_human run_id db = ground arith

nodes-notify_approvers :
    (world : World) (plan : Plan) (row : RunNodeExecution) (db : Db)
    → (notify_approvers world plan row db).nodes ≡ db.nodes
unfolding notify_approvers
nodes-notify_approvers world plan row db = ground arith

run-notify_approvers :
    (world : World) (plan : Plan) (row : RunNodeExecution) (db : Db)
    → (notify_approvers world plan row db).run ≡ db.run
unfolding notify_approvers
run-notify_approvers world plan row db = ground arith

ap₃ :
    {a b : String} {m n : ℕ} {x y : Option WorkflowRun}
    → a ≡ b
    → m ≡ n
    → x ≡ y
    → paused_run a m x ≡ paused_run b n y
ap₃ p q r = λ i. paused_run (p i) (q i) (r i)

pub rollbacks-set_run_awaiting_human :
    (run_id : String) (db : Db) → (set_run_awaiting_human run_id db).rollbacks ≡ db.rollbacks
unfolding set_run_awaiting_human
rollbacks-set_run_awaiting_human run_id db = ground arith

rollbacks-notify_approvers :
    (world : World) (plan : Plan) (row : RunNodeExecution) (db : Db)
    → (notify_approvers world plan row db).rollbacks ≡ db.rollbacks
unfolding notify_approvers
rollbacks-notify_approvers world plan row db = ground arith

module _ (run_id j : String) (row : RunNodeExecution) (db : Db) where
  -- The node is `running`, in tables that are otherwise those of `db`.
  record Entered (db1 : Db) : Type 0 where
    row1 : RunNodeExecution
    same_id : row1.id ≡ row.id
    status : row1.status ≡ running
    approvers : row1.approver_user_ids ≡ row.approver_user_ids
    found : (k : String) → find k db1.nodes ≡ (if j == k then some row1 else find k db.nodes)
    unique : IsUnique db1.nodes
    rollbacks : db1.rollbacks ≡ db.rollbacks
    same_run : db1.run ≡ db.run
    same_now : db1.now ≡ db.now

  module _ (db1 : Db) (e : Entered db1) where
    Entered-stop : Advance run_id j row db (raise (agent_not_found row.agent_id), db1)
    Entered-stop = record {
      row' = e.row1;
      found = e.found;
      unique = e.unique;
      started = rw e.status refl;
      gate = λ h. ground (arith, e.status);
      landed = λ h. cc;
      error = λ x h. ground arith;
      approvers = e.approvers;
      rollbacks = e.rollbacks;
      run_after = e.same_run;
    }

    here : find j db1.nodes ≡ some e.row1
    here = e.found j ∙ rw eq_refl refl

    module _ (to : NodeStatus) (extra : RunNodeExecution → RunNodeExecution) (keep : Keeps extra)
        (same_status : (r : RunNodeExecution) → (extra r).status ≡ r.status)
        (out : is_status to pending ≡ false) (landed : is_settled to ≡ true)
        (gate : is_status to completed ≡ true → row.approver_user_ids ≡ []) where
      -- The second compare-and-set, in tables with the same nodes.
      Entered-move :
          (db' : Db)
          → db'.nodes ≡ (transition_node_status row.id running to extra always db1).0.nodes
          → db'.rollbacks ≡ db1.rollbacks
          → (b : Bool) → db'.run ≡ (if not b then paused_run run_id db.now db.run else db.run)
          → Advance run_id j row db (ok b, db')
      Entered-move db' same same' b run_after = record {
        row' = moved;
        found = λ k. ap (find k) same ∙ at k;
        unique = subst IsUnique (sym same) unique1;
        started = ap (λ s. is_status s pending) moved_status ∙ out;
        gate = λ h. gate (ap (λ s. is_status s completed) (sym moved_status) ∙ h);
        error = λ x h. cc;
        landed = λ h. ap is_settled moved_status ∙ landed;
        approvers = unfold set_node in (keep.same_approvers _ ∙ e.approvers);
        rollbacks = same' ∙ e.rollbacks;
        run_after = run_after;
      }
        where
          moved : RunNodeExecution
          moved = set_node db1.now to extra e.row1

          moved_status : moved.status ≡ to
          moved_status = unfold set_node in same_status _

          unique1 : IsUnique (transition_node_status row.id running to extra always db1).0.nodes
          unique1 =
              rw (← e.same_id)
                (IsUnique-transition j e.row1 db1 e.unique here running to extra always keep)

          at :
              (k : String)
              → find k (transition_node_status row.id running to extra always db1).0.nodes
                ≡ (if j == k then some moved else find k db.nodes)
          at k = rw (← e.same_id) (
              ground (
                arith,
                find-transition j e.row1 db1 e.unique here running to extra always keep k,
                e.status,
                e.found k,
              ))

    rollbacks-transition :
        (to : NodeStatus) (extra : RunNodeExecution → RunNodeExecution)
        → (transition_node_status row.id running to extra always db1).0.rollbacks ≡ db1.rollbacks
    unfolding transition_node_status
    rollbacks-transition to extra = refl

    store_result-Advance :
        (world : World) (plan : Plan) (same : plan.run_id ≡ run_id) (approvers : List String)
        (success : Bool) (output : Json)
        → row.approver_user_ids ≡ approvers
        → Advance run_id j row db (store_result world plan row approvers success output db1)
    unfolding store_result
    store_result-Advance world plan same [] success output ungated =
        Entered-move (if success then completed else failed) (set_output output)
          (set_output-Keeps output) (λ r. refl) (ground arith) (ground arith) (λ _. ungated) _ refl
          (rollbacks-transition (if success then completed else failed) (set_output output)) _
          e.same_run
    store_result-Advance world plan same (uid ∷ uids) success output gated =
        Entered-move awaiting_approval (set_output output) (set_output-Keeps output) (λ r. refl)
          refl refl (λ h. cc) _
          (nodes-notify_approvers world plan row _ ∙ nodes-set_run_awaiting_human plan.run_id _)
          (rollbacks-notify_approvers world plan row _
            ∙ rollbacks-set_run_awaiting_human plan.run_id _
            ∙ rollbacks-transition awaiting_approval (set_output output))
          _
          (run-notify_approvers world plan row _
            ∙ run-set_run_awaiting_human plan.run_id _
            ∙ unfold transition_node_status in ap₃ same e.same_now e.same_run)

    settle-Advance :
        (world : World) (plan : Plan) (same : plan.run_id ≡ run_id) (attempt : Attempt)
        → Advance run_id j row db (chain (settle row attempt db1) (conclude world plan row))
    unfolding settle conclude
    settle-Advance world plan same (raised message) =
        Entered-move failed (λ r. r) id-Keeps (λ r. refl) refl refl (λ h. cc) _ refl
          (rollbacks-transition failed (λ r. r)) _ e.same_run
    settle-Advance world plan same (returned success output) =
        store_result-Advance world plan same row.approver_user_ids success output refl

  dispatch-Advance :
      (world : World) (plan : Plan) (same : plan.run_id ≡ run_id) (payload : TaskPayload)
      (department : Option String) (db1 : Db)
      → Entered db1
      → Advance run_id j row db
          (chain (dispatch world row payload department db1) (conclude world plan row))
  unfolding dispatch
  dispatch-Advance world plan same payload none db1 e = Entered-stop db1 e
  dispatch-Advance world plan same payload (some department) db1 e =
      settle-Advance (record db1 { calls = db1.calls ++ payload ∷ [] })
        (record {
          row1 = e.row1;
          same_id = e.same_id;
          status = e.status;
          approvers = e.approvers;
          found = e.found;
          unique = e.unique;
          rollbacks = e.rollbacks;
          same_run = e.same_run;
          same_now = e.same_now;
        })
        world plan same _

module _ (run_id j : String) (row : RunNodeExecution) (db : Db) (unique : IsUnique db.nodes)
    (found : find j db.nodes ≡ some row) (idle : is_status row.status pending ≡ true) where
  transition-Entered :
      (input : Json)
      → Entered run_id j row db
          (transition_node_status row.id pending running (enter_running input) always db).0
  unfolding transition_node_status set_node
  transition-Entered input = record {
    row1 = set_node db.now running (enter_running input) row;
    same_id = refl;
    status = refl;
    approvers = refl;
    found = λ k. ground (
      arith,
      find-transition j row db unique found pending running (enter_running input) always
          (enter_running-Keeps input) k,
      idle,
    );
    unique =
        IsUnique-transition j row db unique found pending running (enter_running input) always
          (enter_running-Keeps input);
    rollbacks = refl;
    same_run = refl;
    same_now = refl;
  }

  -- A pending node that is run with a given input, whatever the world answers.
  pub enter-Advance :
      (world : World) (plan : Plan) (node : SnapshotNode) (input : Json)
      → plan.run_id ≡ run_id
      → Advance run_id j row db (chain (enter world row node input db) (conclude world plan row))
  unfolding enter
  enter-Advance world plan node input same =
      rw
        (
          won-transition j row db unique found pending running (enter_running input) always
              (enter_running-Keeps input),
          idle,
        )
        (dispatch-Advance run_id j row db world plan same _ _ _ (transition-Entered input))
