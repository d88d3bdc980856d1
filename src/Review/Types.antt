-- ===== src/Review/Types.antt =====
-- graph_review.py: requests, errors, and the compare-and-set of a decision. An operation returns
-- its result or a `ReviewError`, with the tables as it leaves them.
use vaic2026_charcalavong.Prelude.{
  ℕ, String, Bool, true, false, Option, none, some, List, elem, if◌then◌else◌, ◌==◌, string_eq,
  Result, ok, raise,
}
use vaic2026_charcalavong.Graph.{GraphError}
use vaic2026_charcalavong.Store.{
  Json, obj, end, Db, RunNodeExecution, NodeStatus, pending, awaiting_approval, completed, Decision,
  approve, retry, override, reject, update_where, first_where,
}
use vaic2026_charcalavong.State.{transition_node_status}

pub data ReviewError : Type 0 where
  invalid_action bad_target not_awaiting already_decided already_resolved : ReviewError
  not_approver no_run no_rollback no_graph : ReviewError
  no_node : String → ReviewError
  graph_failure : GraphError → ReviewError

-- The HTTP status that the route answers with; a failure of the graph functions is no
-- `ReviewError` and ends in the server's 500.
pub status_code : ReviewError → ℕ
status_code invalid_action = 400
status_code bad_target = 400
status_code not_awaiting = 409
status_code already_decided = 409
status_code already_resolved = 409
status_code not_approver = 403
status_code no_run = 404
status_code no_rollback = 404
status_code (no_node k) = 404
status_code no_graph = 500
status_code (graph_failure e) = 500

abbrev pub Reply : Type 0 → Type 0
Reply A = Result ReviewError A × Db

abbrev pub lift {ℓ κ} :
    {A : Type ℓ} {B : Type κ}
    → Result ReviewError A
    → (A → Db → Result ReviewError B × Db)
    → Db
    → Result ReviewError B × Db
lift (raise e) f db = (raise e, db)
lift (ok a) f db = f a db

abbrev pub chain {ℓ κ} :
    {A : Type ℓ} {B : Type κ}
    → Result ReviewError A × Db
    → (A → Db → Result ReviewError B × Db)
    → Result ReviewError B × Db
chain (raise e, db) f = (raise e, db)
chain (ok a, db) f = f a db

-- `if test: raise error`
abbrev pub check : Bool → ReviewError → Result ReviewError (Unit {0})
check true error = ok tt
check false error = raise error

-- An entry of `_VALID_ACTIONS`
abbrev pub action_of : String → Option Decision
action_of action =
    if action == "approve"
    then some approve
    else if action == "retry"
    then some retry
    else if action == "override"
    then some override
    else if action == "reject"
    then some reject
    else none

abbrev pub or_else {ℓ} : {A : Type ℓ} → ReviewError → Option A → Result ReviewError A
or_else e none = raise e
or_else e (some a) = ok a

unfoldable pub get_node : String → Db → Result ReviewError RunNodeExecution
unfolding first_where
get_node node_key db =
    or_else (no_node node_key)
      (first_where (λ (r : RunNodeExecution). r.node_key == node_key) db.nodes)

unfoldable pub require_approver : List String → String → Result ReviewError (Unit {0})
unfolding elem
require_approver approvers actor = check (elem actor approvers) not_approver

abbrev pub undecided : RunNodeExecution → Bool
undecided r = elim r.decision [ none ↦ true | some d ↦ false ]

-- UPDATE run_node_executions SET ... WHERE id=:id
unfoldable pub update_node : String → (RunNodeExecution → RunNodeExecution) → Db → Db
unfolding update_where
update_node node_id change db = record db {
  nodes = update_where (λ (r : RunNodeExecution). r.id == node_id) change db.nodes;
}

abbrev pub stamp_decided : ℕ → RunNodeExecution → RunNodeExecution
stamp_decided now r = record r { decided_at = some now }

-- The compare-and-set that the first decision wins, and the time of the decision.
unfoldable pub cas_or_conflict :
    String → NodeStatus → NodeStatus → (RunNodeExecution → RunNodeExecution) → Db → Reply (Unit {0})
unfolding transition_node_status update_node
cas_or_conflict node_id from to cols db =
    let (db', won) = transition_node_status node_id from to cols undecided db in
    if won
    then (ok tt, update_node node_id (stamp_decided db'.now) db')
    else (raise already_decided, db')

-- What a request for a decision carries beside the action.
pub record Request : Type 0 where
  pub actor : String
  pub guidance : Option String
  pub output : Option Json
  pub reason : Option String
  pub target_node_key : Option String
  pub request_id : String

abbrev or_empty : Option Json → Json
or_empty none = obj end
or_empty (some j) = j

-- The columns that each action sets, and the status that it leads to.
abbrev pub decision_cols : Decision → Request → RunNodeExecution → RunNodeExecution
decision_cols approve q r = record r { decided_by = some q.actor; decision = some approve }
decision_cols retry q r = record r {
  decided_by = some q.actor;
  decision = some retry;
  guidance = q.guidance;
}
decision_cols override q r = record r {
  decided_by = some q.actor;
  decision = some override;
  output = some (or_empty q.output);
}
decision_cols reject q r = record r {
  decision = some reject;
  reason = q.reason;
  decided_by = some q.actor;
}

abbrev pub decided_status : Decision → NodeStatus
decided_status approve = completed
decided_status retry = pending
decided_status override = completed
decided_status reject = awaiting_approval
