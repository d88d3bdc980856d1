-- ===== src/Store.antt =====
-- The tables that a graph run lives in (backend/app/modules/orchestrator/models.py), as one run
-- sees them: the queries' filters on `run_id` and the tenant's row-level security are the scope of
-- a `Db`. Ids, user ids and texts are strings; times are numbers of a clock that `now` reads.
-- `tenant_id` and `created_at` are left out: no operation tests them.
pub mod Rows
use vaic2026_charcalavong.Prelude.{
  ℕ, zero, suc, ◌+◌, String, Bool, true, false, ◌&&◌, Option, none, some, List, [], ◌∷◌, ◌++◌, map,
  if◌then◌else◌, ◌==◌, nat_eq, string_eq, Dict, put_all, Equality,
}
use vaic2026_charcalavong.Graph.{Edge}

-- The value of a JSONB column; numbers are kept as they are written.
mutual
  pub data Json : Type 0 where
    null : Json
    truth : Bool → Json
    num str : String → Json
    arr : Items → Json
    obj : Fields → Json

  pub data Items : Type 0 where
    nil : Items
    item : Json → Items → Items

  pub data Fields : Type 0 where
    end : Fields
    field : String → Json → Fields → Fields

-- RUN_STATUSES, NODE_EXECUTION_STATUSES, TASK_STATUSES, ROLLBACK_STATUSES. A name that two of
-- them share carries the table's.
pub data RunStatus : Type 0 where
  run_pending run_running awaiting_human run_completed completed_with_failures run_failed
        timed_out :
      RunStatus

pub data NodeStatus : Type 0 where
  pending running awaiting_approval completed failed rejected skipped rolled_back : NodeStatus

pub data TaskStatus : Type 0 where
  task_pending claimed task_completed task_failed : TaskStatus

pub data RollbackStatus : Type 0 where
  rollback_pending accepted refused : RollbackStatus

pub data Decision : Type 0 where
  approve retry override reject : Decision

abbrev pub run_code : RunStatus → ℕ
run_code run_pending = 0
run_code run_running = 1
run_code awaiting_human = 2
run_code run_completed = 3
run_code completed_with_failures = 4
run_code run_failed = 5
run_code timed_out = 6

abbrev pub node_code : NodeStatus → ℕ
node_code pending = 0
node_code running = 1
node_code awaiting_approval = 2
node_code completed = 3
node_code failed = 4
node_code rejected = 5
node_code skipped = 6
node_code rolled_back = 7

-- `status = ...` on the enumerations
abbrev pub is_run_status : RunStatus → RunStatus → Bool
is_run_status s t = run_code s == run_code t

abbrev pub is_status : NodeStatus → NodeStatus → Bool
is_status s t = node_code s == node_code t

pub record SnapshotNode : Type 0 where
  pub node_key : String
  pub label : String
  pub agent_id : String
  pub config : Json
  pub approver_user_ids : List String

-- `graph_snapshot`
pub record Snapshot : Type 0 where
  pub nodes : List SnapshotNode
  pub edges : List Edge

pub record WorkflowRun : Type 0 where
  pub id : String
  pub workflow_id : String
  pub status : RunStatus
  pub input : Option Json
  pub result : Option Json
  pub graph_snapshot : Option Snapshot
  pub started_at : Option ℕ
  pub ended_at : Option ℕ

pub record RunNodeExecution : Type 0 where
  pub id : String
  pub node_key : String
  pub agent_id : String
  pub status : NodeStatus
  pub input : Option Json
  pub output : Option Json
  pub approver_user_ids : List String
  pub decision : Option Decision
  pub decided_by : Option String
  pub reason : Option String
  pub guidance : Option String
  pub decided_at : Option ℕ
  pub started_at : Option ℕ
  pub completed_at : Option ℕ

pub record RunRollbackRequest : Type 0 where
  pub id : String
  pub requester_node_key : String
  pub target_node_key : String
  pub reason : Option String
  pub refuse_reason : Option String
  pub status : RollbackStatus
  pub decided_by : Option String
  pub decided_at : Option ℕ

pub record Task : Type 0 where
  pub id : String
  pub target_agent_id : String
  pub status : TaskStatus
  pub schema_payload : Json
  pub result : Option Json
  pub claimed_at : Option ℕ
  pub completed_at : Option ℕ

-- The audit entries that these modules write, with what each reports. The fresh step id and the
-- time stamp are left out.
pub data AuditEntry : Type 0 where
  run_transition : RunStatus → RunStatus → ℕ → AuditEntry
  task_transition : TaskStatus → TaskStatus → ℕ → AuditEntry
  node_failed : String → String → AuditEntry
  node_decision : Decision → String → String → AuditEntry
  rollback_accepted : String → String → List String → AuditEntry
  rollback_refused : String → String → AuditEntry
  task_executed : String → Json → AuditEntry
  task_broke : String → String → AuditEntry
  aggregated : Json → AuditEntry

-- create_notification, with the reference that it carries
pub record Notification : Type 0 where
  pub user_id : String
  pub title : String
  pub node_key : String

-- What `execute_task` is called with: `_build_node_payload` without its constant fields.
pub record TaskPayload : Type 0 where
  pub summary : String
  pub target_agent_id : String
  pub input : Json
  pub criteria : Json

-- `calls` lists the calls of the executor, oldest first: it is no table, but what the outside
-- world has seen of the run.
pub record Db : Type 0 where
  pub run : Option WorkflowRun
  pub nodes : List RunNodeExecution
  pub rollbacks : List RunRollbackRequest
  pub tasks : List Task
  pub audit : List AuditEntry
  pub notifications : List Notification
  pub calls : List TaskPayload
  pub now : ℕ

-- `x or {}`, of a column that holds an object or null
abbrev pub or_braces : Json → Json
or_braces null = obj end
or_braces j = j

-- UPDATE ... SET ... WHERE, and its `rowcount`
unfoldable pub update_where {ℓ} : {A : Type ℓ} → (A → Bool) → (A → A) → List A → List A
update_where hit change [] = []
update_where hit change (r ∷ rows) = (if hit r then change r else r) ∷ update_where hit change rows

unfoldable pub count_where {ℓ} : {A : Type ℓ} → (A → Bool) → List A → ℕ
count_where hit [] = 0
count_where hit (r ∷ rows) = if hit r then suc (count_where hit rows) else count_where hit rows

-- `.filter(...).first()`
unfoldable pub first_where {ℓ} : {A : Type ℓ} → (A → Bool) → List A → Option A
first_where hit [] = none
first_where hit (r ∷ rows) = if hit r then some r else first_where hit rows

-- {r.node_key: r for r in rows}
unfoldable pub by_key : List RunNodeExecution → Dict String RunNodeExecution
unfolding put_all
by_key rows = put_all [] (map (λ (r : RunNodeExecution). (r.node_key, r)) rows)

-- One more audit row, in a transaction of its own.
abbrev pub log : AuditEntry → Db → Db
log entry db = record db { audit = db.audit ++ entry ∷ [] }
