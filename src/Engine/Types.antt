-- ===== src/Engine/Types.antt =====
-- graph_engine.py: what the engine is given and what it may raise, and `load_graph`.
use vaic2026_charcalavong.Prelude.{
  ℕ, String, Bool, Option, none, some, List, [], map, string_eq, Result, ok, raise, Dict, lookup,
  put_all,
}
use vaic2026_charcalavong.Graph.{Edge, GraphError}
use vaic2026_charcalavong.Store.{Json, Db, Snapshot, SnapshotNode, TaskPayload}

-- What an exception carries out of the engine. `diverged` stands for a loop without an end.
pub data EngineError : Type 0 where
  run_not_found no_snapshot : EngineError
  key_error agent_not_found : String → EngineError
  graph_error : GraphError → EngineError
  diverged : EngineError

-- What `execute_task` does: it raises, or returns a result with its `success` and `output`.
pub data Attempt : Type 0 where
  raised : String → Attempt
  returned : Bool → Json → Attempt

-- The agents' departments, the executor (by the number of earlier
-- calls, the agent, the payload and the department), the workflow's name, and
-- whether the insertion of notifications fails.
pub record World : Type 0 where
  pub department : String → Option String
  pub execute : ℕ → String → TaskPayload → String → Attempt
  pub workflow_name : Option String
  pub notify_fails : Bool

abbrev pub Outcome {ℓ} : Type ℓ → Type ℓ
Outcome A = Result EngineError A × Db

-- A pure step that may raise, before one that works on the tables; and two of the latter.
abbrev pub lift {ℓ κ} :
    {A : Type ℓ} {B : Type κ} → Result EngineError A → (A → Db → Outcome B) → Db → Outcome B
lift (raise e) f db = (raise e, db)
lift (ok a) f db = f a db

abbrev pub chain {ℓ κ} : {A : Type ℓ} {B : Type κ} → Outcome A → (A → Db → Outcome B) → Outcome B
chain (raise e, db) f = (raise e, db)
chain (ok a, db) f = f a db

-- `load_graph`, with the tables that are computed once at the entry
pub record Plan : Type 0 where
  pub run_id : String
  pub node_keys : List String
  pub nodes_by_key : Dict String SnapshotNode
  pub edges : List Edge
  pub parents : Dict String (List String)
  pub order : List String

abbrev pub node_keys_of : Snapshot → List String
node_keys_of snapshot = map (λ (n : SnapshotNode). n.node_key) snapshot.nodes

unfoldable pub index_nodes : Snapshot → Dict String SnapshotNode
unfolding put_all
index_nodes snapshot = put_all [] (map (λ (n : SnapshotNode). (n.node_key, n)) snapshot.nodes)

abbrev pub of_option {ℓ} : {A : Type ℓ} → EngineError → Option A → Result EngineError A
of_option e none = raise e
of_option e (some a) = ok a

-- d[k]
unfoldable pub fetch {ℓ} : {V : Type ℓ} → Dict String V → String → Result EngineError V
fetch d k = of_option (key_error k) (lookup k d)
