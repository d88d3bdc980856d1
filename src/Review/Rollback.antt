-- ===== src/Review/Rollback.antt =====
-- graph_review.py: accepting, refusing and confirming a rollback.
use Prim.Native.Nat.{lt, eq, gt}
use Prim.Native.String.{compare}
use vaic2026_charcalavong.Prelude.{
  ℕ, String, Bool, true, false, Option, none, some, List, [], ◌∷◌, if◌then◌else◌, ◌==◌, string_eq,
  Result, ok, raise,
}
use vaic2026_charcalavong.Graph.{GraphError, descendants}
use vaic2026_charcalavong.Store.{
  Db, WorkflowRun, RunNodeExecution, RunRollbackRequest, Snapshot, pending, rolled_back,
  RollbackStatus, accepted, refused, rollback_accepted, rollback_refused, update_where, first_where,
  log,
}
use vaic2026_charcalavong.Engine.Types.{node_keys_of}
use vaic2026_charcalavong.Engine.Node.{is_rollback_pending}
use vaic2026_charcalavong.Review.Types.{
  ReviewError, already_resolved, no_run, no_rollback, no_graph, graph_failure, Reply, lift, chain,
  check, or_else, get_node, require_approver, update_node,
}

unfoldable pub update_request : String → (RunRollbackRequest → RunRollbackRequest) → Db → Db
unfolding update_where
update_request request_id change db = record db {
  rollbacks = update_where (λ (r : RunRollbackRequest). r.id == request_id) change db.rollbacks;
}

abbrev pub clear_node : Option String → RunNodeExecution → RunNodeExecution
clear_node guidance r = record r {
  status = pending;
  output = none;
  decision = none;
  decided_by = none;
  reason = none;
  guidance = guidance;
  decided_at = none;
  started_at = none;
  completed_at = none;
  input = none;
}

unfoldable pub reset_node_to_pending : String → Option String → Db → Db
unfolding update_node
reset_node_to_pending node_id guidance db = update_node node_id (clear_node guidance) db

-- Without a commit the tables are as they were.
abbrev pub undo_on_error : Db → Reply (Unit {0}) → Reply (Unit {0})
undo_on_error old (raise e, db) = (raise e, old)
undo_on_error old (ok u, db) = (ok u, db)

abbrev pub mark : RunNodeExecution → RunNodeExecution
mark r = record r { status = rolled_back }

-- status='rolled_back' for every key; one commit at the end, so a missing node leaves no mark
unfoldable pub mark_rolled_back : List String → Db → Reply (Unit {0})
unfolding get_node update_node
mark_rolled_back [] db = (ok tt, db)
mark_rolled_back (key ∷ keys) db =
    undo_on_error db
      (lift (get_node key db) (λ node db'. mark_rolled_back keys (update_node node.id mark db')) db)

-- `_reset_node_to_pending` for every key, each with its commit
unfoldable pub reset_all : List String → Db → Reply (Unit {0})
unfolding get_node reset_node_to_pending
reset_all [] db = (ok tt, db)
reset_all (key ∷ keys) db =
    lift (get_node key db) (λ node db'. reset_all keys (reset_node_to_pending node.id none db')) db

-- `_load_run`, and the graph of the run
abbrev pub snapshot_of : Option Snapshot → Result ReviewError Snapshot
snapshot_of none = raise no_graph
snapshot_of (some s) = ok s

abbrev pub graph_of : Option WorkflowRun → Result ReviewError Snapshot
graph_of none = raise no_run
graph_of (some run) = snapshot_of run.graph_snapshot

abbrev pub of_graph : Result GraphError (List String) → Result ReviewError (List String)
of_graph (raise e) = raise (graph_failure e)
of_graph (ok keys) = ok keys

abbrev pub accept_cols : Option String → ℕ → RunRollbackRequest → RunRollbackRequest
accept_cols decided_by now r = record r {
  status = accepted;
  decided_by = decided_by;
  decided_at = some now;
}

abbrev pub refuse_cols : String → Option String → ℕ → RunRollbackRequest → RunRollbackRequest
refuse_cols decided_by refuse_reason now r = record r {
  status = refused;
  decided_by = some decided_by;
  refuse_reason = refuse_reason;
  decided_at = some now;
}

-- What happens to the nodes: the keys below the target are marked and reset, then the target.
-- Python orders texts by their characters' codes.
abbrev is_after : String → String → Bool
is_after a b = elim (compare a b) [ lt ↦ false | eq ↦ false | gt ↦ true ]

unfoldable pub insert_text : String → List String → List String
insert_text a [] = a ∷ []
insert_text a (b ∷ bs) = if is_after a b then b ∷ insert_text a bs else a ∷ b ∷ bs

unfoldable pub sorted : List String → List String
unfolding insert_text
sorted [] = []
sorted (a ∷ rest) = insert_text a (sorted rest)

unfoldable pub roll_back : RunRollbackRequest → List String → Db → Reply (Unit {0})
unfolding mark_rolled_back reset_all get_node reset_node_to_pending sorted
roll_back req below db = chain (mark_rolled_back below db) λ _ db1.
    chain (reset_all below db1) λ _ db2.
      lift (get_node req.target_node_key db2)
        (λ target db3. (
          ok tt,
          log (rollback_accepted req.target_node_key req.requester_node_key (sorted below))
              (reset_node_to_pending target.id req.reason db3),
        ))
        db2

unfoldable pub accept_rollback : RunRollbackRequest → Option String → Db → Reply (Unit {0})
unfolding update_request descendants roll_back
accept_rollback req decided_by db =
    let db1 = update_request req.id (accept_cols decided_by db.now) db in
    lift (graph_of db1.run)
      (λ snapshot db2.
        lift (of_graph (descendants (node_keys_of snapshot) snapshot.edges req.target_node_key))
          (roll_back req) db2)
      db1

abbrev pub clear_decision : RunNodeExecution → RunNodeExecution
clear_decision r = record r { decision = none; decided_by = none; reason = none; decided_at = none }

unfoldable pub refuse_rollback : RunRollbackRequest → String → Option String → Db → Reply (Unit {0})
unfolding update_request get_node update_node
refuse_rollback req decided_by refuse_reason db =
    let db1 = update_request req.id (refuse_cols decided_by refuse_reason db.now) db in
    lift (get_node req.requester_node_key db1)
      (λ node db2. (
        ok tt,
        log (rollback_refused req.target_node_key req.requester_node_key)
            (update_node node.id clear_decision db2),
      ))
      db1

-- session.get(RunRollbackRequest, id)
unfoldable pub get_request : String → Db → Result ReviewError RunRollbackRequest
unfolding first_where
get_request rollback_id db =
    or_else no_rollback (first_where (λ (r : RunRollbackRequest). r.id == rollback_id) db.rollbacks)

-- `accept` or refuse, once the request is pending and the caller may decide.
unfoldable pub settle_rollback :
    Bool → RunRollbackRequest → String → Option String → Db → Reply (Unit {0})
unfolding accept_rollback refuse_rollback
settle_rollback true req actor refuse_reason db = accept_rollback req (some actor) db
settle_rollback false req actor refuse_reason db = refuse_rollback req actor refuse_reason db

unfoldable pub confirm_rollback : String → Bool → String → Option String → Db → Reply RollbackStatus
unfolding get_request get_node require_approver settle_rollback
confirm_rollback rollback_id accept actor refuse_reason db =
    lift (get_request rollback_id db)
      (λ req db1.
        lift (check (is_rollback_pending req) already_resolved)
          (λ _ db2.
            lift (get_node req.target_node_key db2)
              (λ target db3.
                lift (require_approver target.approver_user_ids actor)
                  (λ _ db4.
                    chain (settle_rollback accept req actor refuse_reason db4)
                      λ _ db5. (ok (if accept then accepted else refused), db5))
                  db3)
              db2)
          db1)
      db
