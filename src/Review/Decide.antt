-- ===== src/Review/Decide.antt =====
-- graph_review.py: `record_decision`.
use vaic2026_charcalavong.Prelude.{
  String, not, ◌&&◌, Option, none, some, List, [], ◌∷◌, ◌++◌, elem, if◌then◌else◌, ◌==◌, string_eq,
  Result, ok, raise, lookup,
}
use vaic2026_charcalavong.Graph.{parents_by_key}
use vaic2026_charcalavong.Store.{
  Db, RunNodeExecution, RunRollbackRequest, Snapshot, awaiting_approval, rollback_pending, Decision,
  reject, node_decision, is_status, log,
}
use vaic2026_charcalavong.Engine.Types.{node_keys_of}
use vaic2026_charcalavong.Review.Types.{
  ReviewError, invalid_action, bad_target, not_awaiting, Reply, lift, chain, check, action_of,
  or_else, get_node, require_approver, cas_or_conflict, Request, decision_cols, decided_status,
}
use vaic2026_charcalavong.Review.Rollback.{graph_of, accept_rollback}

-- `not target_node_key or target_node_key not in parents.get(row.node_key, [])`
abbrev pub list_or_empty : Option (List String) → List String
list_or_empty none = []
list_or_empty (some ps) = ps

unfoldable pub find_target : Snapshot → String → Option String → Result ReviewError String
unfolding parents_by_key elem lookup
find_target snapshot node_key none = raise bad_target
find_target snapshot node_key (some target) =
    if not (target == "")
      && elem target
          (list_or_empty (lookup node_key (parents_by_key (node_keys_of snapshot) snapshot.edges)))
    then ok target
    else raise bad_target

abbrev pub new_request : Request → String → String → RunRollbackRequest
new_request q requester target = record {
  id = q.request_id;
  requester_node_key = requester;
  target_node_key = target;
  reason = q.reason;
  refuse_reason = none;
  status = rollback_pending;
  decided_by = none;
  decided_at = none;
}

abbrev pub add_request : RunRollbackRequest → Db → Db
add_request req db = record db { rollbacks = db.rollbacks ++ req ∷ [] }

-- An automatic parent has no approver who could confirm: the rollback is accepted at once.
unfoldable pub auto_accept : RunRollbackRequest → List String → Db → Reply (Unit {0})
unfolding accept_rollback
auto_accept req [] db = accept_rollback req none db
auto_accept req (uid ∷ uids) db = (ok tt, db)

unfoldable pub file_rollback : Request → RunNodeExecution → String → Db → Reply (Unit {0})
unfolding get_node auto_accept
file_rollback q row target db =
    let req = new_request q row.node_key target in
    let db1 = log (node_decision reject row.node_key q.actor) (add_request req db) in
    lift (get_node target db1) (λ target_row. auto_accept req target_row.approver_user_ids) db1

unfoldable pub do_reject : Request → RunNodeExecution → Db → Reply (Unit {0})
unfolding find_target cas_or_conflict file_rollback
do_reject q row db =
    lift (graph_of db.run)
      (λ snapshot db1.
        lift (find_target snapshot row.node_key q.target_node_key)
          (λ target db2.
            chain
              (cas_or_conflict row.id awaiting_approval awaiting_approval (decision_cols reject q)
                db2)
              λ _ db3. file_rollback q row target db3)
          db1)
      db

-- The branch on `action`, with the audit entry of the decision.
unfoldable pub decide : Decision → Request → RunNodeExecution → Db → Reply (Unit {0})
unfolding cas_or_conflict do_reject
decide reject q row db = do_reject q row db
decide action q row db =
    chain
      (cas_or_conflict row.id awaiting_approval (decided_status action) (decision_cols action q) db)
      λ _ db'. (ok tt, log (node_decision action row.node_key q.actor) db')

unfoldable pub record_decision : String → String → Request → Db → Reply RunNodeExecution
unfolding get_node require_approver decide
record_decision node_key action q db =
    lift (or_else invalid_action (action_of action))
      (λ decision db1.
        lift (get_node node_key db1)
          (λ row db2.
            lift (check (is_status row.status awaiting_approval) not_awaiting)
              (λ _ db3.
                lift (require_approver row.approver_user_ids q.actor)
                  (λ _ db4. chain (decide decision q row db4) λ _ db5. (get_node node_key db5, db5))
                  db3)
              db2)
          db1)
      db
