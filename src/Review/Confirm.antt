-- ===== src/Review/Confirm.antt =====
-- `confirm_rollback`: the guards, acceptance by an approver of the target, and refusal.
use mathlib.Core.Option
use vaic2026_charcalavong.Prelude.{
  String, ◌≡◌, refl, ap, ◌∙◌, inl, inr, Bool, true, false, Option, none, some, [], ◌∷◌, ◌++◌, arith,
  if◌then◌else◌, ◌==◌, string_eq, ok, raise, elem, Bool-cases,
}
use vaic2026_charcalavong.Store.{
  Db, RunRollbackRequest, Snapshot, RollbackStatus, accepted, refused, rollback_refused,
  update_where, log,
}
use vaic2026_charcalavong.Store.Rows.{find, IsUnique, Keeps}
use vaic2026_charcalavong.Engine.Types.{node_keys_of}
use vaic2026_charcalavong.Engine.Node.{is_rollback_pending}
use vaic2026_charcalavong.Engine.Orchestrate.{IsReady}
use vaic2026_charcalavong.Review.Types.{
  already_resolved, not_approver, Reply, lift, chain, require_approver, update_node,
}
use vaic2026_charcalavong.Review.Rollback.{
  update_request, refuse_cols, clear_decision, refuse_rollback, get_request, settle_rollback,
  confirm_rollback,
}
use vaic2026_charcalavong.Review.Rows.{get_node-eq, Updated-one}
use vaic2026_charcalavong.Review.Accept.{RolledBack, accept_rollback_lem}

-- The refusal of a request: the node that asked is open for another decision.
pub record Refused (req : RunRollbackRequest) (actor : String) (refuse_reason : Option String)
    (db db' : Db) : Type 0 where
  pub found :
      (k : String)
      → find k db'.nodes ≡ (
          if req.requester_node_key == k
          then Option.map clear_decision (find k db.nodes)
          else find k db.nodes)
  pub unique : IsUnique db'.nodes
  pub same_run : db'.run ≡ db.run
  pub requests :
      db'.rollbacks
      ≡ update_where
          (λ (r : RunRollbackRequest). r.id == req.id)
          (refuse_cols actor refuse_reason db.now)
          db.rollbacks
  pub audit :
      db'.audit ≡ db.audit ++ rollback_refused req.target_node_key req.requester_node_key ∷ []

clear_decision-Keeps : Keeps clear_decision
clear_decision-Keeps = record {
  same_key = λ r. refl;
  same_id = λ r. refl;
  same_approvers = λ r. refl;
}

refuse_rollback_lem :
    (snapshot : Snapshot) (req : RunRollbackRequest) (actor : String)
    (refuse_reason : Option String) (db : Db)
    → IsReady snapshot db
    → elem req.requester_node_key (node_keys_of snapshot) ≡ true
    → (db' : Db) × (refuse_rollback req actor refuse_reason db ≡ (ok tt, db'))
      × Refused req actor refuse_reason db db'
unfolding refuse_rollback update_request
refuse_rollback_lem snapshot req actor refuse_reason db ready known =
    let db1 = update_request req.id (refuse_cols actor refuse_reason db.now) db in
    let (r, e) = ready.rows req.requester_node_key known in
    let a =
      Updated-one clear_decision clear_decision-Keeps req.requester_node_key r db1 ready.unique e in
    (
      log (rollback_refused req.target_node_key req.requester_node_key)
          (update_node r.id clear_decision db1),
      ap
          (λ o.
            lift o
              (λ node db2. (
                ok tt,
                log (rollback_refused req.target_node_key req.requester_node_key)
                    (update_node node.id clear_decision db2),
              ))
              db1)
          (get_node-eq req.requester_node_key db1 r e),
      record {
        found = a.found;
        unique = a.unique;
        same_run = a.same_run;
        requests = a.same_rollbacks;
        audit =
            ap (λ l. l ++ rollback_refused req.target_node_key req.requester_node_key ∷ [])
              a.same_audit;
      },
    )

-- The user may confirm: an approver of the target.
abbrev pub may_confirm : RunRollbackRequest → String → Db → Bool
unfolding find elem
may_confirm req actor db = elim (find req.target_node_key db.nodes) [
  | none ↦ false
  | some r ↦ elem actor r.approver_user_ids
]

module _ (rollback_id : String) (accept : Bool) (actor : String) (refuse_reason : Option String)
    (snapshot : Snapshot) (db : Db) (ready : IsReady snapshot db) (req : RunRollbackRequest)
    (named : get_request rollback_id db ≡ ok req)
    (target_known : elem req.target_node_key (node_keys_of snapshot) ≡ true)
    (requester_known : elem req.requester_node_key (node_keys_of snapshot) ≡ true) where
  settled : Reply RollbackStatus
  settled =
      chain (settle_rollback accept req actor refuse_reason db)
        (λ _ db5. (ok (if accept then accepted else refused), db5))

  confirm_rollback-guards : confirm_rollback rollback_id accept actor refuse_reason db ≡ (
      if is_rollback_pending req
      then (if may_confirm req actor db then settled else (raise not_approver, db))
      else (raise already_resolved, db))
  unfolding confirm_rollback require_approver settled may_confirm
  confirm_rollback-guards =
      let (r, e) = ready.rows req.target_node_key target_known in
      rw named (elim (Bool-cases (is_rollback_pending req)) [
        | inr f ↦ rw f refl
        | inl t ↦ rw t (
            rw (get_node-eq req.target_node_key db r e)
              (elim (Bool-cases (elem actor r.approver_user_ids)) [
                | inl a ↦ ground (arith, a, e)
                | inr n ↦ ground (arith, n, e)
              ]))
      ])

  -- Conditions: the run is ready, the request is in the table, and its two nodes are nodes of the
  -- snapshot. A request that has been resolved, and then a caller who is no approver of the target,
  -- raise their errors, and the tables stay. Else acceptance rolls the graph back to the target,
  -- and refusal clears the requester's decision and marks the request, and nothing more.
  pub confirm_rollback_lem :
      (is_rollback_pending req ≡ false
        → confirm_rollback rollback_id accept actor refuse_reason db ≡ (raise already_resolved, db))
      × (is_rollback_pending req ≡ true
          → may_confirm req actor db ≡ false
          → confirm_rollback rollback_id accept actor refuse_reason db ≡ (raise not_approver, db))
      × (is_rollback_pending req ≡ true
          → may_confirm req actor db ≡ true
          → accept ≡ true
          → (db' : Db) × (confirm_rollback rollback_id accept actor refuse_reason db
              ≡ (ok accepted, db'))
            × RolledBack snapshot req (some actor) db db')
      × (is_rollback_pending req ≡ true
          → may_confirm req actor db ≡ true
          → accept ≡ false
          → (db' : Db) × (confirm_rollback rollback_id accept actor refuse_reason db
              ≡ (ok refused, db'))
            × Refused req actor refuse_reason db db')
  unfolding settled settle_rollback
  confirm_rollback_lem = (
    λ f. confirm_rollback-guards ∙ rw f refl,
    λ t f. confirm_rollback-guards ∙ rw t (rw f refl),
    λ t m a.
        let (db', e, b) = accept_rollback_lem snapshot req (some actor) db ready target_known in
        (db', confirm_rollback-guards ∙ rw t (rw m (rw a (rw e refl))), b),
    λ t m a.
        let (db', e, b) =
          refuse_rollback_lem snapshot req actor refuse_reason db ready requester_known in
        (db', confirm_rollback-guards ∙ rw t (rw m (rw a (rw e refl))), b),
  )
