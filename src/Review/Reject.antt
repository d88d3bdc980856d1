-- ===== src/Review/Reject.antt =====
-- `record_decision` with the action reject: a request to roll back to a parent is filed, and
-- accepted at once if the parent has nobody who could confirm it.
use mathlib.Core.Option
use text.Mathlib.TextEquality.{eq_iff}
use text.Mathlib.TextPositions.{eq_refl}
use vaic2026_charcalavong.Prelude.{
  String, ◌≡◌, refl, sym, ap, ◌∙◌, subst, inl, inr, true, false, Option, none, some, List, [], ◌∷◌,
  ◌++◌, arith, if◌then◌else◌, ◌==◌, string_eq, pair_eq, nat_eq, ok, raise, elem, lookup, Bool-cases,
  beq-ne,
}
use vaic2026_charcalavong.Graph.{Edge, parents_by_key}
use vaic2026_charcalavong.Graph.Spec.{parents, edge}
use vaic2026_charcalavong.Graph.Valid.{assert_valid_graph_iff}
use vaic2026_charcalavong.Graph.Order.{source_known}
use vaic2026_charcalavong.Graph.Parents.{elem-parents, parents_by_key_lem}
use vaic2026_charcalavong.Store.{
  Db, RunNodeExecution, Snapshot, awaiting_approval, reject, node_decision, is_status, log,
}
use vaic2026_charcalavong.Store.Rows.{find, IsUnique, find-key}
use vaic2026_charcalavong.Engine.Types.{node_keys_of}
use vaic2026_charcalavong.Engine.Safe.{has_approvers, is_gated}
use vaic2026_charcalavong.Engine.Orchestrate.{IsReady}
use vaic2026_charcalavong.Review.Types.{
  ReviewError, bad_target, already_decided, Reply, lift, chain, action_of, get_node, undecided,
  cas_or_conflict, Request, decision_cols,
}
use vaic2026_charcalavong.Review.Rollback.{clear_node, graph_of, snapshot_of}
use vaic2026_charcalavong.Review.Decide.{
  decide, do_reject, find_target, file_rollback, auto_accept, new_request, add_request,
  list_or_empty, record_decision,
}
use vaic2026_charcalavong.Review.Rows.{get_node-eq}
use vaic2026_charcalavong.Review.Cas.{decided_row, cas_or_conflict-lost, cas_or_conflict-won}
use vaic2026_charcalavong.Review.Accept.{RolledBack, accept_rollback_lem}
use vaic2026_charcalavong.Review.Verdict.{record_decision-open}

-- The rejection is stored, and the request is filed.
pub record Filed (q : Request) (j t : String) (row' : RunNodeExecution) (db db' : Db) : Type 0 where
  pub found : (k : String) → find k db'.nodes ≡ (if j == k then some row' else find k db.nodes)
  pub unique : IsUnique db'.nodes
  pub same_run : db'.run ≡ db.run
  pub requests : db'.rollbacks ≡ db.rollbacks ++ new_request q j t ∷ []
  pub audit : db'.audit ≡ db.audit ++ node_decision reject j q.actor ∷ []

pub IsReady-kept :
    (snapshot : Snapshot) (db db' : Db)
    → IsReady snapshot db
    → db'.run ≡ db.run
    → IsUnique db'.nodes
    → ((k : String) (r : RunNodeExecution)
        → find k db.nodes ≡ some r
        → (r' : RunNodeExecution) × (find k db'.nodes ≡ some r'))
    → IsReady snapshot db'
IsReady-kept snapshot db db' ready same unique h = record {
  run = ready.run;
  has_run = same ∙ ready.has_run;
  has_snapshot = ready.has_snapshot;
  valid = ready.valid;
  unique = unique;
  rows = λ k m. let (r, e) = ready.rows k m in h k r e;
}

find_target-stranger :
    (snapshot : Snapshot) (j t : String)
    → elem (t, j) snapshot.edges ≡ false
    → find_target snapshot j (some t) ≡ raise bad_target
unfolding find_target elem
find_target-stranger snapshot j t f = ground (
  arith,
  f,
  parents_by_key_lem (node_keys_of snapshot) snapshot.edges j,
  elem-parents snapshot.edges t j,
)

-- What the target of a rejection is, once it is accepted.
pub find_target-inv :
    (snapshot : Snapshot) (j : String) (given : Option String) (t : String)
    → find_target snapshot j given ≡ ok t
    → (given ≡ some t) × ((t == "") ≡ false) × (elem (t, j) snapshot.edges ≡ true)
unfolding find_target
find_target-inv snapshot j none t e = cc
find_target-inv snapshot j (some u) t e = ground (
  arith,
  e,
  parents_by_key_lem (node_keys_of snapshot) snapshot.edges j,
  elem-parents snapshot.edges u j,
  elem-none u,
)
  where
    elem-none : (u : String) → elem u [] ≡ false
    elem-none u = refl

module _ (snapshot : Snapshot) (db : Db) (ready : IsReady snapshot db) (j : String) where
  table-at :
      elem j (node_keys_of snapshot) ≡ true
      → list_or_empty (lookup j (parents_by_key (node_keys_of snapshot) snapshot.edges))
        ≡ parents snapshot.edges j
  table-at m =
      ap list_or_empty (parents_by_key_lem (node_keys_of snapshot) snapshot.edges j)
      ∙ ap (λ b. list_or_empty (if b then some (parents snapshot.edges j) else none)) m

  pub find_target-parent :
      (t : String)
      → elem (t, j) snapshot.edges ≡ true
      → (t == "") ≡ false
      → find_target snapshot j (some t) ≡ ok t
  unfolding find_target
  find_target-parent t m f =
      let (w, ranked) =
        (assert_valid_graph_iff (node_keys_of snapshot) snapshot.edges).0 ready.valid in
      let known = source_known (node_keys_of snapshot) snapshot.edges t j w.ends m in
      let here : elem t
            (list_or_empty (lookup j (parents_by_key (node_keys_of snapshot) snapshot.edges)))
          ≡ true =
        ap (elem t) (table-at known.1) ∙ elem-parents snapshot.edges t j ∙ m in
      rw f (rw here refl)

-- Why a rejection is refused
pub data Refuses (edges : List Edge) (node_key : String) (target : Option String)
    (row : RunNodeExecution) : ReviewError → Type 0 where
  missing : target ≡ none → Refuses edges node_key target row bad_target
  empty : target ≡ some "" → Refuses edges node_key target row bad_target
  no_parent :
      (t : String)
      → target ≡ some t
      → elem (t, node_key) edges ≡ false
      → Refuses edges node_key target row bad_target
  decided_before :
      (t : String)
      → target ≡ some t
      → (t == "") ≡ false
      → elem (t, node_key) edges ≡ true
      → undecided row ≡ false
      → Refuses edges node_key target row already_decided

module _ (node_key action : String) (q : Request) (snapshot : Snapshot) (db : Db)
    (ready : IsReady snapshot db) (row : RunNodeExecution)
    (found : find node_key db.nodes ≡ some row) (named : action_of action ≡ some reject)
    (awaits : is_status row.status awaiting_approval ≡ true)
    (approver : elem q.actor row.approver_user_ids ≡ true) where
  key : row.node_key ≡ node_key
  key = find-key node_key db.nodes row found

  abbrev reply : Reply RunNodeExecution
  reply = record_decision node_key action q db

  reject-eq :
      reply
      ≡ chain
          (lift
            (find_target snapshot node_key q.target_node_key)
            (λ target db2.
              chain
                (cas_or_conflict row.id awaiting_approval awaiting_approval
                  (decision_cols reject q)
                  db2)
                λ _ db3. file_rollback q row target db3)
            db)
          (λ _ db5. (get_node node_key db5, db5))
  unfolding decide do_reject
  reject-eq =
      record_decision-open node_key action q db row ready.unique found reject named awaits approver
      ∙ ap (λ o. chain (lift (graph_of o) (after row.node_key) db) last) ready.has_run
      ∙ ap (λ o. chain (lift (snapshot_of o) (after row.node_key) db) last) ready.has_snapshot
      ∙ ap (λ k. chain (after k snapshot db) last) key
    where
      last : Unit {0} → Db → Reply RunNodeExecution
      last u db5 = (get_node node_key db5, db5)

      after : String → Snapshot → Db → Reply (Unit {0})
      after k s db1 =
          lift (find_target s k q.target_node_key)
            (λ target db2.
              chain
                (cas_or_conflict row.id awaiting_approval awaiting_approval (decision_cols reject q)
                  db2)
                λ _ db3. file_rollback q row target db3)
            db1

  refused-target :
      find_target snapshot node_key q.target_node_key ≡ raise bad_target
      → reply ≡ (raise bad_target, db)
  refused-target e = reject-eq ∙ rw e refl

  -- Conditions: the run is ready, an approver of a node that awaits a decision rejects it, and there
  -- is a reason to refuse: the request names no target, an empty one, or one that has no edge to
  -- the node; or it names a parent, but the node has a decision already. Then the call raises the
  -- error of a bad target, or in the last case that of a decided node, and the tables stay.
  pub record_decision_reject_refused :
      (e : ReviewError)
      → Refuses snapshot.edges node_key q.target_node_key row e
      → record_decision node_key action q db ≡ (raise e, db)
  unfolding find_target
  record_decision_reject_refused e (missing m) =
      refused-target (ap (find_target snapshot node_key) m)
  record_decision_reject_refused e (empty m) = refused-target (ap (find_target snapshot node_key) m)
  record_decision_reject_refused e (no_parent t m f) =
      refused-target
        (ap (find_target snapshot node_key) m ∙ find_target-stranger snapshot node_key t f)
  record_decision_reject_refused e (decided_before t m full parent late) =
      reject-eq
      ∙ rw
          (ap (find_target snapshot node_key) m
            ∙ find_target-parent snapshot db ready node_key t parent full)
          (rw (cas_or_conflict-lost node_key row db ready.unique found reject q (ground arith))
            refl)

  pub record_decision_reject_bad :
      (e : ReviewError)
      → find_target snapshot node_key q.target_node_key ≡ raise e
      → record_decision node_key action q db ≡ (raise e, db)
  record_decision_reject_bad e bad = reject-eq ∙ rw bad refl

  module _ (t : String) (given : q.target_node_key ≡ some t) (full : (t == "") ≡ false)
      (parent : elem (t, node_key) snapshot.edges ≡ true) (fresh : undecided row ≡ true) where
    abbrev row' : RunNodeExecution
    row' = decided_row reject q db.now row

    target_ok : find_target snapshot node_key q.target_node_key ≡ ok t
    target_ok =
        ap (find_target snapshot node_key) given
        ∙ find_target-parent snapshot db ready node_key t parent full

    known : elem t (node_keys_of snapshot) ≡ true
    known =
        let (w, ranked) =
          (assert_valid_graph_iff (node_keys_of snapshot) snapshot.edges).0 ready.valid in
        (source_known (node_keys_of snapshot) snapshot.edges t node_key w.ends parent).0

    Filed-eq :
        (db1 : Db) × Filed q node_key t row' db db1
        × (reply
            ≡ chain
                (lift
                  (get_node t db1)
                  (λ target_row.
                    auto_accept (new_request q node_key t) target_row.approver_user_ids)
                  db1)
                (λ _ db5. (get_node node_key db5, db5)))
    unfolding file_rollback
    Filed-eq =
        let (db', e, a) =
          cas_or_conflict-won node_key row db ready.unique found reject q (ground arith) in
        (
          log (node_decision reject node_key q.actor) (add_request (new_request q node_key t) db'),
          record {
            found = a.found;
            unique = a.unique;
            same_run = a.same_run;
            requests = ap (λ l. l ++ new_request q node_key t ∷ []) a.same_rollbacks;
            audit = ap (λ l. l ++ node_decision reject node_key q.actor ∷ []) a.same_audit;
          },
          reject-eq
              ∙ rw target_ok (
                  rw e (
                    ap
                      (λ k.
                        chain
                          (lift
                            (get_node t (
                              log (node_decision reject k q.actor)
                                (add_request (new_request q k t) db')))
                            (λ target_row.
                              auto_accept (new_request q k t) target_row.approver_user_ids)
                            (log (node_decision reject k q.actor)
                              (add_request (new_request q k t) db')))
                          (λ _ db5. (get_node node_key db5, db5)))
                      key)),
        )

    kept :
        (db1 : Db)
        → Filed q node_key t row' db db1
        → (k : String) (r : RunNodeExecution) → find k db.nodes ≡ some r
        → (r' : RunNodeExecution) × (find k db1.nodes ≡ some r')
          × (r'.approver_user_ids ≡ r.approver_user_ids)
    unfolding decided_row
    kept db1 a k r e = elim (Bool-cases (node_key == k)) [
      | inl t ↦ (
        row',
        a.found k ∙ rw t refl,
        ground
            (arith, found, e, eq_iff node_key k, ap (λ x. find x db.nodes) {x = node_key} {y = k}),
      )
      | inr f ↦ (r, a.found k ∙ rw f e, refl)
    ]

    abbrev rest : Db → List String → Reply RunNodeExecution
    unfolding auto_accept get_node
    rest db1 uids =
        chain (auto_accept (new_request q node_key t) uids db1)
          (λ _ db5. (get_node node_key db5, db5))

    abbrev Call : Db → Type 0
    Call db1 =
        reply
        ≡ chain
            (lift (get_node t db1)
              (λ target_row. auto_accept (new_request q node_key t) target_row.approver_user_ids)
              db1)
            (λ _ db5. (get_node node_key db5, db5))

    called :
        (db1 : Db)
        → Filed q node_key t row' db db1
        → Call db1
        → (uids : List String) × (is_gated db t ≡ has_approvers uids) × (reply ≡ rest db1 uids)
    unfolding rest
    called db1 a e =
        let (r, old) = ready.rows t known in
        let (r', new, same) = kept db1 a t r old in
        (
          r.approver_user_ids,
          ap (λ o. elim o [ none ↦ false | some r ↦ has_approvers r.approver_user_ids ]) old,
          e
              ∙ ap
                  (λ o.
                    chain
                      (lift o
                        (λ target_row.
                          auto_accept (new_request q node_key t) target_row.approver_user_ids)
                        db1)
                      (λ _ db5. (get_node node_key db5, db5)))
                  (get_node-eq t db1 r' new)
              ∙ ap (rest db1) same,
        )

    waiting :
        (db1 : Db) (uids : List String)
        → Filed q node_key t row' db db1
        → has_approvers uids ≡ true
        → rest db1 uids ≡ (ok row', db1)
    unfolding rest auto_accept
    waiting db1 [] a h = cc
    waiting db1 (uid ∷ uids) a h =
        ap (λ r. (r, db1)) (get_node-eq node_key db1 row' (a.found node_key ∙ rw eq_refl refl))

    gated :
        (db1 : Db)
        → Filed q node_key t row' db db1
        → Call db1
        → is_gated db t ≡ true
        → reply ≡ (ok row', db1)
    gated db1 a e g =
        let (uids, same, e') = called db1 a e in e' ∙ waiting db1 uids a (sym same ∙ g)

    abbrev RollsBack : Db → Reply RunNodeExecution → Type 0
    RollsBack db1 out =
        (db' : Db) × (r : RunNodeExecution) × (out ≡ (ok r, db'))
        × RolledBack snapshot (new_request q node_key t) none db1 db'

    pub Filed-IsReady :
        (db1 : Db)
        → Filed q node_key t (decided_row reject q db.now row) db db1
        → IsReady snapshot db1
    Filed-IsReady db1 a =
        IsReady-kept snapshot db db1 ready a.same_run a.unique
          (λ k r e. let (r', e', same) = kept db1 a k r e in (r', e'))

    -- The node that was rejected is below the target, or the target itself.
    pub requester :
        (db1 db' : Db)
        → Filed q node_key t row' db db1
        → RolledBack snapshot (new_request q node_key t) none db1 db'
        → (r : RunNodeExecution) × (find node_key db'.nodes ≡ some r)
          × (is_status r.status awaiting_approval ≡ false)
    requester db1 db' a b =
        let at_key : find node_key db1.nodes ≡ some row' = a.found node_key ∙ rw eq_refl refl in
        elim (Bool-cases (node_key == t)) [
          | inl same ↦ (
            clear_node q.reason row',
            subst (λ k. find k db'.nodes ≡ Option.map (clear_node q.reason) (find k db1.nodes))
                  (sym ((eq_iff node_key t).0 same)) b.at_target
                ∙ ap (Option.map (clear_node q.reason)) at_key,
            refl,
          )
          | inr other ↦ (
            clear_node none row',
            b.below node_key (edge parent) (beq-ne node_key t other)
                ∙ ap (Option.map (clear_node none)) at_key,
            refl,
          )
        ]

    rolls_back :
        (db1 : Db) (uids : List String)
        → Filed q node_key t row' db db1
        → has_approvers uids ≡ false
        → RollsBack db1 (rest db1 uids)
    unfolding rest auto_accept
    rolls_back db1 (uid ∷ uids) a h = cc
    rolls_back db1 [] a h =
        let (db', e, b) =
          accept_rollback_lem snapshot (new_request q node_key t) none db1 (Filed-IsReady db1 a)
            known in
        let (r, at_key, reset) = requester db1 db' a b in
        (db', r, rw e (ap (λ r. (r, db')) (get_node-eq node_key db' r at_key)), b)

    automatic :
        (db1 : Db)
        → Filed q node_key t row' db db1
        → Call db1
        → is_gated db t ≡ false
        → RollsBack db1 reply
    automatic db1 a e g =
        let (uids, same, e') = called db1 a e in
        subst (RollsBack db1) (sym e') (rolls_back db1 uids a (sym same ∙ g))

    -- Conditions: the run is ready, an approver of a node that awaits a decision and has none
    -- rejects it, and the target is a parent of the node with a key that is not empty. Then a
    -- request is filed, whose requester is the node. If the target has approvers, that and the
    -- decision on the row are all that changes, and the request stays pending. Else the rollback to
    -- the target is carried out in the same call, with no deciding user.
    pub record_decision_reject :
        (db1 : Db) × Filed q node_key t (decided_row reject q db.now row) db db1
        × (is_gated db t ≡ true
            → record_decision node_key action q db ≡ (ok (decided_row reject q db.now row), db1))
        × (is_gated db t ≡ false
            → (db' : Db) × (r : RunNodeExecution) × (record_decision node_key action q db
                ≡ (ok r, db'))
              × RolledBack snapshot (new_request q node_key t) none db1 db')
    record_decision_reject =
        let (db1, a, e) = Filed-eq in (db1, a, gated db1 a e, automatic db1 a e)
