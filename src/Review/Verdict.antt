-- ===== src/Review/Verdict.antt =====
-- `record_decision` on every branch: who is refused with what, and what a decision changes.
use text.Mathlib.TextPositions.{eq_refl}
use vaic2026_charcalavong.Prelude.{
  String, ◌≡◌, refl, ap, ◌∙◌, inl, inr, Bool, true, false, not, ◌&&◌, Option, none, some, [], ◌∷◌,
  ◌++◌, arith, if◌then◌else◌, ◌==◌, string_eq, pair_eq, nat_eq, ok, raise, elem, Bool-cases,
}
use vaic2026_charcalavong.Store.{
  Db, RunNodeExecution, awaiting_approval, Decision, approve, retry, override, reject, AuditEntry,
  node_decision, is_status, log,
}
use vaic2026_charcalavong.Store.Rows.{find, IsUnique, find-key}
use vaic2026_charcalavong.Review.Types.{
  ReviewError, invalid_action, not_awaiting, already_decided, not_approver, lift, chain, check,
  action_of, or_else, get_node, require_approver, undecided, cas_or_conflict, Request,
  decision_cols, decided_status,
}
use vaic2026_charcalavong.Review.Decide.{decide, record_decision}
use vaic2026_charcalavong.Review.Rows.{get_node-eq}
use vaic2026_charcalavong.Review.Cas.{
  decided_row, Replaced, cas_or_conflict-lost, cas_or_conflict-won,
}

abbrev pub is_direct : Decision → Bool
is_direct reject = false
is_direct _ = true

-- Why an approval, a retry or an override of a row is refused, if it is.
abbrev pub refusal : RunNodeExecution → String → Option ReviewError
refusal row actor =
    if not (is_status row.status awaiting_approval)
    then some not_awaiting
    else if not (elem actor row.approver_user_ids)
    then some not_approver
    else if not (undecided row)
    then some already_decided
    else none

-- One row is replaced, and one audit entry is added.
pub record Decided (j : String) (row' : RunNodeExecution) (entry : AuditEntry) (db db' : Db)
    : Type 0 where
  pub found : (k : String) → find k db'.nodes ≡ (if j == k then some row' else find k db.nodes)
  pub unique : IsUnique db'.nodes
  pub same_run : db'.run ≡ db.run
  pub same_rollbacks : db'.rollbacks ≡ db.rollbacks
  pub audit : db'.audit ≡ db.audit ++ entry ∷ []

Decided-Replaced :
    (j : String) (row' : RunNodeExecution) (entry : AuditEntry) (db db' : Db)
    → Replaced j row' db db'
    → Decided j row' entry db (log entry db')
Decided-Replaced j row' entry db db' a = record {
  found = a.found;
  unique = a.unique;
  same_run = a.same_run;
  same_rollbacks = a.same_rollbacks;
  audit = ap (λ l. l ++ entry ∷ []) a.same_audit;
}

decide-direct :
    (d : Decision) (q : Request) (row : RunNodeExecution) (db : Db)
    → is_direct d ≡ true
    → decide d q row db
      ≡ chain
          (cas_or_conflict row.id awaiting_approval (decided_status d) (decision_cols d q) db)
          (λ _ db'. (ok tt, log (node_decision d row.node_key q.actor) db'))
unfolding decide
decide-direct approve q row db h = refl
decide-direct retry q row db h = refl
decide-direct override q row db h = refl
decide-direct reject q row db h = cc

module _ (node_key action : String) (q : Request) (db : Db) (row : RunNodeExecution)
    (unique : IsUnique db.nodes) (found : find node_key db.nodes ≡ some row) (d : Decision)
    (named : action_of action ≡ some d) where
  -- The guards, before the branch on the action.
  record_decision-guards :
      record_decision node_key action q db
      ≡ lift
          (check (is_status row.status awaiting_approval) not_awaiting)
          (λ _ db3.
            lift
              (check (elem q.actor row.approver_user_ids) not_approver)
              (λ _ db4. chain (decide d q row db4) λ _ db5. (get_node node_key db5, db5))
              db3)
          db
  unfolding record_decision require_approver
  record_decision-guards =
      ap
        (λ o.
          lift (or_else invalid_action o)
            (λ decision db1.
              lift (get_node node_key db1)
                (λ row db2.
                  lift (check (is_status row.status awaiting_approval) not_awaiting)
                    (λ _ db3.
                      lift (check (elem q.actor row.approver_user_ids) not_approver)
                        (λ _ db4.
                          chain (decide decision q row db4) λ _ db5. (get_node node_key db5, db5))
                        db3)
                    db2)
                db1)
            db)
        named
      ∙ ap
          (λ r.
            lift r
              (λ row db2.
                lift (check (is_status row.status awaiting_approval) not_awaiting)
                  (λ _ db3.
                    lift (check (elem q.actor row.approver_user_ids) not_approver)
                      (λ _ db4. chain (decide d q row db4) λ _ db5. (get_node node_key db5, db5))
                      db3)
                  db2)
              db)
          (get_node-eq node_key db row found)

  pub record_decision-open :
      is_status row.status awaiting_approval ≡ true
      → elem q.actor row.approver_user_ids ≡ true
      → record_decision node_key action q db
        ≡ chain (decide d q row db) (λ _ db5. (get_node node_key db5, db5))
  record_decision-open a b = record_decision-guards ∙ rw a (rw b refl)

  -- Conditions: the row of the node key is `row`, and the rows have distinct ids and keys. A caller
  -- of any action on a node that does not await a decision, and a caller who is no approver of the
  -- node, gets an error, and the tables stay as they are.
  pub record_decision_guarded :
      (is_status row.status awaiting_approval && elem q.actor row.approver_user_ids) ≡ false
      → record_decision node_key action q db ≡ (
        raise (if is_status row.status awaiting_approval then not_approver else not_awaiting),
        db,
      )
  record_decision_guarded h = elim (Bool-cases (is_status row.status awaiting_approval)) [
    | inl t ↦
        let refused : elem q.actor row.approver_user_ids ≡ false = ground (arith, h, t) in
        record_decision-guards ∙ rw t (rw refused refl)
    | inr f ↦ record_decision-guards ∙ rw f refl
  ]

  -- Conditions: the row of the node key is `row`, the rows have distinct ids and keys, and the
  -- action is approve, retry or override. If `row` does not await a decision, or the caller is not
  -- one of its approvers, or it has been decided, the call raises that error, in this order, and
  -- the tables stay. Else it returns the decided row, and exactly that row and one audit entry
  -- with the caller's name have changed.
  pub record_decision_lem :
      is_direct d ≡ true
      → ((e : ReviewError)
          → refusal row q.actor ≡ some e
          → record_decision node_key action q db ≡ (raise e, db))
        × (refusal row q.actor ≡ none
            → (db' : Db) × (record_decision node_key action q db
                ≡ (ok (decided_row d q db.now row), db'))
              × Decided node_key
                  (decided_row d q db.now row)
                  (node_decision d node_key q.actor)
                  db
                  db')
  record_decision_lem direct = (refused, taken)
    where
      late :
          refusal row q.actor ≡ some already_decided
          → record_decision node_key action q db ≡ (raise already_decided, db)
      late h =
          record_decision-open (ground arith) (ground arith)
          ∙ ap (λ o. chain o (λ _ db5. (get_node node_key db5, db5)))
              (decide-direct d q row db direct
                ∙ ap
                    (λ o.
                      chain o (λ _ db'. (ok tt, log (node_decision d row.node_key q.actor) db')))
                    (cas_or_conflict-lost node_key row db unique found d q (ground arith)))

      refused :
          (e : ReviewError)
          → refusal row q.actor ≡ some e
          → record_decision node_key action q db ≡ (raise e, db)
      refused e h =
          elim (Bool-cases
            (is_status row.status awaiting_approval && elem q.actor row.approver_user_ids)) [
              | inr f ↦ record_decision_guarded f ∙ ground arith
              | inl t ↦
                  let same : e ≡ already_decided = ground arith in rw same (late (h ∙ ap some same))
            ]

      taken :
          refusal row q.actor ≡ none
          → (db' : Db) × (record_decision node_key action q db
              ≡ (ok (decided_row d q db.now row), db'))
            × Decided node_key
                (decided_row d q db.now row)
                (node_decision d node_key q.actor)
                db
                db'
      taken h =
          let (db', e, a) = cas_or_conflict-won node_key row db unique found d q (ground arith) in
          let key = find-key node_key db.nodes row found in
          (
            log (node_decision d node_key q.actor) db',
            record_decision-open (ground arith) (ground arith)
                ∙ ap (λ o. chain o (λ _ db5. (get_node node_key db5, db5)))
                    (decide-direct d q row db direct
                      ∙ ap
                          (λ o.
                            chain o
                              (λ _ db'. (ok tt, log (node_decision d row.node_key q.actor) db')))
                          e
                      ∙ ap (λ k. (ok tt, log (node_decision d k q.actor) db')) key)
                ∙ ap (λ r. (r, log (node_decision d node_key q.actor) db'))
                    (get_node-eq node_key (log (node_decision d node_key q.actor) db')
                      (decided_row d q db.now row) (a.found node_key ∙ rw eq_refl refl)),
            Decided-Replaced node_key (decided_row d q db.now row)
                (node_decision d node_key q.actor) db db' a,
          )
