-- ===== src/Worker/Cases.antt =====
-- The cases of a decision and of a confirmation with any arguments, as induction rules.
use vaic2026_charcalavong.Prelude.{
  String, ◌≡◌, refl, sym, subst, inl, inr, Bool, true, ◌&&◌, Option, none, some, arith, string_eq,
  pair_eq, ok, raise, elem, Bool-cases, Option-cases, Result-cases,
}
use vaic2026_charcalavong.Store.{
  Db, RunNodeExecution, RunRollbackRequest, Snapshot, awaiting_approval, Decision, approve, retry,
  override, reject, is_status, node_decision,
}
use vaic2026_charcalavong.Store.Rows.{find}
use vaic2026_charcalavong.Engine.Types.{node_keys_of}
use vaic2026_charcalavong.Engine.Node.{is_rollback_pending}
use vaic2026_charcalavong.Engine.Safe.{is_gated}
use vaic2026_charcalavong.Engine.Orchestrate.{IsReady}
use vaic2026_charcalavong.Review.Types.{
  ReviewError, invalid_action, no_node, action_of, get_node, undecided, Request,
}
use vaic2026_charcalavong.Review.Rollback.{get_request, confirm_rollback}
use vaic2026_charcalavong.Review.Decide.{find_target, new_request, record_decision}
use vaic2026_charcalavong.Review.Cas.{decided_row}
use vaic2026_charcalavong.Review.Verdict.{
  Decided, is_direct, refusal, record_decision_lem, record_decision_guarded,
}
use vaic2026_charcalavong.Review.Reject.{
  Filed, find_target-inv, decided_before, record_decision_reject, record_decision_reject_refused,
  record_decision_reject_bad,
}
use vaic2026_charcalavong.Review.Accept.{RolledBack}
use vaic2026_charcalavong.Review.Confirm.{Refused, may_confirm, confirm_rollback_lem}
use vaic2026_charcalavong.Worker.Requests.{AllKnown, get_request-IsKnown}

-- The cases of `record_decision`: `P` holds of what it leaves if it holds of the tables as they
-- are, of those after a decision, after a request, and after a request that is accepted at once.
module _ (snapshot : Snapshot) (db : Db) (ready : IsReady snapshot db) (P : Db → Type 0)
    (node_key action : String) (q : Request) (stays : P db)
    (decides : (row : RunNodeExecution) (d : Decision) (db' : Db)
      → find node_key db.nodes ≡ some row
      → is_status row.status awaiting_approval ≡ true
      → elem q.actor row.approver_user_ids ≡ true
      → action_of action ≡ some d
      → is_direct d ≡ true
      → Decided node_key (decided_row d q db.now row) (node_decision d node_key q.actor) db db'
      → P db')
    (files : (row : RunNodeExecution) (t : String) (db1 : Db)
      → find node_key db.nodes ≡ some row
      → is_status row.status awaiting_approval ≡ true
      → elem q.actor row.approver_user_ids ≡ true
      → elem (t, node_key) snapshot.edges ≡ true
      → Filed q node_key t (decided_row reject q db.now row) db db1
      → P db1
        × ((db' : Db) → RolledBack snapshot (new_request q node_key t) none db1 db' → P db')) where
  same :
      (e : ReviewError)
      → record_decision node_key action q db ≡ (raise e, db)
      → P (record_decision node_key action q db).1
  same e eq = subst (λ o. P o.1) (sym eq) stays

  no_action :
      action_of action ≡ none → record_decision node_key action q db ≡ (raise invalid_action, db)
  unfolding record_decision
  no_action e = rw e refl

  no_row :
      (d : Decision)
      → action_of action ≡ some d
      → find node_key db.nodes ≡ none
      → record_decision node_key action q db ≡ (raise (no_node node_key), db)
  unfolding record_decision get_node find
  no_row d e f = rw e (rw f refl)

  module _ (row : RunNodeExecution) (at_key : find node_key db.nodes ≡ some row)
      (awaits : is_status row.status awaiting_approval ≡ true)
      (approver : elem q.actor row.approver_user_ids ≡ true) where
    direct :
        (d : Decision)
        → action_of action ≡ some d
        → is_direct d ≡ true
        → P (record_decision node_key action q db).1
    direct d named is = elim (Option-cases (refusal row q.actor)) [
      | inr (e, h) ↦
          same e
            ((record_decision_lem node_key action q db row ready.unique at_key d named is).0 e h)
      | inl h ↦
          let (db', e, a) =
            (record_decision_lem node_key action q db row ready.unique at_key d named is).1 h in
          subst (λ o. P o.1) (sym e) (decides row d db' at_key awaits approver named is a)
    ]

    filed :
        (t : String)
        → action_of action ≡ some reject
        → find_target snapshot node_key q.target_node_key ≡ ok t
        → undecided row ≡ true
        → P (record_decision node_key action q db).1
    filed t named e fresh =
        let (given, full, parent) = find_target-inv snapshot node_key q.target_node_key t e in
        let (db1, a, gated, automatic) =
          record_decision_reject node_key action q snapshot db ready row at_key named awaits
            approver t given full parent fresh in
        let effect = files row t db1 at_key awaits approver parent a in
        elim (Bool-cases (is_gated db t)) [
          | inl g ↦ subst (λ o. P o.1) (sym (gated g)) effect.0
          | inr g ↦
              let (db', r, e', b) = automatic g in subst (λ o. P o.1) (sym e') (effect.1 db' b)
        ]

    rejected : action_of action ≡ some reject → P (record_decision node_key action q db).1
    rejected named = elim (Result-cases (find_target snapshot node_key q.target_node_key)) [
      | inl (e, h) ↦ same e (
          record_decision_reject_bad node_key action q snapshot db ready row at_key named awaits
            approver e h)
      | inr (t, h) ↦ elim (Bool-cases (undecided row)) [
        | inl fresh ↦ filed t named h fresh
        | inr late ↦
            let (given, full, parent) = find_target-inv snapshot node_key q.target_node_key t h in
            same _ (
              record_decision_reject_refused node_key action q snapshot db ready row at_key named
                awaits approver _ (decided_before t given full parent late))
      ]
    ]

    decided :
        (d : Decision) → action_of action ≡ some d → P (record_decision node_key action q db).1
    decided approve named = direct approve named refl
    decided retry named = direct retry named refl
    decided override named = direct override named refl
    decided reject named = rejected named

  pub record_decision-rule : P (record_decision node_key action q db).1
  record_decision-rule = elim (Option-cases (action_of action)) [
    | inl e ↦ same _ (no_action e)
    | inr (d, e) ↦ elim (Option-cases (find node_key db.nodes)) [
      | inl f ↦ same _ (no_row d e f)
      | inr (row, f) ↦
          elim (Bool-cases
            (is_status row.status awaiting_approval && elem q.actor row.approver_user_ids)) [
              | inl t ↦ decided row f (ground arith) (ground arith) d e
              | inr n ↦
                  same _ (record_decision_guarded node_key action q db row ready.unique f d e n)
            ]
    ]
  ]

-- The cases of `confirm_rollback`, in the same way.
module _ (snapshot : Snapshot) (db : Db) (ready : IsReady snapshot db)
    (known : AllKnown (node_keys_of snapshot) db.rollbacks) (P : Db → Type 0) (rollback_id : String)
    (accept : Bool) (actor : String) (refuse_reason : Option String) (stays : P db)
    (accepts : (req : RunRollbackRequest) (db' : Db)
      → RolledBack snapshot req (some actor) db db'
      → P db')
    (refuses : (req : RunRollbackRequest) (db' : Db)
      → Refused req actor refuse_reason db db'
      → P db') where
  no_request :
      (e : ReviewError)
      → get_request rollback_id db ≡ raise e
      → confirm_rollback rollback_id accept actor refuse_reason db ≡ (raise e, db)
  unfolding confirm_rollback
  no_request e h = rw h refl

  unmoved :
      (e : ReviewError)
      → confirm_rollback rollback_id accept actor refuse_reason db ≡ (raise e, db)
      → P (confirm_rollback rollback_id accept actor refuse_reason db).1
  unmoved e eq = subst (λ o. P o.1) (sym eq) stays

  pub confirm_rollback-rule : P (confirm_rollback rollback_id accept actor refuse_reason db).1
  confirm_rollback-rule = elim (Result-cases (get_request rollback_id db)) [
    | inl (e, h) ↦ unmoved e (no_request e h)
    | inr (req, h) ↦
        let (t_known, r_known) =
          get_request-IsKnown (node_keys_of snapshot) rollback_id db req known h in
        let (resolved, forbidden, taken, turned_down) =
          confirm_rollback_lem rollback_id accept actor refuse_reason snapshot db ready req h
            t_known r_known in
        elim (Bool-cases (is_rollback_pending req)) [
          | inr n ↦ unmoved _ (resolved n)
          | inl t ↦ elim (Bool-cases (may_confirm req actor db)) [
            | inr n ↦ unmoved _ (forbidden t n)
            | inl m ↦ elim (Bool-cases accept) [
              | inl a ↦
                  let (db', e, b) = taken t m a in subst (λ o. P o.1) (sym e) (accepts req db' b)
              | inr a ↦
                  let (db', e, b) = turned_down t m a in
                  subst (λ o. P o.1) (sym e) (refuses req db' b)
            ]
          ]
        ]
  ]
