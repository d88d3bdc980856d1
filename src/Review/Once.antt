-- ===== src/Review/Once.antt =====
-- A second decision on a node that has one.
use text.Mathlib.TextPositions.{eq_refl}
use vaic2026_charcalavong.Prelude.{
  String, ◌≡◌, refl, sym, ap, ◌∙◌, subst, inl, inr, true, false, some, string_eq, nat_eq, ℕ, ok,
  raise, Option-cases, Result, Bool-cases, Result-cases, ◌⊎◌, ◌&&◌, arith, elem, false, pair_eq,
  ◌==◌,
}
use vaic2026_charcalavong.Store.{
  Db, Snapshot, RunNodeExecution, awaiting_approval, is_status, Decision, approve, retry, override,
  reject,
}
use vaic2026_charcalavong.Store.Rows.{find, IsUnique}
use vaic2026_charcalavong.State.{set_node}
use vaic2026_charcalavong.Review.Types.{
  ReviewError, not_awaiting, already_decided, undecided, action_of, Request,
}
use vaic2026_charcalavong.Review.Decide.{find_target, record_decision}
use vaic2026_charcalavong.Engine.Orchestrate.{IsReady}
use vaic2026_charcalavong.Engine.Safe.{is_gated}
use vaic2026_charcalavong.Review.Reject.{
  decided_before, find_target-inv, record_decision_reject, record_decision_reject_refused,
  record_decision_reject_bad, Filed-IsReady, requester,
}
use vaic2026_charcalavong.Review.Cas.{decided_row}
use vaic2026_charcalavong.Review.Verdict.{
  is_direct, refusal, record_decision_lem, record_decision_guarded,
}

decided_row-closed :
    (d : Decision) (q : Request) (now : ℕ) (row : RunNodeExecution)
    → is_direct d ≡ true
    → is_status (decided_row d q now row).status awaiting_approval ≡ false
unfolding decided_row set_node
decided_row-closed approve q now row h = refl
decided_row-closed retry q now row h = refl
decided_row-closed override q now row h = refl
decided_row-closed reject q now row h = cc

rejected_row :
    (q : Request) (now : ℕ) (row : RunNodeExecution)
    → (is_status (decided_row reject q now row).status awaiting_approval ≡ true)
      × (undecided (decided_row reject q now row) ≡ false)
unfolding decided_row set_node
rejected_row q now row = (refl, refl)

-- A call on the tables is refused, and leaves them as they are.
abbrev pub IsRefused : String → String → Request → Db → Type 0
IsRefused node_key action q db =
    (e : ReviewError) × (record_decision node_key action q db ≡ (raise e, db))

is_direct-cases : (d : Decision) → (is_direct d ≡ true) ⊎ (d ≡ reject)
is_direct-cases approve = inl refl
is_direct-cases retry = inl refl
is_direct-cases override = inl refl
is_direct-cases reject = inr refl

module _ (node_key action : String) (q : Request) (d : Decision) (named : action_of action ≡ some d)
    (snapshot : Snapshot) (db : Db) (row : RunNodeExecution)
    (found : find node_key db.nodes ≡ some row) where
  closed :
      IsUnique db.nodes
      → is_status row.status awaiting_approval ≡ false
      → record_decision node_key action q db ≡ (raise not_awaiting, db)
  closed unique c =
      record_decision_guarded node_key action q db row unique found d named (rw c refl) ∙ rw c refl

  -- Whoever rejects a decided node is refused, for the target or for the decision.
  rejects :
      IsReady snapshot db
      → is_status row.status awaiting_approval ≡ true
      → elem q.actor row.approver_user_ids ≡ true
      → undecided row ≡ false
      → d ≡ reject
      → IsRefused node_key action q db
  rejects ready w a u same = elim (Result-cases (find_target snapshot node_key q.target_node_key)) [
    | inl (e, h) ↦ (
      e,
      record_decision_reject_bad node_key action q snapshot db ready row found
          (named ∙ ap some same) w a e h,
    )
    | inr (t, h) ↦
        let (given, full, parent) = find_target-inv snapshot node_key q.target_node_key t h in
        (
          already_decided,
          record_decision_reject_refused node_key action q snapshot db ready row found
              (named ∙ ap some same) w a already_decided (decided_before t given full parent u),
        )
  ]

  direct_again :
      IsReady snapshot db
      → is_status row.status awaiting_approval ≡ true
      → elem q.actor row.approver_user_ids ≡ true
      → undecided row ≡ false
      → is_direct d ≡ true
      → IsRefused node_key action q db
  direct_again ready w a u direct = (
    already_decided,
    (record_decision_lem node_key action q db row ready.unique found d named direct).0
        already_decided (ground (arith, w, a, u)),
  )

  -- A node that awaits the answer to a request to roll back has its decision.
  open_again :
      IsReady snapshot db
      → is_status row.status awaiting_approval ≡ true
      → undecided row ≡ false
      → IsRefused node_key action q db
  open_again ready w u = elim (Bool-cases (elem q.actor row.approver_user_ids)) [
    | inr f ↦ (
      _,
      record_decision_guarded node_key action q db row ready.unique found d named
          (ground (arith, f)),
    )
    | inl a ↦ elim (is_direct-cases d) [
      | inl direct ↦ direct_again ready w a u direct
      | inr same ↦ rejects ready w a u same
    ]
  ]

module _ (node_key action action' : String) (q q' : Request) (snapshot : Snapshot) (db db1 : Db)
    (ready : IsReady snapshot db) (row r : RunNodeExecution)
    (found : find node_key db.nodes ≡ some row) (d d' : Decision)
    (named : action_of action ≡ some d) (named' : action_of action' ≡ some d')
    (first : record_decision node_key action q db ≡ (ok r, db1)) where
  -- What follows for the tables that the first call left, if it is known to have left `db'`.
  left :
      {out : Result ReviewError RunNodeExecution} (db' : Db)
      → record_decision node_key action q db ≡ (out, db')
      → IsRefused node_key action' q' db'
      → IsRefused node_key action' q' db1
  left db' e refused = subst (IsRefused node_key action' q') (ap (λ o. o.1) (sym e ∙ first)) refused

  raised {ℓ} :
      {P : Type ℓ} {db' : Db} (e : ReviewError)
      → record_decision node_key action q db ≡ (raise e, db')
      → P
  raised e h = absurd (let bad = sym h ∙ first in cc)

  after_direct :
      is_direct d ≡ true → record_decision node_key action' q' db1 ≡ (raise not_awaiting, db1)
  after_direct direct =
      let (refused, taken) =
        record_decision_lem node_key action q db row ready.unique found d named direct in
      elim (Option-cases (refusal row q.actor)) [
        | inr (e, h) ↦ raised e (refused e h)
        | inl h ↦
            let (db', e, a) = taken h in
            subst (λ x. record_decision node_key action' q' x ≡ (raise not_awaiting, x))
              (ap (λ o. o.1) (sym e ∙ first))
              (closed node_key action' q' d' named' snapshot db' (decided_row d q db.now row)
                (a.found node_key ∙ rw eq_refl refl) a.unique
                (decided_row-closed d q db.now row direct))
      ]

  module _ (same : d ≡ reject) (w : is_status row.status awaiting_approval ≡ true)
      (a : elem q.actor row.approver_user_ids ≡ true) where
    rejecting : action_of action ≡ some reject
    rejecting = named ∙ ap some same

    -- The rejected node keeps its decision until the request is answered, and after a rollback it is
    -- below the target.
    after_parent :
        (t : String)
        → q.target_node_key ≡ some t
        → (t == "") ≡ false
        → elem (t, node_key) snapshot.edges ≡ true
        → undecided row ≡ true
        → IsRefused node_key action' q' db1
    after_parent t given full parent fresh =
        let (db', filed, gated, automatic) =
          record_decision_reject node_key action q snapshot db ready row found rejecting w a t given
            full parent fresh in
        elim (Bool-cases (is_gated db t)) [
          | inl g ↦ left db' (gated g) (
              open_again node_key action' q' d' named' snapshot db'
                (decided_row reject q db.now row) (filed.found node_key ∙ rw eq_refl refl)
                (Filed-IsReady node_key action q snapshot db ready row found rejecting w a t given
                  full parent fresh db' filed)
                (rejected_row q db.now row).0 (rejected_row q db.now row).1)
          | inr g ↦
              let (db2, r', e, back) = automatic g in
              let (row', at_key, reset) =
                requester node_key action q snapshot db ready row found rejecting w a t given full
                  parent fresh db' db2 filed back in
              left db2 e (
                not_awaiting,
                closed node_key action' q' d' named' snapshot db2 row' at_key back.unique reset,
              )
        ]

    after_reject : IsRefused node_key action' q' db1
    after_reject = elim (Result-cases (find_target snapshot node_key q.target_node_key)) [
      | inl (e, h) ↦ raised e (
          record_decision_reject_bad node_key action q snapshot db ready row found rejecting w a e
            h)
      | inr (t, h) ↦
          let (given, full, parent) = find_target-inv snapshot node_key q.target_node_key t h in
          elim (Bool-cases (undecided row)) [
            | inl fresh ↦ after_parent t given full parent fresh
            | inr late ↦ raised already_decided (
                record_decision_reject_refused node_key action q snapshot db ready row found
                  rejecting w a already_decided (decided_before t given full parent late))
          ]
    ]

  -- Conditions: the run is ready, and a call of one of the four actions on a node has returned. Then
  -- a second call on the tables that it left, by any user, with any of the four actions and any
  -- target, raises an error and changes nothing. If the first was no rejection, then that is the
  -- error of a node that awaits no decision.
  pub record_decision_once :
      (e : ReviewError) × (record_decision node_key action' q' db1 ≡ (raise e, db1))
      × (is_direct d ≡ true → e ≡ not_awaiting)
  record_decision_once =
      elim (Bool-cases
        (is_status row.status awaiting_approval && elem q.actor row.approver_user_ids)) [
          | inr f ↦
              raised _
                (record_decision_guarded node_key action q db row ready.unique found d named f)
          | inl t ↦ elim (is_direct-cases d) [
            | inl direct ↦ (not_awaiting, after_direct direct, λ _. refl)
            | inr same ↦
                let (e, refused) = after_reject same (ground (arith, t)) (ground (arith, t)) in
                (e, refused, λ direct. absurd (let bad = sym (ap is_direct same) ∙ direct in cc))
          ]
        ]
