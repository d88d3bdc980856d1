-- ===== src/Samples/Decisions.antt =====
-- The same run, paused at its second node: what its approver and others can do.
use vaic2026_charcalavong.Prelude.{
  String, ◌≡◌, refl, true, false, ◌&&◌, none, some, [], ◌∷◌, elem, ok, raise, string_eq, nat_eq,
  pair_eq, if◌then◌else◌, ◌==◌,
}
use vaic2026_charcalavong.Store.{
  Db, RunNodeExecution, awaiting_human, awaiting_approval, completed, approve, reject,
  node_decision,
}
use vaic2026_charcalavong.Store.Rows.{find, IsUnique}
use vaic2026_charcalavong.State.{set_node, transition_node_status}
use vaic2026_charcalavong.State.Cas.{transition_node_status_lem}
use vaic2026_charcalavong.Engine.Safe.{is_gated}
use vaic2026_charcalavong.Engine.Orchestrate.{IsReady}
use vaic2026_charcalavong.Review.Types.{
  ReviewError, not_awaiting, not_approver, bad_target, undecided, Request,
}
use vaic2026_charcalavong.Review.Decide.{new_request, record_decision}
use vaic2026_charcalavong.Review.Cas.{decided_row}
use vaic2026_charcalavong.Review.Verdict.{
  Decided, is_direct, refusal, record_decision_lem, record_decision_guarded,
}
use vaic2026_charcalavong.Review.Once.{record_decision_once}
use vaic2026_charcalavong.Review.Reject.{
  Filed, no_parent, record_decision_reject, record_decision_reject_refused,
}
use vaic2026_charcalavong.Review.Accept.{RolledBack}
use vaic2026_charcalavong.Worker.{new_row}
use vaic2026_charcalavong.Worker.Create.{find-elem}
use vaic2026_charcalavong.Tracking.{build_item}
use vaic2026_charcalavong.Tracking.Inbox.{is_listed, build_item_lem}
use mathlib.Core.Logic.{◌↔◌}
use vaic2026_charcalavong.Samples.{node, snapshot, run, valid}

abbrev pub row_a : RunNodeExecution
row_a = record (new_row "1" (node "a" [])) { status = completed }

abbrev pub row_b : RunNodeExecution
row_b = record (new_row "2" (node "b" ("u1" ∷ []))) { status = awaiting_approval }

abbrev pub paused : Db
paused = record {
  run = some (record run { status = awaiting_human });
  nodes = row_a ∷ row_b ∷ new_row "3" (node "c" []) ∷ [];
  rollbacks = [];
  tasks = [];
  audit = [];
  notifications = [];
  calls = [];
  now = 1;
}

abbrev pub by_user : String → Request
by_user actor = record {
  actor = actor;
  guidance = none;
  output = none;
  reason = some "wrong";
  target_node_key = some "a";
  request_id = "q";
}

paused-IsUnique : IsUnique paused.nodes
unfolding elem
paused-IsUnique = record {
  unique_keys = (refl, (refl, (refl, tt)));
  unique_ids = (refl, (refl, (refl, tt)));
}

pub paused-IsReady : IsReady snapshot paused
paused-IsReady = record {
  run = record run { status = awaiting_human };
  has_run = refl;
  has_snapshot = refl;
  valid = valid;
  unique = paused-IsUnique;
  rows = λ k m. find-elem k paused.nodes m;
}

pub at_b : find "b" paused.nodes ≡ some row_b
unfolding find
at_b = refl

approver : elem "u1" row_b.approver_user_ids ≡ true
unfolding elem
approver = refl

stranger : elem "u2" row_b.approver_user_ids ≡ false
unfolding elem
stranger = refl

transition_node_status_lem_example :
    ((transition_node_status "2" awaiting_approval completed (λ r. r) undecided paused).1 ≡ true)
    × ((k : String)
        → find k
            (transition_node_status "2" awaiting_approval completed
              (λ r. r)
              undecided
              paused).0.nodes
          ≡ (if ("b" == k)
                && (transition_node_status "2" awaiting_approval completed
                    (λ r. r)
                    undecided
                    paused).1
              then some (set_node 1 completed (λ r. r) row_b)
              else find k paused.nodes))
    × ((transition_node_status "2" awaiting_approval completed (λ r. r) undecided paused).0
        ≡ record paused {
          nodes =
              (transition_node_status "2" awaiting_approval completed
                (λ r. r)
                undecided
                paused).0.nodes;
        })
transition_node_status_lem_example =
    transition_node_status_lem "b" row_b paused paused-IsUnique at_b awaiting_approval completed
      (λ r. r) undecided
      (record { same_key = λ r. refl; same_id = λ r. refl; same_approvers = λ r. refl })

record_decision_lem_example :
    ((e : ReviewError)
      → refusal row_b "u1" ≡ some e
      → record_decision "b" "approve" (by_user "u1") paused ≡ (raise e, paused))
    × (refusal row_b "u1" ≡ none
        → (db' : Db) × (record_decision "b" "approve" (by_user "u1") paused
            ≡ (ok (decided_row approve (by_user "u1") 1 row_b), db'))
          × Decided "b"
              (decided_row approve (by_user "u1") 1 row_b)
              (node_decision approve "b" "u1")
              paused
              db')
record_decision_lem_example =
    record_decision_lem "b" "approve" (by_user "u1") paused row_b paused-IsUnique at_b approve refl
      refl

record_decision_guarded_example :
    record_decision "b" "approve" (by_user "u2") paused ≡ (raise not_approver, paused)
record_decision_guarded_example =
    record_decision_guarded "b" "approve" (by_user "u2") paused row_b paused-IsUnique at_b approve
      refl stranger

parent_of_b : elem ("a", "b") snapshot.edges ≡ true
unfolding elem
parent_of_b = refl

record_decision_reject_example :
    (db1 : Db) × Filed (by_user "u1") "b" "a" (decided_row reject (by_user "u1") 1 row_b) paused db1
    × (is_gated paused "a" ≡ true
        → record_decision "b" "reject" (by_user "u1") paused
          ≡ (ok (decided_row reject (by_user "u1") 1 row_b), db1))
    × (is_gated paused "a" ≡ false
        → (db' : Db) × (r : RunNodeExecution) × (record_decision "b" "reject" (by_user "u1") paused
            ≡ (ok r, db'))
          × RolledBack snapshot (new_request (by_user "u1") "b" "a") none db1 db')
record_decision_reject_example =
    record_decision_reject "b" "reject" (by_user "u1") snapshot paused paused-IsReady row_b at_b
      refl refl approver "a" refl refl parent_of_b refl

-- The same with an approver of "a", who has to answer the request of "b" to roll back.
abbrev watched : Db
watched = record paused {
  nodes = record row_a { approver_user_ids = "u2" ∷ [] } ∷ row_b ∷ new_row "3" (node "c" []) ∷ [];
}

watched-IsReady : IsReady snapshot watched
unfolding elem
watched-IsReady = record {
  run = record run { status = awaiting_human };
  has_run = refl;
  has_snapshot = refl;
  valid = valid;
  unique = record {
    unique_keys = (refl, (refl, (refl, tt)));
    unique_ids = (refl, (refl, (refl, tt)));
  };
  rows = λ k m. find-elem k watched.nodes m;
}

b_is_watched : find "b" watched.nodes ≡ some row_b
unfolding find
b_is_watched = refl

a_is_gated : is_gated watched "a" ≡ true
unfolding find
a_is_gated = refl

rejected :
    (db' : Db) × (record_decision "b" "reject" (by_user "u1") watched
      ≡ (ok (decided_row reject (by_user "u1") 1 row_b), db'))
rejected =
    let (db1, filed, gated, automatic) =
      record_decision_reject "b" "reject" (by_user "u1") snapshot watched watched-IsReady row_b
        b_is_watched refl refl approver "a" refl refl parent_of_b refl in
    (db1, gated a_is_gated)

record_decision_once_example :
    (e : ReviewError) × (record_decision "b" "approve" (by_user "u1") rejected.0
      ≡ (raise e, rejected.0))
    × (is_direct reject ≡ true → e ≡ not_awaiting)
record_decision_once_example =
    record_decision_once "b" "reject" "approve" (by_user "u1") (by_user "u1") snapshot watched
      rejected.0 watched-IsReady row_b (decided_row reject (by_user "u1") 1 row_b) b_is_watched
      reject approve refl refl rejected.1

-- "c" is below "b", and no parent of it.
abbrev downwards : Request
downwards = record (by_user "u1") { target_node_key = some "c" }

c_is_no_parent : elem ("c", "b") snapshot.edges ≡ false
unfolding elem
c_is_no_parent = refl

record_decision_reject_refused_example :
    record_decision "b" "reject" downwards paused ≡ (raise bad_target, paused)
record_decision_reject_refused_example =
    record_decision_reject_refused "b" "reject" downwards snapshot paused paused-IsReady row_b at_b
      refl refl approver bad_target (no_parent "c" refl c_is_no_parent)

build_item_lem_example : (is_listed "b" (build_item (some "w") "u1" run paused.nodes) ≡ true) ↔ (
    (r : RunNodeExecution) × (db' : Db) × (record_decision "b" "approve" (by_user "u1") paused
      ≡ (ok r, db')))
build_item_lem_example =
    build_item_lem (some "w") run "b" (by_user "u1") paused row_b paused-IsUnique at_b
