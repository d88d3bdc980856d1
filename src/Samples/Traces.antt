-- ===== src/Samples/Traces.antt =====
-- Rollbacks and whole traces of the sample run.
use mathlib.Core.Option
use text.Mathlib.TextEquality.{eq_iff}
use vaic2026_charcalavong.Prelude.{
  String, ◌≡◌, refl, sym, subst, inl, inr, Bool-cases, true≢false, true, false, ◌&&◌, none, some,
  [], ◌∷◌, arith, elem, keep, any, all, put, from_keys, lookup, values, ok, raise, string_eq,
  nat_eq, pair_eq, ◌==◌,
}
use vaic2026_charcalavong.Graph.{assert_valid_graph, topological_order, parents_by_key}
use vaic2026_charcalavong.Store.{
  Db, WorkflowRun, RunRollbackRequest, run_completed, pending, completed, accepted, refused,
  update_where, first_where, count_where, by_key,
}
use vaic2026_charcalavong.Store.Rows.{find}
use vaic2026_charcalavong.Engine.Node.{is_rollback_pending}
use vaic2026_charcalavong.Engine.Turn.{is_at}
use vaic2026_charcalavong.Engine.Safe.{IsCausal, is_gated}
use vaic2026_charcalavong.Engine.Orchestrate.{IsReady}
use vaic2026_charcalavong.Review.Types.{not_approver, already_resolved}
use vaic2026_charcalavong.Review.Rollback.{accept_rollback, confirm_rollback, get_request}
use vaic2026_charcalavong.Review.Decide.{new_request, record_decision}
use vaic2026_charcalavong.Review.Accept.{RolledBack, accept_rollback_lem}
use vaic2026_charcalavong.Review.Confirm.{Refused, may_confirm, confirm_rollback_lem}
use vaic2026_charcalavong.Worker.{run_workflow}
use vaic2026_charcalavong.Worker.Sound.{IsSound}
use vaic2026_charcalavong.Worker.Machine.{Moves, status_at}
use vaic2026_charcalavong.Worker.Simulates.{Reach-Moves}
use vaic2026_charcalavong.Worker.Trace.{
  Reach, here, next, work, decision, IsSigned, Reach-IsSound, Reach-IsSigned,
}
use vaic2026_charcalavong.Samples.Decisions.{paused, by_user, paused-IsReady}
use vaic2026_charcalavong.Samples.{snapshot, world}

abbrev asked : RunRollbackRequest
asked = new_request (by_user "u1") "c" "b"

-- The last node has asked to go back to the second.
abbrev waiting : Db
waiting = record paused { rollbacks = asked ∷ [] }

waiting-IsReady : IsReady snapshot waiting
waiting-IsReady = record {
  run = paused-IsReady.run;
  has_run = paused-IsReady.has_run;
  has_snapshot = paused-IsReady.has_snapshot;
  valid = paused-IsReady.valid;
  unique = paused-IsReady.unique;
  rows = paused-IsReady.rows;
}

b_known : elem {A = String} "b" ("a" ∷ "b" ∷ "c" ∷ []) ≡ true
unfolding elem
b_known = refl

c_known : elem {A = String} "c" ("a" ∷ "b" ∷ "c" ∷ []) ≡ true
unfolding elem
c_known = refl

accept_rollback_lem_example :
    (db' : Db) × (accept_rollback asked (some "u1") waiting ≡ (ok tt, db'))
    × RolledBack snapshot asked (some "u1") waiting db'
accept_rollback_lem_example =
    accept_rollback_lem snapshot asked (some "u1") waiting waiting-IsReady b_known

named : get_request "q" waiting ≡ ok asked
unfolding get_request
named = refl

confirm_rollback_lem_example :
    (is_rollback_pending asked ≡ false
      → confirm_rollback "q" true "u1" none waiting ≡ (raise already_resolved, waiting))
    × (is_rollback_pending asked ≡ true
        → may_confirm asked "u1" waiting ≡ false
        → confirm_rollback "q" true "u1" none waiting ≡ (raise not_approver, waiting))
    × (is_rollback_pending asked ≡ true
        → may_confirm asked "u1" waiting ≡ true
        → true ≡ true
        → (db' : Db) × (confirm_rollback "q" true "u1" none waiting ≡ (ok accepted, db'))
          × RolledBack snapshot asked (some "u1") waiting db')
    × (is_rollback_pending asked ≡ true
        → may_confirm asked "u1" waiting ≡ true
        → true ≡ false
        → (db' : Db) × (confirm_rollback "q" true "u1" none waiting ≡ (ok refused, db'))
          × Refused asked "u1" none waiting db')
confirm_rollback_lem_example =
    confirm_rollback_lem "q" true "u1" none snapshot waiting waiting-IsReady asked named b_known
      c_known

paused-IsCausal : IsCausal snapshot.edges paused
unfolding elem find
paused-IsCausal p k m left = elim (Bool-cases (("a" == p) && ("b" == k))) [
  | inl t ↦
      subst (λ x. is_at paused completed x ≡ true) {x = "a"} ((eq_iff "a" p).0 (ground (arith, t)))
        refl
  | inr f ↦
      let last : ("c" == k) ≡ true = ground (arith, m, f) in
      absurd (
        true≢false (subst (λ x. is_at paused pending x ≡ false) (sym ((eq_iff "c" k).0 last)) left))
]

paused-IsSound : IsSound snapshot paused
paused-IsSound = record { ready = paused-IsReady; causal = paused-IsCausal; requests = tt }

-- The approver approves, and a worker takes the run up.
abbrev signed : Db
unfolding record_decision
signed = (record_decision "b" "approve" (by_user "u1") paused).1

abbrev continued : Db
unfolding run_workflow
continued = (run_workflow world "r" true signed).1

trace : Reach paused continued
unfolding signed continued
trace =
    next (decision "b" "approve" (by_user "u1") paused)
      (next (work world "r" true signed) (here continued))

Reach-IsSound_example : IsSound snapshot continued
Reach-IsSound_example = Reach-IsSound snapshot trace paused-IsSound

b_open : is_at paused completed "b" ≡ false
unfolding find
b_open = refl

program : Unit {0}
unfolding record_decision run_workflow assert_valid_graph topological_order parents_by_key lookup
    put from_keys keep any all elem values find signed continued by_key count_where update_where
    first_where
program = tt

b_done : is_at continued completed "b" ≡ true
unfolding program
b_done = refl

run_done : Option.map (λ (r : WorkflowRun). r.status) continued.run ≡ some run_completed
unfolding program
run_done = refl

b_gated : is_gated paused "b" ≡ true
unfolding find
b_gated = refl

Reach-IsSigned_example : IsSigned "b" trace
Reach-IsSigned_example = Reach-IsSigned snapshot "b" trace paused-IsSound b_gated b_open b_done

Reach-Moves_example :
    Moves snapshot.edges (is_gated paused) (status_at paused) (status_at continued)
Reach-Moves_example = Reach-Moves snapshot trace paused-IsSound
