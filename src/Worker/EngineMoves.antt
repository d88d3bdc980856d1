-- ===== src/Worker/EngineMoves.antt =====
-- The engine as a sequence of moves of the abstract machine.
use vaic2026_charcalavong.Prelude.{
  suc, ◌≡◌, refl, sym, ◌∙◌, subst, inl, inr, Bool, true, false, some, arith, string_eq, pair_eq,
  length, ok, raise,
}
use vaic2026_charcalavong.Store.{Db, pending, completed, WorkflowRun}
use vaic2026_charcalavong.Engine.Types.{World, Plan, Outcome}
use vaic2026_charcalavong.Engine.Loop.{turn, loop}
use vaic2026_charcalavong.Engine.Advance.{nodes-set_run_awaiting_human}
use vaic2026_charcalavong.Engine.Outcome.{nodes-finalize_run}
use vaic2026_charcalavong.Engine.Turn.{IsPlan, IsComplete, Ran, turn-Cases}
use vaic2026_charcalavong.Engine.Safe.{is_gated, Safe, Safe-refl, Safe-Ran}
use vaic2026_charcalavong.Engine.Run.{pending_keys-after_lt, Owes, loop_rule, enough_fuel}
use vaic2026_charcalavong.Worker.Machine.{Move, take, move, status_at, shows-status_at}
use vaic2026_charcalavong.Worker.Refines.{
  Move-gates, Refines, Refines-same, Refines-then, status-replaced,
}

-- A turn that runs a node
Ran-Move :
    (plan : Plan) (db : Db) (out : Outcome Bool)
    → Ran plan db out
    → Move plan.edges (is_gated db) (status_at db) (status_at out.1)
Ran-Move plan db out ran =
    take ran.key ran.advance.row'.status
      (shows-status_at db ran.key pending ∙ ground (arith, ran.at_key, ran.idle))
      (λ p m. shows-status_at db p completed ∙ ran.parents_done p m) ran.advance.started
      (λ g. ground (arith, g, ran.at_key, ran.advance.gate))
      (status-replaced ran.key ran.advance.row' db out.1 ran.advance.found)

Ran-Refines :
    (plan : Plan) (db0 db : Db) (out : Outcome Bool)
    → Ran plan db out
    → Safe plan db0 db
    → Refines plan.edges db0 db
    → Refines plan.edges db0 out.1
Ran-Refines plan db0 db out ran safe r = record {
  gates = (Safe-Ran plan db0 db out ran safe).same_gates;
  moves =
      move r.moves
        (Move-gates plan.edges (is_gated db) (is_gated db0) r.gates (Ran-Move plan db out ran));
}

module _ (world : World) (plan : Plan) (is_plan : IsPlan plan) (db0 : Db) (run : WorkflowRun)
    (has_run : db0.run ≡ some run) where
  record Inv (db : Db) : Type 0 where
    safe : Safe plan db0 db
    same_run : db.run ≡ db0.run
    refines : Refines plan.edges db0 db

  abbrev Post : Outcome (Unit {0}) → Type 0
  Post out = Refines plan.edges db0 out.1

  ran :
      (db : Db) → Inv db → (out : Outcome Bool) → Ran plan db out → Owes world plan Inv Post db out
  ran db inv (raise x, db') r = Ran-Refines plan db0 db _ r inv.safe inv.refines
  ran db inv (ok true, db') r = (
    record {
      safe = Safe-Ran plan db0 db _ r inv.safe;
      same_run = r.advance.run_after ∙ inv.same_run;
      refines = Ran-Refines plan db0 db _ r inv.safe inv.refines;
    },
    pending_keys-after_lt plan.run_id r.key r.row db _ r.advance r.at_key r.idle plan.node_keys
        r.known,
  )
  ran db inv (ok false, db') r = Ran-Refines plan db0 db _ r inv.safe inv.refines

  complete : (db : Db) → Inv db → IsComplete plan db
  complete db inv = record {
    unique = inv.safe.unique;
    rows = inv.safe.rows;
    run = run;
    has_run = inv.same_run ∙ has_run;
  }

  step : (db : Db) → Inv db → Owes world plan Inv Post db (turn world plan db)
  step db inv = elim (turn-Cases world plan db is_plan (complete db inv)) [
    | inl e ↦ subst (Owes world plan Inv Post db) (sym e) (
        Refines-then plan.edges db0 db _ inv.refines
          (Refines-same plan.edges db _ (nodes-set_run_awaiting_human plan.run_id db)))
    | inr (inl ended) ↦ subst (Owes world plan Inv Post db) (sym ended.outcome) (
        Refines-then plan.edges db0 db _ inv.refines (
          Refines-same plan.edges db _
            (nodes-finalize_run plan.run_id plan.node_keys plan.edges db)))
    | inr (inr r) ↦ ran db inv _ r
  ]

  pub loop-Refines :
      IsComplete plan db0 → Refines plan.edges db0 (loop (suc (length db0.nodes)) world plan db0).1
  loop-Refines c =
      loop_rule world plan Inv Post step (suc (length db0.nodes)) db0
        (enough_fuel plan db0 is_plan c)
        (record {
          safe = Safe-refl plan db0 c;
          same_run = refl;
          refines = Refines-same plan.edges db0 db0 refl;
        })
