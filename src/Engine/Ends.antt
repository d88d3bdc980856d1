-- ===== src/Engine/Ends.antt =====
-- The postcondition of the engine's loop, from the cases of a turn.
use mathlib.Core.Option
use vaic2026_charcalavong.Prelude.{
  suc, String, ◌≡◌, ◌↔◌, refl, sym, ap, ◌∙◌, subst, inl, inr, Bool, true, false, some, arith,
  string_eq, ok, raise, length,
}
use vaic2026_charcalavong.Store.{Db, WorkflowRun, run_completed, by_key}
use vaic2026_charcalavong.Engine.Types.{EngineError, agent_not_found, World, Plan, Outcome}
use vaic2026_charcalavong.Engine.Node.{set_run_awaiting_human}
use vaic2026_charcalavong.Engine.Final.{finalize_run, final_status}
use vaic2026_charcalavong.Engine.Loop.{turn, loop}
use vaic2026_charcalavong.Engine.Advance.{
  nodes-set_run_awaiting_human, rollbacks-set_run_awaiting_human, run-set_run_awaiting_human,
}
use vaic2026_charcalavong.Engine.Turn.{IsPlan, IsComplete, Ran, Ended, turn-Cases}
use vaic2026_charcalavong.Engine.Safe.{
  AllSettled, Safe, Safe-refl, Safe-same, Safe-Ran, AllSettled-Ran,
}
use vaic2026_charcalavong.Engine.Outcome.{
  AllCompleted, IsRunning, IsStopped, KeepsRun, KeepsRun-finalize_run, KeepsRun-paused_run,
  nodes-finalize_run, rollbacks-finalize_run, status-finalize_run, status-paused_run,
  final_status-terminal, final_status_lem,
}
use vaic2026_charcalavong.Engine.Run.{pending_keys-after_lt, Owes, loop_rule, enough_fuel}

module _ (world : World) (plan : Plan) (is_plan : IsPlan plan) (db0 : Db) where
  -- What holds whenever the loop comes back to its head.
  record Inv (db : Db) : Type 0 where
    safe : Safe plan db0 db
    same_run : db.run ≡ db0.run
    settled : AllSettled db0 → AllSettled db

  -- What holds when it is left.
  pub record Ends (out : Outcome (Unit {0})) : Type 0 where
    pub safe : Safe plan db0 out.1
    pub keeps : (r : WorkflowRun) → db0.run ≡ some r → KeepsRun r out.1.run
    pub stops :
        out.0 ≡ ok tt
        → AllSettled db0
        → IsRunning plan.run_id db0.run
        → IsStopped plan.node_keys out.1
    pub raises :
        (x : EngineError)
        → out.0 ≡ raise x
        → (out.1.run ≡ db0.run) × ((agent_id : String) × (x ≡ agent_not_found agent_id))

  module _ (run : WorkflowRun) (has_run : db0.run ≡ some run) where
    complete : (db : Db) → Inv db → IsComplete plan db
    complete db inv = record {
      unique = inv.safe.unique;
      rows = inv.safe.rows;
      run = run;
      has_run = inv.same_run ∙ has_run;
    }

    IsRunning-same :
        (db : Db) → Inv db → IsRunning plan.run_id db0.run → IsRunning plan.run_id db.run
    IsRunning-same db inv h = subst (IsRunning plan.run_id) (sym inv.same_run) h

    paused : (db : Db) → Inv db → Ends (ok tt, set_run_awaiting_human plan.run_id db)
    paused db inv = record {
      safe =
          Safe-same plan db0 db _ (nodes-set_run_awaiting_human plan.run_id db)
            (rollbacks-set_run_awaiting_human plan.run_id db) inv.safe;
      keeps = λ r e.
          subst (KeepsRun r) (sym (run-set_run_awaiting_human plan.run_id db))
            (KeepsRun-paused_run plan.run_id db.now db.run r (inv.same_run ∙ e));
      stops = λ _ _ h. inl (
          ap (Option.map (λ (r : WorkflowRun). r.status))
            (run-set_run_awaiting_human plan.run_id db)
          ∙ status-paused_run plan.run_id db.now db.run (IsRunning-same db inv h));
      raises = λ x e. cc;
    }

    finalized :
        (db : Db) (out : Outcome Bool)
        → Inv db
        → Ended plan db out
        → Ends (ok tt, finalize_run plan.run_id plan.node_keys plan.edges db)
    finalized db out inv ended = record {
      safe =
          Safe-same plan db0 db _ (nodes-finalize_run plan.run_id plan.node_keys plan.edges db)
            (rollbacks-finalize_run plan.run_id plan.node_keys plan.edges db) inv.safe;
      keeps = λ r e.
          KeepsRun-finalize_run plan.run_id plan.node_keys plan.edges db r (inv.same_run ∙ e);
      stops = λ _ settled h. inr (
        final_status plan.node_keys plan.edges (by_key db.nodes),
        status-finalize_run plan.run_id plan.node_keys plan.edges db (IsRunning-same db inv h),
        final_status-terminal plan.node_keys plan.edges (by_key db.nodes),
        subst
            (λ ns.
              (final_status plan.node_keys plan.edges (by_key db.nodes) ≡ run_completed)
              ↔ AllCompleted plan.node_keys (record db { nodes = ns }))
            (sym (nodes-finalize_run plan.run_id plan.node_keys plan.edges db))
            (final_status_lem plan is_plan db (complete db inv) out ended (inv.settled settled)),
      );
      raises = λ x e. cc;
    }

    ran :
        (db : Db)
        → Inv db
        → (out : Outcome Bool) → Ran plan db out
        → Owes world plan Inv Ends db out
    ran db inv (raise x, db') r = record {
      safe = Safe-Ran plan db0 db _ r inv.safe;
      keeps = λ w e. (w, r.advance.run_after ∙ inv.same_run ∙ e, refl);
      stops = λ e. cc;
      raises = λ y e. (
        r.advance.run_after ∙ inv.same_run,
        (r.row.agent_id, ground (arith, e, r.advance.error x refl)),
      );
    }
    ran db inv (ok true, db') r = (
      record {
        safe = Safe-Ran plan db0 db _ r inv.safe;
        same_run = r.advance.run_after ∙ inv.same_run;
        settled = λ h. AllSettled-Ran plan db0 db _ r refl (inv.settled h);
      },
      pending_keys-after_lt plan.run_id r.key r.row db _ r.advance r.at_key r.idle plan.node_keys
          r.known,
    )
    ran db inv (ok false, db') r = record {
      safe = Safe-Ran plan db0 db _ r inv.safe;
      keeps = λ w e.
          subst (KeepsRun w) (sym r.advance.run_after)
            (KeepsRun-paused_run plan.run_id db.now db.run w (inv.same_run ∙ e));
      stops = λ _ _ h. inl (
          ap (Option.map (λ (r : WorkflowRun). r.status)) r.advance.run_after
          ∙ status-paused_run plan.run_id db.now db.run (IsRunning-same db inv h));
      raises = λ x e. cc;
    }

    step : (db : Db) → Inv db → Owes world plan Inv Ends db (turn world plan db)
    step db inv = elim (turn-Cases world plan db is_plan (complete db inv)) [
      | inl e ↦ subst (Owes world plan Inv Ends db) (sym e) (paused db inv)
      | inr (inl ended) ↦
          subst (Owes world plan Inv Ends db) (sym ended.outcome) (finalized db _ inv ended)
      | inr (inr r) ↦ ran db inv _ r
    ]

    pub loop-Ends : IsComplete plan db0 → Ends (loop (suc (length db0.nodes)) world plan db0)
    loop-Ends c =
        loop_rule world plan Inv Ends step (suc (length db0.nodes)) db0
          (enough_fuel plan db0 is_plan c)
          (record { safe = Safe-refl plan db0 c; same_run = refl; settled = λ h. h })
