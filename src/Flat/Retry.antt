-- ===== src/Flat/Retry.antt =====
-- The attempts of a task, and what its execution leaves of the run.
use text.Mathlib.TextEquality.{eq_iff}
use vaic2026_charcalavong.Prelude.{
  ℕ, zero, suc, ◌+◌, ◌≤◌, ◌<◌, String, ◌≡◌, refl, sym, ◌∙◌, subst, inl, inr, some, List, [], ◌∷◌,
  arith, if◌then◌else◌, ◌==◌, string_eq, nat_eq, Result, ok, raise, Bool-cases,
}
use vaic2026_charcalavong.Store.{Json, Db, Task, task_pending, claimed, run_completed, run_failed}
use vaic2026_charcalavong.State.{set_run, transition_task_status}
use vaic2026_charcalavong.Engine.Outcome.{run_status, IsRunning}
use vaic2026_charcalavong.Flat.{
  TaskWorld, Attempted, run_with_retry, settle_task, execute_task_row, aggregate_run,
  has_succeeded_task, finish_run, execute_all,
}

-- The attempts: `out` is the answer of the last, those before it raised, and an exception is
-- passed on only when no attempt is left.
pub record Attempts (world : TaskWorld) (task : Task) (dept : String) (calls retries : ℕ)
    (out : Attempted) : Type 0 where
  pub last : ℕ
  pub counted : out.1 ≡ suc last
  pub from_first : calls ≤ last
  pub bounded : last ≤ calls + retries
  pub answer : out.0 ≡ world.execute last task dept
  pub earlier :
      (i : ℕ) → calls ≤ i → i < last → (e : String) × (world.execute i task dept ≡ raise e)
  pub exhausted : (e : String) → out.0 ≡ raise e → last ≡ calls + retries

module _ (world : TaskWorld) (task : Task) (dept : String) where
  later :
      (calls retries : ℕ) (e : String) (out : Attempted)
      → world.execute calls task dept ≡ raise e
      → Attempts world task dept (suc calls) retries out
      → Attempts world task dept calls (suc retries) out
  later calls retries e out raised a = record {
    last = a.last;
    counted = a.counted;
    from_first = omega (arith, a.from_first);
    bounded = omega (arith, a.bounded);
    answer = a.answer;
    earlier = λ i lo hi. elim (Bool-cases (calls == i)) [
      | inl t ↦ (
        e,
        subst (λ j. world.execute j task dept ≡ raise e) {x = calls} {y = i} (ground (arith, t))
            raised,
      )
      | inr f ↦ a.earlier i (ground (arith, f, lo)) hi
    ];
    exhausted = λ x h. omega (arith, a.exhausted x h);
  }

  -- The task is attempted once, and again as long as the attempt raised and `retries` are left. The
  -- result is that of the last attempt, every attempt before it raised, there are at most one more
  -- than `retries`, and an exception comes out only if that many were made.
  pub run_with_retry_lem :
      (calls retries : ℕ)
      → Attempts world task dept calls retries (run_with_retry world calls retries task dept)
  unfolding run_with_retry
  run_with_retry_lem calls zero = record {
    last = calls;
    counted = refl;
    from_first = omega arith;
    bounded = omega arith;
    answer = refl;
    earlier = λ i lo hi. absurd (omega (arith, lo, hi));
    exhausted = λ e h. omega arith;
  }
  run_with_retry_lem calls (suc retries) =
      first (world.execute calls task dept) refl (run_with_retry_lem (suc calls) retries)
    where
      first :
          (r : Result String Json)
          → world.execute calls task dept ≡ r
          → Attempts world task dept
              (suc calls)
              retries
              (run_with_retry world (suc calls) retries task dept)
          → Attempts world task dept calls
              (suc retries)
              (run_with_retry world calls (suc retries) task dept)
      first (ok dump) e ih = rw e (record {
        last = calls;
        counted = refl;
        from_first = omega arith;
        bounded = omega arith;
        answer = sym e;
        earlier = λ i lo hi. absurd (omega (arith, lo, hi));
        exhausted = λ x h. cc;
      })
      first (raise x) e ih = rw e (later calls retries x _ e ih)

run-settle_task :
    (task : Task) (r : Result String Json) (db : Db) → (settle_task task r db).run ≡ db.run
unfolding settle_task transition_task_status
run-settle_task task (ok dump) db = refl
run-settle_task task (raise e) db = refl

run-execute_task_row :
    (world : TaskWorld) (retries : ℕ) (task : Task) (db : Db) (calls : ℕ)
    → (execute_task_row world retries task db calls).0.run ≡ db.run
unfolding execute_task_row transition_task_status
run-execute_task_row world retries task db calls =
    elim (Bool-cases (transition_task_status task.id task_pending claimed (λ t. t) db).1) [
      | inl t ↦ rw t (run-settle_task task _ _)
      | inr f ↦ rw f refl
    ]

pub run-execute_all :
    (world : TaskWorld) (retries : ℕ) (tasks : List Task) (db : Db) (calls : ℕ)
    → (execute_all world retries tasks db calls).0.run ≡ db.run
unfolding execute_all
run-execute_all world retries [] db calls = refl
run-execute_all world retries (task ∷ tasks) db calls =
    let after = execute_task_row world retries task db calls in
    run-execute_all world retries tasks after.0 after.1
    ∙ run-execute_task_row world retries task db calls

pub run_status-finish_run :
    (run_id : String) (db : Db)
    → IsRunning run_id db.run
    → run_status (finish_run run_id db)
      ≡ some (if has_succeeded_task (aggregate_run db) then run_completed else run_failed)
unfolding finish_run set_run
run_status-finish_run run_id db (r, e, same, s) = ground (arith, e, s, eq_iff r.id run_id)
