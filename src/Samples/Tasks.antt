-- ===== src/Samples/Tasks.antt =====
-- A task whose agent fails once and then answers.
use vaic2026_charcalavong.Prelude.{
  ◌≡◌, refl, true, [], ◌∷◌, some, none, any, elem, Distinct, string_eq, if◌then◌else◌, ◌==◌, nat_eq,
  ok, raise,
}
use vaic2026_charcalavong.Store.{
  truth, obj, end, field, Db, Task, task_pending, run_completed, run_failed, update_where,
  count_where,
}
use vaic2026_charcalavong.Engine.Outcome.{run_status}
use vaic2026_charcalavong.Flat.{TaskWorld, run_with_retry, orchestrate_run}
use vaic2026_charcalavong.Flat.Retry.{Attempts, run_with_retry_lem}
use vaic2026_charcalavong.Flat.Ends.{succeeded, answers, task_ids, orchestrate_run_lem}
use vaic2026_charcalavong.Samples.{run}

abbrev task : Task
task = record {
  id = "t";
  target_agent_id = "agent";
  status = task_pending;
  schema_payload = obj end;
  result = none;
  claimed_at = none;
  completed_at = none;
}

abbrev flaky : TaskWorld
flaky = record {
  department = λ agent. ok "d";
  execute = λ n task dept.
      if n == 0 then raise "timeout" else ok (obj (field "success" (truth true) end));
}

abbrev flat_run : Db
flat_run = record {
  run = some run;
  nodes = [];
  rollbacks = [];
  tasks = task ∷ [];
  audit = [];
  notifications = [];
  calls = [];
  now = 1;
}

flat_completed :
    run_status (orchestrate_run flaky 2 "r" (task ∷ []) flat_run 0) ≡ some run_completed
unfolding orchestrate_run update_where count_where any
flat_completed = refl

run_with_retry_lem_example : Attempts flaky task "d" 0 2 (run_with_retry flaky 0 2 task "d")
run_with_retry_lem_example = run_with_retry_lem flaky task "d" 0 2

abbrev two_tasks : Db
two_tasks = record flat_run { tasks = task ∷ record task { id = "u" } ∷ [] }

two_ids : Distinct (task_ids two_tasks.tasks)
unfolding elem
two_ids = (refl, (refl, tt))

orchestrate_run_lem_example :
    run_status (orchestrate_run flaky 2 "r" two_tasks.tasks two_tasks 0)
    ≡ some (if any succeeded (answers flaky 2 two_tasks.tasks 0) then run_completed else run_failed)
orchestrate_run_lem_example =
    orchestrate_run_lem flaky 2 "r" two_tasks 0 (run, refl, refl, refl) two_ids
      (refl, (refl, record {}))
