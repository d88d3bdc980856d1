-- ===== src/Flat/Ends.antt =====
-- How a run without a graph ends, in terms of what its tasks' agents answer.
use text.Mathlib.TextEquality.{eq_iff}
use vaic2026_charcalavong.Prelude.{
  ℕ, suc, String, ◌≡◌, refl, sym, ap, ◌∙◌, subst, inl, inr, Bool, true, false, ◌&&◌, ◌||◌,
  elem_self, elem_cons, beq→≡, some, List, [], ◌∷◌, ◌++◌, map, any, elem, Distinct, arith,
  if◌then◌else◌, ◌==◌, string_eq, nat_eq, beq_refl, Result, ok, raise, Bool-cases,
}
use vaic2026_charcalavong.Store.{
  Json, null, truth, num, str, arr, obj, end, field, Db, Task, TaskStatus, task_pending, claimed,
  task_completed, task_failed, run_completed, run_failed, update_where, count_where,
}
use vaic2026_charcalavong.State.{
  set_run, transition_task_status, task_code, stamp, is_claimed, is_terminal_task,
}
use vaic2026_charcalavong.Engine.Outcome.{run_status, IsRunning}
use vaic2026_charcalavong.Flat.{
  TaskWorld, Attempted, try_task, set_result, settle_task, settled_with, execute_task_row,
  aggregate_run, has_succeeded_task, get, is_truthy, is_success, execute_all, orchestrate_run,
}
use vaic2026_charcalavong.Flat.Retry.{run-execute_all, run_status-finish_run}

-- What comes of a task's attempts, and of those of every task in turn: no table is read or written.
abbrev answer : TaskWorld → ℕ → Task → ℕ → Attempted
unfolding try_task
answer world retries task calls =
    try_task world calls retries task (world.department task.target_agent_id)

unfoldable pub answers : TaskWorld → ℕ → List Task → ℕ → List (Result String Json)
unfolding answer
answers world retries [] calls = []
answers world retries (task ∷ tasks) calls =
    let (result, calls') = answer world retries task calls in
    result ∷ answers world retries tasks calls'

-- The agent answered, and says that it succeeded.
abbrev pub succeeded : Result String Json → Bool
succeeded (ok (obj fields)) = is_truthy (get "success" fields)
succeeded _ = false

abbrev step : ℕ → TaskStatus → (Task → Task) → Task → Task
step now to extra t = extra (record t {
  status = to;
  claimed_at = stamp (is_claimed to) now t.claimed_at;
  completed_at = stamp (is_terminal_task to) now t.completed_at;
})

-- The row of a task after its attempts
abbrev closed : ℕ → Task → Result String Json → Task
closed now t (ok dump) = step now task_completed (set_result dump) (step now claimed (λ t. t) t)
closed now t (raise e) =
    step now task_failed (set_result (obj (field "error" (str e) end)))
      (step now claimed (λ t. t) t)

unfoldable closed_all : ℕ → List Task → List (Result String Json) → List Task
closed_all now (t ∷ ts) (r ∷ rs) = closed now t r ∷ closed_all now ts rs
closed_all now _ _ = []

abbrev pub task_ids : List Task → List String
task_ids tasks = map (λ (t : Task). t.id) tasks

abbrev hit : String → TaskStatus → Task → Bool
hit id from t = (t.id == id) && (task_code t.status == task_code from)

update-others :
    (id : String) (from : TaskStatus) (change : Task → Task) (tasks : List Task)
    → elem id (task_ids tasks) ≡ false
    → (update_where (hit id from) change tasks ≡ tasks) × (count_where (hit id from) tasks ≡ 0)
unfolding update_where count_where elem
update-others id from change [] f = (refl, refl)
update-others id from change (t ∷ tasks) f = elim (Bool-cases (t.id == id)) [
  | inl e ↦ absurd (ground (arith, f, e))
  | inr e ↦
      let (same, none) = update-others id from change tasks (ground (arith, f, e)) in
      (rw e (ap (λ ts. t ∷ ts) same), rw e none)
]

-- The update of the one row with the id
update-one :
    (from : TaskStatus) (change : Task → Task) (before rest : List Task) (t : Task)
    → elem t.id (task_ids before) ≡ false
    → elem t.id (task_ids rest) ≡ false
    → t.status ≡ from
    → (update_where (hit t.id from) change (before ++ t ∷ rest) ≡ before ++ change t ∷ rest)
      × (count_where (hit t.id from) (before ++ t ∷ rest) ≡ 1)
unfolding update_where count_where elem
update-one from change [] rest t f g s =
    let (same, none) = update-others t.id from change rest g in
    let here : hit t.id from t ≡ true =
      ground (arith, s, beq_refl t.id, beq_refl (task_code from)) in
    (rw here (ap (λ ts. change t ∷ ts) same), rw here (ap suc none))
update-one from change (u ∷ before) rest t f g s = elim (Bool-cases (u.id == t.id)) [
  | inl e ↦ absurd (ground (arith, f, e))
  | inr e ↦
      let (same, one) = update-one from change before rest t (ground (arith, f, e)) g s in
      (rw e (ap (λ ts. u ∷ ts) same), rw e one)
]

-- The compare-and-set of a task whose row is there
transition-one :
    (from to : TaskStatus) (extra : Task → Task) (before rest : List Task) (t : Task) (db : Db)
    → elem t.id (task_ids before) ≡ false
    → elem t.id (task_ids rest) ≡ false
    → t.status ≡ from
    → db.tasks ≡ before ++ t ∷ rest
    → transition_task_status t.id from to extra db
      ≡ (record db { tasks = before ++ step db.now to extra t ∷ rest }, true)
unfolding transition_task_status
transition-one from to extra before rest t db f g s e =
    let (same, one) = update-one from (step db.now to extra) before rest t f g s in
    ap
      (λ tasks. (
        record db { tasks = update_where (hit t.id from) (step db.now to extra) tasks },
        count_where (hit t.id from) tasks == 1,
      ))
      e
    ∙ ap
        (λ tasks.
          (record db { tasks = tasks }, count_where (hit t.id from) (before ++ t ∷ rest) == 1))
        same
    ∙ ap (λ n. (record db { tasks = before ++ step db.now to extra t ∷ rest }, n == 1)) one

settle-one :
    (before rest : List Task) (t : Task) (r : Result String Json) (db : Db)
    → elem t.id (task_ids before) ≡ false
    → elem t.id (task_ids rest) ≡ false
    → db.tasks ≡ before ++ step db.now claimed (λ t. t) t ∷ rest
    → ((settle_task t r db).tasks ≡ before ++ closed db.now t r ∷ rest)
      × ((settle_task t r db).now ≡ db.now)
unfolding settle_task
settle-one before rest t (ok dump) db f g e =
    let done =
      transition-one claimed task_completed (set_result dump) before rest
        (step db.now claimed (λ t. t) t) db f g refl e in
    (ap (λ o. o.0.tasks) done, ap (λ o. o.0.now) done)
settle-one before rest t (raise x) db f g e =
    let done =
      transition-one claimed task_failed (set_result (obj (field "error" (str x) end))) before rest
        (step db.now claimed (λ t. t) t) db f g refl e in
    (ap (λ o. o.0.tasks) done, ap (λ o. o.0.now) done)

shift : (before rest : List Task) (t : Task) → before ++ t ∷ rest ≡ (before ++ t ∷ []) ++ rest
shift [] rest t = refl
shift (u ∷ before) rest t = ap (λ ts. u ∷ ts) (shift before rest t)

elem-shift :
    (k : String) (before : List Task) (t : Task)
    → elem k (task_ids (before ++ t ∷ [])) ≡ (elem k (task_ids before) || t.id == k)
unfolding elem
elem-shift k [] t = ground arith
elem-shift k (u ∷ before) t = ground (arith, elem-shift k before t)

closed-id : (now : ℕ) (t : Task) (r : Result String Json) → (closed now t r).id ≡ t.id
closed-id now t (ok dump) = refl
closed-id now t (raise e) = refl

-- None of the tasks to come is among those before.
abbrev Apart : List Task → List Task → Type 0
Apart before tasks =
    (k : String) → elem k (task_ids tasks) ≡ true → elem k (task_ids before) ≡ false

abbrev pub AllPending : List Task → Type 0
AllPending [] = Unit {0}
AllPending (t ∷ ts) = (t.status ≡ task_pending) × AllPending ts

module _ (world : TaskWorld) (retries : ℕ) where
  abbrev claim_then : Task → ℕ → Db × Bool → Db × ℕ
  unfolding settled_with answer
  claim_then t calls o =
      if o.1 then settled_with t o.0 (answer world retries t calls) else (o.0, calls)

  execute-one :
      (before rest : List Task) (t : Task) (db : Db) (calls : ℕ)
      → elem t.id (task_ids before) ≡ false
      → elem t.id (task_ids rest) ≡ false
      → t.status ≡ task_pending
      → db.tasks ≡ before ++ t ∷ rest
      → let (db', calls') = execute_task_row world retries t db calls in
        (db'.tasks ≡ before ++ closed db.now t (answer world retries t calls).0 ∷ rest)
        × (db'.now ≡ db.now)
        × (calls' ≡ (answer world retries t calls).1)
  unfolding execute_task_row settled_with answer claim_then
  execute-one before rest t db calls f g s e =
      let won =
        ap (claim_then t calls)
          (transition-one task_pending claimed (λ t. t) before rest t db f g s e) in
      let (tasks, now) =
        settle-one before rest t (answer world retries t calls).0
          (record db { tasks = before ++ step db.now claimed (λ t. t) t ∷ rest }) f g refl in
      (ap (λ o. o.0.tasks) won ∙ tasks, ap (λ o. o.0.now) won ∙ now, ap (λ o. o.1) won)

  Apart-next :
      (before : List Task) (t : Task) (tasks : List Task) (r : Result String Json) (now : ℕ)
      → Apart before (t ∷ tasks)
      → elem t.id (task_ids tasks) ≡ false
      → Apart (before ++ closed now t r ∷ []) tasks
  Apart-next before t tasks r now a d k m =
      let other : (t.id == k) ≡ false = elim (Bool-cases (t.id == k)) [
        | inl e ↦
            absurd (
              let same = subst (λ k. elem k (task_ids tasks) ≡ true) (sym (beq→≡ t.id k e)) m in cc)
        | inr f ↦ f
      ] in
      elem-shift k before (closed now t r)
      ∙ rw (a k (elem_cons t.id k (task_ids tasks) m)) (rw (closed-id now t r) other)

  execute-all :
      (before tasks : List Task) (db : Db) (calls : ℕ)
      → Apart before tasks
      → Distinct (task_ids tasks)
      → AllPending tasks
      → db.tasks ≡ before ++ tasks
      → (execute_all world retries tasks db calls).0.tasks
        ≡ before ++ closed_all db.now tasks (answers world retries tasks calls)
  unfolding execute_all answers closed_all
  execute-all before [] db calls a d p e = e
  execute-all before (t ∷ tasks) db calls a d p e =
      let after = execute_task_row world retries t db calls in
      let out = (answer world retries t calls).0 in
      let (rows, now, count) =
        execute-one before tasks t db calls (a t.id (elem_self t.id (task_ids tasks))) d.0 p.0 e in
      execute-all (before ++ closed db.now t out ∷ []) tasks after.0 after.1
        (Apart-next before t tasks out db.now a d.0) d.1 p.1
        (rows ∙ shift before tasks (closed db.now t out))
      ∙ ap
          (λ (x : ℕ × ℕ).
            (before ++ closed db.now t out ∷ [])
            ++ closed_all x.0 tasks (answers world retries tasks x.1))
          {x = (after.0.now, after.1)} {y = (db.now, (answer world retries t calls).1)}
          (λ i. (now i, count i))
      ∙ sym (
          shift before
            (closed_all db.now tasks (answers world retries tasks (answer world retries t calls).1))
            (closed db.now t out))

closed_one :
    (now : ℕ) (t : Task) (r : Result String Json)
    → ((task_code (closed now t r).status == task_code task_completed)
        && is_success (closed now t r).result)
      ≡ succeeded r
closed_one now t (ok null) = refl
closed_one now t (ok (truth b)) = refl
closed_one now t (ok (num n)) = refl
closed_one now t (ok (str x)) = refl
closed_one now t (ok (arr items)) = refl
closed_one now t (ok (obj fields)) = refl
closed_one now t (raise e) = refl

has_succeeded-closed :
    (world : TaskWorld) (retries now : ℕ) (tasks : List Task) (calls : ℕ) (db : Db)
    → has_succeeded_task (
        aggregate_run
          (record db { tasks = closed_all now tasks (answers world retries tasks calls) }))
      ≡ any succeeded (answers world retries tasks calls)
unfolding aggregate_run has_succeeded_task any answers closed_all
has_succeeded-closed world retries now [] calls db = refl
has_succeeded-closed world retries now (t ∷ tasks) calls db =
    rw (closed_one now t (answer world retries t calls).0) (
      ap (λ b. succeeded (answer world retries t calls).0 || b)
        (has_succeeded-closed world retries now tasks (answer world retries t calls).1 db))

-- Conditions: the run is `running`, its rows of tasks are those that the decomposition made, all
-- `pending` and with distinct ids. Then the run is completed if some agent's answer, after the
-- attempts that its task is given, says that it succeeded, and failed if none does: also if there is
-- no task, and where an agent is unknown, keeps raising, or answers without saying so.
pub orchestrate_run_lem :
    (world : TaskWorld) (retries : ℕ) (run_id : String) (db : Db) (calls : ℕ)
    → IsRunning run_id db.run
    → Distinct (task_ids db.tasks)
    → AllPending db.tasks
    → run_status (orchestrate_run world retries run_id db.tasks db calls)
      ≡ some (
          if any succeeded (answers world retries db.tasks calls)
          then run_completed
          else run_failed)
unfolding orchestrate_run set_run answers any elem
orchestrate_run_lem world retries run_id db calls running distinct waiting =
    ends db.tasks db refl running distinct waiting
  where
    ends :
        (tasks : List Task) (db : Db)
        → db.tasks ≡ tasks
        → IsRunning run_id db.run
        → Distinct (task_ids db.tasks)
        → AllPending db.tasks
        → run_status (orchestrate_run world retries run_id tasks db calls)
          ≡ some (
              if any succeeded (answers world retries tasks calls)
              then run_completed
              else run_failed)
    ends [] db e (r, has, same, s) d p = ground (arith, has, s, eq_iff r.id run_id)
    ends (t ∷ tasks) db e running d p =
        let all = t ∷ tasks in
        let db' = (execute_all world retries all db calls).0 in
        let rows =
          execute-all world retries [] all db calls (λ k m. refl)
            (subst (λ ts. Distinct (task_ids ts)) e d) (subst AllPending e p) e in
        run_status-finish_run run_id db'
          (subst (IsRunning run_id) (sym (run-execute_all world retries all db calls)) running)
        ∙ ap (λ b. some (if b then run_completed else run_failed))
            (ap (λ ts. has_succeeded_task (aggregate_run (record db' { tasks = ts }))) rows
              ∙ has_succeeded-closed world retries db.now all calls db')
