-- ===== src/Actions/Live.antt =====
-- The worker's job for one tenant: every pending event is settled and every new run has its job.
use vaic2026_charcalavong.Prelude.{
  ℕ, String, ◌≡◌, sym, ap, ◌∙◌, inl, inr, true, some, List, ◌++◌, map, if◌then◌else◌, ok,
}
use vaic2026_charcalavong.Store.{Db}
use vaic2026_charcalavong.Actions.{
  EventStatus, is_event_pending, ActionBinding, ActionEvent, run_workflow_job, run_agent_task_job,
  Desk,
}
use vaic2026_charcalavong.Actions.Dispatch.{after, id_of_run, find_event}
use vaic2026_charcalavong.Actions.Sweep.{
  jobs_of, notify_completed_events, process_tenant_action_events,
}
use vaic2026_charcalavong.Actions.Growth.{AllRunnable}
use vaic2026_charcalavong.Actions.Rounds.{verdict, Settled}
use vaic2026_charcalavong.Actions.Passes.{dispatch_pending_events-Passed}
use vaic2026_charcalavong.Actions.Swept.{SameOrNotified, notify_completed_events-Swept}

-- The status that a job leaves: a pending event is dispatched or skipped, another one keeps its own.
abbrev pub next_status : ActionEvent → List ActionBinding → EventStatus
next_status ev bindings = if is_event_pending ev.status then verdict ev bindings else ev.status

pub record Processed (s s' : Desk) : Type 0 where
  pub new_runs : List Db
  pub agent_tasks : List (String × String)
  pub runs : s'.catalog.runs ≡ s.catalog.runs ++ new_runs
  pub jobs :
      s'.jobs
      ≡ s.jobs
        ++ (map run_workflow_job (map id_of_run new_runs)
            ++ map (λ (t : String × String). run_agent_task_job t.0 t.1) agent_tasks)
  pub statuses :
      (k : String) (ev : ActionEvent)
      → find_event k s.events ≡ some ev
      → (ev' : ActionEvent) × (find_event k s'.events ≡ some ev')
        × (ev'.status ≡ next_status ev s.bindings)

next-Settled :
    (bindings : List ActionBinding) (ev ev' ev'' : ActionEvent)
    → Settled bindings true ev ev'
    → SameOrNotified ev' ev''
    → ev''.status ≡ next_status ev bindings
next-Settled bindings ev ev' ev'' settled same =
    let kept : ev''.status ≡ ev'.status = elim same [
      | inl e ↦ ap (λ (x : ActionEvent). x.status) e
      | inr e ↦ ap (λ (x : ActionEvent). x.status) e
    ] in
    kept ∙ elim settled [
      | inl (f, e) ↦
          ap (λ (x : ActionEvent). x.status) e
          ∙ sym (ap (λ c. if c then verdict ev bindings else ev.status) f)
      | inr (t, e) ↦ e ∙ sym (ap (λ c. if c then verdict ev bindings else ev.status) t)
    ]

module _ (new_id : ℕ → String) where
  -- Condition: every workflow that a binding names exists, and its graph passes validation. Then
  -- the job returns. Each event that was pending is dispatched if an active binding of its database
  -- and event type exists, and skipped otherwise; each other event keeps its status. Runs are only
  -- added, and each new run has its job in the queue, in their order and before the agents' tasks.
  pub process_tenant_action_events_lem :
      (s : Desk)
      → AllRunnable s.catalog.workflows s.bindings
      → (s' : Desk) × (process_tenant_action_events new_id true s ≡ (ok tt, s')) × Processed s s'
  unfolding process_tenant_action_events
  process_tenant_action_events_lem s run =
      let g = dispatch_pending_events-Passed new_id s run in
      let queued : Desk = record g.s' { jobs = g.s'.jobs ++ jobs_of g.acc' } in
      let w = notify_completed_events-Swept new_id queued in
      (
        notify_completed_events new_id queued,
        ap
            (λ o. after o (λ out s'. (
              ok tt,
              notify_completed_events new_id
                  (record s' { jobs = if true then s'.jobs ++ jobs_of out else s'.jobs }),
            )))
            g.returns,
        record {
          new_runs = g.grew.new_runs;
          agent_tasks = g.acc'.agent_tasks;
          runs = w.same_runs ∙ g.grew.runs;
          jobs =
              w.same_jobs
              ∙ ap (λ js. js ++ jobs_of g.acc') g.grew.same_jobs
              ∙ ap
                  (λ ids.
                    s.jobs
                    ++ (map run_workflow_job ids
                        ++ map (λ (t : String × String). run_agent_task_job t.0 t.1)
                            g.acc'.agent_tasks))
                  g.grew.reported;
          statuses = λ k ev h.
              let (ev', h', settled) = g.settled k ev h in
              let (ev'', h'', same) = w.kept k ev' h' in
              (ev'', h'', next-Settled s.bindings ev ev' ev'' settled same);
        },
      )
