-- ===== src/Actions/Answered.antt =====
-- An agent's task leaves its entry on the event, however it ends.
use vaic2026_charcalavong.Prelude.{
  ℕ, String, ◌≡◌, refl, sym, ap, ◌∙◌, inl, inr, true, false, ◌||◌, Option, none, some, [], ◌∷◌,
  ◌++◌, if◌then◌else◌, ◌==◌, string_eq, beq_refl, Option-cases,
}
use mathlib.Core.Option
use vaic2026_charcalavong.Actions.{
  event_failed, is_some, ActionBinding, ActionEvent, AgentEntry, Desk,
}
use vaic2026_charcalavong.Actions.Dispatch.{find_event, recipients}
use vaic2026_charcalavong.Actions.Growth.{notify_users-OnlyNotices}
use vaic2026_charcalavong.Actions.Rows.{find-id, find_event-update}
use vaic2026_charcalavong.Actions.AgentTask.{
  Agents, claim_agent_task, entry_of, add_entry, closed_by, with_entry, finished_notice,
  notify_finished, record_entry, find_binding, finalize_found, finalize_agent_event, attempt,
  run_agent_task,
}

-- The event with the entry: closed if no workflow run is attached, and failed if that went wrong.
pub record IsRecorded (entry : AgentEntry) (ev ev' : ActionEvent) : Type 0 where
  pub same_id : ev'.id ≡ ev.id
  pub entries : ev'.result.agent_results ≡ ev.result.agent_results ++ entry ∷ []
  pub same_dispatched : ev'.result.dispatched ≡ ev.result.dispatched
  pub same_run : ev'.workflow_run_id ≡ ev.workflow_run_id
  pub closes :
      ev'.completed_notified ≡ (if is_some ev.workflow_run_id then ev.completed_notified else true)
  pub fails :
      ev'.status ≡ (if is_some ev.workflow_run_id || entry.success then ev.status else event_failed)

closed_by-IsRecorded :
    (entry : AgentEntry) (o : Option String) (now : ℕ) (ev : ActionEvent)
    → ev.workflow_run_id ≡ o
    → IsRecorded entry ev (
        closed_by entry o
          (record ev { result = add_entry entry ev.result; processed_at = some now }))
closed_by-IsRecorded entry none now ev e = record {
  same_id = refl;
  entries = refl;
  same_dispatched = refl;
  same_run = refl;
  closes = ap (λ o. if is_some o then ev.completed_notified else true) (sym e);
  fails = ap (λ o. if is_some o || entry.success then ev.status else event_failed) (sym e);
}
closed_by-IsRecorded entry (some run_id) now ev e = record {
  same_id = refl;
  entries = refl;
  same_dispatched = refl;
  same_run = refl;
  closes = ap (λ o. if is_some o then ev.completed_notified else true) (sym e);
  fails = ap (λ o. if is_some o || entry.success then ev.status else event_failed) (sym e);
}

with_entry-IsRecorded :
    (entry : AgentEntry) (now : ℕ) (ev : ActionEvent)
    → IsRecorded entry ev (with_entry entry now ev)
with_entry-IsRecorded entry now ev = closed_by-IsRecorded entry ev.workflow_run_id now ev refl

find-record_entry :
    (k id : String) (entry : AgentEntry) (s : Desk)
    → find_event k (record_entry id entry s).events
      ≡ Option.map
          (λ (ev : ActionEvent). if ev.id == id then with_entry entry s.catalog.now ev else ev)
          (find_event k s.events)
unfolding record_entry
find-record_entry k id entry s =
    find_event-update k id (with_entry entry s.catalog.now) s.events
      (λ ev. (with_entry-IsRecorded entry s.catalog.now ev).same_id)

module _ (new_id : ℕ → String) (agents : Agents) (event_id binding_id : String) (s : Desk) where
  abbrev entry : AgentEntry
  entry = entry_of binding_id (attempt agents (claim_agent_task agents event_id binding_id s))

  abbrev pub Recorded : ActionEvent → Desk → Type 0
  Recorded ev s' =
      (ev' : ActionEvent) × (find_event event_id s'.events ≡ some ev')
      × IsRecorded
          (entry_of binding_id (attempt agents (claim_agent_task agents event_id binding_id s))) ev
          ev'

  same_events-notified :
      (ev : ActionEvent) (o : Option ActionBinding) (s' : Desk)
      → (notify_finished new_id agents.printed entry ev o s').events ≡ s'.events
  unfolding notify_finished
  same_events-notified ev none s' = refl
  same_events-notified ev (some b) s' =
      (notify_users-OnlyNotices new_id (finished_notice agents.printed entry ev b) (recipients b)
        s').same_events

  events-run_agent_task :
      (ev : ActionEvent)
      → find_event event_id s.events ≡ some ev
      → (run_agent_task new_id agents event_id binding_id s).events
        ≡ (record_entry event_id entry s).events
  unfolding run_agent_task finalize_agent_event finalize_found
  events-run_agent_task ev e =
      ap (λ o. (finalize_found new_id agents.printed event_id binding_id entry o s).events) e
      ∙ same_events-notified ev (find_binding binding_id s.bindings) (record_entry event_id entry s)

  found_itself :
      (ev : ActionEvent)
      → find_event event_id s.events ≡ some ev
      → find_event event_id (record_entry event_id entry s).events
        ≡ some (with_entry entry s.catalog.now ev)
  found_itself ev e =
      find-record_entry event_id event_id entry s
      ∙ ap
          (Option.map (λ (ev : ActionEvent).
            if ev.id == event_id then with_entry entry s.catalog.now ev else ev))
          e
      ∙ ap (λ c. some (if c then with_entry entry s.catalog.now ev else ev))
          (ap (λ i. i == event_id) (find-id event_id s.events ev e) ∙ beq_refl event_id)

  others :
      (k : String)
      → (k == event_id) ≡ false
      → find_event k (record_entry event_id entry s).events ≡ find_event k s.events
  others k f = elim (Option-cases (find_event k s.events)) [
    | inl e ↦
        find-record_entry k event_id entry s
        ∙ ap
            (Option.map (λ (ev : ActionEvent).
              if ev.id == event_id then with_entry entry s.catalog.now ev else ev))
            e
        ∙ sym e
    | inr (ev, e) ↦
        find-record_entry k event_id entry s
        ∙ ap
            (Option.map (λ (ev : ActionEvent).
              if ev.id == event_id then with_entry entry s.catalog.now ev else ev))
            e
        ∙ ap (λ c. some (if c then with_entry entry s.catalog.now ev else ev))
            (ap (λ i. i == event_id) (find-id k s.events ev e) ∙ f)
        ∙ sym e
  ]

  -- Condition: the event exists. However the task ends, whether it cannot be claimed, the executor
  -- raises or the agent answers, exactly one entry with that outcome is added to the event, and no
  -- other event changes. An event without a workflow run is then closed, and failed if the task was
  -- no success; otherwise both are left to the completion sweep.
  pub run_agent_task_lem :
      (ev : ActionEvent)
      → find_event event_id s.events ≡ some ev
      → Recorded ev (run_agent_task new_id agents event_id binding_id s)
        × ((k : String)
            → (k == event_id) ≡ false
            → find_event k (run_agent_task new_id agents event_id binding_id s).events
              ≡ find_event k s.events)
  run_agent_task_lem ev e =
      let same = events-run_agent_task ev e in
      (
        (
          with_entry entry s.catalog.now ev,
          ap (find_event event_id) same ∙ found_itself ev e,
          with_entry-IsRecorded entry s.catalog.now ev,
        ),
        λ k f. ap (find_event k) same ∙ others k f,
      )
