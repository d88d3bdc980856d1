-- ===== src/Actions/Swept.antt =====
-- What the completion sweep leaves alone.
use vaic2026_charcalavong.Prelude.{
  ℕ, String, ◌≡◌, refl, sym, ap, ◌∙◌, subst, ◌≢◌, ◌⊎◌, inl, inr, Bool-cases, Option, none, some,
  List, [], ◌∷◌, arith, ◌==◌, if◌then◌else◌, string_eq, Option-cases,
}
use mathlib.Core.Option
use vaic2026_charcalavong.Store.{WorkflowRun, update_where, first_where}
use vaic2026_charcalavong.Actions.{ActionBinding, ActionEvent, Dispatched, Desk}
use vaic2026_charcalavong.Actions.Dispatch.{find_event, recipients}
use vaic2026_charcalavong.Actions.Sweep.{
  completed_notice, notify_binding, notify_entries, notified, mark_notified, sweep_if_ended,
  sweep_if_found, sweep_event, sweep_events, open_ids, notify_completed_events, action_id_of,
}
use vaic2026_charcalavong.Actions.Growth.{OnlyNotices, notify_users-OnlyNotices}
use vaic2026_charcalavong.Actions.Rows.{ids_of, find_event-update}

pub none≢some : (ev : ActionEvent) → none ≢ some ev
none≢some ev e = cc

abbrev pub SameOrNotified : ActionEvent → ActionEvent → Type 0
SameOrNotified ev ev' = (ev' ≡ ev) ⊎ (ev' ≡ notified ev)

-- The sweep changes `completed_notified` of events, and the notifications.
pub record Swept (s s' : Desk) : Type 0 where
  pub same_bindings : s'.bindings ≡ s.bindings
  pub same_workflows : s'.catalog.workflows ≡ s.catalog.workflows
  pub same_runs : s'.catalog.runs ≡ s.catalog.runs
  pub same_jobs : s'.jobs ≡ s.jobs
  pub same_ids : ids_of s'.events ≡ ids_of s.events
  pub kept :
      (k : String) (ev : ActionEvent)
      → find_event k s.events ≡ some ev
      → (ev' : ActionEvent) × (find_event k s'.events ≡ some ev') × SameOrNotified ev ev'
  pub came :
      (k : String) (ev' : ActionEvent)
      → find_event k s'.events ≡ some ev'
      → (ev : ActionEvent) × (find_event k s.events ≡ some ev) × SameOrNotified ev ev'

notified-twice :
    (a b c : ActionEvent) → SameOrNotified a b → SameOrNotified b c → SameOrNotified a c
notified-twice a b c (inl e) (inl e') = inl (e' ∙ e)
notified-twice a b c (inl e) (inr e') = inr (e' ∙ ap notified e)
notified-twice a b c (inr e) (inl e') = inr (e' ∙ e)
notified-twice a b c (inr e) (inr e') = inr (e' ∙ ap notified e)

Swept-here : (s s' : Desk) → OnlyNotices s s' → Swept s s'
Swept-here s s' n = record {
  same_bindings = n.same_bindings;
  same_workflows = n.same_workflows;
  same_runs = n.same_runs;
  same_jobs = n.same_jobs;
  same_ids = ap ids_of n.same_events;
  kept = λ k ev h. (ev, ap (find_event k) n.same_events ∙ h, inl refl);
  came = λ k ev h. (ev, sym (ap (find_event k) n.same_events) ∙ h, inl refl);
}

Swept-then : (s s' s'' : Desk) → Swept s s' → Swept s' s'' → Swept s s''
Swept-then s s' s'' a b = record {
  same_bindings = b.same_bindings ∙ a.same_bindings;
  same_workflows = b.same_workflows ∙ a.same_workflows;
  same_runs = b.same_runs ∙ a.same_runs;
  same_jobs = b.same_jobs ∙ a.same_jobs;
  same_ids = b.same_ids ∙ a.same_ids;
  kept = λ k ev h.
      let (ev', h', one) = a.kept k ev h in
      let (ev'', h'', two) = b.kept k ev' h' in (ev'', h'', notified-twice ev ev' ev'' one two);
  came = λ k ev'' h.
      let (ev', h', two) = b.came k ev'' h in
      let (ev, h'', one) = a.came k ev' h' in (ev, h'', notified-twice ev ev' ev'' one two);
}

OnlyNotices-here : (s : Desk) → OnlyNotices s s
OnlyNotices-here s = record {
  same_events = refl;
  same_bindings = refl;
  same_workflows = refl;
  same_runs = refl;
  same_jobs = refl;
}

OnlyNotices-then : (s s' s'' : Desk) → OnlyNotices s s' → OnlyNotices s' s'' → OnlyNotices s s''
OnlyNotices-then s s' s'' a b = record {
  same_events = b.same_events ∙ a.same_events;
  same_bindings = b.same_bindings ∙ a.same_bindings;
  same_workflows = b.same_workflows ∙ a.same_workflows;
  same_runs = b.same_runs ∙ a.same_runs;
  same_jobs = b.same_jobs ∙ a.same_jobs;
}

ids-mark :
    (id : String) (events : List ActionEvent)
    → ids_of (update_where (λ (ev : ActionEvent). ev.id == id) notified events) ≡ ids_of events
unfolding update_where
ids-mark id [] = refl
ids-mark id (e ∷ events) = ground (arith, ids-mark id events)

mark_notified-Swept : (id : String) (s : Desk) → Swept s (mark_notified id s)
unfolding mark_notified
mark_notified-Swept id s = record {
  same_bindings = refl;
  same_workflows = refl;
  same_runs = refl;
  same_jobs = refl;
  same_ids = ids-mark id s.events;
  kept = λ k ev h. (
    if ev.id == id then notified ev else ev,
    find_event-update k id notified s.events (λ ev. refl)
        ∙ ap (Option.map (λ (ev : ActionEvent). if ev.id == id then notified ev else ev)) h,
    either ev,
  );
  came = λ k ev' h. elim (Option-cases (find_event k s.events)) [
    | inl e ↦ absurd (
        none≢some ev' (
          sym (ap (Option.map (λ (ev : ActionEvent). if ev.id == id then notified ev else ev)) e)
          ∙ sym (find_event-update k id notified s.events (λ ev. refl))
          ∙ h))
    | inr (ev, e) ↦ (
      ev,
      e,
      settle ev ev' (
          sym (ap (Option.map (λ (ev : ActionEvent). if ev.id == id then notified ev else ev)) e)
          ∙ sym (find_event-update k id notified s.events (λ ev. refl))
          ∙ h),
    )
  ];
}
  where
    either : (ev : ActionEvent) → SameOrNotified ev (if ev.id == id then notified ev else ev)
    either ev = elim (Bool-cases (ev.id == id)) [
      | inl t ↦ inr (ap (λ c. if c then notified ev else ev) t)
      | inr f ↦ inl (ap (λ c. if c then notified ev else ev) f)
    ]

    settle :
        (ev ev' : ActionEvent)
        → some (if ev.id == id then notified ev else ev) ≡ some ev'
        → SameOrNotified ev ev'
    settle ev ev' e =
        let same : (if ev.id == id then notified ev else ev) ≡ ev' = cc in
        subst (SameOrNotified ev) same (either ev)

module _ (new_id : ℕ → String) where
  notify_binding-OnlyNotices :
      (run : WorkflowRun) (ev : ActionEvent) (o : Option ActionBinding) (s : Desk)
      → OnlyNotices s (notify_binding new_id run ev o s)
  unfolding notify_binding
  notify_binding-OnlyNotices run ev none s = OnlyNotices-here s
  notify_binding-OnlyNotices run ev (some b) s =
      notify_users-OnlyNotices new_id (completed_notice run ev b) (recipients b) s

  pub notify_entries-OnlyNotices :
      (run : WorkflowRun) (ev : ActionEvent) (entries : List Dispatched) (s : Desk)
      → OnlyNotices s (notify_entries new_id run ev entries s)
  unfolding notify_entries
  notify_entries-OnlyNotices run ev [] s = OnlyNotices-here s
  notify_entries-OnlyNotices run ev (d ∷ entries) s =
      let o = first_where (λ (b : ActionBinding). b.id == action_id_of d) s.bindings in
      OnlyNotices-then s (notify_binding new_id run ev o s) _
        (notify_binding-OnlyNotices run ev o s)
        (notify_entries-OnlyNotices run ev entries (notify_binding new_id run ev o s))

  sweep_if_ended-Swept :
      (ev : ActionEvent) (o : Option WorkflowRun) (s : Desk)
      → Swept s (sweep_if_ended new_id ev o s)
  unfolding sweep_if_ended
  sweep_if_ended-Swept ev none s = Swept-here s s (OnlyNotices-here s)
  sweep_if_ended-Swept ev (some run) s =
      let s' = notify_entries new_id run ev ev.result.dispatched s in
      Swept-then s s' _ (Swept-here s s' (notify_entries-OnlyNotices run ev ev.result.dispatched s))
        (mark_notified-Swept ev.id s')

  sweep_if_found-Swept : (o : Option ActionEvent) (s : Desk) → Swept s (sweep_if_found new_id o s)
  unfolding sweep_if_found
  sweep_if_found-Swept none s = Swept-here s s (OnlyNotices-here s)
  sweep_if_found-Swept (some ev) s = sweep_if_ended-Swept ev _ s

  pub sweep_event-Swept : (id : String) (s : Desk) → Swept s (sweep_event new_id id s)
  unfolding sweep_event
  sweep_event-Swept id s = sweep_if_found-Swept (find_event id s.events) s

  pub sweep_events-Swept : (ids : List String) (s : Desk) → Swept s (sweep_events new_id ids s)
  unfolding sweep_events
  sweep_events-Swept [] s = Swept-here s s (OnlyNotices-here s)
  sweep_events-Swept (id ∷ ids) s =
      Swept-then s (sweep_event new_id id s) _ (sweep_event-Swept id s)
        (sweep_events-Swept ids (sweep_event new_id id s))

  pub notify_completed_events-Swept : (s : Desk) → Swept s (notify_completed_events new_id s)
  unfolding notify_completed_events
  notify_completed_events-Swept s = sweep_events-Swept (open_ids s.events) s
