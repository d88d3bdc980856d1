-- ===== src/Actions/Once.antt =====
-- A second completion sweep finds nothing to do.
use vaic2026_charcalavong.Prelude.{
  ℕ, String, ◌≡◌, refl, sym, ap, ◌∙◌, subst, inl, inr, Bool-cases, Bool, true, false, true≢false,
  ◌&&◌, not, Option, none, some, List, [], ◌∷◌, arith, ◌==◌, if◌then◌else◌, string_eq, beq→≡,
  beq_refl, elem, elem_self, elem_cons, Distinct, Option-cases,
}
use mathlib.Core.Option
use vaic2026_charcalavong.Store.{WorkflowRun}
use vaic2026_charcalavong.Actions.{is_event_dispatched, is_some, ActionEvent, Desk}
use vaic2026_charcalavong.Actions.Dispatch.{find_event}
use vaic2026_charcalavong.Actions.Sweep.{
  ended_run, notify_entries, notified, mark_notified, sweep_if_ended, sweep_if_found, sweep_event,
  sweep_events, is_open, open_ids, notify_completed_events,
}
use vaic2026_charcalavong.Actions.Rows.{
  ids_of, find-id, find_event-update, found-listed, listed-found,
}
use vaic2026_charcalavong.Actions.Swept.{
  none≢some, Swept, sweep_events-Swept, notify_completed_events-Swept,
}

closed : (a b : Bool) → (a && not true && b) ≡ false
closed a b = ground arith

marked-closed :
    (id : String) (s : Desk) (ev : ActionEvent)
    → find_event id (mark_notified id s).events ≡ some ev
    → is_open ev ≡ false
unfolding mark_notified
marked-closed id s ev h =
    let found = sym (find_event-update id id notified s.events (λ ev. refl)) ∙ h in
    elim (Option-cases (find_event id s.events)) [
      | inl e ↦ absurd (
          none≢some ev (
            sym (ap (Option.map (λ (ev : ActionEvent). if ev.id == id then notified ev else ev)) e)
            ∙ found))
      | inr (ev1, e) ↦
          let found' : some (if ev1.id == id then notified ev1 else ev1) ≡ some ev =
            sym (ap (Option.map (λ (ev : ActionEvent). if ev.id == id then notified ev else ev)) e)
            ∙ found in
          let test : (ev1.id == id) ≡ true =
            ap (λ i. i == id) (find-id id s.events ev1 e) ∙ beq_refl id in
          let found'' : some (notified ev1) ≡ some ev =
            sym (ap (λ c. some (if c then notified ev1 else ev1)) test) ∙ found' in
          let same : notified ev1 ≡ ev = cc in
          subst (λ x. is_open x ≡ false) same
            (closed (is_event_dispatched ev1.status) (is_some ev1.workflow_run_id))
    ]

module _ (new_id : ℕ → String) where
  -- No row of an id is left with an ended run and without its notification.
  abbrev IsIdle : String → Desk → Type 0
  IsIdle k s =
      (ev : ActionEvent)
      → find_event k s.events ≡ some ev
      → is_open ev ≡ true
      → ended_run ev.workflow_run_id s.catalog.runs ≡ none

  IsIdle-Swept : (k : String) (s s' : Desk) → Swept s s' → IsIdle k s → IsIdle k s'
  IsIdle-Swept k s s' w idle ev' h is_open' =
      let (ev, h', c) = w.came k ev' h in
      elim c [
        | inl e ↦
            ap (λ (x : ActionEvent). ended_run x.workflow_run_id s'.catalog.runs) e
            ∙ ap (ended_run ev.workflow_run_id) w.same_runs
            ∙ idle ev h' (subst (λ x. is_open x ≡ true) e is_open')
        | inr e ↦ absurd (
            true≢false (
              sym is_open'
              ∙ ap is_open e
              ∙ closed (is_event_dispatched ev.status) (is_some ev.workflow_run_id)))
      ]

  -- After its round, a row is idle.
  IsIdle-ended :
      (ev0 : ActionEvent) (o : Option WorkflowRun) (s : Desk)
      → find_event ev0.id s.events ≡ some ev0
      → ended_run ev0.workflow_run_id s.catalog.runs ≡ o
      → IsIdle ev0.id (sweep_if_ended new_id ev0 o s)
  unfolding sweep_if_ended
  IsIdle-ended ev0 none s e ended ev h opened =
      let same : some ev0 ≡ some ev = sym e ∙ h in
      let same' : ev0 ≡ ev = cc in
      subst (λ (x : ActionEvent). ended_run x.workflow_run_id s.catalog.runs ≡ none) same' ended
  IsIdle-ended ev0 (some run) s e ended ev h opened =
      let s' = notify_entries new_id run ev0 ev0.result.dispatched s in
      absurd (true≢false (sym opened ∙ marked-closed ev0.id s' ev h))

  IsIdle-found :
      (id : String) (o : Option ActionEvent) (s : Desk)
      → find_event id s.events ≡ o
      → IsIdle id (sweep_if_found new_id o s)
  unfolding sweep_if_found
  IsIdle-found id none s e ev h opened = absurd (none≢some ev (sym e ∙ h))
  IsIdle-found id (some ev0) s e ev h opened =
      subst (λ i. IsIdle i (sweep_if_found new_id (some ev0) s)) (find-id id s.events ev0 e)
        (IsIdle-ended ev0 _ s
          (subst (λ i. find_event i s.events ≡ some ev0) (sym (find-id id s.events ev0 e)) e) refl)
        ev h opened

  IsIdle-swept :
      (ids : List String) (s : Desk) (k : String)
      → elem k ids ≡ true
      → IsIdle k (sweep_events new_id ids s)
  unfolding sweep_events sweep_event elem
  IsIdle-swept [] s k m = absurd (true≢false (sym m))
  IsIdle-swept (id ∷ ids) s k m = elim (Bool-cases (id == k)) [
    | inl t ↦
        IsIdle-Swept k (sweep_event new_id id s) _
          (sweep_events-Swept new_id ids (sweep_event new_id id s))
          (subst (λ i. IsIdle i (sweep_event new_id id s)) (beq→≡ id k t)
            (IsIdle-found id (find_event id s.events) s refl))
    | inr f ↦ IsIdle-swept ids (sweep_event new_id id s) k (ground arith)
  ]

  -- Whatever is open afterwards has no ended run.
  IsIdle-all : (k : String) (s : Desk) → IsIdle k (notify_completed_events new_id s)
  unfolding notify_completed_events open_ids
  IsIdle-all k s ev' h opened =
      let w = sweep_events-Swept new_id (open_ids s.events) s in
      let (ev, h', c) = w.came k ev' h in
      elim c [
        | inr e ↦ absurd (
            true≢false (
              sym opened
              ∙ ap is_open e
              ∙ closed (is_event_dispatched ev.status) (is_some ev.workflow_run_id)))
        | inl e ↦
            IsIdle-swept (open_ids s.events) s k
              (found-listed is_open k s.events ev h' (subst (λ x. is_open x ≡ true) e opened)) ev' h
              opened
      ]

  -- Rounds that find nothing to do
  sweep_events-none :
      (ids : List String) (s : Desk)
      → ((k : String) → elem k ids ≡ true → sweep_event new_id k s ≡ s)
      → sweep_events new_id ids s ≡ s
  unfolding sweep_events
  sweep_events-none [] s h = refl
  sweep_events-none (id ∷ ids) s h =
      ap (sweep_events new_id ids) (h id (elem_self id ids))
      ∙ sweep_events-none ids s (λ k m. h k (elem_cons id k ids m))

  sweep_event-none :
      (k : String) (s : Desk) (ev : ActionEvent)
      → find_event k s.events ≡ some ev
      → ended_run ev.workflow_run_id s.catalog.runs ≡ none
      → sweep_event new_id k s ≡ s
  unfolding sweep_event sweep_if_found sweep_if_ended
  sweep_event-none k s ev h ended =
      ap (λ o. sweep_if_found new_id o s) h ∙ ap (λ o. sweep_if_ended new_id ev o s) ended

  all_idle :
      (s : Desk)
      → ((k : String) → IsIdle k s)
      → Distinct (ids_of s.events)
      → notify_completed_events new_id s ≡ s
  unfolding notify_completed_events open_ids
  all_idle s idle d = sweep_events-none (open_ids s.events) s (λ k m.
      let (ev, h, opened) = listed-found is_open k s.events d m in
      sweep_event-none k s ev h (idle k ev h opened))

  -- Condition: the ids of the events are unique. A completion sweep right after another one
  -- changes nothing: no event whose run has ended is left without its mark, so nobody is notified
  -- of it a second time.
  pub notify_completed_events_once :
      (s : Desk)
      → Distinct (ids_of s.events)
      → notify_completed_events new_id (notify_completed_events new_id s)
        ≡ notify_completed_events new_id s
  notify_completed_events_once s d =
      all_idle (notify_completed_events new_id s) (λ k. IsIdle-all k s)
        (subst Distinct (sym (notify_completed_events-Swept new_id s).same_ids) d)
